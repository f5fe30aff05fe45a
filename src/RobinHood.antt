-- ===== src/RobinHood.antt =====
-- The open-addressing table that src/uuht.c and src/sht.c share: a power of two of 64-bit slots,
-- a hash in the low half of a slot and a value in the high half, zero for an empty slot, and
-- robin-hood displacement. Both files hold the same text of `reinsert` and of the rehash loop.
-- A loop carries fuel, and `none` means that the fuel ran out.
pub mod Index
pub mod Count
pub mod Order
pub mod Placing
pub mod Probing
pub mod Inserting
pub mod Rehashing
pub mod Entries
pub mod Growing
use polyfill_glibc.Base.{
  ℕ, zero, suc, ◌+◌, ◌*◌, ◌^◌, Bool, true, false, Option, none, some, List, [], ◌∷◌, bit_and, u32,
  sub32, ltb, ◌==◌, if◌then◌else◌, get_or, set, length, replicate,
}

-- `((uint32_t)hv + d) & mask`
unfoldable pub probe_index : ℕ → ℕ → ℕ → ℕ
probe_index mask hv d = bit_and (u32 (u32 hv + d)) mask

-- `(idx - (uint32_t)slot) & mask`: how far the slot at `idx` is from its home.
unfoldable pub slot_distance : ℕ → ℕ → ℕ → ℕ
slot_distance mask idx slot = bit_and (sub32 idx (u32 slot)) mask

-- `reinsert(table, mask, hv, d)`
unfoldable pub reinsert : ℕ → List ℕ → ℕ → ℕ → ℕ → Option (List ℕ)
reinsert zero table mask hv d = none
reinsert (suc fuel) table mask hv d =
    let idx = probe_index mask hv d in
    let slot = get_or table idx 0 in
    let d2 = slot_distance mask idx slot in
    elim (slot == 0) [
      | true ↦ some (set table idx hv)
      | false ↦ elim (ltb d2 d) [
        | true ↦ reinsert fuel (set table idx hv) mask slot (u32 (d2 + 1))
        | false ↦ reinsert fuel table mask hv (u32 (d + 1))
      ]
    ]

-- How the probing loop of a lookup or an insertion ends: at an empty slot, at the slot of the
-- key, or at a slot that is nearer to its home (`d2 < d`).
pub data Probe : Type 0 where
  free : ℕ → Probe
  hit : ℕ → ℕ → Probe
  rich : ℕ → ℕ → ℕ → Probe

-- The probing loop, over the test that tells the key from another key of the same hash.
unfoldable pub probe : (ℕ → Bool) → ℕ → List ℕ → ℕ → ℕ → ℕ → Option Probe
probe same_key zero table mask hash d = none
probe same_key (suc fuel) table mask hash d =
    let idx = probe_index mask hash d in
    let slot = get_or table idx 0 in
    let d2 = slot_distance mask idx slot in
    let on = probe same_key fuel table mask hash (u32 (d + 1)) in
    if slot == 0
    then some (free idx)
    else if u32 slot == hash
    then (if same_key slot then some (hit idx slot) else on)
    else if ltb d2 d
    then some (rich idx slot d2)
    else on

-- `do { if (slot) reinsert(new_table, new_mask, slot, 0); } while (idx++ != old_mask);`
unfoldable pub reinsert_all : List ℕ → List ℕ → ℕ → Option (List ℕ)
reinsert_all [] new_table new_mask = some new_table
reinsert_all (slot ∷ slots) new_table new_mask =
    if slot == 0
    then reinsert_all slots new_table new_mask
    else elim (reinsert (length new_table) new_table new_mask slot 0) [
      | none ↦ none
      | some t ↦ reinsert_all slots t new_mask
    ]

-- The table that replaces `table` when it is rehashed.
unfoldable pub rehash_table : List ℕ → ℕ → Option (List ℕ)
rehash_table table mask =
    let new_mask = u32 (mask * 2 + 1) in reinsert_all table (replicate (new_mask + 1) 0) new_mask
