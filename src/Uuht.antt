-- ===== src/Uuht.antt =====
-- src/uuht.c: the hash table from uint32_t to uint32_t. A slot holds the mixed key in its low half
-- and the value in its high half. `uuht_contains`, `uuht_lookup_or`, `uuht_lookup_or_set`,
-- `uuht_set` and `uuht_set_if_absent` repeat one probing loop and differ in what they do where it
-- ends: here the loop is `RobinHood.probe`, and each function is written over its outcome.
-- `none` means that a loop ran out of fuel. Memory is taken to be always granted.
pub mod Hash
pub mod Slots
pub mod Entries
pub mod Valid
pub mod Lookup
pub mod Update
pub mod Laws
pub mod Insert
pub mod Maps
use polyfill_glibc.Base.{
  ℕ, ◌+◌, ◌*◌, ◌^◌, Bool, true, false, Option, none, some, List, bit_or, bit_xor, u32, u64, ◌>>>◌,
  leb, ◌==◌, if◌then◌else◌, set as write, length, replicate,
}
use polyfill_glibc.RobinHood.{Probe, free, hit, rich, probe, reinsert, rehash_table}

pub record Uuht : Type 0 where
  pub table : List ℕ
  pub mask : ℕ
  pub count : ℕ

unfoldable pub init : Uuht
init = record { table = replicate 8 0; mask = 7; count = 0 }

unfoldable pub clear : Uuht → Uuht
clear u = record { table = replicate (u.mask + 1) 0; mask = u.mask; count = 0 }

-- `h ^= h >> k`
abbrev pub xor_shift_right : ℕ → ℕ → ℕ
xor_shift_right k h = bit_xor h (h >>> k)

unfoldable pub hash : ℕ → ℕ
hash k =
    let h₁ = xor_shift_right 16 k in
    let h₂ = u32 (h₁ * 0x21f0aaad) in
    let h₃ = xor_shift_right 15 h₂ in let h₄ = u32 (h₃ * 0xd35a2d97) in xor_shift_right 15 h₄

unfoldable pub unhash : ℕ → ℕ
unhash h =
    let h₁ = xor_shift_right 30 (xor_shift_right 15 h) in
    let h₂ = u32 (h₁ * 0x37132227) in
    let h₃ = xor_shift_right 30 (xor_shift_right 15 h₂) in
    let h₄ = u32 (h₃ * 0x333c4925) in xor_shift_right 16 h₄

-- `k | (((uint64_t)v) << 32)`, with `k` already mixed
unfoldable pub pack : ℕ → ℕ → ℕ
pack k v = bit_or k (u64 (v * 2 ^ 32))

-- `(uint32_t)(slot >> 32)`
abbrev pub value : ℕ → ℕ
value slot = u32 (slot >>> 32)

-- Every key of a table has a slot of its own hash, so the hash alone tells keys apart.
abbrev pub any_key : ℕ → Bool
any_key _ = true

-- The loop of the five functions, on a mixed key.
abbrev pub find : Uuht → ℕ → Option Probe
find u k = probe any_key (length u.table) u.table u.mask k 0

-- What `uuht_contains` and `uuht_lookup_or` return where the loop ends.
abbrev pub found_slot : Probe → ℕ
found_slot (free _) = 0
found_slot (hit _ slot) = slot
found_slot (rich _ _ _) = 0

abbrev pub found_value : ℕ → Probe → ℕ
found_value default_v (free _) = default_v
found_value default_v (hit _ slot) = value slot
found_value default_v (rich _ _ _) = default_v

unfoldable pub contains : Uuht → ℕ → Option ℕ
contains u k = elim (find u (hash k)) [ none ↦ none | some r ↦ some (found_slot r) ]

unfoldable pub lookup_or : Uuht → ℕ → ℕ → Option ℕ
lookup_or u k default_v = elim (find u (hash k)) [
  | none ↦ none
  | some r ↦ some (found_value default_v r)
]

-- `uuht_rehash`
unfoldable pub rehash : Uuht → Option Uuht
rehash u = elim (rehash_table u.table u.mask) [
  | none ↦ none
  | some t ↦ some (record { table = t; mask = u32 (u.mask * 2 + 1); count = u.count })
]

-- `if (++uuht->count * 4ull >= mask * 3ull) uuht_rehash(uuht);`, on the table just written
unfoldable pub count_one_more : Uuht → Option Uuht
unfolding rehash
count_one_more u =
    let u' : Uuht = record u { count = u32 (u.count + 1) } in
    if leb (u.mask * 3) (u'.count * 4) then rehash u' else some u'

-- The end of an insertion at an empty slot.
unfoldable pub put_free : Uuht → ℕ → ℕ → Option Uuht
put_free u idx slot =
    let u' : Uuht = record u { table = write u.table idx slot } in
    if slot == 0 then some u' else count_one_more u'

-- The end of an insertion at a slot that gives way.
unfoldable pub put_rich : Uuht → ℕ → ℕ → ℕ → ℕ → ℕ → Option Uuht
put_rich u idx slot d2 k v =
    if bit_or k v == 0
    then some u
    else elim (reinsert (length u.table) (write u.table idx (pack k v)) u.mask slot d2) [
      | none ↦ none
      | some t ↦ count_one_more (record u { table = t })
    ]

-- The result of an insertion, beside the table it leaves.
abbrev pub returning : ℕ → Option Uuht → Option (ℕ × Uuht)
returning result none = none
returning result (some u) = some (result, u)

-- The end of the loop in `uuht_lookup_or_set` and in `uuht_set_if_absent`, which return the value
-- found, or else `fresh`.
abbrev pub insert_at : Uuht → ℕ → ℕ → ℕ → Probe → Option (ℕ × Uuht)
insert_at u k v fresh (free idx) = returning fresh (put_free u idx (pack k v))
insert_at u k v fresh (hit _ slot) = some (value slot, u)
insert_at u k v fresh (rich idx slot d2) = returning fresh (put_rich u idx slot d2 k v)

-- The new slot is written over the old one, unless it is zero.
abbrev pub overwrite : Uuht → ℕ → ℕ → Uuht
overwrite u idx slot = if slot == 0 then u else record u { table = write u.table idx slot }

-- The end of the loop in `uuht_set`.
abbrev pub set_at : Uuht → ℕ → ℕ → Probe → Option (ℕ × Uuht)
set_at u k v (free idx) = returning 0 (put_free u idx (pack k v))
set_at u k v (hit idx slot) = some (value slot, overwrite u idx (pack k v))
set_at u k v (rich idx slot d2) = returning 0 (put_rich u idx slot d2 k v)

unfoldable pub lookup_or_set : Uuht → ℕ → ℕ → Option (ℕ × Uuht)
lookup_or_set u k v = elim (find u (hash k)) [ none ↦ none | some r ↦ insert_at u (hash k) v v r ]

unfoldable pub set_if_absent : Uuht → ℕ → ℕ → Option (ℕ × Uuht)
set_if_absent u k v = elim (find u (hash k)) [ none ↦ none | some r ↦ insert_at u (hash k) v 0 r ]

unfoldable pub set : Uuht → ℕ → ℕ → Option (ℕ × Uuht)
set u k v = elim (find u (hash k)) [ none ↦ none | some r ↦ set_at u (hash k) v r ]
