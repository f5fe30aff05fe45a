-- ===== src/V2f.antt =====
-- src/v2f.c: the sorted map from virtual addresses to file offsets. Entry i covers the addresses
-- from its `vbase` to the one before the `vbase` of entry i + 1. The entry after the last one has
-- the `vbase` 0, which is 2 ^ 64 wrapped. The C pointers into the array are indices here, and the
-- array is the list of all its `capacity` cells. Memory is taken to be always granted, and a cell
-- that the code has not yet written holds zeros.
pub mod Cells
pub mod Limits
pub mod Splicing
pub mod Valid
pub mod Walking
pub mod Placing
pub mod Growing
pub mod Inserting
pub mod Written
pub mod Laying
pub mod Setting
pub mod Looking
pub mod Offsets
use polyfill_glibc.Base.{
  ℕ, zero, suc, ◌+◌, ◌-◌, ◌*◌, ◌^◌, Bool, true, false, not, ◌&&◌, Option, none, some, List, ◌++◌,
  bit_and, bit_or, u32, u64, sub64, ltb, leb, ◌==◌, if◌then◌else◌, get_or, set, take, drop,
  replicate,
}

pub record V2fEntry : Type 0 where
  pub vbase : ℕ
  pub v2f : ℕ

pub record V2fMap : Type 0 where
  pub cached : ℕ
  pub entries : List V2fEntry
  pub count : ℕ
  pub capacity : ℕ

abbrev pub blank : V2fEntry
blank = record { vbase = 0; v2f = 0 }

-- The map before its first use.
abbrev pub unused : V2fMap
unused = record { cached = 0; entries = replicate 0 blank; count = 0; capacity = 0 }

abbrev pub entry : List V2fEntry → ℕ → V2fEntry
entry entries i = get_or entries i blank

abbrev pub base : List V2fEntry → ℕ → ℕ
base entries i = (entry entries i).vbase

-- `v2f_map_init`
unfoldable pub init : V2fMap → ℕ → V2fMap
init m initial_v2f =
    let m₁ : V2fMap =
      if m.capacity == 0
      then record m { capacity = 4; entries = replicate 4 blank; cached = 0 }
      else m in
    let first : V2fEntry = record { vbase = 0; v2f = initial_v2f } in
    record m₁ { count = 1; entries = set (set m₁.entries 0 first) 1 first }

-- `while (v < itr->vbase) --itr;`. The first entry starts at 0, so the loop stops there.
unfoldable pub walk_down : List V2fEntry → ℕ → ℕ → ℕ
walk_down entries v zero = zero
walk_down entries v (suc i) =
    let rest = walk_down entries v i in if ltb v (base entries (suc i)) then rest else suc i

-- `if (m->count + 2 >= m->capacity) ...`
unfoldable pub ensure_capacity : V2fMap → V2fMap
ensure_capacity m =
    let new_capacity = u32 (m.capacity * 2) in
    if leb m.capacity (u32 (m.count + 2))
    then record m {
      entries = m.entries ++ replicate (new_capacity - m.capacity) blank;
      cached = 0;
      capacity = new_capacity;
    }
    else m

-- `memmove` of `n` cells from `src` to `dst`
abbrev pub move : List V2fEntry → ℕ → ℕ → ℕ → List V2fEntry
move entries dst src n = take dst entries ++ (take n (drop src entries) ++ drop (dst + n) entries)

-- Where the new record goes and what it says: from `start` to `end_`, at `itr`, before `tail`.
pub record Place : Type 0 where
  pub itr : ℕ
  pub start : ℕ
  pub tail : ℕ
  pub end_ : ℕ

-- "Remove redundant entries at itr."
abbrev pub start_itr : List V2fEntry → ℕ → ℕ → ℕ
start_itr entries itr vbase = if base entries itr == vbase then itr else suc itr

unfoldable pub merge_left : List V2fEntry → ℕ → ℕ → ℕ → ℕ × ℕ
merge_left entries itr vbase v2f =
    if not (vbase == 0) && ((entry entries (itr - 1)).v2f == v2f)
    then (itr - 1, base entries (itr - 1))
    else (itr, vbase)

-- "Remove redundant entries at tail."
abbrev pub end_tail : List V2fEntry → ℕ → ℕ → ℕ → ℕ
end_tail entries last tail vend =
    if ltb tail last && (sub64 (base entries (suc tail)) 1 == vend) then suc tail else tail

unfoldable pub merge_right : List V2fEntry → ℕ → ℕ → ℕ → ℕ → ℕ × ℕ
merge_right entries last tail vend v2f =
    if ltb tail last && ((entry entries tail).v2f == v2f)
    then (suc tail, sub64 (base entries (suc tail)) 1)
    else (tail, vend)

unfoldable pub place : List V2fEntry → ℕ → ℕ → ℕ → ℕ → Place
unfolding merge_left merge_right walk_down
place entries count vbase size v2f =
    let vend = sub64 (u64 (vbase + size)) 1 in
    let tail = walk_down entries vend (count - 1) in
    let itr = walk_down entries vbase tail in
    let (itr', start) = merge_left entries (start_itr entries itr vbase) vbase v2f in
    let (tail', end_) = merge_right entries count (end_tail entries count tail vend) vend v2f in
    record { itr = itr'; start = start; tail = tail'; end_ = end_ }

-- "Make space for new record."
unfoldable pub make_space : V2fMap → Place → V2fMap
make_space m at_ =
    let nb = m.count + 1 - at_.tail in
    if at_.itr + 1 == at_.tail then m else record m {
      entries = move m.entries (at_.itr + 1) at_.tail nb;
      count = u32 (at_.itr + nb);
      cached = at_.itr;
    }

-- "Insert new record."
abbrev pub written : List V2fEntry → Place → ℕ → List V2fEntry
written entries at_ v2f =
    set (set entries at_.itr (record { vbase = at_.start; v2f = v2f })) (at_.itr + 1)
      (record (entry entries (at_.itr + 1)) { vbase = u64 (at_.end_ + 1) })

unfoldable pub insert_record : V2fMap → Place → ℕ → V2fMap
unfolding make_space
insert_record m at_ v2f =
    let m₁ = make_space m at_ in record m₁ { entries = written m₁.entries at_ v2f }

-- `v2f_map_set_range`
unfoldable pub set_range : V2fMap → ℕ → ℕ → ℕ → V2fMap
unfolding ensure_capacity place insert_record
set_range m vbase size v2f =
    if size == 0
    then m
    else let m₁ = ensure_capacity m in
      insert_record m₁ (place m₁.entries m₁.count vbase size v2f) v2f

-- `do { ++cached; } while (v > (cached[1].vbase - 1));`
unfoldable pub walk_up : ℕ → List V2fEntry → ℕ → ℕ → Option ℕ
walk_up zero entries v i = none
walk_up (suc fuel) entries v i =
    let rest = walk_up fuel entries v (suc i) in
    if ltb (sub64 (base entries (suc (suc i))) 1) v then rest else some (suc i)

abbrev pub now_cached : V2fMap → Option ℕ → Option (ℕ × V2fMap)
now_cached m none = none
now_cached m (some i) = some (i, record m { cached = i })

-- `v2f_map_lookup`: the index of the entry found, which is then the cached one. `none` means that
-- the loop upwards passed the end of the array.
unfoldable pub lookup : V2fMap → ℕ → Option (ℕ × V2fMap)
unfolding walk_up walk_down
lookup m v =
    if leb (base m.entries m.cached) v
    then (if leb v (sub64 (base m.entries (suc m.cached)) 1)
        then some (m.cached, m)
        else now_cached m (walk_up m.capacity m.entries v m.cached))
    else now_cached m (some (walk_down m.entries v (m.cached - 1)))

abbrev pub v2f_special : ℕ
v2f_special = bit_or 1 2

-- The loop of `v2f_map_lookup_f_range`, over the `n` entries from `i` on.
unfoldable pub lookup_f_from : List V2fEntry → ℕ → ℕ → ℕ → ℕ → Option ℕ
lookup_f_from entries zero i f size = none
lookup_f_from entries (suc n) i f size =
    let rest = lookup_f_from entries n (suc i) f size in
    let delta = (entry entries i).v2f in
    let itrf = u64 (base entries i + delta) in
    let itr1f = u64 (base entries (suc i) + delta) in
    if not (bit_and delta v2f_special == 0)
    then rest
    else if ltb f itrf
    then rest
    else if leb itr1f f
    then rest
    else if ltb (sub64 itr1f f) size
    then rest
    else some i

-- `v2f_map_lookup_f_range`
unfoldable pub lookup_f_range : V2fMap → ℕ → ℕ → Option ℕ
unfolding lookup_f_from
lookup_f_range m f size = lookup_f_from m.entries m.count 0 f size
