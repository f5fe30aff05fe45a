-- ===== src/V2f/Setting.antt =====
-- `v2f_map_set_range` as an update of a function on the addresses.
use polyfill_glibc.Base.{
  ℕ, ◌+◌, ◌^◌, ◌≤◌, ◌<◌, ◌≡◌, ◌≢◌, ◌⊎◌, inl, inr, arith, ◌&&◌, if◌then◌else◌, ltb, leb,
}
use native.Mathlib.Decide.{dec_lt}
use polyfill_glibc.V2f.Growing.{ensure_capacity-Keeps}
use polyfill_glibc.V2f.Valid.{IsValid, Maps}
use polyfill_glibc.V2f.Laying.{
  set_range-run, insert-IsValid, insert-before, insert-inside, insert-after,
}
use polyfill_glibc.V2f.{V2fMap, set_range, ensure_capacity}

-- After `v2f_map_set_range` the map is valid; it says `w` of the addresses of the range, and of
-- every other address what it said before.
pub record Ranged (m : V2fMap) (vbase size w : ℕ) (m' : V2fMap) : Type 0 where
  pub valid : IsValid m'
  pub maps :
      (x y : ℕ) → Maps m x y → Maps m' x (if leb vbase x && ltb x (vbase + size) then w else y)

module _ (m : V2fMap) (v : IsValid m) (small : m.capacity < 2 ^ 31) (vbase size w : ℕ)
    (nz : size ≢ 0) (inside : vbase + size ≤ 2 ^ 64) where
  -- `v2f_map_set_range` on a valid map leaves a valid map, which says the new value of every address of the range
  -- and of every other address what it said before, if the array is not too large to be doubled
  -- and the range is not empty and does not pass the last address.
  pub set_range-Ranged : Ranged m vbase size w (set_range m vbase size w)
  set_range-Ranged =
      let k = ensure_capacity-Keeps m v small in
      rw (set_range-run m vbase size w nz) (record {
        valid = insert-IsValid (ensure_capacity m) k.valid vbase size w nz inside k.spare k.small;
        maps = λ x y h. elim (dec_lt x vbase) [
          | yes lt ↦ rw (outside y x (inl lt)) (
              insert-before (ensure_capacity m) k.valid vbase size w nz inside k.spare k.small x y
                lt (k.maps x y h))
          | no ge ↦ elim (dec_lt x (vbase + size)) [
            | yes lt ↦ rw (within y x (omega arith) lt) (
                insert-inside (ensure_capacity m) k.valid vbase size w nz inside k.spare k.small x
                  (omega arith) lt)
            | no past ↦ rw (outside y x (inr (omega arith))) (
                insert-after (ensure_capacity m) k.valid vbase size w nz inside k.spare k.small x y
                  (omega arith) (k.maps x y h))
          ]
        ];
      })
    where
      outside :
          (y x : ℕ)
          → (x < vbase) ⊎ (vbase + size ≤ x)
          → (if leb vbase x && ltb x (vbase + size) then w else y) ≡ y
      outside y x (inl lt) = ground arith
      outside y x (inr ge) = ground arith

      within :
          (y x : ℕ)
          → vbase ≤ x
          → x < vbase + size
          → (if leb vbase x && ltb x (vbase + size) then w else y) ≡ w
      within y x le lt = ground arith
