-- ===== src/V2f/Inserting.antt =====
-- The parts of a map after a record has been laid over them.
use polyfill_glibc.Base.{
  ℕ, suc, ◌+◌, ◌-◌, ◌^◌, ◌≤◌, ◌<◌, ◌≡◌, ◌≢◌, refl, ap, ◌∙◌, arith, length, u32,
}
use native.Mathlib.Decide.{ℕ_discrete}
use polyfill_glibc.V2f.Cells.{length-move, move_below, move_moved}
use polyfill_glibc.V2f.Valid.{IsValid}
use polyfill_glibc.V2f.{V2fMap, Place, entry, move, make_space}

-- What the cells are after the `memmove`.
pub record Spaced (m : V2fMap) (p : Place) (m₁ : V2fMap) : Type 0 where
  pub cells : length m₁.entries ≡ m.capacity
  pub capacity_same : m₁.capacity ≡ m.capacity
  pub count_is : m₁.count ≡ p.itr + (m.count + 1 - p.tail)
  pub below : (i : ℕ) → i < p.itr → entry m₁.entries i ≡ entry m.entries i
  pub moved :
      (j : ℕ)
      → j < m.count + 1 - p.tail
      → entry m₁.entries (p.itr + 1 + j) ≡ entry m.entries (p.tail + j)
  pub cache : m₁.cached < m₁.count

module _ (m : V2fMap) (v : IsValid m) (p : Place) (spare : m.count + 2 < m.capacity)
    (small : m.capacity < 2 ^ 32) (tail_le : p.tail ≤ m.count) (itr_le : p.itr ≤ suc p.tail) where
  abbrev nb : ℕ
  nb = m.count + 1 - p.tail

  make_space-same : p.itr + 1 ≡ p.tail → make_space m p ≡ m
  unfolding make_space
  make_space-same e = ground arith

  abbrev shifted : V2fMap
  shifted = record m {
    entries = move m.entries (p.itr + 1) p.tail nb;
    count = u32 (p.itr + nb);
    cached = p.itr;
  }

  make_space-moves : p.itr + 1 ≢ p.tail → make_space m p ≡ shifted
  unfolding make_space
  make_space-moves ne = ground arith

  to : p.itr + 1 + nb ≤ length m.entries
  to = omega (arith, v.cells)

  from : p.tail + nb ≤ length m.entries
  from = omega (arith, v.cells)

  pub make_space-Spaced : Spaced m p (make_space m p)
  make_space-Spaced = elim (ℕ_discrete (p.itr + 1) p.tail) [
    | yes e ↦ rw (make_space-same e) (record {
      cells = v.cells;
      capacity_same = refl;
      count_is = omega arith;
      below = λ i h. refl;
      moved = λ j h. ap (λ (k : ℕ). entry m.entries (k + j)) e;
      cache = v.cache;
    })
    | no ne ↦ rw (make_space-moves ne) (record {
      cells = length-move m.entries (p.itr + 1) p.tail nb to from ∙ v.cells;
      capacity_same = refl;
      count_is = omega arith;
      below = λ i h. move_below m.entries (p.itr + 1) p.tail nb to from i (omega arith);
      moved = move_moved m.entries (p.itr + 1) p.tail nb to from;
      cache = omega arith;
    })
  ]
