-- ===== src/V2f/Valid.antt =====
-- The well-formed maps.
use polyfill_glibc.Base.{
  ℕ, suc, ◌-◌, ◌^◌, ◌≤◌, ◌<◌, List, ◌≡◌, ap, arith, ◌==◌, if◌then◌else◌, length, sub64,
}
use native.Mathlib.Decide.{ℕ_discrete}
use polyfill_glibc.V2f.Limits.{IsSplit, Covers, parts_below}
use polyfill_glibc.V2f.{V2fMap, V2fEntry, base, entry}

-- Where the parts start, with 2 ^ 64 for the entry after the last one.
unfoldable pub limit : List V2fEntry → ℕ → ℕ → ℕ
limit entries count i = if i == count then 2 ^ 64 else base entries i

-- The entries split the addresses, and all that the code reads and writes is inside the array.
pub record IsValid (m : V2fMap) : Type 0 where
  pub cells : length m.entries ≡ m.capacity
  pub room : m.count < m.capacity
  pub cache : m.cached < m.count
  pub split : IsSplit (limit m.entries m.count) m.count
  pub sentinel : base m.entries m.count ≡ 0

-- The map says `w` of the address `x`.
pub record Maps (m : V2fMap) (x w : ℕ) : Type 0 where
  pub part : ℕ
  pub covers : Covers (limit m.entries m.count) m.count part x
  pub says : (entry m.entries part).v2f ≡ w

module _ (es : List V2fEntry) (count : ℕ) where
  pub limit-in : (i : ℕ) → i < count → limit es count i ≡ base es i
  unfolding limit
  limit-in i h = ground arith

  pub limit-last : limit es count count ≡ 2 ^ 64
  unfolding limit
  limit-last = ground arith

  module _ (s : IsSplit (limit es count) count) (sentinel : base es count ≡ 0) where
    -- `vbase - 1` wraps to the last address of the part before.
    pub base-last : (i : ℕ) → suc i ≤ count → sub64 (base es (suc i)) 1 ≡ limit es count (suc i) - 1
    base-last i h = elim (ℕ_discrete (suc i) count) [
      | yes e ↦ omega (
        arith,
        ap (λ (k : ℕ). base es k) e,
        sentinel,
        ap (λ (k : ℕ). limit es count k) e,
        limit-last,
      )
      | no ne ↦ omega (
        arith,
        limit-in (suc i) (omega arith),
        s.rises i h,
        s.rises (suc i) (omega arith),
        parts_below s (suc (suc i)) (omega arith),
      )
    ]
