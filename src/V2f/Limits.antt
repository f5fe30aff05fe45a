-- ===== src/V2f/Limits.antt =====
-- The bounds of the entries as one increasing sequence from 0 to 2 ^ 64, and what is in it.
use polyfill_glibc.Base.{ℕ, zero, suc, ◌+◌, ◌-◌, ◌^◌, ◌≤◌, ◌<◌, ◌≡◌, ap, arith}
use native.Mathlib.Decide.{dec_lt}

-- `lim 0 < lim 1 < ... < lim count`
pub record IsSplit (lim : ℕ → ℕ) (count : ℕ) : Type 0 where
  pub first : lim 0 ≡ 0
  pub last : lim count ≡ 2 ^ 64
  pub rises : (i : ℕ) → i < count → lim i < lim (suc i)

-- The part `i` holds `x`.
pub record Covers (lim : ℕ → ℕ) (count i x : ℕ) : Type 0 where
  pub inside : i < count
  pub from : lim i ≤ x
  pub below : x < lim (suc i)

module _ {lim : ℕ → ℕ} {count : ℕ} (s : IsSplit lim count) where
  climb : (i n : ℕ) → i + n ≤ count → lim i ≤ lim (i + n)
  climb i zero h = let same : i + 0 ≡ i = omega arith in omega (arith, ap lim same)
  climb i (suc n) h =
      let next : i + suc n ≡ suc (i + n) = omega arith in
      omega (arith, climb i n (omega arith), s.rises (i + n) (omega arith), ap lim next)

  pub monotone : (i j : ℕ) → i ≤ j → j ≤ count → lim i ≤ lim j
  monotone i j h lt =
      let there : i + (j - i) ≡ j = omega arith in
      omega (arith, climb i (j - i) (omega arith), ap lim there)

  pub parts_below : (i : ℕ) → i ≤ count → lim i ≤ 2 ^ 64
  parts_below i h = omega (arith, monotone i count h (omega arith), s.last)

  -- The part of `x` is before `j` if `x` is below its bound, and not before `j` otherwise.
  pub part-before : {i j x : ℕ} → Covers lim count i x → x < lim j → i < j
  part-before {i} {j} {x} c h = elim (dec_lt i j) [
    | yes before ↦ before
    | no after ↦
        absurd (ground (arith, monotone j i (omega arith) (omega (arith, c.inside)), c.from))
  ]

  pub part-after : {i j x : ℕ} → Covers lim count i x → lim j ≤ x → j ≤ count → j ≤ i
  part-after {i} {j} {x} c h lt = elim (dec_lt i j) [
    | no after ↦ omega arith
    | yes before ↦ absurd (ground (arith, monotone (suc i) j (omega arith) lt, c.below))
  ]
