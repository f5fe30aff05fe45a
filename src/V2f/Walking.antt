-- ===== src/V2f/Walking.antt =====
-- The loops downwards, and the branches of the trimming, one by one.
use polyfill_glibc.Base.{
  ℕ, zero, suc, ◌≤◌, ◌<◌, List, ◌≡◌, ◌≢◌, ◌⊎◌, inl, inr, refl, ap, arith, sub64,
}
use native.Mathlib.Decide.{ℕ_discrete, dec_lt}
use polyfill_glibc.V2f.{
  V2fEntry, base, entry, walk_down, start_itr, merge_left, end_tail, merge_right,
}

-- The loop downwards stops at the part of `v`, if that is not above `i`.
pub record Walked (es : List V2fEntry) (v i j : ℕ) : Type 0 where
  pub le : j ≤ i
  pub from : base es j ≤ v
  pub below : j < i → v < base es (suc j)

pub walk_down-lower :
    (es : List V2fEntry) (v i : ℕ) → v < base es (suc i) → walk_down es v (suc i) ≡ walk_down es v i
unfolding walk_down
walk_down-lower es v i lt = ground arith

pub walk_down-here :
    (es : List V2fEntry) (v i : ℕ) → base es (suc i) ≤ v → walk_down es v (suc i) ≡ suc i
unfolding walk_down
walk_down-here es v i le = ground arith

pub walk_down-zero : (es : List V2fEntry) (v : ℕ) → walk_down es v 0 ≡ 0
unfolding walk_down
walk_down-zero es v = refl

pub walk_down-Walked :
    (es : List V2fEntry) (v i : ℕ) → base es 0 ≡ 0 → Walked es v i (walk_down es v i)
walk_down-Walked es v zero z =
    rw (walk_down-zero es v)
      (record { le = omega arith; from = omega (arith, z); below = λ h. absurd (omega arith) })
walk_down-Walked es v (suc i) z =
    let w = walk_down-Walked es v i z in
    elim (dec_lt v (base es (suc i))) [
      | yes lt ↦
          rw (walk_down-lower es v i lt)
            (record { le = omega (arith, w.le); from = w.from; below = λ _. below w lt })
      | no ge ↦
          rw (walk_down-here es v i (omega arith))
            (record { le = omega arith; from = omega arith; below = λ h. absurd (omega arith) })
    ]
  where
    below : {j : ℕ} → Walked es v i j → v < base es (suc i) → v < base es (suc j)
    below {j} w lt = elim (ℕ_discrete j i) [
      | yes e ↦ omega (arith, ap (λ (k : ℕ). base es (suc k)) e)
      | no ne ↦ w.below (omega (arith, w.le))
    ]

module _ (es : List V2fEntry) (vbase v2f : ℕ) where
  pub merge_left-zero : (itr : ℕ) → vbase ≡ 0 → merge_left es itr vbase v2f ≡ (itr, vbase)
  unfolding merge_left
  merge_left-zero itr z = ground arith

  pub merge_left-stay :
      (q : ℕ) → (entry es q).v2f ≢ v2f → merge_left es (suc q) vbase v2f ≡ (suc q, vbase)
  unfolding merge_left
  merge_left-stay q ne = ground arith

  pub merge_left-merge :
      (q : ℕ)
      → vbase ≢ 0
      → (entry es q).v2f ≡ v2f
      → merge_left es (suc q) vbase v2f ≡ (q, base es q)
  unfolding merge_left
  merge_left-merge q nz same = ground arith

  pub start_itr-here : (itr : ℕ) → base es itr ≡ vbase → start_itr es itr vbase ≡ itr
  start_itr-here itr e = ground arith

  pub start_itr-next : (itr : ℕ) → base es itr ≢ vbase → start_itr es itr vbase ≡ suc itr
  start_itr-next itr e = ground arith

module _ (es : List V2fEntry) (count vend : ℕ) where
  pub merge_right-stay :
      (tail v2f : ℕ)
      → (tail ≡ count) ⊎ ((entry es tail).v2f ≢ v2f)
      → merge_right es count tail vend v2f ≡ (tail, vend)
  unfolding merge_right
  merge_right-stay tail v2f (inl e) = ground arith
  merge_right-stay tail v2f (inr ne) = ground arith

  pub merge_right-merge :
      (tail v2f : ℕ)
      → tail < count
      → (entry es tail).v2f ≡ v2f
      → merge_right es count tail vend v2f ≡ (suc tail, sub64 (base es (suc tail)) 1)
  unfolding merge_right
  merge_right-merge tail v2f lt same = ground arith

  pub end_tail-next :
      (tail : ℕ)
      → tail < count
      → sub64 (base es (suc tail)) 1 ≡ vend
      → end_tail es count tail vend ≡ suc tail
  end_tail-next tail lt e = ground arith

  pub end_tail-here :
      (tail : ℕ) → sub64 (base es (suc tail)) 1 ≢ vend → end_tail es count tail vend ≡ tail
  end_tail-here tail ne = ground arith
