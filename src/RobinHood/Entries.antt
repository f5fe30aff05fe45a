-- ===== src/RobinHood/Entries.antt =====
-- The slot of a table that passes a test, and when it is the same in two tables.
use polyfill_glibc.Base.{
  ℕ, zero, suc, ◌≤◌, ◌<◌, Bool, true, false, not, ◌&&◌, List, [], ◌∷◌, ◌≡◌, ◌≢◌, refl, sym, ap, ◌∙◌,
  arith, length, get_or, ◌==◌, inl, inr, Bool-cases, if◌then◌else◌,
}
use native.Mathlib.Decide.{ℕ_discrete, dec_lt}
use mathlib.Core.Bool.{false≢true}
use polyfill_glibc.RobinHood.Count.{countp, digit, countp_pos, index_of_countp}

abbrev pub is : ℕ → ℕ → Bool
is y z = not (z == 0) && y == z

-- No slot of a table passes a test that none of its slots passes one by one.
pub countp-none :
    (P : ℕ → Bool) (t : List ℕ)
    → ((i : ℕ) → i < length t → P (get_or t i 0) ≡ false)
    → countp P t ≡ 0
countp-none P t h = elim (dec_lt 0 (countp P t)) [
  | no none_there ↦ omega arith
  | yes there ↦ let (i, lt, e) = index_of_countp P t there in absurd (false≢true (sym (h i lt) ∙ e))
]

is-same : (y z : ℕ) → is y z ≡ true → z ≡ y
is-same y z e = ground arith

pub is_self : (s : ℕ) → s ≢ 0 → is s s ≡ true
is_self s nz = ground arith

-- The first slot that passes the test, or zero.
pub first : (ℕ → Bool) → List ℕ → ℕ
first Q [] = 0
first Q (s ∷ t) = if Q s then s else first Q t

module _ (Q : ℕ → Bool) where
  pub first-none : (t : List ℕ) → countp Q t ≡ 0 → first Q t ≡ 0
  unfolding first countp
  first-none [] e = refl
  first-none (s ∷ t) e = ground (arith, first-none t)

  -- Where no two slots pass the test, one that passes is the first.
  pub first-at :
      (t : List ℕ) (i : ℕ)
      → countp Q t ≤ 1
      → i < length t
      → Q (get_or t i 0) ≡ true
      → first Q t ≡ get_or t i 0
  unfolding first countp
  first-at [] i once lt m = elim lt [ ]
  first-at (s ∷ t) zero once lt m = rw m
  first-at (s ∷ t) (suc i) once lt m = elim (Bool-cases (Q s)) [
    | inl here ↦ absurd (omega (arith, countp_pos Q t i (omega arith) m, ap digit here))
    | inr there ↦ rw there (first-at t i (omega arith) (omega arith) m)
  ]

  -- A slot that is counted, and passes, is the first.
  pub first_of-countp :
      (t : List ℕ) (x : ℕ) → countp Q t ≤ 1 → Q x ≡ true → 0 < countp (is x) t → first Q t ≡ x
  first_of-countp t x once hash held =
      let (i, lt, e) = index_of_countp (is x) t held in
      let same = is-same x (get_or t i 0) e in first-at t i once lt (ap Q same ∙ hash) ∙ same

  module _ (q0 : Q 0 ≡ false) where
    pub countp_of_first-none : (t : List ℕ) → first Q t ≡ 0 → countp Q t ≡ 0
    unfolding first countp
    countp_of_first-none [] e = refl
    countp_of_first-none (s ∷ t) e = elim (Bool-cases (Q s)) [
      | inl here ↦
          let z : s ≡ 0 = rw here at e in absurd (false≢true (sym q0 ∙ ap Q (sym z) ∙ here))
      | inr there ↦
          let rest : first Q t ≡ 0 = rw there at e in ground (arith, countp_of_first-none t rest)
    ]

    pub first-held :
        (t : List ℕ) (x : ℕ) → first Q t ≡ x → x ≢ 0 → (Q x ≡ true) × (0 < countp (is x) t)
    unfolding first countp
    first-held [] x e ne = absurd (ne (sym e))
    first-held (s ∷ t) x e ne = elim (Bool-cases (Q s)) [
      | inl here ↦ let same : s ≡ x = rw here at e in (rw (← same) here, ground arith)
      | inr there ↦
          let rest : first Q t ≡ x = rw there at e in
          let (hash, held) = first-held t x rest ne in (hash, ground arith)
    ]

    -- The slot that passes is settled by counting.
    pub first_ext :
        (t t' : List ℕ)
        → countp Q t' ≤ 1
        → countp Q t' ≡ countp Q t
        → ((y : ℕ) → Q y ≡ true → countp (is y) t' ≡ countp (is y) t)
        → first Q t' ≡ first Q t
    first_ext t t' once all one = elim (ℕ_discrete (first Q t) 0) [
      | yes z ↦ first-none t' (all ∙ countp_of_first-none t z) ∙ sym z
      | no nz ↦
          let (hash, held) = first-held t (first Q t) refl nz in
          first_of-countp t' (first Q t) once hash (rw (one (first Q t) hash) held)
    ]

-- Two tests that agree on the slots of a table.
module _ (P Q : ℕ → Bool) where
  unfoldable pub Agree : List ℕ → Type 0
  Agree t = (x : ℕ) → 0 < countp (is x) t → P x ≡ Q x

  module _ (p0 : P 0 ≡ false) (q0 : Q 0 ≡ false) where
    Agree-head : (s : ℕ) (t : List ℕ) → Agree (s ∷ t) → P s ≡ Q s
    unfolding Agree countp
    Agree-head s t h = elim (ℕ_discrete s 0) [
      | yes z ↦ ap P z ∙ p0 ∙ sym (ap Q z ∙ q0)
      | no nz ↦ h s (omega (arith, ap digit (is_self s nz)))
    ]

    Agree-tail : (s : ℕ) (t : List ℕ) → Agree (s ∷ t) → Agree t
    unfolding Agree countp
    Agree-tail s t h x held = h x (omega (arith, held))

    pub countp-Agree : (t : List ℕ) → Agree t → countp P t ≡ countp Q t
    unfolding countp
    countp-Agree [] h = refl
    countp-Agree (s ∷ t) h =
        omega (arith, ap digit (Agree-head s t h), countp-Agree t (Agree-tail s t h))

    pub first-Agree : (t : List ℕ) → Agree t → first P t ≡ first Q t
    unfolding first
    first-Agree [] h = refl
    first-Agree (s ∷ t) h =
        ap (λ (b : Bool). if b then s else first P t) (Agree-head s t h)
        ∙ ap (λ (r : ℕ). if Q s then s else r) (first-Agree t (Agree-tail s t h))
