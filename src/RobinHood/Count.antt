-- ===== src/RobinHood/Count.antt =====
-- Counting the slots of a table that pass a test: what a table holds, up to the order of slots.
use polyfill_glibc.Base.{
  ℕ, zero, suc, ◌+◌, ◌≤◌, ◌<◌, Bool, true, false, not, List, [], ◌∷◌, ◌≡◌, refl, ap, arith, ◌==◌,
  inl, inr, Bool-cases, length, get_or, set, replicate,
}

abbrev pub digit : Bool → ℕ
digit true = 1
digit false = 0

unfoldable pub countp : (ℕ → Bool) → List ℕ → ℕ
countp P [] = 0
countp P (s ∷ t) = digit (P s) + countp P t

abbrev pub occupied : ℕ → Bool
occupied s = not (s == 0)

module _ (P : ℕ → Bool) where
  pub countp-set :
      (t : List ℕ) (i v : ℕ)
      → i < length t
      → countp P (set t i v) + digit (P (get_or t i 0)) ≡ countp P t + digit (P v)
  unfolding countp
  countp-set [] i v h = elim h [ ]
  countp-set (s ∷ t) zero v h = omega arith
  countp-set (s ∷ t) (suc i) v h = omega (arith, countp-set t i v (omega arith))

  pub countp-replicate : (n : ℕ) → P 0 ≡ false → countp P (replicate n 0) ≡ 0
  unfolding countp
  countp-replicate zero h = refl
  countp-replicate (suc n) h = ground (arith, countp-replicate n h)

  pub countp-le-length : (t : List ℕ) → countp P t ≤ length t
  unfolding countp
  countp-le-length [] = omega arith
  countp-le-length (s ∷ t) = ground (arith, countp-le-length t)

  pub countp_pos : (t : List ℕ) (i : ℕ) → i < length t → P (get_or t i 0) ≡ true → 0 < countp P t
  unfolding countp
  countp_pos [] i h e = elim h [ ]
  countp_pos (s ∷ t) zero h e = ground arith
  countp_pos (s ∷ t) (suc i) h e = omega (arith, countp_pos t i (omega arith) e)

  pub index_of_countp :
      (t : List ℕ) → 0 < countp P t → (i : ℕ) × (i < length t) × (P (get_or t i 0) ≡ true)
  unfolding countp
  index_of_countp [] h = elim h [ ]
  index_of_countp (s ∷ t) h = elim (Bool-cases (P s)) [
    | inl here ↦ (0, omega arith, here)
    | inr there ↦ let (i, lt, e) = index_of_countp t (ground arith) in (suc i, omega arith, e)
  ]

  -- Two places that pass the test count twice.
  pub index_unique :
      (t : List ℕ) (i j : ℕ)
      → countp P t ≤ 1
      → i < length t
      → j < length t
      → P (get_or t i 0) ≡ true
      → P (get_or t j 0) ≡ true
      → i ≡ j
  unfolding countp
  index_unique [] i j c p q e f = elim p [ ]
  index_unique (s ∷ t) zero zero c p q e f = refl
  index_unique (s ∷ t) zero (suc j) c p q e f = ground (arith, countp_pos t j (omega arith) f)
  index_unique (s ∷ t) (suc i) zero c p q e f = ground (arith, countp_pos t i (omega arith) e)
  index_unique (s ∷ t) (suc i) (suc j) c p q e f =
      ap suc (index_unique t i j (ground arith) (omega arith) (omega arith) e f)

-- A test that passes less often counts less.
pub countp_mono :
    (P Q : ℕ → Bool) (t : List ℕ) → ((s : ℕ) → P s ≡ true → Q s ≡ true) → countp P t ≤ countp Q t
unfolding countp
countp_mono P Q [] h = omega arith
countp_mono P Q (s ∷ t) h = ground (arith, h s, countp_mono P Q t h)

-- A table with fewer occupied slots than slots has an empty one.
pub empty_slot :
    (t : List ℕ) → countp occupied t < length t → (e : ℕ) × (e < length t) × (get_or t e 0 ≡ 0)
unfolding countp
empty_slot [] h = elim h [ ]
empty_slot (s ∷ t) h = elim (Bool-cases (s == 0)) [
  | inl here ↦ (0, omega arith, ground arith)
  | inr there ↦ let (e, lt, z) = empty_slot t (ground arith) in (suc e, omega arith, z)
]
