-- ===== src/Common/Versions.antt =====
-- `version_str_less` ends, and is irreflexive and asymmetric.
use polyfill_glibc.Base.{
  ℕ, zero, suc, ◌+◌, ◌≤◌, ◌<◌, Bool, true, false, not, ◌&&◌, Option, none, some, List, [], ◌∷◌, ◌≡◌,
  refl, sym, ap, ◌∙◌, arith, ltb, ◌==◌, if◌then◌else◌, length, if-same, if-other,
}
use mathlib.Core.Bool.{false≢true}
use mathlib.Core.Option.{some-injective, none-ne-some}
use native.Mathlib.Decide.{ℕ_discrete}
use polyfill_glibc.Common.{
  char_at, is_digit, scan_number, skip_number, skip_same, both_digits, next_part, compare_chars,
  compare_numbers, version_less_loop, version_str_less,
}

abbrev Asym : (List ℕ → List ℕ → Option Bool) → Type 0
Asym on = (l r : List ℕ) → on l r ≡ some true → on r l ≡ some false

-- `on` has an answer for all strings that are shorter in sum than `n`.
abbrev Total : ℕ → (List ℕ → List ℕ → Option Bool) → Type 0
Total n on = (l r : List ℕ) → length l + length r < n → (b : Bool) × (on l r ≡ some b)

abbrev swapped : Option (List ℕ × List ℕ) → Option (List ℕ × List ℕ)
swapped none = none
swapped (some (l, r)) = some (r, l)

==_no : (x y : ℕ) → ¬ (x ≡ y) → (x == y) ≡ false
==_no x y h = ground arith

skip_same-swap : (l r : List ℕ) → skip_same r l ≡ swapped (skip_same l r)
unfolding skip_same
skip_same-swap [] [] = refl
skip_same-swap [] (d ∷ r) = refl
skip_same-swap (c ∷ l) [] = refl
skip_same-swap (c ∷ l) (d ∷ r) =
    choose (char_at l) (char_at r) (skip_same r l) (skip_same l r) (skip_same-swap l r)
  where
    choose :
        (x y : ℕ) (p q : Option (List ℕ × List ℕ))
        → p ≡ swapped q
        → (if (y == x) && not (is_digit y) then p else some (r, l))
          ≡ swapped (if (x == y) && not (is_digit x) then q else some (l, r))
    choose x y p q e = elim (ℕ_discrete x y) [
      | yes same ↦ rw (sym same) (branch (x == x) (is_digit x))
      | no other ↦ rw (==_no x y other) (rw (==_no y x (λ z. other (sym z))) refl)
    ]
      where
        branch :
            (b d : Bool)
            → (if b && not d then p else some (r, l))
              ≡ swapped (if b && not d then q else some (l, r))
        branch false d = refl
        branch true true = refl
        branch true false = e

size : Option (List ℕ × List ℕ) → ℕ
size none = 0
size (some (l, r)) = suc (length l + length r)

skip_same-size : (l r : List ℕ) → size (skip_same l r) ≤ length l + length r
unfolding skip_same size
skip_same-size [] r = omega arith
skip_same-size (c ∷ l) [] = omega arith
skip_same-size (c ∷ l) (d ∷ r) =
    choose (skip_same-size l r) ((char_at l == char_at r) && not (is_digit (char_at l)))
  where
    choose :
        size (skip_same l r) ≤ length l + length r
        → (b : Bool)
        → size (if b then skip_same l r else some (l, r)) ≤ suc (length l) + suc (length r)
    choose h true = omega arith
    choose h false = omega arith

next_part-Asym :
    (on : List ℕ → List ℕ → Option Bool) (o : Option (List ℕ × List ℕ))
    → Asym on
    → next_part on o ≡ some true
    → next_part on (swapped o) ≡ some false
next_part-Asym on none a h = refl
next_part-Asym on (some (l, r)) a h = a l r h

ltb_asym : (x y : ℕ) → ltb x y ≡ true → ltb y x ≡ false
ltb_asym x y h = ground arith

end_asym : (x y : ℕ) → ((x == 0) && (y == 0x2e)) ≡ true → ((y == 0) && (x == 0x2e)) ≡ false
end_asym x y h = ground arith

module _ (on : List ℕ → List ℕ → Option Bool) (a : Asym on) where
  compare_chars-Asym : Asym (compare_chars on)
  compare_chars-Asym l r h = elim (ℕ_discrete (char_at l) (char_at r)) [
    | yes e ↦
        if-same (char_at r) (char_at l) _ _ (sym e)
        ∙ ap (next_part on) (skip_same-swap l r)
        ∙ next_part-Asym on (skip_same l r) a (sym (if-same (char_at l) (char_at r) _ _ e) ∙ h)
    | no ne ↦
        if-other (char_at r) (char_at l) _ _ (λ z. ne (sym z))
        ∙ ap some (
            end_asym (char_at l) (char_at r)
              (some-injective _ true (sym (if-other (char_at l) (char_at r) _ _ ne) ∙ h)))
  ]

  compare_numbers-Asym : Asym (compare_numbers on)
  compare_numbers-Asym l r h = elim (ℕ_discrete (scan_number 0 l) (scan_number 0 r)) [
    | yes e ↦
        if-same (scan_number 0 r) (scan_number 0 l) _ _ (sym e)
        ∙ compare_chars-Asym (skip_number l) (skip_number r)
            (sym (if-same (scan_number 0 l) (scan_number 0 r) _ _ e) ∙ h)
    | no ne ↦
        if-other (scan_number 0 r) (scan_number 0 l) _ _ (λ z. ne (sym z))
        ∙ ap some (
            ltb_asym (scan_number 0 l) (scan_number 0 r) (
              some-injective _ true
                (sym (if-other (scan_number 0 l) (scan_number 0 r) _ _ ne) ∙ h)))
  ]

both_digits_comm : (l r : List ℕ) → both_digits r l ≡ both_digits l r
both_digits_comm l r = and_comm (is_digit (char_at r)) (is_digit (char_at l))
  where
    and_comm : (a b : Bool) → (a && b) ≡ (b && a)
    and_comm true true = refl
    and_comm true false = refl
    and_comm false true = refl
    and_comm false false = refl

loop-Asym : (fuel : ℕ) → Asym (version_less_loop fuel)
unfolding version_less_loop
loop-Asym zero l r h = absurd (none-ne-some true h)
loop-Asym (suc fuel) l r h =
    choose (loop-Asym fuel) (both_digits l r) (both_digits r l) (both_digits_comm l r) h
  where
    choose :
        Asym (version_less_loop fuel)
        → (b c : Bool) → c ≡ b
        → (if b
            then compare_numbers (version_less_loop fuel) l r
            else compare_chars (version_less_loop fuel) l r)
          ≡ some true
        → (if c
            then compare_numbers (version_less_loop fuel) r l
            else compare_chars (version_less_loop fuel) r l)
          ≡ some false
    choose a true true e k = compare_numbers-Asym (version_less_loop fuel) a l r k
    choose a false false e k = compare_chars-Asym (version_less_loop fuel) a l r k
    choose a true false e k = absurd (false≢true e)
    choose a false true e k = absurd (false≢true (sym e))

-- If `version_str_less` says that one string is less than another, it says that the other is not
-- less than the one.
pub version_str_less_asym :
    (l r : List ℕ) → version_str_less l r ≡ some true → version_str_less r l ≡ some false
unfolding version_str_less
version_str_less_asym l r h =
    let e : suc (length r + length l) ≡ suc (length l + length r) = omega arith in
    ap (λ (n : ℕ). version_less_loop n r l) e ∙ loop-Asym (suc (length l + length r)) l r h

skip_number-shorter : (l : List ℕ) → length (skip_number l) ≤ length l
unfolding skip_number
skip_number-shorter [] = omega arith
skip_number-shorter (c ∷ l) = choose (skip_number-shorter l) (is_digit c)
  where
    choose :
        length (skip_number l) ≤ length l
        → (b : Bool) → length (if b then skip_number l else c ∷ l) ≤ suc (length l)
    choose h true = omega arith
    choose h false = omega arith

abbrev Answers : Option Bool → Type 0
Answers o = (b : Bool) × (o ≡ some b)

next_part-Total :
    (n : ℕ) (on : List ℕ → List ℕ → Option Bool) (o : Option (List ℕ × List ℕ))
    → Total n on
    → size o ≤ n
    → Answers (next_part on o)
unfolding size
next_part-Total n on none t h = (false, refl)
next_part-Total n on (some (l, r)) t h = t l r h

module _ (n : ℕ) (on : List ℕ → List ℕ → Option Bool) (t : Total n on) where
  compare_chars-total : (l r : List ℕ) → length l + length r ≤ n → Answers (compare_chars on l r)
  compare_chars-total l r h = choose (char_at l == char_at r)
    where
      choose :
          (b : Bool)
          → Answers (
              if b
              then next_part on (skip_same l r)
              else some ((char_at l == 0) && (char_at r == 0x2e)))
      choose true = next_part-Total n on (skip_same l r) t (omega (arith, skip_same-size l r))
      choose false = ((char_at l == 0) && (char_at r == 0x2e), refl)

  compare_numbers-total :
      (l r : List ℕ) → length l + length r ≤ n → Answers (compare_numbers on l r)
  compare_numbers-total l r h = choose (scan_number 0 l == scan_number 0 r)
    where
      choose :
          (b : Bool)
          → Answers (
              if b
              then compare_chars on (skip_number l) (skip_number r)
              else some (ltb (scan_number 0 l) (scan_number 0 r)))
      choose true =
          compare_chars-total (skip_number l) (skip_number r)
            (omega (arith, skip_number-shorter l, skip_number-shorter r))
      choose false = (ltb (scan_number 0 l) (scan_number 0 r), refl)

loop-Total : (fuel : ℕ) → Total fuel (version_less_loop fuel)
unfolding version_less_loop
loop-Total zero l r h = absurd (omega arith)
loop-Total (suc fuel) l r h = choose (loop-Total fuel) (both_digits l r)
  where
    choose :
        Total fuel (version_less_loop fuel)
        → (b : Bool)
        → Answers (
            if b
            then compare_numbers (version_less_loop fuel) l r
            else compare_chars (version_less_loop fuel) l r)
    choose t true = compare_numbers-total fuel (version_less_loop fuel) t l r (omega arith)
    choose t false = compare_chars-total fuel (version_less_loop fuel) t l r (omega arith)

-- `version_str_less` ends on every two strings.
pub version_str_less-total : (l r : List ℕ) → (b : Bool) × (version_str_less l r ≡ some b)
unfolding version_str_less
version_str_less-total l r = loop-Total (suc (length l + length r)) l r (omega arith)

-- `version_str_less` ends on two equal strings, and says that they are not less.
pub version_str_less_irrefl : (l : List ℕ) → version_str_less l l ≡ some false
version_str_less_irrefl l = decide (version_str_less-total l l)
  where
    decide : Answers (version_str_less l l) → version_str_less l l ≡ some false
    decide (false, e) = e
    decide (true, e) = version_str_less_asym l l e
