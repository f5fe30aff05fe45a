-- ===== src/Renamer/Searching.antt =====
-- Where the parts of a name end.
use polyfill_glibc.Base.{
  ℕ, ◌-◌, false, none, some, List, [], ◌∷◌, ◌++◌, ◌≡◌, refl, ap, ◌∙◌, arith, ◌==◌, length,
  length-append, take, take-append, Bool-cases, inl, inr,
}
use polyfill_glibc.Renamer.{strchr, find_colon_colon, up_to}

is_other : (c x : ℕ) (xs : List ℕ) → strchr c (x ∷ xs) ≡ none → (x == c) ≡ false
unfolding strchr
is_other c x xs e = elim (Bool-cases (x == c)) [
  | inl same ↦ absurd (ground arith)
  | inr other ↦ other
]

strchr-tail : (c x : ℕ) (xs : List ℕ) → strchr c (x ∷ xs) ≡ none → strchr c xs ≡ none
unfolding strchr
strchr-tail c x xs e = ground arith

strchr-skip : (c x : ℕ) (xs : List ℕ) → (x == c) ≡ false → strchr c (x ∷ xs) ≡ strchr c xs
unfolding strchr
strchr-skip c x xs e = cc

strchr-here : (c : ℕ) (xs : List ℕ) → strchr c (c ∷ xs) ≡ some (c ∷ xs)
unfolding strchr
strchr-here c xs = ground arith

pub strchr-nil : (c : ℕ) → strchr c [] ≡ none
unfolding strchr
strchr-nil c = refl

-- `strchr` finds a character behind a text that has none.
pub strchr-append :
    (c : ℕ) (xs ys : List ℕ) → strchr c xs ≡ none → strchr c (xs ++ (c ∷ ys)) ≡ some (c ∷ ys)
strchr-append c [] ys e = strchr-here c ys
strchr-append c (x ∷ xs) ys e =
    strchr-skip c x (xs ++ (c ∷ ys)) (is_other c x xs e)
    ∙ strchr-append c xs ys (strchr-tail c x xs e)

pub strchr-none-append :
    (c : ℕ) (xs ys : List ℕ) → strchr c xs ≡ none → strchr c ys ≡ none → strchr c (xs ++ ys) ≡ none
strchr-none-append c [] ys e f = f
strchr-none-append c (x ∷ xs) ys e f =
    strchr-skip c x (xs ++ ys) (is_other c x xs e)
    ∙ strchr-none-append c xs ys (strchr-tail c x xs e) f

find-skip :
    (x y : ℕ) (xs : List ℕ)
    → (x == b':') ≡ false
    → find_colon_colon (x ∷ y ∷ xs) ≡ find_colon_colon (y ∷ xs)
unfolding find_colon_colon
find-skip x y xs e = cc

find-last : (x : ℕ) → (x == b':') ≡ false → find_colon_colon (x ∷ []) ≡ some none
unfolding find_colon_colon
find-last x e = rw e refl

find-here : (xs : List ℕ) → find_colon_colon (b':' ∷ b':' ∷ xs) ≡ some (some (b':' ∷ b':' ∷ xs))
unfolding find_colon_colon
find-here xs = refl

find-nil : find_colon_colon [] ≡ some none
unfolding find_colon_colon
find-nil = refl

-- `find_colon_colon` finds the colons behind a text that has none.
pub find-append :
    (xs ys : List ℕ)
    → strchr b':' xs ≡ none
    → find_colon_colon (xs ++ (b':' ∷ b':' ∷ ys)) ≡ some (some (b':' ∷ b':' ∷ ys))
find-append [] ys e = find-here ys
find-append (x ∷ []) ys e = find-skip x b':' (b':' ∷ ys) (is_other b':' x [] e) ∙ find-here ys
find-append (x ∷ y ∷ xs) ys e =
    find-skip x y (xs ++ (b':' ∷ b':' ∷ ys)) (is_other b':' x (y ∷ xs) e)
    ∙ find-append (y ∷ xs) ys (strchr-tail b':' x (y ∷ xs) e)

pub find-none : (xs : List ℕ) → strchr b':' xs ≡ none → find_colon_colon xs ≡ some none
find-none [] e = find-nil
find-none (x ∷ []) e = find-last x (is_other b':' x [] e)
find-none (x ∷ y ∷ xs) e =
    find-skip x y xs (is_other b':' x (y ∷ xs) e)
    ∙ find-none (y ∷ xs) (strchr-tail b':' x (y ∷ xs) e)

pub up_to-append : (xs ys : List ℕ) → up_to (xs ++ ys) ys ≡ xs
up_to-append xs ys =
    let e : length (xs ++ ys) - length ys ≡ length xs = omega (arith, length-append xs ys) in
    ap (λ (n : ℕ). take n (xs ++ ys)) e ∙ take-append xs ys
