-- ===== src/Common/Prefixes.antt =====
-- `has_prefix` decides whether a string starts with another.
use polyfill_glibc.Base.{
  ℕ, ◌<◌, Bool, true, ◌&&◌, List, [], ◌∷◌, ◌++◌, ◌≡◌, refl, ap, ◌∙◌, arith, ◌==◌,
}
use polyfill_glibc.Common.{has_prefix}

-- No character is the terminator.
pub data IsString : List ℕ → Type 0 where
  empty : IsString []
  char : {c : ℕ} {cs : List ℕ} → 0 < c → IsString cs → IsString (c ∷ cs)

test_parts : (a b : ℕ) (r : Bool) → ((a == b) && r) ≡ true → (a ≡ b) × (r ≡ true)
test_parts a b r h = (ground arith, ground arith)

test_join : (a : ℕ) (r : Bool) → r ≡ true → ((a == a) && r) ≡ true
test_join a r h = ground arith

-- If `has_prefix` returns true for a prefix without zeros, the string is the prefix and a rest.
pub has_prefix-rest :
    (str prefix : List ℕ)
    → IsString prefix
    → has_prefix str prefix ≡ true
    → (rest : List ℕ) × (str ≡ prefix ++ rest)
unfolding has_prefix
has_prefix-rest str [] s h = (str, refl)
has_prefix-rest [] (c ∷ prefix) (char pos s) h =
    let (e, _) = test_parts 0 c (has_prefix [] prefix) h in absurd (omega arith)
has_prefix-rest (d ∷ str) (c ∷ prefix) (char pos s) h =
    let (e, h') = test_parts d c (has_prefix str prefix) h in
    let (rest, f) = has_prefix-rest str prefix s h' in
    (rest, ap (λ (x : ℕ). x ∷ str) e ∙ ap (◌∷◌ c) f)

-- `has_prefix` returns true for a prefix and whatever follows it.
pub has_prefix-append : (prefix rest : List ℕ) → has_prefix (prefix ++ rest) prefix ≡ true
unfolding has_prefix
has_prefix-append [] rest = refl
has_prefix-append (c ∷ prefix) rest =
    test_join c (has_prefix (prefix ++ rest) prefix) (has_prefix-append prefix rest)
