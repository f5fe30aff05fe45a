-- ===== src/Common.antt =====
-- src/common.c: the comparison of version strings and the test for a prefix. A C string is the
-- list of its characters without the final NUL, which is read as 0. `read_entire_file` is input
-- and output only, and is not modelled.
pub mod Versions
pub mod Prefixes
use polyfill_glibc.Base.{
  ℕ, zero, suc, ◌+◌, ◌-◌, ◌*◌, Bool, true, false, not, ◌&&◌, Option, none, some, List, [], ◌∷◌, u64,
  ltb, leb, ◌==◌, if◌then◌else◌, length,
}

-- `*str`
abbrev pub char_at : List ℕ → ℕ
char_at [] = 0
char_at (c ∷ cs) = c

-- `'0' <= c && c <= '9'`
abbrev pub is_digit : ℕ → Bool
is_digit c = leb 0x30 c && leb c 0x39

-- The number at the start of a string, added to `ver`.
unfoldable pub scan_number : ℕ → List ℕ → ℕ
scan_number ver [] = ver
scan_number ver (c ∷ cs) =
    let rest = scan_number (u64 (ver * 10 + (c - 0x30))) cs in if is_digit c then rest else ver

-- What stands after it.
unfoldable pub skip_number : List ℕ → List ℕ
skip_number [] = []
skip_number (c ∷ cs) = let rest = skip_number cs in if is_digit c then rest else c ∷ cs

-- "scan identical non-digits from each": `none` at the end of both strings.
unfoldable pub skip_same : List ℕ → List ℕ → Option (List ℕ × List ℕ)
skip_same [] rhs = none
skip_same (c ∷ lhs) [] = none
skip_same (c ∷ lhs) (d ∷ rhs) =
    let rest = skip_same lhs rhs in
    if (char_at lhs == char_at rhs) && not (is_digit (char_at lhs)) then rest else some (lhs, rhs)

-- The strings after "scan digits from each", or the answer.
abbrev pub both_digits : List ℕ → List ℕ → Bool
both_digits lhs rhs = is_digit (char_at lhs) && is_digit (char_at rhs)

-- One round of the loop from "consider difference" on, with the rest of the loop as `on`.
abbrev pub next_part : (List ℕ → List ℕ → Option Bool) → Option (List ℕ × List ℕ) → Option Bool
next_part on none = some false
next_part on (some (lhs, rhs)) = on lhs rhs

abbrev pub compare_chars : (List ℕ → List ℕ → Option Bool) → List ℕ → List ℕ → Option Bool
compare_chars on lhs rhs =
    if char_at lhs == char_at rhs
    then next_part on (skip_same lhs rhs)
    else some ((char_at lhs == 0) && (char_at rhs == 0x2e))

abbrev pub compare_numbers : (List ℕ → List ℕ → Option Bool) → List ℕ → List ℕ → Option Bool
compare_numbers on lhs rhs =
    let lver = scan_number 0 lhs in
    let rver = scan_number 0 rhs in
    if lver == rver
    then compare_chars on (skip_number lhs) (skip_number rhs)
    else some (ltb lver rver)

-- The loop of `version_str_less`, on fuel.
unfoldable pub version_less_loop : ℕ → List ℕ → List ℕ → Option Bool
unfolding scan_number skip_number skip_same
version_less_loop zero lhs rhs = none
version_less_loop (suc fuel) lhs rhs =
    if both_digits lhs rhs
    then compare_numbers (version_less_loop fuel) lhs rhs
    else compare_chars (version_less_loop fuel) lhs rhs

-- `version_str_less`. Each round consumes a character of both strings.
unfoldable pub version_str_less : List ℕ → List ℕ → Option Bool
unfolding version_less_loop
version_str_less lhs rhs = version_less_loop (suc (length lhs + length rhs)) lhs rhs

-- `has_prefix`. A string holds no 0, so its end differs from every character of the prefix.
unfoldable pub has_prefix : List ℕ → List ℕ → Bool
has_prefix str [] = true
has_prefix [] (c ∷ prefix) = (0 == c) && has_prefix [] prefix
has_prefix (d ∷ str) (c ∷ prefix) = let rest = has_prefix str prefix in (d == c) && rest
