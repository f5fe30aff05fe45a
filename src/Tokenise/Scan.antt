-- ===== src/Tokenise/Scan.antt =====
-- The loops of `tokeniser_run` over the characters of one token.
use polyfill_glibc.Base.{
  ℕ, ◌+◌, Bool, true, false, not, ◌&&◌, ◌||◌, Option, none, some, List, [], ◌∷◌, bit_and, bit_or,
  ltb, ◌==◌, if◌then◌else◌,
}
use polyfill_glibc.Tokenise.Chars.{has_flag, cf_e_p, cf_pp_number, cf_str_body}

abbrev pub punct_repeat : ℕ
punct_repeat = 32

abbrev pub punct_eq : ℕ
punct_eq = 64

-- `TOK_PUNCT(c)`
unfoldable pub tok_punct : ℕ → ℕ
tok_punct c =
    bit_and (c + (if ltb c 0x41 then 0 else if ltb c 0x61 then 21 else 27)) 31 + 0xffffff80

abbrev pub tok_number : ℕ
tok_number = 0xfffffff7

abbrev pub tok_str_lit : ℕ
tok_str_lit = 0xfffffff8

abbrev pub tok_other_char : ℕ
tok_other_char = 0xfffffffd

abbrev pub tok_eof : ℕ
tok_eof = 0xffffffff

-- The characters that pass a test are skipped.
unfoldable pub skip_while : (ℕ → Bool) → List ℕ → Option (List ℕ)
skip_while test [] = none
skip_while test (c ∷ src) =
    let rest = skip_while test src in if test c then rest else some (c ∷ src)

abbrev pub is_newline : ℕ → Bool
is_newline c = (c == b'\r') || (c == b'\n')

-- The body of a literal that `c0` opened; the flag is set behind a backslash, where only the end of
-- the line is told from other characters. The result has the type and what follows the literal.
unfoldable pub scan_literal : Bool → ℕ → ℕ → List ℕ → Option (ℕ × List ℕ)
scan_literal escaped c0 type [] = none
scan_literal true c0 type (c ∷ src) =
    let rest = scan_literal false c0 type src in if is_newline c then some (type, c ∷ src) else rest
scan_literal false c0 type (c ∷ src) =
    let plain = has_flag cf_str_body c in
    let type' = if plain then type else bit_or type 1 in
    let rest = scan_literal (not plain && (c == b'\\')) c0 type' src in
    if plain
    then rest
    else if c == c0
    then some (type, src)
    else if is_newline c
    then some (type', c ∷ src)
    else rest

-- The loop of a number after its character `last`.
unfoldable pub scan_number : ℕ → List ℕ → Option (List ℕ)
scan_number last [] = none
scan_number last (c ∷ src) =
    let rest = scan_number c src in
    if has_flag cf_pp_number c
    then rest
    else if ((c == b'+') || (c == b'-')) && has_flag cf_e_p last
    then rest
    else some (c ∷ src)
