-- ===== src/Tokenise/Chars.antt =====
-- src/tokenise.c: the flags of the characters.
use polyfill_glibc.Base.{ℕ, Bool, not, List, [], ◌∷◌, bit_and, get_or, ◌==◌}

abbrev pub char_flags : List ℕ
char_flags =
    1 ∷ 1 ∷ 1 ∷ 1 ∷ 1 ∷ 1 ∷ 1 ∷ 1 ∷ 1 ∷ 1 ∷ 0 ∷ 1 ∷ 1 ∷ 0 ∷ 1 ∷ 1 ∷ 1 ∷ 1 ∷ 1 ∷ 1 ∷ 1 ∷ 1 ∷ 1 ∷ 1
    ∷ 1 ∷ 1 ∷ 1 ∷ 1 ∷ 1 ∷ 1 ∷ 1 ∷ 1 ∷ 1 ∷ 1 ∷ 0 ∷ 1 ∷ 1 ∷ 1 ∷ 1 ∷ 0 ∷ 1 ∷ 1 ∷ 1 ∷ 1 ∷ 1 ∷ 1 ∷ 3 ∷ 1
    ∷ 31 ∷ 31 ∷ 31 ∷ 31 ∷ 31 ∷ 31 ∷ 31 ∷ 31 ∷ 31 ∷ 31 ∷ 1 ∷ 1 ∷ 1 ∷ 1 ∷ 1 ∷ 1 ∷ 1 ∷ 31 ∷ 31 ∷ 31
    ∷ 31 ∷ 63 ∷ 31 ∷ 15 ∷ 15 ∷ 15 ∷ 15 ∷ 15 ∷ 15 ∷ 15 ∷ 15 ∷ 15 ∷ 47 ∷ 15 ∷ 15 ∷ 15 ∷ 15 ∷ 15 ∷ 15
    ∷ 15 ∷ 15 ∷ 15 ∷ 15 ∷ 1 ∷ 0 ∷ 1 ∷ 1 ∷ 15 ∷ 1 ∷ 31 ∷ 31 ∷ 31 ∷ 31 ∷ 63 ∷ 31 ∷ 15 ∷ 15 ∷ 15 ∷ 15
    ∷ 15 ∷ 15 ∷ 15 ∷ 15 ∷ 15 ∷ 47 ∷ 15 ∷ 15 ∷ 15 ∷ 15 ∷ 15 ∷ 15 ∷ 15 ∷ 15 ∷ 15 ∷ 15 ∷ 1 ∷ 1 ∷ 1 ∷ 1
    ∷ 1 ∷ 7 ∷ 7 ∷ 7 ∷ 7 ∷ 7 ∷ 7 ∷ 7 ∷ 7 ∷ 7 ∷ 7 ∷ 7 ∷ 7 ∷ 7 ∷ 7 ∷ 7 ∷ 7 ∷ 7 ∷ 7 ∷ 7 ∷ 7 ∷ 7 ∷ 7 ∷ 7
    ∷ 7 ∷ 7 ∷ 7 ∷ 7 ∷ 7 ∷ 7 ∷ 7 ∷ 7 ∷ 7 ∷ 7 ∷ 7 ∷ 7 ∷ 7 ∷ 7 ∷ 7 ∷ 7 ∷ 7 ∷ 7 ∷ 7 ∷ 7 ∷ 7 ∷ 7 ∷ 7 ∷ 7
    ∷ 7 ∷ 7 ∷ 7 ∷ 7 ∷ 7 ∷ 7 ∷ 7 ∷ 7 ∷ 7 ∷ 7 ∷ 7 ∷ 7 ∷ 7 ∷ 7 ∷ 7 ∷ 7 ∷ 7 ∷ 7 ∷ 7 ∷ 7 ∷ 7 ∷ 7 ∷ 7 ∷ 7
    ∷ 7 ∷ 7 ∷ 7 ∷ 7 ∷ 7 ∷ 7 ∷ 7 ∷ 7 ∷ 7 ∷ 7 ∷ 7 ∷ 7 ∷ 7 ∷ 7 ∷ 7 ∷ 7 ∷ 7 ∷ 7 ∷ 7 ∷ 7 ∷ 7 ∷ 7 ∷ 7 ∷ 7
    ∷ 7 ∷ 7 ∷ 7 ∷ 7 ∷ 7 ∷ 7 ∷ 7 ∷ 7 ∷ 7 ∷ 7 ∷ 7 ∷ 7 ∷ 7 ∷ 7 ∷ 7 ∷ 7 ∷ 7 ∷ 7 ∷ 7 ∷ 7 ∷ 7 ∷ 7 ∷ 7 ∷ 7
    ∷ 7 ∷ 7 ∷ 7 ∷ 7 ∷ 7 ∷ 7 ∷ 7 ∷ 7 ∷ 7 ∷ []

-- `char_flags[(uint8_t)c] & flag`
unfoldable pub has_flag : ℕ → ℕ → Bool
has_flag flag c = not (bit_and (get_or char_flags c 0) flag == 0)

abbrev pub cf_e_p : ℕ
cf_e_p = 0x20

abbrev pub cf_hex_digit : ℕ
cf_hex_digit = 0x10

abbrev pub cf_ident_continue : ℕ
cf_ident_continue = 0x04

abbrev pub cf_pp_number : ℕ
cf_pp_number = 0x02

abbrev pub cf_str_body : ℕ
cf_str_body = 0x01
