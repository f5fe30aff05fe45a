-- ===== src/Tokenise/Decode.antt =====
-- src/tokenise.c: the values of tokens. A range of the text is the list of its bytes, and a `char *`
-- is what is left of the text from there on. A read behind the end of the text is `none`.
pub mod Decimals
pub mod Escapes
use polyfill_glibc.Base.{
  ℕ, zero, suc, ◌+◌, ◌-◌, ◌*◌, Bool, true, false, not, ◌&&◌, ◌||◌, Option, none, some, List, [],
  ◌∷◌, bit_and, bit_or, ◌^◌, u8, u32, u64, sub64, get_or, ltb, leb, ◌==◌, if◌then◌else◌, length,
  take, drop,
}
use polyfill_glibc.Tokenise.Chars.{char_flags, has_flag, cf_hex_digit}
use polyfill_glibc.Tokenise.Run.{Token, is_decimal}
use polyfill_glibc.Tokenise.Scan.{tok_str_lit}

-- The bytes from `start` to before `end_`.
abbrev pub range : List ℕ → ℕ → ℕ → List ℕ
range text start end_ = take (end_ - start) (drop start text)

abbrev pub is_hex : ℕ → Bool
is_hex c = has_flag cf_hex_digit c

-- `c += (c & 16) ? 16 : 9`, and `c & 15u` after it
unfoldable pub hex_value : ℕ → ℕ
hex_value c = bit_and (c + (if bit_and c 16 == 0 then 9 else 16)) 15

-- `tokeniser_is_hex_range`, with the result so far
unfoldable pub and_flags : ℕ → List ℕ → ℕ
and_flags result [] = result
and_flags result (c ∷ cs) = and_flags (bit_and result (get_or char_flags c 0)) cs

unfoldable pub is_hex_range : List ℕ → ℕ → ℕ → ℕ
unfolding and_flags
is_hex_range text start end_ = and_flags cf_hex_digit (range text start end_)

-- The loop of `tokeniser_decode_hex_range`.
unfoldable pub decode_hex : ℕ → List ℕ → ℕ
unfolding hex_value
decode_hex uval [] = uval
decode_hex uval (c ∷ cs) = decode_hex (u64 (uval * 16 + hex_value c)) cs

unfoldable pub decode_hex_range : List ℕ → ℕ → ℕ → ℕ
unfolding decode_hex
decode_hex_range text start end_ = decode_hex 0 (range text start end_)

-- `*src`, which is read behind a quote only, decides whether the loop goes on.
abbrev pub behind_quote {ℓ} : {A : Type ℓ} → (ℕ → Bool) → List ℕ → Option A → Option A → Option A
behind_quote is [] go_on stop = none
behind_quote is (d ∷ src) go_on stop = if is d then go_on else stop

-- The four loops of `tokeniser_decode_uint`: digits of a base, with a quote between two of them
-- skipped. The result has the value, and what is left from the character that ended the loop on.
unfoldable pub scan_digits : (ℕ → Bool) → (ℕ → ℕ) → ℕ → ℕ → List ℕ → Option (ℕ × List ℕ)
scan_digits is value base uval [] = none
scan_digits is value base uval (c ∷ src) =
    let uval' = if is c then u64 (uval * base + value c) else uval in
    let rest = scan_digits is value base uval' src in
    if is c
    then rest
    else if c == b'\''
    then behind_quote is src rest (some (uval, c ∷ src))
    else some (uval, c ∷ src)

abbrev pub is_binary : ℕ → Bool
is_binary c = leb b'0' c && leb c b'1'

abbrev pub is_octal : ℕ → Bool
is_octal c = leb b'0' c && leb c b'7'

abbrev pub digit_value : ℕ → ℕ
digit_value c = c - b'0'

-- Behind a leading zero.
unfoldable pub decode_prefixed : List ℕ → Option (ℕ × List ℕ)
unfolding scan_digits hex_value
decode_prefixed [] = none
decode_prefixed (c ∷ src) =
    if (c == b'x') || (c == b'X')
    then scan_digits is_hex hex_value 16 0 src
    else if (c == b'b') || (c == b'B')
    then scan_digits is_binary digit_value 2 0 src
    else scan_digits is_octal digit_value 8 0 (c ∷ src)

-- The result and `*dst`, which is written unless the token starts with a dot. The token is a number
-- if it ends where the loop did.
abbrev pub finish_uint : List ℕ → ℕ → Option (ℕ × List ℕ) → Option (Bool × Option ℕ)
finish_uint text end_ none = none
finish_uint text end_ (some (uval, left)) = some (length text - length left == end_, some uval)

abbrev pub decode_uint_at : List ℕ → ℕ → List ℕ → Option (Bool × Option ℕ)
decode_uint_at text end_ [] = none
decode_uint_at text end_ (c ∷ src) =
    if c == b'.'
    then some (false, none)
    else if c == b'0'
    then finish_uint text end_ (decode_prefixed src)
    else finish_uint text end_ (scan_digits is_decimal digit_value 10 (sub64 c b'0') src)

-- `tokeniser_decode_uint`
unfoldable pub decode_uint : List ℕ → Token → Option (Bool × Option ℕ)
unfolding decode_prefixed scan_digits
decode_uint text t = decode_uint_at text t.end_ (drop t.start text)

-- `while (char_flags[c = (uint8_t)*++in] & CF_HEX_DIGIT)` of an escape, on 32 bits
unfoldable pub scan_hex_escape : ℕ → List ℕ → Option (ℕ × List ℕ)
unfolding hex_value
scan_hex_escape hval [] = none
scan_hex_escape hval (c ∷ src) =
    let rest = scan_hex_escape (u32 (hval * 16 + hex_value c)) src in
    if is_hex c then rest else some (hval, c ∷ src)

-- At most `n` more octal digits of an escape.
unfoldable pub scan_octal_escape : ℕ → ℕ → List ℕ → Option (ℕ × List ℕ)
scan_octal_escape zero oval src = some (oval, src)
scan_octal_escape (suc n) oval [] = none
scan_octal_escape (suc n) oval (c ∷ src) =
    let rest = scan_octal_escape n (oval * 8 + digit_value c) src in
    if is_octal c then rest else some (oval, c ∷ src)

-- `case 'x'`, behind the letter
unfoldable pub hex_escape : List ℕ → Option (ℕ × List ℕ)
unfolding scan_hex_escape hex_value
hex_escape [] = none
hex_escape (c ∷ src) = if is_hex c then scan_hex_escape (hex_value c) src else some (b'x', c ∷ src)

-- The letters that stand for another character.
unfoldable pub simple_escape : ℕ → ℕ
simple_escape c =
    if c == b'a'
    then 7
    else if c == b'b'
    then 8
    else if c == b'f'
    then 12
    else if c == b'n'
    then b'\n'
    else if c == b'r'
    then b'\r'
    else if c == b't'
    then b'\t'
    else if c == b'v'
    then 11
    else c

-- The `switch` behind a backslash: the character that is written, and what is left of the text.
unfoldable pub escape : List ℕ → Option (ℕ × List ℕ)
unfolding hex_escape scan_octal_escape simple_escape
escape [] = none
escape (c ∷ src) =
    if c == b'x'
    then hex_escape src
    else if is_octal c
    then scan_octal_escape 2 (digit_value c) src
    else some (simple_escape c, src)

abbrev pub put_char : ℕ → Option (List ℕ) → Option (List ℕ)
put_char c none = none
put_char c (some out) = some (u8 c ∷ out)

abbrev pub after_escape : (List ℕ → Option (List ℕ)) → Option (ℕ × List ℕ) → Option (List ℕ)
after_escape on none = none
after_escape on (some (c, src)) = put_char c (on src)

-- The loop of `tokeniser_decode_str_lit`, `while (in < end)`: `behind` characters of the text are
-- behind the end.
unfoldable pub decode_body : ℕ → ℕ → List ℕ → Option (List ℕ)
unfolding escape
decode_body zero behind src = none
decode_body (suc fuel) behind [] = some []
decode_body (suc fuel) behind (c ∷ src) = elim (leb (suc (length src)) behind) [
  | true ↦ some []
  | false ↦ elim (c == b'\\') [
    | true ↦ after_escape (decode_body fuel behind) (escape src)
    | false ↦ put_char c (decode_body fuel behind src)
  ]
]

-- `tokeniser_decode_str_lit`: `some none` is a token of another type.
unfoldable pub decode_str_lit : List ℕ → Token → Option (Option (List ℕ))
unfolding decode_body
decode_str_lit text t =
    if (t.type == tok_str_lit) || (t.type == tok_str_lit + 2)
    then some (some (range text (t.start + 1) (t.end_ - 1)))
    else if (t.type == tok_str_lit + 1) || (t.type == tok_str_lit + 3)
    then elim (decode_body (suc (length text)) (length text - (t.end_ - 1))
        (drop (t.start + 1) text)) [ none ↦ none | some out ↦ some (some out) ]
    else some none

-- The loop of `tokeniser_decode_char_lit`.
unfoldable pub decode_char_value : ℕ → List ℕ → ℕ
decode_char_value uval [] = uval
decode_char_value uval (c ∷ src) = decode_char_value (bit_or (u64 (uval * 2 ^ 8)) (u8 c)) src

-- `tokeniser_decode_char_lit`, of a literal: for another token the code reads a length that is not set.
unfoldable pub decode_char_lit : List ℕ → Token → Option ℕ
unfolding decode_str_lit decode_char_value
decode_char_lit text t = elim (decode_str_lit text t) [
  | none ↦ none
  | some decoded ↦ elim decoded [ none ↦ none | some out ↦ some (decode_char_value 0 out) ]
]
