-- ===== src/Tokenise/Run.antt =====
-- `tokeniser_run`.
pub mod Total
pub mod Rounds
pub mod Tokens
use polyfill_glibc.Base.{
  ℕ, zero, suc, ◌+◌, ◌-◌, ◌*◌, ◌^◌, Bool, true, false, not, ◌&&◌, ◌||◌, Option, none, some, List,
  [], ◌∷◌, ◌++◌, bit_and, bit_or, u32, ltb, leb, ◌==◌, if◌then◌else◌, length, take,
}
use polyfill_glibc.Tokenise.Chars.{has_flag, cf_ident_continue}
use polyfill_glibc.Tokenise.Scan.{
  punct_repeat, punct_eq, tok_punct, tok_number, tok_str_lit, tok_other_char, skip_while,
  scan_literal, scan_number,
}

pub record Token : Type 0 where
  pub type : ℕ
  pub start : ℕ
  pub end_ : ℕ

-- What one round of the loop does: an identifier to be interned, another token, blanks or a comment
-- before the next token, the end of a line, or the end of the text. Each has what is left of it.
pub data Round : Type 0 where
  ident : List ℕ → Round
  token : ℕ → List ℕ → Round
  blank : List ℕ → Round
  line : List ℕ → Round
  eof : Round

abbrev pub is_one_of : List ℕ → ℕ → Bool
is_one_of [] c = false
is_one_of (x ∷ xs) c = (c == x) || is_one_of xs c

-- `'0' <= c && c <= '9'`
abbrev pub is_decimal : ℕ → Bool
is_decimal c = leb b'0' c && leb c b'9'

-- The `case` labels of identifiers.
abbrev pub starts_ident : ℕ → Bool
starts_ident c = (c == b'_') || ((leb b'a' c && leb c b'z') || (leb b'A' c && leb c b'Z'))

abbrev pub simple_puncts : List ℕ
simple_puncts =
    b'(' ∷ b')' ∷ b'[' ∷ b']' ∷ b'{' ∷ b'}' ∷ b',' ∷ b';' ∷ b'~' ∷ b'-' ∷ b'+' ∷ b'*' ∷ b'^' ∷ b'%'
    ∷ b'@' ∷ b'#' ∷ []

-- The `possible` of `PUNCT_SINGLE_FLAG`.
abbrev pub repeated_puncts : List ℕ
repeated_puncts = b'&' ∷ b'|' ∷ b'<' ∷ b'>' ∷ b':' ∷ []

abbrev pub equals_puncts : List ℕ
equals_puncts = b'=' ∷ b'!' ∷ []

abbrev pub is_blank : ℕ → Bool
is_blank c = is_one_of (b' ' ∷ b'\t' ∷ 0x0c ∷ 0x0b ∷ []) c

-- `0x80u <= c && c < 0xc0u`
abbrev pub is_continuation : ℕ → Bool
is_continuation c = leb 0x80 c && ltb c 0xc0

abbrev pub option_round : (List ℕ → Round) → Option (List ℕ) → Option Round
option_round f none = none
option_round f (some rest) = some (f rest)

abbrev pub literal_round : Option (ℕ × List ℕ) → Option Round
literal_round none = none
literal_round (some (type, rest)) = some (token type rest)

-- `PUNCT_SINGLE_FLAG(c, flag)`: `other` makes it a token with the flag.
unfoldable pub flagged : ℕ → ℕ → ℕ → List ℕ → Option Round
flagged c other flag [] = none
flagged c other flag (d ∷ src) =
    if d == other
    then some (token (tok_punct c + flag) src)
    else some (token (tok_punct c) (d ∷ src))

-- `case '.'`
unfoldable pub dot : List ℕ → Option Round
dot [] = none
dot (d ∷ src) =
    if is_decimal d
    then option_round (token tok_number) (scan_number d src)
    else some (token (tok_punct b'.') (d ∷ src))

-- `char_r`
unfoldable pub carriage_return : List ℕ → Option Round
carriage_return [] = none
carriage_return (d ∷ src) = if d == b'\n' then some (line src) else some (line (d ∷ src))

-- The loop of a comment, which ends at the end of the line.
unfoldable pub comment : List ℕ → Option Round
unfolding carriage_return
comment [] = none
comment (c ∷ src) =
    let rest = comment src in
    if c == b'\n' then some (line src) else if c == b'\r' then carriage_return src else rest

-- `case '/'`
unfoldable pub slash : List ℕ → Option Round
unfolding comment
slash [] = none
slash (d ∷ src) = if d == b'/' then comment src else some (token (tok_punct b'/') (d ∷ src))

-- The `switch`, on the character `c` and what follows it. A zero is the end of the text if `src` is
-- past the text, whose buffer has two more bytes.
unfoldable pub round : ℕ → List ℕ → Option Round
unfolding flagged dot slash carriage_return skip_while scan_literal scan_number
round c src =
    if starts_ident c
    then option_round ident (skip_while (has_flag cf_ident_continue) src)
    else if (c == b'\'') || (c == b'"')
    then literal_round (scan_literal false c (tok_str_lit + bit_and c 1 * 2) src)
    else if c == b'.'
    then dot src
    else if is_decimal c
    then option_round (token tok_number) (scan_number c src)
    else if is_one_of simple_puncts c
    then some (token (tok_punct c) src)
    else if is_one_of repeated_puncts c
    then flagged c c punct_repeat src
    else if is_one_of equals_puncts c
    then flagged c b'=' punct_eq src
    else if c == b'/'
    then slash src
    else if c == b'\r'
    then carriage_return src
    else if c == b'\n'
    then some (line src)
    else if is_blank c
    then option_round blank (skip_while (λ (d : ℕ). d == c) src)
    else if c == 0
    then (if leb (length src) 1 then some eof else some (token tok_other_char src))
    else option_round (token tok_other_char) (skip_while is_continuation src)

-- The arrays that `tokeniser_run` fills, with the last token, which is not counted in
-- `tokens_size`, and the table of identifiers.
pub record Lexed (S : Type 0) : Type 0 where
  pub tokens : List Token
  pub line_starts : List ℕ
  pub idents : S

abbrev pub with_token : {S : Type 0} → Token → Option (Lexed S) → Option (Lexed S)
with_token t none = none
with_token t (some l) = some (record l { tokens = t ∷ l.tokens })

abbrev pub with_line : {S : Type 0} → ℕ → Option (Lexed S) → Option (Lexed S)
with_line start none = none
with_line start (some l) = some (record l { line_starts = start ∷ l.line_starts })

-- `(uint32_t)(src - base)`, of the size of the buffer and what is left of it from `src` on
abbrev pub offset_of : ℕ → List ℕ → ℕ
offset_of total left = u32 (total - length left)

module _ {S : Type 0} (intern : S → List ℕ → ℕ × S) where
  -- What follows the `switch`, with the rest of the loop as `on`.
  abbrev pub after_round :
      (ℕ → S → List ℕ → Option (Lexed S)) → ℕ → ℕ → S → List ℕ → Option Round → Option (Lexed S)
  after_round on total start idents left none = none
  after_round on total start idents left (some eof) =
      let from = offset_of total left in
      some (record {
        tokens = record { type = 0xffffffff; start = from; end_ = from } ∷ [];
        line_starts = 0xffffffff ∷ [];
        idents = idents;
      })
  after_round on total start idents left (some (ident rest)) =
      let interned = intern idents (take (length left - length rest) left) in
      with_token
        (record { type = interned.0; start = offset_of total left; end_ = offset_of total rest })
        (on start interned.1 rest)
  after_round on total start idents left (some (token type rest)) =
      with_token (record { type = type; start = offset_of total left; end_ = offset_of total rest })
        (on start idents rest)
  after_round on total start idents left (some (blank rest)) = on start idents rest
  after_round on total start idents left (some (line rest)) =
      with_line start (on (offset_of total rest) idents rest)

  -- The loop, on the size of the buffer, the start of the line, and what is left of the text. The
  -- start of a line is stored when the next line starts, and 0xffffffff in place of the last one.
  unfoldable pub run_loop : ℕ → ℕ → ℕ → S → List ℕ → Option (Lexed S)
  unfolding round
  run_loop zero total start idents rest = none
  run_loop (suc fuel) total start idents [] = none
  run_loop (suc fuel) total start idents (c ∷ src) =
      after_round (run_loop fuel total) total start idents (c ∷ src) (round c src)

  -- `tokeniser_run`, on the bytes of the file. Each round takes a byte off the buffer. `text_size` is a
  -- uint32_t: if `text_size + 1` wraps around, the buffer is not made large enough for the two bytes
  -- behind the text, and they are written outside it. That is `none`, as for a read outside it.
  unfoldable pub run : S → List ℕ → Option (Lexed S)
  unfolding run_loop
  run idents text =
      let buffer = text ++ (b'\n' ∷ 0 ∷ []) in
      if ltb (length text + 1) (2 ^ 32)
      then run_loop (suc (length buffer)) (length buffer) 0 idents buffer
      else none
