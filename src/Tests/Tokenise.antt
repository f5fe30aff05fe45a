-- ===== src/Tests/Tokenise.antt =====
-- src/tokenise.c at concrete inputs.
use polyfill_glibc.Base.{
  ℕ, suc, ◌+◌, ◌<◌, ◌≤◌, ◌≡◌, ◌⊎◌, refl, arith, true, List, [], ◌∷◌, ◌++◌, some, length,
}
use polyfill_glibc.Tokenise.Chars.{has_flag}
use polyfill_glibc.Tokenise.Scan.{tok_punct}
use polyfill_glibc.Tokenise.Run.{Lexed, run}
use polyfill_glibc.Tokenise.Lines.{LineTable, starts_at, offset_to_line, next_line_start}
use polyfill_glibc.Tokenise.Lines.Files.{lines_of, run-lines_of-IsValid}
use polyfill_glibc.Tokenise.Lines.Found.{
  IsValid, Found, offset_to_line-Found, next_line_start-Found,
}
use polyfill_glibc.Tokenise.Decode.{decode_uint, decode_str_lit, decode_char_lit}
use polyfill_glibc.Tokenise.Decode.Decimals.{print_decimal, decode_uint-print_decimal}
use polyfill_glibc.Tokenise.Decode.Escapes.{
  print_escapes, IsBytes, nil, byte, decode_str_lit-print_escapes,
}

-- Identifiers are numbered in their order.
abbrev numbered : ℕ → List ℕ → ℕ × ℕ
numbered n _ = (n, suc n)

-- a+=1 // b, and a new line with a literal
abbrev text : List ℕ
text = b'a' ∷ b'+' ∷ b'=' ∷ b'1' ∷ b' ' ∷ b'/' ∷ b'/' ∷ b'b' ∷ b'\n' ∷ b'"' ∷ b'c' ∷ b'"' ∷ []

abbrev lexed : Lexed ℕ
lexed = record {
  tokens =
      record { type = 0; start = 0; end_ = 1 }
      ∷ record { type = 0xffffff8b; start = 1; end_ = 2 }
      ∷ record { type = 0xffffff9d; start = 2; end_ = 3 }
      ∷ record { type = 0xfffffff7; start = 3; end_ = 4 }
      ∷ record { type = 0xfffffff8; start = 9; end_ = 12 }
      ∷ record { type = 0xffffffff; start = 13; end_ = 13 }
      ∷ [];
  line_starts = 0 ∷ 9 ∷ 0xffffffff ∷ [];
  idents = 1;
}

run_lexed : run numbered 0 text ≡ some lexed
unfolding run has_flag tok_punct
run_lexed = refl

abbrev lines : LineTable
lines = lines_of lexed

run-lines_of-IsValid_example : IsValid lines
run-lines_of-IsValid_example = run-lines_of-IsValid numbered 0 text lexed (omega arith) run_lexed

on_second_line : offset_to_line lines 9 ≡ some (1, record lines { line_lookup_cache = 1 })
unfolding offset_to_line lines_of
on_second_line = refl

offset_to_line-Found_example :
    (line : ℕ) × (t' : LineTable) × (offset_to_line lines 8 ≡ some (line, t'))
    × Found lines 8 line t'
offset_to_line-Found_example =
    offset_to_line-Found lines (run-lines_of-IsValid numbered 0 text lexed (omega arith) run_lexed)
      8 (omega arith)

next_line_start-Found_example :
    (line start : ℕ) × (next_line_start lines 8 ≡ some start)
    × (line < lines.line_starts_size)
    × (starts_at lines line ≤ 8)
    × (8 < start)
    × ((suc line < lines.line_starts_size) × (start ≡ starts_at lines (suc line))
        ⊎ (suc line ≡ lines.line_starts_size) × (start ≡ 0xffffffff))
next_line_start-Found_example =
    next_line_start-Found lines (run-lines_of-IsValid numbered 0 text lexed (omega arith) run_lexed)
      8 (omega arith)

printed_number : print_decimal 20 120 (b';' ∷ []) ≡ b'1' ∷ b'2' ∷ b'0' ∷ b';' ∷ []
unfolding print_decimal
printed_number = refl

decode_uint-print_decimal_example :
    decode_uint
      ((b'=' ∷ []) ++ print_decimal 20 120 (b';' ∷ []))
      (record { type = 0xfffffff7; start = 1; end_ = 1 + length (print_decimal 20 120 []) })
    ≡ some (true, some 120)
decode_uint-print_decimal_example =
    decode_uint-print_decimal (b'=' ∷ []) [] 0xfffffff7 120 b';' (omega arith) (omega arith) refl
      (omega arith)

two-IsBytes : IsBytes (255 ∷ 10 ∷ [])
two-IsBytes = byte (omega arith) (byte (omega arith) nil)

decode_str_lit-print_escapes_example :
    decode_str_lit
      ((b'=' ∷ []) ++ (b'"' ∷ print_escapes (255 ∷ 10 ∷ []) (b'"' ∷ [])))
      (record { type = 0xfffffff9; start = 1; end_ = 11 })
    ≡ some (some (255 ∷ 10 ∷ []))
decode_str_lit-print_escapes_example =
    decode_str_lit-print_escapes (b'=' ∷ []) [] (255 ∷ 10 ∷ []) two-IsBytes

-- "\x41\n" with its quotes, as a literal with escapes
escaped :
    decode_str_lit
      (b'"' ∷ b'\\' ∷ b'x' ∷ b'4' ∷ b'1' ∷ b'\\' ∷ b'n' ∷ b'"' ∷ [])
      (record { type = 0xfffffff9; start = 0; end_ = 8 })
    ≡ some (some (b'A' ∷ b'\n' ∷ []))
unfolding decode_str_lit has_flag
escaped = refl

char_value :
    decode_char_lit
      (b'\'' ∷ b'A' ∷ b'B' ∷ b'\'' ∷ [])
      (record { type = 0xfffffffa; start = 0; end_ = 4 })
    ≡ some 0x4142
unfolding decode_char_lit
char_value = refl
