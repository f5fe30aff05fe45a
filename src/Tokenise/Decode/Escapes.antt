-- ===== src/Tokenise/Decode/Escapes.antt =====
-- The body of a literal that is written with octal escapes is decoded to what was written.
use polyfill_glibc.Base.{
  ℕ, suc, ◌+◌, ◌-◌, ◌*◌, ◌/◌, ◌%◌, ◌^◌, ◌≤◌, ◌<◌, Bool, true, false, some, List, [], ◌∷◌, ◌++◌, ◌≡◌,
  refl, ap, ◌∙◌, arith, u8, length, length-append, drop, leb, ◌==◌,
}
use polyfill_glibc.Tokenise.Decode.{
  is_octal, digit_value, scan_octal_escape, escape, after_escape, put_char, decode_body,
  decode_str_lit,
}
use polyfill_glibc.Tokenise.Scan.{tok_str_lit}

-- Each byte as a backslash and three octal digits.
unfoldable pub print_escapes : List ℕ → List ℕ → List ℕ
print_escapes [] behind = behind
print_escapes (c ∷ cs) behind =
    b'\\' ∷ (b'0' + c / 64) ∷ (b'0' + c / 8 % 8) ∷ (b'0' + c % 8) ∷ print_escapes cs behind

-- Every character is a byte.
pub data IsBytes : List ℕ → Type 0 where
  nil : IsBytes []
  byte : {c : ℕ} {cs : List ℕ} → c < 2 ^ 8 → IsBytes cs → IsBytes (c ∷ cs)

octal_on :
    (n oval c : ℕ) (src : List ℕ)
    → is_octal c ≡ true
    → scan_octal_escape (suc n) oval (c ∷ src) ≡ scan_octal_escape n (oval * 8 + digit_value c) src
unfolding scan_octal_escape
octal_on n oval c src h = cc

octal_end : (oval : ℕ) (src : List ℕ) → scan_octal_escape 0 oval src ≡ some (oval, src)
unfolding scan_octal_escape
octal_end oval src = refl

escape-octal :
    (c : ℕ) (src : List ℕ)
    → is_octal c ≡ true
    → (c == b'x') ≡ false
    → escape (c ∷ src) ≡ scan_octal_escape 2 (digit_value c) src
unfolding escape
escape-octal c src h ne = cc

octal_digit : (d : ℕ) → d < 8 → is_octal (b'0' + d) ≡ true
octal_digit d lt = ground arith

not_x : (d : ℕ) → d < 8 → (b'0' + d == b'x') ≡ false
not_x d lt = ground arith

escape-digits :
    (c : ℕ) (src : List ℕ)
    → c < 2 ^ 8
    → escape ((b'0' + c / 64) ∷ (b'0' + c / 8 % 8) ∷ (b'0' + c % 8) ∷ src) ≡ some (c, src)
escape-digits c src lt =
    let value : ((b'0' + c / 64 - b'0') * 8 + (b'0' + c / 8 % 8 - b'0')) * 8 + (b'0' + c % 8 - b'0')
        ≡ c =
      omega arith in
    escape-octal (b'0' + c / 64) ((b'0' + c / 8 % 8) ∷ (b'0' + c % 8) ∷ src)
      (octal_digit (c / 64) (omega arith)) (not_x (c / 64) (omega arith))
    ∙ octal_on 1 (digit_value (b'0' + c / 64)) (b'0' + c / 8 % 8) ((b'0' + c % 8) ∷ src)
        (octal_digit (c / 8 % 8) (omega arith))
    ∙ octal_on 0 (digit_value (b'0' + c / 64) * 8 + digit_value (b'0' + c / 8 % 8)) (b'0' + c % 8)
        src (octal_digit (c % 8) (omega arith))
    ∙ octal_end _ src
    ∙ ap (λ (k : ℕ). some (k, src)) value

body-escape :
    (fuel behind : ℕ) (src : List ℕ)
    → behind ≤ length src
    → decode_body (suc fuel) behind (b'\\' ∷ src)
      ≡ after_escape (decode_body fuel behind) (escape src)
unfolding decode_body
body-escape fuel behind src le = choose (leb (suc (length src)) behind) (ground arith)
  where
    choose :
        (b : Bool)
        → b ≡ false
        → (elim b [ true ↦ some [] | false ↦ after_escape (decode_body fuel behind) (escape src) ])
          ≡ after_escape (decode_body fuel behind) (escape src)
    choose true e = cc
    choose false e = refl

body-end : (fuel : ℕ) (src : List ℕ) → decode_body (suc fuel) (length src) src ≡ some []
unfolding decode_body
body-end fuel [] = refl
body-end fuel (c ∷ src) = ground arith

length-print_escapes :
    (cs behind : List ℕ) → length (print_escapes cs behind) ≡ 4 * length cs + length behind
unfolding print_escapes
length-print_escapes [] behind = omega arith
length-print_escapes (c ∷ cs) behind = omega (arith, length-print_escapes cs behind)

print_escapes-cons :
    (c : ℕ) (cs behind : List ℕ)
    → print_escapes (c ∷ cs) behind
      ≡ b'\\' ∷ (b'0' + c / 64) ∷ (b'0' + c / 8 % 8) ∷ (b'0' + c % 8) ∷ print_escapes cs behind
unfolding print_escapes
print_escapes-cons c cs behind = refl

print_escapes-nil : (behind : List ℕ) → print_escapes [] behind ≡ behind
unfolding print_escapes
print_escapes-nil behind = refl

-- The loop stops at the end of the literal, if it has a round for each byte and one more.
decode_body-print_escapes :
    (cs behind : List ℕ) (spare : ℕ)
    → IsBytes cs
    → decode_body (suc (length cs) + spare) (length behind) (print_escapes cs behind) ≡ some cs
decode_body-print_escapes [] behind spare nil =
    let e : suc 0 + spare ≡ suc spare = omega arith in
    ap (λ (n : ℕ). decode_body n (length behind) (print_escapes [] behind)) e
    ∙ ap (decode_body (suc spare) (length behind)) (print_escapes-nil behind)
    ∙ body-end spare behind
decode_body-print_escapes (c ∷ cs) behind spare (byte lt bytes) =
    let rest = print_escapes cs behind in
    let fuel = suc (length cs) + spare in
    let e : suc (suc (length cs)) + spare ≡ suc fuel = omega arith in
    let same : u8 c ≡ c = omega arith in
    ap (λ (n : ℕ). decode_body n (length behind) (print_escapes (c ∷ cs) behind)) e
    ∙ ap (decode_body (suc fuel) (length behind)) (print_escapes-cons c cs behind)
    ∙ body-escape fuel (length behind)
        ((b'0' + c / 64) ∷ (b'0' + c / 8 % 8) ∷ (b'0' + c % 8) ∷ rest)
        (omega (arith, length-print_escapes cs behind))
    ∙ ap (after_escape (decode_body fuel (length behind))) (escape-digits c rest lt)
    ∙ ap (put_char c) (decode_body-print_escapes cs behind spare bytes)
    ∙ ap (λ (k : ℕ). some (k ∷ cs)) same

str_lit-run :
    (text out : List ℕ) (start end_ : ℕ)
    → decode_body (suc (length text)) (length text - (end_ - 1)) (drop (start + 1) text) ≡ some out
    → decode_str_lit text (record { type = tok_str_lit + 1; start = start; end_ = end_ })
      ≡ some (some out)
unfolding decode_str_lit
str_lit-run text out start end_ run = rw run refl

drop_one : (xs : List ℕ) (y : ℕ) (ys : List ℕ) → drop (length xs + 1) (xs ++ (y ∷ ys)) ≡ ys
drop_one xs y ys =
    let e : length xs + 1 ≡ suc (length xs) = omega arith in
    ap (λ (n : ℕ). drop n (xs ++ (y ∷ ys))) e ∙ past xs y ys
  where
    past : (xs : List ℕ) (y : ℕ) (ys : List ℕ) → drop (suc (length xs)) (xs ++ (y ∷ ys)) ≡ ys
    past [] y ys = refl
    past (x ∷ xs) y ys = past xs y ys

-- `tokeniser_decode_str_lit` decodes a literal of octal escapes, three digits to a byte, to the bytes
-- they were printed for, wherever the literal stands in the text. `before` is the text up to its
-- opening quote, and `after` what follows its closing one.
pub decode_str_lit-print_escapes :
    (before after cs : List ℕ)
    → IsBytes cs
    → decode_str_lit (before ++ (b'"' ∷ print_escapes cs (b'"' ∷ after))) (record {
      type = tok_str_lit + 1;
      start = length before;
      end_ = length before + 4 * length cs + 2;
    })
      ≡ some (some cs)
decode_str_lit-print_escapes before after cs bytes =
    let behind = b'"' ∷ after in
    let text = before ++ (b'"' ∷ print_escapes cs behind) in
    let size : length text ≡ length before + suc (4 * length cs + length behind) = omega (
      arith,
      length-append before (b'"' ∷ print_escapes cs behind),
      length-print_escapes cs behind,
    ) in
    let rest : length text - (length before + 4 * length cs + 2 - 1) ≡ length behind =
      omega (arith, size) in
    let spare = length before + 3 * length cs + suc (length behind) in
    let fuel : suc (length text) ≡ suc (length cs) + spare = omega (arith, size) in
    str_lit-run text cs (length before) (length before + 4 * length cs + 2) (
      ap (decode_body (suc (length text)) (length text - (length before + 4 * length cs + 2 - 1)))
        (drop_one before b'"' (print_escapes cs behind))
      ∙ ap
          (λ (n : ℕ).
            decode_body n (length text - (length before + 4 * length cs + 2 - 1))
              (print_escapes cs behind))
          fuel
      ∙ ap (λ (n : ℕ). decode_body (suc (length cs) + spare) n (print_escapes cs behind)) rest
      ∙ decode_body-print_escapes cs behind spare bytes)
