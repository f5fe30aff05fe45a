-- ===== src/Tokenise/Decode/Decimals.antt =====
-- A decimal number is decoded to what was printed.
use polyfill_glibc.Base.{
  ℕ, zero, suc, ◌+◌, ◌-◌, ◌*◌, ◌/◌, ◌%◌, ◌^◌, ◌≤◌, ◌<◌, Bool, true, false, Option, some, List, [],
  ◌∷◌, ◌++◌, ◌≡◌, ◌≢◌, refl, sym, ap, ◌∙◌, arith, u64, sub64, length, drop, length-append, ltb,
  ◌==◌, if◌then◌else◌,
}
use native.Mathlib.Decide.{dec_lt}
use native.Mathlib.Nat.{pow-suc}
use polyfill_glibc.Tokenise.Decode.{
  scan_digits, digit_value, finish_uint, decode_uint_at, decode_uint,
}
use polyfill_glibc.Tokenise.Run.{is_decimal}

-- The digits of `n` before `tail`, on fuel.
unfoldable pub print_decimal : ℕ → ℕ → List ℕ → List ℕ
print_decimal zero n tail = tail
print_decimal (suc fuel) n tail =
    let more = print_decimal fuel (n / 10) ((b'0' + n % 10) ∷ tail) in
    if ltb n 10 then (b'0' + n) ∷ tail else more

print-none : (n : ℕ) (tail : List ℕ) → print_decimal 0 n tail ≡ tail
unfolding print_decimal
print-none n tail = refl

print-one :
    (fuel n : ℕ) (tail : List ℕ) → n < 10 → print_decimal (suc fuel) n tail ≡ (b'0' + n) ∷ tail
unfolding print_decimal
print-one fuel n tail lt = ground arith

print-more :
    (fuel n : ℕ) (tail : List ℕ)
    → 10 ≤ n
    → print_decimal (suc fuel) n tail ≡ print_decimal fuel (n / 10) ((b'0' + n % 10) ∷ tail)
unfolding print_decimal
print-more fuel n tail le = ground arith

abbrev scan : ℕ → List ℕ → Option (ℕ × List ℕ)
scan = scan_digits is_decimal digit_value 10

scan_on :
    (uval c : ℕ) (src : List ℕ)
    → is_decimal c ≡ true
    → scan uval (c ∷ src) ≡ scan (u64 (uval * 10 + digit_value c)) src
unfolding scan_digits
scan_on uval c src h = cc

is_decimal-digit : (d : ℕ) → d < 10 → is_decimal (b'0' + d) ≡ true
is_decimal-digit d lt = ground arith

scan-digit :
    (uval d : ℕ) (src : List ℕ)
    → d < 10
    → scan uval ((b'0' + d) ∷ src) ≡ scan (u64 (uval * 10 + d)) src
scan-digit uval d src lt =
    let e : b'0' + d - b'0' ≡ d = omega arith in
    scan_on uval (b'0' + d) src (is_decimal-digit d lt)
    ∙ ap (λ (k : ℕ). scan (u64 (uval * 10 + k)) src) e

scan-stop :
    (uval stop : ℕ) (src : List ℕ)
    → is_decimal stop ≡ false
    → stop ≢ b'\''
    → scan uval (stop ∷ src) ≡ some (uval, stop ∷ src)
unfolding scan_digits
scan-stop uval stop src no_digit no_quote = ground arith

scan-print :
    (fuel n : ℕ) (tail : List ℕ)
    → n < 10 ^ fuel
    → n < 2 ^ 64
    → scan 0 (print_decimal fuel n tail) ≡ scan n tail
scan-print zero n tail lt small =
    let e : 0 ≡ n = omega arith in ap (scan 0) (print-none n tail) ∙ ap (λ (k : ℕ). scan k tail) e
scan-print (suc fuel) n tail lt small = elim (dec_lt n 10) [
  | yes one ↦
      let e : u64 (0 * 10 + n) ≡ n = omega arith in
      ap (scan 0) (print-one fuel n tail one)
      ∙ scan-digit 0 n tail one
      ∙ ap (λ (k : ℕ). scan k tail) e
  | no more ↦
      let e : u64 (n / 10 * 10 + n % 10) ≡ n = omega arith in
      ap (scan 0) (print-more fuel n tail (omega arith))
      ∙ scan-print fuel (n / 10) ((b'0' + n % 10) ∷ tail) (omega (arith, pow-suc 10 fuel))
          (omega arith)
      ∙ scan-digit (n / 10) (n % 10) tail (omega arith)
      ∙ ap (λ (k : ℕ). scan k tail) e
]

length-print :
    (fuel n : ℕ) (tail : List ℕ)
    → length (print_decimal fuel n tail) ≡ length (print_decimal fuel n []) + length tail
length-print zero n tail = omega (arith, ap length (print-none n tail), ap length (print-none n []))
length-print (suc fuel) n tail = elim (dec_lt n 10) [
  | yes one ↦
      omega (arith, ap length (print-one fuel n tail one), ap length (print-one fuel n [] one))
  | no more ↦ omega (
    arith,
    ap length (print-more fuel n tail (omega arith)),
    ap length (print-more fuel n [] (omega arith)),
    length-print fuel (n / 10) ((b'0' + n % 10) ∷ tail),
    length-print fuel (n / 10) ((b'0' + n % 10) ∷ []),
  )
]

-- The first digit of a positive number is not zero.
print-head :
    (fuel n : ℕ) (tail : List ℕ)
    → n < 10 ^ fuel
    → 0 < n
    → (d : ℕ) × (src : List ℕ) × (print_decimal fuel n tail ≡ (b'0' + d) ∷ src) × (0 < d) × (d < 10)
print-head zero n tail lt pos = absurd (omega arith)
print-head (suc fuel) n tail lt pos = elim (dec_lt n 10) [
  | yes one ↦ (n, tail, print-one fuel n tail one, pos, one)
  | no more ↦
      let (d, src, e, p, q) =
        print-head fuel (n / 10) ((b'0' + n % 10) ∷ tail) (omega (arith, pow-suc 10 fuel))
          (omega arith) in
      (d, src, print-more fuel n tail (omega arith) ∙ e, p, q)
]

decode-nonzero :
    (text : List ℕ) (end_ d : ℕ) (src : List ℕ)
    → 0 < d
    → d < 10
    → decode_uint_at text end_ ((b'0' + d) ∷ src)
      ≡ finish_uint text end_ (scan_digits is_decimal digit_value 10 (sub64 (b'0' + d) b'0') src)
decode-nonzero text end_ d src pos lt = ground arith

decode-print :
    (text : List ℕ) (end_ n : ℕ) (tail : List ℕ)
    → 0 < n
    → n < 2 ^ 64
    → decode_uint_at text end_ (print_decimal 20 n tail) ≡ finish_uint text end_ (scan n tail)
decode-print text end_ n tail pos small =
    let (d, src, e, p, q) = print-head 20 n tail (omega arith) pos in
    let v : sub64 (b'0' + d) b'0' ≡ u64 (0 * 10 + d) = omega arith in
    ap (decode_uint_at text end_) e
    ∙ decode-nonzero text end_ d src p q
    ∙ ap (λ (k : ℕ). finish_uint text end_ (scan k src)) v
    ∙ ap (finish_uint text end_) (
        sym (scan-digit 0 d src q) ∙ ap (scan 0) (sym e) ∙ scan-print 20 n tail (omega arith) small)

drop_past : (before after : List ℕ) → drop (length before) (before ++ after) ≡ after
drop_past [] after = refl
drop_past (c ∷ before) after = drop_past before after

-- `tokeniser_decode_uint` decodes the decimal digits of a positive 64-bit number to that number and
-- says that the token is one, wherever the digits stand in the text, if neither a digit nor a quote
-- follows them.
pub decode_uint-print_decimal :
    (before after : List ℕ) (type n stop : ℕ)
    → 0 < n
    → n < 2 ^ 64
    → is_decimal stop ≡ false
    → stop ≢ b'\''
    → decode_uint (before ++ print_decimal 20 n (stop ∷ after)) (record {
      type = type;
      start = length before;
      end_ = length before + length (print_decimal 20 n []);
    })
      ≡ some (true, some n)
unfolding decode_uint
decode_uint-print_decimal before after type n stop pos small no_digit no_quote =
    let digits = print_decimal 20 n (stop ∷ after) in
    let text = before ++ digits in
    let end_ = length before + length (print_decimal 20 n []) in
    ap (decode_uint_at text end_) (drop_past before digits)
    ∙ decode-print text end_ n (stop ∷ after) pos small
    ∙ ap (finish_uint text end_) (scan-stop n stop after no_digit no_quote)
    ∙ ap (λ (b : Bool). some (b, some n))
        (ends text end_
          (omega (arith, length-append before digits, length-print 20 n (stop ∷ after))))
  where
    ends :
        (text : List ℕ) (end_ : ℕ)
        → length text ≡ end_ + length (stop ∷ after)
        → (length text - length (stop ∷ after) == end_) ≡ true
    ends text end_ e = ground arith
