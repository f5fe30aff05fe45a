-- ===== src/EhFrame/Leb.antt =====
-- `read_uleb` and `read_sleb` against the definition of LEB128.
use polyfill_glibc.Base.{
  ℕ, zero, suc, ◌+◌, ◌-◌, ◌*◌, ◌^◌, ◌≤◌, ◌<◌, true, false, List, [], ◌∷◌, ◌++◌, ◌≡◌, sym, ap, ◌∙◌,
  arith, bit_and, bit_or, u64, leb, ltb, ◌==◌, if◌then◌else◌, length,
}
use native.Mathlib.Nat.{add-mul, mul_assoc, mul-le-mul, pow-le-pow_right, pow-suc}
use polyfill_glibc.Base.Bits.{bit_and_mask, bit_and_power, bit_or_low_fields}
use polyfill_glibc.EhFrame.Reading.{
  ok, read_uleb_from, read_uleb, read_sleb_from, read_sleb, sign_from,
}

-- The bytes are a LEB128 encoding of the number: seven bits to a byte, the low ones first, and the high
-- bit of a byte says that more bytes follow.
pub data IsLeb : List ℕ → ℕ → Type 0 where
  last : {b : ℕ} → b < 2 ^ 7 → IsLeb (b ∷ []) b
  more :
      {c n : ℕ} {bytes : List ℕ}
      → c < 2 ^ 7
      → IsLeb bytes n
      → IsLeb ((c + 2 ^ 7) ∷ bytes) (c + n * 2 ^ 7)

low_bits : (c : ℕ) → c < 2 ^ 7 → bit_and (c + 2 ^ 7) 0x7f ≡ c
low_bits c h = omega (arith, bit_and_mask 7 (c + 2 ^ 7))

own_bits : (c : ℕ) → c < 2 ^ 7 → bit_and c 0x7f ≡ c
own_bits c h = omega (arith, bit_and_mask 7 c)

goes_on : (c : ℕ) → c < 2 ^ 7 → (bit_and (c + 2 ^ 7) 0x80 == 0) ≡ false
goes_on c h = let e = bit_and_power 7 (c + 2 ^ 7) in ground (arith, e)

stops : (c : ℕ) → c < 2 ^ 7 → (bit_and c 0x80 == 0) ≡ true
stops c h = let e = bit_and_power 7 c in ground (arith, e)

-- A byte at the bit `s`, above `x`.
put_bits :
    (x c s : ℕ) → x < 2 ^ s → x + c * 2 ^ s < 2 ^ 64 → bit_or x (u64 (c * 2 ^ s)) ≡ x + c * 2 ^ s
put_bits x c s small h =
    let e : u64 (c * 2 ^ s) ≡ c * 2 ^ s = omega arith in
    ap (bit_or x) e ∙ bit_or_low_fields s c x small ∙ omega arith

power_seven : (s : ℕ) → 2 ^ (s + 7) ≡ 2 ^ 7 * 2 ^ s
power_seven s =
    let e : s + 7 ≡ suc (suc (suc (suc (suc (suc (suc s)))))) = omega arith in
    ap (λ (n : ℕ). 2 ^ n) e
    ∙ omega (
      arith,
      pow-suc 2 s,
      pow-suc 2 (suc s),
      pow-suc 2 (suc (suc s)),
      pow-suc 2 (suc (suc (suc s))),
      pow-suc 2 (suc (suc (suc (suc s)))),
      pow-suc 2 (suc (suc (suc (suc (suc s))))),
      pow-suc 2 (suc (suc (suc (suc (suc (suc s)))))),
    )

expand : (c n s : ℕ) → (c + n * 2 ^ 7) * 2 ^ s ≡ c * 2 ^ s + n * 2 ^ (s + 7)
expand c n s =
    add-mul c (n * 2 ^ 7) (2 ^ s)
    ∙ ap (λ (t : ℕ). c * 2 ^ s + t)
        (mul_assoc n (2 ^ 7) (2 ^ s) ∙ ap (λ (t : ℕ). n * t) (sym (power_seven s)))

grows : (x c s : ℕ) → x < 2 ^ s → c < 2 ^ 7 → x + c * 2 ^ s < 2 ^ (s + 7)
grows x c s small h =
    let most : c * 2 ^ s ≤ 127 * 2 ^ s =
      mul-le-mul {n₁ = c} {m₁ = 2 ^ s} {n₂ = 127} {m₂ = 2 ^ s} (omega arith) (omega arith) in
    omega (arith, most, power_seven s)

-- One round of each loop.
module _ (x s c : ℕ) (p : List ℕ) (h : c < 2 ^ 7) (in_word : s < 64) where
  uleb-last : read_uleb_from x s (c ∷ p) ≡ ok (bit_or x (u64 (c * 2 ^ s)), p)
  unfolding read_uleb_from
  uleb-last = let e = stops c h in let l : leb 64 s ≡ false = ground arith in cc

  uleb-more :
      read_uleb_from x s ((c + 2 ^ 7) ∷ p) ≡ read_uleb_from (bit_or x (u64 (c * 2 ^ s))) (s + 7) p
  unfolding read_uleb_from
  uleb-more =
      let e = goes_on c h in let l : leb 64 s ≡ false = ground arith in let b = low_bits c h in cc

  sleb-last : read_sleb_from x s (c ∷ p) ≡ ok (sign_from (bit_or x (u64 (c * 2 ^ s))) (s + 7), p)
  unfolding read_sleb_from
  sleb-last =
      let e = stops c h in let l : leb 64 s ≡ false = ground arith in let b = own_bits c h in cc

  sleb-more :
      read_sleb_from x s ((c + 2 ^ 7) ∷ p) ≡ read_sleb_from (bit_or x (u64 (c * 2 ^ s))) (s + 7) p
  unfolding read_sleb_from
  sleb-more =
      let e = goes_on c h in let l : leb 64 s ≡ false = ground arith in let b = low_bits c h in cc

-- The number so far, with the next seven bits.
next-lt : (x c n s : ℕ) → x + (c + n * 2 ^ 7) * 2 ^ s < 2 ^ 64 → x + c * 2 ^ s < 2 ^ 64
next-lt x c n s h = omega (arith, h, expand c n s)

rest-lt :
    (x c n s : ℕ) → x + (c + n * 2 ^ 7) * 2 ^ s < 2 ^ 64 → x + c * 2 ^ s + n * 2 ^ (s + 7) < 2 ^ 64
rest-lt x c n s h = omega (arith, h, expand c n s)

-- The loops of the two functions gather the number above `x`.
uleb-loop :
    {bytes : List ℕ} {n : ℕ}
    → IsLeb bytes n
    → (x s : ℕ) (p : List ℕ) → s + 7 * length bytes ≤ 70
    → x < 2 ^ s
    → x + n * 2 ^ s < 2 ^ 64
    → read_uleb_from x s (bytes ++ p) ≡ ok (x + n * 2 ^ s, p)
uleb-loop (last {b = c} h) x s p len small fits =
    uleb-last x s c p h (omega (arith, len)) ∙ ap (λ (r : ℕ). ok (r, p)) (put_bits x c s small fits)
uleb-loop (more {c = c} {n = n} {bytes = bytes} h l) x s p len small fits =
    uleb-more x s c (bytes ++ p) h (omega (arith, len))
    ∙ ap (λ (r : ℕ). read_uleb_from r (s + 7) (bytes ++ p))
        (put_bits x c s small (next-lt x c n s fits))
    ∙ uleb-loop l (x + c * 2 ^ s) (s + 7) p (omega (arith, len)) (grows x c s small h)
        (rest-lt x c n s fits)
    ∙ ap (λ (r : ℕ). ok (r, p)) (omega (arith, expand c n s))

sleb-loop :
    {bytes : List ℕ} {n : ℕ}
    → IsLeb bytes n
    → (x s : ℕ) (p : List ℕ) → s + 7 * length bytes ≤ 70
    → x < 2 ^ s
    → x + n * 2 ^ s < 2 ^ 64
    → read_sleb_from x s (bytes ++ p) ≡ ok (sign_from (x + n * 2 ^ s) (s + 7 * length bytes), p)
sleb-loop (last {b = c} h) x s p len small fits =
    sleb-last x s c p h (omega (arith, len))
    ∙ ap (λ (r : ℕ). ok (sign_from r (s + 7), p)) (put_bits x c s small fits)
    ∙ ap (λ (t : ℕ). ok (sign_from (x + c * 2 ^ s) t, p)) (omega arith)
sleb-loop (more {c = c} {n = n} {bytes = bytes} h l) x s p len small fits =
    sleb-more x s c (bytes ++ p) h (omega (arith, len))
    ∙ ap (λ (r : ℕ). read_sleb_from r (s + 7) (bytes ++ p))
        (put_bits x c s small (next-lt x c n s fits))
    ∙ sleb-loop l (x + c * 2 ^ s) (s + 7) p (omega (arith, len)) (grows x c s small h)
        (rest-lt x c n s fits)
    ∙ ap (λ (r : ℕ). ok (sign_from r (s + 7 + 7 * length bytes), p)) (omega (arith, expand c n s))
    ∙ ap (λ (t : ℕ). ok (sign_from (x + (c + n * 2 ^ 7) * 2 ^ s) t, p)) (omega arith)

-- `read_uleb` reads every LEB128 encoding, of ten bytes at most, of a 64-bit number, and leaves what
-- stands behind it.
pub read_uleb-IsLeb :
    {bytes : List ℕ} {n : ℕ} (p : List ℕ)
    → IsLeb bytes n
    → length bytes ≤ 10
    → n < 2 ^ 64
    → read_uleb (bytes ++ p) ≡ ok (n, p)
unfolding read_uleb
read_uleb-IsLeb {n = n} p l len fits =
    uleb-loop l 0 0 p (omega (arith, len)) (omega arith) (omega (arith, fits))
    ∙ ap (λ (r : ℕ). ok (r, p)) (omega arith)

-- A number of so many bits with the highest one as its sign, on 64 bits.
abbrev pub from_bits : ℕ → ℕ → ℕ
from_bits width n = if ltb n (2 ^ (width - 1)) then n else n + 2 ^ 64 - 2 ^ width

leb-lt : {bytes : List ℕ} {n : ℕ} → IsLeb bytes n → n < 2 ^ (7 * length bytes)
leb-lt (last h) = h
leb-lt (more {c = c} {n = n} {bytes = bytes} h l) =
    let e : 7 * suc (length bytes) ≡ 7 * length bytes + 7 = omega arith in
    omega (arith, leb-lt l, power_seven (7 * length bytes), ap (λ (t : ℕ). 2 ^ t) e)

sign-width : (k n : ℕ) → 1 ≤ k → k ≤ 9 → n < 2 ^ (7 * k) → sign_from n (7 * k) ≡ from_bits (7 * k) n
sign-width zero n low high h = absurd (omega (arith, low))
sign-width (suc zero) n low high h = ground arith
sign-width (suc (suc zero)) n low high h = ground arith
sign-width (suc (suc (suc zero))) n low high h = ground arith
sign-width (suc (suc (suc (suc zero)))) n low high h = ground arith
sign-width (suc (suc (suc (suc (suc zero))))) n low high h = ground arith
sign-width (suc (suc (suc (suc (suc (suc zero)))))) n low high h = ground arith
sign-width (suc (suc (suc (suc (suc (suc (suc zero))))))) n low high h = ground arith
sign-width (suc (suc (suc (suc (suc (suc (suc (suc zero)))))))) n low high h = ground arith
sign-width (suc (suc (suc (suc (suc (suc (suc (suc (suc zero))))))))) n low high h = ground arith
sign-width (suc (suc (suc (suc (suc (suc (suc (suc (suc (suc k)))))))))) n low high h =
    absurd (omega (arith, high))

pub some_bytes : {bytes : List ℕ} {n : ℕ} → IsLeb bytes n → 1 ≤ length bytes
some_bytes (last h) = omega arith
some_bytes (more h l) = omega arith

-- `read_sleb` reads every LEB128 encoding of nine bytes at most, and takes the highest of its bits
-- for the sign.
pub read_sleb-IsLeb :
    {bytes : List ℕ} {n : ℕ} (p : List ℕ)
    → IsLeb bytes n
    → length bytes ≤ 9
    → read_sleb (bytes ++ p) ≡ ok (from_bits (7 * length bytes) n, p)
unfolding read_sleb
read_sleb-IsLeb {bytes} {n} p l len =
    let lt = leb-lt l in
    let wide : 2 ^ (7 * length bytes) ≤ 2 ^ 63 =
      pow-le-pow_right {n = 2} (omega arith) {i = 7 * length bytes} {j = 63} (omega (arith, len)) in
    sleb-loop l 0 0 p (omega (arith, len)) (omega arith) (omega (arith, lt, wide))
    ∙ ap (λ (r : ℕ). ok (sign_from r (0 + 7 * length bytes), p)) (omega arith)
    ∙ ap (λ (t : ℕ). ok (sign_from n t, p)) (omega arith)
    ∙ ap (λ (r : ℕ). ok (r, p)) (sign-width (length bytes) n (some_bytes l) len lt)
