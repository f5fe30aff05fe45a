-- ===== src/Erw/Alloc/Aligning.antt =====
-- Aligned offsets: `align_up` is the next multiple of the alignment.
use polyfill_glibc.Base.{
  ℕ, ◌+◌, ◌-◌, ◌*◌, ◌/◌, ◌^◌, ◌≤◌, ◌<◌, ◌≡◌, sym, ap, ◌∙◌, arith, bit_and, u64, sub64,
}
use native.Mathlib.Nat.{
  one-le-pow, one-mul, div-lt_iff_lt-mul, mod-eq_of_lt, add-mul, mul-add-div_right, div-mul-le_self,
  lt-div-mul-add,
}
use polyfill_glibc.Base.Bits.{bit_and_high, pow_add}
use polyfill_glibc.Erw.Alloc.{align_up}

-- The multiple of `p` that is next from `x` on.
abbrev pub up : ℕ → ℕ → ℕ
up p x = (x + p - 1) / p * p

pub up-bounds : (p x : ℕ) → 0 < p → (x ≤ up p x) × (up p x < x + p)
up-bounds p x pos = (
  omega (arith, lt-div-mul-add {a = x + p - 1} {b = p} pos),
  omega (arith, div-mul-le_self (x + p - 1) p),
)

pub up-add : (p m x : ℕ) → 0 < p → up p (m * p + x) ≡ m * p + up p x
up-add p m x pos =
    let e : m * p + x + p - 1 ≡ m * p + (x + p - 1) = omega arith in
    ap (λ (y : ℕ). y / p * p) e
    ∙ ap (λ (y : ℕ). y * p) (mul-add-div_right pos m (x + p - 1))
    ∙ add-mul m ((x + p - 1) / p) p

whole_word : (k : ℕ) → k ≤ 31 → 2 ^ (64 - k) * 2 ^ k ≡ 2 ^ 64
whole_word k h =
    let e : 64 - k + k ≡ 64 = omega arith in sym (pow_add (64 - k) k) ∙ ap (λ (n : ℕ). 2 ^ n) e

high_ones : (k : ℕ) → k ≤ 31 → (2 ^ (64 - k) - 1) * 2 ^ k ≡ sub64 0 (2 ^ k)
high_ones k h =
    let pos = one-le-pow k 2 (omega arith) in
    let some_ones : 1 + (2 ^ (64 - k) - 1) ≡ 2 ^ (64 - k) =
      omega (arith, one-le-pow (64 - k) 2 (omega arith)) in
    let split : 1 * 2 ^ k + (2 ^ (64 - k) - 1) * 2 ^ k ≡ 2 ^ 64 =
      sym (add-mul 1 (2 ^ (64 - k) - 1) (2 ^ k))
      ∙ ap (λ (n : ℕ). n * 2 ^ k) some_ones
      ∙ whole_word k h in
    omega (arith, pos, split, one-mul (2 ^ k))

-- `align_up` is what it means to be, when the sum does not wrap around.
pub align_up-up : (k x : ℕ) → k ≤ 31 → x + 2 ^ k ≤ 2 ^ 64 → align_up x (2 ^ k) ≡ up (2 ^ k) x
align_up-up k x h fits =
    let pos = one-le-pow k 2 (omega arith) in
    let e : sub64 (u64 (x + 2 ^ k)) 1 ≡ x + 2 ^ k - 1 = omega (arith, pos) in
    let small : (x + 2 ^ k - 1) / 2 ^ k < 2 ^ (64 - k) =
      (div-lt_iff_lt-mul {k = 2 ^ k} pos).1 (omega (arith, whole_word k h)) in
    rw e (
      ap (λ (mask : ℕ). bit_and (x + 2 ^ k - 1) mask) (sym (high_ones k h))
      ∙ bit_and_high k (64 - k) (x + 2 ^ k - 1)
      ∙ ap (λ (q : ℕ). q * 2 ^ k) (mod-eq_of_lt small))
