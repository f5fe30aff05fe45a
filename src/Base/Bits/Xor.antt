-- ===== src/Base/Bits/Xor.antt =====
-- Exclusive or: the group laws, a shift to the right of it, and its range.
use Prim.Native.Nat.{
  ℕ, zero, suc, ◌+◌, ◌*◌, ◌/◌, ◌%◌, ◌^◌, ◌≤◌, ◌<◌, differ, bit_xor, bit_xor-bitwise,
}
use mathlib.Core.Path.{◌≡◌, refl, sym, ap, ap₂, ◌∙◌}
use native.Mathlib.Nat.{pow-suc, mul_comm, div-div-eq-div-mul}
use native.Mathlib.Omega.{arith}
use polyfill_glibc.Base.Bits.Step.{bit_xor_step}

differ_digits : (x y : ℕ) → x < 2 → y < 2 → differ x y ≡ (x + y) % 2
differ_digits zero y p q = omega arith
differ_digits (suc zero) zero p q = refl
differ_digits (suc zero) (suc zero) p q = refl
differ_digits (suc zero) (suc (suc y)) p q = absurd (omega arith)
differ_digits (suc (suc x)) y p q = absurd (omega arith)

pub xor_step : (a b : ℕ) → bit_xor a b ≡ bit_xor (a / 2) (b / 2) * 2 + (a % 2 + b % 2) % 2
xor_step a b =
    omega (arith, bit_xor_step a b, differ_digits (a % 2) (b % 2) (omega arith) (omega arith))

pub xor_half : (a b : ℕ) → bit_xor a b / 2 ≡ bit_xor (a / 2) (b / 2)
xor_half a b = omega (arith, xor_step a b)

xor_odd : (a b : ℕ) → bit_xor a b % 2 ≡ (a % 2 + b % 2) % 2
xor_odd a b = omega (arith, xor_step a b)

pub zero-xor : (b : ℕ) → bit_xor 0 b ≡ b
zero-xor b = bit_xor-bitwise 0 b

xor-self_enough : (n a : ℕ) → a ≤ n → bit_xor a a ≡ 0
xor-self_enough n zero h = refl
xor-self_enough zero (suc a) h = absurd (omega arith)
xor-self_enough (suc n) (suc a) h =
    omega (arith, xor_step (suc a) (suc a), xor-self_enough n (suc a / 2) (omega arith))

pub xor_self : (a : ℕ) → bit_xor a a ≡ 0
xor_self a = xor-self_enough a a (omega arith)

xor-zero_enough : (n a : ℕ) → a ≤ n → bit_xor a 0 ≡ a
xor-zero_enough n zero h = refl
xor-zero_enough zero (suc a) h = absurd (omega arith)
xor-zero_enough (suc n) (suc a) h =
    omega (arith, xor_step (suc a) 0, xor-zero_enough n (suc a / 2) (omega arith))

pub xor-zero : (a : ℕ) → bit_xor a 0 ≡ a
xor-zero a = xor-zero_enough a a (omega arith)

-- Two numbers with the same half and the same lowest digit are equal.
by_digit : (x y : ℕ) → x / 2 ≡ y / 2 → x % 2 ≡ y % 2 → x ≡ y
by_digit x y h k = omega arith

xor_assoc_enough : (n a b c : ℕ) → a + b + c ≤ n → bit_xor (bit_xor a b) c ≡ bit_xor a (bit_xor b c)
xor_assoc_enough zero a b c h =
    let p : a ≡ 0 = omega arith in
    let q : b ≡ 0 = omega arith in let r : c ≡ 0 = omega arith in rw (p, q, r) refl
xor_assoc_enough (suc n) a b c h =
    let halves = xor_assoc_enough n (a / 2) (b / 2) (c / 2) (omega arith) in
    by_digit (bit_xor (bit_xor a b) c) (bit_xor a (bit_xor b c))
      (xor_half (bit_xor a b) c
        ∙ ap (λ (t : ℕ). bit_xor t (c / 2)) (xor_half a b)
        ∙ halves
        ∙ sym (ap (bit_xor (a / 2)) (xor_half b c))
        ∙ sym (xor_half a (bit_xor b c)))
      (omega (arith, xor_odd (bit_xor a b) c, xor_odd a b, xor_odd a (bit_xor b c), xor_odd b c))

pub xor_assoc : (a b c : ℕ) → bit_xor (bit_xor a b) c ≡ bit_xor a (bit_xor b c)
xor_assoc a b c = xor_assoc_enough (a + b + c) a b c (omega arith)

-- `x ^ y ^ y` is `x`.
pub xor-xor_cancel : (a b : ℕ) → bit_xor (bit_xor a b) b ≡ a
xor-xor_cancel a b = xor_assoc a b b ∙ ap (bit_xor a) (xor_self b) ∙ xor-zero a

div_one : (a : ℕ) → a / 2 ^ zero ≡ a
div_one a = omega arith

shift_suc : (k a : ℕ) → a / 2 ^ suc k ≡ a / 2 / 2 ^ k
shift_suc k a = rw (pow-suc 2 k, mul_comm (2 ^ k) 2) (sym (div-div-eq-div-mul a 2 (2 ^ k)))

pub xor_shift : (k a b : ℕ) → bit_xor a b / 2 ^ k ≡ bit_xor (a / 2 ^ k) (b / 2 ^ k)
xor_shift zero a b = div_one (bit_xor a b) ∙ sym (ap₂ bit_xor (div_one a) (div_one b))
xor_shift (suc k) a b =
    shift_suc k (bit_xor a b)
    ∙ ap (λ (t : ℕ). t / 2 ^ k) (xor_half a b)
    ∙ xor_shift k (a / 2) (b / 2)
    ∙ sym (ap₂ bit_xor (shift_suc k a) (shift_suc k b))

pub xor-lt : (k a b : ℕ) → a < 2 ^ k → b < 2 ^ k → bit_xor a b < 2 ^ k
xor-lt zero a b p q =
    let e : a ≡ 0 = omega arith in let f : b ≡ 0 = omega arith in rw (e, f) (omega arith)
xor-lt (suc k) a b p q = omega (
  arith,
  xor_step a b,
  pow-suc 2 k,
  xor-lt k (a / 2) (b / 2) (omega (arith, pow-suc 2 k)) (omega (arith, pow-suc 2 k)),
)
