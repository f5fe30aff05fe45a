-- ===== src/Base/Bits/Mask.antt =====
-- `|` of disjoint fields and `&` with a low mask, as arithmetic, at every width.
use Prim.Native.Nat.{
  ℕ, zero, suc, ◌+◌, ◌-◌, ◌*◌, ◌/◌, ◌%◌, ◌^◌, ◌≤◌, ◌<◌, bit_and, bit_or, bit_xor, bit_or-bitwise,
}
use mathlib.Core.Path.{◌≡◌, refl, sym, ap, ◌∙◌}
use native.Mathlib.Nat.{pow-suc, one-le-pow, mul-one, div-div-eq-div-mul}
use native.Mathlib.Decide.{dec_lt}
use native.Mathlib.Omega.{arith}
use polyfill_glibc.Base.Bits.Step.{bit_and_step, bit_or_step}
use polyfill_glibc.Base.Bits.Xor.{xor_step, xor-zero}

bit_or-zero_enough : (n a : ℕ) → a ≤ n → bit_or a 0 ≡ a
bit_or-zero_enough n zero h = refl
bit_or-zero_enough zero (suc a) h = absurd (omega arith)
bit_or-zero_enough (suc n) (suc a) h =
    omega (arith, bit_or_step (suc a) 0, bit_or-zero_enough n (suc a / 2) (omega arith))

pub bit_or-zero : (a : ℕ) → bit_or a 0 ≡ a
bit_or-zero a = bit_or-zero_enough a a (omega arith)

bit_and-zero_enough : (n a : ℕ) → a ≤ n → bit_and a 0 ≡ 0
bit_and-zero_enough n zero h = refl
bit_and-zero_enough zero (suc a) h = absurd (omega arith)
bit_and-zero_enough (suc n) (suc a) h =
    omega (arith, bit_and_step (suc a) 0, bit_and-zero_enough n (suc a / 2) (omega arith))

pub bit_and-zero : (a : ℕ) → bit_and a 0 ≡ 0
bit_and-zero a = bit_and-zero_enough a a (omega arith)

double_power : (high width : ℕ) → high * 2 ^ suc width ≡ 2 * (high * 2 ^ width)
double_power high width = omega (arith, ap (λ (t : ℕ). high * t) (pow-suc 2 width))

pub pow_add : (j k : ℕ) → 2 ^ (j + k) ≡ 2 ^ j * 2 ^ k
pow_add j zero = ap (λ (n : ℕ). 2 ^ n) (omega arith) ∙ sym (mul-one (2 ^ j))
pow_add j (suc k) =
    let e : j + suc k ≡ suc (j + k) = omega arith in
    ap (λ (n : ℕ). 2 ^ n) e ∙ omega (arith, pow-suc 2 (j + k), double_power (2 ^ j) k, pow_add j k)

-- A disjunction with a multiple of `2 ^ width` is a sum when the other part fits `width` bits.
pub bit_or_fields :
    (width high low : ℕ) → low < 2 ^ width → bit_or (high * 2 ^ width) low ≡ high * 2 ^ width + low
bit_or_fields zero high low fits = ground (arith, bit_or-zero high)
bit_or_fields (suc width) high low fits =
    let twice = pow-suc 2 width in
    let above = bit_or_fields width high (low / 2) (omega (arith, twice)) in
    ground (arith, double_power high width, twice, above, bit_or_step (high * 2 ^ suc width) low)

zero-bit_or : (a : ℕ) → bit_or 0 a ≡ a
zero-bit_or a = bit_or-bitwise 0 a

-- The same with the low part first.
pub bit_or_low_fields :
    (width high low : ℕ) → low < 2 ^ width → bit_or low (high * 2 ^ width) ≡ high * 2 ^ width + low
bit_or_low_fields zero high low fits =
    let e : low ≡ 0 = omega arith in rw e (zero-bit_or (high * 2 ^ zero) ∙ omega arith)
bit_or_low_fields (suc width) high low fits = ground (
  arith,
  bit_or_step low (high * 2 ^ suc width),
  double_power high width,
  pow-suc 2 width,
  bit_or_low_fields width high (low / 2) (omega (arith, pow-suc 2 width)),
)

-- The same of an exclusive or.
pub bit_xor_fields :
    (width high low : ℕ) → low < 2 ^ width → bit_xor (high * 2 ^ width) low ≡ high * 2 ^ width + low
bit_xor_fields zero high low fits =
    let e : low ≡ 0 = omega arith in rw e (xor-zero (high * 2 ^ zero) ∙ omega arith)
bit_xor_fields (suc width) high low fits =
    let twice = pow-suc 2 width in
    let above = bit_xor_fields width high (low / 2) (omega (arith, twice)) in
    ground (arith, double_power high width, twice, above, xor_step (high * 2 ^ suc width) low)

bit_or_bounds_enough : (n a b : ℕ) → a + b ≤ n → (a ≤ bit_or a b) × (b ≤ bit_or a b)
bit_or_bounds_enough zero a b h = (omega arith, omega arith)
bit_or_bounds_enough (suc n) a b h = elim (dec_lt 0 (a + b)) [
  | no z ↦ (omega arith, omega arith)
  | yes pos ↦
      let ih = bit_or_bounds_enough n (a / 2) (b / 2) (omega arith) in
      (omega (arith, bit_or_step a b, ih.0), omega (arith, bit_or_step a b, ih.1))
]

-- A disjunction is at least each of its parts.
pub bit_or_bounds : (a b : ℕ) → (a ≤ bit_or a b) × (b ≤ bit_or a b)
bit_or_bounds a b = bit_or_bounds_enough (a + b) a b (omega arith)

bit_and_fields :
    (width high low : ℕ) → low < 2 ^ width → bit_and (high * 2 ^ width + low) (2 ^ width - 1) ≡ low
bit_and_fields zero high low fits = rw bit_and-zero (omega arith)
bit_and_fields (suc width) high low fits = ground (
  arith,
  bit_and_step (high * 2 ^ suc width + low) (2 ^ suc width - 1),
  double_power high width,
  pow-suc 2 width,
  bit_and_fields width high (low / 2) (omega (arith, pow-suc 2 width)),
)

-- A mask of `k` low ones is the remainder by `2 ^ k`.
pub bit_and_mask : (k a : ℕ) → bit_and a (2 ^ k - 1) ≡ a % 2 ^ k
bit_and_mask k a = ground (arith, one-le-pow k 2, bit_and_fields k (a / 2 ^ k) (a % 2 ^ k))

-- One bit.
pub bit_and_power : (k a : ℕ) → bit_and a (2 ^ k) ≡ a / 2 ^ k % 2 * 2 ^ k
bit_and_power zero a = bit_and_mask 1 a ∙ omega arith
bit_and_power (suc k) a =
    let half = bit_and_power k (a / 2) in
    let deep : a / 2 / 2 ^ k ≡ a / 2 ^ suc k =
      div-div-eq-div-mul a 2 (2 ^ k) ∙ ap (λ (x : ℕ). a / x) (omega (arith, pow-suc 2 k)) in
    ground (
      arith,
      bit_and_step a (2 ^ suc k),
      pow-suc 2 k,
      half,
      ap (λ (x : ℕ). x % 2) deep,
      double_power (a / 2 ^ suc k % 2) k,
    )

pub bit_and_two : (a : ℕ) → bit_and a 2 ≡ a / 2 % 2 * 2
bit_and_two a = bit_and_power 1 a

-- A mask of `j` ones from the bit `k` on.
pub bit_and_high : (k j a : ℕ) → bit_and a ((2 ^ j - 1) * 2 ^ k) ≡ a / 2 ^ k % 2 ^ j * 2 ^ k
bit_and_high zero j a =
    let d : a / 2 ^ 0 ≡ a = omega arith in
    rw (mul-one (2 ^ j - 1))
      (bit_and_mask j a ∙ sym (mul-one (a % 2 ^ j)) ∙ ap (λ (x : ℕ). x % 2 ^ j * 2 ^ 0) (sym d))
bit_and_high (suc k) j a =
    let half = bit_and_high k j (a / 2) in
    let deep : a / 2 / 2 ^ k ≡ a / 2 ^ suc k =
      div-div-eq-div-mul a 2 (2 ^ k) ∙ ap (λ (x : ℕ). a / x) (omega (arith, pow-suc 2 k)) in
    ground (
      arith,
      bit_and_step a ((2 ^ j - 1) * 2 ^ suc k),
      double_power (2 ^ j - 1) k,
      half,
      ap (λ (x : ℕ). x % 2 ^ j) deep,
      double_power (a / 2 ^ suc k % 2 ^ j) k,
    )
