-- ===== src/Base/Bits/Step.antt =====
-- The bit operations one binary digit at a time, without the fuel that their definition carries.
use Prim.Native.Nat.{
  ℕ, zero, suc, ◌+◌, ◌*◌, ◌/◌, ◌%◌, ◌≤◌, min, max, digits, bitwise, bit_and, bit_or, bit_xor,
}
use Prim.Native.Nat.{differ, bit_and-bitwise, bit_or-bitwise, bit_xor-bitwise}
use mathlib.Core.Path.{◌≡◌, refl, ap}
use native.Mathlib.Omega.{arith}

-- The lowest digit of `op` is `low` of the lowest digits, and the rest is `op` of the rests.
abbrev pub Steps : (ℕ → ℕ → ℕ) → (ℕ → ℕ → ℕ) → Type 0
Steps op low = (x y : ℕ) → op x y ≡ op (x / 2) (y / 2) * 2 + low (x % 2) (y % 2)

module _ (rest : ℕ → ℕ) (low : ℕ → ℕ → ℕ) where
  -- More fuel than the number changes nothing.
  spare_fuel :
      (fuel more x y : ℕ)
      → x ≤ fuel
      → fuel ≤ more
      → digits rest low more x y ≡ digits rest low fuel x y
  spare_fuel zero zero x y h le = refl
  spare_fuel zero (suc more) zero y h le = refl
  spare_fuel zero (suc more) (suc x) y h le = absurd (omega arith)
  spare_fuel (suc fuel) zero x y h le = absurd (omega arith)
  spare_fuel (suc fuel) (suc more) zero y h le = refl
  spare_fuel (suc fuel) (suc more) (suc x) y h le =
      let tail = spare_fuel fuel more (suc x / 2) (y / 2) (omega arith) (omega arith) in
      ap (λ (d : ℕ). d * 2 + low (suc x % 2) (y % 2)) tail

  next_digit :
      (x y : ℕ)
      → bitwise rest low (suc x) y
        ≡ bitwise rest low (suc x / 2) (y / 2) * 2 + low (suc x % 2) (y % 2)
  next_digit x y =
      let half = suc x / 2 in
      ap (λ (d : ℕ). d * 2 + low (suc x % 2) (y % 2))
        (spare_fuel half x half (y / 2) (omega arith) (omega arith))

pub bit_xor_step : Steps bit_xor differ
bit_xor_step zero y = simp bit_xor-bitwise (omega arith)
bit_xor_step (suc x) y = simp bit_xor-bitwise (next_digit (λ d. d) differ x y)

pub bit_and_step : Steps bit_and min
bit_and_step zero y = simp bit_and-bitwise (omega arith)
bit_and_step (suc x) y = simp bit_and-bitwise (next_digit (λ d. 0) min x y)

pub bit_or_step : Steps bit_or max
bit_or_step zero y = simp bit_or-bitwise (omega arith)
bit_or_step (suc x) y = simp bit_or-bitwise (next_digit (λ d. d) max x y)
