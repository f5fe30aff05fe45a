-- ===== src/Uuht/Hash.antt =====
-- The mixing function is a bijection on uint32_t that keeps zero.
use polyfill_glibc.Base.{ℕ, ◌*◌, ◌/◌, ◌^◌, ◌<◌, ◌≡◌, sym, ap, ◌∙◌, arith, bit_xor, u32}
use native.Mathlib.Nat.{div-le_self}
use polyfill_glibc.Base.Bits.{
  xor_assoc, xor-xor_cancel, xor_self, xor_shift, xor-zero, zero-xor, xor-lt,
}
use polyfill_glibc.Uuht.{xor_shift_right, hash, unhash}

-- Shifting the exclusive or twice as far undoes the two shifts by `k`, if `2 ^ (2 * k)` is large.
twice : (x y z : ℕ) → bit_xor (bit_xor x y) (bit_xor y z) ≡ bit_xor x z
twice x y z =
    xor_assoc x y (bit_xor y z)
    ∙ ap (bit_xor x) (sym (xor_assoc y y z) ∙ ap (λ (t : ℕ). bit_xor t z) (xor_self y) ∙ zero-xor z)

-- h ^= h >> 15; undone by h ^= h >> 15; h ^= h >> 30;
undo_15 : (x : ℕ) → x < 2 ^ 32 → xor_shift_right 30 (xor_shift_right 15 (xor_shift_right 15 x)) ≡ x
undo_15 x h =
    let shifted : xor_shift_right 15 x / 2 ^ 15 ≡ bit_xor (x / 2 ^ 15) (x / 2 ^ 30) =
      xor_shift 15 x (x / 2 ^ 15) ∙ ap (bit_xor (x / 2 ^ 15)) (omega arith) in
    let once : xor_shift_right 15 (xor_shift_right 15 x) ≡ bit_xor x (x / 2 ^ 30) =
      ap (bit_xor (xor_shift_right 15 x)) shifted ∙ twice x (x / 2 ^ 15) (x / 2 ^ 30) in
    let rest : bit_xor x (x / 2 ^ 30) / 2 ^ 30 ≡ x / 2 ^ 30 =
      xor_shift 30 x (x / 2 ^ 30)
      ∙ ap (bit_xor (x / 2 ^ 30)) (omega arith)
      ∙ xor-zero (x / 2 ^ 30) in
    ap (xor_shift_right 30) once
    ∙ ap (bit_xor (bit_xor x (x / 2 ^ 30))) rest
    ∙ xor-xor_cancel x (x / 2 ^ 30)

-- h ^= h >> 16; undone by itself.
undo_16 : (x : ℕ) → x < 2 ^ 32 → xor_shift_right 16 (xor_shift_right 16 x) ≡ x
undo_16 x h =
    let rest : xor_shift_right 16 x / 2 ^ 16 ≡ x / 2 ^ 16 =
      xor_shift 16 x (x / 2 ^ 16)
      ∙ ap (bit_xor (x / 2 ^ 16)) (omega arith)
      ∙ xor-zero (x / 2 ^ 16) in
    ap (bit_xor (xor_shift_right 16 x)) rest ∙ xor-xor_cancel x (x / 2 ^ 16)

undo_first : (x : ℕ) → x < 2 ^ 32 → u32 (u32 (x * 0x21f0aaad) * 0x333c4925) ≡ x
undo_first x h = omega arith

undo_second : (x : ℕ) → x < 2 ^ 32 → u32 (u32 (x * 0xd35a2d97) * 0x37132227) ≡ x
undo_second x h = omega arith

mixed_lt : (k x : ℕ) → x < 2 ^ 32 → xor_shift_right k x < 2 ^ 32
mixed_lt k x h = xor-lt 32 x (x / 2 ^ k) h (omega (arith, div-le_self x (2 ^ k)))

-- The four intermediate values of `uuht_hash`.
module _ (k : ℕ) (h : k < 2 ^ 32) where
  abbrev h₁ : ℕ
  h₁ = xor_shift_right 16 k

  abbrev h₂ : ℕ
  h₂ = u32 (h₁ * 0x21f0aaad)

  abbrev h₃ : ℕ
  h₃ = xor_shift_right 15 h₂

  abbrev h₄ : ℕ
  h₄ = u32 (h₃ * 0xd35a2d97)

  pub hash-lt : hash k < 2 ^ 32
  unfolding hash
  hash-lt = mixed_lt 15 h₄ (omega arith)

  undo_half : u32 (xor_shift_right 30 (xor_shift_right 15 (hash k)) * 0x37132227) ≡ h₃
  unfolding hash
  undo_half =
      ap (λ (x : ℕ). u32 (x * 0x37132227)) (undo_15 h₄ (omega arith))
      ∙ undo_second h₃ (mixed_lt 15 h₂ (omega arith))

  -- `uuht_unhash` undoes `uuht_hash` on every 32-bit key.
  pub unhash-hash : unhash (hash k) ≡ k
  unfolding unhash
  unhash-hash =
      ap
        (λ (x : ℕ).
          xor_shift_right 16 (u32 (xor_shift_right 30 (xor_shift_right 15 x) * 0x333c4925)))
        undo_half
      ∙ ap (λ (x : ℕ). xor_shift_right 16 (u32 (x * 0x333c4925))) (undo_15 h₂ (omega arith))
      ∙ ap (xor_shift_right 16) (undo_first h₁ (mixed_lt 16 k h))
      ∙ undo_16 k h

-- Equal hashes come from equal keys.
pub hash-injective : (j k : ℕ) → j < 2 ^ 32 → k < 2 ^ 32 → hash j ≡ hash k → j ≡ k
hash-injective j k p q e = sym (unhash-hash j p) ∙ ap unhash e ∙ unhash-hash k q
