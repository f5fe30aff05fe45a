-- ===== src/Uuht/Slots.antt =====
-- The two halves of a slot.
use polyfill_glibc.Base.{ℕ, ◌+◌, ◌*◌, ◌^◌, ◌<◌, ◌≡◌, ◌≢◌, ◌⊎◌, ap, ◌∙◌, arith, bit_or, u32, u64}
use polyfill_glibc.Base.Bits.{bit_or_low_fields, bit_or_bounds}
use polyfill_glibc.Uuht.{pack, value}

module _ (h v : ℕ) (h-lt : h < 2 ^ 32) (v-lt : v < 2 ^ 32) where
  pack-sum : pack h v ≡ v * 2 ^ 32 + h
  unfolding pack
  pack-sum =
      let whole : u64 (v * 2 ^ 32) ≡ v * 2 ^ 32 = omega arith in
      ap (bit_or h) whole ∙ bit_or_low_fields 32 v h h-lt

  pub pack-hash : u32 (pack h v) ≡ h
  pack-hash = omega (arith, pack-sum)

  pub pack-value : value (pack h v) ≡ v
  pack-value = omega (arith, pack-sum)

  pub pack-ne-zero : (h ≢ 0) ⊎ (v ≢ 0) → pack h v ≢ 0
  pack-ne-zero some_half = omega (arith, pack-sum)

  pub bit_or-ne-zero : (h ≢ 0) ⊎ (v ≢ 0) → bit_or h v ≢ 0
  bit_or-ne-zero some_half = omega (arith, bit_or_bounds h v)
