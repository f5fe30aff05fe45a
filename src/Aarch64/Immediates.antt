-- ===== src/Aarch64/Immediates.antt =====
-- The immediate operands of src/aarch64/assembler.c, and what the machine reads in them.
use polyfill_glibc.Base.{
  ℕ, ◌+◌, ◌*◌, ◌/◌, ◌%◌, ◌^◌, ◌<◌, Bool, true, false, not, ◌&&◌, ◌||◌, Option, some, none, ◌≡◌, ◌≢◌,
  refl, sym, ap, ◌∙◌, arith, bit_and, bit_or, bit_xor, u32, sub64, ◌>>>◌, ltb, leb, ◌==◌,
  if◌then◌else◌, Bool-cases, inl, inr,
}
use polyfill_glibc.Base.Bits.{bit_and_high, bit_or_low_fields, bit_xor_fields}

-- `n < 0`, of the 64 bits of an `int64_t`
abbrev pub is_negative : ℕ → Bool
is_negative n = leb (2 ^ 63) n

-- `n < 0 ? ~(uint64_t)n+1u : (uint64_t)n`
abbrev pub magnitude : ℕ → ℕ
magnitude n = if is_negative n then sub64 0 n else n

-- `n < 0 ? 0x40000000 : 0`
abbrev pub minus_bit : ℕ → ℕ
minus_bit n = if is_negative n then 0x40000000 else 0

unfoldable pub k5 : ℕ → ℕ
k5 n =
    if ltb 0x1f (magnitude n)
    then 0
    else bit_xor (bit_xor (minus_bit n) 0x00000800) (u32 (u32 (magnitude n) * 2 ^ 16))

-- The value of `k` that is put into the instruction.
abbrev pub shifted : ℕ → ℕ
shifted k = if ltb k 0x1000 then k else bit_or (k >>> 12) (2 ^ 12)

unfoldable pub k12 : ℕ → ℕ
k12 n =
    let k = magnitude n in
    if not (ltb k 0x1000) && not (bit_and k 0xfff000 == k)
    then 0
    else bit_xor (bit_xor (minus_bit n) 0x1a000000) (u32 (u32 (shifted k) * 2 ^ 10))

-- An addition or subtraction has its operand in the bits 10 to 21, the bit 22 says whether it is
-- shifted by 12, and the bit 30 tells the two apart. The assembler takes 0 for no operand.
abbrev pub add_sub_operand : ℕ → Option (Bool × ℕ)
add_sub_operand bits =
    if bits == 0
    then none
    else some (
      bits / 2 ^ 30 % 2 == 1,
      bits / 2 ^ 10 % 2 ^ 12 * (if bits / 2 ^ 22 % 2 == 0 then 1 else 2 ^ 12),
    )

-- The numbers of twelve bits, and their multiples by 2 ^ 12.
abbrev pub has_twelve_bits : ℕ → Bool
has_twelve_bits k = ltb k (2 ^ 12) || (k % 2 ^ 12 == 0 && ltb k (2 ^ 24))

-- The exclusive ors are of fields that do not overlap.
k12_fields :
    (n k : ℕ)
    → k < 2 ^ 13
    → bit_xor (bit_xor (minus_bit n) 0x1a000000) (u32 (u32 k * 2 ^ 10))
      ≡ (if is_negative n then 0x5a000000 else 0x1a000000) + k * 2 ^ 10
k12_fields n k h =
    let e : u32 (u32 k * 2 ^ 10) ≡ k * 2 ^ 10 = omega arith in
    elim (Bool-cases (is_negative n)) [
      | inl minus ↦ rw (e, minus) (bit_xor_fields 23 180 (k * 2 ^ 10) (omega arith))
      | inr plus ↦ rw (e, plus) (bit_xor_fields 23 52 (k * 2 ^ 10) (omega arith))
    ]

high_part : (k : ℕ) → bit_and k 0xfff000 ≡ k / 2 ^ 12 % 2 ^ 12 * 2 ^ 12
high_part k = bit_and_high 12 12 k

-- What is read of a field of thirteen bits.
abbrev field_value : ℕ → ℕ
field_value field = field % 2 ^ 12 * (if field / 2 ^ 12 % 2 == 0 then 1 else 2 ^ 12)

abbrev opcode : Bool → ℕ
opcode minus = if minus then 0x5a000000 else 0x1a000000

reads :
    (minus : Bool) (field : ℕ)
    → field < 2 ^ 13
    → add_sub_operand (opcode minus + field * 2 ^ 10) ≡ some (minus, field_value field)
reads true field h =
    let bits : ℕ = 0x5a000000 + field * 2 ^ 10 in
    let a : (bits == 0) ≡ false = ground arith in
    let b : (bits / 2 ^ 30 % 2 == 1) ≡ true = ground arith in
    let c : bits / 2 ^ 10 % 2 ^ 12 ≡ field % 2 ^ 12 = omega arith in
    let d : bits / 2 ^ 22 % 2 ≡ field / 2 ^ 12 % 2 = omega arith in rw (a, b, c, d) refl
reads false field h =
    let bits : ℕ = 0x1a000000 + field * 2 ^ 10 in
    let a : (bits == 0) ≡ false = ground arith in
    let b : (bits / 2 ^ 30 % 2 == 1) ≡ false = ground arith in
    let c : bits / 2 ^ 10 % 2 ^ 12 ≡ field % 2 ^ 12 = omega arith in
    let d : bits / 2 ^ 22 % 2 ≡ field / 2 ^ 12 % 2 = omega arith in rw (a, b, c, d) refl

small_value : (k : ℕ) → k < 2 ^ 12 → field_value k ≡ k
small_value k h = let e : (k / 2 ^ 12 % 2 == 0) ≡ true = ground arith in rw e (omega arith)

shifted_value : (k : ℕ) → k / 2 ^ 12 % 2 ^ 12 * 2 ^ 12 ≡ k → field_value (2 ^ 12 + k / 2 ^ 12) ≡ k
shifted_value k h =
    let e : ((2 ^ 12 + k / 2 ^ 12) / 2 ^ 12 % 2 == 0) ≡ false = ground (arith, h) in
    rw e (omega (arith, h))

is_shifted : (k : ℕ) → (bit_and k 0xfff000 == k) ≡ true → k / 2 ^ 12 % 2 ^ 12 * 2 ^ 12 ≡ k
is_shifted k h = let e : bit_and k 0xfff000 ≡ k = ground arith in sym (high_part k) ∙ e

is_not_shifted : (k : ℕ) → (bit_and k 0xfff000 == k) ≡ false → k / 2 ^ 12 % 2 ^ 12 * 2 ^ 12 ≢ k
is_not_shifted k h e = let e' : bit_and k 0xfff000 ≡ k = high_part k ∙ e in ground arith

has_twelve_bits-shifted : (k : ℕ) → k / 2 ^ 12 % 2 ^ 12 * 2 ^ 12 ≡ k → has_twelve_bits k ≡ true
has_twelve_bits-shifted k e =
    let a : (k % 2 ^ 12 == 0) ≡ true = ground (arith, e) in
    let b : ltb k (2 ^ 24) ≡ true = ground (arith, e) in
    elim (Bool-cases (ltb k (2 ^ 12))) [ inl c ↦ rw c refl | inr c ↦ rw (c, a, b) refl ]

has_twelve_bits-none :
    (k : ℕ) → ltb k (2 ^ 12) ≡ false → k / 2 ^ 12 % 2 ^ 12 * 2 ^ 12 ≢ k → has_twelve_bits k ≡ false
has_twelve_bits-none k g ne = elim (Bool-cases (k % 2 ^ 12 == 0)) [
  | inr a ↦ rw (g, a) refl
  | inl a ↦ elim (Bool-cases (ltb k (2 ^ 24))) [
    | inr b ↦ rw (g, a, b) refl
    | inl b ↦ absurd (ne (ground arith))
  ]
]

module _ (n : ℕ) where
  k12-small :
      ltb (magnitude n) 0x1000 ≡ true → add_sub_operand (k12 n) ≡ some (is_negative n, magnitude n)
  unfolding k12
  k12-small h =
      let k : ℕ = magnitude n in
      let less : k < 2 ^ 12 = ground arith in
      let v : field_value k ≡ k = small_value k less in
      rw h (
        ap add_sub_operand (k12_fields n k (omega (arith, less)))
        ∙ reads (is_negative n) k (omega (arith, less))
        ∙ ap (λ (x : ℕ). some (is_negative n, x)) v)

  k12-shifted :
      ltb (magnitude n) 0x1000 ≡ false
      → (bit_and (magnitude n) 0xfff000 == magnitude n) ≡ true
      → add_sub_operand (k12 n) ≡ some (is_negative n, magnitude n)
  unfolding k12
  k12-shifted g h =
      let k : ℕ = magnitude n in
      let e : k / 2 ^ 12 % 2 ^ 12 * 2 ^ 12 ≡ k = is_shifted k h in
      let high : bit_or (k >>> 12) (2 ^ 12) ≡ 2 ^ 12 + k / 2 ^ 12 =
        bit_or_low_fields 12 1 (k / 2 ^ 12) (omega (arith, e)) ∙ omega arith in
      let v : field_value (2 ^ 12 + k / 2 ^ 12) ≡ k = shifted_value k e in
      rw (g, h, high)
        (ap add_sub_operand (k12_fields n (2 ^ 12 + k / 2 ^ 12) (omega (arith, e)))
          ∙ reads (is_negative n) (2 ^ 12 + k / 2 ^ 12) (omega (arith, e))
          ∙ ap (λ (x : ℕ). some (is_negative n, x)) v)

  k12-none :
      ltb (magnitude n) 0x1000 ≡ false
      → (bit_and (magnitude n) 0xfff000 == magnitude n) ≡ false
      → add_sub_operand (k12 n) ≡ none
  unfolding k12
  k12-none g h = rw (g, h) refl

  -- What the assembler encodes as the operand of an addition or subtraction is read back, with its
  -- sign, and exactly the numbers of twelve bits and their multiples by 2 ^ 12 are encoded.
  pub k12-add_sub_operand :
      add_sub_operand (k12 n)
      ≡ (if has_twelve_bits (magnitude n) then some (is_negative n, magnitude n) else none)
  k12-add_sub_operand =
      let k : ℕ = magnitude n in
      elim (Bool-cases (ltb k 0x1000)) [
        | inl small ↦ rw small (k12-small small)
        | inr g ↦ elim (Bool-cases (bit_and k 0xfff000 == k)) [
          | inl h ↦
              let fits : has_twelve_bits k ≡ true = has_twelve_bits-shifted k (is_shifted k h) in
              rw fits (k12-shifted g h)
          | inr h ↦
              let not_fits : has_twelve_bits k ≡ false =
                has_twelve_bits-none k g (is_not_shifted k h) in
              rw not_fits (k12-none g h)
        ]
      ]
