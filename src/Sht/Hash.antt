-- ===== src/Sht/Hash.antt =====
-- `sht_hash_mem`.
use polyfill_glibc.Base.{
  ℕ, zero, suc, ◌+◌, ◌-◌, ◌*◌, ◌/◌, ◌^◌, ◌<◌, List, length, get_or, bit_or, bit_xor, u32, sub32,
  ◌>>>◌, ltb, leb, ◌==◌, if◌then◌else◌, arith,
}

-- `getu32(p)`
abbrev pub getu32 : List ℕ → ℕ → ℕ
getu32 str i =
    get_or str i 0
    + get_or str (i + 1) 0 * 2 ^ 8
    + get_or str (i + 2) 0 * 2 ^ 16
    + get_or str (i + 3) 0 * 2 ^ 24

-- `rol(x, n)` of a 32-bit word
abbrev pub rol : ℕ → ℕ → ℕ
rol x n = bit_or (u32 (x * 2 ^ n)) (x >>> (32 - n))

pub record Mix : Type 0 where
  pub a : ℕ
  pub b : ℕ
  pub h : ℕ

-- The body of the loop over twelve bytes from `p` on.
abbrev pub mix_twelve : List ℕ → ℕ → Mix → Mix
mix_twelve str p m =
    let b₁ = u32 (m.b + getu32 str p) in
    let h₁ = u32 (m.h + getu32 str (p + 4)) in
    let a₁ = u32 (m.a + getu32 str (p + 8)) in
    let a₂ = bit_xor a₁ h₁ in
    let a₃ = sub32 a₂ (rol h₁ 14) in
    let b₂ = bit_xor b₁ a₃ in
    let b₃ = sub32 b₂ (rol a₃ 11) in
    let h₂ = bit_xor h₁ b₃ in record { a = a₃; b = b₃; h = sub32 h₂ (rol b₃ 25) }

-- `while (p < pe)`, behind the first round
unfoldable pub mix_rest : ℕ → List ℕ → ℕ → ℕ → Mix → Mix
mix_rest zero str p pe m = m
mix_rest (suc fuel) str p pe m =
    let on = mix_rest fuel str (p + 12) pe (mix_twelve str p m) in if ltb p pe then on else m

abbrev pub mix_long : List ℕ → ℕ → Mix
mix_long str len =
    let pe = len - 12 in
    mix_rest len str 0 pe (mix_twelve str pe (record { a = 0; b = 0; h = len }))

abbrev pub mix_medium : List ℕ → ℕ → Mix
mix_medium str len =
    let b₁ = getu32 str (len / 2 - 2) in
    let h₁ = bit_xor (bit_xor len (getu32 str (len - 4))) b₁ in
    record { a = getu32 str 0; b = u32 (b₁ + getu32 str (len / 4 - 1)); h = sub32 h₁ (rol b₁ 14) }

abbrev pub mix_short : List ℕ → ℕ → Mix
mix_short str len =
    let b₁ = get_or str (len / 2) 0 in
    let h₁ = bit_xor (bit_xor len (get_or str (len - 1) 0)) b₁ in
    record { a = get_or str 0 0; b = b₁; h = sub32 h₁ (rol b₁ 14) }

abbrev pub mix : List ℕ → ℕ → Mix
mix str len =
    if ltb 12 len
    then mix_long str len
    else if leb 4 len
    then mix_medium str len
    else if len == 0
    then record { a = 0; b = 0; h = 0 }
    else mix_short str len

-- The last three lines. They are computed in 32 bits, so the result has 32 bits.
abbrev pub finish : Mix → ℕ
finish m =
    let a₁ = sub32 (bit_xor m.a m.h) (rol m.h 11) in
    let b₁ = sub32 (bit_xor m.b a₁) (rol a₁ 25) in sub32 (bit_xor m.h b₁) (rol b₁ 16)

-- `sht_hash_mem`
unfoldable pub hash_mem : List ℕ → ℕ
unfolding mix_rest
hash_mem key = finish (mix key (u32 (length key)))

sub32-lt : (x y : ℕ) → sub32 x y < 2 ^ 32
sub32-lt x y = omega arith

finish-lt : (m : Mix) → finish m < 2 ^ 32
finish-lt m =
    let a₁ = sub32 (bit_xor m.a m.h) (rol m.h 11) in
    let b₁ = sub32 (bit_xor m.b a₁) (rol a₁ 25) in sub32-lt (bit_xor m.h b₁) (rol b₁ 16)

pub hash_mem-lt : (key : List ℕ) → hash_mem key < 2 ^ 32
unfolding hash_mem
hash_mem-lt key = finish-lt (mix key (u32 (length key)))
