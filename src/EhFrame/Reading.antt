-- ===== src/EhFrame/Reading.antt =====
-- The readers of integers: `read_uleb`, `read_sleb`, and `memcpy` into an integer. The machine that
-- runs the code is little-endian, as the code takes it to be.
use polyfill_glibc.Base.{
  ℕ, zero, suc, ◌+◌, ◌-◌, ◌*◌, ◌/◌, ◌%◌, ◌^◌, Bool, true, false, List, [], ◌∷◌, bit_and, bit_or,
  u64, leb, ltb, ◌==◌, if◌then◌else◌, length, drop,
}

-- How a reader ends. `fault` is a read outside the file; `bad_shift` is a shift by 64 bits or more,
-- which C does not define; `fatal` is the macro FATAL, which ends the program; `stuck` is fuel that ran
-- out.
pub data Read {ℓ} (A : Type ℓ) : Type ℓ where
  ok : A → Read A
  fault bad_shift fatal stuck : Read A

infixl 5 ◌>>=◌
abbrev pub ◌>>=◌ {ℓ κ} : {A : Type ℓ} {B : Type κ} → Read A → (A → Read B) → Read B
ok a >>= f = f a
fault >>= f = fault
bad_shift >>= f = bad_shift
fatal >>= f = fatal
stuck >>= f = stuck

-- `p += n`, of a pointer that is then read from
abbrev pub skip : ℕ → List ℕ → Read (List ℕ)
skip n p = if leb n (length p) then ok (drop n p) else fault

-- `*p++`
abbrev pub read_byte : List ℕ → Read (ℕ × List ℕ)
read_byte [] = fault
read_byte (b ∷ p) = ok (b, p)

-- The loop of `read_uleb`.
unfoldable pub read_uleb_from : ℕ → ℕ → List ℕ → Read (ℕ × List ℕ)
read_uleb_from x s [] = fault
read_uleb_from x s (b ∷ p) = elim (leb 64 s) [
  | true ↦ bad_shift
  | false ↦ elim (bit_and b 0x80 == 0) [
    | true ↦ ok (bit_or x (u64 (b * 2 ^ s)), p)
    | false ↦ read_uleb_from (bit_or x (u64 (bit_and b 0x7f * 2 ^ s))) (s + 7) p
  ]
]

unfoldable pub read_uleb : List ℕ → Read (ℕ × List ℕ)
unfolding read_uleb_from
read_uleb p = read_uleb_from 0 0 p

-- `x >> s` of an int64_t, on its 64 bits
abbrev pub sar64 : ℕ → ℕ → ℕ
sar64 x s = if ltb x (2 ^ 63) then x / 2 ^ s else 2 ^ 64 - 1 - (2 ^ 64 - 1 - x) / 2 ^ s

-- The lines behind the loop of `read_sleb`: the sign, from the last bit that was read.
abbrev pub sign_from : ℕ → ℕ → ℕ
sign_from x s = let s' = if ltb s 64 then 64 - s else 0 in sar64 (u64 (x * 2 ^ s')) s'

unfoldable pub read_sleb_from : ℕ → ℕ → List ℕ → Read (ℕ × List ℕ)
read_sleb_from x s [] = fault
read_sleb_from x s (b ∷ p) = elim (leb 64 s) [
  | true ↦ bad_shift
  | false ↦
      let x' = bit_or x (u64 (bit_and b 0x7f * 2 ^ s)) in
      elim (bit_and b 0x80 == 0) [
        | true ↦ ok (sign_from x' (s + 7), p)
        | false ↦ read_sleb_from x' (s + 7) p
      ]
]

-- `read_sleb`. The int64_t is kept as its 64 bits.
unfoldable pub read_sleb : List ℕ → Read (ℕ × List ℕ)
unfolding read_sleb_from
read_sleb p = read_sleb_from 0 0 p

-- ERW_FILE_KIND_BSWAP and ERW_FILE_KIND_64
abbrev pub is_bswap : ℕ → Bool
is_bswap file_kind = if bit_and file_kind 1 == 0 then false else true

abbrev pub is_64 : ℕ → Bool
is_64 file_kind = if bit_and file_kind 2 == 0 then false else true

-- `__builtin_bswap16`, `__builtin_bswap32` and `__builtin_bswap64`, of so many bytes
unfoldable pub bswap : ℕ → ℕ → ℕ
bswap zero u = 0
bswap (suc n) u = u % 2 ^ 8 * 2 ^ (8 * n) + bswap n (u / 2 ^ 8)

-- `memcpy(&u, p, sizeof(u)); p += sizeof(u);`
unfoldable pub read_memory : ℕ → List ℕ → Read (ℕ × List ℕ)
read_memory zero p = ok (0, p)
read_memory (suc n) [] = fault
read_memory (suc n) (b ∷ p) = read_memory n p >>= λ r. ok (b + r.0 * 2 ^ 8, r.1)

-- The same, in the byte order of the file.
unfoldable pub read_int : ℕ → ℕ → List ℕ → Read (ℕ × List ℕ)
unfolding read_memory bswap
read_int file_kind n p =
    read_memory n p >>= λ r. ok (if is_bswap file_kind then bswap n r.0 else r.0, r.1)
