-- ===== src/Erw/Hashes.antt =====
-- The hashes of strings against the definitions that other programs use.
use polyfill_glibc.Base.{
  ℕ, ◌+◌, ◌*◌, ◌/◌, ◌%◌, ◌^◌, ◌<◌, List, [], ◌∷◌, ◌≡◌, refl, sym, ap, ap₂, ◌∙◌, arith, bit_and,
  bit_xor, u32, ◌>>>◌, length,
}
use polyfill_glibc.Base.Bits.{bit_and_mask, bit_and_high, bit_xor_fields, xor_assoc, xor-lt}
use polyfill_glibc.Erw.{
  elf_hash_step, elf_hash_loop, elf_hash, gnu_hash_loop, gnu_hash, len_hash_loop, dynstr_len_hash,
}

-- A round of the hash of the ELF specification, of 32 bits: a shift by four to the left, the character is
-- added, and the high four bits leave the number and are put on the bits 4 to 7.
abbrev pub system_v_step : ℕ → ℕ → ℕ
system_v_step h c = let sum = u32 (h * 16 + c) in bit_xor (sum % 2 ^ 28) (sum / 2 ^ 28 * 2 ^ 4)

unfoldable pub system_v_loop : ℕ → List ℕ → ℕ
system_v_loop h [] = h
system_v_loop h (c ∷ str) = system_v_loop (system_v_step h c) str

-- The low bits of an exclusive or with a number that has no others.
xor_low : (a b : ℕ) → b < 2 ^ 28 → bit_xor a b % 2 ^ 28 ≡ bit_xor (a % 2 ^ 28) b
xor_low a b h =
    let low = bit_xor (a % 2 ^ 28) b in
    let low-lt = xor-lt 28 (a % 2 ^ 28) b (omega arith) h in
    let split : bit_xor (a / 2 ^ 28 * 2 ^ 28) (a % 2 ^ 28) ≡ a =
      bit_xor_fields 28 (a / 2 ^ 28) (a % 2 ^ 28) (omega arith) ∙ omega arith in
    let apart : bit_xor a b ≡ a / 2 ^ 28 * 2 ^ 28 + low =
      ap (λ (x : ℕ). bit_xor x b) (sym split)
      ∙ xor_assoc (a / 2 ^ 28 * 2 ^ 28) (a % 2 ^ 28) b
      ∙ bit_xor_fields 28 (a / 2 ^ 28) low low-lt in
    omega (arith, apart, low-lt)

step_low : (h c : ℕ) → elf_hash_step h c % 2 ^ 28 ≡ system_v_step (h % 2 ^ 28) c
step_low h c =
    let sum : ℕ = u32 (u32 (h * 2 ^ 4) + c) in
    let e : sum ≡ u32 (h % 2 ^ 28 * 16 + c) = omega arith in
    let high : bit_and sum 0xf0000000 >>> 24 ≡ sum / 2 ^ 28 * 2 ^ 4 =
      ap (λ (x : ℕ). x >>> 24) (bit_and_high 28 4 sum) ∙ omega arith in
    ap (λ (x : ℕ). bit_xor sum x % 2 ^ 28) high
    ∙ xor_low sum (sum / 2 ^ 28 * 2 ^ 4) (omega arith)
    ∙ ap (λ (x : ℕ). bit_xor (x % 2 ^ 28) (x / 2 ^ 28 * 2 ^ 4)) e

elf_loop-run :
    (h c : ℕ) (str : List ℕ) → elf_hash_loop h (c ∷ str) ≡ elf_hash_loop (elf_hash_step h c) str
unfolding elf_hash_loop
elf_loop-run h c str = refl

elf_loop-nil : (h : ℕ) → elf_hash_loop h [] ≡ h
unfolding elf_hash_loop
elf_loop-nil h = refl

elf_loop-system_v :
    (h : ℕ) (str : List ℕ) → elf_hash_loop h str % 2 ^ 28 ≡ system_v_loop (h % 2 ^ 28) str
unfolding system_v_loop
elf_loop-system_v h [] = ap (λ (x : ℕ). x % 2 ^ 28) (elf_loop-nil h)
elf_loop-system_v h (c ∷ str) =
    ap (λ (x : ℕ). x % 2 ^ 28) (elf_loop-run h c str)
    ∙ elf_loop-system_v (elf_hash_step h c) str
    ∙ ap (λ (x : ℕ). system_v_loop x str) (step_low h c)

-- `erw_elf_hash`, which clears the high four bits once at the end, is the hash of the ELF
-- specification, `system_v_loop`, which takes them out of the number in each round.
pub elf_hash-system_v : (str : List ℕ) → elf_hash str ≡ system_v_loop 0 str
unfolding elf_hash
elf_hash-system_v str = bit_and_mask 28 (elf_hash_loop 0 str) ∙ elf_loop-system_v 0 str

-- The number that a string is in base 33, behind the digit 5381.
unfoldable pub base_33 : ℕ → List ℕ → ℕ
base_33 n [] = n
base_33 n (c ∷ str) = base_33 (n * 33 + c) str

gnu_loop-base_33 : (h n : ℕ) (str : List ℕ) → h ≡ u32 n → gnu_hash_loop h str ≡ u32 (base_33 n str)
unfolding gnu_hash_loop base_33
gnu_loop-base_33 h n [] e = e
gnu_loop-base_33 h n (c ∷ str) e =
    gnu_loop-base_33 (u32 (u32 (u32 (h * 2 ^ 5) + h) + c)) (n * 33 + c) str (omega arith)

-- `erw_gnu_hash` is the string as a number in base 33, behind the digit 5381, modulo 2 ^ 32.
pub gnu_hash-base_33 : (str : List ℕ) → gnu_hash str ≡ u32 (base_33 5381 str)
unfolding gnu_hash
gnu_hash-base_33 str = gnu_loop-base_33 5381 5381 str refl

len_loop-gnu :
    (len hash : ℕ) (str : List ℕ)
    → len + length str + 1 < 2 ^ 32
    → hash < 2 ^ 32
    → len_hash_loop len hash str ≡ len + length str + 1 + gnu_hash_loop hash str * 2 ^ 32
unfolding len_hash_loop gnu_hash_loop
len_loop-gnu len hash [] small lt = omega arith
len_loop-gnu len hash (c ∷ str) small lt =
    let e : u32 (u32 (hash * 33) + c) ≡ u32 (u32 (u32 (hash * 2 ^ 5) + hash) + c) = omega arith in
    let n : u32 (len + 1) ≡ len + 1 = omega arith in
    ap₂ (λ (a b : ℕ). len_hash_loop a b str) n e
    ∙ len_loop-gnu (len + 1) (u32 (u32 (u32 (hash * 2 ^ 5) + hash) + c)) str (omega arith)
        (omega arith)
    ∙ omega arith

-- If the string and its zero have fewer than 2 ^ 32 characters, `dynstr_len_hash` has their number in
-- its low half and the GNU hash of the string in its high half.
pub dynstr_len_hash-gnu_hash :
    (str : List ℕ)
    → length str + 1 < 2 ^ 32
    → dynstr_len_hash str ≡ length str + 1 + gnu_hash str * 2 ^ 32
unfolding dynstr_len_hash gnu_hash
dynstr_len_hash-gnu_hash str small =
    len_loop-gnu 0 5381 str (omega arith) (omega arith) ∙ omega arith
