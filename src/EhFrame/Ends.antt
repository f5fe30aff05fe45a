-- ===== src/EhFrame/Ends.antt =====
-- The readers end, and do not go back in the file.
use polyfill_glibc.Base.{
  Option, none, some, ℕ, zero, suc, ◌+◌, ◌*◌, ◌^◌, ◌≤◌, ◌<◌, Bool, true, false, List, [], ◌∷◌,
  arith, bit_and, bit_or, u32, u64, sub64, leb, ◌==◌, if◌then◌else◌, length, length-drop,
}
use polyfill_glibc.EhFrame.Reading.{
  Read, ok, fault, bad_shift, fatal, stuck, ◌>>=◌, skip, read_byte, read_uleb_from, read_uleb,
  read_sleb_from, read_sleb, read_memory, read_int, is_64, is_bswap, bswap,
}
use polyfill_glibc.EhFrame.Pointers.{
  ReadPtrCtx, sign_extend, relative_to, align_ptr, read_signed, read_encoded, relocate, read_ptr,
  address,
}

-- A reader ends: in a result of which `P` holds, at a read outside the file, at a shift by 64 bits or
-- more, or with a fatal error.
pub data Returns {ℓ} {A : Type ℓ} (P : A → Type 0) : Read A → Type ℓ where
  returns : {a : A} → P a → Returns P (ok a)
  faults : Returns P fault
  shifts : Returns P bad_shift
  dies : Returns P fatal

pub Returns-bind {ℓ κ} :
    {A : Type ℓ} {B : Type κ} {P : A → Type 0} {Q : B → Type 0} (m : Read A) (f : A → Read B)
    → Returns P m
    → ((a : A) → P a → Returns Q (f a))
    → Returns Q (m >>= f)
Returns-bind (ok a) f (returns p) k = k a p
Returns-bind fault f faults k = faults
Returns-bind bad_shift f shifts k = shifts
Returns-bind fatal f dies k = dies
Returns-bind stuck f r k = elim r [ ]

pub Returns-weaken {ℓ} :
    {A : Type ℓ} {P Q : A → Type 0} (m : Read A) → Returns P m → ((a : A) → P a → Q a) → Returns Q m
Returns-weaken (ok a) (returns p) k = returns (k a p)
Returns-weaken fault faults k = faults
Returns-weaken bad_shift shifts k = shifts
Returns-weaken fatal dies k = dies
Returns-weaken stuck r k = elim r [ ]

pub Returns-if {ℓ} :
    {A : Type ℓ} {P : A → Type 0} (b : Bool) {m n : Read A}
    → Returns P m
    → Returns P n
    → Returns P (if b then m else n)
Returns-if true r s = r
Returns-if false r s = s

pub Returns-cases {ℓ} :
    {A : Type ℓ} {P : A → Type 0} (b : Bool) {m n : Read A}
    → Returns P m
    → Returns P n
    → Returns P (elim b [ true ↦ m | false ↦ n ])
Returns-cases true r s = r
Returns-cases false r s = s

pub Returns-option {ℓ κ} :
    {A : Type ℓ} {B : Type κ} {P : A → Type 0} (o : Option B) {m : Read A} {n : B → Read A}
    → Returns P m
    → ((b : B) → Returns P (n b))
    → Returns P (elim o [ none ↦ m | some b ↦ n b ])
Returns-option none r s = r
Returns-option (some b) r s = s b

-- The condition that holds of every result.
abbrev pub Any {ℓ} : {A : Type ℓ} → A → Type 0
Any _ = Unit {0}

-- What a reader leaves is not longer than `n`.
abbrev pub Within {ℓ} : {A : Type ℓ} → ℕ → A × List ℕ → Type 0
Within n r = length r.1 ≤ n

pub skip-ends : (n : ℕ) (p : List ℕ) → Returns (λ (q : List ℕ). length q ≤ length p) (skip n p)
skip-ends n p = Returns-if (leb n (length p)) (returns (omega (arith, length-drop n p))) faults

pub read_byte-ends : (p : List ℕ) (n : ℕ) → length p ≤ suc n → Returns (Within n) (read_byte p)
read_byte-ends [] n h = faults
read_byte-ends (b ∷ p) n h = returns (omega arith)

pub read_byte-shorter :
    (p : List ℕ) → Returns (λ (r : ℕ × List ℕ). suc (length r.1) ≤ length p) (read_byte p)
read_byte-shorter [] = faults
read_byte-shorter (b ∷ p) = returns (omega arith)

read_uleb_from-ends : (x s : ℕ) (p : List ℕ) → Returns (Within (length p)) (read_uleb_from x s p)
unfolding read_uleb_from
read_uleb_from-ends x s [] = faults
read_uleb_from-ends x s (b ∷ p) = Returns-cases (leb 64 s) shifts (
    Returns-cases (bit_and b 0x80 == 0) (returns (omega arith)) (
      Returns-weaken (read_uleb_from (bit_or x (u64 (bit_and b 0x7f * 2 ^ s))) (s + 7) p)
        (read_uleb_from-ends (bit_or x (u64 (bit_and b 0x7f * 2 ^ s))) (s + 7) p)
        (λ r h. omega arith)))

pub read_uleb-ends : (p : List ℕ) → Returns (Within (length p)) (read_uleb p)
unfolding read_uleb
read_uleb-ends p = read_uleb_from-ends 0 0 p

read_sleb_from-ends : (x s : ℕ) (p : List ℕ) → Returns (Within (length p)) (read_sleb_from x s p)
unfolding read_sleb_from
read_sleb_from-ends x s [] = faults
read_sleb_from-ends x s (b ∷ p) = Returns-cases (leb 64 s) shifts (
    Returns-cases (bit_and b 0x80 == 0) (returns (omega arith)) (
      Returns-weaken (read_sleb_from (bit_or x (u64 (bit_and b 0x7f * 2 ^ s))) (s + 7) p)
        (read_sleb_from-ends (bit_or x (u64 (bit_and b 0x7f * 2 ^ s))) (s + 7) p)
        (λ r h. omega arith)))

pub read_sleb-ends : (p : List ℕ) → Returns (Within (length p)) (read_sleb p)
unfolding read_sleb
read_sleb-ends p = read_sleb_from-ends 0 0 p

pub read_memory-ends : (n : ℕ) (p : List ℕ) → Returns (Within (length p)) (read_memory n p)
unfolding read_memory
read_memory-ends zero p = returns (omega arith)
read_memory-ends (suc n) [] = faults
read_memory-ends (suc n) (b ∷ p) =
    Returns-bind (read_memory n p) (λ r. ok (b + r.0 * 2 ^ 8, r.1)) (read_memory-ends n p)
      (λ r h. returns (omega arith))

pub read_int-ends :
    (file_kind n : ℕ) (p : List ℕ) → Returns (Within (length p)) (read_int file_kind n p)
unfolding read_int
read_int-ends file_kind n p =
    Returns-bind (read_memory n p) (λ r. ok (if is_bswap file_kind then bswap n r.0 else r.0, r.1))
      (read_memory-ends n p) (λ r h. returns h)

read_signed-ends :
    (file_kind n : ℕ) (p : List ℕ) → Returns (Within (length p)) (read_signed file_kind n p)
read_signed-ends file_kind n p =
    Returns-bind (read_int file_kind n p) (λ r. ok (sign_extend n r.0, r.1))
      (read_int-ends file_kind n p) (λ r h. returns h)

read_encoded-ends :
    (ctx : ReadPtrCtx) (p : List ℕ) → Returns (Within (length p)) (read_encoded ctx p)
unfolding read_encoded
read_encoded-ends ctx p =
    let e = bit_and ctx.ptr_encoding 0xf in
    let kind = ctx.file_kind in
    Returns-if (e == 0) (Returns-if (is_64 kind) (read_int-ends kind 8 p) (read_int-ends kind 4 p))
      (Returns-if (e == 1) (read_uleb-ends p) (
        Returns-if (e == 2) (read_int-ends kind 2 p) (
          Returns-if (e == 3) (read_int-ends kind 4 p) (
            Returns-if (e == 4) (read_int-ends kind 8 p) (
              Returns-if (e == 9) (read_sleb-ends p) (
                Returns-if (e == 10) (read_signed-ends kind 2 p) (
                  Returns-if (e == 11) (read_signed-ends kind 4 p)
                    (Returns-if (e == 12) (read_int-ends kind 8 p) (returns (omega arith))))))))))

align_ptr-ends :
    (ctx : ReadPtrCtx) (p : List ℕ)
    → Returns (λ (q : List ℕ). length q ≤ length p) (align_ptr ctx p)
unfolding align_ptr
align_ptr-ends ctx p =
    Returns-if (ctx.ptr_encoding == 0x50)
      (skip-ends (bit_and (sub64 0 (address ctx p)) (if is_64 ctx.file_kind then 7 else 3)) p)
      (returns (omega arith))

-- The numbers below which an address of the file is.
abbrev pub address_limit : ReadPtrCtx → ℕ
address_limit ctx = if is_64 ctx.file_kind then 2 ^ 64 else 2 ^ 32

zero_fits : (b : Bool) → 0 < (if b then 2 ^ 64 else 2 ^ 32)
zero_fits true = omega arith
zero_fits false = omega arith

relocate-ends :
    (ctx : ReadPtrCtx) (p₀ : List ℕ) (result : ℕ)
    → Returns (λ (v : ℕ). v < address_limit ctx) (relocate ctx p₀ result)
unfolding relocate
relocate-ends ctx p₀ result = Returns-if (result == 0) (returns (zero_fits (is_64 ctx.file_kind))) (
    Returns-if (bit_and ctx.ptr_encoding 0x80 == 0)
      (returns (sum_fits (is_64 ctx.file_kind) (u64 (result + relative_to ctx p₀)) (omega arith)))
      dies)
  where
    sum_fits :
        (b : Bool) (sum : ℕ)
        → sum < 2 ^ 64
        → (if b then sum else u32 sum) < (if b then 2 ^ 64 else 2 ^ 32)
    sum_fits true sum h = h
    sum_fits false sum h = omega arith

-- `read_ptr` ends, behind where it started in the file or there. What it returns is below 2 ^ 64,
-- and below 2 ^ 32 for a 32-bit file.
pub read_ptr-ends :
    (ctx : ReadPtrCtx) (p : List ℕ)
    → Returns
        (λ (r : ℕ × List ℕ). (r.0 < address_limit ctx) × (length r.1 ≤ length p))
        (read_ptr ctx p)
unfolding read_ptr
read_ptr-ends ctx p =
    Returns-if (ctx.ptr_encoding == 0xff) (returns (zero_fits (is_64 ctx.file_kind), omega arith)) (
      Returns-bind (align_ptr ctx p)
        (λ p₁. read_encoded ctx p₁ >>= λ r. relocate ctx p r.0 >>= λ result. ok (result, r.1))
        (align_ptr-ends ctx p)
        (λ p₁ h.
          Returns-bind (read_encoded ctx p₁)
            (λ r. relocate ctx p r.0 >>= λ result. ok (result, r.1)) (read_encoded-ends ctx p₁)
            (λ r g.
              Returns-bind (relocate ctx p r.0) (λ result. ok (result, r.1))
                (relocate-ends ctx p r.0) (λ result lt. returns (lt, omega (arith, h, g))))))
