-- ===== src/EhFrame/Fixed.antt =====
-- A pointer of a fixed size is read, if there is room for it.
use polyfill_glibc.Base.{
  ℕ, zero, suc, ◌+◌, ◌≤◌, ◌<◌, Bool, true, false, List, [], ◌∷◌, ◌≡◌, ◌≢◌, refl, arith, bit_and,
  sub64, leb, ◌==◌, if◌then◌else◌, length, length-drop,
}
use polyfill_glibc.Base.Bits.{bit_and_mask}
use polyfill_glibc.EhFrame.Ends.{Any, Returns, returns, address_limit, read_ptr-ends}
use polyfill_glibc.EhFrame.Pointers.{
  ReadPtrCtx, address, align_ptr, read_signed, read_encoded, relocate, read_ptr,
}
use polyfill_glibc.EhFrame.Reading.{
  Read, ok, fault, bad_shift, fatal, stuck, ◌>>=◌, skip, read_memory, read_int, is_64,
}

-- A reader ends in a result, of which `P` holds.
data Gives {ℓ} {A : Type ℓ} (P : A → Type 0) : Read A → Type ℓ where
  gives : {a : A} → P a → Gives P (ok a)

Gives-bind {ℓ κ} :
    {A : Type ℓ} {B : Type κ} {P : A → Type 0} {Q : B → Type 0} (m : Read A) (f : A → Read B)
    → Gives P m
    → ((a : A) → P a → Gives Q (f a))
    → Gives Q (m >>= f)
Gives-bind (ok a) f (gives p) k = k a p
Gives-bind fault f r k = elim r [ ]
Gives-bind bad_shift f r k = elim r [ ]
Gives-bind fatal f r k = elim r [ ]
Gives-bind stuck f r k = elim r [ ]

given {ℓ} : {A : Type ℓ} {P : A → Type 0} (m : Read A) → Gives P m → (a : A) × (m ≡ ok a) × P a
given (ok a) (gives p) = (a, refl, p)
given fault r = elim r [ ]
given bad_shift r = elim r [ ]
given fatal r = elim r [ ]
given stuck r = elim r [ ]

returned {ℓ} : {A : Type ℓ} {P : A → Type 0} {a : A} → Returns P (ok a) → P a
returned (returns p) = p

Gives-if {ℓ} :
    {A : Type ℓ} {P : A → Type 0} (b : Bool) {m n : Read A}
    → Gives P m
    → Gives P n
    → Gives P (if b then m else n)
Gives-if true r s = r
Gives-if false r s = s

-- From `n` bytes at least, at most `n` are read.
abbrev Reads : ℕ → List ℕ → ℕ × List ℕ → Type 0
Reads n p r = (length r.1 ≤ length p) × (length p ≤ length r.1 + n)

read_memory-Gives :
    (n k : ℕ) (p : List ℕ) → n ≤ k → n ≤ length p → Gives (Reads k p) (read_memory n p)
unfolding read_memory
read_memory-Gives zero k p h le = gives (omega arith, omega arith)
read_memory-Gives (suc n) k [] h le = absurd (omega (arith, le))
read_memory-Gives (suc n) zero (b ∷ p) h le = absurd (omega (arith, h))
read_memory-Gives (suc n) (suc k) (b ∷ p) h le =
    Gives-bind (read_memory n p) _ (read_memory-Gives n k p (omega arith) (omega arith))
      (λ r g. gives (omega (arith, g), omega (arith, g)))

read_int-Gives :
    (file_kind n k : ℕ) (p : List ℕ)
    → n ≤ k
    → k ≤ length p
    → Gives (Reads k p) (read_int file_kind n p)
unfolding read_int
read_int-Gives file_kind n k p h le =
    Gives-bind (read_memory n p) _ (read_memory-Gives n k p h (omega arith)) (λ r g. gives g)

read_signed-Gives :
    (file_kind n : ℕ) (p : List ℕ)
    → n ≤ 8
    → 8 ≤ length p
    → Gives (Reads 8 p) (read_signed file_kind n p)
read_signed-Gives file_kind n p h le =
    Gives-bind (read_int file_kind n p) _ (read_int-Gives file_kind n 8 p h le) (λ r g. gives g)

module _ (ctx : ReadPtrCtx) (fixed : bit_and ctx.ptr_encoding 0xf ≢ 1)
    (fixed' : bit_and ctx.ptr_encoding 0xf ≢ 9) (direct : bit_and ctx.ptr_encoding 0x80 ≡ 0) where
  abbrev kind : ℕ
  kind = ctx.file_kind

  read_encoded-Gives : (p : List ℕ) → 8 ≤ length p → Gives (Reads 8 p) (read_encoded ctx p)
  unfolding read_encoded
  read_encoded-Gives p le =
      let e : ℕ = bit_and ctx.ptr_encoding 0xf in
      let not_uleb : (e == 1) ≡ false = ground arith in
      let not_sleb : (e == 9) ≡ false = ground arith in
      let int = λ (n : ℕ) (h : n ≤ 8). read_int-Gives kind n 8 p h le in
      rw (not_uleb, not_sleb)
        (Gives-if (e == 0) (Gives-if (is_64 kind) (int 8 (omega arith)) (int 4 (omega arith))) (
          Gives-if (e == 2) (int 2 (omega arith)) (
            Gives-if (e == 3) (int 4 (omega arith)) (
              Gives-if (e == 4) (int 8 (omega arith)) (
                Gives-if (e == 10) (read_signed-Gives kind 2 p (omega arith) le) (
                  Gives-if (e == 11) (read_signed-Gives kind 4 p (omega arith) le) (
                    Gives-if (e == 12) (int 8 (omega arith))
                      (gives (omega arith, omega arith)))))))))

  align_ptr-Gives :
      (p : List ℕ)
      → 15 ≤ length p
      → Gives (λ (q : List ℕ). length p ≤ length q + 7) (align_ptr ctx p)
  unfolding align_ptr
  align_ptr-Gives p le =
      Gives-if (ctx.ptr_encoding == 0x50) (skips (is_64 kind) (sub64 0 (address ctx p)))
        (gives (omega arith))
    where
      skips :
          (b : Bool) (a : ℕ)
          → Gives
              (λ (q : List ℕ). length p ≤ length q + 7)
              (skip (bit_and a (if b then 7 else 3)) p)
      skips true a =
          let n : bit_and a 7 ≤ 7 = omega (arith, bit_and_mask 3 a) in
          let room : leb (bit_and a 7) (length p) ≡ true = ground (arith, n, le) in
          rw room (gives (omega (arith, n, length-drop (bit_and a 7) p)))
      skips false a =
          let n : bit_and a 3 ≤ 7 = omega (arith, bit_and_mask 2 a) in
          let room : leb (bit_and a 3) (length p) ≡ true = ground (arith, n, le) in
          rw room (gives (omega (arith, n, length-drop (bit_and a 3) p)))

  relocate-Gives : (p₀ : List ℕ) (result : ℕ) → Gives Any (relocate ctx p₀ result)
  unfolding relocate
  relocate-Gives p₀ result =
      let is_direct : (bit_and ctx.ptr_encoding 0x80 == 0) ≡ true = ground arith in
      rw is_direct (Gives-if (result == 0) (gives tt) (gives tt))

  read_ptr-Gives :
      (p : List ℕ)
      → 15 ≤ length p
      → Gives (λ (r : ℕ × List ℕ). length p ≤ length r.1 + 15) (read_ptr ctx p)
  unfolding read_ptr
  read_ptr-Gives p le = Gives-if (ctx.ptr_encoding == 0xff) (gives (omega arith)) (
      Gives-bind (align_ptr ctx p) _ (align_ptr-Gives p le) (λ p₁ h.
        Gives-bind (read_encoded ctx p₁) _ (read_encoded-Gives p₁ (omega (arith, h, le))) (λ r g.
          Gives-bind (relocate ctx p r.0) _ (relocate-Gives p r.0)
            (λ result a. gives (omega (arith, h, g))))))

  -- If the encoding of a pointer is neither a LEB128 number nor indirect, and 15 bytes or more are left
  -- of the file, `read_ptr` returns. The pointer is below 2 ^ 64, and below 2 ^ 32 for a 32-bit file, and
  -- at most 15 bytes are passed over.
  pub read_ptr-fixed_size :
      (p : List ℕ)
      → 15 ≤ length p
      → (v : ℕ) × (q : List ℕ) × (read_ptr ctx p ≡ ok (v, q))
        × (v < address_limit ctx)
        × (length q ≤ length p)
        × (length p ≤ length q + 15)
  read_ptr-fixed_size p le =
      let (r, run, few) = given (read_ptr ctx p) (read_ptr-Gives p le) in
      let bounds = read_ptr-ends ctx p in
      let (fits, behind) = returned (rw run at bounds) in (r.0, r.1, run, fits, behind, few)
