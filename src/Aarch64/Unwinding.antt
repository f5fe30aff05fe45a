-- ===== src/Aarch64/Unwinding.antt =====
-- The unwind instructions that the assembler writes are those that src/print_eh_frame.c reads.
use polyfill_glibc.Base.{
  ℕ, suc, ◌+◌, ◌*◌, ◌/◌, ◌%◌, ◌^◌, ◌≤◌, ◌<◌, true, false, List, [], ◌∷◌, ◌++◌, ◌≡◌, refl, sym, ap,
  ◌∙◌, arith, bit_and, bit_or, u8, ◌>>>◌, leb, ltb, if◌then◌else◌, length, get_or, drop, Bool-cases,
  inl, inr,
}
use mathlib.Core.Path.{subst}
use polyfill_glibc.Base.Bits.{bit_and_mask, bit_or_low_fields}
use polyfill_glibc.Aarch64.{
  cmd_cfi, dw_cfa_def_cfa, dw_cfa_def_cfa_register, dw_cfa_def_cfa_offset, dw_cfa_offset,
  write_cfi_op_uleb, emit_cfi_advance,
}
use polyfill_glibc.EhFrame.Bytecode.{
  DwInsn, advance_loc, advance_loc1, advance_loc2, def_cfa, def_cfa_register, def_cfa_offset,
  offset, unknown_bytecode, with_uleb, decode_insn,
}
use polyfill_glibc.EhFrame.Leb.{IsLeb, last, more, read_uleb-IsLeb}
use polyfill_glibc.EhFrame.Reading.{Read, ok, ◌>>=◌, read_byte, is_bswap}

-- The body of the loop of `print_dw_bytecode`.
abbrev pub decode : ℕ → List ℕ → Read (DwInsn × List ℕ)
decode file_kind bc = read_byte bc >>= λ r. decode_insn file_kind r.0 r.1

high_bit : (c : ℕ) → bit_or (bit_and c 0x7f) 0x80 ≡ c % 2 ^ 7 + 2 ^ 7
high_bit c =
    ap (λ (x : ℕ). bit_or x 0x80) (bit_and_mask 7 c)
    ∙ bit_or_low_fields 7 1 (c % 2 ^ 7) (omega arith)
    ∙ omega arith

-- The bytes behind the opcode.
abbrev operand_bytes : ℕ → List ℕ
operand_bytes operand =
    if leb operand 0x7f
    then u8 operand ∷ []
    else if leb operand 0x3fff
    then bit_or (bit_and operand 0x7f) 0x80 ∷ u8 (operand >>> 7) ∷ []
    else bit_or (bit_and operand 0x7f) 0x80
      ∷ bit_or (bit_and (operand >>> 7) 0x7f) 0x80
      ∷ u8 (operand >>> 14)
      ∷ []

-- A command says how many bytes follow it.
write-parts :
    (opcode operand : ℕ)
    → write_cfi_op_uleb opcode operand
      ≡ (cmd_cfi + suc (length (operand_bytes operand))) ∷ opcode ∷ operand_bytes operand
unfolding write_cfi_op_uleb
write-parts opcode operand = elim (Bool-cases (leb operand 0x7f)) [
  | inl one ↦ rw one refl
  | inr more_bytes ↦ elim (Bool-cases (leb operand 0x3fff)) [
    | inl two ↦ rw (more_bytes, two) refl
    | inr three ↦ rw (more_bytes, three) refl
  ]
]

one_byte : (n : ℕ) → n < 2 ^ 7 → IsLeb (u8 n ∷ []) n
one_byte n h = let e : u8 n ≡ n = omega arith in rw e (last h)

next_byte :
    (n : ℕ) {bytes : List ℕ}
    → IsLeb bytes (n / 2 ^ 7)
    → IsLeb (bit_or (bit_and n 0x7f) 0x80 ∷ bytes) n
next_byte n {bytes} l =
    let e : n % 2 ^ 7 + n / 2 ^ 7 * 2 ^ 7 ≡ n = omega arith in
    rw (high_bit n)
      (subst (λ (m : ℕ). IsLeb ((n % 2 ^ 7 + 2 ^ 7) ∷ bytes) m) e (more (omega arith) l))

operand-IsLeb : (operand : ℕ) → operand < 2 ^ 21 → IsLeb (operand_bytes operand) operand
operand-IsLeb operand h = elim (Bool-cases (leb operand 0x7f)) [
  | inl one ↦ rw one (one_byte operand (ground arith))
  | inr more_bytes ↦ elim (Bool-cases (leb operand 0x3fff)) [
    | inl two ↦ rw (more_bytes, two) (next_byte operand (one_byte (operand / 2 ^ 7) (ground arith)))
    | inr three ↦
        let e : operand / 2 ^ 14 ≡ operand / 2 ^ 7 / 2 ^ 7 = omega arith in
        rw (more_bytes, three, e)
          (next_byte operand
            (next_byte (operand / 2 ^ 7) (one_byte (operand / 2 ^ 7 / 2 ^ 7) (omega arith))))
  ]
]

operand-length : (operand : ℕ) → length (operand_bytes operand) ≤ 10
operand-length operand = ground arith

module _ (file_kind : ℕ) where
  decode-offset :
      (reg : ℕ) (p : List ℕ)
      → reg < 2 ^ 6
      → decode file_kind ((dw_cfa_offset + reg) ∷ p) ≡ with_uleb (offset reg) p
  unfolding decode_insn
  decode-offset reg p h =
      let e : bit_and (dw_cfa_offset + reg) 0x3f ≡ reg =
        omega (arith, bit_and_mask 6 (dw_cfa_offset + reg)) in
      let a : ltb (dw_cfa_offset + reg) 0x40 ≡ false = ground arith in
      let b : ltb (dw_cfa_offset + reg) 0x80 ≡ false = ground arith in
      let c : ltb (dw_cfa_offset + reg) 0xc0 ≡ true = ground arith in rw (a, b, c, e) refl

  decode-def_cfa_offset :
      (p : List ℕ) → decode file_kind (dw_cfa_def_cfa_offset ∷ p) ≡ with_uleb def_cfa_offset p
  unfolding decode_insn
  decode-def_cfa_offset p = refl

  decode-def_cfa_register :
      (p : List ℕ) → decode file_kind (dw_cfa_def_cfa_register ∷ p) ≡ with_uleb def_cfa_register p
  unfolding decode_insn
  decode-def_cfa_register p = refl

  -- A command of `write_cfi_op_uleb` says how many bytes follow it, and those are read as `insn`.
  pub record Decodes (opcode operand : ℕ) (insn : DwInsn) : Type 0 where
    pub size :
        get_or (write_cfi_op_uleb opcode operand) 0 0
        ≡ cmd_cfi + length (drop 1 (write_cfi_op_uleb opcode operand))
    pub reads :
        (p : List ℕ)
        → decode file_kind (drop 1 (write_cfi_op_uleb opcode operand) ++ p) ≡ ok (insn, p)

  Decodes-of :
      (opcode operand : ℕ) (insn : ℕ → DwInsn)
      → operand < 2 ^ 21
      → ((p : List ℕ) → decode file_kind (opcode ∷ p) ≡ with_uleb insn p)
      → Decodes opcode operand (insn operand)
  Decodes-of opcode operand insn h opens =
      let parts = write-parts opcode operand in
      record {
        size =
            ap (λ (w : List ℕ). get_or w 0 0) parts
            ∙ sym (ap (λ (w : List ℕ). cmd_cfi + length (drop 1 w)) parts);
        reads = λ p.
            ap (λ (w : List ℕ). decode file_kind (drop 1 w ++ p)) parts
            ∙ opens (operand_bytes operand ++ p)
            ∙ ap (λ (r : Read (ℕ × List ℕ)). r >>= λ x. ok (insn x.0, x.1))
                (read_uleb-IsLeb p (operand-IsLeb operand h) (operand-length operand)
                  (omega arith));
      }

  decode-def_cfa :
      (reg : ℕ) (p : List ℕ)
      → reg < 2 ^ 7
      → decode file_kind (dw_cfa_def_cfa ∷ reg ∷ p) ≡ with_uleb (def_cfa reg) p
  unfolding decode_insn
  decode-def_cfa reg p small =
      ap (λ (r : Read (ℕ × List ℕ)). r >>= λ x. with_uleb (def_cfa x.0) x.1)
        (read_uleb-IsLeb p (last small) (omega arith) (omega arith))

  reads_def_cfa :
      (operand reg : ℕ) (p : List ℕ)
      → operand < 2 ^ 21
      → reg < 2 ^ 7
      → decode file_kind (dw_cfa_def_cfa ∷ (drop 1 (write_cfi_op_uleb reg operand) ++ p))
        ≡ ok (def_cfa reg operand, p)
  reads_def_cfa operand reg p h small =
      ap (λ (w : List ℕ). decode file_kind (dw_cfa_def_cfa ∷ (drop 1 w ++ p)))
        (write-parts reg operand)
      ∙ decode-def_cfa reg (operand_bytes operand ++ p) small
      ∙ ap (λ (r : Read (ℕ × List ℕ)). r >>= λ x. ok (def_cfa reg x.0, x.1))
          (read_uleb-IsLeb p (operand-IsLeb operand h) (operand-length operand) (omega arith))

  -- What the assembler writes with `write_cfi_op_uleb` is read back, for an operand of fewer than 22
  -- bits and a register number of fewer than 7: the commands DW_CFA_offset, DW_CFA_def_cfa_offset and
  -- DW_CFA_def_cfa_register, and the operands of DW_CFA_def_cfa, for which it passes the register in
  -- place of a bytecode. A command says how many bytes follow it.
  pub write_cfi_op_uleb-Decodes :
      (operand reg : ℕ) (p : List ℕ)
      → operand < 2 ^ 21
      → reg < 2 ^ 6
      → Decodes (dw_cfa_offset + reg) operand (offset reg operand)
        × Decodes dw_cfa_def_cfa_offset operand (def_cfa_offset operand)
        × Decodes dw_cfa_def_cfa_register operand (def_cfa_register operand)
        × (decode file_kind (dw_cfa_def_cfa ∷ (drop 1 (write_cfi_op_uleb reg operand) ++ p))
            ≡ ok (def_cfa reg operand, p))
  write_cfi_op_uleb-Decodes operand reg p h small = (
    Decodes-of (dw_cfa_offset + reg) operand (offset reg) h (λ p. decode-offset reg p small),
    Decodes-of dw_cfa_def_cfa_offset operand def_cfa_offset h decode-def_cfa_offset,
    Decodes-of dw_cfa_def_cfa_register operand def_cfa_register h decode-def_cfa_register,
    reads_def_cfa operand reg p h (omega (arith, small)),
  )

-- What an advance by `by` is read as.
abbrev pub advance : ℕ → DwInsn
advance by =
    if leb by 0x3f then advance_loc by else if ltb by 0xff then advance_loc1 by else advance_loc2 by

module _ (file_kind : ℕ) (native : is_bswap file_kind ≡ false) (by : ℕ) (p : List ℕ) where
  advance-six :
      leb by 0x3f ≡ true → decode file_kind (emit_cfi_advance by ++ p) ≡ ok (advance_loc by, p)
  unfolding emit_cfi_advance decode_insn
  advance-six h =
      let e : bit_and (0x40 + by) 0x3f ≡ by = bit_and_mask 6 (0x40 + by) ∙ ground arith in
      let a : ltb (0x40 + by) 0x40 ≡ false = ground arith in
      let b : ltb (0x40 + by) 0x80 ≡ true = ground arith in rw (h, a, b, e) refl

  advance-byte :
      leb by 0x3f ≡ false
      → ltb by 0xff ≡ true
      → decode file_kind (emit_cfi_advance by ++ p) ≡ ok (advance_loc1 by, p)
  unfolding emit_cfi_advance decode_insn
  advance-byte g h = rw (g, h) refl

  advance-half :
      leb by 0x3f ≡ false
      → ltb by 0xff ≡ false
      → ltb by 0xffff ≡ true
      → decode file_kind (emit_cfi_advance by ++ p) ≡ ok (advance_loc2 by, p)
  unfolding emit_cfi_advance decode_insn
  advance-half f g h =
      let e : by % 2 ^ 8 + (by / 2 ^ 8 + 0 * 2 ^ 8) * 2 ^ 8 ≡ by = omega arith in
      rw (f, g, h, native) (ap (λ (n : ℕ). ok (advance_loc2 n, p)) e)

  advance-word :
      leb by 0x3f ≡ false
      → ltb by 0xff ≡ false
      → ltb by 0xffff ≡ false
      → decode file_kind (emit_cfi_advance by ++ p)
        ≡ ok (unknown_bytecode 0x04, drop 1 (emit_cfi_advance by) ++ p)
  unfolding emit_cfi_advance decode_insn
  advance-word f g h = rw (f, g, h) refl

  -- In a file of the machine's byte order, an advance by less than 0xffff is read back. A longer
  -- advance is read as a bytecode that is not known, and its operand as what follows.
  pub emit_cfi_advance-decode : decode file_kind (emit_cfi_advance by ++ p) ≡ (
      if ltb by 0xffff
      then ok (advance by, p)
      else ok (unknown_bytecode 0x04, drop 1 (emit_cfi_advance by) ++ p))
  emit_cfi_advance-decode = elim (Bool-cases (leb by 0x3f)) [
    | inl six ↦ let small : ltb by 0xffff ≡ true = ground arith in rw (small, six) (advance-six six)
    | inr f ↦ elim (Bool-cases (ltb by 0xff)) [
      | inl byte ↦
          let small : ltb by 0xffff ≡ true = ground arith in
          rw (small, f, byte) (advance-byte f byte)
      | inr g ↦ elim (Bool-cases (ltb by 0xffff)) [
        | inl half ↦ rw (half, f, g) (advance-half f g half)
        | inr word ↦ rw word (advance-word f g word)
      ]
    ]
  ]
