-- ===== src/Aarch64.antt =====
-- src/aarch64/assembler.c: the unwind instructions that the assembler writes. A function that writes
-- bytes from `out` on returns the bytes.
pub mod Immediates
pub mod Unwinding
use polyfill_glibc.Base.{
  ℕ, ◌+◌, ◌*◌, ◌/◌, ◌%◌, ◌^◌, List, [], ◌∷◌, bit_and, bit_or, u8, ◌>>>◌, ltb, leb, ◌==◌,
  if◌then◌else◌,
}

-- CMD_CFI, and the bytecodes DW_CFA_*
abbrev pub cmd_cfi : ℕ
cmd_cfi = 0x80

abbrev pub dw_cfa_def_cfa : ℕ
dw_cfa_def_cfa = 0x0c

abbrev pub dw_cfa_def_cfa_register : ℕ
dw_cfa_def_cfa_register = 0x0d

abbrev pub dw_cfa_def_cfa_offset : ℕ
dw_cfa_def_cfa_offset = 0x0e

abbrev pub dw_cfa_offset : ℕ
dw_cfa_offset = 0x80

-- `write_cfi_op_uleb`
unfoldable pub write_cfi_op_uleb : ℕ → ℕ → List ℕ
write_cfi_op_uleb opcode operand =
    if leb operand 0x7f
    then (cmd_cfi + 2) ∷ opcode ∷ u8 operand ∷ []
    else if leb operand 0x3fff
    then (cmd_cfi + 3) ∷ opcode ∷ bit_or (bit_and operand 0x7f) 0x80 ∷ u8 (operand >>> 7) ∷ []
    else (cmd_cfi + 4)
      ∷ opcode
      ∷ bit_or (bit_and operand 0x7f) 0x80
      ∷ bit_or (bit_and (operand >>> 7) 0x7f) 0x80
      ∷ u8 (operand >>> 14)
      ∷ []

-- `emit_cfi_advance`
unfoldable pub emit_cfi_advance : ℕ → List ℕ
emit_cfi_advance by =
    if leb by 0x3f
    then (0x40 + by) ∷ []
    else if ltb by 0xff
    then 0x02 ∷ by ∷ []
    else if ltb by 0xffff
    then 0x03 ∷ by % 2 ^ 8 ∷ by / 2 ^ 8 ∷ []
    else 0x04 ∷ by % 2 ^ 8 ∷ by / 2 ^ 8 % 2 ^ 8 ∷ by / 2 ^ 16 % 2 ^ 8 ∷ by / 2 ^ 24 % 2 ^ 8 ∷ []
