-- ===== src/EhFrame/Bytecode.antt =====
-- `print_dw_bytecode`: the instructions of an unwind table.
use polyfill_glibc.Base.{
  ℕ, zero, suc, true, false, List, [], ◌∷◌, bit_and, ltb, ◌==◌, if◌then◌else◌,
}
use polyfill_glibc.EhFrame.Reading.{Read, ok, stuck, ◌>>=◌, read_byte, read_uleb, read_int}
use polyfill_glibc.EhFrame.Pointers.{ReadPtrCtx, address}

-- A line that is printed for an instruction, with the numbers in it.
pub data DwInsn : Type 0 where
  nop remember_state restore_state gnu_window_save : DwInsn
  advance_loc advance_loc1 advance_loc2 : ℕ → DwInsn
  undefined_reg restore def_cfa_register def_cfa_offset unknown_bytecode : ℕ → DwInsn
  def_cfa offset : ℕ → ℕ → DwInsn

abbrev pub with_uleb : (ℕ → DwInsn) → List ℕ → Read (DwInsn × List ℕ)
with_uleb insn bc = read_uleb bc >>= λ r. ok (insn r.0, r.1)

-- `if (b < 0x40)`
unfoldable pub decode_low : ℕ → ℕ → List ℕ → Read (DwInsn × List ℕ)
unfolding read_uleb read_int
decode_low file_kind b bc =
    if b == 0x00
    then ok (nop, bc)
    else if b == 0x02
    then (read_byte bc >>= λ r. ok (advance_loc1 r.0, r.1))
    else if b == 0x03
    then (read_int file_kind 2 bc >>= λ r. ok (advance_loc2 r.0, r.1))
    else if b == 0x07
    then with_uleb undefined_reg bc
    else if b == 0x0a
    then ok (remember_state, bc)
    else if b == 0x0b
    then ok (restore_state, bc)
    else if b == 0x0c
    then (read_uleb bc >>= λ r. with_uleb (def_cfa r.0) r.1)
    else if b == 0x0d
    then with_uleb def_cfa_register bc
    else if b == 0x0e
    then with_uleb def_cfa_offset bc
    else if b == 0x2d
    then ok (gnu_window_save, bc)
    else ok (unknown_bytecode b, bc)

-- The body of the loop, behind `uint8_t b = *bc++;`
unfoldable pub decode_insn : ℕ → ℕ → List ℕ → Read (DwInsn × List ℕ)
unfolding decode_low
decode_insn file_kind b bc =
    if ltb b 0x40
    then decode_low file_kind b bc
    else if ltb b 0x80
    then ok (advance_loc (bit_and b 0x3f), bc)
    else if ltb b 0xc0
    then with_uleb (offset (bit_and b 0x3f)) bc
    else ok (restore (bit_and b 0x3f), bc)

-- `print_dw_bytecode`. `end_` is an address.
unfoldable pub print_dw_bytecode : ℕ → ReadPtrCtx → ℕ → List ℕ → Read (List DwInsn)
unfolding decode_insn
print_dw_bytecode zero ctx end_ bc = if ltb (address ctx bc) end_ then stuck else ok []
print_dw_bytecode (suc fuel) ctx end_ bc = elim (ltb (address ctx bc) end_) [
  | false ↦ ok []
  | true ↦ read_byte bc >>= λ r. decode_insn ctx.file_kind r.0 r.1 >>= λ insn.
      print_dw_bytecode fuel ctx end_ insn.1 >>= λ rest. ok (insn.0 ∷ rest)
]
