-- ===== src/Tests/Aarch64.antt =====
-- src/aarch64/assembler.c at concrete inputs.
use polyfill_glibc.Base.{
  ◌-◌, ◌^◌, some, none, ◌+◌, ◌≡◌, refl, arith, [], ◌∷◌, ◌++◌, ltb, if◌then◌else◌, drop,
}
use polyfill_glibc.Aarch64.Immediates.{
  k12, add_sub_operand, has_twelve_bits, is_negative, magnitude, k12-add_sub_operand,
}
use polyfill_glibc.Aarch64.Unwinding.{
  Decodes, decode, advance, write_cfi_op_uleb-Decodes, emit_cfi_advance-decode,
}
use polyfill_glibc.Aarch64.{
  dw_cfa_offset, dw_cfa_def_cfa, dw_cfa_def_cfa_offset, dw_cfa_def_cfa_register, write_cfi_op_uleb,
  emit_cfi_advance,
}
use polyfill_glibc.EhFrame.Bytecode.{
  offset, def_cfa, def_cfa_offset, def_cfa_register, unknown_bytecode,
}
use polyfill_glibc.EhFrame.Reading.{ok}

two_bytes : write_cfi_op_uleb dw_cfa_def_cfa_offset 300 ≡ 0x83 ∷ 0x0e ∷ 0xac ∷ 2 ∷ []
unfolding write_cfi_op_uleb
two_bytes = refl

write_cfi_op_uleb-Decodes_example :
    Decodes 2 (dw_cfa_offset + 29) 300 (offset 29 300)
    × Decodes 2 dw_cfa_def_cfa_offset 300 (def_cfa_offset 300)
    × Decodes 2 dw_cfa_def_cfa_register 300 (def_cfa_register 300)
    × (decode 2 (dw_cfa_def_cfa ∷ (drop 1 (write_cfi_op_uleb 29 300) ++ (9 ∷ [])))
        ≡ ok (def_cfa 29 300, 9 ∷ []))
write_cfi_op_uleb-Decodes_example =
    write_cfi_op_uleb-Decodes 2 300 29 (9 ∷ []) (omega arith) (omega arith)

emit_cfi_advance-decode_example : decode 2 (emit_cfi_advance 100 ++ (9 ∷ [])) ≡ (
    if ltb 100 0xffff
    then ok (advance 100, 9 ∷ [])
    else ok (unknown_bytecode 0x04, drop 1 (emit_cfi_advance 100) ++ (9 ∷ [])))
emit_cfi_advance-decode_example = emit_cfi_advance-decode 2 refl 100 (9 ∷ [])

minus_five : k12 (2 ^ 64 - 5) ≡ 0x5a001400
unfolding k12
minus_five = refl

too_wide : k12 4097 ≡ 0
unfolding k12
too_wide = refl

k12-add_sub_operand_example : add_sub_operand (k12 0x5000) ≡ (
    if has_twelve_bits (magnitude 0x5000)
    then some (is_negative 0x5000, magnitude 0x5000)
    else none)
k12-add_sub_operand_example = k12-add_sub_operand 0x5000
