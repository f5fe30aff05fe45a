-- ===== src/EhFrame/Walks.antt =====
-- The printer ends, whatever the file holds.
use polyfill_glibc.Base.{
  ℕ, zero, suc, ◌+◌, ◌<◌, ◌-◌, true, false, not, ◌&&◌, List, [], ◌∷◌, ◌++◌, arith, bit_and, sub64,
  ltb, leb, ◌==◌, length,
}
use polyfill_glibc.EhFrame.Bytecode.{
  DwInsn, advance_loc1, advance_loc2, def_cfa, offset, undefined_reg, def_cfa_register,
  def_cfa_offset, with_uleb, decode_low, decode_insn, print_dw_bytecode,
}
use polyfill_glibc.EhFrame.Ends.{
  Any, Returns, returns, faults, Returns-bind, Returns-weaken, Returns-if, Returns-cases, Within,
  read_byte-ends, read_byte-shorter, read_uleb-ends, read_int-ends, read_ptr-ends,
}
use polyfill_glibc.EhFrame.Fde.{
  sizes, personality, c_string, read_head, Augmented, augment_char, augment, print_dw, read_sizes,
}
use polyfill_glibc.EhFrame.Pointers.{ReadPtrCtx, address, bytes_at, read_ptr}
use polyfill_glibc.EhFrame.Reading.{ok, ◌>>=◌, read_byte, read_uleb, read_int}

pub with_uleb-ends : (i : ℕ → DwInsn) (bc : List ℕ) → Returns (Within (length bc)) (with_uleb i bc)
with_uleb-ends i bc =
    Returns-bind (read_uleb bc) (λ r. ok (i r.0, r.1)) (read_uleb-ends bc) (λ r h. returns h)

pub decode_low-ends :
    (file_kind b : ℕ) (bc : List ℕ) → Returns (Within (length bc)) (decode_low file_kind b bc)
unfolding decode_low
decode_low-ends file_kind b bc = Returns-if (b == 0x00) (returns (omega arith)) (
    Returns-if (b == 0x02)
      (Returns-bind (read_byte bc) (λ r. ok (advance_loc1 r.0, r.1))
        (read_byte-ends bc (length bc) (omega arith)) (λ r h. returns h))
      (Returns-if (b == 0x03)
        (Returns-bind (read_int file_kind 2 bc) (λ r. ok (advance_loc2 r.0, r.1))
          (read_int-ends file_kind 2 bc) (λ r h. returns h))
        (Returns-if (b == 0x07) (with_uleb-ends undefined_reg bc) (
          Returns-if (b == 0x0a) (returns (omega arith)) (
            Returns-if (b == 0x0b) (returns (omega arith)) (
              Returns-if (b == 0x0c)
                (Returns-bind (read_uleb bc) (λ r. with_uleb (def_cfa r.0) r.1) (read_uleb-ends bc)
                  (λ r h.
                    Returns-weaken (with_uleb (def_cfa r.0) r.1) (with_uleb-ends (def_cfa r.0) r.1)
                      (λ q g. omega (arith, h, g))))
                (Returns-if (b == 0x0d) (with_uleb-ends def_cfa_register bc) (
                  Returns-if (b == 0x0e) (with_uleb-ends def_cfa_offset bc)
                    (Returns-if (b == 0x2d) (returns (omega arith)) (returns (omega arith)))))))))))

pub decode_insn-ends :
    (file_kind b : ℕ) (bc : List ℕ) → Returns (Within (length bc)) (decode_insn file_kind b bc)
unfolding decode_insn
decode_insn-ends file_kind b bc = Returns-if (ltb b 0x40) (decode_low-ends file_kind b bc) (
    Returns-if (ltb b 0x80) (returns (omega arith)) (
      Returns-if (ltb b 0xc0) (with_uleb-ends (offset (bit_and b 0x3f)) bc)
        (returns (omega arith))))

-- `print_dw_bytecode` ends: a round for each byte that is left, and one more, are enough.
pub print_dw_bytecode-ends :
    (fuel : ℕ) (ctx : ReadPtrCtx) (end_ : ℕ) (bc : List ℕ)
    → length bc < fuel
    → Returns Any (print_dw_bytecode fuel ctx end_ bc)
unfolding print_dw_bytecode
print_dw_bytecode-ends zero ctx end_ bc h = absurd (omega (arith, h))
print_dw_bytecode-ends (suc fuel) ctx end_ bc h =
    Returns-cases (ltb (address ctx bc) end_)
      (Returns-bind (read_byte bc)
        (λ r. decode_insn ctx.file_kind r.0 r.1 >>= λ insn.
          print_dw_bytecode fuel ctx end_ insn.1 >>= λ rest. ok (insn.0 ∷ rest))
        (read_byte-shorter bc)
        (λ r f.
          Returns-bind (decode_insn ctx.file_kind r.0 r.1)
            (λ insn. print_dw_bytecode fuel ctx end_ insn.1 >>= λ rest. ok (insn.0 ∷ rest))
            (decode_insn-ends ctx.file_kind r.0 r.1)
            (λ insn g.
              Returns-bind (print_dw_bytecode fuel ctx end_ insn.1) (λ rest. ok (insn.0 ∷ rest))
                (print_dw_bytecode-ends fuel ctx end_ insn.1 (omega (arith, f, g, h)))
                (λ rest a. returns tt))))
      (returns tt)

bytes_at-ends : (ctx : ReadPtrCtx) (a : ℕ) → Returns Any (bytes_at ctx a)
bytes_at-ends ctx a =
    Returns-if (leb a ctx.limit && leb (ctx.limit - a) (length ctx.f)) (returns tt) faults

pub print_dw-ends : (ctx : ReadPtrCtx) (end_ dw : ℕ) → Returns Any (print_dw ctx end_ dw)
unfolding print_dw
print_dw-ends ctx end_ dw =
    Returns-if (not (dw == 0) && ltb dw end_)
      (Returns-bind (bytes_at ctx dw) _ (bytes_at-ends ctx dw) (λ bc h.
        Returns-bind (print_dw_bytecode (suc (length bc)) ctx end_ bc) _
          (print_dw_bytecode-ends (suc (length bc)) ctx end_ bc (omega arith))
          (λ is a. returns tt)))
      (returns tt)

pub c_string-ends : (p : List ℕ) → Returns Any (c_string p)
unfolding c_string
c_string-ends [] = faults
c_string-ends (c ∷ p) =
    Returns-cases (c == 0) (returns tt)
      (Returns-bind (c_string p) (λ r. ok (c ∷ r.0, r.1)) (c_string-ends p) (λ r a. returns tt))

pub read_head-ends : (ctx : ReadPtrCtx) (p : List ℕ) → Returns Any (read_head ctx p)
unfolding read_head
read_head-ends ctx p =
    Returns-bind (read_int ctx.file_kind 4 p)
      (λ l. read_int ctx.file_kind 4 l.1 >>= λ o.
        ok (record { off = o.0; end_ = sub64 (address ctx o.1 + l.0) 4; body = o.1 }))
      (read_int-ends ctx.file_kind 4 p)
      (λ l a.
        Returns-bind (read_int ctx.file_kind 4 l.1)
          (λ o. ok (record { off = o.0; end_ = sub64 (address ctx o.1 + l.0) 4; body = o.1 }))
          (read_int-ends ctx.file_kind 4 l.1) (λ o b. returns tt))

augment_char-ends : (ctx : ReadPtrCtx) (c : ℕ) (a : Augmented) → Returns Any (augment_char ctx c a)
unfolding augment_char
augment_char-ends ctx c a =
    let bytes = read_byte-shorter a.cie in
    Returns-if (c == b'z')
      (Returns-bind (read_uleb a.cie) _ (read_uleb-ends a.cie) (λ len h. returns tt))
      (Returns-if (c == b'R')
        (Returns-bind (read_byte a.cie)
          (λ e. ok (record a { cie = e.1; fde_ptr_encoding = e.0 }, true)) bytes
          (λ e h. returns tt))
        (Returns-if (c == b'P')
          (Returns-bind (read_byte a.cie)
            (λ e. read_ptr (record ctx { ptr_encoding = e.0 }) e.1 >>= λ r.
              ok (record a { cie = r.1; lines = a.lines ++ (personality r.0 ∷ []) }, true))
            bytes
            (λ e h.
              Returns-bind (read_ptr (record ctx { ptr_encoding = e.0 }) e.1)
                (λ r. ok (record a { cie = r.1; lines = a.lines ++ (personality r.0 ∷ []) }, true))
                (read_ptr-ends (record ctx { ptr_encoding = e.0 }) e.1) (λ r g. returns tt)))
          (Returns-if (c == b'L')
            (Returns-bind (read_byte a.cie)
              (λ e. ok (record a { cie = e.1; lsda_ptr_encoding = e.0 }, true)) bytes
              (λ e h. returns tt))
            (Returns-if (c == b'S') (returns tt)
              (Returns-if (c == b'B') (returns tt) (returns tt))))))

pub augment-ends :
    (ctx : ReadPtrCtx) (itr : List ℕ) (a : Augmented) → Returns Any (augment ctx itr a)
unfolding augment
augment-ends ctx [] a = returns tt
augment-ends ctx (c ∷ itr) a =
    Returns-bind (augment_char ctx c a)
      (λ r. elim r.1 [ true ↦ augment ctx itr r.0 | false ↦ ok r.0 ]) (augment_char-ends ctx c a)
      (λ r h. Returns-cases r.1 (augment-ends ctx itr r.0) (returns tt))

pub read_sizes-ends : (version : ℕ) (cie : List ℕ) → Returns Any (read_sizes version cie)
unfolding read_sizes
read_sizes-ends version cie =
    Returns-if (leb 4 version)
      (Returns-bind (read_byte cie) (λ a. read_byte a.1 >>= λ s. ok (sizes a.0 s.0 ∷ [], s.1))
        (read_byte-shorter cie)
        (λ a h.
          Returns-bind (read_byte a.1) (λ s. ok (sizes a.0 s.0 ∷ [], s.1)) (read_byte-shorter a.1)
            (λ s g. returns tt)))
      (returns tt)
