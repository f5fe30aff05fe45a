-- ===== src/EhFrame/Fde.antt =====
-- `print_fde`: an entry of the table, with the common entry that it points to.
use polyfill_glibc.Base.{
  ℕ, suc, ◌+◌, Bool, true, false, not, ◌&&◌, Option, none, some, List, [], ◌∷◌, ◌++◌, map, bit_and,
  u32, u64, sub64, leb, ltb, ◌==◌, if◌then◌else◌, length, drop,
}
use polyfill_glibc.EhFrame.Bytecode.{DwInsn, print_dw_bytecode}
use polyfill_glibc.EhFrame.Pointers.{ReadPtrCtx, address, bytes_at, sign_extend, read_ptr}
use polyfill_glibc.EhFrame.Reading.{
  Read, ok, fault, stuck, ◌>>=◌, skip, read_byte, read_uleb, read_sleb, read_int, is_64,
}
use polyfill_glibc.V2f.{V2fMap, entry, v2f_special, lookup}

-- A line that is printed, with the values in it.
pub data Line : Type 0 where
  no_header no_fde : ℕ → Line
  bad_header : ℕ → ℕ → ℕ → ℕ → Line
  num_fdes : ℕ → Line
  fde_at : ℕ → ℕ → Line
  cie_at nonzero_field : ℕ → Line
  cie_version : ℕ → List ℕ → Line
  sizes : ℕ → ℕ → Line
  aligns : ℕ → ℕ → ℕ → Line
  personality unknown_augmentation lsda : ℕ → Line
  function_range : ℕ → ℕ → Line
  insn : DwInsn → Line

-- `erw_view_v` of src/erw.c, on `erw->v2f` and the bytes of `erw->f`. `none` is NULL.
unfoldable pub erw_view_v : List ℕ → V2fMap → ℕ → Read (Option (List ℕ) × V2fMap)
unfolding lookup
erw_view_v f m v = elim (lookup m v) [
  | none ↦ stuck
  | some r ↦
      let v2f = (entry r.1.entries r.0).v2f in
      if bit_and v2f v2f_special == 0
      then (skip (u64 (v + v2f)) f >>= λ p. ok (some p, r.1))
      else ok (none, r.1)
]

-- A string in the file, and what follows the zero at its end.
unfoldable pub c_string : List ℕ → Read (List ℕ × List ℕ)
c_string [] = fault
c_string (c ∷ p) = elim (c == 0) [
  | true ↦ ok ([], p)
  | false ↦ c_string p >>= λ r. ok (c ∷ r.0, r.1)
]

abbrev pub is_eh : List ℕ → Bool
is_eh [] = false
is_eh (c ∷ []) = false
is_eh (c ∷ d ∷ str) = if c == b'e' then d == b'h' else false

-- `if (itr[0] == 'e' && itr[1] == 'h') itr += 2;`
abbrev pub behind_eh : List ℕ → List ℕ
behind_eh str = if is_eh str then drop 2 str else str

-- A length and an offset, and the address that the length ends at.
pub record Head : Type 0 where
  pub off : ℕ
  pub end_ : ℕ
  pub body : List ℕ

unfoldable pub read_head : ReadPtrCtx → List ℕ → Read Head
read_head ctx p = read_int ctx.file_kind 4 p >>= λ l. read_int ctx.file_kind 4 l.1 >>= λ o.
    ok (record { off = o.0; end_ = sub64 (address ctx o.1 + l.0) 4; body = o.1 })

-- What the loop over the augmentation string of the CIE leaves. `cie_dw` is an address, for it is
-- compared before it is read, and may be NULL, which is 0.
pub record Augmented : Type 0 where
  pub cie : List ℕ
  pub cie_dw : ℕ
  pub fde_ptr_encoding : ℕ
  pub lsda_ptr_encoding : ℕ
  pub lines : List Line

-- The `switch` on a character that is not the zero, and whether the loop goes on.
unfoldable pub augment_char : ReadPtrCtx → ℕ → Augmented → Read (Augmented × Bool)
augment_char ctx c a =
    if c == b'z'
    then (read_uleb a.cie >>= λ len.
        ok (record a { cie = len.1; cie_dw = u64 (address ctx len.1 + len.0) }, true))
    else if c == b'R'
    then (read_byte a.cie >>= λ e. ok (record a { cie = e.1; fde_ptr_encoding = e.0 }, true))
    else if c == b'P'
    then (read_byte a.cie >>= λ e. read_ptr (record ctx { ptr_encoding = e.0 }) e.1 >>= λ r.
        ok (record a { cie = r.1; lines = a.lines ++ (personality r.0 ∷ []) }, true))
    else if c == b'L'
    then (read_byte a.cie >>= λ e. ok (record a { cie = e.1; lsda_ptr_encoding = e.0 }, true))
    else if c == b'S'
    then ok (a, true)
    else if c == b'B'
    then ok (a, true)
    else ok (record a { lines = a.lines ++ (unknown_augmentation c ∷ []) }, false)

unfoldable pub augment : ReadPtrCtx → List ℕ → Augmented → Read Augmented
unfolding augment_char
augment ctx [] a = ok (record a { cie_dw = address ctx a.cie })
augment ctx (c ∷ itr) a =
    augment_char ctx c a >>= λ r. elim r.1 [ true ↦ augment ctx itr r.0 | false ↦ ok r.0 ]

-- `if (dw && dw < end) print_dw_bytecode(erw, dw, end, ctx);`
unfoldable pub print_dw : ReadPtrCtx → ℕ → ℕ → Read (List Line)
unfolding print_dw_bytecode
print_dw ctx end_ dw =
    if not (dw == 0) && ltb dw end_
    then (bytes_at ctx dw >>= λ bc.
        print_dw_bytecode (suc (length bc)) ctx end_ bc >>= λ is. ok (map insn is))
    else ok []

-- `if (cie_version >= 4)`
unfoldable pub read_sizes : ℕ → List ℕ → Read (List Line × List ℕ)
read_sizes version cie =
    if leb 4 version
    then (read_byte cie >>= λ a. read_byte a.1 >>= λ s. ok (sizes a.0 s.0 ∷ [], s.1))
    else ok ([], cie)

-- What stands in the CIE before its augmented part, from its version on.
unfoldable pub read_aligns : ReadPtrCtx → ℕ → List ℕ → List ℕ → Read (List Line × List ℕ)
unfolding read_sizes read_uleb read_sleb
read_aligns ctx version aug cie =
    skip (if is_eh aug then (if is_64 ctx.file_kind then 8 else 4) else 0) cie >>= λ c₁.
    read_sizes version c₁ >>= λ c₂. read_uleb c₂.1 >>= λ code. read_sleb code.1 >>= λ factor.
    (if leb version 1 then read_byte factor.1 else read_uleb factor.1) >>= λ ret.
    ok (c₂.0 ++ (aligns code.0 factor.0 ret.0 ∷ []), ret.1)

-- The part of `print_fde` that prints the CIE. It also has the augmentation string, and the
-- encodings that the string gives.
unfoldable pub print_cie : ReadPtrCtx → List ℕ → Read (List ℕ × Augmented)
unfolding read_head c_string augment print_dw read_aligns
print_cie ctx p = read_head ctx p >>= λ head. read_byte head.body >>= λ version.
    c_string version.1 >>= λ aug. read_aligns ctx version.0 aug.0 aug.1 >>= λ heads.
    augment ctx (behind_eh aug.0) (record {
      cie = heads.1;
      cie_dw = 0;
      fde_ptr_encoding = 0;
      lsda_ptr_encoding = 0;
      lines =
          (if head.off == 0 then [] else nonzero_field head.off ∷ [])
          ++ (cie_version version.0 aug.0 ∷ heads.0);
    })
    >>= λ a. print_dw ctx head.end_ a.cie_dw >>= λ insns.
        ok (aug.0, record a { lines = a.lines ++ insns })

-- What the loop over the augmentation string of the FDE keeps, with `fde_dw` as `cie_dw`.
pub record FdeState : Type 0 where
  pub fde : List ℕ
  pub fde_dw : ℕ
  pub lines : List Line

unfoldable pub augment_fde_char : ReadPtrCtx → ℕ → ℕ → FdeState → Read (FdeState × Bool)
unfolding read_uleb read_ptr
augment_fde_char ctx lsda_ptr_encoding c a =
    if c == b'z'
    then (read_uleb a.fde >>= λ len.
        ok (record a { fde = len.1; fde_dw = u64 (address ctx len.1 + len.0) }, true))
    else if c == b'R'
    then ok (a, true)
    else if c == b'P'
    then ok (a, true)
    else if c == b'S'
    then ok (a, true)
    else if c == b'B'
    then ok (a, true)
    else if c == b'L'
    then (read_ptr (record ctx { ptr_encoding = lsda_ptr_encoding }) a.fde >>= λ r.
        ok (record a { fde = r.1; lines = a.lines ++ (lsda r.0 ∷ []) }, true))
    else ok (record a { lines = a.lines ++ (unknown_augmentation c ∷ []) }, false)

unfoldable pub augment_fde : ReadPtrCtx → ℕ → List ℕ → FdeState → Read FdeState
unfolding augment_fde_char
augment_fde ctx lsda_ptr_encoding [] a = ok (record a { fde_dw = address ctx a.fde })
augment_fde ctx lsda_ptr_encoding (c ∷ itr) a = augment_fde_char ctx lsda_ptr_encoding c a >>= λ r.
    elim r.1 [ true ↦ augment_fde ctx lsda_ptr_encoding itr r.0 | false ↦ ok r.0 ]

-- The part of `print_fde` behind the CIE.
unfoldable pub print_fde_body : ReadPtrCtx → List ℕ → Augmented → Head → Read (List Line)
unfolding read_ptr augment_fde print_dw
print_fde_body ctx aug cie head =
    read_ptr (record ctx { ptr_encoding = cie.fde_ptr_encoding }) head.body >>= λ start.
    read_ptr (record ctx { ptr_encoding = bit_and cie.fde_ptr_encoding 0xf }) start.1 >>= λ len.
    augment_fde ctx cie.lsda_ptr_encoding (behind_eh aug) (record {
      fde = len.1;
      fde_dw = 0;
      lines = function_range start.0 (u64 (start.0 + len.0)) ∷ [];
    })
    >>= λ a. print_dw ctx head.end_ a.fde_dw >>= λ insns. ok (a.lines ++ insns)

-- The address of the CIE that an FDE points to.
abbrev pub cie_address : ReadPtrCtx → ℕ → ℕ → ℕ
cie_address ctx vaddr off =
    let a = sub64 (u64 (vaddr + 4)) (sign_extend 4 off) in if is_64 ctx.file_kind then a else u32 a

-- `*p` of a pointer that may be NULL
abbrev pub not_null : Option (List ℕ) → Read (List ℕ)
not_null none = fault
not_null (some p) = ok p

-- `print_fde`, behind `erw_view_v` of the FDE.
unfoldable pub print_fde_at : List ℕ → ReadPtrCtx → V2fMap → ℕ → List ℕ → Read (List Line × V2fMap)
unfolding erw_view_v read_head print_cie print_fde_body
print_fde_at f ctx m vaddr p = read_head ctx p >>= λ fde.
    erw_view_v f m (cie_address ctx vaddr fde.off) >>= λ view. not_null view.0 >>= λ cie.
    print_cie (record ctx { ref_v = cie_address ctx vaddr fde.off; ref_p = address ctx cie }) cie
    >>= λ c.
        print_fde_body (record ctx { ref_v = u64 (vaddr + 8); ref_p = address ctx fde.body }) c.0
          c.1 fde
        >>= λ lines. ok (cie_at (cie_address ctx vaddr fde.off) ∷ (c.1.lines ++ lines), view.1)

-- `print_fde`
unfoldable pub print_fde : List ℕ → ReadPtrCtx → V2fMap → ℕ → Read (List Line × V2fMap)
unfolding print_fde_at
print_fde f ctx m vaddr = erw_view_v f m vaddr >>= λ view. elim view.0 [
  | none ↦ ok (no_fde vaddr ∷ [], view.1)
  | some p ↦ print_fde_at f ctx view.1 vaddr p
]
