-- ===== src/EhFrame/Entries.antt =====
-- The printer of whole entries ends, whatever the file holds.
use polyfill_glibc.Base.{ℕ, List, [], ◌∷◌, arith, bit_and, leb, ◌==◌, if◌then◌else◌, length}
use polyfill_glibc.EhFrame.Ends.{
  Any, Returns, returns, Returns-bind, Returns-if, Returns-cases, skip-ends, read_byte-ends,
  read_byte-shorter, read_uleb-ends, read_sleb-ends, read_ptr-ends,
}
use polyfill_glibc.EhFrame.Fde.{
  is_eh, behind_eh, Head, Augmented, c_string, read_head, print_dw, read_sizes, read_aligns,
  print_cie, FdeState, augment_fde_char, augment_fde, print_fde_body,
}
use polyfill_glibc.EhFrame.Pointers.{ReadPtrCtx}
use polyfill_glibc.EhFrame.Reading.{skip, read_byte, read_uleb, read_sleb, is_64}
use polyfill_glibc.EhFrame.Walks.{
  print_dw-ends, c_string-ends, read_head-ends, augment-ends, read_sizes-ends,
}

read_aligns-ends :
    (ctx : ReadPtrCtx) (version : ℕ) (aug cie : List ℕ)
    → Returns Any (read_aligns ctx version aug cie)
unfolding read_aligns
read_aligns-ends ctx version aug cie =
    let n : ℕ = if is_eh aug then (if is_64 ctx.file_kind then 8 else 4) else 0 in
    Returns-bind (skip n cie) _ (skip-ends n cie) (λ c₁ h.
      Returns-bind (read_sizes version c₁) _ (read_sizes-ends version c₁) (λ c₂ h.
        Returns-bind (read_uleb c₂.1) _ (read_uleb-ends c₂.1) (λ code h.
          Returns-bind (read_sleb code.1) _ (read_sleb-ends code.1) (λ factor h.
            Returns-bind (if leb version 1 then read_byte factor.1 else read_uleb factor.1) _
              (Returns-if (leb version 1) (read_byte-ends factor.1 (length factor.1) (omega arith))
                (read_uleb-ends factor.1))
              (λ ret h. returns tt)))))

pub print_cie-ends : (ctx : ReadPtrCtx) (p : List ℕ) → Returns Any (print_cie ctx p)
unfolding print_cie
print_cie-ends ctx p = Returns-bind (read_head ctx p) _ (read_head-ends ctx p) (λ head h.
    Returns-bind (read_byte head.body) _ (read_byte-shorter head.body) (λ version h.
      Returns-bind (c_string version.1) _ (c_string-ends version.1) (λ aug h.
        Returns-bind (read_aligns ctx version.0 aug.0 aug.1) _
          (read_aligns-ends ctx version.0 aug.0 aug.1)
          (λ heads h. Returns-bind _ _ (augment-ends ctx (behind_eh aug.0) _) (λ a h.
            Returns-bind (print_dw ctx head.end_ a.cie_dw) _ (print_dw-ends ctx head.end_ a.cie_dw)
              (λ insns h. returns tt))))))

augment_fde_char-ends :
    (ctx : ReadPtrCtx) (lsda_ptr_encoding c : ℕ) (a : FdeState)
    → Returns Any (augment_fde_char ctx lsda_ptr_encoding c a)
unfolding augment_fde_char
augment_fde_char-ends ctx lsda_ptr_encoding c a =
    Returns-if (c == b'z')
      (Returns-bind (read_uleb a.fde) _ (read_uleb-ends a.fde) (λ len h. returns tt))
      (Returns-if (c == b'R') (returns tt) (
        Returns-if (c == b'P') (returns tt) (
          Returns-if (c == b'S') (returns tt) (
            Returns-if (c == b'B') (returns tt) (
              Returns-if (c == b'L')
                (Returns-bind _ _
                  (read_ptr-ends (record ctx { ptr_encoding = lsda_ptr_encoding }) a.fde)
                  (λ r g. returns tt))
                (returns tt))))))

augment_fde-ends :
    (ctx : ReadPtrCtx) (lsda_ptr_encoding : ℕ) (itr : List ℕ) (a : FdeState)
    → Returns Any (augment_fde ctx lsda_ptr_encoding itr a)
unfolding augment_fde
augment_fde-ends ctx lsda_ptr_encoding [] a = returns tt
augment_fde-ends ctx lsda_ptr_encoding (c ∷ itr) a =
    Returns-bind (augment_fde_char ctx lsda_ptr_encoding c a) _
      (augment_fde_char-ends ctx lsda_ptr_encoding c a)
      (λ r h. Returns-cases r.1 (augment_fde-ends ctx lsda_ptr_encoding itr r.0) (returns tt))

pub print_fde_body-ends :
    (ctx : ReadPtrCtx) (aug : List ℕ) (cie : Augmented) (head : Head)
    → Returns Any (print_fde_body ctx aug cie head)
unfolding print_fde_body
print_fde_body-ends ctx aug cie head =
    Returns-bind _ _ (read_ptr-ends (record ctx { ptr_encoding = cie.fde_ptr_encoding }) head.body)
      (λ start h.
        Returns-bind _ _
          (read_ptr-ends (record ctx { ptr_encoding = bit_and cie.fde_ptr_encoding 0xf }) start.1)
          (λ len h.
            Returns-bind _ _ (augment_fde-ends ctx cie.lsda_ptr_encoding (behind_eh aug) _) (λ a h.
              Returns-bind _ _ (print_dw-ends ctx head.end_ a.fde_dw) (λ insns h. returns tt))))
