-- ===== src/EhFrame/Tables.antt =====
-- The printer of the sorted table ends, and leaves the map of addresses as it has to be.
use polyfill_glibc.Base.{
  ℕ, zero, suc, ◌+◌, ◌^◌, ◌<◌, Bool, true, false, Option, none, some, List, sym, arith, bit_and,
  u32, u64, sub64, ◌==◌, if◌then◌else◌,
}
use polyfill_glibc.EhFrame.Ends.{
  Any, Returns, returns, faults, Returns-bind, Returns-if, Returns-option, skip-ends,
  read_byte-shorter, read_int-ends,
}
use polyfill_glibc.EhFrame.Entries.{print_cie-ends, print_fde_body-ends}
use polyfill_glibc.EhFrame.Fde.{
  erw_view_v, read_head, cie_address, not_null, print_fde_at, print_fde,
}
use polyfill_glibc.EhFrame.Header.{table_address, print_table, print_hdr, print_eh_frame_hdr_at}
use polyfill_glibc.EhFrame.Pointers.{ReadPtrCtx, sign_extend}
use polyfill_glibc.EhFrame.Reading.{ok, stuck, ◌>>=◌, skip, read_byte, read_int, is_64}
use polyfill_glibc.EhFrame.Walks.{read_head-ends}
use polyfill_glibc.V2f.{V2fMap, entry, v2f_special}
use polyfill_glibc.V2f.Looking.{lookup-Found}
use polyfill_glibc.V2f.Valid.{IsValid}
use mathlib.Core.Path.{subst}

-- The map that a reader leaves is as it has to be.
abbrev pub KeepsMap {ℓ} : {A : Type ℓ} → A × V2fMap → Type 0
KeepsMap r = IsValid r.1

found-ends :
    (f : List ℕ) (v : ℕ) (r : ℕ × V2fMap)
    → IsValid r.1
    → Returns KeepsMap (
        let v2f = (entry r.1.entries r.0).v2f in
        if bit_and v2f v2f_special == 0
        then (skip (u64 (v + v2f)) f >>= λ p. ok (some p, r.1))
        else ok (none, r.1))
found-ends f v r valid =
    let v2f = (entry r.1.entries r.0).v2f in
    Returns-if (bit_and v2f v2f_special == 0)
      (Returns-bind (skip (u64 (v + v2f)) f) _ (skip-ends (u64 (v + v2f)) f) (λ p h. returns valid))
      (returns valid)

erw_view_v-ends :
    (f : List ℕ) (m : V2fMap) (v : ℕ) → IsValid m → v < 2 ^ 64 → Returns KeepsMap (erw_view_v f m v)
unfolding erw_view_v
erw_view_v-ends f m v valid v-lt =
    let (i, m', run, found) = lookup-Found m v valid v-lt in
    subst
      (λ (l : Option (ℕ × V2fMap)). Returns KeepsMap (elim l [
        | none ↦ stuck
        | some r ↦
            let v2f = (entry r.1.entries r.0).v2f in
            if bit_and v2f v2f_special == 0
            then (skip (u64 (v + v2f)) f >>= λ p. ok (some p, r.1))
            else ok (none, r.1)
      ]))
      (sym run) (found-ends f v (i, m') found.valid)

narrow : (b : Bool) (a : ℕ) → a < 2 ^ 64 → (if b then a else u32 a) < 2 ^ 64
narrow true a h = h
narrow false a h = omega arith

cie_address_fits : (ctx : ReadPtrCtx) (vaddr off : ℕ) → cie_address ctx vaddr off < 2 ^ 64
cie_address_fits ctx vaddr off =
    narrow (is_64 ctx.file_kind) (sub64 (u64 (vaddr + 4)) (sign_extend 4 off)) (omega arith)

table_address_fits : (kind vaddr off : ℕ) → table_address kind vaddr off < 2 ^ 64
table_address_fits kind vaddr off =
    narrow (is_64 kind) (u64 (vaddr + sign_extend 4 off)) (omega arith)

not_null-ends : (p : Option (List ℕ)) → Returns Any (not_null p)
not_null-ends none = faults
not_null-ends (some p) = returns tt

print_fde_at-ends :
    (f : List ℕ) (ctx : ReadPtrCtx) (m : V2fMap) (vaddr : ℕ) (p : List ℕ)
    → IsValid m
    → Returns KeepsMap (print_fde_at f ctx m vaddr p)
unfolding print_fde_at
print_fde_at-ends f ctx m vaddr p valid =
    Returns-bind (read_head ctx p) _ (read_head-ends ctx p) (λ fde h.
      Returns-bind _ _
        (erw_view_v-ends f m (cie_address ctx vaddr fde.off) valid
          (cie_address_fits ctx vaddr fde.off))
        (λ view kept. Returns-bind (not_null view.0) _ (not_null-ends view.0) (λ cie h.
          Returns-bind _ _ (print_cie-ends _ cie) (λ c h.
            Returns-bind _ _ (print_fde_body-ends _ c.0 c.1 fde) (λ lines h. returns kept)))))

print_fde-ends :
    (f : List ℕ) (ctx : ReadPtrCtx) (m : V2fMap) (vaddr : ℕ)
    → IsValid m
    → vaddr < 2 ^ 64
    → Returns KeepsMap (print_fde f ctx m vaddr)
unfolding print_fde
print_fde-ends f ctx m vaddr valid h =
    Returns-bind (erw_view_v f m vaddr) _ (erw_view_v-ends f m vaddr valid h) (λ view kept.
      Returns-option view.0 (returns kept) (λ p. print_fde_at-ends f ctx view.1 vaddr p kept))

print_table-ends :
    (f : List ℕ) (ctx : ReadPtrCtx) (vaddr n : ℕ) (m : V2fMap) (p : List ℕ)
    → IsValid m
    → Returns KeepsMap (print_table f ctx vaddr n m p)
unfolding print_table
print_table-ends f ctx vaddr zero m p valid = returns valid
print_table-ends f ctx vaddr (suc n) m p valid =
    Returns-bind (read_int ctx.file_kind 4 p) _ (read_int-ends ctx.file_kind 4 p) (λ start h.
      Returns-bind (read_int ctx.file_kind 4 start.1) _ (read_int-ends ctx.file_kind 4 start.1)
        (λ off h.
          Returns-bind _ _
            (print_fde-ends f (record ctx { funcrel = table_address ctx.file_kind vaddr start.0 }) m
              (table_address ctx.file_kind vaddr off.0) valid
              (table_address_fits ctx.file_kind vaddr off.0))
            (λ fde kept.
              Returns-bind _ _ (print_table-ends f ctx vaddr n fde.1 off.1 kept)
                (λ rest kept. returns kept))))

print_hdr-ends :
    (f : List ℕ) (file_kind limit vaddr : ℕ) (m : V2fMap) (p : List ℕ)
    → IsValid m
    → Returns KeepsMap (print_hdr f file_kind limit vaddr m p)
unfolding print_hdr
print_hdr-ends f file_kind limit vaddr m p valid =
    Returns-bind (read_byte p) _ (read_byte-shorter p) (λ version h.
      Returns-bind (read_byte version.1) _ (read_byte-shorter version.1) (λ ptr_enc h.
        Returns-bind (read_byte ptr_enc.1) _ (read_byte-shorter ptr_enc.1) (λ count_enc h.
          Returns-bind (read_byte count_enc.1) _ (read_byte-shorter count_enc.1) (λ table_enc h.
            Returns-if _ (returns valid) (
              Returns-bind (read_int file_kind 4 table_enc.1) _
                (read_int-ends file_kind 4 table_enc.1)
                (λ ptr h.
                  Returns-bind (read_int file_kind 4 ptr.1) _ (read_int-ends file_kind 4 ptr.1)
                    (λ count h.
                      Returns-bind _ _
                        (print_table-ends f
                          (record {
                            file_kind = file_kind;
                            ptr_encoding = 0;
                            ref_p = 0;
                            ref_v = 0;
                            textrel = 0;
                            datarel = 0;
                            funcrel = 0;
                            f = f;
                            limit = limit;
                          })
                          vaddr count.0 m count.1 valid)
                        (λ rest kept. returns kept))))))))

-- `print_eh_frame_hdr_at` ends for any bytes of a file, when the map of the addresses is valid and the
-- address is below 2 ^ 64. It ends in one of four ways: it prints its lines and leaves a valid map, it
-- reads outside the file, it shifts by 64 bits or more in a LEB128 number of more than ten bytes, or it
-- meets a fatal error. The fuel of the loop over bytecodes never runs out.
pub print_eh_frame_hdr_at-ends :
    (f : List ℕ) (file_kind limit : ℕ) (m : V2fMap) (vaddr : ℕ)
    → IsValid m
    → vaddr < 2 ^ 64
    → Returns KeepsMap (print_eh_frame_hdr_at f file_kind limit m vaddr)
unfolding print_eh_frame_hdr_at
print_eh_frame_hdr_at-ends f file_kind limit m vaddr valid h =
    Returns-bind (erw_view_v f m vaddr) _ (erw_view_v-ends f m vaddr valid h) (λ view kept.
      Returns-option view.0 (returns kept)
        (λ p. print_hdr-ends f file_kind limit vaddr view.1 p kept))
