-- ===== src/EhFrame/Header.antt =====
-- `print_eh_frame_hdr_at`: the sorted table of the entries.
use polyfill_glibc.Base.{
  ℕ, zero, suc, ◌+◌, ◌||◌, not, none, some, List, [], ◌∷◌, ◌++◌, u32, u64, ◌==◌, if◌then◌else◌,
}
use polyfill_glibc.EhFrame.Fde.{
  Line, no_header, bad_header, num_fdes, fde_at, erw_view_v, print_fde,
}
use polyfill_glibc.EhFrame.Pointers.{ReadPtrCtx, sign_extend}
use polyfill_glibc.EhFrame.Reading.{Read, ok, ◌>>=◌, read_byte, read_int, is_64}
use polyfill_glibc.V2f.{V2fMap}

-- An address of the table, which is relative to the header.
abbrev pub table_address : ℕ → ℕ → ℕ → ℕ
table_address file_kind vaddr off =
    let a = u64 (vaddr + sign_extend 4 off) in if is_64 file_kind then a else u32 a

-- The loop over the `n` entries of the table from `p` on.
unfoldable pub print_table :
    List ℕ → ReadPtrCtx → ℕ → ℕ → V2fMap → List ℕ → Read (List Line × V2fMap)
unfolding read_int print_fde
print_table f ctx vaddr zero m p = ok ([], m)
print_table f ctx vaddr (suc n) m p = read_int ctx.file_kind 4 p >>= λ start.
    read_int ctx.file_kind 4 start.1 >>= λ off.
    (let func_addr = table_address ctx.file_kind vaddr start.0 in
      let fde_addr = table_address ctx.file_kind vaddr off.0 in
      print_fde f (record ctx { funcrel = func_addr }) m fde_addr >>= λ fde.
      print_table f ctx vaddr n fde.1 off.1 >>= λ rest.
      ok (fde_at func_addr fde_addr ∷ (fde.0 ++ rest.0), rest.1))

-- The header as it stands in the file.
unfoldable pub print_hdr : List ℕ → ℕ → ℕ → ℕ → V2fMap → List ℕ → Read (List Line × V2fMap)
unfolding print_table
print_hdr f file_kind limit vaddr m p = read_byte p >>= λ version.
    read_byte version.1 >>= λ ptr_enc. read_byte ptr_enc.1 >>= λ count_enc.
    read_byte count_enc.1 >>= λ table_enc.
    (if not (version.0 == 1)
        || not (ptr_enc.0 == 0x1b)
        || not (count_enc.0 == 0x03)
        || not (table_enc.0 == 0x3b)
      then ok (bad_header version.0 ptr_enc.0 count_enc.0 table_enc.0 ∷ [], m)
      else (read_int file_kind 4 table_enc.1 >>= λ eh_frame_ptr.
          read_int file_kind 4 eh_frame_ptr.1 >>= λ count.
          print_table f
            (record {
              file_kind = file_kind;
              ptr_encoding = 0;
              ref_p = 0;
              ref_v = 0;
              textrel = 0;
              datarel = 0;
              funcrel = 0;
              f = f;
              limit = limit;
            })
            vaddr count.0 m count.1
          >>= λ rest. ok (num_fdes count.0 ∷ rest.0, rest.1)))

-- `print_eh_frame_hdr_at`. `limit` is the address of the end of the file's bytes `f`.
unfoldable pub print_eh_frame_hdr_at : List ℕ → ℕ → ℕ → V2fMap → ℕ → Read (List Line × V2fMap)
unfolding erw_view_v print_hdr
print_eh_frame_hdr_at f file_kind limit m vaddr = erw_view_v f m vaddr >>= λ view. elim view.0 [
  | none ↦ ok (no_header vaddr ∷ [], view.1)
  | some p ↦ print_hdr f file_kind limit vaddr view.1 p
]
