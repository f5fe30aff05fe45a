-- ===== src/Tests/EhFrame.antt =====
-- src/print_eh_frame.c at concrete inputs.
use polyfill_glibc.Base.{
  ℕ, ◌+◌, ◌-◌, ◌*◌, ◌^◌, ◌≤◌, ◌<◌, ◌≡◌, ◌≢◌, true, refl, arith, List, [], ◌∷◌, ◌++◌, bit_and, drop,
  length,
}
use polyfill_glibc.EhFrame.Bytecode.{advance_loc, def_cfa, def_cfa_offset, offset, nop}
use polyfill_glibc.EhFrame.Ends.{Returns, address_limit}
use polyfill_glibc.EhFrame.Fixed.{read_ptr-fixed_size}
use polyfill_glibc.EhFrame.Fde.{
  Line, Augmented, augment_char, no_header, num_fdes, fde_at, cie_at, cie_version, aligns,
  function_range, insn,
}
use polyfill_glibc.EhFrame.Header.{print_eh_frame_hdr_at}
use polyfill_glibc.EhFrame.Leb.{IsLeb, last, more, from_bits, read_uleb-IsLeb, read_sleb-IsLeb}
use polyfill_glibc.EhFrame.Pointers.{ReadPtrCtx, read_ptr}
use polyfill_glibc.EhFrame.Reading.{Read, ok, fault, bad_shift, fatal, stuck, read_uleb, read_sleb}
use polyfill_glibc.EhFrame.Tables.{KeepsMap, print_eh_frame_hdr_at-ends}
use polyfill_glibc.V2f.Looking.{init-unused-IsValid}
use polyfill_glibc.V2f.Setting.{set_range-Ranged}
use polyfill_glibc.V2f.Valid.{IsValid}
use polyfill_glibc.V2f.{V2fMap, init, unused, set_range}

-- A table of one entry, a common entry and the entry, from the address 4096 on.
abbrev table : List ℕ
table = 1 ∷ 0x1b ∷ 3 ∷ 0x3b ∷ 0 ∷ 0 ∷ 0 ∷ 0 ∷ 1 ∷ 0 ∷ 0 ∷ 0 ∷ 0 ∷ 1 ∷ 0 ∷ 0 ∷ 44 ∷ 0 ∷ 0 ∷ 0 ∷ []

abbrev common_entry : List ℕ
common_entry =
    20 ∷ 0 ∷ 0 ∷ 0 ∷ 0 ∷ 0 ∷ 0 ∷ 0 ∷ 1 ∷ b'z' ∷ b'R' ∷ 0 ∷ 1 ∷ 0x78 ∷ 16 ∷ 1 ∷ 0x1b ∷ 0x0c ∷ 7 ∷ 8
    ∷ 0x90 ∷ 1 ∷ 0 ∷ 0 ∷ []

abbrev last_entry : List ℕ
last_entry =
    16 ∷ 0 ∷ 0 ∷ 0 ∷ 28 ∷ 0 ∷ 0 ∷ 0 ∷ 0xcc ∷ 0 ∷ 0 ∷ 0 ∷ 0x20 ∷ 0 ∷ 0 ∷ 0 ∷ 0 ∷ 0x41 ∷ 0x0e ∷ 16
    ∷ []

abbrev file : List ℕ
file = table ++ (common_entry ++ last_entry)

abbrev mapped : V2fMap
mapped = set_range (init unused 2) 4096 512 (2 ^ 64 - 4096)

abbrev printed_lines : {A : Type 0} → Read (List Line × A) → List Line
printed_lines (ok r) = r.0
printed_lines fault = []
printed_lines bad_shift = []
printed_lines fatal = []
printed_lines stuck = []

printed :
    printed_lines (print_eh_frame_hdr_at file 2 (2 ^ 20) mapped 4096)
    ≡ num_fdes 1
      ∷ fde_at 4352 4140
      ∷ cie_at 4116
      ∷ cie_version 1 (b'z' ∷ b'R' ∷ [])
      ∷ aligns 1 (2 ^ 64 - 8) 16
      ∷ insn (def_cfa 7 8)
      ∷ insn (offset 16 1)
      ∷ insn nop
      ∷ insn nop
      ∷ function_range 4352 4384
      ∷ insn (advance_loc 1)
      ∷ insn (def_cfa_offset 16)
      ∷ []
unfolding print_eh_frame_hdr_at init set_range
printed = refl

not_mapped : printed_lines (print_eh_frame_hdr_at file 2 (2 ^ 20) mapped 8192) ≡ no_header 8192 ∷ []
unfolding print_eh_frame_hdr_at init set_range
not_mapped = refl

abbrev uleb_bytes : List ℕ
uleb_bytes = (0x65 + 2 ^ 7) ∷ (0x0e + 2 ^ 7) ∷ 0x26 ∷ []

-- 624485
uleb_bytes-IsLeb : IsLeb uleb_bytes (0x65 + (0x0e + 0x26 * 2 ^ 7) * 2 ^ 7)
uleb_bytes-IsLeb =
    more {c = 0x65} (omega arith) (more {c = 0x0e} (omega arith) (last {b = 0x26} (omega arith)))

read_uleb-IsLeb_example : read_uleb (uleb_bytes ++ (7 ∷ [])) ≡ ok (624485, 7 ∷ [])
read_uleb-IsLeb_example = read_uleb-IsLeb (7 ∷ []) uleb_bytes-IsLeb (omega arith) (omega arith)

read_sleb-IsLeb_example :
    read_sleb (uleb_bytes ++ (7 ∷ [])) ≡ ok (from_bits (7 * length uleb_bytes) 624485, 7 ∷ [])
read_sleb-IsLeb_example = read_sleb-IsLeb (7 ∷ []) uleb_bytes-IsLeb (omega arith)

negative : read_sleb (0x78 ∷ []) ≡ ok (2 ^ 64 - 8, [])
unfolding read_sleb
negative = refl

-- The encoding is relative to the position, of four bytes.
abbrev relative : ReadPtrCtx
relative = record {
  file_kind = 2;
  ptr_encoding = 0x1b;
  ref_p = 2 ^ 20 - 64;
  ref_v = 4096;
  textrel = 0;
  datarel = 0;
  funcrel = 0;
  f = file;
  limit = 2 ^ 20;
}

-- The first entry of the table, and 4096.
read_relative : read_ptr relative (drop 12 file) ≡ ok (256 + 4108, drop 16 file)
unfolding read_ptr
read_relative = refl

abbrev no_lines : List ℕ → ℕ → Augmented
no_lines cie dw = record {
  cie = cie;
  cie_dw = dw;
  fde_ptr_encoding = 0;
  lsda_ptr_encoding = 0;
  lines = [];
}

-- An augmentation that is longer than the file is only an address.
long_augmentation :
    augment_char relative b'z' (no_lines (0x7f ∷ []) 0) ≡ ok (no_lines [] (2 ^ 20 + 0x7f), true)
unfolding augment_char read_uleb
long_augmentation = refl

not_uleb : ◌≢◌ {A = ℕ} (bit_and 0x1b 0xf) 1
not_uleb e = absurd (omega (arith, e))

not_sleb : ◌≢◌ {A = ℕ} (bit_and 0x1b 0xf) 9
not_sleb e = absurd (omega (arith, e))

read_ptr-fixed_size_example :
    (v : ℕ) × (q : List ℕ) × (read_ptr relative (drop 12 file) ≡ ok (v, q))
    × (v < address_limit relative)
    × (length q ≤ length (drop 12 file))
    × (length (drop 12 file) ≤ length q + 15)
read_ptr-fixed_size_example =
    read_ptr-fixed_size relative not_uleb not_sleb refl (drop 12 file) (omega arith)

few_bytes : ◌≢◌ {A = ℕ} 512 0
few_bytes e = absurd (omega (arith, e))

-- The map of the file, at which the lines above are printed.
mapped-IsValid : IsValid mapped
unfolding init
mapped-IsValid =
    (set_range-Ranged (init unused 2) (init-unused-IsValid 2) (omega arith) 4096 512 (2 ^ 64 - 4096)
      few_bytes (omega arith)).valid

print_eh_frame_hdr_at-ends_example :
    Returns KeepsMap (print_eh_frame_hdr_at file 2 (2 ^ 20) mapped 4096)
print_eh_frame_hdr_at-ends_example =
    print_eh_frame_hdr_at-ends file 2 (2 ^ 20) mapped 4096 mapped-IsValid (omega arith)
