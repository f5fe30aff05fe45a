-- ===== src/RelocKind.antt =====
-- src/reloc_kind.c: what kind of symbol lookup a relocation type asks for, per machine.
pub mod Kinds
use polyfill_glibc.Base.{
  ℕ, ◌^◌, Bool, true, false, List, [], ◌∷◌, ◌==◌, ◌||◌, if◌then◌else◌, bit_and,
}

pub data RelocKind : Type 0 where
  noop : RelocKind
  no_symbol_lookup : RelocKind
  lookup_result_unused : RelocKind
  regular : RelocKind
  class_plt : RelocKind
  class_copy : RelocKind

-- `case` labels
unfoldable pub one_of : List ℕ → ℕ → Bool
one_of [] x = false
one_of (y ∷ ys) x = (x == y) || one_of ys x

-- One `switch`: the labels of each kind, in the order of the source.
pub record Labels : Type 0 where
  pub noops : List ℕ
  pub no_lookups : List ℕ
  pub unused_results : List ℕ
  pub plts : List ℕ
  pub copies : List ℕ

unfoldable pub classify : Labels → ℕ → RelocKind
unfolding one_of
classify l type =
    if one_of l.noops type
    then noop
    else if one_of l.no_lookups type
    then no_symbol_lookup
    else if one_of l.unused_results type
    then lookup_result_unused
    else if one_of l.plts type
    then class_plt
    else if one_of l.copies type
    then class_copy
    else regular

abbrev pub labels_386 : Labels
labels_386 = record {
  noops = 0 ∷ [];
  no_lookups = 8 ∷ [];
  unused_results = 42 ∷ [];
  plts = 7 ∷ 35 ∷ 36 ∷ 37 ∷ 14 ∷ 41 ∷ [];
  copies = 5 ∷ [];
}

abbrev pub labels_mips : Labels
labels_mips = record {
  noops = 0 ∷ [];
  no_lookups = [];
  unused_results = [];
  plts = 127 ∷ [];
  copies = 126 ∷ [];
}

abbrev pub labels_arm : Labels
labels_arm = record {
  noops = 0 ∷ [];
  no_lookups = 23 ∷ [];
  unused_results = 160 ∷ [];
  plts = 22 ∷ 17 ∷ 18 ∷ 19 ∷ 13 ∷ [];
  copies = 20 ∷ [];
}

abbrev pub labels_x86_64 : Labels
labels_x86_64 = record {
  noops = 0 ∷ [];
  no_lookups = 8 ∷ 38 ∷ [];
  unused_results = 37 ∷ [];
  plts = 7 ∷ 16 ∷ 17 ∷ 18 ∷ 36 ∷ [];
  copies = 5 ∷ [];
}

abbrev pub labels_aarch64 : Labels
labels_aarch64 = record {
  noops = 0 ∷ [];
  no_lookups = 183 ∷ 1027 ∷ [];
  unused_results = 188 ∷ 1032 ∷ [];
  plts = 182 ∷ 1026 ∷ 184 ∷ 1028 ∷ 185 ∷ 1029 ∷ 186 ∷ 1030 ∷ 187 ∷ 1031 ∷ [];
  copies = 180 ∷ 1024 ∷ [];
}

unfoldable pub classifier_386 : ℕ → RelocKind
unfolding classify
classifier_386 type = classify labels_386 (bit_and type 0xff)

unfoldable pub classifier_mips : ℕ → RelocKind
unfolding classify
classifier_mips type = classify labels_mips (bit_and type 0xff)

unfoldable pub classifier_arm : ℕ → RelocKind
unfolding classify
classifier_arm type = classify labels_arm (bit_and type 0xff)

unfoldable pub classifier_x86_64 : ℕ → RelocKind
unfolding classify
classifier_x86_64 type = classify labels_x86_64 type

unfoldable pub classifier_aarch64 : ℕ → RelocKind
unfolding classify
classifier_aarch64 type = classify labels_aarch64 type

unfoldable pub classifier_fallback : ℕ → RelocKind
classifier_fallback type = regular

-- `reloc_kind_classifier_for_machine`
unfoldable pub classifier_for_machine : ℕ → ℕ → RelocKind
unfolding classifier_386 classifier_mips classifier_arm classifier_x86_64 classifier_aarch64
    classifier_fallback
classifier_for_machine machine type =
    if machine == 3
    then classifier_386 type
    else if (machine == 8) || (machine == 10)
    then classifier_mips type
    else if machine == 40
    then classifier_arm type
    else if machine == 62
    then classifier_x86_64 type
    else if machine == 183
    then classifier_aarch64 type
    else classifier_fallback type
