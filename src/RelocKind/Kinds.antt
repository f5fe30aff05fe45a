-- ===== src/RelocKind/Kinds.antt =====
-- The relocation types of AArch64 in its two data models.
use polyfill_glibc.Base.{ℕ, ◌+◌, ◌-◌, ◌==◌, leb, ◌&&◌, Option, none, some, if◌then◌else◌}
use polyfill_glibc.RelocKind.{RelocKind, noop, regular, classifier_for_machine}

-- The number of a dynamic relocation in the other data model of AArch64, where there is one.
abbrev pub other_model : ℕ → Option ℕ
other_model type =
    if leb 180 type && leb type 188
    then some (type + 844)
    else if leb 1024 type && leb type 1032
    then some (type - 844)
    else none

abbrev pub kind_by_pair : ℕ → Option ℕ → RelocKind
kind_by_pair type (some other) = classifier_for_machine 183 other
kind_by_pair type none = if type == 0 then noop else regular
