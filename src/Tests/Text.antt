-- ===== src/Tests/Text.antt =====
-- src/common.c and src/reloc_kind.c at concrete inputs.
use polyfill_glibc.Base.{ℕ, Bool, true, false, List, [], ◌∷◌, ◌≡◌, refl, some}
use polyfill_glibc.Common.Versions.{version_str_less_asym, version_str_less-total}
use polyfill_glibc.Common.{version_str_less, has_prefix}

-- "2.9"
abbrev two_nine : List ℕ
two_nine = 0x32 ∷ 0x2e ∷ 0x39 ∷ []

-- "2.17"
abbrev two_seventeen : List ℕ
two_seventeen = 0x32 ∷ 0x2e ∷ 0x31 ∷ 0x37 ∷ []

nine_before_seventeen : version_str_less two_nine two_seventeen ≡ some true
unfolding version_str_less
nine_before_seventeen = refl

version_str_less_asym_example : version_str_less two_seventeen two_nine ≡ some false
version_str_less_asym_example = version_str_less_asym two_nine two_seventeen nine_before_seventeen

version_str_less-total_example : (b : Bool) × (version_str_less two_nine two_seventeen ≡ some b)
version_str_less-total_example = version_str_less-total two_nine two_seventeen

two_dot : has_prefix two_nine (0x32 ∷ []) ≡ true
unfolding has_prefix
two_dot = refl
