-- ===== src/Renamer.antt =====
-- src/renamer.c: the names of symbols, as a registry of renames given on the command line reads them.
-- A C string is the list of its characters, without the zero behind them; a pointer into it is what
-- is left of it from there on. The hash tables are those of src/sht.c.
pub mod Searching
pub mod Names
pub mod Parsing
use polyfill_glibc.Base.{
  ℕ, ◌-◌, Option, none, some, List, [], ◌∷◌, ◌==◌, if◌then◌else◌, true, false, length, take, drop,
}
use polyfill_glibc.Sht.{Sht, intern_u}

-- `strchr`, of the C library
unfoldable pub strchr : ℕ → List ℕ → Option (List ℕ)
strchr c [] = none
strchr c (x ∷ xs) = elim (x == c) [ true ↦ some (x ∷ xs) | false ↦ strchr c xs ]

-- `find_colon_colon`. Behind a single colon at the end of the string it would read past the string:
-- that is `none`.
unfoldable pub find_colon_colon : List ℕ → Option (Option (List ℕ))
find_colon_colon [] = some none
find_colon_colon (c ∷ []) = if c == b':' then none else some none
find_colon_colon (c ∷ d ∷ str) = elim (c == b':') [
  | true ↦ elim (d == b':') [ true ↦ some (some (c ∷ d ∷ str)) | false ↦ find_colon_colon str ]
  | false ↦ find_colon_colon (d ∷ str)
]

-- `uint32_t dst[3]`: indices of strings, where 0 is none.
pub record ParsedName : Type 0 where
  pub lib : ℕ
  pub name : ℕ
  pub version : ℕ

-- The string up to the pointer `rest` into it.
abbrev pub up_to : List ℕ → List ℕ → List ℕ
up_to str rest = take (length str - length rest) str

-- The rest of a function behind a call of `sht_intern_u`.
abbrev pub interned {ℓ} : {B : Type ℓ} → Option (ℕ × Sht) → (ℕ → Sht → Option B) → Option B
interned none on = none
interned (some r) on = on r.0 r.1

-- `dst[2]`
abbrev pub parse_version : ℕ → ℕ → Option (List ℕ) → Sht → Option (ParsedName × Sht)
parse_version lib name none strings = some (record { lib = lib; name = name; version = 0 }, strings)
parse_version lib name (some at) strings =
    interned (intern_u strings (drop 1 at))
      (λ version strings'. some (record { lib = lib; name = name; version = version }, strings'))

-- The name is the whole string, or what stands before the '@'.
abbrev pub name_part : List ℕ → Option (List ℕ) → List ℕ
name_part str none = str
name_part str (some at) = up_to str at

-- `dst[1]`
unfoldable pub parse_from_name : ℕ → List ℕ → Sht → Option (ParsedName × Sht)
parse_from_name lib str strings =
    interned (intern_u strings (name_part str (strchr b'@' str)))
      (λ name strings'. parse_version lib name (strchr b'@' str) strings')

-- `dst[0]`
abbrev pub parse_lib : List ℕ → Option (List ℕ) → Sht → Option (ParsedName × Sht)
parse_lib str none strings = parse_from_name 0 str strings
parse_lib str (some colon_colon) strings =
    interned (intern_u strings (up_to str colon_colon))
      (λ lib strings'. parse_from_name lib (drop 2 colon_colon) strings')

-- `bespoke_registry_parse_name`, on `rr->strings`
unfoldable pub parse_name : List ℕ → Sht → Option (ParsedName × Sht)
unfolding parse_from_name
parse_name str strings = elim (find_colon_colon str) [
  | none ↦ none
  | some colon_colon ↦ parse_lib str colon_colon strings
]
