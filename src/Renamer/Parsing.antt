-- ===== src/Renamer/Parsing.antt =====
-- A name that is written from its parts is parsed into them.
use polyfill_glibc.Base.{
  ℕ, ◌+◌, ◌^◌, ◌<◌, Option, none, some, List, [], ◌∷◌, ◌++◌, ◌≡◌, ◌≢◌, refl, ap, ◌∙◌, arith, length,
  length-append,
}
use polyfill_glibc.Renamer.{
  ParsedName, strchr, find_colon_colon, interned, parse_version, name_part, parse_from_name,
  parse_lib, parse_name,
}
use polyfill_glibc.Renamer.Names.{Keeps, Ready, Ready-less, Keeps-refl, Keeps-trans, intern-Step}
use polyfill_glibc.Renamer.Searching.{
  strchr-append, strchr-none-append, strchr-nil, find-append, find-none, up_to-append,
}
use polyfill_glibc.Sht.{Sht, entry_words, intern_u, lookup_u}

-- A name as a user writes it: `lib::name@version`, where the library and the version may be missing.
abbrev pub at_version : Option (List ℕ) → List ℕ
at_version none = []
at_version (some version) = b'@' ∷ version

abbrev pub written_name : Option (List ℕ) → List ℕ → Option (List ℕ) → List ℕ
written_name none name version = name ++ at_version version
written_name (some lib) name version = lib ++ (b':' ∷ b':' ∷ (name ++ at_version version))

abbrev pub text_of : Option (List ℕ) → List ℕ
text_of none = []
text_of (some str) = str

-- The words that the entry of a part needs at most.
abbrev pub words_of : Option (List ℕ) → ℕ
words_of none = 0
words_of (some str) = entry_words (length str)

-- `u` is the index of a part, or 0 for one that is missing.
abbrev pub IsPart : Option (List ℕ) → ℕ → Sht → Type 0
IsPart none u s = u ≡ 0
IsPart (some str) u s = (u ≢ 0) × (lookup_u s str ≡ some u)

IsPart-Keeps :
    (o : Option (List ℕ)) (u : ℕ) {s s' : Sht} → Keeps s s' → IsPart o u s → IsPart o u s'
IsPart-Keeps none u k e = e
IsPart-Keeps (some str) u k (nz, e) = (nz, k.keeps str u nz e)

-- The parts are parsed, and every key keeps its index.
pub record Parsed (lib : Option (List ℕ)) (name : List ℕ) (version : Option (List ℕ)) (s : Sht)
    (result : Option (ParsedName × Sht)) : Type 0 where
  pub parsed : ParsedName
  pub after : Sht
  pub ends : result ≡ some (parsed, after)
  pub lib_part : IsPart lib parsed.lib after
  pub name_part : IsPart (some name) parsed.name after
  pub version_part : IsPart version parsed.version after
  pub kept : Keeps s after
  pub ready : Ready 0 0 after

abbrev at_of : Option (List ℕ) → Option (List ℕ)
at_of none = none
at_of (some version) = some (b'@' ∷ version)

append_nil : (xs : List ℕ) → xs ++ [] ≡ xs
append_nil [] = refl
append_nil (x ∷ xs) = ap (◌∷◌ x) (append_nil xs)

at-found :
    (name : List ℕ) (version : Option (List ℕ))
    → strchr b'@' name ≡ none
    → strchr b'@' (name ++ at_version version) ≡ at_of version
at-found name none e = strchr-none-append b'@' name [] e (strchr-nil b'@')
at-found name (some version) e = strchr-append b'@' name version e

name-found :
    (name : List ℕ) (version : Option (List ℕ))
    → name_part (name ++ at_version version) (at_of version) ≡ name
name-found name none = append_nil name
name-found name (some version) = up_to-append name (b'@' ∷ version)

-- The version, behind the other two parts.
version-Parsed :
    (lib : Option (List ℕ)) (l : ℕ) (name : List ℕ) (n : ℕ) (version : Option (List ℕ)) (s : Sht)
    → length (text_of version) + 8 < 2 ^ 32
    → IsPart lib l s
    → IsPart (some name) n s
    → Ready (words_of version + 0) 1 s
    → Parsed lib name version s (parse_version l n (at_of version) s)
version-Parsed lib l name n none s short lp np r = record {
  parsed = record { lib = l; name = n; version = 0 };
  after = s;
  ends = refl;
  lib_part = lp;
  name_part = np;
  version_part = refl;
  kept = Keeps-refl s;
  ready = Ready-less 0 0 0 r;
}
version-Parsed lib l name n (some version) s short lp np r =
    let step = intern-Step 0 0 s version short r in
    record {
      parsed = record { lib = l; name = n; version = step.index };
      after = step.after;
      ends =
          ap
            (λ (o : Option (ℕ × Sht)).
              interned o (λ v s'. some (record { lib = l; name = n; version = v }, s')))
            step.ends;
      lib_part = IsPart-Keeps lib l step.kept lp;
      name_part = IsPart-Keeps (some name) n step.kept np;
      version_part = (step.some_index, step.found);
      kept = step.kept;
      ready = step.ready;
    }

Parsed-after :
    {lib : Option (List ℕ)} {name : List ℕ} {version : Option (List ℕ)} {s s' : Sht}
    {result result' : Option (ParsedName × Sht)}
    → Keeps s s'
    → result ≡ result'
    → Parsed lib name version s' result'
    → Parsed lib name version s result
Parsed-after k e d = record {
  parsed = d.parsed;
  after = d.after;
  ends = e ∙ d.ends;
  lib_part = d.lib_part;
  name_part = d.name_part;
  version_part = d.version_part;
  kept = Keeps-trans k d.kept;
  ready = d.ready;
}

module _ (name : List ℕ) (version : Option (List ℕ)) (no_at : strchr b'@' name ≡ none)
    (name-short : length name + 8 < 2 ^ 32)
    (version-short : length (text_of version) + 8 < 2 ^ 32) where
  abbrev str : List ℕ
  str = name ++ at_version version

  from_name-run :
      (l : ℕ) (s : Sht) {n : ℕ} {s' : Sht}
      → intern_u s name ≡ some (n, s')
      → parse_from_name l str s ≡ parse_version l n (at_of version) s'
  unfolding parse_from_name
  from_name-run l s run =
      ap
        (λ (at : Option (List ℕ)).
          interned (intern_u s (name_part str at)) (λ n s'. parse_version l n at s'))
        (at-found name version no_at)
      ∙ ap (λ (x : List ℕ). interned (intern_u s x) (λ n s'. parse_version l n (at_of version) s'))
          (name-found name version)
      ∙ ap (λ (o : Option (ℕ × Sht)). interned o (λ n s'. parse_version l n (at_of version) s')) run

  -- The name and the version, behind the library.
  from_name-Parsed :
      (lib : Option (List ℕ)) (l : ℕ) (s : Sht)
      → IsPart lib l s
      → Ready (entry_words (length name) + (words_of version + 0)) 2 s
      → Parsed lib name version s (parse_from_name l str s)
  from_name-Parsed lib l s lp r =
      let step = intern-Step (words_of version + 0) 1 s name name-short r in
      Parsed-after step.kept (from_name-run l s step.ends) (
        version-Parsed lib l name step.index version step.after version-short
          (IsPart-Keeps lib l step.kept lp) (step.some_index, step.found) step.ready)

parse_name-run :
    (str : List ℕ) (s : Sht) {r : Option (List ℕ)}
    → find_colon_colon str ≡ some r
    → parse_name str s ≡ parse_lib str r s
unfolding parse_name
parse_name-run str s run = cc

-- The library is there.
lib-run :
    (lib rest : List ℕ) (s : Sht) {l : ℕ} {s' : Sht}
    → strchr b':' lib ≡ none
    → intern_u s lib ≡ some (l, s')
    → parse_name (lib ++ (b':' ∷ b':' ∷ rest)) s ≡ parse_from_name l rest s'
lib-run lib rest s none_there run =
    let str = lib ++ (b':' ∷ b':' ∷ rest) in
    parse_name-run str s (find-append lib rest none_there)
    ∙ ap (λ (x : List ℕ). interned (intern_u s x) (λ l s'. parse_from_name l rest s'))
        (up_to-append lib (b':' ∷ b':' ∷ rest))
    ∙ ap (λ (o : Option (ℕ × Sht)). interned o (λ l s'. parse_from_name l rest s')) run

shorter :
    (name : List ℕ) (version : Option (List ℕ))
    → length (name ++ at_version version) + 8 < 2 ^ 32
    → (length name + 8 < 2 ^ 32) × (length (text_of version) + 8 < 2 ^ 32)
shorter name none h =
    let e = length-append name (at_version none) in (omega (arith, e), omega arith)
shorter name (some version) h =
    let e = length-append name (b'@' ∷ version) in (omega (arith, e), omega (arith, e))

-- Let a name of fewer than 2 ^ 32 - 8 bytes be written from its parts, none of them with a colon and
-- the middle one without an '@', and the table be valid, with room for three more entries. Then `bespoke_registry_parse_name` ends,
-- with the index that a lookup of each part finds, or 0 for a part that is missing, and each key that
-- the table had keeps its index.
pub parse_name-Parsed :
    (lib : Option (List ℕ)) (name : List ℕ) (version : Option (List ℕ)) (s : Sht)
    → strchr b':' (text_of lib) ≡ none
    → strchr b':' (name ++ at_version version) ≡ none
    → strchr b'@' name ≡ none
    → length (written_name lib name version) + 8 < 2 ^ 32
    → Ready (words_of lib + (entry_words (length name) + (words_of version + 0))) 3 s
    → Parsed lib name version s (parse_name (written_name lib name version) s)
parse_name-Parsed none name version s no_lib no_colon no_at short r =
    let str = name ++ at_version version in
    let (name-short, version-short) = shorter name version short in
    Parsed-after (Keeps-refl s) (parse_name-run str s (find-none str no_colon)) (
      from_name-Parsed name version no_at name-short version-short none 0 s refl
        (Ready-less 0 (entry_words (length name) + (words_of version + 0)) 2 r))
parse_name-Parsed (some lib) name version s no_lib no_colon no_at short r =
    let rest = name ++ at_version version in
    let whole = length-append lib (b':' ∷ b':' ∷ rest) in
    let (name-short, version-short) = shorter name version (omega (arith, whole)) in
    let step =
      intern-Step (entry_words (length name) + (words_of version + 0)) 2 s lib
        (omega (arith, whole)) r in
    Parsed-after step.kept (lib-run lib rest s no_lib step.ends) (
      from_name-Parsed name version no_at name-short version-short (some lib) step.index step.after
        (step.some_index, step.found) step.ready)
