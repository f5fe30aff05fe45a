-- ===== src/Tests/Renamer.antt =====
-- src/renamer.c at concrete inputs.
use polyfill_glibc.Base.{ℕ, ◌+◌, ◌*◌, ◌^◌, ◌<◌, ◌≡◌, refl, arith, none, some, List, [], ◌∷◌}
use polyfill_glibc.Renamer.Names.{Ready}
use polyfill_glibc.Renamer.Parsing.{Parsed, parse_name-Parsed}
use polyfill_glibc.Renamer.{strchr, find_colon_colon, parse_name}
use polyfill_glibc.Sht.Valid.{init-IsValid}
use polyfill_glibc.Sht.{init}

-- l::f@2
abbrev written : List ℕ
written = b'l' ∷ b':' ∷ b':' ∷ b'f' ∷ b'@' ∷ b'2' ∷ []

-- A single colon at the end of a name is read past.
colon_at_end : find_colon_colon (b'f' ∷ b':' ∷ []) ≡ none
unfolding find_colon_colon
colon_at_end = refl

no_colon_l : strchr b':' (b'l' ∷ []) ≡ none
unfolding strchr
no_colon_l = refl

no_colon_f : strchr b':' (b'f' ∷ b'@' ∷ b'2' ∷ []) ≡ none
unfolding strchr
no_colon_f = refl

no_at : strchr b'@' (b'f' ∷ []) ≡ none
unfolding strchr
no_at = refl

small_names : (init 0).size + 6 + 3 * (init 0).value_length < 2 ^ 32
unfolding init
small_names = omega arith

init-Ready : Ready 6 3 (init 0)
init-Ready = record { power = 2; valid = init-IsValid 0; wide = omega arith; room = small_names }

parse_name-Parsed_example :
    Parsed (some (b'l' ∷ [])) (b'f' ∷ []) (some (b'2' ∷ [])) (init 0) (parse_name written (init 0))
parse_name-Parsed_example =
    parse_name-Parsed (some (b'l' ∷ [])) (b'f' ∷ []) (some (b'2' ∷ [])) (init 0) no_colon_l
      no_colon_f no_at (omega arith) init-Ready
