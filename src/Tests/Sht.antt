-- ===== src/Tests/Sht.antt =====
-- src/sht.c at concrete inputs.
use polyfill_glibc.Base.{ℕ, ◌+◌, ◌^◌, ◌<◌, ◌≡◌, refl, arith, none, some, List, [], ◌∷◌}
use polyfill_glibc.RobinHood.{probe, probe_index}
use polyfill_glibc.Sht.Maps.{Interns, intern_u-Interns, clear-reads}
use polyfill_glibc.Sht.Valid.{init-IsValid}
use polyfill_glibc.Sht.{Sht, init, clear, intern_u, lookup_u, iter_start, iter_next}
use polyfill_glibc.Sht.Hash.{hash_mem}

abbrev ab : List ℕ
ab = b'a' ∷ b'b' ∷ []

-- The table with one key and values of four bytes.
abbrev with_ab : Sht
with_ab = elim (intern_u (init 4) ab) [ none ↦ init 4 | some r ↦ r.1 ]

abbrev with_two : Sht
with_two = elim (intern_u with_ab []) [ none ↦ init 4 | some r ↦ r.1 ]

found_ab : lookup_u with_two ab ≡ some 5
unfolding lookup_u intern_u init probe probe_index hash_mem
found_ab = refl

found_empty : lookup_u with_two [] ≡ some 8
unfolding lookup_u intern_u init probe probe_index hash_mem
found_empty = refl

missing : lookup_u with_two (b'a' ∷ []) ≡ some 0
unfolding lookup_u intern_u init probe probe_index hash_mem
missing = refl

newest : iter_start with_two ≡ 8
unfolding intern_u init iter_start probe probe_index hash_mem
newest = refl

older : iter_next with_two 8 ≡ 5
unfolding intern_u init iter_next probe probe_index hash_mem
older = refl

oldest : iter_next with_two 5 ≡ 0
unfolding intern_u init iter_next probe probe_index hash_mem
oldest = refl

clear-reads_example : lookup_u (clear (init 4)) ab ≡ some 0
clear-reads_example = clear-reads (init-IsValid 4) ab

small_entry : (init 4).size + 2 + (init 4).value_length < 2 ^ 32
unfolding init
small_entry = omega arith

intern_u-Interns_example : Interns 2 (init 4) ab (intern_u (init 4) ab)
intern_u-Interns_example =
    intern_u-Interns (init-IsValid 4) (omega arith) ab (omega arith) small_entry
