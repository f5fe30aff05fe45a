-- ===== src/Tests/Uuht.antt =====
-- src/uuht.c at concrete inputs.
use polyfill_glibc.Base.{ℕ, ◌≡◌, ◌≢◌, refl, arith, inl, Option, some, none}
use polyfill_glibc.Uuht.Entries.{entry_of}
use polyfill_glibc.Uuht.Hash.{unhash-hash}
use polyfill_glibc.Uuht.Lookup.{contains-entry, contains-clear}
use polyfill_glibc.Uuht.Maps.{Stores, set-Stores, set_if_absent-Stores, lookup_or_set-Stores}
use polyfill_glibc.Uuht.Valid.{IsValid, init-IsValid}
use polyfill_glibc.Uuht.{
  Uuht, init, clear, hash, unhash, set, set_if_absent, lookup_or_set, lookup_or, contains, put_free,
  pack, count_one_more,
}
use polyfill_glibc.RobinHood.{
  probe, probe_index, slot_distance, rehash_table, reinsert_all, reinsert,
}

hash_five : unhash (hash 5) ≡ 5
unfolding hash unhash
hash_five = refl

-- Six insertions make the table twice as large.
abbrev set_or_stay : ℕ → ℕ → Option Uuht → Option Uuht
set_or_stay k v none = none
set_or_stay k v (some u) = elim (set u k v) [ none ↦ none | some r ↦ some (r.1) ]

abbrev mask_of : Option Uuht → ℕ
mask_of none = 0
mask_of (some u) = u.mask

grown :
    mask_of (
      set_or_stay 6 1 (
        set_or_stay 5 1
          (set_or_stay 4 1 (set_or_stay 3 1 (set_or_stay 2 1 (set_or_stay 1 1 (some init)))))))
    ≡ 15
unfolding init set hash probe probe_index slot_distance put_free pack count_one_more rehash_table
    reinsert_all reinsert
grown = refl

abbrev five : ℕ
five = 5

not_five : five ≢ 0
not_five e = absurd (omega arith)

unhash-hash_example : unhash (hash 5) ≡ 5
unhash-hash_example = unhash-hash 5 (omega arith)

contains-entry_example : contains init 5 ≡ some (entry_of (hash 5) init.table)
contains-entry_example = contains-entry init-IsValid 5 (omega arith)

set-Stores_example :
    (old : ℕ) × (u' : Uuht) × (set init 5 7 ≡ some (old, u'))
    × (lookup_or init 5 0 ≡ some old)
    × Stores init 5 7 u'
set-Stores_example =
    set-Stores init-IsValid (omega arith) 5 7 (omega arith) (omega arith) (inl not_five)

set_if_absent-Stores_example :
    (old : ℕ) × (kept : ℕ) × (u' : Uuht) × (set_if_absent init 5 7 ≡ some (old, u'))
    × (lookup_or init 5 0 ≡ some old)
    × (lookup_or init 5 7 ≡ some kept)
    × Stores init 5 kept u'
set_if_absent-Stores_example =
    set_if_absent-Stores init-IsValid (omega arith) 5 7 (omega arith) (omega arith) (inl not_five)

lookup_or_set-Stores_example :
    (kept : ℕ) × (u' : Uuht) × (lookup_or_set init 5 7 ≡ some (kept, u'))
    × (lookup_or init 5 7 ≡ some kept)
    × Stores init 5 kept u'
lookup_or_set-Stores_example =
    lookup_or_set-Stores init-IsValid (omega arith) 5 7 (omega arith) (omega arith) (inl not_five)

-- A table with an entry.
with_five :
    (old : ℕ) × (u' : Uuht) × (set init 5 7 ≡ some (old, u'))
    × (lookup_or init 5 0 ≡ some old)
    × Stores init 5 7 u'
with_five = set-Stores init-IsValid (omega arith) 5 7 (omega arith) (omega arith) (inl not_five)

contains-clear_example :
    IsValid with_five.4.power (clear with_five.1)
    × (contains (clear with_five.1) 5 ≡ some 0)
    × (lookup_or (clear with_five.1) 5 9 ≡ some 9)
contains-clear_example = contains-clear with_five.4.valid 5 9 (omega arith)
