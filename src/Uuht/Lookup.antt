-- ===== src/Uuht/Lookup.antt =====
-- The lookups read the slot of the key's hash.
use polyfill_glibc.Base.{
  ℕ, ◌+◌, ◌-◌, ◌^◌, ◌<◌, false, ◌≡◌, refl, sym, ap, ◌∙◌, arith, some, ◌==◌, if◌then◌else◌, get_or,
}
use polyfill_glibc.RobinHood.Count.{countp, countp-replicate}
use polyfill_glibc.RobinHood.Probing.{probe_total, Outcome}
use polyfill_glibc.RobinHood.{Probe, free, hit, rich, probe}
use polyfill_glibc.RobinHood.Entries.{first-none, first-at, countp-none}
use polyfill_glibc.Uuht.Entries.{of_hash, entry_of}
use polyfill_glibc.Uuht.Hash.{hash-lt}
use polyfill_glibc.Uuht.Valid.{IsValid, clear-IsValid}
use polyfill_glibc.RobinHood.Growing.{has_empty, low}
use polyfill_glibc.Uuht.{
  Uuht, clear, any_key, value, hash, find, contains, lookup_or, found_slot, found_value,
}

module _ {p : ℕ} {u : Uuht} (v : IsValid p u) (h : ℕ) (h-lt : h < 2 ^ 32) where
  abbrev e : ℕ
  e = (has_empty v.loaded).0

  find-probe : find u h ≡ probe any_key (2 ^ p) u.table (2 ^ p - 1) h 0
  find-probe =
      ap (λ (n : ℕ). probe any_key n u.table u.mask h 0) v.loaded.width
      ∙ ap (λ (m : ℕ). probe any_key (2 ^ p) u.table m h 0) v.loaded.masked

  pub find-Outcome :
      (r : Probe) × (find u h ≡ some r)
      × Outcome p (low v.loaded) v.loaded.small any_key h h-lt u.table e r
  find-Outcome =
      let (r, run, out) =
        probe_total p (low v.loaded) v.loaded.small any_key h h-lt u.table e v.loaded.ordered
          (has_empty v.loaded).1 (has_empty v.loaded).2 in
      (r, find-probe ∙ run, out)

  pub absent-entry :
      ((i : ℕ) → i < 2 ^ p → of_hash h (get_or u.table i 0) ≡ false)
      → countp (of_hash h) u.table ≡ 0
  absent-entry away = countp-none (of_hash h) u.table (λ i lt. away i (rw v.loaded.width at lt))

  pub found_slot-entry :
      (r : Probe)
      → Outcome p (low v.loaded) v.loaded.small any_key h h-lt u.table e r
      → found_slot r ≡ entry_of h u.table
  found_slot-entry (free k) out = sym (first-none (of_hash h) u.table (absent-entry out.1.absent))
  found_slot-entry (hit k x) out = sym (
      first-at (of_hash h) u.table k (v.once h) (rw v.loaded.width out.0)
        (ap (of_hash h) out.1 ∙ out.2)
      ∙ out.1)
  found_slot-entry (rich k x d2) out =
      sym (first-none (of_hash h) u.table (absent-entry out.1.absent))

entry_of-clear : (u : Uuht) (h : ℕ) → entry_of h (clear u).table ≡ 0
unfolding clear
entry_of-clear u h =
    first-none (of_hash h) (clear u).table (countp-replicate (of_hash h) (u.mask + 1) refl)

-- The value of a slot, or a default for the slot zero.
abbrev pub value_or : ℕ → ℕ → ℕ
value_or slot default_v = if slot == 0 then default_v else value slot

contains-run :
    (u : Uuht) (k : ℕ) {r : Probe} → find u (hash k) ≡ some r → contains u k ≡ some (found_slot r)
unfolding contains
contains-run u k run = cc

lookup_or-run :
    (u : Uuht) (k default_v : ℕ) {r : Probe}
    → find u (hash k) ≡ some r
    → lookup_or u k default_v ≡ some (found_value default_v r)
unfolding lookup_or
lookup_or-run u k default_v run = cc

module _ {p : ℕ} {u : Uuht} (v : IsValid p u) (k : ℕ) (k-lt : k < 2 ^ 32) where
  abbrev h-lt : hash k < 2 ^ 32
  h-lt = hash-lt k k-lt

  -- On a valid table `uuht_contains` ends, and returns the slot of the key's hash, or zero.
  pub contains-entry : contains u k ≡ some (entry_of (hash k) u.table)
  contains-entry =
      let (r, run, out) = find-Outcome v (hash k) h-lt in
      contains-run u k run ∙ ap some (found_slot-entry v (hash k) h-lt r out)

  -- `uuht_lookup_or` ends, and returns the value of that slot, or the default.
  pub lookup_or-entry :
      (default_v : ℕ)
      → lookup_or u k default_v ≡ some (value_or (entry_of (hash k) u.table) default_v)
  lookup_or-entry default_v =
      let (r, run, out) = find-Outcome v (hash k) h-lt in
      lookup_or-run u k default_v run
      ∙ ap some (
          found_value-or r out
          ∙ ap (λ (s : ℕ). value_or s default_v) (found_slot-entry v (hash k) h-lt r out))
    where
      found_value-or :
          (r : Probe)
          → Outcome p
              (low v.loaded)
              v.loaded.small
              any_key
              (hash k)
              h-lt
              u.table
              (e v (hash k) h-lt)
              r
          → found_value default_v r ≡ value_or (found_slot r) default_v
      found_value-or (free _) out = refl
      found_value-or (hit _ s) out = ground (arith, out.2)
      found_value-or (rich _ _ _) out = refl

-- `uuht_clear` of a valid table leaves a valid table of the same size in which there is no key:
-- `uuht_contains` of a 32-bit key returns 0, and `uuht_lookup_or` the default.
pub contains-clear :
    {p : ℕ} {u : Uuht} (v : IsValid p u) (k default_v : ℕ)
    → k < 2 ^ 32
    → IsValid p (clear u)
      × (contains (clear u) k ≡ some 0)
      × (lookup_or (clear u) k default_v ≡ some default_v)
contains-clear {u = u} v k default_v k-lt =
    let empty = clear-IsValid v in
    let none_there = entry_of-clear u (hash k) in
    (
      empty,
      contains-entry empty k k-lt ∙ ap some none_there,
      lookup_or-entry empty k k-lt default_v
          ∙ ap (λ (s : ℕ). some (value_or s default_v)) none_there,
    )
