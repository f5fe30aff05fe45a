-- ===== src/Uuht/Maps.antt =====
-- The table as a map from keys to values.
use polyfill_glibc.Base.{
  ℕ, ◌^◌, ◌<◌, ◌≡◌, ◌≢◌, ◌⊎◌, refl, sym, ap, ◌∙◌, arith, some, ◌==◌, if◌then◌else◌, inl, inr, u32,
}
use mathlib.Core.Option.{some-injective}
use native.Mathlib.Decide.{ℕ_discrete}
use polyfill_glibc.RobinHood.{Probe}
use polyfill_glibc.Uuht.Entries.{entry_of}
use polyfill_glibc.Uuht.Hash.{hash-lt, hash-injective}
use polyfill_glibc.Uuht.Insert.{set_at-Sets, insert_at-Sets}
use polyfill_glibc.Uuht.Laws.{Sets, if_true, if_false}
use polyfill_glibc.Uuht.Lookup.{find-Outcome, found_slot-entry, value_or, lookup_or-entry}
use polyfill_glibc.Uuht.Slots.{pack-hash, pack-value, pack-ne-zero}
use polyfill_glibc.Uuht.Valid.{IsValid}
use polyfill_glibc.Uuht.{
  Uuht, hash, find, pack, value, set, set_at, insert_at, set_if_absent, lookup_or_set, lookup_or,
  found_slot,
}

hash_zero : hash 0 ≡ 0
unfolding hash
hash_zero = refl

-- A call of `uuht_set`, `uuht_set_if_absent` or `uuht_lookup_or_set` from `u` has ended with the
-- value `result` and the table `u'`, in which the key `k` has the value `val`.
pub record Stores (u : Uuht) (k val : ℕ) (u' : Uuht) : Type 0 where
  pub power : ℕ
  pub valid : IsValid power u'
  pub reads :
      (j default_v : ℕ)
      → j < 2 ^ 32
      → lookup_or u' j default_v ≡ (if k == j then some val else lookup_or u j default_v)

set-run :
    (u : Uuht) (k val : ℕ) {r : Probe}
    → find u (hash k) ≡ some r
    → set u k val ≡ set_at u (hash k) val r
unfolding set
set-run u k val run = cc

set_if_absent-run :
    (u : Uuht) (k val : ℕ) {r : Probe}
    → find u (hash k) ≡ some r
    → set_if_absent u k val ≡ insert_at u (hash k) val 0 r
unfolding set_if_absent
set_if_absent-run u k val run = cc

lookup_or_set-run :
    (u : Uuht) (k val : ℕ) {r : Probe}
    → find u (hash k) ≡ some r
    → lookup_or_set u k val ≡ insert_at u (hash k) val val r
unfolding lookup_or_set
lookup_or_set-run u k val run = cc

module _ {p : ℕ} {u : Uuht} (v : IsValid p u) (room : p < 32) (k val : ℕ) (k-lt : k < 2 ^ 32)
    (val-lt : val < 2 ^ 32) (some_half : (k ≢ 0) ⊎ (val ≢ 0)) where
  h-lt : hash k < 2 ^ 32
  h-lt = hash-lt k k-lt

  some_hash : (hash k ≢ 0) ⊎ (val ≢ 0)
  some_hash = elim some_half [
    | inl key ↦ inl (λ z. key (hash-injective k 0 k-lt (omega arith) (z ∙ sym hash_zero)))
    | inr value ↦ inr value
  ]

  abbrev s : ℕ
  s = pack (hash k) val

  hash_is : u32 s ≡ hash k
  hash_is = pack-hash (hash k) val h-lt val-lt

  value_of_pack : (default_v : ℕ) → value_or s default_v ≡ val
  value_of_pack default_v =
      sym (if_false s 0 default_v (value s) (pack-ne-zero (hash k) val h-lt val-lt some_hash))
      ∙ pack-value (hash k) val h-lt val-lt

  Sets-Stores : {u' : Uuht} → Sets u (pack (hash k) val) u' → Stores u k val u'
  Sets-Stores {u'} g = record { power = g.power; valid = g.valid; reads = reads }
    where
      reads :
          (j default_v : ℕ)
          → j < 2 ^ 32
          → lookup_or u' j default_v ≡ (if k == j then some val else lookup_or u j default_v)
      reads j default_v j-lt = elim (ℕ_discrete k j) [
        | yes same ↦
            let entry : entry_of (hash j) u'.table ≡ s =
              g.entries (hash j)
              ∙ sym (
                  if_true (u32 s) (hash j) s (entry_of (hash j) u.table)
                    (hash_is ∙ ap hash same)) in
            lookup_or-entry g.valid j j-lt default_v
            ∙ ap some (ap (λ (x : ℕ). value_or x default_v) entry ∙ value_of_pack default_v)
            ∙ if_true k j (some val) (lookup_or u j default_v) same
        | no other ↦
            let entry : entry_of (hash j) u'.table ≡ entry_of (hash j) u.table =
              g.entries (hash j)
              ∙ sym (
                  if_false (u32 s) (hash j) s (entry_of (hash j) u.table)
                    (λ e. other (hash-injective k j k-lt j-lt (sym hash_is ∙ e)))) in
            lookup_or-entry g.valid j j-lt default_v
            ∙ ap (λ (x : ℕ). some (value_or x default_v)) entry
            ∙ sym (lookup_or-entry v j j-lt default_v)
            ∙ if_false k j (some val) (lookup_or u j default_v) other
      ]

  -- On a valid table of at most 2 ^ 31 slots, and for a key and a value that are not both zero,
  -- `uuht_set` ends. It returns the old value of the key, or zero. Afterwards a lookup of the key
  -- finds the new value, every other lookup finds what it found, and the table is valid, perhaps
  -- with twice as many slots.
  pub set-Stores :
      (old : ℕ) × (u' : Uuht) × (set u k val ≡ some (old, u'))
      × (lookup_or u k 0 ≡ some old)
      × Stores u k val u'
  set-Stores =
      let (r, run, out) = find-Outcome v (hash k) h-lt in
      let (u', end, g) = set_at-Sets v room (hash k) val h-lt val-lt some_hash r out in
      (
        value_or (found_slot r) 0,
        u',
        set-run u k val run ∙ end,
        lookup_or-entry v k k-lt 0
            ∙ ap (λ (x : ℕ). some (value_or x 0)) (sym (found_slot-entry v (hash k) h-lt r out)),
        Sets-Stores g,
      )

  -- A key that has a value keeps it.
  keeps-Stores : entry_of (hash k) u.table ≢ 0 → Stores u k (value (entry_of (hash k) u.table)) u
  keeps-Stores ne = record { power = p; valid = v; reads = reads }
    where
      reads :
          (j default_v : ℕ)
          → j < 2 ^ 32
          → lookup_or u j default_v
            ≡ (if k == j then some (value (entry_of (hash k) u.table)) else lookup_or u j default_v)
      reads j default_v j-lt = elim (ℕ_discrete k j) [
        | yes same ↦
            lookup_or-entry v j j-lt default_v
            ∙ ap (λ (x : ℕ). some (value_or (entry_of (hash x) u.table) default_v)) (sym same)
            ∙ ap some (sym (if_false (entry_of (hash k) u.table) 0 default_v _ ne))
            ∙ if_true k j (some (value (entry_of (hash k) u.table))) (lookup_or u j default_v) same
        | no other ↦ if_false k j _ (lookup_or u j default_v) other
      ]

  -- The end of an insertion that keeps a value: it returns the value of the key, or `fresh`.
  pub record Inserts (fresh : ℕ) (r : Probe) : Type 0 where
    pub result : ℕ
    pub kept : ℕ
    pub after : Uuht
    pub ends : insert_at u (hash k) val fresh r ≡ some (result, after)
    pub returns : lookup_or u k fresh ≡ some result
    pub keeps : lookup_or u k val ≡ some kept
    pub stores : Stores u k kept after

  insert-Inserts : (fresh : ℕ) → (r : Probe) × (find u (hash k) ≡ some r) × Inserts fresh r
  insert-Inserts fresh =
      let (r, run, out) = find-Outcome v (hash k) h-lt in
      let (u', end, new, old) =
        insert_at-Sets v room (hash k) val h-lt val-lt some_hash fresh r out in
      let entry = found_slot-entry v (hash k) h-lt r out in
      let reads =
        λ (d : ℕ). lookup_or-entry v k k-lt d ∙ ap (λ (x : ℕ). some (value_or x d)) (sym entry) in
      elim (ℕ_discrete (found_slot r) 0) [
        | yes z ↦ (
          r,
          run,
          record {
            result = value_or (found_slot r) fresh;
            kept = val;
            after = u';
            ends = end;
            returns = reads fresh;
            keeps =
                reads val ∙ ap some (sym (if_true (found_slot r) 0 val (value (found_slot r)) z));
            stores = Sets-Stores (new z);
          },
        )
        | no ne ↦ (
          r,
          run,
          record {
            result = value_or (found_slot r) fresh;
            kept = value (entry_of (hash k) u.table);
            after = u;
            ends = end ∙ ap (λ (x : Uuht). some (value_or (found_slot r) fresh, x)) (old ne);
            returns = reads fresh;
            keeps =
                lookup_or-entry v k k-lt val
                ∙ ap some
                    (sym (if_false (entry_of (hash k) u.table) 0 val _ (λ z. ne (entry ∙ z))));
            stores = keeps-Stores (λ z. ne (entry ∙ z));
          },
        )
      ]

  -- Under the same conditions as for `uuht_set`, `uuht_set_if_absent` ends. It returns what a lookup of the key found, or zero. Afterwards the
  -- key has the value it had, or the new value if it had none, every other lookup finds what it
  -- found, and the table is valid.
  pub set_if_absent-Stores :
      (old : ℕ) × (kept : ℕ) × (u' : Uuht) × (set_if_absent u k val ≡ some (old, u'))
      × (lookup_or u k 0 ≡ some old)
      × (lookup_or u k val ≡ some kept)
      × Stores u k kept u'
  set_if_absent-Stores =
      let (r, run, i) = insert-Inserts 0 in
      (
        i.result,
        i.kept,
        i.after,
        set_if_absent-run u k val run ∙ i.ends,
        i.returns,
        i.keeps,
        i.stores,
      )

  -- Under the same conditions as for `uuht_set`, `uuht_lookup_or_set` ends. It returns the value that a lookup with the new value as its
  -- default found, and that the key has afterwards. Every other lookup finds what it found, and
  -- the table is valid.
  pub lookup_or_set-Stores :
      (kept : ℕ) × (u' : Uuht) × (lookup_or_set u k val ≡ some (kept, u'))
      × (lookup_or u k val ≡ some kept)
      × Stores u k kept u'
  lookup_or_set-Stores =
      let (r, run, i) = insert-Inserts val in
      let same : i.kept ≡ i.result = some-injective i.kept i.result (sym i.keeps ∙ i.returns) in
      (
        i.kept,
        i.after,
        lookup_or_set-run u k val run ∙ i.ends ∙ ap (λ (x : ℕ). some (x, i.after)) (sym same),
        i.keeps,
        i.stores,
      )
