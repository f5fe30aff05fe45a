-- ===== src/Sht/Maps.antt =====
-- The table as a map from byte strings to the indices of their values.
use polyfill_glibc.Base.{
  ℕ, ◌+◌, ◌^◌, ◌≤◌, ◌<◌, true, List, Option, some, ◌≡◌, ◌≢◌, ◌⊎◌, refl, sym, ap, ◌∙◌, arith, u32,
  length, get_or, set, if◌then◌else◌, Bool-cases, inl, inr,
}
use polyfill_glibc.RobinHood.{Probe, free, hit, rich, reinsert}
use polyfill_glibc.RobinHood.Count.{countp, countp_pos, countp_mono, occupied}
use polyfill_glibc.RobinHood.Entries.{is, is_self, first-none}
use polyfill_glibc.RobinHood.Growing.{low, has_empty}
use polyfill_glibc.RobinHood.Index.{home, gap}
use polyfill_glibc.RobinHood.Inserting.{put_free, put_rich}
use polyfill_glibc.RobinHood.Placing.{Adds}
use polyfill_glibc.RobinHood.Probing.{Stops}
use polyfill_glibc.Sht.Adding.{new_slot-ne-zero, new_slot-hash}
use polyfill_glibc.Sht.Contents.{same_bytes-≡, key_length-added}
use polyfill_glibc.Sht.Hash.{hash_mem, hash_mem-lt}
use polyfill_glibc.Sht.Interning.{Holds, extended, add_to_contents-run, with_table-Holds}
use polyfill_glibc.Sht.Lookup.{Ends, find-Ends, absent-of_key, lookup_u-run, lookup_u-first}
use polyfill_glibc.Sht.Valid.{IsValid, of_key, clear-IsValid}
use polyfill_glibc.Sht.{
  Sht, entry_words, same_key, with_table, put, returning, add_key, intern_at, intern_u, find,
  key_of, value_index, clear, lookup_u, same_bytes, slot_of, iter_start, iter_next, meta_words,
}

-- What an insertion adds is what an iteration over `s'` visits first, before it visits what an
-- iteration over `s` does.
pub record Precedes (s : Sht) (u : ℕ) (s' : Sht) : Type 0 where
  pub start : iter_start s' ≡ u
  pub next : iter_next s' u ≡ iter_start s

-- The key was there and nothing has changed, or it was not and its entry is new.
abbrev pub Changes : Sht → List ℕ → ℕ → Sht → Type 0
Changes s key u s' =
    ((lookup_u s key ≡ some u) × (s' ≡ s)) ⊎ ((lookup_u s key ≡ some 0) × Precedes s u s')

abbrev pub Interns : ℕ → Sht → List ℕ → Option (ℕ × Sht) → Type 0
Interns p s key result =
    (u : ℕ) × (s' : Sht) × (result ≡ some (u, s')) × Holds p s key u s' × Changes s key u s'

intern_u-run :
    (s : Sht) (key : List ℕ) {r : Probe} → find s key ≡ some r → intern_u s key ≡ intern_at s key r
unfolding intern_u
intern_u-run s key run = cc

key_of-same_key :
    (contents key : List ℕ) (x : ℕ)
    → same_key contents key x ≡ true
    → key_of contents (value_index x) ≡ key
unfolding same_key
key_of-same_key contents key x e = same_bytes-≡ (key_of contents (value_index x)) key (ground arith)

of_key-parts :
    (contents key : List ℕ) (x : ℕ)
    → of_key contents key x ≡ true
    → (x ≢ 0) × (same_key contents key x ≡ true)
of_key-parts contents key x m = (ground arith, ground arith)

module _ {p : ℕ} {s : Sht} (v : IsValid p s) (wide : p < 32) (key : List ℕ)
    (key-lt : length key + 8 < 2 ^ 32)
    (room : s.size + entry_words (length key) + s.value_length < 2 ^ 32) where
  abbrev Stopped : ℕ → ℕ → Type 0
  Stopped k d =
      Stops p (low v.loaded) v.loaded.small (same_key s.contents key) (hash_mem key)
        (hash_mem-lt key) s.table (has_empty v.loaded).0 k d

  abbrev u : ℕ
  u = s.size + entry_words (length key)

  abbrev slot : ℕ
  slot = slot_of (hash_mem key) u

  Precedes-new :
      (cap mask count : ℕ) (t : List ℕ)
      → Precedes s u (record (extended s key cap) { table = t; mask = mask; count = count })
  unfolding iter_start iter_next
  Precedes-new cap mask count t =
      let len = key_length-added s.contents key s.size s.value_length v.filled key-lt in
      let big : meta_words ≤ s.size = v.headed in
      record { start = ground arith; next = rw len (ground arith) }

  -- The outcome of the loop leaves a table with the new slot.
  add_key-Interns :
      {t : List ℕ} (r : Probe)
      → lookup_u s key ≡ some 0
      → countp (of_key s.contents key) s.table ≡ 0
      → put r slot s.table s.mask ≡ some t
      → Adds (2 ^ p) s.table slot t
      → Interns p s key (add_key s key r)
  add_key-Interns {t} r before fresh placed a =
      let (cap, added) = add_to_contents-run s key room in
      let (t', mask', run, h) = with_table-Holds v wide key key-lt room fresh cap a in
      (
        u,
        record (extended s key cap) { table = t'; mask = mask'; count = s.count + 1 },
        ap
              (λ (x : ℕ × Sht).
                returning x.0 (with_table x.1 (put r (slot_of (hash_mem key) x.0) s.table s.mask)))
              added
            ∙ ap (λ (o : Option (List ℕ)). returning u (with_table (extended s key cap) o)) placed
            ∙ ap (returning u) run,
        h,
        inr (before, Precedes-new cap mask' (s.count + 1) t'),
      )

  module _ (k d : ℕ) (a : Stopped k d) where
    fresh : countp (of_key s.contents key) s.table ≡ 0
    fresh = absent-of_key v key a.absent

    nz : slot ≢ 0
    nz = new_slot-ne-zero v key key-lt room fresh

    hash_is : u32 slot ≡ hash_mem key
    hash_is = new_slot-hash v key key-lt room fresh

    free-Interns :
        lookup_u s key ≡ some 0 → get_or s.table k 0 ≡ 0 → Interns p s key (add_key s key (free k))
    free-Interns before z = add_key-Interns (free k) before fresh refl (
        put_free p (low v.loaded) v.loaded.small (same_key s.contents key) (hash_mem key)
          (hash_mem-lt key) s.table (has_empty v.loaded).0 k d slot v.loaded.width v.loaded.ordered
          (has_empty v.loaded).1 (has_empty v.loaded).2 nz hash_is a z)

    rich-Interns :
        (x d2 : ℕ)
        → lookup_u s key ≡ some 0
        → get_or s.table k 0 ≡ x
        → x ≢ 0
        → d2 ≡ gap (2 ^ p) k (home (2 ^ p) x)
        → d2 < d
        → Interns p s key (add_key s key (rich k x d2))
    rich-Interns x d2 before met occ far nearer =
        let (t, moved, adds) =
          put_rich p (low v.loaded) v.loaded.small (same_key s.contents key) (hash_mem key)
            (hash_mem-lt key) s.table (has_empty v.loaded).0 k d slot v.loaded.width
            v.loaded.ordered (has_empty v.loaded).1 (has_empty v.loaded).2 nz hash_is a x d2 met occ
            far nearer in
        add_key-Interns (rich k x d2) before fresh
          (ap (λ (n : ℕ). reinsert n (set s.table k slot) s.mask x d2) v.loaded.width
            ∙ ap (λ (m : ℕ). reinsert (2 ^ p) (set s.table k slot) m x d2) v.loaded.masked
            ∙ moved)
          adds

  hit-Interns :
      (k x : ℕ)
      → lookup_u s key ≡ some (value_index x)
      → k < 2 ^ p
      → get_or s.table k 0 ≡ x
      → of_key s.contents key x ≡ true
      → Interns p s key (some (value_index x, s))
  hit-Interns k x before k-lt met m =
      let (nz, same) = of_key-parts s.contents key x m in
      let held : 0 < countp (is x) s.table =
        countp_pos (is x) s.table k (rw v.loaded.width k-lt) (ap (is x) met ∙ is_self x nz) in
      (
        value_index x,
        s,
        refl,
        record {
          power = p;
          doubled = omega arith;
          longer = omega arith;
          same_values = refl;
          valid = v;
          some_index = λ z. absurd (omega (arith, (v.entries x held).starts));
          named = key_of-same_key s.contents key x same;
          reads = kept;
        },
        inl (before, refl),
      )
    where
      kept :
          (j : List ℕ)
          → lookup_u s j ≡ (if same_bytes key j then some (value_index x) else lookup_u s j)
      kept j = elim (Bool-cases (same_bytes key j)) [
        | inl same ↦ rw same (ap (lookup_u s) (sym (same_bytes-≡ key j same)) ∙ before)
        | inr other ↦ rw other refl
      ]

  intern_at-Interns :
      (r : Probe) → find s key ≡ some r → Ends v key r → Interns p s key (intern_at s key r)
  intern_at-Interns (free k) run (d, a, z) = free-Interns k d a (lookup_u-run s key run) z
  intern_at-Interns (hit k x) run (k-lt, met, m) =
      hit-Interns k x (lookup_u-run s key run) k-lt met m
  intern_at-Interns (rich k x d2) run (d, a, met, occ, far, nearer) =
      rich-Interns k d a x d2 (lookup_u-run s key run) met occ far nearer

  -- On a valid table of fewer than 2 ^ 32 slots, whose contents have room for the entry within
  -- 2 ^ 32 words, and for a key of fewer than 2 ^ 32 - 8 bytes, `sht_intern_u` ends with an index that is not 0 and a valid table. The entry at the
  -- index has the key, a lookup of the key finds the index, and a lookup of another key what it found
  -- before. The table has at most doubled, and the contents have at most that entry more. Either the
  -- key was there, its index is returned, and nothing has changed; or it was not,
  -- and its entry comes first in an iteration, before what the iteration had visited first.
  pub intern_u-Interns : Interns p s key (intern_u s key)
  intern_u-Interns =
      let (r, run, out) = find-Ends v key in
      rw (intern_u-run s key run) (intern_at-Interns r run out)

-- The keys of an empty table.
empty-reads :
    {p : ℕ} {s : Sht} → IsValid p s → s.count ≡ 0 → (key : List ℕ) → lookup_u s key ≡ some 0
empty-reads {s = s} v none_there key =
    let mono =
      countp_mono (of_key s.contents key) occupied s.table (λ x m. occupied_of-of_key x m) in
    lookup_u-first v key
    ∙ ap (λ (x : ℕ). some (value_index x))
        (first-none (of_key s.contents key) s.table
          (omega (arith, mono, v.loaded.counted, none_there)))
  where
    occupied_of-of_key : (x : ℕ) → of_key s.contents key x ≡ true → occupied x ≡ true
    occupied_of-of_key x m = ground arith

count-clear : (s : Sht) → (clear s).count ≡ 0
unfolding clear
count-clear s = ground arith

-- After `sht_clear` of a valid table a lookup finds no key.
pub clear-reads : {p : ℕ} {s : Sht} → IsValid p s → (key : List ℕ) → lookup_u (clear s) key ≡ some 0
clear-reads {s = s} v = empty-reads (clear-IsValid v) (count-clear s)
