-- ===== src/Sht/Lookup.antt =====
-- `sht_lookup_u` ends, and reads the slot of the key.
use polyfill_glibc.Base.{ℕ, ◌-◌, ◌^◌, ◌<◌, Bool, false, List, ◌≡◌, sym, ap, ◌∙◌, some, get_or}
use polyfill_glibc.RobinHood.Count.{countp}
use polyfill_glibc.RobinHood.Entries.{first, first-none, first-at, countp-none}
use polyfill_glibc.RobinHood.Growing.{low, has_empty}
use polyfill_glibc.RobinHood.Probing.{probe_total, Outcome}
use polyfill_glibc.RobinHood.{Probe, free, hit, rich, probe}
use polyfill_glibc.Sht.Hash.{hash_mem, hash_mem-lt}
use polyfill_glibc.Sht.Valid.{IsValid, of_key}
use polyfill_glibc.Sht.{Sht, same_key, value_index, find, found_index, lookup_u}

pub lookup_u-run :
    (s : Sht) (key : List ℕ) {r : Probe}
    → find s key ≡ some r
    → lookup_u s key ≡ some (found_index r)
unfolding lookup_u
lookup_u-run s key run = cc

module _ {p : ℕ} {s : Sht} (v : IsValid p s) (key : List ℕ) where
  abbrev knows : ℕ → Bool
  knows = same_key s.contents key

  abbrev h : ℕ
  h = hash_mem key

  abbrev e : ℕ
  e = (has_empty v.loaded).0

  abbrev pub Ends : Probe → Type 0
  Ends = Outcome p (low v.loaded) v.loaded.small knows h (hash_mem-lt key) s.table e

  find-probe : find s key ≡ probe knows (2 ^ p) s.table (2 ^ p - 1) h 0
  find-probe =
      ap (λ (n : ℕ). probe knows n s.table s.mask h 0) v.loaded.width
      ∙ ap (λ (m : ℕ). probe knows (2 ^ p) s.table m h 0) v.loaded.masked

  pub find-Ends : (r : Probe) × (find s key ≡ some r) × Ends r
  find-Ends =
      let (r, run, out) =
        probe_total p (low v.loaded) v.loaded.small knows h (hash_mem-lt key) s.table e
          v.loaded.ordered (has_empty v.loaded).1 (has_empty v.loaded).2 in
      (r, find-probe ∙ run, out)

  pub absent-of_key :
      ((i : ℕ) → i < 2 ^ p → of_key s.contents key (get_or s.table i 0) ≡ false)
      → countp (of_key s.contents key) s.table ≡ 0
  absent-of_key away =
      countp-none (of_key s.contents key) s.table (λ i lt. away i (rw v.loaded.width at lt))

  pub absent-first :
      ((i : ℕ) → i < 2 ^ p → of_key s.contents key (get_or s.table i 0) ≡ false)
      → value_index (first (of_key s.contents key) s.table) ≡ 0
  absent-first away =
      ap value_index (first-none (of_key s.contents key) s.table (absent-of_key away))

  pub found_index-first :
      (r : Probe) → Ends r → found_index r ≡ value_index (first (of_key s.contents key) s.table)
  found_index-first (free k) out = sym (absent-first out.1.absent)
  found_index-first (hit k x) out = ap value_index (
      sym (
        first-at (of_key s.contents key) s.table k (v.once key) (rw v.loaded.width out.0)
          (ap (of_key s.contents key) out.1 ∙ out.2)
        ∙ out.1))
  found_index-first (rich k x d2) out = sym (absent-first out.1.absent)

  pub lookup_u-first : lookup_u s key ≡ some (value_index (first (of_key s.contents key) s.table))
  lookup_u-first =
      let (r, run, out) = find-Ends in lookup_u-run s key run ∙ ap some (found_index-first r out)
