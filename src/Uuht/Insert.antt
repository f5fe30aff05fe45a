-- ===== src/Uuht/Insert.antt =====
-- The ends of the three insertions, on a mixed key: the slot of the key is set, or kept.
use polyfill_glibc.Base.{
  ℕ, ◌^◌, ◌<◌, true, ◌≡◌, ◌≢◌, ◌⊎◌, refl, ap, ap₂, ◌∙◌, arith, some, set as write,
}
use polyfill_glibc.RobinHood.{Probe, free, hit, rich}
use polyfill_glibc.RobinHood.Probing.{Outcome}
use polyfill_glibc.Uuht.Entries.{of_hash}
use polyfill_glibc.Uuht.Laws.{
  Sets, put_free-Sets, put_rich-Sets, overwrite-Sets, ==_false, of_hash-parts,
}
use polyfill_glibc.Uuht.Lookup.{value_or}
use polyfill_glibc.Uuht.Slots.{pack-hash, pack-ne-zero}
use polyfill_glibc.Uuht.Valid.{IsValid}
use polyfill_glibc.RobinHood.Growing.{low, has_empty}
use polyfill_glibc.Uuht.{
  Uuht, any_key, value, pack, overwrite, set_at, insert_at, found_slot, returning,
}

found-value : (h x : ℕ) → of_hash h x ≡ true → value x ≡ value_or x 0
found-value h x m = ground arith

overwrite-run :
    (u : Uuht) (k s : ℕ) → s ≢ 0 → overwrite u k s ≡ record u { table = write u.table k s }
overwrite-run u k s nz = rw (==_false s nz)

module _ {p : ℕ} {u : Uuht} (v : IsValid p u) (room : p < 32) (h val : ℕ) (h-lt : h < 2 ^ 32)
    (val-lt : val < 2 ^ 32) (some_half : (h ≢ 0) ⊎ (val ≢ 0)) where
  abbrev s : ℕ
  s = pack h val

  abbrev Ends : Probe → Type 0
  Ends = Outcome p (low v.loaded) v.loaded.small any_key h h-lt u.table (has_empty v.loaded).0

  -- `uuht_set` sets the slot, and returns the value that it replaces, or zero.
  pub set_at-Sets :
      (r : Probe)
      → Ends r
      → (u' : Uuht) × (set_at u h val r ≡ some (value_or (found_slot r) 0, u')) × Sets u s u'
  set_at-Sets (free k) (d, a, z) =
      let (u', run, g) = put_free-Sets v room h val h-lt val-lt some_half k d a z in
      (u', ap (returning 0) run, g)
  set_at-Sets (hit k x) (lt, met, m) = (
    record u { table = write u.table k s },
    ap₂ (λ (a : ℕ) (b : Uuht). some (a, b)) (found-value h x m)
        (overwrite-run u k s (pack-ne-zero h val h-lt val-lt some_half)),
    overwrite-Sets v s (pack-ne-zero h val h-lt val-lt some_half) k x lt met
        (ap (λ (y : ℕ). of_hash y x) (pack-hash h val h-lt val-lt) ∙ m),
  )
  set_at-Sets (rich k x d2) (d, a, met, occ, far, nearer) =
      let (u', run, g) =
        put_rich-Sets v room h val h-lt val-lt some_half k d x d2 a met occ far nearer in
      (u', ap (returning 0) run, g)

  -- `uuht_set_if_absent` and `uuht_lookup_or_set` set the slot only where there is none.
  pub insert_at-Sets :
      (fresh : ℕ) (r : Probe)
      → Ends r
      → (u' : Uuht) × (insert_at u h val fresh r ≡ some (value_or (found_slot r) fresh, u'))
        × (found_slot r ≡ 0 → Sets u s u')
        × (found_slot r ≢ 0 → u' ≡ u)
  insert_at-Sets fresh (free k) (d, a, z) =
      let (u', run, g) = put_free-Sets v room h val h-lt val-lt some_half k d a z in
      (u', ap (returning fresh) run, (λ _. g), (λ ne. absurd (ne refl)))
  insert_at-Sets fresh (hit k x) (lt, met, m) =
      (u, ground arith, (λ z. absurd ((of_hash-parts h x m).0 z)), (λ _. refl))
  insert_at-Sets fresh (rich k x d2) (d, a, met, occ, far, nearer) =
      let (u', run, g) =
        put_rich-Sets v room h val h-lt val-lt some_half k d x d2 a met occ far nearer in
      (u', ap (returning fresh) run, (λ _. g), (λ ne. absurd (ne refl)))
