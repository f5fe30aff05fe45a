-- ===== src/Uuht/Laws.antt =====
-- What the insertions do to the slots of a valid table.
use polyfill_glibc.Base.{
  ℕ, ◌+◌, ◌^◌, ◌<◌, Bool, true, false, List, ◌≡◌, ◌≢◌, ◌⊎◌, refl, sym, ap, ◌∙◌, arith, some, ◌==◌,
  if◌then◌else◌, length, get_or, u32, bit_or, set as write, length-set, get_or-set_self,
}
use mathlib.Core.Bool.{false≢true}
use native.Mathlib.Decide.{ℕ_discrete}
use polyfill_glibc.RobinHood.Count.{countp, countp-set, digit, occupied, countp_pos}
use polyfill_glibc.RobinHood.Index.{home, gap, home_of_u32}
use polyfill_glibc.RobinHood.Order.{overwrite-IsOrdered}
use polyfill_glibc.RobinHood.Inserting.{put_free as table_free, put_rich as table_rich}
use polyfill_glibc.RobinHood.Placing.{Adds}
use polyfill_glibc.RobinHood.Probing.{Stops}
use polyfill_glibc.RobinHood.{reinsert}
use polyfill_glibc.RobinHood.Entries.{is, is_self, first_ext, first_of-countp}
use polyfill_glibc.Uuht.Entries.{of_hash, entry_of}
use polyfill_glibc.Uuht.Lookup.{absent-entry}
use polyfill_glibc.Uuht.Update.{Grown, count_one_more-Grown}
use polyfill_glibc.Uuht.Valid.{IsValid}
use polyfill_glibc.RobinHood.Growing.{low, has_empty}
use polyfill_glibc.Uuht.{Uuht, any_key, count_one_more, put_free, put_rich, pack}
use polyfill_glibc.Uuht.Slots.{pack-hash, pack-ne-zero, bit_or-ne-zero}

-- `u'` is valid, the slot of the hash of `s` is `s`, and every other hash has the slot it had.
pub record Sets (u : Uuht) (s : ℕ) (u' : Uuht) : Type 0 where
  pub power : ℕ
  pub valid : IsValid power u'
  pub entries : (h : ℕ) → entry_of h u'.table ≡ (if u32 s == h then s else entry_of h u.table)

of_own_hash : (s : ℕ) → s ≢ 0 → of_hash (u32 s) s ≡ true
of_own_hash s nz = ground arith

-- A slot of another hash passes no test for this one.
foreign : (h s : ℕ) → u32 s ≢ h → of_hash h s ≡ false
foreign h s ne = ground arith

foreign_is : (h s y : ℕ) → u32 s ≢ h → of_hash h y ≡ true → is y s ≡ false
foreign_is h s y ne m = elim (ℕ_discrete s y) [
  | yes same ↦ absurd (false≢true (sym (foreign h s ne) ∙ ap (of_hash h) same ∙ m))
  | no other ↦ ground arith
]

pub ==_false : (x : ℕ) → x ≢ 0 → (x == 0) ≡ false
==_false x ne = ground arith

put_free-run :
    (u : Uuht) (k s : ℕ)
    → s ≢ 0
    → put_free u k s ≡ count_one_more (record u { table = write u.table k s })
unfolding put_free
put_free-run u k s nz = rw (==_false s nz)

put_rich-run :
    (u : Uuht) (k x d2 h val : ℕ) {t : List ℕ}
    → bit_or h val ≢ 0
    → reinsert (length u.table) (write u.table k (pack h val)) u.mask x d2 ≡ some t
    → put_rich u k x d2 h val ≡ count_one_more (record u { table = t })
unfolding put_rich
put_rich-run u k x d2 h val nz run = rw (==_false (bit_or h val) nz) (rw run refl)

pub if_true {ℓ} : {A : Type ℓ} (a b : ℕ) (x y : A) → a ≡ b → x ≡ (if a == b then x else y)
if_true a b x y e = ground arith

pub if_false {ℓ} : {A : Type ℓ} (a b : ℕ) (x y : A) → a ≢ b → y ≡ (if a == b then x else y)
if_false a b x y e = ground arith

module _ (u u' : Uuht) (s : ℕ) (nz : s ≢ 0) where
  -- The entries of two valid tables that count alike but for slots of one hash.
  pub Sets-by_count :
      {q : ℕ}
      → IsValid q u'
      → 0 < countp (is s) u'.table
      → ((P : ℕ → Bool)
          → P 0 ≡ false
          → ((x : ℕ) → u32 x ≡ u32 s → P x ≡ false)
          → countp P u'.table ≡ countp P u.table)
      → Sets u s u'
  Sets-by_count {q} v held rest = record { power = q; valid = v; entries = entries }
    where
      entries : (h : ℕ) → entry_of h u'.table ≡ (if u32 s == h then s else entry_of h u.table)
      entries h = elim (ℕ_discrete (u32 s) h) [
        | yes same ↦
            first_of-countp (of_hash h) u'.table s (v.once h)
              (ap (λ (x : ℕ). of_hash x s) (sym same) ∙ of_own_hash s nz) held
            ∙ if_true (u32 s) h s (entry_of h u.table) same
        | no other ↦
            first_ext (of_hash h) refl u.table u'.table (v.once h)
              (rest (of_hash h) refl (λ x e. foreign h x (λ f. other (sym e ∙ f))))
              (λ y m. rest (is y) refl (λ x e. foreign_is h x y (λ f. other (sym e ∙ f)) m))
            ∙ if_false (u32 s) h s (entry_of h u.table) other
      ]

  pub Grown-Sets : Grown u s u' → Sets u s u'
  Grown-Sets g =
      Sets-by_count g.valid (omega (arith, g.counts (is s) refl, ap digit (is_self s nz)))
        (λ P p0 own. omega (arith, g.counts P p0, ap digit (own s refl)))

of_hash_congr : (h x s : ℕ) → x ≢ 0 → s ≢ 0 → u32 x ≡ u32 s → of_hash h x ≡ of_hash h s
of_hash_congr h x s p q e = ground arith

pub of_hash-parts : (h x : ℕ) → of_hash h x ≡ true → (x ≢ 0) × (u32 x ≡ h)
of_hash-parts h x m = (ground arith, ground arith)

occupied_congr : (x s : ℕ) → x ≢ 0 → s ≢ 0 → occupied x ≡ occupied s
occupied_congr x s p q = ground arith

-- Writing over the slot of the same hash.
module _ {p : ℕ} {u : Uuht} (v : IsValid p u) (s : ℕ) (nz : s ≢ 0) (k x : ℕ) (lt : k < 2 ^ p)
    (met : get_or u.table k 0 ≡ x) (m : of_hash (u32 s) x ≡ true) where
  abbrev t' : List ℕ
  t' = write u.table k s

  in_table : k < length u.table
  in_table = omega (arith, v.loaded.width)

  old : x ≢ 0
  old = (of_hash-parts (u32 s) x m).0

  same : u32 x ≡ u32 s
  same = (of_hash-parts (u32 s) x m).1

  exchange : (P : ℕ → Bool) → countp P t' + digit (P x) ≡ countp P u.table + digit (P s)
  exchange P = omega (arith, countp-set P u.table k s in_table, ap (λ (y : ℕ). digit (P y)) met)

  overwrite-IsValid : IsValid p (record u { table = t' })
  overwrite-IsValid = record {
    loaded = record {
      wide = v.loaded.wide;
      small = v.loaded.small;
      width = length-set u.table k s ∙ v.loaded.width;
      masked = v.loaded.masked;
      ordered =
          overwrite-IsOrdered (2 ^ p) u.table k s in_table (λ z. old (sym met ∙ z)) nz
            (home_of_u32 (2 ^ p) s (get_or u.table k 0) (sym same ∙ ap u32 (sym met)))
            v.loaded.ordered;
      counted =
          omega (arith, exchange occupied, v.loaded.counted, ap digit (occupied_congr x s old nz));
      load = v.loaded.load;
    };
    once = λ h.
        omega (arith, exchange (of_hash h), v.once h, ap digit (of_hash_congr h x s old nz same));
  }

  pub overwrite-Sets : Sets u s (record u { table = t' })
  overwrite-Sets =
      Sets-by_count u (record u { table = t' }) s nz overwrite-IsValid
        (countp_pos (is s) t' k (rw length-set in_table)
          (ap (is s) (get_or-set_self u.table k s 0 in_table) ∙ is_self s nz))
        (λ P p0 own. omega (arith, exchange P, ap digit (own s refl), ap digit (own x same)))

-- Where the probing loop found no slot of the hash, the end of an insertion adds the new one.
module _ {p : ℕ} {u : Uuht} (v : IsValid p u) (room : p < 32) (h val : ℕ) (h-lt : h < 2 ^ 32)
    (val-lt : val < 2 ^ 32) (some_half : (h ≢ 0) ⊎ (val ≢ 0)) where
  abbrev s : ℕ
  s = pack h val

  nz : s ≢ 0
  nz = pack-ne-zero h val h-lt val-lt some_half

  hash_is : u32 s ≡ h
  hash_is = pack-hash h val h-lt val-lt

  abbrev e : ℕ
  e = (has_empty v.loaded).0

  abbrev Stopped : ℕ → ℕ → Type 0
  Stopped k d = Stops p (low v.loaded) v.loaded.small any_key h h-lt u.table e k d

  grow :
      {t : List ℕ} {k d : ℕ}
      → Stopped k d
      → Adds (2 ^ p) u.table s t
      → (u' : Uuht) × (count_one_more (record u { table = t }) ≡ some u') × Sets u s u'
  grow a adds =
      let fresh =
        ap (λ (x : ℕ). countp (of_hash x) u.table) hash_is ∙ absent-entry v h h-lt a.absent in
      let (u', run, g) = count_one_more-Grown v room s nz fresh adds in
      (u', run, Grown-Sets u u' s nz g)

  pub put_free-Sets :
      (k d : ℕ)
      → Stopped k d
      → get_or u.table k 0 ≡ 0
      → (u' : Uuht) × (put_free u k s ≡ some u') × Sets u s u'
  put_free-Sets k d a z =
      let adds =
        table_free p (low v.loaded) v.loaded.small any_key h h-lt u.table e k d s v.loaded.width
          v.loaded.ordered (has_empty v.loaded).1 (has_empty v.loaded).2 nz hash_is a z in
      let (u', run, g) = grow a adds in (u', put_free-run u k s nz ∙ run, g)

  pub put_rich-Sets :
      (k d x d2 : ℕ)
      → Stopped k d
      → get_or u.table k 0 ≡ x
      → x ≢ 0
      → d2 ≡ gap (2 ^ p) k (home (2 ^ p) x)
      → d2 < d
      → (u' : Uuht) × (put_rich u k x d2 h val ≡ some u') × Sets u s u'
  put_rich-Sets k d x d2 a met occ far nearer =
      let (r, moved, adds) =
        table_rich p (low v.loaded) v.loaded.small any_key h h-lt u.table e k d s v.loaded.width
          v.loaded.ordered (has_empty v.loaded).1 (has_empty v.loaded).2 nz hash_is a x d2 met occ
          far nearer in
      let (u', run, g) = grow a adds in
      (
        u',
        put_rich-run u k x d2 h val (bit_or-ne-zero h val h-lt val-lt some_half) (
              ap (λ (n : ℕ). reinsert n (write u.table k s) u.mask x d2) v.loaded.width
              ∙ ap (λ (m : ℕ). reinsert (2 ^ p) (write u.table k s) m x d2) v.loaded.masked
              ∙ moved)
            ∙ run,
        g,
      )
