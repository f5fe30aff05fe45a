-- ===== src/Uuht/Update.antt =====
-- A slot added to a valid table, with the rehash that may follow.
use polyfill_glibc.Base.{
  ℕ, suc, ◌+◌, ◌*◌, ◌^◌, ◌≤◌, ◌<◌, Bool, true, false, List, ◌≡◌, ◌≢◌, refl, ap, ◌∙◌, arith, some,
  inl, inr, Bool-cases, u32, leb,
}
use native.Mathlib.Decide.{ℕ_discrete}
use polyfill_glibc.RobinHood.Count.{countp, digit}
use polyfill_glibc.RobinHood.Placing.{Adds}
use polyfill_glibc.RobinHood.Growing.{count-lt, Adds-IsLoaded, rehash-IsLoaded}
use polyfill_glibc.RobinHood.{rehash_table}
use polyfill_glibc.Uuht.Entries.{of_hash}
use polyfill_glibc.Uuht.Valid.{IsValid}
use polyfill_glibc.Uuht.{Uuht, rehash, count_one_more}

-- `u'` is valid and holds what the table `t` holds and the slot `s`.
pub record Grown (u : Uuht) (s : ℕ) (u' : Uuht) : Type 0 where
  pub power : ℕ
  pub valid : IsValid power u'
  pub counts : (P : ℕ → Bool) → P 0 ≡ false → countp P u'.table ≡ countp P u.table + digit (P s)

rehash-run :
    (u : Uuht) {t : List ℕ}
    → rehash_table u.table u.mask ≡ some t
    → rehash u ≡ some (record { table = t; mask = u32 (u.mask * 2 + 1); count = u.count })
unfolding rehash
rehash-run u run = cc

digit-le : (b : Bool) → digit b ≤ 1
digit-le true = omega arith
digit-le false = omega arith

other_hash : (h s : ℕ) → u32 s ≢ h → of_hash h s ≡ false
other_hash h s ne = ground arith

module _ (u : Uuht) (next : u32 (u.count + 1) ≡ u.count + 1) where
  count_one_more-full :
      leb (u.mask * 3) ((u.count + 1) * 4) ≡ true
      → count_one_more u ≡ rehash (record u { count = u.count + 1 })
  unfolding count_one_more
  count_one_more-full full = rw (next, full) refl

  count_one_more-light :
      leb (u.mask * 3) ((u.count + 1) * 4) ≡ false
      → count_one_more u ≡ some (record u { count = u.count + 1 })
  unfolding count_one_more
  count_one_more-light light = rw (next, light) refl

module _ {p : ℕ} {u : Uuht} (v : IsValid p u) (room : p < 32) (s : ℕ) (nz : s ≢ 0)
    (fresh : countp (of_hash (u32 s)) u.table ≡ 0) where
  module _ {t : List ℕ} (a : Adds (2 ^ p) u.table s t) where
    abbrev written : Uuht
    written = record u { table = t }

    once_more : (h : ℕ) → countp (of_hash h) t ≤ 1
    once_more h = elim (ℕ_discrete (u32 s) h) [
      | yes same ↦ omega (
        arith,
        a.counts (of_hash h) refl,
        ap (λ (x : ℕ). countp (of_hash x) u.table) same,
        digit-le (of_hash h s),
      )
      | no other ↦
          omega (arith, a.counts (of_hash h) refl, v.once h, ap digit (other_hash h s other))
    ]

    Grown-plain :
        (u.count + 1) * 4 < u.mask * 3
        → Grown u s (record { table = t; mask = u.mask; count = u.count + 1 })
    Grown-plain light = record {
      power = p;
      valid = record { loaded = Adds-IsLoaded v.loaded s nz a light; once = once_more };
      counts = a.counts;
    }

    -- `uuht_rehash` doubles the table and keeps its slots.
    rehash-Grown :
        (w : Uuht) × (rehash (record written { count = u.count + 1 }) ≡ some w) × Grown u s w
    rehash-Grown =
        let (r, run, loaded, counts) = rehash-IsLoaded v.loaded s nz a room in
        (
          _,
          rehash-run (record written { count = u.count + 1 }) run,
          record {
            power = suc p;
            valid = record {
              loaded = loaded;
              once = λ h.
                  omega (arith, counts (of_hash h) refl, a.counts (of_hash h) refl, once_more h);
            };
            counts = counts;
          },
        )

  pub count_one_more-Grown :
      {t : List ℕ}
      → Adds (2 ^ p) u.table s t
      → (u' : Uuht) × (count_one_more (record u { table = t }) ≡ some u') × Grown u s u'
  count_one_more-Grown {t} a =
      let next : u32 (u.count + 1) ≡ u.count + 1 = omega (arith, count-lt v.loaded) in
      elim (Bool-cases (leb (u.mask * 3) ((u.count + 1) * 4))) [
        | inl full ↦
            let (w, run, g) = rehash-Grown a in
            (w, count_one_more-full (record u { table = t }) next full ∙ run, g)
        | inr light ↦ (
          record { table = t; mask = u.mask; count = u.count + 1 },
          count_one_more-light (record u { table = t }) next light,
          Grown-plain a (ground arith),
        )
      ]
