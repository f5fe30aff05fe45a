-- ===== src/V2f/Looking.antt =====
-- `v2f_map_lookup` and `v2f_map_init`, and a lookup after `v2f_map_set_range`.
use polyfill_glibc.Base.{
  ℕ, zero, suc, ◌+◌, ◌-◌, ◌^◌, ◌≤◌, ◌<◌, some, ◌≡◌, ◌≢◌, refl, sym, ap, ◌∙◌, arith, ◌&&◌,
  if◌then◌else◌, ltb, leb, sub64, List,
}
use native.Mathlib.Decide.{ℕ_discrete, dec_lt}
use polyfill_glibc.V2f.Limits.{IsSplit, Covers}
use polyfill_glibc.V2f.Placing.{walk_down-Covers, first-base}
use polyfill_glibc.V2f.Setting.{set_range-Ranged}
use polyfill_glibc.V2f.Laying.{Maps-unique}
use polyfill_glibc.V2f.Valid.{IsValid, Maps, limit, limit-in, base-last}
use polyfill_glibc.V2f.{
  V2fMap, V2fEntry, base, entry, init, unused, walk_up, walk_down, lookup, set_range, now_cached,
}

walk_up-stop :
    (fuel : ℕ) (es : List V2fEntry) (v i : ℕ)
    → v ≤ sub64 (base es (suc (suc i))) 1
    → walk_up (suc fuel) es v i ≡ some (suc i)
unfolding walk_up
walk_up-stop fuel es v i h = ground arith

walk_up-step :
    (fuel : ℕ) (es : List V2fEntry) (v i : ℕ)
    → sub64 (base es (suc (suc i))) 1 < v
    → walk_up (suc fuel) es v i ≡ walk_up fuel es v (suc i)
unfolding walk_up
walk_up-step fuel es v i h = ground arith

module _ (es : List V2fEntry) (count : ℕ) (s : IsSplit (limit es count) count)
    (sentinel : base es count ≡ 0) (v : ℕ) (v-lt : v < 2 ^ 64) where
  -- The loop upwards from a part before that of `v` finds the part of `v`.
  pub walk_up-Covers :
      (fuel i : ℕ)
      → i < count
      → count ≤ fuel + i
      → limit es count (suc i) ≤ v
      → (j : ℕ) × (walk_up fuel es v i ≡ some j) × Covers (limit es count) count j v
  walk_up-Covers zero i lt enough h = absurd (omega arith)
  walk_up-Covers (suc fuel) i lt enough h = elim (ℕ_discrete (suc i) count) [
    | yes e ↦ absurd (omega (arith, ap (limit es count) e, s.last))
    | no ne ↦
        let last = base-last es count s sentinel (suc i) (omega arith) in
        let rises = s.rises (suc i) (omega arith) in
        elim (dec_lt v (limit es count (suc (suc i)))) [
          | yes below ↦ (
            suc i,
            walk_up-stop fuel es v i (omega (arith, last)),
            record { inside = omega arith; from = h; below = below },
          )
          | no past ↦
              let (j, run, c) =
                walk_up-Covers fuel (suc i) (omega arith) (omega arith) (omega arith) in
              (j, walk_up-step fuel es v i (omega (arith, last, rises)) ∙ run, c)
        ]
  ]

module _ (m : V2fMap) (x : ℕ) where
  lookup-cached :
      base m.entries m.cached ≤ x
      → x ≤ sub64 (base m.entries (suc m.cached)) 1
      → lookup m x ≡ some (m.cached, m)
  unfolding lookup
  lookup-cached h le = ground arith

  lookup-up :
      {i : ℕ}
      → base m.entries m.cached ≤ x
      → sub64 (base m.entries (suc m.cached)) 1 < x
      → walk_up m.capacity m.entries x m.cached ≡ some i
      → lookup m x ≡ some (i, record m { cached = i })
  unfolding lookup
  lookup-up h lt run = ground arith ∙ ap (now_cached m) run

  lookup-down :
      x < base m.entries m.cached
      → lookup m x
        ≡ some (
          walk_down m.entries x (m.cached - 1),
          record m { cached = walk_down m.entries x (m.cached - 1) },
        )
  unfolding lookup
  lookup-down h = ground arith

-- `m'` is `m` but for the cached entry, which is the one that holds `x`.
pub record Found (m : V2fMap) (x i : ℕ) (m' : V2fMap) : Type 0 where
  pub covers : Covers (limit m.entries m.count) m.count i x
  pub valid : IsValid m'
  pub same : m' ≡ record m { cached = i }

recached :
    (m : V2fMap) (i x : ℕ)
    → IsValid m
    → Covers (limit m.entries m.count) m.count i x
    → Found m x i (record m { cached = i })
recached m i x v c = record {
  covers = c;
  valid = record {
    cells = v.cells;
    room = v.room;
    cache = c.inside;
    split = v.split;
    sentinel = v.sentinel;
  };
  same = refl;
}

-- On a valid map `v2f_map_lookup` ends at the entry that holds the address, whichever entry is
-- cached, and changes nothing but the cached entry.
pub lookup-Found :
    (m : V2fMap) (x : ℕ)
    → IsValid m
    → x < 2 ^ 64
    → (i : ℕ) × (m' : V2fMap) × (lookup m x ≡ some (i, m')) × Found m x i m'
lookup-Found m x v x-lt =
    let here = limit-in m.entries m.count m.cached v.cache in
    let last = base-last m.entries m.count v.split v.sentinel m.cached v.cache in
    let rises = v.split.rises m.cached v.cache in
    elim (dec_lt x (base m.entries m.cached)) [
      | yes below ↦
          let (c, le) =
            walk_down-Covers m.entries m.count v.split v.sentinel x (m.cached - 1)
              (omega (arith, v.cache)) (under below here) in
          (
            walk_down m.entries x (m.cached - 1),
            record m { cached = walk_down m.entries x (m.cached - 1) },
            lookup-down m x below,
            recached m (walk_down m.entries x (m.cached - 1)) x v c,
          )
      | no from ↦ elim (dec_lt x (limit m.entries m.count (suc m.cached))) [
        | yes inside ↦ (
          m.cached,
          m,
          lookup-cached m x (omega arith) (omega (arith, last)),
          record {
            covers = record { inside = v.cache; from = omega (arith, here); below = inside };
            valid = v;
            same = refl;
          },
        )
        | no past ↦
            let (j, run, c) =
              walk_up-Covers m.entries m.count v.split v.sentinel x x-lt m.capacity m.cached v.cache
                (omega (arith, v.room)) (omega arith) in
            (
              j,
              record m { cached = j },
              lookup-up m x (omega arith) (omega (arith, last, rises)) run,
              recached m j x v c,
            )
      ]
    ]
  where
    under :
        x < base m.entries m.cached
        → limit m.entries m.count m.cached ≡ base m.entries m.cached
        → x < limit m.entries m.count (suc (m.cached - 1))
    under h here = elim (ℕ_discrete m.cached 0) [
      | yes z ↦
          absurd
            (omega (arith, first-base m.entries m.count v.split v.sentinel, ap (base m.entries) z))
      | no ne ↦
          let e : suc (m.cached - 1) ≡ m.cached = omega arith in
          omega (arith, here, ap (limit m.entries m.count) e)
    ]

Found-Maps : {m m' : V2fMap} {x i : ℕ} → Found m x i m' → Maps m x (entry m'.entries i).v2f
Found-Maps {m} {m'} {x} {i} f = record {
  part = i;
  covers = f.covers;
  says = ap (λ (a : V2fMap). (entry a.entries i).v2f) (sym f.same);
}

module _ (m : V2fMap) (v : IsValid m) (small : m.capacity < 2 ^ 31) (vbase size w : ℕ)
    (nz : size ≢ 0) (inside : vbase + size ≤ 2 ^ 64) (x : ℕ) (x-lt : x < 2 ^ 64) where
  -- On a valid map that is not too large to be doubled, and for a range that is not empty and does
  -- not pass the last address: the lookups of an address before and after `v2f_map_set_range` end,
  -- and the one after gives the value that was set if the address is in the range, and else the
  -- value that the one before gives.
  pub set_range-lookup :
      (i : ℕ) × (m₁ : V2fMap) × (j : ℕ) × (m₂ : V2fMap) × (lookup m x ≡ some (i, m₁))
      × (lookup (set_range m vbase size w) x ≡ some (j, m₂))
      × ((entry m₂.entries j).v2f
          ≡ (if leb vbase x && ltb x (vbase + size) then w else (entry m₁.entries i).v2f))
  set_range-lookup =
      let (i, m₁, run, f) = lookup-Found m x v x-lt in
      let r = set_range-Ranged m v small vbase size w nz inside in
      let (j, m₂, run₂, g) = lookup-Found (set_range m vbase size w) x r.valid x-lt in
      (
        i,
        m₁,
        j,
        m₂,
        run,
        run₂,
        Maps-unique r.valid (Found-Maps g) (r.maps x (entry m₁.entries i).v2f (Found-Maps f)),
      )

init-rises :
    (w i : ℕ) → i < 1 → limit (init unused w).entries 1 i < limit (init unused w).entries 1 (suc i)
unfolding init limit
init-rises w zero h = omega arith
init-rises w (suc i) h = absurd (omega arith)

-- A new map is valid.
pub init-unused-IsValid : (w : ℕ) → IsValid (init unused w)
unfolding init limit
init-unused-IsValid w = record {
  cells = refl;
  room = omega arith;
  cache = omega arith;
  split = record { first = refl; last = refl; rises = init-rises w };
  sentinel = refl;
}

-- A new map says its initial value of every 64-bit address.
pub init-Maps : (w x : ℕ) → x < 2 ^ 64 → Maps (init unused w) x w
unfolding init limit
init-Maps w x lt = record {
  part = 0;
  covers = record { inside = omega arith; from = omega arith; below = lt };
  says = refl;
}
