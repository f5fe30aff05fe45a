-- ===== src/V2f/Growing.antt =====
-- The array grows, and the cells in use stay as they are.
use polyfill_glibc.Base.{
  ℕ, suc, ◌+◌, ◌-◌, ◌*◌, ◌^◌, ◌≤◌, ◌<◌, ◌++◌, ◌≡◌, refl, sym, ap, ◌∙◌, arith, length-append,
  length-replicate, replicate, u32,
}
use native.Mathlib.Decide.{ℕ_discrete, dec_lt}
use polyfill_glibc.V2f.Cells.{get_or-append_left}
use polyfill_glibc.V2f.Limits.{IsSplit, Covers}
use polyfill_glibc.V2f.Valid.{IsValid, Maps, limit, limit-in, limit-last}
use polyfill_glibc.V2f.{V2fMap, V2fEntry, entry, blank, ensure_capacity}

module _ {lim lim' : ℕ → ℕ} {count : ℕ} (same : (i : ℕ) → i ≤ count → lim' i ≡ lim i) where
  pub IsSplit-ext : IsSplit lim count → IsSplit lim' count
  IsSplit-ext s = record {
    first = same 0 (omega arith) ∙ s.first;
    last = same count (omega arith) ∙ s.last;
    rises = λ i h. omega (arith, same i (omega arith), same (suc i) h, s.rises i h);
  }

  pub Covers-ext : {i x : ℕ} → Covers lim count i x → Covers lim' count i x
  Covers-ext {i} {x} c = record {
    inside = c.inside;
    from = omega (arith, same i (omega (arith, c.inside)), c.from);
    below = omega (arith, same (suc i) c.inside, c.below);
  }

-- `m'` has the parts of `m`, in an array that is at least as large.
pub record Keeps (m m' : V2fMap) : Type 0 where
  pub valid : IsValid m'
  pub count_same : m'.count ≡ m.count
  pub maps : (x w : ℕ) → Maps m x w → Maps m' x w
  pub spare : m'.count + 2 < m'.capacity
  pub small : m'.capacity < 2 ^ 32

module _ (m : V2fMap) (v : IsValid m) (small : m.capacity < 2 ^ 31) where
  abbrev larger : V2fMap
  larger = record m {
    entries = m.entries ++ replicate (u32 (m.capacity * 2) - m.capacity) blank;
    cached = 0;
    capacity = u32 (m.capacity * 2);
  }

  ensure_capacity-grows : m.capacity ≤ m.count + 2 → ensure_capacity m ≡ larger
  unfolding ensure_capacity
  ensure_capacity-grows h = ground (arith, v.room)

  ensure_capacity-stays : m.count + 2 < m.capacity → ensure_capacity m ≡ m
  unfolding ensure_capacity
  ensure_capacity-stays h = ground arith

  cell : (i : ℕ) → i ≤ m.count → entry larger.entries i ≡ entry m.entries i
  cell i h =
      get_or-append_left m.entries (replicate (u32 (m.capacity * 2) - m.capacity) blank) i blank
        (omega (arith, v.cells, v.room))

  same_limit : (i : ℕ) → i ≤ m.count → limit larger.entries m.count i ≡ limit m.entries m.count i
  same_limit i h = elim (ℕ_discrete i m.count) [
    | yes e ↦
        ap (limit larger.entries m.count) e
        ∙ limit-last larger.entries m.count
        ∙ sym (ap (limit m.entries m.count) e ∙ limit-last m.entries m.count)
    | no ne ↦
        limit-in larger.entries m.count i (omega arith)
        ∙ ap (λ (c : V2fEntry). c.vbase) (cell i h)
        ∙ sym (limit-in m.entries m.count i (omega arith))
  ]

  larger-Keeps : Keeps m larger
  larger-Keeps = record {
    valid = record {
      cells = omega (
        arith,
        length-append m.entries (replicate (u32 (m.capacity * 2) - m.capacity) blank),
        length-replicate (u32 (m.capacity * 2) - m.capacity) blank,
        v.cells,
      );
      room = omega (arith, v.room);
      cache = omega (arith, v.cache);
      split = IsSplit-ext same_limit v.split;
      sentinel = ap (λ (c : V2fEntry). c.vbase) (cell m.count (omega arith)) ∙ v.sentinel;
    };
    count_same = refl;
    maps = λ x w k. record {
      part = k.part;
      covers = Covers-ext same_limit k.covers;
      says = ap (λ (c : V2fEntry). c.v2f) (cell k.part (omega (arith, k.covers.inside))) ∙ k.says;
    };
    spare = omega (arith, v.room, v.cache);
    small = omega arith;
  }

  pub ensure_capacity-Keeps : Keeps m (ensure_capacity m)
  ensure_capacity-Keeps = elim (dec_lt (m.count + 2) m.capacity) [
    | yes h ↦
        rw (ensure_capacity-stays h) (record {
          valid = v;
          count_same = refl;
          maps = λ x w k. k;
          spare = h;
          small = omega arith;
        })
    | no h ↦ rw (ensure_capacity-grows (omega arith)) larger-Keeps
  ]
