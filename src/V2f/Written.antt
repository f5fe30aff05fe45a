-- ===== src/V2f/Written.antt =====
-- The map that is left when the new record has been written: its parts are the old ones with the
-- record spliced in.
use polyfill_glibc.Base.{
  ℕ, suc, ◌+◌, ◌-◌, ◌≤◌, ◌<◌, List, ◌≡◌, ◌≢◌, inl, inr, refl, sym, ap, ◌∙◌, arith, length, set,
  get_or-set_self, get_or-set_ne, length-set, u64,
}
use native.Mathlib.Decide.{ℕ_discrete, dec_lt}
use polyfill_glibc.V2f.Limits.{Covers, parts_below}
use polyfill_glibc.V2f.Splicing.{
  Fits, spliced, refilled, lim-before, lim-start, lim-stop, lim-after, val-before, val-itr,
  val-after, spliced-IsSplit, Covers-before, Covers-inside, Covers-after,
}
use polyfill_glibc.V2f.Growing.{IsSplit-ext, Covers-ext}
use polyfill_glibc.V2f.Inserting.{Spaced}
use polyfill_glibc.V2f.Valid.{IsValid, Maps, limit, limit-in, limit-last}
use polyfill_glibc.V2f.{V2fMap, V2fEntry, Place, base, entry, blank, written}

module _ (m : V2fMap) (v : IsValid m) (p : Place) (w : ℕ) (m₁ : V2fMap) (g : Spaced m p m₁)
    (spare : m.count + 2 < m.capacity)
    (f : Fits (limit m.entries m.count) m.count p.itr p.start p.tail (suc p.end_))
    (itr_le : p.itr ≤ suc p.tail) where
  abbrev es : List V2fEntry
  es = written m₁.entries p w

  abbrev count' : ℕ
  count' = p.itr + (m.count + 1 - p.tail)

  abbrev old : ℕ → ℕ
  old = limit m.entries m.count

  abbrev now : ℕ → ℕ
  now = spliced old p.itr p.start p.tail (suc p.end_)

  abbrev this : V2fEntry
  this = record { vbase = p.start; v2f = w }

  abbrev next : V2fEntry
  next = record (entry m₁.entries (p.itr + 1)) { vbase = u64 (p.end_ + 1) }

  in_cells : p.itr + 1 < length m₁.entries
  in_cells = omega (arith, g.cells, f.itr_le)

  cell-other : (i : ℕ) → p.itr ≢ i → p.itr + 1 ≢ i → entry es i ≡ entry m₁.entries i
  cell-other i ne ne' =
      get_or-set_ne (set m₁.entries p.itr this) (p.itr + 1) i next blank ne'
      ∙ get_or-set_ne m₁.entries p.itr i this blank ne

  cell-itr : entry es p.itr ≡ this
  cell-itr =
      get_or-set_ne (set m₁.entries p.itr this) (p.itr + 1) p.itr next blank (λ e. omega arith)
      ∙ get_or-set_self m₁.entries p.itr this blank (omega (arith, in_cells))

  cell-next : entry es (p.itr + 1) ≡ next
  cell-next =
      get_or-set_self (set m₁.entries p.itr this) (p.itr + 1) next blank
        (omega (arith, in_cells, length-set m₁.entries p.itr this))

  -- Beyond the two written entries the cells are those that stood after `tail`.
  cell-after :
      (i k : ℕ)
      → p.itr + 1 < i
      → i ≤ count'
      → k ≡ p.tail + (i - (p.itr + 1))
      → entry es i ≡ entry m.entries k
  cell-after i k h le e =
      let split : i ≡ p.itr + 1 + (i - (p.itr + 1)) = omega arith in
      cell-other i (λ z. omega arith) (λ z. omega arith)
      ∙ ap (entry m₁.entries) split
      ∙ g.moved (i - (p.itr + 1)) (omega (arith, f.tail_le))
      ∙ ap (entry m.entries) (sym e)

  limit-now : (i : ℕ) → i ≤ count' → limit es count' i ≡ now i
  limit-now i le = elim (dec_lt i p.itr) [
    | yes lt ↦
        limit-in es count' i (omega (arith, f.tail_le))
        ∙ ap (λ (c : V2fEntry). c.vbase)
            (cell-other i (λ z. omega arith) (λ z. omega arith) ∙ g.below i lt)
        ∙ sym (limit-in m.entries m.count i (omega (arith, f.itr_le)))
        ∙ sym (lim-before old p.itr p.start p.tail (suc p.end_) i lt)
    | no ge ↦ elim (ℕ_discrete i p.itr) [
      | yes e ↦
          limit-in es count' i (omega (arith, f.tail_le))
          ∙ ap (base es) e
          ∙ ap (λ (c : V2fEntry). c.vbase) cell-itr
          ∙ sym (lim-start old p.itr p.start p.tail (suc p.end_) i e)
      | no ne ↦ elim (ℕ_discrete i (p.itr + 1)) [
        | yes e ↦ at_stop i le e ∙ sym (lim-stop old p.itr p.start p.tail (suc p.end_) i e)
        | no far ↦
            let k = p.tail + (i - (p.itr + 1)) in
            beyond i k (omega arith) le refl
            ∙ sym (lim-after old p.itr p.start p.tail (suc p.end_) i k (omega arith) refl)
      ]
    ]
  ]
    where
      at_stop : (i : ℕ) → i ≤ count' → i ≡ p.itr + 1 → limit es count' i ≡ suc p.end_
      at_stop i le e = elim (f.right_end) [
        | inl last ↦
            let at_end : i ≡ count' = omega arith in
            ap (limit es count') at_end
            ∙ limit-last es count'
            ∙ omega (arith, f.stop_le, f.right, ap old last, limit-last m.entries m.count)
        | inr (lt, stop) ↦
            limit-in es count' i (omega arith)
            ∙ ap (base es) e
            ∙ ap (λ (c : V2fEntry). c.vbase) cell-next
            ∙ omega (arith, parts_below v.split (suc p.tail) lt)
      ]

      beyond :
          (i k : ℕ)
          → p.itr + 1 < i
          → i ≤ count'
          → k ≡ p.tail + (i - (p.itr + 1))
          → limit es count' i ≡ old k
      beyond i k h le e = elim (ℕ_discrete i count') [
        | yes z ↦
            let last : k ≡ m.count = omega arith in
            ap (limit es count') z
            ∙ limit-last es count'
            ∙ sym (ap old last ∙ limit-last m.entries m.count)
        | no ne ↦
            limit-in es count' i (omega arith)
            ∙ ap (λ (c : V2fEntry). c.vbase) (cell-after i k h le e)
            ∙ sym (limit-in m.entries m.count k (omega arith))
      ]

  abbrev val : ℕ → ℕ
  val i = (entry m.entries i).v2f

  says_now : (i : ℕ) → i < count' → (entry es i).v2f ≡ refilled val p.itr p.tail w i
  says_now i lt = elim (dec_lt i p.itr) [
    | yes h ↦
        ap (λ (c : V2fEntry). c.v2f)
          (cell-other i (λ z. omega arith) (λ z. omega arith) ∙ g.below i h)
        ∙ sym (val-before val p.itr p.tail w i h)
    | no ge ↦ elim (ℕ_discrete i p.itr) [
      | yes e ↦
          ap (λ (k : ℕ). (entry es k).v2f) e
          ∙ ap (λ (c : V2fEntry). c.v2f) cell-itr
          ∙ sym (val-itr val p.itr p.tail w i e)
      | no ne ↦
          let k = p.tail + (i - (p.itr + 1)) in
          elim (ℕ_discrete i (p.itr + 1)) [
            | yes e ↦
                let z : p.tail + 0 ≡ k = omega arith in
                let here : p.itr + 1 ≡ p.itr + 1 + 0 = omega arith in
                ap (λ (j : ℕ). (entry es j).v2f) e
                ∙ ap (λ (c : V2fEntry). c.v2f) cell-next
                ∙ ap (λ (j : ℕ). (entry m₁.entries j).v2f) here
                ∙ ap (λ (c : V2fEntry). c.v2f) (g.moved 0 (omega arith))
                ∙ ap val z
                ∙ sym (val-after val p.itr p.tail w i k (omega arith) refl)
            | no far ↦
                ap (λ (c : V2fEntry). c.v2f) (cell-after i k (omega arith) (omega arith) refl)
                ∙ sym (val-after val p.itr p.tail w i k (omega arith) refl)
          ]
    ]
  ]

  sentinel_now : base es count' ≡ 0
  sentinel_now = elim (f.right_end) [
    | inl last ↦
        let at_end : count' ≡ p.itr + 1 = omega arith in
        ap (base es) at_end
        ∙ ap (λ (c : V2fEntry). c.vbase) cell-next
        ∙ omega (arith, f.stop_le, f.right, ap old last, limit-last m.entries m.count)
    | inr (lt, stop) ↦
        ap (λ (c : V2fEntry). c.vbase)
          (cell-after count' m.count (omega arith) (omega arith) (omega arith))
        ∙ v.sentinel
  ]

  abbrev m' : V2fMap
  m' = record m₁ { entries = es }

  same_count : (i : ℕ) → i ≤ count' → limit es m₁.count i ≡ now i
  same_count i le = ap (λ (c : ℕ). limit es c i) g.count_is ∙ limit-now i le

  pub written-IsValid : IsValid m'
  written-IsValid = record {
    cells =
        length-set (set m₁.entries p.itr this) (p.itr + 1) next
        ∙ length-set m₁.entries p.itr this
        ∙ g.cells
        ∙ sym g.capacity_same;
    room = omega (arith, g.count_is, g.capacity_same, f.itr_le);
    cache = g.cache;
    split = rw g.count_is (IsSplit-ext limit-now (spliced-IsSplit v.split f));
    sentinel = ap (base es) g.count_is ∙ sentinel_now;
  }

  place_now : (i x y : ℕ) → Covers now count' i x → refilled val p.itr p.tail w i ≡ y → Maps m' x y
  place_now i x y c e = record {
    part = i;
    covers = rw g.count_is (Covers-ext limit-now c);
    says = says_now i c.inside ∙ e;
  }

  -- Before the record and after it an address has what it had.
  pub written-before : (x y : ℕ) → x < p.start → Maps m x y → Maps m' x y
  written-before x y h k =
      let (c, lt) = Covers-before v.split f k.covers h in
      place_now k.part x y c (val-before val p.itr p.tail w k.part lt ∙ k.says)

  pub written-inside : (x : ℕ) → p.start ≤ x → x ≤ p.end_ → Maps m' x w
  written-inside x h le =
      place_now p.itr x w (Covers-inside v.split f h (omega arith))
        (val-itr val p.itr p.tail w p.itr refl)

  pub written-after : (x y : ℕ) → p.end_ < x → Maps m x y → Maps m' x y
  written-after x y h k =
      let (c, le) = Covers-after v.split f k.covers h in
      place_now (k.part + (p.itr + 1) - p.tail) x y c (
        val-after val p.itr p.tail w (k.part + (p.itr + 1) - p.tail) k.part (omega arith)
          (omega arith)
        ∙ k.says)
