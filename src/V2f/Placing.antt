-- ===== src/V2f/Placing.antt =====
-- Where `v2f_map_set_range` lays the new record.
use polyfill_glibc.Base.{
  ℕ, zero, suc, ◌^◌, ◌≤◌, ◌<◌, List, ◌≡◌, ◌≢◌, ◌⊎◌, inl, inr, refl, sym, ap, ◌∙◌, arith, sub64,
}
use native.Mathlib.Decide.{ℕ_discrete}
use polyfill_glibc.V2f.Limits.{IsSplit, Covers, parts_below}
use polyfill_glibc.V2f.Valid.{limit, limit-in, base-last}
use polyfill_glibc.V2f.Walking.{
  Walked, walk_down-Walked, merge_left-zero, merge_left-stay, merge_left-merge, start_itr-here,
  start_itr-next, merge_right-stay, merge_right-merge, end_tail-here, end_tail-next,
}
use polyfill_glibc.V2f.{
  V2fEntry, base, entry, walk_down, start_itr, merge_left, end_tail, merge_right,
}

module _ (es : List V2fEntry) (count : ℕ) (s : IsSplit (limit es count) count)
    (sentinel : base es count ≡ 0) where
  abbrev lim : ℕ → ℕ
  lim = limit es count

  -- An address beside the new range that the new record takes over had its contents before.
  abbrev pub Same : ℕ → ℕ → Type 0
  Same v x = (i : ℕ) × Covers lim count i x × ((entry es i).v2f ≡ v)

  some_part : 0 < count
  some_part = elim (ℕ_discrete count 0) [
    | yes e ↦ absurd (omega (arith, s.first, s.last, ap lim e))
    | no ne ↦ omega arith
  ]

  pub first-base : base es 0 ≡ 0
  first-base = sym (limit-in es count 0 some_part) ∙ s.first

  -- The loop downwards from part `i` finds the part of `v`.
  pub walk_down-Covers :
      (v i : ℕ)
      → i < count
      → v < lim (suc i)
      → Covers lim count (walk_down es v i) v × (walk_down es v i ≤ i)
  walk_down-Covers v i h lt =
      let w = walk_down-Walked es v i (first-base) in
      (
        record {
          inside = omega (arith, w.le);
          from = omega (arith, limit-in es count (walk_down es v i) (omega (arith, w.le)), w.from);
          below = below w;
        },
        w.le,
      )
    where
      below : {j : ℕ} → Walked es v i j → v < lim (suc j)
      below {j} w = elim (ℕ_discrete j i) [
        | yes e ↦ omega (arith, ap (λ (k : ℕ). lim (suc k)) e)
        | no ne ↦
            omega (
              arith,
              w.below (omega (arith, w.le)),
              limit-in es count (suc j) (omega (arith, w.le)),
            )
      ]

  module _ (vbase vend v2f : ℕ) where
    -- The start of the new record: parts before `itr` end before it.
    pub record Left (top itr start : ℕ) : Type 0 where
      pub itr_le : itr ≤ count
      pub itr_top : itr ≤ top
      pub before : (i : ℕ) → suc i ≡ itr → lim i < start
      pub at_zero : itr ≡ 0 → start ≡ 0
      pub start_le : start ≤ lim itr
      pub start_vbase : start ≤ vbase
      pub merged : (x : ℕ) → start ≤ x → x < vbase → Same v2f x

    pub start_itr-Left :
        (itr : ℕ) → Covers lim count itr vbase → Left (suc itr) (start_itr es itr vbase) vbase
    start_itr-Left itr c = elim (ℕ_discrete (base es itr) vbase) [
      | yes e ↦
          let at_itr = limit-in es count itr c.inside in
          rw (start_itr-here es vbase v2f itr e) (record {
            itr_le = omega (arith, c.inside);
            itr_top = omega arith;
            before = λ i h. omega (arith, s.rises i (omega (arith, c.inside)), ap lim h, at_itr);
            at_zero = λ z. omega (arith, ap (λ (k : ℕ). base es k) z, first-base);
            start_le = omega (arith, at_itr);
            start_vbase = omega arith;
            merged = λ x le lt. absurd (omega arith);
          })
      | no ne ↦
          let at_itr = limit-in es count itr c.inside in
          rw (start_itr-next es vbase v2f itr ne) (record {
            itr_le = c.inside;
            itr_top = omega arith;
            before =
                λ i h. let e : i ≡ itr = omega arith in omega (arith, ap lim e, at_itr, c.from);
            at_zero = λ z. absurd (omega arith);
            start_le = omega (arith, c.below);
            start_vbase = omega arith;
            merged = λ x le lt. absurd (omega arith);
          })
    ]

    pub merge_left-Left :
        (top itr : ℕ)
        → Left top itr vbase
        → Left top (merge_left es itr vbase v2f).0 (merge_left es itr vbase v2f).1
    merge_left-Left top zero l = rw (merge_left-zero es vbase v2f zero (l.at_zero refl)) l
    merge_left-Left top (suc q) l = elim (ℕ_discrete (entry es q).v2f v2f) [
      | no ne ↦ rw (merge_left-stay es vbase v2f q ne) l
      | yes e ↦
          let below = l.before q refl in
          let nz : vbase ≢ 0 = λ z. absurd (omega arith) in
          let at_q = limit-in es count q (omega (arith, l.itr_le)) in
          rw (merge_left-merge es vbase v2f q nz e) (record {
            itr_le = omega (arith, l.itr_le);
            itr_top = omega (arith, l.itr_top);
            before = λ i h. omega (arith, s.rises i (omega (arith, l.itr_le)), ap lim h, at_q);
            at_zero = λ z. omega (arith, ap (λ (k : ℕ). base es k) z, first-base);
            start_le = omega (arith, at_q);
            start_vbase = omega (arith, at_q);
            merged = λ x le lt. (
              q,
              record {
                inside = l.itr_le;
                from = omega (arith, at_q);
                below = omega (arith, l.start_le);
              },
              e,
            );
          })
    ]

    right_end :
        (tail : ℕ) {stop : ℕ}
        → stop ≡ lim (suc tail)
        → tail < count
        → (suc tail ≡ count) ⊎ ((suc tail < count) × (stop < lim (suc (suc tail))))
    right_end tail e lt = elim (ℕ_discrete (suc tail) count) [
      | yes last ↦ inl last
      | no ne ↦ inr (omega arith, omega (arith, s.rises (suc tail) (omega arith)))
    ]

    -- The end of the new record, with the address after it.
    pub record Right (low tail end_ : ℕ) : Type 0 where
      pub tail_le : tail ≤ count
      pub tail_low : low ≤ tail
      pub right : lim tail ≤ suc end_
      pub right_end : (tail ≡ count) ⊎ ((tail < count) × (suc end_ < lim (suc tail)))
      pub stop_le : suc end_ ≤ 2 ^ 64
      pub vend_le : vend ≤ end_
      pub merged : (x : ℕ) → vend < x → x ≤ end_ → Same v2f x

    pub end_tail-Right :
        (tail : ℕ) → Covers lim count tail vend → Right tail (end_tail es count tail vend) vend
    end_tail-Right tail c = elim (ℕ_discrete (sub64 (base es (suc tail)) 1) vend) [
      | yes e ↦
          let last = base-last es count s sentinel tail c.inside in
          rw (end_tail-next es count vend tail c.inside e) (record {
            tail_le = c.inside;
            tail_low = omega arith;
            right = omega (arith, last);
            right_end = right_end tail (omega (arith, last, c.below)) c.inside;
            stop_le = omega (arith, parts_below s (suc tail) c.inside, c.below);
            vend_le = omega arith;
            merged = λ x lt le. absurd (omega arith);
          })
      | no ne ↦
          let last = base-last es count s sentinel tail c.inside in
          rw (end_tail-here es count vend tail ne) (record {
            tail_le = omega (arith, c.inside);
            tail_low = omega arith;
            right = omega (arith, c.from);
            right_end = inr (c.inside, omega (arith, last, ne, c.below));
            stop_le = omega (arith, parts_below s (suc tail) c.inside, c.below);
            vend_le = omega arith;
            merged = λ x lt le. absurd (omega arith);
          })
    ]

    pub merge_right-Right :
        (low tail : ℕ)
        → Right low tail vend
        → Right low (merge_right es count tail vend v2f).0 (merge_right es count tail vend v2f).1
    merge_right-Right low tail r = elim (r.right_end) [
      | inl e ↦ rw (merge_right-stay es count vend tail v2f (inl e)) r
      | inr (lt, stop) ↦ elim (ℕ_discrete (entry es tail).v2f v2f) [
        | no ne ↦ rw (merge_right-stay es count vend tail v2f (inr ne)) r
        | yes same ↦
            let last = base-last es count s sentinel tail lt in
            let reaches : suc (sub64 (base es (suc tail)) 1) ≡ lim (suc tail) =
              omega (arith, last, stop) in
            rw (merge_right-merge es count vend tail v2f lt same) (record {
              tail_le = lt;
              tail_low = omega (arith, r.tail_low);
              right = omega (arith, reaches);
              right_end = right_end tail reaches lt;
              stop_le = omega (arith, reaches, parts_below s (suc tail) lt);
              vend_le = omega (arith, reaches, stop);
              merged = λ x gt le. (
                tail,
                record {
                  inside = lt;
                  from = omega (arith, r.right);
                  below = omega (arith, reaches);
                },
                same,
              );
            })
      ]
    ]
