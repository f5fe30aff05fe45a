-- ===== src/V2f/Laying.antt =====
-- A record laid over a range: what the map says of each address afterwards.
use polyfill_glibc.Base.{
  ℕ, suc, ◌+◌, ◌-◌, ◌^◌, ◌≤◌, ◌<◌, ◌≡◌, ◌≢◌, refl, sym, ap, ◌∙◌, arith, u64, sub64, List,
}
use native.Mathlib.Decide.{dec_lt}
use polyfill_glibc.V2f.Inserting.{Spaced, make_space-Spaced}
use polyfill_glibc.V2f.Limits.{IsSplit, Covers, part-after}
use polyfill_glibc.V2f.Placing.{
  Left, Right, walk_down-Covers, start_itr-Left, merge_left-Left, end_tail-Right, merge_right-Right,
  Same,
}
use polyfill_glibc.V2f.Splicing.{Fits}
use polyfill_glibc.V2f.Valid.{IsValid, Maps, limit}
use polyfill_glibc.V2f.Written.{written-IsValid, written-before, written-inside, written-after}
use polyfill_glibc.V2f.{
  V2fMap, V2fEntry, Place, entry, set_range, ensure_capacity, insert_record, make_space, place,
  walk_down, start_itr, end_tail, written,
}

insert_record-run :
    (m : V2fMap) (p : Place) (w : ℕ)
    → insert_record m p w
      ≡ record (make_space m p) { entries = written (make_space m p).entries p w }
unfolding insert_record
insert_record-run m p w = refl

pub set_range-run :
    (m : V2fMap) (vbase size w : ℕ)
    → size ≢ 0
    → set_range m vbase size w
      ≡ insert_record
          (ensure_capacity m)
          (place (ensure_capacity m).entries (ensure_capacity m).count vbase size w)
          w
unfolding set_range
set_range-run m vbase size w nz = ground arith

-- An address has one part, so a map says one thing of it.
Covers-unique :
    {lim : ℕ → ℕ} {count i j x : ℕ}
    → IsSplit lim count
    → Covers lim count i x
    → Covers lim count j x
    → i ≡ j
Covers-unique {lim} {count} {i} {j} {x} s c d = omega (
  arith,
  part-after s c d.from (omega (arith, d.inside)),
  part-after s d c.from (omega (arith, c.inside)),
)

pub Maps-unique : {m : V2fMap} {x y z : ℕ} → IsValid m → Maps m x y → Maps m x z → y ≡ z
Maps-unique {m} v a b =
    sym a.says
    ∙ ap (λ (i : ℕ). (entry m.entries i).v2f) (Covers-unique v.split a.covers b.covers)
    ∙ b.says

module _ (m : V2fMap) (v : IsValid m) (vbase size w : ℕ) (nz : size ≢ 0)
    (inside : vbase + size ≤ 2 ^ 64) where
  abbrev es : List V2fEntry
  es = m.entries

  abbrev vend : ℕ
  vend = sub64 (u64 (vbase + size)) 1

  abbrev p : Place
  p = place es m.count vbase size w

  vend_is : suc vend ≡ vbase + size
  vend_is = omega arith

  abbrev tail : ℕ
  tail = walk_down es vend (m.count - 1)

  abbrev itr : ℕ
  itr = walk_down es vbase tail

  tail-Covers : Covers (limit es m.count) m.count tail vend
  tail-Covers =
      let e : suc (m.count - 1) ≡ m.count = omega (arith, v.cache) in
      (walk_down-Covers es m.count v.split v.sentinel vend (m.count - 1) (omega arith)
        (omega (arith, vend_is, ap (limit es m.count) e, v.split.last))).0

  itr-Covers : Covers (limit es m.count) m.count itr vbase × (itr ≤ tail)
  itr-Covers =
      walk_down-Covers es m.count v.split v.sentinel vbase tail tail-Covers.inside
        (omega (arith, vend_is, tail-Covers.below))

  left : Left es m.count v.split v.sentinel vbase vend w (suc itr) p.itr p.start
  unfolding place
  left =
      merge_left-Left es m.count v.split v.sentinel vbase vend w (suc itr) (start_itr es itr vbase)
        (start_itr-Left es m.count v.split v.sentinel vbase vend w itr itr-Covers.0)

  right : Right es m.count v.split v.sentinel vbase vend w tail p.tail p.end_
  unfolding place
  right =
      merge_right-Right es m.count v.split v.sentinel vbase vend w tail
        (end_tail es m.count tail vend)
        (end_tail-Right es m.count v.split v.sentinel vbase vend w tail tail-Covers)

  place-Fits : Fits (limit es m.count) m.count p.itr p.start p.tail (suc p.end_)
  place-Fits = record {
    itr_le = left.itr_le;
    tail_le = right.tail_le;
    proper = omega (arith, left.start_vbase, right.vend_le, vend_is);
    left = left.before;
    left_end = left.at_zero;
    start_le = left.start_le;
    right = right.right;
    right_end = right.right_end;
    stop_le = right.stop_le;
  }

  itr_tail : p.itr ≤ suc p.tail
  itr_tail = omega (arith, left.itr_top, right.tail_low, itr-Covers.1)

  Same-value : {x y : ℕ} → Maps m x y → Same es m.count v.split v.sentinel w x → y ≡ w
  Same-value k (i, c, e) = Maps-unique v k (record { part = i; covers = c; says = e })

  module _ (spare : m.count + 2 < m.capacity) (small : m.capacity < 2 ^ 32) where
    abbrev m' : V2fMap
    m' = insert_record m p w

    abbrev m₁ : V2fMap
    m₁ = make_space m p

    g : Spaced m p m₁
    g = make_space-Spaced m v p spare small right.tail_le itr_tail

    pub insert-IsValid : IsValid m'
    insert-IsValid =
        rw (insert_record-run m p w) (written-IsValid m v p w m₁ g spare place-Fits itr_tail)

    pub insert-inside : (x : ℕ) → vbase ≤ x → x < vbase + size → Maps m' x w
    insert-inside x h lt = rw (insert_record-run m p w) (
        written-inside m v p w m₁ g spare place-Fits itr_tail x (omega (arith, left.start_vbase))
          (omega (arith, right.vend_le, vend_is)))

    pub insert-before : (x y : ℕ) → x < vbase → Maps m x y → Maps m' x y
    insert-before x y h k = elim (dec_lt x p.start) [
      | yes lt ↦
          rw (insert_record-run m p w)
            (written-before m v p w m₁ g spare place-Fits itr_tail x y lt k)
      | no ge ↦ rw (insert_record-run m p w) (
          rw (Same-value k (left.merged x (omega arith) h)) (
            written-inside m v p w m₁ g spare place-Fits itr_tail x (omega arith)
              (omega (arith, right.vend_le, vend_is))))
    ]

    pub insert-after : (x y : ℕ) → vbase + size ≤ x → Maps m x y → Maps m' x y
    insert-after x y h k = elim (dec_lt p.end_ x) [
      | yes lt ↦
          rw (insert_record-run m p w)
            (written-after m v p w m₁ g spare place-Fits itr_tail x y lt k)
      | no ge ↦ rw (insert_record-run m p w) (
          rw (Same-value k (right.merged x (omega (arith, vend_is)) (omega arith))) (
            written-inside m v p w m₁ g spare place-Fits itr_tail x
              (omega (arith, left.start_vbase)) (omega arith)))
    ]
