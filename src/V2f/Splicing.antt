-- ===== src/V2f/Splicing.antt =====
-- The parts of a split line after one part has been laid over it. The parts before `itr` stay, the
-- new part runs from `start` to before `stop`, the rest of part `tail` follows it, and the parts
-- after `tail` stay.
use polyfill_glibc.Base.{
  ℕ, suc, ◌+◌, ◌-◌, ◌^◌, ◌≤◌, ◌<◌, ◌≡◌, ◌⊎◌, inl, inr, refl, sym, ap, ◌∙◌, arith, ltb, ◌==◌,
  if◌then◌else◌,
}
use native.Mathlib.Decide.{ℕ_discrete, dec_lt}
use polyfill_glibc.V2f.Limits.{IsSplit, Covers, part-before, part-after}

-- Where the new part may be laid.
pub record Fits (lim : ℕ → ℕ) (count itr start tail stop : ℕ) : Type 0 where
  pub itr_le : itr ≤ count
  pub tail_le : tail ≤ count
  pub proper : start < stop
  pub left : (i : ℕ) → suc i ≡ itr → lim i < start
  pub left_end : itr ≡ 0 → start ≡ 0
  pub start_le : start ≤ lim itr
  pub right : lim tail ≤ stop
  pub right_end : (tail ≡ count) ⊎ ((tail < count) × (stop < lim (suc tail)))
  pub stop_le : stop ≤ 2 ^ 64

-- The bounds and the contents after the change.
abbrev pub spliced : (ℕ → ℕ) → ℕ → ℕ → ℕ → ℕ → ℕ → ℕ
spliced lim itr start tail stop i =
    if ltb i itr
    then lim i
    else if i == itr
    then start
    else if i == itr + 1
    then stop
    else lim (tail + (i - (itr + 1)))

abbrev pub refilled : (ℕ → ℕ) → ℕ → ℕ → ℕ → ℕ → ℕ
refilled val itr tail v i =
    if ltb i itr then val i else if i == itr then v else val (tail + (i - (itr + 1)))

module _ (lim : ℕ → ℕ) (itr start tail stop : ℕ) where
  abbrev lim' : ℕ → ℕ
  lim' = spliced lim itr start tail stop

  pub lim-before : (i : ℕ) → i < itr → lim' i ≡ lim i
  lim-before i h = ground arith

  pub lim-start : (i : ℕ) → i ≡ itr → lim' i ≡ start
  lim-start i h = ground arith

  pub lim-stop : (i : ℕ) → i ≡ itr + 1 → lim' i ≡ stop
  lim-stop i h = ground arith

  pub lim-after : (i k : ℕ) → itr + 1 < i → k ≡ tail + (i - (itr + 1)) → lim' i ≡ lim k
  lim-after i k h e = ground arith ∙ ap lim (sym e)

module _ (val : ℕ → ℕ) (itr tail v : ℕ) where
  pub val-before : (i : ℕ) → i < itr → refilled val itr tail v i ≡ val i
  val-before i h = ground arith

  pub val-itr : (i : ℕ) → i ≡ itr → refilled val itr tail v i ≡ v
  val-itr i h = ground arith

  pub val-after :
      (i k : ℕ) → itr < i → k ≡ tail + (i - (itr + 1)) → refilled val itr tail v i ≡ val k
  val-after i k h e = ground arith ∙ ap val (sym e)

module _ {lim : ℕ → ℕ} {count itr start tail stop : ℕ} (s : IsSplit lim count)
    (f : Fits lim count itr start tail stop) where
  abbrev count' : ℕ
  count' = itr + (count + 1 - tail)

  abbrev now : ℕ → ℕ
  now = spliced lim itr start tail stop

  spliced-first : now 0 ≡ 0
  spliced-first = elim (ℕ_discrete itr 0) [
    | yes z ↦ lim-start lim itr start tail stop 0 (sym z) ∙ f.left_end z
    | no ne ↦ lim-before lim itr start tail stop 0 (omega arith) ∙ s.first
  ]

  spliced-last : now count' ≡ 2 ^ 64
  spliced-last = elim (ℕ_discrete tail count) [
    | yes z ↦
        let e : count' ≡ itr + 1 = omega (arith, f.tail_le) in
        lim-stop lim itr start tail stop count' e
        ∙ omega (arith, f.stop_le, f.right, ap lim z, s.last)
    | no ne ↦
        lim-after lim itr start tail stop count' count (omega (arith, f.tail_le))
          (omega (arith, f.tail_le))
        ∙ s.last
  ]

  tail_before : tail < count → stop < lim (suc tail)
  tail_before h = elim f.right_end [ inl e ↦ absurd (omega arith) | inr g ↦ g.1 ]

  spliced-rises : (i : ℕ) → i < count' → now i < now (suc i)
  spliced-rises i h = elim (dec_lt (suc i) itr) [
    | yes below ↦ omega (
      arith,
      lim-before lim itr start tail stop i (omega arith),
      lim-before lim itr start tail stop (suc i) below,
      s.rises i (omega (arith, f.itr_le)),
    )
    | no from ↦ elim (ℕ_discrete (suc i) itr) [
      | yes e ↦ omega (
        arith,
        lim-before lim itr start tail stop i (omega arith),
        lim-start lim itr start tail stop (suc i) e,
        f.left i e,
      )
      | no past ↦ elim (ℕ_discrete i itr) [
        | yes e ↦ omega (
          arith,
          lim-start lim itr start tail stop i e,
          lim-stop lim itr start tail stop (suc i) (omega arith),
          f.proper,
        )
        | no beyond ↦
            let k = tail + (i - (itr + 1)) in
            let on =
              lim-after lim itr start tail stop (suc i) (suc k) (omega arith) (omega arith) in
            elim (ℕ_discrete i (itr + 1)) [
              | yes e ↦
                  let z : k ≡ tail = omega arith in
                  omega (
                    arith,
                    lim-stop lim itr start tail stop i e,
                    on,
                    tail_before (omega arith),
                    ap (λ (x : ℕ). lim (suc x)) z,
                  )
              | no farther ↦ omega (
                arith,
                lim-after lim itr start tail stop i k (omega arith) refl,
                on,
                s.rises k (omega arith),
              )
            ]
      ]
    ]
  ]

  pub spliced-IsSplit : IsSplit now count'
  spliced-IsSplit = record { first = spliced-first; last = spliced-last; rises = spliced-rises }

  -- Where an address is found after the change.
  pub Covers-before :
      {i x : ℕ} → Covers lim count i x → x < start → Covers now count' i x × (i < itr)
  Covers-before {i} {x} c h =
      let lt : i < itr = part-before s c (omega (arith, f.start_le)) in
      let here = lim-before lim itr start tail stop i lt in
      elim (ℕ_discrete (suc i) itr) [
        | yes e ↦
            let next = lim-start lim itr start tail stop (suc i) e in
            (
              record {
                inside = omega (arith, f.tail_le);
                from = omega (arith, c.from, here);
                below = omega (arith, next);
              },
              lt,
            )
        | no ne ↦
            let next = lim-before lim itr start tail stop (suc i) (omega arith) in
            (
              record {
                inside = omega (arith, f.tail_le);
                from = omega (arith, c.from, here);
                below = omega (arith, next, c.below);
              },
              lt,
            )
      ]

  pub Covers-inside : {x : ℕ} → start ≤ x → x < stop → Covers now count' itr x
  Covers-inside {x} h lt = record {
    inside = omega (arith, f.tail_le);
    from = omega (arith, lim-start lim itr start tail stop itr refl);
    below = omega (arith, lim-stop lim itr start tail stop (suc itr) (omega arith));
  }

  pub Covers-after :
      {i x : ℕ}
      → Covers lim count i x
      → stop ≤ x
      → Covers now count' (i + (itr + 1) - tail) x × (tail ≤ i)
  Covers-after {i} {x} c h =
      let le : tail ≤ i = part-after s c (omega (arith, f.right)) f.tail_le in
      let j = i + (itr + 1) - tail in
      let next = lim-after lim itr start tail stop (suc j) (suc i) (omega arith) (omega arith) in
      let within : j < count' = omega (arith, c.inside) in
      elim (ℕ_discrete i tail) [
        | yes e ↦
            let here = lim-stop lim itr start tail stop j (omega arith) in
            (
              record {
                inside = within;
                from = omega (arith, here);
                below = omega (arith, next, c.below);
              },
              le,
            )
        | no ne ↦
            let here = lim-after lim itr start tail stop j i (omega arith) (omega arith) in
            (
              record {
                inside = within;
                from = omega (arith, here, c.from);
                below = omega (arith, next, c.below);
              },
              le,
            )
      ]
