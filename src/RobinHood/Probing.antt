-- ===== src/RobinHood/Probing.antt =====
-- The probing loop ends, and finds the key exactly when the table holds it. Where it does not, it
-- ends at the place where the key may be put.
use polyfill_glibc.Base.{
  ℕ, zero, suc, ◌+◌, ◌-◌, ◌^◌, ◌≤◌, ◌<◌, Bool, true, false, not, ◌&&◌, List, ◌≡◌, ◌≢◌, refl, sym,
  ap, ◌∙◌, arith, some, ◌==◌, inl, inr, Bool-cases, u32, get_or,
}
use native.Mathlib.Decide.{dec_lt, ℕ_discrete}
use polyfill_glibc.RobinHood.{Probe, free, hit, rich, probe, probe_index, slot_distance}
use polyfill_glibc.RobinHood.Index.{
  home, home_of_eq, gap-next, u32-suc, size_pos, wrap, gap, wrap-lt, wrap-gap, gap-lt, gap-wrap,
  home-lt, probe_index-wrap, slot_distance-gap,
}
use polyfill_glibc.RobinHood.Order.{rank, IsOrdered, Behind, rank_empty, rank_occupied, wrap-suc}

-- The slot of the key that has the hash `h` and that `same_key` knows.
abbrev pub matches : (ℕ → Bool) → ℕ → ℕ → Bool
matches same_key h s = not (s == 0) && (u32 s == h && same_key s)

nonzero_of_matches : (same_key : ℕ → Bool) (h s : ℕ) → matches same_key h s ≡ true → s ≢ 0
nonzero_of_matches same_key h s m = ground arith

hash_of_matches : (same_key : ℕ → Bool) (h s : ℕ) → matches same_key h s ≡ true → u32 s ≡ h
hash_of_matches same_key h s m = ground arith

-- What stands before a match is at least as far from home as the match's way so far.
rank_chain :
    (n : ℕ) (t : List ℕ) (c D j m : ℕ)
    → IsOrdered n t
    → c < n
    → D < n
    → j + m ≡ D
    → suc D ≤ rank n t (wrap n c D)
    → suc j ≤ rank n t (wrap n c j)
rank_chain n t c D j zero o c-lt D-lt e h = let same : j ≡ D = omega arith in rw same h
rank_chain n t c D j (suc m) o c-lt D-lt e h =
    let next = rank_chain n t c D (suc j) m o c-lt D-lt (omega arith) h in
    let step = o (wrap n c j) (wrap-lt n c j c-lt (omega arith)) in
    omega (arith, ap (rank n t) (wrap-suc n c j c-lt (omega arith)))

-- One round of the loop at the slot `k`, in its cases.
module _ (same_key : ℕ → Bool) (fuel : ℕ) (t : List ℕ) (mask h d k : ℕ)
    (at : probe_index mask h d ≡ k) where
  probe_free : get_or t k 0 ≡ 0 → probe same_key (suc fuel) t mask h d ≡ some (free k)
  unfolding probe
  probe_free z = ground arith

  probe_hit :
      matches same_key h (get_or t k 0) ≡ true
      → probe same_key (suc fuel) t mask h d ≡ some (hit k (get_or t k 0))
  unfolding probe
  probe_hit m = ground arith

  module _ (nz : get_or t k 0 ≢ 0) (other : matches same_key h (get_or t k 0) ≡ false) where
    probe_rich :
        u32 (get_or t k 0) ≢ h
        → slot_distance mask k (get_or t k 0) < d
        → probe same_key (suc fuel) t mask h d
          ≡ some (rich k (get_or t k 0) (slot_distance mask k (get_or t k 0)))
    unfolding probe
    probe_rich ne l = ground arith

    probe_on :
        d ≤ slot_distance mask k (get_or t k 0)
        → probe same_key (suc fuel) t mask h d ≡ probe same_key fuel t mask h (u32 (d + 1))
    unfolding probe
    probe_on l = ground arith

module _ (p : ℕ) (low : 1 ≤ p) (small : p ≤ 32) (same_key : ℕ → Bool) (h : ℕ)
    (h-lt : h < 2 ^ 32) where
  abbrev size : ℕ
  size = 2 ^ p

  -- The state of the loop at distance `d`; `e` is an empty slot ahead.
  pub record Walking (fuel : ℕ) (t : List ℕ) (d e : ℕ) : Type 0 where
    pub ordered : IsOrdered size t
    pub near : d < size
    pub inside : e < size
    pub empty : get_or t e 0 ≡ 0
    pub behind : Behind size t (home size h) d
    pub fuelled : gap size e (wrap size (home size h) d) < fuel
    pub room : d + gap size e (wrap size (home size h) d) < size
    pub passed :
        (j : ℕ) → j < d → matches same_key h (get_or t (wrap size (home size h) j) 0) ≡ false

  -- The loop stops at `k`, at distance `d`, since no slot holds the key.
  pub record Stops (t : List ℕ) (e k d : ℕ) : Type 0 where
    pub place : k ≡ wrap size (home size h) d
    pub near : d < size
    pub poor : rank size t k ≤ d
    pub behind : Behind size t (home size h) d
    pub room : d + gap size e k < size
    pub absent : (i : ℕ) → i < size → matches same_key h (get_or t i 0) ≡ false

  abbrev pub Outcome : List ℕ → ℕ → Probe → Type 0
  Outcome t e (free k) = (d : ℕ) × Stops t e k d × (get_or t k 0 ≡ 0)
  Outcome t e (hit k x) = (k < size) × (get_or t k 0 ≡ x) × (matches same_key h x ≡ true)
  Outcome t e (rich k x d2) =
      (d : ℕ) × Stops t e k d
      × (get_or t k 0 ≡ x)
      × (x ≢ 0)
      × (d2 ≡ gap size k (home size x))
      × (d2 < d)

  module _ {fuel : ℕ} (t : List ℕ) (d e : ℕ) (a : Walking (suc fuel) t d e) where
    abbrev at : ℕ
    at = wrap size (home size h) d

    abbrev met : ℕ
    met = get_or t at 0

    at-lt : at < size
    at-lt = wrap-lt size (home size h) d (home-lt p small h) a.near

    -- The home of a match is the home of the key.
    match_rank :
        (i : ℕ)
        → matches same_key h (get_or t i 0) ≡ true
        → rank size t i ≡ suc (gap size i (home size h))
    match_rank i found =
        rank_occupied size t i (nonzero_of_matches same_key h (get_or t i 0) found)
        ∙ ap (λ (c : ℕ). suc (gap size i c))
            (home_of_eq size (get_or t i 0) h (hash_of_matches same_key h (get_or t i 0) found)
              h-lt)

    -- A match further on, or on the way passed, contradicts the order or the way.
    absent_of_poor :
        rank size t at ≤ d → (i : ℕ) → i < size → matches same_key h (get_or t i 0) ≡ false
    absent_of_poor poor i i-lt = elim (Bool-cases (matches same_key h (get_or t i 0))) [
      | inr away ↦ away
      | inl found ↦
          let c-lt = home-lt p small h in
          let D : ℕ = gap size i (home size h) in
          let back : wrap size (home size h) D ≡ i = wrap-gap size i (home size h) i-lt c-lt in
          elim (dec_lt D d) [
            | yes before ↦
                sym (ap (λ (j : ℕ). matches same_key h (get_or t j 0)) back) ∙ a.passed D before
            | no after ↦
                let chain =
                  rank_chain size t (home size h) D d (D - d) a.ordered c-lt
                    (gap-lt size i (home size h) i-lt c-lt) (omega arith)
                    (omega (arith, ap (rank size t) back, match_rank i found)) in
                absurd (omega (arith, chain))
          ]
    ]

    Stops-here : rank size t at ≤ d → Stops t e at d
    Stops-here poor = record {
      place = refl;
      near = a.near;
      poor = poor;
      behind = a.behind;
      room = a.room;
      absent = absent_of_poor poor;
    }

    -- A slot of the key's hash stands exactly `d` places from its home.
    other_hash : u32 met ≡ h → gap size at (home size met) < d → ⊥
    other_hash q l = omega (
      arith,
      ap (gap size at) (home_of_eq size met h q h-lt),
      gap-wrap size (home size h) d (home-lt p small h) a.near,
    )

    Walking-on :
        met ≢ 0 → suc d ≤ rank size t at → matches same_key h met ≡ false → Walking fuel t (suc d) e
    Walking-on occ held away =
        let not_empty : e ≢ at = λ q. occ (ap (λ (j : ℕ). get_or t j 0) (sym q) ∙ a.empty) in
        let closer = gap-next size e at a.inside at-lt not_empty in
        let d-lt : suc d < size = omega (arith, closer, a.room) in
        let way = ap (gap size e) (wrap-suc size (home size h) d (home-lt p small h) d-lt) in
        record {
          ordered = a.ordered;
          near = d-lt;
          inside = a.inside;
          empty = a.empty;
          behind = held;
          fuelled = omega (arith, way, closer, a.fuelled);
          room = omega (arith, way, closer, a.room);
          passed = λ j lt. passed_suc j lt away;
        }
      where
        passed_suc :
            (j : ℕ)
            → j < suc d
            → matches same_key h met ≡ false
            → matches same_key h (get_or t (wrap size (home size h) j) 0) ≡ false
        passed_suc j lt away = elim (ℕ_discrete j d) [
          | yes same ↦ rw same away
          | no other ↦ a.passed j (omega arith)
        ]

  -- The loop ends within the fuel, in one of its three outcomes.
  pub probe-Outcome :
      (fuel : ℕ) (t : List ℕ) (d e : ℕ)
      → Walking fuel t d e
      → (r : Probe) × (probe same_key fuel t (size - 1) h d ≡ some r) × Outcome t e r
  probe-Outcome zero t d e a = absurd (omega (arith, a.fuelled))
  probe-Outcome (suc fuel) t d e a =
      let k = at t d e a in
      let x = met t d e a in
      let found : probe_index (size - 1) h d ≡ k = probe_index-wrap p small h d a.near in
      let gone : slot_distance (size - 1) k x ≡ gap size k (home size x) =
        slot_distance-gap p small k x (at-lt t d e a) in
      elim (ℕ_discrete x 0) [
        | yes z ↦ (
          free k,
          probe_free same_key fuel t (size - 1) h d k found z,
          (d, Stops-here t d e a (omega (arith, rank_empty size t k z)), z),
        )
        | no occ ↦ elim (Bool-cases (matches same_key h x)) [
          | inl here ↦ (
            hit k x,
            probe_hit same_key fuel t (size - 1) h d k found here,
            (at-lt t d e a, refl, here),
          )
          | inr away ↦ elim (dec_lt (gap size k (home size x)) d) [
            | yes l ↦ (
              rich k x (slot_distance (size - 1) k x),
              probe_rich same_key fuel t (size - 1) h d k found occ away
                  (λ q. other_hash t d e a q l) (rw gone l),
              (
                d,
                Stops-here t d e a (omega (arith, rank_occupied size t k occ)),
                refl,
                occ,
                gone,
                rw gone l,
              ),
            )
            | no l ↦
                let b = Walking-on t d e a occ (omega (arith, rank_occupied size t k occ)) away in
                let (r, run, out) = probe-Outcome fuel t (suc d) e b in
                (
                  r,
                  probe_on same_key fuel t (size - 1) h d k found occ away (rw gone (omega arith))
                      ∙ rw (u32-suc p small d b.near) run,
                  out,
                )
          ]
        ]
      ]

  -- A lookup starts at the home of its hash, with a round for each slot.
  pub probe_total :
      (t : List ℕ) (e : ℕ)
      → IsOrdered size t
      → e < size
      → get_or t e 0 ≡ 0
      → (r : Probe) × (probe same_key size t (size - 1) h 0 ≡ some r) × Outcome t e r
  probe_total t e o lt z =
      let c-lt = home-lt p small h in
      let start =
        gap-lt size e (wrap size (home size h) 0) lt
          (wrap-lt size (home size h) 0 c-lt (size_pos p small)) in
      probe-Outcome size t 0 e (record {
        ordered = o;
        near = size_pos p small;
        inside = lt;
        empty = z;
        behind = tt;
        fuelled = start;
        room = omega (arith, start);
        passed = λ j l. elim l [ ];
      })
