-- ===== src/RobinHood/Placing.antt =====
-- `reinsert` ends, keeps the order, and adds exactly the slot that it is given.
use polyfill_glibc.Base.{
  ℕ, zero, suc, ◌+◌, ◌-◌, ◌^◌, ◌≤◌, ◌<◌, Bool, false, List, ◌≡◌, ◌≢◌, sym, ap, ◌∙◌, arith, some,
  u32, length, get_or, set, length-set, get_or-set_ne,
}
use native.Mathlib.Decide.{dec_lt, ℕ_discrete}
use polyfill_glibc.RobinHood.{reinsert, probe_index, slot_distance}
use polyfill_glibc.RobinHood.Count.{countp, countp-set, digit}
use polyfill_glibc.RobinHood.Index.{
  gap-next, two_le, u32-suc, home, wrap, gap, wrap-lt, wrap-gap, home-lt, probe_index-wrap,
  slot_distance-gap,
}
use polyfill_glibc.RobinHood.Order.{
  rank, IsOrdered, Behind, rank_empty, rank_occupied, set-IsOrdered, rank_placed, wrap-suc,
}

-- The table `r` is ordered and holds what `t` holds and the slot `s`.
pub record Adds (n : ℕ) (t : List ℕ) (s : ℕ) (r : List ℕ) : Type 0 where
  pub width : length r ≡ n
  pub ordered : IsOrdered n r
  pub counts : (P : ℕ → Bool) → P 0 ≡ false → countp P r ≡ countp P t + digit (P s)

-- One round of the loop at the slot `k`, in its three cases.
module _ (fuel : ℕ) (t : List ℕ) (mask s d k : ℕ) (at : probe_index mask s d ≡ k) where
  reinsert_free : get_or t k 0 ≡ 0 → reinsert (suc fuel) t mask s d ≡ some (set t k s)
  unfolding reinsert
  reinsert_free z = ground arith

  module _ (nz : get_or t k 0 ≢ 0) where
    reinsert_swap :
        slot_distance mask k (get_or t k 0) < d
        → reinsert (suc fuel) t mask s d
          ≡ reinsert fuel
              (set t k s)
              mask
              (get_or t k 0)
              (u32 (slot_distance mask k (get_or t k 0) + 1))
    unfolding reinsert
    reinsert_swap h = ground arith

    reinsert_on :
        d ≤ slot_distance mask k (get_or t k 0)
        → reinsert (suc fuel) t mask s d ≡ reinsert fuel t mask s (u32 (d + 1))
    unfolding reinsert
    reinsert_on h = ground arith

module _ (p : ℕ) (low : 1 ≤ p) (small : p ≤ 32) where
  abbrev size : ℕ
  size = 2 ^ p

  pub count_free :
      (P : ℕ → Bool) (t : List ℕ) (k s : ℕ)
      → k < length t
      → get_or t k 0 ≡ 0
      → P 0 ≡ false
      → countp P (set t k s) ≡ countp P t + digit (P s)
  count_free P t k s h z p0 = ground (arith, countp-set P t k s h)

  -- The loop may run on the slot `s` at distance `d`: an empty slot `e` is ahead, within the
  -- fuel, and before the way has gone once round the table.
  pub record Ready (fuel : ℕ) (t : List ℕ) (s d e : ℕ) : Type 0 where
    pub width : length t ≡ size
    pub ordered : IsOrdered size t
    pub some_slot : s ≢ 0
    pub near : d < size
    pub inside : e < size
    pub empty : get_or t e 0 ≡ 0
    pub behind : Behind size t (home size s) d
    pub fuelled : gap size e (wrap size (home size s) d) < fuel
    pub room : d + gap size e (wrap size (home size s) d) < size

  module _ {fuel : ℕ} (t : List ℕ) (s d e : ℕ) (a : Ready (suc fuel) t s d e) where
    abbrev at : ℕ
    at = wrap size (home size s) d

    abbrev met : ℕ
    met = get_or t at 0

    abbrev far : ℕ
    far = gap size at (home size met)

    at-lt : at < size
    at-lt = wrap-lt size (home size s) d (home-lt p small s) a.near

    module _ (occ : met ≢ 0) where
      held : rank size t at ≡ suc far
      held = rank_occupied size t at occ

      not_empty : e ≢ at
      not_empty q = occ (ap (λ (j : ℕ). get_or t j 0) (sym q) ∙ a.empty)

      closer_to_empty : gap size e (wrap size at 1) + 1 ≡ gap size e at
      closer_to_empty = gap-next size e at a.inside at-lt not_empty

      back : wrap size (home size met) far ≡ at
      back = wrap-gap size at (home size met) at-lt (home-lt p small met)

      Ready-swap : far < d → Ready fuel (set t at s) met (suc far) e
      Ready-swap closer =
          let placed =
            rank_placed size t (two_le p low) a.width s d a.some_slot (home-lt p small s) a.near in
          let d2-lt : suc far < size = omega (arith, a.near) in
          let next : wrap size (home size met) (suc far) ≡ wrap size at 1 =
            wrap-suc size (home size met) far (home-lt p small met) d2-lt
            ∙ ap (λ (j : ℕ). wrap size j 1) back in
          let way = ap (gap size e) next in
          record {
            width = length-set t at s ∙ a.width;
            ordered =
                set-IsOrdered size t (two_le p low) a.width s d a.some_slot (home-lt p small s)
                  a.near a.ordered (omega (arith, held)) a.behind;
            some_slot = occ;
            near = d2-lt;
            inside = a.inside;
            empty = get_or-set_ne t at e s 0 (λ q. not_empty (sym q)) ∙ a.empty;
            behind = omega (arith, ap (rank size (set t at s)) back ∙ placed);
            fuelled = omega (arith, way, closer_to_empty, a.fuelled);
            room = omega (arith, way, closer_to_empty, a.room);
          }

      Ready-on : d ≤ far → Ready fuel t s (suc d) e
      Ready-on further =
          let d-lt : suc d < size = omega (arith, closer_to_empty, a.room) in
          let way = ap (gap size e) (wrap-suc size (home size s) d (home-lt p small s) d-lt) in
          record {
            width = a.width;
            ordered = a.ordered;
            some_slot = a.some_slot;
            near = d-lt;
            inside = a.inside;
            empty = a.empty;
            behind = omega (arith, held);
            fuelled = omega (arith, way, closer_to_empty, a.fuelled);
            room = omega (arith, way, closer_to_empty, a.room);
          }

    Adds-free : met ≡ 0 → Adds size t s (set t at s)
    Adds-free z = record {
      width = length-set t at s ∙ a.width;
      ordered =
          set-IsOrdered size t (two_le p low) a.width s d a.some_slot (home-lt p small s) a.near
            a.ordered (omega (arith, rank_empty size t at z)) a.behind;
      counts = λ P p0. count_free P t at s (rw a.width at-lt) z p0;
    }

    Adds-swap : {r : List ℕ} → Adds size (set t at s) met r → Adds size t s r
    Adds-swap b = record {
      width = b.width;
      ordered = b.ordered;
      counts = λ P p0. omega (arith, b.counts P p0, countp-set P t at s (rw a.width at-lt));
    }

  -- With an empty slot ahead the loop ends within the fuel, in a table that is still ordered and
  -- holds one slot more.
  pub reinsert-Adds :
      (fuel : ℕ) (t : List ℕ) (s d e : ℕ)
      → Ready fuel t s d e
      → (r : List ℕ) × (reinsert fuel t (size - 1) s d ≡ some r) × Adds size t s r
  reinsert-Adds zero t s d e a = absurd (omega (arith, a.fuelled))
  reinsert-Adds (suc fuel) t s d e a =
      let k = at t s d e a in
      let x = met t s d e a in
      let found : probe_index (size - 1) s d ≡ k = probe_index-wrap p small s d a.near in
      let gone : slot_distance (size - 1) k x ≡ far t s d e a =
        slot_distance-gap p small k x (at-lt t s d e a) in
      elim (ℕ_discrete x 0) [
        | yes z ↦ (set t k s, reinsert_free fuel t (size - 1) s d k found z, Adds-free t s d e a z)
        | no occ ↦ elim (dec_lt (far t s d e a) d) [
          | yes closer ↦
              let b = Ready-swap t s d e a occ closer in
              let (r, run, c) = reinsert-Adds fuel (set t k s) x (suc (far t s d e a)) e b in
              (
                r,
                reinsert_swap fuel t (size - 1) s d k found occ (rw gone closer)
                    ∙ rw (gone, u32-suc p small (far t s d e a) b.near) run,
                Adds-swap t s d e a c,
              )
          | no further ↦
              let b = Ready-on t s d e a occ (omega arith) in
              let (r, run, c) = reinsert-Adds fuel t s (suc d) e b in
              (
                r,
                reinsert_on fuel t (size - 1) s d k found occ (rw gone (omega arith))
                    ∙ rw (u32-suc p small d b.near) run,
                c,
              )
        ]
      ]
