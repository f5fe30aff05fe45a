-- ===== src/RobinHood/Inserting.antt =====
-- A key that the table does not hold is put where its probing loop stopped.
use polyfill_glibc.Base.{
  ℕ, zero, suc, ◌-◌, ◌^◌, ◌≤◌, ◌<◌, Bool, List, ◌≡◌, ◌≢◌, refl, sym, ap, ◌∙◌, arith, some, u32,
  length, get_or, set, length-set, get_or-set_ne,
}
use polyfill_glibc.RobinHood.{reinsert}
use polyfill_glibc.RobinHood.Count.{countp-set, digit}
use polyfill_glibc.RobinHood.Index.{
  home, home_of_eq, wrap, gap, two_le, wrap-lt, wrap-gap, gap-lt, home-lt,
}
use polyfill_glibc.RobinHood.Order.{
  rank, IsOrdered, Behind, rank_occupied, set-IsOrdered, rank-set_ne, wrap-suc, wrap_one-ne,
}
use polyfill_glibc.RobinHood.Placing.{Adds, Ready, reinsert-Adds, count_free}
use polyfill_glibc.RobinHood.Probing.{Stops}

module _ (p : ℕ) (low : 1 ≤ p) (small : p ≤ 32) (same_key : ℕ → Bool) (h : ℕ)
    (h-lt : h < 2 ^ 32) where
  abbrev size : ℕ
  size = 2 ^ p

  module _ (t : List ℕ) (e k d s : ℕ) (len : length t ≡ size) (o : IsOrdered size t)
      (e-lt : e < size) (z : get_or t e 0 ≡ 0) (nz : s ≢ 0) (hash : u32 s ≡ h)
      (a : Stops p low small same_key h h-lt t e k d) where
    same_home : home size s ≡ home size h
    same_home = home_of_eq size s h hash h-lt

    place : k ≡ wrap size (home size s) d
    place = a.place ∙ ap (λ (c : ℕ). wrap size c d) (sym same_home)

    k-lt : k < size
    k-lt = rw place (wrap-lt size (home size s) d (home-lt p small s) a.near)

    put-IsOrdered : IsOrdered size (set t k s)
    put-IsOrdered = rw place (
        set-IsOrdered size t (two_le p low) len s d nz (home-lt p small s) a.near o
          (omega (arith, ap (rank size t) place, a.poor)) (rw same_home a.behind))

    -- An empty slot takes the new slot.
    pub put_free : get_or t k 0 ≡ 0 → Adds size t s (set t k s)
    put_free free = record {
      width = length-set t k s ∙ len;
      ordered = put-IsOrdered;
      counts = λ P p0. count_free p low small P t k s (rw len k-lt) free p0;
    }

    module _ (x d2 : ℕ) (met : get_or t k 0 ≡ x) (occ : x ≢ 0) (far : d2 ≡ gap size k (home size x))
        (nearer : d2 < d) where
      back : wrap size (home size x) d2 ≡ k
      back = rw far (wrap-gap size k (home size x) k-lt (home-lt p small x))

      displaced-Behind : (j : ℕ) → j ≡ d2 → Behind size (set t k s) (home size x) j
      displaced-Behind zero q = tt
      displaced-Behind (suc j) q =
          let w : ℕ = wrap size (home size x) j in
          let c-lt = home-lt p small x in
          let w-lt : w < size = wrap-lt size (home size x) j c-lt (omega (arith, a.near)) in
          let next : wrap size w 1 ≡ k =
            sym (wrap-suc size (home size x) j c-lt (omega (arith, a.near)))
            ∙ ap (wrap size (home size x)) q
            ∙ back in
          let ne : k ≢ w = λ f. wrap_one-ne size w (two_le p low) w-lt (sym f ∙ sym next) in
          let held : rank size t k ≡ suc (gap size k (home size x)) =
            rank_occupied size t k (λ f. occ (sym met ∙ f))
            ∙ ap (λ (y : ℕ). suc (gap size k (home size y))) met in
          omega (arith, rank-set_ne size t k w s ne, o w w-lt, ap (rank size t) next, held)

      displaced-Ready : Ready p low small size (set t k s) x d2 e
      displaced-Ready = record {
        width = length-set t k s ∙ len;
        ordered = put-IsOrdered;
        some_slot = occ;
        near = omega (arith, a.near);
        inside = e-lt;
        empty =
            get_or-set_ne t k e s 0 (λ q. occ (sym met ∙ ap (λ (j : ℕ). get_or t j 0) q ∙ z)) ∙ z;
        behind = displaced-Behind d2 refl;
        fuelled = omega (arith, ap (gap size e) back, gap-lt size e k e-lt k-lt);
        room = omega (arith, ap (gap size e) back, a.room);
      }

      -- A nearer slot gives way, and is inserted again further on.
      pub put_rich :
          (r : List ℕ) × (reinsert size (set t k s) (size - 1) x d2 ≡ some r) × Adds size t s r
      put_rich =
          let (r, run, b) = reinsert-Adds p low small size (set t k s) x d2 e displaced-Ready in
          (
            r,
            run,
            record {
              width = b.width;
              ordered = b.ordered;
              counts = λ P p0. omega (
                arith,
                b.counts P p0,
                countp-set P t k s (rw len k-lt),
                ap (λ (y : ℕ). digit (P y)) met,
              );
            },
          )
