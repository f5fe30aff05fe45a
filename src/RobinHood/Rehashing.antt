-- ===== src/RobinHood/Rehashing.antt =====
-- `rehash_table` ends, in an ordered table of twice the size that holds the same slots.
use polyfill_glibc.Base.{
  ℕ, suc, ◌+◌, ◌-◌, ◌*◌, ◌^◌, ◌≤◌, ◌<◌, Bool, false, List, [], ◌∷◌, ◌≡◌, ◌≢◌, refl, ap, ◌∙◌, arith,
  some, u32, length, replicate, length-replicate, get_or-replicate,
}
use native.Mathlib.Decide.{ℕ_discrete}
use native.Mathlib.Nat.{pow-suc}
use polyfill_glibc.RobinHood.{reinsert, reinsert_all, rehash_table}
use polyfill_glibc.RobinHood.Count.{countp, countp-replicate, digit, occupied, empty_slot}
use polyfill_glibc.RobinHood.Index.{home, wrap, wrap-lt, gap-lt, home-lt, size_pos, size-le}
use polyfill_glibc.RobinHood.Order.{rank_empty, IsOrdered}
use polyfill_glibc.RobinHood.Placing.{Adds, reinsert-Adds}

countp-cons : (P : ℕ → Bool) (s : ℕ) (t : List ℕ) → countp P (s ∷ t) ≡ digit (P s) + countp P t
unfolding countp
countp-cons P s t = refl

module _ (s : ℕ) (slots t : List ℕ) where
  reinsert_all_skip :
      (mask : ℕ) → s ≡ 0 → reinsert_all (s ∷ slots) t mask ≡ reinsert_all slots t mask
  unfolding reinsert_all
  reinsert_all_skip mask z = ground arith

  reinsert_all_put :
      (r : List ℕ) (mask : ℕ)
      → s ≢ 0
      → reinsert (length t) t mask s 0 ≡ some r
      → reinsert_all (s ∷ slots) t mask ≡ reinsert_all slots r mask
  unfolding reinsert_all
  reinsert_all_put r mask nz run = ground arith

-- The table `r` is ordered and holds what `t` holds and all of `slots`.
pub record AddsAll (n : ℕ) (t slots r : List ℕ) : Type 0 where
  pub width : length r ≡ n
  pub ordered : IsOrdered n r
  pub counts : (P : ℕ → Bool) → P 0 ≡ false → countp P r ≡ countp P t + countp P slots

module _ (p : ℕ) (low : 1 ≤ p) (small : p ≤ 32) where
  abbrev size : ℕ
  size = 2 ^ p

  -- A slot is inserted from its home if the table has an empty one.
  pub reinsert_home :
      (t : List ℕ) (s : ℕ)
      → length t ≡ size
      → IsOrdered size t
      → s ≢ 0
      → countp occupied t < size
      → (r : List ℕ) × (reinsert (length t) t (size - 1) s 0 ≡ some r) × Adds size t s r
  reinsert_home t s len o nz room =
      let (e, e-lt, z) = empty_slot t (rw len room) in
      let c-lt = home-lt p small s in
      let inside : e < size = omega (arith, len, e-lt) in
      let start =
        gap-lt size e (wrap size (home size s) 0) inside
          (wrap-lt size (home size s) 0 c-lt (size_pos p small)) in
      reinsert-Adds p low small (length t) t s 0 e (record {
        width = len;
        ordered = o;
        some_slot = nz;
        near = size_pos p small;
        inside = inside;
        empty = z;
        behind = tt;
        fuelled = rw len start;
        room = omega (arith, start);
      })

  pub reinsert_all-AddsAll :
      (slots t : List ℕ)
      → length t ≡ size
      → IsOrdered size t
      → countp occupied t + countp occupied slots < size
      → (r : List ℕ) × (reinsert_all slots t (size - 1) ≡ some r) × AddsAll size t slots r
  reinsert_all-AddsAll [] t len o room = (
    t,
    unfold reinsert_all in refl,
    record { width = len; ordered = o; counts = λ P p0. unfold countp in omega arith },
  )
  reinsert_all-AddsAll (s ∷ slots) t len o room = elim (ℕ_discrete s 0) [
    | yes z ↦
        let (r, run, a) =
          reinsert_all-AddsAll slots t len o (omega (arith, countp-cons occupied s slots)) in
        (
          r,
          reinsert_all_skip s slots t (size - 1) z ∙ run,
          record {
            width = a.width;
            ordered = a.ordered;
            counts = λ P p0. omega (
              arith,
              a.counts P p0,
              countp-cons P s slots,
              ap (λ (x : ℕ). digit (P x)) z,
              ap digit p0,
            );
          },
        )
    | no nz ↦
        let taken : digit (occupied s) ≡ 1 = ground arith in
        let (r, run, a) =
          reinsert_home t s len o nz (omega (arith, countp-cons occupied s slots)) in
        let (r', run', b) =
          reinsert_all-AddsAll slots r a.width a.ordered
            (omega (arith, countp-cons occupied s slots, a.counts occupied refl)) in
        (
          r',
          reinsert_all_put s slots t r (size - 1) nz run ∙ run',
          record {
            width = b.width;
            ordered = b.ordered;
            counts = λ P p0. omega (arith, a.counts P p0, b.counts P p0, countp-cons P s slots);
          },
        )
  ]

pub zeros-IsOrdered : (n : ℕ) → IsOrdered n (replicate n 0)
zeros-IsOrdered n i h =
    omega (arith, rank_empty n (replicate n 0) (wrap n i 1) (get_or-replicate n (wrap n i 1) 0))

-- The mask of the table of twice the size.
pub double_mask : (p : ℕ) → suc p ≤ 32 → u32 ((2 ^ p - 1) * 2 + 1) ≡ 2 ^ suc p - 1
double_mask p h = omega (arith, size_pos p (omega arith), pow-suc 2 p, size-le (suc p) h)

rehash_table-run :
    (p : ℕ) (t : List ℕ)
    → suc p ≤ 32
    → rehash_table t (2 ^ p - 1) ≡ reinsert_all t (replicate (2 ^ suc p) 0) (2 ^ suc p - 1)
unfolding rehash_table
rehash_table-run p t small =
    let whole : 2 ^ suc p - 1 + 1 ≡ 2 ^ suc p = omega (arith, size_pos (suc p) small) in
    rw (double_mask p small, whole)

-- Every slot of the table, and no other, is in the table of twice the size.
pub rehash_table-AddsAll :
    (p : ℕ) (t : List ℕ)
    → suc p ≤ 32
    → length t ≡ 2 ^ p
    → countp occupied t < 2 ^ suc p
    → (r : List ℕ) × (rehash_table t (2 ^ p - 1) ≡ some r)
      × (length r ≡ 2 ^ suc p)
      × IsOrdered (2 ^ suc p) r
      × ((P : ℕ → Bool) → P 0 ≡ false → countp P r ≡ countp P t)
rehash_table-AddsAll p t small len room =
    let wide : 1 ≤ suc p = omega arith in
    let none_yet = λ (P : ℕ → Bool) (p0 : P 0 ≡ false). countp-replicate P (2 ^ suc p) p0 in
    let (r, run, a) =
      reinsert_all-AddsAll (suc p) wide small t (replicate (2 ^ suc p) 0)
        (length-replicate (2 ^ suc p) 0) (zeros-IsOrdered (2 ^ suc p))
        (omega (arith, none_yet occupied refl)) in
    (
      r,
      rehash_table-run p t small ∙ run,
      a.width,
      a.ordered,
      λ P p0. omega (arith, a.counts P p0, none_yet P p0),
    )
