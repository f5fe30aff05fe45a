-- ===== src/RobinHood/Growing.antt =====
-- A table that is less than three quarters full, and a slot added to it, with the rehash that may
-- follow.
use polyfill_glibc.Base.{
  ℕ, suc, ◌+◌, ◌-◌, ◌*◌, ◌^◌, ◌≤◌, ◌<◌, Bool, false, List, ◌≡◌, ◌≢◌, refl, sym, ap, ◌∙◌, arith,
  some, u32, length, get_or, replicate, length-replicate,
}
use native.Mathlib.Nat.{pow-suc, pow-le-pow_right}
use polyfill_glibc.RobinHood.Count.{countp, countp-replicate, digit, occupied, empty_slot}
use polyfill_glibc.RobinHood.Index.{size_pos}
use polyfill_glibc.RobinHood.Order.{IsOrdered}
use polyfill_glibc.RobinHood.Placing.{Adds}
use polyfill_glibc.RobinHood.Rehashing.{double_mask, rehash_table-AddsAll, zeros-IsOrdered}
use polyfill_glibc.RobinHood.{rehash_table}

pub record IsLoaded (p : ℕ) (t : List ℕ) (mask count : ℕ) : Type 0 where
  pub wide : 2 ≤ p
  pub small : p ≤ 32
  pub width : length t ≡ 2 ^ p
  pub masked : mask ≡ 2 ^ p - 1
  pub ordered : IsOrdered (2 ^ p) t
  pub counted : count ≡ countp occupied t
  pub load : count * 4 < mask * 3

pub four_le : (p : ℕ) → 2 ≤ p → 4 ≤ 2 ^ p
four_le p wide = pow-le-pow_right {n = 2} (omega arith) wide

-- An empty table.
pub zeros-IsLoaded :
    (p mask : ℕ) → 2 ≤ p → p ≤ 32 → mask ≡ 2 ^ p - 1 → IsLoaded p (replicate (mask + 1) 0) mask 0
zeros-IsLoaded p mask wide small masked =
    let whole : mask + 1 ≡ 2 ^ p = omega (arith, masked, four_le p wide) in
    rw whole (record {
      wide = wide;
      small = small;
      width = length-replicate (2 ^ p) 0;
      masked = masked;
      ordered = zeros-IsOrdered (2 ^ p);
      counted = sym (countp-replicate occupied (2 ^ p) refl);
      load = omega (arith, masked, four_le p wide);
    })

digit-occupied : (s : ℕ) → s ≢ 0 → digit (occupied s) ≡ 1
digit-occupied s nz = ground arith

module _ {p : ℕ} {t : List ℕ} {mask count : ℕ} (v : IsLoaded p t mask count) where
  pub low : 1 ≤ p
  low = omega (arith, v.wide)

  -- The load leaves an empty slot.
  pub has_empty : (e : ℕ) × (e < 2 ^ p) × (get_or t e 0 ≡ 0)
  has_empty =
      let (e, lt, z) = empty_slot t (omega (arith, v.load, v.counted, v.masked, v.width)) in
      (e, omega (arith, lt, v.width), z)

  pub count-lt : count + 1 < 2 ^ 32
  count-lt =
      omega
        (arith, v.load, v.masked, pow-le-pow_right {n = 2} (omega arith) {i = p} {j = 32} v.small)

  module _ (s : ℕ) (nz : s ≢ 0) {r : List ℕ} (a : Adds (2 ^ p) t s r) where
    counted_more : count + 1 ≡ countp occupied r
    counted_more = omega (arith, a.counts occupied refl, v.counted, digit-occupied s nz)

    pub Adds-IsLoaded : (count + 1) * 4 < mask * 3 → IsLoaded p r mask (count + 1)
    Adds-IsLoaded light = record {
      wide = v.wide;
      small = v.small;
      width = a.width;
      masked = v.masked;
      ordered = a.ordered;
      counted = counted_more;
      load = light;
    }

    -- The rehash doubles the table and keeps its slots.
    pub rehash-IsLoaded :
        p < 32
        → (t' : List ℕ) × (rehash_table r mask ≡ some t')
          × IsLoaded (suc p) t' (u32 (mask * 2 + 1)) (count + 1)
          × ((P : ℕ → Bool) → P 0 ≡ false → countp P t' ≡ countp P t + digit (P s))
    rehash-IsLoaded room =
        let (t', run, width, ordered, counts) =
          rehash_table-AddsAll p r room a.width
            (omega (arith, counted_more, v.load, v.masked, pow-suc 2 p)) in
        let mask_is : u32 (mask * 2 + 1) ≡ 2 ^ suc p - 1 =
          ap (λ (m : ℕ). u32 (m * 2 + 1)) v.masked ∙ double_mask p room in
        (
          t',
          ap (rehash_table r) v.masked ∙ run,
          record {
            wide = omega (arith, v.wide);
            small = room;
            width = width;
            masked = mask_is;
            ordered = ordered;
            counted = counted_more ∙ sym (counts occupied refl);
            load = omega (arith, mask_is, v.masked, v.load, pow-suc 2 p, size_pos p v.small);
          },
          λ P p0. counts P p0 ∙ a.counts P p0,
        )
