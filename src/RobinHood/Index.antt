-- ===== src/RobinHood/Index.antt =====
-- Index arithmetic of a table with a power of two of slots.
use native.Mathlib.Nat.{
  pow-suc, one-le-pow, mod-mod_of_dvd, mod-lt, mod-add-mod, mod-eq_of_lt, mod-eq-sub-mod, one-dvd,
  pow-le-pow_right, mul-dvd-mul_right, add-mul-mod_self_left, mul-div_cancel', div-add-mod,
  mul-le-mul_left,
}
use Prim.Native.Nat.{◌∣◌}
use native.Mathlib.Decide.{dec_lt}
use polyfill_glibc.Base.{
  Bool-cases, ltb→lt, leb→le, sub32, inl, inr, ◌/◌, ℕ, zero, suc, ◌+◌, ◌-◌, ◌*◌, ◌%◌, ◌^◌, ◌≤◌, ◌<◌,
  ◌≡◌, ◌≢◌, ap, arith, u32, leb, ltb, if◌then◌else◌, ◌∙◌, sym,
}
use polyfill_glibc.Base.Bits.{bit_and_mask}
use polyfill_glibc.RobinHood.{probe_index, slot_distance}

-- The slot where a hash belongs in a table of `n` slots.
pub home : ℕ → ℕ → ℕ
home n hv = u32 hv % n

pub home_of_eq : (n s h : ℕ) → u32 s ≡ h → h < 2 ^ 32 → home n s ≡ home n h
unfolding home
home_of_eq n s h e lt = let f : u32 s ≡ u32 h = omega arith in ap (λ (x : ℕ). x % n) f

pub home_of_u32 : (n s t : ℕ) → u32 s ≡ u32 t → home n s ≡ home n t
unfolding home
home_of_u32 n s t e = ap (λ (x : ℕ). x % n) e

-- The index `d` places after `c`, and the way from `c` up to `i`, round the end of the table.
abbrev pub wrap : ℕ → ℕ → ℕ → ℕ
wrap n c d = if ltb (c + d) n then c + d else c + d - n

abbrev pub gap : ℕ → ℕ → ℕ → ℕ
gap n i c = if leb c i then i - c else i + n - c

pub wrap-lt : (n c d : ℕ) → c < n → d < n → wrap n c d < n
wrap-lt n c d p q = ground arith

pub gap-lt : (n i c : ℕ) → i < n → c < n → gap n i c < n
gap-lt n i c p q = ground arith

pub wrap-gap : (n i c : ℕ) → i < n → c < n → wrap n c (gap n i c) ≡ i
wrap-gap n i c p q = ground arith

pub gap-wrap : (n c d : ℕ) → c < n → d < n → gap n (wrap n c d) c ≡ d
gap-wrap n c d p q = ground arith

pub wrap-zero : (n c : ℕ) → c < n → wrap n c 0 ≡ c
wrap-zero n c p = ground arith

pub gap-next : (n e i : ℕ) → e < n → i < n → e ≢ i → gap n e (wrap n i 1) + 1 ≡ gap n e i
gap-next n e i p q h = ground arith

pub two_le : (p : ℕ) → 1 ≤ p → 2 ≤ 2 ^ p
two_le p low = pow-le-pow_right {n = 2} (omega arith) low

mod_wrap : (n c d : ℕ) → c < n → d < n → (c + d) % n ≡ wrap n c d
mod_wrap n c d p q = elim (Bool-cases (ltb (c + d) n)) [
  | inl low ↦ rw low (mod-eq_of_lt (ltb→lt _ _ low))
  | inr high ↦
      let le : n ≤ c + d = ground arith in rw high (mod-eq-sub-mod le ∙ mod-eq_of_lt (omega arith))
]

mod_gap : (n i c : ℕ) → i < n → c < n → (i + n - c) % n ≡ gap n i c
mod_gap n i c p q = elim (Bool-cases (leb c i)) [
  | inl low ↦
      let le : c ≤ i = leb→le _ _ low in
      rw low (mod-eq-sub-mod {n = i + n - c} {m = n} (omega arith) ∙ back le)
  | inr high ↦ let lt : i < c = ground arith in rw high (mod-eq_of_lt (omega arith))
]
  where
    back : c ≤ i → (i + n - c - n) % n ≡ i - c
    back le = let e : i + n - c - n ≡ i - c = omega arith in rw e (mod-eq_of_lt (omega arith))

pow_dvd : (p q : ℕ) → p ≤ q → 2 ^ p ∣ 2 ^ q
pow_dvd zero q h = one-dvd (2 ^ q)
pow_dvd (suc p) zero h = absurd (omega arith)
pow_dvd (suc p) (suc q) h =
    rw (pow-suc 2 p, pow-suc 2 q) (mul-dvd-mul_right (2 ^ p) (pow_dvd p q (omega arith)) 2)

quotient-lt : (n m x : ℕ) → x < n * m → x / n < m
quotient-lt n m x lt = elim (dec_lt (x / n) m) [
  | yes h ↦ h
  | no h ↦
      let le : n * m ≤ n * (x / n) = mul-le-mul_left n (omega arith) in
      absurd (omega (arith, div-add-mod x n))
]

-- A multiple of `n`, less `x`, has the remainder of `n` less that of `x`.
sub_mod : (n m i x : ℕ) → 0 < n → x < n * m → (i + n * m - x) % n ≡ (i + n - x % n) % n
sub_mod n m i x pos lt =
    let below : x / n < m = quotient-lt n m x lt in
    let parts : n * m ≡ n * (x / n) + n + n * (m - x / n - 1) = parts_of (x / n) below in
    let split : i + n * m - x ≡ i + n - x % n + n * (m - x / n - 1) =
      omega (arith, div-add-mod x n, parts, mod-lt x pos) in
    rw split (add-mul-mod_self_left (i + n - x % n) n (m - x / n - 1))
  where
    parts_of : (q : ℕ) → q < m → n * m ≡ n * q + n + n * (m - q - 1)
    parts_of q h =
        let e : m ≡ q + 1 + (m - q - 1) = omega arith in omega (arith, ap (λ (t : ℕ). n * t) e)

module _ (p : ℕ) (small : p ≤ 32) where
  mod_u32 : (x : ℕ) → u32 x % 2 ^ p ≡ x % 2 ^ p
  mod_u32 x = mod-mod_of_dvd (2 ^ p) x (pow_dvd p 32 small)

  pub size_pos : 0 < 2 ^ p
  size_pos = one-le-pow p 2 (omega arith)

  pub size-le : 2 ^ p ≤ 2 ^ 32
  size-le = pow-le-pow_right {n = 2} (omega arith) small

  pub u32-suc : (d : ℕ) → suc d < 2 ^ p → u32 (d + 1) ≡ suc d
  u32-suc d h = omega (arith, size-le)

  pub home-lt : (hv : ℕ) → home (2 ^ p) hv < 2 ^ p
  unfolding home
  home-lt hv = mod-lt (u32 hv) size_pos

  pub probe_index-wrap :
      (hv d : ℕ) → d < 2 ^ p → probe_index (2 ^ p - 1) hv d ≡ wrap (2 ^ p) (home (2 ^ p) hv) d
  unfolding probe_index home
  probe_index-wrap hv d h =
      bit_and_mask p (u32 (u32 hv + d))
      ∙ mod_u32 (u32 hv + d)
      ∙ sym (mod-add-mod (u32 hv) (2 ^ p) d)
      ∙ mod_wrap (2 ^ p) (u32 hv % 2 ^ p) d (mod-lt (u32 hv) size_pos) h

  pub slot_distance-gap :
      (i slot : ℕ)
      → i < 2 ^ p
      → slot_distance (2 ^ p - 1) i slot ≡ gap (2 ^ p) i (home (2 ^ p) slot)
  unfolding slot_distance home
  slot_distance-gap i slot h =
      let cancel : 2 ^ p * (2 ^ 32 / 2 ^ p) ≡ 2 ^ 32 =
        mul-div_cancel' (2 ^ p) (pow_dvd p 32 small) in
      bit_and_mask p (sub32 i (u32 slot))
      ∙ mod_u32 (i + 2 ^ 32 - u32 slot)
      ∙ ap (λ (t : ℕ). (i + t - u32 slot) % 2 ^ p) (sym cancel)
      ∙ sub_mod (2 ^ p) (2 ^ 32 / 2 ^ p) i (u32 slot) size_pos (rw cancel (omega arith))
      ∙ mod_gap (2 ^ p) i (u32 slot % 2 ^ p) h (mod-lt (u32 slot) size_pos)
