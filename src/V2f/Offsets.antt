-- ===== src/V2f/Offsets.antt =====
-- What `v2f_map_lookup_f_range` returns.
use polyfill_glibc.Base.{
  ℕ, zero, suc, ◌+◌, ◌^◌, ◌≤◌, ◌<◌, Bool, true, false, not, Option, some, none, List, ◌≡◌, refl,
  sym, ◌∙◌, ap, arith, ltb, leb, ◌==◌, if◌then◌else◌, bit_and, u64, sub64, inl, inr, Bool-cases,
  ◌||◌,
}
use mathlib.Core.Option.{none-ne-some, some-injective}
use polyfill_glibc.V2f.{V2fMap, V2fEntry, base, entry, lookup_f_from, lookup_f_range}

-- The entry `i` maps `size` bytes from the file offset `f` on.
pub record Offers (es : List V2fEntry) (count f size i : ℕ) : Type 0 where
  pub inside : i < count
  pub mapped : bit_and (entry es i).v2f 3 ≡ 0
  pub from : u64 (base es i + (entry es i).v2f) ≤ f
  pub below : f < u64 (base es (suc i) + (entry es i).v2f)
  pub upto : f + size ≤ u64 (base es (suc i) + (entry es i).v2f)

-- The four tests of the loop as one.
abbrev skips : List V2fEntry → ℕ → ℕ → ℕ → Bool
skips es i f size =
    let delta = (entry es i).v2f in
    let itr1f = u64 (base es (suc i) + delta) in
    not (bit_and delta 3 == 0)
    || (ltb f (u64 (base es i + delta)) || (leb itr1f f || ltb (sub64 itr1f f) size))

from-skip :
    (es : List V2fEntry) (n i f size : ℕ)
    → lookup_f_from es (suc n) i f size
      ≡ (if skips es i f size then lookup_f_from es n (suc i) f size else some i)
unfolding lookup_f_from
from-skip es n i f size =
    joined (not (bit_and (entry es i).v2f 3 == 0)) (ltb f (u64 (base es i + (entry es i).v2f)))
      (leb (u64 (base es (suc i) + (entry es i).v2f)) f)
      (ltb (sub64 (u64 (base es (suc i) + (entry es i).v2f)) f) size)
      (lookup_f_from es n (suc i) f size)
  where
    joined :
        (a b c d : Bool) (rest : Option ℕ)
        → (if a then rest else if b then rest else if c then rest else if d then rest else some i)
          ≡ (if a || (b || (c || d)) then rest else some i)
    joined true b c d rest = refl
    joined false true c d rest = refl
    joined false false true d rest = refl
    joined false false false true rest = refl
    joined false false false false rest = refl

offers :
    (es : List V2fEntry) (count f size i : ℕ)
    → i < count
    → f < 18446744073709551616
    → skips es i f size ≡ false
    → Offers es count f size i
offers es count f size i lt f-lt h = record {
  inside = lt;
  mapped = ground arith;
  from = ground arith;
  below = ground arith;
  upto = ground arith;
}

choose_true : {b : Bool} (x y : Option ℕ) → b ≡ true → (if b then x else y) ≡ x
choose_true x y e = ap (λ (c : Bool). if c then x else y) e

choose_false : {b : Bool} (x y : Option ℕ) → b ≡ false → (if b then x else y) ≡ y
choose_false x y e = ap (λ (c : Bool). if c then x else y) e

from-zero : (es : List V2fEntry) (i f size : ℕ) → lookup_f_from es 0 i f size ≡ none
unfolding lookup_f_from
from-zero es i f size = refl

module _ (es : List V2fEntry) (count f size : ℕ) (f-lt : f < 18446744073709551616) where
  from-Offers :
      (n i j : ℕ) → n + i ≤ count → lookup_f_from es n i f size ≡ some j → Offers es count f size j
  from-Offers zero i j le h = absurd (none-ne-some j (sym (from-zero es i f size) ∙ h))
  from-Offers (suc n) i j le h = elim (Bool-cases (skips es i f size)) [
    | inl skip ↦
        from-Offers n (suc i) j (omega arith)
          (sym (choose_true _ (some i) skip) ∙ sym (from-skip es n i f size) ∙ h)
    | inr stop ↦
        let here : i ≡ j = some-injective i j (
          sym (choose_false (lookup_f_from es n (suc i) f size) (some i) stop)
          ∙ sym (from-skip es n i f size)
          ∙ h) in
        rw (sym here) (offers es count f size i (omega arith) f-lt stop)
  ]

-- For a 64-bit file offset, an entry that `v2f_map_lookup_f_range` returns is an entry in use that
-- is not special and maps the whole range of the file.
pub lookup_f_range-Offers :
    (m : V2fMap) (f size j : ℕ)
    → f < 2 ^ 64
    → lookup_f_range m f size ≡ some j
    → Offers m.entries m.count f size j
unfolding lookup_f_range
lookup_f_range-Offers m f size j f-lt h =
    from-Offers m.entries m.count f size f-lt m.count 0 j (omega arith) h
