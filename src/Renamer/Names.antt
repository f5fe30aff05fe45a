-- ===== src/Renamer/Names.antt =====
-- Keys that are interned one after the other keep their indices.
use polyfill_glibc.Base.{
  ℕ, suc, ◌+◌, ◌*◌, ◌^◌, ◌≤◌, ◌<◌, some, List, ◌≡◌, ◌≢◌, sym, ap, ◌∙◌, arith, length, Bool-cases,
  inl, inr,
}
use mathlib.Core.Option.{some-injective}
use polyfill_glibc.Sht.Contents.{same_bytes-≡, same_bytes_refl}
use polyfill_glibc.Sht.Interning.{Holds}
use polyfill_glibc.Sht.Maps.{Changes, intern_u-Interns}
use polyfill_glibc.Sht.Valid.{IsValid}
use polyfill_glibc.Sht.{Sht, entry_words, intern_u, lookup_u, same_bytes}

-- The keys of `s` have the same indices in `s'`.
pub record Keeps (s s' : Sht) : Type 0 where
  pub keeps : (k : List ℕ) (u : ℕ) → u ≢ 0 → lookup_u s k ≡ some u → lookup_u s' k ≡ some u

pub Keeps-refl : (s : Sht) → Keeps s s
Keeps-refl s = record { keeps = λ k u nz e. e }

pub Keeps-trans : {s s' s'' : Sht} → Keeps s s' → Keeps s' s'' → Keeps s s''
Keeps-trans f g = record { keeps = λ k u nz e. g.keeps k u nz (f.keeps k u nz e) }

-- A valid table with room for `steps` more entries, which have `words` words before their values.
pub record Ready (words steps : ℕ) (s : Sht) : Type 0 where
  pub power : ℕ
  pub valid : IsValid power s
  pub wide : power + steps ≤ 32
  pub room : s.size + words + steps * s.value_length < 2 ^ 32

pub Ready-less : (a b steps : ℕ) {s : Sht} → Ready (a + b) (suc steps) s → Ready b steps s
Ready-less a b steps r = record {
  power = r.power;
  valid = r.valid;
  wide = omega (arith, r.wide);
  room = omega (arith, r.room);
}

module _ {p : ℕ} {s : Sht} {key : List ℕ} {u : ℕ} {s' : Sht} (h : Holds p s key u s')
    (c : Changes s key u s') where
  key-found : lookup_u s' key ≡ some u
  key-found = let e = h.reads key in rw same_bytes_refl at e

  same-index : (v : ℕ) → v ≢ 0 → lookup_u s key ≡ some v → u ≡ v
  same-index v nz e = elim c [
    | inl kept ↦ some-injective u v (sym kept.0 ∙ e)
    | inr new ↦ absurd (nz (some-injective v 0 (sym e ∙ new.0)))
  ]

  Keeps-intern : Keeps s s'
  Keeps-intern = record { keeps = kept }
    where
      kept : (k : List ℕ) (v : ℕ) → v ≢ 0 → lookup_u s k ≡ some v → lookup_u s' k ≡ some v
      kept k v nz e = elim (Bool-cases (same_bytes key k)) [
        | inl same ↦
            let q = same_bytes-≡ key k same in
            ap (lookup_u s') (sym q) ∙ key-found ∙ ap some (same-index v nz (ap (lookup_u s) q ∙ e))
        | inr other ↦ let r = h.reads k in (rw other at r) ∙ e
      ]

-- The key is interned, and there is room for the rest.
pub record Step (words steps : ℕ) (s : Sht) (key : List ℕ) : Type 0 where
  pub index : ℕ
  pub after : Sht
  pub ends : intern_u s key ≡ some (index, after)
  pub some_index : index ≢ 0
  pub found : lookup_u after key ≡ some index
  pub kept : Keeps s after
  pub ready : Ready words steps after

pub intern-Step :
    (words steps : ℕ) (s : Sht) (key : List ℕ)
    → length key + 8 < 2 ^ 32
    → Ready (entry_words (length key) + words) (suc steps) s
    → Step words steps s key
intern-Step words steps s key short r =
    let (u, s', run, h, c) =
      intern_u-Interns r.valid (omega (arith, r.wide)) key short (omega (arith, r.room)) in
    record {
      index = u;
      after = s';
      ends = run;
      some_index = h.some_index;
      found = key-found h c;
      kept = Keeps-intern h c;
      ready = record {
        power = h.power;
        valid = h.valid;
        wide = omega (arith, h.doubled, r.wide);
        room = omega (arith, h.longer, r.room, ap (λ (n : ℕ). steps * n) h.same_values);
      };
    }
