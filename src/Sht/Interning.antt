-- ===== src/Sht/Interning.antt =====
-- `sht_intern_u` ends: the key is found, or it is added where the probing loop stopped.
use polyfill_glibc.Base.{
  ℕ, suc, ◌≤◌, ◌+◌, ◌*◌, ◌^◌, ◌<◌, Bool, true, false, List, some, ◌++◌, ◌≡◌, ◌≢◌, refl, ap, ◌∙◌,
  arith, u32, ltb, leb, length, if◌then◌else◌, Bool-cases, inl, inr,
}
use polyfill_glibc.RobinHood.{rehash_table}
use polyfill_glibc.RobinHood.Count.{countp, digit}
use polyfill_glibc.RobinHood.Growing.{IsLoaded, count-lt, Adds-IsLoaded, rehash-IsLoaded}
use polyfill_glibc.RobinHood.Placing.{Adds}
use polyfill_glibc.Sht.Adding.{
  new_index, new_slot, new_slot-ne-zero, index-ne-zero, key_of-new, added-IsValid, added-reads,
}
use polyfill_glibc.Sht.Valid.{IsValid, of_key}
use polyfill_glibc.Sht.{
  Sht, entry_words, entry_bytes, add_to_contents, rehashed, count_one_more, with_table, key_of,
  lookup_u, same_bytes,
}

module _ (s : Sht) (next : u32 (s.count + 1) ≡ s.count + 1) where
  count_one_more-full :
      leb (s.mask * 3) ((s.count + 1) * 4) ≡ true
      → count_one_more s ≡ rehashed (record s { count = s.count + 1 }) (rehash_table s.table s.mask)
  unfolding count_one_more
  count_one_more-full full = rw (next, full) refl

  count_one_more-light :
      leb (s.mask * 3) ((s.count + 1) * 4) ≡ false
      → count_one_more s ≡ some (record s { count = s.count + 1 })
  unfolding count_one_more
  count_one_more-light light = rw (next, light) refl

-- The contents as `add_to_contents` leaves them.
abbrev pub extended : Sht → List ℕ → ℕ → Sht
extended s key cap = record s {
  contents = s.contents ++ entry_bytes key s.value_length;
  size = s.size + entry_words (length key) + s.value_length;
  capacity = cap;
}

abbrev capacity_for : Sht → ℕ → ℕ
capacity_for s new_size =
    let doubled = u32 (s.capacity * 2) in
    if ltb s.capacity new_size
    then (if ltb doubled new_size then new_size else doubled)
    else s.capacity

pub add_to_contents-run :
    (s : Sht) (key : List ℕ)
    → s.size + entry_words (length key) + s.value_length < 2 ^ 32
    → (cap : ℕ) × (add_to_contents s key ≡ (s.size + entry_words (length key), extended s key cap))
unfolding add_to_contents
add_to_contents-run s key room =
    let first : u32 (s.size + entry_words (length key)) ≡ s.size + entry_words (length key) =
      omega arith in
    let second : u32 (s.size + entry_words (length key) + s.value_length)
        ≡ s.size + entry_words (length key) + s.value_length =
      omega arith in
    (capacity_for s (s.size + entry_words (length key) + s.value_length), rw (first, second) refl)

-- A call of `sht_intern_u` for `key` has ended with the index `u` and the table `s'`. The entry at `u`
-- has the key; a lookup of the key finds `u`, and a lookup of another key what it found in `s`.
-- The table has at most doubled, and the contents have at most the new entry more.
pub record Holds (p : ℕ) (s : Sht) (key : List ℕ) (u : ℕ) (s' : Sht) : Type 0 where
  pub power : ℕ
  pub doubled : power ≤ suc p
  pub longer : s'.size ≤ s.size + entry_words (length key) + s.value_length
  pub same_values : s'.value_length ≡ s.value_length
  pub valid : IsValid power s'
  pub some_index : u ≢ 0
  pub named : key_of s'.contents u ≡ key
  pub reads : (j : List ℕ) → lookup_u s' j ≡ (if same_bytes key j then some u else lookup_u s j)

module _ {p : ℕ} {s : Sht} (v : IsValid p s) (wide : p < 32) (key : List ℕ)
    (key-lt : length key + 8 < 2 ^ 32)
    (room : s.size + entry_words (length key) + s.value_length < 2 ^ 32)
    (fresh : countp (of_key s.contents key) s.table ≡ 0) (cap : ℕ) where
  abbrev u : ℕ
  u = new_index v key key-lt room fresh

  abbrev slot : ℕ
  slot = new_slot v key key-lt room fresh

  abbrev base : Sht
  base = extended s key cap

  -- The entry is there, and the table `t` has its slot.
  Holds-of :
      {q : ℕ} (t : List ℕ) (mask count : ℕ)
      → q ≤ suc p
      → IsLoaded q t mask count
      → ((P : ℕ → Bool) → P 0 ≡ false → countp P t ≡ countp P s.table + digit (P slot))
      → Holds p s key u (record base { table = t; mask = mask; count = count })
  Holds-of {q} t mask count le loaded counts =
      let s' : Sht = record base { table = t; mask = mask; count = count } in
      record {
        power = q;
        doubled = le;
        longer = omega arith;
        same_values = refl;
        valid = added-IsValid v key key-lt room fresh s' loaded counts refl refl;
        some_index = index-ne-zero v key key-lt room fresh;
        named = key_of-new v key key-lt room fresh;
        reads = added-reads v key key-lt room fresh s' loaded counts refl refl;
      }

  pub with_table-Holds :
      {t : List ℕ}
      → Adds (2 ^ p) s.table slot t
      → (t' : List ℕ) × (mask' : ℕ) × (with_table base (some t)
          ≡ some (record base { table = t'; mask = mask'; count = s.count + 1 }))
        × Holds p s key u (record base { table = t'; mask = mask'; count = s.count + 1 })
  with_table-Holds {t} a =
      let next : u32 (s.count + 1) ≡ s.count + 1 = omega (arith, count-lt v.loaded) in
      let nz = new_slot-ne-zero v key key-lt room fresh in
      elim (Bool-cases (leb (s.mask * 3) ((s.count + 1) * 4))) [
        | inl full ↦
            let (t', run, loaded, counts) = rehash-IsLoaded v.loaded slot nz a wide in
            (
              t',
              u32 (s.mask * 2 + 1),
              count_one_more-full (record base { table = t }) next full
                  ∙ ap (rehashed (record base { table = t; count = s.count + 1 })) run,
              Holds-of t' (u32 (s.mask * 2 + 1)) (s.count + 1) (omega arith) loaded counts,
            )
        | inr light ↦ (
          t,
          s.mask,
          count_one_more-light (record base { table = t }) next light,
          Holds-of t s.mask (s.count + 1) (omega arith)
              (Adds-IsLoaded v.loaded slot nz a (ground arith)) a.counts,
        )
      ]
