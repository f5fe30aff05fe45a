-- ===== src/Sht/Adding.antt =====
-- What a new entry and its slot do to the slots of a valid table.
use polyfill_glibc.Base.{
  ℕ, ◌+◌, ◌*◌, ◌^◌, ◌≤◌, ◌<◌, Bool, true, false, not, ◌&&◌, List, ◌++◌, ◌≡◌, ◌≢◌, refl, sym, ap,
  ap₂, ◌∙◌, arith, bit_or, u32, u64, length, ◌==◌, if◌then◌else◌, Bool-cases, inl, inr, some,
}
use mathlib.Core.Bool.{false≢true}
use polyfill_glibc.Base.Bits.{bit_or_low_fields}
use polyfill_glibc.RobinHood.Count.{countp, digit}
use polyfill_glibc.RobinHood.Entries.{
  is, is_self, first, first_of-countp, first_ext, Agree, countp-Agree, first-Agree,
}
use polyfill_glibc.RobinHood.Growing.{IsLoaded}
use polyfill_glibc.Sht.Contents.{
  Fits, Fits-append, Fits-added, same_key-append, key_length-added, key_of-added, length-added,
  same_bytes_refl, same_bytes-≡,
}
use polyfill_glibc.Sht.Hash.{hash_mem, hash_mem-lt}
use polyfill_glibc.Sht.Lookup.{lookup_u-first}
use polyfill_glibc.Sht.Valid.{IsValid, of_key}
use polyfill_glibc.Sht.{
  Sht, entry_words, entry_bytes, key_of, key_length, same_bytes, same_key, value_index, slot_of,
  lookup_u,
}

module _ (h u : ℕ) (h-lt : h < 2 ^ 32) (u-lt : u < 2 ^ 32) where
  slot_of-sum : slot_of h u ≡ u * 2 ^ 32 + h
  slot_of-sum =
      let whole : u64 (u * 2 ^ 32) ≡ u * 2 ^ 32 = omega arith in
      ap (bit_or h) whole ∙ bit_or_low_fields 32 u h h-lt

  pub slot_of-hash : u32 (slot_of h u) ≡ h
  slot_of-hash = omega (arith, slot_of-sum)

  pub slot_of-index : value_index (slot_of h u) ≡ u
  slot_of-index = omega (arith, slot_of-sum)

  pub slot_of-ne-zero : u ≢ 0 → slot_of h u ≢ 0
  slot_of-ne-zero nz = omega (arith, slot_of-sum)

digit-le : (b : Bool) → digit b ≤ 1
digit-le true = omega arith
digit-le false = omega arith

of_key-new :
    (contents key : List ℕ) (x : ℕ)
    → x ≢ 0
    → u32 x ≡ hash_mem key
    → same_key contents key x ≡ true
    → of_key contents key x ≡ true
of_key-new contents key x nz hash same = ground arith

of_key-other :
    (contents key : List ℕ) (x : ℕ)
    → same_key contents key x ≡ false
    → of_key contents key x ≡ false
of_key-other contents key x other = ground arith

of_key-zero : (contents key : List ℕ) → of_key contents key 0 ≡ false
of_key-zero contents key = refl

is-same : (y z : ℕ) → is y z ≡ true → z ≡ y
is-same y z e = ground arith

same_key-cases :
    (contents key j : List ℕ) (x : ℕ)
    → key_length contents (value_index x) ≡ length key
    → key_of contents (value_index x) ≡ key
    → same_key contents j x ≡ (length key == length j) && same_bytes key j
unfolding same_key
same_key-cases contents key j x len name =
    ap₂ (λ (n : ℕ) (k : List ℕ). (n == length j) && same_bytes k j) len name

same_key-other :
    (contents key j : List ℕ) (x : ℕ)
    → key_length contents (value_index x) ≡ length key
    → key_of contents (value_index x) ≡ key
    → same_bytes key j ≡ false
    → same_key contents j x ≡ false
same_key-other contents key j x len name other =
    let e = same_key-cases contents key j x len name in ground (arith, e)

same_key-new :
    (contents key : List ℕ) (x : ℕ)
    → key_length contents (value_index x) ≡ length key
    → key_of contents (value_index x) ≡ key
    → same_key contents key x ≡ true
same_key-new contents key x len name =
    let e = same_key-cases contents key key x len name in ground (arith, e, same_bytes_refl key)

module _ {p : ℕ} {s : Sht} (v : IsValid p s) (key : List ℕ) (key-lt : length key + 8 < 2 ^ 32)
    (room : s.size + entry_words (length key) + s.value_length < 2 ^ 32)
    (fresh : countp (of_key s.contents key) s.table ≡ 0) where
  abbrev pub new_index : ℕ
  new_index = s.size + entry_words (length key)

  abbrev pub new_slot : ℕ
  new_slot = slot_of (hash_mem key) new_index

  abbrev pub new_contents : List ℕ
  new_contents = s.contents ++ entry_bytes key s.value_length

  pub index-ne-zero : new_index ≢ 0
  index-ne-zero = omega (arith, v.headed)

  pub new_slot-ne-zero : new_slot ≢ 0
  new_slot-ne-zero =
      slot_of-ne-zero (hash_mem key) new_index (hash_mem-lt key) (omega arith) index-ne-zero

  pub new_slot-hash : u32 new_slot ≡ hash_mem key
  new_slot-hash = slot_of-hash (hash_mem key) new_index (hash_mem-lt key) (omega arith)

  new_slot-index : value_index new_slot ≡ new_index
  new_slot-index = slot_of-index (hash_mem key) new_index (hash_mem-lt key) (omega arith)

  length-new : key_length new_contents (value_index new_slot) ≡ length key
  length-new =
      ap (key_length new_contents) new_slot-index
      ∙ key_length-added s.contents key s.size s.value_length v.filled key-lt

  pub key_of-new : key_of new_contents new_index ≡ key
  key_of-new = key_of-added s.contents key s.size s.value_length v.filled key-lt

  name-new : key_of new_contents (value_index new_slot) ≡ key
  name-new = ap (key_of new_contents) new_slot-index ∙ key_of-new

  here : of_key new_contents key new_slot ≡ true
  here =
      of_key-new new_contents key new_slot new_slot-ne-zero new_slot-hash
        (same_key-new new_contents key new_slot length-new name-new)

  elsewhere : (j : List ℕ) → same_bytes key j ≡ false → of_key new_contents j new_slot ≡ false
  elsewhere j other =
      of_key-other new_contents j new_slot
        (same_key-other new_contents key j new_slot length-new name-new other)

  old-Agree : (j : List ℕ) → Agree (of_key new_contents j) (of_key s.contents j) s.table
  unfolding Agree
  old-Agree j x held =
      ap (λ (b : Bool). matches_with b x)
        (same_key-append s.contents (entry_bytes key s.value_length) j x (v.entries x held))
    where
      matches_with : Bool → ℕ → Bool
      matches_with b x = not (x == 0) && (u32 x == hash_mem j && b)

  old_count :
      (j : List ℕ) → countp (of_key new_contents j) s.table ≡ countp (of_key s.contents j) s.table
  old_count j =
      countp-Agree (of_key new_contents j) (of_key s.contents j) (of_key-zero new_contents j)
        (of_key-zero s.contents j) s.table (old-Agree j)

  -- A table that holds the slots of the old one and the new slot, with the new contents.
  module _ {q : ℕ} (s' : Sht) (loaded : IsLoaded q s'.table s'.mask s'.count)
      (counts : (P : ℕ → Bool)
        → P 0 ≡ false
        → countp P s'.table ≡ countp P s.table + digit (P new_slot))
      (has_contents : s'.contents ≡ new_contents)
      (has_size : s'.size ≡ new_index + s.value_length) where
    once-new : (j : List ℕ) → countp (of_key new_contents j) s'.table ≤ 1
    once-new j =
        let more = counts (of_key new_contents j) (of_key-zero new_contents j) in
        elim (Bool-cases (same_bytes key j)) [
          | inl same ↦
              let name =
                ap (λ (k : List ℕ). countp (of_key s.contents k) s.table)
                  (same_bytes-≡ key j same) in
              omega (
                arith,
                more,
                old_count j,
                sym name ∙ fresh,
                digit-le (of_key new_contents j new_slot),
              )
          | inr other ↦ omega (arith, more, old_count j, v.once j, ap digit (elsewhere j other))
        ]

    entries-new : (x : ℕ) → 0 < countp (is x) s'.table → Fits new_contents (value_index x)
    entries-new x held = elim (Bool-cases (is x new_slot)) [
      | inl same ↦
          rw (sym (ap value_index (is-same x new_slot same)) ∙ new_slot-index)
            (Fits-added s.contents key s.size s.value_length v.filled key-lt)
      | inr other ↦
          Fits-append s.contents (entry_bytes key s.value_length)
            (v.entries x (omega (arith, held, counts (is x) refl, ap digit other)))
    ]

    pub added-IsValid : IsValid q s'
    added-IsValid = record {
      loaded = loaded;
      filled =
          ap length has_contents
          ∙ length-added s.contents key s.size s.value_length v.filled key-lt
          ∙ ap (λ (n : ℕ). 4 * n) (sym has_size);
      headed = omega (arith, has_size, v.headed);
      entries = λ x held. rw has_contents (entries-new x held);
      once = λ j. rw has_contents (once-new j);
    }

    held-new : 0 < countp (is new_slot) s'.table
    held-new =
        omega (arith, counts (is new_slot) refl, ap digit (is_self new_slot new_slot-ne-zero))

    first-new : first (of_key new_contents key) s'.table ≡ new_slot
    first-new =
        first_of-countp (of_key new_contents key) s'.table new_slot (once-new key) here held-new

    first-old :
        (j : List ℕ)
        → same_bytes key j ≡ false
        → first (of_key new_contents j) s'.table ≡ first (of_key s.contents j) s.table
    first-old j other =
        let away = elsewhere j other in
        first_ext (of_key new_contents j) (of_key-zero new_contents j) s.table s'.table (once-new j)
          (omega
            (arith, counts (of_key new_contents j) (of_key-zero new_contents j), ap digit away))
          (λ y m. one_by_one y m)
        ∙ first-Agree (of_key new_contents j) (of_key s.contents j) (of_key-zero new_contents j)
            (of_key-zero s.contents j) s.table (old-Agree j)
      where
        one_by_one :
            (y : ℕ)
            → of_key new_contents j y ≡ true
            → countp (is y) s'.table ≡ countp (is y) s.table
        one_by_one y m = elim (Bool-cases (is y new_slot)) [
          | inl same ↦ absurd (
              false≢true (
                sym (elsewhere j other) ∙ ap (of_key new_contents j) (is-same y new_slot same) ∙ m))
          | inr no_more ↦ omega (arith, counts (is y) refl, ap digit no_more)
        ]

    -- The new key is found at its entry, and every other key where it was.
    pub added-reads :
        (j : List ℕ) → lookup_u s' j ≡ (if same_bytes key j then some new_index else lookup_u s j)
    added-reads j =
        lookup_u-first added-IsValid j
        ∙ ap (λ (c : List ℕ). some (value_index (first (of_key c j) s'.table))) has_contents
        ∙ elim (Bool-cases (same_bytes key j)) [
          | inl same ↦ rw same (
              ap (λ (k : List ℕ). some (value_index (first (of_key new_contents k) s'.table)))
                (sym (same_bytes-≡ key j same))
              ∙ ap (λ (x : ℕ). some (value_index x)) first-new
              ∙ ap some new_slot-index)
          | inr other ↦
              rw other (
                ap (λ (x : ℕ). some (value_index x)) (first-old j other) ∙ sym (lookup_u-first v j))
        ]
