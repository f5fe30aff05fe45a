-- ===== src/Sht/Contents.antt =====
-- The bytes of an entry: what `add_to_contents` writes is the entry of the key, and it leaves the
-- entries before it as they are.
use polyfill_glibc.Base.{
  ℕ, zero, suc, ◌+◌, ◌-◌, ◌*◌, ◌^◌, ◌≤◌, ◌<◌, true, false, ◌&&◌, List, [], ◌∷◌, ◌++◌, ◌≡◌, ◌≢◌,
  refl, sym, ap, ap₂, ◌∙◌, arith, length, length-append, length-replicate, get_or, take,
  take-append, drop, replicate, ◌==◌, Bool-cases, inl, inr,
}
use mathlib.Core.Bool.{false≢true}
use polyfill_glibc.Sht.{
  bytes_of_word, word_at, entry_words, entry_bytes, key_length, key_of, same_bytes, same_key,
  value_index,
}

module _ {ℓ} {A : Type ℓ} where
  append_assoc : (xs ys zs : List A) → (xs ++ ys) ++ zs ≡ xs ++ (ys ++ zs)
  append_assoc [] ys zs = refl
  append_assoc (x ∷ xs) ys zs = ap (◌∷◌ x) (append_assoc xs ys zs)

  drop_past : (n : ℕ) (xs ys : List A) → n ≡ length xs → drop n (xs ++ ys) ≡ ys
  drop_past zero [] ys e = refl
  drop_past zero (x ∷ xs) ys e = absurd (omega arith)
  drop_past (suc n) [] ys e = absurd (omega arith)
  drop_past (suc n) (x ∷ xs) ys e = drop_past n xs ys (omega arith)

  get_or_past :
      (n i : ℕ) (xs ys : List A) (d : A) → n ≡ length xs + i → get_or (xs ++ ys) n d ≡ get_or ys i d
  get_or_past n i [] ys d e = let same : n ≡ i = omega arith in ap (λ (j : ℕ). get_or ys j d) same
  get_or_past zero i (x ∷ xs) ys d e = absurd (omega arith)
  get_or_past (suc n) i (x ∷ xs) ys d e = get_or_past n i xs ys d (omega arith)

  get_or_within :
      (n : ℕ) (xs ys : List A) (d : A) → n < length xs → get_or (xs ++ ys) n d ≡ get_or xs n d
  get_or_within n [] ys d h = elim h [ ]
  get_or_within zero (x ∷ xs) ys d h = refl
  get_or_within (suc n) (x ∷ xs) ys d h = get_or_within n xs ys d (omega arith)

  range_within :
      (n k : ℕ) (xs ys : List A)
      → n + k ≤ length xs
      → take k (drop n (xs ++ ys)) ≡ take k (drop n xs)
  range_within zero zero xs ys h = refl
  range_within zero (suc k) [] ys h = absurd (omega arith)
  range_within zero (suc k) (x ∷ xs) ys h = ap (◌∷◌ x) (range_within zero k xs ys (omega arith))
  range_within (suc n) k [] ys h = absurd (omega arith)
  range_within (suc n) k (x ∷ xs) ys h = range_within n k xs ys (omega arith)

pub same_bytes_refl : (xs : List ℕ) → same_bytes xs xs ≡ true
unfolding same_bytes
same_bytes_refl [] = refl
same_bytes_refl (x ∷ xs) = ground (arith, same_bytes_refl xs)

pub same_bytes-≡ : (xs ys : List ℕ) → same_bytes xs ys ≡ true → xs ≡ ys
unfolding same_bytes
same_bytes-≡ [] [] e = refl
same_bytes-≡ [] (y ∷ ys) e = absurd (false≢true e)
same_bytes-≡ (x ∷ xs) [] e = absurd (false≢true e)
same_bytes-≡ (x ∷ xs) (y ∷ ys) e =
    let head : x ≡ y = ground arith in
    let tail : same_bytes xs ys ≡ true = ground arith in ap₂ (◌∷◌) head (same_bytes-≡ xs ys tail)

pub same_bytes-≢ : (xs ys : List ℕ) → xs ≢ ys → same_bytes xs ys ≡ false
same_bytes-≢ xs ys ne = elim (Bool-cases (same_bytes xs ys)) [
  | inl e ↦ absurd (ne (same_bytes-≡ xs ys e))
  | inr e ↦ e
]

word_at-past :
    (w n : ℕ) (xs ys : List ℕ)
    → w < 2 ^ 32
    → n ≡ length xs
    → word_at (xs ++ (bytes_of_word w ++ ys)) n ≡ w
word_at-past w n xs ys small e =
    let rest = bytes_of_word w ++ ys in
    omega (
      arith,
      get_or_past n 0 xs rest 0 (omega arith),
      get_or_past (n + 1) 1 xs rest 0 (omega arith),
      get_or_past (n + 2) 2 xs rest 0 (omega arith),
      get_or_past (n + 3) 3 xs rest 0 (omega arith),
    )

-- An entry that ends at the word `u` stands within the contents.
pub record Fits (contents : List ℕ) (u : ℕ) : Type 0 where
  pub starts : key_length contents u + 5 ≤ 4 * u
  pub ends : 4 * u ≤ length contents

module _ (contents more : List ℕ) {u : ℕ} (f : Fits contents u) where
  pub key_length-append : key_length (contents ++ more) u ≡ key_length contents u
  key_length-append =
      let s = f.starts in
      let e = f.ends in
      omega (
        arith,
        get_or_within (4 * u - 4) contents more 0 (omega arith),
        get_or_within (4 * u - 4 + 1) contents more 0 (omega arith),
        get_or_within (4 * u - 4 + 2) contents more 0 (omega arith),
        get_or_within (4 * u - 4 + 3) contents more 0 (omega arith),
      )

  pub key_of-append : key_of (contents ++ more) u ≡ key_of contents u
  key_of-append =
      ap (λ (k : ℕ). take k (drop (4 * u - 5 - k) (contents ++ more))) key_length-append
      ∙ range_within (4 * u - 5 - key_length contents u) (key_length contents u) contents more
          (omega (arith, f.starts, f.ends))

  pub Fits-append : Fits (contents ++ more) u
  Fits-append = record {
    starts = omega (arith, key_length-append, f.starts);
    ends = omega (arith, length-append contents more, f.ends);
  }

pub same_key-append :
    (contents more key : List ℕ) (x : ℕ)
    → Fits contents (value_index x)
    → same_key (contents ++ more) key x ≡ same_key contents key x
unfolding same_key
same_key-append contents more key x f =
    ap₂ (λ (n : ℕ) (k : List ℕ). (n == length key) && same_bytes k key)
      (key_length-append contents more f) (key_of-append contents more f)

-- The entry that `add_to_contents` writes behind `size` words.
module _ (contents key : List ℕ) (size value_length : ℕ) (filled : length contents ≡ 4 * size)
    (key-lt : length key + 8 < 2 ^ 32) where
  abbrev u : ℕ
  u = size + entry_words (length key)

  abbrev added : List ℕ
  added = contents ++ entry_bytes key value_length

  abbrev pad : List ℕ
  pad = replicate (4 * entry_words (length key) - (length key + 5)) 0

  abbrev tail : List ℕ
  tail = bytes_of_word (length key) ++ replicate (4 * value_length) 0

  words : length key + 5 ≤ 4 * entry_words (length key)
  words = omega arith

  length-pad : length (contents ++ pad) ≡ 4 * u - 5 - length key
  length-pad = omega (
    arith,
    length-append contents pad,
    length-replicate {A = ℕ} (4 * entry_words (length key) - (length key + 5)) 0,
    words,
  )

  parts : added ≡ (contents ++ pad) ++ (key ++ (0 ∷ tail))
  parts = sym (append_assoc contents pad (key ++ (0 ∷ tail)))

  to_tail : added ≡ ((contents ++ pad) ++ (key ++ (0 ∷ []))) ++ tail
  to_tail =
      parts
      ∙ ap (λ (x : List ℕ). (contents ++ pad) ++ x) (sym (append_assoc key (0 ∷ []) tail))
      ∙ sym (append_assoc (contents ++ pad) (key ++ (0 ∷ [])) tail)

  length-to_tail : 4 * u - 4 ≡ length ((contents ++ pad) ++ (key ++ (0 ∷ [])))
  length-to_tail = omega (
    arith,
    length-append (contents ++ pad) (key ++ (0 ∷ [])),
    length-append key (0 ∷ []),
    length-pad,
    words,
  )

  pub key_length-added : key_length added u ≡ length key
  key_length-added =
      ap (λ (x : List ℕ). word_at x (4 * u - 4)) to_tail
      ∙ word_at-past (length key) (4 * u - 4) ((contents ++ pad) ++ (key ++ (0 ∷ [])))
          (replicate (4 * value_length) 0) (omega arith) length-to_tail

  pub key_of-added : key_of added u ≡ key
  key_of-added =
      ap (λ (k : ℕ). take k (drop (4 * u - 5 - k) added)) key_length-added
      ∙ ap (λ (x : List ℕ). take (length key) (drop (4 * u - 5 - length key) x)) parts
      ∙ ap (take (length key)) (
          drop_past (4 * u - 5 - length key) (contents ++ pad) (key ++ (0 ∷ tail)) (sym length-pad))
      ∙ take-append key (0 ∷ tail)

  pub length-added : length added ≡ 4 * (u + value_length)
  length-added = omega (
    arith,
    ap length to_tail,
    length-to_tail,
    length-append ((contents ++ pad) ++ (key ++ (0 ∷ []))) tail,
    length-replicate {A = ℕ} (4 * value_length) 0,
    words,
  )

  pub Fits-added : Fits added u
  Fits-added = record {
    starts = omega (arith, key_length-added, words);
    ends = omega (arith, length-added);
  }
