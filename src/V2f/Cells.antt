-- ===== src/V2f/Cells.antt =====
-- The cells of an array of entries after a `memmove`.
use polyfill_glibc.Base.{
  ℕ, zero, suc, ◌+◌, ◌≤◌, ◌<◌, List, [], ◌∷◌, ◌++◌, ◌≡◌, refl, sym, ap, ◌∙◌, arith, length, get_or,
  take, drop, length-append, length-take, length-drop,
}
use polyfill_glibc.V2f.{V2fEntry, move, blank}

module _ {ℓ} {A : Type ℓ} where
  get_or-take :
      (n : ℕ) (xs : List A) (i : ℕ) (d : A) → i < n → get_or (take n xs) i d ≡ get_or xs i d
  get_or-take zero xs i d h = elim h [ ]
  get_or-take (suc n) [] i d h = refl
  get_or-take (suc n) (x ∷ xs) zero d h = refl
  get_or-take (suc n) (x ∷ xs) (suc i) d h = get_or-take n xs i d (omega arith)

  get_or-drop : (n : ℕ) (xs : List A) (i : ℕ) (d : A) → get_or (drop n xs) i d ≡ get_or xs (n + i) d
  get_or-drop zero xs i d = let same : i ≡ 0 + i = omega arith in ap (λ (k : ℕ). get_or xs k d) same
  get_or-drop (suc n) [] i d = refl
  get_or-drop (suc n) (x ∷ xs) i d =
      let same : suc (n + i) ≡ suc n + i = omega arith in
      get_or-drop n xs i d ∙ ap (λ (k : ℕ). get_or (x ∷ xs) k d) same

  pub get_or-append_left :
      (xs ys : List A) (i : ℕ) (d : A) → i < length xs → get_or (xs ++ ys) i d ≡ get_or xs i d
  get_or-append_left [] ys i d h = elim h [ ]
  get_or-append_left (x ∷ xs) ys zero d h = refl
  get_or-append_left (x ∷ xs) ys (suc i) d h = get_or-append_left xs ys i d (omega arith)

  get_or-append_right :
      (xs ys : List A) (i : ℕ) (d : A) → get_or (xs ++ ys) (length xs + i) d ≡ get_or ys i d
  get_or-append_right [] ys i d =
      let same : 0 + i ≡ i = omega arith in ap (λ (k : ℕ). get_or ys k d) same
  get_or-append_right (x ∷ xs) ys i d =
      let same : suc (length xs) + i ≡ suc (length xs + i) = omega arith in
      ap (λ (k : ℕ). get_or (x ∷ (xs ++ ys)) k d) same ∙ get_or-append_right xs ys i d

module _ (es : List V2fEntry) (dst src n : ℕ) (to : dst + n ≤ length es)
    (from : src + n ≤ length es) where
  abbrev head_part : List V2fEntry
  head_part = take dst es

  length-head : length head_part ≡ dst
  length-head = omega (arith, length-take dst es)

  length-middle : length (take n (drop src es)) ≡ n
  length-middle = omega (arith, length-take n (drop src es), length-drop src es)

  pub length-move : length (move es dst src n) ≡ length es
  length-move = omega (
    arith,
    length-append head_part (take n (drop src es) ++ drop (dst + n) es),
    length-append (take n (drop src es)) (drop (dst + n) es),
    length-head,
    length-middle,
    length-drop (dst + n) es,
  )

  -- The cells below the target stay.
  pub move_below : (i : ℕ) → i < dst → get_or (move es dst src n) i blank ≡ get_or es i blank
  move_below i h =
      get_or-append_left head_part (take n (drop src es) ++ drop (dst + n) es) i blank
        (omega (arith, length-head))
      ∙ get_or-take dst es i blank h

  -- The cells of the target are those of the source.
  pub move_moved :
      (j : ℕ) → j < n → get_or (move es dst src n) (dst + j) blank ≡ get_or es (src + j) blank
  move_moved j h =
      ap (λ (k : ℕ). get_or (move es dst src n) (k + j) blank) (sym length-head)
      ∙ get_or-append_right head_part (take n (drop src es) ++ drop (dst + n) es) j blank
      ∙ get_or-append_left (take n (drop src es)) (drop (dst + n) es) j blank
          (omega (arith, length-middle))
      ∙ get_or-take n (drop src es) j blank h
      ∙ get_or-drop src es j blank
