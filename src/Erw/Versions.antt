-- ===== src/Erw/Versions.antt =====
-- Which nodes are left when the deleted ones are taken out, and which of them are marked.
use polyfill_glibc.Base.{
  ℕ, true, false, List, [], ◌∷◌, ◌≡◌, refl, sym, ap, ap₂, ◌∙◌, arith, bit_and, if◌then◌else◌, map,
  Bool-cases, inl, inr,
}
use mathlib.Core.Bool.{false≢true}
use polyfill_glibc.Base.Bits.{bit_and_mask, bit_and_two}
use polyfill_glibc.Erw.{
  is_deleted, is_changed, skip_deleted, relink, relink_all, starts_changed, VerItem, VerGroup,
  item_state, item_dirty, group_state, group_dirty, erase_items, vers_erase_pending_deletes,
}

two_bits : (s : ℕ) → bit_and s 3 ≡ 0 → bit_and s 2 ≡ 0
two_bits s e = omega (arith, bit_and_mask 2 s, bit_and_two s)

-- A node that is not changed is not to be deleted.
kept_of_unchanged : (s : ℕ) → is_changed s ≡ false → is_deleted s ≡ false
kept_of_unchanged s e =
    let z : bit_and s 3 ≡ 0 = ground arith in let d = two_bits s z in ground (arith, d)

module _ {A : Type 0} (state_of : A → ℕ) (set_dirty : A → A) where
  abbrev marked : A → List A → A
  marked x xs = if starts_changed state_of set_dirty xs then set_dirty x else x

  -- The nodes that are not to be deleted, each marked dirty if the node behind it was changed or to be
  -- deleted.
  unfoldable pub survivors : List A → List A
  survivors [] = []
  survivors (x ∷ xs) = elim (is_deleted (state_of x)) [
    | true ↦ survivors xs
    | false ↦ marked x xs ∷ survivors xs
  ]

  survivors-deleted :
      (x : A) (xs : List A) → is_deleted (state_of x) ≡ true → survivors (x ∷ xs) ≡ survivors xs
  unfolding survivors
  survivors-deleted x xs e = cc

  survivors-kept :
      (x : A) (xs : List A)
      → is_deleted (state_of x) ≡ false
      → survivors (x ∷ xs) ≡ marked x xs ∷ survivors xs
  unfolding survivors
  survivors-kept x xs e = cc

  skip-deleted :
      (x : A) (xs : List A)
      → is_deleted (state_of x) ≡ true
      → skip_deleted state_of set_dirty (x ∷ xs) ≡ skip_deleted state_of set_dirty xs
  unfolding skip_deleted
  skip-deleted x xs e = cc

  skip-kept :
      (x : A) (xs : List A)
      → is_deleted (state_of x) ≡ false
      → skip_deleted state_of set_dirty (x ∷ xs) ≡ x ∷ xs
  unfolding skip_deleted
  skip-kept x xs e = cc

  skip-nil : skip_deleted state_of set_dirty [] ≡ []
  unfolding skip_deleted
  skip-nil = refl

  -- One round at the node `x`, with `y` behind it.
  module _ (x y : A) (xs : List A) where
    marked-changed : is_changed (state_of y) ≡ true → marked x (y ∷ xs) ≡ set_dirty x
    marked-changed e = rw e refl

    marked-same : is_changed (state_of y) ≡ false → marked x (y ∷ xs) ≡ x
    marked-same e = rw e refl

    relink-skip :
        is_deleted (state_of y) ≡ true
        → relink state_of set_dirty true x (y ∷ xs) ≡ relink state_of set_dirty true x xs
    unfolding relink
    relink-skip e = cc

    relink-stop :
        is_deleted (state_of y) ≡ false
        → relink state_of set_dirty true x (y ∷ xs) ≡ x ∷ relink state_of set_dirty false y xs
    unfolding relink
    relink-stop e = cc

    relink-same :
        is_changed (state_of y) ≡ false
        → relink state_of set_dirty false x (y ∷ xs) ≡ x ∷ relink state_of set_dirty false y xs
    unfolding relink
    relink-same e = cc

    relink-gone :
        is_changed (state_of y) ≡ true
        → is_deleted (state_of y) ≡ true
        → relink state_of set_dirty false x (y ∷ xs)
          ≡ relink state_of set_dirty true (set_dirty x) xs
    unfolding relink
    relink-gone e f = cc

    relink-dirty :
        is_changed (state_of y) ≡ true
        → is_deleted (state_of y) ≡ false
        → relink state_of set_dirty false x (y ∷ xs)
          ≡ set_dirty x ∷ relink state_of set_dirty false y xs
    unfolding relink
    relink-dirty e f = cc

  relink-survivors :
      (x : A) (xs : List A)
      → (relink state_of set_dirty true x xs ≡ x ∷ survivors xs)
        × (relink state_of set_dirty false x xs ≡ marked x xs ∷ survivors xs)
  unfolding relink survivors
  relink-survivors x [] = (refl, refl)
  relink-survivors x (y ∷ xs) = elim (Bool-cases (is_deleted (state_of y))) [
    | inl gone ↦
        let same = sym (survivors-deleted y xs gone) in
        (
          relink-skip x y xs gone ∙ (relink-survivors x xs).0 ∙ ap (◌∷◌ x) same,
          elim (Bool-cases (is_changed (state_of y))) [
            | inl changed ↦
                relink-gone x y xs changed gone
                ∙ (relink-survivors (set_dirty x) xs).0
                ∙ ap₂ (◌∷◌) (sym (marked-changed x y xs changed)) same
            | inr unchanged ↦
                absurd (false≢true (sym (kept_of_unchanged (state_of y) unchanged) ∙ gone))
          ],
        )
    | inr kept ↦
        let rest = (relink-survivors y xs).1 ∙ sym (survivors-kept y xs kept) in
        (
          relink-stop x y xs kept ∙ ap (◌∷◌ x) rest,
          elim (Bool-cases (is_changed (state_of y))) [
            | inl changed ↦
                relink-dirty x y xs changed kept
                ∙ ap₂ (◌∷◌) (sym (marked-changed x y xs changed)) rest
            | inr unchanged ↦
                relink-same x y xs unchanged ∙ ap₂ (◌∷◌) (sym (marked-same x y xs unchanged)) rest
          ],
        )
  ]

  relink_all-nil : relink_all state_of set_dirty [] ≡ survivors []
  unfolding relink_all survivors
  relink_all-nil = refl

  relink_all-cons :
      (x : A) (xs : List A)
      → relink_all state_of set_dirty (x ∷ xs) ≡ relink state_of set_dirty false x xs
  unfolding relink_all
  relink_all-cons x xs = refl

  relink_all-survivors :
      (xs : List A)
      → relink_all state_of set_dirty (skip_deleted state_of set_dirty xs) ≡ survivors xs
  relink_all-survivors [] = ap (relink_all state_of set_dirty) skip-nil ∙ relink_all-nil
  relink_all-survivors (x ∷ xs) = elim (Bool-cases (is_deleted (state_of x))) [
    | inl gone ↦
        ap (relink_all state_of set_dirty) (skip-deleted x xs gone)
        ∙ relink_all-survivors xs
        ∙ sym (survivors-deleted x xs gone)
    | inr kept ↦
        ap (relink_all state_of set_dirty) (skip-kept x xs kept)
        ∙ relink_all-cons x xs
        ∙ (relink-survivors x xs).1
        ∙ sym (survivors-kept x xs kept)
  ]

-- A group with the items that survive, marked dirty if its first item was changed or to be deleted.
abbrev pub with_survivors : VerGroup → VerGroup
with_survivors g =
    let g' = if starts_changed item_state item_dirty g.items then group_dirty g else g in
    record g' { items = survivors item_state item_dirty g.items }

erase_items-survivors : (g : VerGroup) → erase_items g ≡ with_survivors g
erase_items-survivors g = elim (Bool-cases (starts_changed item_state item_dirty g.items)) [
  | inl changed ↦ rw changed (
      ap (λ (is : List VerItem). record (group_dirty g) { items = is })
        (relink_all-survivors item_state item_dirty g.items))
  | inr same ↦
      rw same (ap (λ (is : List VerItem). record g { items = is }) (unchanged_head g.items same))
]
  where
    unchanged_head :
        (is : List VerItem)
        → starts_changed item_state item_dirty is ≡ false
        → relink_all item_state item_dirty is ≡ survivors item_state item_dirty is
    unchanged_head [] same = relink_all-nil item_state item_dirty
    unchanged_head (i ∷ is) same =
        ap (relink_all item_state item_dirty)
          (sym (skip-kept item_state item_dirty i is (kept_of_unchanged i.state same)))
        ∙ relink_all-survivors item_state item_dirty (i ∷ is)

map_ext :
    (f g : VerGroup → VerGroup)
    → ((x : VerGroup) → f x ≡ g x)
    → (xs : List VerGroup) → map f xs ≡ map g xs
map_ext f g e [] = refl
map_ext f g e (x ∷ xs) = ap₂ (◌∷◌) (e x) (map_ext f g e xs)

-- `vers_erase_pending_deletes` leaves the groups that are not to be deleted, and in each of them the
-- items that are not, in their order. A group or an item is marked dirty if what was behind it was
-- dirty or to be deleted, and a group also if its first item was; nothing else is changed.
pub vers_erase_pending_deletes-survivors :
    (g : List VerGroup)
    → vers_erase_pending_deletes g ≡ map with_survivors (survivors group_state group_dirty g)
unfolding vers_erase_pending_deletes
vers_erase_pending_deletes-survivors g =
    ap (map erase_items) (relink_all-survivors group_state group_dirty g)
    ∙ map_ext erase_items with_survivors erase_items-survivors (survivors group_state group_dirty g)
