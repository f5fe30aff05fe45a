-- ===== src/Erw/Alloc/Buckets.antt =====
-- The buckets of src/erw.c are a map from a category and an alignment.
use polyfill_glibc.Base.{
  ℕ, zero, suc, Bool, true, false, ◌&&◌, ◌||◌, List, [], ◌∷◌, ◌++◌, ◌≡◌, ◌≢◌, refl, sym, ap, ap₂,
  ◌∙◌, arith, ltb, ◌==◌, if◌then◌else◌, length, set, get_or, Bool-cases, inl, inr,
}
use polyfill_glibc.Erw.Alloc.{
  AllocBucket, AllocBuckets, Allocator, bucket_index, empty_bucket, find_alloc_bucket, alloc_from,
  erw_alloc,
}

-- Whether a bucket is the one of a category and an alignment.
abbrev is_for : ℕ → ℕ → AllocBucket → Bool
is_for c a b = b.category == c && b.alignment == a

-- The bucket of a category and an alignment, which is empty when there is none.
abbrev pub bucket_of : List AllocBucket → ℕ → ℕ → AllocBucket
bucket_of base c a = get_or base (bucket_index base c a) (empty_bucket c a)

-- The list in which `erw_alloc` changes a bucket.
abbrev with_room : List AllocBucket → ℕ → ℕ → List AllocBucket
with_room base c a =
    if ltb (bucket_index base c a) (length base) then base else base ++ (empty_bucket c a ∷ [])

abbrev put : List AllocBucket → ℕ → ℕ → AllocBucket → List AllocBucket
put base c a b = set (with_room base c a) (bucket_index base c a) b

index-none : (c a : ℕ) → bucket_index [] c a ≡ 0
unfolding bucket_index
index-none c a = refl

module _ (c a : ℕ) (x : AllocBucket) (base : List AllocBucket) where
  index-here : is_for c a x ≡ true → bucket_index (x ∷ base) c a ≡ 0
  unfolding bucket_index
  index-here h = ap (λ t. elim t [ true ↦ 0 | false ↦ suc (bucket_index base c a) ]) h

  index-there : is_for c a x ≡ false → bucket_index (x ∷ base) c a ≡ suc (bucket_index base c a)
  unfolding bucket_index
  index-there h = ap (λ t. elim t [ true ↦ 0 | false ↦ suc (bucket_index base c a) ]) h

module _ (c a : ℕ) (b : AllocBucket) where
  put-here :
      (x : AllocBucket) (base : List AllocBucket)
      → is_for c a x ≡ true
      → put (x ∷ base) c a b ≡ b ∷ base
  put-here x base h =
      let first : ltb 0 (suc (length base)) ≡ true = ground arith in
      rw (index-here c a x base h, first) refl

  put-there :
      (x : AllocBucket) (base : List AllocBucket)
      → is_for c a x ≡ false
      → put (x ∷ base) c a b ≡ x ∷ put base c a b
  put-there x base h = elim (Bool-cases (ltb (bucket_index base c a) (length base))) [
    | inl r ↦
        let r' : ltb (suc (bucket_index base c a)) (suc (length base)) ≡ true = ground arith in
        rw (index-there c a x base h, r', r) refl
    | inr r ↦
        let r' : ltb (suc (bucket_index base c a)) (suc (length base)) ≡ false = ground arith in
        rw (index-there c a x base h, r', r) refl
  ]

of-here :
    (c a : ℕ) (x : AllocBucket) (base : List AllocBucket)
    → is_for c a x ≡ true
    → bucket_of (x ∷ base) c a ≡ x
of-here c a x base h = rw (index-here c a x base h) refl

of-there :
    (c a : ℕ) (x : AllocBucket) (base : List AllocBucket)
    → is_for c a x ≡ false
    → bucket_of (x ∷ base) c a ≡ bucket_of base c a
of-there c a x base h = rw (index-there c a x base h) refl

module _ (c a : ℕ) (b : AllocBucket) (own : is_for c a b ≡ true) where
  put-same : (base : List AllocBucket) → bucket_of (put base c a b) c a ≡ b
  put-same [] = rw (index-none c a) (of-here c a b [] own)
  put-same (x ∷ base) = elim (Bool-cases (is_for c a x)) [
    | inl h ↦ ap (λ l. bucket_of l c a) (put-here c a b x base h) ∙ of-here c a b base own
    | inr h ↦
        ap (λ l. bucket_of l c a) (put-there c a b x base h)
        ∙ of-there c a x (put base c a b) h
        ∙ put-same base
  ]

  put-other :
      (c' a' : ℕ) (base : List AllocBucket)
      → ((x : AllocBucket) → is_for c a x ≡ true → is_for c' a' x ≡ false)
      → bucket_of (put base c a b) c' a' ≡ bucket_of base c' a'
  put-other c' a' [] other = rw (index-none c a) (of-there c' a' b [] (other b own))
  put-other c' a' (x ∷ base) other = elim (Bool-cases (is_for c a x)) [
    | inl h ↦
        ap (λ l. bucket_of l c' a') (put-here c a b x base h)
        ∙ of-there c' a' b base (other b own)
        ∙ sym (of-there c' a' x base (other x h))
    | inr h ↦ elim (Bool-cases (is_for c' a' x)) [
      | inl g ↦
          ap (λ l. bucket_of l c' a') (put-there c a b x base h)
          ∙ of-here c' a' x (put base c a b) g
          ∙ sym (of-here c' a' x base g)
      | inr g ↦
          ap (λ l. bucket_of l c' a') (put-there c a b x base h)
          ∙ of-there c' a' x (put base c a b) g
          ∙ put-other c' a' base other
          ∙ sym (of-there c' a' x base g)
    ]
  ]

get_or-room :
    (base : List AllocBucket) (i : ℕ) (e : AllocBucket)
    → get_or (base ++ (e ∷ [])) i e ≡ get_or base i e
get_or-room [] zero e = refl
get_or-room [] (suc i) e = refl
get_or-room (x ∷ base) zero e = refl
get_or-room (x ∷ base) (suc i) e = get_or-room base i e

bucket_of-room :
    (base : List AllocBucket) (c a : ℕ)
    → get_or (with_room base c a) (bucket_index base c a) (empty_bucket c a) ≡ bucket_of base c a
bucket_of-room base c a = elim (Bool-cases (ltb (bucket_index base c a) (length base))) [
  | inl r ↦ rw r refl
  | inr r ↦ rw r (get_or-room base (bucket_index base c a) (empty_bucket c a))
]

own_bucket : (base : List AllocBucket) (c a : ℕ) → is_for c a (bucket_of base c a) ≡ true
own_bucket [] c a =
    let p : (c == c) ≡ true = ground arith in
    let q : (a == a) ≡ true = ground arith in rw (p, q) refl
own_bucket (x ∷ base) c a = elim (Bool-cases (is_for c a x)) [
  | inl h ↦ ap (is_for c a) (of-here c a x base h) ∙ h
  | inr h ↦ ap (is_for c a) (of-there c a x base h) ∙ own_bucket base c a
]

-- An allocation from one bucket, where `m` is the state before and `r` is what `alloc_from`
-- makes of the bucket.
pub record Allocates (c a : ℕ) (m : Allocator) (r : ℕ × Bool × AllocBucket) (out : ℕ × Allocator)
    : Type 0 where
  pub result : out.0 ≡ r.0
  pub bucket : bucket_of out.1.alloc_buckets.base c a ≡ r.2
  pub asks : out.1.retry ≡ r.1 || m.retry
  pub others :
      (c' a' : ℕ)
      → ((x : AllocBucket) → is_for c a x ≡ true → is_for c' a' x ≡ false)
      → bucket_of out.1.alloc_buckets.base c' a' ≡ bucket_of m.alloc_buckets.base c' a'

room_base :
    (buckets : AllocBuckets) (c a : ℕ)
    → (find_alloc_bucket buckets c a).1.base ≡ with_room buckets.base c a
unfolding find_alloc_bucket
room_base buckets c a =
    elim (Bool-cases (ltb (bucket_index buckets.base c a) (length buckets.base))) [
      | inl r ↦ rw r refl
      | inr r ↦ rw r refl
    ]

-- `erw_alloc`, of an alignment that is not 0
abbrev alloc_at : Allocator → ℕ → ℕ → ℕ → ℕ × Allocator
alloc_at m c a size =
    let found = find_alloc_bucket m.alloc_buckets c a in
    let r = alloc_from (get_or found.1.base found.0 (empty_bucket c a)) size in
    (
      r.0,
      record {
        alloc_buckets = record found.1 { base = set found.1.base found.0 r.2 };
        retry = r.1 || m.retry;
      },
    )

erw_alloc-at : (m : Allocator) (c a size : ℕ) → a ≢ 0 → erw_alloc m c a size ≡ alloc_at m c a size
unfolding erw_alloc
erw_alloc-at m c a size nz =
    let e : (if a == 0 then 1 else a) ≡ a = ground (arith, nz) in
    ap (λ (x : ℕ). alloc_at m c x size) e

module _ (m : Allocator) (c a size : ℕ) (nz : a ≢ 0) where
  abbrev from_bucket : ℕ × Bool × AllocBucket
  from_bucket = alloc_from (bucket_of m.alloc_buckets.base c a) size

  same_from :
      alloc_from
        (get_or
          (find_alloc_bucket m.alloc_buckets c a).1.base
          (bucket_index m.alloc_buckets.base c a)
          (empty_bucket c a))
        size
      ≡ from_bucket
  same_from =
      ap
        (λ (l : List AllocBucket).
          alloc_from (get_or l (bucket_index m.alloc_buckets.base c a) (empty_bucket c a)) size)
        (room_base m.alloc_buckets c a)
      ∙ ap (λ (b : AllocBucket). alloc_from b size) (bucket_of-room m.alloc_buckets.base c a)

  base-put :
      (erw_alloc m c a size).1.alloc_buckets.base ≡ put m.alloc_buckets.base c a from_bucket.2
  unfolding find_alloc_bucket
  base-put =
      ap (λ (o : ℕ × Allocator). o.1.alloc_buckets.base) (erw_alloc-at m c a size nz)
      ∙ ap₂
          (λ (l : List AllocBucket) (b : AllocBucket).
            set l (bucket_index m.alloc_buckets.base c a) b)
          (room_base m.alloc_buckets c a) (ap (λ (r : ℕ × Bool × AllocBucket). r.2) same_from)

  result-from : (erw_alloc m c a size).0 ≡ from_bucket.0
  unfolding find_alloc_bucket
  result-from =
      ap (λ (o : ℕ × Allocator). o.0) (erw_alloc-at m c a size nz)
      ∙ ap (λ (r : ℕ × Bool × AllocBucket). r.0) same_from

  retry-from : (erw_alloc m c a size).1.retry ≡ from_bucket.1 || m.retry
  unfolding find_alloc_bucket
  retry-from =
      ap (λ (o : ℕ × Allocator). o.1.retry) (erw_alloc-at m c a size nz)
      ∙ ap (λ (r : ℕ × Bool × AllocBucket). r.1 || m.retry) same_from

-- For an alignment that is not 0, `erw_alloc` allocates from the bucket of the category and the
-- alignment, empty if there is none, and changes no other bucket.
pub erw_alloc-Allocates :
    (m : Allocator) (c a size : ℕ)
    → a ≢ 0
    → Allocates c a m (alloc_from (bucket_of m.alloc_buckets.base c a) size) (erw_alloc m c a size)
erw_alloc-Allocates m c a size nz =
    let base = m.alloc_buckets.base in
    let b = (from_bucket m c a size nz).2 in
    let own = own_bucket base c a in
    record {
      result = result-from m c a size nz;
      bucket =
          ap (λ (l : List AllocBucket). bucket_of l c a) (base-put m c a size nz)
          ∙ put-same c a b own base;
      asks = retry-from m c a size nz;
      others = λ c' a' other.
          ap (λ (l : List AllocBucket). bucket_of l c' a') (base-put m c a size nz)
          ∙ put-other c a b own c' a' base other;
    }
