-- ===== src/Erw/Alloc/Retrying.antt =====
-- What a retry gives to a bucket is enough for what was asked of it.
use polyfill_glibc.Base.{
  ℕ, ◌+◌, ◌-◌, ◌*◌, ◌/◌, ◌^◌, ◌≤◌, ◌<◌, Bool, false, ◌||◌, List, [], ◌∷◌, ◌≡◌, refl, sym, ap, ◌∙◌,
  arith, u64, sub64, ltb, if◌then◌else◌,
}
use native.Mathlib.Nat.{one-le-pow}
use polyfill_glibc.Erw.Alloc.Aligning.{up, up-bounds, up-add, align_up-up}
use polyfill_glibc.Erw.Alloc.{AllocBucket, empty_bucket, alloc_from, grant_f}

-- The calls of `alloc_from` for the sizes in turn: the results, whether one asked for a retry, and the
-- bucket.
unfoldable pub alloc_each : AllocBucket → List ℕ → List ℕ × Bool × AllocBucket
alloc_each b [] = ([], false, b)
alloc_each b (size ∷ sizes) =
    let r = alloc_from b size in
    let rest = alloc_each r.2 sizes in (r.0 ∷ rest.0, r.1 || rest.1, rest.2)

-- Where ranges of these sizes stand that are aligned to `p` and follow each other from `x` on.
unfoldable pub places : ℕ → ℕ → List ℕ → List ℕ
places p x [] = []
places p x (size ∷ sizes) = up p x ∷ places p (up p x + size) sizes

-- Where the last of them ends.
unfoldable pub places_end : ℕ → ℕ → List ℕ → ℕ
places_end p x [] = x
places_end p x (size ∷ sizes) = places_end p (up p x + size) sizes

module _ (p : ℕ) (pos : 0 < p) where
  places_end-le : (sizes : List ℕ) (x : ℕ) → x ≤ places_end p x sizes
  unfolding places_end
  places_end-le [] x = omega arith
  places_end-le (size ∷ sizes) x =
      omega (arith, places_end-le sizes (up p x + size), up-bounds p x pos)

  places_end-shift :
      (m : ℕ) (sizes : List ℕ) (x : ℕ)
      → places_end p (m * p + x) sizes ≡ m * p + places_end p x sizes
  unfolding places_end
  places_end-shift m [] x = refl
  places_end-shift m (size ∷ sizes) x =
      let e : up p (m * p + x) + size ≡ m * p + (up p x + size) = omega (arith, up-add p m x pos) in
      ap (λ (y : ℕ). places_end p y sizes) e ∙ places_end-shift m sizes (up p x + size)

module _ (k category start end_ : ℕ) (small : k ≤ 31) where
  abbrev bucket : ℕ → AllocBucket
  bucket x = record {
    category = category;
    alignment = 2 ^ k;
    start = start;
    current = x;
    end_ = end_;
  }

  alloc_from-bucket :
      (x size : ℕ)
      → x + 2 ^ k ≤ 2 ^ 64
      → up (2 ^ k) x + size < 2 ^ 64
      → alloc_from (bucket x) size ≡ (
        if ltb end_ (up (2 ^ k) x + size) then 0 else up (2 ^ k) x,
        ltb end_ (up (2 ^ k) x + size),
        bucket (up (2 ^ k) x + size),
      )
  alloc_from-bucket x size fits fits' =
      let e = align_up-up k x small fits in
      let no_wrap : u64 (up (2 ^ k) x + size) ≡ up (2 ^ k) x + size = omega (arith, fits') in
      rw (e, no_wrap) refl

  alloc_each-bucket :
      (sizes : List ℕ) (x : ℕ)
      → places_end (2 ^ k) x sizes + 2 ^ k ≤ 2 ^ 64
      → (alloc_each (bucket x) sizes).2 ≡ bucket (places_end (2 ^ k) x sizes)
  unfolding alloc_each places_end
  alloc_each-bucket [] x fits = refl
  alloc_each-bucket (size ∷ sizes) x fits =
      let next = up (2 ^ k) x + size in
      let pos = one-le-pow k 2 (omega arith) in
      let below = places_end-le (2 ^ k) pos sizes next in
      let above = up-bounds (2 ^ k) x pos in
      let step =
        alloc_from-bucket x size (omega (arith, fits, below, above))
          (omega (arith, fits, below, pos)) in
      ap (λ (r : ℕ × Bool × AllocBucket). (alloc_each r.2 sizes).2) step
      ∙ alloc_each-bucket sizes next fits

  alloc_each-places :
      (sizes : List ℕ) (x : ℕ)
      → places_end (2 ^ k) x sizes + 2 ^ k ≤ 2 ^ 64
      → places_end (2 ^ k) x sizes ≤ end_
      → ((alloc_each (bucket x) sizes).0 ≡ places (2 ^ k) x sizes)
        × ((alloc_each (bucket x) sizes).1 ≡ false)
  unfolding alloc_each places_end places
  alloc_each-places [] x fits room = (refl, refl)
  alloc_each-places (size ∷ sizes) x fits room =
      let next = up (2 ^ k) x + size in
      let pos = one-le-pow k 2 (omega arith) in
      let below = places_end-le (2 ^ k) pos sizes next in
      let above = up-bounds (2 ^ k) x pos in
      let step =
        alloc_from-bucket x size (omega (arith, fits, below, above))
          (omega (arith, fits, below, pos)) in
      let inside : ltb end_ next ≡ false = ground (arith, below, room) in
      let ih = alloc_each-places sizes next fits room in
      let granted : alloc_from (bucket x) size ≡ (up (2 ^ k) x, false, bucket next) =
        step ∙ rw inside refl in
      (
        ap (λ (r : ℕ × Bool × AllocBucket). r.0 ∷ (alloc_each r.2 sizes).0) granted
            ∙ ap (λ (rest : List ℕ). up (2 ^ k) x ∷ rest) ih.0,
        ap (λ (r : ℕ × Bool × AllocBucket). r.1 || (alloc_each r.2 sizes).1) granted ∙ ih.1,
      )

grant_f-bucket :
    (k category f need : ℕ) (small : k ≤ 31)
    → f + 2 ^ k ≤ 2 ^ 64
    → up (2 ^ k) f + need < 2 ^ 64
    → grant_f f (bucket k category 0 0 small need) ≡ (
      bucket k category (up (2 ^ k) f) (up (2 ^ k) f + need) small (up (2 ^ k) f),
      up (2 ^ k) f + need,
    )
grant_f-bucket k category f need small fits fits' =
    let e = align_up-up k f small fits in
    let size : sub64 (if ltb 0 need then need else 0) 0 ≡ need = ground (arith, fits') in
    let no_wrap : u64 (up (2 ^ k) f + need) ≡ up (2 ^ k) f + need = omega (arith, fits') in
    rw (size, e, no_wrap) refl

module _ (k category f : ℕ) (sizes : List ℕ) where
  -- What the first run of the requests leaves of a bucket, which has no range yet.
  abbrev pub counted : AllocBucket
  counted = (alloc_each (empty_bucket category (2 ^ k)) sizes).2

  -- The run that follows a retry.
  abbrev pub retried : List ℕ × Bool × AllocBucket
  retried = alloc_each (grant_f f counted).0 sizes

-- When a bucket has no range, the requests only count what they need. The retry gives the bucket a
-- range of that size at any offset `f`, and then the same requests all succeed: none asks for another
-- retry, each gets the next aligned place of the range, and the range is used up to its end. The
-- alignment is a power of two below 2 ^ 32, and the offsets do not wrap around.
pub grant_f-alloc_each :
    (k category f : ℕ) (sizes : List ℕ)
    → k ≤ 31
    → f + 2 ^ k + places_end (2 ^ k) 0 sizes + 2 ^ k ≤ 2 ^ 64
    → ((retried k category f sizes).0 ≡ places (2 ^ k) (up (2 ^ k) f) sizes)
      × ((retried k category f sizes).1 ≡ false)
      × ((retried k category f sizes).2.current ≡ (grant_f f (counted k category f sizes)).1)
grant_f-alloc_each k category f sizes small fits =
    let pos = one-le-pow k 2 (omega arith) in
    let need = places_end (2 ^ k) 0 sizes in
    let base = up (2 ^ k) f in
    let near = up-bounds (2 ^ k) f pos in
    let counts = alloc_each-bucket k category 0 0 small sizes 0 (omega (arith, fits)) in
    let shift : places_end (2 ^ k) base sizes ≡ base + need =
      ap (λ (y : ℕ). places_end (2 ^ k) y sizes) (omega arith)
      ∙ places_end-shift (2 ^ k) pos ((f + 2 ^ k - 1) / 2 ^ k) sizes 0 in
    let range : grant_f f (counted k category f sizes)
        ≡ (bucket k category base (base + need) small base, base + need) =
      ap (λ (b : AllocBucket). grant_f f b) counts
      ∙ grant_f-bucket k category f need small (omega (arith, fits))
          (omega (arith, fits, near, pos)) in
    let inside =
      alloc_each-places k category base (base + need) small sizes base
        (omega (arith, shift, near, fits)) (omega (arith, shift)) in
    let used =
      alloc_each-bucket k category base (base + need) small sizes base
        (omega (arith, shift, near, fits)) in
    (
      ap (λ (g : AllocBucket × ℕ). (alloc_each g.0 sizes).0) range ∙ inside.0,
      ap (λ (g : AllocBucket × ℕ). (alloc_each g.0 sizes).1) range ∙ inside.1,
      ap (λ (g : AllocBucket × ℕ). (alloc_each g.0 sizes).2.current) range
          ∙ ap (λ (b : AllocBucket). b.current) used
          ∙ shift
          ∙ sym (ap (λ (g : AllocBucket × ℕ). g.1) range),
    )
