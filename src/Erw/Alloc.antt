-- ===== src/Erw/Alloc.antt =====
-- The allocation of ranges of a file or of addresses: erw_alloc and its buckets in src/erw.c, and what
-- erwNNE_(retry) in src/erw_nne.h gives to a bucket.
pub mod Aligning
pub mod Buckets
pub mod Retrying
use polyfill_glibc.Base.{
  ℕ, zero, suc, ◌+◌, ◌-◌, ◌*◌, ◌^◌, Bool, true, false, ◌&&◌, ◌||◌, List, [], ◌∷◌, ◌++◌, bit_and,
  bit_or, u32, u64, sub32, sub64, leb, ltb, ◌==◌, if◌then◌else◌, length, set, get_or,
}

pub record AllocBucket : Type 0 where
  pub category : ℕ
  pub alignment : ℕ
  pub start : ℕ
  pub current : ℕ
  pub end_ : ℕ

-- The count is the length of the list.
pub record AllocBuckets : Type 0 where
  pub base : List AllocBucket
  pub capacity : ℕ
  pub category_mask : ℕ

-- The fields of `erw_state_t` that an allocation reads and changes.
pub record Allocator : Type 0 where
  pub alloc_buckets : AllocBuckets
  pub retry : Bool

-- The loop of `find_alloc_bucket`: the index of the bucket, or the number of buckets.
unfoldable pub bucket_index : List AllocBucket → ℕ → ℕ → ℕ
bucket_index [] category alignment = 0
bucket_index (b ∷ base) category alignment =
    elim (b.category == category && b.alignment == alignment) [
      | true ↦ 0
      | false ↦ suc (bucket_index base category alignment)
    ]

abbrev pub empty_bucket : ℕ → ℕ → AllocBucket
empty_bucket category alignment = record {
  category = category;
  alignment = alignment;
  start = 0;
  current = 0;
  end_ = 0;
}

-- The part of `find_alloc_bucket` behind its loop.
abbrev pub add_bucket : AllocBuckets → ℕ → ℕ → AllocBuckets
add_bucket buckets category alignment = record {
  base = buckets.base ++ (empty_bucket category alignment ∷ []);
  capacity =
      if length buckets.base == buckets.capacity
      then (if buckets.capacity == 0 then 4 else u32 (buckets.capacity * 2))
      else buckets.capacity;
  category_mask = bit_or buckets.category_mask (2 ^ category);
}

-- `find_alloc_bucket`, with the index of the bucket.
unfoldable pub find_alloc_bucket : AllocBuckets → ℕ → ℕ → ℕ × AllocBuckets
unfolding bucket_index
find_alloc_bucket buckets category alignment =
    let i = bucket_index buckets.base category alignment in
    (i, if ltb i (length buckets.base) then buckets else add_bucket buckets category alignment)

-- `(x + alignment - 1) &- (uint64_t)alignment`
abbrev pub align_up : ℕ → ℕ → ℕ
align_up x alignment = bit_and (sub64 (u64 (x + alignment)) 1) (sub64 0 alignment)

-- The part of `erw_alloc` behind the search of the bucket: the result, whether it asks for a retry,
-- and the bucket.
abbrev pub alloc_from : AllocBucket → ℕ → ℕ × Bool × AllocBucket
alloc_from b size =
    let result = align_up b.current b.alignment in
    let current = u64 (result + size) in
    let over = ltb b.end_ current in
    (if over then 0 else result, over, record b { current = current })

-- `erw_alloc`
unfoldable pub erw_alloc : Allocator → ℕ → ℕ → ℕ → ℕ × Allocator
unfolding find_alloc_bucket
erw_alloc erw category alignment size =
    let alignment' = if alignment == 0 then 1 else alignment in
    let (i, buckets) = find_alloc_bucket erw.alloc_buckets category alignment' in
    let (result, over, b) =
      alloc_from (get_or buckets.base i (empty_bucket category alignment')) size in
    (
      result,
      record {
        alloc_buckets = record buckets { base = set buckets.base i b };
        retry = over || erw.retry;
      },
    )

-- What a retry gives to a bucket of the category `erw_alloc_category_f`, from the offset `f` on: the
-- bucket, and the offset behind its range.
abbrev pub grant_f : ℕ → AllocBucket → AllocBucket × ℕ
grant_f f b =
    let size = sub64 (if ltb b.end_ b.current then b.current else b.end_) b.start in
    let start = align_up f b.alignment in
    (record b { start = start; current = start; end_ = u64 (start + size) }, u64 (start + size))

-- `cmp_alloc_bucket`, whether the first comes before the second: whether the difference that it
-- returns is negative, as an `int`
abbrev comes_before : AllocBucket → AllocBucket → Bool
comes_before l r =
    let difference =
      if l.category == r.category
      then sub32 l.alignment r.alignment
      else sub32 l.category r.category in
    leb (2 ^ 31) difference

-- `extra_phdrs_required_for_category_mask`. The categories are numbered from 0: f, v_r,
-- v_r_near_x, v_rx, v_rw and v_rw_zero.
unfoldable pub extra_phdrs_required_for_category_mask : ℕ → ℕ
extra_phdrs_required_for_category_mask category_mask =
    (if bit_and category_mask (2 ^ 32 - 2) == 0 then 0 else 2)
    + (if bit_and category_mask (2 ^ 3) == 0 then 0 else 1)
    + (if bit_and category_mask (2 ^ 4 + 2 ^ 5) == 0 then 0 else 1)
