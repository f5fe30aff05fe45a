-- ===== src/Tests/Alloc.antt =====
-- The allocation of ranges in src/erw.c at concrete inputs.
use polyfill_glibc.Base.{ℕ, ◌+◌, ◌^◌, ◌≤◌, ◌≡◌, ◌≢◌, refl, arith, true, false, List, [], ◌∷◌}
use polyfill_glibc.Erw.Alloc.Buckets.{Allocates, bucket_of, erw_alloc-Allocates}
use polyfill_glibc.Erw.Alloc.Aligning.{up}
use polyfill_glibc.Erw.Alloc.Retrying.{places, places_end, counted, retried, grant_f-alloc_each}
use polyfill_glibc.Erw.Alloc.{
  Allocator, alloc_from, grant_f, erw_alloc, extra_phdrs_required_for_category_mask,
}

abbrev no_buckets : Allocator
no_buckets = record {
  alloc_buckets = record { base = []; capacity = 0; category_mask = 0 };
  retry = false;
}

first_asks_retry : (erw_alloc no_buckets 3 8 20).1.retry ≡ true
unfolding erw_alloc
first_asks_retry = refl

new_bucket : (erw_alloc no_buckets 3 8 20).1.alloc_buckets.category_mask ≡ 8
unfolding erw_alloc
new_bucket = refl

for_code : extra_phdrs_required_for_category_mask 8 ≡ 3
unfolding extra_phdrs_required_for_category_mask
for_code = refl

abbrev three_sizes : List ℕ
three_sizes = 5 ∷ 16 ∷ 3 ∷ []

three_places : places 8 104 three_sizes ≡ 104 ∷ 112 ∷ 128 ∷ []
unfolding places
three_places = refl

three_sizes_fit : 100 + 2 ^ 3 + places_end (2 ^ 3) 0 three_sizes + 2 ^ 3 ≤ 2 ^ 64
unfolding places_end
three_sizes_fit = omega arith

grant_f-alloc_each_example :
    ((retried 3 0 100 three_sizes).0 ≡ places (2 ^ 3) (up (2 ^ 3) 100) three_sizes)
    × ((retried 3 0 100 three_sizes).1 ≡ false)
    × ((retried 3 0 100 three_sizes).2.current ≡ (grant_f 100 (counted 3 0 100 three_sizes)).1)
grant_f-alloc_each_example = grant_f-alloc_each 3 0 100 three_sizes (omega arith) three_sizes_fit

eight : ◌≢◌ {A = ℕ} 8 0
eight e = absurd (omega (arith, e))

erw_alloc-Allocates_example :
    Allocates 3 8 no_buckets (alloc_from (bucket_of [] 3 8) 20) (erw_alloc no_buckets 3 8 20)
erw_alloc-Allocates_example = erw_alloc-Allocates no_buckets 3 8 20 eight
