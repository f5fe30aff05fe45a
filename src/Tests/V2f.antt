-- ===== src/Tests/V2f.antt =====
-- src/v2f.c at concrete inputs.
use polyfill_glibc.Base.{
  ℕ, ◌+◌, ◌-◌, ◌^◌, ◌<◌, ◌≡◌, ◌≢◌, refl, arith, some, none, ltb, leb, ◌&&◌, if◌then◌else◌,
}
use polyfill_glibc.V2f.Looking.{Found, init-unused-IsValid, lookup-Found, set_range-lookup}
use polyfill_glibc.V2f.Offsets.{Offers, lookup_f_range-Offers}
use polyfill_glibc.V2f.Setting.{Ranged, set_range-Ranged}
use polyfill_glibc.V2f.{V2fMap, entry, init, unused, set_range, lookup, lookup_f_range}

abbrev unmapped : V2fMap
unmapped = init unused 2

-- What a lookup says of an address.
abbrev value_at : V2fMap → ℕ → ℕ
value_at m x = elim (lookup m x) [ none ↦ 0 | some r ↦ (entry (r.1).entries r.0).v2f ]

in_range : value_at (set_range unmapped 4096 512 0) 4607 ≡ 0
unfolding init set_range lookup
in_range = refl

past_range : value_at (set_range unmapped 4096 512 0) 4608 ≡ 2
unfolding init set_range lookup
past_range = refl

from_offset : lookup_f_range (set_range unmapped 4096 512 (2 ^ 64 - 4096)) 16 8 ≡ some 1
unfolding init set_range lookup_f_range
from_offset = refl

abbrev size : ℕ
size = 512

some_size : size ≢ 0
some_size e = absurd (omega arith)

few_cells : unmapped.capacity < 2 ^ 31
unfolding init
few_cells = omega arith

abbrev segment : V2fMap
segment = set_range unmapped 4096 512 (2 ^ 64 - 4096)

lookup_f_range-Offers_example : Offers segment.entries segment.count 16 8 1
lookup_f_range-Offers_example = lookup_f_range-Offers segment 16 8 1 (omega arith) from_offset

lookup-Found_example :
    (i : ℕ) × (m' : V2fMap) × (lookup unmapped 77 ≡ some (i, m')) × Found unmapped 77 i m'
lookup-Found_example = lookup-Found unmapped 77 (init-unused-IsValid 2) (omega arith)

set_range-Ranged_example : Ranged unmapped 4096 512 0 (set_range unmapped 4096 512 0)
set_range-Ranged_example =
    set_range-Ranged unmapped (init-unused-IsValid 2) few_cells 4096 512 0 some_size (omega arith)

set_range-lookup_example :
    (i : ℕ) × (m₁ : V2fMap) × (j : ℕ) × (m₂ : V2fMap) × (lookup unmapped 4607 ≡ some (i, m₁))
    × (lookup (set_range unmapped 4096 512 0) 4607 ≡ some (j, m₂))
    × ((entry m₂.entries j).v2f
        ≡ (if leb 4096 4607 && ltb 4607 (4096 + 512) then 0 else (entry m₁.entries i).v2f))
set_range-lookup_example =
    set_range-lookup unmapped (init-unused-IsValid 2) few_cells 4096 512 0 some_size (omega arith)
      4607 (omega arith)
