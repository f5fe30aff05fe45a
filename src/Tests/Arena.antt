-- ===== src/Tests/Arena.antt =====
-- src/arena.c at concrete inputs.
use polyfill_glibc.Base.{ℕ, ◌+◌, Bool, true, [], ◌∷◌, ◌≡◌, refl, arith, some}
use polyfill_glibc.Arena.Bounds.{IsValid, Handed, arena_alloc-Handed}
use polyfill_glibc.Arena.Regions.{tally, arena_reset-tally}
use polyfill_glibc.Arena.{Region, Arena, arena_alloc, arena_reset}

abbrev new_arena : Arena
new_arena = record { used = []; avail = []; bump = 0 }

abbrev first_region : Region
first_region = record { address = 4096; size = 528 }

abbrev used_arena : Arena
used_arena = record { used = first_region ∷ []; avail = []; bump = 424 }

first_alloc : arena_alloc new_arena 100 4096 ≡ some (first_region, 424, used_arena)
unfolding arena_alloc
first_alloc = refl

arena_alloc-Handed_example :
    (r : Region) × (offset : ℕ) × (after : Arena) × (arena_alloc used_arena 100 8192
      ≡ some (r, offset, after))
    × Handed (first_region ∷ []) 424 100 r offset after
    × IsValid after
arena_alloc-Handed_example =
    arena_alloc-Handed used_arena 100 8192 (record { bound = omega arith }) (omega arith)

abbrev any_region : Region → Bool
any_region r = true

arena_reset-tally_example :
    ((arena_reset used_arena).used ≡ [])
    × (tally any_region (arena_reset used_arena).avail
        ≡ tally any_region (first_region ∷ []) + tally any_region [])
arena_reset-tally_example = arena_reset-tally used_arena any_region
