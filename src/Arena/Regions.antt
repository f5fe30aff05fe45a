-- ===== src/Arena/Regions.antt =====
-- `arena_reset` keeps every region.
use polyfill_glibc.Base.{ℕ, ◌+◌, Bool, List, [], ◌∷◌, ◌≡◌, refl, arith, if◌then◌else◌}
use polyfill_glibc.Arena.{Region, Arena, give_back, arena_reset}

-- How many regions pass a test.
unfoldable pub tally : (Region → Bool) → List Region → ℕ
tally P [] = 0
tally P (r ∷ rs) = (if P r then 1 else 0) + tally P rs

give_back-tally :
    (P : Region → Bool) (used a : List Region)
    → tally P (give_back used a) ≡ tally P used + tally P a
unfolding give_back tally
give_back-tally P [] a = omega arith
give_back-tally P (u ∷ used) a = omega (arith, give_back-tally P used (u ∷ a))

-- After `arena_reset` no region is used, and the available regions are those that were used or
-- available, each as often.
pub arena_reset-tally :
    (arena : Arena) (P : Region → Bool)
    → ((arena_reset arena).used ≡ [])
      × (tally P (arena_reset arena).avail ≡ tally P arena.used + tally P arena.avail)
unfolding arena_reset
arena_reset-tally arena P = (refl, give_back-tally P arena.used arena.avail)
