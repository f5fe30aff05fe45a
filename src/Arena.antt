-- ===== src/Arena.antt =====
-- src/arena.c: allocation by moving a bound down in the current region. A region is its address
-- and its size, and the two linked lists of regions are lists. `fresh` is the address that malloc
-- returns, if the call asks for memory. `arena_free` only frees.
pub mod Bounds
pub mod Regions
use polyfill_glibc.Base.{
  ℕ, zero, suc, ◌+◌, ◌-◌, ◌%◌, Bool, true, false, ◌&&◌, Option, none, some, List, [], ◌∷◌, u64, ltb,
  leb, if◌then◌else◌, length,
}

pub record Region : Type 0 where
  pub address : ℕ
  pub size : ℕ

pub record Arena : Type 0 where
  pub used : List Region
  pub avail : List Region
  pub bump : ℕ

-- `sizeof(arena_region_t)`
abbrev pub header_size : ℕ
header_size = 16

-- `bump & ~(size_t)(sizeof(void*) - 1)`, where pointers have eight bytes
abbrev pub align_down : ℕ → ℕ
align_down bump = bump - bump % 8

-- The region that `arena->used` points to. A null pointer has no bytes.
abbrev pub current : List Region → Region
current [] = record { address = 0; size = 0 }
current (r ∷ rs) = r

-- The size of a region from malloc.
abbrev pub new_size : ℕ → ℕ
new_size size = u64 (header_size + (if ltb size 512 then 512 else size))

-- The next region is one that was used before a reset, or a new one.
abbrev pub next_region : ℕ → ℕ → List Region → Region
next_region size fresh [] = record { address = fresh; size = new_size size }
next_region size fresh (r ∷ rs) = r

abbrev pub rest_of : List Region → List Region
rest_of [] = []
rest_of (r ∷ rs) = rs

-- The loop of `arena_alloc`. The result is the region and the offset in it.
unfoldable pub alloc_loop : ℕ → ℕ → ℕ → List Region → List Region → ℕ → Option (Region × ℕ × Arena)
alloc_loop zero size fresh used avail bump = none
alloc_loop (suc fuel) size fresh used avail bump =
    let bump' = align_down (bump - size) in
    elim (ltb size bump && leb header_size bump') [
      | true ↦ some (current used, bump', record { used = used; avail = avail; bump = bump' })
      | false ↦
          let a = next_region size fresh avail in
          alloc_loop fuel size fresh (a ∷ used) (rest_of avail) a.size
    ]

-- `arena_alloc`
unfoldable pub arena_alloc : Arena → ℕ → ℕ → Option (Region × ℕ × Arena)
unfolding alloc_loop
arena_alloc arena size fresh =
    alloc_loop (suc (suc (length arena.avail))) size fresh arena.used arena.avail arena.bump

-- The loop of `arena_reset`, which reverses the used regions onto the others.
unfoldable pub give_back : List Region → List Region → List Region
give_back [] a = a
give_back (u ∷ used) a = give_back used (u ∷ a)

-- `arena_reset`
unfoldable pub arena_reset : Arena → Arena
unfolding give_back
arena_reset arena = record { used = []; avail = give_back arena.used arena.avail; bump = 0 }
