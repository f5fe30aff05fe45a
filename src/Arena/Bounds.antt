-- ===== src/Arena/Bounds.antt =====
-- What `arena_alloc` hands out.
use polyfill_glibc.Base.{
  ℕ, suc, ◌+◌, ◌-◌, ◌%◌, ◌^◌, ◌≤◌, ◌<◌, Bool, true, false, ◌&&◌, some, List, [], ◌∷◌, ◌≡◌, ◌⊎◌, inl,
  inr, refl, ap, ◌∙◌, arith, ltb, leb, Bool-cases, length,
}
use polyfill_glibc.Arena.{
  Region, Arena, align_down, current, new_size, next_region, rest_of, header_size, alloc_loop,
  arena_alloc,
}

-- The bound of the arena lies in its current region.
pub record IsValid (a : Arena) : Type 0 where
  pub bound : a.bump ≤ (current a.used).size

-- `size` bytes from `offset` of region `r` on: behind the header of the region, inside it, aligned,
-- and below all that the region handed out before.
pub record Handed (used : List Region) (bump size : ℕ) (r : Region) (offset : ℕ) (a : Arena)
    : Type 0 where
  pub region : r ≡ current a.used
  pub behind : 16 ≤ offset
  pub inside : offset + size ≤ r.size
  pub aligned : offset % 8 ≡ 0
  pub bound : a.bump ≡ offset
  pub below : ((a.used ≡ used) × (offset + size ≤ bump)) ⊎ (length used < length a.used)

abbrev Ends : ℕ → ℕ → ℕ → List Region → List Region → ℕ → Type 0
Ends fuel size fresh used avail bump =
    (r : Region) × (offset : ℕ) × (a : Arena) × (alloc_loop fuel size fresh used avail bump
      ≡ some (r, offset, a))
    × Handed used bump size r offset a

abbrev enough : ℕ → ℕ → Bool
enough size bump = ltb size bump && leb header_size (align_down (bump - size))

loop-here :
    (fuel size fresh : ℕ) (used avail : List Region) (bump : ℕ)
    → enough size bump ≡ true
    → alloc_loop (suc fuel) size fresh used avail bump
      ≡ some (
        current used,
        align_down (bump - size),
        record { used = used; avail = avail; bump = align_down (bump - size) },
      )
unfolding alloc_loop
loop-here fuel size fresh used avail bump h = cc

loop-next :
    (fuel size fresh : ℕ) (used avail : List Region) (bump : ℕ)
    → enough size bump ≡ false
    → alloc_loop (suc fuel) size fresh used avail bump
      ≡ alloc_loop fuel size fresh
          (next_region size fresh avail ∷ used)
          (rest_of avail)
          (next_region size fresh avail).size
unfolding alloc_loop
loop-next fuel size fresh used avail bump h = cc

enough-parts :
    (size bump : ℕ) → enough size bump ≡ true → (size < bump) × (16 ≤ align_down (bump - size))
enough-parts size bump h = (ground arith, ground arith)

new_enough : (size : ℕ) → size < 2 ^ 63 → enough size (new_size size) ≡ true
new_enough size h = ground arith

here-Handed :
    (used avail : List Region) (bump size : ℕ)
    → bump ≤ (current used).size
    → enough size bump ≡ true
    → Handed used bump size
        (current used)
        (align_down (bump - size))
        (record { used = used; avail = avail; bump = align_down (bump - size) })
here-Handed used avail bump size v h =
    let (lt, ge) = enough-parts size bump h in
    record {
      region = refl;
      behind = ge;
      inside = omega arith;
      aligned = omega arith;
      bound = refl;
      below = inl (refl, omega arith);
    }

-- What is handed out of a later region is not in this one.
later-Handed :
    {n : Region} {used : List Region} {b bump size : ℕ} {r : Region} {offset : ℕ} {a : Arena}
    → Handed (n ∷ used) b size r offset a
    → Handed used bump size r offset a
later-Handed {n} {used} {b} {bump} {size} {r} {offset} {a} h = record {
  region = h.region;
  behind = h.behind;
  inside = h.inside;
  aligned = h.aligned;
  bound = h.bound;
  below = inr (longer h.below);
}
  where
    longer :
        ((a.used ≡ (n ∷ used)) × (offset + size ≤ b)) ⊎ (suc (length used) < length a.used)
        → length used < length a.used
    longer (inl (e, _)) = omega (arith, ap length e)
    longer (inr lt) = omega arith

next-Ends :
    (fuel size fresh : ℕ) (used avail : List Region) (bump : ℕ)
    → enough size bump ≡ false
    → Ends fuel size fresh
        (next_region size fresh avail ∷ used)
        (rest_of avail)
        (next_region size fresh avail).size
    → Ends (suc fuel) size fresh used avail bump
next-Ends fuel size fresh used avail bump no_room (r, offset, a, run, handed) =
    (r, offset, a, loop-next fuel size fresh used avail bump no_room ∙ run, later-Handed handed)

here-Ends :
    (fuel size fresh : ℕ) (used avail : List Region) (bump : ℕ)
    → bump ≤ (current used).size
    → enough size bump ≡ true
    → Ends (suc fuel) size fresh used avail bump
here-Ends fuel size fresh used avail bump v room = (
  current used,
  align_down (bump - size),
  record { used = used; avail = avail; bump = align_down (bump - size) },
  loop-here fuel size fresh used avail bump room,
  here-Handed used avail bump size v room,
)

new-Ends :
    (size fresh : ℕ)
    → size < 2 ^ 63
    → (used : List Region) (bump : ℕ) → enough size bump ≡ false
    → Ends 2 size fresh used [] bump
new-Ends size fresh lt used bump no_room =
    let v : new_size size ≤ new_size size = omega arith in
    next-Ends 1 size fresh used [] bump no_room (
      here-Ends 0 size fresh (next_region size fresh [] ∷ used) [] (new_size size) v
        (new_enough size lt))

loop-Ends :
    (size fresh : ℕ)
    → size < 2 ^ 63
    → (avail used : List Region) (bump : ℕ) → bump ≤ (current used).size
    → Ends (suc (suc (length avail))) size fresh used avail bump
loop-Ends size fresh lt [] used bump v = elim (Bool-cases (enough size bump)) [
  | inl room ↦ here-Ends 1 size fresh used [] bump v room
  | inr no_room ↦ new-Ends size fresh lt used bump no_room
]
loop-Ends size fresh lt (n ∷ avail) used bump v = elim (Bool-cases (enough size bump)) [
  | inl room ↦ here-Ends (suc (suc (length avail))) size fresh used (n ∷ avail) bump v room
  | inr no_room ↦
      let fits : n.size ≤ n.size = omega arith in
      next-Ends (suc (suc (length avail))) size fresh used (n ∷ avail) bump no_room
        (loop-Ends size fresh lt avail (n ∷ used) n.size fits)
]

-- For fewer than 2 ^ 63 bytes and a bound that lies in the current region, `arena_alloc` ends, and
-- hands out bytes that lie behind the header of a region and inside it, at an offset that is
-- a multiple of eight. They are below the bound of the region they come from, if that was the
-- current one, and the bound moves down to them.
pub arena_alloc-Handed :
    (arena : Arena) (size fresh : ℕ)
    → IsValid arena
    → size < 2 ^ 63
    → (r : Region) × (offset : ℕ) × (after : Arena) × (arena_alloc arena size fresh
        ≡ some (r, offset, after))
      × Handed arena.used arena.bump size r offset after
      × IsValid after
unfolding arena_alloc
arena_alloc-Handed arena size fresh v lt =
    let (r, offset, after, run, handed) =
      loop-Ends size fresh lt arena.avail arena.used arena.bump v.bound in
    (
      r,
      offset,
      after,
      run,
      handed,
      record {
        bound =
            omega (arith, handed.bound, handed.inside, ap (λ (x : Region). x.size) handed.region);
      },
    )
