-- ===== src/Uuht/Valid.antt =====
-- The invariant of the table, and that the two constructors establish it.
use polyfill_glibc.Base.{ℕ, ◌+◌, ◌≤◌, refl, arith}
use polyfill_glibc.RobinHood.Count.{countp, countp-replicate}
use polyfill_glibc.RobinHood.Growing.{IsLoaded, zeros-IsLoaded}
use polyfill_glibc.Uuht.Entries.{of_hash}
use polyfill_glibc.Uuht.{Uuht, init, clear}

-- A table of `2 ^ p` slots, in robin-hood order, less than three quarters full, with at most one slot
-- for each hash.
pub record IsValid (p : ℕ) (u : Uuht) : Type 0 where
  pub loaded : IsLoaded p u.table u.mask u.count
  pub once : (h : ℕ) → countp (of_hash h) u.table ≤ 1

-- `uuht_init` makes a valid table of eight slots.
pub init-IsValid : IsValid 3 init
unfolding init
init-IsValid = record {
  loaded = zeros-IsLoaded 3 7 (omega arith) (omega arith) refl;
  once = λ h. omega (arith, countp-replicate (of_hash h) 8 refl);
}

-- `uuht_clear` empties a valid table, and keeps its size.
pub clear-IsValid : {p : ℕ} {u : Uuht} → IsValid p u → IsValid p (clear u)
unfolding clear
clear-IsValid {p} {u} v = record {
  loaded = zeros-IsLoaded p u.mask v.loaded.wide v.loaded.small v.loaded.masked;
  once = λ h. omega (arith, countp-replicate (of_hash h) (u.mask + 1) refl);
}
