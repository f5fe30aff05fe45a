-- ===== src/Uuht/Entries.antt =====
-- The slot of each hash in a table of slots.
use polyfill_glibc.Base.{ℕ, Bool, List}
use polyfill_glibc.RobinHood.Entries.{first}
use polyfill_glibc.RobinHood.Probing.{matches}
use polyfill_glibc.Uuht.{any_key}

abbrev pub of_hash : ℕ → ℕ → Bool
of_hash h = matches any_key h

-- The slot of the hash `h`, or zero.
abbrev pub entry_of : ℕ → List ℕ → ℕ
entry_of h t = first (of_hash h) t
