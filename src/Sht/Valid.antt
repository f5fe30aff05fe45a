-- ===== src/Sht/Valid.antt =====
-- The invariant of the table, and that `sht_init` and `sht_clear` establish it.
use polyfill_glibc.Base.{
  ℕ, ◌+◌, ◌*◌, ◌≤◌, ◌<◌, Bool, List, ◌≡◌, refl, ap, arith, length, length-take, replicate, ◌==◌,
  Bool-cases, inl, inr,
}
use polyfill_glibc.RobinHood.Count.{countp, countp-replicate}
use polyfill_glibc.RobinHood.Entries.{is}
use polyfill_glibc.RobinHood.Growing.{IsLoaded, zeros-IsLoaded}
use polyfill_glibc.RobinHood.Probing.{matches}
use polyfill_glibc.Sht.Contents.{Fits}
use polyfill_glibc.Sht.Hash.{hash_mem}
use polyfill_glibc.Sht.{Sht, init, clear, meta_words, same_key, value_index}

-- A slot of the key's hash whose entry has the key.
abbrev pub of_key : List ℕ → List ℕ → ℕ → Bool
of_key contents key = matches (same_key contents key) (hash_mem key)

-- The table is in order and less than three quarters full. Each slot has an entry in the contents,
-- and no two slots have the same key.
pub record IsValid (p : ℕ) (s : Sht) : Type 0 where
  pub loaded : IsLoaded p s.table s.mask s.count
  pub filled : length s.contents ≡ 4 * s.size
  pub headed : meta_words ≤ s.size
  pub entries : (x : ℕ) → 0 < countp (is x) s.table → Fits s.contents (value_index x)
  pub once : (key : List ℕ) → countp (of_key s.contents key) s.table ≤ 1

empty-IsValid :
    {p : ℕ} {s : Sht} (n : ℕ)
    → IsLoaded p s.table s.mask s.count
    → length s.contents ≡ 12
    → s.size ≡ 3
    → s.table ≡ replicate n 0
    → IsValid p s
empty-IsValid {s = s} n loaded len size zeros = record {
  loaded = loaded;
  filled = omega arith;
  headed = omega arith;
  entries = λ x held.
      absurd (omega (arith, held, ap (countp (is x)) zeros, countp-replicate (is x) n refl));
  once = λ key. rw zeros (omega (arith, countp-replicate (of_key s.contents key) n refl));
}

-- `sht_init` makes a valid table of four slots.
pub init-IsValid : (value_len : ℕ) → IsValid 2 (init value_len)
unfolding init
init-IsValid value_len =
    empty-IsValid 4 (zeros-IsLoaded 2 3 (omega arith) (omega arith) refl) refl refl refl

-- `sht_clear` leaves a valid table of the same size.
pub clear-IsValid : {p : ℕ} {s : Sht} → IsValid p s → IsValid p (clear s)
unfolding clear
clear-IsValid {p} {s} v = elim (Bool-cases (s.count == 0)) [
  | inl none_there ↦ rw none_there v
  | inr some_there ↦ rw some_there (
      empty-IsValid (s.mask + 1)
        (zeros-IsLoaded p s.mask v.loaded.wide v.loaded.small v.loaded.masked)
        (omega (arith, length-take 12 s.contents, v.filled, v.headed)) refl refl)
]
