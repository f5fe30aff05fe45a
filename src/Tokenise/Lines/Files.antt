-- ===== src/Tokenise/Lines/Files.antt =====
-- The table of lines that `tokeniser_run` leaves is one that `offset_to_line` can search.
use polyfill_glibc.Base.{
  ℕ, zero, suc, ◌+◌, ◌-◌, ◌≤◌, ◌<◌, some, List, ◌≡◌, refl, sym, ◌∙◌, arith, length, get_or,
}
use mathlib.Core.Option.{some-injective}
use polyfill_glibc.Tokenise.Lines.{LineTable}
use polyfill_glibc.Tokenise.Lines.Found.{IsValid}
use polyfill_glibc.Tokenise.Run.{Lexed, run}
use polyfill_glibc.Tokenise.Run.Tokens.{IsRising, stop, next, run-Done}

-- `tokeniser_run` takes the 0xffffffff off the size of the array, and caches line 0.
unfoldable pub lines_of : {S : Type 0} → Lexed S → LineTable
lines_of l = record {
  line_starts = l.line_starts;
  line_starts_size = length l.line_starts - 1;
  line_lookup_cache = 0;
}

module _ (end_ : ℕ) (small : end_ < 0xffffffff) where
  head-le : {s : ℕ} {xs : List ℕ} → s ≤ end_ → IsRising end_ s xs → s ≤ get_or xs 0 0
  head-le h stop = omega arith
  head-le h (next lt le r) = omega arith

  rises_at :
      {s : ℕ} {xs : List ℕ}
      → IsRising end_ s xs
      → s ≤ end_
      → (i : ℕ) → suc i < length xs
      → get_or xs i 0 < get_or xs (suc i) 0
  rises_at stop h i lt = absurd (omega arith)
  rises_at (next above le r) h zero lt = omega (arith, head-le le r)
  rises_at (next above le r) h (suc i) lt = rises_at r le i (omega arith)

  some_start : {s : ℕ} {xs : List ℕ} → IsRising end_ s xs → 1 ≤ length xs
  some_start stop = omega arith
  some_start (next lt le r) = omega arith

  last_is :
      {s : ℕ} {xs : List ℕ}
      → IsRising end_ s xs
      → (i : ℕ) → suc i ≡ length xs
      → get_or xs i 0 ≡ 0xffffffff
  last_is stop zero e = refl
  last_is stop (suc i) e = absurd (omega arith)
  last_is (next lt le r) zero e = absurd (omega (arith, some_start r))
  last_is (next lt le r) (suc i) e = last_is r i (omega arith)

  first_is : {s : ℕ} {xs : List ℕ} → IsRising end_ s xs → 2 ≤ length xs → get_or xs 0 0 ≡ s
  first_is stop two = absurd (omega arith)
  first_is (next lt le r) two = refl

  rising-IsValid :
      {S : Type 0} (l : Lexed S)
      → IsRising end_ 0 l.line_starts
      → 2 ≤ length l.line_starts
      → IsValid (lines_of l)
  unfolding lines_of
  rising-IsValid l r two = record {
    inside = omega arith;
    cache = omega arith;
    first = first_is r two;
    rises = λ i lt. rises_at r (omega arith) i (omega arith);
    last = last_is r (length l.line_starts - 1) (omega arith);
  }

-- If the text has fewer than 0xfffffffe bytes, the line starts that `tokeniser_run` leaves are
-- a table that `offset_to_line` can search.
pub run-lines_of-IsValid :
    {S : Type 0} (intern : S → List ℕ → ℕ × S) (idents : S) (text : List ℕ) (l : Lexed S)
    → length text + 1 < 0xffffffff
    → run intern idents text ≡ some l
    → IsValid (lines_of l)
run-lines_of-IsValid intern idents text l small ends =
    let d = run-Done intern idents text (omega (arith, small)) in
    let same : d.result ≡ l = some-injective d.result l (sym d.ends ∙ ends) in
    rw (sym same)
      (rising-IsValid (length text + 1) small d.result d.lines (d.some_line (omega arith)))
