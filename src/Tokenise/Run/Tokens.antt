-- ===== src/Tokenise/Run/Tokens.antt =====
-- `tokeniser_run` ends, and its tokens and lines are in order.
use polyfill_glibc.Base.{
  ℕ, zero, suc, ◌+◌, ◌-◌, ◌^◌, ◌≤◌, ◌<◌, List, [], ◌∷◌, ◌++◌, Option, some, ◌≡◌, refl, true, ltb,
  ap, arith, length, take, length-append,
}
use polyfill_glibc.Tokenise.Run.Rounds.{round-Ends, round_newline, round_end}
use polyfill_glibc.Tokenise.Run.Total.{
  Ending, last, more, Ending-length, Fine, Rest, inside, closing,
}
use polyfill_glibc.Tokenise.Run.{
  Token, Round, offset_of, ident, token, blank, line, eof, Lexed, with_token, with_line, round,
  run_loop, run, after_round,
}

-- The tokens are not empty, follow one another from `low` on, and the last one, which is empty, is
-- at `end_`.
pub data IsOrdered (end_ : ℕ) : ℕ → List Token → Type 0 where
  stop :
      {low : ℕ}
      → low ≤ end_
      → IsOrdered end_ low (record { type = 0xffffffff; start = end_; end_ = end_ } ∷ [])
  next :
      {low : ℕ} {t : Token} {ts : List Token}
      → low ≤ t.start
      → t.start < t.end_
      → IsOrdered end_ t.end_ ts
      → IsOrdered end_ low (t ∷ ts)

IsOrdered-from :
    {end_ low low' : ℕ} {ts : List Token}
    → low' ≤ low
    → IsOrdered end_ low ts
    → IsOrdered end_ low' ts
IsOrdered-from le (stop h) = stop (omega arith)
IsOrdered-from le (next h lt o) = next (omega arith) lt o

-- The lines start at `start` and at ever greater offsets up to `end_`, and 0xffffffff follows.
pub data IsRising (end_ : ℕ) : ℕ → List ℕ → Type 0 where
  stop : {start : ℕ} → IsRising end_ start (0xffffffff ∷ [])
  next :
      {start start' : ℕ} {starts : List ℕ}
      → start < start'
      → start' ≤ end_
      → IsRising end_ start' starts
      → IsRising end_ start (start ∷ starts)

module _ {S : Type 0} (intern : S → List ℕ → ℕ × S) (size : ℕ) where
  abbrev total : ℕ
  total = suc size

  pub record Done (start low : ℕ) (o : Option (Lexed S)) : Type 0 where
    pub result : Lexed S
    pub ends : o ≡ some result
    pub tokens : IsOrdered size low result.tokens
    pub lines : IsRising size start result.line_starts
    pub some_line : low < size → 2 ≤ length result.line_starts

  add_token :
      {start low : ℕ} {o : Option (Lexed S)} (t : Token)
      → low ≤ t.start
      → t.start < t.end_
      → t.end_ < size
      → Done start t.end_ o
      → Done start low (with_token t o)
  add_token t le lt in_ d = record {
    result = record d.result { tokens = t ∷ d.result.tokens };
    ends = ap (with_token t) d.ends;
    tokens = next le lt d.tokens;
    lines = d.lines;
    some_line = λ _. d.some_line in_;
  }

  IsRising-length : {start : ℕ} {starts : List ℕ} → IsRising size start starts → 1 ≤ length starts
  IsRising-length stop = omega arith
  IsRising-length (next lt le r) = omega arith

  add_line :
      {start start' low low' : ℕ} {o : Option (Lexed S)}
      → start < start'
      → start' ≤ size
      → low ≤ low'
      → Done start' low' o
      → Done start low (with_line start o)
  add_line {start} lt le from d = record {
    result = record d.result { line_starts = start ∷ d.result.line_starts };
    ends = ap (with_line start) d.ends;
    tokens = IsOrdered-from from d.tokens;
    lines = next lt le d.lines;
    some_line = λ _. omega (arith, IsRising-length d.lines);
  }

  skip_on :
      {start low low' : ℕ} {o : Option (Lexed S)}
      → low' ≤ low
      → low < size
      → Done start low o
      → Done start low' o
  skip_on le in_ d = record {
    result = d.result;
    ends = d.ends;
    tokens = IsOrdered-from le d.tokens;
    lines = d.lines;
    some_line = λ _. d.some_line in_;
  }

  stop_at :
      (n : ℕ) → n ≡ size → IsOrdered size n (record { type = 0xffffffff; start = n; end_ = n } ∷ [])
  stop_at n e = rw e (stop (omega arith))

  loop-run :
      (fuel start : ℕ) (idents : S) (c : ℕ) (src : List ℕ)
      → run_loop intern (suc fuel) total start idents (c ∷ src)
        ≡ after_round intern (run_loop intern fuel total) total start idents (c ∷ src) (round c src)
  unfolding run_loop
  loop-run fuel start idents c src = refl

  abbrev Loops : ℕ → Type 0
  Loops fuel =
      (rest : List ℕ) (start : ℕ) (idents : S)
      → Rest rest
      → length rest ≤ fuel
      → length rest ≤ total
      → start ≤ total - length rest
      → Done start (total - length rest) (run_loop intern fuel total start idents rest)

  Rest-length : {rest : List ℕ} → Rest rest → 1 ≤ length rest
  Rest-length (inside e) = omega (arith, Ending-length e)
  Rest-length closing = omega arith

  offset_is :
      (rest : List ℕ) → size < 2 ^ 32 → 1 ≤ length rest → offset_of total rest ≡ total - length rest
  offset_is rest fits some_left = omega (arith, fits, some_left)

  after-Done :
      size < 2 ^ 32
      → (fuel start : ℕ) (idents : S) (c : ℕ) (src : List ℕ) → Loops fuel
      → length src ≤ fuel
      → suc (length src) ≤ total
      → start ≤ total - suc (length src)
      → (r : Round) → Fine src r
      → Done start
          (total - suc (length src))
          (after_round intern (run_loop intern fuel total) total start idents (c ∷ src) (some r))
  after-Done fits fuel start idents c src ih le lt from (ident rest) w =
      let left = take (length (c ∷ src) - length rest) (c ∷ src) in
      let here = offset_is (c ∷ src) fits (omega arith) in
      let there = offset_is rest fits (omega (arith, Ending-length w.ending)) in
      rw (here, there)
        (add_token
          (record {
            type = (intern idents left).0;
            start = total - suc (length src);
            end_ = total - length rest;
          })
          (omega arith) (omega (arith, w.shorter))
          (omega (arith, w.shorter, Ending-length w.ending))
          (ih rest start (intern idents left).1 (inside w.ending) (omega (arith, w.shorter))
            (omega (arith, w.shorter)) (omega (arith, w.shorter))))
  after-Done fits fuel start idents c src ih le lt from (token type rest) w =
      let here = offset_is (c ∷ src) fits (omega arith) in
      let there = offset_is rest fits (omega (arith, Ending-length w.ending)) in
      rw (here, there)
        (add_token
          (record { type = type; start = total - suc (length src); end_ = total - length rest })
          (omega arith) (omega (arith, w.shorter))
          (omega (arith, w.shorter, Ending-length w.ending))
          (ih rest start idents (inside w.ending) (omega (arith, w.shorter))
            (omega (arith, w.shorter)) (omega (arith, w.shorter))))
  after-Done fits fuel start idents c src ih le lt from (blank rest) w =
      skip_on (omega (arith, w.shorter)) (omega (arith, w.shorter, Ending-length w.ending)) (
        ih rest start idents (inside w.ending) (omega (arith, w.shorter)) (omega (arith, w.shorter))
          (omega (arith, w.shorter)))
  after-Done fits fuel start idents c src ih le lt from (line rest) w =
      let there = offset_is rest fits (Rest-length w.ending) in
      rw there (
        add_line (omega (arith, w.shorter)) (omega (arith, Rest-length w.ending))
          (omega (arith, w.shorter))
          (ih rest (total - length rest) idents w.ending (omega (arith, w.shorter))
            (omega (arith, w.shorter)) (omega arith)))
  after-Done fits fuel start idents c src ih le lt from eof w = absurd w

  loop-Done : size < 2 ^ 32 → (fuel : ℕ) → Loops fuel
  loop-Done fits zero rest start idents w le lt from = absurd (omega (arith, Rest-length w))
  loop-Done fits (suc fuel) [] start idents w le lt from = absurd (omega (arith, Rest-length w))
  loop-Done fits (suc fuel) (c ∷ src) start idents (inside last) le lt from =
      rw (loop-run fuel start idents b'\n' (0 ∷ [])) (
        rw round_newline (
          after-Done fits fuel start idents b'\n' (0 ∷ []) (loop-Done fits fuel) (omega arith) lt
            from (line (0 ∷ [])) (record { ending = closing; shorter = omega arith })))
  loop-Done fits (suc fuel) (c ∷ src) start idents (inside (more e)) le lt from =
      let s = round-Ends c e in
      rw (loop-run fuel start idents c src) (
        rw s.run (
          after-Done fits fuel start idents c src (loop-Done fits fuel) (omega arith) lt from
            s.result s.fine))
  loop-Done fits (suc fuel) (c ∷ src) start idents closing le lt from =
      rw (loop-run fuel start idents 0 []) (
        rw (round_end, offset_is (0 ∷ []) fits (omega arith))
          (record {
            result = record {
              tokens = record { type = 0xffffffff; start = total - 1; end_ = total - 1 } ∷ [];
              line_starts = 0xffffffff ∷ [];
              idents = idents;
            };
            ends = refl;
            tokens = stop_at (total - 1) (omega arith);
            lines = stop;
            some_line = λ lt. absurd (omega arith);
          }))

Ending-append : (text : List ℕ) → Ending (text ++ (b'\n' ∷ 0 ∷ []))
Ending-append [] = last
Ending-append (c ∷ text) = more (Ending-append text)

pub run-Done :
    {S : Type 0} (intern : S → List ℕ → ℕ × S) (idents : S) (text : List ℕ)
    → length text + 1 < 2 ^ 32
    → Done intern (length text + 1) 0 0 (run intern idents text)
unfolding run
run-Done intern idents text small =
    let guard : ltb (length text + 1) (2 ^ 32) ≡ true = ground (arith, small) in
    let buffer = text ++ (b'\n' ∷ 0 ∷ []) in
    let e : length buffer ≡ suc (length text + 1) =
      omega (arith, length-append text (b'\n' ∷ 0 ∷ [])) in
    rw (guard, e)
      (skip_on intern (length text + 1) (omega arith) (omega (arith, e)) (
        loop-Done intern (length text + 1) small (suc (suc (length text + 1))) buffer 0 idents
          (inside (Ending-append text)) (omega (arith, e)) (omega (arith, e)) (omega arith)))
