-- ===== src/Tokenise/Lines/Found.antt =====
-- The line of an offset is found, whichever line is cached, and so is the start of the next line.
use polyfill_glibc.Base.{
  ℕ, zero, suc, ◌+◌, ◌≤◌, ◌<◌, some, List, ◌≡◌, ◌⊎◌, inl, inr, refl, ap, ◌∙◌, arith, length, get_or,
}
use native.Mathlib.Decide.{ℕ_discrete, dec_lt}
use polyfill_glibc.Tokenise.Lines.{
  LineTable, starts_at, later_line, earlier_line, cache_line, offset_to_line, start_after,
  next_line_start,
}

-- The lines start at 0 and at ever greater offsets, and 0xffffffff stands behind them.
pub record IsValid (t : LineTable) : Type 0 where
  pub inside : t.line_starts_size < length t.line_starts
  pub cache : t.line_lookup_cache < t.line_starts_size
  pub first : starts_at t 0 ≡ 0
  pub rises : (i : ℕ) → i < t.line_starts_size → starts_at t i < starts_at t (suc i)
  pub last : starts_at t t.line_starts_size ≡ 0xffffffff

-- `line` is the line of `offset`, and `t'` is `t` but for the cached line.
pub record Found (t : LineTable) (offset line : ℕ) (t' : LineTable) : Type 0 where
  pub in_file : line < t.line_starts_size
  pub from : starts_at t line ≤ offset
  pub before : offset < starts_at t (suc line)
  pub same : t'.line_starts ≡ t.line_starts
  pub valid : IsValid t'

later-run :
    (fuel : ℕ) (t : LineTable) (offset i : ℕ)
    → starts_at t (suc (suc i)) ≤ offset
    → later_line (suc fuel) t offset i ≡ later_line fuel t offset (suc i)
unfolding later_line
later-run fuel t offset i h = ground arith

later-stop :
    (fuel : ℕ) (t : LineTable) (offset i : ℕ)
    → offset < starts_at t (suc (suc i))
    → later_line (suc fuel) t offset i ≡ some (suc i)
unfolding later_line
later-stop fuel t offset i h = ground arith

earlier-run :
    (t : LineTable) (offset i : ℕ)
    → offset < starts_at t i
    → earlier_line t offset (suc i) ≡ earlier_line t offset i
unfolding earlier_line
earlier-run t offset i h = ground arith

earlier-stop :
    (t : LineTable) (offset i : ℕ) → starts_at t i ≤ offset → earlier_line t offset (suc i) ≡ some i
unfolding earlier_line
earlier-stop t offset i h = ground arith

module _ (t : LineTable) (v : IsValid t) (offset : ℕ) (offset-lt : offset < 0xffffffff) where
  -- A line that starts before the offset and ends behind it.
  Holds : ℕ → Type 0
  Holds line =
      (line < t.line_starts_size) × (starts_at t line ≤ offset) × (offset < starts_at t (suc line))

  later-Holds :
      (fuel i : ℕ)
      → i < t.line_starts_size
      → t.line_starts_size ≤ fuel + i
      → starts_at t (suc i) ≤ offset
      → (line : ℕ) × (later_line fuel t offset i ≡ some line) × Holds line
  unfolding Holds
  later-Holds zero i lt enough h = absurd (omega arith)
  later-Holds (suc fuel) i lt enough h = elim (ℕ_discrete (suc i) t.line_starts_size) [
    | yes e ↦ absurd (omega (arith, ap (starts_at t) e, v.last))
    | no ne ↦ elim (dec_lt offset (starts_at t (suc (suc i)))) [
      | yes before ↦ (suc i, later-stop fuel t offset i before, (omega arith, h, before))
      | no past ↦
          let (line, run, found) =
            later-Holds fuel (suc i) (omega arith) (omega arith) (omega arith) in
          (line, later-run fuel t offset i (omega arith) ∙ run, found)
    ]
  ]

  earlier-Holds :
      (i : ℕ)
      → i < t.line_starts_size
      → offset < starts_at t i
      → (line : ℕ) × (earlier_line t offset i ≡ some line) × Holds line
  unfolding Holds
  earlier-Holds zero lt h = absurd (omega (arith, v.first))
  earlier-Holds (suc i) lt h = elim (dec_lt offset (starts_at t i)) [
    | yes before ↦
        let (line, run, found) = earlier-Holds i (omega arith) before in
        (line, earlier-run t offset i before ∙ run, found)
    | no past ↦ (i, earlier-stop t offset i (omega arith), (omega arith, omega arith, h))
  ]

  to_cached :
      starts_at t t.line_lookup_cache ≤ offset
      → offset < starts_at t (suc t.line_lookup_cache)
      → offset_to_line t offset ≡ some (t.line_lookup_cache, t)
  unfolding offset_to_line
  to_cached h lt = ground arith

  to_later :
      starts_at t t.line_lookup_cache ≤ offset
      → starts_at t (suc t.line_lookup_cache) ≤ offset
      → offset_to_line t offset
        ≡ cache_line t (later_line (length t.line_starts) t offset t.line_lookup_cache)
  unfolding offset_to_line
  to_later h le = ground arith

  to_earlier :
      offset < starts_at t t.line_lookup_cache
      → offset_to_line t offset ≡ cache_line t (earlier_line t offset t.line_lookup_cache)
  unfolding offset_to_line
  to_earlier h = ground arith

  cached-Found :
      {line : ℕ} → Holds line → Found t offset line (record t { line_lookup_cache = line })
  unfolding Holds
  cached-Found (in_file, from, before) = record {
    in_file = in_file;
    from = from;
    before = before;
    same = refl;
    valid = record {
      inside = v.inside;
      cache = in_file;
      first = v.first;
      rises = v.rises;
      last = v.last;
    };
  }

  -- For an offset below 0xffffffff in a table of lines that start at ever greater offsets,
  -- `offset_to_line` ends, without a read outside the table and whichever line is cached, at the
  -- line that the offset is in, and leaves a table of the same lines with a line cached.
  pub offset_to_line-Found :
      (line : ℕ) × (t' : LineTable) × (offset_to_line t offset ≡ some (line, t'))
      × Found t offset line t'
  offset_to_line-Found = elim (dec_lt offset (starts_at t t.line_lookup_cache)) [
    | yes before ↦
        let (line, run, found) = earlier-Holds t.line_lookup_cache v.cache before in
        (
          line,
          record t { line_lookup_cache = line },
          to_earlier before ∙ ap (cache_line t) run,
          cached-Found found,
        )
    | no from ↦ elim (dec_lt offset (starts_at t (suc t.line_lookup_cache))) [
      | yes inside ↦ (
        t.line_lookup_cache,
        t,
        to_cached (omega arith) inside,
        record { in_file = v.cache; from = omega arith; before = inside; same = refl; valid = v },
      )
      | no past ↦
          let (line, run, found) =
            later-Holds (length t.line_starts) t.line_lookup_cache v.cache (omega (arith, v.inside))
              (omega arith) in
          (
            line,
            record t { line_lookup_cache = line },
            to_later (omega arith) (omega arith) ∙ ap (cache_line t) run,
            cached-Found found,
          )
    ]
  ]

  -- Under the same conditions `tokeniser_next_line_start` ends behind the offset. Either the result is
  -- the start of the line behind the one that the offset is in, or the offset is in the last line and
  -- the result is 0xffffffff.
  pub next_line_start-Found :
      (line start : ℕ) × (next_line_start t offset ≡ some start)
      × (line < t.line_starts_size)
      × (starts_at t line ≤ offset)
      × (offset < start)
      × ((suc line < t.line_starts_size) × (start ≡ starts_at t (suc line))
          ⊎ (suc line ≡ t.line_starts_size) × (start ≡ 0xffffffff))
  unfolding next_line_start
  next_line_start-Found =
      let (line, t', run, f) = offset_to_line-Found in
      (
        line,
        starts_at t (suc line),
        ap start_after run ∙ ap (λ (xs : List ℕ). some (get_or xs (suc line) 0)) f.same,
        f.in_file,
        f.from,
        f.before,
        elim (ℕ_discrete (suc line) t.line_starts_size) [
          | yes e ↦ inr (e, ap (starts_at t) e ∙ v.last)
          | no ne ↦ inl (omega (arith, f.in_file), refl)
        ],
      )
