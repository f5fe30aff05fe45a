-- ===== src/Tokenise/Lines.antt =====
-- src/tokenise.c: the line of an offset, with the last answer cached.
pub mod Found
pub mod Files
use polyfill_glibc.Base.{
  ℕ, zero, suc, ◌-◌, Option, none, some, List, get_or, ltb, leb, if◌then◌else◌, Bool, true, false,
  length,
}

-- The fields of the tokeniser that `offset_to_line` reads.
pub record LineTable : Type 0 where
  pub line_starts : List ℕ
  pub line_starts_size : ℕ
  pub line_lookup_cache : ℕ

abbrev pub starts_at : LineTable → ℕ → ℕ
starts_at t i = get_or t.line_starts i 0

-- `do { ++cached_result; } while (offset >= starts[cached_result]);`, where `starts` is one further
unfoldable pub later_line : ℕ → LineTable → ℕ → ℕ → Option ℕ
later_line zero t offset i = none
later_line (suc fuel) t offset i =
    let rest = later_line fuel t offset (suc i) in
    if leb (starts_at t (suc (suc i))) offset then rest else some (suc i)

-- `do { --cached_result; } while (offset < starts[cached_result]);`
unfoldable pub earlier_line : LineTable → ℕ → ℕ → Option ℕ
earlier_line t offset zero = none
earlier_line t offset (suc i) =
    let rest = earlier_line t offset i in if ltb offset (starts_at t i) then rest else some i

abbrev pub cache_line : LineTable → Option ℕ → Option (ℕ × LineTable)
cache_line t none = none
cache_line t (some i) = some (i, record t { line_lookup_cache = i })

-- `offset_to_line`. `none` is a read outside the array.
unfoldable pub offset_to_line : LineTable → ℕ → Option (ℕ × LineTable)
unfolding later_line earlier_line
offset_to_line t offset =
    let cached = t.line_lookup_cache in
    if leb (starts_at t cached) offset
    then (if ltb offset (starts_at t (suc cached))
        then some (cached, t)
        else if leb 0xffffffff offset
        then some (t.line_starts_size - 1, t)
        else cache_line t (later_line (length t.line_starts) t offset cached))
    else cache_line t (earlier_line t offset cached)

abbrev pub start_after : Option (ℕ × LineTable) → Option ℕ
start_after none = none
start_after (some (line, t)) = some (starts_at t (suc line))

-- `tokeniser_next_line_start`
unfoldable pub next_line_start : LineTable → ℕ → Option ℕ
unfolding offset_to_line
next_line_start t ofs = start_after (offset_to_line t ofs)
