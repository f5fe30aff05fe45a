-- ===== src/Sht.antt =====
-- src/sht.c: the hash table from byte strings to values of one size. The buffer `contents` is the
-- list of its bytes up to the size in its header, and the three words of the header are fields. An
-- entry is padding, the key, a zero, the length of the key, and the value; the index of the value, in
-- words, stands in the high half of a slot. A byte of the padding that the code does not write is 0.
-- Memory is taken to be always granted; `none` is fuel that ran out.
pub mod Hash
pub mod Contents
pub mod Valid
pub mod Lookup
pub mod Adding
pub mod Interning
pub mod Maps
use polyfill_glibc.Base.{
  ℕ, zero, suc, ◌+◌, ◌-◌, ◌*◌, ◌/◌, ◌%◌, ◌^◌, Bool, true, false, ◌&&◌, Option, none, some, List, [],
  ◌∷◌, ◌++◌, bit_or, u32, u64, ◌>>>◌, ltb, leb, ◌==◌, if◌then◌else◌, get_or, set, length, take,
  drop, replicate,
}
use polyfill_glibc.RobinHood.{Probe, free, hit, rich, probe, reinsert, rehash_table}
use polyfill_glibc.Sht.Hash.{hash_mem}

pub record Sht : Type 0 where
  pub contents : List ℕ
  pub size : ℕ
  pub capacity : ℕ
  pub value_length : ℕ
  pub table : List ℕ
  pub mask : ℕ
  pub count : ℕ

-- `sizeof(sht_contents_meta_t) / sizeof(uint32_t)`
abbrev pub meta_words : ℕ
meta_words = 3

unfoldable pub init : ℕ → Sht
init value_len = record {
  contents = replicate 12 0;
  size = meta_words;
  capacity = 16;
  value_length = u32 (value_len + 3) / 4;
  table = replicate 4 0;
  mask = 3;
  count = 0;
}

unfoldable pub clear : Sht → Sht
clear s = if s.count == 0 then s else record s {
  contents = take 12 s.contents;
  size = meta_words;
  table = replicate (s.mask + 1) 0;
  count = 0;
}

-- A word in memory.
abbrev pub bytes_of_word : ℕ → List ℕ
bytes_of_word w = w % 2 ^ 8 ∷ w / 2 ^ 8 % 2 ^ 8 ∷ w / 2 ^ 16 % 2 ^ 8 ∷ w / 2 ^ 24 % 2 ^ 8 ∷ []

abbrev pub word_at : List ℕ → ℕ → ℕ
word_at bytes i =
    get_or bytes i 0
    + get_or bytes (i + 1) 0 * 2 ^ 8
    + get_or bytes (i + 2) 0 * 2 ^ 16
    + get_or bytes (i + 3) 0 * 2 ^ 24

-- The words of an entry before its value.
abbrev pub entry_words : ℕ → ℕ
entry_words key_len = u32 (key_len + 8) / 4

-- The bytes of a new entry.
abbrev pub entry_bytes : List ℕ → ℕ → List ℕ
entry_bytes key value_length =
    replicate (4 * entry_words (length key) - (length key + 5)) 0
    ++ (key ++ (0 ∷ (bytes_of_word (length key) ++ replicate (4 * value_length) 0)))

-- `add_to_contents`, with the index of the new value
unfoldable pub add_to_contents : Sht → List ℕ → ℕ × Sht
add_to_contents s key =
    let result_u = u32 (s.size + entry_words (length key)) in
    let new_size = u32 (result_u + s.value_length) in
    let doubled = u32 (s.capacity * 2) in
    let new_capacity = if ltb doubled new_size then new_size else doubled in
    (
      result_u,
      record s {
        contents = s.contents ++ entry_bytes key s.value_length;
        size = new_size;
        capacity = if ltb s.capacity new_size then new_capacity else s.capacity;
      },
    )

-- `sht_p_key_length` and `sht_p_key` of the value at word `u`
abbrev pub key_length : List ℕ → ℕ → ℕ
key_length contents u = word_at contents (4 * u - 4)

abbrev pub key_of : List ℕ → ℕ → List ℕ
key_of contents u = take (key_length contents u) (drop (4 * u - 5 - key_length contents u) contents)

-- `!memcmp(...)`
unfoldable pub same_bytes : List ℕ → List ℕ → Bool
same_bytes [] [] = true
same_bytes [] (y ∷ ys) = false
same_bytes (x ∷ xs) [] = false
same_bytes (x ∷ xs) (y ∷ ys) = let rest = same_bytes xs ys in (x == y) && rest

-- `slot >> 32`
abbrev pub value_index : ℕ → ℕ
value_index slot = u32 (slot >>> 32)

-- `ptr[-1] == key_len && !memcmp((char*)(ptr - 1) - 1 - key_len, key, key_len)`
unfoldable pub same_key : List ℕ → List ℕ → ℕ → Bool
unfolding same_bytes
same_key contents key slot =
    (key_length contents (value_index slot) == length key)
    && same_bytes (key_of contents (value_index slot)) key

-- The loop of the lookups and of `sht_intern_u`.
abbrev pub find : Sht → List ℕ → Option Probe
find s key = probe (same_key s.contents key) (length s.table) s.table s.mask (hash_mem key) 0

abbrev pub found_index : Probe → ℕ
found_index (free _) = 0
found_index (hit _ slot) = value_index slot
found_index (rich _ _ _) = 0

-- `sht_lookup_u`, and `sht_lookup_p` as an index, where 0 is NULL
unfoldable pub lookup_u : Sht → List ℕ → Option ℕ
lookup_u s key = elim (find s key) [ none ↦ none | some r ↦ some (found_index r) ]

-- `hash | ((uint64_t)result_u << 32)`
abbrev pub slot_of : ℕ → ℕ → ℕ
slot_of hash u = bit_or hash (u64 (u * 2 ^ 32))

abbrev pub rehashed : Sht → Option (List ℕ) → Option Sht
rehashed s none = none
rehashed s (some t) = some (record s { table = t; mask = u32 (s.mask * 2 + 1) })

-- `if (++sht->count * 4ull >= sht->mask * 3ull) rehash(sht);`
unfoldable pub count_one_more : Sht → Option Sht
count_one_more s =
    let s' : Sht = record s { count = u32 (s.count + 1) } in
    if leb (s.mask * 3) (s'.count * 4) then rehashed s' (rehash_table s'.table s'.mask) else some s'

abbrev pub with_table : Sht → Option (List ℕ) → Option Sht
with_table s none = none
with_table s (some t) = count_one_more (record s { table = t })

-- The table with the slot of a new key where the loop ended.
abbrev pub put : Probe → ℕ → List ℕ → ℕ → Option (List ℕ)
put (free idx) slot table mask = some (set table idx slot)
put (hit _ _) slot table mask = some table
put (rich idx old d2) slot table mask = reinsert (length table) (set table idx slot) mask old d2

abbrev pub returning : ℕ → Option Sht → Option (ℕ × Sht)
returning u none = none
returning u (some s) = some (u, s)

-- A key that the table does not hold.
abbrev pub add_key : Sht → List ℕ → Probe → Option (ℕ × Sht)
add_key s key r =
    let added = add_to_contents s key in
    returning added.0 (with_table added.1 (put r (slot_of (hash_mem key) added.0) s.table s.mask))

abbrev pub intern_at : Sht → List ℕ → Probe → Option (ℕ × Sht)
intern_at s key (free idx) = add_key s key (free idx)
intern_at s key (hit idx slot) = some (value_index slot, s)
intern_at s key (rich idx slot d2) = add_key s key (rich idx slot d2)

-- `sht_intern_u`, and `sht_intern_p` as an index
unfoldable pub intern_u : Sht → List ℕ → Option (ℕ × Sht)
unfolding add_to_contents same_key count_one_more
intern_u s key = elim (find s key) [ none ↦ none | some r ↦ intern_at s key r ]

-- `sht_iter_start_p` and `sht_iter_next_p` as indices, where 0 is NULL
unfoldable pub iter_start : Sht → ℕ
iter_start s = if leb s.size meta_words then 0 else s.size - s.value_length

unfoldable pub iter_next : Sht → ℕ → ℕ
iter_next s u =
    let pu = u - entry_words (key_length s.contents u) in
    if leb pu meta_words then 0 else pu - s.value_length
