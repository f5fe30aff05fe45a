-- ===== src/EhFrame/Pointers.antt =====
-- `read_ptr`: a pointer in one of the encodings of an .eh_frame section.
use polyfill_glibc.Base.{
  ℕ, ◌+◌, ◌-◌, ◌*◌, ◌^◌, List, bit_and, u32, u64, sub64, ◌>>>◌, leb, ltb, ◌&&◌, drop, ◌==◌,
  if◌then◌else◌, length,
}
use polyfill_glibc.EhFrame.Reading.{
  Read, ok, fault, fatal, ◌>>=◌, skip, read_uleb, read_sleb, read_int, is_64,
}

-- `read_ptr_ctx_t`. Of `erw` there are the bytes of `erw->f` and the address `limit` of their end. The
-- address of a pointer is `limit` less the length of the list.
pub record ReadPtrCtx : Type 0 where
  pub file_kind : ℕ
  pub ptr_encoding : ℕ
  pub ref_p : ℕ
  pub ref_v : ℕ
  pub textrel : ℕ
  pub datarel : ℕ
  pub funcrel : ℕ
  pub f : List ℕ
  pub limit : ℕ

abbrev pub address : ReadPtrCtx → List ℕ → ℕ
address ctx p = sub64 ctx.limit (length p)

-- The bytes from an address on, for a pointer that is read.
abbrev pub bytes_at : ReadPtrCtx → ℕ → Read (List ℕ)
bytes_at ctx a =
    let left = ctx.limit - a in
    if leb a ctx.limit && leb left (length ctx.f)
    then ok (drop (length ctx.f - left) ctx.f)
    else fault

-- The first `switch`, but for its case 0xff.
unfoldable pub align_ptr : ReadPtrCtx → List ℕ → Read (List ℕ)
align_ptr ctx p =
    if ctx.ptr_encoding == 0x50
    then skip (bit_and (sub64 0 (address ctx p)) (if is_64 ctx.file_kind then 7 else 3)) p
    else ok p

-- `(uint64_t)(int64_t)s` of an integer of so many bytes
abbrev pub sign_extend : ℕ → ℕ → ℕ
sign_extend n u = if ltb u (2 ^ (8 * n - 1)) then u else u + 2 ^ 64 - 2 ^ (8 * n)

abbrev pub read_signed : ℕ → ℕ → List ℕ → Read (ℕ × List ℕ)
read_signed file_kind n p = read_int file_kind n p >>= λ r. ok (sign_extend n r.0, r.1)

-- The second `switch`.
unfoldable pub read_encoded : ReadPtrCtx → List ℕ → Read (ℕ × List ℕ)
unfolding read_int read_uleb read_sleb
read_encoded ctx p =
    let e = bit_and ctx.ptr_encoding 0xf in
    let kind = ctx.file_kind in
    if e == 0
    then (if is_64 kind then read_int kind 8 p else read_int kind 4 p)
    else if e == 1
    then read_uleb p
    else if e == 2
    then read_int kind 2 p
    else if e == 3
    then read_int kind 4 p
    else if e == 4
    then read_int kind 8 p
    else if e == 9
    then read_sleb p
    else if e == 10
    then read_signed kind 2 p
    else if e == 11
    then read_signed kind 4 p
    else if e == 12
    then read_int kind 8 p
    else ok (0, p)

-- What the third `switch` adds.
unfoldable pub relative_to : ReadPtrCtx → List ℕ → ℕ
relative_to ctx p₀ =
    let e = ctx.ptr_encoding >>> 4 in
    if e == 1
    then u64 (ctx.ref_v + sub64 (address ctx p₀) ctx.ref_p)
    else if e == 2
    then ctx.textrel
    else if e == 3
    then ctx.datarel
    else if e == 4
    then ctx.funcrel
    else 0

-- `if (result && *result)` and its block. Every caller passes a `result`.
unfoldable pub relocate : ReadPtrCtx → List ℕ → ℕ → Read ℕ
unfolding relative_to
relocate ctx p₀ result =
    if result == 0
    then ok 0
    else (let sum = u64 (result + relative_to ctx p₀) in
        let result' = if is_64 ctx.file_kind then sum else u32 sum in
        if bit_and ctx.ptr_encoding 0x80 == 0 then ok result' else fatal)

-- `read_ptr`
unfoldable pub read_ptr : ReadPtrCtx → List ℕ → Read (ℕ × List ℕ)
unfolding align_ptr read_encoded relocate
read_ptr ctx p =
    if ctx.ptr_encoding == 0xff
    then ok (0, p)
    else (align_ptr ctx p >>= λ p₁.
        read_encoded ctx p₁ >>= λ r. relocate ctx p r.0 >>= λ result. ok (result, r.1))
