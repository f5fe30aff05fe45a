-- ===== src/Lib.antt =====
-- polyfill-glibc rewrites ELF files so that programs linked against a newer glibc run with an older
-- one. This library models the data structures and helpers that the rewriter stands on, and proves
-- that they do what the rewriter relies on.
--
-- Parts of the program. src/main.c reads a file into the ELF rewriter of src/erw.c, which edits
-- program headers, dynamic strings, symbols and versions, and finds file contents by the map from
-- addresses to offsets of src/v2f.c. Which symbols a relocation looks up is decided by
-- src/reloc_kind.c. The polyfillers and the renamer change symbol versions, which they compare with
-- src/common.c. src/tokenise.c splits the repository's own text files.
-- Numbers are associated by the hash table of src/uuht.c, strings by that of src/sht.c, which has the
-- same slots and the same displacement. src/print_eh_frame.c prints the unwind tables of a file, the
-- instructions of which the assemblers write.
--
-- Files of the library.
-- Base: the names and lemmas all share. A w-bit integer is a native number, and each operation on
--   it takes its remainder by 2 ^ w (u32, u64, sub32, sub64).
-- RobinHood: the slots, `reinsert`, the probing loop and the rehash loop of src/uuht.c and
--   src/sht.c. A table is the list of its slots.
-- Uuht: src/uuht.c. `init`, `clear`, `hash`, `unhash`, `rehash`, `contains`, `lookup_or`,
--   `lookup_or_set`, `set` and `set_if_absent` are the functions uuht_*. The loop that five of them
--   repeat is `find`; `found_slot`, `found_value`, `insert_at` and `set_at` are what each of them
--   does where the loop ends.
-- V2f: src/v2f.c. `init`, `set_range`, `lookup` and `lookup_f_range` are the functions v2f_map_*.
--   The pieces of `set_range` follow its comments: `ensure_capacity`, `place` (with `walk_down`,
--   `start_itr`, `merge_left`, `end_tail`, `merge_right`), `make_space` and `insert_record`.
-- RelocKind: src/reloc_kind.c. `classifier_for_machine` is reloc_kind_classifier_for_machine,
--   applied to a relocation type.
-- Common: src/common.c. `version_str_less` and `has_prefix`.
-- Arena: src/arena.c. `arena_alloc` and `arena_reset`, over the lists of regions.
-- Sht: src/sht.c. `init`, `clear`, `intern_u`, `lookup_u`, `iter_start` and `iter_next` are the
--   functions sht_*, and `hash_mem` is sht_hash_mem. The buffer is the list of its bytes. `find` is
--   the loop of the lookups and of sht_intern_u, and `intern_at` what the latter does where it ends.
-- Tokenise: src/tokenise.c. `run` is tokeniser_run, `round` one pass through its switch, and Scan
--   holds the loops inside. Lines has `offset_to_line` and tokeniser_next_line_start, and Decode the
--   decoders of numbers and literals. The table of identifiers is a parameter.
--   `none` is also a read or a write outside the buffer.
-- Renamer: src/renamer.c. `parse_name` is bespoke_registry_parse_name, over the table of strings.
-- Erw: src/erw.c. `elf_hash`, `gnu_hash`, `dynstr_len_hash` and `vers_erase_pending_deletes` are the
--   functions of those names, without the prefix erw_. Erw/Alloc: `find_alloc_bucket` and `erw_alloc`,
--   whose call on a bucket is `alloc_from`, and `grant_f`, what erwNNE_(retry) in src/erw_nne.h gives to
--   a bucket of file offsets.
-- EhFrame: src/print_eh_frame.c, over the map of V2f. `read_uleb`, `read_sleb`, `read_ptr`,
--   `print_dw_bytecode`, `print_fde` and `print_eh_frame_hdr_at` are the functions of those names. A
--   pointer into the file is the list of the bytes from there on. `fault` is a read outside the file,
--   `bad_shift` a shift by 64 or more, which C does not define, `fatal` is FATAL, and `stuck` is fuel
--   that ran out. Pointers that the code compares are compared by their addresses, from that of the
--   file's end, and a pointer that may be compared without being read is its address alone.
-- Aarch64: src/aarch64/assembler.c. `write_cfi_op_uleb` and `emit_cfi_advance` are the functions of
--   those names, and return what they write. Immediates has `k5` and `k12`, on the 64 bits of a signed
--   number.
-- Tests: runs at concrete inputs.
--
-- Loops. A loop without a structural measure carries fuel, and its result is an option; `none` is
-- fuel that ran out. The probing loops have as many rounds as the table has slots, which is enough
-- since a valid table has an empty slot. The loop of v2f_map_lookup has as many rounds as the array
-- has cells. version_str_less has one round more than both strings have characters, since each
-- round consumes a character of each.
--
-- arena_alloc has two rounds more than there are available regions: one for the current region and
-- one for a new one, which always has room.
--
-- tokeniser_run has a round more than its buffer has bytes, since each round consumes a byte or is the
-- last. A loop over the rest of the text has that text as its measure, and the loop over a literal in
-- tokeniser_decode_str_lit a round for each byte of the text.
--
-- print_dw_bytecode has a round more than there are bytes left in the file, since each round consumes a
-- byte.
--
-- Memory is taken to be granted whenever the code asks for it, as the code takes it to be. A
-- pointer into an array is an index.
--
-- Not modelled: input, output and the freeing of memory; the growing of the tokeniser's arrays; the
-- rest of src/renamer.c, src/erw.c and src/erw_nne.h; src/parse_renames.c, src/main.c, the backend
-- under src/x86_64, and the rest of that under src/aarch64.
pub mod Base
pub mod RobinHood
pub mod Uuht
pub mod V2f
pub mod RelocKind
pub mod Common
pub mod Arena
pub mod Sht
pub mod Tokenise
pub mod Renamer
pub mod Erw
pub mod EhFrame
pub mod Aarch64
pub mod Tests
