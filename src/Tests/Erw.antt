-- ===== src/Tests/Erw.antt =====
-- src/erw.c at concrete inputs.
use polyfill_glibc.Base.{ℕ, ◌+◌, ◌*◌, ◌^◌, ◌≡◌, refl, arith, u32, List, [], ◌∷◌, map}
use polyfill_glibc.Erw.Hashes.{
  system_v_loop, elf_hash-system_v, base_33, gnu_hash-base_33, dynstr_len_hash-gnu_hash,
}
use polyfill_glibc.Erw.Versions.{survivors, with_survivors, vers_erase_pending_deletes-survivors}
use polyfill_glibc.Erw.{
  elf_hash, gnu_hash, dynstr_len_hash, VerItem, VerGroup, vers_erase_pending_deletes, group_state,
  group_dirty,
}

abbrev exit_name : List ℕ
exit_name = b'e' ∷ b'x' ∷ b'i' ∷ b't' ∷ []

exit_elf : elf_hash exit_name ≡ 0x6cf04
unfolding elf_hash
exit_elf = refl

exit_gnu : gnu_hash exit_name ≡ 0x7c967e3f
unfolding gnu_hash
exit_gnu = refl

elf_hash-system_v_example : elf_hash exit_name ≡ system_v_loop 0 exit_name
elf_hash-system_v_example = elf_hash-system_v exit_name

gnu_hash-base_33_example : gnu_hash exit_name ≡ u32 (base_33 5381 exit_name)
gnu_hash-base_33_example = gnu_hash-base_33 exit_name

dynstr_len_hash-gnu_hash_example : dynstr_len_hash exit_name ≡ 5 + gnu_hash exit_name * 2 ^ 32
dynstr_len_hash-gnu_hash_example = dynstr_len_hash-gnu_hash exit_name (omega arith)

abbrev item : ℕ → ℕ → VerItem
item str state = record { vaddr = 0; str = str; hash = 0; flags = 0; index = str; state = state }

abbrev group : List VerItem → ℕ → VerGroup
group items state = record { items = items; vaddr = 0; name = 7; state = state }

-- The second of three items is deleted, and the second of two groups.
abbrev groups : List VerGroup
groups = group (item 1 0 ∷ item 2 2 ∷ item 3 0 ∷ []) 0 ∷ group [] 2 ∷ []

erased : vers_erase_pending_deletes groups ≡ group (item 1 1 ∷ item 3 0 ∷ []) 1 ∷ []
unfolding vers_erase_pending_deletes
erased = refl

vers_erase_pending_deletes-survivors_example :
    vers_erase_pending_deletes groups
    ≡ map with_survivors (survivors group_state group_dirty groups)
vers_erase_pending_deletes-survivors_example = vers_erase_pending_deletes-survivors groups
