-- ===== src/Erw.antt =====
-- src/erw.c: parts of the ELF rewriter that stand alone: the hashes of strings, and the lists of
-- symbol versions from which entries are deleted. A C string is the list of its characters, without
-- the zero behind them. A linked list is the list of its nodes.
pub mod Hashes
pub mod Alloc
pub mod Versions
use polyfill_glibc.Base.{
  ℕ, ◌+◌, ◌*◌, ◌^◌, Bool, true, false, not, List, [], ◌∷◌, bit_and, bit_or, bit_xor, u32, u64,
  ◌>>>◌, ◌==◌, if◌then◌else◌, map,
}

-- The body of the loop of `erw_elf_hash`.
abbrev pub elf_hash_step : ℕ → ℕ → ℕ
elf_hash_step hash c =
    let hash₁ = u32 (u32 (hash * 2 ^ 4) + c) in bit_xor hash₁ (bit_and hash₁ 0xf0000000 >>> 24)

unfoldable pub elf_hash_loop : ℕ → List ℕ → ℕ
elf_hash_loop hash [] = hash
elf_hash_loop hash (c ∷ str) = elf_hash_loop (elf_hash_step hash c) str

-- `erw_elf_hash`
unfoldable pub elf_hash : List ℕ → ℕ
unfolding elf_hash_loop
elf_hash str = bit_and (elf_hash_loop 0 str) 0x0fffffff

unfoldable pub gnu_hash_loop : ℕ → List ℕ → ℕ
gnu_hash_loop hash [] = hash
gnu_hash_loop hash (c ∷ str) = gnu_hash_loop (u32 (u32 (u32 (hash * 2 ^ 5) + hash) + c)) str

-- `erw_gnu_hash`
unfoldable pub gnu_hash : List ℕ → ℕ
unfolding gnu_hash_loop
gnu_hash str = gnu_hash_loop 5381 str

-- The loop of `dynstr_len_hash`, with the length and the hash. The zero counts.
unfoldable pub len_hash_loop : ℕ → ℕ → List ℕ → ℕ
len_hash_loop len hash [] = u64 (u32 (len + 1) + u64 (hash * 2 ^ 32))
len_hash_loop len hash (c ∷ str) = len_hash_loop (u32 (len + 1)) (u32 (u32 (hash * 33) + c)) str

-- `dynstr_len_hash`
unfoldable pub dynstr_len_hash : List ℕ → ℕ
unfolding len_hash_loop
dynstr_len_hash str = len_hash_loop 0 5381 str

-- VER_EDIT_STATE_DIRTY and VER_EDIT_STATE_PENDING_DELETE
abbrev pub dirty : ℕ
dirty = 1

abbrev pub pending_delete : ℕ
pending_delete = 2

pub record VerItem : Type 0 where
  pub vaddr : ℕ
  pub str : ℕ
  pub hash : ℕ
  pub flags : ℕ
  pub index : ℕ
  pub state : ℕ

pub record VerGroup : Type 0 where
  pub items : List VerItem
  pub vaddr : ℕ
  pub name : ℕ
  pub state : ℕ

-- `state & VER_EDIT_STATE_PENDING_DELETE`
abbrev pub is_deleted : ℕ → Bool
is_deleted state = not (bit_and state pending_delete == 0)

-- `state & (VER_EDIT_STATE_DIRTY | VER_EDIT_STATE_PENDING_DELETE)`
abbrev pub is_changed : ℕ → Bool
is_changed state = not (bit_and state 3 == 0)

-- The two levels of `vers_erase_pending_deletes` have the same loops. `state_of` and `set_dirty` read
-- and change the state of a node.
module _ {A : Type 0} (state_of : A → ℕ) (set_dirty : A → A) where
  -- `while (gn && (gn->state & VER_EDIT_STATE_PENDING_DELETE)) gn = gn->next;`
  unfoldable pub skip_deleted : List A → List A
  skip_deleted [] = []
  skip_deleted (x ∷ xs) = elim (is_deleted (state_of x)) [ true ↦ skip_deleted xs | false ↦ x ∷ xs ]

  -- The node `x` and those behind it. With `skipping`, `x` is marked already, and the nodes behind it
  -- are skipped while they are to be deleted.
  unfoldable pub relink : Bool → A → List A → List A
  relink skipping x [] = x ∷ []
  relink true x (next ∷ xs) = elim (is_deleted (state_of next)) [
    | true ↦ relink true x xs
    | false ↦ x ∷ relink false next xs
  ]
  relink false x (next ∷ xs) = elim (is_changed (state_of next)) [
    | false ↦ x ∷ relink false next xs
    | true ↦ elim (is_deleted (state_of next)) [
      | true ↦ relink true (set_dirty x) xs
      | false ↦ set_dirty x ∷ relink false next xs
    ]
  ]

  unfoldable pub relink_all : List A → List A
  unfolding relink
  relink_all [] = []
  relink_all (x ∷ xs) = relink false x xs

  -- Whether the list starts with a changed node.
  abbrev pub starts_changed : List A → Bool
  starts_changed [] = false
  starts_changed (x ∷ xs) = is_changed (state_of x)

abbrev pub item_state : VerItem → ℕ
item_state i = i.state

abbrev pub item_dirty : VerItem → VerItem
item_dirty i = record i { state = bit_or i.state dirty }

abbrev pub group_state : VerGroup → ℕ
group_state g = g.state

abbrev pub group_dirty : VerGroup → VerGroup
group_dirty g = record g { state = bit_or g.state dirty }

-- The part of the loop over groups that edits the items of a group.
abbrev pub erase_items : VerGroup → VerGroup
erase_items g =
    if starts_changed item_state item_dirty g.items
    then record (group_dirty g) {
      items = relink_all item_state item_dirty (skip_deleted item_state item_dirty g.items);
    }
    else record g { items = relink_all item_state item_dirty g.items }

-- `vers_erase_pending_deletes`. A group's items are edited after the group before it has looked at its
-- state, so the groups can be linked first.
unfoldable pub vers_erase_pending_deletes : List VerGroup → List VerGroup
unfolding skip_deleted relink_all
vers_erase_pending_deletes g =
    map erase_items (relink_all group_state group_dirty (skip_deleted group_state group_dirty g))
