-- ===== src/RobinHood/Order.antt =====
-- The robin-hood order: a slot is at most one place further from its home than its predecessor.
use polyfill_glibc.Base.{
  ℕ, zero, suc, ◌+◌, ◌≤◌, ◌<◌, List, ◌≡◌, ◌≢◌, ap, arith, ◌==◌, if◌then◌else◌, length, get_or, set,
  get_or-set_self, get_or-set_ne, ◌∙◌, sym,
}
use native.Mathlib.Decide.{ℕ_discrete}
use polyfill_glibc.RobinHood.Index.{home, wrap, gap, wrap-lt, gap-wrap}

-- One more than the distance of the slot at `i` from its home, zero for an empty slot.
pub rank : ℕ → List ℕ → ℕ → ℕ
rank n t i = let s = get_or t i 0 in if s == 0 then 0 else suc (gap n i (home n s))

abbrev pub IsOrdered : ℕ → List ℕ → Type 0
IsOrdered n t = (i : ℕ) → i < n → rank n t (wrap n i 1) ≤ rank n t i + 1

-- What stands before the place `d` after `c` is at least that far from its own home.
abbrev pub Behind : ℕ → List ℕ → ℕ → ℕ → Type 0
Behind n t c zero = Unit {0}
Behind n t c (suc d) = suc d ≤ rank n t (wrap n c d)

pub rank_empty : (n : ℕ) (t : List ℕ) (i : ℕ) → get_or t i 0 ≡ 0 → rank n t i ≡ 0
unfolding rank
rank_empty n t i e = ground arith

pub rank_occupied :
    (n : ℕ) (t : List ℕ) (i : ℕ)
    → get_or t i 0 ≢ 0
    → rank n t i ≡ suc (gap n i (home n (get_or t i 0)))
unfolding rank
rank_occupied n t i e = ground arith

rank-set_self :
    (n : ℕ) (t : List ℕ) (i s : ℕ)
    → i < length t
    → s ≢ 0
    → rank n (set t i s) i ≡ suc (gap n i (home n s))
unfolding rank
rank-set_self n t i s h e = rw (get_or-set_self t i s 0 h) (ground arith)

pub rank-set_ne : (n : ℕ) (t : List ℕ) (i j s : ℕ) → i ≢ j → rank n (set t i s) j ≡ rank n t j
unfolding rank
rank-set_ne n t i j s h = rw (get_or-set_ne t i j s 0 h)

pub wrap_one-ne : (n k : ℕ) → 2 ≤ n → k < n → k ≢ wrap n k 1
wrap_one-ne n k two lt = ground arith

pub wrap_back :
    (n i c d : ℕ) → i < n → c < n → suc d < n → wrap n i 1 ≡ wrap n c (suc d) → i ≡ wrap n c d
wrap_back n i c d p q r e = ground arith

pub wrap-suc : (n c d : ℕ) → c < n → suc d < n → wrap n c (suc d) ≡ wrap n (wrap n c d) 1
wrap-suc n c d p q = ground arith

module _ (n : ℕ) (t : List ℕ) (two : 2 ≤ n) where
  before :
      (c d i : ℕ)
      → c < n
      → d < n
      → i < n
      → wrap n i 1 ≡ wrap n c d
      → Behind n t c d
      → d ≤ rank n t i
  before c zero i p q h f b = omega arith
  before c (suc d) i p q h f b = rw (wrap_back n i c d h p q f) b

  -- A slot written at `k` keeps the order if it is as far from home as its neighbours ask.
  write-IsOrdered :
      (k s d : ℕ)
      → k < n
      → rank n (set t k s) k ≡ suc d
      → rank n t k ≤ d
      → ((i : ℕ) → i < n → wrap n i 1 ≡ k → d ≤ rank n t i)
      → IsOrdered n t
      → IsOrdered n (set t k s)
  write-IsOrdered k s d lt here poor pre o i h = elim (ℕ_discrete k i) [
    | yes same ↦ rw (← same) (
        rw (here, rank-set_ne n t k (wrap n k 1) s (wrap_one-ne n k two lt))
          (omega (arith, o k lt)))
    | no other ↦ elim (ℕ_discrete k (wrap n i 1)) [
      | yes next ↦
          rw (← next, here, rank-set_ne n t k i s other) (omega (arith, pre i h (sym next)))
      | no away ↦ rw (rank-set_ne n t k (wrap n i 1) s away, rank-set_ne n t k i s other) (o i h)
    ]
  ]

  module _ (len : length t ≡ n) (s d : ℕ) (e : s ≢ 0) (c-lt : home n s < n) (lt : d < n) where
    abbrev idx : ℕ
    idx = wrap n (home n s) d

    idx-lt : idx < n
    idx-lt = wrap-lt n (home n s) d c-lt lt

    pub rank_placed : rank n (set t idx s) idx ≡ suc d
    rank_placed =
        rank-set_self n t idx s (rw len idx-lt) e ∙ ap suc (gap-wrap n (home n s) d c-lt lt)

    -- A slot placed where the slot found is empty or nearer to its home keeps the order.
    pub set-IsOrdered :
        IsOrdered n t → rank n t idx ≤ d → Behind n t (home n s) d → IsOrdered n (set t idx s)
    set-IsOrdered o r b =
        write-IsOrdered idx s d idx-lt rank_placed r (λ i h f. before (home n s) d i c-lt lt h f b)
          o

-- A slot written over one with the same home keeps the order.
pub overwrite-IsOrdered :
    (n : ℕ) (t : List ℕ) (k s : ℕ)
    → k < length t
    → get_or t k 0 ≢ 0
    → s ≢ 0
    → home n s ≡ home n (get_or t k 0)
    → IsOrdered n t
    → IsOrdered n (set t k s)
overwrite-IsOrdered n t k s lt old new same o i h =
    omega (arith, o i h, keeps (wrap n i 1), keeps i)
  where
    keeps : (j : ℕ) → rank n (set t k s) j ≡ rank n t j
    keeps j = elim (ℕ_discrete k j) [
      | no other ↦ rank-set_ne n t k j s other
      | yes here ↦ rw (← here) (
          rank-set_self n t k s lt new
          ∙ ap (λ (c : ℕ). suc (gap n k c)) same
          ∙ sym (rank_occupied n t k old))
    ]
