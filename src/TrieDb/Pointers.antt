-- ===== src/TrieDb/Pointers.antt =====
-- What the pointers of a branch are after set_child_pointer and set_empty of db/triedb.hpp.
use epilog.Prelude.{
  ℕ, zero, suc, ◌+◌, ◌-◌, ◌≤◌, ◌<◌, ◌≡◌, ◌≢◌, sym, ap, ◌∙◌, ◌⊎◌, true, false, ◌&&◌, ltb, leb,
  if◌then◌else◌, Bool-cases, inl, inr, arith,
}
use epilog.TrieDb.Words.{test_bit, popcount, set_bit, clear_bit, rank}
use epilog.TrieDb.Ranks.{
  rank_lt, rank_le, rank_lt-popcount, rank-set_bit, rank-set_bit_again, rank-clear_bit,
}
use epilog.TrieDb.Nodes.{
  Branch, is_empty, num_children, get_child_pointer, put, widened, set_child_pointer, shift_down,
  set_empty,
}

-- The loop moves each entry of its range down by one.
shift_down_lem :
    (rounds i : ℕ) (array : ℕ → ℕ) (j : ℕ)
    → shift_down rounds i array j
      ≡ (if leb i j && ltb j (i + rounds) then array (suc j) else array j)
unfolding shift_down
shift_down_lem zero i array j = ground arith
shift_down_lem (suc rounds) i array j =
    shift_down_lem rounds (suc i) (put array i (array (suc i))) j ∙ ground arith

widened_before : (array : ℕ → ℕ) (c n p r : ℕ) → r < c → widened array c n p r ≡ array r
unfolding widened
widened_before array c n p r h = ground arith

widened_after :
    (array : ℕ → ℕ) (c n p r : ℕ) → c ≤ r → r < n → widened array c n p (suc r) ≡ array r
unfolding widened
widened_after array c n p r h k = let e : suc r - 1 ≡ r = omega arith in rw (e) (ground arith)

-- What set_empty leaves of an entry before the place, and of one after it.
closed_before :
    (array : ℕ → ℕ) (c n r : ℕ)
    → r < c
    → c < n
    → put (shift_down (n - c) c array) (n - 1) 0 r ≡ array r
closed_before array c n r h k = ground (arith, shift_down_lem (n - c) c array r)

closed_after :
    (array : ℕ → ℕ) (c n r : ℕ)
    → c ≤ r
    → suc r < n
    → put (shift_down (n - c) c array) (n - 1) 0 r ≡ array (suc r)
closed_after array c n r h k = ground (arith, shift_down_lem (n - c) c array r)

module _ (i p : ℕ) (b : Branch) (low : i < 32) where
  -- The pointer just written is read back.
  pub get_child_pointer-set_child_pointer_self : get_child_pointer (set_child_pointer i p b) i ≡ p
  unfolding get_child_pointer set_child_pointer is_empty widened
  get_child_pointer-set_child_pointer_self = elim (Bool-cases (test_bit b.mask i)) [
    | inl y ↦ rw (rank-set_bit_again b.mask i i y (omega arith), y) (ground arith)
    | inr n ↦ rw (rank-set_bit b.mask i i n (omega arith), n) (ground arith)
  ]

  -- The other children keep their pointers, whether or not a place was made.
  pub get_child_pointer-set_child_pointer :
      (j : ℕ)
      → j < 32
      → j ≢ i
      → test_bit b.mask j ≡ true
      → get_child_pointer (set_child_pointer i p b) j ≡ get_child_pointer b j
  unfolding get_child_pointer set_child_pointer is_empty num_children widened
  get_child_pointer-set_child_pointer j hj other there = elim (Bool-cases (test_bit b.mask i)) [
    | inl y ↦
        rw (rank-set_bit_again b.mask i j y (omega arith), y)
          (ground (arith, rank_lt b.mask i j y, rank_lt b.mask j i there))
    | inr n ↦ rw n (opened n (Bool-cases (ltb i j)))
  ]
    where
      opened :
          test_bit b.mask i ≡ false
          → (ltb i j ≡ true) ⊎ (ltb i j ≡ false)
          → widened b.ptr (rank b.mask i) (popcount b.mask) p (rank (set_bit b.mask i) j)
            ≡ b.ptr (rank b.mask j)
      opened free (inl above) =
          rw (rank-set_bit b.mask i j free (omega arith), above)
            (widened_after b.ptr (rank b.mask i) (popcount b.mask) p (rank b.mask j)
              (rank_le b.mask i j (ground arith) (omega arith))
              (rank_lt-popcount b.mask j there hj))
      opened free (inr below) =
          rw (rank-set_bit b.mask i j free (omega arith), below)
            (widened_before b.ptr (rank b.mask i) (popcount b.mask) p (rank b.mask j)
              (rank_lt b.mask j i there (ground arith) (omega arith)))

module _ (i : ℕ) (b : Branch) (low : i < 32) where
  -- When a child that is there is dropped, the other children keep their pointers.
  pub get_child_pointer-set_empty :
      (j : ℕ)
      → j < 32
      → j ≢ i
      → test_bit b.mask i ≡ true
      → test_bit b.mask j ≡ true
      → get_child_pointer (set_empty i b) j ≡ get_child_pointer b j
  unfolding get_child_pointer set_empty num_children
  get_child_pointer-set_empty j hj other here there = closed (Bool-cases (ltb i j))
    where
      moved :
          rank b.mask j
          ≡ (if ltb i j then suc (rank (clear_bit b.mask i) j) else rank (clear_bit b.mask i) j)
      moved = rank-clear_bit b.mask i j low here (omega arith)

      inside : rank b.mask j < popcount b.mask
      inside = rank_lt-popcount b.mask j there hj

      closed :
          (ltb i j ≡ true) ⊎ (ltb i j ≡ false)
          → put
              (shift_down (popcount b.mask - rank b.mask i) (rank b.mask i) b.ptr)
              (popcount b.mask - 1)
              0
              (rank (clear_bit b.mask i) j)
            ≡ b.ptr (rank b.mask j)
      closed (inl above) =
          let e : rank b.mask j ≡ suc (rank (clear_bit b.mask i) j) = ground (arith, moved) in
          let gap : rank b.mask i < rank b.mask j =
            rank_lt b.mask i j here (ground arith) (omega arith) in
          closed_after b.ptr (rank b.mask i) (popcount b.mask) (rank (clear_bit b.mask i) j)
            (omega (arith, e, gap)) (omega (arith, e, inside))
          ∙ ap b.ptr (sym e)
      closed (inr below) =
          let e : rank b.mask j ≡ rank (clear_bit b.mask i) j = ground (arith, moved) in
          let gap : rank b.mask j < rank b.mask i =
            rank_lt b.mask j i there (ground arith) (omega arith) in
          closed_before b.ptr (rank b.mask i) (popcount b.mask) (rank (clear_bit b.mask i) j)
            (omega (arith, e, gap)) (rank_lt-popcount b.mask i here low)
          ∙ ap b.ptr (sym e)
