-- ===== src/TrieDb/Ranks.antt =====
-- How many set bits lie below a place: where a branch of db/triedb.hpp keeps the pointer of a child.
use epilog.Prelude.{
  ℕ, zero, suc, ◌≤◌, ◌<◌, ◌≡◌, sym, ap, ◌∙◌, Bool, true, false, ltb, ◌==◌, if◌then◌else◌,
  Bool-cases, inl, inr, arith,
}
use epilog.TrieDb.Words.{
  test_bit, count, popcount, set_bit, clear_bit, rank, rank-count, count_cong, test_bit-set_bit,
  test_bit-clear_bit,
}

count_mono : (f : ℕ → Bool) (i j : ℕ) → i ≤ j → count f i ≤ count f j
count_mono f i zero h = ground arith
count_mono f i (suc j) h = elim (Bool-cases (i == suc j)) [
  | inl y ↦ ground arith
  | inr n ↦ ground (arith, count_mono f i j (ground arith))
]

-- A set bit counts below every place above it.
count_lt : (f : ℕ → Bool) (i j : ℕ) → f i ≡ true → i < j → count f i < count f j
count_lt f i j set h = ground (arith, count_mono f (suc i) j h)

count_set :
    (f g : ℕ → Bool) (i n : ℕ)
    → f i ≡ false
    → ((j : ℕ) → j < n → g j ≡ (if j == i then true else f j))
    → count g n ≡ (if ltb i n then suc (count f n) else count f n)
count_set f g i zero free h = ground arith
count_set f g i (suc n) free h =
    ground (arith, h n (omega arith), count_set f g i n free (λ j b. h j (omega arith)))

module _ (w i : ℕ) where
  pub rank_lt : (j : ℕ) → test_bit w i ≡ true → i < j → j ≤ 32 → rank w i < rank w j
  rank_lt j set h top =
      omega
        (arith, rank-count w i (omega arith), rank-count w j top, count_lt (test_bit w) i j set h)

  pub rank_le : (j : ℕ) → i ≤ j → j ≤ 32 → rank w i ≤ rank w j
  rank_le j h top =
      omega (arith, rank-count w i (omega arith), rank-count w j top, count_mono (test_bit w) i j h)

  pub rank_lt-popcount : test_bit w i ≡ true → i < 32 → rank w i < popcount w
  unfolding popcount
  rank_lt-popcount set h =
      omega (arith, rank-count w i (omega arith), count_lt (test_bit w) i 32 set h)

  pub rank_le-popcount : i < 32 → rank w i ≤ popcount w
  unfolding popcount
  rank_le-popcount h =
      omega (arith, rank-count w i (omega arith), count_mono (test_bit w) i 32 (omega arith))

  pub rank-set_bit :
      (j : ℕ)
      → test_bit w i ≡ false
      → j ≤ 32
      → rank (set_bit w i) j ≡ (if ltb i j then suc (rank w j) else rank w j)
  rank-set_bit j free top =
      rank-count (set_bit w i) j top
      ∙ count_set (test_bit w) (test_bit (set_bit w i)) i j free (λ k b. test_bit-set_bit w i k)
      ∙ ap (λ (c : ℕ). if ltb i j then suc c else c) (sym (rank-count w j top))

  pub rank-set_bit_again : (j : ℕ) → test_bit w i ≡ true → j ≤ 32 → rank (set_bit w i) j ≡ rank w j
  rank-set_bit_again j set top =
      rank-count (set_bit w i) j top
      ∙ count_cong (test_bit (set_bit w i)) (test_bit w) j
          (λ k b. test_bit-set_bit w i k ∙ ground arith)
      ∙ sym (rank-count w j top)

  pub rank-clear_bit :
      (j : ℕ)
      → i < 32
      → test_bit w i ≡ true
      → j ≤ 32
      → rank w j ≡ (if ltb i j then suc (rank (clear_bit w i) j) else rank (clear_bit w i) j)
  rank-clear_bit j h set top =
      rank-count w j top
      ∙ count_set (test_bit (clear_bit w i)) (test_bit w) i j
          (test_bit-clear_bit w i i h h ∙ ground arith)
          (λ k b. ground (arith, test_bit-clear_bit w i k h (omega arith)))
      ∙ ap (λ (c : ℕ). if ltb i j then suc c else c) (sym (rank-count (clear_bit w i) j top))
