-- ===== src/TrieDb/Words.antt =====
-- The 32-bit words of the branches of db/triedb.hpp: one bit for each of the 32 children.
use Prim.Native.Nat.{bit_or, bit_and}
use mathlib.Core.Path.{subst}
use native.Mathlib.Nat.{pow-suc, pow-le-pow_right, div-div-eq-div-mul}
use epilog.Prelude.{
  ℕ, zero, suc, ◌+◌, ◌-◌, ◌*◌, ◌/◌, ◌%◌, ◌^◌, ◌≤◌, ◌<◌, ◌≡◌, refl, sym, ap, ◌∙◌, Bool, true, false,
  ◌&&◌, ◌||◌, not, ltb, ◌==◌, if◌then◌else◌, Bool-cases, inl, inr, ltb→lt, arith,
}
use epilog.Prelude.Bits.{bit_or_step, bit_and_step, pow_pos}

-- `(word >> i) & 1`, compared with 0
unfoldable pub test_bit : ℕ → ℕ → Bool
test_bit word i = word / 2 ^ i % 2 == 1

-- How many of the first n bits are set.
abbrev pub count : (ℕ → Bool) → ℕ → ℕ
count set zero = 0
count set (suc n) = (if set n then 1 else 0) + count set n

-- `std::bitset<MAX_BRANCH>(word).count()`
unfoldable pub popcount : ℕ → ℕ
popcount word = count (test_bit word) 32

-- `word | (1 << i)`
unfoldable pub set_bit : ℕ → ℕ → ℕ
set_bit word i = bit_or word (2 ^ i)

-- `word & ~(1 << i)`, on 32 bits
unfoldable pub clear_bit : ℕ → ℕ → ℕ
clear_bit word i = bit_and word (2 ^ 32 - 1 - 2 ^ i)

-- `word & ((1 << i) - 1)`
unfoldable pub bits_below : ℕ → ℕ → ℕ
bits_below word i = bit_and word (2 ^ i - 1)

pub test_bit-suc : (w i : ℕ) → test_bit w (suc i) ≡ test_bit (w / 2) i
unfolding test_bit
test_bit-suc w i =
    let e : w / 2 ^ suc i ≡ w / 2 / 2 ^ i =
      ap (λ (d : ℕ). w / d) (pow-suc 2 i ∙ mul_two (2 ^ i))
      ∙ sym (div-div-eq-div-mul w 2 (2 ^ i)) in
    ap (λ (d : ℕ). d % 2 == 1) e
  where
    mul_two : (n : ℕ) → n * 2 ≡ 2 * n
    mul_two n = omega arith

test_bit-zero : (w : ℕ) → test_bit w 0 ≡ (w % 2 == 1)
unfolding test_bit
test_bit-zero w = let e : w / 1 ≡ w = omega arith in ap (λ (d : ℕ). d % 2 == 1) e

pub test_bit-bit_or : (i a b : ℕ) → test_bit (bit_or a b) i ≡ (test_bit a i || test_bit b i)
test_bit-bit_or zero a b =
    rw (test_bit-zero (bit_or a b), test_bit-zero a, test_bit-zero b)
      (ground (arith, bit_or_step a b))
test_bit-bit_or (suc i) a b =
    let e : bit_or a b / 2 ≡ bit_or (a / 2) (b / 2) = omega (arith, bit_or_step a b) in
    rw (test_bit-suc (bit_or a b) i, test_bit-suc a i, test_bit-suc b i, e)
      (test_bit-bit_or i (a / 2) (b / 2))

pub test_bit-bit_and : (i a b : ℕ) → test_bit (bit_and a b) i ≡ (test_bit a i && test_bit b i)
test_bit-bit_and zero a b =
    rw (test_bit-zero (bit_and a b), test_bit-zero a, test_bit-zero b)
      (ground (arith, bit_and_step a b))
test_bit-bit_and (suc i) a b =
    let e : bit_and a b / 2 ≡ bit_and (a / 2) (b / 2) = omega (arith, bit_and_step a b) in
    rw (test_bit-suc (bit_and a b) i, test_bit-suc a i, test_bit-suc b i, e)
      (test_bit-bit_and i (a / 2) (b / 2))

pub no_bits : (i : ℕ) → test_bit 0 i ≡ false
no_bits zero = rw (test_bit-zero 0) refl
no_bits (suc i) = rw (test_bit-suc 0 i) (no_bits i)

test_bit-pow : (i j : ℕ) → test_bit (2 ^ i) j ≡ (j == i)
test_bit-pow zero zero = rw (test_bit-zero 1) refl
test_bit-pow zero (suc j) = rw (test_bit-suc 1 j) (no_bits j ∙ ground arith)
test_bit-pow (suc i) zero = rw (test_bit-zero (2 ^ suc i)) (ground (arith, pow-suc 2 i))
test_bit-pow (suc i) (suc j) =
    let e : 2 ^ suc i / 2 ≡ 2 ^ i = omega (arith, pow-suc 2 i) in
    rw (test_bit-suc (2 ^ suc i) j, e) (ground (arith, test_bit-pow i j))

-- The complement of a word of n bits.
test_bit_complement :
    (n w j : ℕ) → w < 2 ^ n → j < n → test_bit (2 ^ n - 1 - w) j ≡ not (test_bit w j)
test_bit_complement zero w j h below = absurd (omega arith)
test_bit_complement (suc n) w zero h below =
    rw (test_bit-zero (2 ^ suc n - 1 - w), test_bit-zero w) (ground (arith, pow-suc 2 n, pow_pos n))
test_bit_complement (suc n) w (suc j) h below =
    let e : (2 ^ suc n - 1 - w) / 2 ≡ 2 ^ n - 1 - w / 2 = omega (arith, pow-suc 2 n) in
    rw (test_bit-suc (2 ^ suc n - 1 - w) j, test_bit-suc w j, e)
      (test_bit_complement n (w / 2) j (omega (arith, pow-suc 2 n)) (omega arith))

test_bit_below : (i j : ℕ) → test_bit (2 ^ i - 1) j ≡ ltb j i
test_bit_below zero j = rw (no_bits j) (ground arith)
test_bit_below (suc i) zero =
    rw (test_bit-zero (2 ^ suc i - 1)) (ground (arith, pow-suc 2 i, pow_pos i))
test_bit_below (suc i) (suc j) =
    let e : (2 ^ suc i - 1) / 2 ≡ 2 ^ i - 1 = omega (arith, pow-suc 2 i, pow_pos i) in
    rw (test_bit-suc (2 ^ suc i - 1) j, e) (ground (arith, test_bit_below i j))

pub test_bit-set_bit :
    (w i j : ℕ) → test_bit (set_bit w i) j ≡ (if j == i then true else test_bit w j)
unfolding set_bit
test_bit-set_bit w i j = test_bit-bit_or j w (2 ^ i) ∙ ground (arith, test_bit-pow i j)

pub test_bit-clear_bit :
    (w i j : ℕ)
    → i < 32
    → j < 32
    → test_bit (clear_bit w i) j ≡ (if j == i then false else test_bit w j)
unfolding clear_bit
test_bit-clear_bit w i j hi hj =
    test_bit-bit_and j w (2 ^ 32 - 1 - 2 ^ i)
    ∙ ground (arith, test_bit_complement 32 (2 ^ i) j (pow_below i hi) hj, test_bit-pow i j)
  where
    pow_below : (i : ℕ) → i < 32 → 2 ^ i < 2 ^ 32
    pow_below i h = omega (
      arith,
      pow-suc 2 i,
      pow_pos i,
      pow-le-pow_right {n = 2} (omega arith) {i = suc i} {j = 32} h,
    )

-- Counting agrees for tests that agree below the bound.
pub count_cong : (f g : ℕ → Bool) (n : ℕ) → ((j : ℕ) → j < n → f j ≡ g j) → count f n ≡ count g n
count_cong f g zero h = refl
count_cong f g (suc n) h =
    rw (h n (omega arith), count_cong f g n (λ j below. h j (omega arith))) refl

count_none : (f : ℕ → Bool) (n : ℕ) → ((j : ℕ) → j < n → f j ≡ false) → count f n ≡ 0
count_none f zero h = refl
count_none f (suc n) h = rw (h n (omega arith), count_none f n (λ j below. h j (omega arith))) refl

count_below : (f : ℕ → Bool) (i n : ℕ) → i ≤ n → count (λ j. f j && ltb j i) n ≡ count f i
count_below f zero zero h = refl
count_below f (suc i) zero h = absurd (omega arith)
count_below f i (suc n) h = elim (Bool-cases (ltb n i)) [
  | inl y ↦
      let top : i ≡ suc n = omega (arith, ltb→lt n i y, h) in
      subst (λ m. count (λ j. f j && ltb j m) (suc n) ≡ count f m) (sym top)
        (count_cong (λ j. f j && ltb j (suc n)) f (suc n) (λ j below. ground arith))
  | inr n' ↦ let low : i ≤ n = ground (arith) in rw n' (ground (arith, count_below f i n low))
]

-- `std::bitset<MAX_BRANCH>(word & ((1 << i) - 1)).count()`
unfoldable pub rank : ℕ → ℕ → ℕ
rank word i = popcount (bits_below word i)

pub rank-count : (w i : ℕ) → i ≤ 32 → rank w i ≡ count (test_bit w) i
unfolding rank popcount bits_below
rank-count w i h =
    count_cong (test_bit (bit_and w (2 ^ i - 1))) (λ j. test_bit w j && ltb j i) 32
      (λ j below.
        test_bit-bit_and j w (2 ^ i - 1)
        ∙ ap (λ (b : Bool). test_bit w j && b) (test_bit_below i j))
    ∙ count_below (test_bit w) i 32 h
