-- ===== src/Prelude/Bits.antt =====
-- The bitwise AND and OR of words: the law for the lowest digit, and the OR of words whose bits do not meet.
use Prim.Native.Nat.{min, max, bit_or, bit_and, digits, bitwise, bit_or-bitwise, bit_and-bitwise}
use native.Mathlib.Nat.{pow-suc, mul_assoc}
use mathlib.Core.Path.{ap₂}
use epilog.Prelude.{
  ℕ, zero, suc, ◌+◌, ◌*◌, ◌/◌, ◌%◌, ◌^◌, ◌≤◌, ◌<◌, ◌≡◌, refl, sym, ap, ◌∙◌, Bool, true, ◌&&◌, ◌==◌,
  ==_iff, arith,
}

pub pow_pos : (n : ℕ) → 0 < 2 ^ n
pow_pos zero = omega arith
pow_pos (suc n) = omega (arith, pow-suc 2 n, pow_pos n)

module _ (z : ℕ → ℕ) (f : ℕ → ℕ → ℕ) where
  no_digits : (k b : ℕ) → digits z f k 0 b ≡ z b
  no_digits zero b = refl
  no_digits (suc k) b = refl

  -- How many digits are still to go does not matter once there are enough.
  enough_digits : (k l a b : ℕ) → a ≤ k → a ≤ l → digits z f k a b ≡ digits z f l a b
  enough_digits k l zero b below above = no_digits k b ∙ sym (no_digits l b)
  enough_digits zero l (suc a) b below above = absurd (omega arith)
  enough_digits (suc k) zero (suc a) b below above = absurd (omega arith)
  enough_digits (suc k) (suc l) (suc a) b below above =
      ap (λ (d : ℕ). d * 2 + f (suc a % 2) (b % 2))
        (enough_digits k l (suc a / 2) (b / 2) (omega arith) (omega arith))

  -- An operation on digits is one on the lowest digits and one on the rest.
  pub bitwise_step :
      (a b : ℕ)
      → bitwise z f (suc a) b ≡ bitwise z f (suc a / 2) (b / 2) * 2 + f (suc a % 2) (b % 2)
  bitwise_step a b =
      ap (λ (d : ℕ). d * 2 + f (suc a % 2) (b % 2))
        (enough_digits a (suc a / 2) (suc a / 2) (b / 2) (omega arith) (omega arith))

zero-bit_or : (b : ℕ) → bit_or 0 b ≡ b
zero-bit_or b = bit_or-bitwise 0 b

-- The law for the lowest digit.
pub bit_or_step : (a b : ℕ) → bit_or a b ≡ bit_or (a / 2) (b / 2) * 2 + max (a % 2) (b % 2)
bit_or_step zero b = omega (arith, zero-bit_or b, zero-bit_or (b / 2))
bit_or_step (suc a) b =
    bit_or-bitwise (suc a) b
    ∙ bitwise_step (λ c. c) max a b
    ∙ ap (λ (d : ℕ). d * 2 + max (suc a % 2) (b % 2)) (sym (bit_or-bitwise (suc a / 2) (b / 2)))

pub bit_and_step : (a b : ℕ) → bit_and a b ≡ bit_and (a / 2) (b / 2) * 2 + min (a % 2) (b % 2)
bit_and_step zero b = omega (arith, bit_and-bitwise 0 b, bit_and-bitwise 0 (b / 2))
bit_and_step (suc a) b =
    bit_and-bitwise (suc a) b
    ∙ bitwise_step (λ c. 0) min a b
    ∙ ap (λ (d : ℕ). d * 2 + min (suc a % 2) (b % 2)) (sym (bit_and-bitwise (suc a / 2) (b / 2)))

bit_or-zero_fuel : (n a : ℕ) → a ≤ n → bit_or a 0 ≡ a
bit_or-zero_fuel n zero h = zero-bit_or 0
bit_or-zero_fuel zero (suc a) h = absurd (omega arith)
bit_or-zero_fuel (suc n) (suc a) h =
    omega (arith, bit_or_step (suc a) 0, bit_or-zero_fuel n (suc a / 2) (omega arith))

-- A word below 2 ^ k joins a multiple of 2 ^ k without a carry.
pub bit_or_disjoint : (k a x b : ℕ) → x ≡ a * 2 ^ k → b < 2 ^ k → bit_or x b ≡ x + b
bit_or_disjoint zero a x b e h =
    let z : b ≡ 0 = omega arith in rw z (omega (arith, bit_or-zero_fuel x x (omega arith)))
bit_or_disjoint (suc k) a x b e h =
    let e' : x ≡ a * 2 ^ k * 2 = e ∙ simp (pow-suc, mul_assoc) in
    let h' : b < 2 ^ k * 2 = rw (← pow-suc) h in
    omega (arith, bit_or_step x b, bit_or_disjoint k a (x / 2) (b / 2) (omega arith) (omega arith))

-- The OR of two multiples of 2 ^ k.
pub bit_or_shift : (k a b : ℕ) → bit_or (a * 2 ^ k) (b * 2 ^ k) ≡ bit_or a b * 2 ^ k
bit_or_shift zero a b =
    let e : (n : ℕ) → n * 1 ≡ n = λ n. omega arith in rw (e a, e b, e (bit_or a b))
bit_or_shift (suc k) a b =
    let twice : (n : ℕ) → n * 2 ^ suc k ≡ n * 2 ^ k * 2 = λ n. simp (pow-suc, mul_assoc) in
    let half : (n : ℕ) → n * 2 / 2 ≡ n = λ n. omega arith in
    rw (twice a, twice b, twice (bit_or a b))
      (omega (
        arith,
        bit_or_step (a * 2 ^ k * 2) (b * 2 ^ k * 2),
        ap₂ bit_or (half (a * 2 ^ k)) (half (b * 2 ^ k)),
        bit_or_shift k a b,
      ))

-- Over a small range, every value is checked by evaluation.
unfoldable pub all_below : ℕ → (ℕ → Bool) → Bool
all_below zero test = true
all_below (suc top) test = all_below top test && test top

pub all_below_sound :
    (test : ℕ → Bool) (top v : ℕ) → v < top → all_below top test ≡ true → test v ≡ true
unfolding all_below
all_below_sound test zero v below all = absurd (omega arith)
all_below_sound test (suc top) v below all = ground (arith, all_below_sound test top v)

top_bit_table : all_below 128 (λ x. bit_or 128 (x + 128) == x + 128) ≡ true
unfolding all_below
top_bit_table = refl

-- A byte whose top bit is set has it already.
pub bit_or_top : (x : ℕ) → x < 128 → bit_or 128 (x + 128) ≡ x + 128
bit_or_top x h =
    (==_iff _ _).0 (all_below_sound (λ y. bit_or 128 (y + 128) == y + 128) 128 x h top_bit_table)
