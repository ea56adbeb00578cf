-- ===== src/Term/IntCell/Range.antt =====
-- The arithmetic of int_cell on 61-bit values, and the size of a big number.
use epilog.Prelude.{
  ℕ, ◌+◌, ◌-◌, ◌*◌, ◌^◌, ◌≤◌, ◌<◌, ◌≡◌, true, false, if◌then◌else◌, ◌∙◌, Bool-cases, inl, inr,
  arith,
}
use epilog.Prelude.Int.{ℤ, pos, negsuc, ltb_ℤ, ◌+ℤ◌, ◌-ℤ◌, ◌≤ℤ◌}
use epilog.Term.Cell.{Cell, dat, cell, value, value_signed}
use epilog.Term.Cell.Laws.{cell_parts}
use epilog.Term.IntCell.{
  int_cell, min_value, max_value, saturate, add, is_negative, negate, abs, dat_cell, num_bits,
  num_cells,
}

-- The integers that 61 bits hold.
pub record InRange (v : ℤ) : Type 0 where
  pub above : min_value ≤ℤ v
  pub below : v ≤ℤ max_value

-- An integer in range comes back from its cell.
pub value-int_cell : (v : ℤ) → InRange v → value_signed (int_cell v) ≡ v
unfolding value_signed int_cell
value-int_cell (pos n) h = ground arith
value-int_cell (negsuc n) h = ground arith

-- Whatever the word, the integer of a cell is in range.
pub value_signed-InRange : (c : Cell) → c < 2 ^ 64 → InRange (value_signed c)
unfolding value_signed
value_signed-InRange c h = ground arith

pub saturate-InRange : (v : ℤ) → InRange (saturate v)
unfolding saturate
saturate-InRange (pos n) = ground arith
saturate-InRange (negsuc n) = ground arith

neg-InRange :
    (v : ℤ)
    → InRange v
    → saturate (pos 0 -ℤ v) ≡ (if ltb_ℤ min_value v then pos 0 -ℤ v else max_value)
unfolding saturate ◌-ℤ◌
neg-InRange (pos n) h = ground arith
neg-InRange (negsuc n) h = ground arith

-- Of a 64-bit word, the negation of the integer is exact, but for the least integer, whose negation is
-- the greatest.
negate_lem :
    (c : Cell)
    → c < 2 ^ 64
    → value_signed (negate c)
      ≡ (if ltb_ℤ min_value (value_signed c) then pos 0 -ℤ value_signed c else max_value)
unfolding negate
negate_lem c h =
    value-int_cell (saturate (pos 0 -ℤ value_signed c)) (saturate-InRange (pos 0 -ℤ value_signed c))
    ∙ neg-InRange (value_signed c) (value_signed-InRange c h)

pub add_exact :
    (a b : Cell)
    → InRange (value_signed a +ℤ value_signed b)
    → value_signed (add a b) ≡ value_signed a +ℤ value_signed b
unfolding add
add_exact a b h = value-int_cell (value_signed a +ℤ value_signed b) h

-- The integer of 61 bits that has the same low bits as v, for a v that is off by one turn at most.
pub wrapped : ℤ → ℤ
wrapped v =
    if ltb_ℤ v min_value
    then v +ℤ pos (2 ^ 61)
    else if ltb_ℤ max_value v
    then v -ℤ pos (2 ^ 61)
    else v

wrap_once :
    (v : ℤ)
    → negsuc (2 ^ 61 - 1) ≤ℤ v
    → v ≤ℤ pos (2 ^ 61 - 1)
    → value_signed (int_cell v) ≡ wrapped v
unfolding value_signed int_cell wrapped ◌+ℤ◌ ◌-ℤ◌
wrap_once (pos n) lo hi = ground arith
wrap_once (negsuc n) lo hi = ground arith

sum_bounds :
    (v w : ℤ)
    → InRange v
    → InRange w
    → (negsuc (2 ^ 61 - 1) ≤ℤ v +ℤ w) × (v +ℤ w ≤ℤ pos (2 ^ 61 - 1))
unfolding ◌+ℤ◌
sum_bounds v w h k = ground arith

-- The sum of the integers of two 64-bit words wraps around at 61 bits.
pub add_lem :
    (a b : Cell)
    → a < 2 ^ 64
    → b < 2 ^ 64
    → value_signed (add a b) ≡ wrapped (value_signed a +ℤ value_signed b)
unfolding add
add_lem a b ha hb =
    let (lo, hi) =
      sum_bounds (value_signed a) (value_signed b) (value_signed-InRange a ha)
        (value_signed-InRange b hb) in
    wrap_once (value_signed a +ℤ value_signed b) lo hi

nonneg :
    (v : ℤ) → InRange v → ltb_ℤ v (pos 0) ≡ true → ltb_ℤ (saturate (pos 0 -ℤ v)) (pos 0) ≡ false
unfolding saturate ◌-ℤ◌
nonneg (pos n) h k = ground arith
nonneg (negsuc n) h k = ground arith

-- The absolute value of a 64-bit word's integer is never negative.
abs_nonneg : (c : Cell) → c < 2 ^ 64 → is_negative (abs c) ≡ false
unfolding abs is_negative
abs_nonneg c h = elim (Bool-cases (ltb_ℤ (value_signed c) (pos 0))) [
  | inl neg ↦
      let v : ℤ = saturate (pos 0 -ℤ value_signed c) in
      rw (neg, value-int_cell v (saturate-InRange (pos 0 -ℤ value_signed c)))
        (nonneg (value_signed c) (value_signed-InRange c h) neg)
  | inr other ↦ rw other other
]

-- The header of a big number keeps its number of bits, if it is below 2^29, and the cells counted for it
-- hold the header's half cell and the bits, with less than a cell to spare.
num_cells_bounds :
    (n : ℕ)
    → n < 2 ^ 29
    → (num_bits (dat_cell n) ≡ n)
      × (n + 32 ≤ num_cells (dat_cell n) * 64)
      × (num_cells (dat_cell n) * 64 < n + 32 + 64)
unfolding num_bits num_cells dat_cell
num_cells_bounds n h =
    let v : value (cell dat n) ≡ n = (cell_parts dat n (omega arith)).1 in
    rw v (omega arith, omega arith, omega arith)
