-- ===== src/Term/IntCell.antt =====
-- int_cell and dat_cell of common/term.hpp and common/term.cpp: integers of 61 bits, chunks of a
-- string in an integer, and the header of a big number.
pub mod Range
pub mod Chunks
use Prim.Native.Nat.{bit_or, min}
use epilog.Prelude.{
  ℕ, zero, suc, ◌+◌, ◌-◌, ◌*◌, ◌/◌, ◌%◌, ◌^◌, Bool, true, false, ◌&&◌, ◌||◌, not, ◌==◌, leb, ltb,
  if◌then◌else◌, List, [], ◌∷◌, length, take, drop, Option, none, some,
}
use epilog.Prelude.Int.{ℤ, pos, negsuc, ltb_ℤ, ◌+ℤ◌, ◌-ℤ◌}
use epilog.Term.Cell.{Cell, Tag, int, dat, tag, cell, value, value_signed, set_value}
use epilog.Term.Bytes.{or_bytes, byte_at}

-- The conversion of an int64_t to the value_t that `cell(tag_t, value_t)` takes.
unfoldable pub word_of : ℤ → ℕ
word_of (pos n) = n % 2 ^ 64
word_of (negsuc n) = 2 ^ 64 - 1 - n % 2 ^ 64

-- int_cell(int64_t)
unfoldable pub int_cell : ℤ → Cell
unfolding word_of cell
int_cell v = cell int (word_of v)

-- int_cell::min and int_cell::max: `numeric_limits<int64_t>::min() >> 3` and `max() >> 3`
abbrev pub min_value : ℤ
min_value = negsuc (2 ^ 60 - 1)

abbrev pub max_value : ℤ
max_value = pos (2 ^ 60 - 1)

-- int_cell::saturate(int64_t)
unfoldable pub saturate : ℤ → ℤ
saturate v = if ltb_ℤ v min_value then min_value else if ltb_ℤ max_value v then max_value else v

-- int_cell::saturate(uint64_t)
unfoldable pub saturate_unsigned : ℕ → ℕ
saturate_unsigned v = if ltb (2 ^ 60 - 1) v then 2 ^ 60 - 1 else v

-- int_cell::operator + and operator -, by way of bin_op. Two values of 61 bits have their sum and
-- their difference in an int64_t.
unfoldable pub add : Cell → Cell → Cell
unfolding int_cell value_signed ◌+ℤ◌
add a b = int_cell (value_signed a +ℤ value_signed b)

unfoldable pub sub : Cell → Cell → Cell
unfolding int_cell value_signed ◌-ℤ◌
sub a b = int_cell (value_signed a -ℤ value_signed b)

-- int_cell::operator ++ and operator --
unfoldable pub increment : Cell → Cell
unfolding set_value word_of value_signed ◌+ℤ◌
increment c = set_value c (word_of (value_signed c +ℤ pos 1))

unfoldable pub decrement : Cell → Cell
unfolding set_value word_of value_signed ◌-ℤ◌
decrement c = set_value c (word_of (value_signed c -ℤ pos 1))

-- int_cell::is_negative, is_zero and sign
unfoldable pub is_negative : Cell → Bool
unfolding value_signed
is_negative c = ltb_ℤ (value_signed c) (pos 0)

unfoldable pub sign : Cell → Cell
unfolding is_negative int_cell
sign c = if is_negative c then int_cell (negsuc 0) else int_cell (pos 1)

-- int_cell::negate
unfoldable pub negate : Cell → Cell
unfolding int_cell saturate value_signed ◌-ℤ◌
negate c = int_cell (saturate (pos 0 -ℤ value_signed c))

-- int_cell::abs
unfoldable pub abs : Cell → Cell
unfolding is_negative int_cell saturate value_signed ◌-ℤ◌
abs c = if is_negative c then int_cell (saturate (pos 0 -ℤ value_signed c)) else c

-- What encode_str builds behind its assertion. The bytes are those of the string; the low bits of the
-- int64_t are those of the cell's value.
unfoldable pub chunk_cell : List ℕ → ℕ → ℕ → Bool → Cell
unfolding cell
chunk_cell s from to has_more =
    let end = min to (length s) in
    let v = or_bytes 0 0 (take (end - from) (drop from s)) in
    cell int (if has_more then bit_or v 1 else v)

-- int_cell::encode_str(str, from, to, has_more); nothing stands for the failed assertion that
-- `to - from <= 7`, on the 64 bits of a size_t.
unfoldable pub encode_str : List ℕ → ℕ → ℕ → Bool → Option Cell
unfolding chunk_cell
encode_str s from to has_more =
    if leb ((to + 2 ^ 64 - from) % 2 ^ 64) 7 then some (chunk_cell s from to has_more) else none

-- int_cell::is_valid_char
unfoldable pub is_valid_char : ℕ → Bool
is_valid_char ch = leb 1 ch && leb ch 127

-- The loop of int_cell::is_char_chunk over the places from i on.
unfoldable pub char_chunk_loop : Cell → ℕ → ℕ → Bool
unfolding value is_valid_char
char_chunk_loop c zero i = true
char_chunk_loop c (suc rounds) i =
    let ch = byte_at (value c) i in
    let rest = char_chunk_loop c rounds (i + 1) in
    if ch == 0 then true else if not (is_valid_char ch) then false else rest

-- int_cell::is_char_chunk
unfoldable pub is_char_chunk : Cell → Bool
unfolding value
is_char_chunk c =
    let low = value c % 32 in
    if not (low == 0) && not (low == 1) then false else char_chunk_loop c 7 0

-- int_cell::is_last_char_chunk
unfoldable pub is_last_char_chunk : Cell → Bool
unfolding value
is_last_char_chunk c = value c % 32 == 0

-- The loop of int_cell::as_char_chunk over the places from i on.
unfoldable pub as_char_chunk_loop : Cell → ℕ → ℕ → List ℕ
unfolding value
as_char_chunk_loop c zero i = []
as_char_chunk_loop c (suc rounds) i =
    let ch = byte_at (value c) i in
    let rest = as_char_chunk_loop c rounds (i + 1) in if ch == 0 then [] else ch ∷ rest

-- int_cell::as_char_chunk
unfoldable pub as_char_chunk : Cell → List ℕ
as_char_chunk c = as_char_chunk_loop c 7 0

-- dat_cell(size_t): the header of a big number.
unfoldable pub dat_cell : ℕ → Cell
unfolding cell
dat_cell num_bits = cell dat num_bits

-- dat_cell::num_bits: the mask of NUM_SIZE_BITS = 29 bits.
unfoldable pub num_bits : Cell → ℕ
unfolding value
num_bits c = value c % 2 ^ 29

-- dat_cell::num_half_cells and num_cells
unfoldable pub num_half_cells : Cell → ℕ
unfolding num_bits
num_half_cells c = 1 + (num_bits c + 32 - 1) / 32

unfoldable pub num_cells : Cell → ℕ
unfolding num_half_cells
num_cells c = (num_half_cells c + 1) / 2
