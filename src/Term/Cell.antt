-- ===== src/Term/Cell.antt =====
-- The 64-bit words of common/term.hpp: three tag bits below a value of 61 bits. A cell is its raw
-- value; `raw & 7` is `% 8` and `raw >> 3` is `/ 8`. The fields that `|` joins have no bit in common,
-- so it is `+`.
pub mod Laws
use Prim.Native.Nat.{bit_and}
use epilog.Prelude.{ℕ, ◌+◌, ◌-◌, ◌*◌, ◌/◌, ◌%◌, ◌^◌, Bool, ◌||◌, ◌==◌, ltb, if◌then◌else◌}
use epilog.Prelude.Int.{ℤ, pos, negsuc}

-- tag_t::kind_t
pub data Tag : Type 0 where
  ref rfw int big con str dat fwd : Tag

-- The number of each kind.
abbrev pub tag_code : Tag → ℕ
tag_code ref = 0
tag_code rfw = 1
tag_code int = 2
tag_code big = 3
tag_code con = 4
tag_code str = 5
tag_code dat = 6
tag_code fwd = 7

-- `static_cast<tag_t::kind_t>(raw_value() & 0x7)`
abbrev pub tag_of : ℕ → Tag
tag_of k =
    if k == 0
    then ref
    else if k == 1
    then rfw
    else if k == 2
    then int
    else if k == 3
    then big
    else if k == 4
    then con
    else if k == 5
    then str
    else if k == 6
    then dat
    else fwd

abbrev pub Cell : Type 0
Cell = ℕ

-- cell::tag
unfoldable pub tag : Cell → Tag
tag c = tag_of (c % 8)

-- tag_t::operator ==
unfoldable pub same_tag : Tag → Tag → Bool
same_tag a b = tag_code a == tag_code b

-- tag_t::is_ref
unfoldable pub is_ref : Tag → Bool
is_ref t = bit_and (tag_code t) 6 == 0

-- cell::value
unfoldable pub value : Cell → ℕ
value c = c / 8

-- cell(tag_t, value_t): the shift drops what leaves the word.
unfoldable pub cell : Tag → ℕ → Cell
cell t v = (v * 8) % 2 ^ 64 + tag_code t

-- cell::set_value
unfoldable pub set_value : Cell → ℕ → Cell
set_value c v = (v * 8) % 2 ^ 64 + c % 8

-- cell::value_signed: the arithmetic shift keeps the sign of the 64-bit word.
unfoldable pub value_signed : Cell → ℤ
value_signed c = if ltb c (2 ^ 63) then pos (c / 8) else negsuc ((2 ^ 64 - 1 - c) / 8)

-- ptr_cell::index, and ptr_cell::set_index
unfoldable pub index : Cell → ℕ
unfolding value
index c = value c

unfoldable pub set_index : Cell → ℕ → Cell
unfolding set_value
set_index c i = set_value c i

-- ptr_cell::is_ptr_cell
unfoldable pub is_ptr_cell : Cell → Bool
unfolding tag same_tag
is_ptr_cell c =
    same_tag (tag c) ref || same_tag (tag c) rfw || same_tag (tag c) str || same_tag (tag c) big

-- ref_cell(size_t), ref_cell(size_t, bool), str_cell, big_cell and fwd_cell
unfoldable pub ref_cell : ℕ → Cell
unfolding cell
ref_cell i = cell ref i

unfoldable pub rfw_cell : ℕ → Cell
unfolding cell
rfw_cell i = cell rfw i

unfoldable pub str_cell : ℕ → Cell
unfolding cell
str_cell i = cell str i

unfoldable pub big_cell : ℕ → Cell
unfolding cell
big_cell i = cell big i

unfoldable pub fwd_cell : ℕ → Cell
unfolding cell
fwd_cell i = cell fwd i

-- ref_cell::watch, unwatch and watched
unfoldable pub watch : Cell → Cell
unfolding rfw_cell index
watch c = rfw_cell (index c)

unfoldable pub unwatch : Cell → Cell
unfolding ref_cell index
unwatch c = ref_cell (index c)

unfoldable pub watched : Cell → Bool
unfolding tag same_tag
watched c = same_tag (tag c) rfw
