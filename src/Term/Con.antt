-- ===== src/Term/Con.antt =====
-- con_cell of common/term.hpp and common/term.cpp: constants and functors. A short name is packed
-- into the value (bit 60 set, seven bytes, five bits of arity); a long one is an index into the atom
-- table over 13 bits of arity. A name is the list of its bytes.
pub mod Names
use Prim.Native.Nat.{bit_or}
use epilog.Prelude.{
  ℕ, zero, suc, ◌+◌, ◌-◌, ◌*◌, ◌/◌, ◌%◌, ◌^◌, Bool, ◌&&◌, ◌==◌, leb, if◌then◌else◌, List, [], ◌∷◌,
  map, length,
}
use epilog.Term.Cell.{Cell, con, cell, value, set_value}
use epilog.Term.Bytes.{or_bytes, byte_at}

abbrev pub max_arity : ℕ
max_arity = 8192 - 1

-- con_cell(size_t atom_index, size_t arity)
unfoldable pub con_index_cell : ℕ → ℕ → Cell
unfolding cell
con_index_cell atom_index arity = cell con (bit_or (atom_index * 2 ^ 13) arity)

-- con_cell::use_compacted
unfoldable pub use_compacted : List ℕ → ℕ → Bool
use_compacted name arity = leb (length name) 7 && leb arity 31

-- `(name[i] & 0x7f) | 0x80`
abbrev pub name_char : ℕ → ℕ
name_char ch = ch % 128 + 128

-- con_cell(const std::string &, size_t), which asserts `use_compacted`
unfoldable pub con_name_cell : List ℕ → ℕ → Cell
unfolding cell
con_name_cell name arity = cell con (bit_or (or_bytes (2 ^ 60) 0 (map name_char name)) arity)

-- con_cell::is_direct
unfoldable pub is_direct : Cell → Bool
unfolding value
is_direct c = value c / 2 ^ 60 % 2 == 1

-- con_cell::arity: the mask of an indexed name is `(1 << 12) - 1`.
unfoldable pub arity : Cell → ℕ
unfolding is_direct value
arity c = if is_direct c then value c % 32 else value c % 2 ^ 12

-- con_cell::atom_index
unfoldable pub atom_index : Cell → ℕ
unfolding value
atom_index c = value c / 2 ^ 13

-- con_cell::to_atom: `value() & ~0x1f`
unfoldable pub to_atom : Cell → Cell
unfolding value set_value
to_atom c = set_value c (value c / 32 * 32)

-- con_cell::get_name_byte
unfoldable pub get_name_byte : Cell → ℕ → ℕ
unfolding value
get_name_byte c i = byte_at (value c) i

-- The loop of con_cell::name_length: `rounds` places are left from place i on.
unfoldable pub name_length_loop : Cell → ℕ → ℕ → ℕ
unfolding get_name_byte
name_length_loop c zero i = 7
name_length_loop c (suc rounds) i =
    let rest = name_length_loop c rounds (i + 1) in if get_name_byte c i / 128 == 0 then i else rest

-- con_cell::name_length
unfoldable pub name_length : Cell → ℕ
unfolding name_length_loop
name_length c = name_length_loop c 7 0

-- The loop of con_cell::name over the places from i on.
unfoldable pub name_loop : Cell → ℕ → ℕ → List ℕ
unfolding get_name_byte
name_loop c zero i = []
name_loop c (suc rounds) i = get_name_byte c i % 128 ∷ name_loop c rounds (i + 1)

-- con_cell::name
unfoldable pub name : Cell → List ℕ
unfolding name_length name_loop
name c = name_loop c (name_length c) 0
