-- ===== src/Term/Examples.antt =====
-- The theorems on cells at concrete words.
use epilog.Prelude.{
  ℕ, ◌+◌, ◌-◌, ◌*◌, ◌%◌, ◌^◌, ◌≡◌, true, false, not, List, [], ◌∷◌, take, drop, some, arith,
}
use Prim.Native.Nat.{min}
use epilog.Prelude.Int.{◌+ℤ◌}
use epilog.Term.Cell.{Cell, tag, value, cell, value_signed}
use epilog.Term.Cell.Laws.{cell-tag-value}
use epilog.Term.Con.{con_index_cell, con_name_cell, is_direct, arity, atom_index, name}
use epilog.Term.Con.Names.{con_index_cell_lem, name-con_name_cell}
use epilog.Term.IntCell.{add, is_char_chunk, as_char_chunk, is_last_char_chunk, encode_str}
use epilog.Term.IntCell.Range.{wrapped, add_lem}
use epilog.Term.IntCell.Chunks.{encode_str_lem}

-- The name "foo".
abbrev foo : List ℕ
foo = 102 ∷ 111 ∷ 111 ∷ []

name-con_name_cell_example :
    (name (con_name_cell foo 2) ≡ foo)
    × (arity (con_name_cell foo 2) ≡ 2)
    × (is_direct (con_name_cell foo 2) ≡ true)
name-con_name_cell_example =
    name-con_name_cell 102 (111 ∷ 111 ∷ []) 2 (omega arith)
      (omega arith, (omega arith, (omega arith, tt))) (omega arith)

-- An arity that needs the thirteenth bit.
con_index_cell_lem_example :
    (is_direct (con_index_cell 7 4097) ≡ false)
    × (atom_index (con_index_cell 7 4097) ≡ 7)
    × (arity (con_index_cell 7 4097) ≡ 4097 % 4096)
con_index_cell_lem_example = con_index_cell_lem 7 4097 (omega arith) (omega arith)

-- The greatest integer, and the cell of 1.
abbrev greatest : ℕ
greatest = (2 ^ 60 - 1) * 8 + 2

abbrev one : ℕ
one = 10

add_lem_example :
    value_signed (add greatest one) ≡ wrapped (value_signed greatest +ℤ value_signed one)
add_lem_example = add_lem greatest one (omega arith) (omega arith)

-- The least integer.
abbrev least : ℕ
least = 2 ^ 63 + 2

encode_str_lem_example :
    (c : Cell) × (encode_str foo 1 8 true ≡ some c)
    × (is_char_chunk c ≡ true)
    × (as_char_chunk c ≡ take (min 8 3 - 1) (drop 1 foo))
    × (is_last_char_chunk c ≡ not true)
encode_str_lem_example =
    encode_str_lem foo 1 8 true
      (omega arith, omega arith, (omega arith, omega arith, (omega arith, omega arith, tt)))
      (omega arith) (omega arith)

cell-tag-value_example : cell (tag 101) (value 101) ≡ 101
cell-tag-value_example = cell-tag-value 101 (omega arith)
