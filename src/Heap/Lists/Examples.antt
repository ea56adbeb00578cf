-- ===== src/Heap/Lists/Examples.antt =====
-- A list of one element.
use epilog.Prelude.{◌≡◌, refl, true, none, some, [], ◌∷◌, get_elem?, arith}
use epilog.Term.Bytes.{or_bytes}
use epilog.Term.Cell.{tag, same_tag, is_ref, value, cell, set_value, index, str_cell}
use epilog.Term.Con.{con_name_cell}
use epilog.Heap.{
  Heap, ok, check_index, get, deref, deref_loop, functor, str_functor, arg, empty_list, dotted_pair,
}
use epilog.Heap.Lists.{check_functor, is_list, list_length}
use epilog.Heap.Lists.Proper.{IsProper, ends, goes_on, list_length-IsProper}

-- '.'(1, []) at address 0.
abbrev heap : Heap
heap = record {
  mem = λ i. elim (get_elem? (dotted_pair ∷ 10 ∷ empty_list ∷ []) i) [ none ↦ 0 | some c ↦ c ];
  size = 3;
  num_blocks = 1;
  head_size = 3;
  watched = [];
  coin_security_enabled = true;
}

one_element : IsProper heap (str_cell 0) 1
unfolding check_functor check_index get deref deref_loop functor str_functor arg tag same_tag is_ref
    value cell set_value index str_cell con_name_cell or_bytes
one_element = goes_on refl refl refl refl refl ends

list_length-IsProper_example :
    (is_list 5 heap (str_cell 0) ≡ ok true) × (list_length 5 heap (str_cell 0) ≡ ok 1)
unfolding deref deref_loop tag is_ref str_cell cell
list_length-IsProper_example =
    list_length-IsProper heap 5 (str_cell 0) (str_cell 0) 1 refl one_element (omega arith)
