-- ===== src/Env/Order/Examples.antt =====
-- Runs of the standard order on small heaps.
use epilog.Prelude.{
  ℕ, ◌+◌, ◌*◌, ◌^◌, ◌≡◌, ◌<◌, refl, true, none, some, List, [], ◌∷◌, length, get_elem?, arith,
}
use epilog.Term.Cell.{Cell, tag, same_tag, is_ref, value, cell, index, ref_cell, str_cell, big_cell}
use epilog.Term.Con
use epilog.Term.IntCell
use epilog.Heap.{
  ok, check_index, get, functor, str_functor, deref_loop, deref_with_cost, deref, arg,
}
use epilog.Env.{Env}
use epilog.Env.Unify.{big_num_bits, big_bytes, big_bytes_loop, big_byte}
use epilog.Env.Equal.Same.{SameTerm, SameBig, same_cell, same_str}
use epilog.Env.Order.{same, order_loop, standard_order, trimmed}
use epilog.Env.Order.Same.{standard_order_same, order_loop-big}

-- No atom of the examples is in the table.
abbrev no_names : ℕ → List ℕ
no_names i = []

-- f(a) at addresses 0 and 2; two big numbers of one byte at 4 and 5.
abbrev cells : ℕ → Cell
cells i =
    let all : List Cell =
      Con.con_index_cell 1 1
      ∷ Con.con_index_cell 2 0
      ∷ Con.con_index_cell 1 1
      ∷ Con.con_index_cell 2 0
      ∷ (7 * 2 ^ 32 + 70)
      ∷ (7 * 2 ^ 32 + 70)
      ∷ [] in
    elim (get_elem? all i) [ none ↦ 0 | some c ↦ c ]

abbrev env : Env
env = record {
  heap = record {
    mem = cells;
    size = 6;
    num_blocks = 1;
    head_size = 6;
    watched = [];
    coin_security_enabled = true;
  };
  stack = [];
  trail = [];
  temp_trail = [];
  register_hb = 0;
}

the_only : (i : ℕ) → i < 1 → i ≡ 0
the_only i l = omega (arith, l)

alike : SameTerm env.heap (str_cell 0) (str_cell 2)
unfolding check_index get functor str_functor deref_loop deref_with_cost deref arg tag same_tag
    is_ref value cell index ref_cell str_cell Con.con_index_cell Con.arity Con.is_direct
alike =
    same_str {f = Con.con_index_cell 1 1} {k = 1} {l = 1} refl refl refl refl refl refl
      (λ i l. rw (the_only i l) refl) (λ i l. rw (the_only i l) refl)
      (λ i l. rw (the_only i l) (same_cell {r = Con.con_index_cell 2 0} {k = 1} {l = 1} refl refl))

standard_order_same_example :
    (fuel : ℕ) × (e1 : Env) × (cost : ℕ) × (standard_order no_names fuel env
        (str_cell 0)
        (str_cell 2)
      ≡ ok (same, e1, cost))
    × (length e1.stack ≡ length env.stack)
    × (e1.heap ≡ env.heap)
standard_order_same_example = standard_order_same no_names env (str_cell 0) (str_cell 2) alike

alike_big : SameBig env.heap (big_cell 4) (big_cell 5)
unfolding big_num_bits big_bytes big_bytes_loop big_byte get check_index value cell index big_cell
    IntCell.num_bits
alike_big = record {
  bits = 8;
  bytes = 7 ∷ [];
  bits_a = refl;
  bits_b = refl;
  bytes_a = refl;
  bytes_b = refl;
}

-- The integers 1 and 2 stand below the two big numbers.
order_loop-big_example :
    (c : ℕ) × (order_loop no_names 2 0 env.heap (big_cell 4 ∷ big_cell 5 ∷ 10 ∷ 18 ∷ []) 0
      ≡ ok (same, trimmed 0 (10 ∷ 18 ∷ []), c))
unfolding check_index get functor str_functor deref_loop deref_with_cost deref arg tag same_tag
    is_ref value cell index ref_cell str_cell Con.con_index_cell Con.arity Con.is_direct big_cell
order_loop-big_example =
    order_loop-big no_names env.heap 0 (big_cell 4) (big_cell 5) (big_cell 4) (big_cell 5) 1 1
      (10 ∷ 18 ∷ []) 0 0 refl refl refl refl refl alike_big (omega arith)
