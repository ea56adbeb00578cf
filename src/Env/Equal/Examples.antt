-- ===== src/Env/Equal/Examples.antt =====
-- Runs of the comparison on a small heap.
use epilog.Prelude.{ℕ, ◌≡◌, refl, true, none, some, List, [], ◌∷◌, get_elem?}
use epilog.Term.Cell.{Cell, tag, same_tag, is_ref, value, cell, index, ref_cell, str_cell}
use epilog.Term.Con
use epilog.Heap.{
  ok, check_index, get, functor, str_functor, deref_loop, deref_with_cost, deref, arg,
}
use epilog.Env.{Env}
use epilog.Env.Unify.{pop_pair}
use epilog.Env.Equal.{equal, equal_loop, equal_round, equal_resolved, equal_str, push_pairs}
use epilog.Env.Equal.Same.{SameTerm}
use epilog.Env.Equal.Decides.{equal_sound}
use epilog.Env.Equal.Finds.{equal_complete}

-- f(a, X) at addresses 0 and 3, where the second X refers to the first.
abbrev cells : ℕ → Cell
cells i =
    let all : List Cell =
      Con.con_index_cell 1 2
      ∷ Con.con_index_cell 2 0
      ∷ ref_cell 2
      ∷ Con.con_index_cell 1 2
      ∷ Con.con_index_cell 2 0
      ∷ ref_cell 2
      ∷ [] in
    elim (get_elem? all i) [ none ↦ 0 | some c ↦ c ]

abbrev env : Env
env = record {
  heap = record {
    mem = cells;
    size = 6;
    num_blocks = 1;
    head_size = 6;
    watched = [];
    coin_security_enabled = true;
  };
  stack = ref_cell 2 ∷ [];
  trail = [];
  temp_trail = [];
  register_hb = 2;
}

equal_sound_example : SameTerm env.heap (str_cell 0) (str_cell 3) × (env ≡ env)
unfolding equal equal_loop equal_round equal_resolved equal_str push_pairs pop_pair check_index get
    functor str_functor deref_loop deref_with_cost deref arg tag same_tag is_ref value cell index
    ref_cell str_cell Con.con_index_cell Con.arity Con.is_direct
equal_sound_example = equal_sound 9 env env (str_cell 0) (str_cell 3) 6 refl

equal_complete_example :
    (fuel : ℕ) × (cost : ℕ) × (equal fuel env (str_cell 0) (str_cell 3) ≡ ok (true, env, cost))
unfolding equal equal_loop equal_round equal_resolved equal_str push_pairs pop_pair check_index get
    functor str_functor deref_loop deref_with_cost deref arg tag same_tag is_ref value cell index
    ref_cell str_cell Con.con_index_cell Con.arity Con.is_direct
equal_complete_example =
    equal_complete env (str_cell 0) (str_cell 3)
      (equal_sound 9 env env (str_cell 0) (str_cell 3) 6 refl).0
