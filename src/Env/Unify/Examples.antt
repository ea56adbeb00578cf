-- ===== src/Env/Unify/Examples.antt =====
-- Runs of the unification on small heaps.
use epilog.Prelude.{ℕ, ◌≡◌, refl, Bool, true, false, none, some, List, [], ◌∷◌, get_elem?, arith}
use epilog.Term.Cell.{
  Cell, tag, same_tag, is_ref, value, cell, set_value, index, ref_cell, rfw_cell, str_cell,
  fwd_cell, watched,
}
use epilog.Term.Con
use epilog.Heap.{
  ok, throw, check_index, get, heap_set, heap_watch, watch_cell, add_watched, mem_nat, deref_loop,
  deref_with_cost, deref, arg,
}
use epilog.Env.{
  Env, push, trim_stack, trim_trail, trail_binding, push_trail, set_register_hb, save_state,
  restore_state, bind, unwind, unwind_trail, trail_get, tidy_loop, tidy_trail,
}
use epilog.Env.Unify.{
  unify, unify_helper, unify_loop, unify_round, unify_resolved, unify_cells, unify_same_tag,
  unify_str, unify_functors, merge_functors, push_args, skip_forward, bind_refs, pop_pair, restore,
  restore_cells_after_unify, finish_unify,
}
use epilog.Env.Unify.Backtrack.{restore_state-unify}
use epilog.Env.Unify.Outcome.{
  IsGivenBack, IsBoundBy, unify_failed-IsGivenBack, unify_succeeded-IsBoundBy,
}

-- A stand-in for import_bits, which no example calls.
abbrev no_import : List ℕ → ℕ
no_import bytes = 0

-- f(X, a) at address 0, and f(b, c) or f(b, a) at address 3, where f is the atom of index 1.
abbrev cells : ℕ → ℕ → Cell
cells last i =
    let all : List Cell =
      Con.con_index_cell 1 2
      ∷ ref_cell 1
      ∷ Con.con_index_cell 2 0
      ∷ Con.con_index_cell 1 2
      ∷ Con.con_index_cell 3 0
      ∷ Con.con_index_cell last 0
      ∷ [] in
    elim (get_elem? all i) [ none ↦ 0 | some c ↦ c ]

abbrev env : ℕ → Env
env last = record {
  heap = record {
    mem = cells last;
    size = 6;
    num_blocks = 1;
    head_size = 6;
    watched = [];
    coin_security_enabled = true;
  };
  stack = ref_cell 1 ∷ [];
  trail = 0 ∷ [];
  temp_trail = [];
  register_hb = 2;
}

abbrev run : ℕ → Bool × Env × ℕ
run last = elim (unify no_import 9 (env last) (str_cell 0) (str_cell 3)) [
  | ok r ↦ r
  | throw x ↦ (false, env last, 0)
]

fails : (run 4).0 ≡ false
unfolding unify unify_helper unify_loop unify_round unify_resolved unify_cells unify_same_tag
    unify_str unify_functors merge_functors push_args skip_forward bind_refs pop_pair restore
    restore_cells_after_unify finish_unify push trim_stack trim_trail trail_binding push_trail
    set_register_hb bind unwind unwind_trail trail_get tidy_loop tidy_trail check_index get heap_set
    heap_watch watch_cell add_watched mem_nat deref_loop deref_with_cost deref arg tag same_tag
    is_ref value cell set_value index ref_cell rfw_cell str_cell fwd_cell watched Con.con_index_cell
    Con.arity Con.is_direct
fails = refl

unify_failed-IsGivenBack_example : IsGivenBack (env 4) (run 4).1
unfolding unify unify_helper unify_loop unify_round unify_resolved unify_cells unify_same_tag
    unify_str unify_functors merge_functors push_args skip_forward bind_refs pop_pair restore
    restore_cells_after_unify finish_unify push trim_stack trim_trail trail_binding push_trail
    set_register_hb bind unwind unwind_trail trail_get tidy_loop tidy_trail check_index get heap_set
    heap_watch watch_cell add_watched mem_nat deref_loop deref_with_cost deref arg tag same_tag
    is_ref value cell set_value index ref_cell rfw_cell str_cell fwd_cell watched Con.con_index_cell
    Con.arity Con.is_direct
unify_failed-IsGivenBack_example =
    unify_failed-IsGivenBack no_import 9 (env 4) (run 4).1 (str_cell 0) (str_cell 3) (run 4).2 refl
      (omega arith) refl

unify_succeeded-IsBoundBy_example : IsBoundBy (env 2) (run 2).1
unfolding unify unify_helper unify_loop unify_round unify_resolved unify_cells unify_same_tag
    unify_str unify_functors merge_functors push_args skip_forward bind_refs pop_pair restore
    restore_cells_after_unify finish_unify push trim_stack trim_trail trail_binding push_trail
    set_register_hb bind unwind unwind_trail trail_get tidy_loop tidy_trail check_index get heap_set
    heap_watch watch_cell add_watched mem_nat deref_loop deref_with_cost deref arg tag same_tag
    is_ref value cell set_value index ref_cell rfw_cell str_cell fwd_cell watched Con.con_index_cell
    Con.arity Con.is_direct
unify_succeeded-IsBoundBy_example =
    unify_succeeded-IsBoundBy no_import 9 (env 2) (run 2).1 (str_cell 0) (str_cell 3) (run 2).2 refl
      (omega arith) refl

-- The same with a choice point at the top of the heap.
abbrev choice : Env
choice = record (env 2) { register_hb = 6 }

abbrev bound : Bool × Env × ℕ
bound = elim (unify no_import 9 choice (str_cell 0) (str_cell 3)) [
  | ok r ↦ r
  | throw x ↦ (false, choice, 0)
]

restore_state-unify_example : IsGivenBack choice (restore_state bound.1 (save_state choice))
unfolding unify unify_helper unify_loop unify_round unify_resolved unify_cells unify_same_tag
    unify_str unify_functors merge_functors push_args skip_forward bind_refs pop_pair restore
    restore_cells_after_unify finish_unify push trim_stack trim_trail trail_binding push_trail
    set_register_hb bind unwind unwind_trail trail_get tidy_loop tidy_trail check_index get heap_set
    heap_watch watch_cell add_watched mem_nat deref_loop deref_with_cost deref arg tag same_tag
    is_ref value cell set_value index ref_cell rfw_cell str_cell fwd_cell watched Con.con_index_cell
    Con.arity Con.is_direct
restore_state-unify_example =
    restore_state-unify no_import 9 choice bound.1 (str_cell 0) (str_cell 3) bound.2 refl
      (omega arith) refl refl
