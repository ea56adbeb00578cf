-- ===== src/Env/Hash/Examples.antt =====
-- Runs of the hash and the cost on a small heap.
use epilog.Prelude.{
  ℕ, ◌+◌, ◌%◌, ◌^◌, zero, suc, ◌<◌, ◌≡◌, refl, ap, none, some, List, [], ◌∷◌, get_elem?, arith,
  true,
}
use epilog.Term.Cell.{
  Cell, Tag, con, str, tag, same_tag, is_ref, value, cell, index, ref_cell, str_cell,
}
use epilog.Term.Con
use epilog.Heap.{
  ok, check_index, get, functor, str_functor, deref_loop, deref_with_cost, deref, arg,
}
use epilog.Env.{Env}
use epilog.Env.Equal.Same.{arg_of}
use epilog.Env.Hash.{hash, cost}
use epilog.Env.Unify.{pop_pair}
use epilog.Env.Equal.{equal, equal_loop, equal_round, equal_resolved, equal_str, push_pairs}
use epilog.Env.Hash.Equal.{left-SameTree, hash-equal}
use epilog.Env.Hash.Costs.{TreeCost, leaf_cost, str_cost, sum_from, cost_lem}
use epilog.Env.Hash.Same.{SameTree, tree_leaf, tree_str, hash_same}

-- g(a) at addresses 0 and 2.
abbrev cells : ℕ → Cell
cells i =
    let all : List Cell =
      Con.con_index_cell 1 1
      ∷ Con.con_index_cell 2 0
      ∷ Con.con_index_cell 1 1
      ∷ Con.con_index_cell 2 0
      ∷ [] in
    elim (get_elem? all i) [ none ↦ 0 | some c ↦ c ]

abbrev env : Env
env = record {
  heap = record {
    mem = cells;
    size = 4;
    num_blocks = 1;
    head_size = 4;
    watched = [];
    coin_security_enabled = true;
  };
  stack = ref_cell 1 ∷ [];
  trail = [];
  temp_trail = [];
  register_hb = 2;
}

abbrev code_of : Tag → ℕ
code_of con = 0
code_of str = 1
code_of _ = 2

a-SameTree : SameTree env.heap (Con.con_index_cell 2 0) (Con.con_index_cell 2 0)
unfolding deref_loop deref_with_cost tag same_tag is_ref Con.con_index_cell value cell
a-SameTree =
    tree_leaf {k = 1} {l = 1} refl refl (λ e. absurd (omega (arith, ap code_of e)))
      (λ e. absurd (omega (arith, ap code_of e)))

first_arg : (P : ℕ → Type 0) (i : ℕ) → i < Con.arity (Con.con_index_cell 1 1) → P 0 → P i
unfolding check_index get functor str_functor deref_loop deref_with_cost deref arg tag same_tag
    is_ref value cell index ref_cell str_cell Con.con_index_cell Con.arity Con.is_direct
first_arg P zero l p = p
first_arg P (suc i) l p = absurd (omega (arith, l))

g-SameTree : SameTree env.heap (str_cell 0) (str_cell 2)
unfolding check_index get functor str_functor deref_loop deref_with_cost deref arg tag same_tag
    is_ref value cell index ref_cell str_cell Con.con_index_cell Con.arity Con.is_direct
g-SameTree =
    let f = Con.con_index_cell 1 1 in
    let h = env.heap in
    tree_str {x = str_cell 0} {y = str_cell 2} {f = f} {k = 1} {l = 1} refl refl refl refl refl refl
      (λ i l. first_arg (λ j. arg h (str_cell 0) j ≡ ok (arg_of h (str_cell 0) j)) i l refl)
      (λ i l. first_arg (λ j. arg h (str_cell 2) j ≡ ok (arg_of h (str_cell 2) j)) i l refl)
      (λ i l.
        first_arg (λ j. SameTree h (arg_of h (str_cell 0) j) (arg_of h (str_cell 2) j)) i l
          a-SameTree)

hash_same_example :
    (fuel : ℕ) × (v : ℕ) × (hash fuel env (str_cell 0) ≡ ok (v, env))
    × (hash fuel env (str_cell 2) ≡ ok (v, env))
hash_same_example = hash_same env (str_cell 0) (str_cell 2) g-SameTree

hash-equal_example :
    (rounds : ℕ) × (v : ℕ) × (hash rounds env (str_cell 0) ≡ ok (v, env))
    × (hash rounds env (str_cell 2) ≡ ok (v, env))
unfolding equal equal_loop equal_round equal_resolved equal_str push_pairs pop_pair check_index get
    functor str_functor deref_loop deref_with_cost deref arg tag same_tag is_ref value cell index
    ref_cell str_cell Con.con_index_cell Con.arity Con.is_direct
hash-equal_example =
    hash-equal 9 env env (str_cell 0) (str_cell 2) 4 (left-SameTree g-SameTree) refl

abbrev one_each : ℕ → ℕ
one_each i = 1

a-TreeCost : TreeCost env.heap (Con.con_index_cell 2 0) 1
unfolding deref_loop deref_with_cost tag same_tag is_ref Con.con_index_cell value cell
a-TreeCost = leaf_cost refl (λ e. absurd (omega (arith, ap code_of e)))

g-TreeCost :
    TreeCost env.heap (str_cell 0) (1 + sum_from one_each 0 (Con.arity (Con.con_index_cell 1 1)))
unfolding check_index get functor str_functor deref_loop deref_with_cost deref arg tag same_tag
    is_ref value cell index ref_cell str_cell Con.con_index_cell Con.arity Con.is_direct
g-TreeCost =
    let h = env.heap in
    str_cost {x = str_cell 0} {f = Con.con_index_cell 1 1} one_each refl refl refl
      (λ i l. first_arg (λ j. arg h (str_cell 0) j ≡ ok (arg_of h (str_cell 0) j)) i l refl)
      (λ i l. first_arg (λ j. TreeCost h (arg_of h (str_cell 0) j) 1) i l a-TreeCost)

cost_lem_example :
    (fuel : ℕ) × (cost fuel env (str_cell 0)
      ≡ ok ((1 + sum_from one_each 0 (Con.arity (Con.con_index_cell 1 1))) % 2 ^ 64, env))
cost_lem_example = cost_lem env (str_cell 0) _ g-TreeCost

-- The cost counts the cells: the structure and its argument.
cost_of_g : cost 3 env (str_cell 0) ≡ ok (2, env)
unfolding cost check_index get functor str_functor deref_loop deref_with_cost deref arg tag same_tag
    is_ref value cell index ref_cell str_cell Con.con_index_cell Con.arity Con.is_direct
cost_of_g = refl
