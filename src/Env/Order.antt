-- ===== src/Env/Order.antt =====
-- The standard order of terms: term_utils::standard_order and functor_standard_order of common/term_env.cpp, and
-- heap::big_compare of common/term.cpp. A state that an exception leaves behind is not modelled.
pub mod Same
mod Examples
use epilog.Prelude.{
  ℕ, zero, suc, ◌+◌, ◌-◌, Bool, true, false, not, ltb, ◌==◌, if◌then◌else◌, List, [], ◌∷◌, Option,
  none, some, length, drop,
}
use epilog.Prelude.Int.{ltb_ℤ}
use epilog.Term.Cell.{
  Cell, Tag, ref, rfw, int, con, str, big, tag, tag_code, same_tag, index, value_signed,
}
use epilog.Term.Con
use epilog.Heap.{
  Heap, Result, ok, throw, ◌>>=◌, endless_loop, empty_stack, functor, deref_with_cost,
}
use epilog.Env.{Env}
use epilog.Env.Unify.{big_num_bits, big_bytes, pop_pair}
use epilog.Env.Equal.{push_pairs}

-- The sign of an int that tells an order.
pub data Order : Type 0 where
  before same after : Order

-- std::string::compare
unfoldable pub compare_names : List ℕ → List ℕ → Order
compare_names [] [] = same
compare_names [] (y ∷ ys) = before
compare_names (x ∷ xs) [] = after
compare_names (x ∷ xs) (y ∷ ys) =
    if ltb x y then before else if ltb y x then after else compare_names xs ys

-- The loop of heap::big_compare over the bytes of two big numbers, with its cost.
pub big_compare_loop : List ℕ → List ℕ → ℕ → Order × ℕ
big_compare_loop [] ys cost = (same, cost)
big_compare_loop (x ∷ xs) [] cost = (after, cost + 1)
big_compare_loop (x ∷ xs) (y ∷ ys) cost =
    if ltb x y
    then (before, cost + 1)
    else if ltb y x
    then (after, cost + 1)
    else big_compare_loop xs ys (cost + 1)

-- The bytes of two big numbers of the same number of bits.
pub big_compare_bytes : Heap → Cell → Cell → Result (Order × ℕ)
big_compare_bytes h a b = do xs ← big_bytes h a; ys ← big_bytes h b; ok (big_compare_loop xs ys 1)

-- heap::big_compare
pub big_compare : Heap → Cell → Cell → Result (Order × ℕ)
big_compare h a b = do
  na ← big_num_bits h a
  nb ← big_num_bits h b
  if not (na == nb) then ok (if ltb na nb then before else after, 1) else big_compare_bytes h a b

-- What a round ends with: the order if it is found, the stack, and the cost so far.
abbrev pub OrderRound : Type 0
OrderRound = Option Order × List Cell × ℕ

-- trim_stack on the stack alone
abbrev pub trimmed : ℕ → List Cell → List Cell
trimmed d s = drop (length s - d) s

pub order_big : Heap → Cell → Cell → ℕ → List Cell → Result OrderRound
order_big h a b d s = do
  r ← big_compare h a b
  ok (elim (r.0) [ same ↦ none | before ↦ some before | after ↦ some after ], trimmed d s, r.1)

-- The atom table is passed as the names of its indices.
module _ (names : ℕ → List ℕ) where
  -- heap::atom_name
  pub atom_name : Cell → List ℕ
  atom_name c = if Con.is_direct c then Con.name c else names (Con.atom_index c)

  -- term_utils::functor_standard_order
  pub functor_standard_order : Cell → Cell → Order
  functor_standard_order a b =
      if a == b
      then same
      else if ltb (Con.arity a) (Con.arity b)
      then before
      else if ltb (Con.arity b) (Con.arity a)
      then after
      else compare_names (atom_name a) (atom_name b)

  pub order_str : Heap → Cell → Cell → ℕ → List Cell → ℕ → Result OrderRound
  order_str h a b d s cost = do
    fa ← functor h a
    fb ← functor h b
    if not (fa == fb)
        then ok (some (functor_standard_order fa fb), trimmed d s, cost)
        else (do s1 ← push_pairs (Con.arity fa) h a b s; ok (none, s1, cost))

  -- The source's switch, on two cells of one tag that differ.
  pub order_same_tag : Heap → Cell → Cell → ℕ → List Cell → ℕ → Result OrderRound
  order_same_tag h a b d s cost = elim (tag a) [
    | con ↦ ok (
      some (elim (functor_standard_order a b) [ before ↦ before | _ ↦ after ]),
      trimmed d s,
      cost,
    )
    | ref ↦ ok (some (if ltb (index a) (index b) then before else after), trimmed d s, cost)
    | rfw ↦ ok (some (if ltb (index a) (index b) then before else after), trimmed d s, cost)
    | int ↦ ok (
      some (if ltb_ℤ (value_signed a) (value_signed b) then before else after),
      trimmed d s,
      cost,
    )
    | big ↦ order_big h a b d s
    | _ ↦ order_str h a b d s cost
  ]

  -- The comparison of two cells that are dereferenced.
  pub order_resolved : Heap → Cell → Cell → ℕ → List Cell → ℕ → Result OrderRound
  order_resolved h a b d s cost =
      if a == b
      then ok (none, s, cost)
      else if not (same_tag (tag a) (tag b))
      then ok (
        some (if ltb (tag_code (tag a)) (tag_code (tag b)) then before else after),
        trimmed d s,
        cost,
      )
      else order_same_tag h a b d s cost

  -- One round of the loop, on two cells that were popped.
  pub order_round : Heap → Cell → Cell → ℕ → List Cell → ℕ → Result OrderRound
  order_round h a0 b0 d s cost = do
    a ← deref_with_cost h a0
    b ← deref_with_cost h b0
    order_resolved h a.0 b.0 d s (cost + a.1 + b.1)

  -- The loop of term_utils::standard_order, while the stack is higher than `d`.
  pub order_loop : ℕ → ℕ → Heap → List Cell → ℕ → Result (Order × List Cell × ℕ)
  order_loop zero d h s cost = throw endless_loop
  order_loop (suc fuel) d h s cost =
      if ltb d (length s)
      then (elim (pop_pair s) [
        | none ↦ throw empty_stack
        | some (a, b, s1) ↦ order_round h a b d s1 cost >>= λ r. elim (r.0) [
          | none ↦ order_loop fuel d h r.1 r.2
          | some o ↦ ok (o, r.1, r.2)
        ]
      ])
      else ok (same, s, cost)

  -- term_utils::standard_order
  pub standard_order : ℕ → Env → Cell → Cell → Result (Order × Env × ℕ)
  standard_order fuel e a b = do
    r ← order_loop fuel (length e.stack) e.heap (a ∷ b ∷ e.stack) 0
    ok (r.0, record e { stack = r.1 }, r.2)
