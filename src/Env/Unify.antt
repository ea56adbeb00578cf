-- ===== src/Env/Unify.antt =====
-- Unification: term_utils::unify and its helpers of common/term_env.cpp. A state that an exception
-- leaves behind is not modelled.
mod Undo
pub mod Rounds
pub mod Kept
pub mod Steps
pub mod Outcome
pub mod Backtrack
mod Examples
use epilog.Prelude.{
  ℕ, zero, suc, ◌+◌, ◌-◌, ◌*◌, ◌/◌, ◌%◌, ◌^◌, Bool, true, false, ◌&&◌, not, ltb, ◌==◌,
  if◌then◌else◌, List, [], ◌∷◌, Option, none, some, length,
}
use epilog.Term.Cell.{
  Cell, Tag, int, con, str, big, fwd, tag, same_tag, is_ref, index, watched, fwd_cell,
}
use epilog.Term.Con
use epilog.Term.IntCell
use epilog.Heap.{
  Heap, Result, ok, throw, ◌>>=◌, ◌>>◌, endless_loop, empty_stack, expected_con_cell, get, update,
  heap_set, heap_watch, deref_with_cost, deref_fuel, arg,
}
use epilog.Env.{Env, push, trim_stack, trim_trail, set_register_hb, bind, unwind_trail, tidy_trail}

-- The reference at the higher address is bound to the one at the lower; if it is watched, so is the
-- one that stays.
pub bind_refs : Env → Cell → Cell → Env
bind_refs e a b =
    if ltb (index a) (index b)
    then (let e1 = if watched b then record e { heap = heap_watch e.heap (index a) true } else e in
        bind e1 b a)
    else (let e1 = if watched a then record e { heap = heap_watch e.heap (index b) true } else e in
        bind e1 a b)

-- The walk along FWD cells from an address, which ends at the functor that stands for its class.
pub skip_forward : ℕ → Heap → ℕ → Result (ℕ × Cell)
skip_forward zero h i = throw endless_loop
skip_forward (suc fuel) h i = do
  c ← get h i
  let rest = skip_forward fuel h (index c)
  if same_tag (tag c) fwd then rest else ok (i, c)

-- The loop that pushes the arguments pairwise, the last first.
pub push_args : ℕ → Cell → Cell → Env → Result Env
push_args zero a b e = ok e
push_args (suc n) a b e = do
  ai ← arg e.heap a n
  bi ← arg e.heap b n
  push_args n a b (push (push e bi) ai)

-- Two structures whose functors stand at ai and bi and are the same: the first is forwarded to the
-- second, and their arguments are to be unified.
pub merge_functors : Env → Cell → Cell → ℕ → ℕ → Cell → Result Env
merge_functors e a b ai bi f =
    push_args (Con.arity f) a b
      (record e { temp_trail = ai ∷ e.temp_trail; heap = heap_set e.heap ai (fwd_cell bi) })

-- What is done with two structures once their functors are found: the result tells whether to go on.
-- The test of `bdest` in the source reads `adest` again.
pub unify_functors : Env → Cell → Cell → ℕ × Cell → ℕ × Cell → Result (Bool × Env)
unify_functors e a b (ai, adest) (bi, bdest) =
    if not (same_tag (tag adest) con)
    then throw (expected_con_cell ai adest)
    else if ai == bi
    then ok (true, e)
    else if not (adest == bdest)
    then ok (false, e)
    else (do e1 ← merge_functors e a b ai bi adest; ok (true, e1))

-- The case of two STR cells.
pub unify_str : Env → Cell → Cell → Result (Bool × Env)
unify_str e a b = do
  fa ← skip_forward (deref_fuel e.heap) e.heap (index a)
  fb ← skip_forward (deref_fuel e.heap) e.heap (index b)
  unify_functors e a b fa fb

-- The byte at offset k of a big number whose header stands at address i: the number's bytes follow the
-- four bytes of the header (big_iterator over cell_byte).
unfoldable pub big_byte : Heap → ℕ → ℕ → ℕ
big_byte h i k = h.mem (i + (k + 4) / 8) / 2 ^ (8 * ((k + 4) % 8)) % 256

unfoldable pub big_bytes_loop : ℕ → Heap → ℕ → ℕ → List ℕ
unfolding big_byte
big_bytes_loop zero h i k = []
big_bytes_loop (suc n) h i k = big_byte h i k ∷ big_bytes_loop n h i (k + 1)

-- heap::num_bits and the bytes that get_big hands to import_bits.
unfoldable pub big_num_bits : Heap → Cell → Result ℕ
big_num_bits h c = do hdr ← get h (index c); ok (IntCell.num_bits hdr)

unfoldable pub big_bytes : Heap → Cell → Result (List ℕ)
unfolding big_bytes_loop
big_bytes h c = do n ← big_num_bits h c; ok (big_bytes_loop ((n + 7) / 8) h (index c) 0)

-- The two cells on top of the stack.
unfoldable pub pop_pair : List Cell → Option (Cell × Cell × List Cell)
pop_pair [] = none
pop_pair (a ∷ []) = none
pop_pair (a ∷ b ∷ s) = some (a, b, s)

-- The loop of term_utils::restore_cells_after_unify: each forwarded address gets the cell that it was
-- forwarded to, the newest first.
pub restore : (ℕ → Cell) → List ℕ → ℕ → Cell
restore m [] = m
restore m (i ∷ is) = restore (update m i (m (index (m i)))) is

-- term_utils::restore_cells_after_unify
pub restore_cells_after_unify : Env → Env
restore_cells_after_unify e = record e {
  temp_trail = [];
  heap = record e.heap { mem = restore e.heap.mem e.temp_trail };
}

-- What term_utils::unify does with the outcome: a failure undoes the bindings and restores the stacks,
-- a success tidies the trail. `e` is the state before.
pub finish_unify : Env → Bool × Env × ℕ → Bool × Env × ℕ
finish_unify e (false, e1, cost) =
    let undone = unwind_trail e1 (length e.trail) (length e1.trail) in
    let cut = trim_stack (trim_trail undone (length e.trail)) (length e.stack) in
    (false, set_register_hb cut e.register_hb, cost)
finish_unify e (true, e1, cost) =
    let kept = set_register_hb e1 e.register_hb in
    (true, tidy_trail kept (length e.trail) (length kept.trail), cost)

-- `import_bits` is Boost's, from bytes to a cpp_int.
module _ (import_bits : List ℕ → ℕ) where
  -- The comparison of two big numbers: the same number of bits, and the same integer.
  pub same_big : Heap → Cell → Cell → Result Bool
  same_big h a b = do
    na ← big_num_bits h a
    nb ← big_num_bits h b
    ba ← big_bytes h a
    bb ← big_bytes h b
    ok (na == nb && import_bits ba == import_bits bb)

  -- The case of two BIG cells.
  pub unify_big : Env → Cell → Cell → Result (Bool × Env)
  unify_big e a b = do same ← same_big e.heap a b; ok (same, e)

  -- The source's switch, on two cells of one tag. It leaves DAT and FWD cells as they are.
  pub unify_same_tag : Env → Cell → Cell → Result (Bool × Env)
  unify_same_tag e a b = elim (tag a) [
    | con ↦ ok (false, e)
    | int ↦ ok (false, e)
    | str ↦ unify_str e a b
    | big ↦ unify_big e a b
    | _ ↦ ok (true, e)
  ]

  -- One round of the loop, on two cells that are dereferenced and differ.
  pub unify_cells : Env → Cell → Cell → Result (Bool × Env)
  unify_cells e a b =
      if is_ref (tag a)
      then (if is_ref (tag b) then ok (true, bind_refs e a b) else ok (true, bind e a b))
      else if is_ref (tag b)
      then ok (true, bind e b a)
      else if not (same_tag (tag a) (tag b))
      then ok (false, e)
      else unify_same_tag e a b

  -- One round of the loop, on two cells that are dereferenced.
  pub unify_resolved : Env → Cell → Cell → Result (Bool × Env)
  unify_resolved e a b = if a == b then ok (true, e) else unify_cells e a b

  -- One round: two cells are dereferenced, at a cost, and unified.
  pub unify_round : Env → Cell → Cell → ℕ → Result (Bool × Env × ℕ)
  unify_round e a0 b0 cost = do
    a ← deref_with_cost e.heap a0
    b ← deref_with_cost e.heap b0
    r ← unify_resolved e a.0 b.0
    ok (r.0, r.1, cost + a.1 + b.1)

  -- The loop of unify_helper, while the stack is higher than `d`.
  pub unify_loop : ℕ → ℕ → Env → ℕ → Result (Bool × Env × ℕ)
  unify_loop zero d e cost = throw endless_loop
  unify_loop (suc fuel) d e cost =
      if ltb d (length e.stack)
      then (elim (pop_pair e.stack) [
        | none ↦ throw empty_stack
        | some (a, b, s) ↦ unify_round (record e { stack = s }) a b cost >>= λ r. elim (r.0) [
          | true ↦ unify_loop fuel d r.1 r.2
          | false ↦ ok r
        ]
      ])
      else ok (true, e, cost)

  -- term_utils::unify_helper
  pub unify_helper : ℕ → Env → Cell → Cell → Result (Bool × Env × ℕ)
  unify_helper fuel e a b = do
    r ← unify_loop fuel (length e.stack) (push (push e b) a) 0
    ok (r.0, restore_cells_after_unify r.1, r.2)

  -- term_utils::unify
  pub unify : ℕ → Env → Cell → Cell → Result (Bool × Env × ℕ)
  unify fuel e a b = do
    r ← unify_helper fuel (set_register_hb e e.heap.size) a b
    ok (finish_unify e r)
