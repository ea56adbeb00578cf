-- ===== src/Env/Equal.antt =====
-- Equality of terms without binding: term_utils::equal and cost of common/term_env.cpp, and heap::big_equal of
-- common/term.cpp. A state that an exception leaves behind is not modelled.
pub mod Same
pub mod Decides
pub mod Finds
mod Examples
use epilog.Prelude.{
  ℕ, zero, suc, ◌+◌, ◌-◌, Bool, true, false, not, ltb, ◌==◌, if◌then◌else◌, List, [], ◌∷◌, Option,
  none, some, length, drop,
}
use epilog.Term.Cell.{Cell, str, big, tag, same_tag}
use epilog.Term.Con
use epilog.Heap.{
  Heap, Result, ok, throw, ◌>>=◌, endless_loop, empty_stack, functor, deref_with_cost, arg,
}
use epilog.Env.{Env}
use epilog.Env.Unify.{big_num_bits, big_bytes, pop_pair}

-- The loop of heap::big_equal over the bytes of two big numbers, with its cost.
pub bytes_equal_loop : List ℕ → List ℕ → ℕ → Bool × ℕ
bytes_equal_loop [] ys cost = (true, cost)
bytes_equal_loop (x ∷ xs) [] cost = (false, cost + 1)
bytes_equal_loop (x ∷ xs) (y ∷ ys) cost =
    if not (x == y) then (false, cost + 1) else bytes_equal_loop xs ys (cost + 1)

-- The bytes of two big numbers of the same number of bits.
pub big_equal_bytes : Heap → Cell → Cell → Result (Bool × ℕ)
big_equal_bytes h a b = do xs ← big_bytes h a; ys ← big_bytes h b; ok (bytes_equal_loop xs ys 1)

-- heap::big_equal
pub big_equal : Heap → Cell → Cell → Result (Bool × ℕ)
big_equal h a b = do
  na ← big_num_bits h a
  nb ← big_num_bits h b
  if not (na == nb) then ok (false, 1) else big_equal_bytes h a b

-- The loop that pushes the arguments pairwise, the last first.
unfoldable pub push_pairs : ℕ → Heap → Cell → Cell → List Cell → Result (List Cell)
push_pairs zero h a b s = ok s
push_pairs (suc n) h a b s = do ai ← arg h a n; bi ← arg h b n; push_pairs n h a b (ai ∷ bi ∷ s)

-- What a round ends with: whether to go on, the stack, and the cost so far.
abbrev pub Round : Type 0
Round = Bool × List Cell × ℕ

pub equal_big : Heap → Cell → Cell → List Cell → ℕ → Result Round
equal_big h a b s cost = do r ← big_equal h a b; ok (r.0, s, cost + r.1)

unfoldable pub equal_str : Heap → Cell → Cell → List Cell → ℕ → Result Round
equal_str h a b s cost = do
  fa ← functor h a
  fb ← functor h b
  if not (fa == fb)
      then ok (false, s, cost)
      else (do s1 ← push_pairs (Con.arity fa) h a b s; ok (true, s1, cost))

-- The comparison of two cells that are dereferenced.
unfoldable pub equal_resolved : Heap → Cell → Cell → List Cell → ℕ → Result Round
equal_resolved h a b s cost =
    if a == b
    then ok (true, s, cost)
    else if not (same_tag (tag a) (tag b))
    then ok (false, s, cost)
    else if same_tag (tag a) big
    then equal_big h a b s cost
    else if not (same_tag (tag a) str)
    then ok (false, s, cost)
    else equal_str h a b s cost

-- One round of the loop, on two cells that were popped.
unfoldable pub equal_round : Heap → Cell → Cell → List Cell → ℕ → Result Round
equal_round h a0 b0 s cost = do
  a ← deref_with_cost h a0
  b ← deref_with_cost h b0
  equal_resolved h a.0 b.0 s (cost + a.1 + b.1)

-- The loop of term_utils::equal, while the stack is higher than `d`. A failure trims the stack to `d`.
unfoldable pub equal_loop : ℕ → ℕ → Heap → List Cell → ℕ → Result Round
equal_loop zero d h s cost = throw endless_loop
equal_loop (suc fuel) d h s cost =
    if ltb d (length s)
    then (elim (pop_pair s) [
      | none ↦ throw empty_stack
      | some (a, b, s1) ↦ equal_round h a b s1 cost >>= λ r. elim (r.0) [
        | true ↦ equal_loop fuel d h r.1 r.2
        | false ↦ ok (false, drop (length r.1 - d) r.1, r.2)
      ]
    ])
    else ok (true, s, cost)

-- term_utils::equal
unfoldable pub equal : ℕ → Env → Cell → Cell → Result (Bool × Env × ℕ)
equal fuel e a b = do
  r ← equal_loop fuel (length e.stack) e.heap (a ∷ b ∷ e.stack) 0
  ok (r.0, record e { stack = r.1 }, r.2)
