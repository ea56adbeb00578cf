-- ===== src/Env/Hash.antt =====
-- The hash and the cost of terms: term_utils::simple_hash, hash and cost of common/term_env.cpp. A state that an
-- exception leaves behind is not modelled.
pub mod Same
pub mod Equal
pub mod Costs
mod Examples
use epilog.Prelude.{
  ℕ, zero, suc, ◌+◌, ◌*◌, ◌%◌, ◌^◌, ltb, if◌then◌else◌, List, [], ◌∷◌, length, take,
}
use epilog.Term.Cell.{Cell, Tag, ref, rfw, con, int, str, big, tag}
use epilog.Term.Con
use epilog.Heap.{
  Heap, Result, ok, throw, ◌>>=◌, endless_loop, empty_stack, functor, deref, deref_with_cost, arg,
}
use epilog.Env.{Env}
use epilog.Env.Unify.{big_num_bits, big_bytes}

-- The first four bytes of a big number are shifted into the hash.
unfoldable pub hash_bytes : List ℕ → ℕ → ℕ
hash_bytes [] h = h
hash_bytes (b ∷ bs) h = hash_bytes bs ((h * 256 % 2 ^ 64 + b) % 2 ^ 64)

-- The case of a BIG cell, on the hash so far.
unfoldable pub hash_big : Heap → Cell → ℕ → Result ℕ
unfolding hash_bytes
hash_big heap b h = do
  n ← big_num_bits heap b
  bytes ← big_bytes heap b
  ok (hash_bytes (take 4 bytes) ((h + n) % 2 ^ 64))

-- term_utils::simple_hash; the assertion that ends it on other cells is not modelled.
unfoldable pub simple_hash : Heap → Cell → Result ℕ
unfolding hash_big
simple_hash heap t = elim (tag t) [
  | con ↦ ok t
  | int ↦ ok t
  | ref ↦ ok t
  | rfw ↦ ok t
  | big ↦ hash_big heap t 0
  | str ↦ functor heap t
  | _ ↦ ok 0
]

-- The loop that pushes the arguments, the first one first.
unfoldable pub push_each : ℕ → ℕ → Heap → Cell → List Cell → Result (List Cell)
push_each zero i heap t s = ok s
push_each (suc n) i heap t s = do c ← arg heap t i; push_each n (i + 1) heap t (c ∷ s)

-- The case of a STR cell: the functor is added, and the arguments are pushed.
unfoldable pub hash_str : Heap → Cell → List Cell → ℕ → Result (List Cell × ℕ)
unfolding push_each
hash_str heap t s h = do
  f ← functor heap t
  s1 ← push_each (Con.arity f) 0 heap t s
  ok (s1, (h + f) % 2 ^ 64)

-- The switch of term_utils::hash, on a cell that is dereferenced. Other cells add nothing.
unfoldable pub hash_case : Tag → Heap → Cell → List Cell → ℕ → Result (List Cell × ℕ)
unfolding hash_big hash_str
hash_case con heap t s h = ok (s, (h + t) % 2 ^ 64)
hash_case int heap t s h = ok (s, (h + t) % 2 ^ 64)
hash_case ref heap t s h = ok (s, (h + t) % 2 ^ 64)
hash_case rfw heap t s h = ok (s, (h + t) % 2 ^ 64)
hash_case big heap t s h = hash_big heap t h >>= λ h1. ok (s, h1)
hash_case str heap t s h = hash_str heap t s h
hash_case _ heap t s h = ok (s, h)

abbrev pub hash_resolved : Heap → Cell → List Cell → ℕ → Result (List Cell × ℕ)
hash_resolved heap t = hash_case (tag t) heap t

-- One round, on the cell that was popped.
unfoldable pub hash_round : Heap → Cell → List Cell → ℕ → Result (List Cell × ℕ)
unfolding hash_case
hash_round heap t0 s h = deref heap t0 >>= λ t. hash_resolved heap t s h

-- The loop of term_utils::hash, while the stack is higher than `d`.
unfoldable pub hash_loop : ℕ → ℕ → Heap → List Cell → ℕ → Result (List Cell × ℕ)
unfolding hash_round
hash_loop zero d heap s h = throw endless_loop
hash_loop (suc fuel) d heap s h =
    if ltb d (length s)
    then (elim s [
      | [] ↦ throw empty_stack
      | t ∷ s1 ↦ hash_round heap t s1 h >>= λ r. hash_loop fuel d heap r.0 r.1
    ])
    else ok (s, h)

-- term_utils::hash
unfoldable pub hash : ℕ → Env → Cell → Result (ℕ × Env)
unfolding hash_loop
hash fuel e t = do
  r ← hash_loop fuel (length e.stack) e.heap (t ∷ e.stack) 0
  ok (r.1, record e { stack = r.0 })

-- The switch of term_utils::cost
unfoldable pub cost_case : Tag → Heap → Cell → List Cell → Result (List Cell)
unfolding push_each
cost_case str heap t s = functor heap t >>= λ f. push_each (Con.arity f) 0 heap t s
cost_case _ heap t s = ok s

unfoldable pub cost_round : Heap → Cell → List Cell → ℕ → Result (List Cell × ℕ)
unfolding cost_case
cost_round heap t0 s cost_acc = do
  t ← deref_with_cost heap t0
  s1 ← cost_case (tag t.0) heap t.0 s
  ok (s1, (cost_acc + t.1) % 2 ^ 64)

-- The loop of term_utils::cost
unfoldable pub cost_loop : ℕ → ℕ → Heap → List Cell → ℕ → Result (List Cell × ℕ)
unfolding cost_round
cost_loop zero d heap s cost_acc = throw endless_loop
cost_loop (suc fuel) d heap s cost_acc =
    if ltb d (length s)
    then (elim s [
      | [] ↦ throw empty_stack
      | t ∷ s1 ↦ cost_round heap t s1 cost_acc >>= λ r. cost_loop fuel d heap r.0 r.1
    ])
    else ok (s, cost_acc)

-- term_utils::cost
unfoldable pub cost : ℕ → Env → Cell → Result (ℕ × Env)
unfolding cost_loop
cost fuel e t = do
  r ← cost_loop fuel (length e.stack) e.heap (t ∷ e.stack) 0
  ok (r.1, record e { stack = r.0 })
