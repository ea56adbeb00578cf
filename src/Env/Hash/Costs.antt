-- ===== src/Env/Hash/Costs.antt =====
-- term_utils::cost of common/term_env.cpp: what it sums up.
use epilog.Prelude.{
  ℕ, zero, suc, ◌+◌, ◌%◌, ◌^◌, ◌≤◌, ◌<◌, ◌≡◌, ◌≢◌, refl, ap, ◌∙◌, true, false, ltb, List, ◌∷◌,
  length, arith,
}
use epilog.Term.Cell.{Cell, Tag, ref, rfw, int, con, big, dat, fwd, str, tag}
use epilog.Term.Con
use epilog.Heap.{Heap, ok, ◌>>=◌, functor, deref_with_cost, arg}
use epilog.Env.{Env}
use epilog.Env.Equal.Same.{arg_of}
use epilog.Env.Hash.{push_each, cost_case, cost_round, cost_loop, cost}

-- The sum of n values, from the i-th on.
unfoldable pub sum_from : (ℕ → ℕ) → ℕ → ℕ → ℕ
sum_from c i zero = 0
sum_from c i (suc n) = c i + sum_from c (i + 1) n

-- A finite tree with the sum of the costs of dereferencing its nodes.
pub data TreeCost (h : Heap) : Cell → ℕ → Type 0 where
  leaf_cost : {a r : Cell} {k : ℕ} → deref_with_cost h a ≡ ok (r, k) → tag r ≢ str → TreeCost h a k
  str_cost :
      {a x f : Cell} {k : ℕ} (costs : ℕ → ℕ)
      → deref_with_cost h a ≡ ok (x, k)
      → tag x ≡ str
      → functor h x ≡ ok f
      → ((i : ℕ) → i < Con.arity f → arg h x i ≡ ok (arg_of h x i))
      → ((i : ℕ) → i < Con.arity f → TreeCost h (arg_of h x i) (costs i))
      → TreeCost h a (k + sum_from costs 0 (Con.arity f))

-- From a stack the loop comes down to the other one, and has added the sum.
Adds : Heap → List Cell → List Cell → ℕ → Type 0
Adds h base s m =
    (acc : ℕ)
    → (fuel : ℕ) × (cost_loop fuel (length base) h s (acc % 2 ^ 64) ≡ ok (base, (acc + m) % 2 ^ 64))

cost_case-leaf :
    (k : Tag) (h : Heap) (r : Cell) (s : List Cell) → k ≢ str → cost_case k h r s ≡ ok s
unfolding cost_case
cost_case-leaf str h r s n = absurd (n refl)
cost_case-leaf ref h r s n = refl
cost_case-leaf rfw h r s n = refl
cost_case-leaf int h r s n = refl
cost_case-leaf con h r s n = refl
cost_case-leaf big h r s n = refl
cost_case-leaf dat h r s n = refl
cost_case-leaf fwd h r s n = refl

cost_case-str :
    (h : Heap) (x : Cell) (s s1 : List Cell) {f : Cell}
    → tag x ≡ str
    → functor h x ≡ ok f
    → push_each (Con.arity f) 0 h x s ≡ ok s1
    → cost_case (tag x) h x s ≡ ok s1
unfolding cost_case
cost_case-str h x s s1 t e p = ap (λ k. cost_case k h x s) t ∙ rw e p

round-Adds :
    (h : Heap) (base : List Cell) (a : Cell) (s s1 : List Cell) (m : ℕ) {r : Cell} {k : ℕ}
    → length base ≤ length s
    → deref_with_cost h a ≡ ok (r, k)
    → cost_case (tag r) h r s ≡ ok s1
    → Adds h base s1 m
    → Adds h base (a ∷ s) (k + m)
unfolding Adds cost_loop
round-Adds h base a s s1 m {r} {k} l e c adds acc =
    let (fuel, run) = adds (acc + k) in
    let wraps : (acc % 2 ^ 64 + k) % 2 ^ 64 ≡ (acc + k) % 2 ^ 64 = omega arith in
    let sums : acc + k + m ≡ acc + (k + m) = omega arith in
    let round : cost_round h a s (acc % 2 ^ 64) ≡ ok (s1, (acc + k) % 2 ^ 64) =
      unfold cost_round in rw (e, c, wraps) refl in
    (
      suc fuel,
      rw (above (length base) (length s) l)
          (ap (λ x. x >>= λ y. cost_loop fuel (length base) h y.0 y.1) round ∙ rw (← sums) run),
    )
  where
    above : (i j : ℕ) → i ≤ j → ltb i (suc j) ≡ true
    above i j p = ground arith

push_each-Adds :
    (h : Heap) (base : List Cell) (x : Cell) (costs : ℕ → ℕ) (n i : ℕ) (s : List Cell) (m : ℕ)
    → ((j : ℕ) → j < i + n → arg h x j ≡ ok (arg_of h x j))
    → ((j : ℕ)
        → j < i + n
        → (t : List Cell) (p : ℕ) → length base ≤ length t
        → Adds h base t p
        → Adds h base (arg_of h x j ∷ t) (costs j + p))
    → length base ≤ length s
    → Adds h base s m
    → (s1 : List Cell) × (push_each n i h x s ≡ ok s1) × Adds h base s1 (sum_from costs i n + m)
unfolding push_each sum_from
push_each-Adds h base x costs zero i s m px ps l adds =
    let none_added : 0 + m ≡ m = omega arith in (s, refl, rw none_added adds)
push_each-Adds h base x costs (suc n) i s m px ps l adds =
    let (s1, e, adds1) =
      push_each-Adds h base x costs n (i + 1) (arg_of h x i ∷ s) (costs i + m)
        (λ j k. px j (omega (arith, k))) (λ j k. ps j (omega (arith, k))) (omega (arith, l))
        (ps i (omega arith) s m l adds) in
    let sums : costs i + sum_from costs (i + 1) n + m ≡ sum_from costs (i + 1) n + (costs i + m) =
      omega arith in
    (s1, rw (px i (omega arith)) e, rw sums adds1)

tree-Adds :
    (h : Heap) (base : List Cell) {a : Cell} {n : ℕ}
    → TreeCost h a n
    → (s : List Cell) (m : ℕ) → length base ≤ length s
    → Adds h base s m
    → Adds h base (a ∷ s) (n + m)
tree-Adds h base {a} (leaf_cost {r} e t) s m l adds =
    round-Adds h base a s s m l e (cost_case-leaf (tag r) h r s t) adds
tree-Adds h base {a} (str_cost {x} {f} {k} costs e t fx px ps) s m l adds =
    let (s1, p, adds1) =
      push_each-Adds h base x costs (Con.arity f) 0 s m (λ j q. px j (omega (arith, q)))
        (λ j q u v w more. tree-Adds h base (ps j (omega (arith, q))) u v w more) l adds in
    let sums : k + sum_from costs 0 (Con.arity f) + m ≡ k + (sum_from costs 0 (Con.arity f) + m) =
      omega arith in
    rw sums (round-Adds h base a s s1 _ l e (cost_case-str h x s s1 t fx p) adds1)

-- On a finite tree term_utils::cost ends, leaves the environment as it was, and returns the sum of the costs of
-- dereferencing the tree's nodes, as a 64-bit number.
pub cost_lem :
    (e : Env) (a : Cell) (n : ℕ)
    → TreeCost e.heap a n
    → (fuel : ℕ) × (cost fuel e a ≡ ok (n % 2 ^ 64, e))
unfolding cost Adds
cost_lem e a n tree =
    let stopped : (acc : ℕ)
        → (fuel : ℕ) × (cost_loop fuel (length e.stack) e.heap e.stack (acc % 2 ^ 64)
            ≡ ok (e.stack, (acc + 0) % 2 ^ 64)) =
      λ acc. (1, at_level e.heap e.stack acc) in
    let (fuel, run) = tree-Adds e.heap e.stack tree e.stack 0 (omega arith) stopped 0 in
    let zero_start : 0 % 2 ^ 64 ≡ 0 = omega arith in
    let total : 0 + (n + 0) ≡ n = omega arith in (fuel, rw (rw (zero_start, total) at run) refl)
  where
    same_height : (i : ℕ) → ltb i i ≡ false
    same_height i = ground arith

    at_level :
        (h : Heap) (s : List Cell) (acc : ℕ)
        → cost_loop 1 (length s) h s (acc % 2 ^ 64) ≡ ok (s, (acc + 0) % 2 ^ 64)
    at_level h s acc =
        let nothing : acc + 0 ≡ acc = omega arith in
        unfold cost_loop in rw (same_height (length s), nothing) refl
