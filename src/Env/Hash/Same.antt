-- ===== src/Env/Hash/Same.antt =====
-- The hash of terms is one of their finite trees: the loop of term_utils::hash ends, and finds the same for terms
-- with the same tree.
use epilog.Prelude.{
  ℕ, zero, suc, ◌+◌, ◌%◌, ◌^◌, ◌≤◌, ◌<◌, ◌≡◌, ◌≢◌, refl, ap, ◌∙◌, true, false, ltb, List, ◌∷◌,
  length, take, arith,
}
use epilog.Term.Cell.{Cell, Tag, con, int, str, big, ref, rfw, dat, fwd, tag}
use epilog.Term.Con
use epilog.Heap.{Heap, ok, ◌>>=◌, functor, deref, deref_with_cost, arg}
use epilog.Env.{Env}
use epilog.Env.Equal.Same.{SameBig, arg_of}
use epilog.Env.Hash.{
  hash_bytes, hash_big, push_each, hash_str, hash_case, hash_resolved, hash_round, hash_loop, hash,
}

-- Two terms with the same finite tree: leaves with the same cell, big numbers that are the same, or structures of
-- one functor, with arguments of the same trees in turn.
pub data SameTree (h : Heap) : Cell → Cell → Type 0 where
  tree_leaf :
      {a b r : Cell} {k l : ℕ}
      → deref_with_cost h a ≡ ok (r, k)
      → deref_with_cost h b ≡ ok (r, l)
      → tag r ≢ str
      → tag r ≢ big
      → SameTree h a b
  tree_big :
      {a b x y : Cell} {k l : ℕ}
      → deref_with_cost h a ≡ ok (x, k)
      → deref_with_cost h b ≡ ok (y, l)
      → tag x ≡ big
      → tag y ≡ big
      → SameBig h x y
      → SameTree h a b
  tree_str :
      {a b x y f : Cell} {k l : ℕ}
      → deref_with_cost h a ≡ ok (x, k)
      → deref_with_cost h b ≡ ok (y, l)
      → tag x ≡ str
      → tag y ≡ str
      → functor h x ≡ ok f
      → functor h y ≡ ok f
      → ((i : ℕ) → i < Con.arity f → arg h x i ≡ ok (arg_of h x i))
      → ((i : ℕ) → i < Con.arity f → arg h y i ≡ ok (arg_of h y i))
      → ((i : ℕ) → i < Con.arity f → SameTree h (arg_of h x i) (arg_of h y i))
      → SameTree h a b

-- From two stacks the loop comes down to the same one, with the same hash.
Agree : Heap → List Cell → List Cell → List Cell → Type 0
Agree h base s t =
    (acc : ℕ)
    → (fuel : ℕ) × (v : ℕ) × (hash_loop fuel (length base) h s acc ≡ ok (base, v))
      × (hash_loop fuel (length base) h t acc ≡ ok (base, v))

above : (m n : ℕ) → m ≤ n → ltb m (suc n) ≡ true
above m n l = ground arith

round_on :
    (h : Heap) (d fuel : ℕ) (a : Cell) (s : List Cell) (acc acc' : ℕ) {s1 : List Cell}
    → d ≤ length s
    → hash_round h a s acc ≡ ok (s1, acc')
    → hash_loop (suc fuel) d h (a ∷ s) acc ≡ hash_loop fuel d h s1 acc'
unfolding hash_loop
round_on h d fuel a s acc acc' l e =
    rw (above d (length s) l) (ap (λ r. r >>= λ x. hash_loop fuel d h x.0 x.1) e)

-- A leaf adds the same to the hash, whatever the stack.
leaf_case :
    (k : Tag) (h : Heap) (r : Cell) (acc : ℕ)
    → k ≢ str
    → k ≢ big
    → (v : ℕ) × ((s : List Cell) → hash_case k h r s acc ≡ ok (s, v))
unfolding hash_case
leaf_case ref h r acc p q = ((acc + r) % 2 ^ 64, λ s. refl)
leaf_case rfw h r acc p q = ((acc + r) % 2 ^ 64, λ s. refl)
leaf_case int h r acc p q = ((acc + r) % 2 ^ 64, λ s. refl)
leaf_case con h r acc p q = ((acc + r) % 2 ^ 64, λ s. refl)
leaf_case big h r acc p q = absurd (q refl)
leaf_case str h r acc p q = absurd (p refl)
leaf_case dat h r acc p q = (acc, λ s. refl)
leaf_case fwd h r acc p q = (acc, λ s. refl)

deref-deref_with_cost :
    (h : Heap) (a : Cell) {r : Cell} {k : ℕ} → deref_with_cost h a ≡ ok (r, k) → deref h a ≡ ok r
unfolding deref deref_with_cost
deref-deref_with_cost h a e = ap (λ x. x >>= λ p. ok p.0) e

round_at :
    (h : Heap) (a : Cell) (s : List Cell) (acc : ℕ) {r : Cell} {k : ℕ}
    → deref_with_cost h a ≡ ok (r, k)
    → hash_round h a s acc ≡ hash_resolved h r s acc
unfolding hash_round
round_at h a s acc e = ap (λ x. x >>= λ t. hash_resolved h t s acc) (deref-deref_with_cost h a e)

hash_big-SameBig :
    (h : Heap) (x y : Cell) (acc : ℕ)
    → SameBig h x y
    → (v : ℕ) × (hash_big h x acc ≡ ok v) × (hash_big h y acc ≡ ok v)
unfolding hash_big
hash_big-SameBig h x y acc same = (
  hash_bytes (take 4 same.bytes) ((acc + same.bits) % 2 ^ 64),
  rw (same.bits_a, same.bytes_a) refl,
  rw (same.bits_b, same.bytes_b) refl,
)

hash_case-big :
    (h : Heap) (x : Cell) (s : List Cell) (acc : ℕ) {v : ℕ}
    → tag x ≡ big
    → hash_big h x acc ≡ ok v
    → hash_resolved h x s acc ≡ ok (s, v)
unfolding hash_case
hash_case-big h x s acc t e = ap (λ k. hash_case k h x s acc) t ∙ ap (λ r. r >>= λ h1. ok (s, h1)) e

hash_case-str :
    (h : Heap) (x : Cell) (s s1 : List Cell) (acc : ℕ) {f : Cell}
    → tag x ≡ str
    → functor h x ≡ ok f
    → push_each (Con.arity f) 0 h x s ≡ ok s1
    → hash_resolved h x s acc ≡ ok (s1, (acc + f) % 2 ^ 64)
unfolding hash_case hash_str
hash_case-str h x s s1 acc t e p = ap (λ k. hash_case k h x s acc) t ∙ rw (e, p) refl

-- A round on each stack that goes on to stacks which agree.
rounds-Agree :
    (h : Heap) (base : List Cell) (a b : Cell) (s t : List Cell)
    → length base ≤ length s
    → length base ≤ length t
    → ((acc : ℕ)
        → (s1 t1 : List Cell) × (acc' : ℕ) × (hash_round h a s acc ≡ ok (s1, acc'))
          × (hash_round h b t acc ≡ ok (t1, acc'))
          × Agree h base s1 t1)
    → Agree h base (a ∷ s) (b ∷ t)
unfolding Agree
rounds-Agree h base a b s t ls lt next acc =
    let (s1, t1, acc', e, e', agree) = next acc in
    let (fuel, v, run, run') = agree acc' in
    (
      suc fuel,
      v,
      round_on h (length base) fuel a s acc acc' ls e ∙ run,
      round_on h (length base) fuel b t acc acc' lt e' ∙ run',
    )

-- The arguments from i on, of two structures, are pushed.
push_each-Agree :
    (h : Heap) (base : List Cell) (x y : Cell) (n i : ℕ) (s t : List Cell)
    → ((j : ℕ) → j < i + n → arg h x j ≡ ok (arg_of h x j))
    → ((j : ℕ) → j < i + n → arg h y j ≡ ok (arg_of h y j))
    → ((j : ℕ)
        → j < i + n
        → (s t : List Cell) → length base ≤ length s
        → length base ≤ length t
        → Agree h base s t
        → Agree h base (arg_of h x j ∷ s) (arg_of h y j ∷ t))
    → length base ≤ length s
    → length base ≤ length t
    → Agree h base s t
    → (s1 t1 : List Cell) × (push_each n i h x s ≡ ok s1)
      × (push_each n i h y t ≡ ok t1)
      × Agree h base s1 t1
unfolding push_each
push_each-Agree h base x y zero i s t px py ps ls lt agree = (s, t, refl, refl, agree)
push_each-Agree h base x y (suc n) i s t px py ps ls lt agree =
    let (s1, t1, e, e', agree1) =
      push_each-Agree h base x y n (i + 1) (arg_of h x i ∷ s) (arg_of h y i ∷ t)
        (λ j l. px j (omega (arith, l))) (λ j l. py j (omega (arith, l)))
        (λ j l. ps j (omega (arith, l))) (omega (arith, ls)) (omega (arith, lt))
        (ps i (omega arith) s t ls lt agree) in
    (s1, t1, rw (px i (omega arith)) e, rw (py i (omega arith)) e', agree1)

tree-Agree :
    (h : Heap) (base : List Cell) {a b : Cell}
    → SameTree h a b
    → (s t : List Cell) → length base ≤ length s
    → length base ≤ length t
    → Agree h base s t
    → Agree h base (a ∷ s) (b ∷ t)
tree-Agree h base {a} {b} (tree_leaf {r} ea eb ns nb) s t ls lt agree =
    rounds-Agree h base a b s t ls lt λ acc.
      let (v, same) = leaf_case (tag r) h r acc ns nb in
      (s, t, v, round_at h a s acc ea ∙ same s, round_at h b t acc eb ∙ same t, agree)
tree-Agree h base {a} {b} (tree_big {x} {y} ea eb tx ty same) s t ls lt agree =
    rounds-Agree h base a b s t ls lt λ acc.
      let (v, e, e') = hash_big-SameBig h x y acc same in
      (
        s,
        t,
        v,
        round_at h a s acc ea ∙ hash_case-big h x s acc tx e,
        round_at h b t acc eb ∙ hash_case-big h y t acc ty e',
        agree,
      )
tree-Agree h base {a} {b} (tree_str {x} {y} {f} ea eb tx ty fx fy px py ps) s t ls lt agree =
    rounds-Agree h base a b s t ls lt λ acc.
      let (s1, t1, e, e', agree1) =
        push_each-Agree h base x y (Con.arity f) 0 s t (λ j l. px j (omega (arith, l)))
          (λ j l. py j (omega (arith, l)))
          (λ j l s2 t2 l2 l2' agree2.
            tree-Agree h base (ps j (omega (arith, l))) s2 t2 l2 l2' agree2)
          ls lt agree in
      (
        s1,
        t1,
        (acc + f) % 2 ^ 64,
        round_at h a s acc ea ∙ hash_case-str h x s s1 acc tx fx e,
        round_at h b t acc eb ∙ hash_case-str h y t t1 acc ty fy e',
        agree1,
      )

at_level : (h : Heap) (s : List Cell) (acc : ℕ) → hash_loop 1 (length s) h s acc ≡ ok (s, acc)
unfolding hash_loop
at_level h s acc = rw (same_height (length s)) refl
  where
    same_height : (n : ℕ) → ltb n n ≡ false
    same_height n = ground arith

-- Two terms with the same finite tree have the same hash: given enough fuel the loop ends on both, with the same
-- hash, and the environment is as before.
pub hash_same :
    (e : Env) (a b : Cell)
    → SameTree e.heap a b
    → (fuel : ℕ) × (v : ℕ) × (hash fuel e a ≡ ok (v, e)) × (hash fuel e b ≡ ok (v, e))
unfolding hash Agree
hash_same e a b same =
    let base = e.stack in
    let (fuel, v, run, run') =
      tree-Agree e.heap base same base base (omega arith) (omega arith)
        (λ acc. (1, acc, at_level e.heap base acc, at_level e.heap base acc)) 0 in
    (fuel, v, rw run refl, rw run' refl)
