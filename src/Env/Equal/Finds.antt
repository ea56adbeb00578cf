-- ===== src/Env/Equal/Finds.antt =====
-- term_utils::equal finds the terms that are the same: it ends, with true.
use epilog.Prelude.{
  ℕ, zero, suc, ◌+◌, ◌≤◌, ◌<◌, ◌≡◌, refl, ap, true, false, inl, inr, Bool-cases, ltb, ◌==◌, ==_iff,
  List, ◌∷◌, length, arith,
}
use epilog.Term.Cell.{Cell, str, big, same_tag}
use epilog.Term.Cell.Laws.{same_tag_refl}
use epilog.Term.Con
use epilog.Heap.{Heap, ok, arg}
use epilog.Env.{Env}
use epilog.Env.Unify.{pop_pair}
use epilog.Env.Unify.Kept.{level, pair}
use epilog.Env.Equal.{
  push_pairs, equal_big, equal_str, equal_resolved, equal_round, equal_loop, equal,
}
use epilog.Env.Equal.Same.{SameTerm, same_cell, same_big, same_str, arg_of, big_equal_complete}
use epilog.Env.Equal.Decides.{equal_loop_sound}

-- With enough fuel the loop ends with true, whatever the cost so far.
Stops : Heap → ℕ → List Cell → Type 0
Stops h d s =
    (c : ℕ)
    → (fuel : ℕ) × (s1 : List Cell) × (c1 : ℕ) × (equal_loop fuel d h s c ≡ ok (true, s1, c1))

-- A round that goes on to a stack on which the loop ends.
round-Stops :
    (h : Heap) (d : ℕ) (a b : Cell) (s : List Cell)
    → d ≤ length s
    → ((c : ℕ)
        → (s1 : List Cell) × (c1 : ℕ) × (equal_round h a b s c ≡ ok (true, s1, c1)) × Stops h d s1)
    → Stops h d (a ∷ b ∷ s)
unfolding equal_loop Stops
round-Stops h d a b s l round c =
    let (s1, c1, e, stops) = round c in
    let (fuel, s2, c2, e2) = stops c1 in
    (suc fuel, s2, c2, unfold pop_pair in rw (above d (length s) l, e) e2)
  where
    above : (m n : ℕ) → m ≤ n → ltb m (suc (suc n)) ≡ true
    above m n l = ground arith

pairs-Stop :
    (h : Heap) (d : ℕ) (x y : Cell) (n : ℕ) (s : List Cell)
    → ((i : ℕ) → i < n → arg h x i ≡ ok (arg_of h x i))
    → ((i : ℕ) → i < n → arg h y i ≡ ok (arg_of h y i))
    → ((i : ℕ)
        → i < n
        → (s : List Cell) → d ≤ length s
        → Stops h d s
        → Stops h d (arg_of h x i ∷ arg_of h y i ∷ s))
    → d ≤ length s
    → Stops h d s
    → (s1 : List Cell) × (push_pairs n h x y s ≡ ok s1) × Stops h d s1
unfolding push_pairs
pairs-Stop h d x y zero s px py ps l stops = (s, refl, stops)
pairs-Stop h d x y (suc n) s px py ps l stops =
    let s2 : List Cell = arg_of h x n ∷ arg_of h y n ∷ s in
    let (s1, e, stops1) =
      pairs-Stop h d x y n s2 (λ i k. px i (omega (arith, k))) (λ i k. py i (omega (arith, k)))
        (λ i k. ps i (omega (arith, k))) (omega (arith, l)) (ps n (omega arith) s l stops) in
    (s1, rw (px n (omega arith), py n (omega arith)) e, stops1)

same-Stops :
    (h : Heap) (d : ℕ) (a b : Cell)
    → SameTerm h a b
    → (s : List Cell) → d ≤ length s
    → Stops h d s
    → Stops h d (a ∷ b ∷ s)
unfolding equal_round equal_resolved equal_big equal_str
same-Stops h d a b (same_cell {r = r} {k = k} {l = l} ea eb) s le stops =
    round-Stops h d a b s le (λ c. (s, c + k + l, rw (ea, eb, (==_iff r r).1 refl) refl, stops))
same-Stops h d a b (same_big {x = x} {y = y} {k = k} {l = l} ea eb tx ty same) s le stops =
    round-Stops h d a b s le (λ c. elim (Bool-cases (x == y)) [
      | inl p ↦ (s, c + k + l, rw (ea, eb, p) refl, stops)
      | inr n ↦
          let (k1, e) = big_equal_complete h x y same in
          (s, c + k + l + k1, rw (ea, eb, n, tx, ty, same_tag_refl big, e) refl, stops)
    ])
same-Stops h d a b (same_str {x = x} {y = y} {f = f} {k = k} {l = l} ea eb tx ty fx fy px py ps) s
      le stops =
    round-Stops h d a b s le (λ c. elim (Bool-cases (x == y)) [
      | inl p ↦ (s, c + k + l, rw (ea, eb, p) refl, stops)
      | inr n ↦
          let (s1, e, stops1) =
            pairs-Stop h d x y (Con.arity f) s px py
              (λ i li s2 l2 stops2.
                same-Stops h d (arg_of h x i) (arg_of h y i) (ps i li) s2 l2 stops2)
              le stops in
          (
            s1,
            c + k + l,
            rw (ea, eb, n, tx, ty, same_tag_refl str, not_big, fx, fy, (==_iff f f).1 refl, e) refl,
            stops1,
          )
    ])
  where
    not_big : same_tag str big ≡ false
    not_big = unfold same_tag in refl

-- Two terms that are the same in the sense of SameTerm are found equal, given enough fuel, and the environment is as
-- before.
pub equal_complete :
    (e : Env) (a b : Cell)
    → SameTerm e.heap a b
    → (fuel : ℕ) × (cost : ℕ) × (equal fuel e a b ≡ ok (true, e, cost))
unfolding equal Stops
equal_complete e a b same =
    let d = length e.stack in
    let (fuel, s, c, run) =
      same-Stops e.heap d a b same e.stack (omega arith) (λ c. (1, e.stack, c, at_level e.stack c))
        0 in
    let p : s ≡ e.stack = (equal_loop_sound e.heap fuel (pair a b level) 0 run).1 in
    (fuel, c, rw run (ap (λ (x : List Cell). ok (true, record e { stack = x }, c)) p))
  where
    same_height : (n : ℕ) → ltb n n ≡ false
    same_height n = ground arith

    at_level : (s : List Cell) (c : ℕ) → equal_loop 1 (length s) e.heap s c ≡ ok (true, s, c)
    at_level s c = unfold equal_loop in rw (same_height (length s)) refl
