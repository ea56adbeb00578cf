-- ===== src/Env/Order/Same.antt =====
-- The standard order on terms that are the same.
use epilog.Prelude.{
  ℕ, zero, suc, ◌+◌, ◌-◌, ◌≤◌, ◌<◌, ◌≡◌, refl, ap, true, false, inl, inr, Bool-cases, ltb, ◌==◌,
  ==_iff, none, List, [], ◌∷◌, length, length-drop, arith,
}
use epilog.Term.Cell.{Cell, str, big, tag}
use epilog.Term.Cell.Laws.{same_tag_refl}
use epilog.Term.Con
use epilog.Heap.{Heap, ok, deref_with_cost, arg}
use epilog.Env.{Env}
use epilog.Env.Unify.{pop_pair}
use epilog.Env.Equal.{push_pairs}
use epilog.Env.Equal.Same.{SameTerm, same_cell, same_big, same_str, SameBig, arg_of}
use epilog.Env.Order.{
  Order, same, trimmed, big_compare_loop, big_compare_bytes, big_compare, order_big, order_str,
  order_same_tag, order_resolved, order_round, order_loop, standard_order,
}

big_compare_loop_refl : (xs : List ℕ) (c : ℕ) → (big_compare_loop xs xs c).0 ≡ same
unfolding big_compare_loop
big_compare_loop_refl [] c = refl
big_compare_loop_refl (x ∷ xs) c = rw (irrefl x) (big_compare_loop_refl xs (c + 1))
  where
    irrefl : (n : ℕ) → ltb n n ≡ false
    irrefl n = ground arith

big_compare-same :
    (h : Heap) (a b : Cell) → SameBig h a b → (c : ℕ) × (big_compare h a b ≡ ok (same, c))
unfolding big_compare big_compare_bytes
big_compare-same h a b s =
    let r = big_compare_loop s.bytes s.bytes 1 in
    (
      r.1,
      rw (s.bits_a, s.bits_b, (==_iff s.bits s.bits).1 refl, s.bytes_a, s.bytes_b)
          (ap ok (pair_eq r (big_compare_loop_refl s.bytes 1))),
    )
  where
    pair_eq : (r : Order × ℕ) → r.0 ≡ same → r ≡ (same, r.1)
    pair_eq (o, c) e = ap (λ (x : Order). (x, c)) e

trimmed-length : (d : ℕ) (s : List Cell) → d ≤ length s → length (trimmed d s) ≡ d
trimmed-length d s l = omega (arith, length-drop (length s - d) s, l)

module _ (names : ℕ → List ℕ) where
  -- With enough fuel the loop ends with `same`, whatever the cost so far.
  Ends : Heap → ℕ → List Cell → Type 0
  Ends h d s =
      (c : ℕ)
      → (fuel : ℕ) × (s1 : List Cell) × (c1 : ℕ) × (order_loop names fuel d h s c
          ≡ ok (same, s1, c1))
        × (length s1 ≡ d)

  level-Ends : (h : Heap) (d : ℕ) (s : List Cell) → length s ≡ d → Ends h d s
  unfolding order_loop Ends
  level-Ends h d s e c = (1, s, c, rw (at_level (length s) d e) refl, e)
    where
      at_level : (m n : ℕ) → m ≡ n → ltb n m ≡ false
      at_level m n e = ground arith

  round-Ends :
      (h : Heap) (d : ℕ) (a b : Cell) (s : List Cell)
      → d ≤ length s
      → ((c : ℕ)
          → (s1 : List Cell) × (c1 : ℕ) × (order_round names h a b d s c ≡ ok (none, s1, c1))
            × Ends h d s1)
      → Ends h d (a ∷ b ∷ s)
  unfolding order_loop Ends
  round-Ends h d a b s l round c =
      let (s1, c1, e, ends) = round c in
      let (fuel, s2, c2, e2, at_d) = ends c1 in
      (suc fuel, s2, c2, unfold pop_pair in rw (above d (length s) l, e) e2, at_d)
    where
      above : (m n : ℕ) → m ≤ n → ltb m (suc (suc n)) ≡ true
      above m n l = ground arith

  arguments-End :
      (h : Heap) (d : ℕ) (x y : Cell) (n : ℕ) (s : List Cell)
      → ((i : ℕ) → i < n → arg h x i ≡ ok (arg_of h x i))
      → ((i : ℕ) → i < n → arg h y i ≡ ok (arg_of h y i))
      → ((i : ℕ)
          → i < n
          → (s : List Cell) → d ≤ length s
          → Ends h d s
          → Ends h d (arg_of h x i ∷ arg_of h y i ∷ s))
      → d ≤ length s
      → Ends h d s
      → (s1 : List Cell) × (push_pairs n h x y s ≡ ok s1) × Ends h d s1
  unfolding push_pairs
  arguments-End h d x y zero s px py ps l ends = (s, refl, ends)
  arguments-End h d x y (suc n) s px py ps l ends =
      let s2 : List Cell = arg_of h x n ∷ arg_of h y n ∷ s in
      let (s1, e, ends1) =
        arguments-End h d x y n s2 (λ i k. px i (omega (arith, k))) (λ i k. py i (omega (arith, k)))
          (λ i k. ps i (omega (arith, k))) (omega (arith, l)) (ps n (omega arith) s l ends) in
      (s1, rw (px n (omega arith), py n (omega arith)) e, ends1)

  order_same_tag-big :
      (h : Heap) (a b : Cell) (d : ℕ) (s : List Cell) (c : ℕ)
      → tag a ≡ big
      → order_same_tag names h a b d s c ≡ order_big h a b d s
  unfolding order_same_tag
  order_same_tag-big h a b d s c t = rw (order_same_tag, t) refl

  order_same_tag-str :
      (h : Heap) (a b : Cell) (d : ℕ) (s : List Cell) (c : ℕ)
      → tag a ≡ str
      → order_same_tag names h a b d s c ≡ order_str names h a b d s c
  unfolding order_same_tag
  order_same_tag-str h a b d s c t = rw (order_same_tag, t) refl

  same-Ends :
      (h : Heap) (d : ℕ) (a b : Cell)
      → SameTerm h a b
      → (s : List Cell) → d ≤ length s
      → Ends h d s
      → Ends h d (a ∷ b ∷ s)
  unfolding order_round order_resolved order_big order_str
  same-Ends h d a b (same_cell {r = r} {k = k} {l = l} ea eb) s le ends =
      round-Ends h d a b s le (λ c. (s, c + k + l, rw (ea, eb, (==_iff r r).1 refl) refl, ends))
  same-Ends h d a b (same_big {x = x} {y = y} {k = k} {l = l} ea eb tx ty alike) s le ends =
      round-Ends h d a b s le (λ c. elim (Bool-cases (x == y)) [
        | inl p ↦ (s, c + k + l, rw (ea, eb, p) refl, ends)
        | inr n ↦
            let (k1, e) = big_compare-same h x y alike in
            (
              trimmed d s,
              k1,
              rw
                  (
                    ea,
                    eb,
                    n,
                    order_same_tag-big h x y d s (c + k + l) tx,
                    tx,
                    ty,
                    same_tag_refl big,
                    e,
                  )
                  refl,
              level-Ends h d (trimmed d s) (trimmed-length d s le),
            )
      ])
  same-Ends h d a b (same_str {x = x} {y = y} {f = f} {k = k} {l = l} ea eb tx ty fx fy px py ps) s
        le ends =
      round-Ends h d a b s le (λ c. elim (Bool-cases (x == y)) [
        | inl p ↦ (s, c + k + l, rw (ea, eb, p) refl, ends)
        | inr n ↦
            let (s1, e, ends1) =
              arguments-End h d x y (Con.arity f) s px py
                (λ i li s2 l2 ends2.
                  same-Ends h d (arg_of h x i) (arg_of h y i) (ps i li) s2 l2 ends2)
                le ends in
            (
              s1,
              c + k + l,
              rw
                  (
                    ea,
                    eb,
                    n,
                    order_same_tag-str h x y d s (c + k + l) tx,
                    tx,
                    ty,
                    same_tag_refl str,
                    fx,
                    fy,
                    (==_iff f f).1 refl,
                    e,
                  )
                  refl,
              ends1,
            )
      ])

  -- Two terms that are the same in the sense of SameTerm stand at the same place in the standard order: given enough fuel
  -- the comparison ends, with `same`, and leaves the stack at its height.
  pub standard_order_same :
      (e : Env) (a b : Cell)
      → SameTerm e.heap a b
      → (fuel : ℕ) × (e1 : Env) × (cost : ℕ) × (standard_order names fuel e a b
          ≡ ok (same, e1, cost))
        × (length e1.stack ≡ length e.stack)
        × (e1.heap ≡ e.heap)
  unfolding standard_order Ends
  standard_order_same e a b alike =
      let d = length e.stack in
      let (fuel, s, c, run, height) =
        same-Ends e.heap d a b alike e.stack (omega arith) (level-Ends e.heap d e.stack refl) 0 in
      (fuel, record e { stack = s }, c, rw run refl, height, refl)

  -- A round that finds two big numbers the same at different addresses ends the comparison with `same`:
  -- the pairs that stand below them on the stack, above its height at the start, are not compared.
  pub order_loop-big :
      (h : Heap) (d : ℕ) (a b x y : Cell) (k l : ℕ) (s : List Cell) (cost fuel : ℕ)
      → deref_with_cost h a ≡ ok (x, k)
      → deref_with_cost h b ≡ ok (y, l)
      → (x == y) ≡ false
      → tag x ≡ big
      → tag y ≡ big
      → SameBig h x y
      → d ≤ length s
      → (c : ℕ) × (order_loop names (suc (suc fuel)) d h (a ∷ b ∷ s) cost
          ≡ ok (same, trimmed d s, c))
  unfolding order_loop order_round order_resolved order_big
  order_loop-big h d a b x y k l s cost fuel ea eb n tx ty alike le =
      let (c, e) = big_compare-same h x y alike in
      (
        c,
        unfold pop_pair in
            rw
              (
                above d (length s) le,
                ea,
                eb,
                n,
                order_same_tag-big h x y d s (cost + k + l) tx,
                tx,
                ty,
                same_tag_refl big,
                e,
                trimmed-length d s le,
                level d,
              )
              refl,
      )
    where
      above : (m n : ℕ) → m ≤ n → ltb m (suc (suc n)) ≡ true
      above m n l = ground arith

      level : (n : ℕ) → ltb n n ≡ false
      level n = ground arith
