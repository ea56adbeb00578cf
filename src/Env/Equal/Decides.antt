-- ===== src/Env/Equal/Decides.antt =====
-- What term_utils::equal decides: whether two terms are the same.
use mathlib.Core.Path.{subst}
use epilog.Prelude.{
  ℕ, zero, suc, ◌+◌, ◌-◌, ◌≤◌, ◌<◌, ◌≡◌, refl, sym, ap, ◌∙◌, Bool, true, false, not, inl, inr,
  Bool-cases, ltb, ◌==◌, ==_iff, if◌then◌else◌, List, ◌∷◌, length, drop, arith,
}
use epilog.Term.Cell.{Cell, str, big, tag, same_tag}
use epilog.Term.Cell.Laws.{eq_of_same_tag}
use epilog.Term.Con
use epilog.Heap.{Heap, Result, ok, throw, ◌>>=◌, functor, deref_with_cost, arg}
use epilog.Heap.Deref.{>>=-eq-ok, ok-injective}
use epilog.Env.{Env}
use epilog.Env.Unify.{pop_pair}
use epilog.Env.Unify.Kept.{OnTop, level, pair}
use epilog.Env.Unify.Outcome.{OnTop-length}
use epilog.Env.Equal.{
  big_equal, push_pairs, Round, equal_big, equal_str, equal_resolved, equal_round, equal_loop,
  equal,
}
use epilog.Env.Equal.Same.{
  SameBig, SameTerm, same_cell, same_big, same_str, arg_of, big_equal_sound,
}

-- The pairs that stand above the level of the stack are the same terms.
abbrev AllSame : (h : Heap) {s0 s : List Cell} → OnTop s0 s → Type 0
AllSame h level = Unit
AllSame h (pair a b t) = SameTerm h a b × AllSame h t

-- The first n arguments of two structures are the same terms.
abbrev SameArgs : Heap → Cell → Cell → ℕ → Type 0
SameArgs h a b n =
    (i : ℕ)
    → i < n
    → (arg h a i ≡ ok (arg_of h a i))
      × (arg h b i ≡ ok (arg_of h b i))
      × SameTerm h (arg_of h a i) (arg_of h b i)

arg_of-ok : (h : Heap) (x : Cell) (i : ℕ) {c : Cell} → arg h x i ≡ ok c → arg_of h x i ≡ c
arg_of-ok h x i {c} e = ap (λ (r : Result Cell). elim r [ ok c ↦ c | throw e ↦ 0 ]) e

SameArgs-suc :
    (h : Heap) (a b : Cell) (n : ℕ) {c d : Cell}
    → arg h a n ≡ ok c
    → arg h b n ≡ ok d
    → SameTerm h c d
    → SameArgs h a b n
    → SameArgs h a b (suc n)
SameArgs-suc h a b n {c} {d} ec ed same args i l =
    let p : arg_of h a n ≡ c = arg_of-ok h a n ec in
    let q : arg_of h b n ≡ d = arg_of-ok h b n ed in
    elim (Bool-cases (i == n)) [
      | inl y ↦ rw ((==_iff i n).0 y) (ec ∙ ap ok (sym p), ed ∙ ap ok (sym q), rw (p, q) same)
      | inr y ↦ args i (below i n y l)
    ]
  where
    below : (i n : ℕ) → (i == n) ≡ false → i < suc n → i < n
    below i n y l = ground arith

-- The pairs of arguments that are pushed are on top of the stack, and they are what must be the same.
push_pairs_sound :
    {h : Heap} {s0 s1 : List Cell} (n : ℕ) (a b : Cell) {s : List Cell} (t : OnTop s0 s)
    → push_pairs n h a b s ≡ ok s1
    → (t1 : OnTop s0 s1) × (AllSame h t1 → AllSame h t × SameArgs h a b n)
unfolding push_pairs
push_pairs_sound {h} {s0} {s1} zero a b t e =
    subst (λ (x : List Cell). (t1 : OnTop s0 x) × (AllSame h t1 → AllSame h t × SameArgs h a b 0))
      (ok-injective e) (t, λ all. (all, λ i l. absurd (omega (arith, l))))
push_pairs_sound {h} {s0} {s1} (suc n) a b {s} t e =
    let (c, ec, e1) =
      >>=-eq-ok (arg h a n) (λ x. arg h b n >>= λ y. push_pairs n h a b (x ∷ y ∷ s)) e in
    let (d, ed, e2) = >>=-eq-ok (arg h b n) (λ y. push_pairs n h a b (c ∷ y ∷ s)) e1 in
    let (t1, back) = push_pairs_sound n a b (pair c d t) e2 in
    (t1, λ all. let ((same, rest), args) = back all in (rest, SameArgs-suc h a b n ec ed same args))

-- If the run goes on, it works above the stack's level, and what it leaves there decides P.
record Decides (h : Heap) {s0 s : List Cell} (t : OnTop s0 s) (P : Type 0) (r : Result Round)
    : Type 0 where
  at :
      (s1 : List Cell) (c1 : ℕ)
      → r ≡ ok (true, s1, c1)
      → (t1 : OnTop s0 s1) × (AllSame h t1 → P × AllSame h t)

stack_of_ok :
    {b : Bool} {s s1 : List Cell} {c c1 : ℕ}
    → ◌≡◌ {A = Result Round} (ok (b, s, c)) (ok (true, s1, c1))
    → (b ≡ true) × (s ≡ s1)
stack_of_ok e = let p = ok-injective e in (ap (λ (r : Round). r.0) p, ap (λ (r : Round). r.1) p)

module _ {h : Heap} {s0 s : List Cell} (t : OnTop s0 s) {P : Type 0} where
  Decides-same : (c : ℕ) → P → Decides h t P (ok (true, s, c))
  Decides-same c p = record {
    at = λ s1 c1 e.
        subst (λ (x : List Cell). (t1 : OnTop s0 x) × (AllSame h t1 → P × AllSame h t))
          (stack_of_ok e).1 (t, λ all. (p, all));
  }

  Decides-fails : (c : ℕ) → Decides h t P (ok (false, s, c))
  Decides-fails c = record { at = λ s1 c1 e. cc (stack_of_ok e).0 }

  Decides-if :
      (b : Bool) (m n : Result Round)
      → (b ≡ true → Decides h t P m)
      → (b ≡ false → Decides h t P n)
      → Decides h t P (if b then m else n)
  Decides-if true m n km kn = km refl
  Decides-if false m n km kn = kn refl

  Decides-bind {ℓ} :
      {A : Type ℓ} (m : Result A) (f : A → Result Round)
      → ((a : A) → m ≡ ok a → Decides h t P (f a))
      → Decides h t P (m >>= f)
  Decides-bind (ok a) f k = k a refl
  Decides-bind (throw x) f k = record { at = λ s1 c1 e. cc e }

not-false : (b : Bool) → not b ≡ false → b ≡ true
not-false true h = refl
not-false false h = cc

-- The ways in which two cells that are dereferenced are the same.
record SameResolved (h : Heap) (a b : Cell) (P : Type 0) : Type 0 where
  by_cell : a ≡ b → P
  by_big : tag a ≡ big → tag b ≡ big → SameBig h a b → P
  by_str :
      (f : Cell)
      → tag a ≡ str
      → tag b ≡ str
      → functor h a ≡ ok f
      → functor h b ≡ ok f
      → SameArgs h a b (Con.arity f)
      → P

module _ {h : Heap} {s0 s : List Cell} (t : OnTop s0 s) {P : Type 0} (a b : Cell)
    (w : SameResolved h a b P) where
  equal_big-Decides : (c : ℕ) → tag a ≡ big → tag b ≡ big → Decides h t P (equal_big h a b s c)
  unfolding equal_big
  equal_big-Decides c ta tb = Decides-bind t (big_equal h a b) _ λ (r, k) e. outcome r k e
    where
      outcome : (r : Bool) (k : ℕ) → big_equal h a b ≡ ok (r, k) → Decides h t P (ok (r, s, c + k))
      outcome true k e = Decides-same t (c + k) (w.by_big ta tb (big_equal_sound h a b k e))
      outcome false k e = Decides-fails t (c + k)

  equal_str-Decides : (c : ℕ) → tag a ≡ str → tag b ≡ str → Decides h t P (equal_str h a b s c)
  unfolding equal_str
  equal_str-Decides c ta tb = Decides-bind t (functor h a) _ λ fa ea.
      Decides-bind t (functor h b) _ λ fb eb.
        Decides-if t (not (fa == fb)) _ _ (λ _. Decides-fails t c)
          λ alike.
            let same : fa ≡ fb = (==_iff fa fb).0 (not-false (fa == fb) alike) in
            Decides-bind t (push_pairs (Con.arity fa) h a b s) _ λ s1 e.
              let (t1, back) = push_pairs_sound (Con.arity fa) a b t e in
              record {
                at = λ s2 c2 e2.
                    subst (λ (x : List Cell). (t1 : OnTop s0 x) × (AllSame h t1 → P × AllSame h t))
                      (stack_of_ok e2).1
                      (
                        t1,
                        λ all.
                            let (rest, args) = back all in
                            (w.by_str fa ta tb ea (rw same eb) args, rest),
                      );
              }

  equal_resolved-Decides : (c : ℕ) → Decides h t P (equal_resolved h a b s c)
  unfolding equal_resolved
  equal_resolved-Decides c =
      Decides-if t (a == b) _ _ (λ y. Decides-same t c (w.by_cell ((==_iff a b).0 y)))
        λ _.
          Decides-if t (not (same_tag (tag a) (tag b))) _ _ (λ _. Decides-fails t c)
            λ alike.
              let tags : tag a ≡ tag b = eq_of_same_tag (tag a) (tag b) (not-false _ alike) in
              Decides-if t (same_tag (tag a) big) _ _
                (λ y.
                  let ta = eq_of_same_tag (tag a) big y in equal_big-Decides c ta (sym tags ∙ ta))
                λ _.
                  Decides-if t (not (same_tag (tag a) str)) _ _ (λ _. Decides-fails t c)
                    λ y.
                      let ta = eq_of_same_tag (tag a) str (not-false _ y) in
                      equal_str-Decides c ta (sym tags ∙ ta)

module _ {h : Heap} {s0 s : List Cell} (t : OnTop s0 s) where
  equal_round-Decides : (a b : Cell) (c : ℕ) → Decides h t (SameTerm h a b) (equal_round h a b s c)
  unfolding equal_round
  equal_round-Decides a b c = Decides-bind t (deref_with_cost h a) _ λ (x, k) ex.
      Decides-bind t (deref_with_cost h b) _
        λ (y, l) ey. equal_resolved-Decides t x y (ways x k y l ex ey) (c + k + l)
    where
      ways :
          (x : Cell) (k : ℕ) (y : Cell) (l : ℕ)
          → deref_with_cost h a ≡ ok (x, k)
          → deref_with_cost h b ≡ ok (y, l)
          → SameResolved h x y (SameTerm h a b)
      ways x k y l ex ey = record {
        by_cell = λ p. same_cell {l = l} ex (rw p ey);
        by_big = λ ta tb same. same_big ex ey ta tb same;
        by_str = λ f ta tb fa fb args.
            same_str ex ey ta tb fa fb (λ i l. (args i l).0) (λ i l. (args i l).1)
              (λ i l. (args i l).2);
      }

pub equal_loop_sound :
    (h : Heap) {s0 : List Cell} (fuel : ℕ) {s : List Cell} (t : OnTop s0 s) (c : ℕ) {s1 : List Cell}
    {c1 : ℕ}
    → equal_loop fuel (length s0) h s c ≡ ok (true, s1, c1)
    → AllSame h t × (s1 ≡ s0)
unfolding equal_loop
equal_loop_sound h zero t c e = cc
equal_loop_sound h {s0} (suc fuel) level c e = elim (Bool-cases (ltb (length s0) (length s0))) [
  | inl y ↦ absurd (irrefl (length s0) y)
  | inr n ↦ (tt, sym (stack_of_ok (rw n at e)).1)
]
  where
    irrefl : (n : ℕ) → ltb n n ≡ true → ⊥
    irrefl n h = ground arith
equal_loop_sound h {s0} (suc fuel) (pair {s} a b t) c {s1} {c1} e =
    let higher = above (length s0) (length s) (OnTop-length t) in
    let after : Round → Result Round = λ r. elim (r.0) [
      | true ↦ equal_loop fuel (length s0) h r.1 r.2
      | false ↦ ok (false, drop (length r.1 - length s0) r.1, r.2)
    ] in
    let e1 : (equal_round h a b s c >>= after) ≡ ok (true, s1, c1) =
      unfold pop_pair in rw higher at e in
    let (r, er, e2) = >>=-eq-ok (equal_round h a b s c) after e1 in
    continue (λ s2 t2 c2 e3. equal_loop_sound h fuel {s = s2} t2 c2 e3) r er e2
  where
    above : (m n : ℕ) → m ≤ n → ltb m (suc (suc n)) ≡ true
    above m n l = ground arith

    continue :
        ((s2 : List Cell) (t2 : OnTop s0 s2) (c2 : ℕ)
          → equal_loop fuel (length s0) h s2 c2 ≡ ok (true, s1, c1)
          → AllSame h t2 × (s1 ≡ s0))
        → (r : Round) → equal_round h a b s c ≡ ok r
        → ◌≡◌ {A = Result Round}
            (elim (r.0) [
              | true ↦ equal_loop fuel (length s0) h r.1 r.2
              | false ↦ ok (false, drop (length r.1 - length s0) r.1, r.2)
            ])
            (ok (true, s1, c1))
        → AllSame h (pair a b t) × (s1 ≡ s0)
    continue rest (true, s2, c2) er e2 =
        let (t2, back) = (equal_round-Decides t a b c).at s2 c2 er in
        let (all, same) = rest s2 t2 c2 e2 in (back all, same)
    continue rest (false, s2, c2) er e2 = cc (stack_of_ok e2).0

-- If equal returns true, the two terms are the same in the sense of SameTerm: they lead to the same cell, or to
-- the same big number, or to structures of the same functor whose arguments are the same in turn. The environment is
-- as before.
pub equal_sound :
    (fuel : ℕ) (e e1 : Env) (a b : Cell) (cost : ℕ)
    → equal fuel e a b ≡ ok (true, e1, cost)
    → SameTerm e.heap a b × (e1 ≡ e)
unfolding equal
equal_sound fuel e e1 a b cost h =
    let loop = equal_loop fuel (length e.stack) e.heap (a ∷ b ∷ e.stack) 0 in
    let done : Round → Result (Bool × Env × ℕ) = λ r. ok (r.0, record e { stack = r.1 }, r.2) in
    let (r, er, e2) = >>=-eq-ok loop done h in outcome r er (ok-injective e2)
  where
    outcome :
        (r : Round)
        → equal_loop fuel (length e.stack) e.heap (a ∷ b ∷ e.stack) 0 ≡ ok r
        → ◌≡◌ {A = Bool × Env × ℕ} (r.0, record e { stack = r.1 }, r.2) (true, e1, cost)
        → SameTerm e.heap a b × (e1 ≡ e)
    outcome (true, s, c) er p =
        let ((same, _), stack) = equal_loop_sound e.heap fuel (pair a b level) 0 er in
        (
          same,
          sym (ap (λ (q : Bool × Env × ℕ). q.1) p)
              ∙ ap (λ (x : List Cell). record e { stack = x }) stack,
        )
    outcome (false, s, c) er p = cc (ap (λ (q : Bool × Env × ℕ). q.0) p)
