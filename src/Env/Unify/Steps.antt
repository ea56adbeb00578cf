-- ===== src/Env/Unify/Steps.antt =====
-- Each round of unification keeps what it must.
use mathlib.Core.Path.{subst}
use epilog.Prelude.{
  ℕ, ◌+◌, ◌<◌, ◌≡◌, ◌≢◌, refl, sym, ◌∙◌, Bool, true, false, inl, inr, Bool-cases, ◌==◌, ==_iff, ltb,
  not, if◌then◌else◌, List, arith,
}
use epilog.Term.Cell.{Cell, Tag, con, int, str, big, tag, same_tag, is_ref, index, watched}
use epilog.Term.Cell.Laws.{eq_of_same_tag}
use epilog.Heap.{Heap, HeapError, deref_fuel, Result, ok, throw, ◌>>=◌, heap_watch, deref_with_cost}
use epilog.Heap.Deref.{Resolved, deref_loop-Resolved, >>=-eq-ok, ok-injective}
use epilog.Env.{Env, bind}
use epilog.Term.Con
use epilog.Env.Unify.{
  bind_refs, merge_functors, unify_functors, unify_str, unify_big, same_big, unify_same_tag,
  unify_resolved, unify_cells, unify_round,
}
use epilog.Env.Unify.Rounds.{Undoable, bind-Undoable, bind_refs-Undoable}
use epilog.Env.Unify.Kept.{Kept, push_args-Kept, skip_forward-at, forward-Kept}

-- If the run returns, what it wrote can be undone.
pub record Keeps (e0 : Env) (r : Result (Bool × Env)) : Type 0 where
  pub at : (go_on : Bool) (e1 : Env) → r ≡ ok (go_on, e1) → Kept e0 e1

env_of_ok : {b c : Bool} {e f : Env} → ◌≡◌ {A = Result (Bool × Env)} (ok (b, e)) (ok (c, f)) → e ≡ f
env_of_ok h = cc

module _ {e0 : Env} where
  Keeps-ok : (b : Bool) (e : Env) → Kept e0 e → Keeps e0 (ok (b, e))
  Keeps-ok b e k = record { at = λ go_on e1 h. subst (Kept e0) (env_of_ok h) k }

  Keeps-throw : (x : HeapError) → Keeps e0 (throw x)
  Keeps-throw x = record { at = λ go_on e1 h. cc }

  Keeps-if :
      (b : Bool) (m n : Result (Bool × Env))
      → (b ≡ true → Keeps e0 m)
      → (b ≡ false → Keeps e0 n)
      → Keeps e0 (if b then m else n)
  Keeps-if true m n km kn = km refl
  Keeps-if false m n km kn = kn refl

  Keeps-bind {ℓ} :
      {A : Type ℓ} (m : Result A) (f : A → Result (Bool × Env))
      → ((a : A) → m ≡ ok a → Keeps e0 (f a))
      → Keeps e0 (m >>= f)
  Keeps-bind (ok a) f k = k a refl
  Keeps-bind (throw x) f k = Keeps-throw x

bind-stack : (e : Env) (a b : Cell) → (bind e a b).stack ≡ e.stack
unfolding bind
bind-stack e a b = ground arith

watch-stack :
    (e : Env) (h : Heap) (w : Bool) → (if w then record e { heap = h } else e).stack ≡ e.stack
watch-stack e h true = refl
watch-stack e h false = refl

bind_refs-stack : (e : Env) (a b : Cell) → (bind_refs e a b).stack ≡ e.stack
unfolding bind_refs
bind_refs-stack e a b = elim (Bool-cases (ltb (index a) (index b))) [
  | inl y ↦ rw y (bind-stack _ b a ∙ watch-stack e (heap_watch e.heap (index a) true) (watched b))
  | inr n ↦ rw n (bind-stack _ a b ∙ watch-stack e (heap_watch e.heap (index b) true) (watched a))
]

ne_of_test : (i j : ℕ) → (i == j) ≡ false → j ≢ i
ne_of_test i j h = ground arith

not-false : (b : Bool) → not b ≡ false → b ≡ true
not-false true h = refl
not-false false h = cc

module _ {e0 e : Env} (k : Kept e0 e) where
  unify_functors-Keeps :
      (a b : Cell) (i j : ℕ) (ad bd : Cell)
      → (e.heap.mem i ≡ ad) × (i < e.heap.size)
      → (e.heap.mem j ≡ bd) × (j < e.heap.size)
      → Keeps e0 (unify_functors e a b (i, ad) (j, bd))
  unfolding unify_functors merge_functors
  unify_functors-Keeps a b i j ad bd (mi, li) (mj, lj) =
      Keeps-if _ _ _ (λ _. Keeps-throw _)
        λ iscon.
          Keeps-if _ _ _ (λ _. Keeps-ok true e k)
            λ apart.
              Keeps-if _ _ _ (λ _. Keeps-ok false e k)
                λ alike.
                  let t : tag ad ≡ con =
                    eq_of_same_tag (tag ad) con (not-false (same_tag (tag ad) con) iscon) in
                  let same : ad ≡ bd = (==_iff ad bd).0 (not-false (ad == bd) alike) in
                  let f =
                    forward-Kept i j k li lj (ne_of_test i j apart) (mj ∙ sym same ∙ sym mi)
                      (rw mj (rw (← same) t)) in
                  Keeps-bind _ _ λ e1 h. Keeps-ok true e1 (push_args-Kept (Con.arity ad) a b _ f h)

  unify_str-Keeps : (a b : Cell) → Keeps e0 (unify_str e a b)
  unfolding unify_str
  unify_str-Keeps a b = Keeps-bind _ _ λ fa ha. Keeps-bind _ _ λ fb hb.
      unify_functors-Keeps a b fa.0 fb.0 fa.1 fb.1
        (skip_forward-at (deref_fuel e.heap) e.heap (index a) ha)
        (skip_forward-at (deref_fuel e.heap) e.heap (index b) hb)

  bound-Keeps : (e1 : Env) → Undoable e0 e1 → e1.stack ≡ e.stack → Keeps e0 (ok (true, e1))
  bound-Keeps e1 u same = Keeps-ok true e1 (record { undoable = u; on_top = rw same k.on_top })

  module _ (import_bits : List ℕ → ℕ) where
    unify_big-Keeps : (a b : Cell) → Keeps e0 (unify_big import_bits e a b)
    unfolding unify_big
    unify_big-Keeps a b =
        Keeps-bind (same_big import_bits e.heap a b) (λ same. ok (same, e))
          λ same _. Keeps-ok same e k

    unify_same_tag-Keeps : (a b : Cell) → Keeps e0 (unify_same_tag import_bits e a b)
    unfolding unify_same_tag
    unify_same_tag-Keeps a b = by_tag (tag a)
      where
        by_tag :
            (t : Tag)
            → Keeps e0 (elim t [
              | con ↦ ok (false, e)
              | int ↦ ok (false, e)
              | str ↦ unify_str e a b
              | big ↦ unify_big import_bits e a b
              | _ ↦ ok (true, e)
            ])
        by_tag con = Keeps-ok false e k
        by_tag int = Keeps-ok false e k
        by_tag str = unify_str-Keeps a b
        by_tag big = unify_big-Keeps a b
        by_tag _ = Keeps-ok true e k

    unify_cells-Keeps :
        (a b : Cell)
        → Resolved e.heap a
        → Resolved e.heap b
        → (a == b) ≡ false
        → Keeps e0 (unify_cells import_bits e a b)
    unfolding unify_cells
    unify_cells-Keeps a b sa sb ne =
        Keeps-if (is_ref (tag a)) _ _
          (λ ra.
            Keeps-if (is_ref (tag b)) _ _
              (λ rb.
                bound-Keeps (bind_refs e a b) (bind_refs-Undoable a b k.undoable ra rb sa sb ne)
                  (bind_refs-stack e a b))
              (λ _.
                let (m, l) = sa.unbound ra in
                bound-Keeps (bind e a b) (bind-Undoable k.undoable a b ra m l) (bind-stack e a b)))
          λ _.
            Keeps-if (is_ref (tag b)) _ _
              (λ rb.
                let (m, l) = sb.unbound rb in
                bound-Keeps (bind e b a) (bind-Undoable k.undoable b a rb m l) (bind-stack e b a))
              λ _.
                Keeps-if (not (same_tag (tag a) (tag b))) _ _ (λ _. Keeps-ok false e k)
                  λ _. unify_same_tag-Keeps a b

    unify_resolved-Keeps :
        (a b : Cell)
        → Resolved e.heap a
        → Resolved e.heap b
        → Keeps e0 (unify_resolved import_bits e a b)
    unfolding unify_resolved
    unify_resolved-Keeps a b sa sb =
        Keeps-if (a == b) _ _ (λ _. Keeps-ok true e k) (λ ne. unify_cells-Keeps a b sa sb ne)

    -- A whole round keeps what it must.
    pub unify_round-Kept :
        (a0 b0 : Cell) (cost : ℕ) (r : Bool × Env × ℕ)
        → unify_round import_bits e a0 b0 cost ≡ ok r
        → Kept e0 r.1
    unfolding unify_round deref_with_cost
    unify_round-Kept a0 b0 cost r h =
        let third : Cell × ℕ → Cell × ℕ → Bool × Env → Result (Bool × Env × ℕ) =
          λ a b q. ok (q.0, q.1, cost + a.1 + b.1) in
        let second = λ (a b : Cell × ℕ). unify_resolved import_bits e a.0 b.0 >>= third a b in
        let first = λ (a : Cell × ℕ). deref_with_cost e.heap b0 >>= second a in
        let (a, ha, h1) = >>=-eq-ok (deref_with_cost e.heap a0) first h in
        let (b, hb, h2) = >>=-eq-ok (deref_with_cost e.heap b0) (second a) h1 in
        let (q, hq, h3) = >>=-eq-ok (unify_resolved import_bits e a.0 b.0) (third a b) h2 in
        let sa = deref_loop-Resolved (deref_fuel e.heap) e.heap a0 1 a.0 a.1 ha in
        let sb = deref_loop-Resolved (deref_fuel e.heap) e.heap b0 1 b.0 b.1 hb in
        subst (λ (x : Bool × Env × ℕ). Kept e0 x.1) (ok-injective h3)
          ((unify_resolved-Keeps a.0 b.0 sa sb).at q.0 q.1 hq)
