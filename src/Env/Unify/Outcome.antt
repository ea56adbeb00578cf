-- ===== src/Env/Unify/Outcome.antt =====
-- What term_utils::unify leaves behind: everything as it was if it fails, and if it succeeds only bound
-- variables, recorded on the trail as far as they are older than HB.
use mathlib.Core.List.{append-nil}
use mathlib.Core.Path.{subst}
use epilog.Env.Trail.{count, tidy_trail-IsTidied}
use epilog.Prelude.{
  ℕ, zero, suc, ◌+◌, ◌-◌, ◌^◌, ◌≤◌, ◌≡◌, refl, sym, ap, ◌∙◌, Bool, true, false, inl, inr,
  Bool-cases, ltb, ltb→lt, if◌then◌else◌, List, [], ◌++◌, length, length-append, take-append,
  drop-append, take-length, take, drop, arith,
}
use epilog.Term.Cell.{Cell}
use epilog.Heap.{Result, ok, ◌>>=◌}
use epilog.Heap.Deref.{>>=-eq-ok, ok-injective}
use epilog.Env.{
  Env, push, set_register_hb, trim_stack, trim_trail, unwind, unwind_trail, tidy_trail,
}
use epilog.Env.Unify.{
  pop_pair, restore, restore_cells_after_unify, finish_unify, unify_round, unify_loop, unify_helper,
  unify,
}
use epilog.Env.Unify.Undo.{SameCells, done}
use epilog.Env.Unify.Rounds.{Undoable}
use epilog.Env.Unify.Kept.{Kept, OnTop, level, pair, OnTop-pair}
use epilog.Env.Unify.Steps.{unify_round-Kept}

set_stack-Undoable :
    {e0 e : Env} (s : List Cell) → Undoable e0 e → Undoable e0 (record e { stack = s })
set_stack-Undoable s u = record {
  added = u.added;
  trail = u.trail;
  size = u.size;
  hb = u.hb;
  below = u.below;
  fits = u.fits;
  restorable = u.restorable;
  given_back = u.given_back;
}

-- How the loop ends: on success with the stack at its level.
record IsEnd (e0 : Env) (r : Bool × Env × ℕ) : Type 0 where
  kept : Kept e0 r.1
  level : r.0 ≡ true → length r.1.stack ≤ length e0.stack

module _ (import_bits : List ℕ → ℕ) where
  unify_loop-IsEnd :
      {e0 : Env} (fuel : ℕ) (e : Env) (cost : ℕ) (r : Bool × Env × ℕ)
      → Kept e0 e
      → unify_loop import_bits fuel (length e0.stack) e cost ≡ ok r
      → IsEnd e0 r
  unfolding unify_loop
  unify_loop-IsEnd zero e cost r k h = cc
  unify_loop-IsEnd {e0} (suc fuel) e cost r k h =
      elim (Bool-cases (ltb (length e0.stack) (length e.stack))) [
        | inr n ↦
            subst (IsEnd e0) (ok-injective (rw n at h))
              (record { kept = k; level = λ _. not_higher (length e0.stack) (length e.stack) n })
        | inl y ↦
            let (a, b, s, es, top) =
              OnTop-pair k.on_top (ltb→lt (length e0.stack) (length e.stack) y) in
            let popped : Env = record e { stack = s } in
            let k1 : Kept e0 popped = record {
              undoable = set_stack-Undoable s k.undoable;
              on_top = top;
            } in
            let after : Bool × Env × ℕ → Result (Bool × Env × ℕ) = λ q. elim (q.0) [
              | true ↦ unify_loop import_bits fuel (length e0.stack) q.1 q.2
              | false ↦ ok q
            ] in
            let h1 : (unify_round import_bits popped a b cost >>= after) ≡ ok r =
              unfold pop_pair in rw es at (rw y at h) in
            let (q, hq, h2) = >>=-eq-ok (unify_round import_bits popped a b cost) after h1 in
            continue (λ e1 c1 k1 h3. unify_loop-IsEnd fuel e1 c1 r k1 h3) q
              (unify_round-Kept k1 import_bits a b cost q hq) h2
      ]
    where
      not_higher : (m n : ℕ) → ltb m n ≡ false → n ≤ m
      not_higher m n h = ground arith

      continue :
          ((e1 : Env) (c1 : ℕ)
            → Kept e0 e1
            → unify_loop import_bits fuel (length e0.stack) e1 c1 ≡ ok r
            → IsEnd e0 r)
          → (q : Bool × Env × ℕ) → Kept e0 q.1
          → ◌≡◌ {A = Result (Bool × Env × ℕ)}
              (elim (q.0) [
                | true ↦ unify_loop import_bits fuel (length e0.stack) q.1 q.2
                | false ↦ ok q
              ])
              (ok r)
          → IsEnd e0 r
      continue rest (true, e1, c1) kq h2 = rest e1 c1 kq h2
      continue rest (false, e1, c1) kq h2 =
          subst (IsEnd e0) (ok-injective h2) (record { kept = kq; level = λ t. cc t })

pub OnTop-length : {s0 s : List Cell} → OnTop s0 s → length s0 ≤ length s
OnTop-length level = omega arith
OnTop-length (pair {s} a b t) = omega (arith, OnTop-length t)

pub OnTop-drop : {s0 s : List Cell} → OnTop s0 s → drop (length s - length s0) s ≡ s0
OnTop-drop {s0} level = rw (nothing (length s0)) refl
  where
    nothing : (n : ℕ) → n - n ≡ 0
    nothing n = omega arith
OnTop-drop {s0} (pair {s} a b t) = rw (two (length s) (length s0) (OnTop-length t)) (OnTop-drop t)
  where
    two : (m n : ℕ) → n ≤ m → suc (suc m) - n ≡ suc (suc (m - n))
    two m n l = omega arith

-- The entries that a trail has gained.
pub new_entries :
    (old added new : List ℕ)
    → new ≡ old ++ added
    → take (length new - length old) (drop (length old) new) ≡ added
new_entries old added new e =
    rw (e, drop-append old added, length-append old added, rest (length old) (length added))
      (take-length added)
  where
    rest : (m n : ℕ) → m + n - m ≡ n
    rest m n = omega arith

-- The state before the first round, with HB at the top of the heap.
start-Kept :
    (e : Env) (a b : Cell)
    → e.temp_trail ≡ []
    → e.heap.size ≤ 2 ^ 61
    → Kept (set_register_hb e e.heap.size) (push (push (set_register_hb e e.heap.size) b) a)
unfolding push set_register_hb
start-Kept e a b t l = record {
  undoable = record {
    added = [];
    trail = sym (append-nil e.trail);
    size = refl;
    hb = refl;
    below = λ k _. unfold count in refl;
    fits = l;
    restorable = rw t done;
    given_back = λ i. rw t (unfold unwind restore in refl);
  };
  on_top = pair a b level;
}

-- The parts of the environment that failure gives back: the heap's cells up to watches, and the stacks.
pub record IsGivenBack (e e1 : Env) : Type 0 where
  pub cells : SameCells e1.heap.mem e.heap.mem
  pub size : e1.heap.size ≡ e.heap.size
  pub stack : e1.stack ≡ e.stack
  pub trail : e1.trail ≡ e.trail
  pub temp_trail : e1.temp_trail ≡ []
  pub register_hb : e1.register_hb ≡ e.register_hb

failed-IsGivenBack :
    (e e1 : Env) (cost : ℕ)
    → Kept (set_register_hb e e.heap.size) e1
    → IsGivenBack e (finish_unify e (false, restore_cells_after_unify e1, cost)).1
unfolding finish_unify restore_cells_after_unify unwind_trail trim_stack trim_trail set_register_hb
failed-IsGivenBack e e1 cost k =
    let u = k.undoable in
    let same = new_entries e.trail u.added e1.trail u.trail in
    record {
      cells = λ i. rw same (u.given_back i);
      size = u.size;
      stack = OnTop-drop k.on_top;
      trail = rw u.trail (take-append e.trail u.added);
      temp_trail = refl;
      register_hb = refl;
    }

-- What success leaves: cells that were bound, which unbinding gives back, and a trail with those of
-- them that are older than HB.
pub record IsBoundBy (e e1 : Env) : Type 0 where
  pub bindings : List ℕ
  pub kept : List ℕ
  pub cells : SameCells (unwind e1.heap.mem bindings) e.heap.mem
  pub trail : e1.trail ≡ e.trail ++ kept
  pub older : (k : ℕ) → count k kept ≡ (if ltb k e.register_hb then count k bindings else 0)
  pub below : (k : ℕ) → e.heap.size ≤ k → count k bindings ≡ 0
  pub size : e1.heap.size ≡ e.heap.size
  pub stack : e1.stack ≡ e.stack
  pub temp_trail : e1.temp_trail ≡ []
  pub register_hb : e1.register_hb ≡ e.register_hb

tidy_trail-rest :
    (e : Env) (from to : ℕ)
    → ((tidy_trail e from to).heap ≡ e.heap)
      × ((tidy_trail e from to).stack ≡ e.stack)
      × ((tidy_trail e from to).temp_trail ≡ e.temp_trail)
      × ((tidy_trail e from to).register_hb ≡ e.register_hb)
unfolding tidy_trail
tidy_trail-rest e from to = (refl, refl, refl, refl)

pub OnTop-level : {s0 s : List Cell} → OnTop s0 s → length s ≤ length s0 → s ≡ s0
OnTop-level level l = refl
OnTop-level (pair a b t) l = absurd (omega (arith, OnTop-length t, l))

succeeded-IsBoundBy :
    (e e1 : Env) (cost : ℕ)
    → Kept (set_register_hb e e.heap.size) e1
    → length e1.stack ≤ length e.stack
    → IsBoundBy e (finish_unify e (true, restore_cells_after_unify e1, cost)).1
unfolding finish_unify restore_cells_after_unify set_register_hb
succeeded-IsBoundBy e e1 cost k l =
    let u = k.undoable in
    let e2 : Env = set_register_hb (restore_cells_after_unify e1) e.register_hb in
    let (h, s, t, hb) = tidy_trail-rest e2 (length e.trail) (length e1.trail) in
    let (kept, trail, older) = tidy_trail-IsTidied e2 e.trail u.added u.trail in
    record {
      bindings = u.added;
      kept = kept;
      cells = λ i. rw h (u.given_back i);
      trail = trail;
      older = older;
      below = u.below;
      size = rw h u.size;
      stack = s ∙ OnTop-level k.on_top l;
      temp_trail = t;
      register_hb = hb;
    }

module _ (import_bits : List ℕ → ℕ) where
  -- What unify returns comes from the end of the loop.
  unify-IsEnd :
      (fuel : ℕ) (e : Env) (a b : Cell) (r : Bool × Env × ℕ)
      → e.temp_trail ≡ []
      → e.heap.size ≤ 2 ^ 61
      → unify import_bits fuel e a b ≡ ok r
      → (q : Bool × Env × ℕ) × IsEnd (set_register_hb e e.heap.size) q
        × (finish_unify e (q.0, restore_cells_after_unify q.1, q.2) ≡ r)
  unfolding unify unify_helper
  unify-IsEnd fuel e a b r t l h =
      let e0 : Env = set_register_hb e e.heap.size in
      let e1 : Env = push (push e0 b) a in
      let restored : Bool × Env × ℕ → Result (Bool × Env × ℕ) =
        λ q. ok (q.0, restore_cells_after_unify q.1, q.2) in
      let finished : Bool × Env × ℕ → Result (Bool × Env × ℕ) = λ q. ok (finish_unify e q) in
      let loop = unify_loop import_bits fuel (length e0.stack) e1 0 in
      let (p, hp, h1) = >>=-eq-ok (loop >>= restored) finished h in
      let (q, hq, h2) = >>=-eq-ok loop restored hp in
      (
        q,
        unify_loop-IsEnd import_bits fuel e1 0 q (start-Kept e a b t l) hq,
        ap (finish_unify e) (ok-injective h2) ∙ ok-injective h1,
      )

  -- If unify returns false, every cell of the heap holds what it held before, up to the watch of a
  -- variable, and the heap's size, the stack, the trail and HB are as before, and the temporary trail is
  -- empty: no binding and no forwarded functor is left. The environment starts with an empty temporary
  -- trail and a heap of at most 2^61 cells.
  pub unify_failed-IsGivenBack :
      (fuel : ℕ) (e e1 : Env) (a b : Cell) (cost : ℕ)
      → e.temp_trail ≡ []
      → e.heap.size ≤ 2 ^ 61
      → unify import_bits fuel e a b ≡ ok (false, e1, cost)
      → IsGivenBack e e1
  unify_failed-IsGivenBack fuel e e1 a b cost t l h =
      let (q, end, f) = unify-IsEnd fuel e a b (false, e1, cost) t l h in go q end f
    where
      go :
          (q : Bool × Env × ℕ)
          → IsEnd (set_register_hb e e.heap.size) q
          → finish_unify e (q.0, restore_cells_after_unify q.1, q.2) ≡ (false, e1, cost)
          → IsGivenBack e e1
      go (false, e2, c) end f =
          subst (λ (x : Bool × Env × ℕ). IsGivenBack e x.1) f (failed-IsGivenBack e e2 c end.kept)
      go (true, e2, c) end f = unfold finish_unify in cc (ap (λ (x : Bool × Env × ℕ). x.0) f)

  -- If unify returns true, there is a list of addresses of the heap, the bindings, such that unbinding them in the
  -- heap that it leaves gives every cell what it held before, up to the watch of a variable; the trail is
  -- the one before with those bindings added that are below HB, each as often as it was bound; the
  -- heap's size, the stack and HB are as before, and the temporary trail is empty. The environment starts
  -- with an empty temporary trail and a heap of at most 2^61 cells.
  pub unify_succeeded-IsBoundBy :
      (fuel : ℕ) (e e1 : Env) (a b : Cell) (cost : ℕ)
      → e.temp_trail ≡ []
      → e.heap.size ≤ 2 ^ 61
      → unify import_bits fuel e a b ≡ ok (true, e1, cost)
      → IsBoundBy e e1
  unfolding set_register_hb
  unify_succeeded-IsBoundBy fuel e e1 a b cost t l h =
      let (q, end, f) = unify-IsEnd fuel e a b (true, e1, cost) t l h in go q end f
    where
      go :
          (q : Bool × Env × ℕ)
          → IsEnd (set_register_hb e e.heap.size) q
          → finish_unify e (q.0, restore_cells_after_unify q.1, q.2) ≡ (true, e1, cost)
          → IsBoundBy e e1
      go (true, e2, c) end f =
          subst (λ (x : Bool × Env × ℕ). IsBoundBy e x.1) f
            (succeeded-IsBoundBy e e2 c end.kept (end.level refl))
      go (false, e2, c) end f = unfold finish_unify in cc (ap (λ (x : Bool × Env × ℕ). x.0) f)
