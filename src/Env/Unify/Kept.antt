-- ===== src/Env/Unify/Kept.antt =====
-- What unification keeps: what it wrote can be undone, and it works above the stack that it was given.
use mathlib.Core.Path.{subst}
use epilog.Prelude.{
  ℕ, zero, suc, ◌^◌, ◌<◌, ◌≡◌, ◌≢◌, refl, ap, ◌∙◌, inl, inr, Bool-cases, if◌then◌else◌, List, ◌∷◌,
  length, arith,
}
use epilog.Term.Cell.{Cell, con, fwd, tag, same_tag, index, fwd_cell}
use epilog.Term.Cell.Laws.{tag-cell, cell_parts}
use epilog.Heap.{Heap, Result, ok, ◌>>=◌, heap_set, get, arg}
use epilog.Heap.Deref.{>>=-eq-ok, ok-injective, ok_of_get}
use epilog.Env.{Env, push}
use epilog.Env.Unify.{skip_forward, push_args}
use epilog.Env.Unify.Rounds.{Undoable}
use epilog.Env.Unify.Undo.{undo-forward}

-- A stack that stands on another one, higher by pairs of cells.
pub data OnTop (s0 : List Cell) : List Cell → Type 0 where
  level : OnTop s0 s0
  pair : {s : List Cell} (a b : Cell) → OnTop s0 s → OnTop s0 (a ∷ b ∷ s)

pub record Kept (e0 e : Env) : Type 0 where
  pub undoable : Undoable e0 e
  pub on_top : OnTop e0.stack e.stack

push-Undoable : {e0 e : Env} (c : Cell) → Undoable e0 e → Undoable e0 (push e c)
unfolding push
push-Undoable c u = record {
  added = u.added;
  trail = u.trail;
  size = u.size;
  hb = u.hb;
  below = u.below;
  fits = u.fits;
  restorable = u.restorable;
  given_back = u.given_back;
}

pub push_args-Kept :
    {e0 : Env} (n : ℕ) (a b : Cell) (e : Env) {e1 : Env}
    → Kept e0 e
    → push_args n a b e ≡ ok e1
    → Kept e0 e1
unfolding push_args
push_args-Kept {e0} zero a b e k h = subst (Kept e0) (ok-injective h) k
push_args-Kept (suc n) a b e k h =
    let (ai, _, h1) =
      >>=-eq-ok (arg e.heap a n) (λ x. arg e.heap b n >>= λ y. push_args n a b (push (push e y) x))
        h in
    let (bi, _, h2) = >>=-eq-ok (arg e.heap b n) (λ y. push_args n a b (push (push e y) ai)) h1 in
    push_args-Kept n a b (push (push e bi) ai)
      (record {
        undoable = push-Undoable ai (push-Undoable bi k.undoable);
        on_top = unfold push in pair ai bi k.on_top;
      })
      h2

pub skip_forward-at :
    (fuel : ℕ) (h : Heap) (i : ℕ) {j : ℕ} {c : Cell}
    → skip_forward fuel h i ≡ ok (j, c)
    → (h.mem j ≡ c) × (j < h.size)
unfolding skip_forward
skip_forward-at zero h i e = cc
skip_forward-at (suc fuel) h i e =
    let (c, g, e1) =
      >>=-eq-ok (get h i)
        (λ x.
          let rest = skip_forward fuel h (index x) in
          if same_tag (tag x) fwd then rest else ok (i, x))
        e in
    elim (Bool-cases (same_tag (tag c) fwd)) [
      | inl y ↦ skip_forward-at fuel h (index c) (rw y at e1)
      | inr n ↦ here g (rw n at e1)
    ]
  where
    first : ℕ × Cell → ℕ
    first p = p.0

    second : ℕ × Cell → Cell
    second p = p.1

    here :
        {c d : Cell} {j : ℕ}
        → get h i ≡ ok c
        → ◌≡◌ {A = Result (ℕ × Cell)} (ok (i, c)) (ok (j, d))
        → (h.mem j ≡ d) × (j < h.size)
    here {c} {d} {j} g p =
        let (m, l) = ok_of_get h i c g in
        let q : i ≡ j = ap first (ok-injective p) in
        let r : c ≡ d = ap second (ok-injective p) in (rw (← q) (m ∙ r), rw (← q) l)

pub forward-Kept :
    {e0 e : Env} (i j : ℕ)
    → Kept e0 e
    → i < e.heap.size
    → j < e.heap.size
    → j ≢ i
    → e.heap.mem j ≡ e.heap.mem i
    → tag (e.heap.mem j) ≡ con
    → Kept e0 (record e { temp_trail = i ∷ e.temp_trail; heap = heap_set e.heap i (fwd_cell j) })
unfolding heap_set
forward-Kept {e0} {e} i j k li lj ne eq iscon =
    let u = k.undoable in
    let small : j < 2 ^ 61 = omega (arith, u.size, u.fits) in
    let t : tag (fwd_cell j) ≡ fwd = unfold fwd_cell in tag-cell fwd j in
    let v : index (fwd_cell j) ≡ j = unfold fwd_cell index in (cell_parts fwd j small).1 in
    let (r, back) =
      undo-forward e.heap.mem e.temp_trail i j (fwd_cell j) t v ne eq iscon u.restorable in
    record {
      undoable = record {
        added = u.added;
        trail = u.trail;
        size = u.size;
        hb = u.hb;
        below = u.below;
        fits = u.fits;
        restorable = r;
        given_back = rw back u.given_back;
      };
      on_top = k.on_top;
    }

-- A stack that is higher than the one it stands on has a pair on top.
pub OnTop-pair :
    {s0 s : List Cell}
    → OnTop s0 s
    → length s0 < length s
    → (a : Cell) × (b : Cell) × (s1 : List Cell) × (s ≡ a ∷ b ∷ s1) × OnTop s0 s1
OnTop-pair level h = absurd (omega arith)
OnTop-pair (pair {s} a b t) h = (a, b, s, refl, t)
