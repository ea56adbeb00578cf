-- ===== src/Env/Unify/Rounds.antt =====
-- What each round of unification keeps: what it wrote can be undone, and it works above the stack that
-- it was given.
use mathlib.Core.List.{append_assoc}
use epilog.Prelude.{
  ℕ, ◌^◌, ◌≤◌, ◌<◌, ◌≡◌, ◌≢◌, refl, sym, ap, ◌∙◌, Bool, true, false, inl, inr, Bool-cases, ◌==◌,
  ltb, lt→ltb, ◌&&◌, if◌then◌else◌, List, [], ◌∷◌, ◌++◌, arith,
}
use epilog.Term.Cell.{Cell, ref, rfw, tag, same_tag, is_ref, index, ref_cell, rfw_cell, watched}
use epilog.Term.Cell.Laws.{tag-cell, eq_of_same_tag}
use epilog.Heap.{Heap, update, heap_set, heap_watch, watch_cell, add_watched}
use epilog.Heap.Deref.{Resolved}
use epilog.Env.Trail.{count, count-append}
use epilog.Env.{Env, bind}
use epilog.Env.Unify.{bind_refs}
use epilog.Env.Unify.Undo.{
  SameCells, plain, plain-ref, update-ne, Restorable, Restorable-update, undo, undo-bind,
  undo-watch,
}

-- From the state `e`, failure would give back the heap of `e0` up to watches, and cut the trail back.
pub record Undoable (e0 e : Env) : Type 0 where
  pub added : List ℕ
  pub trail : e.trail ≡ e0.trail ++ added
  pub size : e.heap.size ≡ e0.heap.size
  pub hb : e.register_hb ≡ e0.heap.size
  pub below : (k : ℕ) → e0.heap.size ≤ k → count k added ≡ 0
  pub fits : e0.heap.size ≤ 2 ^ 61
  pub restorable : Restorable e.heap.mem e.temp_trail
  pub given_back : SameCells (undo e.heap.mem e.temp_trail added) e0.heap.mem

add_watched-mem :
    (h : Heap) (i : ℕ) → ((add_watched h i).mem ≡ h.mem) × ((add_watched h i).size ≡ h.size)
unfolding add_watched
add_watched-mem h i = ground arith

below-append : (k : ℕ) (xs : List ℕ) (i : ℕ) → count k xs ≡ 0 → i < k → count k (xs ++ (i ∷ [])) ≡ 0
unfolding count
below-append k xs i h l = ground (arith, count-append k xs (i ∷ []), h, l)

-- What a binding does to the parts of the environment.
record IsBound (e : Env) (a b : Cell) (e1 : Env) : Type 0 where
  mem : e1.heap.mem ≡ update e.heap.mem (index a) b
  size : e1.heap.size ≡ e.heap.size
  trail : e1.trail ≡ e.trail ++ (index a ∷ [])
  temp_trail : e1.temp_trail ≡ e.temp_trail
  stack : e1.stack ≡ e.stack
  hb : e1.register_hb ≡ e.register_hb

bind-IsBound : (e : Env) (a b : Cell) → index a < e.register_hb → IsBound e a b (bind e a b)
unfolding bind
bind-IsBound e a b l =
    rw (lt→ltb (index a) e.register_hb l) (elim (Bool-cases (same_tag (tag a) rfw)) [
      | inl y ↦
          let (m, s) = add_watched-mem e.heap (index a) in
          rw y (record {
            mem = unfold heap_set in ap (λ (n : ℕ → Cell). update n (index a) b) m;
            size = unfold heap_set in s;
            trail = refl;
            temp_trail = refl;
            stack = refl;
            hb = refl;
          })
      | inr n ↦ rw n (record {
        mem = unfold heap_set in refl;
        size = unfold heap_set in refl;
        trail = refl;
        temp_trail = refl;
        stack = refl;
        hb = refl;
      })
    ])

rfw_cell-index : (k : ℕ) → ref_cell (index (rfw_cell k)) ≡ ref_cell k
unfolding ref_cell rfw_cell index
rfw_cell-index k = omega arith

is_ref_tags : (is_ref ref ≡ true) × (is_ref rfw ≡ true)
unfolding is_ref
is_ref_tags = (refl, refl)

plain-watch_cell : (c : Cell) → plain (watch_cell c true) ≡ plain c
unfolding watch_cell
plain-watch_cell c = elim (Bool-cases (same_tag (tag c) ref)) [
  | inl y ↦
      let t : tag c ≡ ref = eq_of_same_tag (tag c) ref y in
      let r : is_ref (tag c) ≡ true = ap is_ref t ∙ is_ref_tags.0 in
      let w : tag (rfw_cell (index c)) ≡ rfw = unfold rfw_cell in tag-cell rfw (index c) in
      let rw' : is_ref (tag (rfw_cell (index c))) ≡ true = ap is_ref w ∙ is_ref_tags.1 in
      rw y (plain-ref (rfw_cell (index c)) rw' ∙ rfw_cell-index (index c) ∙ sym (plain-ref c r))
  | inr n ↦ rw n (no_change (same_tag (tag c) rfw))
]
  where
    no_change : (b : Bool) → plain (if b && false then ref_cell (index c) else c) ≡ plain c
    no_change true = refl
    no_change false = refl

module _ {e0 e : Env} (u : Undoable e0 e) where
  pub bind-Undoable :
      (a b : Cell)
      → is_ref (tag a) ≡ true
      → e.heap.mem (index a) ≡ a
      → index a < e.heap.size
      → Undoable e0 (bind e a b)
  bind-Undoable a b r m l =
      let f = bind-IsBound e a b (omega (arith, u.hb, u.size)) in
      let back =
        undo-bind e.heap.mem e.temp_trail u.added (index a) b u.restorable (rw m r) (ap index m) in
      record {
        added = u.added ++ (index a ∷ []);
        trail =
            f.trail
            ∙ ap (λ (t : List ℕ). t ++ (index a ∷ [])) u.trail
            ∙ append_assoc e0.trail u.added (index a ∷ []);
        size = f.size ∙ u.size;
        hb = f.hb ∙ u.hb;
        below =
            λ k l1. below-append k u.added (index a) (u.below k l1) (omega (arith, l, l1, u.size));
        fits = u.fits;
        restorable = rw (f.mem, f.temp_trail) (Restorable-update (index a) b (rw m r) u.restorable);
        given_back = λ i. rw (f.mem, f.temp_trail) (back i ∙ u.given_back i);
      }

  pub watch-Undoable :
      (k : ℕ)
      → is_ref (tag (e.heap.mem k)) ≡ true
      → Undoable e0 (record e { heap = heap_watch e.heap k true })
  unfolding heap_watch
  watch-Undoable k r =
      let c : Cell = watch_cell (e.heap.mem k) true in
      let back =
        undo-watch e.heap.mem e.temp_trail u.added k c u.restorable r
          (plain-watch_cell (e.heap.mem k)) in
      record {
        added = u.added;
        trail = u.trail;
        size = u.size;
        hb = u.hb;
        below = u.below;
        fits = u.fits;
        restorable = Restorable-update k c r u.restorable;
        given_back = λ i. back i ∙ u.given_back i;
      }

-- Binding the variable at the higher address, behind the watch of the other one.
bind_higher :
    {e0 e : Env} (a b : Cell) (w : Bool)
    → Undoable e0 e
    → is_ref (tag a) ≡ true
    → is_ref (tag b) ≡ true
    → e.heap.mem (index a) ≡ a
    → e.heap.mem (index b) ≡ b
    → index b < e.heap.size
    → index b ≢ index a
    → Undoable e0 (bind (if w then record e { heap = heap_watch e.heap (index a) true } else e) b a)
bind_higher a b false u ra rb ma mb lb ne = bind-Undoable u b a rb mb lb
bind_higher {e0} {e} a b true u ra rb ma mb lb ne =
    let c : Cell = watch_cell (e.heap.mem (index a)) true in
    let other : (heap_watch e.heap (index a) true).mem (index b) ≡ b =
      unfold heap_watch in update-ne e.heap.mem (index a) c (index b) ne ∙ mb in
    let size : index b < (heap_watch e.heap (index a) true).size = unfold heap_watch in lb in
    bind-Undoable (watch-Undoable u (index a) (rw ma ra)) b a rb other size

-- Two unbound variables are bound, the higher to the lower.
pub bind_refs-Undoable :
    {e0 e : Env} (a b : Cell)
    → Undoable e0 e
    → is_ref (tag a) ≡ true
    → is_ref (tag b) ≡ true
    → Resolved e.heap a
    → Resolved e.heap b
    → (a == b) ≡ false
    → Undoable e0 (bind_refs e a b)
unfolding bind_refs
bind_refs-Undoable {e0} {e} a b u ra rb sa sb ne =
    let (ma, la) = sa.unbound ra in
    let (mb, lb) = sb.unbound rb in
    let apart : index a ≢ index b = λ p. unequal a b ne (sym ma ∙ ap e.heap.mem p ∙ mb) in
    elim (Bool-cases (ltb (index a) (index b))) [
      | inl y ↦ rw y (bind_higher a b (watched b) u ra rb ma mb lb (λ p. apart (sym p)))
      | inr n ↦ rw n (bind_higher b a (watched a) u rb ra mb ma la apart)
    ]
  where
    unequal : (a b : Cell) → (a == b) ≡ false → a ≢ b
    unequal a b h = ground arith
