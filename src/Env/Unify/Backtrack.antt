-- ===== src/Env/Unify/Backtrack.antt =====
-- Backtracking over a unification: term_env::save_state, unify, and restore_state.
use epilog.Prelude.{
  ℕ, ◌+◌, ◌-◌, ◌^◌, ◌≤◌, ◌≡◌, refl, sym, ap, ◌∙◌, true, inl, inr, Bool-cases, ltb, ◌==◌, ==_iff,
  if◌then◌else◌, List, [], ◌∷◌, length, take-append, arith,
}
use epilog.Term.Cell.{Cell, ref_cell}
use epilog.Heap.{ok, update}
use epilog.Env.{
  Env, unwind, unwind_trail, trim_trail, trim_stack, set_register_hb, save_state, restore_state,
}
use epilog.Env.Trail.{count}
use epilog.Env.Unify.{unify}
use epilog.Env.Unify.Undo.{plain}
use epilog.Env.Unify.Outcome.{IsGivenBack, IsBoundBy, new_entries, unify_succeeded-IsBoundBy}

-- Unwinding makes an unbound variable of each address on the trail, in whatever order it stands there.
unwind-at :
    (m : ℕ → Cell) (ks : List ℕ) (i : ℕ)
    → unwind m ks i ≡ (if count i ks == 0 then m i else ref_cell i)
unfolding unwind count
unwind-at m [] i = refl
unwind-at m (k ∷ ks) i = unwind-at (update m k (ref_cell k)) ks i ∙ (elim (Bool-cases (i == k)) [
  | inl y ↦ rw y (
      either_way (count i ks) (ref_cell k) (ref_cell i) (m i)
        (ap ref_cell (sym ((==_iff i k).0 y))))
  | inr n ↦ rw n (no_count (count i ks) (m i) (ref_cell i))
])
  where
    either_way :
        (n : ℕ) (b c d : Cell) → b ≡ c → (if n == 0 then b else c) ≡ (if 1 + n == 0 then d else c)
    either_way n b c d e = ground (arith, e)

    no_count : (n : ℕ) (c d : Cell) → (if n == 0 then c else d) ≡ (if 0 + n == 0 then c else d)
    no_count n c d = ground arith

-- Two trails with the same entries are unwound to the same memory.
unwind-same :
    (m : ℕ → Cell) (js ks : List ℕ)
    → ((i : ℕ) → count i js ≡ count i ks)
    → (i : ℕ) → unwind m js i ≡ unwind m ks i
unwind-same m js ks same i =
    unwind-at m js i
    ∙ ap (λ (n : ℕ). if n == 0 then m i else ref_cell i) (same i)
    ∙ sym (unwind-at m ks i)

all_older : (hb n j k : ℕ) → j ≡ (if ltb n hb then k else 0) → (hb ≤ n → k ≡ 0) → j ≡ k
all_older hb n j k e h = ground arith

restored-IsGivenBack :
    (e e1 : Env)
    → e.register_hb ≡ e.heap.size
    → IsBoundBy e e1
    → IsGivenBack e (restore_state e1 (save_state e))
unfolding restore_state save_state unwind_trail trim_trail trim_stack set_register_hb
restored-IsGivenBack e e1 hb b =
    let counts : (i : ℕ) → count i b.kept ≡ count i b.bindings = λ i.
      all_older e.register_hb i (count i b.kept) (count i b.bindings) (b.older i)
        (λ l. b.below i (rw (← hb) l)) in
    record {
      cells = λ i.
          rw (new_entries e.trail b.kept e1.trail b.trail)
            (ap plain (unwind-same e1.heap.mem b.kept b.bindings counts i) ∙ b.cells i);
      size = b.size;
      stack = rw (b.stack, none_above (length e.stack)) refl;
      trail = rw b.trail (take-append e.trail b.kept);
      temp_trail = b.temp_trail;
      register_hb = refl;
    }
  where
    none_above : (n : ℕ) → n - n ≡ 0
    none_above n = omega arith

module _ (import_bits : List ℕ → ℕ) where
  -- With HB at the top of the heap, where a choice point sets it, restore_state undoes a unification that
  -- succeeded after save_state: every cell of the heap holds what it held before, up to the watch of a
  -- variable, and the heap's size, the stack, the trail and HB are as before, and the temporary trail is
  -- empty. The environment starts with an empty temporary trail and a heap of at most 2^61 cells.
  pub restore_state-unify :
      (fuel : ℕ) (e e1 : Env) (a b : Cell) (cost : ℕ)
      → e.temp_trail ≡ []
      → e.heap.size ≤ 2 ^ 61
      → e.register_hb ≡ e.heap.size
      → unify import_bits fuel e a b ≡ ok (true, e1, cost)
      → IsGivenBack e (restore_state e1 (save_state e))
  restore_state-unify fuel e e1 a b cost t l hb h =
      restored-IsGivenBack e e1 hb (unify_succeeded-IsBoundBy import_bits fuel e e1 a b cost t l h)
