-- ===== src/Env.antt =====
-- The term environment of common/term_env.hpp: a heap with a stack of cells, the trail of bindings,
-- the temporary trail of forwarded functors, and register HB, the heap's size at the last choice point.
-- The stack and the temporary trail stand newest first, the trail oldest first.
pub mod Unify
pub mod Trail
pub mod Equal
pub mod Order
pub mod Hash
mod Examples
use epilog.Prelude.{
  ℕ, zero, suc, ◌+◌, ◌-◌, Bool, true, false, ltb, if◌then◌else◌, Option, none, some, List, [], ◌∷◌,
  ◌++◌, length, get_elem?, set, take, drop,
}
use epilog.Term.Cell.{Cell, Tag, rfw, tag, same_tag, index, ref_cell}
use epilog.Heap.{Heap, update, heap_set, add_watched}

pub record Env : Type 0 where
  pub heap : Heap
  pub stack : List Cell
  pub trail : List ℕ
  pub temp_trail : List ℕ
  pub register_hb : ℕ

-- stacks_dock::push, and trim_stack, which keeps the oldest entries
unfoldable pub push : Env → Cell → Env
push e c = record e { stack = c ∷ e.stack }

unfoldable pub trim_stack : Env → ℕ → Env
trim_stack e n = record e { stack = drop (length e.stack - n) e.stack }

-- stacks_dock::push_trail, trail and trim_trail
unfoldable pub push_trail : Env → ℕ → Env
push_trail e i = record e { trail = e.trail ++ (i ∷ []) }

unfoldable pub trail_binding : Env → ℕ → Env
unfolding push_trail
trail_binding e i = if ltb i e.register_hb then push_trail e i else e

unfoldable pub trim_trail : Env → ℕ → Env
trim_trail e n = record e { trail = take n e.trail }

unfoldable pub set_register_hb : Env → ℕ → Env
set_register_hb e hb = record e { register_hb = hb }

-- term_utils::bind (and term_env::bind)
unfoldable pub bind : Env → Cell → Cell → Env
unfolding trail_binding
bind e a b =
    let h = if same_tag (tag a) rfw then add_watched e.heap (index a) else e.heap in
    trail_binding (record e { heap = heap_set h (index a) b }) (index a)

-- The loop of unwind_trail: each recorded variable is unbound again.
unfoldable pub unwind : (ℕ → Cell) → List ℕ → ℕ → Cell
unwind m [] = m
unwind m (k ∷ ks) = unwind (update m k (ref_cell k)) ks

-- term_utils::unwind_trail(from, to) (and term_env::unwind_trail)
unfoldable pub unwind_trail : Env → ℕ → ℕ → Env
unwind_trail e from to = record e {
  heap = record e.heap { mem = unwind e.heap.mem (take (to - from) (drop from e.trail)) };
}

-- stacks_dock::trail_get; the code reads in range.
unfoldable pub trail_get : List ℕ → ℕ → ℕ
trail_get ks i = elim (get_elem? ks i) [ none ↦ 0 | some k ↦ k ]

-- The loop of stacks_dock::tidy_trail, which runs at most `to - i` rounds: an entry below HB stays, and
-- the last entry takes the place of any other. It ends with the trail and its new end.
unfoldable pub tidy_loop : ℕ → ℕ → List ℕ → ℕ → ℕ → List ℕ × ℕ
unfolding trail_get
tidy_loop zero hb ks i to = (ks, to)
tidy_loop (suc rounds) hb ks i to =
    let stay = tidy_loop rounds hb ks (i + 1) to in
    let drop_it = tidy_loop rounds hb (set ks i (trail_get ks (to - 1))) i (to - 1) in
    if ltb i to then (if ltb (trail_get ks i) hb then stay else drop_it) else (ks, to)

-- stacks_dock::tidy_trail
unfoldable pub tidy_trail : Env → ℕ → ℕ → Env
tidy_trail e from to =
    let (ks, end) = tidy_loop (to - from) e.register_hb e.trail from to in
    record e { trail = take end ks }

-- term_env::state_context, save_state and restore_state
pub record StateContext : Type 0 where
  pub trail : ℕ
  pub stack : ℕ
  pub hb : ℕ

unfoldable pub save_state : Env → StateContext
save_state e = record { trail = length e.trail; stack = length e.stack; hb = e.register_hb }

unfoldable pub restore_state : Env → StateContext → Env
unfolding unwind_trail trim_trail trim_stack set_register_hb
restore_state e s =
    set_register_hb
      (trim_stack (trim_trail (unwind_trail e s.trail (length e.trail)) s.trail) s.stack) s.hb
