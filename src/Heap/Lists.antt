-- ===== src/Heap/Lists.antt =====
-- Lists on the heap: list_length, is_list and check_functor of common/term.cpp, on fuel, since the source's loops
-- do not end on a list that leads back to itself.
pub mod Proper
mod Examples
use epilog.Prelude.{ℕ, zero, suc, ◌+◌, Bool, true, false, not, ltb, ◌==◌, if◌then◌else◌}
use epilog.Term.Cell.{Cell, con, str, tag, same_tag, index}
use epilog.Heap.{
  Heap, Result, ok, throw, ◌>>=◌, endless_loop, get, deref, functor, arg, empty_list, dotted_pair,
}

-- The loop of heap::list_length, with the count that follows it.
pub list_length_loop : ℕ → Heap → Cell → ℕ → Result ℕ
list_length_loop zero h lst n = throw endless_loop
list_length_loop (suc fuel) h lst n =
    if lst == empty_list then ok n else if not (same_tag (tag lst) str) then ok (n + 2) else (do
      f ← functor h lst
      if not (f == dotted_pair)
          then ok (n + 2)
          else (do rest ← arg h lst 1; list_length_loop fuel h rest (n + 1)))

-- heap::list_length
pub list_length : ℕ → Heap → Cell → Result ℕ
list_length fuel h lst = list_length_loop fuel h lst 0

-- heap::check_functor
pub check_functor : Heap → Cell → Result Bool
check_functor h c =
    if not (same_tag (tag c) str)
    then ok false
    else if not (ltb (index c) h.size)
    then ok false
    else (do fc ← get h (index c); ok (same_tag (tag fc) con))

-- The loop of heap::is_list
pub is_list_loop : ℕ → Heap → Cell → Result Bool
is_list_loop zero h l = throw endless_loop
is_list_loop (suc fuel) h l = if l == empty_list then ok true else (do
  known ← check_functor h l
  if not known then ok false else (do
    f ← functor h l
    if not (f == dotted_pair) then ok false else (do rest ← arg h l 1; is_list_loop fuel h rest)))

-- heap::is_list
pub is_list : ℕ → Heap → Cell → Result Bool
is_list fuel h c = do l ← deref h c; is_list_loop fuel h l
