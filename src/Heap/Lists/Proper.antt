-- ===== src/Heap/Lists/Proper.antt =====
-- The lists that end in [].
use epilog.Prelude.{ℕ, zero, suc, ◌+◌, ◌<◌, ◌≡◌, refl, ap, ◌∙◌, true, false, ◌==◌, ==_iff, arith}
use epilog.Term.Cell.{Cell, str, tag}
use epilog.Term.Cell.Laws.{same_tag_refl}
use epilog.Heap.{Heap, ok, deref, functor, arg, empty_list, dotted_pair}
use epilog.Heap.Lists.{list_length_loop, list_length, check_functor, is_list_loop, is_list}

-- A list of n elements: [] or a dotted pair whose second argument is a list.
pub data IsProper (h : Heap) : Cell → ℕ → Type 0 where
  ends : IsProper h empty_list 0
  goes_on :
      {l d : Cell} {n : ℕ}
      → (l == empty_list) ≡ false
      → tag l ≡ str
      → check_functor h l ≡ ok true
      → functor h l ≡ ok dotted_pair
      → arg h l 1 ≡ ok d
      → IsProper h d n
      → IsProper h l (suc n)

empty_same : (empty_list == empty_list) ≡ true
empty_same = (==_iff empty_list empty_list).1 refl

dotted_same : (dotted_pair == dotted_pair) ≡ true
dotted_same = (==_iff dotted_pair dotted_pair).1 refl

list_length_loop-IsProper :
    (h : Heap) (fuel : ℕ) (l : Cell) (n m : ℕ)
    → IsProper h l n
    → n < fuel
    → list_length_loop fuel h l m ≡ ok (m + n)
unfolding list_length_loop
list_length_loop-IsProper h zero l n m p lt = absurd (omega (arith, lt))
list_length_loop-IsProper h (suc fuel) l zero m ends lt = rw empty_same (ap ok (omega arith))
list_length_loop-IsProper h (suc fuel) l (suc n) m (goes_on {d = d} ne t _ f a p) lt =
    rw (ne, t, same_tag_refl str, f, dotted_same, a)
      (list_length_loop-IsProper h fuel d n (m + 1) p (omega (arith, lt)) ∙ ap ok (omega arith))

is_list_loop-IsProper :
    (h : Heap) (fuel : ℕ) (l : Cell) (n : ℕ)
    → IsProper h l n
    → n < fuel
    → is_list_loop fuel h l ≡ ok true
unfolding is_list_loop
is_list_loop-IsProper h zero l n p lt = absurd (omega (arith, lt))
is_list_loop-IsProper h (suc fuel) l zero ends lt = rw empty_same refl
is_list_loop-IsProper h (suc fuel) l (suc n) (goes_on {d = d} ne t c f a p) lt =
    rw (ne, c, f, dotted_same, a) (is_list_loop-IsProper h fuel d n p (omega (arith, lt)))

-- For a cell that leads to a list of n elements, with more fuel than elements, is_list returns true, and
-- list_length returns n for the cell that it leads to.
pub list_length-IsProper :
    (h : Heap) (fuel : ℕ) (c l : Cell) (n : ℕ)
    → deref h c ≡ ok l
    → IsProper h l n
    → n < fuel
    → (is_list fuel h c ≡ ok true) × (list_length fuel h l ≡ ok n)
unfolding is_list list_length
list_length-IsProper h fuel c l n e p lt = (
  rw e (is_list_loop-IsProper h fuel l n p lt),
  list_length_loop-IsProper h fuel l n 0 p lt ∙ ap ok (omega arith),
)
