-- ===== src/Heap/Examples.antt =====
-- The theorems on the heap at small heaps.
use epilog.Prelude.{ℕ, ◌+◌, ◌-◌, ◌/◌, ◌≤◌, ◌<◌, ◌≡◌, refl, true, [], arith}
use epilog.Term.Cell.{Cell, str, tag, value, index, cell, ref_cell}
use epilog.Term.Bytes.{or_bytes}
use epilog.Term.Con
use epilog.Heap.{
  Heap, ok, empty, block_size, deref_with_cost, allocate, ensure_allocate, can_allocate, new_block,
  new_str,
}
use epilog.Heap.Deref.{Resolved, deref_with_cost-total}
use epilog.Heap.Alloc.{IsShaped, IsFreshStr, allocate_lem, new_str_lem}

-- Every cell refers to the one before it, and the first is unbound.
abbrev chain : Heap
chain = record {
  mem = λ i. ref_cell (i - 1);
  size = 3;
  num_blocks = 1;
  head_size = 3;
  watched = [];
  coin_security_enabled = true;
}

descends : (i : ℕ) → i < 3 → index (ref_cell (i - 1)) ≤ i
unfolding index ref_cell value cell
descends i l = omega (arith, l)

deref_with_cost-total_example :
    (r : Cell) × (k : ℕ) × (deref_with_cost chain (ref_cell 2) ≡ ok (r, k))
    × Resolved chain r
    × (1 ≤ k)
    × (k ≤ chain.size + 2)
deref_with_cost-total_example =
    deref_with_cost-total chain (ref_cell 2) (record { down = λ i l r. descends i l })
      (λ r. in_range)
  where
    in_range : index (ref_cell 2) < 3
    in_range = unfold index ref_cell value cell in omega arith

empty-IsShaped : IsShaped empty
empty-IsShaped = record { head_fits = omega arith; none_empty = λ e. refl; at_end = refl }

allocate_lem_example :
    IsShaped (allocate empty str 4).1
    × (empty.size ≤ (allocate empty str 4).0)
    × ((allocate empty str 4).1.size ≡ (allocate empty str 4).0 + 4)
    × ((i : ℕ)
        → i < 4
        → ((allocate empty str 4).0 + i) / block_size ≡ (allocate empty str 4).0 / block_size)
    × ((i : ℕ) → i < empty.size → (allocate empty str 4).1.mem i ≡ empty.mem i)
allocate_lem_example = allocate_lem empty str 4 empty-IsShaped (omega arith)

-- The functor with the atom of index 1, of arity 2.
abbrev pair_functor : Cell
pair_functor = Con.con_index_cell 1 2

new_str_lem_example :
    (s : Cell) × (h1 : Heap) × (new_str empty pair_functor ≡ ok (s, h1))
    × IsFreshStr empty pair_functor s h1
unfolding Con.con_index_cell Con.arity Con.is_direct Con.con_name_cell tag value cell allocate
    ensure_allocate can_allocate new_block or_bytes
new_str_lem_example = new_str_lem empty pair_functor empty-IsShaped refl refl (omega arith)
