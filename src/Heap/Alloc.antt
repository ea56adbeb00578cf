-- ===== src/Heap/Alloc.antt =====
-- Allocation on the heap (heap::allocate, heap::new_str, heap::new_big of common/term.hpp).
use epilog.Prelude.{
  ℕ, zero, suc, ◌+◌, ◌-◌, ◌*◌, ◌/◌, ◌^◌, ◌≤◌, ◌<◌, ◌≡◌, refl, ap, ◌∙◌, true, false, inl, inr,
  Bool-cases, ◌==◌, ==_iff, ◌&&◌, leb, ltb, if◌then◌else◌, arith,
}
use epilog.Term.Cell.{Cell, Tag, str, con, tag, same_tag, cell, value, index, set_index, ref_cell}
use epilog.Term.Cell.Laws.{cell_parts, set_value-cell}
use epilog.Term.Con
use epilog.Term.IntCell.{dat_cell, num_cells}
use epilog.Heap.Deref.{get-ok}
use epilog.Heap.{
  Heap, ok, block_size, update, coin, coin_security_check, can_allocate, new_block, ensure_allocate,
  head_end, allocate, fresh_args, new_str, new_big_cells, str_functor,
}

-- The sizes fit together: the heap ends where its head block does.
pub record IsShaped (h : Heap) : Type 0 where
  pub head_fits : h.head_size ≤ block_size
  pub none_empty : h.num_blocks ≡ 0 → h.head_size ≡ 0
  pub at_end : h.size ≡ head_end h

-- The head block has room for n more cells.
record HasRoom (h : Heap) (n : ℕ) : Type 0 where
  shaped : IsShaped h
  blocks : 0 < h.num_blocks
  room : h.head_size + n ≤ block_size

new_block-HasRoom : (h : Heap) (n : ℕ) → n ≤ block_size → HasRoom (new_block h) n
unfolding new_block
new_block-HasRoom h n fits = record {
  shaped = record { head_fits = omega arith; none_empty = λ e. refl; at_end = omega arith };
  blocks = omega arith;
  room = omega arith;
}

new_block-size : (h : Heap) → IsShaped h → h.size ≤ (new_block h).size
unfolding new_block
new_block-size h s = elim (Bool-cases (h.num_blocks == 0)) [
  | inl e ↦
      let z = s.none_empty ((==_iff h.num_blocks 0).0 e) in
      omega (arith, s.at_end, z, (==_iff h.num_blocks 0).0 e)
  | inr e ↦ omega (arith, s.at_end, s.head_fits, not_zero h.num_blocks e)
]
  where
    not_zero : (k : ℕ) → (k == 0) ≡ false → 0 < k
    not_zero k e = ground arith

can_allocate-HasRoom : (h : Heap) (n : ℕ) → IsShaped h → can_allocate h n ≡ true → HasRoom h n
unfolding can_allocate
can_allocate-HasRoom h n s e = record { shaped = s; blocks = ground arith; room = ground arith }

ensure_lem :
    (h : Heap) (n : ℕ)
    → IsShaped h
    → n ≤ block_size
    → HasRoom (ensure_allocate h n) n
      × (h.size ≤ (ensure_allocate h n).size)
      × ((ensure_allocate h n).mem ≡ h.mem)
unfolding ensure_allocate
ensure_lem h n s fits = elim (Bool-cases (can_allocate h n)) [
  | inl e ↦ rw e (can_allocate-HasRoom h n s e, omega arith, refl)
  | inr e ↦ rw e (new_block-HasRoom h n fits, new_block-size h s, unfold new_block in refl)
]

in_block : (k a n i : ℕ) → a + n ≤ 8192 → i < n → (k * 8192 + a + i) / 8192 ≡ (k * 8192 + a) / 8192
in_block k a n i h l = omega arith

update-other : (m : ℕ → Cell) (a : ℕ) (c : Cell) (i : ℕ) → i < a → update m a c i ≡ m i
update-other m a c i h = ground arith

-- A block of at most 8192 cells is allocated behind all cells of the heap, inside one heap block, and
-- the heap then ends behind it; no cell of the heap changes.
pub allocate_lem :
    (h : Heap) (t : Tag) (n : ℕ)
    → IsShaped h
    → n ≤ block_size
    → IsShaped (allocate h t n).1
      × (h.size ≤ (allocate h t n).0)
      × ((allocate h t n).1.size ≡ (allocate h t n).0 + n)
      × ((i : ℕ) → i < n → ((allocate h t n).0 + i) / block_size ≡ (allocate h t n).0 / block_size)
      × ((i : ℕ) → i < h.size → (allocate h t n).1.mem i ≡ h.mem i)
unfolding allocate
allocate_lem h t n s fits =
    let (r, grown, same) = ensure_lem h n s fits in
    let e : Heap = ensure_allocate h n in
    let bound : h.size ≤ head_end e = rw r.shaped.at_end at grown in
    (
      record {
        head_fits = r.room;
        none_empty = λ z. absurd (omega (arith, r.blocks));
        at_end = omega arith;
      },
      bound,
      refl,
      λ i l. in_block (e.num_blocks - 1) e.head_size n i r.room l,
      λ i l.
          update-other e.mem (head_end e) (cell t (head_end e)) i (omega arith)
          ∙ ap (λ (m : ℕ → Cell). m i) same,
    )

-- heap::new_big and dat_cell::num_cells count the same cells for a big number of n bits.
pub new_big_cells-num_cells : (n : ℕ) → n < 2 ^ 29 → new_big_cells n ≡ num_cells (dat_cell n)
unfolding new_big_cells num_cells dat_cell
new_big_cells-num_cells n h =
    let v : value (cell Tag.dat n) ≡ n = (cell_parts Tag.dat n (omega arith)).1 in
    rw v (ground arith)

fresh_args-at :
    (n i : ℕ) (m : ℕ → Cell) (j : ℕ)
    → fresh_args n i m j ≡ (if leb i j && ltb j (i + n) then ref_cell j else m j)
unfolding fresh_args
fresh_args-at zero i m j = ground arith
fresh_args-at (suc n) i m j = fresh_args-at n (i + 1) (update m i (ref_cell i)) j ∙ at
  where
    at :
        (if leb (i + 1) j && ltb j (i + 1 + n) then ref_cell j else update m i (ref_cell i) j)
        ≡ (if leb i j && ltb j (i + suc n) then ref_cell j else m j)
    at = elim (Bool-cases (j == i)) [
      | inl e ↦ rw ((==_iff j i).0 e) (ground arith)
      | inr e ↦ rw e (ground arith)
    ]

-- The memory that heap::new_str leaves, place by place.
abbrev str_mem : (ℕ → Cell) → ℕ → ℕ → Cell → Cell → ℕ → Cell
str_mem m n i s c = fresh_args n (i + 2) (update (update m i s) (i + 1) c)

str_mem-functor : (m : ℕ → Cell) (n i : ℕ) (s c : Cell) → str_mem m n i s c (i + 1) ≡ c
str_mem-functor m n i s c =
    fresh_args-at n (i + 2) (update (update m i s) (i + 1) c) (i + 1) ∙ ground arith

str_mem-arg :
    (m : ℕ → Cell) (n i : ℕ) (s c : Cell) (k : ℕ)
    → i + 2 ≤ k
    → k < i + 2 + n
    → str_mem m n i s c k ≡ ref_cell k
str_mem-arg m n i s c k lo hi =
    fresh_args-at n (i + 2) (update (update m i s) (i + 1) c) k ∙ ground arith

str_mem-below : (m : ℕ → Cell) (n i : ℕ) (s c : Cell) (k : ℕ) → k < i → str_mem m n i s c k ≡ m k
str_mem-below m n i s c k l =
    fresh_args-at n (i + 2) (update (update m i s) (i + 1) c) k ∙ ground arith

con_at :
    (h : Heap) (s c : Cell) (i : ℕ)
    → index s ≡ i
    → i < h.size
    → h.mem i ≡ c
    → tag c ≡ con
    → str_functor h s ≡ ok c
unfolding str_functor same_tag
con_at h s c i e l m t = rw (e, get-ok h i l, m, t) refl

arity-lt : (c : Cell) → Con.arity c + 2 ≤ block_size
unfolding Con.arity
arity-lt c = ground arith

allocate-cell :
    (h : Heap) (t : Tag) (n : ℕ)
    → (allocate h t n).1.mem (allocate h t n).0 ≡ cell t (allocate h t n).0
unfolding allocate
allocate-cell h t n = ground arith

allowed :
    (h : Heap) (c : Cell)
    → (h.coin_security_enabled && c == coin) ≡ false
    → coin_security_check h c ≡ ok tt
unfolding coin_security_check
allowed h c e = rw e refl

-- What a new structure of functor c looks like in the heap that it is made in.
pub record IsFreshStr (h : Heap) (c : Cell) (s : Cell) (h1 : Heap) : Type 0 where
  pub shaped : IsShaped h1
  pub is_str : tag s ≡ str
  pub above : h.size < index s
  pub functor_is : str_functor h1 s ≡ ok c
  pub ends : h1.size ≡ index s + 1 + Con.arity c
  pub args : (i : ℕ) → i < Con.arity c → h1.mem (index s + 1 + i) ≡ ref_cell (index s + 1 + i)
  pub kept : (i : ℕ) → i < h.size → h1.mem i ≡ h.mem i

-- With room below 2 ^ 61, and unless the functor is the guarded '$coin'/2, heap::new_str makes a
-- structure of the given functor behind all cells of the heap, whose arguments are unbound variables.
pub new_str_lem :
    (h : Heap) (c : Cell)
    → IsShaped h
    → tag c ≡ con
    → (h.coin_security_enabled && c == coin) ≡ false
    → (allocate h str (2 + Con.arity c)).1.size < 2 ^ 61
    → (s : Cell) × (h1 : Heap) × (new_str h c ≡ ok (s, h1)) × IsFreshStr h c s h1
unfolding new_str
new_str_lem h c shape iscon okay room =
    let n : ℕ = Con.arity c in
    let i : ℕ = (allocate h str (2 + n)).0 in
    let h0 : Heap = (allocate h str (2 + n)).1 in
    let (sh, low, ends, _, kept) = allocate_lem h str (2 + n) shape (omega (arith, arity-lt c)) in
    let s : Cell = set_index (h0.mem i) (i + 1) in
    let s_eq : s ≡ cell str (i + 1) =
      unfold set_index in rw (allocate-cell h str (2 + n)) (set_value-cell str i (i + 1)) in
    let (t, v, _) = cell_parts str (i + 1) (omega arith) in
    let at : index s ≡ i + 1 = unfold index in rw s_eq v in
    let m : ℕ → Cell = str_mem h0.mem n i s c in
    let h1 : Heap = record h0 { mem = m } in
    (
      s,
      h1,
      rw (allowed h c okay) refl,
      record {
        shaped = record {
          head_fits = sh.head_fits;
          none_empty = sh.none_empty;
          at_end = sh.at_end;
        };
        is_str = rw s_eq t;
        above = omega arith;
        functor_is = con_at h1 s c (i + 1) at (omega arith) (str_mem-functor h0.mem n i s c) iscon;
        ends = omega arith;
        args = λ j l. str_mem-arg h0.mem n i s c (index s + 1 + j) (omega arith) (omega arith);
        kept = λ j l. str_mem-below h0.mem n i s c j (omega arith) ∙ kept j l;
      },
    )
