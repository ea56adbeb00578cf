-- ===== src/Heap.antt =====
-- The heap of common/term.hpp and common/term.cpp: a memory of cells in blocks of 8192, grown at the
-- end. A heap is modelled with its default callbacks (get_block_default and the others), and the
-- blocks' cells are one memory, since block k holds the addresses from k * 8192 on.
pub mod Deref
pub mod Alloc
pub mod Lists
mod Examples
use epilog.Prelude.{
  ℕ, zero, suc, ◌+◌, ◌-◌, ◌*◌, ◌/◌, Bool, true, false, ◌&&◌, ◌||◌, not, ◌==◌, leb, ltb,
  if◌then◌else◌, Option, none, some, List, [], ◌∷◌, ◌++◌,
}
use epilog.Term.Cell.{
  Cell, Tag, ref, rfw, con, str, dat, tag, same_tag, is_ref, cell, index, set_index, ref_cell,
  rfw_cell, str_cell,
}
use epilog.Term.Con
use epilog.Term.Con.{con_name_cell}

-- What the heap throws; a loop that does not end, and a pop of an empty stack, stand beside.
pub data HeapError : Type 0 where
  index_out_of_range : ℕ → ℕ → HeapError
  expected_con_cell : ℕ → Cell → HeapError
  expected_str_cell : Cell → HeapError
  coin_security : HeapError
  endless_loop : HeapError
  empty_stack : HeapError

pub data Result {ℓ} (A : Type ℓ) : Type ℓ where
  throw : HeapError → Result A
  ok : A → Result A

infixl 5 ◌>>=◌ ◌>>◌
abbrev pub ◌>>=◌ {κ ℓ} : {B : Type κ} {C : Type ℓ} → Result B → (B → Result C) → Result C
throw why >>= next = throw why
ok b >>= next = next b

abbrev pub ◌>>◌ {κ} : {C : Type κ} → Result (Unit {0}) → Result C → Result C
throw why >> next = throw why
ok done >> next = next

abbrev pub block_size : ℕ
block_size = 8192

-- `num_blocks` is blocks_.size(), and the head block is the last; `head_size` is its size_.
pub record Heap : Type 0 where
  pub mem : ℕ → Cell
  pub size : ℕ
  pub num_blocks : ℕ
  pub head_size : ℕ
  pub watched : List ℕ
  pub coin_security_enabled : Bool

-- heap::heap
abbrev pub empty : Heap
empty = record {
  mem = λ _. 0;
  size = 0;
  num_blocks = 0;
  head_size = 0;
  watched = [];
  coin_security_enabled = true;
}

abbrev pub update : (ℕ → Cell) → ℕ → Cell → ℕ → Cell
update m i c j = if j == i then c else m j

-- heap::check_index and heap::get
unfoldable pub check_index : Heap → ℕ → Result (Unit {0})
check_index h i = if leb h.size i then throw (index_out_of_range i h.size) else ok tt

unfoldable pub get : Heap → ℕ → Result Cell
unfolding check_index
get h i = do check_index h i; ok (h.mem i)

-- `(*this)[addr] = c`
unfoldable pub heap_set : Heap → ℕ → Cell → Heap
heap_set h i c = record h { mem = update h.mem i c }

-- heap_block::watch
unfoldable pub watch_cell : Cell → Bool → Cell
watch_cell c b =
    if same_tag (tag c) ref && b
    then rfw_cell (index c)
    else if same_tag (tag c) rfw && not b
    then ref_cell (index c)
    else c

-- heap::watch, and heap::watched of an address
unfoldable pub heap_watch : Heap → ℕ → Bool → Heap
unfolding watch_cell heap_set
heap_watch h i b = heap_set h i (watch_cell (h.mem i) b)

unfoldable pub heap_watched : Heap → ℕ → Bool
heap_watched h i = same_tag (tag (h.mem i)) rfw

unfoldable pub mem_nat : ℕ → List ℕ → Bool
mem_nat i [] = false
mem_nat i (j ∷ js) = (j == i) || mem_nat i js

-- heap::add_watched
unfoldable pub add_watched : Heap → ℕ → Heap
unfolding mem_nat
add_watched h i = if mem_nat i h.watched then h else record h { watched = h.watched ++ (i ∷ []) }

-- The loop of heap::deref_with_cost, whose cell goes along a chain of references; heap::deref is the
-- same loop without the count.
unfoldable pub deref_loop : ℕ → Heap → Cell → ℕ → Result (Cell × ℕ)
deref_loop zero h c cost = throw endless_loop
deref_loop (suc fuel) h c cost =
    if is_ref (tag c)
    then (do
      referred ← get h (index c)
      let rest = deref_loop fuel h referred (cost + 1)
      if referred == c then ok (c, cost) else rest)
    else ok (c, cost)

-- A chain that ends visits each address at most once.
abbrev pub deref_fuel : Heap → ℕ
deref_fuel h = h.size + 2

-- heap::deref_with_cost
unfoldable pub deref_with_cost : Heap → Cell → Result (Cell × ℕ)
deref_with_cost h c = deref_loop (deref_fuel h) h c 1

-- heap::deref
unfoldable pub deref : Heap → Cell → Result Cell
deref h c = do r ← deref_loop (deref_fuel h) h c 1; ok r.0

-- heap::functor(str_cell)
unfoldable pub str_functor : Heap → Cell → Result Cell
str_functor h s = do
  c ← get h (index s)
  if not (same_tag (tag c) con) then throw (expected_con_cell (index s) c) else ok c

-- heap::functor(term)
unfoldable pub functor : Heap → Cell → Result Cell
functor h s = do
  ds ← deref h s
  if same_tag (tag ds) con
      then ok ds
      else if not (same_tag (tag ds) str)
      then throw (expected_str_cell ds)
      else str_functor h ds

-- heap::arg
unfoldable pub arg : Heap → Cell → ℕ → Result Cell
arg h c i = do dc ← deref h c; a ← get h (index dc + i + 1); deref h a

-- heap::set_arg
unfoldable pub set_arg : Heap → Cell → ℕ → Cell → Result Heap
unfolding heap_set
set_arg h s i c = do dc ← deref h s; ok (heap_set h (index dc + i + 1) c)

-- heap::coin_security_check, where COIN is '$coin'/2
abbrev pub coin : Cell
coin = con_name_cell (36 ∷ 99 ∷ 111 ∷ 105 ∷ 110 ∷ []) 2

unfoldable pub coin_security_check : Heap → Cell → Result (Unit {0})
coin_security_check h c =
    if h.coin_security_enabled && c == coin then throw coin_security else ok tt

-- heap::new_block_default: a new head block behind the others.
unfoldable pub new_block : Heap → Heap
new_block h = record h {
  num_blocks = h.num_blocks + 1;
  head_size = 0;
  size = h.num_blocks * block_size;
}

-- heap_block::can_allocate, of the head block if there is one
unfoldable pub can_allocate : Heap → ℕ → Bool
can_allocate h n = not (h.num_blocks == 0) && leb (h.head_size + n) block_size

-- heap::ensure_allocate with span = false
unfoldable pub ensure_allocate : Heap → ℕ → Heap
unfolding new_block can_allocate
ensure_allocate h n = if not (can_allocate h n) then new_block h else h

-- The address behind the last cell of the head block: its offset plus its size.
abbrev pub head_end : Heap → ℕ
head_end h = (h.num_blocks - 1) * block_size + h.head_size

-- heap::allocate with span = false: the address, whose cell is a pointer cell to itself.
unfoldable pub allocate : Heap → Tag → ℕ → ℕ × Heap
unfolding ensure_allocate heap_set cell
allocate h t n =
    let h1 = ensure_allocate h n in
    let addr = head_end h1 in
    (
      addr,
      record h1 {
        head_size = h1.head_size + n;
        size = addr + n;
        mem = update h1.mem addr (cell t addr);
      },
    )

-- The loop of heap::new_str: the arguments from place i on are new variables.
unfoldable pub fresh_args : ℕ → ℕ → (ℕ → Cell) → ℕ → Cell
unfolding ref_cell
fresh_args zero i m = m
fresh_args (suc rounds) i m = fresh_args rounds (i + 1) (update m i (ref_cell i))

-- heap::new_str
unfoldable pub new_str : Heap → Cell → Result (Cell × Heap)
unfolding coin_security_check
new_str h c = do
  coin_security_check h c
  let n = Con.arity c
  let (i, h1) = allocate h str (2 + n)
  let s = set_index (h1.mem i) (i + 1)
  let m = update (update h1.mem i s) (i + 1) c
  ok (s, record h1 { mem = fresh_args n (i + 2) m })

-- heap::new_ref
unfoldable pub new_ref : Heap → Cell × Heap
new_ref h =
    let (i, h1) = allocate h ref 1 in
    let r = set_index (h1.mem i) i in (r, record h1 { mem = update h1.mem i r })

-- heap::new_big(size_t): the count of cells, which may span blocks.
unfoldable pub new_big_cells : ℕ → ℕ
new_big_cells num_bits =
    let num_bytes = (num_bits + 7) / 8 in
    if leb num_bytes 4 then 1 else 1 + (num_bytes - 4 + 8 - 1) / 8

abbrev pub empty_list : Cell
empty_list = con_name_cell (91 ∷ 93 ∷ []) 0

abbrev pub dotted_pair : Cell
dotted_pair = con_name_cell (46 ∷ []) 2

-- heap::new_dotted_pair(a, b)
unfoldable pub new_dotted_pair : Heap → Cell → Cell → Result (Cell × Heap)
new_dotted_pair h a b = do
  r ← new_str h dotted_pair
  h1 ← set_arg r.1 r.0 0 a
  h2 ← set_arg h1 r.0 1 b
  ok (r.0, h2)
