-- ===== src/TrieDb/Nodes.antt =====
-- The nodes of db/triedb.hpp: a leaf, and a branch whose array of pointers holds one word for each child it
-- has.
use epilog.Prelude.{
  ℕ, zero, suc, ◌+◌, ◌-◌, ◌%◌, ◌^◌, Bool, ◌&&◌, not, ltb, leb, ◌==◌, if◌then◌else◌, List, [],
}
use epilog.TrieDb.Words.{test_bit, popcount, set_bit, clear_bit, rank}

-- triedb_leaf, with the bytes of its hash and of its custom data
pub record Leaf : Type 0 where
  pub hash : List ℕ
  pub key : ℕ
  pub custom_data : List ℕ

-- triedb_branch; the array `ptr_` is a function of the index, 0 where nothing has been written.
pub record Branch : Type 0 where
  pub hash : List ℕ
  pub depth : ℕ
  pub mask : ℕ
  pub leaf : ℕ
  pub num : ℕ
  pub ptr : ℕ → ℕ

-- The constructor `triedb_branch()`
abbrev pub empty_branch : Branch
empty_branch = record { hash = []; depth = 0; mask = 0; leaf = 0; num = 0; ptr = λ i. 0 }

-- `depth_ = d`, a byte
unfoldable pub set_depth : ℕ → Branch → Branch
set_depth d b = record b { depth = d % 256 }

unfoldable pub set_branch_hash : List ℕ → Branch → Branch
set_branch_hash bytes b = record b { hash = bytes }

unfoldable pub is_empty : Branch → ℕ → Bool
is_empty b sub_index = not (test_bit b.mask sub_index)

unfoldable pub is_leaf : Branch → ℕ → Bool
unfolding is_empty
is_leaf b sub_index = not (is_empty b sub_index) && test_bit b.leaf sub_index

unfoldable pub is_branch : Branch → ℕ → Bool
unfolding is_empty is_leaf
is_branch b sub_index = not (is_empty b sub_index) && not (is_leaf b sub_index)

unfoldable pub num_children : Branch → ℕ
unfolding popcount
num_children b = popcount b.mask

unfoldable pub set_leaf : ℕ → Branch → Branch
set_leaf sub_index b = record b { leaf = set_bit b.leaf sub_index }

unfoldable pub set_branch : ℕ → Branch → Branch
set_branch sub_index b = record b { leaf = clear_bit b.leaf sub_index }

-- `num_` is a 64-bit word.
unfoldable pub add_num_entries : ℕ → Branch → Branch
add_num_entries dn b = record b { num = (b.num + dn) % 2 ^ 64 }

unfoldable pub sub_num_entries : ℕ → Branch → Branch
sub_num_entries dn b = record b { num = (b.num + (2 ^ 64 - dn % 2 ^ 64)) % 2 ^ 64 }

unfoldable pub get_child_pointer : Branch → ℕ → ℕ
get_child_pointer b sub_index = b.ptr (rank b.mask sub_index)

-- One assignment to an array.
abbrev pub put : (ℕ → ℕ) → ℕ → ℕ → ℕ → ℕ
put array at_index value i = if i == at_index then value else array i

-- The array that set_child_pointer allocates: the two `memcpy` and the new pointer between them.
unfoldable pub widened : (ℕ → ℕ) → ℕ → ℕ → ℕ → ℕ → ℕ
widened array child_index n pointer i =
    if ltb i child_index
    then array i
    else if i == child_index
    then pointer
    else if leb i n
    then array (i - 1)
    else 0

-- triedb_branch::set_child_pointer
unfoldable pub set_child_pointer : ℕ → ℕ → Branch → Branch
unfolding is_empty num_children widened
set_child_pointer sub_index pointer b =
    let child_index = rank b.mask sub_index in
    record b {
      ptr =
          if is_empty b sub_index
          then widened b.ptr child_index (num_children b) pointer
          else put b.ptr child_index pointer;
      mask = set_bit b.mask sub_index;
    }

-- The loop of triedb_branch::set_empty; its last round reads one past the end of the array.
unfoldable pub shift_down : ℕ → ℕ → (ℕ → ℕ) → ℕ → ℕ
shift_down zero i array = array
shift_down (suc rounds) i array = shift_down rounds (suc i) (put array i (array (suc i)))

-- triedb_branch::set_empty
unfoldable pub set_empty : ℕ → Branch → Branch
unfolding num_children shift_down
set_empty sub_index b =
    let child_index = rank b.mask sub_index in
    let n = num_children b in
    record b {
      ptr = put (shift_down (n - child_index) child_index b.ptr) (n - 1) 0;
      leaf = clear_bit b.leaf sub_index;
      mask = clear_bit b.mask sub_index;
    }
