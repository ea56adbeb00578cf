-- ===== src/TrieDb/Files.antt =====
-- The bucket files of db/triedb.cpp: nodes are only ever appended, and a pointer is the offset at which a
-- node stands. The assertions on the size of a branch, below 1024 bytes, are left out: with 32 children and a hash
-- of 32 bytes it has 310.
use epilog.Prelude.{
  ℕ, zero, suc, ◌+◌, ◌-◌, ◌*◌, ◌/◌, ◌%◌, Bool, ltb, leb, ◌==◌, if◌then◌else◌, List, [], ◌∷◌, ◌++◌,
  length, Option, none, some,
}
use epilog.TrieDb.Nodes.{
  Leaf, Branch, is_empty, is_leaf, num_children, get_child_pointer, set_branch_hash,
}

-- The settings of triedb_params that the operations read, the function that set_leaf_hasher installs (from
-- the key and the custom data to the hash), and the hash function of the library, on all the bytes it is
-- given.
pub record Params : Type 0 where
  pub bucket_size : ℕ
  pub use_hashing : Bool
  pub leaf_hasher_fn : ℕ → List ℕ → List ℕ
  pub blake2b : List ℕ → List ℕ

pub data Node : Type 0 where
  leaf_node : Leaf → Node
  branch_node : Branch → Node

-- What the bucket files hold, the last node appended first, and `last_offset_`.
pub record Store : Type 0 where
  pub nodes : List (ℕ × Node)
  pub last_offset : ℕ

unfoldable pub find_node : List (ℕ × Node) → ℕ → Option Node
find_node [] offset = none
find_node ((at_offset, node) ∷ rest) offset =
    if offset == at_offset then some node else find_node rest offset

-- triedb_leaf::serialization_size
unfoldable pub leaf_size : Leaf → ℕ
leaf_size l = 4 + 8 + 1 + length l.hash + length l.custom_data

-- triedb_leaf::MAX_SIZE_IN_BYTES
abbrev pub max_leaf_size : ℕ
max_leaf_size = 2 * 1024 * 1024

-- A leaf is read back only where the assertions on its size hold.
abbrev pub as_leaf : Option Node → Option Leaf
as_leaf (some (leaf_node l)) = if ltb (leaf_size l) max_leaf_size then some l else none
as_leaf _ = none

abbrev pub as_branch : Option Node → Option Branch
as_branch (some (branch_node b)) = some b
as_branch _ = none

-- triedb::get_leaf; a cached leaf is the one in the file. Nothing stands for the failed assertion of
-- read_leaf_node on the size.
unfoldable pub get_leaf : Store → ℕ → Option Leaf
unfolding find_node leaf_size
get_leaf s file_offset = as_leaf (find_node s.nodes file_offset)

-- triedb::get_branch; a cached branch is the one in the file.
unfoldable pub get_branch : Store → ℕ → Option Branch
unfolding find_node
get_branch s file_offset = as_branch (find_node s.nodes file_offset)

-- triedb_branch::serialization_size
unfoldable pub branch_size : Branch → ℕ
unfolding num_children
branch_size b = 4 + 1 + 1 + 4 + 4 + 8 + 8 * num_children b + length b.hash

-- Where the next node goes: a node that would reach the end of its bucket starts the next one.
unfoldable pub next_offset : Params → ℕ → ℕ → ℕ
next_offset p num_bytes offset =
    let bucket_index = offset / p.bucket_size in
    let first_offset = bucket_index * p.bucket_size in
    if leb p.bucket_size (offset - first_offset + num_bytes)
    then (bucket_index + 1) * p.bucket_size
    else offset

unfoldable pub append_node : Params → ℕ → Node → Store → ℕ × Store
unfolding next_offset
append_node p num_bytes node s =
    let offset = next_offset p num_bytes s.last_offset in
    (offset, record { nodes = (offset, node) ∷ s.nodes; last_offset = offset + num_bytes })

-- What append_leaf_node does to the files where its assertion holds.
unfoldable pub put_leaf_node : Params → Leaf → Store → ℕ × Store
unfolding leaf_size append_node
put_leaf_node p l s = append_node p (leaf_size l) (leaf_node l) s

-- triedb::append_leaf_node; nothing stands for a failed assertion on the size, which triedb_leaf::write makes
-- again.
unfoldable pub append_leaf_node : Params → Leaf → Store → Option (ℕ × Store)
unfolding leaf_size put_leaf_node
append_leaf_node p l s =
    if ltb (leaf_size l) max_leaf_size then some (put_leaf_node p l s) else none

-- triedb::append_branch_node
unfoldable pub append_branch_node : Params → Branch → Store → ℕ × Store
unfolding branch_size append_node
append_branch_node p b s = append_node p (branch_size b) (branch_node b) s

-- What stands at a place of a branch.
pub data Child : Type 0 where
  no_child : Child
  leaf_child : Leaf → Child
  branch_child : Branch → Child
  unreadable : Child

abbrev pub leaf_or_not : Option Leaf → Child
leaf_or_not none = unreadable
leaf_or_not (some l) = leaf_child l

abbrev pub branch_or_not : Option Branch → Child
branch_or_not none = unreadable
branch_or_not (some b) = branch_child b

-- The tests is_empty and is_leaf, and the read of the child that they select.
unfoldable pub child_at : Store → Branch → ℕ → Child
unfolding is_empty is_leaf get_child_pointer get_leaf get_branch
child_at s b sub_index =
    if is_empty b sub_index
    then no_child
    else if is_leaf b sub_index
    then leaf_or_not (get_leaf s (get_child_pointer b sub_index))
    else branch_or_not (get_branch s (get_child_pointer b sub_index))

-- write_uint32 and write_uint64 of common/bits.hpp: the low byte first
unfoldable pub write_bytes : ℕ → ℕ → List ℕ
write_bytes zero v = []
write_bytes (suc n) v = (v % 256) ∷ write_bytes n (v / 256)

abbrev pub child_hash : Child → List ℕ
child_hash (leaf_child l) = l.hash
child_hash (branch_child b) = b.hash
child_hash _ = []

-- The loop of branch_hasher over the bits of the mask, from the place i up.
unfoldable pub child_hashes : ℕ → ℕ → Store → Branch → List ℕ
unfolding child_at
child_hashes zero i s b = []
child_hashes (suc n) i s b = child_hash (child_at s b i) ++ child_hashes n (suc i) s b

-- triedb::branch_hasher
unfoldable pub branch_hasher : Params → Store → Branch → Branch
unfolding child_hashes write_bytes set_branch_hash
branch_hasher p s b =
    if p.use_hashing
    then set_branch_hash (p.blake2b (b.depth ∷ (write_bytes 4 b.mask ++ child_hashes 32 0 s b))) b
    else set_branch_hash [] b

-- triedb::leaf_hasher
unfoldable pub leaf_hasher : (List ℕ → List ℕ) → ℕ → List ℕ → List ℕ
unfolding write_bytes
leaf_hasher blake2b key custom_data = blake2b (write_bytes 8 key ++ custom_data)
