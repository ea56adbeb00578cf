-- ===== src/TrieDb/Appends.antt =====
-- Appending a node to the files of db/triedb.cpp changes nothing that is there.
use native.Mathlib.Nat.{lt-mul-div-succ, mul_comm}
use epilog.Prelude.{ℕ, ◌+◌, ◌*◌, ◌/◌, ◌≤◌, ◌<◌, ◌≡◌, refl, ◌==◌, Bool-cases, inl, inr, some, arith}
use epilog.TrieDb.Nodes.{Leaf, Branch}
use epilog.TrieDb.Files.{
  Params, Node, leaf_node, branch_node, Store, find_node, get_leaf, get_branch, leaf_size,
  branch_size, next_offset, append_node, append_leaf_node, append_branch_node, put_leaf_node,
  max_leaf_size,
}

-- Every node stands below the end of the files.
pub data IsStore (s : Store) : Type 0 where
  is_store :
      ((offset : ℕ) (node : Node) → find_node s.nodes offset ≡ some node → offset < s.last_offset)
      → IsStore s

-- What stands in the one stands in the other.
pub data Extends (s t : Store) : Type 0 where
  extends :
      ((offset : ℕ) (node : Node)
        → find_node s.nodes offset ≡ some node
        → find_node t.nodes offset ≡ some node)
      → Extends s t

pub Extends_refl : (s : Store) → Extends s s
Extends_refl s = extends (λ offset node e. e)

pub Extends_trans : {s t u : Store} → Extends s t → Extends t u → Extends s u
Extends_trans (extends f) (extends g) = extends (λ offset node e. g offset node (f offset node e))

-- The next node never starts before the end of the files.
pub next_offset_le :
    (p : Params) (num_bytes offset : ℕ)
    → 0 < p.bucket_size
    → offset ≤ next_offset p num_bytes offset
unfolding next_offset
next_offset_le p num_bytes offset positive =
    let below : offset < p.bucket_size * (offset / p.bucket_size + 1) =
      lt-mul-div-succ offset positive in
    let swap : p.bucket_size * (offset / p.bucket_size + 1)
        ≡ (offset / p.bucket_size + 1) * p.bucket_size =
      mul_comm p.bucket_size (offset / p.bucket_size + 1) in
    ground (arith, below, swap)

module _ (p : Params) (num_bytes : ℕ) (node : Node) (s : Store) where
  append_node-found :
      find_node ((append_node p num_bytes node s).1.nodes) ((append_node p num_bytes node s).0)
      ≡ some node
  unfolding append_node find_node
  append_node-found = ground arith

  append_node-Extends :
      0 < p.bucket_size → IsStore s → Extends s ((append_node p num_bytes node s).1)
  unfolding append_node find_node
  append_node-Extends positive (is_store below) = extends λ offset n e.
      ground (arith, below offset n e, next_offset_le p num_bytes s.last_offset positive)

  append_node-IsStore :
      0 < p.bucket_size → 0 < num_bytes → IsStore s → IsStore ((append_node p num_bytes node s).1)
  unfolding append_node find_node
  append_node-IsStore positive some_bytes (is_store below) = is_store λ offset n e.
      elim (Bool-cases (offset == next_offset p num_bytes s.last_offset)) [
        | inl y ↦ ground arith
        | inr new ↦
            ground (arith, below offset n, next_offset_le p num_bytes s.last_offset positive)
      ]

module _ (p : Params) (s : Store) (positive : 0 < p.bucket_size) (valid : IsStore s) where
  pub put_leaf_node-Extends : (l : Leaf) → Extends s ((put_leaf_node p l s).1)
  unfolding put_leaf_node
  put_leaf_node-Extends l = append_node-Extends p (leaf_size l) (leaf_node l) s positive valid

  pub append_branch_node-Extends : (b : Branch) → Extends s ((append_branch_node p b s).1)
  unfolding append_branch_node
  append_branch_node-Extends b =
      append_node-Extends p (branch_size b) (branch_node b) s positive valid

  pub put_leaf_node-IsStore : (l : Leaf) → IsStore ((put_leaf_node p l s).1)
  unfolding put_leaf_node leaf_size
  put_leaf_node-IsStore l =
      append_node-IsStore p (leaf_size l) (leaf_node l) s positive (omega arith) valid

  pub append_branch_node-IsStore : (b : Branch) → IsStore ((append_branch_node p b s).1)
  unfolding append_branch_node branch_size
  append_branch_node-IsStore b =
      append_node-IsStore p (branch_size b) (branch_node b) s positive (omega arith) valid

-- A node just appended is read back at its pointer.
pub get_leaf-put_leaf_node :
    (p : Params) (l : Leaf) (s : Store)
    → leaf_size l < max_leaf_size
    → get_leaf ((put_leaf_node p l s).1) ((put_leaf_node p l s).0) ≡ some l
unfolding put_leaf_node get_leaf
get_leaf-put_leaf_node p l s small =
    rw (append_node-found p (leaf_size l) (leaf_node l) s) (ground (arith, small))

pub get_branch-append_branch_node :
    (p : Params) (b : Branch) (s : Store)
    → get_branch ((append_branch_node p b s).1) ((append_branch_node p b s).0) ≡ some b
unfolding append_branch_node get_branch
get_branch-append_branch_node p b s =
    rw (append_node-found p (branch_size b) (branch_node b) s) refl

-- The assertion of append_leaf_node holds for a leaf below the largest size.
pub append_leaf_node_small :
    (p : Params) (l : Leaf) (s : Store)
    → leaf_size l < max_leaf_size
    → append_leaf_node p l s ≡ some (put_leaf_node p l s)
unfolding append_leaf_node
append_leaf_node_small p l s small = ground (arith, small)
