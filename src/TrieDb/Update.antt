-- ===== src/TrieDb/Update.antt =====
-- Insertion and update below a branch, from db/triedb.cpp. Branches in the files are never changed: each
-- step appends a new copy.
pub mod Replaces
pub mod Pushed
pub mod Updates
pub mod Steps
pub mod InsertSteps
pub mod Inserts
pub mod Part
use epilog.Prelude.{
  ℕ, zero, suc, ◌-◌, ◌*◌, ◌/◌, ◌%◌, ◌^◌, Bool, true, false, not, ◌==◌, if◌then◌else◌, List, [],
  Option, none, some,
}
use epilog.TrieDb.Nodes.{
  Leaf, Branch, empty_branch, set_depth, set_leaf, set_branch, add_num_entries, get_child_pointer,
  set_child_pointer,
}
use epilog.TrieDb.Files.{
  Params, Store, Child, no_child, leaf_child, branch_child, unreadable, child_at, append_leaf_node,
  append_branch_node, branch_hasher,
}

-- The exceptions of the operations, with the key.
pub data TriedbError : Type 0 where
  key_already_exists : ℕ → TriedbError
  key_not_found : ℕ → TriedbError

-- `undefined` stands for a failed assertion and for behaviour that C++ leaves undefined.
pub data Outcome {ℓ} (A : Type ℓ) : Type ℓ where
  ok : A → Outcome A
  throws : TriedbError → Outcome A
  undefined : Outcome A

infix 12 ◌>>=◌
abbrev pub ◌>>=◌ {ℓ κ} : {A : Type ℓ} {B : Type κ} → Outcome A → (A → Outcome B) → Outcome B
ok a >>= f = f a
throws e >>= f = throws e
undefined >>= f = undefined

-- The rest of the code behind an assertion, if it holds.
abbrev pub asserted {ℓ κ} : {A : Type ℓ} {B : Type κ} → Option A → (A → Outcome B) → Outcome B
asserted (some a) f = f a
asserted none f = undefined

-- The pair that update_part returns, `new_entry` as it leaves it, and the files.
pub record Updated : Type 0 where
  pub node : Branch
  pub ptr : ℕ
  pub new_entry : Bool
  pub store : Store

-- `(key >> ((depth-1) * MAX_BRANCH_BITS)) & (MAX_BRANCH-1)`, for a depth of at least 1
unfoldable pub sub_index : ℕ → ℕ → ℕ
sub_index depth key = key / 2 ^ ((depth - 1) * 5) % 32

abbrev pub differs : Bool → Bool → Bool
differs true b = not b
differs false b = b

-- The new leaf, with its hash.
unfoldable pub new_leaf : Params → ℕ → List ℕ → Leaf
new_leaf p key bytes = record {
  hash = if p.use_hashing then p.leaf_hasher_fn key bytes else [];
  key = key;
  custom_data = bytes;
}

-- The end of each branch of update_part and remove_part: hash the new copy and append it.
unfoldable pub store_branch : Params → Branch → Bool → Store → Updated
unfolding branch_hasher append_branch_node
store_branch p b new_entry s =
    let hashed = branch_hasher p s b in
    let stored = append_branch_node p hashed s in
    record { node = hashed; ptr = stored.0; new_entry = new_entry; store = stored.1 }

-- After the new leaf is appended; `dn` entries are added to the count of the copy.
unfoldable pub with_leaf : Params → ℕ → Branch → ℕ → Bool → ℕ × Store → Updated
unfolding set_child_pointer set_leaf add_num_entries store_branch
with_leaf p i node dn new_entry stored =
    store_branch p (add_num_entries dn (set_leaf i (set_child_pointer i (stored.0) node))) new_entry
      (stored.1)

-- A new leaf at a place of the copy.
unfoldable pub store_leaf : Params → ℕ → Branch → ℕ → List ℕ → ℕ → Bool → Store → Outcome Updated
unfolding new_leaf append_leaf_node with_leaf
store_leaf p i node key bytes dn new_entry s =
    asserted (append_leaf_node p (new_leaf p key bytes) s)
      (λ stored. ok (with_leaf p i node dn new_entry stored))

-- The temporary branch that pushes a leaf down one level.
unfoldable pub pushed_down : Branch → ℕ → Leaf → Branch
unfolding set_depth set_child_pointer set_leaf get_child_pointer sub_index
pushed_down node i l =
    let sub_depth = node.depth - 1 in
    let sub_sub_index = sub_index sub_depth l.key in
    set_leaf sub_sub_index (
      set_child_pointer sub_sub_index (get_child_pointer node i) (set_depth sub_depth empty_branch))

-- After the recursive call on a pushed-down leaf.
unfoldable pub with_pushed : Params → ℕ → Branch → Bool → Updated → Updated
unfolding set_child_pointer set_branch add_num_entries store_branch
with_pushed p i node before_new_entry u =
    let b = set_branch i (set_child_pointer i u.ptr node) in
    store_branch p (if differs before_new_entry u.new_entry then add_num_entries 1 b else b)
      u.new_entry u.store

-- After the recursive call on a branch.
unfoldable pub with_child : Params → ℕ → Branch → Bool → Updated → Updated
unfolding set_child_pointer add_num_entries store_branch
with_child p i node before_new_entry u =
    let b = set_child_pointer i u.ptr node in
    store_branch p (if differs before_new_entry u.new_entry then add_num_entries 1 b else b)
      u.new_entry u.store

-- The body of update_part, by what the child at the key's place is; `below` is the recursive call.
unfoldable pub update_child :
    Params
    → (Branch → Bool → Store → Outcome Updated)
    → ℕ
    → Branch
    → ℕ
    → List ℕ
    → Bool
    → Bool
    → Store
    → Child
    → Outcome Updated
unfolding store_leaf pushed_down with_pushed with_child
update_child p below i node key bytes do_insert new_entry s no_child =
    store_leaf p i node key bytes 1 true s
update_child p below i node key bytes do_insert new_entry s (leaf_child l) =
    if l.key == key
    then if do_insert
      then throws (key_already_exists key)
      else store_leaf p i node key bytes 0 new_entry s
    else below (pushed_down node i l) new_entry s >>= (λ u. ok (with_pushed p i node new_entry u))
update_child p below i node key bytes do_insert new_entry s (branch_child b) =
    below b new_entry s >>= (λ u. ok (with_child p i node new_entry u))
update_child p below i node key bytes do_insert new_entry s unreadable = undefined

-- triedb::update_part; the number bounds the depth of the recursion.
unfoldable pub update_part :
    ℕ → Params → Branch → ℕ → List ℕ → Bool → Bool → Store → Outcome Updated
unfolding sub_index child_at update_child
update_part zero p node key bytes do_insert new_entry s = undefined
update_part (suc depths) p node key bytes do_insert new_entry s =
    let i = sub_index node.depth key in
    update_child p (λ b new s'. update_part depths p b key bytes do_insert new s') i node key bytes
      do_insert new_entry s (child_at s node i)
