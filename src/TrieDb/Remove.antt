-- ===== src/TrieDb/Remove.antt =====
-- Removal below a branch, from db/triedb.cpp.
pub mod Steps
pub mod Part
use epilog.Prelude.{ℕ, zero, suc, false, ◌==◌, if◌then◌else◌}
use epilog.TrieDb.Nodes.{Branch, set_empty, set_child_pointer, sub_num_entries}
use epilog.TrieDb.Files.{
  Params, Store, Child, no_child, leaf_child, branch_child, unreadable, child_at,
}
use epilog.TrieDb.Update.{
  key_already_exists, key_not_found, Outcome, ok, throws, undefined, ◌>>=◌, Updated, sub_index,
  store_branch,
}

-- After the recursive call: a child without entries is dropped.
unfoldable pub without_key : Params → ℕ → Branch → Updated → Updated
unfolding set_empty set_child_pointer sub_num_entries store_branch
without_key p i node u =
    store_branch p
      (sub_num_entries 1
        (if u.node.mask == 0 then set_empty i node else set_child_pointer i u.ptr node))
      false u.store

-- The body of remove_part, by what the child at the key's place is; `below` is the recursive call.
unfoldable pub remove_child :
    Params → (Branch → Store → Outcome Updated) → ℕ → Branch → ℕ → Store → Child → Outcome Updated
unfolding set_empty sub_num_entries store_branch without_key
remove_child p below i node key s no_child = throws (key_not_found key)
remove_child p below i node key s (leaf_child l) =
    if l.key == key
    then ok (store_branch p (sub_num_entries 1 (set_empty i node)) false s)
    else throws (key_already_exists key)
remove_child p below i node key s (branch_child b) =
    below b s >>= (λ u. ok (without_key p i node u))
remove_child p below i node key s unreadable = undefined

-- triedb::remove_part; the number bounds the depth of the recursion, and no entry is ever new.
unfoldable pub remove_part : ℕ → Params → Branch → ℕ → Store → Outcome Updated
unfolding sub_index child_at remove_child
remove_part zero p node key s = undefined
remove_part (suc depths) p node key s =
    let i = sub_index node.depth key in
    remove_child p (λ b s'. remove_part depths p b key s') i node key s (child_at s node i)
