-- ===== src/TrieDb/Update/Steps.antt =====
-- The steps of update_part of db/triedb.cpp, one for each kind of child at the key's place.
use epilog.Prelude.{
  ℕ, suc, ◌+◌, ◌*◌, ◌<◌, ◌≡◌, refl, ap, ◌∙◌, Bool, true, false, ◌||◌, ◌==◌, if◌then◌else◌,
  Bool-cases, inl, inr, ◌⊎◌, List, Option, none, some,
}
use epilog.TrieDb.Nodes.{Leaf, Branch, set_leaf, set_branch, add_num_entries, set_child_pointer}
use epilog.TrieDb.Files.{
  Params, Store, Child, leaf_child, branch_child, get_leaf, get_branch, child_at, put_leaf_node,
  leaf_size, max_leaf_size,
}
use epilog.TrieDb.Update.{Updated, sub_index, new_leaf, store_branch, with_leaf}
use epilog.TrieDb.Children.{
  child_at-set_leaf_self, child_at-set_leaf, child_at-set_branch_self, child_at-set_branch,
  child_at-set_child_pointer_self, child_at-set_child_pointer, no_leaf_bit,
}
use epilog.TrieDb.Appends.{
  IsStore, put_leaf_node-Extends, put_leaf_node-IsStore, get_leaf-put_leaf_node,
}
use epilog.TrieDb.Tries.{
  IsTrie, lookup, prefix_of, sub_index_lt, prefix_of_child, IsTrie-Extends, lookup-Extends,
}
use epilog.TrieDb.Update.Replaces.{
  Replaces, IsStored, store_branch-IsStored, get_leaf-Extends, get_branch-Extends,
}
use epilog.TrieDb.Update.Updates.{is_none, IsUpdated, replaced-IsUpdated}

child_at-add_num_entries :
    (t : Store) (dn : ℕ) (b : Branch) (j : ℕ) → child_at t (add_num_entries dn b) j ≡ child_at t b j
unfolding child_at add_num_entries
child_at-add_num_entries t dn b j = refl

depth-add_num_entries : (dn : ℕ) (b : Branch) → (add_num_entries dn b).depth ≡ b.depth
unfolding add_num_entries
depth-add_num_entries dn b = refl

add_num_entries-Replaces :
    (t : Store) (dn : ℕ) (b c : Branch) (i : ℕ) (child : Child)
    → Replaces t b c i child
    → Replaces t b (add_num_entries dn c) i child
add_num_entries-Replaces t dn b c i child r = record {
  same_depth = depth-add_num_entries dn c ∙ r.same_depth;
  here = child_at-add_num_entries t dn c i ∙ r.here;
  others = λ j low other. child_at-add_num_entries t dn c j ∙ r.others j low other;
}

-- The count is changed or not; the children are the same.
pub counted-Replaces :
    (t : Store) (test : Bool) (b c : Branch) (i : ℕ) (child : Child)
    → Replaces t b c i child
    → Replaces t b (if test then add_num_entries 1 c else c) i child
counted-Replaces t true b c i child r = add_num_entries-Replaces t 1 b c i child r
counted-Replaces t false b c i child r = r

set_leaf-Replaces :
    (t : Store) (b : Branch) (i p : ℕ) (l : Leaf)
    → i < 32
    → get_leaf t p ≡ some l
    → Replaces t b (set_leaf i (set_child_pointer i p b)) i (leaf_child l)
unfolding set_leaf set_child_pointer
set_leaf-Replaces t b i p l low e = record {
  same_depth = refl;
  here = child_at-set_leaf_self t b i p low l e;
  others = child_at-set_leaf t b i p low;
}

pub set_branch-Replaces :
    (t : Store) (b : Branch) (i p : ℕ) (c : Branch)
    → i < 32
    → get_branch t p ≡ some c
    → Replaces t b (set_branch i (set_child_pointer i p b)) i (branch_child c)
unfolding set_branch set_child_pointer
set_branch-Replaces t b i p c low e = record {
  same_depth = refl;
  here = child_at-set_branch_self t b i p low c e;
  others = child_at-set_branch t b i p low;
}

pub set_child_pointer-Replaces :
    (s t : Store) (b : Branch) (i p : ℕ) (c d : Branch)
    → i < 32
    → child_at s b i ≡ branch_child d
    → get_branch t p ≡ some c
    → Replaces t b (set_child_pointer i p b) i (branch_child c)
unfolding set_child_pointer
set_child_pointer-Replaces s t b i p c d low was e = record {
  same_depth = refl;
  here = child_at-set_child_pointer_self t b i p low c e (no_leaf_bit s b i low d was);
  others = child_at-set_child_pointer t b i p low;
}

module _ (p : Params) (n q key : ℕ) (bytes : List ℕ) (b : Branch) (new_entry : Bool) (s : Store)
    (positive : 0 < p.bucket_size) (valid : IsStore s) (h : IsTrie s (suc n) q b)
    (fits : prefix_of (suc n) key ≡ q)
    (at_key : sub_index b.depth key ≡ sub_index (suc n) key) where
  -- A leaf below the largest size is written where no other key has one.
  pub with_leaf-IsUpdated :
      (dn : ℕ) (entry : Bool)
      → leaf_size (new_leaf p key bytes) < max_leaf_size
      → ((k : ℕ)
          → sub_index b.depth k ≡ sub_index (suc n) key
          → (key == k) ≡ false
          → lookup (suc n) s b k ≡ none)
      → entry ≡ (is_none (lookup (suc n) s b key) || new_entry)
      → IsUpdated s (suc n) q key (some (new_leaf p key bytes)) (lookup (suc n) s b) new_entry (
          with_leaf p (sub_index (suc n) key) b dn entry (put_leaf_node p (new_leaf p key bytes) s))
  unfolding with_leaf new_leaf
  with_leaf-IsUpdated dn entry small free e =
      let i = sub_index (suc n) key in
      let new = new_leaf p key bytes in
      let s' = (put_leaf_node p new s).1 in
      let off = (put_leaf_node p new s).0 in
      let copy = add_num_entries dn (set_leaf i (set_child_pointer i off b)) in
      let u = store_branch p copy entry s' in
      let st : IsStored s' copy entry u =
        store_branch-IsStored p copy entry s' positive
          (put_leaf_node-IsStore p s positive valid new) in
      replaced-IsUpdated s n q key (some new) b (leaf_child new) new_entry entry u copy s' h at_key
        (put_leaf_node-Extends p s positive valid new) st
        (add_num_entries-Replaces u.store dn b (set_leaf i (set_child_pointer i off b)) i
          (leaf_child new)
          (set_leaf-Replaces u.store b i off new (sub_index_lt (suc n) key)
            (get_leaf-Extends s' u.store off new st.more (get_leaf-put_leaf_node p new s small))))
        (leaf_fits) (λ k place. reads k place (Bool-cases (key == k))) e
    where
      leaf_fits : prefix_of n ((new_leaf p key bytes).key) ≡ q * 32 + sub_index (suc n) key
      leaf_fits = prefix_of_child n key q fits

      reads :
          (k : ℕ)
          → sub_index b.depth k ≡ sub_index (suc n) key
          → ((key == k) ≡ true) ⊎ ((key == k) ≡ false)
          → (if key == k then some (new_leaf p key bytes) else none)
            ≡ (if key == k then some (new_leaf p key bytes) else lookup (suc n) s b k)
      reads k place (inl y) = rw y refl
      reads k place (inr other) = rw (other, free k place other) refl

  -- The child was a branch, or becomes one: its new copy is written in its place.
  pub branch-IsUpdated :
      (new : Option Leaf) (before : ℕ → Option Leaf) (copy : Branch) (u : Updated)
      → IsUpdated s n (q * 32 + sub_index (suc n) key) key new before new_entry u
      → ((k : ℕ) → sub_index b.depth k ≡ sub_index (suc n) key → before k ≡ lookup (suc n) s b k)
      → ((t : Store)
          → get_branch t u.ptr ≡ some u.node
          → Replaces t b copy (sub_index (suc n) key) (branch_child u.node))
      → IsUpdated s
          (suc n)
          q
          key
          new
          (lookup (suc n) s b)
          new_entry
          (store_branch p copy u.new_entry u.store)
  branch-IsUpdated new before copy u below agree r =
      let v = store_branch p copy u.new_entry u.store in
      let st : IsStored u.store copy u.new_entry v =
        store_branch-IsStored p copy u.new_entry u.store positive below.valid in
      replaced-IsUpdated s n q key new b (branch_child u.node) new_entry u.new_entry v copy u.store
        h at_key below.more st
        (r v.store (get_branch-Extends u.store v.store u.ptr u.node st.more below.stored))
        (IsTrie-Extends u.store v.store n (q * 32 + sub_index (suc n) key) u.node st.more
          below.trie)
        (λ k place.
          lookup-Extends u.store v.store n (q * 32 + sub_index (suc n) key) u.node k st.more
            below.trie
          ∙ below.found k
          ∙ ap (λ (o : Option Leaf). if key == k then new else o) (agree k place))
        (below.entry ∙ ap (λ (o : Option Leaf). is_none o || new_entry) (agree key at_key))
