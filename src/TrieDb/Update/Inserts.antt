-- ===== src/TrieDb/Update/Inserts.antt =====
-- update_part of db/triedb.cpp writes one key and leaves every other as it was.
use epilog.Prelude.{
  ℕ, suc, ◌+◌, ◌*◌, ◌<◌, ◌≡◌, sym, ◌∙◌, Bool, false, ◌==◌, if◌then◌else◌, List, none, some,
}
use epilog.TrieDb.Nodes.{Leaf, Branch, set_branch, add_num_entries, set_child_pointer}
use epilog.TrieDb.Files.{Params, Store, leaf_child, branch_child, child_at}
use epilog.TrieDb.Update.{
  Outcome, ok, ◌>>=◌, Updated, sub_index, differs, new_leaf, pushed_down, with_pushed, with_child,
}
use epilog.TrieDb.Appends.{IsStore}
use epilog.TrieDb.Tries.{IsTrie, lookup, prefix_of, sub_index_lt}
use epilog.TrieDb.Update.Updates.{Writes}
use epilog.TrieDb.Update.Steps.{
  counted-Replaces, set_branch-Replaces, set_child_pointer-Replaces, branch-IsUpdated,
}
use epilog.TrieDb.Update.InsertSteps.{lookup_place, UpdateResult-bind}

module _ (p : Params) (n q key : ℕ) (bytes : List ℕ) (b : Branch) (ins entry : Bool) (s : Store)
    (positive : 0 < p.bucket_size) (small : n < 256) (valid : IsStore s) (h : IsTrie s (suc n) q b)
    (fits : prefix_of (suc n) key ≡ q)
    (at_key : sub_index b.depth key ≡ sub_index (suc n) key) where
  pub at_branch :
      (rec : Branch → Bool → Store → Outcome Updated) (d : Branch)
      → Writes p n (q * 32 + sub_index (suc n) key) key bytes d ins entry s (rec d entry s)
      → child_at s b (sub_index (suc n) key) ≡ branch_child d
      → Writes p
          (suc n)
          q
          key
          bytes
          b
          ins
          entry
          s
          (rec d entry s >>= (λ u. ok (with_child p (sub_index (suc n) key) b entry u)))
  unfolding with_child
  at_branch rec d below e =
      UpdateResult-bind s n q (q * 32 + sub_index (suc n) key) key (new_leaf p key bytes)
        (lookup n s d) (lookup (suc n) s b) ins entry (with_child p (sub_index (suc n) key) b entry)
        (rec d entry s) below
        (sym (lookup_place n s b (sub_index (suc n) key) key (branch_child d) e at_key))
        (λ u w.
          branch-IsUpdated p n q key bytes b entry s positive valid h fits at_key
            (some (new_leaf p key bytes)) (lookup n s d)
            (let c = set_child_pointer (sub_index (suc n) key) u.ptr b in
              if differs entry u.new_entry then add_num_entries 1 c else c)
            u w
            (λ k place. sym (lookup_place n s b (sub_index (suc n) key) k (branch_child d) e place))
            (λ t r.
              counted-Replaces t (differs entry u.new_entry) b
                (set_child_pointer (sub_index (suc n) key) u.ptr b) (sub_index (suc n) key)
                (branch_child u.node)
                (set_child_pointer-Replaces s t b (sub_index (suc n) key) u.ptr u.node d
                  (sub_index_lt (suc n) key) e r)))

  -- The place holds the leaf of another key, which goes one level down with the new one.
  pub at_other_leaf :
      (rec : Branch → Bool → Store → Outcome Updated) (l : Leaf)
      → ((d : Branch)
          → IsTrie s n (q * 32 + sub_index (suc n) key) d
          → Writes p n (q * 32 + sub_index (suc n) key) key bytes d ins entry s (rec d entry s))
      → child_at s b (sub_index (suc n) key) ≡ leaf_child l
      → (l.key == key) ≡ false
      → IsTrie s n (q * 32 + sub_index (suc n) key) (pushed_down b (sub_index (suc n) key) l)
      → ((k : ℕ)
          → lookup n s (pushed_down b (sub_index (suc n) key) l) k
            ≡ (if l.key == k then some l else none))
      → Writes p (suc n) q key bytes b ins entry s (
          rec (pushed_down b (sub_index (suc n) key) l) entry s
          >>= (λ u. ok (with_pushed p (sub_index (suc n) key) b entry u)))
  unfolding with_pushed
  at_other_leaf rec l below e other trie holds =
      let i = sub_index (suc n) key in
      let d = pushed_down b i l in
      UpdateResult-bind s n q (q * 32 + i) key (new_leaf p key bytes) (lookup n s d)
        (lookup (suc n) s b) ins entry (with_pushed p i b entry) (rec d entry s) (below d trie)
        (agree key at_key)
        (λ u w.
          branch-IsUpdated p n q key bytes b entry s positive valid h fits at_key
            (some (new_leaf p key bytes)) (lookup n s d)
            (let c = set_branch i (set_child_pointer i u.ptr b) in
              if differs entry u.new_entry then add_num_entries 1 c else c)
            u w agree
            (λ t r.
              counted-Replaces t (differs entry u.new_entry) b
                (set_branch i (set_child_pointer i u.ptr b)) i (branch_child u.node)
                (set_branch-Replaces t b i u.ptr u.node (sub_index_lt (suc n) key) r)))
    where
      agree :
          (k : ℕ)
          → sub_index b.depth k ≡ sub_index (suc n) key
          → lookup n s (pushed_down b (sub_index (suc n) key) l) k ≡ lookup (suc n) s b k
      agree k place =
          holds k ∙ sym (lookup_place n s b (sub_index (suc n) key) k (leaf_child l) e place)
