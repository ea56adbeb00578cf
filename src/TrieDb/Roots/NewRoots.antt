-- ===== src/TrieDb/Roots/NewRoots.antt =====
-- The two functions new_root of db/triedb.cpp.
use mathlib.Core.Path.{subst}
use epilog.Prelude.{
  ℕ, ◌+◌, ◌*◌, ◌<◌, ◌≡◌, ◌≢◌, refl, sym, ap, ◌∙◌, false, ◌==◌, ==_iff, Bool-cases, inl, inr, ◌∷◌,
  Option, none, some, arith,
}
use epilog.TrieDb.Nodes.{Leaf}
use epilog.TrieDb.Files.{Params, Store}
use epilog.TrieDb.Update.{ok, Updated}
use epilog.TrieDb.Appends.{IsStore, Extends, Extends_refl}
use epilog.TrieDb.Tries.{IsTrie, IsChild, lookup_child, lookup}
use epilog.TrieDb.Roots.{Root, Db, put_root}
use epilog.TrieDb.Roots.Contents.{
  contents, held_at, IsRoot, is_root, IsDb, held_at-trie, put_root_self, put_root_other,
}
use epilog.TrieDb.Nodes.{empty_branch, set_depth}
use epilog.TrieDb.Files.{child_at}
use epilog.TrieDb.Update.{sub_index, store_branch}
use epilog.TrieDb.Update.Pushed.{bare-IsTrie, bare-lookup}
use epilog.TrieDb.Update.Replaces.{IsStored, store_branch-IsStored}
use epilog.TrieDb.Roots.Contents.{held_at-Extends, IsRoot-Extends}
use epilog.TrieDb.Roots.{root_size, at_height, new_root, new_child_found, new_child_root}

-- One more root in the database, under a name that may be taken: what it holds, and that the rest is as it was.
pub record IsAdded (db : Db) (id : ℕ) (holds : ℕ → Option Leaf) (after : Db) : Type 0 where
  pub valid : IsDb after
  pub found : (key : ℕ) → contents after id key ≡ holds key
  pub others : (k key : ℕ) → k ≢ id → contents after k key ≡ contents db k key

module _ (db after : Db) (id : ℕ) (r : Root) (valid : IsDb db)
    (roots : after.roots ≡ put_root id r db.roots) (more : Extends db.store after.store)
    (store_valid : IsStore after.store) (root : IsRoot after.store r) (holds : ℕ → Option Leaf)
    (reads : (key : ℕ) → held_at after.store (some r) key ≡ holds key) where
  added : IsAdded db id holds after
  unfolding contents
  added = record {
    valid = record { valid = store_valid; rooted = rooted };
    found = λ key. ap (λ (o : Option Root). held_at after.store o key) (at_id) ∙ reads key;
    others = λ k key other.
        ap (λ (o : Option Root). held_at after.store o key) (elsewhere k other)
        ∙ still (db.roots k) key (λ s e. valid.rooted k s e);
  }
    where
      at_id : after.roots id ≡ some r
      at_id = ap (λ (f : ℕ → Option Root). f id) roots ∙ put_root_self id r db.roots

      elsewhere : (k : ℕ) → k ≢ id → after.roots k ≡ db.roots k
      elsewhere k other =
          ap (λ (f : ℕ → Option Root). f k) roots ∙ put_root_other id r db.roots k other

      same_root : (x y : Root) → some x ≡ some y → x ≡ y
      same_root x y f = cc

      rooted : (k : ℕ) (s : Root) → after.roots k ≡ some s → IsRoot after.store s
      rooted k s e = elim (Bool-cases (k == id)) [
        | inl y ↦
            subst (IsRoot after.store)
              (same_root r s (sym at_id ∙ sym (ap after.roots ((==_iff k id).0 y)) ∙ e)) root
        | inr other ↦
            let distinct : k ≢ id = λ same. absurd (ground (arith, same)) in
            IsRoot-Extends db.store after.store s more
              (valid.rooted k s (sym (elsewhere k distinct) ∙ e))
      ]

      still :
          (o : Option Root) (key : ℕ)
          → ((s : Root) → o ≡ some s → IsRoot db.store s)
          → held_at after.store o key ≡ held_at db.store o key
      still none key f = refl
      still (some s) key f = held_at-Extends db.store after.store s key more (f s refl)

module _ (s : Store) (u : Updated) (st : IsStored s (set_depth 1 empty_branch) false u) where
  pub stored_bare-IsTrie : IsTrie u.store 1 0 u.node
  unfolding IsTrie
  stored_bare-IsTrie =
      let h = bare-IsTrie u.store 0 0 1 refl (omega arith) in
      (
        st.same_depth ∙ h.0,
        λ i low.
            subst (IsChild (λ d. IsTrie u.store 0 (0 * 32 + i) d) 0 (0 * 32 + i))
              (sym (st.children u.store i)) (h.1 i low),
      )

  stored_bare-lookup : (key : ℕ) → lookup 1 u.store u.node key ≡ none
  unfolding lookup
  stored_bare-lookup key =
      ap (lookup_child (λ d. none) key) (st.children u.store (sub_index u.node.depth key))
      ∙ ap
          (λ (d : ℕ).
            lookup_child (λ c. none) key
              (child_at u.store (set_depth 1 empty_branch) (sub_index d key)))
          st.same_depth
      ∙ bare-lookup u.store 1 1 key

-- With a bucket size above 0, new_root adds a root that holds nothing and takes the place of any root that
-- had its name; every other root holds what it held.
pub new_root-IsAdded :
    (p : Params) (db : Db)
    → 0 < p.bucket_size
    → IsDb db
    → IsAdded db ((new_root p db).0) (λ key. none) ((new_root p db).1)
unfolding new_root store_branch
new_root-IsAdded p db positive valid =
    added db ((new_root p db).1) ((new_root p db).0)
      (record { id = db.roots_tell; previous_id = 0; ptr = u.ptr; height = 0; num_entries = 0 })
      valid refl st.more st.valid (is_root 1 u.node st.stored trie (omega arith)) (λ key. none)
      (λ key. held_at-trie u.store root 1 u.node key st.stored trie ∙ empty key)
  where
    u : Updated
    u = store_branch p (set_depth 1 empty_branch) false db.store

    root : Root
    root = record { id = db.roots_tell; previous_id = 0; ptr = u.ptr; height = 0; num_entries = 0 }

    st : IsStored db.store (set_depth 1 empty_branch) false u
    st = store_branch-IsStored p (set_depth 1 empty_branch) false db.store positive valid.valid

    trie : IsTrie u.store 1 0 u.node
    trie = stored_bare-IsTrie db.store u st

    empty : (key : ℕ) → lookup 1 u.store u.node key ≡ none
    empty key = stored_bare-lookup db.store u st key

-- In a database whose roots all lead to tries, new_root with a parent that is there adds a root that holds
-- what the parent holds and takes the place of any root that had its name; every other root holds what it
-- held.
pub new_child_root-IsAdded :
    (db : Db) (parent_id : ℕ) (parent : Root)
    → IsDb db
    → db.roots parent_id ≡ some parent
    → (after : Db) × (new_child_root parent_id db ≡ ok (db.roots_end, after))
      × IsAdded db db.roots_end (contents db parent_id) after
unfolding new_child_root new_child_found contents
new_child_root-IsAdded db parent_id parent valid here = (
  after,
  ap (new_child_found db) here,
  added db after db.roots_end root valid refl (Extends_refl db.store) valid.valid
      (same_trie (valid.rooted parent_id parent here)) (contents db parent_id)
      (λ key. sym (ap (λ (o : Option Root). held_at db.store o key) here)),
)
  where
    root : Root
    root = record {
      id = db.roots_end;
      previous_id = parent.id;
      ptr = parent.ptr;
      height = parent.height + 1;
      num_entries = parent.num_entries;
    }

    after : Db
    after = record db {
      roots = put_root db.roots_end root db.roots;
      roots_at_height = at_height (parent.height + 1) db.roots_end db.roots_at_height;
      roots_file = (db.roots_end, root) ∷ db.roots_file;
      roots_end = db.roots_end + root_size;
      roots_tell = db.roots_end + root_size;
    }

    same_trie : IsRoot db.store parent → IsRoot db.store root
    same_trie (is_root n b e h small) = is_root n b e h small
