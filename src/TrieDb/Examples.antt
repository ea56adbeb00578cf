-- ===== src/TrieDb/Examples.antt =====
-- Small databases for db/triedb.cpp, and the theorems at them.
use mathlib.Core.Path.{subst, sym}
use epilog.Prelude.{
  Bool-cases, ltb→lt, inl, inr, ℕ, ◌+◌, ◌%◌, ◌≡◌, refl, Bool, true, false, List, [], ◌∷◌, length,
  Option, none, some, arith, ◌++◌, ltb, if◌then◌else◌, ◌≤◌, ◌<◌,
}
use epilog.TrieDb.Words.{test_bit, set_bit, clear_bit, bits_below, rank, popcount}
use epilog.TrieDb.Nodes.{Leaf, Branch, empty_branch, set_depth, get_child_pointer, set_empty}
use epilog.TrieDb.Files.{Params, find_node, branch_hasher, append_branch_node}
use epilog.TrieDb.Update.{Outcome, ok, new_leaf, Updated, store_branch}
use epilog.TrieDb.Appends.{IsStore, is_store}
use epilog.TrieDb.Tries.{lookup}
use epilog.TrieDb.Pointers.{get_child_pointer-set_empty}
use epilog.TrieDb.Update.Replaces.{IsStored, store_branch-IsStored}
use epilog.TrieDb.Roots.Grow.{GrowResult, grow_lem}
use epilog.TrieDb.Roots.{
  Root, Db, put_root, grow, insert, update, insert_or_update, remove, new_root, new_child_root,
}
use epilog.TrieDb.Roots.Contents.{contents, IsDb, changed}
use epilog.TrieDb.Roots.Inserting.{InsertResult, inserted, not_inserted, insert_or_update_lem}
use epilog.TrieDb.Roots.NewRoots.{
  IsAdded, stored_bare-IsTrie, new_root-IsAdded, new_child_root-IsAdded,
}
use epilog.TrieDb.Roots.Sessions.{Call, insert_call, update_call, remove_call, run, view}
use epilog.TrieDb.Records.{write_leaf, read_leaf, read_leaf_node, write_branch, read_branch}
use epilog.TrieDb.RoundTrips.{IsBranch, read_leaf-write_leaf, read_branch-write_branch}
use epilog.TrieDb.Nodes.{num_children}
use epilog.TrieDb.Files.{leaf_size, branch_size, max_leaf_size}

abbrev p : Params
p = record {
  bucket_size = 1000;
  use_hashing = true;
  leaf_hasher_fn = λ key bytes. (key % 256) ∷ bytes;
  blake2b = λ bytes. (length bytes % 256) ∷ [];
}

-- A database with no roots, its file of roots holding the version and the size of a bucket.
abbrev start : Db
start = record {
  roots = λ k. none;
  roots_at_height = λ h. [];
  store = record { nodes = []; last_offset = 0 };
  roots_file = [];
  roots_end = 20;
  roots_tell = 20;
}

start-IsStore : IsStore start.store
unfolding find_node
start-IsStore = is_store (λ offset node e. absurd (cc))

start-IsDb : IsDb start
start-IsDb = record { valid = start-IsStore; rooted = λ id r e. absurd (cc) }

new_root-IsAdded_example : IsAdded start ((new_root p start).0) (λ key. none) ((new_root p start).1)
new_root-IsAdded_example = new_root-IsAdded p start (omega arith) start-IsDb

unfoldable first : Db
first = (new_root p start).1

first-IsDb : IsDb first
unfolding first
first-IsDb = (new_root-IsAdded p start (omega arith) start-IsDb).valid

abbrev first_root : Root
first_root = record { id = 20; previous_id = 0; ptr = 0; height = 0; num_entries = 0 }

first_at : first.roots 20 ≡ some first_root
unfolding first new_root put_root append_branch_node branch_hasher test_bit
first_at = refl

small_leaf : (key v : ℕ) → leaf_size (new_leaf p key (v ∷ [])) < max_leaf_size
unfolding leaf_size new_leaf
small_leaf key v = omega arith

abbrev done : Outcome Db → Db
done (ok db) = db
done _ = start

done-IsDb :
    (db : Db) (id : ℕ) (r : Root) (key : ℕ) (new : Leaf) (ins : Bool) (o : Outcome Db)
    → InsertResult db id r key new ins o
    → IsDb (done o)
done-IsDb db id r key new ins o (inserted allowed (changed after c)) = c.valid
done-IsDb db id r key new ins o (not_inserted i there e) =
    subst (λ x. IsDb (done x)) (sym e) start-IsDb

-- The database with one key.
unfoldable second : Db
unfolding first
second = done (insert_or_update p 20 1000 (7 ∷ []) true first)

second-IsDb : IsDb second
unfolding second
second-IsDb =
    done-IsDb first 20 first_root 1000 (new_leaf p 1000 (7 ∷ [])) true
      (insert_or_update p 20 1000 (7 ∷ []) true first)
      (insert_or_update_lem p first 20 first_root 1000 (7 ∷ []) true first-IsDb first_at
        (small_leaf 1000 7) (omega arith) (omega arith))

abbrev root_or : Option Root → Root
root_or none = first_root
root_or (some r) = r

unfoldable second_root : Root
second_root = root_or (second.roots 20)

second_at : second.roots 20 ≡ some second_root
unfolding second_root second insert_or_update new_root test_bit set_bit bits_below rank popcount
second_at = refl

new_child_root-IsAdded_example :
    (after : Db) × (new_child_root 20 second ≡ ok (second.roots_end, after))
    × IsAdded second second.roots_end (contents second 20) after
new_child_root-IsAdded_example = new_child_root-IsAdded second 20 second_root second-IsDb second_at

abbrev calls : List Call
calls =
    insert_call 20 5 (1 ∷ [])
    ∷ (insert_call 20 1000 (2 ∷ []) ∷ (update_call 20 33 (3 ∷ []) ∷ (remove_call 20 1000 ∷ [])))

-- A branch with the children 0, 1 and 3.
abbrev three : Branch
three = record empty_branch { depth = 1; mask = 11; leaf = 11; num = 3; ptr = λ i. 100 + i }

get_child_pointer-set_empty_example :
    get_child_pointer (set_empty 1 three) 3 ≡ get_child_pointer three 3
unfolding test_bit
get_child_pointer-set_empty_example =
    get_child_pointer-set_empty 1 three (omega arith) 3 (omega arith) (omega arith) refl refl

abbrev top : Updated
top = store_branch p (set_depth 1 empty_branch) false start.store

top-IsStored : IsStored start.store (set_depth 1 empty_branch) false top
top-IsStored =
    store_branch-IsStored p (set_depth 1 empty_branch) false start.store (omega arith) start-IsStore

-- A key of ten bits makes a trie of one level grow.
grow_lem_example :
    GrowResult top.store
      (lookup 1 top.store top.node)
      10
      (grow 13 p 10 1 top.node top.ptr top.store)
grow_lem_example =
    grow_lem 13 p 10 1 top.node top.ptr top.store (omega arith) (omega arith) (omega arith)
      (omega arith) top-IsStored.valid top-IsStored.stored
      (stored_bare-IsTrie start.store top top-IsStored)

-- The calls, run on a database with a key.
calls_seen :
    let after = done (run p calls second) in
    (view after 20 5 ≡ some (1 ∷ []))
    × (view after 20 33 ≡ some (3 ∷ []))
    × (view after 20 1000 ≡ none)
unfolding second insert_or_update new_root test_bit set_bit clear_bit bits_below rank popcount run
    insert update remove contents lookup find_node
calls_seen = (refl, refl, refl)

abbrev a_leaf : Leaf
a_leaf = record { hash = 1 ∷ 2 ∷ []; key = 1000; custom_data = 7 ∷ 8 ∷ 9 ∷ [] }

read_leaf-write_leaf_example :
    (bytes : List ℕ) × (write_leaf a_leaf ≡ some bytes)
    × (read_leaf (bytes ++ (5 ∷ [])) ≡ some (a_leaf, 5 ∷ []))
    × (read_leaf_node (bytes ++ (5 ∷ [])) ≡ some a_leaf)
unfolding leaf_size
read_leaf-write_leaf_example =
    read_leaf-write_leaf a_leaf (5 ∷ []) (omega arith) (omega arith) (omega arith)

-- The same three children, and nothing behind their pointers.
abbrev packed : Branch
packed = record three { hash = 4 ∷ []; ptr = λ i. if ltb i 3 then 100 + i else 0 }

packed-children : num_children packed ≡ 3
unfolding num_children popcount test_bit
packed-children = refl

zero_above : (i : ℕ) → 3 ≤ i → (if ltb i 3 then 100 + i else 0) ≡ 0
zero_above i h = ground arith

packed-IsBranch : IsBranch packed
unfolding branch_size
packed-IsBranch = record {
  short_hash = omega arith;
  depth = omega arith;
  mask = omega arith;
  leaf = omega arith;
  num = omega arith;
  pointers = λ i. elim (Bool-cases (ltb i 3)) [
    | inl y ↦ rw y (omega (arith, ltb→lt i 3 y))
    | inr n ↦ rw n (omega arith)
  ];
  no_more = λ i above. zero_above i (subst (λ n. n ≤ i) packed-children above);
  size = omega (arith, packed-children);
}

read_branch-write_branch_example :
    read_branch (write_branch packed ++ (5 ∷ [])) ≡ some (packed, 5 ∷ [])
read_branch-write_branch_example = read_branch-write_branch packed (5 ∷ []) packed-IsBranch
