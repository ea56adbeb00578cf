-- ===== src/TrieDb/Roots.antt =====
-- The roots of db/triedb.cpp: named versions of the trie, each with a pointer into the files.
pub mod Grow
pub mod Contents
pub mod Changes
pub mod Inserting
pub mod Removing
pub mod NewRoots
pub mod Sessions
pub mod Runs
use epilog.Prelude.{
  ℕ, zero, suc, ◌+◌, ◌-◌, ◌*◌, ◌/◌, ◌%◌, ◌^◌, Bool, true, false, ltb, ◌==◌, if◌then◌else◌, List,
  ◌∷◌, Option, none, some,
}
use epilog.TrieDb.Words.{test_bit}
use epilog.TrieDb.Nodes.{Branch, empty_branch, set_depth, set_child_pointer}
use epilog.TrieDb.Files.{Params, Store, get_branch, append_branch_node, branch_hasher}
use epilog.TrieDb.Update.{
  key_not_found, Outcome, ok, throws, undefined, ◌>>=◌, Updated, update_part,
}
use epilog.TrieDb.Remove.{remove_part}

-- triedb_root
pub record Root : Type 0 where
  pub id : ℕ
  pub previous_id : ℕ
  pub ptr : ℕ
  pub height : ℕ
  pub num_entries : ℕ

-- The members of triedb that change: `roots_`, `roots_at_height_`, the bucket files with `last_offset_`,
-- and the file of roots: the records written to it, the last one first, its length and the place that the
-- stream stands at.
pub record Db : Type 0 where
  pub roots : ℕ → Option Root
  pub roots_at_height : ℕ → List ℕ
  pub store : Store
  pub roots_file : List (ℕ × Root)
  pub roots_end : ℕ
  pub roots_tell : ℕ

-- `roots_[id] = root`
unfoldable pub put_root : ℕ → Root → (ℕ → Option Root) → ℕ → Option Root
put_root id root roots k = if k == id then some root else roots k

unfoldable pub at_height : ℕ → ℕ → (ℕ → List ℕ) → ℕ → List ℕ
at_height height id sets h = if h == height then id ∷ sets h else sets h

-- triedb_root::serialization_size
abbrev pub root_size : ℕ
root_size = 32

unfoldable pub set_found : ℕ → ℕ → Db → Option Root → Outcome Db
unfolding put_root
set_found id offset db none = undefined
set_found id offset db (some found) =
    let root : Root = record found { ptr = offset } in
    ok (record db {
      roots_file = (root.id, root) ∷ db.roots_file;
      roots_tell = root.id + root_size;
      roots = put_root id root db.roots;
    })

-- triedb::set_root; get_root asserts that the root is there.
unfoldable pub set_root : ℕ → ℕ → Db → Outcome Db
unfolding set_found
set_root id offset db = set_found id offset db (db.roots id)

unfoldable pub count_found : (ℕ → ℕ) → ℕ → Db → Option Root → Db
unfolding put_root
count_found change id db none = db
count_found change id db (some r) = record db {
  roots = put_root id (record r { num_entries = change r.num_entries }) db.roots;
}

-- triedb::increment_num_entries and triedb::decrement_num_entries, on 64 bits
unfoldable pub increment_num_entries : ℕ → Db → Db
unfolding count_found
increment_num_entries id db = count_found (λ n. (n + 1) % 2 ^ 64) id db (db.roots id)

unfoldable pub decrement_num_entries : ℕ → Db → Db
unfolding count_found
decrement_num_entries id db = count_found (λ n. (n + (2 ^ 64 - 1)) % 2 ^ 64) id db (db.roots id)

-- The index of the highest bit set at or below a place, and 0 where there is none: what `msb` of
-- common/bits.hpp finds with its table.
unfoldable pub msb_from : ℕ → ℕ → ℕ
msb_from zero w = 0
msb_from (suc n) w = if test_bit w (suc n) then suc n else msb_from n w

-- triedb_branch::compute_max_key_bits
unfoldable pub compute_max_key_bits : ℕ → ℕ
unfolding msb_from
compute_max_key_bits key = (msb_from 63 key + 1 + 5 - 1) / 5 * 5

-- One round of the loop of insert_or_update that adds a level on top.
unfoldable pub taller : ℕ → ℕ → Branch
unfolding set_depth set_child_pointer
taller current_depth current_root_ptr =
    set_child_pointer 0 current_root_ptr (set_depth current_depth empty_branch)

-- The loop itself, from the depth of the root; the number bounds its rounds.
unfoldable pub grow : ℕ → Params → ℕ → ℕ → Branch → ℕ → Store → Outcome (Branch × Store)
unfolding taller branch_hasher append_branch_node
grow zero p key_bits current_depth current_root ptr s =
    if ltb (current_depth * 5) key_bits then undefined else ok (current_root, s)
grow (suc rounds) p key_bits current_depth current_root ptr s =
    let new_root = branch_hasher p s (taller (suc current_depth) ptr) in
    let stored = append_branch_node p new_root s in
    let rest = grow rounds p key_bits (suc current_depth) new_root (stored.0) (stored.1) in
    if ltb (current_depth * 5) key_bits then rest else ok (current_root, s)

-- The last two statements of insert_or_update.
unfoldable pub finish_update : ℕ → Db → Updated → Outcome Db
unfolding increment_num_entries set_root
finish_update at_root db u =
    let written : Db = record db { store = u.store } in
    set_root at_root u.ptr (if u.new_entry then increment_num_entries at_root written else written)

unfoldable pub insert_below :
    Params → ℕ → ℕ → List ℕ → Bool → Db → Root → Option Branch → Outcome Db
unfolding compute_max_key_bits grow update_part finish_update
insert_below p at_root key bytes do_insert db root none = undefined
insert_below p at_root key bytes do_insert db root (some current_root) =
    grow 13 p (compute_max_key_bits key) current_root.depth current_root root.ptr db.store
    >>= (λ grown.
        update_part (grown.0.depth) p (grown.0) key bytes do_insert false (grown.1)
        >>= (λ u. finish_update at_root db u))

unfoldable pub insert_found : Params → ℕ → ℕ → List ℕ → Bool → Db → Option Root → Outcome Db
unfolding insert_below get_branch
insert_found p at_root key bytes do_insert db none = undefined
insert_found p at_root key bytes do_insert db (some root) =
    insert_below p at_root key bytes do_insert db root (get_branch db.store root.ptr)

-- triedb::insert_or_update. For an unknown root the code comes to a failed assertion of get_root, or to the
-- end of an empty map.
unfoldable pub insert_or_update : Params → ℕ → ℕ → List ℕ → Bool → Db → Outcome Db
unfolding insert_found
insert_or_update p at_root key bytes do_insert db =
    insert_found p at_root key bytes do_insert db (db.roots at_root)

-- triedb::insert and triedb::update
unfoldable pub insert : Params → ℕ → ℕ → List ℕ → Db → Outcome Db
unfolding insert_or_update
insert p at_root key bytes db = insert_or_update p at_root key bytes true db

unfoldable pub update : Params → ℕ → ℕ → List ℕ → Db → Outcome Db
unfolding insert_or_update
update p at_root key bytes db = insert_or_update p at_root key bytes false db

-- The last two statements of triedb::remove.
unfoldable pub finish_remove : ℕ → Db → Updated → Outcome Db
unfolding decrement_num_entries set_root
finish_remove at_root db u =
    set_root at_root u.ptr (decrement_num_entries at_root (record db { store = u.store }))

unfoldable pub remove_below : Params → ℕ → ℕ → Db → Option Branch → Outcome Db
unfolding compute_max_key_bits remove_part finish_remove
remove_below p at_root key db none = undefined
remove_below p at_root key db (some current_root) =
    if ltb (current_root.depth * 5) (compute_max_key_bits key)
    then throws (key_not_found key)
    else remove_part current_root.depth p current_root key db.store
      >>= (λ u. finish_remove at_root db u)

unfoldable pub remove_found : Params → ℕ → ℕ → Db → Option Root → Outcome Db
unfolding remove_below get_branch
remove_found p at_root key db none = throws (key_not_found key)
remove_found p at_root key db (some root) =
    remove_below p at_root key db (get_branch db.store root.ptr)

-- triedb::remove
unfoldable pub remove : Params → ℕ → ℕ → Db → Outcome Db
unfolding remove_found
remove p at_root key db = remove_found p at_root key db (db.roots at_root)

-- triedb::new_root; the root is named by the place that the stream stands at, and then written at the end.
unfoldable pub new_root : Params → Db → ℕ × Db
unfolding set_depth branch_hasher append_branch_node put_root at_height
new_root p db =
    let stored =
      append_branch_node p (branch_hasher p db.store (set_depth 1 empty_branch)) db.store in
    let rid = db.roots_tell in
    let root : Root = record {
      id = rid;
      previous_id = 0;
      ptr = stored.0;
      height = 0;
      num_entries = 0;
    } in
    (
      rid,
      record {
        roots = put_root rid root db.roots;
        roots_at_height = at_height 0 rid db.roots_at_height;
        store = stored.1;
        roots_file = (db.roots_end, root) ∷ db.roots_file;
        roots_end = db.roots_end + root_size;
        roots_tell = db.roots_end + root_size;
      },
    )

unfoldable pub new_child_found : Db → Option Root → Outcome (ℕ × Db)
unfolding put_root at_height
new_child_found db none = undefined
new_child_found db (some parent) =
    let rid = db.roots_end in
    let root : Root = record {
      id = rid;
      previous_id = parent.id;
      ptr = parent.ptr;
      height = parent.height + 1;
      num_entries = parent.num_entries;
    } in
    ok (
      rid,
      record db {
        roots = put_root rid root db.roots;
        roots_at_height = at_height (parent.height + 1) rid db.roots_at_height;
        roots_file = (db.roots_end, root) ∷ db.roots_file;
        roots_end = db.roots_end + root_size;
        roots_tell = db.roots_end + root_size;
      },
    )

-- triedb::new_root with a parent, which starts as a second name for the parent's trie; the code asserts
-- that the parent is there.
unfoldable pub new_child_root : ℕ → Db → Outcome (ℕ × Db)
unfolding new_child_found
new_child_root parent_id db = new_child_found db (db.roots parent_id)
