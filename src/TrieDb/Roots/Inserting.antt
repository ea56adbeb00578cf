-- ===== src/TrieDb/Roots/Inserting.antt =====
-- insert and update of db/triedb.cpp change what one root holds for one key, and nothing else.
use mathlib.Core.Path.{subst}
use epilog.Prelude.{
  ℕ, ◌+◌, ◌%◌, ◌^◌, ◌≤◌, ◌<◌, ◌≡◌, ◌≢◌, refl, sym, ap, ◌∙◌, Bool, true, false, ◌||◌, ◌==◌,
  if◌then◌else◌, Bool-cases, inl, inr, List, Option, none, some, arith,
}
use epilog.TrieDb.Nodes.{Leaf, Branch}
use epilog.TrieDb.Files.{Params, Store, get_branch, leaf_size, max_leaf_size}
use epilog.TrieDb.Update.{
  key_already_exists, Outcome, throws, ◌>>=◌, Updated, new_leaf, update_part,
}
use epilog.TrieDb.Appends.{Extends, Extends_trans}
use epilog.TrieDb.Tries.{IsTrie, lookup}
use epilog.TrieDb.Update.Updates.{is_none, IsUpdated, UpdateResult, updated, refused}
use epilog.TrieDb.Update.Part.{update_part-Writes}
use epilog.TrieDb.Roots.{
  Root, Db, set_root, increment_num_entries, compute_max_key_bits, grow, finish_update,
  insert_below, insert_found, insert_or_update,
}
use epilog.TrieDb.Roots.Grow.{GrowResult, grown, grow_lem}
use epilog.TrieDb.Roots.Contents.{
  contents, held_at, IsRoot, is_root, IsDb, IsTrie-depth, held_at-trie, ChangeResult,
}
use epilog.TrieDb.Roots.Changes.{
  compute_max_key_bits_enough, compute_max_key_bits_le, ChangeResult-cong, set_root-count_found,
  set_root_same,
}

abbrev pub one_more : Bool → ℕ → ℕ
one_more true n = (n + 1) % 2 ^ 64
one_more false n = n

-- The outcomes of insert_or_update at a root: the key is written, or an insertion finds it there.
pub data InsertResult (db : Db) (id : ℕ) (r : Root) (key : ℕ) (new : Leaf) (do_insert : Bool)
    (o : Outcome Db) : Type 0 where
  inserted :
      (do_insert ≡ true → contents db id key ≡ none)
      → ChangeResult db id r
          (λ k. if key == k then some new else contents db id k)
          (one_more (is_none (contents db id key)) r.num_entries)
          o
      → InsertResult db id r key new do_insert o
  not_inserted :
      do_insert ≡ true
      → contents db id key ≢ none
      → o ≡ throws (key_already_exists key)
      → InsertResult db id r key new do_insert o

pub contents-trie :
    (db : Db) (id : ℕ) (r : Root) (n : ℕ) (b : Branch) (key : ℕ)
    → db.roots id ≡ some r
    → get_branch db.store r.ptr ≡ some b
    → IsTrie db.store n 0 b
    → contents db id key ≡ lookup n db.store b key
unfolding contents
contents-trie db id r n b key e f h =
    ap (λ (o : Option Root). held_at db.store o key) e ∙ held_at-trie db.store r n b key f h

module _ (p : Params) (db : Db) (id : ℕ) (r : Root) (key : ℕ) (bytes : List ℕ) (ins : Bool)
    (valid : IsDb db) (here : db.roots id ≡ some r)
    (leaf_small : leaf_size (new_leaf p key bytes) < max_leaf_size) where
  finished :
      (t : Store) (n : ℕ) (u : Updated) (held : ℕ → Option Leaf)
      → Extends db.store t
      → n ≤ 13
      → ((k : ℕ) → held k ≡ contents db id k)
      → IsUpdated t n 0 key (some (new_leaf p key bytes)) held false u
      → ChangeResult db id r
          (λ k. if key == k then some (new_leaf p key bytes) else contents db id k)
          (one_more (is_none (contents db id key)) r.num_entries)
          (finish_update id db u)
  unfolding finish_update increment_num_entries
  finished t n u held more small same w =
      let all_more = Extends_trans more w.more in
      let new_entry : u.new_entry ≡ is_none (contents db id key) =
        w.entry ∙ or_false (is_none (held key)) ∙ ap is_none (same key) in
      elim (Bool-cases u.new_entry) [
        | inl y ↦
            subst
              (λ z.
                ChangeResult db id r holds (one_more (is_none (contents db id key)) r.num_entries) (
                  set_root id u.ptr (
                    if z
                    then increment_num_entries id (record db { store = u.store })
                    else record db { store = u.store })))
              (sym y)
              (ChangeResult-cong db id r (λ k. lookup n u.store u.node k) holds
                ((r.num_entries + 1) % 2 ^ 64)
                (one_more (is_none (contents db id key)) r.num_entries)
                (set_root id u.ptr (increment_num_entries id (record db { store = u.store }))) reads
                (ap (λ z. one_more z r.num_entries) (sym y ∙ new_entry))
                (set_root-count_found db id r valid here n u all_more w.valid w.stored w.trie small
                  (λ m. (m + 1) % 2 ^ 64)))
        | inr old ↦
            subst
              (λ z.
                ChangeResult db id r holds (one_more (is_none (contents db id key)) r.num_entries) (
                  set_root id u.ptr (
                    if z
                    then increment_num_entries id (record db { store = u.store })
                    else record db { store = u.store })))
              (sym old)
              (ChangeResult-cong db id r (λ k. lookup n u.store u.node k) holds r.num_entries
                (one_more (is_none (contents db id key)) r.num_entries)
                (set_root id u.ptr (record db { store = u.store })) reads
                (ap (λ z. one_more z r.num_entries) (sym old ∙ new_entry))
                (set_root_same db id r valid here n u all_more w.valid w.stored w.trie small))
      ]
    where
      or_false : (z : Bool) → (z || false) ≡ z
      or_false true = refl
      or_false false = refl

      holds : ℕ → Option Leaf
      holds k = if key == k then some (new_leaf p key bytes) else contents db id k

      reads : (k : ℕ) → lookup n u.store u.node k ≡ holds k
      reads k =
          w.found k
          ∙ ap (λ (o : Option Leaf). if key == k then some (new_leaf p key bytes) else o) (same k)

  after_update :
      (t : Store) (n : ℕ) (held : ℕ → Option Leaf) (o : Outcome Updated)
      → Extends db.store t
      → n ≤ 13
      → ((k : ℕ) → held k ≡ contents db id k)
      → UpdateResult t n 0 key (new_leaf p key bytes) held ins false o
      → InsertResult db id r key (new_leaf p key bytes) ins (o >>= (λ u. finish_update id db u))
  after_update t n held o more small same (updated u allowed w) =
      inserted (λ i. sym (same key) ∙ allowed i) (finished t n u held more small same w)
  after_update t n held o more small same (refused i there) =
      not_inserted i (λ gone. there (same key ∙ gone)) refl

  after_grow :
      (held : ℕ → Option Leaf) (o : Outcome (Branch × Store))
      → 0 < p.bucket_size
      → key < 2 ^ 64
      → ((k : ℕ) → held k ≡ contents db id k)
      → GrowResult db.store held (compute_max_key_bits key) o
      → InsertResult db id r key (new_leaf p key bytes) ins (
          o >>= (λ grown.
            update_part (grown.0.depth) p (grown.0) key bytes ins false (grown.1)
            >>= (λ u. finish_update id db u)))
  after_grow held o positive short same (grown n b t g) =
      subst
        (λ d.
          InsertResult db id r key (new_leaf p key bytes) ins
            (update_part d p b key bytes ins false t >>= (λ u. finish_update id db u)))
        (sym (IsTrie-depth t n 0 b g.trie))
        (after_update t n (lookup n t b) (update_part n p b key bytes ins false t) g.more g.small
          (λ k. g.same k ∙ same k)
          (update_part-Writes n p 0 key bytes b ins false t positive (omega (arith, g.small))
            g.valid g.trie (compute_max_key_bits_enough key n short g.wide) leaf_small))

  pub insert_or_update_lem :
      0 < p.bucket_size
      → key < 2 ^ 64
      → InsertResult db id r key (new_leaf p key bytes) ins (insert_or_update p id key bytes ins db)
  unfolding insert_or_update insert_found insert_below
  insert_or_update_lem positive short =
      subst
        (λ o.
          InsertResult db id r key (new_leaf p key bytes) ins
            (insert_found p id key bytes ins db o))
        (sym here) (at_root (valid.rooted id r here))
    where
      at_root :
          IsRoot db.store r
          → InsertResult db id r key
              (new_leaf p key bytes)
              ins
              (insert_below p id key bytes ins db r (get_branch db.store r.ptr))
      at_root (is_root n b there h small) =
          subst
            (λ o.
              InsertResult db id r key (new_leaf p key bytes) ins
                (insert_below p id key bytes ins db r o))
            (sym there)
            (subst
              (λ d. InsertResult db id r key (new_leaf p key bytes) ins (
                grow 13 p (compute_max_key_bits key) d b r.ptr db.store >>= (λ grown.
                  update_part (grown.0.depth) p (grown.0) key bytes ins false (grown.1)
                  >>= (λ u. finish_update id db u))))
              (sym (IsTrie-depth db.store n 0 b h))
              (after_grow (lookup n db.store b)
                (grow 13 p (compute_max_key_bits key) n b r.ptr db.store) positive short
                (λ k. sym (contents-trie db id r n b k here there h))
                (grow_lem 13 p (compute_max_key_bits key) n b r.ptr db.store positive
                  (omega (arith, compute_max_key_bits_le key)) (compute_max_key_bits_le key) small
                  valid.valid there h)))
