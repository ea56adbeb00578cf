-- ===== src/TrieDb/Roots/Runs.antt =====
-- Every run of calls of insert, update and remove of db/triedb.cpp does what a map for each root does.
use epilog.Prelude.{
  ℕ, ◌^◌, ◌<◌, ◌≡◌, ◌≢◌, refl, sym, ap, Bool, true, false, ◌==◌, if◌then◌else◌, List, Option, none,
  some,
}
use epilog.TrieDb.Nodes.{Leaf}
use epilog.TrieDb.Files.{Params, leaf_size, max_leaf_size}
use epilog.TrieDb.Update.{Outcome, new_leaf}
use epilog.TrieDb.Update.Updates.{is_none}
use epilog.TrieDb.Roots.{Root, Db, insert, update, remove, insert_or_update}
use epilog.TrieDb.Roots.Contents.{contents, IsDb}
use epilog.TrieDb.Roots.Inserting.{
  one_more, InsertResult, inserted, not_inserted, insert_or_update_lem,
}
use epilog.TrieDb.Roots.Removing.{RemoveOutcome, taken, not_taken, one_less, remove_lem}
use epilog.TrieDb.Roots.Sessions.{
  Call, insert_call, update_call, remove_call, make_call, settle, custom_data_of, view, put_view,
  fresh_or, replay_call, known, root_of, key_of, IsSmall, CallResult, from_change, from_refusal,
}

-- What a key holds once it is written or taken away.
custom_data_if :
    (test : Bool) (a b : Option Leaf) (value : Option (List ℕ))
    → custom_data_of a ≡ value
    → custom_data_of (if test then a else b) ≡ (if test then value else custom_data_of b)
custom_data_if true a b value e = e
custom_data_if false a b value e = refl

fresh_or-some :
    (o : Option Leaf) (bytes : List ℕ)
    → o ≢ none
    → fresh_or (custom_data_of o) bytes ≡ custom_data_of o
fresh_or-some none bytes f = absurd (f refl)
fresh_or-some (some l) bytes f = refl

module _ (p : Params) (positive : 0 < p.bucket_size) (db : Db) (valid : IsDb db) where
  insert_call_follows :
      (id key : ℕ) (bytes : List ℕ) (r : Root)
      → db.roots id ≡ some r
      → key < 2 ^ 64
      → leaf_size (new_leaf p key bytes) < max_leaf_size
      → CallResult db
          (replay_call (insert_call id key bytes) (view db))
          (settle db (insert_or_update p id key bytes true db))
  unfolding new_leaf
  insert_call_follows id key bytes r here short small =
      by_result (insert_or_update p id key bytes true db)
        (insert_or_update_lem p db id r key bytes true valid here small positive short)
    where
      by_result :
          (o : Outcome Db)
          → InsertResult db id r key (new_leaf p key bytes) true o
          → CallResult db
              (put_view id key (fresh_or (view db id key) bytes) (view db))
              (settle db o)
      by_result o (inserted allowed c) =
          from_change db id key (one_more (is_none (contents db id key)) r.num_entries) r
            (λ k. if key == k then some (new_leaf p key bytes) else contents db id k)
            (fresh_or (view db id key) bytes) o here
            (λ k.
              custom_data_if (key == k) (some (new_leaf p key bytes)) (contents db id k)
                (fresh_or (view db id key) bytes)
                (sym (ap (λ x. fresh_or (custom_data_of x) bytes) (allowed refl))))
            c
      by_result o (not_inserted i there e) =
          from_refusal db id key (fresh_or (view db id key) bytes) (settle db o) valid
            (ap (settle db) e) (fresh_or-some (contents db id key) bytes there)

  update_call_follows :
      (id key : ℕ) (bytes : List ℕ) (r : Root)
      → db.roots id ≡ some r
      → key < 2 ^ 64
      → leaf_size (new_leaf p key bytes) < max_leaf_size
      → CallResult db
          (replay_call (update_call id key bytes) (view db))
          (settle db (insert_or_update p id key bytes false db))
  unfolding new_leaf
  update_call_follows id key bytes r here short small =
      by_result (insert_or_update p id key bytes false db)
        (insert_or_update_lem p db id r key bytes false valid here small positive short)
    where
      by_result :
          (o : Outcome Db)
          → InsertResult db id r key (new_leaf p key bytes) false o
          → CallResult db (put_view id key (some bytes) (view db)) (settle db o)
      by_result o (inserted allowed c) =
          from_change db id key (one_more (is_none (contents db id key)) r.num_entries) r
            (λ k. if key == k then some (new_leaf p key bytes) else contents db id k) (some bytes) o
            here
            (λ k.
              custom_data_if (key == k) (some (new_leaf p key bytes)) (contents db id k)
                (some bytes) refl)
            c
      by_result o (not_inserted i there e) = absurd (cc)

  remove_call_follows :
      (id key : ℕ) (r : Root)
      → db.roots id ≡ some r
      → key < 2 ^ 64
      → CallResult db (replay_call (remove_call id key) (view db)) (settle db (remove p id key db))
  remove_call_follows id key r here short =
      by_result (remove p id key db) (remove_lem p db id r key valid here positive short)
    where
      by_result :
          (o : Outcome Db)
          → RemoveOutcome db id r key o
          → CallResult db (put_view id key none (view db)) (settle db o)
      by_result o (taken there c) =
          from_change db id key (one_less r.num_entries) r
            (λ k. if key == k then none else contents db id k) none o here
            (λ k. custom_data_if (key == k) none (contents db id k) none refl) c
      by_result o (not_taken x gone e) =
          from_refusal db id key none (settle db o) valid (ap (settle db) e)
            (sym (ap custom_data_of gone))

  known_root : (o : Option Root) → known o ≡ true → (r : Root) × (o ≡ some r)
  known_root none e = absurd (cc)
  known_root (some r) e = (r, refl)

  pub call_follows :
      (c : Call)
      → known (db.roots (root_of c)) ≡ true
      → key_of c < 2 ^ 64
      → IsSmall p c
      → CallResult db (replay_call c (view db)) (settle db (make_call p c db))
  unfolding make_call insert update
  call_follows (insert_call id key bytes) e short small =
      let (r, here) = known_root (db.roots id) e in
      insert_call_follows id key bytes r here short small
  call_follows (update_call id key bytes) e short small =
      let (r, here) = known_root (db.roots id) e in
      update_call_follows id key bytes r here short small
  call_follows (remove_call id key) e short small =
      let (r, here) = known_root (db.roots id) e in remove_call_follows id key r here short
