-- ===== src/TrieDb/Roots/Sessions.antt =====
-- A client's calls of insert, update and remove of db/triedb.cpp, one after the other, against a map for
-- each root.
use epilog.Prelude.{
  ℕ, ◌^◌, ◌<◌, ◌≡◌, refl, sym, ap, ◌∙◌, Bool, true, false, ◌==◌, ==_iff, if◌then◌else◌, Bool-cases,
  inl, inr, List, [], ◌∷◌, Option, none, some, arith,
}
use epilog.TrieDb.Nodes.{Leaf}
use epilog.TrieDb.Files.{Params, leaf_size, max_leaf_size}
use epilog.TrieDb.Update.{Outcome, ok, throws, undefined, ◌>>=◌, new_leaf}
use epilog.TrieDb.Roots.{Root, Db, insert, update, remove}
use epilog.TrieDb.Roots.Contents.{contents, IsDb, ChangeResult, changed}

pub data Call : Type 0 where
  insert_call : ℕ → ℕ → List ℕ → Call
  update_call : ℕ → ℕ → List ℕ → Call
  remove_call : ℕ → ℕ → Call

unfoldable pub make_call : Params → Call → Db → Outcome Db
make_call p (insert_call id key bytes) db = insert p id key bytes db
make_call p (update_call id key bytes) db = update p id key bytes db
make_call p (remove_call id key) db = remove p id key db

-- The client catches an exception and goes on with the database as it was: an exception comes before anything is
-- written.
abbrev pub settle : Db → Outcome Db → Outcome Db
settle db (ok after) = ok after
settle db (throws e) = ok db
settle db undefined = undefined

unfoldable pub run : Params → List Call → Db → Outcome Db
unfolding make_call
run p [] db = ok db
run p (c ∷ calls) db = settle db (make_call p c db) >>= (λ after. run p calls after)

abbrev pub custom_data_of : Option Leaf → Option (List ℕ)
custom_data_of none = none
custom_data_of (some l) = some l.custom_data

-- What a client sees: the data of a key at a root.
abbrev pub view : Db → ℕ → ℕ → Option (List ℕ)
view db id key = custom_data_of (contents db id key)

abbrev pub put_view : ℕ → ℕ → Option (List ℕ) → (ℕ → ℕ → Option (List ℕ)) → ℕ → ℕ → Option (List ℕ)
put_view id key value v i k = if i == id then if key == k then value else v i k else v i k

abbrev pub fresh_or : Option (List ℕ) → List ℕ → Option (List ℕ)
fresh_or none bytes = some bytes
fresh_or (some old) bytes = some old

-- The calls on a map for each root: an insertion changes nothing where the key is there, and a removal
-- where it is not.
abbrev pub replay_call : Call → (ℕ → ℕ → Option (List ℕ)) → ℕ → ℕ → Option (List ℕ)
replay_call (insert_call id key bytes) v = put_view id key (fresh_or (v id key) bytes) v
replay_call (update_call id key bytes) v = put_view id key (some bytes) v
replay_call (remove_call id key) v = put_view id key none v

abbrev pub replay : List Call → (ℕ → ℕ → Option (List ℕ)) → ℕ → ℕ → Option (List ℕ)
replay [] v = v
replay (c ∷ calls) v = replay calls (replay_call c v)

abbrev pub known : Option Root → Bool
known none = false
known (some r) = true

abbrev pub root_of : Call → ℕ
root_of (insert_call id key bytes) = id
root_of (update_call id key bytes) = id
root_of (remove_call id key) = id

abbrev pub key_of : Call → ℕ
key_of (insert_call id key bytes) = key
key_of (update_call id key bytes) = key
key_of (remove_call id key) = key

-- The leaf that the call would write is below the largest size.
abbrev pub IsSmall : Params → Call → Type 0
IsSmall p (insert_call id key bytes) = leaf_size (new_leaf p key bytes) < max_leaf_size
IsSmall p (update_call id key bytes) = leaf_size (new_leaf p key bytes) < max_leaf_size
IsSmall p (remove_call id key) = Unit

-- Every call is at a root of the database, has a key of 64 bits and writes no leaf of 2 MB or more.
abbrev pub AreCalls : Params → Db → List Call → Type 0
AreCalls p db [] = Unit
AreCalls p db (c ∷ calls) =
    (known (db.roots (root_of c)) ≡ true) × (key_of c < 2 ^ 64) × IsSmall p c × AreCalls p db calls

-- One call brings the database to another with the same roots, which shows what the map shows.
pub record Follows (db after : Db) (v : ℕ → ℕ → Option (List ℕ)) (o : Outcome Db) : Type 0 where
  pub returned : o ≡ ok after
  pub valid : IsDb after
  pub roots : (k : ℕ) → known (after.roots k) ≡ known (db.roots k)
  pub seen : (i k : ℕ) → view after i k ≡ v i k

pub data CallResult (db : Db) (v : ℕ → ℕ → Option (List ℕ)) (o : Outcome Db) : Type 0 where
  follows : (after : Db) → Follows db after v o → CallResult db v o

-- A change of one key is a change of the map.
pub from_change :
    (db : Db) (id key num : ℕ) (r : Root) (holds : ℕ → Option Leaf) (value : Option (List ℕ))
    (o : Outcome Db)
    → db.roots id ≡ some r
    → ((k : ℕ)
        → custom_data_of (holds k)
          ≡ (if key == k then value else custom_data_of (contents db id k)))
    → ChangeResult db id r holds num o
    → CallResult db (put_view id key value (view db)) (settle db o)
from_change db id key num r holds value o here fits (changed after c) = follows after (record {
  returned = refl;
  valid = c.valid;
  roots = λ k. elim (Bool-cases (k == id)) [
    | inl y ↦
        let e : k ≡ id = (==_iff k id).0 y in
        ap known (ap after.roots e ∙ c.root) ∙ sym (ap known (ap db.roots e ∙ here))
    | inr other ↦ ap known (c.same_roots k (λ e. absurd (ground (arith, e))))
  ];
  seen = λ i k. elim (Bool-cases (i == id)) [
    | inl y ↦
        let e : i ≡ id = (==_iff i id).0 y in
        rw y (
          ap (λ j. custom_data_of (contents after j k)) e
          ∙ ap custom_data_of (c.found k)
          ∙ fits k
          ∙ ap (λ j. if key == k then value else custom_data_of (contents db j k)) (sym e))
    | inr other ↦ rw other (ap custom_data_of (c.others i k (λ e. absurd (ground (arith, e)))))
  ];
})

-- A refused call leaves a map that shows the same.
pub from_refusal :
    (db : Db) (id key : ℕ) (value : Option (List ℕ)) (o : Outcome Db)
    → IsDb db
    → o ≡ ok db
    → value ≡ view db id key
    → CallResult db (put_view id key value (view db)) o
from_refusal db id key value o valid e same = follows db (record {
  returned = e;
  valid = valid;
  roots = λ k. refl;
  seen = λ i k. elim (Bool-cases (i == id)) [
    | inr other ↦ rw other refl
    | inl y ↦ rw y (at_key i k y)
  ];
})
  where
    at_key : (i k : ℕ) → (i == id) ≡ true → view db i k ≡ (if key == k then value else view db i k)
    at_key i k y = elim (Bool-cases (key == k)) [
      | inr other ↦ rw other refl
      | inl z ↦ rw z (
          ap (λ j. view db j k) ((==_iff i id).0 y)
          ∙ ap (λ j. view db id j) (sym ((==_iff key k).0 z))
          ∙ sym same)
    ]
