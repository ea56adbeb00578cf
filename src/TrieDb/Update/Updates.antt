-- ===== src/TrieDb/Update/Updates.antt =====
-- What update_part of db/triedb.cpp does to the contents of a trie.
use epilog.Prelude.{
  ℕ, suc, ◌+◌, ◌*◌, ◌≡◌, ◌≢◌, refl, sym, ap, ◌∙◌, Bool, true, false, ◌||◌, ◌==◌, ==_iff,
  if◌then◌else◌, Bool-cases, inl, inr, ◌⊎◌, List, Option, none, some, arith,
}
use epilog.TrieDb.Nodes.{Leaf, Branch}
use epilog.TrieDb.Files.{Params, Store, Child, get_branch}
use epilog.TrieDb.Update.{key_already_exists, Outcome, ok, throws, Updated, sub_index, new_leaf}
use epilog.TrieDb.Appends.{IsStore, Extends, Extends_trans}
use epilog.TrieDb.Tries.{IsChild, IsTrie, lookup_child, lookup, IsTrie-Extends, lookup-Extends}
use epilog.TrieDb.Update.Replaces.{
  Replaces, Replaces-IsTrie, Replaces-lookup, IsStored, IsStored-Replaces,
}

abbrev pub is_none : Option Leaf → Bool
is_none none = true
is_none (some l) = false

-- What holds once a key of a branch that held `before` has been given a leaf, or none.
pub record IsUpdated (s : Store) (n q key : ℕ) (new : Option Leaf) (before : ℕ → Option Leaf)
    (new_entry : Bool) (u : Updated) : Type 0 where
  pub stored : get_branch u.store u.ptr ≡ some u.node
  pub valid : IsStore u.store
  pub more : Extends s u.store
  pub trie : IsTrie u.store n q u.node
  pub found : (k : ℕ) → lookup n u.store u.node k ≡ (if key == k then new else before k)
  pub entry : u.new_entry ≡ (is_none (before key) || new_entry)

-- A branch whose child at the key's place was replaced.
pub replaced-IsUpdated :
    (s : Store) (n q key : ℕ) (new : Option Leaf) (b : Branch) (c : Child) (new_entry entry : Bool)
    (u : Updated) (copy : Branch) (s' : Store)
    → IsTrie s (suc n) q b
    → sub_index b.depth key ≡ sub_index (suc n) key
    → Extends s s'
    → IsStored s' copy entry u
    → Replaces u.store b copy (sub_index (suc n) key) c
    → IsChild
        (λ d. IsTrie u.store n (q * 32 + sub_index (suc n) key) d)
        n
        (q * 32 + sub_index (suc n) key)
        c
    → ((k : ℕ)
        → sub_index b.depth k ≡ sub_index (suc n) key
        → lookup_child (λ d. lookup n u.store d k) k c
          ≡ (if key == k then new else lookup (suc n) s b k))
    → entry ≡ (is_none (lookup (suc n) s b key) || new_entry)
    → IsUpdated s (suc n) q key new (lookup (suc n) s b) new_entry u
replaced-IsUpdated s n q key new b c new_entry entry u copy s' h at_key grown st r fits reads e =
    let more = Extends_trans grown st.more in
    let r' = IsStored-Replaces s' b copy (sub_index (suc n) key) c entry u st r in
    let h' = IsTrie-Extends s u.store (suc n) q b more h in
    record {
      stored = st.stored;
      valid = st.valid;
      more = more;
      trie = Replaces-IsTrie u.store n q b u.node (sub_index (suc n) key) c r' h' fits;
      found = λ k.
          Replaces-lookup u.store n q b u.node (sub_index (suc n) key) c r' k
          ∙ elim (Bool-cases (sub_index b.depth k == sub_index (suc n) key)) [
            | inl y ↦ rw y (reads k ((==_iff _ _).0 y))
            | inr other ↦ rw other (
                lookup-Extends s u.store (suc n) q b k more h
                ∙ elsewhere k other (Bool-cases (key == k)))
          ];
      entry = st.entry ∙ e;
    }
  where
    elsewhere :
        (k : ℕ)
        → (sub_index b.depth k == sub_index (suc n) key) ≡ false
        → ((key == k) ≡ true) ⊎ ((key == k) ≡ false)
        → lookup (suc n) s b k ≡ (if key == k then new else lookup (suc n) s b k)
    elsewhere k other (inl y) =
        let e : key ≡ k = (==_iff key k).0 y in
        let f : sub_index b.depth k ≡ sub_index (suc n) key =
          ap (sub_index b.depth) (sym e) ∙ at_key in
        absurd (ground (arith, f))
    elsewhere k other (inr n) = rw n refl

-- The outcomes of update_part: the key is written, or it is there already and an insertion is refused.
pub data UpdateResult (s : Store) (n q key : ℕ) (new : Leaf) (before : ℕ → Option Leaf)
    (do_insert new_entry : Bool) : Outcome Updated → Type 0 where
  updated :
      (u : Updated)
      → (do_insert ≡ true → before key ≡ none)
      → IsUpdated s n q key (some new) before new_entry u
      → UpdateResult s n q key new before do_insert new_entry (ok u)
  refused :
      do_insert ≡ true
      → before key ≢ none
      → UpdateResult s n q key new before do_insert new_entry (throws (key_already_exists key))

-- The outcome o writes the key into the trie b of n levels.
abbrev pub Writes :
    Params → ℕ → ℕ → ℕ → List ℕ → Branch → Bool → Bool → Store → Outcome Updated → Type 0
Writes p n q key bytes b ins entry s o =
    UpdateResult s n q key (new_leaf p key bytes) (lookup n s b) ins entry o
