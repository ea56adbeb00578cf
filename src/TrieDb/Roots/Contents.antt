-- ===== src/TrieDb/Roots/Contents.antt =====
-- What each root of the database of db/triedb.cpp holds.
use mathlib.Core.Path.{subst}
use epilog.Prelude.{
  ℕ, zero, suc, ◌+◌, ◌≤◌, ◌≡◌, ◌≢◌, refl, sym, ap, ◌∙◌, ◌==◌, ==_iff, Bool-cases, inl, inr, ◌∷◌,
  Option, none, some, arith,
}
use epilog.TrieDb.Nodes.{Leaf, Branch}
use epilog.TrieDb.Files.{Store, get_branch}
use epilog.TrieDb.Update.{Outcome, ok}
use epilog.TrieDb.Appends.{IsStore, Extends}
use epilog.TrieDb.Tries.{IsTrie, lookup, IsTrie-Extends, lookup-Extends}
use epilog.TrieDb.Update.Replaces.{get_branch-Extends}
use epilog.TrieDb.Roots.{Root, Db, root_size, put_root, set_found, set_root}

abbrev pub held_by : Store → Option Branch → ℕ → Option Leaf
held_by s none key = none
held_by s (some b) key = lookup b.depth s b key

abbrev pub held_at : Store → Option Root → ℕ → Option Leaf
held_at s none key = none
held_at s (some r) key = held_by s (get_branch s r.ptr) key

-- The leaf that a root has for a key.
unfoldable pub contents : Db → ℕ → ℕ → Option Leaf
contents db id key = held_at db.store (db.roots id) key

-- The pointer of a root leads to a trie of all keys.
pub data IsRoot (s : Store) (r : Root) : Type 0 where
  is_root :
      (n : ℕ) (b : Branch) → get_branch s r.ptr ≡ some b → IsTrie s n 0 b → n ≤ 13 → IsRoot s r

pub record IsDb (db : Db) : Type 0 where
  pub valid : IsStore db.store
  pub rooted : (id : ℕ) (r : Root) → db.roots id ≡ some r → IsRoot db.store r

pub IsTrie-depth : (s : Store) (n q : ℕ) (b : Branch) → IsTrie s n q b → b.depth ≡ n
unfolding IsTrie
IsTrie-depth s zero q b h = elim h [ ]
IsTrie-depth s (suc n) q b h = h.0

-- What a root with a trie holds.
pub held_at-trie :
    (s : Store) (r : Root) (n : ℕ) (b : Branch) (key : ℕ)
    → get_branch s r.ptr ≡ some b
    → IsTrie s n 0 b
    → held_at s (some r) key ≡ lookup n s b key
held_at-trie s r n b key e h =
    ap (λ (o : Option Branch). held_by s o key) e
    ∙ ap (λ (d : ℕ). lookup d s b key) (IsTrie-depth s n 0 b h)

pub IsRoot-Extends : (s t : Store) (r : Root) → Extends s t → IsRoot s r → IsRoot t r
IsRoot-Extends s t r more (is_root n b e h small) =
    is_root n b (get_branch-Extends s t r.ptr b more e) (IsTrie-Extends s t n 0 b more h) small

pub held_at-Extends :
    (s t : Store) (r : Root) (key : ℕ)
    → Extends s t
    → IsRoot s r
    → held_at t (some r) key ≡ held_at s (some r) key
held_at-Extends s t r key more (is_root n b e h small) =
    held_at-trie t r n b key (get_branch-Extends s t r.ptr b more e)
      (IsTrie-Extends s t n 0 b more h)
    ∙ lookup-Extends s t n 0 b key more h
    ∙ sym (held_at-trie s r n b key e h)

-- One root of the database got a new trie and a new count of entries; nothing else changed.
pub record IsChanged (db : Db) (id : ℕ) (r : Root) (holds : ℕ → Option Leaf) (num : ℕ) (after : Db)
    : Type 0 where
  pub valid : IsDb after
  pub found : (key : ℕ) → contents after id key ≡ holds key
  pub others : (k key : ℕ) → k ≢ id → contents after k key ≡ contents db k key
  pub new_ptr : ℕ
  pub root : after.roots id ≡ some (record r { ptr = new_ptr; num_entries = num })
  pub same_roots : (k : ℕ) → k ≢ id → after.roots k ≡ db.roots k

pub data ChangeResult (db : Db) (id : ℕ) (r : Root) (holds : ℕ → Option Leaf) (num : ℕ)
    : Outcome Db → Type 0 where
  changed :
      (after : Db) → IsChanged db id r holds num after → ChangeResult db id r holds num (ok after)

pub put_root_self : (id : ℕ) (r : Root) (roots : ℕ → Option Root) → put_root id r roots id ≡ some r
unfolding put_root
put_root_self id r roots = ground arith

pub put_root_other :
    (id : ℕ) (r : Root) (roots : ℕ → Option Root) (k : ℕ) → k ≢ id → put_root id r roots k ≡ roots k
unfolding put_root
put_root_other id r roots k other = ground arith

module _ (db : Db) (id : ℕ) (r : Root) (valid : IsDb db) (mid : Db) (num : ℕ)
    (at_id : mid.roots id ≡ some (record r { num_entries = num }))
    (elsewhere : (k : ℕ) → k ≢ id → mid.roots k ≡ db.roots k) (more : Extends db.store mid.store)
    (store_valid : IsStore mid.store) (n offset : ℕ) (b : Branch)
    (there : get_branch mid.store offset ≡ some b) (h : IsTrie mid.store n 0 b)
    (small : n ≤ 13) where
  new : Root
  new = record r { ptr = offset; num_entries = num }

  after : Db
  after = record mid {
    roots_file = (r.id, new) ∷ mid.roots_file;
    roots_tell = r.id + root_size;
    roots = put_root id new mid.roots;
  }

  set_root-after : set_root id offset mid ≡ ok after
  unfolding set_root set_found after new
  set_root-after = ap (set_found id offset mid) at_id

  -- The root gets its new pointer, and every root still leads to a trie.
  pub set_root-ChangeResult :
      ChangeResult db id r (λ key. lookup n mid.store b key) num (set_root id offset mid)
  unfolding after new contents
  set_root-ChangeResult =
      subst (ChangeResult db id r (λ key. lookup n mid.store b key) num) (sym set_root-after) (
        changed after (record {
          valid = record { valid = store_valid; rooted = rooted };
          found = λ key.
              ap (λ (o : Option Root). held_at mid.store o key) (put_root_self id new mid.roots)
              ∙ held_at-trie mid.store new n b key there h;
          others = λ k key other.
              ap (λ (o : Option Root). held_at mid.store o key)
                (put_root_other id new mid.roots k other ∙ elsewhere k other)
              ∙ still (db.roots k) key (λ s e. valid.rooted k s e);
          new_ptr = offset;
          root = put_root_self id new mid.roots;
          same_roots = λ k other. put_root_other id new mid.roots k other ∙ elsewhere k other;
        }))
    where
      same_root : (x y : Root) → some x ≡ some y → x ≡ y
      same_root x y f = cc

      rooted : (k : ℕ) (s : Root) → put_root id new mid.roots k ≡ some s → IsRoot mid.store s
      rooted k s e = elim (Bool-cases (k == id)) [
        | inl y ↦
            let f : put_root id new mid.roots k ≡ some new =
              ap (put_root id new mid.roots) ((==_iff k id).0 y) ∙ put_root_self id new mid.roots in
            subst (IsRoot mid.store) (same_root new s (sym f ∙ e)) (is_root n b there h small)
        | inr other ↦
            let distinct : k ≢ id = λ same. absurd (ground (arith, same)) in
            IsRoot-Extends db.store mid.store s more (
              valid.rooted k s
                (sym (elsewhere k distinct) ∙ sym (put_root_other id new mid.roots k distinct) ∙ e))
      ]

      still :
          (o : Option Root) (key : ℕ)
          → ((s : Root) → o ≡ some s → IsRoot db.store s)
          → held_at mid.store o key ≡ held_at db.store o key
      still none key f = refl
      still (some s) key f = held_at-Extends db.store mid.store s key more (f s refl)
