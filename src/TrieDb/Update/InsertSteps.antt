-- ===== src/TrieDb/Update/InsertSteps.antt =====
-- What update_part of db/triedb.cpp does to the contents of a trie.
use mathlib.Core.Path.{subst}
use epilog.Prelude.{
  ℕ, suc, ◌<◌, ◌≡◌, refl, sym, ap, ◌∙◌, Bool, true, false, ◌==◌, if◌then◌else◌, List, Option, none,
  some, arith,
}
use epilog.TrieDb.Nodes.{Leaf, Branch}
use epilog.TrieDb.Files.{
  Params, Store, Child, no_child, leaf_child, child_at, leaf_size, max_leaf_size, put_leaf_node,
}
use epilog.TrieDb.Update.{
  key_already_exists, Outcome, ok, throws, ◌>>=◌, Updated, sub_index, store_leaf, asserted,
  with_leaf, new_leaf,
}
use epilog.TrieDb.Appends.{IsStore, append_leaf_node_small}
use epilog.TrieDb.Tries.{IsTrie, lookup_child, lookup, prefix_of}
use epilog.TrieDb.Update.Updates.{IsUpdated, Writes, UpdateResult, updated, refused}
use epilog.TrieDb.Update.Steps.{with_leaf-IsUpdated}

pub lookup_place :
    (n : ℕ) (s : Store) (b : Branch) (i k : ℕ) (c : Child)
    → child_at s b i ≡ c
    → sub_index b.depth k ≡ i
    → lookup (suc n) s b k ≡ lookup_child (λ d. lookup n s d k) k c
unfolding lookup
lookup_place n s b i k c e place =
    ap (lookup_child (λ d. lookup n s d k) k) (ap (child_at s b) place ∙ e)

-- The outcome of the step, from that of the recursive call.
pub UpdateResult-bind :
    (s : Store) (n q r key : ℕ) (new : Leaf) (before after : ℕ → Option Leaf) (ins entry : Bool)
    (f : Updated → Updated) (o : Outcome Updated)
    → UpdateResult s n r key new before ins entry o
    → before key ≡ after key
    → ((u : Updated)
        → IsUpdated s n r key (some new) before entry u
        → IsUpdated s (suc n) q key (some new) after entry (f u))
    → UpdateResult s (suc n) q key new after ins entry (o >>= (λ u. ok (f u)))
UpdateResult-bind s n q r key new before after ins entry f o (updated u allowed h) e g =
    updated (f u) (λ i. sym e ∙ allowed i) (g u h)
UpdateResult-bind s n q r key new before after ins entry f o (refused i there) e g =
    refused i (λ none_there. there (e ∙ none_there))

module _ (p : Params) (n q key : ℕ) (bytes : List ℕ) (b : Branch) (ins entry : Bool) (s : Store)
    (positive : 0 < p.bucket_size) (valid : IsStore s) (h : IsTrie s (suc n) q b)
    (fits : prefix_of (suc n) key ≡ q) (at_key : sub_index b.depth key ≡ sub_index (suc n) key)
    (small : leaf_size (new_leaf p key bytes) < max_leaf_size) where
  -- The new leaf is below the largest size, and appended.
  stored :
      (dn : ℕ) (e : Bool)
      → Writes p (suc n) q key bytes b ins entry s (
          ok
            (with_leaf p (sub_index (suc n) key) b dn e (put_leaf_node p (new_leaf p key bytes) s)))
      → Writes p
          (suc n)
          q
          key
          bytes
          b
          ins
          entry
          s
          (store_leaf p (sub_index (suc n) key) b key bytes dn e s)
  unfolding store_leaf
  stored dn e w =
      subst
        (λ o.
          Writes p (suc n) q key bytes b ins entry s
            (asserted o (λ x. ok (with_leaf p (sub_index (suc n) key) b dn e x))))
        (sym (append_leaf_node_small p (new_leaf p key bytes) s small)) w

  pub at_no_child :
      child_at s b (sub_index (suc n) key) ≡ no_child
      → Writes p
          (suc n)
          q
          key
          bytes
          b
          ins
          entry
          s
          (store_leaf p (sub_index (suc n) key) b key bytes 1 true s)
  at_no_child e =
      let nothing : (k : ℕ)
          → sub_index b.depth k ≡ sub_index (suc n) key
          → lookup (suc n) s b k ≡ none =
        λ k place. lookup_place n s b (sub_index (suc n) key) k no_child e place in
      stored 1 true (
        updated
          (with_leaf p (sub_index (suc n) key) b 1 true (put_leaf_node p (new_leaf p key bytes) s))
          (λ i. nothing key at_key)
          (with_leaf-IsUpdated p n q key bytes b entry s positive valid h fits at_key 1 true small
            (λ k place other. nothing k place) (rw (nothing key at_key) refl)))

  -- The place holds a leaf with the key.
  pub at_same_leaf :
      (l : Leaf)
      → child_at s b (sub_index (suc n) key) ≡ leaf_child l
      → (l.key == key) ≡ true
      → Writes p (suc n) q key bytes b ins entry s (
          if ins
          then throws (key_already_exists key)
          else store_leaf p (sub_index (suc n) key) b key bytes 0 entry s)
  at_same_leaf l e same = by_mode ins refl
    where
      holds :
          (k : ℕ)
          → sub_index b.depth k ≡ sub_index (suc n) key
          → lookup (suc n) s b k ≡ (if l.key == k then some l else none)
      holds k place = lookup_place n s b (sub_index (suc n) key) k (leaf_child l) e place

      there : lookup (suc n) s b key ≡ some l
      there = holds key at_key ∙ rw same refl

      some_none : {l : Leaf} → some l ≡ none → ⊥
      some_none f = cc

      false_true : false ≡ true → ⊥
      false_true f = cc

      other_key : (k : ℕ) → (key == k) ≡ false → (l.key == k) ≡ false
      other_key k other = ground (arith, same)

      by_mode :
          (m : Bool)
          → ins ≡ m
          → Writes p (suc n) q key bytes b ins entry s (
              if m
              then throws (key_already_exists key)
              else store_leaf p (sub_index (suc n) key) b key bytes 0 entry s)
      by_mode true m = refused m (λ gone. some_none (sym there ∙ gone))
      by_mode false m = stored 0 entry (
          updated
            (with_leaf p (sub_index (suc n) key) b 0 entry
              (put_leaf_node p (new_leaf p key bytes) s))
            (λ i. absurd (false_true (sym m ∙ i)))
            (with_leaf-IsUpdated p n q key bytes b entry s positive valid h fits at_key 0 entry
              small (λ k place other. holds k place ∙ rw (other_key k other) refl) (rw there refl)))
