-- ===== src/TrieDb/Update/Part.antt =====
-- update_part of db/triedb.cpp writes one key and leaves every other as it was.
use mathlib.Core.Path.{subst}
use epilog.Prelude.{
  ℕ, zero, suc, ◌+◌, ◌*◌, ◌/◌, ◌<◌, ◌≡◌, refl, sym, ap, ◌∙◌, Bool, false, ◌==◌, Bool-cases, inl,
  inr, List, some, arith,
}
use epilog.TrieDb.Nodes.{Leaf, Branch, get_child_pointer}
use epilog.TrieDb.Files.{
  Params, Store, Child, no_child, leaf_child, branch_child, unreadable, get_leaf, child_at,
  leaf_size, max_leaf_size,
}
use epilog.TrieDb.Update.{
  Outcome, ok, ◌>>=◌, Updated, sub_index, new_leaf, pushed_down, with_pushed, update_child,
  update_part,
}
use epilog.TrieDb.Children.{get_leaf-child_at}
use epilog.TrieDb.Appends.{IsStore}
use epilog.TrieDb.Tries.{IsChild, IsTrie, prefix_of, sub_index_lt, prefix_of_child}
use epilog.TrieDb.Update.Updates.{Writes}
use epilog.TrieDb.Update.Pushed.{pushed_down-IsTrie, pushed_down-lookup}
use epilog.TrieDb.Update.InsertSteps.{at_no_child, at_same_leaf}
use epilog.TrieDb.Update.Inserts.{at_branch, at_other_leaf}

-- With no part of the keys left, a leaf in the place of a key has that key.
no_parts_left : (a k r : ℕ) → prefix_of 0 a ≡ r → prefix_of 0 k ≡ r → a ≡ k
no_parts_left a k r e f =
    let g : (n : ℕ) → n / 1 ≡ n = λ n. omega arith in sym (g a) ∙ e ∙ sym f ∙ g k

module _ (p : Params) (q key : ℕ) (bytes : List ℕ) (ins entry : Bool) (s : Store)
    (positive : 0 < p.bucket_size) (valid : IsStore s)
    (leaf_small : leaf_size (new_leaf p key bytes) < max_leaf_size) where
  -- A leaf of another key, by whether a level is left below.
  pushed-Writes :
      (n : ℕ) (b : Branch) (rec : Branch → Bool → Store → Outcome Updated) (l : Leaf)
      → suc n < 257
      → IsTrie s (suc n) q b
      → b.depth ≡ suc n
      → prefix_of (suc n) key ≡ q
      → sub_index b.depth key ≡ sub_index (suc n) key
      → ((d : Branch)
          → IsTrie s n (q * 32 + sub_index (suc n) key) d
          → Writes p n (q * 32 + sub_index (suc n) key) key bytes d ins entry s (rec d entry s))
      → child_at s b (sub_index (suc n) key) ≡ leaf_child l
      → (l.key == key) ≡ false
      → prefix_of n l.key ≡ q * 32 + sub_index (suc n) key
      → Writes p (suc n) q key bytes b ins entry s (
          rec (pushed_down b (sub_index (suc n) key) l) entry s
          >>= (λ u. ok (with_pushed p (sub_index (suc n) key) b entry u)))
  pushed-Writes zero b rec l small h deep fits at_key below e other leaf_fits =
      let same : l.key ≡ key =
        no_parts_left l.key key (q * 32 + sub_index 1 key) leaf_fits
          (prefix_of_child 0 key q fits) in
      absurd (ground (arith, same))
  pushed-Writes (suc m) b rec l small h deep fits at_key below e other leaf_fits =
      let i = sub_index (suc (suc m)) key in
      let there : get_leaf s (get_child_pointer b i) ≡ some l =
        get_leaf-child_at s b i (sub_index_lt (suc (suc m)) key) l e in
      at_other_leaf p (suc m) q key bytes b ins entry s positive (omega arith) valid h fits at_key
        rec l below e other
        (pushed_down-IsTrie s b i m l deep (omega arith) there (q * 32 + i) leaf_fits)
        (pushed_down-lookup s b i m l deep (omega arith) there)

  update_child-Writes :
      (n : ℕ) (b : Branch) (rec : Branch → Bool → Store → Outcome Updated) (c : Child)
      → suc n < 257
      → IsTrie s (suc n) q b
      → b.depth ≡ suc n
      → prefix_of (suc n) key ≡ q
      → sub_index b.depth key ≡ sub_index (suc n) key
      → ((d : Branch)
          → IsTrie s n (q * 32 + sub_index (suc n) key) d
          → Writes p n (q * 32 + sub_index (suc n) key) key bytes d ins entry s (rec d entry s))
      → child_at s b (sub_index (suc n) key) ≡ c
      → IsChild
          (λ d. IsTrie s n (q * 32 + sub_index (suc n) key) d)
          n
          (q * 32 + sub_index (suc n) key)
          c
      → Writes p
          (suc n)
          q
          key
          bytes
          b
          ins
          entry
          s
          (update_child p rec (sub_index (suc n) key) b key bytes ins entry s c)
  unfolding update_child
  update_child-Writes n b rec no_child small h deep fits at_key below e child =
      at_no_child p n q key bytes b ins entry s positive valid h fits at_key leaf_small e
  update_child-Writes n b rec (branch_child d) small h deep fits at_key below e child =
      at_branch p n q key bytes b ins entry s positive (omega arith) valid h fits at_key rec d
        (below d child) e
  update_child-Writes n b rec unreadable small h deep fits at_key below e child = elim child [ ]
  update_child-Writes n b rec (leaf_child l) small h deep fits at_key below e child =
      elim (Bool-cases (l.key == key)) [
        | inl y ↦ rw y (
            at_same_leaf p n q key bytes b ins entry s positive valid h fits at_key leaf_small l e
              y)
        | inr other ↦
            rw other (pushed-Writes n b rec l small h deep fits at_key below e other child)
      ]

-- The key is written below the branch, or an insertion finds it there.
pub update_part-Writes :
    (n : ℕ) (p : Params) (q key : ℕ) (bytes : List ℕ) (b : Branch) (ins entry : Bool) (s : Store)
    → 0 < p.bucket_size
    → n < 256
    → IsStore s
    → IsTrie s n q b
    → prefix_of n key ≡ q
    → leaf_size (new_leaf p key bytes) < max_leaf_size
    → Writes p n q key bytes b ins entry s (update_part n p b key bytes ins entry s)
unfolding update_part IsTrie
update_part-Writes zero p q key bytes b ins entry s positive small valid h fits leaf_small =
    elim h [ ]
update_part-Writes (suc n) p q key bytes b ins entry s positive small valid h fits leaf_small =
    let at_key : sub_index b.depth key ≡ sub_index (suc n) key =
      ap (λ (d : ℕ). sub_index d key) (h.0) in
    let rec : Branch → Bool → Store → Outcome Updated =
      λ d new t. update_part n p d key bytes ins new t in
    subst
      (λ i.
        Writes p (suc n) q key bytes b ins entry s
          (update_child p rec i b key bytes ins entry s (child_at s b i)))
      (sym at_key)
      (update_child-Writes p q key bytes ins entry s positive valid leaf_small n b rec
        (child_at s b (sub_index (suc n) key)) (omega arith) h (h.0) fits at_key
        (λ d t.
          update_part-Writes n p (q * 32 + sub_index (suc n) key) key bytes d ins entry s positive
            (omega arith) valid t (prefix_of_child n key q fits) leaf_small)
        refl (h.1 (sub_index (suc n) key) (sub_index_lt (suc n) key)))
