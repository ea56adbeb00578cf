-- ===== src/TrieDb/Remove/Part.antt =====
-- remove_part of db/triedb.cpp takes one key away and leaves every other as it was.
use mathlib.Core.Path.{subst}
use epilog.Prelude.{
  ℕ, zero, suc, ◌+◌, ◌*◌, ◌<◌, ◌≡◌, ◌≢◌, refl, sym, ap, ◌∙◌, true, false, ◌||◌, ◌==◌, ==_iff,
  if◌then◌else◌, Bool-cases, inl, inr, [], Option, none, some, arith,
}
use epilog.TrieDb.Nodes.{Leaf, Branch, set_child_pointer}
use epilog.TrieDb.Files.{
  Params, Store, Child, no_child, leaf_child, branch_child, unreadable, child_at,
}
use epilog.TrieDb.Update.{
  key_already_exists, Outcome, ok, throws, ◌>>=◌, Updated, sub_index, store_branch,
}
use epilog.TrieDb.Appends.{IsStore, Extends_refl}
use epilog.TrieDb.Tries.{IsChild, IsTrie, lookup, prefix_of, sub_index_lt, prefix_of_child}
use epilog.TrieDb.Update.Updates.{is_none, IsUpdated}
use epilog.TrieDb.Update.Steps.{set_child_pointer-Replaces, branch-IsUpdated}
use epilog.TrieDb.Update.InsertSteps.{lookup_place}
use epilog.TrieDb.Nodes.{set_empty, sub_num_entries}
use epilog.TrieDb.Update.{key_not_found}
use epilog.TrieDb.Remove.{without_key, remove_child, remove_part}
use epilog.TrieDb.Remove.Steps.{
  RemoveResult, removed, missing, lookup_empty, sub_num_entries-Replaces, dropped-IsUpdated,
}

RemoveResult-bind :
    (s : Store) (n q r key : ℕ) (before after : ℕ → Option Leaf) (f : Updated → Updated)
    (o : Outcome Updated)
    → RemoveResult s n r key before o
    → before key ≡ after key
    → ((u : Updated)
        → after key ≢ none
        → IsUpdated s n r key none before false u
        → IsUpdated s (suc n) q key none after false (f u))
    → RemoveResult s (suc n) q key after (o >>= (λ u. ok (f u)))
RemoveResult-bind s n q r key before after f o (removed u held h) e g =
    let held' : after key ≢ none = λ gone. held (e ∙ gone) in removed (f u) held' (g u held' h)
RemoveResult-bind s n q r key before after f o (missing x gone) e g = missing x (sym e ∙ gone)

module _ (p : Params) (n q key : ℕ) (b : Branch) (s : Store) (positive : 0 < p.bucket_size)
    (valid : IsStore s) (h : IsTrie s (suc n) q b) (fits : prefix_of (suc n) key ≡ q)
    (at_key : sub_index b.depth key ≡ sub_index (suc n) key) where
  remove_leaf :
      (l : Leaf)
      → child_at s b (sub_index (suc n) key) ≡ leaf_child l
      → RemoveResult s (suc n) q key (lookup (suc n) s b) (
          if l.key == key
          then ok (store_branch p (sub_num_entries 1 (set_empty (sub_index (suc n) key) b)) false s)
          else throws (key_already_exists key))
  remove_leaf l e = elim (Bool-cases (l.key == key)) [
    | inl y ↦
        let there : lookup (suc n) s b key ≡ some l = holds key at_key ∙ rw y refl in
        let held : lookup (suc n) s b key ≢ none = λ gone. some_none l (sym there ∙ gone) in
        rw y (
          removed (store_branch p (sub_num_entries 1 (set_empty (sub_index (suc n) key) b)) false s)
            held
            (dropped-IsUpdated p n q key b s positive valid h at_key s (Extends_refl s) valid
              (λ gone. leaf_not_none l (sym e ∙ gone))
              (λ k place other. holds k place ∙ rw (other_key k y other) refl) held))
    | inr other ↦ rw other (missing (key_already_exists key) (holds key at_key ∙ rw other refl))
  ]
    where
      some_none : (l : Leaf) → some l ≡ none → ⊥
      some_none l f = cc

      leaf_not_none : (l : Leaf) → leaf_child l ≡ no_child → ⊥
      leaf_not_none l f = cc

      holds :
          (k : ℕ)
          → sub_index b.depth k ≡ sub_index (suc n) key
          → lookup (suc n) s b k ≡ (if l.key == k then some l else none)
      holds k place = lookup_place n s b (sub_index (suc n) key) k (leaf_child l) e place

      other_key : (k : ℕ) → (l.key == key) ≡ true → (key == k) ≡ false → (l.key == k) ≡ false
      other_key k y other = ground arith

  remove_branch :
      (rec : Branch → Store → Outcome Updated) (d : Branch)
      → child_at s b (sub_index (suc n) key) ≡ branch_child d
      → RemoveResult s n (q * 32 + sub_index (suc n) key) key (lookup n s d) (rec d s)
      → RemoveResult s
          (suc n)
          q
          key
          (lookup (suc n) s b)
          (rec d s >>= (λ u. ok (without_key p (sub_index (suc n) key) b u)))
  unfolding without_key
  remove_branch rec d e below =
      let i = sub_index (suc n) key in
      RemoveResult-bind s n q (q * 32 + i) key (lookup n s d) (lookup (suc n) s b)
        (without_key p i b) (rec d s) below (agree key at_key)
        (λ u held w. elim (Bool-cases (u.node.mask == 0)) [
          | inl y ↦ rw y (
              dropped-IsUpdated p n q key b s positive valid h at_key u.store w.more w.valid
                (λ gone. branch_not_none d (sym e ∙ gone))
                (λ k place other.
                  sym (agree k place)
                  ∙ sym (w.found k ∙ rw other refl)
                  ∙ lookup_empty n u.store u.node k ((==_iff u.node.mask 0).0 y))
                held)
          | inr other ↦ rw other (
              subst
                (λ z.
                  IsUpdated s (suc n) q key none (lookup (suc n) s b) false
                    (store_branch p (sub_num_entries 1 (set_child_pointer i u.ptr b)) z u.store))
                (w.entry
                  ∙ ap (λ (o : Option Leaf). is_none o || false) (agree key at_key)
                  ∙ was_there (lookup (suc n) s b key) held)
                (branch-IsUpdated p n q key [] b false s positive valid h fits at_key none
                  (lookup n s d) (sub_num_entries 1 (set_child_pointer i u.ptr b)) u w agree
                  (λ t r.
                    sub_num_entries-Replaces t 1 b (set_child_pointer i u.ptr b) i
                      (branch_child u.node)
                      (set_child_pointer-Replaces s t b i u.ptr u.node d (sub_index_lt (suc n) key)
                        e r))))
        ])
    where
      agree :
          (k : ℕ)
          → sub_index b.depth k ≡ sub_index (suc n) key
          → lookup n s d k ≡ lookup (suc n) s b k
      agree k place = sym (lookup_place n s b (sub_index (suc n) key) k (branch_child d) e place)

      branch_not_none : (d : Branch) → branch_child d ≡ no_child → ⊥
      branch_not_none d f = cc

      was_there : (o : Option Leaf) → o ≢ none → (is_none o || false) ≡ false
      was_there none f = absurd (f refl)
      was_there (some l) f = refl

  remove_child_lem :
      (rec : Branch → Store → Outcome Updated) (c : Child)
      → ((d : Branch)
          → IsTrie s n (q * 32 + sub_index (suc n) key) d
          → RemoveResult s n (q * 32 + sub_index (suc n) key) key (lookup n s d) (rec d s))
      → child_at s b (sub_index (suc n) key) ≡ c
      → IsChild
          (λ d. IsTrie s n (q * 32 + sub_index (suc n) key) d)
          n
          (q * 32 + sub_index (suc n) key)
          c
      → RemoveResult s
          (suc n)
          q
          key
          (lookup (suc n) s b)
          (remove_child p rec (sub_index (suc n) key) b key s c)
  unfolding remove_child
  remove_child_lem rec no_child below e child =
      missing (key_not_found key) (lookup_place n s b (sub_index (suc n) key) key no_child e at_key)
  remove_child_lem rec (leaf_child l) below e child = remove_leaf l e
  remove_child_lem rec (branch_child d) below e child = remove_branch rec d e (below d child)
  remove_child_lem rec unreadable below e child = elim child [ ]

-- The key is taken away below the branch, or is not there.
pub remove_part_lem :
    (n : ℕ) (p : Params) (q key : ℕ) (b : Branch) (s : Store)
    → 0 < p.bucket_size
    → IsStore s
    → IsTrie s n q b
    → prefix_of n key ≡ q
    → RemoveResult s n q key (lookup n s b) (remove_part n p b key s)
unfolding remove_part IsTrie
remove_part_lem zero p q key b s positive valid h fits = elim h [ ]
remove_part_lem (suc n) p q key b s positive valid h fits =
    let at_key : sub_index b.depth key ≡ sub_index (suc n) key =
      ap (λ (d : ℕ). sub_index d key) (h.0) in
    let rec : Branch → Store → Outcome Updated = λ d t. remove_part n p d key t in
    subst
      (λ i.
        RemoveResult s (suc n) q key (lookup (suc n) s b)
          (remove_child p rec i b key s (child_at s b i)))
      (sym at_key)
      (remove_child_lem p n q key b s positive valid h fits at_key rec
        (child_at s b (sub_index (suc n) key))
        (λ d t.
          remove_part_lem n p (q * 32 + sub_index (suc n) key) key d s positive valid t
            (prefix_of_child n key q fits))
        refl (h.1 (sub_index (suc n) key) (sub_index_lt (suc n) key)))
