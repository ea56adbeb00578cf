-- ===== src/TrieDb/Remove/Steps.antt =====
-- remove_part of db/triedb.cpp takes one key away and leaves every other as it was.
use epilog.Prelude.{
  ℕ, zero, suc, ◌<◌, ◌≡◌, ◌≢◌, refl, ap, ◌∙◌, true, false, ◌||◌, ◌==◌, if◌then◌else◌, Bool-cases,
  inl, inr, ◌⊎◌, Option, none, some,
}
use epilog.TrieDb.Nodes.{Leaf, Branch}
use epilog.TrieDb.Files.{Params, Store, Child, no_child, child_at}
use epilog.TrieDb.Update.{TriedbError, Outcome, ok, throws, Updated, sub_index, store_branch}
use epilog.TrieDb.Appends.{IsStore, Extends}
use epilog.TrieDb.Tries.{IsTrie, lookup_child, lookup, sub_index_lt}
use epilog.TrieDb.Update.Replaces.{Replaces, store_branch-IsStored}
use epilog.TrieDb.Update.Updates.{is_none, IsUpdated, replaced-IsUpdated}
use epilog.TrieDb.Nodes.{set_empty, sub_num_entries, is_empty}
use epilog.TrieDb.Words.{test_bit, no_bits}
use epilog.TrieDb.Children.{child_at-set_empty_self, child_at-set_empty, mask_bit}
use epilog.TrieDb.Update.Replaces.{store_branch-IsStored}

-- The outcomes of remove_part: the key is taken away, or it is not there and an exception says so.
pub data RemoveResult (s : Store) (n q key : ℕ) (before : ℕ → Option Leaf)
    : Outcome Updated → Type 0 where
  removed :
      (u : Updated)
      → before key ≢ none
      → IsUpdated s n q key none before false u
      → RemoveResult s n q key before (ok u)
  missing : (x : TriedbError) → before key ≡ none → RemoveResult s n q key before (throws x)

child_at-sub_num_entries :
    (t : Store) (dn : ℕ) (b : Branch) (j : ℕ) → child_at t (sub_num_entries dn b) j ≡ child_at t b j
unfolding child_at sub_num_entries
child_at-sub_num_entries t dn b j = refl

depth-sub_num_entries : (dn : ℕ) (b : Branch) → (sub_num_entries dn b).depth ≡ b.depth
unfolding sub_num_entries
depth-sub_num_entries dn b = refl

pub sub_num_entries-Replaces :
    (t : Store) (dn : ℕ) (b c : Branch) (i : ℕ) (child : Child)
    → Replaces t b c i child
    → Replaces t b (sub_num_entries dn c) i child
sub_num_entries-Replaces t dn b c i child r = record {
  same_depth = depth-sub_num_entries dn c ∙ r.same_depth;
  here = child_at-sub_num_entries t dn c i ∙ r.here;
  others = λ j low other. child_at-sub_num_entries t dn c j ∙ r.others j low other;
}

set_empty-Replaces :
    (s t : Store) (b : Branch) (i : ℕ)
    → i < 32
    → child_at s b i ≢ no_child
    → Replaces t b (set_empty i b) i no_child
unfolding set_empty
set_empty-Replaces s t b i low there = record {
  same_depth = refl;
  here = child_at-set_empty_self t b i low;
  others = child_at-set_empty t b i low (mask_bit s b i low there);
}

-- A branch with no bit in its mask holds nothing.
pub lookup_empty : (n : ℕ) (s : Store) (b : Branch) (key : ℕ) → b.mask ≡ 0 → lookup n s b key ≡ none
unfolding lookup child_at is_empty
lookup_empty zero s b key e = refl
lookup_empty (suc n) s b key e =
    ap (lookup_child (λ d. lookup n s d key) key) (nothing (sub_index b.depth key))
  where
    nothing : (j : ℕ) → child_at s b j ≡ no_child
    nothing j = rw (ap (λ (m : ℕ). test_bit m j) e ∙ no_bits j) refl

module _ (p : Params) (n q key : ℕ) (b : Branch) (s : Store) (positive : 0 < p.bucket_size)
    (valid : IsStore s) (h : IsTrie s (suc n) q b)
    (at_key : sub_index b.depth key ≡ sub_index (suc n) key) where
  -- The child at the key's place is dropped, from files that hold all that was there.
  pub dropped-IsUpdated :
      (t : Store)
      → Extends s t
      → IsStore t
      → child_at s b (sub_index (suc n) key) ≢ no_child
      → ((k : ℕ)
          → sub_index b.depth k ≡ sub_index (suc n) key
          → (key == k) ≡ false
          → lookup (suc n) s b k ≡ none)
      → lookup (suc n) s b key ≢ none
      → IsUpdated s
          (suc n)
          q
          key
          none
          (lookup (suc n) s b)
          false
          (store_branch p (sub_num_entries 1 (set_empty (sub_index (suc n) key) b)) false t)
  dropped-IsUpdated t more valid' there alone held =
      let i = sub_index (suc n) key in
      let copy = sub_num_entries 1 (set_empty i b) in
      let u = store_branch p copy false t in
      replaced-IsUpdated s n q key none b no_child false false u copy t h at_key more
        (store_branch-IsStored p copy false t positive valid')
        (sub_num_entries-Replaces u.store 1 b (set_empty i b) i no_child
          (set_empty-Replaces s u.store b i (sub_index_lt (suc n) key) there))
        tt (λ k place. reads k place (Bool-cases (key == k)))
        (was_there (lookup (suc n) s b key) held)
    where
      reads :
          (k : ℕ)
          → sub_index b.depth k ≡ sub_index (suc n) key
          → ((key == k) ≡ true) ⊎ ((key == k) ≡ false)
          → none ≡ (if key == k then none else lookup (suc n) s b k)
      reads k place (inl y) = rw y refl
      reads k place (inr other) = rw (other, alone k place other) refl

      was_there : (o : Option Leaf) → o ≢ none → false ≡ (is_none o || false)
      was_there none f = absurd (f refl)
      was_there (some l) f = refl
