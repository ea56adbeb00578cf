-- ===== src/TrieDb/Update/Pushed.antt =====
-- The temporary branch of update_part of db/triedb.cpp, which takes a leaf one level down.
use native.Mathlib.Nat.{mod-eq_of_lt}
use epilog.Prelude.{
  ℕ, zero, suc, ◌-◌, ◌%◌, ◌<◌, ◌≡◌, refl, sym, ap, ◌∙◌, true, ◌==◌, ==_iff, if◌then◌else◌,
  Bool-cases, inl, inr, none, some, arith,
}
use epilog.TrieDb.Words.{no_bits}
use epilog.TrieDb.Nodes.{Leaf, Branch, empty_branch, set_depth, is_empty, get_child_pointer}
use epilog.TrieDb.Files.{Store, no_child, leaf_child, get_leaf, child_at}
use epilog.TrieDb.Update.{sub_index, pushed_down}
use epilog.TrieDb.Children.{child_at-set_leaf_self, child_at-set_leaf}
use epilog.TrieDb.Tries.{IsTrie, lookup, prefix_of, sub_index_lt, prefix_of_child}
use epilog.TrieDb.Update.Replaces.{Replaces, Replaces-IsTrie, Replaces-lookup}

nothing_at : (s : Store) (d j : ℕ) → child_at s (set_depth d empty_branch) j ≡ no_child
unfolding child_at is_empty set_depth
nothing_at s d j = rw (no_bits j) refl

pub bare-IsTrie :
    (s : Store) (n q d : ℕ)
    → d ≡ suc n
    → suc n < 256
    → IsTrie s (suc n) q (set_depth d empty_branch)
unfolding IsTrie set_depth
bare-IsTrie s n q d e small =
    (ap (λ (k : ℕ). k % 256) e ∙ mod-eq_of_lt small, λ i low. rw (nothing_at s d i) tt)

pub bare-lookup : (s : Store) (n d key : ℕ) → lookup n s (set_depth d empty_branch) key ≡ none
unfolding lookup set_depth
bare-lookup s zero d key = refl
bare-lookup s (suc n) d key = rw (nothing_at s d (sub_index (d % 256) key)) refl

module _ (s : Store) (node : Branch) (i n : ℕ) (l : Leaf) (deep : node.depth ≡ suc (suc n))
    (small : suc n < 256) (there : get_leaf s (get_child_pointer node i) ≡ some l) where
  bare : Branch
  bare = set_depth (node.depth - 1) empty_branch

  pushed_down-Replaces :
      Replaces s bare (pushed_down node i l) (sub_index (suc n) l.key) (leaf_child l)
  unfolding bare pushed_down
  pushed_down-Replaces =
      let at_key : sub_index (node.depth - 1) l.key ≡ sub_index (suc n) l.key =
        ap (λ (d : ℕ). sub_index d l.key) (omega (arith, deep)) in
      let low : sub_index (node.depth - 1) l.key < 32 = sub_index_lt (node.depth - 1) l.key in
      let p = get_child_pointer node i in
      record {
        same_depth = refl;
        here =
            ap (child_at s (pushed_down node i l)) (sym at_key)
            ∙ child_at-set_leaf_self s bare (sub_index (node.depth - 1) l.key) p low l there;
        others = λ j hj other.
            child_at-set_leaf s bare (sub_index (node.depth - 1) l.key) p low j hj
              (λ e. other (e ∙ at_key));
      }

  pub pushed_down-IsTrie :
      (q : ℕ) → prefix_of (suc n) l.key ≡ q → IsTrie s (suc n) q (pushed_down node i l)
  unfolding bare set_depth
  pushed_down-IsTrie q fits =
      Replaces-IsTrie s n q bare (pushed_down node i l) (sub_index (suc n) l.key) (leaf_child l)
        pushed_down-Replaces (bare-IsTrie s n q (node.depth - 1) (omega (arith, deep)) small)
        (prefix_of_child n l.key q fits)

  pub pushed_down-lookup :
      (key : ℕ)
      → lookup (suc n) s (pushed_down node i l) key ≡ (if l.key == key then some l else none)
  unfolding bare set_depth
  pushed_down-lookup key =
      Replaces-lookup s n 0 bare (pushed_down node i l) (sub_index (suc n) l.key) (leaf_child l)
        pushed_down-Replaces key
      ∙ elim (Bool-cases (l.key == key)) [
        | inl y ↦ rw y (same y)
        | inr other ↦ rw other (different)
      ]
    where
      bare_depth : ((node.depth - 1) % 256) ≡ suc n
      bare_depth = ap (λ (k : ℕ). k % 256) (omega (arith, deep)) ∙ mod-eq_of_lt small

      same :
          (l.key == key) ≡ true
          → (if sub_index ((node.depth - 1) % 256) key == sub_index (suc n) l.key
              then some l
              else lookup (suc n) s bare key)
            ≡ some l
      same y =
          let e : l.key ≡ key = (==_iff l.key key).0 y in
          let f : sub_index ((node.depth - 1) % 256) key ≡ sub_index (suc n) l.key =
            ap (λ (d : ℕ). sub_index d key) bare_depth ∙ ap (sub_index (suc n)) (sym e) in
          ground (arith, f)

      different :
          (if sub_index ((node.depth - 1) % 256) key == sub_index (suc n) l.key
            then none
            else lookup (suc n) s bare key)
          ≡ none
      different = rw (bare-lookup s (suc n) (node.depth - 1) key) (ground arith)
