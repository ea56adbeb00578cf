-- ===== src/TrieDb/Update/Replaces.antt =====
-- A branch of db/triedb.cpp that differs from another in one child, and the step that appends it.
use mathlib.Core.Path.{subst}
use epilog.Prelude.{
  ltb, ℕ, suc, ◌+◌, ◌*◌, ◌<◌, ◌≡◌, ◌≢◌, refl, sym, ap, ◌∙◌, Bool, ◌==◌, ==_iff, if◌then◌else◌,
  Bool-cases, inl, inr, Option, none, some, arith,
}
use epilog.TrieDb.Nodes.{Leaf, Branch, set_branch_hash}
use epilog.TrieDb.Files.{
  Params, Store, Child, find_node, get_leaf, get_branch, child_at, branch_hasher, Node, leaf_node,
  branch_node, leaf_size, max_leaf_size, as_leaf, as_branch,
}
use epilog.TrieDb.Update.{Updated, sub_index, store_branch}
use epilog.TrieDb.Appends.{
  IsStore, Extends, extends, append_branch_node-Extends, append_branch_node-IsStore,
  get_branch-append_branch_node,
}
use epilog.TrieDb.Tries.{IsChild, IsTrie, lookup_child, lookup, sub_index_lt}

-- The branch c is the branch b, but for the child at the place i.
pub record Replaces (s : Store) (b c : Branch) (i : ℕ) (child : Child) : Type 0 where
  pub same_depth : c.depth ≡ b.depth
  pub here : child_at s c i ≡ child
  pub others : (j : ℕ) → j < 32 → j ≢ i → child_at s c j ≡ child_at s b j

module _ (s : Store) (n q : ℕ) (b c : Branch) (i : ℕ) (child : Child) where
  pub Replaces-IsTrie :
      Replaces s b c i child
      → IsTrie s (suc n) q b
      → IsChild (λ d. IsTrie s n (q * 32 + i) d) n (q * 32 + i) child
      → IsTrie s (suc n) q c
  unfolding IsTrie
  Replaces-IsTrie r h new = (
    r.same_depth ∙ h.0,
    λ j low. elim (Bool-cases (j == i)) [
      | inl y ↦
          let e : i ≡ j = ground arith in
          subst (λ k. IsChild (λ d. IsTrie s n (q * 32 + k) d) n (q * 32 + k) (child_at s c k)) e
            (subst (IsChild (λ d. IsTrie s n (q * 32 + i) d) n (q * 32 + i)) (sym r.here) new)
      | inr other ↦
          subst (IsChild (λ d. IsTrie s n (q * 32 + j) d) n (q * 32 + j))
            (sym (r.others j low (ground arith))) (h.1 j low)
    ],
  )

  pub Replaces-lookup :
      Replaces s b c i child
      → (key : ℕ)
      → lookup (suc n) s c key ≡ (
          if sub_index b.depth key == i
          then lookup_child (λ d. lookup n s d key) key child
          else lookup (suc n) s b key)
  unfolding lookup
  Replaces-lookup r key =
      let d : child_at s c (sub_index c.depth key) ≡ child_at s c (sub_index b.depth key) =
        ap (λ (k : ℕ). child_at s c (sub_index k key)) r.same_depth in
      elim (Bool-cases (sub_index b.depth key == i)) [
        | inl y ↦
            let e : sub_index b.depth key ≡ i = (==_iff (sub_index b.depth key) i).0 y in
            rw y (ap (lookup_child (λ d. lookup n s d key) key) (d ∙ ap (child_at s c) e ∙ r.here))
        | inr other ↦ rw other (
            ap (lookup_child (λ d. lookup n s d key) key)
              (d ∙ r.others (sub_index b.depth key) (sub_index_lt b.depth key) (ground arith)))
      ]

-- The hash of a branch does not change its children.
pub child_at-branch_hasher :
    (p : Params) (t s : Store) (b : Branch) (j : ℕ)
    → child_at t (branch_hasher p s b) j ≡ child_at t b j
unfolding child_at branch_hasher set_branch_hash
child_at-branch_hasher p t s b j = elim (Bool-cases p.use_hashing) [
  | inl y ↦ rw y refl
  | inr n ↦ rw n refl
]

depth-branch_hasher : (p : Params) (s : Store) (b : Branch) → (branch_hasher p s b).depth ≡ b.depth
unfolding branch_hasher set_branch_hash
depth-branch_hasher p s b = elim (Bool-cases p.use_hashing) [
  | inl y ↦ rw y refl
  | inr n ↦ rw n refl
]

get_leaf_known : (o : Option Node) (l : Leaf) → as_leaf o ≡ some l → o ≡ some (leaf_node l)
get_leaf_known none l e = cc
get_leaf_known (some (leaf_node k)) l e = elim (Bool-cases (ltb (leaf_size k) max_leaf_size)) [
  | inl y ↦ ap (λ (x : Leaf). some (leaf_node x)) (same (rw y at e))
  | inr n ↦ cc (rw n at e)
]
  where
    same : some k ≡ some l → k ≡ l
    same f = cc
get_leaf_known (some (branch_node b)) l e = cc

get_branch_known : (o : Option Node) (b : Branch) → as_branch o ≡ some b → o ≡ some (branch_node b)
get_branch_known none b e = cc
get_branch_known (some (leaf_node k)) b e = cc
get_branch_known (some (branch_node c)) b e = ap (λ (x : Branch). some (branch_node x)) (cc)

pub get_leaf-Extends :
    (s t : Store) (p : ℕ) (l : Leaf) → Extends s t → get_leaf s p ≡ some l → get_leaf t p ≡ some l
unfolding get_leaf
get_leaf-Extends s t p l (extends f) e =
    let known = get_leaf_known (find_node s.nodes p) l e in
    ap as_leaf (f p (leaf_node l) known) ∙ ap as_leaf (sym known) ∙ e

pub get_branch-Extends :
    (s t : Store) (p : ℕ) (b : Branch)
    → Extends s t
    → get_branch s p ≡ some b
    → get_branch t p ≡ some b
unfolding get_branch
get_branch-Extends s t p b (extends f) e =
    ap as_branch (f p (branch_node b) (get_branch_known (find_node s.nodes p) b e))

-- What store_branch leaves: the copy can be read at its pointer, and all that was there too.
pub record IsStored (s : Store) (b : Branch) (new_entry : Bool) (u : Updated) : Type 0 where
  pub stored : get_branch u.store u.ptr ≡ some u.node
  pub valid : IsStore u.store
  pub more : Extends s u.store
  pub same_depth : u.node.depth ≡ b.depth
  pub children : (t : Store) (j : ℕ) → child_at t u.node j ≡ child_at t b j
  pub entry : u.new_entry ≡ new_entry

pub store_branch-IsStored :
    (p : Params) (b : Branch) (new_entry : Bool) (s : Store)
    → 0 < p.bucket_size
    → IsStore s
    → IsStored s b new_entry (store_branch p b new_entry s)
unfolding store_branch
store_branch-IsStored p b new_entry s positive valid = record {
  stored = get_branch-append_branch_node p (branch_hasher p s b) s;
  valid = append_branch_node-IsStore p s positive valid (branch_hasher p s b);
  more = append_branch_node-Extends p s positive valid (branch_hasher p s b);
  same_depth = depth-branch_hasher p s b;
  children = λ t j. child_at-branch_hasher p t s b j;
  entry = refl;
}

-- The copy replaces a child in the branch that it is a copy of.
pub IsStored-Replaces :
    (s : Store) (a b : Branch) (i : ℕ) (child : Child) (new_entry : Bool) (u : Updated)
    → IsStored s b new_entry u
    → Replaces u.store a b i child
    → Replaces u.store a u.node i child
IsStored-Replaces s a b i child new_entry u h r = record {
  same_depth = h.same_depth ∙ r.same_depth;
  here = h.children u.store i ∙ r.here;
  others = λ j low other. h.children u.store j ∙ r.others j low other;
}
