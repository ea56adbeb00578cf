-- ===== src/TrieDb/Children.antt =====
-- The children of a branch after the operations of db/triedb.hpp that change one of them.
use epilog.Prelude.{
  ℕ, ◌<◌, ◌≡◌, ◌≢◌, refl, ap, ◌∙◌, Bool, true, false, ◌&&◌, not, ◌==◌, if◌then◌else◌, Bool-cases,
  inl, inr, Option, none, some, arith,
}
use epilog.TrieDb.Words.{test_bit, test_bit-set_bit, test_bit-clear_bit}
use epilog.TrieDb.Nodes.{
  Leaf, Branch, is_empty, is_leaf, set_leaf, set_branch, get_child_pointer, set_child_pointer,
  set_empty,
}
use epilog.TrieDb.Pointers.{
  get_child_pointer-set_child_pointer_self, get_child_pointer-set_child_pointer,
  get_child_pointer-set_empty,
}
use epilog.TrieDb.Files.{
  Store, Child, no_child, leaf_child, branch_child, leaf_or_not, branch_or_not, get_leaf,
  get_branch, child_at,
}

-- A child is read from two bits and a pointer.
read_child : Store → Bool → Bool → ℕ → Child
read_child s there is_a_leaf pointer =
    if not there
    then no_child
    else if there && is_a_leaf
    then leaf_or_not (get_leaf s pointer)
    else branch_or_not (get_branch s pointer)

child_at-read_child :
    (s : Store) (b : Branch) (i : ℕ)
    → child_at s b i ≡ read_child s (test_bit b.mask i) (test_bit b.leaf i) (get_child_pointer b i)
unfolding child_at is_empty is_leaf read_child
child_at-read_child s b i = elim (Bool-cases (test_bit b.mask i)) [
  | inl y ↦ rw y refl
  | inr n ↦ rw n refl
]

child_at_cong :
    (s : Store) (b c : Branch) (i : ℕ)
    → test_bit c.mask i ≡ test_bit b.mask i
    → test_bit c.leaf i ≡ test_bit b.leaf i
    → (test_bit b.mask i ≡ true → get_child_pointer c i ≡ get_child_pointer b i)
    → child_at s c i ≡ child_at s b i
unfolding read_child
child_at_cong s b c i m l p =
    rw (child_at-read_child s c i, child_at-read_child s b i, m, l)
      (elim (Bool-cases (test_bit b.mask i)) [ inl y ↦ rw (p y) refl | inr n ↦ rw n refl ])

module _ (s : Store) (b : Branch) (i p : ℕ) (low : i < 32) where
  pub child_at-set_leaf_self :
      (l : Leaf)
      → get_leaf s p ≡ some l
      → child_at s (set_leaf i (set_child_pointer i p b)) i ≡ leaf_child l
  unfolding read_child set_leaf set_child_pointer get_child_pointer
  child_at-set_leaf_self l e =
      child_at-read_child s (set_leaf i (set_child_pointer i p b)) i
      ∙ rw
          (
            test_bit-set_bit b.mask i i,
            test_bit-set_bit b.leaf i i,
            get_child_pointer-set_child_pointer_self i p b low,
          )
          (rw (same i) (rw e refl))
    where
      same : (n : ℕ) → (n == n) ≡ true
      same n = ground arith

  pub child_at-set_leaf :
      (j : ℕ)
      → j < 32
      → j ≢ i
      → child_at s (set_leaf i (set_child_pointer i p b)) j ≡ child_at s b j
  unfolding set_leaf set_child_pointer get_child_pointer
  child_at-set_leaf j hj other =
      child_at_cong s b (set_leaf i (set_child_pointer i p b)) j
        (test_bit-set_bit b.mask i j ∙ ground arith) (test_bit-set_bit b.leaf i j ∙ ground arith)
        (get_child_pointer-set_child_pointer i p b low j hj other)

  pub child_at-set_branch_self :
      (c : Branch)
      → get_branch s p ≡ some c
      → child_at s (set_branch i (set_child_pointer i p b)) i ≡ branch_child c
  unfolding read_child set_branch set_child_pointer get_child_pointer
  child_at-set_branch_self c e =
      child_at-read_child s (set_branch i (set_child_pointer i p b)) i
      ∙ rw
          (
            test_bit-set_bit b.mask i i,
            test_bit-clear_bit b.leaf i i low low,
            get_child_pointer-set_child_pointer_self i p b low,
          )
          (rw (same i) (rw e refl))
    where
      same : (n : ℕ) → (n == n) ≡ true
      same n = ground arith

  pub child_at-set_branch :
      (j : ℕ)
      → j < 32
      → j ≢ i
      → child_at s (set_branch i (set_child_pointer i p b)) j ≡ child_at s b j
  unfolding set_branch set_child_pointer get_child_pointer
  child_at-set_branch j hj other =
      child_at_cong s b (set_branch i (set_child_pointer i p b)) j
        (test_bit-set_bit b.mask i j ∙ ground arith)
        (test_bit-clear_bit b.leaf i j low hj ∙ ground arith)
        (get_child_pointer-set_child_pointer i p b low j hj other)

  -- Where the leaf bit is not set, the new pointer is read as a branch.
  pub child_at-set_child_pointer_self :
      (c : Branch)
      → get_branch s p ≡ some c
      → test_bit b.leaf i ≡ false
      → child_at s (set_child_pointer i p b) i ≡ branch_child c
  unfolding read_child set_child_pointer get_child_pointer
  child_at-set_child_pointer_self c e free =
      child_at-read_child s (set_child_pointer i p b) i
      ∙ rw (test_bit-set_bit b.mask i i, free, get_child_pointer-set_child_pointer_self i p b low)
          (rw (same i) (rw e refl))
    where
      same : (n : ℕ) → (n == n) ≡ true
      same n = ground arith

  pub child_at-set_child_pointer :
      (j : ℕ) → j < 32 → j ≢ i → child_at s (set_child_pointer i p b) j ≡ child_at s b j
  unfolding set_child_pointer get_child_pointer
  child_at-set_child_pointer j hj other =
      child_at_cong s b (set_child_pointer i p b) j (test_bit-set_bit b.mask i j ∙ ground arith)
        refl (get_child_pointer-set_child_pointer i p b low j hj other)

module _ (s : Store) (b : Branch) (i : ℕ) (low : i < 32) where
  pub child_at-set_empty_self : child_at s (set_empty i b) i ≡ no_child
  unfolding read_child set_empty get_child_pointer
  child_at-set_empty_self =
      child_at-read_child s (set_empty i b) i
      ∙ rw (test_bit-clear_bit b.mask i i low low) (rw (same i) refl)
    where
      same : (n : ℕ) → (n == n) ≡ true
      same n = ground arith

  pub child_at-set_empty :
      test_bit b.mask i ≡ true
      → (j : ℕ) → j < 32
      → j ≢ i
      → child_at s (set_empty i b) j ≡ child_at s b j
  unfolding set_empty get_child_pointer
  child_at-set_empty here j hj other =
      child_at_cong s b (set_empty i b) j (test_bit-clear_bit b.mask i j low hj ∙ ground arith)
        (test_bit-clear_bit b.leaf i j low hj ∙ ground arith)
        (get_child_pointer-set_empty i b low j hj other here)

  -- A child that is read as a branch has its leaf bit clear, and any child its mask bit set.
  pub no_leaf_bit : (c : Branch) → child_at s b i ≡ branch_child c → test_bit b.leaf i ≡ false
  unfolding read_child
  no_leaf_bit c e = elim (Bool-cases (test_bit b.mask i)) [
    | inl y ↦ elim (Bool-cases (test_bit b.leaf i)) [
      | inl l ↦ absurd (not_branch (get_leaf s (get_child_pointer b i)) c (shown true true y l e))
      | inr n ↦ n
    ]
    | inr n ↦ absurd (cc (shown false (test_bit b.leaf i) n refl e))
  ]
    where
      shown :
          (m l : Bool)
          → test_bit b.mask i ≡ m
          → test_bit b.leaf i ≡ l
          → child_at s b i ≡ branch_child c
          → read_child s m l (get_child_pointer b i) ≡ branch_child c
      shown m l em el e = rw (← em, ← el) (rw (← child_at-read_child s b i) e)

      not_branch : (o : Option Leaf) (c : Branch) → leaf_or_not o ≡ branch_child c → ⊥
      not_branch none c e = cc
      not_branch (some l) c e = cc

  pub mask_bit : child_at s b i ≢ no_child → test_bit b.mask i ≡ true
  unfolding read_child
  mask_bit e = elim (Bool-cases (test_bit b.mask i)) [
    | inl y ↦ y
    | inr n ↦ absurd (e (child_at-read_child s b i ∙ rw n refl))
  ]

  -- A place that reads as a leaf has a pointer to that leaf.
  pub get_leaf-child_at :
      (l : Leaf) → child_at s b i ≡ leaf_child l → get_leaf s (get_child_pointer b i) ≡ some l
  unfolding read_child
  get_leaf-child_at l e =
      known (test_bit b.mask i) (test_bit b.leaf i) (rw (← child_at-read_child s b i) e)
    where
      a_leaf : (o : Option Leaf) → leaf_or_not o ≡ leaf_child l → o ≡ some l
      a_leaf none f = cc
      a_leaf (some k) f = ap some (cc)

      not_branch : (o : Option Branch) → branch_or_not o ≡ leaf_child l → ⊥
      not_branch none f = cc
      not_branch (some c) f = cc

      known :
          (m z : Bool)
          → read_child s m z (get_child_pointer b i) ≡ leaf_child l
          → get_leaf s (get_child_pointer b i) ≡ some l
      known false z f = absurd (cc)
      known true true f = a_leaf (get_leaf s (get_child_pointer b i)) f
      known true false f = absurd (not_branch (get_branch s (get_child_pointer b i)) f)
