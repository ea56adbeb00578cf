-- ===== src/TrieDb/Roots/Grow.antt =====
-- The levels that insert_or_update of db/triedb.cpp adds on top hold what the trie held.
use native.Mathlib.Nat.{mod-eq_of_lt}
use mathlib.Core.Path.{subst}
use epilog.Prelude.{
  ℕ, zero, suc, ◌+◌, ◌*◌, ◌%◌, ◌≤◌, ◌<◌, ◌≡◌, ◌≢◌, refl, sym, ap, ◌∙◌, true, false, ltb, ◌==◌,
  ==_iff, Bool-cases, inl, inr, Option, none, some, arith,
}
use epilog.TrieDb.Words.{no_bits}
use epilog.TrieDb.Nodes.{Leaf, Branch, empty_branch, set_depth, set_child_pointer}
use epilog.TrieDb.Files.{
  Params, Store, Child, no_child, leaf_child, branch_child, unreadable, get_branch, child_at,
}
use epilog.TrieDb.Update.{Outcome, ok, Updated, sub_index, store_branch}
use epilog.TrieDb.Children.{child_at-set_child_pointer_self, child_at-set_child_pointer}
use epilog.TrieDb.Appends.{IsStore, Extends, Extends_refl, Extends_trans}
use epilog.TrieDb.Tries.{
  IsChild, IsTrie, lookup_child, lookup, prefix_of, sub_index_lt, prefix_of_step, IsTrie-Extends,
  lookup-Extends,
}
use epilog.TrieDb.Update.Pushed.{bare-IsTrie, bare-lookup}
use epilog.TrieDb.Update.Replaces.{
  Replaces, Replaces-IsTrie, Replaces-lookup, IsStored, store_branch-IsStored, IsStored-Replaces,
  get_branch-Extends,
}
use epilog.TrieDb.Roots.{taller, grow}

-- A key with another prefix than the trie's is not in it.
pub lookup_outside :
    (n : ℕ) (s : Store) (q : ℕ) (b : Branch) (key : ℕ)
    → IsTrie s n q b
    → prefix_of n key ≢ q
    → lookup n s b key ≡ none
unfolding lookup IsTrie
lookup_outside zero s q b key h other = refl
lookup_outside (suc n) s q b key h other =
    let at_key : sub_index b.depth key ≡ sub_index (suc n) key =
      ap (λ (d : ℕ). sub_index d key) (h.0) in
    rw at_key (
      at_child (child_at s b (sub_index (suc n) key))
        (h.1 (sub_index (suc n) key) (sub_index_lt (suc n) key))
        (λ c t. lookup_outside n s (q * 32 + sub_index (suc n) key) c key t step_other))
  where
    step_other : prefix_of n key ≢ q * 32 + sub_index (suc n) key
    step_other e = other (omega (arith, e, prefix_of_step n key))

    at_child :
        (c : Child)
        → IsChild
            (λ d. IsTrie s n (q * 32 + sub_index (suc n) key) d)
            n
            (q * 32 + sub_index (suc n) key)
            c
        → ((d : Branch) → IsTrie s n (q * 32 + sub_index (suc n) key) d → lookup n s d key ≡ none)
        → lookup_child (λ d. lookup n s d key) key c ≡ none
    at_child no_child t f = refl
    at_child (branch_child d) t f = f d t
    at_child unreadable t f = elim t [ ]
    at_child (leaf_child l) t f = elim (Bool-cases (l.key == key)) [
      | inr n' ↦ rw n' refl
      | inl y ↦
          let e : l.key ≡ key = (==_iff l.key key).0 y in
          absurd (step_other (ap (prefix_of n) (sym e) ∙ t))
    ]

-- A key that fits below is at the first place of the new level.
fits_below : (n key : ℕ) → prefix_of n key ≡ 0 → sub_index (suc n) key ≡ 0
fits_below n key e = omega (arith, prefix_of_step n key)

module _ (t : Store) (n ptr : ℕ) (b : Branch) (small : suc n < 256)
    (there : get_branch t ptr ≡ some b) (h : IsTrie t n 0 b) where
  pub taller-Replaces :
      Replaces t (set_depth (suc n) empty_branch) (taller (suc n) ptr) 0 (branch_child b)
  unfolding taller set_child_pointer
  taller-Replaces = record {
    same_depth = refl;
    here =
        child_at-set_child_pointer_self t (set_depth (suc n) empty_branch) 0 ptr (omega arith) b
          there (no_bits 0);
    others = child_at-set_child_pointer t (set_depth (suc n) empty_branch) 0 ptr (omega arith);
  }

  pub Replaces-taller-IsTrie :
      (c : Branch)
      → Replaces t (set_depth (suc n) empty_branch) c 0 (branch_child b)
      → IsTrie t (suc n) 0 c
  Replaces-taller-IsTrie c r =
      Replaces-IsTrie t n 0 (set_depth (suc n) empty_branch) c 0 (branch_child b) r
        (bare-IsTrie t n 0 (suc n) refl small)
        (let zeros : ◌≡◌ {A = ℕ} (0 * 32 + 0) 0 = omega arith in
          subst (λ z. IsTrie t n z b) (sym zeros) h)

  pub Replaces-taller-lookup :
      (c : Branch)
      → Replaces t (set_depth (suc n) empty_branch) c 0 (branch_child b)
      → (key : ℕ) → lookup (suc n) t c key ≡ lookup n t b key
  unfolding set_depth
  Replaces-taller-lookup c r key =
      Replaces-lookup t n 0 (set_depth (suc n) empty_branch) c 0 (branch_child b) r key
      ∙ elim (Bool-cases (sub_index (suc n % 256) key == 0)) [
        | inl y ↦ rw y refl
        | inr other ↦
            rw other (
              bare-lookup t (suc n) (suc n) key
              ∙ sym (lookup_outside n t 0 b key h (outside other)))
      ]
    where
      outside : (sub_index (suc n % 256) key == 0) ≡ false → prefix_of n key ≢ 0
      outside other e =
          let f : sub_index (suc n % 256) key ≡ 0 =
            ap (λ (d : ℕ). sub_index d key) (mod-eq_of_lt small) ∙ fits_below n key e in
          absurd (ground (arith, f))

-- A trie that holds what another held, with a level for each part of the keys of so many bits.
pub record IsGrown (s : Store) (held : ℕ → Option Leaf) (key_bits n : ℕ) (b : Branch) (t : Store)
    : Type 0 where
  pub valid : IsStore t
  pub more : Extends s t
  pub trie : IsTrie t n 0 b
  pub small : n ≤ 13
  pub wide : key_bits ≤ n * 5
  pub same : (key : ℕ) → lookup n t b key ≡ held key

pub data GrowResult (s : Store) (held : ℕ → Option Leaf) (key_bits : ℕ)
    : Outcome (Branch × Store) → Type 0 where
  grown :
      (n : ℕ) (b : Branch) (t : Store)
      → IsGrown s held key_bits n b t
      → GrowResult s held key_bits (ok (b, t))

GrowResult-Extends :
    (s t : Store) (held held' : ℕ → Option Leaf) (key_bits : ℕ) (o : Outcome (Branch × Store))
    → Extends s t
    → ((key : ℕ) → held' key ≡ held key)
    → GrowResult t held' key_bits o
    → GrowResult s held key_bits o
GrowResult-Extends s t held held' key_bits o more same (grown n b u g) = grown n b u (record {
  valid = g.valid;
  more = Extends_trans more g.more;
  trie = g.trie;
  small = g.small;
  wide = g.wide;
  same = λ key. g.same key ∙ same key;
})

-- A number of rounds that makes up for the levels that a key of up to 65 bits lacks, from a trie of at most
-- thirteen levels, is enough for the loop of insert_or_update: it ends with a trie of at most thirteen
-- levels that has all the levels of the key and holds what the old one held, and the files hold what they
-- held. The bucket size is not 0.
pub grow_lem :
    (rounds : ℕ) (p : Params) (key_bits n : ℕ) (b : Branch) (ptr : ℕ) (s : Store)
    → 0 < p.bucket_size
    → key_bits ≤ (n + rounds) * 5
    → key_bits ≤ 65
    → n ≤ 13
    → IsStore s
    → get_branch s ptr ≡ some b
    → IsTrie s n 0 b
    → GrowResult s (lookup n s b) key_bits (grow rounds p key_bits n b ptr s)
unfolding grow store_branch
grow_lem zero p key_bits n b ptr s positive enough bounded small valid there h =
    let wide : ltb (n * 5) key_bits ≡ false = ground arith in
    rw wide (
      grown n b s (record {
        valid = valid;
        more = Extends_refl s;
        trie = h;
        small = omega arith;
        wide = omega arith;
        same = λ key. refl;
      }))
grow_lem (suc rounds) p key_bits n b ptr s positive enough bounded small valid there h =
    elim (Bool-cases (ltb (n * 5) key_bits)) [
      | inr wide ↦ rw wide (
          grown n b s (record {
            valid = valid;
            more = Extends_refl s;
            trie = h;
            small = omega arith;
            wide = ground arith;
            same = λ key. refl;
          }))
      | inl narrow ↦ rw narrow (
          GrowResult-Extends s u.store (lookup n s b) (lookup (suc n) u.store u.node) key_bits
            (grow rounds p key_bits (suc n) u.node u.ptr u.store) st.more
            (λ key.
              Replaces-taller-lookup u.store n ptr b (omega (arith, level narrow)) there' h' u.node
                (r (omega (arith, level narrow))) key
              ∙ lookup-Extends s u.store n 0 b key st.more h)
            (grow_lem rounds p key_bits (suc n) u.node u.ptr u.store positive (omega arith) bounded
              (level narrow) st.valid st.stored
              (Replaces-taller-IsTrie u.store n ptr b (omega (arith, level narrow)) there' h' u.node
                (r (omega (arith, level narrow))))))
    ]
  where
    u : Updated
    u = store_branch p (taller (suc n) ptr) false s

    st : IsStored s (taller (suc n) ptr) false u
    st = store_branch-IsStored p (taller (suc n) ptr) false s positive valid

    level : ltb (n * 5) key_bits ≡ true → suc n ≤ 13
    level narrow = ground arith

    there' : get_branch u.store ptr ≡ some b
    there' = get_branch-Extends s u.store ptr b st.more there

    h' : IsTrie u.store n 0 b
    h' = IsTrie-Extends s u.store n 0 b st.more h

    r : suc n < 256 → Replaces u.store (set_depth (suc n) empty_branch) u.node 0 (branch_child b)
    r small' =
        IsStored-Replaces s (set_depth (suc n) empty_branch) (taller (suc n) ptr) 0 (branch_child b)
          false u st (taller-Replaces u.store n ptr b small' there' h')
