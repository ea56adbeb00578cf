-- ===== src/TrieDb/Tries.antt =====
-- The tries that stand in the files of db/triedb.cpp, and what they hold.
use native.Mathlib.Nat.{pow-suc, div-div-eq-div-mul}
use mathlib.Core.Path.{subst}
use epilog.Prelude.{
  ℕ, zero, suc, ◌+◌, ◌-◌, ◌*◌, ◌/◌, ◌^◌, ◌<◌, ◌≡◌, ◌≢◌, refl, sym, ap, ◌∙◌, ◌==◌, if◌then◌else◌,
  Bool-cases, inl, inr, Option, none, some, arith,
}
use epilog.TrieDb.Words.{test_bit}
use epilog.TrieDb.Nodes.{Leaf, Branch, is_empty, is_leaf, get_child_pointer}
use epilog.TrieDb.Files.{
  Node, Store, Child, no_child, leaf_child, branch_child, unreadable, leaf_or_not, branch_or_not,
  find_node, get_leaf, get_branch, child_at,
}
use epilog.TrieDb.Update.{sub_index}
use epilog.TrieDb.Appends.{Extends, extends}

-- The keys of 5 bits for each of n levels, cut off.
abbrev pub prefix_of : ℕ → ℕ → ℕ
prefix_of n key = key / 2 ^ (n * 5)

-- What may stand at a place whose keys have the prefix q above their last n parts.
abbrev pub IsChild : (Branch → Type 0) → ℕ → ℕ → Child → Type 0
IsChild below n q no_child = Unit
IsChild below n q (leaf_child l) = prefix_of n l.key ≡ q
IsChild below n q (branch_child b) = below b
IsChild below n q unreadable = ⊥

-- A branch of n levels whose keys have the prefix q: every leaf stands where its key says.
unfoldable pub IsTrie : Store → ℕ → ℕ → Branch → Type 0
IsTrie s zero q b = ⊥
IsTrie s (suc n) q b =
    (b.depth ≡ suc n)
    × ((i : ℕ) → i < 32 → IsChild (λ c. IsTrie s n (q * 32 + i) c) n (q * 32 + i) (child_at s b i))

abbrev pub lookup_child : (Branch → Option Leaf) → ℕ → Child → Option Leaf
lookup_child below key no_child = none
lookup_child below key (leaf_child l) = if l.key == key then some l else none
lookup_child below key (branch_child b) = below b
lookup_child below key unreadable = none

-- What a trie of n levels holds: the leaf with the key, on the path that the key's parts name.
unfoldable pub lookup : ℕ → Store → Branch → ℕ → Option Leaf
lookup zero s b key = none
lookup (suc n) s b key =
    lookup_child (λ c. lookup n s c key) key (child_at s b (sub_index b.depth key))

pub sub_index_lt : (depth key : ℕ) → sub_index depth key < 32
unfolding sub_index
sub_index_lt depth key = omega arith

pow_step : (n : ℕ) → 2 ^ (suc n * 5) ≡ 2 ^ (n * 5) * 32
pow_step n =
    let e : suc n * 5 ≡ suc (suc (suc (suc (suc (n * 5))))) = omega arith in
    ap (λ (k : ℕ). 2 ^ k) e
    ∙ omega (
      arith,
      pow-suc 2 (suc (suc (suc (suc (n * 5))))),
      pow-suc 2 (suc (suc (suc (n * 5)))),
      pow-suc 2 (suc (suc (n * 5))),
      pow-suc 2 (suc (n * 5)),
      pow-suc 2 (n * 5),
    )

-- One more part of the key joins the prefix.
pub prefix_of_step :
    (n key : ℕ) → prefix_of n key ≡ prefix_of (suc n) key * 32 + sub_index (suc n) key
unfolding sub_index
prefix_of_step n key =
    let e : key / 2 ^ (suc n * 5) ≡ key / 2 ^ (n * 5) / 32 =
      ap (λ (d : ℕ). key / d) (pow_step n) ∙ sym (div-div-eq-div-mul key (2 ^ (n * 5)) 32) in
    let d : (suc n - 1) * 5 ≡ n * 5 = omega arith in rw (e, d) (omega arith)

-- The places of keys with a prefix.
pub sub_index_of_prefix :
    (n key q i : ℕ) → i < 32 → prefix_of n key ≡ q * 32 + i → sub_index (suc n) key ≡ i
sub_index_of_prefix n key q i low e = omega (arith, prefix_of_step n key, sub_index_lt (suc n) key)

pub prefix_of_child :
    (n key q : ℕ) → prefix_of (suc n) key ≡ q → prefix_of n key ≡ q * 32 + sub_index (suc n) key
prefix_of_child n key q e = omega (arith, prefix_of_step n key)

as_leaf_or_not-Extends :
    (s t : Store) (more : Extends s t) (p : ℕ)
    → leaf_or_not (get_leaf s p) ≢ unreadable
    → get_leaf t p ≡ get_leaf s p
unfolding get_leaf
as_leaf_or_not-Extends s t (extends f) p readable = known (find_node s.nodes p) refl
  where
    known : (o : Option Node) → find_node s.nodes p ≡ o → get_leaf t p ≡ get_leaf s p
    known none e = absurd (readable (rw e refl))
    known (some node) e = rw (e, f p node e) refl

as_branch_or_not-Extends :
    (s t : Store) (more : Extends s t) (p : ℕ)
    → branch_or_not (get_branch s p) ≢ unreadable
    → get_branch t p ≡ get_branch s p
unfolding get_branch
as_branch_or_not-Extends s t (extends f) p readable = known (find_node s.nodes p) refl
  where
    known : (o : Option Node) → find_node s.nodes p ≡ o → get_branch t p ≡ get_branch s p
    known none e = absurd (readable (rw e refl))
    known (some node) e = rw (e, f p node e) refl

-- A child that is read is read the same when nodes are appended.
pub child_at-Extends :
    (s t : Store) (b : Branch) (i : ℕ)
    → Extends s t
    → child_at s b i ≢ unreadable
    → child_at t b i ≡ child_at s b i
unfolding child_at is_empty is_leaf
child_at-Extends s t b i more readable = elim (Bool-cases (test_bit b.mask i)) [
  | inr n ↦ rw n refl
  | inl n ↦ elim (Bool-cases (test_bit b.leaf i)) [
    | inl l ↦
        rw (n, l)
          (ap leaf_or_not
            (as_leaf_or_not-Extends s t more (get_child_pointer b i) (λ e. readable (rw (n, l) e))))
    | inr m ↦
        rw (n, m)
          (ap branch_or_not (
            as_branch_or_not-Extends s t more (get_child_pointer b i)
              (λ e. readable (rw (n, m) e))))
  ]
]

IsChild-readable :
    (below : Branch → Type 0) (n q : ℕ) (c : Child) → IsChild below n q c → c ≢ unreadable
IsChild-readable below n q no_child h e = cc
IsChild-readable below n q (leaf_child l) h e = cc
IsChild-readable below n q (branch_child b) h e = cc
IsChild-readable below n q unreadable h e = h

pub IsChild-imp :
    (P Q : Branch → Type 0) (n q : ℕ) (c : Child)
    → ((b : Branch) → P b → Q b)
    → IsChild P n q c
    → IsChild Q n q c
IsChild-imp P Q n q no_child f h = tt
IsChild-imp P Q n q (leaf_child l) f h = h
IsChild-imp P Q n q (branch_child b) f h = f b h
IsChild-imp P Q n q unreadable f h = elim h [ ]

-- The children of a trie are read.
pub IsTrie-child :
    (s : Store) (n q : ℕ) (b : Branch) (i : ℕ)
    → IsTrie s (suc n) q b
    → i < 32
    → child_at s b i ≢ unreadable
unfolding IsTrie
IsTrie-child s n q b i h low =
    IsChild-readable (λ c. IsTrie s n (q * 32 + i) c) n (q * 32 + i) (child_at s b i) (h.1 i low)

-- A trie stays one when nodes are appended to the files.
pub IsTrie-Extends :
    (s t : Store) (n q : ℕ) (b : Branch) → Extends s t → IsTrie s n q b → IsTrie t n q b
unfolding IsTrie
IsTrie-Extends s t zero q b more h = elim h [ ]
IsTrie-Extends s t (suc n) q b more h = (
  h.0,
  λ i low.
      subst (λ c. IsChild (λ c. IsTrie t n (q * 32 + i) c) n (q * 32 + i) c)
        (sym (child_at-Extends s t b i more (IsTrie-child s n q b i h low)))
        (IsChild-imp (λ c. IsTrie s n (q * 32 + i) c) (λ c. IsTrie t n (q * 32 + i) c) n
          (q * 32 + i) (child_at s b i) (λ c. IsTrie-Extends s t n (q * 32 + i) c more)
          (h.1 i low)),
)

lookup_child_cong :
    (P : Branch → Type 0) (f g : Branch → Option Leaf) (n q key : ℕ) (c : Child)
    → ((b : Branch) → P b → g b ≡ f b)
    → IsChild P n q c
    → lookup_child g key c ≡ lookup_child f key c
lookup_child_cong P f g n q key no_child e h = refl
lookup_child_cong P f g n q key (leaf_child l) e h = refl
lookup_child_cong P f g n q key (branch_child b) e h = e b h
lookup_child_cong P f g n q key unreadable e h = elim h [ ]

-- Nothing that a trie holds changes when nodes are appended to the files.
pub lookup-Extends :
    (s t : Store) (n q : ℕ) (b : Branch) (key : ℕ)
    → Extends s t
    → IsTrie s n q b
    → lookup n t b key ≡ lookup n s b key
unfolding lookup IsTrie
lookup-Extends s t zero q b key more h = elim h [ ]
lookup-Extends s t (suc n) q b key more h =
    let i = sub_index b.depth key in
    let low : i < 32 = sub_index_lt b.depth key in
    ap (lookup_child (λ c. lookup n t c key) key)
      (child_at-Extends s t b i more (IsTrie-child s n q b i h low))
    ∙ lookup_child_cong (λ c. IsTrie s n (q * 32 + i) c) (λ c. lookup n s c key)
        (λ c. lookup n t c key) n (q * 32 + i) key (child_at s b i)
        (λ c. lookup-Extends s t n (q * 32 + i) c key more) (h.1 i low)
