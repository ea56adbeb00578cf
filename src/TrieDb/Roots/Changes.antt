-- ===== src/TrieDb/Roots/Changes.antt =====
-- What insert, update and remove of db/triedb.cpp do to the database.
use native.Mathlib.Nat.{pow-suc, div-eq_of_lt, div-eq_of_lt-le, pow-le-pow_right}
use mathlib.Core.Path.{subst}
use epilog.Prelude.{
  ℕ, zero, suc, ◌*◌, ◌/◌, ◌%◌, ◌^◌, ◌≤◌, ◌<◌, ◌≡◌, refl, sym, ap, ◌∙◌, true, false, ltb, ◌==◌,
  Bool-cases, inl, inr, Option, some, arith,
}
use epilog.TrieDb.Words.{test_bit}
use epilog.TrieDb.Nodes.{Leaf}
use epilog.TrieDb.Files.{get_branch}
use epilog.TrieDb.Update.{Outcome, Updated}
use epilog.TrieDb.Appends.{IsStore, Extends}
use epilog.TrieDb.Tries.{IsTrie, lookup, prefix_of}
use epilog.TrieDb.Roots.{Root, Db, put_root, set_root, count_found, msb_from, compute_max_key_bits}
use epilog.TrieDb.Roots.Contents.{
  IsDb, ChangeResult, changed, put_root_self, put_root_other, set_root-ChangeResult,
}

set_above : (w n : ℕ) → w < 2 ^ suc n → 2 ^ n ≤ w → test_bit w n ≡ true
unfolding test_bit
set_above w n h above =
    let e : w / 2 ^ n ≡ 1 =
      div-eq_of_lt-le {k = 1} (2 ^ n) {m = w} (omega arith) (omega (arith, pow-suc 2 n)) in
    ap (λ (d : ℕ). d % 2 == 1) e

-- Every bit above the one that is found is clear.
msb_from_lt : (n w : ℕ) → w < 2 ^ suc n → w < 2 ^ suc (msb_from n w)
unfolding msb_from
msb_from_lt zero w h = h
msb_from_lt (suc n) w h = elim (Bool-cases (test_bit w (suc n))) [
  | inl y ↦ rw y h
  | inr clear ↦ rw clear (msb_from_lt n w (lower w (suc n) h clear))
]
  where
    set_and_clear : false ≡ true → ⊥
    set_and_clear f = cc

    lower : (w n : ℕ) → w < 2 ^ suc n → test_bit w n ≡ false → w < 2 ^ n
    lower w n h clear = elim (Bool-cases (ltb w (2 ^ n))) [
      | inl y ↦ ground arith
      | inr above ↦ absurd (set_and_clear (sym clear ∙ set_above w n h (ground arith)))
    ]

-- A key of 64 bits has no bits beyond those that compute_max_key_bits asks for.
pub compute_max_key_bits_enough :
    (key n : ℕ) → key < 2 ^ 64 → compute_max_key_bits key ≤ n * 5 → prefix_of n key ≡ 0
unfolding compute_max_key_bits
compute_max_key_bits_enough key n h wide = div-eq_of_lt (
    below (2 ^ suc (msb_from 63 key)) (2 ^ (n * 5)) (msb_from_lt 63 key h) (
      pow-le-pow_right {n = 2} (omega arith) {i = suc (msb_from 63 key)} {j = n * 5} (omega arith)))
  where
    below : (a b : ℕ) → key < a → a ≤ b → key < b
    below a b f g = omega arith

msb_from_le : (n w : ℕ) → msb_from n w ≤ n
unfolding msb_from
msb_from_le zero w = omega arith
msb_from_le (suc n) w = elim (Bool-cases (test_bit w (suc n))) [
  | inl y ↦ rw y (omega arith)
  | inr clear ↦ rw clear (omega (arith, msb_from_le n w))
]

pub compute_max_key_bits_le : (key : ℕ) → compute_max_key_bits key ≤ 65
unfolding compute_max_key_bits
compute_max_key_bits_le key = omega (arith, msb_from_le 63 key)

pub ChangeResult-cong :
    (db : Db) (id : ℕ) (r : Root) (f g : ℕ → Option Leaf) (m n : ℕ) (o : Outcome Db)
    → ((key : ℕ) → f key ≡ g key)
    → m ≡ n
    → ChangeResult db id r f m o
    → ChangeResult db id r g n o
ChangeResult-cong db id r f g m n o same num (changed after c) = changed after (record {
  valid = c.valid;
  found = λ key. c.found key ∙ same key;
  others = c.others;
  new_ptr = c.new_ptr;
  root = c.root ∙ ap (λ (k : ℕ). some (record r { ptr = c.new_ptr; num_entries = k })) num;
  same_roots = c.same_roots;
})

module _ (db : Db) (id : ℕ) (r : Root) (valid : IsDb db) (here : db.roots id ≡ some r) (n : ℕ)
    (u : Updated) (more : Extends db.store u.store) (store_valid : IsStore u.store)
    (there : get_branch u.store u.ptr ≡ some u.node) (h : IsTrie u.store n 0 u.node)
    (small : n ≤ 13) where
  -- The end of an operation that changed the count of the root.
  pub set_root-count_found :
      (change : ℕ → ℕ)
      → ChangeResult db id r
          (λ key. lookup n u.store u.node key)
          (change r.num_entries)
          (set_root id u.ptr (count_found change id (record db { store = u.store }) (db.roots id)))
  unfolding count_found
  set_root-count_found change =
      let counted : Root = record r { num_entries = change r.num_entries } in
      let mid : Db = record db { store = u.store; roots = put_root id counted db.roots } in
      subst
        (λ o.
          ChangeResult db id r (λ key. lookup n u.store u.node key) (change r.num_entries)
            (set_root id u.ptr (count_found change id (record db { store = u.store }) o)))
        (sym here)
        (set_root-ChangeResult db id r valid mid (change r.num_entries)
          (put_root_self id counted db.roots) (put_root_other id counted db.roots) more store_valid
          n u.ptr u.node there h small)

  -- The end of one that did not.
  pub set_root_same :
      ChangeResult db id r
        (λ key. lookup n u.store u.node key)
        r.num_entries
        (set_root id u.ptr (record db { store = u.store }))
  set_root_same =
      set_root-ChangeResult db id r valid (record db { store = u.store }) r.num_entries here
        (λ k other. refl) more store_valid n u.ptr u.node there h small
