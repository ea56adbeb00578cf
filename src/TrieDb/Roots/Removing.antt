-- ===== src/TrieDb/Roots/Removing.antt =====
-- remove of db/triedb.cpp takes one key from one root, and changes nothing else.
use native.Mathlib.Nat.{div-eq_of_lt, lt-mul-div-succ, pow-le-pow_right}
use mathlib.Core.Path.{subst}
use epilog.Prelude.{
  ℕ, zero, suc, ◌+◌, ◌-◌, ◌*◌, ◌/◌, ◌%◌, ◌^◌, ◌≤◌, ◌<◌, ◌≡◌, ◌≢◌, refl, sym, ap, ◌∙◌, Bool, true,
  false, ltb, ltb→lt, ◌==◌, if◌then◌else◌, Bool-cases, inl, inr, Option, none, some, arith,
}
use epilog.TrieDb.Words.{test_bit}
use epilog.Prelude.Bits.{pow_pos}
use epilog.TrieDb.Nodes.{Leaf, Branch}
use epilog.TrieDb.Files.{Params, Store, get_branch}
use epilog.TrieDb.Update.{TriedbError, key_not_found, Outcome, throws, ◌>>=◌, Updated}
use epilog.TrieDb.Remove.{remove_part}
use epilog.TrieDb.Tries.{IsTrie, lookup, prefix_of}
use epilog.TrieDb.Remove.Steps.{RemoveResult, removed, missing}
use epilog.TrieDb.Remove.Part.{remove_part_lem}
use epilog.TrieDb.Roots.{
  Root, Db, set_root, decrement_num_entries, msb_from, compute_max_key_bits, finish_remove,
  remove_below, remove_found, remove,
}
use epilog.TrieDb.Roots.Grow.{lookup_outside}
use epilog.TrieDb.Roots.Contents.{contents, IsRoot, is_root, IsDb, IsTrie-depth, ChangeResult}
use epilog.TrieDb.Roots.Changes.{
  compute_max_key_bits_enough, ChangeResult-cong, set_root-count_found,
}
use epilog.TrieDb.Roots.Inserting.{contents-trie}

abbrev pub one_less : ℕ → ℕ
one_less n = (n + (2 ^ 64 - 1)) % 2 ^ 64

-- The outcomes of remove at a root: the key is taken away, or is not there and an exception says so.
pub data RemoveOutcome (db : Db) (id : ℕ) (r : Root) (key : ℕ) (o : Outcome Db) : Type 0 where
  taken :
      contents db id key ≢ none
      → ChangeResult db id r
          (λ k. if key == k then none else contents db id k)
          (one_less r.num_entries)
          o
      → RemoveOutcome db id r key o
  not_taken :
      (x : TriedbError) → contents db id key ≡ none → o ≡ throws x → RemoveOutcome db id r key o

-- A bit that is set is within the word.
pow_of_bit : (w m : ℕ) → test_bit w m ≡ true → 2 ^ m ≤ w
unfolding test_bit
pow_of_bit w m e = elim (Bool-cases (ltb w (2 ^ m))) [
  | inl y ↦
      let small : w < 2 ^ m = ground arith in
      absurd (set_and_clear (sym e ∙ ap (λ (d : ℕ). d % 2 == 1) (div-eq_of_lt small)))
  | inr n ↦ ground arith
]
  where
    set_and_clear : true ≡ false → ⊥
    set_and_clear f = cc

pow_of_msb : (n w : ℕ) → 0 < msb_from n w → 2 ^ msb_from n w ≤ w
unfolding msb_from
pow_of_msb zero w h = absurd (omega arith)
pow_of_msb (suc n) w h = by_bit (test_bit w (suc n)) refl h (pow_of_msb n w)
  where
    by_bit :
        (z : Bool)
        → test_bit w (suc n) ≡ z
        → 0 < (if z then suc n else msb_from n w)
        → (0 < msb_from n w → 2 ^ msb_from n w ≤ w)
        → 2 ^ (if z then suc n else msb_from n w) ≤ w
    by_bit true e f below = pow_of_bit w (suc n) e
    by_bit false e f below = below f

-- A key that needs more parts than there are levels has no prefix 0 above them.
too_wide : (key n : ℕ) → 0 < n → n * 5 < compute_max_key_bits key → prefix_of n key ≢ 0
unfolding compute_max_key_bits
too_wide key n levels wide zero_prefix =
    let m = msb_from 63 key in
    let high : n * 5 ≤ m = omega arith in
    let le : 2 ^ (n * 5) ≤ 2 ^ m =
      pow-le-pow_right {n = 2} (omega arith) {i = n * 5} {j = m} high in
    let reach : 2 ^ m ≤ key = pow_of_msb 63 key (omega arith) in
    let some_pow : 0 < 2 ^ (n * 5) = pow_pos (n * 5) in
    let below : key < 2 ^ (n * 5) * (key / 2 ^ (n * 5) + 1) = lt-mul-div-succ key some_pow in
    let one : 2 ^ (n * 5) * (key / 2 ^ (n * 5) + 1) ≡ 2 ^ (n * 5) =
      ap (λ (d : ℕ). 2 ^ (n * 5) * (d + 1)) zero_prefix ∙ times_one (2 ^ (n * 5)) in
    omega (arith, le, reach, below, one)
  where
    times_one : (d : ℕ) → d * (0 + 1) ≡ d
    times_one d = omega arith

no_levels : (s : Store) (b : Branch) → IsTrie s 0 0 b → ⊥
unfolding IsTrie
no_levels s b h = h

module _ (p : Params) (db : Db) (id : ℕ) (r : Root) (key : ℕ) (valid : IsDb db)
    (here : db.roots id ≡ some r) where
  after_remove :
      (n : ℕ) (b : Branch) (o : Outcome Updated)
      → n ≤ 13
      → ((k : ℕ) → lookup n db.store b k ≡ contents db id k)
      → RemoveResult db.store n 0 key (lookup n db.store b) o
      → RemoveOutcome db id r key (o >>= (λ u. finish_remove id db u))
  unfolding finish_remove decrement_num_entries
  after_remove n b o small same (missing x gone) = not_taken x (sym (same key) ∙ gone) refl
  after_remove n b o small same (removed u held w) =
      taken (λ gone. held (same key ∙ gone))
        (ChangeResult-cong db id r (λ k. lookup n u.store u.node k)
          (λ k. if key == k then none else contents db id k) (one_less r.num_entries)
          (one_less r.num_entries)
          (set_root id u.ptr (decrement_num_entries id (record db { store = u.store })))
          (λ k. w.found k ∙ ap (λ (o : Option Leaf). if key == k then none else o) (same k)) refl
          (set_root-count_found db id r valid here n u w.more w.valid w.stored w.trie small
            one_less))

  below_root :
      (n : ℕ) (b : Branch)
      → 0 < p.bucket_size
      → key < 2 ^ 64
      → n ≤ 13
      → IsTrie db.store n 0 b
      → ((k : ℕ) → lookup n db.store b k ≡ contents db id k)
      → RemoveOutcome db id r key (
          if ltb (n * 5) (compute_max_key_bits key)
          then throws (key_not_found key)
          else remove_part n p b key db.store >>= (λ u. finish_remove id db u))
  below_root zero b positive short small h same = absurd (no_levels db.store b h)
  below_root (suc n) b positive short small h same =
      elim (Bool-cases (ltb (suc n * 5) (compute_max_key_bits key))) [
        | inl y ↦ rw y (
            not_taken (key_not_found key)
              (sym (same key)
                ∙ lookup_outside (suc n) db.store 0 b key h (
                    too_wide key (suc n) (omega arith)
                      (ltb→lt (suc n * 5) (compute_max_key_bits key) y)))
              refl)
        | inr fits ↦ rw fits (
            after_remove (suc n) b (remove_part (suc n) p b key db.store) small same (
              remove_part_lem (suc n) p 0 key b db.store positive valid.valid h (
                compute_max_key_bits_enough key (suc n) short
                  (not_lt (suc n * 5) (compute_max_key_bits key) fits))))
      ]
    where
      not_lt : (a c : ℕ) → ltb a c ≡ false → c ≤ a
      not_lt a c e = ground arith

  pub remove_lem : 0 < p.bucket_size → key < 2 ^ 64 → RemoveOutcome db id r key (remove p id key db)
  unfolding remove remove_found remove_below
  remove_lem positive short =
      subst (λ o. RemoveOutcome db id r key (remove_found p id key db o)) (sym here)
        (at_root (valid.rooted id r here))
    where
      at_root :
          IsRoot db.store r
          → RemoveOutcome db id r key (remove_below p id key db (get_branch db.store r.ptr))
      at_root (is_root n b there h small) =
          subst (λ o. RemoveOutcome db id r key (remove_below p id key db o)) (sym there)
            (subst
              (λ d. RemoveOutcome db id r key (
                if ltb (d * 5) (compute_max_key_bits key)
                then throws (key_not_found key)
                else remove_part d p b key db.store >>= (λ u. finish_remove id db u)))
              (sym (IsTrie-depth db.store n 0 b h))
              (below_root n b positive short small h
                (λ k. sym (contents-trie db id r n b k here there h))))
