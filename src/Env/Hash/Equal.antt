-- ===== src/Env/Hash/Equal.antt =====
-- term_utils::equal and term_utils::hash of common/term_env.cpp: terms that are equal have the same hash.
use mathlib.Core.Path.{subst}
use epilog.Prelude.{ℕ, ◌<◌, ◌≡◌, ◌≢◌, sym, ap, ◌∙◌, true}
use epilog.Term.Cell.{Cell, str, big, tag}
use epilog.Term.Con
use epilog.Heap.{Heap, ok, functor, deref_with_cost}
use epilog.Heap.Deref.{ok-injective}
use epilog.Env.{Env}
use epilog.Env.Equal.{equal}
use epilog.Env.Equal.Same.{SameBig, SameTerm, same_cell, same_big, same_str, arg_of}
use epilog.Env.Equal.Decides.{equal_sound}
use epilog.Env.Hash.{hash}
use epilog.Env.Hash.Same.{SameTree, tree_leaf, tree_big, tree_str, hash_same}

same_target :
    (h : Heap) (a : Cell) {x y : Cell} {k l : ℕ}
    → deref_with_cost h a ≡ ok (x, k)
    → deref_with_cost h a ≡ ok (y, l)
    → x ≡ y
same_target h a e f = ap (λ (p : Cell × ℕ). p.0) (ok-injective (sym e ∙ f))

-- Where the first term leads to one cell, so does the second one, which leads to the same.
led :
    (h : Heap) (a b : Cell) {r r' : Cell} {k k' l : ℕ}
    → deref_with_cost h a ≡ ok (r, k)
    → deref_with_cost h a ≡ ok (r', k')
    → deref_with_cost h b ≡ ok (r', l)
    → deref_with_cost h b ≡ ok (r, l)
led h a b {l = l} e f g = subst (λ x. deref_with_cost h b ≡ ok (x, l)) (sym (same_target h a e f)) g

str≢big : str ≢ big
str≢big e = cc

left-SameBig : {h : Heap} {x y : Cell} → SameBig h x y → SameBig h x x
left-SameBig s = record {
  bits = s.bits;
  bytes = s.bytes;
  bits_a = s.bits_a;
  bits_b = s.bits_a;
  bytes_a = s.bytes_a;
  bytes_b = s.bytes_a;
}

-- A term whose tree is finite has the tree that it has.
pub left-SameTree : {h : Heap} {a b : Cell} → SameTree h a b → SameTree h a a
left-SameTree (tree_leaf ea eb ns nb) = tree_leaf ea ea ns nb
left-SameTree (tree_big ea eb tx ty s) = tree_big ea ea tx tx (left-SameBig s)
left-SameTree (tree_str ea eb tx ty fx fy px py ps) =
    tree_str ea ea tx tx fx fx px px (λ i l. left-SameTree (ps i l))

-- Terms that are the same have the same finite tree, if the first one has one.
finite-SameTree : {h : Heap} {a b c : Cell} → SameTree h a c → SameTerm h a b → SameTree h a b
finite-SameTree {h} {a} {b} (tree_leaf ea ec ns nb) (same_cell fa fb) =
    tree_leaf ea (led h a b ea fa fb) ns nb
finite-SameTree t (same_big fa fb tx ty s) = tree_big fa fb tx ty s
finite-SameTree {h} {a} {b} (tree_big ea ec tx tz s) (same_cell fa fb) =
    tree_big ea (led h a b ea fa fb) tx tx (left-SameBig s)
finite-SameTree {h} {a} {b} (tree_str ea ec tx tz fx fz px pz ps) (same_cell fa fb) =
    tree_str ea (led h a b ea fa fb) tx tx fx fx px px (λ i l. left-SameTree (ps i l))
finite-SameTree {h} {a} (tree_leaf ea ec ns nb) (same_str fa fb tx' ty gx gy qx qy qs) =
    absurd (ns (ap tag (same_target h a ea fa) ∙ tx'))
finite-SameTree {h} {a} (tree_big ea ec tx tz s) (same_str fa fb tx' ty gx gy qx qy qs) =
    absurd (str≢big (sym tx' ∙ ap tag (same_target h a fa ea) ∙ tx))
finite-SameTree {h} {a} (tree_str {x} {f = f} ea ec tx tz fx fz px pz ps)
      (same_str {x = x'} {f = g} fa fb tx' ty gx gy qx qy qs) =
    let same : x ≡ x' = same_target h a ea fa in
    let functors : f ≡ g = ok-injective (sym fx ∙ ap (functor h) same ∙ gx) in
    let at : (i : ℕ) → arg_of h x i ≡ arg_of h x' i = λ i. ap (λ z. arg_of h z i) same in
    tree_str fa fb tx' ty gx gy qx qy (λ i l.
      finite-SameTree
        (subst (λ z. SameTree h z (arg_of h x i)) (at i)
          (left-SameTree (ps i (subst (λ z. i < Con.arity z) (sym functors) l))))
        (qs i l))

-- When term_utils::equal returns true, and the first term has a finite tree, term_utils::hash ends on both terms,
-- with the same hash, and leaves the environment as it was.
pub hash-equal :
    (fuel : ℕ) (e e1 : Env) (a b : Cell) (cost : ℕ)
    → SameTree e.heap a a
    → equal fuel e a b ≡ ok (true, e1, cost)
    → (rounds : ℕ) × (v : ℕ) × (hash rounds e a ≡ ok (v, e)) × (hash rounds e b ≡ ok (v, e))
hash-equal fuel e e1 a b cost finite found =
    hash_same e a b (finite-SameTree finite (equal_sound fuel e e1 a b cost found).0)
