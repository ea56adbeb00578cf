-- ===== src/Env/Unify/Undo.antt =====
-- Undoing what unification writes: the memory that restoring the forwarded functors and unwinding the
-- trail give back.
use epilog.Prelude.{
  ℕ, ◌≡◌, ◌≢◌, refl, sym, ap, ◌∙◌, fun_ext, true, false, inl, inr, Bool-cases, ◌==◌, ==_iff,
  if◌then◌else◌, List, [], ◌∷◌, ◌++◌, arith,
}
use epilog.Term.Cell.{Cell, Tag, ref, con, fwd, tag, is_ref, index, ref_cell, unwatch}
use epilog.Term.Cell.Laws.{tag-cell}
use epilog.Heap.{update}
use epilog.Env.{unwind}
use epilog.Env.Unify.{restore}

-- A cell without its watch: REF and RFW of one address are taken for the same.
pub plain : Cell → Cell
plain c = if is_ref (tag c) then unwatch c else c

-- Two memories that differ at most in watches.
abbrev pub SameCells : (ℕ → Cell) → (ℕ → Cell) → Type 0
SameCells m n = (i : ℕ) → plain (m i) ≡ plain (n i)

ref_cell-index : (k : ℕ) → ref_cell (index (ref_cell k)) ≡ ref_cell k
unfolding ref_cell index
ref_cell-index k = omega arith

pub plain-ref_cell : (k : ℕ) → plain (ref_cell k) ≡ ref_cell k
unfolding plain unwatch is_ref
plain-ref_cell k =
    let t : tag (ref_cell k) ≡ ref = unfold ref_cell in tag-cell ref k in rw t (ref_cell-index k)

pub plain-ref : (c : Cell) → is_ref (tag c) ≡ true → plain c ≡ ref_cell (index c)
unfolding plain unwatch
plain-ref c h = rw h refl

pub update_self : (m : ℕ → Cell) (i : ℕ) (c : Cell) → update m i c i ≡ c
update_self m i c = ground arith

pub update-ne : (m : ℕ → Cell) (i : ℕ) (c : Cell) (j : ℕ) → j ≢ i → update m i c j ≡ m j
update-ne m i c j h = ground arith

update_comm :
    (m : ℕ → Cell) (i j : ℕ) (a b : Cell)
    → i ≢ j
    → update (update m i a) j b ≡ update (update m j b) i a
update_comm m i j a b h = fun_ext λ k. ground arith

pub update_back : (m : ℕ → Cell) (i : ℕ) (a : Cell) → update (update m i a) i (m i) ≡ m
update_back m i a = fun_ext λ k. at k
  where
    at : (k : ℕ) → update (update m i a) i (m i) k ≡ m k
    at k = elim (Bool-cases (k == i)) [
      | inl e ↦ rw e (ap m (sym ((==_iff k i).0 e)))
      | inr e ↦ rw e refl
    ]

-- The temporary trail can be restored: at its turn each address forwards to a functor.
pub data Restorable : (ℕ → Cell) → List ℕ → Type 0 where
  done : {m : ℕ → Cell} → Restorable m []
  next :
      {m : ℕ → Cell} {i : ℕ} {is : List ℕ}
      → tag (m i) ≡ fwd
      → tag (m (index (m i))) ≡ con
      → Restorable (update m i (m (index (m i)))) is
      → Restorable m (i ∷ is)

-- An address that holds a reference is no part of the restoring.
ne_of_tag :
    (m : ℕ → Cell) (k i : ℕ) (t : Tag)
    → is_ref (tag (m k)) ≡ true
    → tag (m i) ≡ t
    → is_ref t ≡ false
    → i ≢ k
ne_of_tag m k i t r e f p = cc (ap (λ (j : ℕ). is_ref (tag (m j))) p, ap is_ref e)

not_ref : (is_ref fwd ≡ false) × (is_ref con ≡ false)
unfolding is_ref
not_ref = (refl, refl)

pub Restorable-update :
    {m : ℕ → Cell} {is : List ℕ} (k : ℕ) (c : Cell)
    → is_ref (tag (m k)) ≡ true
    → Restorable m is
    → Restorable (update m k c) is
Restorable-update k c r done = done
Restorable-update k c r (next {m} {i} {is} t u rest) =
    let a : i ≢ k = ne_of_tag m k i fwd r t not_ref.0 in
    let b : index (m i) ≢ k = ne_of_tag m k (index (m i)) con r u not_ref.1 in
    let ei : update m k c i ≡ m i = update-ne m k c i a in
    let ej : update m k c (index (m i)) ≡ m (index (m i)) = update-ne m k c (index (m i)) b in
    let keep : is_ref (tag (update m i (m (index (m i))) k)) ≡ true =
      rw (update-ne m i (m (index (m i))) k (λ p. a (sym p))) r in
    next (rw ei t) (rw (ei, ej) u) (
      rw (ei, ej, update_comm m k i c (m (index (m i))) (λ p. a (sym p)))
        (Restorable-update k c keep rest))

-- Restoring leaves the cells that are references as they are, and commutes with writing them.
pub restore-update :
    {m : ℕ → Cell} {is : List ℕ} (k : ℕ) (c : Cell)
    → is_ref (tag (m k)) ≡ true
    → Restorable m is
    → restore (update m k c) is ≡ update (restore m is) k c
unfolding restore
restore-update k c r done = refl
restore-update k c r (next {m} {i} {is} t u rest) =
    let a : i ≢ k = ne_of_tag m k i fwd r t not_ref.0 in
    let b : index (m i) ≢ k = ne_of_tag m k (index (m i)) con r u not_ref.1 in
    let ei : update m k c i ≡ m i = update-ne m k c i a in
    let ej : update m k c (index (m i)) ≡ m (index (m i)) = update-ne m k c (index (m i)) b in
    let keep : is_ref (tag (update m i (m (index (m i))) k)) ≡ true =
      rw (update-ne m i (m (index (m i))) k (λ p. a (sym p))) r in
    rw (ei, ej, update_comm m k i c (m (index (m i))) (λ p. a (sym p)))
      (restore-update k c keep rest)

pub restore-ref :
    {m : ℕ → Cell} {is : List ℕ} (k : ℕ)
    → is_ref (tag (m k)) ≡ true
    → Restorable m is
    → restore m is k ≡ m k
unfolding restore
restore-ref k r done = refl
restore-ref k r (next {m} {i} {is} t u rest) =
    let a : i ≢ k = ne_of_tag m k i fwd r t not_ref.0 in
    let same = update-ne m i (m (index (m i))) k (λ p. a (sym p)) in
    restore-ref k (rw same r) rest ∙ same

unwind-append :
    (m : ℕ → Cell) (ks : List ℕ) (k : ℕ)
    → unwind m (ks ++ (k ∷ [])) ≡ update (unwind m ks) k (ref_cell k)
unfolding unwind
unwind-append m [] k = refl
unwind-append m (j ∷ ks) k = unwind-append (update m j (ref_cell j)) ks k

SameCells-update :
    (m n : ℕ → Cell) (k : ℕ) (c d : Cell)
    → SameCells m n
    → plain c ≡ plain d
    → SameCells (update m k c) (update n k d)
SameCells-update m n k c d h e i = elim (Bool-cases (i == k)) [
  | inl y ↦ rw y e
  | inr y ↦ rw y (h i)
]

pub unwind-SameCells :
    (m n : ℕ → Cell) (ks : List ℕ) → SameCells m n → SameCells (unwind m ks) (unwind n ks)
unfolding unwind
unwind-SameCells m n [] h = h
unwind-SameCells m n (k ∷ ks) h =
    unwind-SameCells (update m k (ref_cell k)) (update n k (ref_cell k)) ks
      (SameCells-update m n k (ref_cell k) (ref_cell k) h refl)

-- A write at another address is seen through the unwinding or is undone by it.
pub unwind-other :
    (m : ℕ → Cell) (ks : List ℕ) (k : ℕ) (c : Cell) (i : ℕ)
    → i ≢ k
    → unwind (update m k c) ks i ≡ unwind m ks i
unfolding unwind
unwind-other m [] k c i h = update-ne m k c i h
unwind-other m (j ∷ ks) k c i h = elim (Bool-cases (j == k)) [
  | inl e ↦
      let p : update (update m k c) j (ref_cell j) ≡ update m j (ref_cell j) =
        rw ((==_iff j k).0 e) (fun_ext λ x. overwrite x) in
      rw p refl
  | inr e ↦
      rw (update_comm m k j c (ref_cell j) (λ p. false_test j k e (sym p)))
        (unwind-other (update m j (ref_cell j)) ks k c i h)
]
  where
    overwrite : (x : ℕ) → update (update m k c) k (ref_cell k) x ≡ update m k (ref_cell k) x
    overwrite x = ground arith

    false_test : (j k : ℕ) → (j == k) ≡ false → j ≢ k
    false_test j k e = ground arith

-- An unbound variable is one after the unwinding.
pub unwind-unbound :
    (m : ℕ → Cell) (ks : List ℕ) (k : ℕ)
    → plain (m k) ≡ ref_cell k
    → plain (unwind m ks k) ≡ ref_cell k
unfolding unwind
unwind-unbound m [] k h = h
unwind-unbound m (j ∷ ks) k h = unwind-unbound (update m j (ref_cell j)) ks k at
  where
    at : plain (update m j (ref_cell j) k) ≡ ref_cell k
    at = elim (Bool-cases (k == j)) [
      | inl e ↦ rw e (rw (sym ((==_iff k j).0 e)) (plain-ref_cell k))
      | inr e ↦ rw e h
    ]

-- What failure gives back: the functors restored, the bindings of the trail undone.
abbrev pub undo : (ℕ → Cell) → List ℕ → List ℕ → ℕ → Cell
undo m is ks = unwind (restore m is) ks

-- Binding an unbound variable and recording it changes nothing that is given back.
pub undo-bind :
    (m : ℕ → Cell) (is ks : List ℕ) (k : ℕ) (c : Cell)
    → Restorable m is
    → is_ref (tag (m k)) ≡ true
    → index (m k) ≡ k
    → SameCells (undo (update m k c) is (ks ++ (k ∷ []))) (undo m is ks)
undo-bind m is ks k c s r e i =
    rw (restore-update k c r s, unwind-append (update (restore m is) k c) ks k)
      (elim (Bool-cases (i == k)) [
        | inl y ↦
            let p : i ≡ k = (==_iff i k).0 y in
            let unbound : plain (restore m is k) ≡ ref_cell k =
              rw (restore-ref k r s) (plain-ref (m k) r ∙ ap ref_cell e) in
            rw y (rw p (plain-ref_cell k ∙ sym (unwind-unbound (restore m is) ks k unbound)))
        | inr y ↦ rw y (ap plain (unwind-other (restore m is) ks k c i (other i k y)))
      ])
  where
    other : (i k : ℕ) → (i == k) ≡ false → i ≢ k
    other i k y = ground arith

-- Nor does setting the watch of a variable.
pub undo-watch :
    (m : ℕ → Cell) (is ks : List ℕ) (k : ℕ) (c : Cell)
    → Restorable m is
    → is_ref (tag (m k)) ≡ true
    → plain c ≡ plain (m k)
    → SameCells (undo (update m k c) is ks) (undo m is ks)
undo-watch m is ks k c s r e =
    rw (restore-update k c r s) (unwind-SameCells (update (restore m is) k c) (restore m is) ks at)
  where
    at : SameCells (update (restore m is) k c) (restore m is)
    at i = elim (Bool-cases (i == k)) [
      | inl y ↦ rw y (rw ((==_iff i k).0 y) (e ∙ ap plain (sym (restore-ref k r s))))
      | inr y ↦ rw y refl
    ]

-- Forwarding a functor to another of the same name, and recording it, changes nothing that is given
-- back.
pub undo-forward :
    (m : ℕ → Cell) (is : List ℕ) (i j : ℕ) (c : Cell)
    → tag c ≡ fwd
    → index c ≡ j
    → j ≢ i
    → m j ≡ m i
    → tag (m j) ≡ con
    → Restorable m is
    → Restorable (update m i c) (i ∷ is) × (restore (update m i c) (i ∷ is) ≡ restore m is)
unfolding restore
undo-forward m is i j c t e ne same iscon s =
    let ci : update m i c i ≡ c = update_self m i c in
    let cj : update m i c j ≡ m j = update-ne m i c j ne in
    let back : update (update m i c) i (m j) ≡ m = rw same (update_back m i c) in
    (next (rw ci t) (rw (ci, e, cj) iscon) (rw (ci, e, cj, back) s), rw (ci, e, cj, back) refl)
