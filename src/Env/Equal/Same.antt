-- ===== src/Env/Equal/Same.antt =====
-- Terms that are the same, and what heap::big_equal decides.
use epilog.Prelude.{
  ℕ, zero, suc, ◌+◌, ◌/◌, ◌<◌, ◌≡◌, refl, sym, ap, ◌∙◌, Bool, true, false, not, inl, inr,
  Bool-cases, ◌==◌, ==_iff, if◌then◌else◌, List, [], ◌∷◌, length, arith,
}
use epilog.Term.Cell.{Cell, str, big, tag, index}
use epilog.Term.Con
use epilog.Heap.{Heap, ok, throw, ◌>>=◌, functor, deref_with_cost, arg}
use epilog.Heap.Deref.{>>=-eq-ok, ok-injective}
use epilog.Env.Unify.{big_num_bits, big_bytes, big_bytes_loop}
use epilog.Env.Equal.{bytes_equal_loop, big_equal_bytes, big_equal}

-- Two big numbers with the same number of bits and the same bytes.
pub record SameBig (h : Heap) (a b : Cell) : Type 0 where
  pub bits : ℕ
  pub bytes : List ℕ
  pub bits_a : big_num_bits h a ≡ ok bits
  pub bits_b : big_num_bits h b ≡ ok bits
  pub bytes_a : big_bytes h a ≡ ok bytes
  pub bytes_b : big_bytes h b ≡ ok bytes

-- The argument that `arg` returns, if it returns.
abbrev pub arg_of : Heap → Cell → ℕ → Cell
arg_of h x i = elim (arg h x i) [ ok c ↦ c | throw e ↦ 0 ]

-- Two terms that are the same: they lead to the same cell, or to big numbers that are the same, or to
-- structures of the same functor whose arguments are the same in turn. The structures are compared down to
-- finitely many levels only, but a cell that both terms lead to may belong to a cyclic term.
pub data SameTerm (h : Heap) : Cell → Cell → Type 0 where
  same_cell :
      {a b r : Cell} {k l : ℕ}
      → deref_with_cost h a ≡ ok (r, k)
      → deref_with_cost h b ≡ ok (r, l)
      → SameTerm h a b
  same_big :
      {a b x y : Cell} {k l : ℕ}
      → deref_with_cost h a ≡ ok (x, k)
      → deref_with_cost h b ≡ ok (y, l)
      → tag x ≡ big
      → tag y ≡ big
      → SameBig h x y
      → SameTerm h a b
  same_str :
      {a b x y f : Cell} {k l : ℕ}
      → deref_with_cost h a ≡ ok (x, k)
      → deref_with_cost h b ≡ ok (y, l)
      → tag x ≡ str
      → tag y ≡ str
      → functor h x ≡ ok f
      → functor h y ≡ ok f
      → ((i : ℕ) → i < Con.arity f → arg h x i ≡ ok (arg_of h x i))
      → ((i : ℕ) → i < Con.arity f → arg h y i ≡ ok (arg_of h y i))
      → ((i : ℕ) → i < Con.arity f → SameTerm h (arg_of h x i) (arg_of h y i))
      → SameTerm h a b

big_bytes_loop-length : (n : ℕ) (h : Heap) (i k : ℕ) → length (big_bytes_loop n h i k) ≡ n
unfolding big_bytes_loop
big_bytes_loop-length zero h i k = refl
big_bytes_loop-length (suc n) h i k = ap suc (big_bytes_loop-length n h i (k + 1))

bytes_equal_loop-true :
    (xs ys : List ℕ) (c : ℕ) → length xs ≡ length ys → (bytes_equal_loop xs ys c).0 ≡ true → xs ≡ ys
unfolding bytes_equal_loop
bytes_equal_loop-true [] [] c l h = refl
bytes_equal_loop-true [] (y ∷ ys) c l h = absurd (omega (arith, l))
bytes_equal_loop-true (x ∷ xs) [] c l h = absurd (omega (arith, l))
bytes_equal_loop-true (x ∷ xs) (y ∷ ys) c l h = elim (Bool-cases (x == y)) [
  | inl e ↦
      let rest = bytes_equal_loop-true xs ys (c + 1) (omega (arith, l)) (rw e at h) in
      rw ((==_iff x y).0 e) (ap (λ (zs : List ℕ). y ∷ zs) rest)
  | inr e ↦ cc (rw e at h)
]

bytes_equal_loop_refl : (xs : List ℕ) (c : ℕ) → (bytes_equal_loop xs xs c).0 ≡ true
unfolding bytes_equal_loop
bytes_equal_loop_refl [] c = refl
bytes_equal_loop_refl (x ∷ xs) c = rw ((==_iff x x).1 refl) (bytes_equal_loop_refl xs (c + 1))

big_bytes-length :
    (h : Heap) (a : Cell) (n : ℕ) (xs : List ℕ)
    → big_num_bits h a ≡ ok n
    → big_bytes h a ≡ ok xs
    → length xs ≡ (n + 7) / 8
unfolding big_bytes
big_bytes-length h a n xs e b =
    let p : big_bytes_loop ((n + 7) / 8) h (index a) 0 ≡ xs = ok-injective (rw e at b) in
    rw (← p) (big_bytes_loop-length ((n + 7) / 8) h (index a) 0)

pub big_equal_sound :
    (h : Heap) (a b : Cell) (c : ℕ) → big_equal h a b ≡ ok (true, c) → SameBig h a b
unfolding big_equal big_equal_bytes
big_equal_sound h a b c e =
    let (na, ea, e1) =
      >>=-eq-ok (big_num_bits h a)
        (λ x.
          big_num_bits h b >>= λ y. if not (x == y) then ok (false, 1) else big_equal_bytes h a b)
        e in
    let (nb, eb, e2) =
      >>=-eq-ok (big_num_bits h b)
        (λ y. if not (na == y) then ok (false, 1) else big_equal_bytes h a b) e1 in
    elim (Bool-cases (na == nb)) [
      | inr n ↦ cc (rw n at e2)
      | inl y ↦
          let (xs, ex, e3) =
            >>=-eq-ok (big_bytes h a) (λ x. big_bytes h b >>= λ y. ok (bytes_equal_loop x y 1))
              (rw y at e2) in
          let (ys, ey, e4) = >>=-eq-ok (big_bytes h b) (λ y. ok (bytes_equal_loop xs y 1)) e3 in
          let same : na ≡ nb = (==_iff na nb).0 y in
          let eb' : big_num_bits h b ≡ ok na = rw same eb in
          let long : length xs ≡ length ys =
            big_bytes-length h a na xs ea ex ∙ sym (big_bytes-length h b na ys eb' ey) in
          let eq : xs ≡ ys =
            bytes_equal_loop-true xs ys 1 long (ap (λ (r : Bool × ℕ). r.0) (ok-injective e4)) in
          record {
            bits = na;
            bytes = xs;
            bits_a = ea;
            bits_b = eb';
            bytes_a = ex;
            bytes_b = rw eq ey;
          }
    ]

pub big_equal_complete :
    (h : Heap) (a b : Cell) → SameBig h a b → (c : ℕ) × (big_equal h a b ≡ ok (true, c))
unfolding big_equal big_equal_bytes
big_equal_complete h a b s =
    let r = bytes_equal_loop s.bytes s.bytes 1 in
    (
      r.1,
      rw (s.bits_a, s.bits_b, (==_iff s.bits s.bits).1 refl, s.bytes_a, s.bytes_b)
          (ap ok (pair_eq r (bytes_equal_loop_refl s.bytes 1))),
    )
  where
    pair_eq : (r : Bool × ℕ) → r.0 ≡ true → r ≡ (true, r.1)
    pair_eq (b, c) e = ap (λ (x : Bool). (x, c)) e
