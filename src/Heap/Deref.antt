-- ===== src/Heap/Deref.antt =====
-- Dereferencing (heap::deref and heap::deref_with_cost of common/term.cpp): what it returns, and that
-- it returns in a heap whose references lead down.
use mathlib.Core.Path.{subst}
use native.Mathlib.Numerals.{add-two}
use epilog.Prelude.{
  ℕ, zero, suc, ◌+◌, ◌≤◌, ◌<◌, ◌≡◌, ◌⊎◌, refl, ap, ◌∙◌, true, false, inl, inr, Bool-cases, ◌==◌,
  ==_iff, if◌then◌else◌, arith,
}
use epilog.Term.Cell.{Cell, tag, is_ref, index}
use epilog.Heap.{Heap, Result, ok, throw, get, deref_loop, deref_with_cost, ◌>>=◌}

-- A resolved cell is no reference, or an unbound variable: the cell at its own address.
pub record Resolved (h : Heap) (r : Cell) : Type 0 where
  pub unbound : is_ref (tag r) ≡ true → (h.mem (index r) ≡ r) × (index r < h.size)

-- Each reference of the heap leads to its own address or to a lower one.
pub record RefsDescend (h : Heap) : Type 0 where
  pub down : (i : ℕ) → i < h.size → is_ref (tag (h.mem i)) ≡ true → index (h.mem i) ≤ i

pub get-ok : (h : Heap) (i : ℕ) → i < h.size → get h i ≡ ok (h.mem i)
unfolding get
get-ok h i l = ground arith

pub ok_of_get : (h : Heap) (i : ℕ) (c : Cell) → get h i ≡ ok c → (h.mem i ≡ c) × (i < h.size)
unfolding get
ok_of_get h i c e = ground arith

pub ok-injective {ℓ} : {A : Type ℓ} {a b : A} → ok a ≡ ok b → a ≡ b
ok-injective e = cc

pub >>=-eq-ok {κ ℓ} :
    {X : Type κ} {Y : Type ℓ} (run : Result X) (next : X → Result Y) {y : Y}
    → (run >>= next) ≡ ok y
    → (x : X) × (run ≡ ok x) × (next x ≡ ok y)
>>=-eq-ok (throw why) next returns = cc
>>=-eq-ok (ok x) next returns = (x, refl, returns)

eq_cell : (a b : Cell) → (a == b) ≡ true → a ≡ b
eq_cell a b h = (==_iff a b).0 h

-- One round of the loop at a reference whose cell is another one.
deref_loop-next :
    (fuel : ℕ) (h : Heap) (c : Cell) (cost : ℕ)
    → is_ref (tag c) ≡ true
    → index c < h.size
    → (h.mem (index c) == c) ≡ false
    → deref_loop (suc fuel) h c cost ≡ deref_loop fuel h (h.mem (index c)) (cost + 1)
unfolding deref_loop
deref_loop-next fuel h c cost r l ne = rw (r, get-ok h (index c) l, ne) refl

deref_loop-stop :
    (fuel : ℕ) (h : Heap) (c : Cell) (cost : ℕ)
    → Resolved h c
    → deref_loop (suc fuel) h c cost ≡ ok (c, cost)
unfolding deref_loop
deref_loop-stop fuel h c cost s = elim (Bool-cases (is_ref (tag c))) [
  | inl r ↦
      let (e, l) = s.unbound r in
      rw (r, get-ok h (index c) l, (==_iff (h.mem (index c)) c).1 e) refl
  | inr n ↦ rw n refl
]

same_cell : {c r : Cell} {j k : ℕ} → ◌≡◌ {A = Result (Cell × ℕ)} (ok (c, j)) (ok (r, k)) → c ≡ r
same_cell e = cc

-- What dereferencing returns is resolved.
pub deref_loop-Resolved :
    (fuel : ℕ) (h : Heap) (c : Cell) (cost : ℕ) (r : Cell) (k : ℕ)
    → deref_loop fuel h c cost ≡ ok (r, k)
    → Resolved h r
unfolding deref_loop
deref_loop-Resolved zero h c cost r k e = cc
deref_loop-Resolved (suc fuel) h c cost r k e = elim (Bool-cases (is_ref (tag c))) [
  | inl isref ↦
      let (referred, got, then_) = >>=-eq-ok (get h (index c)) (λ d. after d) (rw isref at e) in
      elim (Bool-cases (referred == c)) [
        | inl same ↦
            let (m, l) = ok_of_get h (index c) referred got in
            let e' : referred ≡ c = (==_iff referred c).0 same in
            let here : Resolved h c = record { unbound = λ _. (m ∙ e', l) } in
            subst (Resolved h) (same_cell (rw same at then_)) here
        | inr other ↦ deref_loop-Resolved fuel h referred (cost + 1) r k (rw other at then_)
      ]
  | inr n ↦
      let here : Resolved h c = record { unbound = λ y. cc } in
      subst (Resolved h) (same_cell (rw n at e)) here
]
  where
    after : Cell → Result (Cell × ℕ)
    after d = let rest = deref_loop fuel h d (cost + 1) in if d == c then ok (c, cost) else rest

-- A reference within the heap that leads to its own address or down: it is resolved, or leads to a
-- lower address.
ref_cases :
    (h : Heap) (i : ℕ) (c : Cell)
    → i < h.size
    → h.mem i ≡ c
    → (is_ref (tag c) ≡ true → index c ≤ i)
    → Resolved h c ⊎ ((is_ref (tag c) ≡ true) × (index c < i))
ref_cases h i c l e down = elim (Bool-cases (is_ref (tag c))) [
  | inr n ↦ inl (record { unbound = λ y. cc })
  | inl y ↦ elim (Bool-cases (index c == i)) [
    | inl same ↦
        let s : index c ≡ i = (==_iff (index c) i).0 same in
        inl (record { unbound = λ _. (ap h.mem s ∙ e, omega arith) })
    | inr other ↦ inr (y, lower (index c) (down y) other)
  ]
]
  where
    lower : (j : ℕ) → j ≤ i → (j == i) ≡ false → j < i
    lower j le ne = ground arith

-- The loop ends with a cell, in less than `fuel` further rounds.
abbrev Ends : ℕ → Heap → Cell → ℕ → Type 0
Ends fuel h c cost =
    (r : Cell) × (k : ℕ) × (deref_loop fuel h c cost ≡ ok (r, k)) × (cost ≤ k) × (k < cost + fuel)

Ends-stop :
    (fuel : ℕ) (h : Heap) (c : Cell) (cost : ℕ) → 0 < fuel → Resolved h c → Ends fuel h c cost
Ends-stop zero h c cost p s = absurd (omega arith)
Ends-stop (suc fuel) h c cost p s =
    (c, cost, deref_loop-stop fuel h c cost s, omega arith, omega arith)

Ends-next :
    (fuel : ℕ) (h : Heap) (c : Cell) (cost : ℕ)
    → is_ref (tag c) ≡ true
    → index c < h.size
    → (h.mem (index c) == c) ≡ false
    → Ends fuel h (h.mem (index c)) (cost + 1)
    → Ends (suc fuel) h c cost
Ends-next fuel h c cost isref l ne (r, k, e, lo, hi) =
    (r, k, deref_loop-next fuel h c cost isref l ne ∙ e, omega arith, omega arith)

-- The loop ends within as many rounds as the address is high, and two more.
deref_loop-Ends :
    (fuel : ℕ) (h : Heap) (c : Cell) (cost : ℕ)
    → RefsDescend h
    → (is_ref (tag c) ≡ true → (index c < h.size) × (index c + 2 ≤ fuel))
    → 0 < fuel
    → Ends fuel h c cost
deref_loop-Ends zero h c cost d b p = absurd (omega arith)
deref_loop-Ends (suc fuel) h c cost d b p = elim (Bool-cases (is_ref (tag c))) [
  | inr n ↦ Ends-stop (suc fuel) h c cost p (record { unbound = λ y. cc })
  | inl isref ↦
      let (l, f) = b isref in
      let c' : Cell = h.mem (index c) in
      elim (Bool-cases (h.mem (index c) == c)) [
        | inl same ↦
            Ends-stop (suc fuel) h c cost p
              (record { unbound = λ _. ((==_iff (h.mem (index c)) c).0 same, l) })
        | inr other ↦
            Ends-next fuel h c cost isref l other
              (elim (ref_cases h (index c) (h.mem (index c)) l refl (d.down (index c) l)) [
                | inl res ↦ Ends-stop fuel h (h.mem (index c)) (cost + 1) (omega arith) res
                | inr (y, low) ↦
                    deref_loop-Ends fuel h (h.mem (index c)) (cost + 1) d
                      (λ _. (omega arith, omega arith)) (omega arith)
              ])
      ]
]

-- In a heap whose references lead down, dereferencing any cell whose address is in the heap returns a
-- resolved cell, at a cost between 1 and the size of the heap plus 2.
pub deref_with_cost-total :
    (h : Heap) (c : Cell)
    → RefsDescend h
    → (is_ref (tag c) ≡ true → index c < h.size)
    → (r : Cell) × (k : ℕ) × (deref_with_cost h c ≡ ok (r, k))
      × Resolved h r
      × (1 ≤ k)
      × (k ≤ h.size + 2)
unfolding deref_with_cost
deref_with_cost-total h c d b =
    let (r, k, e, lo, hi) =
      deref_loop-Ends (h.size + 2) h c 1 d (λ y. (b y, lt_fuel (b y))) (omega arith) in
    (r, k, e, deref_loop-Resolved (h.size + 2) h c 1 r k e, omega arith, omega arith)
  where
    lt_fuel : {i : ℕ} → i < h.size → i + 2 ≤ h.size + 2
    lt_fuel l = omega arith

-- Dereferencing what it returned changes nothing, and costs 1.
deref_with_cost_idem :
    (h : Heap) (c r : Cell) (k : ℕ)
    → deref_with_cost h c ≡ ok (r, k)
    → deref_with_cost h r ≡ ok (r, 1)
unfolding deref_with_cost
deref_with_cost_idem h c r k e =
    rw add-two (deref_loop-stop (suc h.size) h r 1 (deref_loop-Resolved (h.size + 2) h c 1 r k e))
