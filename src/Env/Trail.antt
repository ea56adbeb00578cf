-- ===== src/Env/Trail.antt =====
-- stacks_dock::tidy_trail of common/term_env.hpp: which entries of the trail it keeps.
use mathlib.Core.List.{append_assoc, append-nil}
use epilog.Prelude.{
  ℕ, zero, suc, ◌+◌, ◌-◌, ◌≤◌, ◌≡◌, refl, sym, ap, ◌∙◌, true, false, ◌⊎◌, inl, inr, Bool-cases, ltb,
  ◌==◌, if◌then◌else◌, List, [], ◌∷◌, ◌++◌, length, length-append, set, take, take-append, arith,
}
use epilog.Env.{Env, trail_get, tidy_loop, tidy_trail}

-- How often an entry stands in a trail.
unfoldable pub count : ℕ → List ℕ → ℕ
count k [] = 0
count k (x ∷ xs) = (if k == x then 1 else 0) + count k xs

pub count-append : (k : ℕ) (xs ys : List ℕ) → count k (xs ++ ys) ≡ count k xs + count k ys
unfolding count
count-append k [] ys = omega arith
count-append k (x ∷ xs) ys = omega (arith, count-append k xs ys)

trail_get-append : (xs : List ℕ) (y : ℕ) (ys : List ℕ) → trail_get (xs ++ (y ∷ ys)) (length xs) ≡ y
unfolding trail_get
trail_get-append [] y ys = refl
trail_get-append (x ∷ xs) y ys = trail_get-append xs y ys

set-append :
    (xs : List ℕ) (y : ℕ) (ys : List ℕ) (v : ℕ)
    → set (xs ++ (y ∷ ys)) (length xs) v ≡ xs ++ (v ∷ ys)
set-append [] y ys v = refl
set-append (x ∷ xs) y ys v = ap (λ (zs : List ℕ). x ∷ zs) (set-append xs y ys v)

-- A list is empty or has a last element.
last_cases : (xs : List ℕ) → (xs ≡ []) ⊎ (ys : List ℕ) × (z : ℕ) × (xs ≡ ys ++ (z ∷ []))
last_cases [] = inl refl
last_cases (x ∷ xs) = inr (elim (last_cases xs) [
  | inl e ↦ ([], x, ap (λ (zs : List ℕ). x ∷ zs) e)
  | inr (ys, z, e) ↦ (x ∷ ys, z, ap (λ (zs : List ℕ). x ∷ zs) e)
])

-- What stands below the end is the part before the loop, and of the rest the entries below HB.
pub record IsTidied (hb : ℕ) (pre mid : List ℕ) (r : List ℕ × ℕ) : Type 0 where
  pub kept : List ℕ
  pub below_end : take r.1 r.0 ≡ pre ++ kept
  pub counted : (k : ℕ) → count k kept ≡ (if ltb k hb then count k mid else 0)

IsTidied-empty :
    (hb : ℕ) (pre post ks : List ℕ) (to : ℕ)
    → ks ≡ pre ++ post
    → to ≡ length pre
    → IsTidied hb pre [] (ks, to)
unfolding count
IsTidied-empty hb pre post ks to e t = record {
  kept = [];
  below_end = rw (e, t, take-append pre post) (at_end pre);
  counted = λ k. ground arith;
}
  where
    at_end : (ks : List ℕ) → ks ≡ ks ++ []
    at_end [] = refl
    at_end (k ∷ ks) = ap (λ (xs : List ℕ). k ∷ xs) (at_end ks)

IsTidied-stay :
    (hb : ℕ) (pre : List ℕ) (x : ℕ) (mid : List ℕ) (r : List ℕ × ℕ)
    → ltb x hb ≡ true
    → IsTidied hb (pre ++ (x ∷ [])) mid r
    → IsTidied hb pre (x ∷ mid) r
unfolding count
IsTidied-stay hb pre x mid r l t = record {
  kept = x ∷ t.kept;
  below_end = t.below_end ∙ append_assoc pre (x ∷ []) t.kept;
  counted = λ k. counted k (t.counted k);
}
  where
    counted :
        (k : ℕ)
        → count k t.kept ≡ (if ltb k hb then count k mid else 0)
        → count k (x ∷ t.kept) ≡ (if ltb k hb then count k (x ∷ mid) else 0)
    counted k e = ground (arith, e, l)

-- The last entry takes the place of the first.
IsTidied-drop :
    (hb : ℕ) (pre : List ℕ) (x z : ℕ) (ys : List ℕ) (r : List ℕ × ℕ)
    → ltb x hb ≡ false
    → IsTidied hb pre (z ∷ ys) r
    → IsTidied hb pre (x ∷ (ys ++ (z ∷ []))) r
unfolding count
IsTidied-drop hb pre x z ys r n t = record {
  kept = t.kept;
  below_end = t.below_end;
  counted = λ k. counted k (t.counted k) (count-append k ys (z ∷ []));
}
  where
    counted :
        (k : ℕ)
        → count k t.kept ≡ (if ltb k hb then count k (z ∷ ys) else 0)
        → count k (ys ++ (z ∷ [])) ≡ count k ys + count k (z ∷ [])
        → count k t.kept ≡ (if ltb k hb then count k (x ∷ (ys ++ (z ∷ []))) else 0)
    counted k e f = ground (arith, e, f, n)

IsTidied-drop_last :
    (hb : ℕ) (pre : List ℕ) (x : ℕ) (r : List ℕ × ℕ)
    → ltb x hb ≡ false
    → IsTidied hb pre [] r
    → IsTidied hb pre (x ∷ []) r
unfolding count
IsTidied-drop_last hb pre x r n t = record {
  kept = t.kept;
  below_end = t.below_end;
  counted = λ k. counted k (t.counted k);
}
  where
    counted :
        (k : ℕ)
        → count k t.kept ≡ (if ltb k hb then count k [] else 0)
        → count k t.kept ≡ (if ltb k hb then count k (x ∷ []) else 0)
    counted k e = ground (arith, e, n)

-- What the loop writes over the first entry: itself if it is the last one, and else the last one.
only_one :
    (pre post ks : List ℕ) (x i to : ℕ)
    → ks ≡ pre ++ (x ∷ post)
    → i ≡ length pre
    → to ≡ i + 1
    → set ks i (trail_get ks (to - 1)) ≡ pre ++ (x ∷ post)
only_one pre post ks x i to e ei et =
    let same : to - 1 ≡ i = omega (arith, et) in
    rw (same, e, ei, trail_get-append pre x post) (set-append pre x post x)

last_first :
    (pre ys post ks : List ℕ) (x z i to : ℕ)
    → ks ≡ pre ++ (x ∷ ((ys ++ (z ∷ [])) ++ post))
    → i ≡ length pre
    → to ≡ i + suc (length (ys ++ (z ∷ [])))
    → set ks i (trail_get ks (to - 1)) ≡ pre ++ (z ∷ (ys ++ (z ∷ post)))
last_first pre ys post ks x z i to e ei et =
    let end : to - 1 ≡ length (pre ++ (x ∷ ys)) =
      omega (arith, ei, et, length-append ys (z ∷ []), length-append pre (x ∷ ys)) in
    let e1 : ks ≡ pre ++ (x ∷ (ys ++ (z ∷ post))) =
      e ∙ ap (λ (zs : List ℕ). pre ++ (x ∷ zs)) (append_assoc ys (z ∷ []) post) in
    let e2 : ks ≡ (pre ++ (x ∷ ys)) ++ (z ∷ post) =
      e1 ∙ sym (append_assoc pre (x ∷ ys) (z ∷ post)) in
    let last : trail_get ks (to - 1) ≡ z =
      rw (end, e2) (trail_get-append (pre ++ (x ∷ ys)) z post) in
    rw last (rw (e1, ei) (set-append pre x (ys ++ (z ∷ post)) z))

tidy_loop-IsTidied :
    (rounds hb : ℕ) (pre mid post : List ℕ) (ks : List ℕ) (i to : ℕ)
    → ks ≡ pre ++ (mid ++ post)
    → i ≡ length pre
    → to ≡ i + length mid
    → length mid ≤ rounds
    → IsTidied hb pre mid (tidy_loop rounds hb ks i to)
unfolding tidy_loop
tidy_loop-IsTidied zero hb pre [] post ks i to e ei et l =
    IsTidied-empty hb pre post ks to e (omega (arith, ei, et))
tidy_loop-IsTidied zero hb pre (x ∷ mid) post ks i to e ei et l = absurd (omega (arith, l))
tidy_loop-IsTidied (suc rounds) hb pre [] post ks i to e ei et l =
    rw (stop i to (omega (arith, et))) (IsTidied-empty hb pre post ks to e (omega (arith, ei, et)))
  where
    stop : (i to : ℕ) → to ≡ i → ltb i to ≡ false
    stop i to h = ground arith
tidy_loop-IsTidied (suc rounds) hb pre (x ∷ mid) post ks i to e ei et l =
    let on : ltb i to ≡ true = go_on i to (length mid) et in
    let at : trail_get ks i ≡ x = rw (e, ei) (trail_get-append pre x (mid ++ post)) in
    elim (Bool-cases (ltb x hb)) [
      | inl y ↦
          rw (on, at, y)
            (IsTidied-stay hb pre x mid _ y (
              tidy_loop-IsTidied rounds hb (pre ++ (x ∷ [])) mid post ks (i + 1) to
                (e ∙ sym (append_assoc pre (x ∷ []) (mid ++ post)))
                (omega (arith, ei, length-append pre (x ∷ []))) (omega (arith, et))
                (omega (arith, l))))
      | inr n ↦
          rw (on, at, n)
            (elim (last_cases mid) [
              | inl m ↦ rw m (
                  IsTidied-drop_last hb pre x _ n (
                    tidy_loop-IsTidied rounds hb pre [] (x ∷ post)
                      (set ks i (trail_get ks (to - 1))) i (to - 1)
                      (only_one pre post ks x i to (rw m at e) ei (rw m at et)) ei
                      (omega (arith, rw m at et)) (omega arith)))
              | inr (ys, z, m) ↦ rw m (
                  IsTidied-drop hb pre x z ys _ n (
                    tidy_loop-IsTidied rounds hb pre (z ∷ ys) (z ∷ post)
                      (set ks i (trail_get ks (to - 1))) i (to - 1)
                      (last_first pre ys post ks x z i to (rw m at e) ei (rw m at et)) ei
                      (omega (arith, rw m at et, length-append ys (z ∷ [])))
                      (omega (arith, l, rw m at l, length-append ys (z ∷ [])))))
            ])
    ]
  where
    go_on : (i to n : ℕ) → to ≡ i + suc n → ltb i to ≡ true
    go_on i to n h = ground arith

-- After tidy_trail, of the trail's entries from `length base` on those below HB are left, as often as
-- they stood there, in some order, and the older ones are untouched.
pub tidy_trail-IsTidied :
    (e : Env) (base added : List ℕ)
    → e.trail ≡ base ++ added
    → (kept : List ℕ) × ((tidy_trail e (length base) (length e.trail)).trail ≡ base ++ kept)
      × ((k : ℕ) → count k kept ≡ (if ltb k e.register_hb then count k added else 0))
unfolding tidy_trail
tidy_trail-IsTidied e base added h =
    let long = length-append base added in
    let all : length e.trail ≡ length base + length added = ap length h ∙ long in
    let at_end : added ≡ added ++ [] = sym (append-nil added) in
    let t =
      tidy_loop-IsTidied (length e.trail - length base) e.register_hb base added [] e.trail
        (length base) (length e.trail) (h ∙ ap (λ (zs : List ℕ). base ++ zs) at_end) refl all
        (omega (arith, all)) in
    (t.kept, t.below_end, t.counted)
