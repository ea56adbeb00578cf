-- ===== src/Env/Examples.antt =====
-- The theorem on the trail at a small trail.
use epilog.Prelude.{ℕ, ◌≡◌, refl, if◌then◌else◌, ltb, List, [], ◌∷◌, ◌++◌}
use epilog.Heap.{empty}
use epilog.Env.{Env, tidy_trail}
use epilog.Env.Trail.{count, tidy_trail-IsTidied}

-- A trail of one old entry and of entries on either side of HB.
abbrev env : Env
env = record {
  heap = empty;
  stack = [];
  trail = 9 ∷ 3 ∷ 8 ∷ 1 ∷ 7 ∷ [];
  temp_trail = [];
  register_hb = 4;
}

tidy_trail-IsTidied_example :
    (kept : List ℕ) × ((tidy_trail env 1 5).trail ≡ (9 ∷ []) ++ kept)
    × ((k : ℕ) → count k kept ≡ (if ltb k 4 then count k (3 ∷ 8 ∷ 1 ∷ 7 ∷ []) else 0))
tidy_trail-IsTidied_example = tidy_trail-IsTidied env (9 ∷ []) (3 ∷ 8 ∷ 1 ∷ 7 ∷ []) refl
