-- ===== src/Term/Cell/Laws.antt =====
-- Laws of the cell words of common/term.hpp.
use epilog.Prelude.{
  ℕ, ◌+◌, ◌*◌, ◌%◌, ◌^◌, ◌<◌, ◌≡◌, refl, sym, ap, ◌∙◌, ==_iff, ◌⊎◌, inl, inr, true, arith,
}
use epilog.Term.Cell.{
  Tag, ref, rfw, int, big, con, str, dat, fwd, tag_code, tag_of, Cell, tag, same_tag, is_ref, value,
  cell, set_value,
}

tag_of-tag_code : (t : Tag) → tag_of (tag_code t) ≡ t
tag_of-tag_code ref = refl
tag_of-tag_code rfw = refl
tag_of-tag_code int = refl
tag_of-tag_code big = refl
tag_of-tag_code con = refl
tag_of-tag_code str = refl
tag_of-tag_code dat = refl
tag_of-tag_code fwd = refl

tag_code-lt : (t : Tag) → tag_code t < 8
tag_code-lt ref = omega arith
tag_code-lt rfw = omega arith
tag_code-lt int = omega arith
tag_code-lt big = omega arith
tag_code-lt con = omega arith
tag_code-lt str = omega arith
tag_code-lt dat = omega arith
tag_code-lt fwd = omega arith

-- A cell has the tag and the value that it is built with, if the value fits its 61 bits, and it is
-- a 64-bit word.
pub cell_parts :
    (t : Tag) (v : ℕ)
    → v < 2 ^ 61
    → (tag (cell t v) ≡ t) × (value (cell t v) ≡ v) × (cell t v < 2 ^ 64)
unfolding tag cell value
cell_parts t v h =
    let low : ((v * 8) % 2 ^ 64 + tag_code t) % 8 ≡ tag_code t = omega (arith, tag_code-lt t) in
    (rw low (tag_of-tag_code t), omega (arith, tag_code-lt t), omega (arith, tag_code-lt t))

-- The tag needs no bound on the value.
pub tag-cell : (t : Tag) (v : ℕ) → tag (cell t v) ≡ t
unfolding tag cell
tag-cell t v =
    let low : ((v * 8) % 2 ^ 64 + tag_code t) % 8 ≡ tag_code t = omega (arith, tag_code-lt t) in
    rw low (tag_of-tag_code t)

tag_code-tag_of : (k : ℕ) → k < 8 → tag_code (tag_of k) ≡ k
tag_code-tag_of k h = ground arith

pub tag_code-tag : (c : Cell) → tag_code (tag c) ≡ c % 8
unfolding tag
tag_code-tag c = tag_code-tag_of (c % 8) (omega arith)

-- A 64-bit word is the cell of its tag and its value.
pub cell-tag-value : (c : Cell) → c < 2 ^ 64 → cell (tag c) (value c) ≡ c
unfolding cell value
cell-tag-value c h = rw (tag_code-tag c) (omega arith)

-- `is_ref` holds of the two kinds of reference, and of no other.
pub is_ref-cases : (t : Tag) → is_ref t ≡ true → (t ≡ ref) ⊎ (t ≡ rfw)
unfolding is_ref
is_ref-cases ref h = inl refl
is_ref-cases rfw h = inr refl
is_ref-cases _ h = cc

-- Setting the value of a cell keeps its tag.
pub set_value-cell : (t : Tag) (v w : ℕ) → set_value (cell t v) w ≡ cell t w
unfolding set_value cell
set_value-cell t v w =
    let low : ((v * 8) % 2 ^ 64 + tag_code t) % 8 ≡ tag_code t = omega (arith, tag_code-lt t) in
    rw low refl

-- The test of two tags decides their equality.
pub eq_of_same_tag : (s t : Tag) → same_tag s t ≡ true → s ≡ t
unfolding same_tag
eq_of_same_tag s t h =
    let e : tag_code s ≡ tag_code t = (==_iff (tag_code s) (tag_code t)).0 h in
    sym (tag_of-tag_code s) ∙ ap tag_of e ∙ tag_of-tag_code t

pub same_tag_refl : (t : Tag) → same_tag t t ≡ true
unfolding same_tag
same_tag_refl t = (==_iff (tag_code t) (tag_code t)).1 refl
