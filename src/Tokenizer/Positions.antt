-- ===== src/Tokenizer/Positions.antt =====
-- The positions of common/term_tokenizer.hpp: the line that is counted.
use mathlib.Core.Path.{subst}
use epilog.Prelude.{
  ℕ, ◌+◌, ◌-◌, ◌*◌, ◌/◌, ◌<◌, ltb, ◌≡◌, refl, sym, ap, Bool, true, false, ◌||◌, not, ◌==◌, inl, inr,
  Bool-cases, if◌then◌else◌, List, [], ◌∷◌, some, arith,
}
use epilog.Prelude.Int.{ℤ, pos, ◌+ℤ◌, ◌-ℤ◌}
use epilog.TokenChars.{is_layout_char, is_digit, is_quote_char}
use epilog.Tokenizer.{
  Tokenizer, scanned, TokenPosition, next_column, prev_column, new_line, next_tab, update_position,
}
use epilog.Tokenizer.Next.{next_token}
use epilog.Tokenizer.Eaten.{moves}
use epilog.Tokenizer.Tokens.{next_token-IsText}

-- How many newlines a text has.
unfoldable pub newlines : List ℕ → ℕ
newlines [] = 0
newlines (ch ∷ s) = (if ch == b'\n' then 1 else 0) + newlines s

-- A position that is set, on the line with this number.
pub record OnLine (l : ℕ) (p : TokenPosition) : Type 0 where
  pub column : ℕ
  pub same : p ≡ record { line = pos l; column = pos column }

abbrev place : ℕ → ℤ → TokenPosition
place l column = record { line = pos l; column = column }

plus_one : (n : ℕ) → (pos n +ℤ pos 1) ≡ pos (n + 1)
unfolding ◌+ℤ◌
plus_one n = ground arith

minus_one : (n : ℕ) → 0 < n → (pos n -ℤ pos 1) ≡ pos (n - 1)
unfolding ◌-ℤ◌
minus_one n h = ground arith

newline_skips : (ch : ℕ) → (ch == b'\n') ≡ true → ch == b' ' || not (is_layout_char ch) ≡ false
unfolding is_layout_char
newline_skips ch y = ground (arith, y)

OnLine-if :
    (b : Bool) {l : ℕ} {p q : TokenPosition}
    → OnLine l p
    → OnLine l q
    → OnLine l (if b then p else q)
OnLine-if true o o' = o
OnLine-if false o o' = o'

module _ (l : ℕ) (p : TokenPosition) (o : OnLine l p) where
  next_column-OnLine : OnLine l (next_column p)
  unfolding next_column
  next_column-OnLine = record {
    column = o.column + 1;
    same = rw o.same (ap (place l) (plus_one o.column));
  }

  prev_column-OnLine : OnLine l (prev_column p)
  unfolding prev_column
  prev_column-OnLine = elim (Bool-cases (ltb (0 + 0) (o.column + 0))) [
    | inl y ↦
        let above : 0 < o.column = ground (arith, y) in
        record {
          column = o.column - 1;
          same = rw (o.same, y) (ap (place l) (minus_one o.column above));
        }
    | inr n ↦ record { column = o.column; same = rw (o.same, n) refl }
  ]

  new_line-OnLine : OnLine (l + 1) (new_line p)
  unfolding new_line
  new_line-OnLine = record {
    column = 1;
    same = rw o.same (ap (λ k. record { line = k; column = pos 1 }) (plus_one l));
  }

  next_tab-OnLine : OnLine l (next_tab p)
  unfolding next_tab
  next_tab-OnLine = record { column = (o.column / 8 + 1) * 8; same = rw o.same refl }

  update_position-OnLine :
      (ch : ℕ) → OnLine ((if ch == b'\n' then 1 else 0) + l) (update_position (some ch) p)
  unfolding update_position
  update_position-OnLine ch = elim (Bool-cases (ch == b'\n')) [
    | inl y ↦
        let added : 1 + l ≡ l + 1 = omega arith in
        let skips : ch == b' ' || not (is_layout_char ch) ≡ false = newline_skips ch y in
        rw (y, skips, added) new_line-OnLine
    | inr n ↦
        let added : 0 + l ≡ l = omega arith in
        rw (n, added)
          (OnLine-if (ch == b' ' || not (is_layout_char ch)) next_column-OnLine (
            OnLine-if (ch == 8 || ch == 127) prev_column-OnLine
              (OnLine-if (ch == b'\t') next_tab-OnLine next_column-OnLine)))
  ]

-- Over a text, a position that is set moves on by as many lines as the text has newlines.
pub moves-OnLine :
    (s : List ℕ) (l : ℕ) (p : TokenPosition) → OnLine l p → OnLine (newlines s + l) (moves s p)
unfolding newlines moves
moves-OnLine [] l p o = let none_added : 0 + l ≡ l = omega arith in rw none_added o
moves-OnLine (ch ∷ s) l p o =
    let here = if ch == b'\n' then 1 else 0 in
    let sum : here + newlines s + l ≡ newlines s + (here + l) = omega arith in
    rw sum
      (moves-OnLine s (here + l) (update_position (some ch) p) (update_position-OnLine l p o ch))

-- Where the position is on a line, a token that starts neither with a quote nor with a digit stands on that line,
-- and behind it the position is on the line that lies as many lines further as the lexeme has newlines.
pub next_token-OnLine :
    (lexical_cast : ℤ → List ℕ) (ch : ℕ) (chs : List ℕ) (t : Tokenizer) (l : ℕ)
    → t.input ≡ ch ∷ chs
    → ch < 256
    → is_digit ch ≡ false
    → is_quote_char ch ≡ false
    → OnLine l t.position
    → (u : Tokenizer) × (next_token lexical_cast t ≡ scanned u)
      × OnLine l u.current.position
      × OnLine (newlines u.current.lexeme + l) u.position
next_token-OnLine lexical_cast ch chs t l e below d q o =
    let (u, run, its) = next_token-IsText lexical_cast ch chs t e below d q in
    (
      u,
      run,
      subst (OnLine l) (sym its.place) o,
      subst (OnLine (newlines u.current.lexeme + l)) (sym its.moved)
          (moves-OnLine u.current.lexeme l t.position o),
    )
