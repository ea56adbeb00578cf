-- ===== src/Tokenizer/Words.antt =====
-- Words and variables of common/term_tokenizer.cpp: next_xs reads the longest run of characters that pass its test.
use mathlib.Core.List.{append_assoc, append-nil}
use epilog.Prelude.{
  ℕ, zero, suc, ◌+◌, ◌≤◌, ◌≡◌, refl, sym, ap, ◌∙◌, Bool, true, false, ◌||◌, ◌==◌, inl, inr,
  Bool-cases, if◌then◌else◌, List, [], ◌∷◌, ◌++◌, length, arith,
}
use epilog.Prelude.Int.{ℤ}
use epilog.TokenChars.{is_alpha, is_digit, is_small_letter, is_capital_letter, is_underline_char}
use epilog.Tokenizer.{
  Tokenizer, scanned, TokenType, name_token, variable_token, peek_is, consume_next_char,
  set_token_type,
}
use epilog.Tokenizer.Text.{next_xs_loop, next_xs}
use epilog.Tokenizer.Next.{token_from, start_token, keep_line, next_token}
use epilog.Tokenizer.Eaten.{peek_is-input, list_cases}
use epilog.Tokenizer.Tokens.{next_token_helper-some}
use epilog.Tokenizer.Advance.{no_comment}

unfoldable pub take_while : (ℕ → Bool) → List ℕ → List ℕ
take_while p [] = []
take_while p (ch ∷ s) = if p ch then ch ∷ take_while p s else []

unfoldable pub drop_while : (ℕ → Bool) → List ℕ → List ℕ
drop_while p [] = []
drop_while p (ch ∷ s) = if p ch then drop_while p s else ch ∷ s

-- The longest run has been read, counted and added to the lexeme.
pub record IsRun (p : ℕ → Bool) (cnt : ℕ) (t : Tokenizer) (r : ℕ × Tokenizer) : Type 0 where
  pub count : r.0 ≡ cnt + length (take_while p t.input)
  pub lexeme : r.1.current.lexeme ≡ t.current.lexeme ++ take_while p t.input
  pub left : r.1.input ≡ drop_while p t.input
  pub type : r.1.current.type ≡ t.current.type

IsRun-stop :
    (p : ℕ → Bool) (cnt : ℕ) (t : Tokenizer)
    → take_while p t.input ≡ []
    → drop_while p t.input ≡ t.input
    → IsRun p cnt t (cnt, t)
IsRun-stop p cnt t e d = record {
  count = omega (arith, ap length e);
  lexeme = sym (ap (λ s. t.current.lexeme ++ s) e ∙ append-nil t.current.lexeme);
  left = sym d;
  type = refl;
}

consumed :
    (ch : ℕ) (chs : List ℕ) (t : Tokenizer)
    → t.input ≡ ch ∷ chs
    → ((consume_next_char t).input ≡ chs)
      × ((consume_next_char t).current.lexeme ≡ t.current.lexeme ++ (ch ∷ []))
      × ((consume_next_char t).current.type ≡ t.current.type)
unfolding consume_next_char
consumed ch chs t e = (rw e refl, rw e refl, rw e refl)

IsRun-step :
    (p : ℕ → Bool) (cnt ch : ℕ) (chs : List ℕ) (t : Tokenizer) {r : ℕ × Tokenizer}
    → t.input ≡ ch ∷ chs
    → p ch ≡ true
    → IsRun p (cnt + 1) (consume_next_char t) r
    → IsRun p cnt t r
unfolding take_while drop_while
IsRun-step p cnt ch chs t e y run =
    let (input, lexeme, type) = consumed ch chs t e in
    let taken : take_while p t.input ≡ ch ∷ take_while p chs = rw (e, y) refl in
    let dropped : drop_while p t.input ≡ drop_while p chs = rw (e, y) refl in
    let inner = ap (take_while p) input in
    record {
      count = omega (arith, run.count, ap length taken, ap length inner);
      lexeme =
          run.lexeme
          ∙ rw (lexeme, inner, taken) (append_assoc t.current.lexeme (ch ∷ []) (take_while p chs));
      left = run.left ∙ ap (drop_while p) input ∙ sym dropped;
      type = run.type ∙ type;
    }

IsRun-empty : (p : ℕ → Bool) (cnt : ℕ) (t : Tokenizer) → t.input ≡ [] → IsRun p cnt t (cnt, t)
unfolding take_while drop_while
IsRun-empty p cnt t e = IsRun-stop p cnt t (ap (take_while p) e) (ap (drop_while p) e ∙ sym e)

IsRun-other :
    (p : ℕ → Bool) (cnt ch : ℕ) (chs : List ℕ) (t : Tokenizer)
    → t.input ≡ ch ∷ chs
    → p ch ≡ false
    → IsRun p cnt t (cnt, t)
unfolding take_while drop_while
IsRun-other p cnt ch chs t e n =
    let stays : drop_while p (ch ∷ chs) ≡ ch ∷ chs = rw n refl in
    IsRun-stop p cnt t (ap (take_while p) e ∙ rw n refl) (ap (drop_while p) e ∙ stays ∙ sym e)

next_xs_loop_lem :
    (rounds : ℕ) (p : ℕ → Bool) (cnt : ℕ) (t : Tokenizer)
    → length t.input ≤ rounds
    → IsRun p cnt t (next_xs_loop rounds p cnt t)
unfolding next_xs_loop
next_xs_loop_lem zero p cnt t h = elim (list_cases t.input) [
  | inl e ↦ IsRun-empty p cnt t e
  | inr (ch, chs, e) ↦ absurd (omega (arith, ap length e))
]
next_xs_loop_lem (suc rounds) p cnt t h = elim (list_cases t.input) [
  | inl e ↦
      let nothing : peek_is p t ≡ false = unfold peek_is in rw (peek_is, e) refl in
      rw nothing (IsRun-empty p cnt t e)
  | inr (ch, chs, e) ↦
      let seen = peek_is-input p ch chs t e in
      elim (Bool-cases (p ch)) [
        | inl y ↦
            let fewer : length (consume_next_char t).input ≤ rounds =
              omega (arith, ap length e, ap length (consumed ch chs t e).0, h) in
            rw (seen ∙ y) (
              IsRun-step p cnt ch chs t e y
                (next_xs_loop_lem rounds p (cnt + 1) (consume_next_char t) fewer))
        | inr n ↦ rw (seen ∙ n) (IsRun-other p cnt ch chs t e n)
      ]
]

next_xs_lem : (p : ℕ → Bool) (t : Tokenizer) → IsRun p 0 t (next_xs p t)
unfolding next_xs
next_xs_lem p t = next_xs_loop_lem (length t.input) p 0 t (omega arith)

-- The type of a token that starts with a letter or an underline.
unfoldable pub letter_type : ℕ → TokenType
letter_type ch = if is_small_letter ch then name_token else variable_token

from_letter :
    (lexical_cast : ℤ → List ℕ) (ch : ℕ) (t : Tokenizer)
    → is_digit ch ≡ false
    → (ch == b'\'') ≡ false
    → is_small_letter ch || (is_capital_letter ch || is_underline_char ch) ≡ true
    → token_from lexical_cast ch t
      ≡ scanned (next_xs is_alpha (set_token_type (letter_type ch) t)).1
unfolding token_from letter_type next_xs
from_letter lexical_cast ch t d q h = elim (Bool-cases (is_small_letter ch)) [
  | inl y ↦ rw (d, q, y) refl
  | inr n ↦
      let other : is_capital_letter ch || is_underline_char ch ≡ true = ground (arith, h, n) in
      rw (d, q, n, other) refl
]

no_other :
    (ch : ℕ)
    → is_small_letter ch || (is_capital_letter ch || is_underline_char ch) ≡ true
    → (is_digit ch ≡ false)
      × ((ch == b'\'') ≡ false)
      × ((ch == b'%') ≡ false)
      × ((ch == b'/') ≡ false)
unfolding is_small_letter is_capital_letter is_underline_char is_digit
no_other ch h = (ground (arith, h), ground (arith, h), ground (arith, h), ground (arith, h))

module _ (lexical_cast : ℤ → List ℕ) (ch : ℕ) (chs : List ℕ) (t : Tokenizer)
    (e : t.input ≡ ch ∷ chs) where
  -- Where a letter or an underline is next, next_token finds a name or a variable: its lexeme is the longest run
  -- of letters, digits and underlines at the start of the input, and what stands behind it is left.
  pub next_token-letter :
      is_small_letter ch || (is_capital_letter ch || is_underline_char ch) ≡ true
      → (u : Tokenizer) × (next_token lexical_cast t ≡ scanned u)
        × (u.current.type ≡ letter_type ch)
        × (u.current.lexeme ≡ take_while is_alpha t.input)
        × (u.input ≡ drop_while is_alpha t.input)
  unfolding next_token keep_line
  next_token-letter h =
      let started : (start_token t).input ≡ ch ∷ chs = unfold start_token in e in
      let (d, q, c, s) = no_other ch h in
      let n = no_comment ch chs (start_token t) started c s in
      let v = set_token_type (letter_type ch) (start_token t) in
      let run = next_xs_lem is_alpha v in
      let same : v.input ≡ t.input = unfold set_token_type start_token in refl in
      (
        keep_line (next_xs is_alpha v).1,
        rw
            (
              next_token_helper-some lexical_cast ch chs t e,
              n,
              from_letter lexical_cast ch (start_token t) d q h,
            )
            refl,
        unfold set_token_type in run.type,
        run.lexeme ∙ unfold set_token_type start_token in refl,
        run.left ∙ ap (drop_while is_alpha) same,
      )
