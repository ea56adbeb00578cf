-- ===== src/Tokenizer/Peeked.antt =====
-- peek_token and consume_token of common/term_tokenizer.cpp.
use mathlib.Core.Path.{subst}
use epilog.Prelude.{
  ℕ, suc, ◌<◌, ◌≡◌, refl, sym, ap, ◌∙◌, true, false, ◌==◌, inl, inr, Bool-cases, List, [], ◌∷◌,
  length, none,
}
use epilog.Prelude.Int.{ℤ}
use epilog.TokenChars.{is_digit, is_quote_char}
use epilog.Tokenizer.{
  Tokenizer, Scan, thrown, scanned, ◌>>=◌, TokenException, TokenType, eof_token, natural_number,
  name_token, string_token, next_char, set_token_type, is_unknown, peek_char,
}
use epilog.Tokenizer.Quoted.{next_quoted_name, set_quoted, next_string}
use epilog.Tokenizer.Next.{
  token_at, token_from, start_token, keep_line, next_token_helper, next_token, clear_token,
  peek_token, consume_token,
}
use epilog.Tokenizer.Eaten.{list_cases, set_token_type-Eaten}
use epilog.Tokenizer.Outcomes.{
  Reads, Reads-refl, Reads-trans, Eaten-Reads, next_char-Reads, Stops, by_throw, by_return, itself,
  Stops-from, Stops-if,
}
use epilog.Tokenizer.Quotes.{quoted_name_loop-Stops, string_loop-Stops}
use epilog.Tokenizer.Numbers.{next_number-Numeral, Numeral-Stops}
use epilog.Tokenizer.Tokens.{next_token-IsText}
use epilog.Tokenizer.Advance.{
  from_digit, from_single, from_double, next_token-from, or_first, or_second, double_quote,
}

-- Where an operation returns, the token has a type.
data Knows : Scan Tokenizer → Type 0 where
  knows_throw : {why : TokenException} {u : Tokenizer} → Knows (thrown why u)
  knows_return : {u : Tokenizer} → is_unknown u.current.type ≡ false → Knows (scanned u)

Stops-Knows :
    {t : Tokenizer} {r : Scan Tokenizer}
    → is_unknown t.current.type ≡ false
    → Stops itself t r
    → Knows (r >>= λ v. scanned (keep_line v))
unfolding keep_line
Stops-Knows h (by_throw b) = knows_throw
Stops-Knows h (by_return b) = knows_return (b.known h)

set_quoted-Reads : (t : Tokenizer) → Reads t (set_quoted t)
unfolding set_quoted
set_quoted-Reads t = record { text = []; input = refl; place = refl; known = λ h. h; line = refl }

next_quoted_name-Stops : (t : Tokenizer) → Stops itself t (next_quoted_name t)
unfolding next_quoted_name
next_quoted_name-Stops t =
    let u = set_quoted (set_token_type name_token (next_char t)) in
    Stops-from
      (Reads-trans (next_char-Reads t) (
        Reads-trans
          (Eaten-Reads (set_token_type-Eaten name_token (next_char t) (unfold is_unknown in refl)))
          (set_quoted-Reads _)))
      (quoted_name_loop-Stops (suc (length u.input)) u)

next_string-Stops : (t : Tokenizer) → Stops itself t (next_string t)
unfolding next_string
next_string-Stops t =
    Stops-if _ (λ h. by_return (Reads-refl t))
      λ h.
        Stops-from (next_char-Reads t)
          (string_loop-Stops (suc (length (next_char t).input)) (next_char t))

set_type-known :
    (tt : TokenType) (t : Tokenizer)
    → is_unknown tt ≡ false
    → is_unknown (set_token_type tt t).current.type ≡ false
unfolding set_token_type
set_type-known tt t h = h

eof_known : is_unknown eof_token ≡ false
unfolding is_unknown
eof_known = refl

-- The code of the next character, where there is one, is a byte.
unfoldable pub StartsWithByte : List ℕ → Type 0
StartsWithByte [] = Unit {0}
StartsWithByte (ch ∷ chs) = ch < 256

module _ (lexical_cast : ℤ → List ℕ) where
  quote-Knows :
      (ch : ℕ) (t : Tokenizer)
      → is_quote_char ch ≡ true
      → Knows (token_from lexical_cast ch t >>= λ v. scanned (keep_line v))
  quote-Knows ch t q = elim (Bool-cases (ch == b'\'')) [
    | inl y ↦ rw (from_single lexical_cast ch t y) (
        Stops-Knows (set_type-known name_token t (unfold is_unknown in refl))
          (next_quoted_name-Stops _))
    | inr n ↦
        let run =
          ap (λ x. token_from lexical_cast x t) (double_quote ch q n)
          ∙ from_double lexical_cast t in
        rw run (
          Stops-Knows (set_type-known string_token t (unfold is_unknown in refl))
            (next_string-Stops _))
  ]

  some-Knows :
      (ch : ℕ) (chs : List ℕ) (t : Tokenizer)
      → t.input ≡ ch ∷ chs
      → ch < 256
      → Knows (next_token lexical_cast t)
  some-Knows ch chs t e below = elim (Bool-cases (is_digit ch)) [
    | inl d ↦
        rw
          (
            next_token-from lexical_cast ch chs t e (or_first _ _ d),
            from_digit lexical_cast ch (start_token t) d,
          )
          (Stops-Knows (set_type-known natural_number (start_token t) (unfold is_unknown in refl))
            (Numeral-Stops (next_number-Numeral _)))
    | inr n ↦ elim (Bool-cases (is_quote_char ch)) [
      | inl q ↦
          rw (next_token-from lexical_cast ch chs t e (or_second _ _ q))
            (quote-Knows ch (start_token t) q)
      | inr q ↦
          let (u, run, its) = next_token-IsText lexical_cast ch chs t e below n q in
          rw run (knows_return its.known)
    ]
  ]

  eof-Knows : (t : Tokenizer) → t.input ≡ [] → Knows (next_token lexical_cast t)
  unfolding next_token next_token_helper token_at keep_line
  eof-Knows t e =
      let seen : peek_char (start_token t) ≡ none = unfold peek_char start_token in rw e refl in
      rw seen (knows_return (set_type-known eof_token (start_token t) eof_known))

  next_token-Knows : (t : Tokenizer) → StartsWithByte t.input → Knows (next_token lexical_cast t)
  unfolding StartsWithByte
  next_token-Knows t below = elim (list_cases t.input) [
    | inl e ↦ eof-Knows t e
    | inr (ch, chs, e) ↦ some-Knows ch chs t e (subst StartsWithByte e below)
  ]

  peek_again : {r : Scan Tokenizer} → Knows r → (r >>= peek_token lexical_cast) ≡ r
  unfolding peek_token
  peek_again knows_throw = refl
  peek_again (knows_return {u} h) = rw h refl

  peek_token-peek_token :
      (t : Tokenizer)
      → StartsWithByte t.input
      → (peek_token lexical_cast t >>= peek_token lexical_cast) ≡ peek_token lexical_cast t
  unfolding peek_token
  peek_token-peek_token t below = elim (Bool-cases (is_unknown t.current.type)) [
    | inl y ↦ rw y (peek_again (next_token-Knows t below))
    | inr n ↦ rw n (rw n refl)
  ]

  -- Where the input is at its end or goes on with a byte, and peek_token returns, looking at the token again changes
  -- nothing: the next peek_token returns the same token and reads nothing, and consume_token takes that token. What the
  -- calls behind an exception do is left open.
  pub peek_token_idem :
      (t u : Tokenizer)
      → StartsWithByte t.input
      → peek_token lexical_cast t ≡ scanned u
      → (peek_token lexical_cast u ≡ scanned u)
        × (consume_token lexical_cast u ≡ consume_token lexical_cast t)
  unfolding consume_token
  peek_token_idem t u below e =
      let again : peek_token lexical_cast u ≡ scanned u =
        ap (λ r. r >>= peek_token lexical_cast) (sym e) ∙ peek_token-peek_token t below ∙ e in
      (again, ap (λ r. r >>= λ v. scanned (clear_token v)) (again ∙ sym e))
