-- ===== src/Tokenizer/NumberTokens.antt =====
-- next_token of common/term_tokenizer.cpp on a number.
use epilog.Prelude.{ℕ, ◌≡◌, refl, ◌∙◌, true, List, ◌∷◌}
use epilog.Prelude.Int.{ℤ}
use epilog.TokenChars.{is_digit}
use epilog.Tokenizer.{
  Tokenizer, Scan, thrown, scanned, ◌>>=◌, TokenException, natural_number, set_token_type,
  is_unknown,
}
use epilog.Tokenizer.Number.{signed_char}
use epilog.Tokenizer.Next.{start_token, keep_line, next_token}
use epilog.Tokenizer.Eaten.{peek_is-input}
use epilog.Tokenizer.Progress.{EatenSome, EatenSome-trans}
use epilog.Tokenizer.Numbers.{Numeral, failed, as_text, as_code, number_tail-Numeral}
use epilog.Tokenizer.Tokens.{IsText, Eaten-IsText}
use epilog.Tokenizer.Advance.{number_start, from_digit, next_token-from, or_first}

-- A number is its own text or the decimal form of a character's code; it may also be malformed.
pub data IsNumber (lexical_cast : ℤ → List ℕ) (t : Tokenizer) : Scan Tokenizer → Type 0 where
  malformed : {why : TokenException} {u : Tokenizer} → IsNumber lexical_cast t (thrown why u)
  number_text : {u : Tokenizer} → IsText t u → IsNumber lexical_cast t (scanned u)
  number_code :
      {u : Tokenizer} (c : ℕ)
      → u.current.lexeme ≡ lexical_cast (signed_char c)
      → IsNumber lexical_cast t (scanned u)

module _ (lexical_cast : ℤ → List ℕ) (t : Tokenizer) where
  tail-IsNumber :
      {u : Tokenizer} {r : Scan Tokenizer}
      → EatenSome (set_token_type natural_number (start_token t)) u
      → Numeral lexical_cast u r
      → IsNumber lexical_cast t (r >>= λ v. scanned (keep_line v))
  unfolding keep_line
  tail-IsNumber s (failed b) = malformed
  tail-IsNumber s (as_text b) =
      number_text (Eaten-IsText natural_number (unfold is_unknown in refl) (EatenSome-trans s b))
  tail-IsNumber s (as_code c b e) = number_code c e

  -- A token that starts with a digit and is found is the part of the input that has been read, or else the
  -- decimal form of the code of a character, as a signed char.
  next_token-IsNumber :
      (ch : ℕ) (chs : List ℕ)
      → t.input ≡ ch ∷ chs
      → is_digit ch ≡ true
      → IsNumber lexical_cast t (next_token lexical_cast t)
  next_token-IsNumber ch chs e d =
      let v = set_token_type natural_number (start_token t) in
      let same : v.input ≡ t.input = unfold set_token_type start_token in refl in
      let at_digit = peek_is-input is_digit ch chs v (same ∙ e) ∙ d in
      let (u, run, s) = number_start lexical_cast v at_digit in
      rw
        (
          next_token-from lexical_cast ch chs t e (or_first _ _ d),
          from_digit lexical_cast ch (start_token t) d,
          run,
        )
        (tail-IsNumber s (number_tail-Numeral u))
