-- ===== src/Tokenizer/Number.antt =====
-- Numbers and character codes of common/term_tokenizer.cpp. Boost's lexical_cast of an int to a string is a
-- parameter.
use epilog.Prelude.{ℕ, ◌-◌, Bool, false, ◌&&◌, ◌||◌, not, ltb, ◌==◌, if◌then◌else◌, List, [], ◌∷◌}
use epilog.Prelude.Int.{ℤ, pos, negsuc}
use epilog.TokenChars.{is_layout_char}
use epilog.Tokenizer.{
  Tokenizer, Scan, scanned, ◌>>=◌, throw_token, reset, peek_is, second_is, is_eof, next_char,
  consume_next_char, set_lexeme, set_token_type, unsigned_float, no_char_code,
  missing_number_after_base, missing_decimal, missing_exponent,
}
use epilog.Tokenizer.Text.{next_digits, next_integer_digits, next_alphas}
use epilog.Tokenizer.Quoted.{next_escape_sequence}

unfoldable pub reset_current : Tokenizer → Tokenizer
unfolding reset
reset_current t = record t { current = reset t.current }

-- The cast of a byte to a char, which is signed, and on to an int.
unfoldable pub signed_char : ℕ → ℤ
signed_char c = if ltb c 128 then pos c else negsuc (255 - c)

-- The comparison of the lexeme with "0'"
unfoldable pub is_char_code_prefix : List ℕ → Bool
is_char_code_prefix (a ∷ b ∷ []) = a == b'0' && b == b'\''
is_char_code_prefix s = false

unfoldable pub is_exp : ℕ → Bool
is_exp ch = ch == b'e' || ch == b'E'

unfoldable pub is_sign : ℕ → Bool
is_sign ch = ch == b'+' || ch == b'-'

unfoldable pub next_exponent : Tokenizer → Scan Tokenizer
unfolding consume_next_char peek_is is_sign next_digits throw_token
next_exponent t =
    let u = consume_next_char t in
    let r = next_digits (if peek_is is_sign u then consume_next_char u else u) in
    if r.0 == 0 then throw_token missing_exponent r.1 else scanned r.1

unfoldable pub next_decimal : Tokenizer → Scan Tokenizer
unfolding consume_next_char peek_is is_exp next_digits throw_token next_exponent
next_decimal t =
    let r = next_digits (consume_next_char t) in
    if r.0 == 0
    then throw_token missing_decimal r.1
    else if peek_is is_exp r.1
    then next_exponent r.1
    else scanned r.1

unfoldable pub next_float : Tokenizer → Scan Tokenizer
unfolding peek_is is_exp next_exponent next_decimal
next_float t =
    if peek_is is_exp t
    then next_exponent t
    else if peek_is (λ ch. ch == b'.') t
    then next_decimal t
    else scanned t

module _ (lexical_cast : ℤ → List ℕ) where
  -- The end of next_char_code, by the lexeme
  unfoldable pub decode_char_code : List ℕ → Tokenizer → Scan Tokenizer
  unfolding throw_token set_lexeme signed_char
  decode_char_code [] t = throw_token no_char_code t
  decode_char_code (c ∷ cs) t = scanned (set_lexeme (lexical_cast (signed_char c)) t)

  unfoldable pub next_char_code : Tokenizer → Scan Tokenizer
  unfolding peek_is next_escape_sequence reset_current next_char consume_next_char decode_char_code
  next_char_code t =
      (if peek_is (λ ch. ch == b'\\') t
        then next_escape_sequence (reset_current (next_char t))
        else scanned (consume_next_char (reset_current t)))
      >>= λ u. decode_char_code u.current.lexeme u

  -- next_number behind the quote of a base
  unfoldable pub next_based_number : Tokenizer → Scan Tokenizer
  unfolding is_char_code_prefix next_char_code next_alphas throw_token
  next_based_number t =
      if is_char_code_prefix t.current.lexeme
      then next_char_code t
      else if (next_alphas t).0 == 0
      then throw_token missing_number_after_base (next_alphas t).1
      else scanned (next_alphas t).1

  -- next_number behind its first digits
  unfoldable pub number_tail : Tokenizer → Scan Tokenizer
  unfolding is_exp peek_is second_is is_eof next_char consume_next_char next_based_number
      set_token_type next_float
  number_tail u =
      if is_eof u
      then scanned u
      else if peek_is (λ ch. ch == b'\'') u
      then next_based_number (consume_next_char u)
      else if not (peek_is (λ ch. ch == b'.' || is_exp ch) u)
      then scanned u
      else if is_eof (next_char u) || second_is is_layout_char u
      then scanned u
      else next_float (set_token_type unsigned_float u)

  unfoldable pub next_number : Tokenizer → Scan Tokenizer
  unfolding is_sign peek_is consume_next_char next_integer_digits number_tail
  next_number t =
      number_tail (next_integer_digits (if peek_is is_sign t then consume_next_char t else t)).1
