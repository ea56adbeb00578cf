-- ===== src/Tokenizer/Next.antt =====
-- The tokens of common/term_tokenizer.cpp: next_token and the operations on the current token.
use epilog.Prelude.{
  ℕ, ◌&&◌, ◌||◌, not, ◌==◌, if◌then◌else◌, Option, none, some, List, [], ◌∷◌, ◌++◌,
}
use epilog.Prelude.Int.{ℤ}
use epilog.TokenChars.{
  is_layout_char, is_small_letter, is_capital_letter, is_digit, is_symbol_char, is_solo_char,
  is_punctuation_char, is_underline_char,
}
use epilog.Tokenizer.{
  Tokenizer, Scan, scanned, ◌>>=◌, unknown_token, eof_token, name_token, natural_number,
  variable_token, string_token, punctuation_char, layout_text, full_stop, reset, peek_char,
  set_token_type, is_unknown,
}
use epilog.Tokenizer.Text.{
  next_word, next_variable, is_comment_begin, is_full_stop, next_layout_text, next_symbol,
  next_solo_char, next_punctuation_char, next_full_stop,
}
use epilog.Tokenizer.Quoted.{next_quoted_name, next_string}
use epilog.Tokenizer.Number.{reset_current, next_number}

-- What stands behind the last newline, if there is one
unfoldable pub after_newline : List ℕ → Option (List ℕ)
after_newline [] = none
after_newline (ch ∷ chs) = elim (after_newline chs) [
  | some line ↦ some line
  | none ↦ if ch == b'\n' then some chs else none
]

-- The end of next_token, which keeps the text of the line
unfoldable pub kept_line : List ℕ → List ℕ → List ℕ
unfolding after_newline
kept_line line_string lexeme = elim (after_newline lexeme) [
  | none ↦ line_string ++ lexeme
  | some line ↦ line
]

unfoldable pub keep_line : Tokenizer → Tokenizer
unfolding kept_line
keep_line t = record t { line_string = kept_line t.line_string t.current.lexeme }

-- The start of next_token_helper
unfoldable pub start_token : Tokenizer → Tokenizer
unfolding reset
start_token t = record t { current = record (reset t.current) { position = t.position } }

unfoldable pub clear_token : Tokenizer → Tokenizer
unfolding reset_current set_token_type
clear_token t = reset_current (set_token_type unknown_token t)

module _ (lexical_cast : ℤ → List ℕ) where
  -- next_token_helper from its test of the first character on
  unfoldable pub token_from : ℕ → Tokenizer → Scan Tokenizer
  unfolding set_token_type next_number next_quoted_name next_word next_variable next_layout_text
      next_symbol next_solo_char next_punctuation_char next_string next_full_stop is_full_stop
  token_from ch t =
      if is_digit ch
      then next_number lexical_cast (set_token_type natural_number t)
      else if ch == b'\''
      then next_quoted_name (set_token_type name_token t)
      else if is_small_letter ch
      then scanned (next_word (set_token_type name_token t))
      else if is_capital_letter ch || is_underline_char ch
      then scanned (next_variable (set_token_type variable_token t))
      else if is_layout_char ch
      then scanned (next_layout_text (set_token_type layout_text t))
      else if is_symbol_char ch && not (is_full_stop ch)
      then scanned (next_symbol (set_token_type name_token t))
      else if is_solo_char ch
      then scanned (next_solo_char (set_token_type name_token t))
      else if is_punctuation_char ch
      then scanned (next_punctuation_char (set_token_type punctuation_char t))
      else if ch == b'"'
      then next_string (set_token_type string_token t)
      else if is_full_stop ch
      then scanned (next_full_stop (set_token_type full_stop t))
      else scanned t

  -- next_token_helper behind its start, by the next character
  unfoldable pub token_at : Option ℕ → Tokenizer → Scan Tokenizer
  unfolding set_token_type is_comment_begin next_layout_text token_from
  token_at none t = scanned (set_token_type eof_token t)
  token_at (some ch) t =
      if is_comment_begin t
      then scanned (next_layout_text (set_token_type layout_text t))
      else token_from ch t

  unfoldable pub next_token_helper : Tokenizer → Scan Tokenizer
  unfolding start_token peek_char token_at
  next_token_helper t = token_at (peek_char (start_token t)) (start_token t)

  unfoldable pub next_token : Tokenizer → Scan Tokenizer
  unfolding next_token_helper keep_line
  next_token t = next_token_helper t >>= λ u. scanned (keep_line u)

  unfoldable pub peek_token : Tokenizer → Scan Tokenizer
  unfolding next_token is_unknown
  peek_token t = if is_unknown t.current.type then next_token t else scanned t

  unfoldable pub consume_token : Tokenizer → Scan Tokenizer
  unfolding peek_token clear_token
  consume_token t = peek_token t >>= λ u. scanned (clear_token u)
