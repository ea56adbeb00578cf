-- ===== src/Tokenizer/Examples.antt =====
-- Tests and examples for the tokenizer.
use epilog.Prelude.{
  ℕ, ◌≡◌, refl, sym, ap, ◌∙◌, true, ltb, ◌/◌, ◌%◌, ◌+◌, if◌then◌else◌, List, [], ◌∷◌, ◌++◌, arith,
}
use epilog.Prelude.Int.{ℤ, pos, negsuc}
use epilog.TokenChars.{
  is_digit, is_quote_char, is_small_letter, is_capital_letter, is_underline_char, is_alpha,
}
use epilog.Tokenizer.{
  is_unknown, Tokenizer, Scan, thrown, scanned, term_tokenizer, token_exception,
  unterminated_quoted_name,
}
use epilog.Tokenizer.Text.{parse_block_comment}
use epilog.Tokenizer.Next.{next_token, peek_token, consume_token}
use epilog.Tokenizer.Quotes.{IsPlain}
use epilog.Tokenizer.Tokens.{IsText, next_token-IsText}
use epilog.Tokenizer.Advance.{Shortens, next_token-Shortens}
use epilog.TokenChars.Escaped.{AreBytes}
use epilog.Tokenizer.Runs.{Run, next_token-Run}
use epilog.Tokenizer.DigitTokens.{are_digits, goes_on, ends_number, next_token-digits}
use epilog.Tokenizer.QuotedTokens.{starts_with, next_token-quoted, next_token-unterminated}
use epilog.Tokenizer.Words.{take_while, drop_while, letter_type, next_token-letter}
use epilog.Tokenizer.Comments.{IsBody, body_end, body_char, body_comment}
use epilog.Tokenizer.Nested.{parse_block_comment-IsBody}
use epilog.Tokenizer.Positions.{OnLine, newlines, next_token-OnLine}
use epilog.Tokenizer.Peeked.{StartsWithByte, peek_token_idem}

-- The decimal form of the code of a char.
abbrev digits : ℕ → List ℕ
digits n =
    if ltb n 10
    then (n + 48) ∷ []
    else if ltb n 100
    then (n / 10 + 48) ∷ (n % 10 + 48) ∷ []
    else (n / 100 + 48) ∷ (n / 10 % 10 + 48) ∷ (n % 10 + 48) ∷ []

abbrev decimal : ℤ → List ℕ
decimal (pos n) = digits n
decimal (negsuc n) = b'-' ∷ digits (n + 1)

-- The text of the token that is next, with a `!` in front where the tokenizer throws.
abbrev lexeme_of : Scan Tokenizer → List ℕ
lexeme_of (thrown why t) = b'!' ∷ t.current.lexeme
lexeme_of (scanned t) = t.current.lexeme

abbrev at : List ℕ → Tokenizer
at = term_tokenizer

abbrev a_symbol : List ℕ
a_symbol = b'-' ∷ b'>' ∷ b'x' ∷ []

at-input : (s : List ℕ) → (at s).input ≡ s
unfolding term_tokenizer
at-input s = refl

next_token-IsText_example :
    (u : Tokenizer) × (next_token decimal (at a_symbol) ≡ scanned u) × IsText (at a_symbol) u
next_token-IsText_example =
    next_token-IsText decimal b'-' (b'>' ∷ b'x' ∷ []) (at a_symbol) (at-input a_symbol)
      (omega arith) (unfold is_digit in refl) (unfold is_quote_char in refl)

abbrev open_quote : List ℕ
open_quote = b'\'' ∷ b'\\' ∷ b'z' ∷ []

next_token-Shortens_example : Shortens (at open_quote) (next_token decimal (at open_quote))
next_token-Shortens_example =
    next_token-Shortens decimal b'\'' (b'\\' ∷ b'z' ∷ []) (at open_quote) (at-input open_quote)
      (omega arith)

open_quote-AreBytes : AreBytes (at open_quote).input
unfolding AreBytes term_tokenizer
open_quote-AreBytes = (omega arith, (omega arith, (omega arith, tt)))

next_token-Run_example : Run decimal (at open_quote)
next_token-Run_example = next_token-Run decimal (at open_quote) open_quote-AreBytes

abbrev a_number : List ℕ
a_number = b'1' ∷ b'.' ∷ b'5' ∷ b'e' ∷ b'3' ∷ b' ' ∷ []

abbrev some_digits : List ℕ
some_digits = b'4' ∷ b'2' ∷ b')' ∷ []

next_token-digits_example :
    (u : Tokenizer) × (next_token decimal (at some_digits) ≡ scanned u)
    × (u.current.lexeme ≡ b'4' ∷ b'2' ∷ [])
    × (u.input ≡ b')' ∷ [])
next_token-digits_example =
    next_token-digits decimal b'4' (b'2' ∷ []) (b')' ∷ []) (at some_digits) (at-input some_digits)
      (unfold are_digits is_digit in refl) (unfold ends_number goes_on is_digit in refl)

abbrev two_words : List ℕ
two_words = b'a' ∷ b' ' ∷ b'B' ∷ []

two_words-IsPlain : IsPlain b'\'' two_words
unfolding IsPlain
two_words-IsPlain = (refl, refl, (refl, refl, (refl, refl, tt)))

abbrev a_quoted_name : List ℕ
a_quoted_name = b'\'' ∷ (two_words ++ (b'\'' ∷ b'(' ∷ []))

next_token-quoted_example :
    (u : Tokenizer) × (next_token decimal (at a_quoted_name) ≡ scanned u)
    × (u.current.lexeme ≡ two_words)
    × (u.current.quoted ≡ true)
    × (u.input ≡ b'(' ∷ [])
next_token-quoted_example =
    next_token-quoted decimal two_words (at a_quoted_name) two_words-IsPlain (b'(' ∷ [])
      (at-input a_quoted_name) (unfold starts_with in refl)

abbrev an_open_name : List ℕ
an_open_name = b'\'' ∷ two_words

next_token-unterminated_example :
    (u : Tokenizer) × (next_token decimal (at an_open_name)
      ≡ thrown
          (token_exception unterminated_quoted_name
            (at an_open_name).line_string
            (at an_open_name).position)
          u)
    × (u.input ≡ [])
next_token-unterminated_example =
    next_token-unterminated decimal two_words (at an_open_name) two_words-IsPlain
      (at-input an_open_name)

abbrev a_word : List ℕ
a_word = b'_' ∷ b'a' ∷ b'1' ∷ b'.' ∷ []

next_token-letter_example :
    (u : Tokenizer) × (next_token decimal (at a_word) ≡ scanned u)
    × (u.current.type ≡ letter_type b'_')
    × (u.current.lexeme ≡ take_while is_alpha (at a_word).input)
    × (u.input ≡ drop_while is_alpha (at a_word).input)
next_token-letter_example =
    next_token-letter decimal b'_' (b'a' ∷ b'1' ∷ b'.' ∷ []) (at a_word) (at-input a_word)
      (unfold is_small_letter is_capital_letter is_underline_char in refl)

-- The text x/*y*/z/q*
abbrev a_body : List ℕ
a_body = b'x' ∷ b'/' ∷ b'*' ∷ ((b'y' ∷ []) ++ (b'*' ∷ b'/' ∷ b'z' ∷ b'/' ∷ b'q' ∷ b'*' ∷ []))

a_body-IsBody : IsBody a_body
a_body-IsBody = body_char b'x' refl refl (
    body_comment (body_char b'y' refl refl body_end) (
      body_char b'z' refl refl
        (body_char b'/' refl refl (body_char b'q' refl refl (body_char b'*' refl refl body_end)))))

abbrev a_comment : List ℕ
a_comment = b'/' ∷ b'*' ∷ (a_body ++ (b'*' ∷ b'/' ∷ b'!' ∷ []))

parse_block_comment-IsBody_example :
    ((parse_block_comment (at a_comment)).current.lexeme
      ≡ (at a_comment).current.lexeme ++ (b'/' ∷ b'*' ∷ (a_body ++ (b'*' ∷ b'/' ∷ []))))
    × ((parse_block_comment (at a_comment)).input ≡ b'!' ∷ [])
parse_block_comment-IsBody_example =
    parse_block_comment-IsBody (b'!' ∷ []) (at a_comment) a_body-IsBody (at-input a_comment)

a_word-StartsWithByte : StartsWithByte (at a_word).input
unfolding StartsWithByte term_tokenizer
a_word-StartsWithByte = omega arith

-- The tokenizer behind the first look at the token.
abbrev word_seen : Scan Tokenizer → Tokenizer
word_seen (scanned u) = u
word_seen (thrown why u) = u

seen_scanned : (r : Scan Tokenizer) (u : Tokenizer) → r ≡ scanned u → r ≡ scanned (word_seen r)
seen_scanned r u e = e ∙ ap (λ x. scanned (word_seen x)) (sym e)

a_word_returns :
    peek_token decimal (at a_word) ≡ scanned (word_seen (peek_token decimal (at a_word)))
unfolding peek_token is_unknown term_tokenizer
a_word_returns =
    let (u, run, _, _, _) =
      next_token-letter decimal b'_' (b'a' ∷ b'1' ∷ b'.' ∷ []) (at a_word) (at-input a_word)
        (unfold is_small_letter is_capital_letter is_underline_char in refl) in
    seen_scanned (peek_token decimal (at a_word)) u run

peek_token_idem_example :
    (peek_token decimal (word_seen (peek_token decimal (at a_word)))
      ≡ scanned (word_seen (peek_token decimal (at a_word))))
    × (consume_token decimal (word_seen (peek_token decimal (at a_word)))
        ≡ consume_token decimal (at a_word))
peek_token_idem_example =
    peek_token_idem decimal (at a_word) (word_seen (peek_token decimal (at a_word)))
      a_word-StartsWithByte a_word_returns

at-OnLine : (s : List ℕ) → OnLine 1 (at s).position
at-OnLine s = record { column = 1; same = unfold term_tokenizer in refl }

abbrev two_lines : List ℕ
two_lines = b'\n' ∷ b' ' ∷ b'\n' ∷ b'x' ∷ []

next_token-OnLine_example :
    (u : Tokenizer) × (next_token decimal (at two_lines) ≡ scanned u)
    × OnLine 1 u.current.position
    × OnLine (newlines u.current.lexeme + 1) u.position
next_token-OnLine_example =
    next_token-OnLine decimal b'\n' (b' ' ∷ b'\n' ∷ b'x' ∷ []) (at two_lines) 1 (at-input two_lines)
      (omega arith) (unfold is_digit in refl) (unfold is_quote_char in refl) (at-OnLine two_lines)

-- A doubled quote: the first one is kept, the second one closes the name, and the rest is left.
doubled_quote :
    lexeme_of (next_token decimal (at (b'\'' ∷ b'o' ∷ b'\'' ∷ b'\'' ∷ b'b' ∷ b'\'' ∷ [])))
    ≡ b'o' ∷ b'\'' ∷ []
unfolding next_token term_tokenizer is_digit
doubled_quote = refl

-- The escape \x41 gives the code 1: the first digit is lost.
hex_escaped :
    lexeme_of (next_token decimal (at (b'\'' ∷ b'\\' ∷ b'x' ∷ b'4' ∷ b'1' ∷ b'\'' ∷ []))) ≡ 1 ∷ []
unfolding next_token term_tokenizer is_digit
hex_escaped = refl
