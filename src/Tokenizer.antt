-- ===== src/Tokenizer.antt =====
-- The tokenizer of common/term_tokenizer.hpp and common/term_tokenizer.cpp: its state and its character level.
-- The input is the list of the codes not yet read, each below 256; the code -1 at the end of the stream is
-- `none`. A look ahead by next_char_la and unget_char reads the second code of the input.
pub mod Text
pub mod Quoted
pub mod Number
pub mod Next
pub mod Eaten
pub mod Texts
pub mod Outcomes
pub mod Escapes
pub mod Quotes
pub mod Numbers
pub mod Progress
pub mod Tokens
pub mod Advance
pub mod Runs
pub mod NumberTokens
pub mod DigitTokens
pub mod QuotedTokens
pub mod Words
pub mod Peeked
pub mod Positions
pub mod Comments
pub mod Nested
mod Examples
use epilog.Prelude.{
  ℕ, ◌+◌, ◌*◌, ◌/◌, ◌%◌, ◌^◌, Bool, true, false, ◌&&◌, ◌||◌, not, ltb, ◌==◌, if◌then◌else◌, Option,
  none, some, List, [], ◌∷◌, ◌++◌,
}
use epilog.Prelude.Int.{ℤ, pos, negsuc, ◌+ℤ◌, ◌-ℤ◌, ltb_ℤ}
use epilog.TokenChars.{is_layout_char}

-- class token_position. A position that is not set has line and column -1.
pub record TokenPosition : Type 0 where
  pub line : ℤ
  pub column : ℤ

abbrev is_minus_one : ℤ → Bool
is_minus_one (pos n) = false
is_minus_one (negsuc n) = n == 0

unfoldable pub next_column : TokenPosition → TokenPosition
next_column p = if is_minus_one p.column then p else record p { column = p.column +ℤ pos 1 }

unfoldable pub prev_column : TokenPosition → TokenPosition
prev_column p = if ltb_ℤ (pos 0) p.column then record p { column = p.column -ℤ pos 1 } else p

unfoldable pub new_line : TokenPosition → TokenPosition
new_line p = if is_minus_one p.column then p else record { line = p.line +ℤ pos 1; column = pos 1 }

unfoldable pub next_tab : TokenPosition → TokenPosition
next_tab p = elim p.column [ pos n ↦ record p { column = pos ((n / 8 + 1) * 8) } | negsuc n ↦ p ]

-- enum token_type
pub data TokenType : Type 0 where
  unknown_token eof_token name_token natural_number unsigned_float : TokenType
  variable_token string_token punctuation_char layout_text full_stop : TokenType

unfoldable pub is_unknown : TokenType → Bool
is_unknown unknown_token = true
is_unknown type = false

-- class token
pub record Token : Type 0 where
  pub type : TokenType
  pub lexeme : List ℕ
  pub quoted : Bool
  pub position : TokenPosition

unfoldable pub reset : Token → Token
reset t = record t { lexeme = []; quoted = false }

-- The classes of exceptions, each with the position of the token; their messages are left out.
pub data TokenError : Type 0 where
  control_char hex_code no_char_code missing_number_after_base : TokenError
  missing_decimal missing_exponent unterminated_string : TokenError
  unterminated_quoted_name unterminated_escape : TokenError

-- class token_exception, whose constructor drops the line that it is given.
pub record TokenException : Type 0 where
  pub kind : TokenError
  pub position : TokenPosition
  pub line_string : List ℕ

unfoldable pub token_exception : TokenError → List ℕ → TokenPosition → TokenException
token_exception kind line p = record { kind = kind; position = p; line_string = [] }

-- class term_tokenizer
pub record Tokenizer : Type 0 where
  pub input : List ℕ
  pub current : Token
  pub position : TokenPosition
  pub line_string : List ℕ

-- An operation that may throw leaves the tokenizer behind in either case.
pub data Scan {ℓ} (A : Type ℓ) : Type ℓ where
  thrown : TokenException → Tokenizer → Scan A
  scanned : A → Scan A

infixl 5 ◌>>=◌
abbrev pub ◌>>=◌ {κ ℓ} : {A : Type κ} {B : Type ℓ} → Scan A → (A → Scan B) → Scan B
thrown why t >>= next = thrown why t
scanned a >>= next = next a

-- throw, with the line and the position of the token
unfoldable pub throw_token {ℓ} : {A : Type ℓ} → TokenError → Tokenizer → Scan A
unfolding token_exception
throw_token kind t = thrown (token_exception kind t.line_string t.current.position) t

abbrev pub unset_position : TokenPosition
unset_position = record { line = negsuc 0; column = negsuc 0 }

-- term_tokenizer::term_tokenizer
unfoldable pub term_tokenizer : List ℕ → Tokenizer
term_tokenizer chars = record {
  input = chars;
  current = record { type = unknown_token; lexeme = []; quoted = false; position = unset_position };
  position = record { line = pos 1; column = pos 1 };
  line_string = [];
}

unfoldable pub update_position : Option ℕ → TokenPosition → TokenPosition
unfolding is_layout_char next_column prev_column new_line next_tab
update_position none p = next_column p
update_position (some ch) p =
    if ch == b' ' || not (is_layout_char ch)
    then next_column p
    else if ch == b'\n'
    then new_line p
    else if ch == 8 || ch == 127
    then prev_column p
    else if ch == b'\t'
    then next_tab p
    else next_column p

abbrev first_of : List ℕ → Option ℕ
first_of [] = none
first_of (ch ∷ chs) = some ch

abbrev rest_of : List ℕ → List ℕ
rest_of [] = []
rest_of (ch ∷ chs) = chs

unfoldable pub peek_char : Tokenizer → Option ℕ
peek_char t = first_of t.input

unfoldable pub is_eof : Tokenizer → Bool
is_eof t = elim (first_of t.input) [ none ↦ true | some ch ↦ false ]

unfoldable pub has_more_tokens : Tokenizer → Bool
unfolding is_eof
has_more_tokens t = not (is_eof t)

-- Whether peek_char passes a test; -1 passes none.
unfoldable pub peek_is : (ℕ → Bool) → Tokenizer → Bool
peek_is test t = elim (first_of t.input) [ none ↦ false | some ch ↦ test ch ]

-- The same for the character behind it, which next_char_la, peek_char and unget_char look at.
unfoldable pub second_is : (ℕ → Bool) → Tokenizer → Bool
second_is test t = elim (first_of (rest_of t.input)) [ none ↦ false | some ch ↦ test ch ]

-- next_char, as far as the state goes; its result is peek_char's.
unfoldable pub next_char : Tokenizer → Tokenizer
unfolding update_position
next_char t = record t {
  input = rest_of t.input;
  position = update_position (first_of t.input) t.position;
}

unfoldable pub set_token_type : TokenType → Tokenizer → Tokenizer
set_token_type tt t = record t { current = record t.current { type = tt } }

unfoldable pub set_lexeme : List ℕ → Tokenizer → Tokenizer
set_lexeme s t = record t { current = record t.current { lexeme = s } }

-- current_.lexeme_ += s
unfoldable pub append_lexeme : List ℕ → Tokenizer → Tokenizer
append_lexeme s t = record t { current = record t.current { lexeme = t.current.lexeme ++ s } }

unfoldable pub add_to_lexeme : Option ℕ → Tokenizer → Tokenizer
unfolding append_lexeme
add_to_lexeme none t = t
add_to_lexeme (some ch) t = append_lexeme (ch ∷ []) t

unfoldable pub consume_next_char : Tokenizer → Tokenizer
unfolding add_to_lexeme next_char
consume_next_char t = add_to_lexeme (first_of t.input) (next_char t)
