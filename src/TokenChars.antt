-- ===== src/TokenChars.antt =====
-- The character classes of common/token_chars.hpp and the escaping of common/token_chars.cpp. A character is its
-- code, and the code -1 that a stream gives at its end is in no class: the tokenizer tests for it first.
pub mod Classes
pub mod Escaped
mod Examples
use epilog.Prelude.{
  ℕ, ◌/◌, ◌%◌, ◌+◌, ◌-◌, Bool, true, false, ◌&&◌, ◌||◌, not, ltb, leb, ◌==◌, if◌then◌else◌, none,
  some, List, [], ◌∷◌, ◌++◌, get_elem?,
}

unfoldable pub is_layout_char : ℕ → Bool
is_layout_char ch = leb ch 32 || (leb 127 ch && leb ch 159)

unfoldable pub is_small_letter : ℕ → Bool
is_small_letter ch = (leb 97 ch && leb ch 122) || ((leb 223 ch && leb ch 255) && not (ch == 247))

unfoldable pub is_capital_letter : ℕ → Bool
is_capital_letter ch = (leb 65 ch && leb ch 90) || ((leb 192 ch && leb ch 222) && not (ch == 215))

unfoldable pub is_digit : ℕ → Bool
is_digit ch = leb 48 ch && leb ch 57

-- The rows of IS_SYMBOL.
abbrev x : Bool
x = true

abbrev o : Bool
o = false

unfoldable is_symbol : List Bool
is_symbol =
    o ∷ o ∷ o ∷ o ∷ o ∷ o ∷ o ∷ o ∷ o ∷ o ∷ o ∷ o ∷ o ∷ o ∷ o ∷ o ∷ o ∷ o ∷ o ∷ o ∷ o ∷ o ∷ o ∷ o
    ∷ o ∷ o ∷ o ∷ o ∷ o ∷ o ∷ o ∷ o ∷ o ∷ o ∷ o ∷ x ∷ x ∷ o ∷ x ∷ o ∷ o ∷ o ∷ x ∷ x ∷ o ∷ x ∷ x ∷ x
    ∷ o ∷ o ∷ o ∷ o ∷ o ∷ o ∷ o ∷ o ∷ o ∷ o ∷ x ∷ o ∷ x ∷ x ∷ x ∷ x ∷ x ∷ o ∷ o ∷ o ∷ o ∷ o ∷ o ∷ o
    ∷ o ∷ o ∷ o ∷ o ∷ o ∷ o ∷ o ∷ o ∷ o ∷ o ∷ o ∷ o ∷ o ∷ o ∷ o ∷ o ∷ o ∷ o ∷ o ∷ o ∷ x ∷ o ∷ x ∷ o
    ∷ x ∷ o ∷ o ∷ o ∷ o ∷ o ∷ o ∷ o ∷ o ∷ o ∷ o ∷ o ∷ o ∷ o ∷ o ∷ o ∷ o ∷ o ∷ o ∷ o ∷ o ∷ o ∷ o ∷ o
    ∷ o ∷ o ∷ o ∷ o ∷ o ∷ o ∷ x ∷ o ∷ o ∷ o ∷ o ∷ o ∷ o ∷ o ∷ o ∷ o ∷ o ∷ o ∷ o ∷ o ∷ o ∷ o ∷ o ∷ o
    ∷ o ∷ o ∷ o ∷ o ∷ o ∷ o ∷ o ∷ o ∷ o ∷ o ∷ o ∷ o ∷ o ∷ o ∷ o ∷ o ∷ x ∷ x ∷ x ∷ x ∷ x ∷ x ∷ x ∷ x
    ∷ x ∷ x ∷ x ∷ x ∷ x ∷ x ∷ x ∷ x ∷ x ∷ x ∷ x ∷ x ∷ x ∷ x ∷ x ∷ x ∷ x ∷ x ∷ x ∷ x ∷ x ∷ x ∷ x ∷ x
    ∷ o ∷ o ∷ o ∷ o ∷ o ∷ o ∷ o ∷ o ∷ o ∷ o ∷ o ∷ o ∷ o ∷ o ∷ o ∷ o ∷ o ∷ o ∷ o ∷ o ∷ o ∷ o ∷ o ∷ x
    ∷ o ∷ o ∷ o ∷ o ∷ o ∷ o ∷ o ∷ o ∷ o ∷ o ∷ o ∷ o ∷ o ∷ o ∷ o ∷ o ∷ o ∷ o ∷ o ∷ o ∷ o ∷ o ∷ o ∷ o
    ∷ o ∷ o ∷ o ∷ o ∷ o ∷ o ∷ o ∷ x ∷ o ∷ o ∷ o ∷ o ∷ o ∷ o ∷ o ∷ o ∷ []

unfoldable pub is_symbol_char : ℕ → Bool
unfolding is_symbol
is_symbol_char ch = elim (get_elem? is_symbol ch) [ none ↦ false | some b ↦ b ]

unfoldable pub is_solo_char : ℕ → Bool
is_solo_char ch = ch == 33 || ch == 59

unfoldable pub is_punctuation_char : ℕ → Bool
is_punctuation_char ch =
    ch == 37
    || ch == 40
    || ch == 41
    || ch == 44
    || ch == 91
    || ch == 93
    || (leb 123 ch && leb ch 125)

unfoldable pub is_quote_char : ℕ → Bool
is_quote_char ch = ch == 34 || ch == 39

unfoldable pub is_underline_char : ℕ → Bool
is_underline_char ch = ch == 95

unfoldable pub is_alpha : ℕ → Bool
unfolding is_capital_letter is_small_letter is_underline_char is_digit
is_alpha ch = is_capital_letter ch || is_small_letter ch || is_underline_char ch || is_digit ch

unfoldable pub should_be_escaped : ℕ → Bool
unfolding is_layout_char is_quote_char
should_be_escaped ch = is_layout_char ch || is_quote_char ch

-- A char of a string is signed: a byte from 128 on is negative there, and in no class.
unfoldable pub signed_should_be_escaped : ℕ → Bool
unfolding should_be_escaped
signed_should_be_escaped ch = ltb ch 128 && should_be_escaped ch

-- should_be_escaped on a string
unfoldable pub string_should_be_escaped : List ℕ → Bool
unfolding signed_should_be_escaped
string_should_be_escaped [] = false
string_should_be_escaped (ch ∷ str) = signed_should_be_escaped ch || string_should_be_escaped str

-- Two digits in base 16, as std::setw(2) and std::setbase(16) print a byte.
unfoldable pub hex_digit : ℕ → ℕ
hex_digit v = if ltb v 10 then v + 48 else v + 87

unfoldable pub escape_hex : ℕ → List ℕ
unfolding hex_digit
escape_hex cp = b'\\' ∷ b'x' ∷ hex_digit (cp / 16) ∷ hex_digit (cp % 16) ∷ []

-- token_chars::escape
unfoldable pub escape : List ℕ → List ℕ
unfolding signed_should_be_escaped escape_hex
escape [] = []
escape (ch ∷ str) = (if signed_should_be_escaped ch then escape_hex ch else ch ∷ []) ++ escape str

unfoldable pub escape_ascii_char : ℕ → List ℕ
unfolding should_be_escaped escape_hex
escape_ascii_char cp = if leb 127 cp || should_be_escaped cp then escape_hex cp else cp ∷ []

-- token_chars::escape_ascii
unfoldable pub escape_ascii : List ℕ → List ℕ
unfolding escape_ascii_char
escape_ascii [] = []
escape_ascii (ch ∷ str) = escape_ascii_char ch ++ escape_ascii str

unfoldable pub escape_pretty_char : ℕ → List ℕ
unfolding escape_ascii_char
escape_pretty_char cp =
    if cp == 8
    then b'\\' ∷ b'b' ∷ []
    else if cp == 9
    then b'\\' ∷ b't' ∷ []
    else if cp == 10
    then b'\\' ∷ b'n' ∷ []
    else if cp == 11
    then b'\\' ∷ b'v' ∷ []
    else if cp == 12
    then b'\\' ∷ b'f' ∷ []
    else if cp == 13
    then b'\\' ∷ b'r' ∷ []
    else if cp == 27
    then b'\\' ∷ b'e' ∷ []
    else if cp == 32
    then 32 ∷ []
    else if cp == 127
    then b'\\' ∷ b'd' ∷ []
    else if cp == 7
    then b'\\' ∷ b'a' ∷ []
    else if cp == 39
    then b'\\' ∷ 39 ∷ []
    else escape_ascii_char cp

-- token_chars::escape_pretty
unfoldable pub escape_pretty : List ℕ → List ℕ
unfolding escape_pretty_char
escape_pretty [] = []
escape_pretty (ch ∷ str) = escape_pretty_char ch ++ escape_pretty str
