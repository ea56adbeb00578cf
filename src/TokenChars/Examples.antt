-- ===== src/TokenChars/Examples.antt =====
-- Tests and examples for the character classes and the escaping.
use epilog.Prelude.{ℕ, ◌≡◌, refl, true, List, [], ◌∷◌, arith}
use epilog.TokenChars.{
  is_layout_char, is_quote_char, should_be_escaped, escape_hex, hex_digit, escape_ascii_char,
  escape_ascii, escape_pretty_char, escape_pretty,
}
use epilog.TokenChars.Escaped.{AreBytes, are_graphic, escape_ascii_graphic}

abbrev a_line : List ℕ
a_line = b'a' ∷ b'\n' ∷ b'\'' ∷ 200 ∷ []

a_line-AreBytes : AreBytes a_line
unfolding AreBytes
a_line-AreBytes = (omega arith, (omega arith, (omega arith, (omega arith, tt))))

escape_ascii_graphic_example : are_graphic (escape_ascii a_line) ≡ true
escape_ascii_graphic_example = escape_ascii_graphic a_line a_line-AreBytes

escape_ascii_line :
    escape_ascii a_line
    ≡ b'a' ∷ b'\\' ∷ b'x' ∷ b'0' ∷ b'a' ∷ b'\\' ∷ b'x' ∷ b'2' ∷ b'7' ∷ b'\\' ∷ b'x' ∷ b'c' ∷ b'8'
      ∷ []
unfolding escape_ascii escape_ascii_char should_be_escaped is_layout_char is_quote_char escape_hex
    hex_digit
escape_ascii_line = refl

escape_pretty_line :
    escape_pretty (b'\n' ∷ b' ' ∷ b'\'' ∷ []) ≡ b'\\' ∷ b'n' ∷ b' ' ∷ b'\\' ∷ b'\'' ∷ []
unfolding escape_pretty escape_pretty_char
escape_pretty_line = refl
