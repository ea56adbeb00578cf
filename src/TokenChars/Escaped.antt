-- ===== src/TokenChars/Escaped.antt =====
-- What escape_ascii and escape of common/token_chars.cpp print.
use epilog.Prelude.{
  ℕ, ◌<◌, ◌≡◌, refl, ap, Bool, true, false, ◌&&◌, ◌||◌, not, leb, arith, List, [], ◌∷◌, ◌++◌,
}
use epilog.Prelude.Bits.{all_below, all_below_sound}
use epilog.TokenChars.{
  is_quote_char, is_layout_char, should_be_escaped, signed_should_be_escaped,
  string_should_be_escaped, escape_hex, hex_digit, escape, escape_ascii_char, escape_ascii,
}

-- All codes are bytes.
unfoldable pub AreBytes : List ℕ → Type 0
AreBytes [] = Unit {0}
AreBytes (ch ∷ s) = (ch < 256) × AreBytes s

-- All characters can be printed, and none is a space or a quote.
unfoldable pub are_graphic : List ℕ → Bool
are_graphic [] = true
are_graphic (ch ∷ s) = (leb 33 ch && leb ch 126 && not (is_quote_char ch)) && are_graphic s

are_graphic-append :
    (r s : List ℕ) → are_graphic r ≡ true → are_graphic s ≡ true → are_graphic (r ++ s) ≡ true
unfolding are_graphic
are_graphic-append [] s p q = q
are_graphic-append (ch ∷ r) s p q =
    let here = leb 33 ch && leb ch 126 && not (is_quote_char ch) in
    let later = are_graphic-append r s (second here (are_graphic r) p) q in ground (arith, later, p)
  where
    second : (a b : Bool) → (a && b) ≡ true → b ≡ true
    second a b h = ground (arith, h)

graphic_table : all_below 256 (λ ch. are_graphic (escape_ascii_char ch)) ≡ true
unfolding all_below are_graphic escape_ascii_char should_be_escaped is_layout_char is_quote_char
    escape_hex hex_digit
graphic_table = refl

-- The text that escape_ascii makes of any bytes has printable characters only, and neither spaces nor quotes.
pub escape_ascii_graphic : (str : List ℕ) → AreBytes str → are_graphic (escape_ascii str) ≡ true
unfolding AreBytes escape_ascii
escape_ascii_graphic [] b = unfold are_graphic in refl
escape_ascii_graphic (ch ∷ str) (below, b) =
    are_graphic-append (escape_ascii_char ch) (escape_ascii str)
      (all_below_sound (λ c. are_graphic (escape_ascii_char c)) 256 ch below graphic_table)
      (escape_ascii_graphic str b)

-- A string that should not be escaped is printed by escape as it is.
escape_plain : (str : List ℕ) → string_should_be_escaped str ≡ false → escape str ≡ str
unfolding string_should_be_escaped escape
escape_plain [] h = refl
escape_plain (ch ∷ str) h =
    let (here, later) = neither (signed_should_be_escaped ch) (string_should_be_escaped str) h in
    rw here (ap (λ (s : List ℕ). ch ∷ s) (escape_plain str later))
  where
    neither : (a b : Bool) → (a || b) ≡ false → (a ≡ false) × (b ≡ false)
    neither a b k = (ground (arith, k), ground (arith, k))
