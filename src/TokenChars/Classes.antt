-- ===== src/TokenChars/Classes.antt =====
-- The character classes: what the table and the tests of common/token_chars.hpp say of each code.
use epilog.Prelude.{
  zero, suc, ℕ, ◌+◌, ◌<◌, ◌≡◌, refl, Bool, ◌==◌, ==_iff, if◌then◌else◌, true, false,
}
use epilog.Prelude.Bits.{all_below, all_below_sound}
use epilog.TokenChars.{
  is_layout_char, is_small_letter, is_capital_letter, is_digit, is_symbol, is_symbol_char,
  is_solo_char, is_punctuation_char, is_quote_char, is_underline_char,
}

unfoldable pub one_if : Bool → ℕ
one_if b = if b then 1 else 0

-- In how many of the classes a code is.
unfoldable pub class_count : ℕ → ℕ
unfolding one_if
class_count ch =
    one_if (is_layout_char ch)
    + one_if (is_small_letter ch)
    + one_if (is_capital_letter ch)
    + one_if (is_digit ch)
    + one_if (is_symbol_char ch)
    + one_if (is_solo_char ch)
    + one_if (is_punctuation_char ch)
    + one_if (is_quote_char ch)
    + one_if (is_underline_char ch)

class_table : all_below 256 (λ ch. class_count ch == 1) ≡ true
unfolding all_below class_count is_layout_char is_small_letter is_capital_letter is_digit is_symbol
    is_symbol_char is_solo_char is_punctuation_char is_quote_char is_underline_char
class_table = refl

-- Each byte is in exactly one of the nine classes: layout, small letter, capital letter, digit, symbol,
-- solo, punctuation, quote and underline.
class_count_lem : (ch : ℕ) → ch < 256 → class_count ch ≡ 1
class_count_lem ch below =
    (==_iff _ _).0 (all_below_sound (λ y. class_count y == 1) 256 ch below class_table)

-- No byte is outside of all classes.
pub classified :
    (ch : ℕ)
    → ch < 256
    → is_layout_char ch ≡ false
    → is_small_letter ch ≡ false
    → is_capital_letter ch ≡ false
    → is_digit ch ≡ false
    → is_symbol_char ch ≡ false
    → is_solo_char ch ≡ false
    → is_punctuation_char ch ≡ false
    → is_quote_char ch ≡ false
    → is_underline_char ch ≡ false
    → zero ≡ suc zero
unfolding class_count one_if
classified ch below l s c d y o p q u = rw (l, s, c, d, y, o, p, q, u) at (class_count_lem ch below)
