-- ===== src/Tokenizer/DigitTokens.antt =====
-- next_token of common/term_tokenizer.cpp on a natural number that is written with digits only.
use epilog.Prelude.{
  ℕ, zero, suc, ◌+◌, ◌≤◌, ◌≡◌, refl, ap, ◌∙◌, Bool, true, false, ◌&&◌, ◌||◌, not, ◌==◌, List, [],
  ◌∷◌, ◌++◌, length, length-append, arith,
}
use epilog.Prelude.Int.{ℤ}
use epilog.TokenChars.{is_digit}
use epilog.Tokenizer.{
  Tokenizer, scanned, ◌>>=◌, natural_number, set_token_type, peek_is, consume_next_char,
}
use epilog.Tokenizer.Text.{next_integer_digits_loop, next_integer_digits}
use epilog.Tokenizer.Number.{number_tail, next_number, is_sign, is_exp}
use epilog.Tokenizer.Next.{start_token, keep_line, next_token}
use epilog.Tokenizer.Eaten.{
  Eaten, Eaten-refl_text, Eaten-trans_text, Eaten-consume_text, peek_is-input, is_eof-input,
}
use epilog.Tokenizer.Quotes.{consume-input}
use epilog.Tokenizer.QuotedTokens.{is_eof-nil}
use epilog.Tokenizer.Advance.{from_digit, next_token-from, or_first}

unfoldable pub are_digits : List ℕ → Bool
are_digits [] = true
are_digits (ch ∷ s) = is_digit ch && are_digits s

-- The characters that go on with a number.
unfoldable pub goes_on : ℕ → Bool
goes_on ch = is_digit ch || ch == b'_' || ch == b'\'' || ch == b'.' || ch == b'e' || ch == b'E'

unfoldable pub ends_number : List ℕ → Bool
ends_number [] = true
ends_number (ch ∷ s) = not (goes_on ch)

-- The loop of next_integer_digits has read the digits.
record ReadDigits (s rest : List ℕ) (t : Tokenizer) (r : ℕ × Tokenizer) : Type 0 where
  left : r.1.input ≡ rest
  eaten : Eaten t r.1
  is_text : eaten.text ≡ s

digits_stop :
    (rounds cnt : ℕ) (last : Bool) (rest : List ℕ) (t : Tokenizer)
    → ends_number rest ≡ true
    → t.input ≡ rest
    → next_integer_digits_loop rounds last cnt t ≡ (cnt, t)
unfolding next_integer_digits_loop ends_number
digits_stop zero cnt last rest t n e = refl
digits_stop (suc rounds) cnt last [] t n e =
    let nothing : peek_is (λ c. is_digit c || c == b'_') t ≡ false =
      unfold peek_is in rw (peek_is, e) refl in
    rw nothing refl
digits_stop (suc rounds) cnt last (ch ∷ s) t n e =
    let other : peek_is (λ c. is_digit c || c == b'_') t ≡ false =
      peek_is-input (λ c. is_digit c || c == b'_') ch s t e
      ∙ (unfold goes_on in ground (arith, n)) in
    rw other refl

digits_step :
    (rounds cnt ch : ℕ) (s : List ℕ) (t : Tokenizer)
    → is_digit ch ≡ true
    → t.input ≡ ch ∷ s
    → next_integer_digits_loop (suc rounds) false cnt t
      ≡ next_integer_digits_loop rounds false (cnt + 1) (consume_next_char t)
unfolding next_integer_digits_loop
digits_step rounds cnt ch s t d e =
    let digit : peek_is (λ c. is_digit c || c == b'_') t ≡ true =
      peek_is-input (λ c. is_digit c || c == b'_') ch s t e ∙ rw d refl in
    let plain : peek_is (λ c. c == b'_') t ≡ false =
      peek_is-input (λ c. c == b'_') ch s t e ∙ (unfold is_digit in ground (arith, d)) in
    let nor : (cnt == 0 && false) ≡ false = ground arith in rw (digit, plain, nor) refl

digits_loop :
    (s rest : List ℕ) (rounds cnt : ℕ) (t : Tokenizer)
    → length s ≤ rounds
    → are_digits s ≡ true
    → ends_number rest ≡ true
    → t.input ≡ s ++ rest
    → ReadDigits s rest t (next_integer_digits_loop rounds false cnt t)
unfolding are_digits
digits_loop [] rest rounds cnt t l d n e =
    let (a, z) = Eaten-refl_text t in
    rw (digits_stop rounds cnt false rest t n e) (record { left = e; eaten = a; is_text = z })
digits_loop (ch ∷ s) rest zero cnt t l d n e = absurd (omega arith)
digits_loop (ch ∷ s) rest (suc rounds) cnt t l d n e =
    let (here, more) = both (is_digit ch) (are_digits s) d in
    let (a, z) = Eaten-consume_text ch (s ++ rest) t e in
    let later =
      digits_loop s rest rounds (cnt + 1) (consume_next_char t) (omega (arith, l)) more n
        (consume-input ch (s ++ rest) t e) in
    let (c, z') = Eaten-trans_text a later.eaten in
    rw (digits_step rounds cnt ch (s ++ rest) t here e)
      (record { left = later.left; eaten = c; is_text = z' ∙ rw (z, later.is_text) refl })
  where
    both : (a b : Bool) → (a && b) ≡ true → (a ≡ true) × (b ≡ true)
    both a b h = (ground (arith, h), ground (arith, h))

number_tail-end :
    (lexical_cast : ℤ → List ℕ) (rest : List ℕ) (u : Tokenizer)
    → ends_number rest ≡ true
    → u.input ≡ rest
    → number_tail lexical_cast u ≡ scanned u
unfolding number_tail ends_number
number_tail-end lexical_cast [] u n e = rw (is_eof-nil u e) refl
number_tail-end lexical_cast (ch ∷ s) u n e =
    let quote : peek_is (λ c. c == b'\'') u ≡ false =
      peek_is-input (λ c. c == b'\'') ch s u e ∙ (unfold goes_on in ground (arith, n)) in
    let float : peek_is (λ c. c == b'.' || is_exp c) u ≡ false =
      peek_is-input (λ c. c == b'.' || is_exp c) ch s u e
      ∙ (unfold goes_on is_exp in ground (arith, n)) in
    rw (is_eof-input ch s u e, quote, float) refl

-- A number that is written with digits, and behind which nothing goes on with it, is found: next_token does not throw,
-- the lexeme is the digits, and the rest of the input is left.
pub next_token-digits :
    (lexical_cast : ℤ → List ℕ) (ch : ℕ) (s rest : List ℕ) (t : Tokenizer)
    → t.input ≡ ch ∷ (s ++ rest)
    → are_digits (ch ∷ s) ≡ true
    → ends_number rest ≡ true
    → (u : Tokenizer) × (next_token lexical_cast t ≡ scanned u)
      × (u.current.lexeme ≡ ch ∷ s)
      × (u.input ≡ rest)
unfolding next_number next_integer_digits keep_line set_token_type start_token
next_token-digits lexical_cast ch s rest t e d n =
    let v = set_token_type natural_number (start_token t) in
    let here = first_digit ch s d in
    let no_sign : peek_is is_sign v ≡ false =
      peek_is-input is_sign ch (s ++ rest) v e
      ∙ (unfold is_sign is_digit in ground (arith, here)) in
    let long : length (ch ∷ s) ≤ length v.input =
      omega (arith, ap length e, length-append s rest) in
    let run = digits_loop (ch ∷ s) rest (length v.input) 0 v long d n e in
    let r = next_integer_digits v in
    let number : next_number lexical_cast v ≡ scanned r.1 =
      rw no_sign (number_tail-end lexical_cast rest r.1 n run.left) in
    (
      keep_line r.1,
      next_token-from lexical_cast ch (s ++ rest) t e (or_first _ _ here)
          ∙ ap (λ x. x >>= λ w. scanned (keep_line w))
              (from_digit lexical_cast ch (start_token t) here ∙ number),
      run.eaten.lexeme ∙ run.is_text,
      run.left,
    )
  where
    first_digit : (ch : ℕ) (s : List ℕ) → are_digits (ch ∷ s) ≡ true → is_digit ch ≡ true
    first_digit ch s h = unfold are_digits in ground (arith, h)
