-- ===== src/Tokenizer/Numbers.antt =====
-- Numbers of common/term_tokenizer.cpp: on each way out, what has been read and what the lexeme is.
use epilog.Prelude.{
  ℕ, ◌≡◌, refl, Bool, true, false, ◌||◌, not, ◌==◌, inl, inr, Bool-cases, if◌then◌else◌, List, [],
  ◌∷◌,
}
use epilog.Prelude.Int.{ℤ}
use epilog.TokenChars.{is_layout_char}
use epilog.Tokenizer.{
  Tokenizer, Scan, thrown, scanned, ◌>>=◌, throw_token, TokenException, TokenError, peek_is,
  second_is, is_eof, next_char, consume_next_char, set_lexeme, set_token_type, unsigned_float,
  missing_exponent, missing_decimal, missing_number_after_base, no_char_code, is_unknown,
}
use epilog.Tokenizer.Text.{next_digits, next_alphas}
use epilog.Tokenizer.Number.{
  reset_current, signed_char, is_char_code_prefix, is_exp, is_sign, next_exponent, next_decimal,
  next_float, decode_char_code, next_char_code, next_based_number, number_tail, next_number,
}
use epilog.Tokenizer.Eaten.{Eaten, Eaten-refl, Eaten-trans, set_token_type-Eaten}
use epilog.Tokenizer.Texts.{
  next_digits-Eaten, next_integer_digits-Eaten, next_alphas-Eaten, peek_is-consume,
}
use epilog.Tokenizer.Outcomes.{
  Reads, Reads-trans, Eaten-Reads, next_char-Reads, Stops, by_throw, by_return, itself,
}
use epilog.Tokenizer.Escapes.{next_escape_sequence-Stops}
use epilog.Tokenizer.Quotes.{consume-Reads}

lexeme_set : (s : List ℕ) (t : Tokenizer) → (set_lexeme s t).current.lexeme ≡ s
unfolding set_lexeme
lexeme_set s t = refl

-- The outcomes of a number: an error, the text that was read, or the code of a character.
pub data Numeral (lexical_cast : ℤ → List ℕ) (t : Tokenizer) : Scan Tokenizer → Type 0 where
  failed :
      {why : TokenException} {u : Tokenizer} → Reads t u → Numeral lexical_cast t (thrown why u)
  as_text : {u : Tokenizer} → Eaten t u → Numeral lexical_cast t (scanned u)
  as_code :
      {u : Tokenizer} (c : ℕ)
      → Reads t u
      → u.current.lexeme ≡ lexical_cast (signed_char c)
      → Numeral lexical_cast t (scanned u)

reset_current-Reads : (t : Tokenizer) → Reads t (reset_current t)
unfolding reset_current
reset_current-Reads t = record {
  text = [];
  input = refl;
  place = refl;
  known = λ h. h;
  line = refl;
}

set_lexeme-Reads : (s : List ℕ) (t : Tokenizer) → Reads t (set_lexeme s t)
unfolding set_lexeme
set_lexeme-Reads s t = record { text = []; input = refl; place = refl; known = λ h. h; line = refl }

consume_if-Eaten :
    (test : ℕ → Bool) (t : Tokenizer) → Eaten t (if peek_is test t then consume_next_char t else t)
consume_if-Eaten test t = elim (Bool-cases (peek_is test t)) [
  | inl y ↦ rw y (peek_is-consume test t y)
  | inr n ↦ rw n (Eaten-refl t)
]

float_known : is_unknown unsigned_float ≡ false
unfolding is_unknown
float_known = refl

module _ {lexical_cast : ℤ → List ℕ} where
  Numeral-from :
      {t u : Tokenizer} {r : Scan Tokenizer}
      → Eaten t u
      → Numeral lexical_cast u r
      → Numeral lexical_cast t r
  Numeral-from a (failed b) = failed (Reads-trans (Eaten-Reads a) b)
  Numeral-from a (as_text b) = as_text (Eaten-trans a b)
  Numeral-from a (as_code c b e) = as_code c (Reads-trans (Eaten-Reads a) b) e

  Numeral-if :
      (b : Bool) {t : Tokenizer} {r s : Scan Tokenizer}
      → (b ≡ true → Numeral lexical_cast t r)
      → (b ≡ false → Numeral lexical_cast t s)
      → Numeral lexical_cast t (if b then r else s)
  Numeral-if true first second = first refl
  Numeral-if false first second = second refl

  throw_token-Numeral :
      (kind : TokenError) {t u : Tokenizer}
      → Reads t u
      → Numeral lexical_cast t (throw_token kind u)
  unfolding throw_token
  throw_token-Numeral kind r = failed r

  next_exponent-Numeral :
      (t : Tokenizer) → peek_is is_exp t ≡ true → Numeral lexical_cast t (next_exponent t)
  unfolding next_exponent
  next_exponent-Numeral t h =
      let u = consume_next_char t in
      let v = if peek_is is_sign u then consume_next_char u else u in
      let a =
        Eaten-trans (peek_is-consume is_exp t h)
          (Eaten-trans (consume_if-Eaten is_sign u) (next_digits-Eaten v)) in
      Numeral-if ((next_digits v).0 == 0)
        (λ k. throw_token-Numeral missing_exponent (Eaten-Reads a)) λ k. as_text a

  next_decimal-Numeral :
      (t : Tokenizer)
      → peek_is (λ ch. ch == b'.') t ≡ true
      → Numeral lexical_cast t (next_decimal t)
  unfolding next_decimal
  next_decimal-Numeral t h =
      let r = next_digits (consume_next_char t) in
      let a =
        Eaten-trans (peek_is-consume (λ ch. ch == b'.') t h)
          (next_digits-Eaten (consume_next_char t)) in
      Numeral-if (r.0 == 0) (λ k. throw_token-Numeral missing_decimal (Eaten-Reads a))
        λ k.
          Numeral-if (peek_is is_exp r.1) (λ l. Numeral-from a (next_exponent-Numeral r.1 l))
            λ l. as_text a

  next_float-Numeral : (t : Tokenizer) → Numeral lexical_cast t (next_float t)
  unfolding next_float
  next_float-Numeral t =
      Numeral-if (peek_is is_exp t) (λ h. next_exponent-Numeral t h)
        λ h.
          Numeral-if (peek_is (λ ch. ch == b'.') t) (λ k. next_decimal-Numeral t k)
            λ k. as_text (Eaten-refl t)

  decode_char_code-Numeral :
      {t u : Tokenizer} (s : List ℕ)
      → Reads t u
      → Numeral lexical_cast t (decode_char_code lexical_cast s u)
  unfolding decode_char_code
  decode_char_code-Numeral [] r = throw_token-Numeral no_char_code r
  decode_char_code-Numeral {t} {u} (c ∷ cs) r =
      as_code c (Reads-trans r (set_lexeme-Reads _ u)) (lexeme_set _ u)

  next_char_code-Numeral : (t : Tokenizer) → Numeral lexical_cast t (next_char_code lexical_cast t)
  unfolding next_char_code
  next_char_code-Numeral t = elim (Bool-cases (peek_is (λ ch. ch == b'\\') t)) [
    | inl y ↦ rw y (
        decoded (Reads-trans (next_char-Reads t) (reset_current-Reads (next_char t)))
          (next_escape_sequence-Stops (reset_current (next_char t))))
    | inr n ↦ rw n (decoded (reset_current-Reads t) (by_return (consume-Reads (reset_current t))))
  ]
    where
      decoded :
          {v : Tokenizer} {m : Scan Tokenizer}
          → Reads t v
          → Stops itself v m
          → Numeral lexical_cast t (m >>= λ u. decode_char_code lexical_cast u.current.lexeme u)
      decoded a (by_throw b) = failed (Reads-trans a b)
      decoded a (by_return {a = u} b) = decode_char_code-Numeral u.current.lexeme (Reads-trans a b)

  next_based_number-Numeral :
      (t : Tokenizer) → Numeral lexical_cast t (next_based_number lexical_cast t)
  unfolding next_based_number
  next_based_number-Numeral t =
      Numeral-if (is_char_code_prefix t.current.lexeme) (λ h. next_char_code-Numeral t)
        λ h.
          Numeral-if ((next_alphas t).0 == 0)
            (λ k. throw_token-Numeral missing_number_after_base (Eaten-Reads (next_alphas-Eaten t)))
            λ k. as_text (next_alphas-Eaten t)

  pub number_tail-Numeral : (u : Tokenizer) → Numeral lexical_cast u (number_tail lexical_cast u)
  unfolding number_tail
  number_tail-Numeral u =
      Numeral-if (is_eof u) (λ h. as_text (Eaten-refl u))
        λ h.
          Numeral-if (peek_is (λ ch. ch == b'\'') u)
            (λ k.
              Numeral-from (peek_is-consume (λ ch. ch == b'\'') u k) (next_based_number-Numeral _))
            λ k.
              Numeral-if (not (peek_is (λ ch. ch == b'.' || is_exp ch) u))
                (λ l. as_text (Eaten-refl u))
                λ l.
                  Numeral-if (is_eof (next_char u) || second_is is_layout_char u)
                    (λ m. as_text (Eaten-refl u))
                    λ m.
                      Numeral-from (set_token_type-Eaten unsigned_float u float_known)
                        (next_float-Numeral (set_token_type unsigned_float u))

  pub next_number-Numeral : (t : Tokenizer) → Numeral lexical_cast t (next_number lexical_cast t)
  unfolding next_number
  next_number-Numeral t =
      Numeral-from (Eaten-trans (consume_if-Eaten is_sign t) (next_integer_digits-Eaten _))
        (number_tail-Numeral _)

  pub Numeral-Stops :
      {t : Tokenizer} {r : Scan Tokenizer} → Numeral lexical_cast t r → Stops itself t r
  Numeral-Stops (failed a) = by_throw a
  Numeral-Stops (as_text a) = by_return (Eaten-Reads a)
  Numeral-Stops (as_code c a e) = by_return a
