-- ===== src/Tokenizer/Advance.antt =====
-- next_token of common/term_tokenizer.cpp makes progress, whatever it finds; and what numbers are.
use epilog.Prelude.{
  [], ◌++◌, sym, ℕ, suc, ◌<◌, ◌≡◌, refl, ap, ◌∙◌, Bool, true, false, ◌||◌, ◌==◌, ==_iff, inl, inr,
  Bool-cases, List, ◌∷◌, length, length-append, arith,
}
use epilog.Prelude.Int.{ℤ}
use epilog.TokenChars.{
  is_digit, is_quote_char, is_small_letter, is_capital_letter, is_underline_char, is_layout_char,
  is_symbol_char, is_solo_char, is_punctuation_char,
}
use epilog.Tokenizer.{
  Tokenizer, Scan, thrown, scanned, ◌>>=◌, TokenException, natural_number, name_token, string_token,
  peek_is, next_char, set_token_type,
}
use epilog.Tokenizer.Text.{is_comment_begin}
use epilog.Tokenizer.Quoted.{next_quoted_name, set_quoted, next_string}
use epilog.Tokenizer.Number.{is_sign, number_tail, next_number}
use epilog.Tokenizer.Next.{token_from, start_token, keep_line, next_token}
use epilog.Tokenizer.Eaten.{next_char-input, peek_is-input, peek_is-some}
use epilog.Tokenizer.Progress.{EatenSome, next_integer_digits-first}
use mathlib.Core.List.{append_assoc}
use epilog.Tokenizer.Outcomes.{Reads, Stops, by_throw, by_return, itself}
use epilog.Tokenizer.Quotes.{quoted_name_loop-Stops, string_loop-Stops}
use epilog.Tokenizer.Numbers.{number_tail-Numeral, Numeral-Stops}
use epilog.Tokenizer.Tokens.{next_token-IsText, next_token_helper-some}

-- A part of the input has been read, which is not empty.
pub record Shorter (t u : Tokenizer) : Type 0 where
  pub text : List ℕ
  pub input : t.input ≡ text ++ u.input
  pub not_empty : 0 < length text

-- On both ways out the input has become shorter.
pub data Shortens (t : Tokenizer) : Scan Tokenizer → Type 0 where
  short_throw : {why : TokenException} {u : Tokenizer} → Shorter t u → Shortens t (thrown why u)
  short_return : {u : Tokenizer} → Shorter t u → Shortens t (scanned u)

Shorter-Reads : {t u v : Tokenizer} → Shorter t u → Reads u v → Shorter t v
Shorter-Reads {v = v} a b = record {
  text = a.text ++ b.text;
  input = a.input ∙ ap (λ s. a.text ++ s) b.input ∙ sym (append_assoc a.text b.text v.input);
  not_empty = omega (arith, length-append a.text b.text, a.not_empty);
}

Stops-Shortens :
    {t : Tokenizer} (u : Tokenizer) {r : Scan Tokenizer}
    → Shorter t u
    → Stops itself u r
    → Shortens t r
Stops-Shortens u a (by_throw b) = short_throw (Shorter-Reads a b)
Stops-Shortens u a (by_return b) = short_return (Shorter-Reads a b)

EatenSome-Shorter : {t u : Tokenizer} → EatenSome t u → Shorter t u
EatenSome-Shorter s = record { text = s.eaten.text; input = s.eaten.input; not_empty = s.not_empty }

next_char-Shorter :
    (ch : ℕ) (chs : List ℕ) (t : Tokenizer) → t.input ≡ ch ∷ chs → Shorter t (next_char t)
next_char-Shorter ch chs t e = record {
  text = ch ∷ [];
  input = e ∙ ap (λ (s : List ℕ). ch ∷ s) (sym (next_char-input ch chs t e));
  not_empty = omega arith;
}

-- A digit is no sign, so that next_number starts with its digits.
pub number_start :
    (lexical_cast : ℤ → List ℕ) (t : Tokenizer)
    → peek_is is_digit t ≡ true
    → (u : Tokenizer) × (next_number lexical_cast t ≡ number_tail lexical_cast u) × EatenSome t u
unfolding next_number
number_start lexical_cast t h =
    let (ch, chs, e, d) = peek_is-some is_digit t h in
    let no_sign : peek_is is_sign t ≡ false =
      peek_is-input is_sign ch chs t e ∙ (unfold is_sign is_digit in ground (arith, d)) in
    (_, rw no_sign refl, next_integer_digits-first t h)

pub from_digit :
    (lexical_cast : ℤ → List ℕ) (ch : ℕ) (t : Tokenizer)
    → is_digit ch ≡ true
    → token_from lexical_cast ch t ≡ next_number lexical_cast (set_token_type natural_number t)
unfolding token_from next_number
from_digit lexical_cast ch t d = rw (token_from, d) refl

pub from_single :
    (lexical_cast : ℤ → List ℕ) (ch : ℕ) (t : Tokenizer)
    → (ch == b'\'') ≡ true
    → token_from lexical_cast ch t ≡ next_quoted_name (set_token_type name_token t)
unfolding token_from next_quoted_name
from_single lexical_cast ch t y =
    let e : ch ≡ b'\'' = (==_iff ch b'\'').0 y in
    let d : is_digit ch ≡ false = unfold is_digit in ground (arith, e) in rw (token_from, d, y) refl

pub from_double :
    (lexical_cast : ℤ → List ℕ) (t : Tokenizer)
    → token_from lexical_cast b'"' t ≡ next_string (set_token_type string_token t)
unfolding token_from next_string is_digit is_small_letter is_capital_letter is_underline_char
    is_layout_char is_symbol_char is_solo_char is_punctuation_char
from_double lexical_cast t = refl

pub or_first : (a b : Bool) → a ≡ true → (a || b) ≡ true
or_first a b h = ground (arith, h)

pub or_second : (a b : Bool) → b ≡ true → (a || b) ≡ true
or_second a b h = ground (arith, h)

pub double_quote : (ch : ℕ) → is_quote_char ch ≡ true → (ch == b'\'') ≡ false → ch ≡ b'"'
unfolding is_quote_char
double_quote ch q n = ground (arith, q, n)

opened-Shorter :
    (ch : ℕ) (chs : List ℕ) (t : Tokenizer)
    → t.input ≡ ch ∷ chs
    → Shorter t (set_quoted (set_token_type name_token (next_char t)))
unfolding set_quoted set_token_type
opened-Shorter ch chs t e =
    let a = next_char-Shorter ch chs t e in
    record { text = a.text; input = a.input; not_empty = a.not_empty }

next_quoted_name-Shortens :
    (ch : ℕ) (chs : List ℕ) (t : Tokenizer) → t.input ≡ ch ∷ chs → Shortens t (next_quoted_name t)
unfolding next_quoted_name
next_quoted_name-Shortens ch chs t e =
    let u = set_quoted (set_token_type name_token (next_char t)) in
    Stops-Shortens u (opened-Shorter ch chs t e) (quoted_name_loop-Stops (suc (length u.input)) u)

next_string-Shortens :
    (t : Tokenizer) → peek_is (λ c. c == b'"') t ≡ true → Shortens t (next_string t)
unfolding next_string
next_string-Shortens t h =
    let (ch, chs, e, _) = peek_is-some (λ c. c == b'"') t h in
    let u = next_char t in
    rw h
      (Stops-Shortens u (next_char-Shorter ch chs t e) (string_loop-Stops (suc (length u.input)) u))

next_number-Shortens :
    (lexical_cast : ℤ → List ℕ) (t : Tokenizer)
    → peek_is is_digit t ≡ true
    → Shortens t (next_number lexical_cast t)
next_number-Shortens lexical_cast t h =
    let (u, e, s) = number_start lexical_cast t h in
    rw e (Stops-Shortens u (EatenSome-Shorter s) (Numeral-Stops (number_tail-Numeral u)))

pub no_comment :
    (ch : ℕ) (chs : List ℕ) (t : Tokenizer)
    → t.input ≡ ch ∷ chs
    → (ch == b'%') ≡ false
    → (ch == b'/') ≡ false
    → is_comment_begin t ≡ false
unfolding is_comment_begin
no_comment ch chs t e p s =
    let line = peek_is-input (λ c. c == b'%') ch chs t e ∙ p in
    let block = peek_is-input (λ c. c == b'/') ch chs t e ∙ s in rw (line, block) refl

pub starts_no_comment :
    (ch : ℕ)
    → is_digit ch || is_quote_char ch ≡ true
    → ((ch == b'%') ≡ false) × ((ch == b'/') ≡ false)
unfolding is_digit is_quote_char
starts_no_comment ch h = (ground (arith, h), ground (arith, h))

module _ (lexical_cast : ℤ → List ℕ) (ch : ℕ) (chs : List ℕ) (t : Tokenizer)
    (e : t.input ≡ ch ∷ chs) where
  -- Where no comment begins, next_token is token_from and the line's text.
  pub next_token-from :
      is_digit ch || is_quote_char ch ≡ true
      → next_token lexical_cast t
        ≡ (token_from lexical_cast ch (start_token t) >>= λ v. scanned (keep_line v))
  unfolding next_token
  next_token-from h =
      let started : (start_token t).input ≡ ch ∷ chs = unfold start_token in e in
      let (p, s) = starts_no_comment ch h in
      let n = no_comment ch chs (start_token t) started p s in
      rw (next_token_helper-some lexical_cast ch chs t e, n) refl

  keep_line-Shortens :
      (u : Tokenizer) {r : Scan Tokenizer}
      → u.input ≡ t.input
      → Shortens u r
      → Shortens t (r >>= λ v. scanned (keep_line v))
  unfolding keep_line
  keep_line-Shortens u k (short_throw b) =
      short_throw (record { text = b.text; input = sym k ∙ b.input; not_empty = b.not_empty })
  keep_line-Shortens u k (short_return b) =
      short_return (record { text = b.text; input = sym k ∙ b.input; not_empty = b.not_empty })

  quote-Shortens : is_quote_char ch ≡ true → Shortens t (next_token lexical_cast t)
  unfolding set_token_type start_token
  quote-Shortens q = rw (next_token-from (or_second _ _ q)) (elim (Bool-cases (ch == b'\'')) [
    | inl y ↦
        let v = set_token_type name_token (start_token t) in
        rw (from_single lexical_cast ch (start_token t) y)
          (keep_line-Shortens v refl (next_quoted_name-Shortens ch chs v e))
    | inr n ↦
        let v = set_token_type string_token (start_token t) in
        let c : ch ≡ b'"' = double_quote ch q n in
        let at_quote : peek_is (λ x. x == b'"') v ≡ true =
          peek_is-input (λ x. x == b'"') ch chs v e ∙ (==_iff ch b'"').1 c in
        let run =
          ap (λ x. token_from lexical_cast x (start_token t)) c
          ∙ from_double lexical_cast (start_token t) in
        rw run (keep_line-Shortens v refl (next_string-Shortens v at_quote))
  ])

  -- Whatever next_token finds, and also when it throws, it takes a part off the start of the input that is not
  -- empty.
  pub next_token-Shortens : ch < 256 → Shortens t (next_token lexical_cast t)
  next_token-Shortens below = elim (Bool-cases (is_digit ch)) [
    | inl d ↦
        let v = set_token_type natural_number (start_token t) in
        let same : v.input ≡ t.input = unfold set_token_type start_token in refl in
        let at_digit = peek_is-input is_digit ch chs v (same ∙ e) ∙ d in
        rw (next_token-from (or_first _ _ d), from_digit lexical_cast ch (start_token t) d)
          (keep_line-Shortens v same (next_number-Shortens lexical_cast v at_digit))
    | inr n ↦ elim (Bool-cases (is_quote_char ch)) [
      | inl q ↦ quote-Shortens q
      | inr q ↦
          let (u, run, its) = next_token-IsText lexical_cast ch chs t e below n q in
          let part : Shorter t u = record {
            text = u.current.lexeme;
            input = its.input;
            not_empty = its.not_empty;
          } in
          rw run (short_return part)
    ]
  ]
