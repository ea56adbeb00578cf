-- ===== src/Tokenizer/Tokens.antt =====
-- next_token of common/term_tokenizer.cpp: which part of the input a token is, and that each token takes some.
use epilog.Prelude.{
  ℕ, ◌<◌, ◌≡◌, refl, sym, ap, ◌∙◌, Bool, true, false, ◌&&◌, ◌||◌, not, ◌==◌, inl, inr, Bool-cases,
  if◌then◌else◌, List, ◌∷◌, ◌++◌, length, arith, some,
}
use epilog.Prelude.Int.{ℤ}
use epilog.TokenChars.{
  is_layout_char, is_small_letter, is_capital_letter, is_digit, is_symbol_char, is_solo_char,
  is_punctuation_char, is_quote_char, is_underline_char, is_alpha,
}
use epilog.TokenChars.Classes.{classified}
use epilog.Tokenizer.{
  Tokenizer, Scan, scanned, ◌>>=◌, TokenType, name_token, variable_token, punctuation_char,
  layout_text, full_stop, peek_is, set_token_type, is_unknown, consume_next_char, peek_char,
}
use epilog.Tokenizer.Text.{
  is_comment_begin, is_full_stop, next_word, next_variable, next_solo_char, next_punctuation_char,
  next_full_stop, next_layout_text,
}
use epilog.Tokenizer.Next.{
  token_at, token_from, start_token, keep_line, next_token_helper, next_token,
}
use epilog.Tokenizer.Eaten.{moves, peek_is-input, Eaten-refl}
use epilog.Tokenizer.Progress.{
  EatenSome, EatenSome-first, next_alphas-first, next_symbol-first, layout-first, comment-first,
}

-- The token of the second state is a part of the input of the first one, and its text is that part.
pub record IsText (t u : Tokenizer) : Type 0 where
  pub input : t.input ≡ u.current.lexeme ++ u.input
  pub not_empty : 0 < length u.current.lexeme
  pub place : u.current.position ≡ t.position
  pub moved : u.position ≡ moves u.current.lexeme t.position
  pub unquoted : u.current.quoted ≡ false
  pub known : is_unknown u.current.type ≡ false

-- The scan ends with a token of which a type has been set before.
data Textual (t : Tokenizer) : Scan Tokenizer → Type 0 where
  textual :
      {u : Tokenizer} (tt : TokenType)
      → is_unknown tt ≡ false
      → EatenSome (set_token_type tt t) u
      → Textual t (scanned u)

Textual-if :
    (b : Bool) {t : Tokenizer} {r s : Scan Tokenizer}
    → (b ≡ true → Textual t r)
    → (b ≡ false → Textual t s)
    → Textual t (if b then r else s)
Textual-if true first second = first refl
Textual-if false first second = second refl

pub set_type-comment :
    (tt : TokenType) (t : Tokenizer) → is_comment_begin (set_token_type tt t) ≡ is_comment_begin t
unfolding set_token_type is_comment_begin
set_type-comment tt t = refl

small-is_alpha : (ch : ℕ) → is_small_letter ch ≡ true → is_alpha ch ≡ true
unfolding is_alpha
small-is_alpha ch h = rw h (ground arith)

variable-is_alpha :
    (ch : ℕ) → is_capital_letter ch || is_underline_char ch ≡ true → is_alpha ch ≡ true
unfolding is_alpha
variable-is_alpha ch h = ground (arith, h)

pub no_quote :
    (ch : ℕ) → is_quote_char ch ≡ false → ((ch == b'"') ≡ false) × ((ch == b'\'') ≡ false)
unfolding is_quote_char
no_quote ch q = (ground (arith, q), ground (arith, q))

and_first : (a b : Bool) → (a && b) ≡ true → a ≡ true
and_first a b h = ground (arith, h)

or_false : (a b : Bool) → (a || b) ≡ false → (a ≡ false) × (b ≡ false)
or_false a b h = (ground (arith, h), ground (arith, h))

no_symbol : (a b : Bool) → (a && not b) ≡ false → b ≡ false → a ≡ false
no_symbol a b h k = ground (arith, h, k)

module _ (lexical_cast : ℤ → List ℕ) where
  token_from-Textual :
      (ch : ℕ) (chs : List ℕ) (t : Tokenizer)
      → t.input ≡ ch ∷ chs
      → ch < 256
      → is_digit ch ≡ false
      → is_quote_char ch ≡ false
      → is_comment_begin t ≡ false
      → Textual t (token_from lexical_cast ch t)
  unfolding token_from next_word next_variable next_solo_char next_punctuation_char next_full_stop
      is_unknown
  token_from-Textual ch chs t e below d q c =
      let seen : (test : ℕ → Bool) (tt : TokenType)
          → test ch ≡ true
          → peek_is test (set_token_type tt t) ≡ true =
        λ test tt h.
          unfold set_token_type in (peek_is-input test ch chs (set_token_type tt t) e ∙ h) in
      let one : (tt : TokenType)
          → is_unknown tt ≡ false
          → Textual t (scanned (consume_next_char (set_token_type tt t))) =
        λ tt k.
          textual tt k (EatenSome-first (λ x. true) (seen (λ x. true) tt refl) (Eaten-refl _)) in
      let (not_double, not_single) = no_quote ch q in
      Textual-if (is_digit ch) (λ h. cc)
        λ h0.
          Textual-if (ch == b'\'') (λ h. cc)
            λ h1.
              Textual-if (is_small_letter ch)
                (λ h.
                  textual name_token refl
                    (next_alphas-first _ (seen is_alpha name_token (small-is_alpha ch h))))
                λ h2.
                  Textual-if (is_capital_letter ch || is_underline_char ch)
                    (λ h.
                      textual variable_token refl (
                        next_alphas-first _
                          (seen is_alpha variable_token (variable-is_alpha ch h))))
                    λ h3.
                      Textual-if (is_layout_char ch)
                        (λ h.
                          textual layout_text refl
                            (layout-first _ (seen is_layout_char layout_text h)))
                        λ h4.
                          Textual-if (is_symbol_char ch && not (is_full_stop ch))
                            (λ h. textual name_token refl (
                              next_symbol-first _ (seen is_symbol_char name_token (and_first _ _ h))
                                (set_type-comment name_token t ∙ c)))
                            λ h5.
                              Textual-if (is_solo_char ch) (λ h. one name_token refl)
                                λ h6.
                                  Textual-if (is_punctuation_char ch)
                                    (λ h. one punctuation_char refl)
                                    λ h7.
                                      Textual-if (ch == b'"') (λ h. cc)
                                        λ h8.
                                          Textual-if (is_full_stop ch) (λ h. one full_stop refl)
                                            λ h9.
                                              let (h10, h11) = or_false _ _ h3 in
                                              let none_left =
                                                classified ch below h4 h2 h10 d
                                                  (no_symbol _ _ h5 h9) h6 h7 q h11 in
                                              absurd (omega (arith, none_left))

pub Eaten-IsText :
    {t u : Tokenizer} (tt : TokenType)
    → is_unknown tt ≡ false
    → EatenSome (set_token_type tt (start_token t)) u
    → IsText t (keep_line u)
unfolding keep_line set_token_type start_token
Eaten-IsText {t} {u} tt k s =
    let a = s.eaten in
    let its_text : u.current.lexeme ≡ a.text = a.lexeme in
    record {
      input = a.input ∙ ap (λ w. w ++ u.input) (sym its_text);
      not_empty = rw its_text s.not_empty;
      place = a.place;
      moved = a.moved ∙ ap (λ w. moves w t.position) (sym its_text);
      unquoted = a.quoted;
      known = a.known k;
    }

-- The first choice of next_token_helper, where there is input.
pub next_token_helper-some :
    (lexical_cast : ℤ → List ℕ) (ch : ℕ) (chs : List ℕ) (t : Tokenizer)
    → t.input ≡ ch ∷ chs
    → next_token_helper lexical_cast t ≡ (
        if is_comment_begin (start_token t)
        then scanned (next_layout_text (set_token_type layout_text (start_token t)))
        else token_from lexical_cast ch (start_token t))
unfolding next_token_helper token_at
next_token_helper-some lexical_cast ch chs t e =
    let seen : peek_char (start_token t) ≡ some ch = unfold peek_char start_token in rw e refl in
    ap (λ o. token_at lexical_cast o (start_token t)) seen

-- A token that starts neither with a quote nor with a digit is always found: next_token does not throw, the
-- lexeme is the part of the input that has been read, which is not empty, the token stands where the reading
-- started, and the position has moved over that part.
pub next_token-IsText :
    (lexical_cast : ℤ → List ℕ) (ch : ℕ) (chs : List ℕ) (t : Tokenizer)
    → t.input ≡ ch ∷ chs
    → ch < 256
    → is_digit ch ≡ false
    → is_quote_char ch ≡ false
    → (u : Tokenizer) × (next_token lexical_cast t ≡ scanned u) × IsText t u
unfolding next_token
next_token-IsText lexical_cast ch chs t e below d q =
    let started : (start_token t).input ≡ ch ∷ chs = unfold start_token in e in
    elim (Bool-cases (is_comment_begin (start_token t))) [
      | inl y ↦
          let here = set_type-comment layout_text (start_token t) ∙ y in
          (
            _,
            rw (next_token_helper-some lexical_cast ch chs t e, y) refl,
            Eaten-IsText layout_text (unfold is_unknown in refl) (comment-first _ here),
          )
      | inr n ↦
          rw (next_token_helper-some lexical_cast ch chs t e, n)
            (kept (token_from-Textual lexical_cast ch chs (start_token t) started below d q n))
    ]
  where
    kept :
        {r : Scan Tokenizer}
        → Textual (start_token t) r
        → (u : Tokenizer) × ((r >>= λ v. scanned (keep_line v)) ≡ scanned u) × IsText t u
    kept (textual {u = v} tt k s) = (keep_line v, refl, Eaten-IsText tt k s)
