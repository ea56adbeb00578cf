-- ===== src/Tokenizer/Progress.antt =====
-- The first character of a token of common/term_tokenizer.cpp is read whenever the token is of its class.
use epilog.Prelude.{
  ℕ, suc, ◌<◌, ◌≡◌, refl, ap, ◌∙◌, Bool, true, false, ◌||◌, ◌⊎◌, ◌==◌, inl, inr, Bool-cases, length,
  length-append, arith,
}
use epilog.TokenChars.{is_alpha, is_layout_char, is_symbol_char, is_digit}
use epilog.Tokenizer.{Tokenizer, peek_is, second_is, consume_next_char}
use epilog.Tokenizer.Text.{
  next_xs_loop, next_xs, next_alphas, next_integer_digits_loop, next_integer_digits,
  parse_block_comment, line_comment_loop, parse_line_comment, layout_text_loop, next_layout_text,
  is_comment_begin, symbol_loop, next_symbol,
}
use epilog.Tokenizer.Eaten.{
  Eaten, Eaten-trans, Eaten-trans_text, Eaten-consume_text, peek_is-some, peek_is-input,
  is_eof-input,
}
use epilog.Tokenizer.Texts.{
  peek_is-consume, next_xs_loop-Eaten, next_integer_digits_loop-Eaten, symbol_loop-Eaten,
  layout_text_loop-Eaten, line_comment_loop-Eaten, block_comment_loop-Eaten, second_is-consume,
}

pub record EatenSome (t u : Tokenizer) : Type 0 where
  pub eaten : Eaten t u
  pub not_empty : 0 < length eaten.text

pub EatenSome-first :
    (test : ℕ → Bool) {t u : Tokenizer}
    → peek_is test t ≡ true
    → Eaten (consume_next_char t) u
    → EatenSome t u
EatenSome-first test {t} h b =
    let (ch, chs, e, _) = peek_is-some test t h in
    let (a, z) = Eaten-consume_text ch chs t e in
    let (c, z') = Eaten-trans_text a b in
    record {
      eaten = c;
      not_empty = omega (arith, ap length z, ap length z', length-append a.text b.text);
    }

pub EatenSome-trans : {t u v : Tokenizer} → EatenSome t u → Eaten u v → EatenSome t v
EatenSome-trans a b =
    let (c, z) = Eaten-trans_text a.eaten b in
    record {
      eaten = c;
      not_empty = omega (arith, ap length z, length-append a.eaten.text b.text, a.not_empty);
    }

has_length :
    (test : ℕ → Bool) (t : Tokenizer) → peek_is test t ≡ true → (n : ℕ) × (length t.input ≡ suc n)
has_length test t h = let (ch, chs, e, _) = peek_is-some test t h in (length chs, ap length e)

pub next_alphas-first : (t : Tokenizer) → peek_is is_alpha t ≡ true → EatenSome t (next_alphas t).1
unfolding next_alphas next_xs next_xs_loop
next_alphas-first t h =
    let (n, e) = has_length is_alpha t h in
    rw (e, h) (EatenSome-first is_alpha h (next_xs_loop-Eaten n is_alpha 1 (consume_next_char t)))

pub next_integer_digits-first :
    (t : Tokenizer) → peek_is is_digit t ≡ true → EatenSome t (next_integer_digits t).1
unfolding next_integer_digits next_integer_digits_loop
next_integer_digits-first t h =
    let (n, e) = has_length is_digit t h in
    let (ch, chs, e', d) = peek_is-some is_digit t h in
    let goes_on : peek_is (λ c. is_digit c || c == b'_') t ≡ true =
      peek_is-input (λ c. is_digit c || c == b'_') ch chs t e' ∙ ground (arith, d) in
    let no_underscore : peek_is (λ c. c == b'_') t ≡ false =
      peek_is-input (λ c. c == b'_') ch chs t e' ∙ (unfold is_digit in ground (arith, d)) in
    rw (e, goes_on, no_underscore)
      (EatenSome-first is_digit h (next_integer_digits_loop-Eaten n false 1 (consume_next_char t)))

pub next_symbol-first :
    (t : Tokenizer)
    → peek_is is_symbol_char t ≡ true
    → is_comment_begin t ≡ false
    → EatenSome t (next_symbol t)
unfolding next_symbol symbol_loop
next_symbol-first t h n =
    let (k, e) = has_length is_symbol_char t h in
    rw (e, h, n) (EatenSome-first is_symbol_char h (symbol_loop-Eaten k (consume_next_char t)))

line_comment-first :
    (t : Tokenizer) → peek_is (λ c. c == b'%') t ≡ true → EatenSome t (parse_line_comment t)
unfolding parse_line_comment line_comment_loop
line_comment-first t h =
    let (k, e) = has_length _ t h in
    let (ch, chs, e', d) = peek_is-some (λ c. c == b'%') t h in
    let no_newline : peek_is (λ c. c == b'\n') t ≡ false =
      peek_is-input (λ c. c == b'\n') ch chs t e' ∙ ground (arith, d) in
    rw (e, h, no_newline, is_eof-input ch chs t e')
      (EatenSome-first (λ c. c == b'%') h (line_comment_loop-Eaten k (consume_next_char t)))

block_comment-first :
    (t : Tokenizer)
    → peek_is (λ c. c == b'/') t ≡ true
    → second_is (λ c. c == b'*') t ≡ true
    → EatenSome t (parse_block_comment t)
unfolding parse_block_comment
block_comment-first t h h' =
    rw (h, h')
      (EatenSome-first (λ c. c == b'/') h
        (Eaten-trans
          (peek_is-consume (λ c. c == b'*') (consume_next_char t)
            (second_is-consume (λ c. c == b'*') t h'))
          (block_comment_loop-Eaten _ 1 _)))

pub layout-first :
    (t : Tokenizer) → peek_is is_layout_char t ≡ true → EatenSome t (next_layout_text t)
unfolding next_layout_text layout_text_loop
layout-first t h =
    let (k, e) = has_length is_layout_char t h in
    rw (e, h) (EatenSome-first is_layout_char h (layout_text_loop-Eaten k (consume_next_char t)))

comment_cases :
    (t : Tokenizer)
    → is_comment_begin t ≡ true
    → (peek_is (λ c. c == b'%') t ≡ true)
      ⊎ (peek_is (λ c. c == b'/') t ≡ true) × (second_is (λ c. c == b'*') t ≡ true)
unfolding is_comment_begin
comment_cases t h = elim (Bool-cases (peek_is (λ c. c == b'%') t)) [
  | inl y ↦ inl y
  | inr n ↦ inr (ground (arith, h, n), ground (arith, h, n))
]

line_step :
    (k : ℕ) (t : Tokenizer)
    → peek_is is_layout_char t ≡ false
    → peek_is (λ c. c == b'/') t ≡ false
    → peek_is (λ c. c == b'%') t ≡ true
    → layout_text_loop (suc k) t ≡ layout_text_loop k (parse_line_comment t)
unfolding layout_text_loop
line_step k t l s y = rw (l, s, y) refl

block_step :
    (k : ℕ) (t : Tokenizer)
    → peek_is is_layout_char t ≡ false
    → peek_is (λ c. c == b'/') t ≡ true
    → peek_is (λ c. c == b'%') t ≡ false
    → second_is (λ c. c == b'*') t ≡ true
    → layout_text_loop (suc k) t ≡ layout_text_loop k (parse_block_comment t)
unfolding layout_text_loop
block_step k t l s n y = rw (l, s, n, y) refl

pub comment-first : (t : Tokenizer) → is_comment_begin t ≡ true → EatenSome t (next_layout_text t)
unfolding next_layout_text
comment-first t h = elim (comment_cases t h) [
  | inl y ↦
      let (k, e) = has_length _ t y in
      let (ch, chs, e', d) = peek_is-some (λ c. c == b'%') t y in
      let no_layout : peek_is is_layout_char t ≡ false =
        peek_is-input is_layout_char ch chs t e' ∙ (unfold is_layout_char in ground (arith, d)) in
      let no_slash : peek_is (λ c. c == b'/') t ≡ false =
        peek_is-input (λ c. c == b'/') ch chs t e' ∙ ground (arith, d) in
      rw (e, line_step k t no_layout no_slash y)
        (EatenSome-trans (line_comment-first t y) (layout_text_loop-Eaten k (parse_line_comment t)))
  | inr (y, z) ↦
      let (k, e) = has_length _ t y in
      let (ch, chs, e', d) = peek_is-some (λ c. c == b'/') t y in
      let no_layout : peek_is is_layout_char t ≡ false =
        peek_is-input is_layout_char ch chs t e' ∙ (unfold is_layout_char in ground (arith, d)) in
      let no_line : peek_is (λ c. c == b'%') t ≡ false =
        peek_is-input (λ c. c == b'%') ch chs t e' ∙ ground (arith, d) in
      rw (e, block_step k t no_layout y no_line z)
        (EatenSome-trans (block_comment-first t y z)
          (layout_text_loop-Eaten k (parse_block_comment t)))
]
