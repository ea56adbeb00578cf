-- ===== src/Tokenizer/Texts.antt =====
-- What the operations of common/term_tokenizer.cpp that cannot fail read: all of it goes into the lexeme.
use epilog.Prelude.{
  ℕ, zero, suc, ◌+◌, ◌-◌, ◌≡◌, refl, sym, ◌∙◌, Bool, true, false, ◌&&◌, ◌||◌, not, ltb, ◌==◌,
  ==_iff, inl, inr, Bool-cases, if◌then◌else◌, List, [], ◌∷◌, length, arith,
}
use epilog.TokenChars.{is_digit, is_symbol_char, is_layout_char}
use epilog.Tokenizer.{
  Tokenizer, peek_is, second_is, is_eof, next_char, consume_next_char, append_lexeme, add_to_lexeme,
  peek_char,
}
use epilog.Tokenizer.Text.{
  next_xs_loop, next_xs, next_alphas, next_digits, next_integer_digits_loop, next_integer_digits,
  block_comment_loop, parse_block_comment, line_comment_loop, parse_line_comment, layout_text_loop,
  next_layout_text, is_comment_begin, symbol_loop, next_symbol,
}
use epilog.Tokenizer.Eaten.{
  moves, next_char-input, Eaten, Eaten-refl, Eaten-trans, Eaten-consume, peek_is-some, is_eof-some,
  list_cases,
}

pub peek_is-consume :
    (test : ℕ → Bool) (t : Tokenizer) → peek_is test t ≡ true → Eaten t (consume_next_char t)
peek_is-consume test t h = let (ch, chs, e, _) = peek_is-some test t h in Eaten-consume ch chs t e

-- The two ways on of a loop.
Eaten-if :
    (b : Bool) {t u v : Tokenizer}
    → (b ≡ true → Eaten t u)
    → (b ≡ false → Eaten t v)
    → Eaten t (if b then u else v)
Eaten-if true yes_way no_way = yes_way refl
Eaten-if false yes_way no_way = no_way refl

pub next_xs_loop-Eaten :
    (rounds : ℕ) (predicate : ℕ → Bool) (cnt : ℕ) (t : Tokenizer)
    → Eaten t (next_xs_loop rounds predicate cnt t).1
unfolding next_xs_loop
next_xs_loop-Eaten zero predicate cnt t = Eaten-refl t
next_xs_loop-Eaten (suc rounds) predicate cnt t = elim (Bool-cases (peek_is predicate t)) [
  | inl y ↦ rw y (
      Eaten-trans (peek_is-consume predicate t y)
        (next_xs_loop-Eaten rounds predicate (cnt + 1) (consume_next_char t)))
  | inr n ↦ rw n (Eaten-refl t)
]

pub next_alphas-Eaten : (t : Tokenizer) → Eaten t (next_alphas t).1
unfolding next_alphas next_xs
next_alphas-Eaten t = next_xs_loop-Eaten (length t.input) _ 0 t

pub next_digits-Eaten : (t : Tokenizer) → Eaten t (next_digits t).1
unfolding next_digits next_xs
next_digits-Eaten t = next_xs_loop-Eaten (length t.input) _ 0 t

pub integer_digit : ℕ → Bool
integer_digit c = is_digit c || c == b'_'

pub next_integer_digits_loop-Eaten :
    (rounds : ℕ) (last : Bool) (cnt : ℕ) (t : Tokenizer)
    → Eaten t (next_integer_digits_loop rounds last cnt t).1
unfolding next_integer_digits_loop integer_digit
next_integer_digits_loop-Eaten zero last cnt t = Eaten-refl t
next_integer_digits_loop-Eaten (suc rounds) last cnt t =
    elim (Bool-cases (peek_is integer_digit t)) [
      | inr n ↦ rw n (Eaten-refl t)
      | inl y ↦
          let was = peek_is (λ c. c == b'_') t in
          let more =
            Eaten-trans (peek_is-consume integer_digit t y)
              (next_integer_digits_loop-Eaten rounds was (cnt + 1) (consume_next_char t)) in
          elim (Bool-cases (cnt == 0 && was)) [
            | inl z ↦ rw (y, z) (Eaten-refl t)
            | inr z ↦ elim (Bool-cases (last && was)) [
              | inl w ↦ rw (y, z, w) (Eaten-refl t)
              | inr w ↦ rw (y, z, w) more
            ]
          ]
    ]

pub next_integer_digits-Eaten : (t : Tokenizer) → Eaten t (next_integer_digits t).1
unfolding next_integer_digits
next_integer_digits-Eaten t = next_integer_digits_loop-Eaten (length t.input) false 0 t

pub symbol_loop-Eaten : (rounds : ℕ) (t : Tokenizer) → Eaten t (symbol_loop rounds t)
unfolding symbol_loop
symbol_loop-Eaten zero t = Eaten-refl t
symbol_loop-Eaten (suc rounds) t =
    Eaten-if (peek_is is_symbol_char t && not (is_comment_begin t))
      (λ h.
        Eaten-trans (peek_is-consume is_symbol_char t (ground (arith, h)))
          (symbol_loop-Eaten rounds (consume_next_char t)))
      (λ h. Eaten-refl t)

pub next_symbol-Eaten : (t : Tokenizer) → Eaten t (next_symbol t)
unfolding next_symbol
next_symbol-Eaten t = symbol_loop-Eaten (length t.input) t

pub line_comment_loop-Eaten : (rounds : ℕ) (t : Tokenizer) → Eaten t (line_comment_loop rounds t)
unfolding line_comment_loop
line_comment_loop-Eaten zero t = Eaten-refl t
line_comment_loop-Eaten (suc rounds) t =
    Eaten-if (peek_is (λ c. c == b'\n') t) (peek_is-consume _ t) (λ h.
      Eaten-if (is_eof t) (λ end. Eaten-refl t)
        (λ more.
          let (ch, chs, e) = is_eof-some t more in
          Eaten-trans (Eaten-consume ch chs t e)
            (line_comment_loop-Eaten rounds (consume_next_char t))))

pub parse_line_comment-Eaten : (t : Tokenizer) → Eaten t (parse_line_comment t)
unfolding parse_line_comment
parse_line_comment-Eaten t =
    Eaten-if (not (peek_is (λ c. c == b'%') t)) (λ h. Eaten-refl t)
      (λ h. line_comment_loop-Eaten (length t.input) t)

-- Two characters read, and put into the lexeme together.
pub Eaten-pair :
    (a b : ℕ) (s : List ℕ) (t : Tokenizer)
    → t.input ≡ a ∷ b ∷ s
    → (x : Eaten t (append_lexeme (a ∷ b ∷ []) (next_char (next_char t)))) × (x.text ≡ a ∷ b ∷ [])
unfolding append_lexeme next_char moves
Eaten-pair a b s t e = (
  record {
    text = a ∷ b ∷ [];
    input = rw e refl;
    lexeme = refl;
    moved = rw e refl;
    place = refl;
    quoted = refl;
    known = λ h. h;
    line = refl;
  },
  refl,
)

pub Eaten-two :
    (a b : ℕ) (t : Tokenizer)
    → peek_is (λ c. c == a) t ≡ true
    → peek_is (λ c. c == b) (next_char t) ≡ true
    → Eaten t (append_lexeme (a ∷ b ∷ []) (next_char (next_char t)))
Eaten-two a b t p q =
    let (c, cs, e, ca) = peek_is-some (λ x. x == a) t p in
    let (d, ds, e', db) = peek_is-some (λ x. x == b) (next_char t) q in
    let ca' : c ≡ a = (==_iff c a).0 ca in
    let db' : d ≡ b = (==_iff d b).0 db in
    let behind : cs ≡ d ∷ ds = sym (next_char-input c cs t e) ∙ e' in
    (Eaten-pair a b ds t (e ∙ rw (behind, ca', db') refl)).0

pub Eaten-peek :
    (t : Tokenizer) → is_eof t ≡ false → Eaten t (add_to_lexeme (peek_char t) (next_char t))
unfolding consume_next_char peek_char
Eaten-peek t more = let (ch, chs, e) = is_eof-some t more in Eaten-consume ch chs t e

pub block_comment_loop-Eaten :
    (rounds depth : ℕ) (t : Tokenizer) → Eaten t (block_comment_loop rounds depth t)
unfolding block_comment_loop
block_comment_loop-Eaten zero depth t = Eaten-refl t
block_comment_loop-Eaten (suc rounds) depth t =
    Eaten-if (not (ltb 0 depth && not (is_eof t))) (λ h. Eaten-refl t)
      λ h.
        Eaten-if (peek_is (λ c. c == b'*') t && peek_is (λ c. c == b'/') (next_char t))
          (λ k.
            Eaten-trans (Eaten-two b'*' b'/' t (ground (arith, k)) (ground (arith, k)))
              (block_comment_loop-Eaten rounds (depth - 1) _))
          λ k.
            Eaten-if (peek_is (λ c. c == b'/') t && peek_is (λ c. c == b'*') (next_char t))
              (λ l.
                Eaten-trans (Eaten-two b'/' b'*' t (ground (arith, l)) (ground (arith, l)))
                  (block_comment_loop-Eaten rounds (depth + 1) _))
              λ l.
                Eaten-trans (Eaten-peek t (ground (arith, h)))
                  (block_comment_loop-Eaten rounds depth _)

pub second_is-consume :
    (test : ℕ → Bool) (t : Tokenizer)
    → second_is test t ≡ true
    → peek_is test (consume_next_char t) ≡ true
unfolding second_is peek_is consume_next_char add_to_lexeme append_lexeme next_char
second_is-consume test t h = elim (list_cases t.input) [
  | inl e ↦ cc (rw e at h)
  | inr (ch, chs, e) ↦ rw e (rw e at h)
]

pub parse_block_comment-Eaten : (t : Tokenizer) → Eaten t (parse_block_comment t)
unfolding parse_block_comment
parse_block_comment-Eaten t =
    Eaten-if (peek_is (λ c. c == b'/') t && second_is (λ c. c == b'*') t)
      (λ h. Eaten-trans (peek_is-consume (λ c. c == b'/') t (ground (arith, h))) (
        Eaten-trans
          (peek_is-consume (λ c. c == b'*') (consume_next_char t)
            (second_is-consume (λ c. c == b'*') t (ground (arith, h))))
          (block_comment_loop-Eaten _ 1 _)))
      λ h. Eaten-refl t

pub layout_text_loop-Eaten : (rounds : ℕ) (t : Tokenizer) → Eaten t (layout_text_loop rounds t)
unfolding layout_text_loop
layout_text_loop-Eaten zero t = Eaten-refl t
layout_text_loop-Eaten (suc rounds) t =
    Eaten-if (peek_is is_layout_char t)
      (λ h.
        Eaten-trans (peek_is-consume is_layout_char t h)
          (layout_text_loop-Eaten rounds (consume_next_char t)))
      λ h.
        Eaten-if (peek_is (λ c. c == b'/') t && is_comment_begin t)
          (λ k. Eaten-trans (parse_block_comment-Eaten t) (layout_text_loop-Eaten rounds _))
          λ k.
            Eaten-if (peek_is (λ c. c == b'%') t)
              (λ l. Eaten-trans (parse_line_comment-Eaten t) (layout_text_loop-Eaten rounds _))
              λ l. Eaten-refl t

pub next_layout_text-Eaten : (t : Tokenizer) → Eaten t (next_layout_text t)
unfolding next_layout_text
next_layout_text-Eaten t = layout_text_loop-Eaten (length t.input) t
