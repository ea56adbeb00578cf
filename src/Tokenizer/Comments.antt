-- ===== src/Tokenizer/Comments.antt =====
-- Block comments of common/term_tokenizer.cpp: the rounds of the loop of parse_block_comment.
use epilog.Prelude.{
  ℕ, suc, ◌&&◌, ◌+◌, ◌-◌, ◌≡◌, refl, true, false, ◌==◌, List, [], ◌∷◌, ◌++◌, arith,
}
use epilog.Tokenizer.{Tokenizer, peek_is, next_char, consume_next_char, append_lexeme, peek_char}
use epilog.Tokenizer.Text.{block_comment_loop}
use epilog.Tokenizer.Eaten.{peek_is-input, is_eof-input, next_char-input}

-- The character that stands first in the text of a comment with the end of the comment behind it.
abbrev pub next_of : List ℕ → ℕ
next_of [] = b'*'
next_of (ch ∷ s) = ch

-- The text of a comment without its two ends: whole comments, and characters that neither end nor begin a comment
-- together with the character behind them.
pub data IsBody : List ℕ → Type 0 where
  body_end : IsBody []
  body_char :
      {s : List ℕ} (ch : ℕ)
      → ((ch == b'*') && (next_of s == b'/')) ≡ false
      → ((ch == b'/') && (next_of s == b'*')) ≡ false
      → IsBody s
      → IsBody (ch ∷ s)
  body_comment :
      {r s : List ℕ} → IsBody r → IsBody s → IsBody (b'/' ∷ b'*' ∷ (r ++ (b'*' ∷ b'/' ∷ s)))

pub pair-input :
    (a b : ℕ) (s : List ℕ) (t : Tokenizer)
    → t.input ≡ a ∷ b ∷ s
    → (append_lexeme (a ∷ b ∷ []) (next_char (next_char t))).input ≡ s
unfolding append_lexeme next_char
pair-input a b s t e = rw e refl

-- One round, by the two characters that are next.
pub close_round :
    (n depth : ℕ) (s : List ℕ) (t : Tokenizer)
    → t.input ≡ b'*' ∷ b'/' ∷ s
    → block_comment_loop (suc n) (suc depth) t
      ≡ block_comment_loop n depth (append_lexeme (b'*' ∷ b'/' ∷ []) (next_char (next_char t)))
unfolding block_comment_loop
close_round n depth s t e =
    let first : peek_is (λ c. c == b'*') t ≡ true =
      peek_is-input (λ c. c == b'*') b'*' (b'/' ∷ s) t e in
    let second : peek_is (λ c. c == b'/') (next_char t) ≡ true =
      peek_is-input (λ c. c == b'/') b'/' s (next_char t) (next_char-input b'*' (b'/' ∷ s) t e) in
    let less : suc depth - 1 ≡ depth = omega arith in
    rw (is_eof-input b'*' (b'/' ∷ s) t e, first, second, less) (ground arith)

pub open_round :
    (n depth : ℕ) (s : List ℕ) (t : Tokenizer)
    → t.input ≡ b'/' ∷ b'*' ∷ s
    → block_comment_loop (suc n) (suc depth) t
      ≡ block_comment_loop n
          (suc (suc depth))
          (append_lexeme (b'/' ∷ b'*' ∷ []) (next_char (next_char t)))
unfolding block_comment_loop
open_round n depth s t e =
    let no_star : peek_is (λ c. c == b'*') t ≡ false =
      peek_is-input (λ c. c == b'*') b'/' (b'*' ∷ s) t e in
    let first : peek_is (λ c. c == b'/') t ≡ true =
      peek_is-input (λ c. c == b'/') b'/' (b'*' ∷ s) t e in
    let second : peek_is (λ c. c == b'*') (next_char t) ≡ true =
      peek_is-input (λ c. c == b'*') b'*' s (next_char t) (next_char-input b'/' (b'*' ∷ s) t e) in
    let more : suc depth + 1 ≡ suc (suc depth) = omega arith in
    rw (is_eof-input b'/' (b'*' ∷ s) t e, no_star, first, second, more) (ground arith)

pub char_round :
    (n depth ch after : ℕ) (s : List ℕ) (t : Tokenizer)
    → t.input ≡ ch ∷ after ∷ s
    → ((ch == b'*') && (after == b'/')) ≡ false
    → ((ch == b'/') && (after == b'*')) ≡ false
    → block_comment_loop (suc n) (suc depth) t
      ≡ block_comment_loop n (suc depth) (consume_next_char t)
unfolding block_comment_loop consume_next_char peek_char
char_round n depth ch after s t e p q =
    let e1 = next_char-input ch (after ∷ s) t e in
    let star = peek_is-input (λ c. c == b'*') ch (after ∷ s) t e in
    let slash = peek_is-input (λ c. c == b'/') ch (after ∷ s) t e in
    let then_slash = peek_is-input (λ c. c == b'/') after s (next_char t) e1 in
    let then_star = peek_is-input (λ c. c == b'*') after s (next_char t) e1 in
    rw (is_eof-input ch (after ∷ s) t e, star, slash, then_slash, then_star, p, q) (ground arith)
