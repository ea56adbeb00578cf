-- ===== src/Tokenizer/Text.antt =====
-- The operations of common/term_tokenizer.cpp that cannot fail: runs of characters, layout, comments and symbols.
-- Each loop reads at least one character a round, and runs on as many rounds as the input has characters.
use epilog.Prelude.{
  ℕ, zero, suc, ◌+◌, ◌-◌, Bool, false, ◌&&◌, ◌||◌, not, ltb, ◌==◌, if◌then◌else◌, [], ◌∷◌, length,
}
use epilog.TokenChars.{is_layout_char, is_symbol_char, is_digit, is_alpha}
use epilog.Tokenizer.{
  Tokenizer, peek_char, peek_is, second_is, is_eof, next_char, consume_next_char, append_lexeme,
  add_to_lexeme,
}

-- The loop of next_xs
unfoldable pub next_xs_loop : ℕ → (ℕ → Bool) → ℕ → Tokenizer → ℕ × Tokenizer
unfolding peek_is consume_next_char
next_xs_loop zero predicate cnt t = (cnt, t)
next_xs_loop (suc rounds) predicate cnt t =
    let more = next_xs_loop rounds predicate (cnt + 1) (consume_next_char t) in
    if peek_is predicate t then more else (cnt, t)

unfoldable pub next_xs : (ℕ → Bool) → Tokenizer → ℕ × Tokenizer
unfolding next_xs_loop
next_xs predicate t = next_xs_loop (length t.input) predicate 0 t

unfoldable pub next_digits : Tokenizer → ℕ × Tokenizer
unfolding next_xs
next_digits = next_xs is_digit

unfoldable pub next_alphas : Tokenizer → ℕ × Tokenizer
unfolding next_xs
next_alphas = next_xs is_alpha

-- The loop of next_integer_digits
unfoldable pub next_integer_digits_loop : ℕ → Bool → ℕ → Tokenizer → ℕ × Tokenizer
unfolding peek_is consume_next_char
next_integer_digits_loop zero last_underscore cnt t = (cnt, t)
next_integer_digits_loop (suc rounds) last_underscore cnt t =
    let was_underscore = peek_is (λ c. c == b'_') t in
    let more = next_integer_digits_loop rounds was_underscore (cnt + 1) (consume_next_char t) in
    if not (peek_is (λ c. is_digit c || c == b'_') t)
    then (cnt, t)
    else if cnt == 0 && was_underscore
    then (cnt, t)
    else if last_underscore && was_underscore
    then (cnt, t)
    else more

unfoldable pub next_integer_digits : Tokenizer → ℕ × Tokenizer
unfolding next_integer_digits_loop
next_integer_digits t = next_integer_digits_loop (length t.input) false 0 t

unfoldable pub next_word : Tokenizer → Tokenizer
unfolding next_alphas
next_word t = (next_alphas t).1

unfoldable pub next_variable : Tokenizer → Tokenizer
unfolding next_alphas
next_variable t = (next_alphas t).1

unfoldable pub is_comment_begin : Tokenizer → Bool
unfolding peek_is second_is
is_comment_begin t =
    peek_is (λ c. c == b'%') t || (peek_is (λ c. c == b'/') t && second_is (λ c. c == b'*') t)

-- is_full_stop() const, the one that looks at the character behind the dot
unfoldable pub is_full_stop_here : Tokenizer → Bool
unfolding peek_is second_is is_eof next_char
is_full_stop_here t =
    peek_is (λ c. c == b'.') t && (is_eof (next_char t) || second_is is_layout_char t)

-- is_full_stop(int ch) const
unfoldable pub is_full_stop : ℕ → Bool
is_full_stop ch = ch == b'.'

-- The loop of parse_block_comment
unfoldable pub block_comment_loop : ℕ → ℕ → Tokenizer → Tokenizer
unfolding peek_is is_eof next_char append_lexeme add_to_lexeme peek_char
block_comment_loop zero depth t = t
block_comment_loop (suc rounds) depth t =
    let u = next_char t in
    let closed =
      block_comment_loop rounds (depth - 1) (append_lexeme (b'*' ∷ b'/' ∷ []) (next_char u)) in
    let opened =
      block_comment_loop rounds (depth + 1) (append_lexeme (b'/' ∷ b'*' ∷ []) (next_char u)) in
    let other = block_comment_loop rounds depth (add_to_lexeme (peek_char t) u) in
    if not (ltb 0 depth && not (is_eof t))
    then t
    else if peek_is (λ c. c == b'*') t && peek_is (λ c. c == b'/') u
    then closed
    else if peek_is (λ c. c == b'/') t && peek_is (λ c. c == b'*') u
    then opened
    else other

unfoldable pub parse_block_comment : Tokenizer → Tokenizer
unfolding block_comment_loop peek_is second_is consume_next_char
parse_block_comment t =
    let u = consume_next_char (consume_next_char t) in
    if peek_is (λ c. c == b'/') t && second_is (λ c. c == b'*') t
    then block_comment_loop (length u.input) 1 u
    else t

-- The loop of parse_line_comment, with the newline behind it
unfoldable pub line_comment_loop : ℕ → Tokenizer → Tokenizer
unfolding peek_is is_eof consume_next_char
line_comment_loop zero t = t
line_comment_loop (suc rounds) t =
    let more = line_comment_loop rounds (consume_next_char t) in
    if peek_is (λ c. c == b'\n') t then consume_next_char t else if is_eof t then t else more

unfoldable pub parse_line_comment : Tokenizer → Tokenizer
unfolding line_comment_loop peek_is
parse_line_comment t =
    if not (peek_is (λ c. c == b'%') t) then t else line_comment_loop (length t.input) t

-- The loop of next_layout_text
unfoldable pub layout_text_loop : ℕ → Tokenizer → Tokenizer
unfolding peek_is consume_next_char is_comment_begin parse_block_comment parse_line_comment
layout_text_loop zero t = t
layout_text_loop (suc rounds) t =
    let layout = layout_text_loop rounds (consume_next_char t) in
    let block = layout_text_loop rounds (parse_block_comment t) in
    let line = layout_text_loop rounds (parse_line_comment t) in
    if peek_is is_layout_char t
    then layout
    else if peek_is (λ c. c == b'/') t && is_comment_begin t
    then block
    else if peek_is (λ c. c == b'%') t
    then line
    else t

unfoldable pub next_layout_text : Tokenizer → Tokenizer
unfolding layout_text_loop
next_layout_text t = layout_text_loop (length t.input) t

-- The loop of next_symbol
unfoldable pub symbol_loop : ℕ → Tokenizer → Tokenizer
unfolding peek_is is_comment_begin consume_next_char
symbol_loop zero t = t
symbol_loop (suc rounds) t =
    let more = symbol_loop rounds (consume_next_char t) in
    if peek_is is_symbol_char t && not (is_comment_begin t) then more else t

unfoldable pub next_symbol : Tokenizer → Tokenizer
unfolding symbol_loop
next_symbol t = symbol_loop (length t.input) t

unfoldable pub next_solo_char : Tokenizer → Tokenizer
unfolding consume_next_char
next_solo_char = consume_next_char

unfoldable pub next_punctuation_char : Tokenizer → Tokenizer
unfolding consume_next_char
next_punctuation_char = consume_next_char

unfoldable pub next_full_stop : Tokenizer → Tokenizer
unfolding consume_next_char
next_full_stop = consume_next_char
