-- ===== src/Tokenizer/Quoted.antt =====
-- Quoted names, strings and escape sequences of common/term_tokenizer.cpp.
use Prim.Native.Nat.{bit_or}
use epilog.Prelude.{
  ℕ, zero, suc, ◌+◌, ◌-◌, ◌*◌, ◌%◌, true, ◌&&◌, not, leb, ◌==◌, if◌then◌else◌, none, some, [], ◌∷◌,
  length,
}
use epilog.TokenChars.{is_layout_char, is_capital_letter, is_small_letter}
use epilog.Tokenizer.{
  Tokenizer, Scan, scanned, ◌>>=◌, throw_token, peek_char, peek_is, is_eof, next_char,
  consume_next_char, append_lexeme, add_to_lexeme, set_token_type, control_char, hex_code,
  unterminated_string, unterminated_quoted_name, unterminated_escape, name_token,
}

unfoldable pub parse_hex_digit : Tokenizer → Scan (ℕ × Tokenizer)
unfolding peek_char next_char throw_token
parse_hex_digit t =
    let u = next_char t in
    elim (peek_char t) [
      | none ↦ throw_token hex_code u
      | some ch ↦
          if leb b'a' ch && leb ch b'f'
          then scanned (ch - b'a' + 10, u)
          else if leb b'A' ch && leb ch b'F'
          then scanned (ch - b'A' + 10, u)
          else if leb b'0' ch && leb ch b'9'
          then scanned (ch - b'0', u)
          else throw_token hex_code u
    ]

-- The loop of parse_oct_code
unfoldable pub oct_code_loop : ℕ → ℕ → Tokenizer → ℕ × Tokenizer
unfolding peek_char next_char
oct_code_loop zero v t = (v, t)
oct_code_loop (suc i) v t =
    let u = next_char t in
    elim (peek_char t) [
      | none ↦ (v, u)
      | some ch ↦
          let more = oct_code_loop i (bit_or (v * 8) (ch - b'0')) u in
          if leb b'0' ch && leb ch b'7' then more else (v, u)
    ]

unfoldable pub parse_oct_code : Tokenizer → ℕ × Tokenizer
unfolding oct_code_loop
parse_oct_code = oct_code_loop 3 0

-- The test for the end of the input in an escape sequence
unfoldable pub escape_goes_on : Tokenizer → Scan Tokenizer
unfolding is_eof throw_token
escape_goes_on t = if is_eof t then throw_token unterminated_escape t else scanned t

-- The case 'x': the code is cast to a char.
unfoldable pub hex_escape : Tokenizer → Scan Tokenizer
unfolding escape_goes_on parse_hex_digit append_lexeme
hex_escape t = escape_goes_on t >>= λ t0. parse_hex_digit t0 >>= λ r1. escape_goes_on r1.1 >>= λ t1.
    parse_hex_digit t1 >>= λ r2. scanned (append_lexeme (bit_or (r1.0 * 256) r2.0 % 256 ∷ []) r2.1)

-- The loop of the case 'c'
unfoldable pub skip_layout_loop : ℕ → Tokenizer → Tokenizer
unfolding peek_is next_char
skip_layout_loop zero t = t
skip_layout_loop (suc rounds) t =
    let more = skip_layout_loop rounds (next_char t) in if peek_is is_layout_char t then more else t

-- The case '^', behind its character
unfoldable pub control_code : ℕ → Tokenizer → Scan Tokenizer
unfolding append_lexeme throw_token
control_code ch t =
    if ch == b'?'
    then scanned (append_lexeme (127 ∷ []) t)
    else if is_capital_letter ch
    then scanned (append_lexeme ((ch - b'A' + 1) % 32 ∷ []) t)
    else if is_small_letter ch
    then scanned (append_lexeme ((ch - b'a' + 1) % 32 ∷ []) t)
    else throw_token control_char t

unfoldable pub control_escape : Tokenizer → Scan Tokenizer
unfolding peek_char throw_token control_code next_char
control_escape t = elim (peek_char t) [
  | none ↦ throw_token unterminated_escape t
  | some ch ↦ control_code ch (next_char t)
]

-- The default case
unfoldable pub other_escape : ℕ → Tokenizer → Tokenizer
unfolding parse_oct_code append_lexeme
other_escape ch t =
    if leb b'0' ch && leb ch b'7'
    then append_lexeme ((parse_oct_code t).0 % 256 ∷ []) (parse_oct_code t).1
    else if is_layout_char ch
    then t
    else append_lexeme (ch ∷ []) t

-- The switch of next_escape_sequence
unfoldable pub escape_code : ℕ → Tokenizer → Scan Tokenizer
unfolding append_lexeme hex_escape skip_layout_loop control_escape other_escape
escape_code ch t =
    if ch == b'b'
    then scanned (append_lexeme (8 ∷ []) t)
    else if ch == b't'
    then scanned (append_lexeme (9 ∷ []) t)
    else if ch == b'n'
    then scanned (append_lexeme (10 ∷ []) t)
    else if ch == b'v'
    then scanned (append_lexeme (11 ∷ []) t)
    else if ch == b'f'
    then scanned (append_lexeme (12 ∷ []) t)
    else if ch == b'r'
    then scanned (append_lexeme (13 ∷ []) t)
    else if ch == b'e'
    then scanned (append_lexeme (27 ∷ []) t)
    else if ch == b'd'
    then scanned (append_lexeme (127 ∷ []) t)
    else if ch == b'a'
    then scanned (append_lexeme (7 ∷ []) t)
    else if ch == b'x'
    then hex_escape t
    else if ch == b'c'
    then scanned (skip_layout_loop (length t.input) t)
    else if ch == b'^'
    then control_escape t
    else scanned (other_escape ch t)

unfoldable pub next_escape_sequence : Tokenizer → Scan Tokenizer
unfolding peek_char throw_token escape_code next_char
next_escape_sequence t = elim (peek_char t) [
  | none ↦ throw_token unterminated_escape t
  | some ch ↦ escape_code ch (next_char t)
]

-- The loop of next_quoted_name. Each round reads a character, so that one round more than the input has
-- characters is enough to throw at its end.
unfoldable pub quoted_name_loop : ℕ → Tokenizer → Scan Tokenizer
unfolding throw_token is_eof peek_char peek_is next_char append_lexeme add_to_lexeme
    next_escape_sequence
quoted_name_loop zero t = throw_token unterminated_quoted_name t
quoted_name_loop (suc rounds) t =
    let u = next_char t in
    let doubled = quoted_name_loop rounds (append_lexeme (b'\'' ∷ []) u) in
    let plain = quoted_name_loop rounds (add_to_lexeme (peek_char t) u) in
    let escaped = next_escape_sequence u >>= quoted_name_loop rounds in
    if is_eof t
    then throw_token unterminated_quoted_name t
    else if peek_is (λ c. c == b'\'') t
    then (if peek_is (λ c. c == b'\'') u then doubled else scanned u)
    else if not (peek_is (λ c. c == b'\\') t)
    then plain
    else escaped

unfoldable pub set_quoted : Tokenizer → Tokenizer
set_quoted t = record t { current = record t.current { quoted = true } }

unfoldable pub next_quoted_name : Tokenizer → Scan Tokenizer
unfolding quoted_name_loop next_char set_token_type set_quoted
next_quoted_name t =
    let u = set_quoted (set_token_type name_token (next_char t)) in
    quoted_name_loop (suc (length u.input)) u

-- The loop of next_string, on as many rounds
unfoldable pub string_loop : ℕ → Tokenizer → Scan Tokenizer
unfolding throw_token is_eof peek_char peek_is next_char consume_next_char add_to_lexeme
    next_escape_sequence
string_loop zero t = throw_token unterminated_string t
string_loop (suc rounds) t =
    let u = next_char t in
    let doubled = string_loop rounds (consume_next_char u) in
    let plain = string_loop rounds (add_to_lexeme (peek_char t) u) in
    let escaped = next_escape_sequence u >>= string_loop rounds in
    if is_eof t
    then throw_token unterminated_string t
    else if peek_is (λ c. c == b'"') t
    then (if peek_is (λ c. c == b'"') u then doubled else scanned u)
    else if peek_is (λ c. c == b'\\') t
    then escaped
    else plain

unfoldable pub next_string : Tokenizer → Scan Tokenizer
unfolding string_loop peek_is next_char
next_string t =
    let u = next_char t in
    if not (peek_is (λ c. c == b'"') t) then scanned t else string_loop (suc (length u.input)) u
