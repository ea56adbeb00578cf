-- ===== src/Tokenizer/QuotedTokens.antt =====
-- next_token of common/term_tokenizer.cpp on quoted names without escapes.
use mathlib.Core.List.{append-nil}
use epilog.Prelude.{
  ℕ, suc, ◌+◌, ◌≡◌, refl, sym, ap, ◌∙◌, Bool, true, false, ◌==◌, List, [], ◌∷◌, ◌++◌, length,
  length-append, arith,
}
use epilog.Prelude.Int.{ℤ}
use epilog.TokenChars.{is_quote_char, is_digit}
use epilog.Tokenizer.{
  Tokenizer, thrown, scanned, ◌>>=◌, throw_token, token_exception, unterminated_quoted_name,
  name_token, set_token_type, peek_is, is_eof, next_char,
}
use epilog.Tokenizer.Quoted.{next_quoted_name, set_quoted, quoted_name_loop}
use epilog.Tokenizer.Next.{start_token, keep_line, next_token}
use epilog.Tokenizer.Eaten.{peek_is-input, is_eof-input, next_char-input}
use epilog.Tokenizer.Quotes.{IsPlain, quoted_name_loop-plain}
use epilog.Tokenizer.Advance.{from_single, next_token-from}

-- Whether a text starts with a character.
unfoldable pub starts_with : ℕ → List ℕ → Bool
starts_with q [] = false
starts_with q (ch ∷ s) = ch == q

peek_is-starts_with :
    (q : ℕ) (s : List ℕ) (t : Tokenizer) → t.input ≡ s → peek_is (λ c. c == q) t ≡ starts_with q s
unfolding starts_with
peek_is-starts_with q [] t e = unfold peek_is in rw (peek_is, e) refl
peek_is-starts_with q (ch ∷ s) t e = peek_is-input (λ c. c == q) ch s t e

pub is_eof-nil : (t : Tokenizer) → t.input ≡ [] → is_eof t ≡ true
unfolding is_eof
is_eof-nil t e = rw (is_eof, e) refl

-- The state in which the loop of next_quoted_name starts.
opened : Tokenizer → Tokenizer
opened t =
    set_quoted (set_token_type name_token (next_char (set_token_type name_token (start_token t))))

opened-input : (chs : List ℕ) (t : Tokenizer) → t.input ≡ b'\'' ∷ chs → (opened t).input ≡ chs
unfolding opened set_quoted set_token_type start_token next_char
opened-input chs t e = next_char-input b'\'' chs t e

opened-token :
    (t : Tokenizer)
    → ((opened t).current.lexeme ≡ [])
      × ((opened t).current.quoted ≡ true)
      × ((opened t).current.position ≡ t.position)
unfolding opened set_quoted set_token_type start_token next_char
opened-token t = (refl, refl, refl)

module _ (lexical_cast : ℤ → List ℕ) (chs : List ℕ) (t : Tokenizer)
    (e : t.input ≡ b'\'' ∷ chs) where
  quoted_start :
      (n : ℕ)
      → suc (length chs) ≡ n
      → next_token lexical_cast t ≡ (quoted_name_loop n (opened t) >>= λ v. scanned (keep_line v))
  unfolding next_quoted_name opened
  quoted_start n k =
      let rounds : suc (length (opened t).input) ≡ n =
        ap (λ s. suc (length s)) (opened-input chs t e) ∙ k in
      next_token-from lexical_cast b'\'' chs t e (unfold is_quote_char is_digit in refl)
      ∙ ap (λ r. r >>= λ v. scanned (keep_line v))
          (from_single lexical_cast b'\'' (start_token t) refl)
      ∙ ap (λ m. quoted_name_loop m (opened t) >>= λ v. scanned (keep_line v)) rounds

module _ (lexical_cast : ℤ → List ℕ) (s : List ℕ) (t : Tokenizer) (p : IsPlain b'\'' s) where
  -- A quoted name whose characters are neither quotes nor backslashes, and behind whose end no other quote
  -- stands, is a quoted token: its lexeme is what stands between the quotes, and the rest of the input is left.
  pub next_token-quoted :
      (rest : List ℕ)
      → t.input ≡ b'\'' ∷ (s ++ (b'\'' ∷ rest))
      → starts_with b'\'' rest ≡ false
      → (u : Tokenizer) × (next_token lexical_cast t ≡ scanned u)
        × (u.current.lexeme ≡ s)
        × (u.current.quoted ≡ true)
        × (u.input ≡ rest)
  unfolding quoted_name_loop keep_line
  next_token-quoted rest e n =
      let behind = opened-input (s ++ (b'\'' ∷ rest)) t e in
      let (v, run, left, a, z) =
        quoted_name_loop-plain (suc (suc (length rest))) s (b'\'' ∷ rest) (opened t) p behind in
      let rounds : suc (length (s ++ (b'\'' ∷ rest))) ≡ length s + suc (suc (length rest)) =
        omega (arith, length-append s (b'\'' ∷ rest)) in
      let closed = next_char-input b'\'' rest v left in
      let no_more = peek_is-starts_with b'\'' rest (next_char v) closed ∙ n in
      let at_end = is_eof-input b'\'' rest v left in
      let at_quote : peek_is (λ c. c == b'\'') v ≡ true =
        peek_is-input (λ c. c == b'\'') b'\'' rest v left in
      let stop : quoted_name_loop (suc (suc (length rest))) v ≡ scanned (next_char v) =
        rw (at_end, at_quote, no_more) refl in
      (
        keep_line (next_char v),
        quoted_start lexical_cast _ t e _ rounds ∙ rw (run, stop) refl,
        unfold next_char in (a.lexeme ∙ ap (λ x. x ++ a.text) (opened-token t).0 ∙ z),
        unfold next_char in (a.quoted ∙ (opened-token t).1),
        closed,
      )

  -- Where only characters that are neither quotes nor backslashes stand behind a quote, up to the end of the input,
  -- next_token throws that the quoted name is unterminated, at the position of the token, with all of the input read.
  pub next_token-unterminated :
      t.input ≡ b'\'' ∷ s
      → (u : Tokenizer) × (next_token lexical_cast t
          ≡ thrown (token_exception unterminated_quoted_name t.line_string t.position) u)
        × (u.input ≡ [])
  unfolding quoted_name_loop throw_token token_exception
  next_token-unterminated e =
      let behind = opened-input s t e ∙ sym (append-nil s) in
      let (v, run, left, a, z) = quoted_name_loop-plain 1 s [] (opened t) p behind in
      let rounds : suc (length s) ≡ length s + 1 = omega arith in
      let at_end = is_eof-nil v left in
      let (_, _, place) = opened-token t in
      (v, quoted_start lexical_cast s t e _ rounds ∙ rw (run, at_end, a.place ∙ place) refl, left)
