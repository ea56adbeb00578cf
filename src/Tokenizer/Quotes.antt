-- ===== src/Tokenizer/Quotes.antt =====
-- Quoted names and strings of common/term_tokenizer.cpp: what their loops read, and that their rounds are enough.
use epilog.Prelude.{
  ℕ, zero, suc, ◌+◌, ◌<◌, ◌≤◌, ◌≡◌, refl, ap, ◌∙◌, Bool, true, false, not, ◌==◌, inl, inr,
  if◌then◌else◌, Option, none, some, List, [], ◌∷◌, ◌++◌, length, length-append, arith,
}
use epilog.Tokenizer.{
  Tokenizer, Scan, ◌>>=◌, peek_is, is_eof, next_char, consume_next_char, append_lexeme,
  add_to_lexeme, peek_char, unterminated_quoted_name, unterminated_string,
}
use epilog.Tokenizer.Quoted.{quoted_name_loop, string_loop}
use epilog.Tokenizer.Eaten.{
  Eaten, Eaten-consume, is_eof-some, list_cases, Eaten-refl_text, Eaten-consume_text,
  Eaten-trans_text, is_eof-input, peek_is-input,
}
use epilog.Tokenizer.Outcomes.{
  Reads, Reads-refl, Reads-trans, Eaten-Reads, next_char-Reads, append_lexeme-Reads, Stops,
  by_throw, by_return, itself, Stops-from, Stops-bind, Stops-if, throw_token-Stops,
}
use epilog.Tokenizer.Escapes.{next_escape_sequence-Stops}

pub consume-Reads : (t : Tokenizer) → Reads t (consume_next_char t)
unfolding consume_next_char add_to_lexeme
consume-Reads t = elim (list_cases t.input) [
  | inl e ↦ rw (consume_next_char, e) (rw e at (next_char-Reads t))
  | inr (ch, chs, e) ↦ Eaten-Reads (Eaten-consume ch chs t e)
]

add_peeked-Reads : (t : Tokenizer) → Reads t (add_to_lexeme (peek_char t) (next_char t))
unfolding peek_char consume_next_char
add_peeked-Reads t = consume-Reads t

pub quoted_name_loop-Stops :
    (rounds : ℕ) (t : Tokenizer) → Stops itself t (quoted_name_loop rounds t)
unfolding quoted_name_loop
quoted_name_loop-Stops zero t = throw_token-Stops unterminated_quoted_name (Reads-refl t)
quoted_name_loop-Stops (suc rounds) t =
    let r = next_char-Reads t in
    let u = next_char t in
    Stops-if (is_eof t) (λ h. throw_token-Stops unterminated_quoted_name (Reads-refl t))
      λ h.
        Stops-if (peek_is (λ c. c == b'\'') t)
          (λ k.
            Stops-if (peek_is (λ c. c == b'\'') u)
              (λ l.
                Stops-from (Reads-trans r (append_lexeme-Reads _ u))
                  (quoted_name_loop-Stops rounds _))
              λ l. by_return r)
          λ k.
            Stops-if (not (peek_is (λ c. c == b'\\') t))
              (λ l. Stops-from (add_peeked-Reads t) (quoted_name_loop-Stops rounds _))
              λ l.
                Stops-from r
                  (Stops-bind (next_escape_sequence-Stops u) (quoted_name_loop-Stops rounds))

pub string_loop-Stops : (rounds : ℕ) (t : Tokenizer) → Stops itself t (string_loop rounds t)
unfolding string_loop
string_loop-Stops zero t = throw_token-Stops unterminated_string (Reads-refl t)
string_loop-Stops (suc rounds) t =
    let r = next_char-Reads t in
    let u = next_char t in
    Stops-if (is_eof t) (λ h. throw_token-Stops unterminated_string (Reads-refl t))
      λ h.
        Stops-if (peek_is (λ c. c == b'"') t)
          (λ k.
            Stops-if (peek_is (λ c. c == b'"') u)
              (λ l. Stops-from (Reads-trans r (consume-Reads u)) (string_loop-Stops rounds _))
              λ l. by_return r)
          λ k.
            Stops-if (peek_is (λ c. c == b'\\') t)
              (λ l.
                Stops-from r (Stops-bind (next_escape_sequence-Stops u) (string_loop-Stops rounds)))
              λ l. Stops-from (add_peeked-Reads t) (string_loop-Stops rounds _)

-- What is left of the input after reading.
pub Reads-length : {t u : Tokenizer} → Reads t u → length u.input ≤ length t.input
Reads-length {t} {u} r = omega (arith, ap length r.input, length-append r.text u.input)

pub next_char-length :
    (t : Tokenizer) → is_eof t ≡ false → length (next_char t).input < length t.input
unfolding next_char
next_char-length t more = let (ch, chs, e) = is_eof-some t more in rw e (omega arith)

add_to_lexeme-length :
    (o : Option ℕ) (t : Tokenizer) → length (add_to_lexeme o t).input ≤ length t.input
unfolding add_to_lexeme append_lexeme
add_to_lexeme-length none t = omega arith
add_to_lexeme-length (some ch) t = omega arith

-- Two continuations that agree on what an operation leaves agree behind it.
bind-agree :
    {u : Tokenizer} {m : Scan Tokenizer} (f g : Tokenizer → Scan Tokenizer)
    → Stops itself u m
    → ((v : Tokenizer) → length v.input ≤ length u.input → f v ≡ g v)
    → (m >>= f) ≡ (m >>= g)
bind-agree f g (by_throw b) same = refl
bind-agree f g (by_return {a} b) same = same a (Reads-length b)

if-agree :
    (b : Bool) {r s r' s' : Scan Tokenizer}
    → (b ≡ true → r ≡ r')
    → (b ≡ false → s ≡ s')
    → (if b then r else s) ≡ (if b then r' else s')
if-agree true first second = first refl
if-agree false first second = second refl

-- The outcome of next_quoted_name's loop does not depend on the rounds, if they are more than the characters
-- of the input: the loop ends by itself.
quoted_name_loop-rounds :
    (n m : ℕ) (t : Tokenizer)
    → length t.input < n
    → length t.input < m
    → quoted_name_loop n t ≡ quoted_name_loop m t
unfolding quoted_name_loop
quoted_name_loop-rounds zero m t p q = absurd (omega arith)
quoted_name_loop-rounds (suc n) zero t p q = absurd (omega arith)
quoted_name_loop-rounds (suc n) (suc m) t p q =
    let u = next_char t in
    if-agree (is_eof t) (λ h. refl)
      λ h.
        let shorter = next_char-length t h in
        let later : (v : Tokenizer)
            → length v.input ≤ length u.input
            → quoted_name_loop n v ≡ quoted_name_loop m v =
          λ v below. quoted_name_loop-rounds n m v (omega arith) (omega arith) in
        if-agree (peek_is (λ c. c == b'\'') t)
          (λ k.
            if-agree (peek_is (λ c. c == b'\'') u)
              (λ l. later _ (Reads-length (append_lexeme-Reads (b'\'' ∷ []) u))) λ l. refl)
          λ k.
            if-agree (not (peek_is (λ c. c == b'\\') t))
              (λ l. later _ (add_to_lexeme-length (peek_char t) u))
              λ l.
                bind-agree (quoted_name_loop n) (quoted_name_loop m) (next_escape_sequence-Stops u)
                  later

pub string_loop-rounds :
    (n m : ℕ) (t : Tokenizer)
    → length t.input < n
    → length t.input < m
    → string_loop n t ≡ string_loop m t
unfolding string_loop
string_loop-rounds zero m t p q = absurd (omega arith)
string_loop-rounds (suc n) zero t p q = absurd (omega arith)
string_loop-rounds (suc n) (suc m) t p q =
    let u = next_char t in
    if-agree (is_eof t) (λ h. refl)
      λ h.
        let shorter = next_char-length t h in
        let later : (v : Tokenizer)
            → length v.input ≤ length u.input
            → string_loop n v ≡ string_loop m v =
          λ v below. string_loop-rounds n m v (omega arith) (omega arith) in
        if-agree (peek_is (λ c. c == b'"') t)
          (λ k.
            if-agree (peek_is (λ c. c == b'"') u) (λ l. later _ (Reads-length (consume-Reads u)))
              λ l. refl)
          λ k.
            if-agree (peek_is (λ c. c == b'\\') t)
              (λ l. bind-agree (string_loop n) (string_loop m) (next_escape_sequence-Stops u) later)
              λ l. later _ (add_to_lexeme-length (peek_char t) u)

-- Characters that stand for themselves between the quotes q.
unfoldable pub IsPlain : ℕ → List ℕ → Type 0
IsPlain q [] = Unit {0}
IsPlain q (ch ∷ s) = ((ch == q) ≡ false) × ((ch == b'\\') ≡ false) × IsPlain q s

pub consume-input :
    (ch : ℕ) (chs : List ℕ) (t : Tokenizer) → t.input ≡ ch ∷ chs → (consume_next_char t).input ≡ chs
unfolding consume_next_char add_to_lexeme next_char append_lexeme
consume-input ch chs t e = rw e refl

-- Plain characters are put into the lexeme one a round.
pub quoted_name_loop-plain :
    (n : ℕ) (s rest : List ℕ) (t : Tokenizer)
    → IsPlain b'\'' s
    → t.input ≡ s ++ rest
    → (u : Tokenizer) × (quoted_name_loop (length s + n) t ≡ quoted_name_loop n u)
      × (u.input ≡ rest)
      × (a : Eaten t u) × (a.text ≡ s)
unfolding quoted_name_loop IsPlain consume_next_char peek_char
quoted_name_loop-plain n [] rest t p e =
    let (a, z) = Eaten-refl_text t in
    let none_left : 0 + n ≡ n = omega arith in (t, rw none_left refl, e, a, z)
quoted_name_loop-plain n (ch ∷ s) rest t (q, b, p) e =
    let (a, z) = Eaten-consume_text ch (s ++ rest) t e in
    let (u, run, left, c, z') =
      quoted_name_loop-plain n s rest (consume_next_char t) p (consume-input ch (s ++ rest) t e) in
    let (d, z'') = Eaten-trans_text a c in
    let rounds : suc (length s) + n ≡ suc (length s + n) = omega arith in
    let at_end = is_eof-input ch (s ++ rest) t e in
    let at_quote = peek_is-input (λ x. x == b'\'') ch (s ++ rest) t e ∙ q in
    let at_slash = peek_is-input (λ x. x == b'\\') ch (s ++ rest) t e ∙ b in
    (u, rw (rounds, at_end, at_quote, at_slash) run, left, d, z'' ∙ rw (z, z') refl)
