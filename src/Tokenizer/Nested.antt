-- ===== src/Tokenizer/Nested.antt =====
-- parse_block_comment of common/term_tokenizer.cpp matches nested comments.
use mathlib.Core.List.{append_assoc}
use epilog.Prelude.{
  ℕ, zero, suc, ◌+◌, ◌-◌, ◌≤◌, ◌≡◌, refl, sym, ap, ◌∙◌, true, ◌==◌, List, [], ◌∷◌, ◌++◌, length,
  length-append, arith,
}
use epilog.Tokenizer.{Tokenizer, peek_is, second_is, next_char, consume_next_char, append_lexeme}
use epilog.Tokenizer.Text.{block_comment_loop, parse_block_comment}
use epilog.Tokenizer.Eaten.{
  Eaten, Eaten-refl_text, Eaten-trans_text, Eaten-consume_text, peek_is-input,
}
use epilog.Tokenizer.Texts.{Eaten-pair}
use epilog.Tokenizer.Quotes.{consume-input}
use epilog.Tokenizer.Comments.{
  next_of, IsBody, body_end, body_char, body_comment, pair-input, close_round, open_round,
  char_round,
}

-- From the first state, with n rounds to spare, the loop comes to read behind the text.
record Runs (depth : ℕ) (text rest : List ℕ) (n : ℕ) (t : Tokenizer) : Type 0 where
  left : ℕ
  state : Tokenizer
  enough : n ≤ left
  same :
      block_comment_loop (length text + n) (suc depth) t ≡ block_comment_loop left (suc depth) state
  input : state.input ≡ rest
  eaten : Eaten t state
  is_text : eaten.text ≡ text

-- The state behind the two characters at the end of a comment.
behind_pair : ℕ → ℕ → Tokenizer → Tokenizer
behind_pair a b t = append_lexeme (a ∷ b ∷ []) (next_char (next_char t))

comment-Runs :
    {r s : List ℕ} (depth : ℕ) (rest : List ℕ) (n : ℕ) (t : Tokenizer)
    → t.input ≡ b'/' ∷ b'*' ∷ (r ++ (b'*' ∷ b'/' ∷ (s ++ rest)))
    → (inner : Runs
        (suc depth)
        r
        (b'*' ∷ b'/' ∷ (s ++ rest))
        (length s + 3 + n)
        (behind_pair b'/' b'*' t))
    → (later : Runs depth s rest (inner.left - 1 - length s) (behind_pair b'*' b'/' inner.state))
    → Runs depth (b'/' ∷ b'*' ∷ (r ++ (b'*' ∷ b'/' ∷ s))) rest n t
unfolding behind_pair
comment-Runs {r} {s} depth rest n t e inner later =
    let after = inner.left - 1 in
    let (a, z) = Eaten-pair b'/' b'*' (r ++ (b'*' ∷ b'/' ∷ (s ++ rest))) t e in
    let (c, z1) = Eaten-pair b'*' b'/' (s ++ rest) inner.state inner.input in
    let (d, z2) = Eaten-trans_text a inner.eaten in
    let (f, z3) = Eaten-trans_text d c in
    let (g, z4) = Eaten-trans_text f later.eaten in
    let t2 = append_lexeme (b'*' ∷ b'/' ∷ []) (next_char (next_char inner.state)) in
    let rounds : length (b'/' ∷ b'*' ∷ (r ++ (b'*' ∷ b'/' ∷ s))) + n
        ≡ suc (length r + (length s + 3 + n)) =
      omega (arith, length-append r (b'*' ∷ b'/' ∷ s)) in
    let one_less : inner.left ≡ suc after = omega (arith, inner.enough) in
    let spare : length s + (after - length s) ≡ after = omega (arith, inner.enough) in
    let closing =
      ap (λ k. block_comment_loop k (suc (suc depth)) inner.state) one_less
      ∙ close_round after (suc depth) (s ++ rest) inner.state inner.input in
    let last = ap (λ k. block_comment_loop k (suc depth) t2) (sym spare) ∙ later.same in
    record {
      left = later.left;
      state = later.state;
      enough = omega (arith, inner.enough, later.enough);
      same = rw rounds (
          open_round (length r + (length s + 3 + n)) depth (r ++ (b'*' ∷ b'/' ∷ (s ++ rest))) t e
          ∙ inner.same
          ∙ closing
          ∙ last);
      input = later.input;
      eaten = g;
      is_text =
          z4
          ∙ rw (z3, z2, z, inner.is_text, z1, later.is_text)
              (ap (λ (w : List ℕ). b'/' ∷ b'*' ∷ w) (append_assoc r (b'*' ∷ b'/' ∷ []) s));
    }

first_of : (s tail : List ℕ) → (more : List ℕ) × (s ++ (b'*' ∷ tail) ≡ next_of s ∷ more)
first_of [] tail = (tail, refl)
first_of (ch ∷ s) tail = (s ++ (b'*' ∷ tail), refl)

body-Runs :
    {text : List ℕ} (depth : ℕ) (tail : List ℕ) (n : ℕ) (t : Tokenizer)
    → IsBody text
    → t.input ≡ text ++ (b'*' ∷ tail)
    → Runs depth text (b'*' ∷ tail) n t
unfolding behind_pair
body-Runs depth tail n t body_end e =
    let (a, z) = Eaten-refl_text t in
    let none_read : 0 + n ≡ n = omega arith in
    record {
      left = n;
      state = t;
      enough = omega arith;
      same = rw none_read refl;
      input = e;
      eaten = a;
      is_text = z;
    }
body-Runs depth tail n t (body_char {s} ch p q b) e =
    let rest : List ℕ = b'*' ∷ tail in
    let (a, z) = Eaten-consume_text ch (s ++ rest) t e in
    let later = body-Runs depth tail n (consume_next_char t) b (consume-input ch (s ++ rest) t e) in
    let (c, z') = Eaten-trans_text a later.eaten in
    let rounds : suc (length s) + n ≡ suc (length s + n) = omega arith in
    let (more, first) = first_of s tail in
    record {
      left = later.left;
      state = later.state;
      enough = later.enough;
      same = rw rounds (
          char_round (length s + n) depth ch (next_of s) more t
            (e ∙ ap (λ (w : List ℕ). ch ∷ w) first) p q
          ∙ later.same);
      input = later.input;
      eaten = c;
      is_text = z' ∙ rw (z, later.is_text) refl;
    }
body-Runs depth tail n t (body_comment {r} {s} b b') e =
    let rest : List ℕ = b'*' ∷ tail in
    let behind : List ℕ = b'*' ∷ b'/' ∷ (s ++ rest) in
    let e1 : t.input ≡ b'/' ∷ b'*' ∷ (r ++ behind) =
      e ∙ ap (λ (w : List ℕ). b'/' ∷ b'*' ∷ w) (append_assoc r (b'*' ∷ b'/' ∷ s) rest) in
    let inner =
      body-Runs (suc depth) (b'/' ∷ (s ++ rest)) (length s + 3 + n) (behind_pair b'/' b'*' t) b
        (pair-input b'/' b'*' (r ++ behind) t e1) in
    comment-Runs depth rest n t e1 inner (
      body-Runs depth tail (inner.left - 1 - length s) (behind_pair b'*' b'/' inner.state) b'
        (pair-input b'*' b'/' (s ++ rest) inner.state inner.input))

at_depth_zero : (n : ℕ) (t : Tokenizer) → block_comment_loop n 0 t ≡ t
unfolding block_comment_loop
at_depth_zero zero t = refl
at_depth_zero (suc n) t = refl

-- The beginning of a comment, in front of the loop.
comment_start :
    (s : List ℕ) (t : Tokenizer)
    → t.input ≡ b'/' ∷ b'*' ∷ s
    → (u : Tokenizer) × (u.input ≡ s)
      × (a : Eaten t u) × (a.text ≡ b'/' ∷ b'*' ∷ [])
      × (parse_block_comment t ≡ block_comment_loop (length u.input) 1 u)
unfolding parse_block_comment
comment_start s t e =
    let t1 = consume_next_char t in
    let e1 = consume-input b'/' (b'*' ∷ s) t e in
    let (a, z) = Eaten-consume_text b'/' (b'*' ∷ s) t e in
    let (c, z1) = Eaten-consume_text b'*' s t1 e1 in
    let (d, z2) = Eaten-trans_text a c in
    let first : peek_is (λ x. x == b'/') t ≡ true =
      peek_is-input (λ x. x == b'/') b'/' (b'*' ∷ s) t e in
    let second : second_is (λ x. x == b'*') t ≡ true = unfold second_is in rw (second_is, e) refl in
    (
      consume_next_char t1,
      consume-input b'*' s t1 e1,
      d,
      z2 ∙ rw (z, z1) refl,
      rw (first, second) refl,
    )

-- A comment whose text is made of whole comments, and of characters that neither end nor begin one together with the
-- character behind them, is read by parse_block_comment up to the end that belongs to its beginning, past all comments
-- that are nested in it, and put into the lexeme; what stands behind it is left.
pub parse_block_comment-IsBody :
    {text : List ℕ} (rest : List ℕ) (t : Tokenizer)
    → IsBody text
    → t.input ≡ b'/' ∷ b'*' ∷ (text ++ (b'*' ∷ b'/' ∷ rest))
    → ((parse_block_comment t).current.lexeme
        ≡ t.current.lexeme ++ (b'/' ∷ b'*' ∷ (text ++ (b'*' ∷ b'/' ∷ []))))
      × ((parse_block_comment t).input ≡ rest)
parse_block_comment-IsBody {text} rest t b e =
    let (u, input, a, z, run) = comment_start (text ++ (b'*' ∷ b'/' ∷ rest)) t e in
    let body = body-Runs 0 (b'/' ∷ rest) (length rest + 2) u b input in
    let after = body.left - 1 in
    let (c, z1) = Eaten-pair b'*' b'/' rest body.state body.input in
    let (d, z2) = Eaten-trans_text a body.eaten in
    let (f, z3) = Eaten-trans_text d c in
    let rounds : length u.input ≡ length text + (length rest + 2) =
      omega (arith, ap length input, length-append text (b'*' ∷ b'/' ∷ rest)) in
    let one_less : body.left ≡ suc after = omega (arith, body.enough) in
    let t2 = append_lexeme (b'*' ∷ b'/' ∷ []) (next_char (next_char body.state)) in
    let all : parse_block_comment t ≡ t2 =
      run
      ∙ ap (λ n. block_comment_loop n 1 u) rounds
      ∙ body.same
      ∙ ap (λ n. block_comment_loop n 1 body.state) one_less
      ∙ close_round after 0 rest body.state body.input
      ∙ at_depth_zero after t2 in
    let text_is = z3 ∙ rw (z2, z, body.is_text, z1) refl in
    (
      ap (λ v. v.current.lexeme) all ∙ f.lexeme ∙ ap (λ w. t.current.lexeme ++ w) text_is,
      ap (λ v. v.input) all ∙ pair-input b'*' b'/' rest body.state body.input,
    )
