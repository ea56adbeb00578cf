-- ===== src/Tokenizer/Eaten.antt =====
-- Reading that adds to the lexeme what it takes off the input: what next_xs, the comments, the layout and
-- the symbols of common/term_tokenizer.cpp have in common.
use mathlib.Core.Path.{subst}
use mathlib.Core.List.{append_assoc, append-nil}
use epilog.Prelude.{
  ℕ, ◌≡◌, refl, sym, ap, ◌∙◌, Bool, true, false, ◌⊎◌, inl, inr, some, List, [], ◌∷◌, ◌++◌,
}
use epilog.Tokenizer.{
  Tokenizer, TokenPosition, update_position, peek_is, is_eof, next_char, consume_next_char,
  append_lexeme, add_to_lexeme, is_unknown, set_token_type, TokenType,
}

-- Where a text leads the position.
unfoldable pub moves : List ℕ → TokenPosition → TokenPosition
moves [] p = p
moves (ch ∷ chs) p = moves chs (update_position (some ch) p)

pub moves-append : (v w : List ℕ) (p : TokenPosition) → moves (v ++ w) p ≡ moves w (moves v p)
unfolding moves
moves-append [] w p = refl
moves-append (ch ∷ v) w p = moves-append v w (update_position (some ch) p)

-- From the first state to the second one a text has been read, added to the lexeme and counted in the position.
pub record Eaten (t u : Tokenizer) : Type 0 where
  pub text : List ℕ
  pub input : t.input ≡ text ++ u.input
  pub lexeme : u.current.lexeme ≡ t.current.lexeme ++ text
  pub moved : u.position ≡ moves text t.position
  pub place : u.current.position ≡ t.current.position
  pub quoted : u.current.quoted ≡ t.current.quoted
  pub known : is_unknown t.current.type ≡ false → is_unknown u.current.type ≡ false
  pub line : u.line_string ≡ t.line_string

pub Eaten-refl : (t : Tokenizer) → Eaten t t
unfolding moves
Eaten-refl t = record {
  text = [];
  input = refl;
  lexeme = sym (append-nil t.current.lexeme);
  moved = refl;
  place = refl;
  quoted = refl;
  known = λ h. h;
  line = refl;
}

pub Eaten-trans : {t u v : Tokenizer} → Eaten t u → Eaten u v → Eaten t v
Eaten-trans {t} {u} {v} a b = record {
  text = a.text ++ b.text;
  input = a.input ∙ ap (λ s. a.text ++ s) b.input ∙ sym (append_assoc a.text b.text v.input);
  lexeme = b.lexeme ∙ ap (λ s. s ++ b.text) a.lexeme ∙ append_assoc t.current.lexeme a.text b.text;
  moved = b.moved ∙ ap (moves b.text) a.moved ∙ sym (moves-append a.text b.text t.position);
  place = b.place ∙ a.place;
  quoted = b.quoted ∙ a.quoted;
  known = λ h. b.known (a.known h);
  line = b.line ∙ a.line;
}

pub set_token_type-Eaten :
    (tt : TokenType) (t : Tokenizer) → is_unknown tt ≡ false → Eaten t (set_token_type tt t)
unfolding set_token_type moves
set_token_type-Eaten tt t h = record {
  text = [];
  input = refl;
  lexeme = sym (append-nil t.current.lexeme);
  moved = refl;
  place = refl;
  quoted = refl;
  known = λ k. h;
  line = refl;
}

-- Where there is a character, reading one is as the others say.
pub Eaten-some :
    (ch : ℕ) (chs : List ℕ) (t : Tokenizer)
    → t.input ≡ ch ∷ chs
    → Eaten t (append_lexeme (ch ∷ []) (next_char t))
unfolding append_lexeme next_char moves
Eaten-some ch chs t e = record {
  text = ch ∷ [];
  input = rw e refl;
  lexeme = refl;
  moved = rw e refl;
  place = refl;
  quoted = refl;
  known = λ h. h;
  line = refl;
}

pub list_cases : (s : List ℕ) → (s ≡ []) ⊎ (ch : ℕ) × (chs : List ℕ) × (s ≡ ch ∷ chs)
list_cases [] = inl refl
list_cases (ch ∷ chs) = inr (ch, chs, refl)

-- The character that a look ahead has seen.
pub peek_is-some :
    (test : ℕ → Bool) (t : Tokenizer)
    → peek_is test t ≡ true
    → (ch : ℕ) × (chs : List ℕ) × (t.input ≡ ch ∷ chs) × (test ch ≡ true)
unfolding peek_is
peek_is-some test t h = elim (list_cases t.input) [
  | inl e ↦ cc (rw e at h)
  | inr (ch, chs, e) ↦ (ch, chs, e, rw e at h)
]

pub is_eof-some :
    (t : Tokenizer) → is_eof t ≡ false → (ch : ℕ) × (chs : List ℕ) × (t.input ≡ ch ∷ chs)
unfolding is_eof
is_eof-some t h = elim (list_cases t.input) [
  | inl e ↦ cc (rw e at h)
  | inr (ch, chs, e) ↦ (ch, chs, e)
]

pub Eaten-consume :
    (ch : ℕ) (chs : List ℕ) (t : Tokenizer) → t.input ≡ ch ∷ chs → Eaten t (consume_next_char t)
unfolding consume_next_char add_to_lexeme next_char append_lexeme
Eaten-consume ch chs t e =
    let same : consume_next_char t ≡ append_lexeme (ch ∷ []) (next_char t) = rw e refl in
    subst (Eaten t) (sym same) (Eaten-some ch chs t e)

pub Eaten-consume_text :
    (ch : ℕ) (chs : List ℕ) (t : Tokenizer)
    → t.input ≡ ch ∷ chs
    → (a : Eaten t (consume_next_char t)) × (a.text ≡ ch ∷ [])
unfolding consume_next_char add_to_lexeme next_char append_lexeme moves
Eaten-consume_text ch chs t e = (
  record {
    text = ch ∷ [];
    input = rw e refl;
    lexeme = rw e refl;
    moved = rw e refl;
    place = rw e refl;
    quoted = rw e refl;
    known = λ h. rw e h;
    line = rw e refl;
  },
  refl,
)

pub Eaten-refl_text : (t : Tokenizer) → (a : Eaten t t) × (a.text ≡ [])
unfolding Eaten-refl
Eaten-refl_text t = (Eaten-refl t, refl)

pub Eaten-trans_text :
    {t u v : Tokenizer} (a : Eaten t u) (b : Eaten u v)
    → (c : Eaten t v) × (c.text ≡ a.text ++ b.text)
unfolding Eaten-trans
Eaten-trans_text a b = (Eaten-trans a b, refl)

-- What the tests say where the input is known.
pub peek_is-input :
    (test : ℕ → Bool) (ch : ℕ) (chs : List ℕ) (t : Tokenizer)
    → t.input ≡ ch ∷ chs
    → peek_is test t ≡ test ch
unfolding peek_is
peek_is-input test ch chs t e = rw (peek_is, e) refl

pub is_eof-input : (ch : ℕ) (chs : List ℕ) (t : Tokenizer) → t.input ≡ ch ∷ chs → is_eof t ≡ false
unfolding is_eof
is_eof-input ch chs t e = rw (is_eof, e) refl

pub next_char-input :
    (ch : ℕ) (chs : List ℕ) (t : Tokenizer) → t.input ≡ ch ∷ chs → (next_char t).input ≡ chs
unfolding next_char
next_char-input ch chs t e = rw e refl
