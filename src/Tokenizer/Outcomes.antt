-- ===== src/Tokenizer/Outcomes.antt =====
-- The operations of common/term_tokenizer.cpp that may fail, on both of their ways out: that they are reached by
-- reading a part of the input.
use mathlib.Core.List.{append_assoc}
use epilog.Prelude.{
  ℕ, ◌≡◌, refl, sym, ap, ◌∙◌, Bool, true, false, ◌⊎◌, inl, inr, if◌then◌else◌, none, some, List, [],
  ◌∷◌, ◌++◌,
}
use epilog.Tokenizer.{
  Tokenizer, Scan, thrown, scanned, ◌>>=◌, throw_token, TokenException, TokenError, next_char,
  append_lexeme, peek_char, is_unknown,
}
use epilog.Tokenizer.Eaten.{Eaten, list_cases}

-- From the first state to the second one a part of the input has been read.
pub record Reads (t u : Tokenizer) : Type 0 where
  pub text : List ℕ
  pub input : t.input ≡ text ++ u.input
  pub place : u.current.position ≡ t.current.position
  pub known : is_unknown t.current.type ≡ false → is_unknown u.current.type ≡ false
  pub line : u.line_string ≡ t.line_string

pub Reads-refl : (t : Tokenizer) → Reads t t
Reads-refl t = record { text = []; input = refl; place = refl; known = λ h. h; line = refl }

pub Reads-trans : {t u v : Tokenizer} → Reads t u → Reads u v → Reads t v
Reads-trans {t} {u} {v} a b = record {
  text = a.text ++ b.text;
  input = a.input ∙ ap (λ s. a.text ++ s) b.input ∙ sym (append_assoc a.text b.text v.input);
  place = b.place ∙ a.place;
  known = λ h. b.known (a.known h);
  line = b.line ∙ a.line;
}

pub Eaten-Reads : {t u : Tokenizer} → Eaten t u → Reads t u
Eaten-Reads a = record {
  text = a.text;
  input = a.input;
  place = a.place;
  known = a.known;
  line = a.line;
}

pub next_char-Reads : (t : Tokenizer) → Reads t (next_char t)
unfolding next_char
next_char-Reads t = elim (list_cases t.input) [
  | inl e ↦ record { text = []; input = rw e refl; place = refl; known = λ h. h; line = refl }
  | inr (ch, chs, e) ↦ record {
    text = ch ∷ [];
    input = rw e refl;
    place = refl;
    known = λ h. h;
    line = refl;
  }
]

pub append_lexeme-Reads : (s : List ℕ) (t : Tokenizer) → Reads t (append_lexeme s t)
unfolding append_lexeme
append_lexeme-Reads s t = record {
  text = [];
  input = refl;
  place = refl;
  known = λ h. h;
  line = refl;
}

-- Both ways out of an operation are reached by reading.
pub data Stops {ℓ} {A : Type ℓ} (state : A → Tokenizer) (t : Tokenizer) : Scan A → Type ℓ where
  by_throw : {why : TokenException} {u : Tokenizer} → Reads t u → Stops state t (thrown why u)
  by_return : {a : A} → Reads t (state a) → Stops state t (scanned a)

abbrev pub itself : Tokenizer → Tokenizer
itself u = u

abbrev pub behind : ℕ × Tokenizer → Tokenizer
behind r = r.1

pub Stops-from {ℓ} :
    {A : Type ℓ} {state : A → Tokenizer} {t u : Tokenizer} {r : Scan A}
    → Reads t u
    → Stops state u r
    → Stops state t r
Stops-from a (by_throw b) = by_throw (Reads-trans a b)
Stops-from a (by_return b) = by_return (Reads-trans a b)

pub Stops-bind {κ ℓ} :
    {A : Type κ} {B : Type ℓ} {state : A → Tokenizer} {state' : B → Tokenizer} {t : Tokenizer}
    {m : Scan A} {next : A → Scan B}
    → Stops state t m
    → ((a : A) → Stops state' (state a) (next a))
    → Stops state' t (m >>= next)
Stops-bind (by_throw b) k = by_throw b
Stops-bind (by_return {a} b) k = Stops-from b (k a)

pub Stops-if {ℓ} :
    {A : Type ℓ} {state : A → Tokenizer} (b : Bool) {t : Tokenizer} {r s : Scan A}
    → (b ≡ true → Stops state t r)
    → (b ≡ false → Stops state t s)
    → Stops state t (if b then r else s)
Stops-if true first second = first refl
Stops-if false first second = second refl

pub throw_token-Stops {ℓ} :
    {A : Type ℓ} {state : A → Tokenizer} (kind : TokenError) {t u : Tokenizer}
    → Reads t u
    → Stops state t (throw_token kind u)
unfolding throw_token
throw_token-Stops kind r = by_throw r

pub peek_char-cases :
    (t : Tokenizer)
    → (peek_char t ≡ none)
      ⊎ (ch : ℕ) × (chs : List ℕ) × (t.input ≡ ch ∷ chs) × (peek_char t ≡ some ch)
unfolding peek_char
peek_char-cases t = elim (list_cases t.input) [
  | inl e ↦ inl (rw e refl)
  | inr (ch, chs, e) ↦ inr (ch, chs, e, rw e refl)
]
