-- ===== src/Tokenizer/Runs.antt =====
-- A loop over the tokens of common/term_tokenizer.cpp, as the tests run it: next_token for as long as has_more_tokens
-- holds.
use mathlib.Core.Path.{subst}
use epilog.Prelude.{
  ℕ, zero, suc, ◌≤◌, ◌<◌, ◌≡◌, refl, ap, true, false, inl, inr, List, [], ◌∷◌, ◌++◌, length,
  length-append, arith,
}
use epilog.Prelude.Int.{ℤ}
use epilog.TokenChars.Escaped.{AreBytes}
use epilog.Tokenizer.{Tokenizer, Scan, thrown, scanned, TokenException, has_more_tokens}
use epilog.Tokenizer.Next.{next_token}
use epilog.Tokenizer.Eaten.{list_cases}
use epilog.Tokenizer.Advance.{Shorter, Shortens, short_throw, short_return, next_token-Shortens}

-- A run of the loop: it stops at the end of the input or by an exception, or reads a token and goes on.
pub data Run (lexical_cast : ℤ → List ℕ) : Tokenizer → Type 0 where
  run_stops : {t : Tokenizer} → has_more_tokens t ≡ false → Run lexical_cast t
  run_throws :
      {t u : Tokenizer} {why : TokenException}
      → has_more_tokens t ≡ true
      → next_token lexical_cast t ≡ thrown why u
      → Run lexical_cast t
  run_goes_on :
      {t u : Tokenizer}
      → has_more_tokens t ≡ true
      → next_token lexical_cast t ≡ scanned u
      → Run lexical_cast u
      → Run lexical_cast t

AreBytes-append : (r s : List ℕ) → AreBytes (r ++ s) → AreBytes s
unfolding AreBytes
AreBytes-append [] s b = b
AreBytes-append (ch ∷ r) s (below, b) = AreBytes-append r s b

no_more : (t : Tokenizer) → t.input ≡ [] → has_more_tokens t ≡ false
unfolding has_more_tokens
no_more t e = rw (has_more_tokens, e) refl

more : (ch : ℕ) (chs : List ℕ) (t : Tokenizer) → t.input ≡ ch ∷ chs → has_more_tokens t ≡ true
unfolding has_more_tokens
more ch chs t e = rw (has_more_tokens, e) refl

Shorter-length : {t u : Tokenizer} → Shorter t u → length u.input < length t.input
Shorter-length {t} {u} s =
    omega (arith, ap length s.input, length-append s.text u.input, s.not_empty)

Shorter-AreBytes : {t u : Tokenizer} → Shorter t u → AreBytes t.input → AreBytes u.input
Shorter-AreBytes {t} {u} s b = AreBytes-append s.text u.input (subst AreBytes s.input b)

first_byte : (ch : ℕ) (chs : List ℕ) → AreBytes (ch ∷ chs) → ch < 256
unfolding AreBytes
first_byte ch chs (below, b) = below

module _ (lexical_cast : ℤ → List ℕ) where
  Run-token :
      (t : Tokenizer) {r : Scan Tokenizer}
      → has_more_tokens t ≡ true
      → next_token lexical_cast t ≡ r
      → Shortens t r
      → ((u : Tokenizer) → Shorter t u → Run lexical_cast u)
      → Run lexical_cast t
  Run-token t more e (short_throw s) later = run_throws more e
  Run-token t more e (short_return {u} s) later = run_goes_on more e (later u s)

  Run-from : (n : ℕ) (t : Tokenizer) → length t.input ≤ n → AreBytes t.input → Run lexical_cast t
  Run-from zero t l b = elim (list_cases t.input) [
    | inl e ↦ run_stops (no_more t e)
    | inr (ch, chs, e) ↦ absurd (omega (arith, ap length e, l))
  ]
  Run-from (suc n) t l b = elim (list_cases t.input) [
    | inl e ↦ run_stops (no_more t e)
    | inr (ch, chs, e) ↦
        let below = first_byte ch chs (subst AreBytes e b) in
        Run-token t (more ch chs t e) refl (next_token-Shortens lexical_cast ch chs t e below)
          λ u s. Run-from n u (omega (arith, Shorter-length s, l)) (Shorter-AreBytes s b)
  ]

  -- On any bytes, the loop that reads tokens for as long as there are more ends after finitely many of them: at the
  -- end of the input, or by an exception.
  pub next_token-Run : (t : Tokenizer) → AreBytes t.input → Run lexical_cast t
  next_token-Run t b = Run-from (length t.input) t (omega arith) b
