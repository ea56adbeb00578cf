-- ===== src/Tokenizer/Escapes.antt =====
-- The escape sequences of common/term_tokenizer.cpp, on both of their ways out: what they leave of the input.
use epilog.Prelude.{
  ℕ, zero, suc, Bool, true, false, ◌&&◌, leb, ◌==◌, inl, inr, Bool-cases, if◌then◌else◌, List,
  length,
}
use epilog.TokenChars.{is_layout_char, is_capital_letter, is_small_letter}
use epilog.Tokenizer.{
  Tokenizer, scanned, hex_code, unterminated_escape, control_char, peek_is, is_eof, next_char,
  append_lexeme,
}
use epilog.Tokenizer.Quoted.{
  parse_hex_digit, oct_code_loop, parse_oct_code, escape_goes_on, hex_escape, skip_layout_loop,
  control_code, control_escape, other_escape, escape_code, next_escape_sequence,
}
use epilog.Tokenizer.Outcomes.{
  Reads, Reads-refl, Reads-trans, next_char-Reads, append_lexeme-Reads, Stops, Stops-from,
  Stops-bind, Stops-if, throw_token-Stops, peek_char-cases, itself, behind, by_return,
}

parse_hex_digit-Stops : (t : Tokenizer) → Stops behind t (parse_hex_digit t)
unfolding parse_hex_digit
parse_hex_digit-Stops t =
    let r = next_char-Reads t in
    elim (peek_char-cases t) [
      | inl e ↦ rw (parse_hex_digit, e) (throw_token-Stops hex_code r)
      | inr (ch, chs, _, e) ↦
          rw (parse_hex_digit, e)
            (Stops-if (leb b'a' ch && leb ch b'f') (λ h. by_return r)
              λ h.
                Stops-if (leb b'A' ch && leb ch b'F') (λ k. by_return r)
                  λ k.
                    Stops-if (leb b'0' ch && leb ch b'9') (λ l. by_return r)
                      λ l. throw_token-Stops hex_code r)
    ]

Reads-if : (b : Bool) {t u v : Tokenizer} → Reads t u → Reads t v → Reads t (if b then u else v)
Reads-if true r s = r
Reads-if false r s = s

oct_code_loop-Reads : (i v : ℕ) (t : Tokenizer) → Reads t (oct_code_loop i v t).1
unfolding oct_code_loop
oct_code_loop-Reads zero v t = Reads-refl t
oct_code_loop-Reads (suc i) v t =
    let r = next_char-Reads t in
    elim (peek_char-cases t) [
      | inl e ↦ rw (oct_code_loop, e) r
      | inr (ch, chs, _, e) ↦ elim (Bool-cases (leb b'0' ch && leb ch b'7')) [
        | inl y ↦ rw (oct_code_loop, e, y) (Reads-trans r (oct_code_loop-Reads i _ (next_char t)))
        | inr n ↦ rw (oct_code_loop, e, n) r
      ]
    ]

escape_goes_on-Stops : (t : Tokenizer) → Stops itself t (escape_goes_on t)
unfolding escape_goes_on
escape_goes_on-Stops t =
    Stops-if (is_eof t) (λ h. throw_token-Stops unterminated_escape (Reads-refl t))
      λ h. by_return (Reads-refl t)

hex_escape-Stops : (t : Tokenizer) → Stops itself t (hex_escape t)
unfolding hex_escape
hex_escape-Stops t = Stops-bind (escape_goes_on-Stops t) λ t0.
    Stops-bind (parse_hex_digit-Stops t0) λ r1.
      Stops-bind (escape_goes_on-Stops r1.1)
        λ t1. Stops-bind (parse_hex_digit-Stops t1) λ r2. by_return (append_lexeme-Reads _ r2.1)

skip_layout_loop-Reads : (rounds : ℕ) (t : Tokenizer) → Reads t (skip_layout_loop rounds t)
unfolding skip_layout_loop
skip_layout_loop-Reads zero t = Reads-refl t
skip_layout_loop-Reads (suc rounds) t =
    Reads-if (peek_is is_layout_char t)
      (Reads-trans (next_char-Reads t) (skip_layout_loop-Reads rounds (next_char t))) (Reads-refl t)

append_lexeme-Stops : (s : List ℕ) (t : Tokenizer) → Stops itself t (scanned (append_lexeme s t))
append_lexeme-Stops s t = by_return (append_lexeme-Reads s t)

control_code-Stops : (ch : ℕ) (t : Tokenizer) → Stops itself t (control_code ch t)
unfolding control_code
control_code-Stops ch t =
    let r = λ (s : List ℕ). append_lexeme-Stops s t in
    Stops-if (ch == b'?') (λ h. r _)
      λ h.
        Stops-if (is_capital_letter ch) (λ k. r _)
          λ k.
            Stops-if (is_small_letter ch) (λ l. r _)
              λ l. throw_token-Stops control_char (Reads-refl t)

control_escape-Stops : (t : Tokenizer) → Stops itself t (control_escape t)
unfolding control_escape
control_escape-Stops t = elim (peek_char-cases t) [
  | inl e ↦ rw (control_escape, e) (throw_token-Stops unterminated_escape (Reads-refl t))
  | inr (ch, chs, _, e) ↦
      rw (control_escape, e) (Stops-from (next_char-Reads t) (control_code-Stops ch (next_char t)))
]

other_escape-Reads : (ch : ℕ) (t : Tokenizer) → Reads t (other_escape ch t)
unfolding other_escape parse_oct_code
other_escape-Reads ch t =
    Reads-if (leb b'0' ch && leb ch b'7')
      (Reads-trans (oct_code_loop-Reads 3 0 t) (append_lexeme-Reads _ _))
      (Reads-if (is_layout_char ch) (Reads-refl t) (append_lexeme-Reads _ t))

escape_code-Stops : (ch : ℕ) (t : Tokenizer) → Stops itself t (escape_code ch t)
unfolding escape_code
escape_code-Stops ch t =
    let r = λ (s : List ℕ). append_lexeme-Stops s t in
    Stops-if (ch == b'b') (λ h. r _)
      λ h.
        Stops-if (ch == b't') (λ h. r _)
          λ h.
            Stops-if (ch == b'n') (λ h. r _)
              λ h.
                Stops-if (ch == b'v') (λ h. r _)
                  λ h.
                    Stops-if (ch == b'f') (λ h. r _)
                      λ h.
                        Stops-if (ch == b'r') (λ h. r _)
                          λ h.
                            Stops-if (ch == b'e') (λ h. r _)
                              λ h.
                                Stops-if (ch == b'd') (λ h. r _)
                                  λ h.
                                    Stops-if (ch == b'a') (λ h. r _)
                                      λ h.
                                        Stops-if (ch == b'x') (λ h. hex_escape-Stops t)
                                          λ h.
                                            Stops-if (ch == b'c')
                                              (λ h.
                                                by_return
                                                  (skip_layout_loop-Reads (length t.input) t))
                                              λ h.
                                                Stops-if (ch == b'^') (λ h. control_escape-Stops t)
                                                  λ h. by_return (other_escape-Reads ch t)

pub next_escape_sequence-Stops : (t : Tokenizer) → Stops itself t (next_escape_sequence t)
unfolding next_escape_sequence
next_escape_sequence-Stops t = elim (peek_char-cases t) [
  | inl e ↦ rw (next_escape_sequence, e) (throw_token-Stops unterminated_escape (Reads-refl t))
  | inr (ch, chs, _, e) ↦
      rw (next_escape_sequence, e)
        (Stops-from (next_char-Reads t) (escape_code-Stops ch (next_char t)))
]
