-- ===== src/Serializer/Strings.antt =====
-- Encoded strings: a string as a series of character chunks (term_serializer::write_encoded_string and
-- read_encoded_string of common/term_serializer.cpp).
pub mod RoundTrip
use epilog.Prelude.{
  ℕ, zero, suc, ◌+◌, Bool, true, false, not, ltb, if◌then◌else◌, List, [], ◌∷◌, ◌++◌, length,
  Option, none, some,
}
use epilog.Term.Cell.{Cell, int, tag, same_tag}
use epilog.Term.IntCell.{encode_str, is_char_chunk, as_char_chunk, is_last_char_chunk}
use epilog.Serializer.{Read, fails, got, unexpected_data, unexpected_end, read_cell, write_cell}

abbrev pub when_some : {A B : Type 0} → Option A → (A → Option B) → Option B
when_some none f = none
when_some (some a) f = f a

-- The loop of write_encoded_string, which takes at most as many rounds as there are characters; nothing
-- stands for a failed assertion of encode_str.
pub write_string_loop : ℕ → List ℕ → List ℕ → ℕ → Option (List ℕ)
write_string_loop zero bytes str i = some bytes
write_string_loop (suc rounds) bytes str i =
    let n = length str in
    let rest =
      λ (c : Cell). write_string_loop rounds (write_cell bytes (length bytes) c) str (i + 7) in
    if ltb i n then when_some (encode_str str i (i + 7) (ltb (i + 7) n)) rest else some bytes

-- term_serializer::write_encoded_string
pub write_encoded_string : List ℕ → List ℕ → Option (List ℕ)
write_encoded_string bytes str = write_string_loop (length str) bytes str 0

-- What the next round of read_encoded_string does with the string and the offset so far.
abbrev pub Rest : Type 0
Rest = List ℕ → ℕ → Read (List ℕ × ℕ)

-- What a round does with the cell that it has read.
pub read_chunk : Rest → Cell → List ℕ → ℕ → Read (List ℕ × ℕ)
read_chunk rest c str offset =
    if not (same_tag (tag c) int)
    then fails (unexpected_data c offset)
    else if not (is_char_chunk c)
    then fails (unexpected_data c offset)
    else if not (is_last_char_chunk c)
    then rest (str ++ as_char_chunk c) (offset + 8)
    else got (str ++ as_char_chunk c, offset + 8)

pub read_round : Rest → List ℕ → List ℕ → ℕ → Read (List ℕ × ℕ)
read_round rest bytes str offset = elim (read_cell bytes offset) [
  | fails e ↦ fails e
  | got c ↦ read_chunk rest c str offset
]

-- The loop of read_encoded_string. Each round that goes on leaves eight bytes behind, so that after as
-- many rounds as there are bytes it is past the end of the buffer.
pub read_string_loop : ℕ → List ℕ → List ℕ → ℕ → Read (List ℕ × ℕ)
read_string_loop zero bytes str offset = fails (unexpected_end offset)
read_string_loop (suc rounds) bytes str offset =
    read_round (λ str1 offset1. read_string_loop rounds bytes str1 offset1) bytes str offset

-- term_serializer::read_encoded_string
pub read_encoded_string : List ℕ → ℕ → Read (List ℕ × ℕ)
read_encoded_string bytes offset = read_string_loop (length bytes) bytes [] offset
