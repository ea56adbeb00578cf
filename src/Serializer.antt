-- ===== src/Serializer.antt =====
-- The serializer of common/term_serializer.hpp and common/term_serializer.cpp, as far as cells and encoded strings
-- go: a buffer is a list of bytes, and each cell takes eight of them, the lowest first.
pub mod Cells
pub mod Strings
mod Examples
use Prim.Native.Nat.{bit_or}
use epilog.Prelude.{
  ℕ, zero, suc, ◌+◌, ◌*◌, ◌/◌, ◌%◌, ◌^◌, not, ltb, ◌==◌, if◌then◌else◌, Option, none, some, List,
  [], ◌∷◌, ◌++◌, length, get_elem?, set,
}
use epilog.Term.Cell.{Cell}

-- What the serializer throws while it reads cells and strings.
pub data SerializerError : Type 0 where
  unexpected_end : ℕ → SerializerError
  unexpected_data : Cell → ℕ → SerializerError

pub data Read {ℓ} (A : Type ℓ) : Type ℓ where
  fails : SerializerError → Read A
  got : A → Read A

-- term_serializer::read_byte; the code reads in range.
unfoldable pub read_byte : List ℕ → ℕ → ℕ
read_byte bytes i = elim (get_elem? bytes i) [ none ↦ 0 | some b ↦ b ]

-- The loop of term_serializer::read_cell, whose first round reads the last byte.
unfoldable pub read_cell_loop : ℕ → List ℕ → ℕ → ℕ → ℕ
unfolding read_byte
read_cell_loop zero bytes from raw_value = raw_value
read_cell_loop (suc n) bytes from raw_value =
    read_cell_loop n bytes from (bit_or (raw_value * 256 % 2 ^ 64) (read_byte bytes (from + n)))

-- term_serializer::read_cell
unfoldable pub read_cell : List ℕ → ℕ → Read Cell
unfolding read_cell_loop
read_cell bytes from =
    if ltb (length bytes) (from + 8)
    then fails (unexpected_end from)
    else got (read_cell_loop 8 bytes from 0)

-- The loop of term_serializer::write_cell
unfoldable pub write_cell_loop : ℕ → List ℕ → ℕ → ℕ → List ℕ
write_cell_loop zero bytes at v = bytes
write_cell_loop (suc n) bytes at v = write_cell_loop n (set bytes at (v % 256)) (at + 1) (v / 256)

-- The eight bytes that bytes.resize adds.
abbrev pub fresh_bytes : List ℕ
fresh_bytes = 0 ∷ 0 ∷ 0 ∷ 0 ∷ 0 ∷ 0 ∷ 0 ∷ 0 ∷ []

-- term_serializer::write_cell
unfoldable pub write_cell : List ℕ → ℕ → Cell → List ℕ
unfolding write_cell_loop
write_cell bytes offset c =
    write_cell_loop 8 (if offset == length bytes then bytes ++ fresh_bytes else bytes) offset c
