-- ===== src/Serializer/Examples.antt =====
-- The round trips at small buffers.
use epilog.Prelude.{ℕ, ◌+◌, ◌≤◌, ◌<◌, ◌≡◌, ◌⊎◌, inl, refl, List, [], ◌∷◌, length, some, arith}
use epilog.Serializer.{got, read_byte, read_cell, write_cell}
use epilog.Serializer.Cells.{read_cell-write_cell}
use epilog.Serializer.Strings.{read_encoded_string, write_encoded_string}
use epilog.Serializer.Strings.RoundTrip.{read_encoded_string-write_encoded_string}

abbrev buffer : List ℕ
buffer = 1 ∷ 2 ∷ 3 ∷ []

read_cell-write_cell_example :
    (read_cell (write_cell buffer 3 1000) 3 ≡ got 1000)
    × (3 + 8 ≤ length (write_cell buffer 3 1000))
    × (3 ≤ length (write_cell buffer 3 1000))
    × ((j : ℕ)
        → j < 3
        → (j < 3) ⊎ (3 + 8 ≤ j)
        → read_byte (write_cell buffer 3 1000) j ≡ read_byte buffer j)
read_cell-write_cell_example = read_cell-write_cell buffer 3 1000 (omega arith) (inl refl)

-- Eight characters, which take two chunks.
abbrev letters : List ℕ
letters = 97 ∷ 98 ∷ 99 ∷ 100 ∷ 101 ∷ 102 ∷ 103 ∷ 104 ∷ []

read_encoded_string-write_encoded_string_example :
    (out : List ℕ) × (write_encoded_string buffer letters ≡ some out)
    × (read_encoded_string out 3 ≡ got (letters, length out))
read_encoded_string-write_encoded_string_example =
    read_encoded_string-write_encoded_string buffer letters
      (
        omega arith,
        omega arith,
        (
          omega arith,
          omega arith,
          (
            omega arith,
            omega arith,
            (
              omega arith,
              omega arith,
              (
                omega arith,
                omega arith,
                (
                  omega arith,
                  omega arith,
                  (omega arith, omega arith, (omega arith, omega arith, tt)),
                ),
              ),
            ),
          ),
        ),
      )
      (omega arith)
