-- ===== src/Term/Con/Names.antt =====
-- What a constant cell of common/term.hpp gives back of the name and the arity that it is built from.
use Prim.Native.Nat.{bit_or}
use epilog.Prelude.{
  ℕ, zero, suc, ◌+◌, ◌*◌, ◌/◌, ◌%◌, ◌^◌, ◌≤◌, ◌<◌, ◌≡◌, refl, ap, ◌∙◌, true, false, ◌==◌, List, [],
  ◌∷◌, map, length, arith,
}
use epilog.Prelude.Bits.{bit_or_disjoint, bit_or_shift, bit_or_top}
use epilog.Term.Cell.{con, cell, value}
use epilog.Term.Cell.Laws.{cell_parts}
use epilog.Term.Bytes.{
  or_bytes, packed, weight, AllBytes, or_bytes-packed, byte_at-head, byte_at-end, next_value,
  packed-le, packed-mod,
}
use epilog.Term.Con.{
  con_index_cell, con_name_cell, name_char, is_direct, arity, atom_index, name_length_loop,
  name_loop, name,
}

-- A constant with an index below 2^47 and an arity below 2^13 is not direct; it keeps its index, and the
-- low 12 bits of its arity.
pub con_index_cell_lem :
    (i n : ℕ)
    → i < 2 ^ 47
    → n < 2 ^ 13
    → (is_direct (con_index_cell i n) ≡ false)
      × (atom_index (con_index_cell i n) ≡ i)
      × (arity (con_index_cell i n) ≡ n % 4096)
unfolding con_index_cell is_direct arity atom_index
con_index_cell_lem i n hi hn =
    let e : bit_or (i * 2 ^ 13) n ≡ i * 2 ^ 13 + n = bit_or_disjoint 13 i (i * 2 ^ 13) n refl hn in
    let v : value (cell con (i * 2 ^ 13 + n)) ≡ i * 2 ^ 13 + n =
      (cell_parts con (i * 2 ^ 13 + n) (omega arith)).1 in
    rw (e, v) (ground arith)

-- The bytes of a name, all of seven bits.
abbrev pub IsAscii : List ℕ → Type 0
IsAscii [] = Unit
IsAscii (ch ∷ chs) = (ch < 128) × IsAscii chs

AllBytes-map : (chs : List ℕ) → AllBytes (map name_char chs)
AllBytes-map [] = tt
AllBytes-map (ch ∷ chs) = (omega arith, AllBytes-map chs)

length-map : (chs : List ℕ) → length (map name_char chs) ≡ length chs
length-map [] = refl
length-map (ch ∷ chs) = ap suc (length-map chs)

-- The first byte's top bit is the bit that marks a packed name.
first_byte : (ch : ℕ) → bit_or (2 ^ 60) (name_char ch * 2 ^ 53) ≡ name_char ch * 2 ^ 53
first_byte ch =
    bit_or_shift 53 128 (name_char ch)
    ∙ ap (λ (t : ℕ). t * 2 ^ 53) (bit_or_top (ch % 128) (omega arith))

loop_value :
    (ch : ℕ) (chs : List ℕ)
    → length (ch ∷ chs) ≤ 7
    → or_bytes (2 ^ 60) 0 (map name_char (ch ∷ chs)) ≡ packed 0 (map name_char (ch ∷ chs))
unfolding or_bytes
loop_value ch chs h =
    ap (λ (v : ℕ). or_bytes v 1 (map name_char chs)) (first_byte ch)
    ∙ or_bytes-packed (name_char ch) (name_char ch * 2 ^ 53) 1 (map name_char chs)
        (unfold weight in refl) (AllBytes-map chs) (omega (arith, length-map chs))

packed-lt :
    (nm : List ℕ) (n : ℕ) → length nm ≤ 7 → n ≤ 31 → packed 0 (map name_char nm) + n < 2 ^ 61
unfolding weight
packed-lt nm n fits small =
    omega (arith, packed-le 0 (map name_char nm) (AllBytes-map nm) (omega (arith, length-map nm)))

-- The 61-bit value of a packed constant.
con_name_cell-value :
    (ch : ℕ) (chs : List ℕ) (n : ℕ)
    → length (ch ∷ chs) ≤ 7
    → n ≤ 31
    → value (con_name_cell (ch ∷ chs) n) ≡ packed 0 (map name_char (ch ∷ chs)) + n
unfolding con_name_cell
con_name_cell-value ch chs n h s =
    let p : ℕ = packed 0 (map name_char (ch ∷ chs)) in
    let low : p % 32 ≡ 0 =
      packed-mod 0 (map name_char (ch ∷ chs)) (omega (arith, length-map chs)) in
    let e : bit_or p n ≡ p + n = bit_or_disjoint 5 (p / 32) p n (omega arith) (omega arith) in
    rw (loop_value ch chs h, e) (cell_parts con (p + n) (packed-lt (ch ∷ chs) n h s)).1

high_bit : (ch : ℕ) → (name_char ch / 128 == 0) ≡ false
high_bit ch = ground arith

-- The scan for the end of the name stops behind the bytes that were packed.
name_length_loop-packed :
    (c a low rounds i : ℕ) (nm : List ℕ)
    → value c ≡ a * weight i + (packed i (map name_char nm) + low)
    → low < 32
    → i + length nm ≤ 7
    → rounds + i ≡ 7
    → name_length_loop c rounds i ≡ i + length nm
unfolding name_length_loop
name_length_loop-packed c a low zero i [] e l h r = omega arith
name_length_loop-packed c a low zero i (ch ∷ nm) e l h r = absurd (omega arith)
name_length_loop-packed c a low (suc rounds) i [] e l h r =
    rw (byte_at-end a (value c) i low (omega arith) (omega arith) l) (omega arith)
name_length_loop-packed c a low (suc rounds) i (ch ∷ nm) e l h r =
    rw
      (
        byte_at-head a (value c) i (name_char ch) (map name_char nm) low e (AllBytes-map (ch ∷ nm))
            (omega (arith, length-map nm)) l,
        high_bit ch,
      )
      (omega (
        arith,
        name_length_loop-packed c (a * 256 + name_char ch) low rounds (i + 1) nm
            (next_value a (value c) i (name_char ch) (map name_char nm) low e (omega arith)) l
            (omega arith) (omega arith),
      ))

char_back : (ch : ℕ) → ch < 128 → name_char ch % 128 ≡ ch
char_back ch h = omega arith

-- The bytes that are read back are those of the name.
name_loop-packed :
    (c a low i : ℕ) (nm : List ℕ)
    → value c ≡ a * weight i + (packed i (map name_char nm) + low)
    → low < 32
    → i + length nm ≤ 7
    → IsAscii nm
    → name_loop c (length nm) i ≡ nm
unfolding name_loop
name_loop-packed c a low i [] e l h s = refl
name_loop-packed c a low i (ch ∷ nm) e l h s = rw (
  byte_at-head a (value c) i (name_char ch) (map name_char nm) low e (AllBytes-map (ch ∷ nm))
      (omega (arith, length-map nm)) l,
  char_back ch s.0,
  name_loop-packed c (a * 256 + name_char ch) low (i + 1) nm
      (next_value a (value c) i (name_char ch) (map name_char nm) low e (omega arith)) l
      (omega arith) s.1,
)

top_bit : (p : ℕ) → 128 * 2 ^ 53 ≤ p → p < 256 * 2 ^ 53 → (p / 2 ^ 60 % 2 == 1) ≡ true
top_bit p lo hi = ground arith

-- A constant with a name of one to seven ASCII bytes and an arity of at most 31 keeps both.
pub name-con_name_cell :
    (ch : ℕ) (chs : List ℕ) (n : ℕ)
    → length (ch ∷ chs) ≤ 7
    → IsAscii (ch ∷ chs)
    → n ≤ 31
    → (name (con_name_cell (ch ∷ chs) n) ≡ ch ∷ chs)
      × (arity (con_name_cell (ch ∷ chs) n) ≡ n)
      × (is_direct (con_name_cell (ch ∷ chs) n) ≡ true)
unfolding name is_direct arity
name-con_name_cell ch chs n h s small =
    let nm : List ℕ = ch ∷ chs in
    let p : ℕ = packed 0 (map name_char nm) in
    let v : value (con_name_cell nm n) ≡ p + n = con_name_cell-value ch chs n h small in
    let v' : value (con_name_cell nm n) ≡ 0 * weight 0 + (p + n) = omega (arith, v) in
    let len : name_length_loop (con_name_cell nm n) 7 0 ≡ length nm = omega (
      arith,
      name_length_loop-packed (con_name_cell nm n) 0 n 7 0 nm v' (omega arith) (omega arith)
          (omega arith),
    ) in
    let low : p % 32 ≡ 0 = packed-mod 0 (map name_char nm) (omega (arith, length-map nm)) in
    let direct : ((p + n) / 2 ^ 60 % 2 == 1) ≡ true =
      top_bit (p + n) (omega arith) (omega (arith, packed-lt nm n h small)) in
    (
      rw len (name_loop-packed (con_name_cell nm n) 0 n 0 nm v' (omega arith) (omega arith) s),
      rw (v, direct) (omega arith),
      rw (v, direct) refl,
    )
