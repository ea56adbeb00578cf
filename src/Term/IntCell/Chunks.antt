-- ===== src/Term/IntCell/Chunks.antt =====
-- Character chunks of int_cell: up to seven bytes of a string in the value of an INT cell.
use Prim.Native.Nat.{bit_or, min}
use epilog.Prelude.{
  ℕ, zero, suc, ◌+◌, ◌*◌, ◌/◌, ◌%◌, ◌^◌, ◌≤◌, ◌<◌, ◌≡◌, refl, Bool, true, false, not, ◌&&◌, ◌==◌,
  if◌then◌else◌, List, [], ◌∷◌, length, take, drop, ◌-◌, some, leb, arith,
}
use epilog.Prelude.Bits.{bit_or_disjoint}
use epilog.Term.Cell.{Cell, int, cell, value}
use epilog.Term.Cell.Laws.{cell_parts}
use epilog.Term.Bytes.{
  or_bytes, packed, weight, AllBytes, or_bytes-packed, byte_at-head, byte_at-end, next_value,
  packed-le, packed-mod,
}
use epilog.Term.IntCell.{
  is_valid_char, char_chunk_loop, is_char_chunk, is_last_char_chunk, as_char_chunk_loop,
  as_char_chunk, chunk_cell, encode_str,
}

-- The bytes that a chunk can hold: 1 to 127.
abbrev pub IsText : List ℕ → Type 0
IsText [] = Unit
IsText (ch ∷ chs) = (1 ≤ ch) × (ch ≤ 127) × IsText chs

AllBytes-text : (chs : List ℕ) → IsText chs → AllBytes chs
AllBytes-text [] h = tt
AllBytes-text (ch ∷ chs) h = (omega arith, AllBytes-text chs h.2)

-- The cell that encode_str builds of the bytes of one chunk.
abbrev pub chunk : List ℕ → Bool → Cell
chunk chs has_more = let v = or_bytes 0 0 chs in cell int (if has_more then bit_or v 1 else v)

abbrev flag : Bool → ℕ
flag b = if b then 1 else 0

chunk-value :
    (chs : List ℕ) (more : Bool)
    → IsText chs
    → length chs ≤ 7
    → value (chunk chs more) ≡ packed 0 chs + flag more
chunk-value chs more t h =
    let b = AllBytes-text chs t in
    let p : ℕ = packed 0 chs in
    let v : or_bytes 0 0 chs ≡ p =
      omega (arith, or_bytes-packed 0 0 0 chs (omega arith) b (omega arith)) in
    let low : p % 32 ≡ 0 = packed-mod 0 chs (omega arith) in
    let bound : p + 32 ≤ 2 ^ 61 = unfold weight in packed-le 0 chs b (omega arith) in
    let joined : bit_or p 1 ≡ p + 1 = bit_or_disjoint 5 (p / 32) p 1 (omega arith) (omega arith) in
    rw v (at more p bound joined)
  where
    at :
        (more : Bool) (p : ℕ)
        → p + 32 ≤ 2 ^ 61
        → bit_or p 1 ≡ p + 1
        → value (cell int (if more then bit_or p 1 else p)) ≡ p + flag more
    at true p bound e = rw e (cell_parts int (p + 1) (omega arith)).1
    at false p bound e = omega (arith, (cell_parts int p (omega arith)).1)

valid : (ch : ℕ) → 1 ≤ ch → ch ≤ 127 → (is_valid_char ch ≡ true) × ((ch == 0) ≡ false)
unfolding is_valid_char
valid ch lo hi = (ground arith, ground arith)

char_chunk_loop-packed :
    (c a low rounds i : ℕ) (chs : List ℕ)
    → value c ≡ a * weight i + (packed i chs + low)
    → low < 32
    → rounds + i ≡ 7
    → i + length chs ≤ 7
    → IsText chs
    → char_chunk_loop c rounds i ≡ true
unfolding char_chunk_loop
char_chunk_loop-packed c a low zero i chs e l r h t = refl
char_chunk_loop-packed c a low (suc rounds) i [] e l r h t =
    rw (byte_at-end a (value c) i low (omega arith) (omega arith) l) refl
char_chunk_loop-packed c a low (suc rounds) i (ch ∷ chs) e l r h t =
    let (good, nonzero) = valid ch t.0 t.1 in
    rw (byte_at-head a (value c) i ch chs low e (AllBytes-text (ch ∷ chs) t) h l, nonzero, good)
      (char_chunk_loop-packed c (a * 256 + ch) low rounds (i + 1) chs
        (next_value a (value c) i ch chs low e (omega arith)) l (omega arith) (omega arith) t.2)

as_char_chunk_loop-packed :
    (c a low rounds i : ℕ) (chs : List ℕ)
    → value c ≡ a * weight i + (packed i chs + low)
    → low < 32
    → rounds + i ≡ 7
    → i + length chs ≤ 7
    → IsText chs
    → as_char_chunk_loop c rounds i ≡ chs
unfolding as_char_chunk_loop
as_char_chunk_loop-packed c a low zero i [] e l r h t = refl
as_char_chunk_loop-packed c a low zero i (ch ∷ chs) e l r h t = absurd (omega arith)
as_char_chunk_loop-packed c a low (suc rounds) i [] e l r h t =
    rw (byte_at-end a (value c) i low (omega arith) (omega arith) l) refl
as_char_chunk_loop-packed c a low (suc rounds) i (ch ∷ chs) e l r h t =
    let (good, nonzero) = valid ch t.0 t.1 in
    rw
      (
        byte_at-head a (value c) i ch chs low e (AllBytes-text (ch ∷ chs) t) h l,
        nonzero,
        as_char_chunk_loop-packed c (a * 256 + ch) low rounds (i + 1) chs
            (next_value a (value c) i ch chs low e (omega arith)) l (omega arith) (omega arith) t.2,
      )
      refl

flag-low : (p : ℕ) (more : Bool) → p % 32 ≡ 0 → (p + flag more) % 32 ≡ flag more
flag-low p true h = omega arith
flag-low p false h = omega arith

flag-lt : (more : Bool) → flag more < 32
flag-lt true = omega arith
flag-lt false = omega arith

low_tests :
    (x : ℕ) (more : Bool)
    → x ≡ flag more
    → ((not (x == 0) && not (x == 1)) ≡ false) × ((x == 0) ≡ not more)
low_tests x true e = rw e (refl, refl)
low_tests x false e = rw e (refl, refl)

-- A chunk of at most seven bytes from 1 to 127 is recognised as one, gives its bytes back, and tells
-- whether the string goes on.
chunk_lem :
    (chs : List ℕ) (more : Bool)
    → IsText chs
    → length chs ≤ 7
    → (is_char_chunk (chunk chs more) ≡ true)
      × (as_char_chunk (chunk chs more) ≡ chs)
      × (is_last_char_chunk (chunk chs more) ≡ not more)
unfolding is_char_chunk as_char_chunk is_last_char_chunk
chunk_lem chs more t h =
    let c : Cell = chunk chs more in
    let v = chunk-value chs more t h in
    let v' : value c ≡ 0 * weight 0 + (packed 0 chs + flag more) = omega (arith, v) in
    let low : value c % 32 ≡ flag more =
      rw v (flag-low (packed 0 chs) more (packed-mod 0 chs (omega arith))) in
    let (first, last) = low_tests (value c % 32) more low in
    (
      rw first (
          char_chunk_loop-packed c 0 (flag more) 7 0 chs v' (flag-lt more) (omega arith)
            (omega arith) t),
      as_char_chunk_loop-packed c 0 (flag more) 7 0 chs v' (flag-lt more) (omega arith)
          (omega arith) t,
      last,
    )

IsText-drop : (n : ℕ) (s : List ℕ) → IsText s → IsText (drop n s)
IsText-drop zero s t = t
IsText-drop (suc n) [] t = t
IsText-drop (suc n) (ch ∷ s) t = IsText-drop n s t.2

IsText-take : (n : ℕ) (s : List ℕ) → IsText s → IsText (take n s)
IsText-take zero s t = tt
IsText-take (suc n) [] t = tt
IsText-take (suc n) (ch ∷ s) t = (t.0, t.1, IsText-take n s t.2)

length-take-le : (n : ℕ) (s : List ℕ) → length (take n s) ≤ n
length-take-le zero s = omega arith
length-take-le (suc n) [] = omega arith
length-take-le (suc n) (ch ∷ s) = omega (arith, length-take-le n s)

-- The assertion of encode_str holds for at most seven places.
pub encode_str-some :
    (s : List ℕ) (from to : ℕ) (more : Bool)
    → from ≤ to
    → to ≤ from + 7
    → encode_str s from to more ≡ some (chunk_cell s from to more)
unfolding encode_str
encode_str-some s from to more start end = rw (holds) refl
  where
    holds : leb ((to + 2 ^ 64 - from) % 2 ^ 64) 7 ≡ true
    holds = ground arith

pub chunk_cell_lem :
    (s : List ℕ) (from to : ℕ) (more : Bool)
    → IsText s
    → to - from ≤ 7
    → (is_char_chunk (chunk_cell s from to more) ≡ true)
      × (as_char_chunk (chunk_cell s from to more) ≡ take (min to (length s) - from) (drop from s))
      × (is_last_char_chunk (chunk_cell s from to more) ≡ not more)
unfolding chunk_cell
chunk_cell_lem s from to more t h =
    let n : ℕ = min to (length s) - from in
    let small : n ≤ 7 = fits to (length s) h in
    chunk_lem (take n (drop from s)) more (IsText-take n (drop from s) (IsText-drop from s t))
      (omega (arith, length-take-le n (drop from s), small))
  where
    fits : (a b : ℕ) → a - from ≤ 7 → min a b - from ≤ 7
    fits a b h = ground arith

-- encode_str makes a chunk of at most seven places of a string of bytes from 1 to 127, which start where they end or
-- before; the chunk is recognised as one, gives back the bytes of those places, as far as the string reaches, and tells
-- whether the string goes on.
pub encode_str_lem :
    (s : List ℕ) (from to : ℕ) (more : Bool)
    → IsText s
    → from ≤ to
    → to ≤ from + 7
    → (c : Cell) × (encode_str s from to more ≡ some c)
      × (is_char_chunk c ≡ true)
      × (as_char_chunk c ≡ take (min to (length s) - from) (drop from s))
      × (is_last_char_chunk c ≡ not more)
encode_str_lem s from to more t start end =
    let (known, text, last) = chunk_cell_lem s from to more t (omega arith) in
    (chunk_cell s from to more, encode_str-some s from to more start end, known, text, last)
