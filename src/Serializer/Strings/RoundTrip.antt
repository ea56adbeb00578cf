-- ===== src/Serializer/Strings/RoundTrip.antt =====
-- An encoded string is read back.
use Prim.Native.Nat.{min}
use mathlib.Core.List.{append_assoc}
use epilog.Prelude.{
  ℕ, zero, suc, ◌+◌, ◌-◌, ◌^◌, ◌≤◌, ◌<◌, ◌≡◌, inl, inr, refl, sym, ap, ◌∙◌, Bool, true, false, not,
  Bool-cases, ltb, if◌then◌else◌, List, [], ◌++◌, length, take, drop, take-drop, drop-drop,
  length-drop, take-length, some, arith,
}
use epilog.Term.Cell.{Cell, int, tag, cell}
use epilog.Term.Cell.Laws.{tag-cell, same_tag_refl}
use epilog.Term.IntCell.{chunk_cell}
use epilog.Term.IntCell.Chunks.{IsText, chunk_cell_lem, encode_str-some}
use epilog.Serializer.{Read, fails, got, read_byte, read_cell, write_cell}
use epilog.Serializer.Cells.{read_cell-write_cell, read_cell-agrees, write_cell-length}
use epilog.Serializer.Strings.{
  write_string_loop, write_encoded_string, Rest, read_chunk, read_round, read_string_loop,
  read_encoded_string,
}

chunk_cell-tag : (s : List ℕ) (i j : ℕ) (more : Bool) → tag (chunk_cell s i j more) ≡ int
unfolding chunk_cell
chunk_cell-tag s i j more = tag-cell int _

chunk_cell-word : (s : List ℕ) (i j : ℕ) (more : Bool) → chunk_cell s i j more < 2 ^ 64
unfolding chunk_cell
chunk_cell-word s i j more = word _
  where
    word : (v : ℕ) → cell int v < 2 ^ 64
    word v = unfold cell in ground arith

-- The part of the string that the chunk at place i holds.
abbrev piece : List ℕ → ℕ → List ℕ
piece s i = take (min (i + 7) (length s) - i) (drop i s)

-- The chunk at place i is read as its part of the string, and decides whether to go on.
read_chunk-chunk_cell :
    (rest : Rest) (s : List ℕ) (i : ℕ) (more : Bool) (str : List ℕ) (offset : ℕ)
    → IsText s
    → read_chunk rest (chunk_cell s i (i + 7) more) str offset
      ≡ (if more then rest (str ++ piece s i) (offset + 8) else got (str ++ piece s i, offset + 8))
unfolding read_chunk
read_chunk-chunk_cell rest s i more str offset t =
    let (known, text, last) = chunk_cell_lem s i (i + 7) more t (omega arith) in
    rw (chunk_cell-tag s i (i + 7) more, same_tag_refl int, known, text, last) (twice more)
  where
    twice :
        (b : Bool)
        → (if not (not b)
            then rest (str ++ piece s i) (offset + 8)
            else got (str ++ piece s i, offset + 8))
          ≡ (if b then rest (str ++ piece s i) (offset + 8) else got (str ++ piece s i, offset + 8))
    twice true = refl
    twice false = refl

-- The bytes that the loop of write_encoded_string leaves, the assertions of encode_str holding.
write_chunks : ℕ → List ℕ → List ℕ → ℕ → List ℕ
write_chunks zero bytes s i = bytes
write_chunks (suc f) bytes s i =
    let c = chunk_cell s i (i + 7) (ltb (i + 7) (length s)) in
    let rest = write_chunks f (write_cell bytes (length bytes) c) s (i + 7) in
    if ltb i (length s) then rest else bytes

write_string_loop-some :
    (f : ℕ) (bytes s : List ℕ) (i : ℕ)
    → write_string_loop f bytes s i ≡ some (write_chunks f bytes s i)
unfolding write_string_loop write_chunks
write_string_loop-some zero bytes s i = refl
write_string_loop-some (suc f) bytes s i = elim (Bool-cases (ltb i (length s))) [
  | inr n ↦ rw n refl
  | inl y ↦
      let more = ltb (i + 7) (length s) in
      rw (y, encode_str-some s i (i + 7) more (omega arith) (omega arith))
        (write_string_loop-some f (write_cell bytes (length bytes) (chunk_cell s i (i + 7) more)) s
          (i + 7))
]

-- Writing the rest of a string leaves the bytes before it, and adds a byte for each character at least.
write_chunks-keeps :
    (f : ℕ) (bytes s : List ℕ) (i : ℕ)
    → (length bytes ≤ length (write_chunks f bytes s i))
      × ((j : ℕ) → j < length bytes → read_byte (write_chunks f bytes s i) j ≡ read_byte bytes j)
      × (length s ≤ i + f → length bytes + (length s - i) ≤ length (write_chunks f bytes s i))
unfolding write_chunks
write_chunks-keeps zero bytes s i = (omega arith, λ j l. refl, λ l. omega (arith, l))
write_chunks-keeps (suc f) bytes s i = elim (Bool-cases (ltb i (length s))) [
  | inr n ↦ rw n (omega arith, λ j l. refl, λ l. omega (arith, past i (length s) n))
  | inl y ↦
      let c : Cell = chunk_cell s i (i + 7) (ltb (i + 7) (length s)) in
      let bytes1 : List ℕ = write_cell bytes (length bytes) c in
      let long : length bytes1 ≡ length bytes + 8 = write_cell-length bytes c in
      let (_, _, _, old) =
        read_cell-write_cell bytes (length bytes) c (chunk_cell-word s i (i + 7) _) (inl refl) in
      let (grows, same, more) = write_chunks-keeps f bytes1 s (i + 7) in
      rw y (
        omega (arith, long, grows),
        λ j l. same j (omega (arith, long, l)) ∙ old j l (inl l),
        λ l. let m = more (omega (arith, l)) in omega (arith, m, long),
      )
]
  where
    past : (m n : ℕ) → ltb m n ≡ false → n ≤ m
    past m n h = ground arith

-- The part at place i is seven characters, or all that is left.
piece-whole : (s : List ℕ) (i : ℕ) → i + 7 < length s → piece s i ++ drop (i + 7) s ≡ drop i s
piece-whole s i l =
    let seven : min (i + 7) (length s) - i ≡ 7 = whole i (length s) l in
    rw (seven, drop-drop i 7 s) (take-drop 7 (drop i s))
  where
    whole : (i n : ℕ) → i + 7 < n → min (i + 7) n - i ≡ 7
    whole i n l = ground arith

piece-last : (s : List ℕ) (i : ℕ) → length s ≤ i + 7 → piece s i ≡ drop i s
piece-last s i l =
    let left : min (i + 7) (length s) - i ≡ length (drop i s) =
      rest i (length s) l ∙ sym (length-drop i s) in
    rw left (take-length (drop i s))
  where
    rest : (i n : ℕ) → n ≤ i + 7 → min (i + 7) n - i ≡ n - i
    rest i n l = ground arith

write_chunks-stop :
    (f : ℕ) (bytes s : List ℕ) (i : ℕ) → ltb i (length s) ≡ false → write_chunks f bytes s i ≡ bytes
unfolding write_chunks
write_chunks-stop zero bytes s i h = refl
write_chunks-stop (suc f) bytes s i h = rw h refl

-- The cell that is written first is read first, whatever is written behind it.
first_cell :
    (f : ℕ) (bytes s : List ℕ) (i : ℕ) (c : Cell)
    → c < 2 ^ 64
    → read_cell (write_chunks f (write_cell bytes (length bytes) c) s i) (length bytes) ≡ got c
first_cell f bytes s i c small =
    let bytes1 : List ℕ = write_cell bytes (length bytes) c in
    let (reads, fits, _, _) = read_cell-write_cell bytes (length bytes) c small (inl refl) in
    let (grows, same, _) = write_chunks-keeps f bytes1 s i in
    read_cell-agrees (write_chunks f bytes1 s i) bytes1 (length bytes) (omega (arith, fits, grows))
      fits (λ k l. same (length bytes + k) (omega (arith, fits, l)))
    ∙ reads

-- A round that reads a chunk of the string.
read_round-chunk :
    (rest : Rest) (bytes s : List ℕ) (i : ℕ) (more : Bool) (str : List ℕ) (offset : ℕ)
    → IsText s
    → read_cell bytes offset ≡ got (chunk_cell s i (i + 7) more)
    → read_round rest bytes str offset
      ≡ (if more then rest (str ++ piece s i) (offset + 8) else got (str ++ piece s i, offset + 8))
unfolding read_round
read_round-chunk rest bytes s i more str offset t e =
    ap (λ (r : Read Cell). elim r [ fails x ↦ fails x | got c ↦ read_chunk rest c str offset ]) e
    ∙ read_chunk-chunk_cell rest s i more str offset t

-- Reading what the loops of the writing leave gives the rest of the string, and ends where it ends.
read_string_loop-write_chunks :
    (f r : ℕ) (bytes s : List ℕ) (i : ℕ) (str : List ℕ)
    → IsText s
    → i < length s
    → length s ≤ i + f
    → length s ≤ i + r
    → read_string_loop r (write_chunks f bytes s i) str (length bytes)
      ≡ got (str ++ drop i s, length (write_chunks f bytes s i))
unfolding write_chunks read_string_loop
read_string_loop-write_chunks zero r bytes s i str t li lf lr = absurd (omega (arith, li, lf))
read_string_loop-write_chunks (suc f) zero bytes s i str t li lf lr = absurd (omega (arith, li, lr))
read_string_loop-write_chunks (suc f) (suc r) bytes s i str t li lf lr =
    elim (Bool-cases (ltb (i + 7) (length s))) [
      | inl y ↦
          let c : Cell = chunk_cell s i (i + 7) true in
          let bytes1 : List ℕ = write_cell bytes (length bytes) c in
          let out : List ℕ = write_chunks f bytes1 s (i + 7) in
          let long : length bytes1 ≡ length bytes + 8 = write_cell-length bytes c in
          let next =
            read_string_loop-write_chunks f r bytes1 s (i + 7) (str ++ piece s i) t
              (test (i + 7) (length s) y) (omega (arith, lf)) (omega (arith, lr)) in
          let joined : (str ++ piece s i) ++ drop (i + 7) s ≡ str ++ drop i s =
            append_assoc str (piece s i) (drop (i + 7) s)
            ∙ ap (λ (zs : List ℕ). str ++ zs) (piece-whole s i (test (i + 7) (length s) y)) in
          let rest : Rest = λ str1 offset1. read_string_loop r out str1 offset1 in
          rw (goes i (length s) li, y)
            (read_round-chunk rest out s i true str (length bytes) t
                (first_cell f bytes s (i + 7) c (chunk_cell-word s i (i + 7) true))
              ∙ ap (λ (m : ℕ). rest (str ++ piece s i) m) (sym long)
              ∙ next
              ∙ ap (λ (zs : List ℕ). got (zs, length out)) joined)
      | inr n ↦
          let c : Cell = chunk_cell s i (i + 7) false in
          let bytes1 : List ℕ = write_cell bytes (length bytes) c in
          let out : List ℕ = write_chunks f bytes1 s (i + 7) in
          let rest : Rest = λ str1 offset1. read_string_loop r out str1 offset1 in
          let end : length out ≡ length bytes + 8 =
            ap length (write_chunks-stop f bytes1 s (i + 7) n) ∙ write_cell-length bytes c in
          rw (goes i (length s) li, n)
            (read_round-chunk rest out s i false str (length bytes) t
                (first_cell f bytes s (i + 7) c (chunk_cell-word s i (i + 7) false))
              ∙ rw (end, piece-last s i (past (i + 7) (length s) n)) refl)
    ]
  where
    test : (m n : ℕ) → ltb m n ≡ true → m < n
    test m n h = ground arith

    goes : (m n : ℕ) → m < n → ltb m n ≡ true
    goes m n h = ground arith

    past : (m n : ℕ) → ltb m n ≡ false → n ≤ m
    past m n h = ground arith

-- A nonempty string of bytes from 1 to 127 is written at the end of a buffer without a failed assertion, and read
-- back from there, and the reading ends at the end of the buffer.
pub read_encoded_string-write_encoded_string :
    (bytes s : List ℕ)
    → IsText s
    → 0 < length s
    → (out : List ℕ) × (write_encoded_string bytes s ≡ some out)
      × (read_encoded_string out (length bytes) ≡ got (s, length out))
unfolding read_encoded_string write_encoded_string
read_encoded_string-write_encoded_string bytes s t some_left =
    let (_, _, more) = write_chunks-keeps (length s) bytes s 0 in
    (
      write_chunks (length s) bytes s 0,
      write_string_loop-some (length s) bytes s 0,
      read_string_loop-write_chunks (length s) (length (write_chunks (length s) bytes s 0)) bytes s
          0 [] t some_left (omega arith) (omega (arith, more (omega arith))),
    )
