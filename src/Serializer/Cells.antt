-- ===== src/Serializer/Cells.antt =====
-- Writing and reading one cell.
use Prim.Native.Nat.{bit_or}
use epilog.Prelude.{
  ℕ, zero, suc, ◌+◌, ◌*◌, ◌/◌, ◌%◌, ◌^◌, ◌≤◌, ◌<◌, ◌≡◌, ◌≢◌, ◌⊎◌, inl, inr, refl, sym, ap, ◌∙◌,
  true, false, Bool-cases, ltb, ◌==◌, ==_iff, if◌then◌else◌, List, [], ◌∷◌, ◌++◌, length,
  length-append, set, arith,
}
use epilog.Prelude.Bits.{bit_or_disjoint}
use epilog.Term.Cell.{Cell}
use epilog.Serializer.{
  got, read_byte, read_cell_loop, read_cell, write_cell_loop, write_cell, fresh_bytes,
}

length-set : (bytes : List ℕ) (i b : ℕ) → length (set bytes i b) ≡ length bytes
length-set [] i b = refl
length-set (x ∷ bytes) zero b = refl
length-set (x ∷ bytes) (suc i) b = ap suc (length-set bytes i b)

read_byte-set : (bytes : List ℕ) (i b : ℕ) → i < length bytes → read_byte (set bytes i b) i ≡ b
unfolding read_byte
read_byte-set [] i b l = absurd (omega (arith, l))
read_byte-set (x ∷ bytes) zero b l = refl
read_byte-set (x ∷ bytes) (suc i) b l = read_byte-set bytes i b (omega (arith, l))

read_byte-set_other :
    (bytes : List ℕ) (i j b : ℕ) → j ≢ i → read_byte (set bytes i b) j ≡ read_byte bytes j
unfolding read_byte
read_byte-set_other [] i j b n = refl
read_byte-set_other (x ∷ bytes) zero zero b n = absurd (n refl)
read_byte-set_other (x ∷ bytes) zero (suc j) b n = refl
read_byte-set_other (x ∷ bytes) (suc i) zero b n = refl
read_byte-set_other (x ∷ bytes) (suc i) (suc j) b n =
    read_byte-set_other bytes i j b (λ p. n (ap suc p))

read_byte-append :
    (xs ys : List ℕ) (j : ℕ) → j < length xs → read_byte (xs ++ ys) j ≡ read_byte xs j
unfolding read_byte
read_byte-append [] ys j l = absurd (omega (arith, l))
read_byte-append (x ∷ xs) ys zero l = refl
read_byte-append (x ∷ xs) ys (suc j) l = read_byte-append xs ys j (omega (arith, l))

write_cell_loop-length :
    (n : ℕ) (bytes : List ℕ) (at v : ℕ) → length (write_cell_loop n bytes at v) ≡ length bytes
unfolding write_cell_loop
write_cell_loop-length zero bytes at v = refl
write_cell_loop-length (suc n) bytes at v =
    write_cell_loop-length n (set bytes at (v % 256)) (at + 1) (v / 256)
    ∙ length-set bytes at (v % 256)

write_cell_loop-outside :
    (n : ℕ) (bytes : List ℕ) (at v j : ℕ)
    → (j < at) ⊎ (at + n ≤ j)
    → read_byte (write_cell_loop n bytes at v) j ≡ read_byte bytes j
unfolding write_cell_loop
write_cell_loop-outside zero bytes at v j o = refl
write_cell_loop-outside (suc n) bytes at v j o =
    write_cell_loop-outside n (set bytes at (v % 256)) (at + 1) (v / 256) j (narrower o)
    ∙ read_byte-set_other bytes at j (v % 256) (apart o)
  where
    narrower : (j < at) ⊎ (at + suc n ≤ j) → (j < at + 1) ⊎ (at + 1 + n ≤ j)
    narrower (inl l) = inl (omega (arith, l))
    narrower (inr l) = inr (omega (arith, l))

    apart : (j < at) ⊎ (at + suc n ≤ j) → j ≢ at
    apart (inl l) p = absurd (omega (arith, l, p))
    apart (inr l) p = absurd (omega (arith, l, p))

-- The word without its k lowest bytes.
abbrev shifted : ℕ → ℕ → ℕ
shifted zero v = v
shifted (suc k) v = shifted k (v / 256)

write_cell_loop-inside :
    (n : ℕ) (bytes : List ℕ) (at v k : ℕ)
    → k < n
    → at + n ≤ length bytes
    → read_byte (write_cell_loop n bytes at v) (at + k) ≡ shifted k v % 256
unfolding write_cell_loop
write_cell_loop-inside zero bytes at v k l fits = absurd (omega (arith, l))
write_cell_loop-inside (suc n) bytes at v zero l fits =
    let here : at + 0 ≡ at = omega arith in
    rw here (
      write_cell_loop-outside n (set bytes at (v % 256)) (at + 1) (v / 256) at (inl (omega arith))
      ∙ read_byte-set bytes at (v % 256) (omega (arith, fits)))
write_cell_loop-inside (suc n) bytes at v (suc k) l fits =
    let here : at + suc k ≡ at + 1 + k = omega arith in
    rw here (
      write_cell_loop-inside n (set bytes at (v % 256)) (at + 1) (v / 256) k (omega (arith, l))
        (omega (arith, fits, length-set bytes at (v % 256))))

-- One round of the reading.
byte_joins : (raw b : ℕ) → raw < 2 ^ 56 → b < 256 → bit_or (raw * 256 % 2 ^ 64) b ≡ raw * 256 + b
byte_joins raw b l small =
    let e : raw * 256 % 2 ^ 64 ≡ raw * 256 = omega (arith, l) in
    rw e (bit_or_disjoint 8 raw (raw * 256) b refl small)

shifted-suc : (k v : ℕ) → shifted (suc k) v ≡ shifted k v / 256
shifted-suc zero v = refl
shifted-suc (suc k) v = shifted-suc k (v / 256)

shifted_le : (k v : ℕ) → shifted k v ≤ v
shifted_le zero v = omega arith
shifted_le (suc k) v = omega (arith, shifted_le k (v / 256))

-- The bytes of a word, read from the last to the first, are the word.
word_of_bytes :
    (n c : ℕ) (bytes : List ℕ) (from : ℕ)
    → c < 2 ^ 64
    → ((k : ℕ) → k < n → read_byte bytes (from + k) ≡ shifted k c % 256)
    → read_cell_loop n bytes from (shifted n c) ≡ c
unfolding read_cell_loop
word_of_bytes zero c bytes from small at = refl
word_of_bytes (suc n) c bytes from small at =
    let top : ℕ = shifted (suc n) c in
    let whole : ℕ = shifted n c in
    let e : top ≡ whole / 256 = shifted-suc n c in
    let le = shifted_le n c in
    let joined : bit_or (top * 256 % 2 ^ 64) (whole % 256) ≡ whole =
      byte_joins top (whole % 256) (omega (arith, e, le, small)) (omega arith) ∙ omega (arith, e) in
    rw (at n (omega arith), joined)
      (word_of_bytes n c bytes from small (λ k l. at k (omega (arith, l))))

read_cell-enough :
    (bytes : List ℕ) (from : ℕ)
    → from + 8 ≤ length bytes
    → read_cell bytes from ≡ got (read_cell_loop 8 bytes from 0)
unfolding read_cell
read_cell-enough bytes from l = rw (enough (length bytes) (from + 8) l) refl
  where
    enough : (m n : ℕ) → n ≤ m → ltb m n ≡ false
    enough m n l = ground arith

-- What the buffer is before the bytes are written.
abbrev room : List ℕ → ℕ → List ℕ
room bytes offset = if offset == length bytes then bytes ++ fresh_bytes else bytes

room-fits :
    (bytes : List ℕ) (offset : ℕ)
    → (offset ≡ length bytes) ⊎ (offset + 8 ≤ length bytes)
    → (offset + 8 ≤ length (room bytes offset))
      × (length bytes ≤ length (room bytes offset))
      × ((j : ℕ) → j < length bytes → read_byte (room bytes offset) j ≡ read_byte bytes j)
room-fits bytes offset o = elim (Bool-cases (offset == length bytes)) [
  | inl y ↦
      let e : offset ≡ length bytes = (==_iff offset (length bytes)).0 y in
      let grown = length-append bytes fresh_bytes in
      rw y (
        omega (arith, grown, e),
        omega (arith, grown),
        λ j l. read_byte-append bytes fresh_bytes j l,
      )
  | inr n ↦ rw n (inside offset (length bytes) o n, omega arith, λ j l. refl)
]
  where
    inside : (m n : ℕ) → (m ≡ n) ⊎ (m + 8 ≤ n) → (m == n) ≡ false → m + 8 ≤ n
    inside m n (inl e) apart = cc (apart, (==_iff m n).1 e)
    inside m n (inr l) apart = l

-- A 64-bit word that is written at the end of a buffer, or over eight bytes of it, is read back from
-- there; the buffer has room for it, is not shorter than before, and each of its other bytes is as before.
pub read_cell-write_cell :
    (bytes : List ℕ) (offset : ℕ) (c : Cell)
    → c < 2 ^ 64
    → (offset ≡ length bytes) ⊎ (offset + 8 ≤ length bytes)
    → (read_cell (write_cell bytes offset c) offset ≡ got c)
      × (offset + 8 ≤ length (write_cell bytes offset c))
      × (length bytes ≤ length (write_cell bytes offset c))
      × ((j : ℕ)
          → j < length bytes
          → (j < offset) ⊎ (offset + 8 ≤ j)
          → read_byte (write_cell bytes offset c) j ≡ read_byte bytes j)
unfolding write_cell
read_cell-write_cell bytes offset c small o =
    let (fits, grown, old) = room-fits bytes offset o in
    let out : List ℕ = write_cell_loop 8 (room bytes offset) offset c in
    let long : length out ≡ length (room bytes offset) =
      write_cell_loop-length 8 (room bytes offset) offset c in
    let top : shifted 8 c ≡ 0 = omega (arith, small) in
    let word =
      word_of_bytes 8 c out offset small
        (λ k l. write_cell_loop-inside 8 (room bytes offset) offset c k l fits) in
    (
      read_cell-enough out offset (omega (arith, long, fits)) ∙ ap got (rw top at word),
      omega (arith, long, fits),
      omega (arith, long, grown),
      λ j l other. write_cell_loop-outside 8 (room bytes offset) offset c j other ∙ old j l,
    )

read_cell_loop-agrees :
    (n : ℕ) (xs ys : List ℕ) (from raw : ℕ)
    → ((k : ℕ) → k < n → read_byte xs (from + k) ≡ read_byte ys (from + k))
    → read_cell_loop n xs from raw ≡ read_cell_loop n ys from raw
unfolding read_cell_loop
read_cell_loop-agrees zero xs ys from raw same = refl
read_cell_loop-agrees (suc n) xs ys from raw same =
    rw (same n (omega arith))
      (read_cell_loop-agrees n xs ys from _ (λ k l. same k (omega (arith, l))))

-- What is read depends on the eight bytes alone.
pub read_cell-agrees :
    (xs ys : List ℕ) (from : ℕ)
    → from + 8 ≤ length xs
    → from + 8 ≤ length ys
    → ((k : ℕ) → k < 8 → read_byte xs (from + k) ≡ read_byte ys (from + k))
    → read_cell xs from ≡ read_cell ys from
read_cell-agrees xs ys from lx ly same =
    read_cell-enough xs from lx
    ∙ ap got (read_cell_loop-agrees 8 xs ys from 0 same)
    ∙ sym (read_cell-enough ys from ly)

pub write_cell-length :
    (bytes : List ℕ) (c : Cell) → length (write_cell bytes (length bytes) c) ≡ length bytes + 8
unfolding write_cell
write_cell-length bytes c =
    let same : (length bytes == length bytes) ≡ true =
      (==_iff (length bytes) (length bytes)).1 refl in
    write_cell_loop-length 8 (room bytes (length bytes)) (length bytes) c
    ∙ rw same (length-append bytes fresh_bytes)
