-- ===== src/Term/Bytes.antt =====
-- Bytes packed from the top of a 61-bit value: the byte at place i is shifted by 53 - 8 i. The names
-- of constants (con_cell) and the character chunks (int_cell) of common/term.cpp are laid out so.
use Prim.Native.Nat.{bit_or}
use native.Mathlib.Numerals.{towards_suc}
use native.Mathlib.Nat.{suc-mul, mul-le-mul_right, mul-add-div_right, div-eq_of_lt}
use epilog.Prelude.{
  ℕ, suc, ◌+◌, ◌-◌, ◌*◌, ◌/◌, ◌%◌, ◌^◌, ◌≤◌, ◌<◌, ◌≡◌, refl, ap, List, [], ◌∷◌, length, arith,
}
use epilog.Prelude.Bits.{bit_or_disjoint, pow_pos}

-- `for (...) v |= ch << (53 - i*8)`
unfoldable pub or_bytes : ℕ → ℕ → List ℕ → ℕ
or_bytes v i [] = v
or_bytes v i (ch ∷ chs) = or_bytes (bit_or v (ch * 2 ^ (53 - i * 8))) (i + 1) chs

-- `(v >> (53 - i*8)) & 0xff`
unfoldable pub byte_at : ℕ → ℕ → ℕ
byte_at v i = (v / 2 ^ (53 - i * 8)) % 256

-- The sum that the loop computes.
abbrev pub packed : ℕ → List ℕ → ℕ
packed i [] = 0
packed i (ch ∷ chs) = ch * 2 ^ (53 - i * 8) + packed (i + 1) chs

abbrev pub AllBytes : List ℕ → Type 0
AllBytes [] = Unit
AllBytes (ch ∷ chs) = (ch < 256) × AllBytes chs

-- The weight of place i, over the weight of the next.
unfoldable pub weight : ℕ → ℕ
weight i = 2 ^ (61 - i * 8)

weight_step : (i : ℕ) → i ≤ 6 → weight i ≡ 256 * 2 ^ (53 - i * 8)
unfolding weight
weight_step i h =
    let e : 61 - i * 8 ≡ 53 - i * 8 + 8 = omega arith in rw e (simp towards_suc (omega arith))

weight_next : (i : ℕ) → 2 ^ (53 - i * 8) ≡ weight (i + 1)
unfolding weight
weight_next i = ap (λ (t : ℕ). 2 ^ t) (omega arith)

thirty_two-le-weight : (i : ℕ) → i ≤ 7 → 32 ≤ weight i
unfolding weight
thirty_two-le-weight i h =
    let e : 61 - i * 8 ≡ 56 - i * 8 + 5 = omega arith in
    let some : 0 < 2 ^ (56 - i * 8) = pow_pos (56 - i * 8) in rw e (simp towards_suc (omega arith))

next_place_le : (p ch : ℕ) → ch < 256 → ch * p + p ≤ 256 * p
next_place_le p ch h =
    let m : suc ch * p ≤ 256 * p = mul-le-mul_right p h in omega (arith, suc-mul ch p)

next_place : (p ch r : ℕ) → ch < 256 → r + 32 ≤ p → ch * p + r + 32 ≤ 256 * p
next_place p ch r h k = omega (arith, next_place_le p ch h)

mul_lt : (p ch : ℕ) → ch < 256 → 0 < p → ch * p < 256 * p
mul_lt p ch h z = omega (arith, next_place_le p ch h)

-- The bytes from place i on leave 32 below the weight of the place.
pub packed-le :
    (i : ℕ) (chs : List ℕ) → AllBytes chs → i + length chs ≤ 7 → packed i chs + 32 ≤ weight i
packed-le i [] b h = omega (arith, thirty_two-le-weight i (omega arith))
packed-le i (ch ∷ chs) b h =
    let rest = packed-le (i + 1) chs b.1 (omega arith) in
    let here : packed (i + 1) chs + 32 ≤ 2 ^ (53 - i * 8) = rw weight_next rest in
    rw (weight_step i (omega arith))
      (next_place (2 ^ (53 - i * 8)) ch (packed (i + 1) chs) b.0 here)

-- A value over the weight of place i, with one more byte, is a value over the next weight.
shift_place :
    (i a ch r : ℕ)
    → i ≤ 6
    → a * weight i + (ch * 2 ^ (53 - i * 8) + r) ≡ (a * 256 + ch) * weight (i + 1) + r
shift_place i a ch r h = rw (weight_step i h, ← weight_next i) (omega arith)

-- The loop adds each byte at its place.
pub or_bytes-packed :
    (a v i : ℕ) (chs : List ℕ)
    → v ≡ a * weight i
    → AllBytes chs
    → i + length chs ≤ 7
    → or_bytes v i chs ≡ v + packed i chs
unfolding or_bytes
or_bytes-packed a v i [] e b h = omega arith
or_bytes-packed a v i (ch ∷ chs) e b h =
    let p : ℕ = 2 ^ (53 - i * 8) in
    let w : weight i ≡ 256 * p = weight_step i (omega arith) in
    let small : ch * p < weight i = rw w (mul_lt p ch b.0 (pow_pos (53 - i * 8))) in
    let joined : bit_or v (ch * p) ≡ v + ch * p =
      unfold weight in bit_or_disjoint (61 - i * 8) a v (ch * p) e small in
    let next : v + ch * p ≡ (a * 256 + ch) * weight (i + 1) =
      omega (arith, e, shift_place i a ch 0 (omega arith)) in
    rw joined (
      omega (arith, or_bytes-packed (a * 256 + ch) (v + ch * p) (i + 1) chs next b.1 (omega arith)))

mod_place : (a ch : ℕ) → ch < 256 → (a * 256 + ch) % 256 ≡ ch
mod_place a ch h = omega arith

-- Dividing by the weight of a place leaves what stands above it.
div_place : (p a ch r : ℕ) → 0 < p → r < p → (a * 256 * p + (ch * p + r)) / p ≡ a * 256 + ch
div_place p a ch r z h =
    let e : a * 256 * p + (ch * p + r) ≡ (a * 256 + ch) * p + r = omega arith in
    rw (e, mul-add-div_right z, div-eq_of_lt h) (omega arith)

-- The byte at place i of a value that goes on with `ch` there.
pub byte_at-head :
    (a v i ch : ℕ) (chs : List ℕ) (low : ℕ)
    → v ≡ a * weight i + (packed i (ch ∷ chs) + low)
    → AllBytes (ch ∷ chs)
    → i + length (ch ∷ chs) ≤ 7
    → low < 32
    → byte_at v i ≡ ch
unfolding byte_at
byte_at-head a v i ch chs low e b h l =
    let p : ℕ = 2 ^ (53 - i * 8) in
    let rest = packed-le (i + 1) chs b.1 (omega arith) in
    let here : packed (i + 1) chs + 32 ≤ p = rw weight_next rest in
    let e' : v ≡ a * 256 * p + (ch * p + (packed (i + 1) chs + low)) =
      omega (arith, e, ap (λ (t : ℕ). a * t) (weight_step i (omega arith))) in
    rw (e', div_place p a ch (packed (i + 1) chs + low) (pow_pos (53 - i * 8)) (omega arith))
      (mod_place a ch b.0)

-- The byte behind the last one.
pub byte_at-end : (a v i low : ℕ) → v ≡ a * weight i + low → i ≤ 6 → low < 32 → byte_at v i ≡ 0
unfolding byte_at
byte_at-end a v i low e h l =
    let p : ℕ = 2 ^ (53 - i * 8) in
    let big : 32 ≤ p = rw weight_next (thirty_two-le-weight (i + 1) (omega arith)) in
    let e' : v ≡ a * 256 * p + (0 * p + low) =
      omega (arith, e, ap (λ (t : ℕ). a * t) (weight_step i h)) in
    rw (e', div_place p a 0 low (pow_pos (53 - i * 8)) (omega arith)) (mod_place a 0 (omega arith))

-- A value over the weight of place i that goes on with `ch` is a value over the next weight.
pub next_value :
    (a v i ch : ℕ) (chs : List ℕ) (low : ℕ)
    → v ≡ a * weight i + (packed i (ch ∷ chs) + low)
    → i ≤ 6
    → v ≡ (a * 256 + ch) * weight (i + 1) + (packed (i + 1) chs + low)
next_value a v i ch chs low e h = omega (arith, e, shift_place i a ch (packed (i + 1) chs + low) h)

-- The bytes leave the low five bits clear.
pub packed-mod : (i : ℕ) (chs : List ℕ) → i + length chs ≤ 7 → packed i chs % 32 ≡ 0
packed-mod i [] h = refl
packed-mod i (ch ∷ chs) h =
    let e : 2 ^ (53 - i * 8) ≡ 32 * 2 ^ (48 - i * 8) =
      let s : 53 - i * 8 ≡ 48 - i * 8 + 5 = omega arith in rw s (simp towards_suc (omega arith)) in
    let m : ch * (32 * 2 ^ (48 - i * 8)) ≡ ch * 2 ^ (48 - i * 8) * 32 = omega arith in
    rw (e, m) (omega (arith, packed-mod (i + 1) chs (omega arith)))
