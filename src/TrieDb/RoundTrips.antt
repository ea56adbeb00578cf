-- ===== src/TrieDb/RoundTrips.antt =====
-- What is written to the files of db/triedb.cpp is read back.
use Prim.Native.Nat.{bit_or}
use native.Mathlib.Nat.{pow-suc}
use mathlib.Core.Path.{fun_ext}
use mathlib.Core.List.{append_assoc, append-nil}
use epilog.Prelude.{
  ℕ, zero, suc, ◌+◌, ◌-◌, ◌*◌, ◌/◌, ◌%◌, ◌^◌, ◌≤◌, ◌<◌, ◌≡◌, refl, sym, ap, ◌∙◌, true, false, ltb,
  leb, ◌&&◌, [], ◌∷◌, take, ◌==◌, List, ◌++◌, length, take-append, drop-append, length-append, some,
  arith,
}
use epilog.Prelude.Bits.{bit_or_disjoint}
use epilog.TrieDb.Words.{popcount}
use epilog.TrieDb.Nodes.{Leaf, Branch, num_children}
use epilog.TrieDb.Files.{write_bytes, leaf_size, branch_size, max_leaf_size}
use epilog.TrieDb.Roots.{Root, root_size}
use epilog.TrieDb.Records.{
  read_uint, read_block, write_root, read_root, leaf_bytes, write_leaf, read_leaf, filled,
  read_leaf_node, write_pointers, cons_pointer, read_pointers, write_branch, read_branch,
}

read_uint-write_bytes :
    (n v : ℕ) (rest : List ℕ) → v < 256 ^ n → read_uint n (write_bytes n v ++ rest) ≡ some (v, rest)
unfolding read_uint write_bytes
read_uint-write_bytes zero v rest h = let e : v ≡ 0 = omega arith in rw e refl
read_uint-write_bytes (suc n) v rest h =
    let e : bit_or (v / 256 * 256) (v % 256 % 256) ≡ v =
      bit_or_disjoint 8 (v / 256) (v / 256 * 256) (v % 256 % 256) refl (omega arith)
      ∙ omega arith in
    rw (read_uint-write_bytes n (v / 256) rest (omega (arith, pow-suc 256 n))) (rw e refl)

-- The next number of a record.
next_uint :
    (n v : ℕ) (more rest : List ℕ)
    → v < 256 ^ n
    → read_uint n ((write_bytes n v ++ more) ++ rest) ≡ some (v, more ++ rest)
next_uint n v more rest h =
    ap (read_uint n) (append_assoc (write_bytes n v) more rest)
    ∙ read_uint-write_bytes n v (more ++ rest) h

-- The next block of a record, and the last one.
next_block :
    (block more rest : List ℕ)
    → read_block (length block) ((block ++ more) ++ rest) ≡ some (block, more ++ rest)
unfolding read_block
next_block block more rest =
    let long : ltb (length (block ++ (more ++ rest))) (length block) ≡ false =
      ground (arith, length-append block (more ++ rest)) in
    rw (append_assoc block more rest)
      (rw (long, take-append block (more ++ rest), drop-append block (more ++ rest)) refl)

last_block : (block rest : List ℕ) → read_block (length block) (block ++ rest) ≡ some (block, rest)
unfolding read_block
last_block block rest =
    let long : ltb (length (block ++ rest)) (length block) ≡ false =
      ground (arith, length-append block rest) in
    rw (long, take-append block rest, drop-append block rest) refl

-- A root whose fields have the widths of the file is read back, its name aside.
pub read_root-write_root :
    (r : Root) (rest : List ℕ)
    → r.height < 2 ^ 32
    → r.num_entries < 2 ^ 64
    → r.previous_id < 2 ^ 64
    → r.ptr < 2 ^ 64
    → read_root r.id (write_root r ++ rest) ≡ some (r, rest)
unfolding read_root write_root
read_root-write_root r rest h n i p =
    let ptr = write_bytes 8 r.ptr in
    let previous = write_bytes 8 r.previous_id ++ ptr in
    let entries = write_bytes 8 r.num_entries ++ previous in
    rw (next_uint 4 root_size (write_bytes 4 r.height ++ entries) rest (omega arith)) (
      rw (next_uint 4 r.height entries rest h) (
        rw (next_uint 8 r.num_entries previous rest n) (
          rw (next_uint 8 r.previous_id ptr rest i)
            (rw (read_uint-write_bytes 8 r.ptr rest p) refl))))

leaf_size_parts : (l : Leaf) → leaf_size l ≡ 13 + length l.hash + length l.custom_data
unfolding leaf_size
leaf_size_parts l = omega arith

read_leaf-leaf_bytes :
    (l : Leaf) (rest : List ℕ)
    → length l.hash < 256
    → l.key < 2 ^ 64
    → leaf_size l < max_leaf_size
    → read_leaf (leaf_bytes l ++ rest) ≡ some (l, rest)
unfolding read_leaf leaf_bytes
read_leaf-leaf_bytes l rest short key small =
    let blocks = l.hash ++ l.custom_data in
    let keyed = write_bytes 8 l.key ++ blocks in
    rw (next_uint 4 (leaf_size l) (write_bytes 1 (length l.hash) ++ keyed) rest (omega arith)) (
      rw (next_uint 1 (length l.hash) keyed rest (short)) (
        rw (next_uint 8 l.key blocks rest key) (
          rw (below (13 + length l.hash) (omega arith)) (
            rw (next_block l.hash l.custom_data rest)
              (rw (left_over) (rw (in_bounds) (rw (last_block l.custom_data rest) refl)))))))
  where
    below : (n : ℕ) → n < max_leaf_size → ltb n max_leaf_size ≡ true
    below n h = ground (arith, h)

    left_over : (leaf_size l + 2 ^ 64 - (13 + length l.hash)) % 2 ^ 64 ≡ length l.custom_data
    left_over = omega (arith, leaf_size_parts l)

    in_bounds : ltb ((13 + length l.hash + length l.custom_data) % 2 ^ 64) max_leaf_size ≡ true
    in_bounds = below _ (omega (arith, leaf_size_parts l))

length-write_bytes : (n v : ℕ) → length (write_bytes n v) ≡ n
unfolding write_bytes
length-write_bytes zero v = refl
length-write_bytes (suc n) v = omega (arith, length-write_bytes n (v / 256))

length-leaf_bytes : (l : Leaf) → length (leaf_bytes l) ≡ leaf_size l
unfolding leaf_bytes leaf_size
length-leaf_bytes l =
    let blocks = l.hash ++ l.custom_data in
    let keyed = write_bytes 8 l.key ++ blocks in
    let hashed = write_bytes 1 (length l.hash) ++ keyed in
    omega (
      arith,
      length-append (write_bytes 4 (leaf_size l)) hashed,
      length-append (write_bytes 1 (length l.hash)) keyed,
      length-append (write_bytes 8 l.key) blocks,
      length-append l.hash l.custom_data,
      length-write_bytes 4 (leaf_size l),
      length-write_bytes 1 (length l.hash),
      length-write_bytes 8 l.key,
    )

filled-append : (a b : List ℕ) (n : ℕ) → filled (length a + n) (a ++ b) ≡ a ++ filled n b
unfolding filled
filled-append [] b n = ap (λ m. filled m b) (omega arith)
filled-append (x ∷ a) b n =
    let m : suc (length a) + n ≡ suc (length a + n) = omega arith in
    ap (λ k. filled k (x ∷ (a ++ b))) m ∙ ap (λ t. x ∷ t) (filled-append a b n)

-- The two reads of read_leaf_node, of the size and of the whole record with four bytes more.
filled_size :
    (l : Leaf) (rest : List ℕ)
    → leaf_size l < max_leaf_size
    → read_uint 4 (filled 4 (leaf_bytes l ++ rest)) ≡ some (leaf_size l, [])
unfolding leaf_bytes filled
filled_size l rest small =
    let size = write_bytes 4 (leaf_size l) in
    let more =
      write_bytes 1 (length l.hash) ++ (write_bytes 8 l.key ++ (l.hash ++ l.custom_data)) in
    let four : length size + 0 ≡ 4 = omega (arith, length-write_bytes 4 (leaf_size l)) in
    let e : filled 4 ((size ++ more) ++ rest) ≡ size ++ [] =
      ap (filled 4) (append_assoc size more rest)
      ∙ ap (λ n. filled n (size ++ (more ++ rest))) (sym four)
      ∙ filled-append size (more ++ rest) 0 in
    ap (read_uint 4) e ∙ read_uint-write_bytes 4 (leaf_size l) [] (omega arith)

filled_bytes :
    (l : Leaf) (rest : List ℕ)
    → filled (4 + leaf_size l) (take (leaf_size l) (leaf_bytes l ++ rest))
      ≡ leaf_bytes l ++ filled 4 []
filled_bytes l rest =
    let all : take (leaf_size l) (leaf_bytes l ++ rest) ≡ leaf_bytes l ++ [] =
      ap (λ n. take n (leaf_bytes l ++ rest)) (sym (length-leaf_bytes l))
      ∙ take-append (leaf_bytes l) rest
      ∙ sym (append-nil (leaf_bytes l)) in
    let n : 4 + leaf_size l ≡ length (leaf_bytes l) + 4 = omega (arith, length-leaf_bytes l) in
    ap (filled (4 + leaf_size l)) all
    ∙ ap (λ m. filled m (leaf_bytes l ++ [])) n
    ∙ filled-append (leaf_bytes l) [] 4

-- A leaf below 2 MB, whose hash is shorter than 256 bytes and whose key has 64 bits, is written, and from its bytes
-- triedb_leaf::read gives the leaf back, with what stands behind it left, and so does read_leaf_node from a file.
pub read_leaf-write_leaf :
    (l : Leaf) (rest : List ℕ)
    → length l.hash < 256
    → l.key < 2 ^ 64
    → leaf_size l < max_leaf_size
    → (bytes : List ℕ) × (write_leaf l ≡ some bytes)
      × (read_leaf (bytes ++ rest) ≡ some (l, rest))
      × (read_leaf_node (bytes ++ rest) ≡ some l)
unfolding write_leaf read_leaf_node
read_leaf-write_leaf l rest short key small =
    (leaf_bytes l, ground (arith, small), read_leaf-leaf_bytes l rest short key small, from_file)
  where
    fits : (leb 4 (leaf_size l) && ltb (leaf_size l) max_leaf_size) ≡ true
    fits = ground (arith, small, leaf_size_parts l)

    from_file : read_leaf_node (leaf_bytes l ++ rest) ≡ some l
    from_file = rw (filled_size l rest small) (
        rw fits (
          rw (filled_bytes l rest)
            (rw (read_leaf-leaf_bytes l (filled 4 []) short key small) refl)))

read_pointers-write_pointers :
    (n : ℕ) (ptr : ℕ → ℕ) (rest : List ℕ)
    → ((i : ℕ) → ptr i < 2 ^ 64)
    → ((i : ℕ) → n ≤ i → ptr i ≡ 0)
    → read_pointers n (write_pointers n ptr ++ rest) ≡ some (ptr, rest)
unfolding read_pointers write_pointers
read_pointers-write_pointers zero ptr rest small zeros =
    ap (λ (f : ℕ → ℕ). some (f, rest)) (fun_ext (λ i. sym (zeros i (omega arith))))
read_pointers-write_pointers (suc n) ptr rest small zeros =
    rw (next_uint 8 (ptr 0) (write_pointers n (λ i. ptr (suc i))) rest (small 0)) (
      rw
        (read_pointers-write_pointers n (λ i. ptr (suc i)) rest (λ i. small (suc i))
          (λ i above. zeros (suc i) (omega arith)))
        (ap (λ (f : ℕ → ℕ). some (f, rest)) (fun_ext same)))
  where
    same : (i : ℕ) → cons_pointer (ptr 0) (λ j. ptr (suc j)) i ≡ ptr i
    same zero = refl
    same (suc i) = refl

-- The fields of a branch have the widths of the file, and its array holds nothing but the pointers of its children.
pub record IsBranch (b : Branch) : Type 0 where
  pub short_hash : length b.hash < 256
  pub depth : b.depth < 256
  pub mask : b.mask < 2 ^ 32
  pub leaf : b.leaf < 2 ^ 32
  pub num : b.num < 2 ^ 64
  pub pointers : (i : ℕ) → b.ptr i < 2 ^ 64
  pub no_more : (i : ℕ) → num_children b ≤ i → b.ptr i ≡ 0
  pub size : branch_size b < 2 ^ 32

-- A branch whose fields have the widths of the file, and whose array holds nothing but the pointers of its children, is
-- read back.
pub read_branch-write_branch :
    (b : Branch) (rest : List ℕ)
    → IsBranch b
    → read_branch (write_branch b ++ rest) ≡ some (b, rest)
unfolding read_branch write_branch num_children
read_branch-write_branch b rest h =
    let pointers = write_pointers (popcount b.mask) b.ptr ++ b.hash in
    let counted = write_bytes 8 b.num ++ pointers in
    let leaves = write_bytes 4 b.leaf ++ counted in
    let masked = write_bytes 4 b.mask ++ leaves in
    let hashed = write_bytes 1 (length b.hash) ++ masked in
    rw (next_uint 4 (branch_size b) (write_bytes 1 b.depth ++ hashed) rest h.size) (
      rw (next_uint 1 b.depth hashed rest h.depth) (
        rw (next_uint 1 (length b.hash) masked rest h.short_hash) (
          rw (next_uint 4 b.mask leaves rest h.mask) (
            rw (next_uint 4 b.leaf counted rest h.leaf) (
              rw (next_uint 8 b.num pointers rest h.num) (
                rw
                  (
                    append_assoc (write_pointers (popcount b.mask) b.ptr) b.hash rest,
                    read_pointers-write_pointers (popcount b.mask) b.ptr (b.hash ++ rest) h.pointers
                        h.no_more,
                  )
                  (rw (fits) (rw (last_block b.hash rest) refl))))))))
  where
    same_size : (a c : ℕ) → (a == 4 + 1 + 1 + 4 + 4 + 8 + c + a - (22 + c)) ≡ true
    same_size a c = ground arith

    fits : (length b.hash == branch_size b - (22 + 8 * popcount b.mask)) ≡ true
    fits = unfold branch_size num_children in same_size (length b.hash) (8 * popcount b.mask)
