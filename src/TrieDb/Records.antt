-- ===== src/TrieDb/Records.antt =====
-- The bytes of leaves, branches and roots in the files of db/triedb.cpp. The exceptions of checked_cast
-- are left out, and the assertions on the size of a branch, which hold where its hash has 32 bytes.
use Prim.Native.Nat.{bit_or}
use epilog.Prelude.{
  ℕ, zero, suc, ◌+◌, ◌-◌, ◌*◌, ◌%◌, ◌^◌, ltb, leb, ◌&&◌, ◌==◌, if◌then◌else◌, List, [], ◌∷◌, ◌++◌,
  length, take, drop, Option, none, some,
}
use epilog.TrieDb.Words.{popcount}
use epilog.TrieDb.Nodes.{Leaf, Branch, num_children}
use epilog.TrieDb.Files.{write_bytes, leaf_size, branch_size, max_leaf_size}
use epilog.TrieDb.Roots.{Root, root_size}

-- What is left behind what was read, or nothing where the buffer ends or an assertion fails.
abbrev pub and_then {ℓ κ} :
    {A : Type ℓ} {B : Type κ} → Option (A × List ℕ) → (A → List ℕ → Option B) → Option B
and_then none f = none
and_then (some (a, rest)) f = f a rest

-- read_uint32 and read_uint64 of common/bits.hpp, and a single byte
unfoldable pub read_uint : ℕ → List ℕ → Option (ℕ × List ℕ)
read_uint zero bytes = some (0, bytes)
read_uint (suc n) [] = none
read_uint (suc n) (b ∷ bytes) =
    and_then (read_uint n bytes) (λ v rest. some (bit_or (v * 256) (b % 256), rest))

unfoldable pub read_block : ℕ → List ℕ → Option (List ℕ × List ℕ)
read_block n bytes = if ltb (length bytes) n then none else some (take n bytes, drop n bytes)

-- triedb_root::write
unfoldable pub write_root : Root → List ℕ
write_root r =
    write_bytes 4 root_size
    ++ (write_bytes 4 r.height
        ++ (write_bytes 8 r.num_entries ++ (write_bytes 8 r.previous_id ++ write_bytes 8 r.ptr)))

-- triedb_root::read, which leaves the root's name as it is.
unfoldable pub read_root : ℕ → List ℕ → Option (Root × List ℕ)
read_root id buffer = and_then (read_uint 4 buffer) (λ sz p.
    if sz == root_size
    then and_then (read_uint 4 p) (λ height p. and_then (read_uint 8 p) (λ num_entries p.
      and_then (read_uint 8 p) (λ previous_id p. and_then (read_uint 8 p) (λ ptr p. some (
        record {
          id = id;
          previous_id = previous_id;
          ptr = ptr;
          height = height;
          num_entries = num_entries;
        },
        p,
      )))))
    else none)

-- The bytes that triedb_leaf::write stores behind its assertion.
unfoldable pub leaf_bytes : Leaf → List ℕ
leaf_bytes l =
    write_bytes 4 (leaf_size l)
    ++ (write_bytes 1 (length l.hash) ++ (write_bytes 8 l.key ++ (l.hash ++ l.custom_data)))

-- triedb_leaf::write; nothing stands for a failed assertion.
unfoldable pub write_leaf : Leaf → Option (List ℕ)
unfolding leaf_size leaf_bytes
write_leaf l = if ltb (leaf_size l) max_leaf_size then some (leaf_bytes l) else none

-- triedb_leaf::read, with sizes on 64 bits. Its first three assertions are on constants and hold.
unfoldable pub read_leaf : List ℕ → Option (Leaf × List ℕ)
read_leaf buffer = and_then (read_uint 4 buffer) (λ sz p. and_then (read_uint 1 p) (λ hash_size p.
    and_then (read_uint 8 p) (λ key p.
      if ltb (13 + hash_size) max_leaf_size
      then and_then (read_block hash_size p) (λ hash p.
        let custom_data_sz = (sz + 2 ^ 64 - (13 + hash_size)) % 2 ^ 64 in
        if ltb ((13 + hash_size + custom_data_sz) % 2 ^ 64) max_leaf_size
        then and_then (read_block custom_data_sz p) (λ custom_data p.
          some (record { hash = hash; key = key; custom_data = custom_data }, p))
        else none)
      else none)))

-- A buffer of n zero bytes, overwritten by what a stream gives.
unfoldable pub filled : ℕ → List ℕ → List ℕ
filled zero bytes = []
filled (suc n) [] = 0 ∷ filled n []
filled (suc n) (b ∷ bytes) = b ∷ filled n bytes

-- triedb::read_leaf_node, from the bytes of the file at the offset on
unfoldable pub read_leaf_node : List ℕ → Option Leaf
unfolding read_leaf filled
read_leaf_node file = and_then (read_uint 4 (filled 4 file)) (λ size p.
    if leb 4 size && ltb size max_leaf_size
    then and_then (read_leaf (filled (4 + size) (take size file))) (λ l p. some l)
    else none)

-- The loop of triedb_branch::write over the pointers.
unfoldable pub write_pointers : ℕ → (ℕ → ℕ) → List ℕ
write_pointers zero ptr = []
write_pointers (suc n) ptr = write_bytes 8 (ptr 0) ++ write_pointers n (λ i. ptr (suc i))

abbrev pub cons_pointer : ℕ → (ℕ → ℕ) → ℕ → ℕ
cons_pointer p ptr zero = p
cons_pointer p ptr (suc i) = ptr i

-- The loop of triedb_branch::read over the pointers.
unfoldable pub read_pointers : ℕ → List ℕ → Option ((ℕ → ℕ) × List ℕ)
read_pointers zero bytes = some (λ i. 0, bytes)
read_pointers (suc n) bytes =
    and_then (read_uint 8 bytes)
      (λ p rest. and_then (read_pointers n rest) (λ ptr more. some (cons_pointer p ptr, more)))

-- triedb_branch::write
unfoldable pub write_branch : Branch → List ℕ
write_branch b =
    write_bytes 4 (branch_size b)
    ++ (write_bytes 1 b.depth
        ++ (write_bytes 1 (length b.hash)
            ++ (write_bytes 4 b.mask
                ++ (write_bytes 4 b.leaf
                    ++ (write_bytes 8 b.num
                        ++ (write_pointers (num_children b) b.ptr ++ b.hash))))))

-- triedb_branch::read
unfoldable pub read_branch : List ℕ → Option (Branch × List ℕ)
read_branch buffer = and_then (read_uint 4 buffer) (λ sz p. and_then (read_uint 1 p) (λ depth p.
    and_then (read_uint 1 p) (λ hash_sz p. and_then (read_uint 4 p) (λ mask p.
      and_then (read_uint 4 p) (λ leaf p. and_then (read_uint 8 p) (λ num p.
        and_then (read_pointers (popcount mask) p) (λ ptr p.
          if hash_sz == sz - (22 + 8 * popcount mask)
          then and_then (read_block hash_sz p) (λ hash p. some (
            record { hash = hash; depth = depth; mask = mask; leaf = leaf; num = num; ptr = ptr },
            p,
          ))
          else none)))))))
