-- ===== src/Util/Merkle.antt =====
-- src/util/merkle.rs: the tree of hashes as the one vector of bytes that is halved level by level.
-- SHA-256 is the parameter `sha256`.
pub mod Reference
pub mod Concat
pub mod Evened
pub mod Refine
pub mod Duplicates
mod Tests
use bitlens_rs.Prelude.{
  ℕ, zero, suc, ◌+◌, ◌-◌, ◌*◌, ◌/◌, ◌%◌, Bool, true, false, ◌||◌, [], ◌++◌, if◌then◌else◌, ltb, leb,
  ◌==◌, ◌&&◌, length, take, drop, bytes_eq, Result, panic, stuck, ok, unwrap, ◌>>=◌,
}
use bitlens_rs.Packets.Buffer.{Bytes, empty_hash, get_range}

abbrev pub MerkleTree : Type 0
MerkleTree = Bytes

abbrev pub append_hash : MerkleTree → Bytes → MerkleTree
append_hash tree hash = tree ++ hash

unfoldable pub len : MerkleTree → ℕ
len tree = length tree / 32

unfoldable pub get_hash_at : MerkleTree → ℕ → Result Bytes
get_hash_at tree index = unwrap (get_range tree (index * 32) (index * 32 + 32))

unfoldable pub get_block : MerkleTree → ℕ → Result Bytes
get_block tree index = unwrap (get_range tree (index * 2 * 32) (index * 2 * 32 + 64))

-- An index out of range panics.
unfoldable pub set_hash : MerkleTree → ℕ → Bytes → Result MerkleTree
set_hash tree index hash =
    if leb ((index + 1) * 32) (length tree) && length hash == 32
    then ok (take (index * 32) tree ++ (hash ++ drop ((index + 1) * 32) tree))
    else panic

-- `n` comparisons of neighbours, from the index on.
unfoldable pub find_equal : ℕ → ℕ → MerkleTree → Bool → Result Bool
find_equal zero index tree mutation = ok mutation
find_equal (suc n) index tree mutation = do
  this ← get_hash_at tree index
  next ← get_hash_at tree (index + 1)
  find_equal n (index + 1) tree (mutation || bytes_eq this next)

-- The last element once more, if their number is odd.
unfoldable pub repeat_last : MerkleTree → MerkleTree
repeat_last tree = if len tree % 2 == 1 then tree ++ drop ((len tree - 1) * 32) tree else tree

unfoldable pub finish : MerkleTree → Bool → Result (Bytes × Bool)
finish tree mutation =
    if length tree == 0
    then ok (empty_hash, false)
    else (get_hash_at tree 0 >>= λ hash. ok (hash, mutation))

module _ (sha256 : Bytes → Bytes) where
  unfoldable pub collapse_blocks : ℕ → ℕ → MerkleTree → Result MerkleTree
  collapse_blocks zero index tree = ok tree
  collapse_blocks (suc n) index tree = do
    block ← get_block tree index
    tree' ← set_hash tree index (sha256 (sha256 block))
    collapse_blocks n (index + 1) tree'

  -- An odd number is undefined behaviour, and counts as a panic here.
  unfoldable pub collapse : MerkleTree → Result MerkleTree
  collapse tree = if len tree % 2 == 1 then panic else collapse_blocks (len tree / 2) 0 tree

  -- One round of the loop.
  unfoldable pub next_level : MerkleTree → Bool → Result (MerkleTree × Bool)
  next_level tree mutation = do
    mutation' ← find_equal (len tree - 1) 0 tree mutation
    collapsed ← collapse (repeat_last tree)
    ok (take (length collapsed / 2) collapsed, mutation')

  unfoldable pub levels : ℕ → MerkleTree → Bool → Result (Bytes × Bool)
  levels zero tree mutation = stuck
  levels (suc fuel) tree mutation = elim (ltb 1 (len tree)) [
    | true ↦ next_level tree mutation >>= λ (tree', mutation'). levels fuel tree' mutation'
    | false ↦ finish tree mutation
  ]

  unfoldable pub into_root : MerkleTree → Result (Bytes × Bool)
  into_root tree = levels (len tree + 1) tree false
