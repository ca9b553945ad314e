-- ===== src/Packets/Block.antt =====
-- src/packets/block.rs: blocks, whose transactions are compared with the Merkle root of the header, and
-- the commitment of a block to its witness data. A borrowed and an owned block are one type.
pub mod Accepted
pub mod RoundTrip
pub mod Commitment
use bitlens_rs.Prelude.{
  ◌+◌, Bool, ◌&&◌, not, List, [], ◌∷◌, ◌++◌, reverse, leb, ◌==◌, length, get_elem?, take, drop,
  bytes_eq, Result, ok, merkle_root_mutated, merkle_root_mismatch, missing_coinbase_witness,
  invalid_coinbase_witness, witness_root_mutated, invalid_witness_commitment, ok_or, unwrap, guard,
  ◌>>=◌, ◌>>◌, add_usize, if◌then◌else◌,
}
use bitlens_rs.Util.U256.{U256}
use bitlens_rs.Util.Arena.{Layout}
use bitlens_rs.Util.Merkle.{MerkleTree, append_hash, into_root}
use bitlens_rs.Packets.Buffer.{Bytes, empty_hash, get_range, with_offset}
use bitlens_rs.Packets.Array.{Borrowed, deserialize_array, serialize_items}
use bitlens_rs.Packets.Tx.{Tx, TxOut, Layouts}
use bitlens_rs.Packets.Tx
use bitlens_rs.Packets.BlockHeader.{BlockHeader}
use bitlens_rs.Packets.BlockHeader

pub record Block : Type 0 where
  pub header : BlockHeader
  pub txs : List Tx

-- The header counts the transactions.
unfoldable pub serialize : Block → Bytes
serialize block = BlockHeader.serialize block.header ++ serialize_items Tx.serialize block.txs

unfoldable pub append_hashes : (Tx → Bytes) → List Tx → MerkleTree → MerkleTree
append_hashes hash [] tree = tree
append_hashes hash (tx ∷ txs) tree = append_hashes hash txs (append_hash tree (hash tx))

-- The hash of the coinbase transaction stands as zeros.
unfoldable pub witness_tree : List Tx → MerkleTree
witness_tree [] = []
witness_tree (coinbase ∷ txs) =
    append_hashes (λ tx. tx.witness_hash) txs (append_hash [] empty_hash)

abbrev pub commitment_prefix : Bytes
commitment_prefix = 0x6a ∷ 0x24 ∷ 0xaa ∷ 0x21 ∷ 0xa9 ∷ 0xed ∷ []

unfoldable pub has_commitment : TxOut → Bool
has_commitment txout =
    leb 38 (length txout.script) && bytes_eq (take 6 txout.script) commitment_prefix

module _ (sha256 : Bytes → Bytes) where
  unfoldable pub deserialize : U256 → Layouts → Layout → Borrowed Block
  deserialize u layouts layout arena buffer = do
    (header, _, arena₁) ← BlockHeader.deserialize sha256 u arena buffer
    rest ← with_offset buffer 80
    (txs, offset, arena₂) ← deserialize_array layout (Tx.deserialize sha256 layouts) arena₁ rest
    (merkle_root, mutated) ← into_root sha256 (append_hashes (λ tx. tx.hash) txs [])
    guard (not mutated) merkle_root_mutated
    guard (bytes_eq merkle_root header.merkle_root) merkle_root_mismatch
    ok (record { header = header; txs = txs }, add_usize offset 80, arena₂)

  -- The body of the loop, at an output that commits to the witness data.
  unfoldable pub verify_output : List Tx → Tx → TxOut → Result (Unit {0})
  verify_output txs coinbase txout = do
    witnesses ← ok_or coinbase.witness_data missing_coinbase_witness
    coinbase_witness ← unwrap (get_elem? witnesses 0)
    guard (length coinbase_witness == 34 && bytes_eq (take 2 coinbase_witness) (1 ∷ 32 ∷ []))
        invalid_coinbase_witness
    commitment ← unwrap (get_range txout.script 6 38)
    (witness_root, mutated) ← into_root sha256 (witness_tree txs)
    guard (not mutated) witness_root_mutated
    guard
        (bytes_eq commitment (sha256 (sha256 (witness_root ++ take 32 (drop 2 coinbase_witness)))))
        invalid_witness_commitment

  -- The outputs from the last one on, up to the first that commits.
  unfoldable pub verify_outputs : List Tx → Tx → List TxOut → Result (Unit {0})
  verify_outputs txs coinbase [] = ok tt
  verify_outputs txs coinbase (txout ∷ txouts) =
      if has_commitment txout
      then verify_output txs coinbase txout
      else verify_outputs txs coinbase txouts

  unfoldable pub verify_witness_commitment : Block → Result (Unit {0})
  verify_witness_commitment block = do
    coinbase ← unwrap (get_elem? block.txs 0)
    verify_outputs block.txs coinbase (reverse coinbase.txouts)
