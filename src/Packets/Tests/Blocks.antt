-- ===== src/Packets/Tests/Blocks.antt =====
-- A block of one transaction and its commitment.
use bitlens_rs.Prelude.{
  ◌≡◌, refl, sym, ap, subst, ◌↔◌, true, false, none, some, [], ◌∷◌, ◌++◌, map, arith, length, ok,
  to_le_bytes, from_le_bytes, length-to_le_bytes,
}
use bitlens_rs.Util.Arena.{Arena, Layout, try_alloc_array, padding}
use bitlens_rs.Util.U256.Reference.{reference}
use bitlens_rs.Util.Compact.{u256_from_compact}
use bitlens_rs.Util.Merkle.Reference.{IsHash, IsRoot, single}
use bitlens_rs.Packets.Buffer.{Bytes, IsSlice}
use bitlens_rs.Packets.Varint.{serialize_varint}
use bitlens_rs.Packets.Varstr.{serialize_varstr}
use bitlens_rs.Packets.Array.{serialize_items, serialize_array}
use bitlens_rs.Packets.Array.RoundTrip.{room_items, room_array}
use bitlens_rs.Packets.Tx.{Tx, TxOut, serialize_txin, serialize_txout, concat}
use bitlens_rs.Packets.Tx
use bitlens_rs.Packets.Tx.Valid.{room_witness, room_tx, txid}
use bitlens_rs.Packets.BlockHeader.{BlockHeader, is_valid}
use bitlens_rs.Packets.BlockHeader
use bitlens_rs.Packets.BlockHeader.RoundTrip.{IsHeader, fields, block_hash}
use bitlens_rs.Packets.Block.{
  Block, serialize, deserialize, commitment_prefix, verify_witness_commitment,
}
use bitlens_rs.Packets.Block.Accepted.{IsAccepted, deserialize-IsAccepted}
use bitlens_rs.Packets.Block.RoundTrip.{hashed, deserialize-serialize_block}
use bitlens_rs.Packets.Block.Commitment.{Commits, Holds, verify_witness_commitment_iff}
use bitlens_rs.Packets.Tests.{sample_rest, arena, layouts, tx, tx-IsTx, header, header-IsHeader}

-- A function of 32 bytes in the place of SHA-256: applied twice, it is always the same.
abbrev pub digest : Bytes → Bytes
digest b = to_le_bytes 32 (length b)

pub digest-IsHash : (b : Bytes) → IsHash (digest b)
digest-IsHash b = length-to_le_bytes 32 (length b)

digest_twice : (b : Bytes) → digest (digest b) ≡ to_le_bytes 32 32
digest_twice b = ap (λ n. to_le_bytes 32 n) (digest-IsHash b)

abbrev block_layout : Layout
block_layout = record { size = 144; alignment = 8 }

abbrev block : Block
block = record { header = record header { merkle_root = to_le_bytes 32 32 }; txs = tx ∷ [] }

block-IsHeader : IsHeader block.header
block-IsHeader = record {
  version_range = header-IsHeader.version_range;
  parent_width = header-IsHeader.parent_width;
  merkle_root_width = length-to_le_bytes 32 32;
  timestamp_range = header-IsHeader.timestamp_range;
  bits_range = header-IsHeader.bits_range;
  nonce_range = header-IsHeader.nonce_range;
  txs_count_range = header-IsHeader.txs_count_range;
}

block-IsRoot : IsRoot digest (map (txid digest) block.txs) block.header.merkle_root false
unfolding txid
block-IsRoot =
    subst (λ id. IsRoot digest (id ∷ []) (to_le_bytes 32 32) false)
      (sym (digest_twice (Tx.serialize (record tx { witness_data = none })))) single

hash_of_block : block_hash digest block.header ≡ to_le_bytes 32 32
unfolding block_hash
hash_of_block = digest_twice (fields block.header)

block_valid :
    is_valid reference (record block.header { hash = block_hash digest block.header }) ≡ true
unfolding is_valid u256_from_compact reference from_le_bytes to_le_bytes
block_valid = rw hash_of_block refl

block_fits : IsSlice (serialize block ++ sample_rest)
unfolding serialize BlockHeader.serialize Tx.serialize serialize_array serialize_items
    serialize_txin serialize_txout serialize_varstr serialize_varint concat to_le_bytes
block_fits = omega arith

abbrev arena_after_block : Arena
arena_after_block = record arena { consumed = 296 }

block_room : room_array block_layout (room_tx layouts) block.txs arena ≡ ok arena_after_block
unfolding room_tx room_witness room_array room_items try_alloc_array padding
block_room = refl

deserialize-serialize_block_example :
    deserialize digest reference layouts block_layout arena (serialize block ++ sample_rest)
    ≡ ok (
      record {
        header = record block.header { hash = block_hash digest block.header };
        txs = map (hashed digest) block.txs;
      },
      length (serialize block),
      arena_after_block,
    )
deserialize-serialize_block_example =
    deserialize-serialize_block digest digest-IsHash reference layouts block_layout block
      sample_rest arena arena_after_block block-IsHeader block_valid refl (tx-IsTx, tt)
      (omega arith) block-IsRoot block_fits block_room

deserialize-IsAccepted_example : IsAccepted digest digest-IsHash reference (record {
  header = record block.header { hash = block_hash digest block.header };
  txs = map (hashed digest) block.txs;
})
deserialize-IsAccepted_example =
    deserialize-IsAccepted digest digest-IsHash reference layouts block_layout arena
      arena_after_block (serialize block ++ sample_rest)
      (record {
        header = record block.header { hash = block_hash digest block.header };
        txs = map (hashed digest) block.txs;
      })
      (length (serialize block)) deserialize-serialize_block_example

-- The second of three outputs commits.
abbrev committing : TxOut
committing = record { value = 0; script = commitment_prefix ++ (to_le_bytes 32 32 ++ (9 ∷ [])) }

abbrev coinbase : Tx
coinbase = record tx {
  txouts = record { value = 50; script = [] } ∷ committing ∷ record { value = 0; script = [] } ∷ [];
  witness_data = some ((1 ∷ 32 ∷ to_le_bytes 32 0) ∷ []);
}

abbrev witness_block : Block
witness_block = record {
  header = header;
  txs = coinbase ∷ record tx { witness_hash = to_le_bytes 32 7 } ∷ [];
}

committing-Commits : Commits committing
committing-Commits = record {
  hash = to_le_bytes 32 32;
  more = 9 ∷ [];
  width = length-to_le_bytes 32 32;
  form = refl;
}

verify_witness_commitment_iff_example :
    (verify_witness_commitment digest witness_block ≡ ok tt)
    ↔ Holds digest coinbase
        (record tx { witness_hash = to_le_bytes 32 7 } ∷ [])
        committing-Commits.hash
verify_witness_commitment_iff_example =
    verify_witness_commitment_iff digest digest-IsHash coinbase
      (record tx { witness_hash = to_le_bytes 32 7 } ∷ []) (length-to_le_bytes 32 7, tt)
      witness_block (record { value = 50; script = [] } ∷ [])
      (record { value = 0; script = [] } ∷ []) committing refl refl ((λ h. cc (h.form)), tt)
      committing-Commits
