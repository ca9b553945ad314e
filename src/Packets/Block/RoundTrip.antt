-- ===== src/Packets/Block/RoundTrip.antt =====
-- A block is read back if its header commits to its transactions.
use bitlens_rs.Prelude.{
  ◌+◌, ◌^◌, ◌<◌, ◌≡◌, refl, sym, ap, subst, ◌∙◌, arith, true, false, List, [], ◌∷◌, ◌++◌, map,
  append_assoc, length, length-append, All, bytes_eq_refl, ok, add_usize,
}
use bitlens_rs.Util.U256.{U256}
use bitlens_rs.Util.Arena.{Arena, Layout}
use bitlens_rs.Util.Merkle.{into_root}
use bitlens_rs.Util.Merkle.Reference.{IsHash, IsRoot}
use bitlens_rs.Util.Merkle.Refine.{into_root-IsRoot, IsRoot-unique}
use bitlens_rs.Packets.Buffer.{Bytes, IsSlice, with_offset_at}
use bitlens_rs.Packets.Varint.{serialize_varint, length_varint}
use bitlens_rs.Packets.Varint.RoundTrip.{length-serialize_varint}
use bitlens_rs.Packets.Array.{serialize_items, serialize_array}
use bitlens_rs.Packets.Array.RoundTrip.{Reads, room_array, deserialize_array-serialize_array}
use bitlens_rs.Packets.Tx.{Tx, Layouts}
use bitlens_rs.Packets.Tx
use bitlens_rs.Packets.Tx.Valid.{IsTx, room_tx, txid, witness_txid}
use bitlens_rs.Packets.Tx.RoundTrip.{deserialize-serialize}
use bitlens_rs.Packets.BlockHeader.{is_valid}
use bitlens_rs.Packets.BlockHeader
use bitlens_rs.Packets.BlockHeader.RoundTrip.{
  IsHeader, fields, length-fields, length-serialize, serialize-fields, block_hash,
  deserialize-serialize_header,
}
use bitlens_rs.Packets.Block.{Block, append_hashes, serialize, deserialize}
use bitlens_rs.Packets.Block.Accepted.{append_hashes-concat}

module _ (sha256 : Bytes → Bytes) where
  -- A transaction with its two hashes.
  abbrev pub hashed : Tx → Tx
  hashed tx = record tx { hash = txid sha256 tx; witness_hash = witness_txid sha256 tx }

  All-Reads :
      (layouts : Layouts) (txs : List Tx)
      → All IsTx txs
      → All (Reads (room_tx layouts) (Tx.deserialize sha256 layouts) Tx.serialize hashed) txs
  All-Reads layouts [] h = tt
  All-Reads layouts (tx ∷ txs) (h, hs) = (
    λ arena arena' rest fits room.
        deserialize-serialize sha256 layouts tx rest arena arena' h fits room,
    All-Reads layouts txs hs,
  )

  map-hashed : (txs : List Tx) → map (λ tx. tx.hash) (map hashed txs) ≡ map (txid sha256) txs
  map-hashed [] = refl
  map-hashed (tx ∷ txs) = ap (λ t. txid sha256 tx ∷ t) (map-hashed txs)

  txids-IsHash :
      ((block : Bytes) → IsHash (sha256 block))
      → (txs : List Tx) → All IsHash (map (txid sha256) txs)
  unfolding txid
  txids-IsHash digest [] = tt
  txids-IsHash digest (tx ∷ txs) = (digest _, txids-IsHash digest txs)

  length-txids : (txs : List Tx) → length (map (txid sha256) txs) ≡ length txs
  length-txids [] = refl
  length-txids (tx ∷ txs) = omega (arith, length-txids txs)

  root_lem :
      (txs : List Tx) (root : Bytes)
      → ((block : Bytes) → IsHash (sha256 block))
      → 0 < length txs
      → IsRoot sha256 (map (txid sha256) txs) root false
      → into_root sha256 (append_hashes (λ tx. tx.hash) (map hashed txs) []) ≡ ok (root, false)
  root_lem txs root digest some is_root =
      let ids = map (txid sha256) txs in
      let (root', mutation, is_root', e) =
        into_root-IsRoot sha256 digest ids (omega (arith, length-txids txs))
          (txids-IsHash digest txs) in
      let (same, same') = IsRoot-unique sha256 digest is_root' is_root in
      rw (append_hashes-concat (λ tx. tx.hash) (map hashed txs) [], map-hashed txs, e, same, same')
        refl

  -- A block that is serialized is read back off the front of any slice, if the fields of its header and
  -- of its transactions are in range, the header has work and counts the transactions, there is one at
  -- least, the header holds their Merkle root, no level of which has equal neighbours, and the arena
  -- has room: the header and the transactions are the same, now with their hashes, and the reader
  -- consumes the serialized bytes; a digest has 32 bytes.
  pub deserialize-serialize_block :
      ((block : Bytes) → IsHash (sha256 block))
      → (u : U256) (layouts : Layouts) (layout : Layout) (block : Block) (rest : Bytes)
        (arena arena' : Arena)
      → IsHeader block.header
      → is_valid u (record block.header { hash = block_hash sha256 block.header }) ≡ true
      → block.header.txs_count ≡ length block.txs
      → All IsTx block.txs
      → 0 < length block.txs
      → IsRoot sha256 (map (txid sha256) block.txs) block.header.merkle_root false
      → IsSlice (serialize block ++ rest)
      → room_array layout (room_tx layouts) block.txs arena ≡ ok arena'
      → deserialize sha256 u layouts layout arena (serialize block ++ rest)
        ≡ ok (
          record {
            header = record block.header { hash = block_hash sha256 block.header };
            txs = map hashed block.txs;
          },
          length (serialize block),
          arena',
        )
  unfolding deserialize serialize
  deserialize-serialize_block digest u layouts layout block rest arena arena' header_valid work
        count txs_valid some is_root fits room =
      let h = block.header in
      let txs = block.txs in
      let items = serialize_items Tx.serialize txs in
      let n = length txs in
      let array = serialize_array Tx.serialize txs in
      let regroup : (BlockHeader.serialize h ++ items) ++ rest
          ≡ BlockHeader.serialize h ++ (items ++ rest) =
        append_assoc (BlockHeader.serialize h) items rest in
      let parts : BlockHeader.serialize h ++ (items ++ rest) ≡ fields h ++ (array ++ rest) =
        unfold serialize_array in
        serialize-fields h header_valid (items ++ rest)
        ∙ rw (count, append_assoc (serialize_varint n).0 items rest) refl in
      let size : length (BlockHeader.serialize h ++ items) ≡ 80 + length array =
        unfold serialize_array in
        omega (
          arith,
          length-append (BlockHeader.serialize h) items,
          length-append (serialize_varint n).0 items,
          length-serialize h header_valid,
          length-serialize_varint n,
          ap length_varint count,
        ) in
      let total = length-append (BlockHeader.serialize h ++ items) rest in
      let end : add_usize (length array) 80 ≡ length (BlockHeader.serialize h ++ items) =
        omega arith in
      rw
        (
          regroup,
          deserialize-serialize_header sha256 u h arena (items ++ rest) header_valid work,
          with_offset_at (fields h) (array ++ rest) 80 parts (sym (length-fields h header_valid)),
          deserialize_array-serialize_array (room_tx layouts) (Tx.deserialize sha256 layouts)
              Tx.serialize hashed layout txs rest arena arena'
              (subst (λ k. k < 2 ^ 64) count header_valid.txs_count_range)
              (All-Reads layouts txs txs_valid) (omega (arith, length-append array rest)) room,
          root_lem txs h.merkle_root digest some is_root,
          bytes_eq_refl h.merkle_root,
          end,
        )
        refl
