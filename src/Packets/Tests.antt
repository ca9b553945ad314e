-- ===== src/Packets/Tests.antt =====
-- Packets at concrete bytes.
mod Blocks
mod Payloads
use bitlens_rs.Prelude.{
  ◌≡◌, refl, true, some, List, [], ◌∷◌, ◌++◌, arith, leb, if◌then◌else◌, length, drop, All, ok, err,
  panic, to_le_bytes, from_le_bytes, length-to_le_bytes, not_enough_bytes,
}
use bitlens_rs.Util.Arena.{Arena, try_alloc_array, padding}
use bitlens_rs.Packets.Buffer.{Bytes, IsSlice, empty_hash, get_range, get_u16_le}
use bitlens_rs.Packets.Varint.{
  length_varint, serialize_varint, deserialize_varint, serialize_varint_into_slice,
}
use bitlens_rs.Packets.Varint.RoundTrip.{
  deserialize_varint-serialize_varint, serialize_varint_into_slice_lem,
}
use bitlens_rs.Packets.Varstr.{
  serialize_varstr, deserialize_varstr, length_varstr, deserialize_array_of_varstr_as_varstr,
}
use bitlens_rs.Packets.Varstr.RoundTrip.{
  put_varstr, deserialize_varstr-serialize_varstr, deserialize_array_of_varstr-serialize_array,
}
use bitlens_rs.Packets.Array.{serialize_items, serialize_array}
use bitlens_rs.Packets.Array.RoundTrip.{room_items, room_array}
use bitlens_rs.Packets.Tx.{
  TxIn, TxOut, Tx, Layouts, serialize_txin, serialize_txout, concat, serialize, deserialize,
}
use bitlens_rs.Packets.Tx.Fields.{IsTxOut, no_room}
use bitlens_rs.Packets.Tx.Stored.{
  serialize_without_txouts, deserialize_without_txouts, compute_witness_hash,
}
use bitlens_rs.Packets.Tx.Stored.RoundTrip.{deserialize_without_txouts-serialize_without_txouts}
use bitlens_rs.Packets.Tx.Stored.Restored.{compute_witness_hash-deserialize}
use bitlens_rs.Packets.BlockHeader.{BlockHeader, is_valid}
use bitlens_rs.Packets.BlockHeader
use bitlens_rs.Packets.BlockHeader.RoundTrip.{IsHeader, block_hash, deserialize-serialize_header}
use bitlens_rs.Util.U256.Reference.{reference}
use bitlens_rs.Util.Compact.{u256_from_compact}
use bitlens_rs.Packets.Tx.Valid.{IsTx, room_witness, room_tx, txid, witness_txid}
use bitlens_rs.Packets.Tx.RoundTrip.{deserialize-serialize}

-- The largest value of two bytes is written in five.
length_varint_0xFFFF : length_varint 0xFFFF ≡ 5
unfolding length_varint
length_varint_0xFFFF = refl

deserialize_varint_cut : deserialize_varint (0xFD ∷ 1 ∷ []) ≡ err not_enough_bytes
unfolding deserialize_varint get_u16_le get_range
deserialize_varint_cut = refl

abbrev sample_rest : Bytes
sample_rest = 9 ∷ []

deserialize_varint-serialize_varint_example :
    deserialize_varint ((serialize_varint 0x12345).0 ++ sample_rest)
    ≡ ok (0x12345, length_varint 0x12345)
deserialize_varint-serialize_varint_example =
    deserialize_varint-serialize_varint 0x12345 sample_rest (omega arith)

serialize_varint_into_slice_lem_example : serialize_varint_into_slice 300 (0 ∷ 0 ∷ 0 ∷ 7 ∷ []) ≡ (
    if leb (length_varint 300) 4
    then ok (
      (serialize_varint 300).0 ++ drop (length_varint 300) (0 ∷ 0 ∷ 0 ∷ 7 ∷ []),
      length_varint 300,
    )
    else panic)
serialize_varint_into_slice_lem_example = serialize_varint_into_slice_lem 300 (0 ∷ 0 ∷ 0 ∷ 7 ∷ [])

deserialize_varstr-serialize_varstr_example :
    deserialize_varstr ((serialize_varstr (1 ∷ 2 ∷ [])).0 ++ sample_rest)
    ≡ ok (1 ∷ 2 ∷ [], length_varstr (1 ∷ 2 ∷ []))
deserialize_varstr-serialize_varstr_example =
    deserialize_varstr-serialize_varstr (1 ∷ 2 ∷ []) sample_rest (omega arith)

abbrev components : List Bytes
components = (1 ∷ 2 ∷ []) ∷ [] ∷ []

abbrev sample_witness : Bytes
sample_witness = serialize_array put_varstr components

witness_fits : IsSlice (sample_witness ++ sample_rest)
unfolding serialize_array serialize_items serialize_varstr serialize_varint
witness_fits = omega arith

deserialize_array_of_varstr-serialize_array_example :
    deserialize_array_of_varstr_as_varstr (sample_witness ++ sample_rest)
    ≡ ok (sample_witness, length sample_witness)
deserialize_array_of_varstr-serialize_array_example =
    deserialize_array_of_varstr-serialize_array components sample_rest (omega arith) witness_fits

abbrev arena : Arena
arena = record { address = 64; consumed = 3; capacity = 1000 }

abbrev layouts : Layouts
layouts = record {
  txin = record { size = 80; alignment = 8 };
  txout = record { size = 24; alignment = 8 };
  witness = record { size = 16; alignment = 8 };
}

abbrev outputs : List TxOut
outputs = record { value = 50; script = 0x51 ∷ [] } ∷ record { value = 7; script = [] } ∷ []

outputs_valid : All IsTxOut outputs
outputs_valid = (record { value_range = omega arith }, (record { value_range = omega arith }, tt))

outputs_fit : IsSlice (serialize_array serialize_txout outputs ++ sample_rest)
unfolding serialize_array serialize_items serialize_txout serialize_varstr serialize_varint
    to_le_bytes
outputs_fit = omega arith

outputs_room : room_array layouts.txout no_room outputs arena ≡ ok (record arena { consumed = 56 })
unfolding room_array room_items try_alloc_array padding
outputs_room = refl

-- A function in the place of SHA-256.
abbrev checksum : Bytes → Bytes
checksum b = length b ∷ []

abbrev input : TxIn
input = record {
  prevout_hash = to_le_bytes 32 5;
  prevout_index = 1;
  sequence = 0xFFFFFFFF;
  sig_script = 2 ∷ 3 ∷ [];
}

abbrev tx : Tx
tx = record {
  version = 2;
  locktime = 500;
  txins = input ∷ [];
  txouts = outputs;
  witness_data = some (sample_witness ∷ []);
  hash = [];
  witness_hash = [];
}

tx-IsTx : IsTx tx
tx-IsTx = record {
  version_range = omega arith;
  locktime_range = omega arith;
  txins_valid = (
    record {
      hash_width = length-to_le_bytes 32 5;
      index_range = omega arith;
      sequence_range = omega arith;
    },
    tt,
  );
  txins_some = omega arith;
  txins_count = omega arith;
  txouts_valid = outputs_valid;
  txouts_count = omega arith;
  witnesses_valid =
      ((record { components = components; count = omega arith; form = refl }, tt), refl);
}

tx_fits : IsSlice (serialize tx ++ sample_rest)
unfolding serialize serialize_array serialize_items serialize_txin serialize_txout serialize_varstr
    serialize_varint concat to_le_bytes
tx_fits = omega arith

abbrev arena_after : Arena
arena_after = record arena { consumed = 152 }

tx_room : room_tx layouts tx arena ≡ ok arena_after
unfolding room_tx room_witness room_array room_items try_alloc_array padding
tx_room = refl

deserialize-serialize_example :
    deserialize checksum layouts arena (serialize tx ++ sample_rest)
    ≡ ok (
      record tx { hash = txid checksum tx; witness_hash = witness_txid checksum tx },
      length (serialize tx),
      arena_after,
    )
deserialize-serialize_example =
    deserialize-serialize checksum layouts tx sample_rest arena arena_after tx-IsTx tx_fits tx_room

tx_stored_fits : IsSlice (serialize_without_txouts tx ++ sample_rest)
unfolding serialize_without_txouts serialize_array serialize_items serialize_txin serialize_varstr
    serialize_varint concat to_le_bytes
tx_stored_fits = omega arith

deserialize_without_txouts-serialize_without_txouts_example :
    deserialize_without_txouts 64 (serialize_without_txouts tx ++ sample_rest) (6 ∷ [])
    ≡ ok (
      record tx { txouts = []; hash = 6 ∷ []; witness_hash = empty_hash },
      length (serialize_without_txouts tx),
    )
deserialize_without_txouts-serialize_without_txouts_example =
    deserialize_without_txouts-serialize_without_txouts 64 tx sample_rest (6 ∷ []) tx-IsTx
      (omega arith) tx_stored_fits

compute_witness_hash-deserialize_example :
    (t s : Tx) × (deserialize checksum layouts arena (serialize tx ++ sample_rest)
      ≡ ok (t, length (serialize tx), arena_after))
    × (deserialize_without_txouts 64 (serialize_without_txouts t ++ sample_rest) t.hash
        ≡ ok (s, length (serialize_without_txouts t)))
    × (compute_witness_hash checksum (record s { txouts = t.txouts }) ≡ ok t)
compute_witness_hash-deserialize_example =
    compute_witness_hash-deserialize checksum layouts 64 tx sample_rest sample_rest arena
      arena_after tx-IsTx (omega arith) tx_fits tx_stored_fits tx_room

abbrev header : BlockHeader
header = record {
  version = 4;
  parent = to_le_bytes 32 1;
  merkle_root = to_le_bytes 32 2;
  timestamp = 1700000000;
  bits = 0x207fffff;
  nonce = 9;
  txs_count = 1;
  hash = [];
}

header-IsHeader : IsHeader header
header-IsHeader = record {
  version_range = omega arith;
  parent_width = length-to_le_bytes 32 1;
  merkle_root_width = length-to_le_bytes 32 2;
  timestamp_range = omega arith;
  bits_range = omega arith;
  nonce_range = omega arith;
  txs_count_range = omega arith;
}

header_valid : is_valid reference (record header { hash = block_hash checksum header }) ≡ true
unfolding is_valid u256_from_compact reference block_hash from_le_bytes
header_valid = refl

deserialize-serialize_header_example :
    BlockHeader.deserialize checksum reference arena (BlockHeader.serialize header ++ sample_rest)
    ≡ ok (
      record header { hash = block_hash checksum header },
      length (BlockHeader.serialize header),
      arena,
    )
deserialize-serialize_header_example =
    deserialize-serialize_header checksum reference header arena sample_rest header-IsHeader
      header_valid
