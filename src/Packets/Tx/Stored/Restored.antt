-- ===== src/Packets/Tx/Stored/Restored.antt =====
-- A transaction on its way from a packet through the database and back.
use bitlens_rs.Prelude.{ℕ, ◌*◌, ◌^◌, ◌<◌, ◌≡◌, refl, [], ◌++◌, length, ok}
use bitlens_rs.Util.Arena.{Arena}
use bitlens_rs.Packets.Buffer.{Bytes, IsSlice, empty_hash}
use bitlens_rs.Packets.Tx.{Tx, Layouts, serialize, deserialize}
use bitlens_rs.Packets.Tx.Valid.{IsTx, room_tx, txid, witness_txid_of, witness_txid}
use bitlens_rs.Packets.Tx.RoundTrip.{deserialize-serialize}
use bitlens_rs.Packets.Tx.Stored.{
  serialize_without_txouts, deserialize_without_txouts, compute_witness_hash,
}
use bitlens_rs.Packets.Tx.Stored.RoundTrip.{
  deserialize_without_txouts-serialize_without_txouts, compute_witness_hash_lem,
}

-- The fields that are checked do not hold the hashes.
IsTx-hashes :
    (tx : Tx) (hash witness_hash : Bytes)
    → IsTx tx
    → IsTx (record tx { hash = hash; witness_hash = witness_hash })
IsTx-hashes tx hash witness_hash h = record {
  version_range = h.version_range;
  locktime_range = h.locktime_range;
  txins_valid = h.txins_valid;
  txins_some = h.txins_some;
  txins_count = h.txins_count;
  txouts_valid = h.txouts_valid;
  txouts_count = h.txouts_count;
  witnesses_valid = h.witnesses_valid;
}

module _ (sha256 : Bytes → Bytes) (layouts : Layouts) (size : ℕ) (tx : Tx) where
  abbrev received : Tx
  received = record tx { hash = txid sha256 tx; witness_hash = witness_txid sha256 tx }

  abbrev loaded : Tx
  loaded = record received { witness_hash = empty_hash }

  compute_witness_hash-loaded : IsTx tx → compute_witness_hash sha256 loaded ≡ ok received
  unfolding txid witness_txid witness_txid_of serialize
  compute_witness_hash-loaded h =
      compute_witness_hash_lem sha256 loaded (IsTx-hashes tx (txid sha256 tx) empty_hash h) refl

  -- A serialized transaction is read by the reader of packets, with both hashes. What is then stored
  -- without its outputs is read back under its hash, and once it has its outputs again,
  -- `compute_witness_hash` restores the very transaction that the packet gave, with the witness hash that
  -- the reader of packets had found. The conditions: the fields are in range, there is an input, the
  -- arena has room for it and the inputs fit in memory.
  pub compute_witness_hash-deserialize :
      (rest stored_rest : Bytes) (arena arena' : Arena)
      → IsTx tx
      → size * length tx.txins < 2 ^ 63
      → IsSlice (serialize tx ++ rest)
      → IsSlice (serialize_without_txouts tx ++ stored_rest)
      → room_tx layouts tx arena ≡ ok arena'
      → (t s : Tx) × (deserialize sha256 layouts arena (serialize tx ++ rest)
          ≡ ok (t, length (serialize tx), arena'))
        × (deserialize_without_txouts size (serialize_without_txouts t ++ stored_rest) t.hash
            ≡ ok (s, length (serialize_without_txouts t)))
        × (compute_witness_hash sha256 (record s { txouts = t.txouts }) ≡ ok t)
  unfolding serialize_without_txouts
  compute_witness_hash-deserialize rest stored_rest arena arena' h memory fits stored_fits room = (
    received,
    record loaded { txouts = [] },
    deserialize-serialize sha256 layouts tx rest arena arena' h fits room,
    deserialize_without_txouts-serialize_without_txouts size received stored_rest (txid sha256 tx)
        (IsTx-hashes tx (txid sha256 tx) (witness_txid sha256 tx) h) memory stored_fits,
    compute_witness_hash-loaded h,
  )
