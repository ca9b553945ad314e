-- ===== src/Packets/Tx/Stored.antt =====
-- src/packets/tx.rs: the form of a transaction in the database, without its outputs, which are stored
-- elsewhere. `size` is the size of an owned input in memory.
pub mod Reading
pub mod RoundTrip
pub mod Restored
use bitlens_rs.Prelude.{
  ℕ, ◌+◌, ◌==◌, ◌&&◌, panic, Option, none, some, List, [], ◌∷◌, ◌++◌, if◌then◌else◌, length,
  bytes_eq, Bool, true, false, Result, ok, not_enough_bytes, zero_txins, ok_or, guard, ◌>>=◌, ◌>>◌,
  add_usize, to_le_bytes,
}
use bitlens_rs.Packets.Buffer.{Bytes, empty_hash, get_range, get_u32_le, with_offset}
use bitlens_rs.Packets.Varint.{length_varint, serialize_varint}
use bitlens_rs.Packets.Array.{deserialize_array_owned, serialize_items}
use bitlens_rs.Packets.Tx.{
  TxIn, Tx, deserialize_txin_owned, serialize_txin, marker, witness_part, serialize,
  deserialize_witnesses, non_empty,
}

-- What the inputs take: 40 bytes of hash, index and sequence, and the script.
unfoldable pub txins_length : List TxIn → ℕ
txins_length [] = 0
txins_length (txin ∷ txins) =
    40 + length_varint (length txin.sig_script) + length txin.sig_script + txins_length txins

unfoldable pub witnesses_length : List Bytes → ℕ
witnesses_length [] = 0
witnesses_length (witness ∷ witnesses) = length witness + witnesses_length witnesses

unfoldable pub serialized_without_txouts_size : Tx → ℕ
serialized_without_txouts_size tx =
    4
    + (elim tx.witness_data [ none ↦ 0 | some _ ↦ 2 ])
    + length_varint (length tx.txins)
    + txins_length tx.txins
    + (elim tx.witness_data [ none ↦ 0 | some witnesses ↦ witnesses_length witnesses ])
    + 4

unfoldable pub serialize_without_txouts : Tx → Bytes
serialize_without_txouts tx =
    to_le_bytes 4 tx.version
    ++ (marker tx.witness_data
        ++ ((serialize_varint (length tx.txins)).0
            ++ (serialize_items serialize_txin tx.txins
                ++ (witness_part tx.witness_data ++ to_le_bytes 4 tx.locktime))))

-- The witness data of `n` inputs, where the marker announced it.
unfoldable pub owned_witnesses : Bool → ℕ → Bytes → ℕ → Result (Option (List Bytes) × ℕ)
owned_witnesses false n buffer offset = ok (none, offset)
owned_witnesses true n buffer offset = do
  (wits, end) ← deserialize_witnesses n buffer offset
  ok (some wits, end)

-- The hash is that of the key under which the transaction is stored.
unfoldable pub deserialize_without_txouts : ℕ → Bytes → Bytes → Result (Tx × ℕ)
deserialize_without_txouts size buffer hash = do
  version ← get_u32_le buffer 0
  flag ← ok_or (get_range buffer 4 6) not_enough_bytes
  let has_witness_data = bytes_eq flag (0 ∷ 1 ∷ [])
  let start = if has_witness_data then 6 else 4
  at_txins ← with_offset buffer start
  (txins, offset_delta) ← deserialize_array_owned size deserialize_txin_owned at_txins
  guard (non_empty txins) zero_txins
  (witnesses, offset) ←
      owned_witnesses has_witness_data (length txins) buffer (add_usize start offset_delta)
  locktime ← get_u32_le buffer offset
  ok (
    record {
      version = version;
      locktime = locktime;
      txins = txins;
      txouts = [];
      witness_data = witnesses;
      hash = hash;
      witness_hash = empty_hash;
    },
    add_usize offset 4,
  )

-- The same test as the reader's of packets, which the source has a second time.
unfoldable pub all_single_owned : List Bytes → Bool
all_single_owned [] = true
all_single_owned (w ∷ ws) = length w == 1 && all_single_owned ws

unfoldable pub all_txins_empty_owned : List Bytes → Result Bool
all_txins_empty_owned [] = panic
all_txins_empty_owned (w ∷ ws) = ok (all_single_owned (w ∷ ws))

module _ (sha256 : Bytes → Bytes) where
  unfoldable pub computed_hash : Tx → Option (List Bytes) → Result Bytes
  computed_hash tx none = ok tx.hash
  computed_hash tx (some witnesses) = do
    empty ← all_txins_empty_owned witnesses
    ok (if empty then tx.hash else sha256 (sha256 (serialize tx)))

  unfoldable pub compute_witness_hash : Tx → Result Tx
  compute_witness_hash tx = do
    hash ← computed_hash tx tx.witness_data
    ok (record tx { witness_hash = hash })
