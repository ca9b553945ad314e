-- ===== src/Tx/Analysis.antt =====
-- src/tx/mod.rs and fee.rs: the record of an analysed transaction that the database holds, and its
-- reader. `size` is the size of an owned input in memory.
pub mod Writing
pub mod RoundTrip
use bitlens_rs.Prelude.{
  ℕ, zero, suc, ◌+◌, ◌-◌, ◌*◌, ◌%◌, ◌^◌, none, some, List, [], ◌∷◌, ◌++◌, if◌then◌else◌, leb,
  length, take, drop, Result, ok, err, panic, stuck, ◌>>=◌, ◌>>◌, to_le_bytes,
}
use bitlens_rs.Util.Arena.{Arena, try_alloc_array}
use bitlens_rs.Packets.Buffer.{Bytes, get_u64_le, get_u32_le, get_hash, with_offset}
use bitlens_rs.Packets.Varint.{length_varint, serialize_varint_into_slice}
use bitlens_rs.Packets.Array.{deserialize_array_owned, deserialize_u64_owned}
use bitlens_rs.Packets.Tx.{Tx, TxOut, is_coinbase}
use bitlens_rs.Packets.Tx.Stored.{
  serialized_without_txouts_size, serialize_without_txouts, deserialize_without_txouts,
}
use bitlens_rs.Tx.Script.{script_verify_p2sh, script_verify_witness}
use bitlens_rs.Tx.Sigops.{get_transaction_sigop_cost}
use bitlens_rs.Tx.Size.{calculate_tx_size_wus}

pub record AnalyzedTx : Type 0 where
  pub fee : ℕ
  pub txouts_sum : ℕ
  pub size_wus : ℕ
  pub sigops : ℕ
  pub block_hash : Bytes
  pub tx : Tx
  pub txin_values : List ℕ

-- `expect`: a returned error is a panic.
abbrev pub expect {ℓ} : {T : Type ℓ} → Result T → Result T
expect panic = panic
expect stuck = stuck
expect (err message) = panic
expect (ok value) = ok value

-- A sum of `u64`, which wraps.
unfoldable pub sum_values : List TxOut → ℕ
sum_values [] = 0
sum_values (txout ∷ txouts) = (txout.value + sum_values txouts) % 2 ^ 64

unfoldable pub calculate_fee : Tx → List TxOut → ℕ
calculate_fee tx dependencies = (sum_values dependencies + (2 ^ 64 - sum_values tx.txouts)) % 2 ^ 64

-- Two different bits.
unfoldable pub verify_flags : Tx → ℕ
verify_flags tx = elim tx.witness_data [
  | none ↦ script_verify_p2sh
  | some _ ↦ script_verify_p2sh + script_verify_witness
]

abbrev pub zeros : ℕ → Bytes
zeros zero = []
zeros (suc n) = 0 ∷ zeros n

-- `into[offset..offset + n].copy_from_slice(bytes)` for `n` bytes.
unfoldable pub write_at : ℕ → Bytes → Bytes → Result Bytes
write_at offset bytes into =
    if leb (offset + length bytes) (length into)
    then ok (take offset into ++ (bytes ++ drop (offset + length bytes) into))
    else panic

unfoldable pub write_count : ℕ → ℕ → Bytes → Result (Bytes × ℕ)
write_count offset count into =
    if leb offset (length into)
    then (serialize_varint_into_slice count (drop offset into)
        >>= (λ (tail, size_offset). ok (take offset into ++ tail, size_offset)))
    else panic

-- The loop over the dependencies, from the index on; the values begin at `start`.
unfoldable pub write_values : ℕ → ℕ → List TxOut → Bytes → Result Bytes
write_values start index [] into = ok into
write_values start index (dep ∷ dependencies) into = do
  into' ← write_at (start + 8 * index) (to_le_bytes 8 dep.value) into
  write_values start (index + 1) dependencies into'

unfoldable pub analyzed_size : Tx → List TxOut → ℕ
analyzed_size tx dependencies =
    serialized_without_txouts_size tx
    + 8
    + 8
    + 4
    + 4
    + 8
    + 32
    + (length_varint (length dependencies) + length dependencies * 8)

unfoldable pub fee_of : Tx → List TxOut → ℕ
fee_of tx dependencies = if is_coinbase tx then 0 else calculate_fee tx dependencies

-- What `analyze_tx` does up to the record `analyzed_tx`; its other results are not in this file.
unfoldable pub analyzed_tx : Bytes → Tx → List TxOut → Arena → Result (Bytes × Arena)
analyzed_tx block_hash tx dependencies arena = do
  sigops ← get_transaction_sigop_cost tx dependencies (verify_flags tx)
  let size = analyzed_size tx dependencies
  (_, arena') ← try_alloc_array (record { size = 1; alignment = 1 }) size arena
  a₁ ← write_at 0 (to_le_bytes 8 (fee_of tx dependencies)) (zeros size)
  a₂ ← write_at 8 (to_le_bytes 8 (sum_values tx.txouts)) a₁
  a₃ ← write_at 16 (to_le_bytes 4 (calculate_tx_size_wus tx)) a₂
  a₄ ← write_at 20 (to_le_bytes 4 sigops) a₃
  a₅ ← write_at 24 block_hash a₄
  a₆ ← write_at 56 (serialize_without_txouts tx) a₅
  let at_values = 56 + serialized_without_txouts_size tx
  (a₇, size_offset) ← write_count at_values (length dependencies) a₆
  a₈ ← write_values (at_values + size_offset) 0 dependencies a₇
  ok (a₈, arena')

unfoldable pub deserialize_analyzed_tx : ℕ → Bytes → Bytes → Result AnalyzedTx
deserialize_analyzed_tx size bytes hash = do
  fee ← expect (get_u64_le bytes 0)
  txouts_sum ← expect (get_u64_le bytes 8)
  size_wus ← expect (get_u32_le bytes 16)
  sigops ← expect (get_u32_le bytes 20)
  block_hash ← expect (get_hash bytes 24)
  at_tx ← expect (with_offset bytes 56)
  (tx, consumed) ← expect (deserialize_without_txouts size at_tx hash)
  at_values ← expect (with_offset bytes (56 + consumed))
  (txin_values, _) ← expect (deserialize_array_owned 8 deserialize_u64_owned at_values)
  ok (record {
    fee = fee;
    txouts_sum = txouts_sum;
    size_wus = size_wus;
    sigops = sigops;
    block_hash = block_hash;
    tx = tx;
    txin_values = txin_values;
  })
