-- ===== src/Tx/Tests/Records.antt =====
-- The stored record of a transaction of one input and one output.
use bitlens_rs.Prelude.{◌≡◌, refl, none, [], ◌∷◌, arith, ok, to_le_bytes, length-to_le_bytes}
use bitlens_rs.Util.Arena.{Arena, try_alloc_array, padding}
use bitlens_rs.Packets.Buffer.{IsSlice, empty_hash}
use bitlens_rs.Packets.Varint.{serialize_varint, length_varint}
use bitlens_rs.Packets.Varstr.{serialize_varstr}
use bitlens_rs.Packets.Array.{serialize_items, serialize_array}
use bitlens_rs.Packets.Tx.{
  TxIn, TxOut, Tx, is_coinbase, sole_is_empty, is_empty, serialize_txin, concat,
}
use bitlens_rs.Packets.Tx.Valid.{IsTx}
use bitlens_rs.Packets.Tx.Stored.{
  serialized_without_txouts_size, serialize_without_txouts, txins_length,
}
use bitlens_rs.Tx.Script.{
  has_flag, get_sigop_count, sigop_loop, sigops_of, get_script_op, take_operand,
  is_pay_to_script_hash,
}
use bitlens_rs.Tx.Sigops.{
  sum_sigops, sig_scripts, out_scripts, get_legacy_sigops, p2sh_loop, get_p2sh_sigop_count,
  spend_sigops, get_transaction_sigop_cost,
}
use bitlens_rs.Tx.Size.{calculate_tx_size_wus, txins_size, txouts_size, witness_size}
use bitlens_rs.Tx.Analysis.{
  sum_values, calculate_fee, verify_flags, analyzed_size, fee_of, analyzed_tx,
  deserialize_analyzed_tx,
}
use bitlens_rs.Tx.Analysis.RoundTrip.{record_of, deserialize_analyzed_tx-analyzed_tx}

abbrev input : TxIn
input = record {
  prevout_hash = to_le_bytes 32 5;
  prevout_index = 1;
  sequence = 0;
  sig_script = 2 ∷ [];
}

-- A payment to a key, and what it spends.
abbrev tx : Tx
tx = record {
  version = 2;
  locktime = 0;
  txins = input ∷ [];
  txouts = record { value = 50; script = 0xac ∷ [] } ∷ [];
  witness_data = none;
  hash = [];
  witness_hash = [];
}

abbrev spent : TxOut
spent = record { value = 70; script = 0xac ∷ [] }

tx-IsTx : IsTx tx
tx-IsTx = record {
  version_range = omega arith;
  locktime_range = omega arith;
  txins_valid = (
    record {
      hash_width = length-to_le_bytes 32 5;
      index_range = omega arith;
      sequence_range = omega arith;
    },
    tt,
  );
  txins_some = omega arith;
  txins_count = omega arith;
  txouts_valid = (record { value_range = omega arith }, tt);
  txouts_count = omega arith;
  witnesses_valid = tt;
}

abbrev arena : Arena
arena = record { address = 0; consumed = 0; capacity = 1024 }

tx_cost : get_transaction_sigop_cost tx (spent ∷ []) (verify_flags tx) ≡ ok 4
unfolding get_transaction_sigop_cost verify_flags spend_sigops get_p2sh_sigop_count p2sh_loop
    get_legacy_sigops sum_sigops sig_scripts out_scripts has_flag get_sigop_count sigop_loop
    sigops_of get_script_op take_operand is_pay_to_script_hash is_coinbase sole_is_empty is_empty
    to_le_bytes
tx_cost = refl

record_room :
    try_alloc_array (record { size = 1; alignment = 1 }) (analyzed_size tx (spent ∷ [])) arena
    ≡ ok (0, record arena { consumed = 124 })
unfolding try_alloc_array padding analyzed_size serialized_without_txouts_size txins_length
    length_varint
record_room = refl

record_fits : IsSlice (record_of (to_le_bytes 32 8) tx (spent ∷ []) 4)
unfolding serialize_without_txouts serialize_array serialize_items serialize_txin serialize_varstr
    serialize_varint concat to_le_bytes
record_fits = omega arith

fees : (fee_of tx (spent ∷ []) ≡ 20) × (calculate_tx_size_wus tx ≡ 248)
unfolding fee_of calculate_fee sum_values is_coinbase sole_is_empty is_empty to_le_bytes
    calculate_tx_size_wus txins_size txouts_size witness_size length_varint
fees = (refl, refl)

deserialize_analyzed_tx-analyzed_tx_example :
    (analyzed_tx (to_le_bytes 32 8) tx (spent ∷ []) arena
      ≡ ok (record_of (to_le_bytes 32 8) tx (spent ∷ []) 4, record arena { consumed = 124 }))
    × (deserialize_analyzed_tx 64 (record_of (to_le_bytes 32 8) tx (spent ∷ []) 4) (6 ∷ [])
        ≡ ok (record {
          fee = fee_of tx (spent ∷ []);
          txouts_sum = sum_values tx.txouts;
          size_wus = calculate_tx_size_wus tx;
          sigops = 4;
          block_hash = to_le_bytes 32 8;
          tx = record tx { txouts = []; hash = 6 ∷ []; witness_hash = empty_hash };
          txin_values = 70 ∷ [];
        }))
deserialize_analyzed_tx-analyzed_tx_example =
    deserialize_analyzed_tx-analyzed_tx 64 (to_le_bytes 32 8) (6 ∷ []) tx (spent ∷ []) arena
      (record arena { consumed = 124 }) 4 0 tx-IsTx (length-to_le_bytes 32 8) (omega arith, tt)
      (omega arith) (omega arith) (omega arith) tx_cost record_room record_fits
