-- ===== src/Tx/Tests.antt =====
-- Scripts and sizes at concrete inputs.
mod Records
use bitlens_rs.Prelude.{
  ℕ, ◌+◌, ◌*◌, ◌%◌, ◌^◌, ◌≤◌, ◌≡◌, refl, true, false, none, some, [], ◌∷◌, ◌++◌, arith, length, ok,
  to_le_bytes, length-to_le_bytes,
}
use bitlens_rs.Packets.Buffer.{Bytes}
use bitlens_rs.Packets.Tx.{TxIn, Tx, serialize}
use bitlens_rs.Tx.Script.{get_script_op, decode_op_n, sigops_of, sigop_loop, get_sigop_count}
use bitlens_rs.Tx.Script.Counting.{get_sigop_count_bound, get_sigop_count_accurate}
use bitlens_rs.Tx.Size.{calculate_tx_size_wus}
use bitlens_rs.Tx.Size.Weight.{calculate_tx_size_wus_lem}
use bitlens_rs.Tx.Building.{append_bytes, Destination, script_hash, get_script_for_destination}
use bitlens_rs.Tx.Address.Destinations.{
  PaysTo, payload, HasAddress, PaysTo-get_script_for_destination,
}
use bitlens_rs.Tx.Building.Pushes.{get_script_op-append_bytes}

-- Two keys of two, checked together: `OP_2 OP_2 OP_CHECKMULTISIG` without the keys.
abbrev multisig : Bytes
multisig = 0x52 ∷ 0x52 ∷ 0xae ∷ []

get_sigop_count-multisig :
    (get_sigop_count multisig true ≡ ok 2) × (get_sigop_count multisig false ≡ ok 20)
unfolding get_sigop_count sigop_loop sigops_of decode_op_n get_script_op
get_sigop_count-multisig = (refl, refl)

get_sigop_count_bound_example :
    (n : ℕ) × (get_sigop_count multisig true ≡ ok n) × (n ≤ 20 * length multisig)
get_sigop_count_bound_example = get_sigop_count_bound multisig true

get_sigop_count_accurate_example :
    (m n : ℕ) × (get_sigop_count multisig true ≡ ok m)
    × (get_sigop_count multisig false ≡ ok n)
    × (m ≤ n)
get_sigop_count_accurate_example = get_sigop_count_accurate multisig (omega arith)

-- A push of five bytes of which only one is there.
abbrev cut : Bytes
cut = 5 ∷ 1 ∷ []

get_script_op-append_bytes_example :
    get_script_op (append_bytes (7 ∷ 8 ∷ []) ++ (0xac ∷ []))
    ≡ (some (2, some (7 ∷ 8 ∷ [])), 0xac ∷ [])
get_script_op-append_bytes_example =
    get_script_op-append_bytes (7 ∷ 8 ∷ []) (0xac ∷ []) (omega arith)

abbrev input : TxIn
input = record {
  prevout_hash = to_le_bytes 32 5;
  prevout_index = 1;
  sequence = 0;
  sig_script = 2 ∷ [];
}

abbrev tx : Tx
tx = record {
  version = 2;
  locktime = 0;
  txins = input ∷ [];
  txouts = record { value = 50; script = 0x51 ∷ [] } ∷ [];
  witness_data = some ((1 ∷ 1 ∷ 9 ∷ []) ∷ []);
  hash = [];
  witness_hash = [];
}

calculate_tx_size_wus_lem_example :
    calculate_tx_size_wus tx
    ≡ (3 * length (serialize (record tx { witness_data = none })) + length (serialize tx)) % 2 ^ 32
calculate_tx_size_wus_lem_example = calculate_tx_size_wus_lem tx (length-to_le_bytes 32 5, tt)

-- Functions in the place of the hashes.
abbrev sha256 : Bytes → Bytes
sha256 b = to_le_bytes 32 (length b)

abbrev hash160 : Bytes → Bytes
hash160 b = to_le_bytes 20 (length b)

abbrev redeem : Destination
redeem = script_hash (0x51 ∷ [])

redeem-HasAddress : HasAddress sha256 hash160 redeem
unfolding HasAddress
redeem-HasAddress = length-to_le_bytes 20 1

PaysTo-get_script_for_destination_example :
    PaysTo (get_script_for_destination sha256 hash160 redeem) (payload sha256 hash160 redeem)
PaysTo-get_script_for_destination_example =
    PaysTo-get_script_for_destination sha256 hash160 redeem redeem-HasAddress
