-- ===== src/Tx/Building.antt =====
-- src/tx/script.rs: building scripts, and the scripts of the destinations. The hashes are parameters.
pub mod Pushes
use bitlens_rs.Prelude.{
  ℕ, ◌+◌, ◌%◌, ◌^◌, [], ◌∷◌, ◌++◌, ltb, leb, if◌then◌else◌, length, to_le_bytes,
}
use bitlens_rs.Packets.Buffer.{Bytes}
use bitlens_rs.Tx.Opcodes.{
  op_0, op_1, op_pushdata1, op_pushdata2, op_pushdata4, op_dup, op_equal, op_equalverify,
  op_hash160, op_checksig,
}
use bitlens_rs.Tx.Script.{encode_op_n}

-- `append_item` with a size: the bytes that it pushes.
unfoldable pub append_size : ℕ → Bytes
append_size size =
    if ltb size op_pushdata1
    then (size % 2 ^ 8) ∷ []
    else if leb size 0xFF
    then op_pushdata1 ∷ (size % 2 ^ 8) ∷ []
    else if leb size 0xFFFF
    then op_pushdata2 ∷ to_le_bytes 2 (size % 2 ^ 16)
    else op_pushdata4 ∷ to_le_bytes 4 size

unfoldable pub append_bytes : Bytes → Bytes
append_bytes items = append_size (length items % 2 ^ 32) ++ items

pub data Destination : Type 0 where
  no_destination : Bytes → Destination
  pub_key : Bytes → Destination
  pub_key_hash : Bytes → Destination
  script_hash : Bytes → Destination
  witness_v0_key_hash : Bytes → Destination
  witness_v0_script_hash : Bytes → Destination
  witness_v1_taproot : Bytes → Destination
  witness_unknown : ℕ → Bytes → Destination

module _ (sha256 hash160 : Bytes → Bytes) where
  unfoldable pub get_script_for_destination : Destination → Bytes
  get_script_for_destination (no_destination items) = items
  get_script_for_destination (pub_key items) = append_bytes items ++ (op_checksig ∷ [])
  get_script_for_destination (pub_key_hash items) =
      op_dup ∷ op_hash160 ∷ (append_bytes items ++ (op_equalverify ∷ op_checksig ∷ []))
  get_script_for_destination (script_hash items) =
      op_hash160 ∷ (append_bytes (hash160 items) ++ (op_equal ∷ []))
  get_script_for_destination (witness_v0_key_hash items) = op_0 ∷ append_bytes (hash160 items)
  get_script_for_destination (witness_v0_script_hash items) = op_0 ∷ append_bytes (sha256 items)
  get_script_for_destination (witness_v1_taproot items) = op_1 ∷ append_bytes items
  get_script_for_destination (witness_unknown version program) =
      encode_op_n version ∷ append_bytes program
