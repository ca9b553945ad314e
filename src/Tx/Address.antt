-- ===== src/Tx/Address.antt =====
-- src/tx/mod.rs: the address that a script pays to, and the key of the address index.
pub mod Destinations
use bitlens_rs.Prelude.{
  ℕ, ◌+◌, ◌-◌, ◌^◌, Bool, true, false, ◌&&◌, not, Option, none, some, ◌++◌, ◌==◌, if◌then◌else◌,
  length, take, drop, Result, ok, ◌>>=◌, to_be_bytes,
}
use bitlens_rs.Util.Arena.{Arena, try_alloc_array}
use bitlens_rs.Packets.Buffer.{Bytes}
use bitlens_rs.Tx.Opcodes.{op_0, op_1, op_dup, op_equal, op_equalverify, op_hash160, op_checksig}
use bitlens_rs.Tx.Script.{byte_at}

-- `script[from..to]`, where a check of the length stands before it.
abbrev pub part : Bytes → ℕ → ℕ → Bytes
part script from to = take (to - from) (drop from script)

-- A full public key, or a compressed one.
unfoldable pub get_p2pk_address : Bytes → Option Bytes
get_p2pk_address script =
    if length script == 67 && (byte_at script 0 == 0x41 && byte_at script 66 == op_checksig)
    then some (part script 1 66)
    else if length script == 35 && (byte_at script 0 == 0x21 && byte_at script 34 == op_checksig)
    then some (part script 1 34)
    else none

unfoldable pub get_p2sh_address : Bytes → Option Bytes
get_p2sh_address script =
    if length script == 23
      && (byte_at script 0 == op_hash160
          && (byte_at script 1 == 0x14 && byte_at script 22 == op_equal))
    then some (part script 2 22)
    else none

unfoldable pub get_p2pkh_address : Bytes → Option Bytes
get_p2pkh_address script =
    if not (
      length script == 25
      && (byte_at script 0 == op_dup
          && (byte_at script 1 == op_hash160
              && (byte_at script 2 == 0x14
                  && (byte_at script 23 == op_equalverify && byte_at script 24 == op_checksig)))))
    then none
    else some (part script 3 23)

unfoldable pub get_bech32_address : Bytes → Option Bytes
get_bech32_address script =
    if length script == 22 && (byte_at script 0 == op_0 && byte_at script 1 == 0x14)
    then some (drop 2 script)
    else if length script == 34 && (byte_at script 0 == op_0 && byte_at script 1 == 0x20)
    then some (drop 2 script)
    else if length script == 34 && (byte_at script 0 == op_1 && byte_at script 1 == 0x20)
    then some (drop 2 script)
    else none

abbrev pub is_some : Option Bytes → Bool
is_some none = false
is_some (some v) = true

unfoldable pub script_has_address : Bytes → Bool
script_has_address script =
    if is_some (get_p2pk_address script)
    then true
    else if is_some (get_p2sh_address script)
    then true
    else if is_some (get_p2pkh_address script)
    then true
    else is_some (get_bech32_address script)

-- A key of the index in the arena: the address, the time counted down from the end of `u64` in
-- big-endian order, and the hash.
unfoldable pub address_key : Bytes → Bytes → ℕ → Arena → Result (Option Bytes × Arena)
address_key address txhash timestamp arena = do
  (_, arena') ← try_alloc_array (record { size = 1; alignment = 1 }) (length address + 8 + 32) arena
  ok (some (address ++ (to_be_bytes 8 timestamp ++ txhash)), arena')

unfoldable pub get_address_from_script_copy_into_arena_with_txhash :
    Bytes → Bytes → ℕ → Arena → Result (Option Bytes × Arena)
get_address_from_script_copy_into_arena_with_txhash script txhash timestamp arena =
    let down = 2 ^ 64 - 1 - timestamp in
    elim (get_p2pk_address script) [
      | some p2pk ↦ address_key p2pk txhash down arena
      | none ↦ elim (get_p2sh_address script) [
        | some p2sh ↦ address_key p2sh txhash down arena
        | none ↦ elim (get_p2pkh_address script) [
          | some p2pkh ↦ address_key p2pkh txhash down arena
          | none ↦ elim (get_bech32_address script) [
            | some bech32 ↦ address_key bech32 txhash down arena
            | none ↦ ok (none, arena)
          ]
        ]
      ]
    ]
