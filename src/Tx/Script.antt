-- ===== src/Tx/Script.antt =====
-- src/tx/script.rs: reading a script opcode by opcode, and counting signature operations. Counts are
-- `u32` and wrap. A loop that reads a script runs on fuel of the script's length.
pub mod Reading
pub mod Counting
use bitlens_rs.Prelude.{
  ℕ, zero, suc, ◌+◌, ◌-◌, ◌*◌, ◌/◌, ◌%◌, ◌^◌, Bool, true, false, ◌&&◌, ◌||◌, not, Option, none,
  some, [], ◌∷◌, ◌++◌, ltb, leb, ◌==◌, if◌then◌else◌, length, take, drop, Result, ok, panic, stuck,
  unwrap, ◌>>=◌, from_le_bytes,
}
use bitlens_rs.Packets.Buffer.{Bytes}
use bitlens_rs.Packets.Varstr.{VarStrIter, next, deserialize_array_of_varsrs_iter}
use bitlens_rs.Tx.Opcodes.{
  op_0, op_pushdata1, op_pushdata2, op_pushdata4, op_1, op_16, op_equal, op_hash160, op_checksig,
  op_checksigverify, op_checkmultisig, op_checkmultisigverify, op_invalidopcode,
}

abbrev pub max_pubkeys_per_multisig : ℕ
max_pubkeys_per_multisig = 20

abbrev pub witness_v0_scripthash_size : ℕ
witness_v0_scripthash_size = 32

abbrev pub witness_v0_keyhash_size : ℕ
witness_v0_keyhash_size = 20

abbrev pub script_verify_p2sh : ℕ
script_verify_p2sh = 2 ^ 0

abbrev pub script_verify_witness : ℕ
script_verify_witness = 2 ^ 11

-- `flags & flag != 0`, for a flag of one bit.
unfoldable pub has_flag : ℕ → ℕ → Bool
has_flag flags flag = flags / flag % 2 == 1

abbrev pub add_u32 : ℕ → ℕ → ℕ
add_u32 a b = (a + b) % 2 ^ 32

-- `script[i]`, where a check of the length stands before it.
unfoldable pub byte_at : Bytes → ℕ → ℕ
byte_at [] i = 0
byte_at (b ∷ bs) zero = b
byte_at (b ∷ bs) (suc i) = byte_at bs i

-- An opcode with its operand, and the script that is left.
abbrev pub Op : Type 0
Op = Option (ℕ × Option Bytes) × Bytes

-- The operand of `nsize` bytes.
unfoldable pub take_operand : ℕ → ℕ → Bytes → Op
take_operand opcode nsize script =
    if ltb (length script) nsize
    then (none, script)
    else (some (opcode, some (take nsize script)), drop nsize script)

-- A size of `width` bytes stands before the operand.
unfoldable pub take_sized : ℕ → ℕ → Bytes → Op
take_sized opcode width script =
    if ltb (length script) width
    then (none, script)
    else take_operand opcode (from_le_bytes (take width script)) (drop width script)

unfoldable pub get_script_op : Bytes → Op
get_script_op [] = (none, [])
get_script_op (opcode ∷ script) =
    if leb opcode op_pushdata4
    then if ltb opcode op_pushdata1
      then take_operand opcode opcode script
      else if opcode == op_pushdata1
      then take_sized opcode 1 script
      else if opcode == op_pushdata2
      then take_sized opcode 2 script
      else take_sized opcode 4 script
    else (some (opcode, none), script)

-- On a `u8`.
unfoldable pub decode_op_n : ℕ → ℕ
decode_op_n opcode = if opcode == op_0 then 0 else (opcode + 256 - (op_1 - 1)) % 256

unfoldable pub encode_op_n : ℕ → ℕ
encode_op_n value = if value == 0 then op_0 else (op_1 + value + 256 - 1) % 256

-- What one opcode adds to the count.
unfoldable pub sigops_of : Bool → ℕ → ℕ → ℕ
sigops_of accurate last_opcode opcode =
    if opcode == op_checksig || opcode == op_checksigverify
    then 1
    else if opcode == op_checkmultisig || opcode == op_checkmultisigverify
    then if accurate && (leb op_1 last_opcode && leb last_opcode op_16)
      then decode_op_n last_opcode
      else max_pubkeys_per_multisig
    else 0

unfoldable pub sigop_loop : ℕ → Bool → ℕ → ℕ → Bytes → Result ℕ
sigop_loop fuel accurate last_opcode total [] = ok total
sigop_loop zero accurate last_opcode total (b ∷ bs) = stuck
sigop_loop (suc fuel) accurate last_opcode total (b ∷ bs) =
    let (op, rest) = get_script_op (b ∷ bs) in
    elim op [
      | none ↦ ok total
      | some (opcode, operand) ↦
          sigop_loop fuel accurate opcode (add_u32 total (sigops_of accurate last_opcode opcode))
            rest
    ]

unfoldable pub get_sigop_count : Bytes → Bool → Result ℕ
get_sigop_count script accurate = sigop_loop (length script) accurate op_invalidopcode 0 script

unfoldable pub is_pay_to_script_hash : Bytes → Bool
is_pay_to_script_hash script =
    length script == 23
    && (byte_at script 0 == op_hash160
        && (byte_at script 1 == 0x14 && byte_at script 22 == op_equal))

-- The loop of `get_sigop_count2`: the last operand, or nothing where it returns 0 at once.
unfoldable pub last_operand_loop : ℕ → Option Bytes → Bytes → Result (Option Bytes)
last_operand_loop fuel last_operand [] = ok last_operand
last_operand_loop zero last_operand (b ∷ bs) = stuck
last_operand_loop (suc fuel) last_operand (b ∷ bs) =
    let (op, rest) = get_script_op (b ∷ bs) in
    elim op [
      | none ↦ ok none
      | some (opcode, operand) ↦
          let more = last_operand_loop fuel operand rest in
          if ltb op_16 opcode then ok none else more
    ]

abbrev count_operand : Option Bytes → Result ℕ
count_operand none = ok 0
count_operand (some v) = get_sigop_count v true

unfoldable pub get_sigop_count2 : Bytes → Bytes → Result ℕ
get_sigop_count2 script_pub_key script_sig =
    if is_pay_to_script_hash script_pub_key
    then (last_operand_loop (length script_sig) none script_sig >>= count_operand)
    else get_sigop_count script_pub_key true

-- The sum of the second byte and 2 is a `u8`; a script of the right length has no wrap there.
unfoldable pub get_witness_program : Bytes → Option (ℕ × Bytes)
get_witness_program script =
    if ltb (length script) 4 || ltb 42 (length script)
    then none
    else if not (byte_at script 0 == op_0)
        && (ltb (byte_at script 0) op_1 || ltb op_16 (byte_at script 0))
    then none
    else if (byte_at script 1 + 2) % 256 == length script
    then some (decode_op_n (byte_at script 0), drop 2 script)
    else none

unfoldable pub push_only_loop : ℕ → Bytes → Result Bool
push_only_loop fuel [] = ok true
push_only_loop zero (b ∷ bs) = stuck
push_only_loop (suc fuel) (b ∷ bs) =
    let (op, rest) = get_script_op (b ∷ bs) in
    elim op [
      | none ↦ ok false
      | some (opcode, operand) ↦
          let more = push_only_loop fuel rest in if ltb op_16 opcode then ok false else more
    ]

unfoldable pub is_push_only : Bytes → Result Bool
is_push_only script = push_only_loop (length script) script

-- `Iterator::last`: the items up to the end of the iteration, `n` at most.
unfoldable pub last_item : ℕ → VarStrIter → Option Bytes → Result (Option Bytes)
last_item zero it last = ok last
last_item (suc n) it last = do
  step ← next it
  elim step [ none ↦ ok last | some (item, it') ↦ last_item n it' (some item) ]

unfoldable pub witness_sigops : ℕ → Bytes → Bytes → Result ℕ
witness_sigops version witprogram witness =
    if version == 0
    then if length witprogram == witness_v0_keyhash_size
      then ok 1
      else if length witprogram == witness_v0_scripthash_size
          && (not (length witness == 0) && not (byte_at witness 0 == 0))
      then elim (deserialize_array_of_varsrs_iter witness) [
        | ok it ↦
            last_item it.remaining it none
            >>= unwrap
            >>= (λ subscript. get_sigop_count subscript true)
        | _ ↦ panic
      ]
      else ok 0
    else ok 0

-- The loop over the script of a spent script hash: the last operand, whatever stands around it.
unfoldable pub last_data_loop : ℕ → Option Bytes → Bytes → Result (Option Bytes)
last_data_loop fuel last_data [] = ok last_data
last_data_loop zero last_data (b ∷ bs) = stuck
last_data_loop (suc fuel) last_data (b ∷ bs) =
    let (op, rest) = get_script_op (b ∷ bs) in
    elim op [
      | none ↦ last_data_loop fuel last_data rest
      | some (opcode, operand) ↦
          last_data_loop fuel (elim operand [ none ↦ last_data | some v ↦ some v ]) rest
    ]

abbrev program_sigops : Option (ℕ × Bytes) → Bytes → Result ℕ
program_sigops none witness = ok 0
program_sigops (some (version, program)) witness = witness_sigops version program witness

abbrev data_sigops : Option Bytes → Bytes → Result ℕ
data_sigops none witness = ok 0
data_sigops (some v) witness = program_sigops (get_witness_program v) witness

unfoldable pub nested_sigops : Bytes → Bytes → Bytes → Result ℕ
nested_sigops script script_pub_key witness = do
  push_only ← is_push_only script
  if is_pay_to_script_hash script_pub_key && push_only
      then (last_data_loop (length script) none script >>= (λ v. data_sigops v witness))
      else ok 0

unfoldable pub count_witness_sigops : Bytes → Bytes → Bytes → ℕ → Result ℕ
count_witness_sigops script script_pub_key witness flags =
    if has_flag flags script_verify_witness
    then elim (get_witness_program script_pub_key) [
      | none ↦ nested_sigops script script_pub_key witness
      | some (version, program) ↦ witness_sigops version program witness
    ]
    else ok 0
