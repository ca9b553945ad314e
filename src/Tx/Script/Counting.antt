-- ===== src/Tx/Script/Counting.antt =====
-- The number of signature operations of a script.
use bitlens_rs.Prelude.{
  ℕ, zero, suc, ◌+◌, ◌*◌, ◌^◌, ◌≤◌, ◌<◌, ◌≡◌, refl, inl, inr, Bool, true, false, [], ◌∷◌, arith,
  length, ok, Option-cases,
}
use bitlens_rs.Packets.Buffer.{Bytes}
use bitlens_rs.Tx.Opcodes.{op_invalidopcode}
use bitlens_rs.Tx.Script.{
  add_u32, get_script_op, decode_op_n, sigops_of, sigop_loop, get_sigop_count,
}
use bitlens_rs.Tx.Script.Reading.{get_script_op-shorter}

sigops_of_bound : (accurate : Bool) (last opcode : ℕ) → sigops_of accurate last opcode ≤ 20
unfolding sigops_of decode_op_n
sigops_of_bound accurate last opcode = ground arith

sigops_of_accurate : (last opcode : ℕ) → sigops_of true last opcode ≤ sigops_of false last opcode
unfolding sigops_of decode_op_n
sigops_of_accurate last opcode = ground arith

sigop_loop_bound :
    (fuel : ℕ) (accurate : Bool) (last total : ℕ) (script : Bytes)
    → length script ≤ fuel
    → (n : ℕ) × (sigop_loop fuel accurate last total script ≡ ok n)
      × (n ≤ total + 20 * length script)
unfolding sigop_loop
sigop_loop_bound fuel accurate last total [] h = (total, refl, omega arith)
sigop_loop_bound zero accurate last total (b ∷ bs) h = absurd (omega arith)
sigop_loop_bound (suc fuel) accurate last total (b ∷ bs) h =
    let rest = (get_script_op (b ∷ bs)).1 in
    let shorter = get_script_op-shorter b bs in
    elim (Option-cases (get_script_op (b ∷ bs)).0) [
      | inl no_op ↦ (total, rw (no_op, sigop_loop), omega arith)
      | inr ((opcode, operand), op) ↦
          let total' = add_u32 total (sigops_of accurate last opcode) in
          let (n, e, le) = sigop_loop_bound fuel accurate opcode total' rest (omega arith) in
          (n, rw (op, sigop_loop) e, omega (arith, sigops_of_bound accurate last opcode))
    ]

-- Counting the signature operations of a script ends on every script, with 20 at most for each byte.
pub get_sigop_count_bound :
    (script : Bytes) (accurate : Bool)
    → (n : ℕ) × (get_sigop_count script accurate ≡ ok n) × (n ≤ 20 * length script)
unfolding get_sigop_count
get_sigop_count_bound script accurate =
    let (n, e, le) =
      sigop_loop_bound (length script) accurate op_invalidopcode 0 script (omega arith) in
    (n, e, omega arith)

sigop_loop_accurate :
    (fuel last total total' : ℕ) (script : Bytes)
    → length script ≤ fuel
    → total ≤ total'
    → total' + 20 * length script < 2 ^ 32
    → (m n : ℕ) × (sigop_loop fuel true last total script ≡ ok m)
      × (sigop_loop fuel false last total' script ≡ ok n)
      × (m ≤ n)
unfolding sigop_loop
sigop_loop_accurate fuel last total total' [] h le small = (total, total', refl, refl, le)
sigop_loop_accurate zero last total total' (b ∷ bs) h le small = absurd (omega arith)
sigop_loop_accurate (suc fuel) last total total' (b ∷ bs) h le small =
    let rest = (get_script_op (b ∷ bs)).1 in
    let shorter = get_script_op-shorter b bs in
    elim (Option-cases (get_script_op (b ∷ bs)).0) [
      | inl no_op ↦ (total, total', rw (no_op, sigop_loop), rw (no_op, sigop_loop), le)
      | inr ((opcode, operand), op) ↦
          let bound = sigops_of_bound false last opcode in
          let less = sigops_of_accurate last opcode in
          let (m, n, e, e', le') =
            sigop_loop_accurate fuel opcode (add_u32 total (sigops_of true last opcode))
              (add_u32 total' (sigops_of false last opcode)) rest (omega arith) (omega arith)
              (omega arith) in
          (m, n, rw (op, sigop_loop) e, rw (op, sigop_loop) e', le')
    ]

-- On a script too short for the count to wrap, the accurate count, which reads the number of keys
-- before a multi-signature opcode, is at most the legacy count, which takes 20 keys for each.
pub get_sigop_count_accurate :
    (script : Bytes)
    → 20 * length script < 2 ^ 32
    → (m n : ℕ) × (get_sigop_count script true ≡ ok m)
      × (get_sigop_count script false ≡ ok n)
      × (m ≤ n)
unfolding get_sigop_count
get_sigop_count_accurate script small =
    sigop_loop_accurate (length script) op_invalidopcode 0 0 script (omega arith) (omega arith)
      (omega arith)
