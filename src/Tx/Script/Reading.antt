-- ===== src/Tx/Script/Reading.antt =====
-- Reading a script: every opcode takes a byte at least, so a loop over a script ends, and the loops
-- that only test or collect end with an answer on every script.
use bitlens_rs.Prelude.{
  ℕ, zero, suc, ◌≤◌, ◌≡◌, refl, inl, inr, Bool, true, false, Option, none, some, [], ◌∷◌, arith,
  ltb, length, take, drop, length-drop, ok, Bool-cases, Option-cases, from_le_bytes,
}
use bitlens_rs.Packets.Buffer.{Bytes}
use bitlens_rs.Tx.Script.{
  take_operand, take_sized, get_script_op, push_only_loop, is_push_only, last_operand_loop,
  last_data_loop,
}

take_operand-le :
    (opcode n : ℕ) (script : Bytes) → length (take_operand opcode n script).1 ≤ length script
unfolding take_operand
take_operand-le opcode n script = ground (arith, length-drop n script)

take_sized-le :
    (opcode width : ℕ) (script : Bytes) → length (take_sized opcode width script).1 ≤ length script
unfolding take_sized
take_sized-le opcode width script = ground (
  arith,
  length-drop width script,
  take_operand-le opcode (from_le_bytes (take width script)) (drop width script),
)

-- What is left behind an opcode is shorter than the script.
pub get_script_op-shorter : (b : ℕ) (bs : Bytes) → length (get_script_op (b ∷ bs)).1 ≤ length bs
unfolding get_script_op
get_script_op-shorter b bs = ground (
  arith,
  take_operand-le b b bs,
  take_sized-le b 1 bs,
  take_sized-le b 2 bs,
  take_sized-le b 4 bs,
)

push_only_loop_total :
    (fuel : ℕ) (script : Bytes)
    → length script ≤ fuel
    → (r : Bool) × (push_only_loop fuel script ≡ ok r)
unfolding push_only_loop
push_only_loop_total fuel [] h = (true, refl)
push_only_loop_total zero (b ∷ bs) h = absurd (omega arith)
push_only_loop_total (suc fuel) (b ∷ bs) h =
    let rest = (get_script_op (b ∷ bs)).1 in
    let (r, e) = push_only_loop_total fuel rest (omega (arith, get_script_op-shorter b bs)) in
    elim (Option-cases (get_script_op (b ∷ bs)).0) [
      | inl no_op ↦ (false, rw (no_op, push_only_loop))
      | inr ((opcode, operand), op) ↦ elim (Bool-cases (ltb 0x60 opcode)) [
        | inl big ↦ (false, rw (op, push_only_loop, big))
        | inr small ↦ (r, rw (op, push_only_loop, small) e)
      ]
    ]

-- The test for a script of pushes alone ends with an answer on every script.
pub is_push_only_total : (script : Bytes) → (r : Bool) × (is_push_only script ≡ ok r)
unfolding is_push_only
is_push_only_total script = push_only_loop_total (length script) script (omega arith)

pub last_operand_loop_total :
    (fuel : ℕ) (last : Option Bytes) (script : Bytes)
    → length script ≤ fuel
    → (r : Option Bytes) × (last_operand_loop fuel last script ≡ ok r)
unfolding last_operand_loop
last_operand_loop_total fuel last [] h = (last, refl)
last_operand_loop_total zero last (b ∷ bs) h = absurd (omega arith)
last_operand_loop_total (suc fuel) last (b ∷ bs) h =
    let rest = (get_script_op (b ∷ bs)).1 in
    let shorter = get_script_op-shorter b bs in
    elim (Option-cases (get_script_op (b ∷ bs)).0) [
      | inl no_op ↦ (none, rw (no_op, last_operand_loop))
      | inr ((opcode, operand), op) ↦
          let (r, e) = last_operand_loop_total fuel operand rest (omega arith) in
          elim (Bool-cases (ltb 0x60 opcode)) [
            | inl big ↦ (none, rw (op, last_operand_loop, big))
            | inr small ↦ (r, rw (op, last_operand_loop, small) e)
          ]
    ]

-- The loop over the script of a spent script hash goes on behind an opcode that cannot be read, and
-- still ends, since each round takes a byte.
pub last_data_loop_total :
    (fuel : ℕ) (last : Option Bytes) (script : Bytes)
    → length script ≤ fuel
    → (r : Option Bytes) × (last_data_loop fuel last script ≡ ok r)
unfolding last_data_loop
last_data_loop_total fuel last [] h = (last, refl)
last_data_loop_total zero last (b ∷ bs) h = absurd (omega arith)
last_data_loop_total (suc fuel) last (b ∷ bs) h =
    let rest = (get_script_op (b ∷ bs)).1 in
    let shorter = get_script_op-shorter b bs in
    elim (Option-cases (get_script_op (b ∷ bs)).0) [
      | inl no_op ↦
          let (r, e) = last_data_loop_total fuel last rest (omega arith) in
          (r, rw (no_op, last_data_loop) e)
      | inr ((opcode, operand), op) ↦
          let (r, e) =
            last_data_loop_total fuel (elim operand [ none ↦ last | some v ↦ some v ]) rest
              (omega arith) in
          (r, rw (op, last_data_loop) e)
    ]
