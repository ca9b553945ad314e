-- ===== src/Tx/Building/Pushes.antt =====
-- What is pushed on a script is read back.
use bitlens_rs.Prelude.{
  ℕ, ◌%◌, ◌^◌, ◌<◌, ◌≡◌, sym, ap, ◌∙◌, some, ◌∷◌, ◌++◌, arith, ltb, leb, if◌then◌else◌, ltb→lt,
  lt→ltb, leb→le, le→leb, Bool-cases, inl, inr, le→ltb, length, take, drop, length-append,
  take-length-append, drop-length-append, to_le_bytes, length-to_le_bytes,
  from_le_bytes-to_le_bytes,
}
use bitlens_rs.Packets.Buffer.{Bytes}
use bitlens_rs.Tx.Opcodes.{op_pushdata1, op_pushdata2, op_pushdata4}
use bitlens_rs.Tx.Script.{take_operand, take_sized, get_script_op}
use bitlens_rs.Tx.Building.{append_size, append_bytes}

take_operand_lem :
    (opcode : ℕ) (b rest : Bytes)
    → take_operand opcode (length b) (b ++ rest) ≡ (some (opcode, some b), rest)
unfolding take_operand
take_operand_lem opcode b rest = rw (
  le→ltb (length (b ++ rest)) (length b) (omega (arith, length-append b rest)),
  take-length-append b rest,
  drop-length-append b rest,
)

take_sized_lem :
    (opcode width : ℕ) (b rest : Bytes)
    → length b < 256 ^ width
    → take_sized opcode width (to_le_bytes width (length b) ++ (b ++ rest))
      ≡ (some (opcode, some b), rest)
unfolding take_sized
take_sized_lem opcode width b rest h =
    let size = to_le_bytes width (length b) in
    let wide : length size ≡ width = length-to_le_bytes width (length b) in
    let front : take width (size ++ (b ++ rest)) ≡ size =
      ap (λ (n : ℕ). take n (size ++ (b ++ rest))) (sym wide)
      ∙ take-length-append size (b ++ rest) in
    let back : drop width (size ++ (b ++ rest)) ≡ b ++ rest =
      ap (λ (n : ℕ). drop n (size ++ (b ++ rest))) (sym wide)
      ∙ drop-length-append size (b ++ rest) in
    rw
      (
        le→ltb (length (size ++ (b ++ rest))) width (omega (arith, length-append size (b ++ rest))),
        front,
        back,
        from_le_bytes-to_le_bytes width (length b) h,
      )
      (take_operand_lem opcode b rest)

-- The opcode in front of a push of `size` bytes.
abbrev pub push_opcode : ℕ → ℕ
push_opcode size =
    if ltb size op_pushdata1
    then size
    else if leb size 0xFF
    then op_pushdata1
    else if leb size 0xFFFF
    then op_pushdata2
    else op_pushdata4

get_script_op_small : (n : ℕ) (s : Bytes) → n < 76 → get_script_op (n ∷ s) ≡ take_operand n n s
unfolding get_script_op
get_script_op_small n s h = rw (le→leb n 78 (omega arith), lt→ltb n 76 h)

-- What `append_bytes` pushes on a script, fewer than 2^32 bytes, is one opcode that is read back with
-- the bytes pushed, and leaves the rest of the script as it is.
pub get_script_op-append_bytes :
    (b rest : Bytes)
    → length b < 2 ^ 32
    → get_script_op (append_bytes b ++ rest) ≡ (some (push_opcode (length b), some b), rest)
unfolding append_bytes append_size get_script_op take_sized to_le_bytes
get_script_op-append_bytes b rest h =
    let n = length b in
    let e : n % 2 ^ 32 ≡ n = omega arith in
    elim (Bool-cases (ltb n 76)) [
      | inl t1 ↦
          let small : n % 2 ^ 8 ≡ n = omega (arith, ltb→lt n 76 t1) in
          rw (e, t1, small, get_script_op_small n (b ++ rest) (ltb→lt n 76 t1))
            (take_operand_lem n b rest)
      | inr f1 ↦ elim (Bool-cases (leb n 255)) [
        | inl t2 ↦ rw (e, f1, t2) (take_sized_lem 76 1 b rest (omega (arith, leb→le n 255 t2)))
        | inr f2 ↦ elim (Bool-cases (leb n 65535)) [
          | inl t3 ↦
              let wide : n % 2 ^ 16 ≡ n = omega (arith, leb→le n 65535 t3) in
              rw (e, f1, f2, t3, wide)
                (take_sized_lem 77 2 b rest (omega (arith, leb→le n 65535 t3)))
          | inr f3 ↦ rw (e, f1, f2, f3) (take_sized_lem 78 4 b rest (omega arith))
        ]
      ]
    ]
