-- ===== src/Packets/Tx/Fields.antt =====
-- The inputs, outputs and witness data of a transaction are read back off the front of any input.
use bitlens_rs.Prelude.{
  ℕ, ◌+◌, ◌^◌, ◌<◌, ◌≡◌, refl, sym, List, [], ◌∷◌, ◌++◌, append_assoc, arith, length, length-append,
  All, Result, ok, add_usize, to_le_bytes, length-to_le_bytes,
}
use bitlens_rs.Util.Arena.{Arena}
use bitlens_rs.Packets.Buffer.{
  Bytes, IsSlice, get_hash-append, get_u32_le_at, get_u64_le-append, with_offset_at,
  with_offset-append,
}
use bitlens_rs.Packets.Varstr.{length_varstr, deserialize_array_of_varstr_as_varstr}
use bitlens_rs.Packets.Varstr.RoundTrip.{
  put_varstr, deserialize_varstr-serialize_varstr, length-serialize_varstr,
  deserialize_array_of_varstr-serialize_array,
}
use bitlens_rs.Packets.Array.{serialize_array}
use bitlens_rs.Packets.Array.RoundTrip.{Reads}
use bitlens_rs.Packets.Tx.{
  TxIn, TxOut, deserialize_txin, serialize_txin, deserialize_txout, serialize_txout, concat,
  deserialize_witnesses,
}

pub record IsTxIn (txin : TxIn) : Type 0 where
  pub hash_width : length txin.prevout_hash ≡ 32
  pub index_range : txin.prevout_index < 2 ^ 32
  pub sequence_range : txin.sequence < 2 ^ 32

pub record IsTxOut (txout : TxOut) : Type 0 where
  pub value_range : txout.value < 2 ^ 64

-- Inputs and outputs allocate nothing in the arena.
abbrev pub no_room {ℓ} : {T : Type ℓ} → T → Arena → Result Arena
no_room x arena = ok arena

pub txout-Reads :
    (txout : TxOut) → IsTxOut txout → Reads no_room deserialize_txout serialize_txout (λ x. x) txout
unfolding deserialize_txout serialize_txout length_varstr
txout-Reads txout h arena arena' rest fits room =
    let s = txout.script in
    let v = to_le_bytes 8 txout.value in
    let regroup = append_assoc v (put_varstr s) rest in
    let fits' : length (v ++ (put_varstr s ++ rest)) < 2 ^ 63 = rw regroup at fits in
    let sizes = length-append v (put_varstr s ++ rest) in
    let sizes' = length-append (put_varstr s) rest in
    let wide = length-to_le_bytes 8 txout.value in
    let wide' = length-serialize_varstr s in
    let end : add_usize (length_varstr s) 8 ≡ length (v ++ put_varstr s) =
      omega (arith, length-append v (put_varstr s)) in
    rw
      (
        regroup,
        get_u64_le-append [] (put_varstr s ++ rest) 0 txout.value refl (omega arith) h.value_range,
        with_offset-append v (put_varstr s ++ rest) 8 (sym wide),
        deserialize_varstr-serialize_varstr s rest (omega arith),
        end,
      )
      (ground arith)

pub txin-Reads :
    (txin : TxIn) → IsTxIn txin → Reads no_room deserialize_txin serialize_txin (λ x. x) txin
unfolding deserialize_txin serialize_txin length_varstr
txin-Reads txin h arena arena' rest fits room =
    let s = txin.sig_script in
    let hash = txin.prevout_hash in
    let index = to_le_bytes 4 txin.prevout_index in
    let seq = to_le_bytes 4 txin.sequence in
    let regroup : (hash ++ (index ++ (put_varstr s ++ seq))) ++ rest
        ≡ hash ++ (index ++ (put_varstr s ++ (seq ++ rest))) =
      simp append_assoc in
    let fits' : length (hash ++ (index ++ (put_varstr s ++ (seq ++ rest)))) < 2 ^ 63 =
      rw regroup at fits in
    let tail : Bytes = put_varstr s ++ (seq ++ rest) in
    let wide = length-to_le_bytes 4 txin.prevout_index in
    let wide' = length-to_le_bytes 4 txin.sequence in
    let wide'' = length-serialize_varstr s in
    let sizes = length-append hash (index ++ tail) in
    let sizes' = length-append index tail in
    let sizes'' = length-append (put_varstr s) (seq ++ rest) in
    let front = length-append hash index in
    let front' = length-append hash (index ++ put_varstr s) in
    let front'' = length-append index (put_varstr s) in
    let all = length-append hash (index ++ (put_varstr s ++ seq)) in
    let all' = length-append index (put_varstr s ++ seq) in
    let all'' = length-append (put_varstr s) seq in
    let n = h.hash_width in
    let at : add_usize (length_varstr s) 36 ≡ length_varstr s + 36 = omega arith in
    let end : add_usize (length_varstr s) 40 ≡ length (serialize_txin txin) = omega arith in
    let regroup_front : hash ++ (index ++ tail)
        ≡ (hash ++ (index ++ put_varstr s)) ++ (seq ++ rest) =
      simp append_assoc in
    rw
      (
        regroup,
        get_hash-append [] hash (index ++ tail) 0 refl (omega arith) n,
        get_u32_le_at hash tail 32 txin.prevout_index refl (omega arith) (omega arith)
            h.index_range,
        with_offset_at (hash ++ index) tail 36 (sym (append_assoc hash index tail)) (omega arith),
        deserialize_varstr-serialize_varstr s (seq ++ rest) (omega arith),
        at,
        get_u32_le_at (hash ++ (index ++ put_varstr s)) rest (length_varstr s + 36) txin.sequence
            regroup_front (omega arith) (omega arith) h.sequence_range,
        end,
      )
      (ground arith)

-- The witness data of an input: its components in serialized form.
pub record IsWitness (w : Bytes) : Type 0 where
  pub components : List Bytes
  pub count : length components < 2 ^ 64
  pub form : w ≡ serialize_array put_varstr components

pub deserialize_witnesses-concat :
    (ws : List Bytes) (pre rest : Bytes) (offset : ℕ)
    → All IsWitness ws
    → offset ≡ length pre
    → IsSlice (pre ++ (concat ws ++ rest))
    → deserialize_witnesses (length ws) (pre ++ (concat ws ++ rest)) offset
      ≡ ok (ws, offset + length (concat ws))
unfolding deserialize_witnesses concat
deserialize_witnesses-concat [] pre rest offset h at fits = ground arith
deserialize_witnesses-concat (w ∷ ws) pre rest offset (hw, hws) at fits =
    let tail : Bytes = concat ws ++ rest in
    let regroup : (w ++ concat ws) ++ rest ≡ w ++ tail = append_assoc w (concat ws) rest in
    let sizes = length-append pre (w ++ tail) in
    let sizes' = length-append w tail in
    let fits' : length (pre ++ (w ++ tail)) < 2 ^ 63 = rw regroup at fits in
    let end : add_usize offset (length w) ≡ offset + length w = omega arith in
    let short : length (w ++ tail) < 2 ^ 63 = omega arith in
    let read : deserialize_array_of_varstr_as_varstr (w ++ tail) ≡ ok (w, length w) = rw hw.form (
      deserialize_array_of_varstr-serialize_array hw.components tail hw.count
        (rw hw.form at short)) in
    let ih =
      deserialize_witnesses-concat ws (pre ++ w) rest (offset + length w) hws
        (omega (arith, length-append pre w)) (rw (append_assoc pre w tail) fits') in
    rw
      (
        regroup,
        with_offset-append pre (w ++ tail) offset at,
        read,
        end,
        ← append_assoc pre w tail,
        ih,
      )
      (rw (length-append w (concat ws)) (ground arith))
