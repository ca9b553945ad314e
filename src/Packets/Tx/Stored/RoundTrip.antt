-- ===== src/Packets/Tx/Stored/RoundTrip.antt =====
-- Reading a stored transaction back, the size announced for it, and its computed witness hash.
use bitlens_rs.Prelude.{
  false, ◌==◌, ℕ, ◌+◌, ◌*◌, ◌^◌, ◌<◌, ◌≡◌, refl, ◌∙◌, Option, none, some, List, [], ◌∷◌, ◌++◌,
  append_assoc, arith, length, length-append, All, ok, add_usize, to_le_bytes, length-to_le_bytes,
  Option-cases, inl, inr,
}
use bitlens_rs.Packets.Buffer.{Bytes, IsSlice, empty_hash, with_offset_at, get_u32_le_at}
use bitlens_rs.Packets.Varint.{serialize_varint, length_varint}
use bitlens_rs.Packets.Varint.RoundTrip.{length-serialize_varint}
use bitlens_rs.Packets.Array.{serialize_array, serialize_items}
use bitlens_rs.Packets.Tx.{
  TxIn, Tx, deserialize_txin_owned, serialize_txin, concat, marker, witness_part, serialize,
}
use bitlens_rs.Packets.Tx.Fields.{IsTxIn, deserialize_witnesses-concat}
use bitlens_rs.Packets.Tx.Hashes.{is_some}
use bitlens_rs.Packets.Tx.Valid.{
  IsTx, IsWitnessData, no_components, txid, witness_txid_of, witness_txid,
}
use bitlens_rs.Packets.Tx.RoundTrip.{flag_lem, start_lem, non_empty_of_length}
use bitlens_rs.Packets.Tx.Stored.{
  txins_length, witnesses_length, serialized_without_txouts_size, serialize_without_txouts,
  owned_witnesses, deserialize_without_txouts, all_single_owned, all_txins_empty_owned,
  computed_hash, compute_witness_hash,
}
use bitlens_rs.Packets.Tx.Stored.Reading.{
  ReadsOwned, txin-ReadsOwned, deserialize_array_owned-serialize_array,
}
use bitlens_rs.Tx.Size.Weight.{length-serialize_txin}

All-ReadsOwned :
    (xs : List TxIn) → All IsTxIn xs → All (ReadsOwned deserialize_txin_owned serialize_txin) xs
All-ReadsOwned [] h = tt
All-ReadsOwned (x ∷ xs) (hx, hxs) = (txin-ReadsOwned x hx, All-ReadsOwned xs hxs)

owned_witnesses_lem :
    (n : ℕ) (wd : Option (List Bytes)) (pre rest buffer : Bytes) (offset : ℕ)
    → buffer ≡ pre ++ (witness_part wd ++ rest)
    → IsWitnessData n wd
    → offset ≡ length pre
    → IsSlice buffer
    → owned_witnesses (is_some wd) n buffer offset ≡ ok (wd, offset + length (witness_part wd))
unfolding owned_witnesses
owned_witnesses_lem n none pre rest buffer offset e h at fits = ground arith
owned_witnesses_lem n (some ws) pre rest buffer offset e (hs, count) at fits =
    rw (← count, e, deserialize_witnesses-concat ws pre rest offset hs at (rw e at fits)) refl

-- The parts of a stored transaction, with what follows it.
regroup :
    (tx : Tx) (rest : Bytes)
    → serialize_without_txouts tx ++ rest
      ≡ to_le_bytes 4 tx.version
        ++ (marker tx.witness_data
            ++ (serialize_array serialize_txin tx.txins
                ++ (witness_part tx.witness_data ++ (to_le_bytes 4 tx.locktime ++ rest))))
unfolding serialize_without_txouts serialize_array
regroup tx rest = simp append_assoc

-- The parts have the length of the whole.
length-serialize_without_txouts :
    (tx : Tx)
    → length (serialize_without_txouts tx)
      ≡ 8
        + length (marker tx.witness_data)
        + length (serialize_array serialize_txin tx.txins)
        + length (witness_part tx.witness_data)
unfolding serialize_without_txouts serialize_array
length-serialize_without_txouts tx =
    let v = to_le_bytes 4 tx.version in
    let l = to_le_bytes 4 tx.locktime in
    let m = marker tx.witness_data in
    let c = (serialize_varint (length tx.txins)).0 in
    let a = serialize_items serialize_txin tx.txins in
    let w = witness_part tx.witness_data in
    omega (
      arith,
      length-append v (m ++ (c ++ (a ++ (w ++ l)))),
      length-append m (c ++ (a ++ (w ++ l))),
      length-append c (a ++ (w ++ l)),
      length-append a (w ++ l),
      length-append w l,
      length-append c a,
      length-to_le_bytes 4 tx.version,
      length-to_le_bytes 4 tx.locktime,
    )

-- A transaction that is stored without its outputs is read back off the front of any slice, if its
-- fields are in range and its inputs fit in memory: all fields are the same but the outputs, which are
-- none, the hash, which is the one given, and the witness hash, which is zero.
pub deserialize_without_txouts-serialize_without_txouts :
    (size : ℕ) (tx : Tx) (rest hash : Bytes)
    → IsTx tx
    → size * length tx.txins < 2 ^ 63
    → IsSlice (serialize_without_txouts tx ++ rest)
    → deserialize_without_txouts size (serialize_without_txouts tx ++ rest) hash
      ≡ ok (
        record tx { txouts = []; hash = hash; witness_hash = empty_hash },
        length (serialize_without_txouts tx),
      )
unfolding deserialize_without_txouts
deserialize_without_txouts-serialize_without_txouts size tx rest hash h room fits =
    let buffer = serialize_without_txouts tx ++ rest in
    let parts = regroup tx rest in
    let wide = length-serialize_without_txouts tx in
    let total = length-append (serialize_without_txouts tx) rest in
    let v = to_le_bytes 4 tx.version in
    let l = to_le_bytes 4 tx.locktime in
    let wd = tx.witness_data in
    let m = marker wd in
    let a = serialize_array serialize_txin tx.txins in
    let w = witness_part wd in
    let tail₂ : Bytes = l ++ rest in
    let tail₁ : Bytes = w ++ tail₂ in
    let wide_v = length-to_le_bytes 4 tx.version in
    let wide_l = length-to_le_bytes 4 tx.locktime in
    let n₁ = length-append a tail₁ in
    let n₂ = length-append w tail₂ in
    let n₃ = length-append l rest in
    let (flag, is_flag, tells) =
      flag_lem wd tx.txins v tail₁ buffer parts wide_v h.txins_some (omega arith) in
    let read =
      deserialize_array_owned-serialize_array deserialize_txin_owned serialize_txin size tx.txins
        tail₁ h.txins_count room (All-ReadsOwned tx.txins h.txins_valid) (omega arith) in
    let s₁ : add_usize (4 + length m) (length a) ≡ 4 + length m + length a = omega arith in
    let at₂ : ℕ = 4 + length m + length a in
    let at₃ : ℕ = at₂ + length w in
    let end : add_usize at₃ 4 ≡ length (serialize_without_txouts tx) = omega arith in
    rw (
      get_u32_le_at [] (m ++ (a ++ tail₁)) 0 tx.version parts refl (omega arith) h.version_range,
      is_flag,
      tells,
      start_lem wd,
      with_offset_at (v ++ m) (a ++ tail₁) (4 + length m) (parts ∙ simp append_assoc)
          (omega (arith, length-append v m)),
      read,
      non_empty_of_length tx.txins h.txins_some,
      s₁,
      owned_witnesses_lem (length tx.txins) wd (v ++ (m ++ a)) tail₂ buffer at₂
          (parts ∙ simp append_assoc) h.witnesses_valid
          (omega (arith, length-append v (m ++ a), length-append m a)) fits,
      get_u32_le_at (v ++ (m ++ (a ++ w))) rest at₃ tx.locktime (parts ∙ simp append_assoc)
          (omega
            (arith, length-append v (m ++ (a ++ w)), length-append m (a ++ w), length-append a w))
          (omega arith) h.locktime_range,
      end,
    )

txins_length_lem :
    (txins : List TxIn)
    → All IsTxIn txins
    → txins_length txins ≡ length (serialize_items serialize_txin txins)
unfolding txins_length serialize_items
txins_length_lem [] h = refl
txins_length_lem (txin ∷ txins) (h, hs) = omega (
  arith,
  length-append (serialize_txin txin) (serialize_items serialize_txin txins),
  length-serialize_txin txin h.hash_width,
  txins_length_lem txins hs,
)

witnesses_length_lem : (ws : List Bytes) → witnesses_length ws ≡ length (concat ws)
unfolding witnesses_length concat
witnesses_length_lem [] = refl
witnesses_length_lem (w ∷ ws) = omega (arith, length-append w (concat ws), witnesses_length_lem ws)

-- The size that is announced for a stored transaction is the number of bytes that are written for it,
-- if its inputs' fields are in range.
pub serialized_without_txouts_size_lem :
    (tx : Tx)
    → All IsTxIn tx.txins
    → serialized_without_txouts_size tx ≡ length (serialize_without_txouts tx)
unfolding serialized_without_txouts_size
serialized_without_txouts_size_lem tx h =
    let count = (serialize_varint (length tx.txins)).0 in
    let array : length (serialize_array serialize_txin tx.txins)
        ≡ length_varint (length tx.txins) + txins_length tx.txins =
      unfold serialize_array in
      omega (
        arith,
        length-append count (serialize_items serialize_txin tx.txins),
        length-serialize_varint (length tx.txins),
        txins_length_lem tx.txins h,
      ) in
    let all = length-serialize_without_txouts tx in
    elim (Option-cases tx.witness_data) [
      | inl e ↦ let all' = rw e at all in rw e (omega arith)
      | inr (ws, e) ↦ let all' = rw e at all in rw e (omega (arith, witnesses_length_lem ws))
    ]

all_single_owned_lem : (ws : List Bytes) → all_single_owned ws ≡ no_components ws
unfolding all_single_owned no_components
all_single_owned_lem [] = refl
all_single_owned_lem ([] ∷ ws) = refl
all_single_owned_lem ((count ∷ []) ∷ ws) = all_single_owned_lem ws
all_single_owned_lem ((b ∷ c ∷ bs) ∷ ws) =
    let far : (length (b ∷ c ∷ bs) == 1) ≡ false = ground arith in rw far refl

computed_hash_lem :
    (sha256 : Bytes → Bytes) (tx : Tx) (wd : Option (List Bytes)) (n : ℕ)
    → 0 < n
    → IsWitnessData n wd
    → computed_hash sha256 tx wd ≡ ok (witness_txid_of sha256 wd tx.hash (serialize tx))
unfolding computed_hash witness_txid_of all_txins_empty_owned
computed_hash_lem sha256 tx none n hn h = refl
computed_hash_lem sha256 tx (some []) n hn (h, count) = absurd (omega arith)
computed_hash_lem sha256 tx (some (w ∷ ws)) n hn h = rw (all_single_owned_lem (w ∷ ws)) refl

-- The witness hash that is computed for a transaction with its hash, if its fields are in range.
pub compute_witness_hash_lem :
    (sha256 : Bytes → Bytes) (tx : Tx)
    → IsTx tx
    → tx.hash ≡ txid sha256 tx
    → compute_witness_hash sha256 tx ≡ ok (record tx { witness_hash = witness_txid sha256 tx })
unfolding compute_witness_hash witness_txid txid witness_txid_of serialize
compute_witness_hash_lem sha256 tx h e = rw (
  computed_hash_lem sha256 tx tx.witness_data (length tx.txins) h.txins_some h.witnesses_valid,
  e,
)
