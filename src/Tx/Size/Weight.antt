-- ===== src/Tx/Size/Weight.antt =====
-- The weight is that of the serialized forms.
use bitlens_rs.Prelude.{
  ℕ, ◌+◌, ◌*◌, ◌%◌, ◌^◌, ◌≡◌, refl, ap, Option, none, some, List, [], ◌∷◌, ◌++◌, arith, length,
  length-append, All, length-to_le_bytes, to_le_bytes,
}
use bitlens_rs.Packets.Buffer.{Bytes}
use bitlens_rs.Packets.Varint.{length_varint, serialize_varint}
use bitlens_rs.Packets.Varint.RoundTrip.{length-serialize_varint}
use bitlens_rs.Packets.Varstr.{serialize_varstr, length_varstr}
use bitlens_rs.Packets.Varstr.RoundTrip.{length-serialize_varstr}
use bitlens_rs.Packets.Array.{serialize_items, serialize_array}
use bitlens_rs.Packets.Tx.{
  TxIn, TxOut, Tx, serialize_txin, serialize_txout, concat, marker, witness_part, serialize,
}
use bitlens_rs.Tx.Size.{txins_size, txouts_size, sum_lengths, witness_size, calculate_tx_size_wus}

-- The hashes that the inputs refer to are arrays of 32 bytes.
abbrev pub HasHashes : List TxIn → Type 0
HasHashes txins = All (λ txin. length txin.prevout_hash ≡ 32) txins

pub length-serialize_txin :
    (txin : TxIn)
    → length txin.prevout_hash ≡ 32
    → length (serialize_txin txin)
      ≡ 40 + length_varint (length txin.sig_script) + length txin.sig_script
unfolding serialize_txin length_varstr
length-serialize_txin txin h =
    let index = to_le_bytes 4 txin.prevout_index in
    let script = (serialize_varstr txin.sig_script).0 in
    let sequence = to_le_bytes 4 txin.sequence in
    omega (
      arith,
      length-append txin.prevout_hash (index ++ (script ++ sequence)),
      length-append index (script ++ sequence),
      length-append script sequence,
      length-to_le_bytes 4 txin.prevout_index,
      length-to_le_bytes 4 txin.sequence,
      length-serialize_varstr txin.sig_script,
    )

pub length-serialize_txout :
    (txout : TxOut)
    → length (serialize_txout txout) ≡ 8 + length_varint (length txout.script) + length txout.script
unfolding serialize_txout length_varstr
length-serialize_txout txout = omega (
  arith,
  length-append (to_le_bytes 8 txout.value) (serialize_varstr txout.script).0,
  length-to_le_bytes 8 txout.value,
  length-serialize_varstr txout.script,
)

txins_size_lem :
    (txins : List TxIn)
    → HasHashes txins
    → txins_size txins ≡ 4 * length (serialize_items serialize_txin txins)
unfolding txins_size serialize_items
txins_size_lem [] h = omega arith
txins_size_lem (txin ∷ txins) (h, hs) = omega (
  arith,
  length-append (serialize_txin txin) (serialize_items serialize_txin txins),
  length-serialize_txin txin h,
  txins_size_lem txins hs,
)

txouts_size_lem :
    (txouts : List TxOut) → txouts_size txouts ≡ 4 * length (serialize_items serialize_txout txouts)
unfolding txouts_size serialize_items
txouts_size_lem [] = omega arith
txouts_size_lem (txout ∷ txouts) = omega (
  arith,
  length-append (serialize_txout txout) (serialize_items serialize_txout txouts),
  length-serialize_txout txout,
  txouts_size_lem txouts,
)

pub sum_lengths_lem : (witnesses : List Bytes) → sum_lengths witnesses ≡ length (concat witnesses)
unfolding sum_lengths concat
sum_lengths_lem [] = refl
sum_lengths_lem (w ∷ ws) = omega (arith, length-append w (concat ws), sum_lengths_lem ws)

witness_size_lem :
    (wd : Option (List Bytes)) → witness_size wd ≡ length (marker wd) + length (witness_part wd)
unfolding witness_size
witness_size_lem none = omega arith
witness_size_lem (some ws) = omega (arith, sum_lengths_lem ws)

pub length-serialize :
    (tx : Tx)
    → length (serialize tx)
      ≡ 8
        + length (marker tx.witness_data)
        + length (serialize_array serialize_txin tx.txins)
        + length (serialize_array serialize_txout tx.txouts)
        + length (witness_part tx.witness_data)
unfolding serialize
length-serialize tx =
    let v = to_le_bytes 4 tx.version in
    let l = to_le_bytes 4 tx.locktime in
    let m = marker tx.witness_data in
    let a = serialize_array serialize_txin tx.txins in
    let b = serialize_array serialize_txout tx.txouts in
    let w = witness_part tx.witness_data in
    omega (
      arith,
      length-append v (m ++ (a ++ (b ++ (w ++ l)))),
      length-append m (a ++ (b ++ (w ++ l))),
      length-append a (b ++ (w ++ l)),
      length-append b (w ++ l),
      length-append w l,
      length-to_le_bytes 4 tx.version,
      length-to_le_bytes 4 tx.locktime,
    )

-- Where the inputs refer to hashes of 32 bytes, the size in weight units is three times the length of the
-- serialized transaction without its witness data and the length with it, as a `u32`.
pub calculate_tx_size_wus_lem :
    (tx : Tx)
    → HasHashes tx.txins
    → calculate_tx_size_wus tx
      ≡ (3 * length (serialize (record tx { witness_data = none })) + length (serialize tx))
        % 2 ^ 32
unfolding calculate_tx_size_wus serialize_array
calculate_tx_size_wus_lem tx h =
    ap (λ (t : ℕ). t % 2 ^ 32)
      (omega (
        arith,
        length-serialize tx,
        length-serialize (record tx { witness_data = none }),
        witness_size_lem tx.witness_data,
        txins_size_lem tx.txins h,
        txouts_size_lem tx.txouts,
        length-append (serialize_varint (length tx.txins)).0
            (serialize_items serialize_txin tx.txins),
        length-append (serialize_varint (length tx.txouts)).0
            (serialize_items serialize_txout tx.txouts),
        length-serialize_varint (length tx.txins),
        length-serialize_varint (length tx.txouts),
      ))
