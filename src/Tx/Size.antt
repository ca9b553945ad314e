-- ===== src/Tx/Size.antt =====
-- src/tx/size.rs: the weight of a transaction, counted without serializing it. `usize` sums are not
-- near their end; the result is cast to `u32`. The two variants of the source, for borrowed and for
-- owned values, are the same text.
pub mod Weight
use bitlens_rs.Prelude.{ℕ, ◌+◌, ◌*◌, ◌%◌, ◌^◌, Option, none, some, List, [], ◌∷◌, length}
use bitlens_rs.Packets.Buffer.{Bytes}
use bitlens_rs.Packets.Varint.{length_varint}
use bitlens_rs.Packets.Tx.{TxIn, TxOut, Tx}

-- At four weight units for each byte.
unfoldable pub txins_size : List TxIn → ℕ
txins_size [] = 0
txins_size (txin ∷ txins) =
    (32 + 4 + 4 + length_varint (length txin.sig_script) + length txin.sig_script) * 4
    + txins_size txins

unfoldable pub txouts_size : List TxOut → ℕ
txouts_size [] = 0
txouts_size (txout ∷ txouts) =
    (8 + length_varint (length txout.script) + length txout.script) * 4 + txouts_size txouts

unfoldable pub sum_lengths : List Bytes → ℕ
sum_lengths [] = 0
sum_lengths (witness ∷ witnesses) = length witness + sum_lengths witnesses

-- Marker and flag, and the witness data, at one unit for each byte.
unfoldable pub witness_size : Option (List Bytes) → ℕ
witness_size none = 0
witness_size (some witnesses) = 2 + sum_lengths witnesses

unfoldable pub calculate_tx_size_wus : Tx → ℕ
calculate_tx_size_wus tx =
    (16
      + 16
      + 4 * length_varint (length tx.txins)
      + txins_size tx.txins
      + 4 * length_varint (length tx.txouts)
      + txouts_size tx.txouts
      + witness_size tx.witness_data)
    % 2 ^ 32
