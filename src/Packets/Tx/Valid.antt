-- ===== src/Packets/Tx/Valid.antt =====
-- What a transaction's fields hold, what its reader allocates, and its two hashes by their definition.
use bitlens_rs.Prelude.{
  ℕ, ◌^◌, ◌<◌, ◌≡◌, Option, none, some, List, [], ◌∷◌, Bool, true, false, if◌then◌else◌, length,
  All, Result, ok, ◌>>=◌,
}
use bitlens_rs.Util.Arena.{Arena, try_alloc_array}
use bitlens_rs.Packets.Buffer.{Bytes}
use bitlens_rs.Packets.Array.RoundTrip.{room_array}
use bitlens_rs.Packets.Tx.{Tx, Layouts, serialize}
use bitlens_rs.Packets.Tx.Fields.{IsTxIn, IsTxOut, IsWitness, no_room}

abbrev pub IsWitnessData : ℕ → Option (List Bytes) → Type 0
IsWitnessData n none = Unit {0}
IsWitnessData n (some ws) = All IsWitness ws × (length ws ≡ n)

-- What the fields of a transaction hold: integers in range, an input at least, and one witness for each
-- input if there is witness data.
pub record IsTx (tx : Tx) : Type 0 where
  pub version_range : tx.version < 2 ^ 32
  pub locktime_range : tx.locktime < 2 ^ 32
  pub txins_valid : All IsTxIn tx.txins
  pub txins_some : 0 < length tx.txins
  pub txins_count : length tx.txins < 2 ^ 64
  pub txouts_valid : All IsTxOut tx.txouts
  pub txouts_count : length tx.txouts < 2 ^ 64
  pub witnesses_valid : IsWitnessData (length tx.txins) tx.witness_data

unfoldable pub room_witness : Layouts → ℕ → Option (List Bytes) → Arena → Result Arena
room_witness layouts n none arena = ok arena
room_witness layouts n (some ws) arena =
    try_alloc_array layouts.witness n arena >>= (λ (_, a). ok a)

-- The arena after the three allocations of a transaction.
unfoldable pub room_tx : Layouts → Tx → Arena → Result Arena
room_tx layouts tx arena = do
  arena₁ ← room_array layouts.txin no_room tx.txins arena
  arena₂ ← room_array layouts.txout no_room tx.txouts arena₁
  room_witness layouts (length tx.txins) tx.witness_data arena₂

-- Each witness is one byte, the count 0 of its components.
unfoldable pub no_components : List Bytes → Bool
no_components [] = true
no_components ((count ∷ []) ∷ ws) = no_components ws
no_components _ = false

module _ (sha256 : Bytes → Bytes) where
  -- The double hash of the transaction without its witness data.
  unfoldable pub txid : Tx → Bytes
  txid tx = sha256 (sha256 (serialize (record tx { witness_data = none })))

  -- `id` unless an input has witness components, and then the double hash of all bytes.
  unfoldable pub witness_txid_of : Option (List Bytes) → Bytes → Bytes → Bytes
  witness_txid_of none id all = id
  witness_txid_of (some ws) id all = if no_components ws then id else sha256 (sha256 all)

  unfoldable pub witness_txid : Tx → Bytes
  witness_txid tx = witness_txid_of tx.witness_data (txid tx) (serialize tx)
