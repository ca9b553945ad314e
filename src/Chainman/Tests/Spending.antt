-- ===== src/Chainman/Tests/Spending.antt =====
-- A block of two transactions: the first spends an output of the database, the second one of the block.
use bitlens_rs.Prelude.{
  ◌≡◌, refl, ℕ, none, some, List, [], ◌∷◌, bytes_eq, if◌then◌else◌, length, ok,
}
use bitlens_rs.Packets.Buffer.{Bytes}
use bitlens_rs.Packets.Tx.{TxIn, TxOut, Tx, is_coinbase, sole_is_empty, is_empty}
use bitlens_rs.Chainman.Dependencies.{
  TxOuts, insert_transactions_from_block, is_fetched, missing_of_txins, missing_of_txs,
  fetch_dependency, fetch_all, fetch_missing_dependencies, assemble_txs,
}
use bitlens_rs.Chainman.KeepUp.Apply.{
  left, right, insert_self_txs, pending_of_txs, pending_of_txins, spending_txins, resolve_all,
}
use bitlens_rs.Chainman.KeepUp.Sources.{AreSpent, resolve_all-AreSpent}
use bitlens_rs.Chainman.Dependencies.Resolved.{Agree, spent_by_txs}
use bitlens_rs.Chainman.Dependencies.Assembled.{assemble_txs-spent}

abbrev spend : Bytes → TxIn
spend hash = record { prevout_hash = hash; prevout_index = 0; sequence = 0; sig_script = [] }

abbrev pays : Bytes → Bytes → ℕ → Tx
pays hash from value = record {
  version = 1;
  locktime = 0;
  txins = spend from ∷ [];
  txouts = record { value = value; script = [] } ∷ [];
  witness_data = none;
  hash = hash;
  witness_hash = hash;
}

abbrev txs : List Tx
txs = pays (1 ∷ []) (9 ∷ []) 60 ∷ pays (2 ∷ []) (1 ∷ []) 50 ∷ []

abbrev nothing : TxOuts
nothing hash = none

abbrev stored : TxOuts
stored hash =
    if bytes_eq hash (9 ∷ []) then some (record { value = 70; script = [] } ∷ []) else none

abbrev from_disk : List TxOut
from_disk = record { value = 70; script = [] } ∷ []

abbrev current : TxOuts
current = insert_transactions_from_block txs nothing

fetches : fetch_missing_dependencies stored current nothing txs ≡ some from_disk
unfolding fetch_missing_dependencies missing_of_txs missing_of_txins is_fetched fetch_all
    fetch_dependency insert_transactions_from_block
fetches = refl

assemble_txs-spent_example :
    Agree
      (assemble_txs current nothing from_disk txs 0)
      (spent_by_txs current nothing stored txs)
      (length from_disk)
assemble_txs-spent_example =
    assemble_txs-spent current nothing stored current txs from_disk fetches
      ((refl, tt), ((refl, tt), tt))

-- The same block, when it comes after the first sync.
gathered :
    pending_of_txs (insert_self_txs txs (λ _. none)) txs []
    ≡ ok (right 0 ∷ left (record { value = 60; script = [] }) ∷ [], spend (9 ∷ []) ∷ [])
unfolding pending_of_txs pending_of_txins spending_txins insert_self_txs is_coinbase sole_is_empty
    is_empty
gathered = refl

one_fetched : fetch_all stored (spend (9 ∷ []) ∷ []) ≡ some from_disk
unfolding fetch_all fetch_dependency
one_fetched = refl

resolve_all-AreSpent_example :
    (txouts : List TxOut) × (resolve_all from_disk
        (right 0 ∷ left (record { value = 60; script = [] }) ∷ [])
      ≡ ok txouts)
    × AreSpent txs stored txs [] txouts
resolve_all-AreSpent_example =
    resolve_all-AreSpent txs stored (right 0 ∷ left (record { value = 60; script = [] }) ∷ [])
      (spend (9 ∷ []) ∷ []) from_disk gathered one_fetched
