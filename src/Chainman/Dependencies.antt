-- ===== src/Chainman/Dependencies.antt =====
-- src/chainman/blocksync.rs: the outputs that the transactions of a block spend, from the blocks of the
-- current batch, from the batch before it, or from the database. A map of outputs is the function of its
-- lookups; the arena that the outputs are copied to has room for them.
pub mod Resolved
pub mod Assembled
use bitlens_rs.Prelude.{
  ℕ, ◌+◌, Bool, true, false, Option, none, some, List, [], ◌∷◌, ◌++◌, bytes_eq, if◌then◌else◌,
  get_elem?, Result, ok, unwrap, ◌>>=◌,
}
use bitlens_rs.Packets.Buffer.{Bytes, empty_hash}
use bitlens_rs.Packets.Tx.{TxIn, TxOut, Tx}

abbrev pub TxOuts : Type 0
TxOuts = Bytes → Option (List TxOut)

abbrev pub insert_txouts : Bytes → List TxOut → TxOuts → TxOuts
insert_txouts hash txouts known h = if bytes_eq hash h then some txouts else known h

-- The block's outputs can be spent by the blocks after it at once.
unfoldable pub insert_transactions_from_block : List Tx → TxOuts → TxOuts
insert_transactions_from_block [] txouts = txouts
insert_transactions_from_block (tx ∷ txs) txouts =
    insert_transactions_from_block txs (insert_txouts tx.hash tx.txouts txouts)

abbrev pub is_known : Option (List TxOut) → Bool
is_known none = false
is_known (some txouts) = true

-- The outputs that are asked of the database, in the order in which their tasks are started.
module _ (current_txouts previous_txouts : TxOuts) where
  unfoldable pub is_fetched : TxIn → Bool
  is_fetched txin =
      if bytes_eq txin.prevout_hash empty_hash
      then false
      else if is_known (current_txouts txin.prevout_hash)
      then false
      else if is_known (previous_txouts txin.prevout_hash)
      then false
      else true

  unfoldable pub missing_of_txins : List TxIn → List TxIn
  missing_of_txins [] = []
  missing_of_txins (txin ∷ txins) =
      let rest = missing_of_txins txins in if is_fetched txin then txin ∷ rest else rest

  unfoldable pub missing_of_txs : List Tx → List TxIn
  missing_of_txs [] = []
  missing_of_txs (tx ∷ txs) = missing_of_txins tx.txins ++ missing_of_txs txs

-- `get_transaction_outputs` of the database is the parameter `stored`; a task that finds nothing
-- panics, and then all are given up.
module _ (stored : TxOuts) where
  abbrev pub pick : Option (List TxOut) → ℕ → Option TxOut
  pick none index = none
  pick (some txouts) index = get_elem? txouts index

  unfoldable pub fetch_dependency : TxIn → Option TxOut
  fetch_dependency txin = pick (stored txin.prevout_hash) txin.prevout_index

  abbrev pub with_rest : Option TxOut → Option (List TxOut) → Option (List TxOut)
  with_rest (some txout) (some txouts) = some (txout ∷ txouts)
  with_rest _ _ = none

  -- Each task fills its own slot, so that their order does not matter.
  unfoldable pub fetch_all : List TxIn → Option (List TxOut)
  fetch_all [] = some []
  fetch_all (txin ∷ txins) = with_rest (fetch_dependency txin) (fetch_all txins)

  unfoldable pub fetch_missing_dependencies : TxOuts → TxOuts → List Tx → Option (List TxOut)
  fetch_missing_dependencies current_txouts previous_txouts txs =
      fetch_all (missing_of_txs current_txouts previous_txouts txs)

-- What `process_block` puts together of them: the dependencies of each transaction.
module _ (current_txouts previous_txouts : TxOuts) (deps_from_disk : List TxOut) where
  -- One input: its output, if it has one, and the next index into the outputs from the database.
  unfoldable pub assemble_txin : TxIn → ℕ → Result (List TxOut × ℕ)
  assemble_txin txin index =
      if bytes_eq txin.prevout_hash empty_hash
      then ok ([], index)
      else elim (current_txouts txin.prevout_hash) [
        | some txouts ↦ unwrap (get_elem? txouts txin.prevout_index) >>= λ p. ok (p ∷ [], index)
        | none ↦ elim (previous_txouts txin.prevout_hash) [
          | some txouts ↦ unwrap (get_elem? txouts txin.prevout_index) >>= λ p. ok (p ∷ [], index)
          | none ↦ unwrap (get_elem? deps_from_disk index) >>= λ dep. ok (dep ∷ [], index + 1)
        ]
      ]

  unfoldable pub assemble_txins : List TxIn → ℕ → Result (List TxOut × ℕ)
  assemble_txins [] index = ok ([], index)
  assemble_txins (txin ∷ txins) index = do
    (dep, next) ← assemble_txin txin index
    (deps, end) ← assemble_txins txins next
    ok (dep ++ deps, end)

  unfoldable pub assemble_txs : List Tx → ℕ → Result (List (List TxOut) × ℕ)
  assemble_txs [] index = ok ([], index)
  assemble_txs (tx ∷ txs) index = do
    (deps, next) ← assemble_txins tx.txins index
    (all, end) ← assemble_txs txs next
    ok (deps ∷ all, end)
