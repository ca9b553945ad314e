-- ===== src/Chainman/KeepUp/Sources.antt =====
-- The outputs that a block's inputs spend, by the block's own transactions and the database.
use bitlens_rs.Prelude.{
  ◌≡◌, ◌≢◌, refl, ap, ◌∙◌, ◌⊎◌, inl, inr, true, false, none, some, List, [], ◌∷◌, ◌++◌, All,
  if◌then◌else◌, bytes_eq, bytes_eq_refl, bytes_eq→eq, Bool-cases, Option-cases, get_elem?, ok,
}
use bitlens_rs.Packets.Buffer.{Bytes}
use bitlens_rs.Packets.Tx.{TxIn, TxOut, Tx, is_coinbase}
use bitlens_rs.Chainman.Dependencies.{TxOuts, fetch_dependency, fetch_all}
use bitlens_rs.Chainman.KeepUp.Apply.{
  PendingDep, SelfTxs, insert_self_txs, spending_txins, pending_of_txs, resolve_all,
}
use bitlens_rs.Chainman.KeepUp.Spent.{spending_all, Spends, AllSpend, resolve_all-AllSpend}

-- The last transaction of a block that has the hash.
abbrev pub LastWith : List Tx → Bytes → Tx → Type 0
LastWith txs hash from =
    (pre post : List Tx) × (txs ≡ pre ++ (from ∷ post))
    × (from.hash ≡ hash)
    × All (λ tx. tx.hash ≢ hash) post

module _ (txs : List Tx) (stored : TxOuts) where
  -- The output with the input's index: of the block's own transaction with the input's hash, or, where
  -- the block has none, of what the database holds under it.
  abbrev pub IsSpent : TxIn → TxOut → Type 0
  IsSpent txin txout =
      ((from : Tx) × LastWith txs txin.prevout_hash from
        × (get_elem? from.txouts txin.prevout_index ≡ some txout))
      ⊎ (All (λ tx. tx.hash ≢ txin.prevout_hash) txs
          × ((txouts : List TxOut) × (stored txin.prevout_hash ≡ some txouts)
              × (get_elem? txouts txin.prevout_index ≡ some txout)))

  -- One output for each input of the transactions but the coinbase, in their order.
  pub data AreSpent : List Tx → List TxIn → List TxOut → Type 0 where
    no_tx : AreSpent [] [] []
    coinbase :
        {tx : Tx} {more : List Tx} {txouts : List TxOut}
        → is_coinbase tx ≡ true
        → AreSpent more [] txouts
        → AreSpent (tx ∷ more) [] txouts
    spending :
        {tx : Tx} {more : List Tx} {txouts : List TxOut}
        → is_coinbase tx ≡ false
        → AreSpent more tx.txins txouts
        → AreSpent (tx ∷ more) [] txouts
    spends :
        {more : List Tx} {txin : TxIn} {txins : List TxIn} {txout : TxOut} {txouts : List TxOut}
        → IsSpent txin txout
        → AreSpent more txins txouts
        → AreSpent more (txin ∷ txins) (txout ∷ txouts)

insert_self_txs_lem :
    (txs : List Tx) (self_txs : SelfTxs) (hash : Bytes)
    → ((from : Tx) × LastWith txs hash from × (insert_self_txs txs self_txs hash ≡ some from))
      ⊎ (All (λ tx. tx.hash ≢ hash) txs × (insert_self_txs txs self_txs hash ≡ self_txs hash))
unfolding insert_self_txs
insert_self_txs_lem [] self_txs hash = inr (tt, refl)
insert_self_txs_lem (tx ∷ txs) self_txs hash =
    elim (insert_self_txs_lem txs (λ h. if bytes_eq tx.hash h then some tx else self_txs h) hash) [
      | inl (from, (pre, post, e, same, others), is) ↦
          inl (from, (tx ∷ pre, post, ap (λ ts. tx ∷ ts) e, same, others), is)
      | inr (others, is) ↦ elim (Bool-cases (bytes_eq tx.hash hash)) [
        | inl same ↦
            inl (tx, ([], txs, refl, bytes_eq→eq tx.hash hash same, others), is ∙ rw same refl)
        | inr other ↦
            inr ((λ same. let equal = bytes_eq_refl hash in cc, others), is ∙ rw other refl)
      ]
    ]

module _ (txs : List Tx) (stored : TxOuts) where
  abbrev self_txs : SelfTxs
  self_txs = insert_self_txs txs (λ _. none)

  fetch_dependency_lem :
      (txin : TxIn) (txout : TxOut)
      → fetch_dependency stored txin ≡ some txout
      → (txouts : List TxOut) × (stored txin.prevout_hash ≡ some txouts)
        × (get_elem? txouts txin.prevout_index ≡ some txout)
  unfolding fetch_dependency
  fetch_dependency_lem txin txout e = elim (Option-cases (stored txin.prevout_hash)) [
    | inl missing ↦ let e' = rw missing at e in cc
    | inr (txouts, found) ↦ (txouts, found, rw found at e)
  ]

  Spends-IsSpent :
      (txin : TxIn) (txout : TxOut)
      → Spends self_txs stored txin txout
      → IsSpent txs stored txin txout
  Spends-IsSpent txin txout e = elim (insert_self_txs_lem txs (λ _. none) txin.prevout_hash) [
    | inl (from, last, is) ↦ inl (from, last, rw is at e)
    | inr (others, is) ↦ inr (others, fetch_dependency_lem txin txout (rw is at e))
  ]

  AllSpend-AreSpent :
      (more : List Tx) (txins : List TxIn) (txouts : List TxOut)
      → AllSpend self_txs stored (txins ++ spending_all more) txouts
      → AreSpent txs stored more txins txouts
  unfolding spending_txins
  AllSpend-AreSpent [] [] [] all = no_tx
  AllSpend-AreSpent [] [] (t ∷ txouts) all = absurd all
  AllSpend-AreSpent (tx ∷ more) [] txouts all = elim (Bool-cases (is_coinbase tx)) [
    | inl is ↦ coinbase is (AllSpend-AreSpent more [] txouts (rw is at all))
    | inr other ↦ spending other (AllSpend-AreSpent more tx.txins txouts (rw other at all))
  ]
  AllSpend-AreSpent more (txin ∷ txins) [] all = absurd all
  AllSpend-AreSpent more (txin ∷ txins) (t ∷ txouts) (here, all) =
      spends (Spends-IsSpent txin t here) (AllSpend-AreSpent more txins txouts all)

  -- When the dependencies of a block's transactions are gathered without a panic, from the map of the
  -- block's own transactions, and every task for an output of the database ends with one, no lookup among
  -- them fails. The outputs put together are, input by input of all transactions but the coinbase, those
  -- that the inputs spend: of the block's own transaction with the hash (the last one, if there are
  -- several) where there is one, and else of what the database holds under the hash.
  pub resolve_all-AreSpent :
      (deps : List PendingDep) (handles : List TxIn) (owned : List TxOut)
      → pending_of_txs (insert_self_txs txs (λ _. none)) txs [] ≡ ok (deps, handles)
      → fetch_all stored handles ≡ some owned
      → (txouts : List TxOut) × (resolve_all owned deps ≡ ok txouts)
        × AreSpent txs stored txs [] txouts
  resolve_all-AreSpent deps handles owned gathered fetched =
      let (txouts, resolved, all) =
        resolve_all-AllSpend self_txs stored txs deps handles owned gathered fetched in
      (txouts, resolved, AllSpend-AreSpent txs [] txouts all)
