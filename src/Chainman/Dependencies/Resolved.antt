-- ===== src/Chainman/Dependencies/Resolved.antt =====
-- Each input gets the output that it spends.
use bitlens_rs.Prelude.{
  ℕ, ◌≡◌, refl, ap, ◌∙◌, ◌⊎◌, Option, none, some, List, [], ◌∷◌, ◌++◌, bytes_eq, if◌then◌else◌,
  Result, ok, panic,
}
use bitlens_rs.Packets.Buffer.{empty_hash}
use bitlens_rs.Packets.Tx.{TxIn, TxOut, Tx}
use bitlens_rs.Chainman.Dependencies.{TxOuts, pick, fetch_dependency, with_rest, fetch_all}

abbrev pub first_known : Option (List TxOut) → Option (List TxOut) → Option (List TxOut)
first_known none other = other
first_known (some txouts) other = some txouts

abbrev pub alone : Option TxOut → Option (List TxOut)
alone none = none
alone (some txout) = some (txout ∷ [])

abbrev pub joined : Option (List TxOut) → Option (List TxOut) → Option (List TxOut)
joined (some xs) (some ys) = some (xs ++ ys)
joined _ _ = none

abbrev pub consed : Option (List TxOut) → Option (List (List TxOut)) → Option (List (List TxOut))
consed (some xs) (some ys) = some (xs ∷ ys)
consed _ _ = none

-- The outputs that inputs spend: those of the first of the three places that knows the transaction. An
-- input with an empty hash spends none.
module _ (current previous stored : TxOuts) where
  unfoldable pub spent_by_txin : TxIn → Option (List TxOut)
  spent_by_txin txin =
      let hash = txin.prevout_hash in
      if bytes_eq hash empty_hash
      then some []
      else alone (
          pick stored (first_known (current hash) (first_known (previous hash) (stored hash)))
            txin.prevout_index)

  unfoldable pub spent_by_txins : List TxIn → Option (List TxOut)
  spent_by_txins [] = some []
  spent_by_txins (txin ∷ txins) = joined (spent_by_txin txin) (spent_by_txins txins)

  unfoldable pub spent_by_txs : List Tx → Option (List (List TxOut))
  spent_by_txs [] = some []
  spent_by_txs (tx ∷ txs) = consed (spent_by_txins tx.txins) (spent_by_txs txs)

-- The code and its description: the value that both find, with the index after it, or a panic where
-- nothing is found.
abbrev pub Agree {ℓ} : {A : Type ℓ} → Result (A × ℕ) → Option A → ℕ → Type ℓ
Agree {A = A} result found end =
    ((x : A) × (result ≡ ok (x, end)) × (found ≡ some x)) ⊎ ((result ≡ panic) × (found ≡ none))

module _ (stored : TxOuts) where
  with_rest-some :
      (x : Option TxOut) (xs : Option (List TxOut)) (d : List TxOut)
      → with_rest stored x xs ≡ some d
      → (t : TxOut) × (ts : List TxOut) × (x ≡ some t) × (xs ≡ some ts) × (d ≡ t ∷ ts)
  with_rest-some none xs d e = cc
  with_rest-some (some t) none d e = cc
  with_rest-some (some t) (some ts) d e = (t, ts, refl, refl, cc)

  pub fetch_all-cons :
      (x : TxIn) (xs : List TxIn) (d : List TxOut)
      → fetch_all stored (x ∷ xs) ≡ some d
      → (t : TxOut) × (ts : List TxOut) × (fetch_dependency stored x ≡ some t)
        × (fetch_all stored xs ≡ some ts)
        × (d ≡ t ∷ ts)
  unfolding fetch_all
  fetch_all-cons x xs d e = with_rest-some (fetch_dependency stored x) (fetch_all stored xs) d e

  pub fetch_all-append :
      (xs ys : List TxIn) (d : List TxOut)
      → fetch_all stored (xs ++ ys) ≡ some d
      → (a b : List TxOut) × (fetch_all stored xs ≡ some a)
        × (fetch_all stored ys ≡ some b)
        × (d ≡ a ++ b)
  unfolding fetch_all
  fetch_all-append [] ys d e = ([], d, refl, e, refl)
  fetch_all-append (x ∷ xs) ys d e =
      let (t, ts, found, rest, is) =
        with_rest-some (fetch_dependency stored x) (fetch_all stored (xs ++ ys)) d e in
      let (a, b, ea, eb, eab) = fetch_all-append xs ys ts rest in
      (t ∷ a, b, rw (found, ea) refl, eb, is ∙ ap (λ r. t ∷ r) eab)
