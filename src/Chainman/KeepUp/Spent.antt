-- ===== src/Chainman/KeepUp/Spent.antt =====
-- The outputs that the transactions of a block spend, when a block comes after the first sync.
use bitlens_rs.Prelude.{
  ◌≡◌, refl, sym, ap, subst, ◌∙◌, Option, none, some, List, [], ◌∷◌, ◌++◌, append_assoc, append-nil,
  get_elem?, length, Option-cases, inl, inr, ok, >>=-eq-ok,
}
use bitlens_rs.Packets.Tx.{TxIn, TxOut, Tx}
use bitlens_rs.Chainman.Dependencies.{TxOuts, fetch_dependency, fetch_all}
use bitlens_rs.Chainman.Dependencies.Resolved.{fetch_all-cons}
use bitlens_rs.Chainman.KeepUp.Apply.{
  PendingDep, left, right, SelfTxs, pending_dep, pending_of_txins, spending_txins, pending_of_txs,
  resolve, resolve_all,
}

abbrev pub spending_all : List Tx → List TxIn
spending_all [] = []
spending_all (tx ∷ txs) = spending_txins tx ++ spending_all txs

module _ (self_txs : SelfTxs) (stored : TxOuts) where
  -- An output of the block, if the block has the transaction, or else one of the database.
  abbrev pub spent_from : Option Tx → TxIn → Option TxOut
  spent_from (some from) txin = get_elem? from.txouts txin.prevout_index
  spent_from none txin = fetch_dependency stored txin

  abbrev pub Spends : TxIn → TxOut → Type 0
  Spends txin txout = spent_from (self_txs txin.prevout_hash) txin ≡ some txout

  -- Output by output.
  abbrev pub AllSpend : List TxIn → List TxOut → Type 0
  AllSpend [] [] = Unit
  AllSpend (txin ∷ txins) (txout ∷ txouts) = Spends txin txout × AllSpend txins txouts
  AllSpend _ _ = ⊥

  fetched_lem :
      (before : List TxIn) (txin : TxIn) (after : List TxIn) (owned : List TxOut)
      → fetch_all stored (before ++ (txin ∷ after)) ≡ some owned
      → (t : TxOut) × (fetch_dependency stored txin ≡ some t)
        × (get_elem? owned (length before) ≡ some t)
  fetched_lem [] txin after owned e =
      let (t, ts, found, _, is) = fetch_all-cons stored txin after owned e in (t, found, rw is refl)
  fetched_lem (x ∷ before) txin after owned e =
      let (t, ts, _, rest, is) = fetch_all-cons stored x (before ++ (txin ∷ after)) owned e in
      let (t', found, at) = fetched_lem before txin after ts rest in (t', found, rw is at)

  -- What is left to say of one list of inputs: the tasks grow, and once all have ended, their outputs
  -- and those of the block are the outputs spent.
  abbrev Resolves : List TxIn → List PendingDep → List TxIn → List TxIn → Type 0
  Resolves txins deps before handles =
      ((ext : List TxIn) × (handles ≡ before ++ ext))
      × ((later : List TxIn) (owned : List TxOut)
          → fetch_all stored (handles ++ later) ≡ some owned
          → (txouts : List TxOut) × (resolve_all owned deps ≡ ok txouts) × AllSpend txins txouts)

  pending_dep_lem :
      (from : Option Tx) (txin : TxIn) (before handles : List TxIn) (dep : PendingDep)
      → self_txs txin.prevout_hash ≡ from
      → pending_dep from txin before ≡ ok (dep, handles)
      → ((ext : List TxIn) × (handles ≡ before ++ ext))
        × ((later : List TxIn) (owned : List TxOut)
            → fetch_all stored (handles ++ later) ≡ some owned
            → (txout : TxOut) × (resolve owned dep ≡ ok txout) × Spends txin txout)
  pending_dep_lem (some from) txin before handles dep is e =
      elim (Option-cases (get_elem? from.txouts txin.prevout_index)) [
        | inl out ↦ let e' = rw out at e in cc
        | inr (t, at) ↦
            let e' = rw at at e in
            let same : before ≡ handles = cc in
            let held : left t ≡ dep = cc in
            (
              ([], rw (append-nil before) (sym same)),
              λ later owned fetched. (t, rw (← held) refl, rw is at),
            )
      ]
  pending_dep_lem none txin before handles dep is e =
      let same : before ++ (txin ∷ []) ≡ handles = cc in
      let task : right (length before) ≡ dep = cc in
      (
        (txin ∷ [], sym same),
        λ later owned fetched.
            let all : fetch_all stored (before ++ (txin ∷ later)) ≡ some owned =
              rw (← same, append_assoc before (txin ∷ []) later) at fetched in
            let (t, found, at) = fetched_lem before txin later owned all in
            (t, rw (← task, at) refl, rw (is, found) refl),
      )

  pending_of_txins_lem :
      (txins before handles : List TxIn) (deps : List PendingDep)
      → pending_of_txins self_txs txins before ≡ ok (deps, handles)
      → Resolves txins deps before handles
  unfolding pending_of_txins resolve_all
  pending_of_txins_lem [] before handles deps e =
      let same : before ≡ handles = cc in
      let none_left : [] ≡ deps = cc in
      (
        ([], rw (append-nil before) (sym same)),
        λ later owned fetched. ([], rw (← none_left) refl, tt),
      )
  pending_of_txins_lem (txin ∷ txins) before handles deps e =
      let ((dep, h₁), e₁, f₁) =
        >>=-eq-ok (pending_dep (self_txs txin.prevout_hash) txin before) _ e in
      let ((rest, h₂), e₂, f₂) = >>=-eq-ok (pending_of_txins self_txs txins h₁) _ f₁ in
      let same : h₂ ≡ handles = cc in
      let all : dep ∷ rest ≡ deps = cc in
      let ((x₁, g₁), r₁) =
        pending_dep_lem (self_txs txin.prevout_hash) txin before h₁ dep refl e₁ in
      let ((x₂, g₂), r₂) = pending_of_txins_lem txins h₁ h₂ rest e₂ in
      (
        (x₁ ++ x₂, rw (← same, g₂, g₁) (append_assoc before x₁ x₂)),
        λ later owned fetched.
            let whole : fetch_all stored (h₂ ++ later) ≡ some owned = rw (← same) at fetched in
            let (t, at, spends) = r₁ (x₂ ++ later) owned (
              subst (λ hs. fetch_all stored hs ≡ some owned)
                (ap (λ hs. hs ++ later) g₂ ∙ append_assoc h₁ x₂ later) whole) in
            let (ts, ats, spend) = r₂ later owned whole in
            (
              t ∷ ts,
              subst (λ ds. resolve_all owned ds ≡ ok (t ∷ ts)) all (rw (at, ats) refl),
              (spends, spend),
            ),
      )

  resolve_all-append :
      (owned : List TxOut) (xs ys : List PendingDep) (cs bs : List TxOut)
      → resolve_all owned xs ≡ ok cs
      → resolve_all owned ys ≡ ok bs
      → resolve_all owned (xs ++ ys) ≡ ok (cs ++ bs)
  unfolding resolve_all
  resolve_all-append owned [] ys cs bs e f = let nil : [] ≡ cs = cc in rw (← nil) f
  resolve_all-append owned (x ∷ xs) ys cs bs e f =
      let (a, e₁, f₁) = >>=-eq-ok (resolve owned x) _ e in
      let (rest, e₂, f₂) = >>=-eq-ok (resolve_all owned xs) _ f₁ in
      let all : a ∷ rest ≡ cs = cc in
      rw (e₁, resolve_all-append owned xs ys rest bs e₂ f, ← all) refl

  AllSpend-append :
      (is js : List TxIn) (cs bs : List TxOut)
      → AllSpend is cs
      → AllSpend js bs
      → AllSpend (is ++ js) (cs ++ bs)
  AllSpend-append [] js [] bs s t = t
  AllSpend-append [] js (a ∷ cs) bs s t = absurd s
  AllSpend-append (i ∷ is) js [] bs s t = absurd s
  AllSpend-append (i ∷ is) js (a ∷ cs) bs (here, s) t = (here, AllSpend-append is js cs bs s t)

  pending_of_txs_lem :
      (txs : List Tx) (before handles : List TxIn) (deps : List PendingDep)
      → pending_of_txs self_txs txs before ≡ ok (deps, handles)
      → Resolves (spending_all txs) deps before handles
  unfolding pending_of_txs resolve_all
  pending_of_txs_lem [] before handles deps e =
      let same : before ≡ handles = cc in
      let none_left : [] ≡ deps = cc in
      (
        ([], rw (append-nil before) (sym same)),
        λ later owned fetched. ([], rw (← none_left) refl, tt),
      )
  pending_of_txs_lem (tx ∷ txs) before handles deps e =
      let ((own, h₁), e₁, f₁) =
        >>=-eq-ok (pending_of_txins self_txs (spending_txins tx) before) _ e in
      let ((rest, h₂), e₂, f₂) = >>=-eq-ok (pending_of_txs self_txs txs h₁) _ f₁ in
      let same : h₂ ≡ handles = cc in
      let all : own ++ rest ≡ deps = cc in
      let ((x₁, g₁), r₁) = pending_of_txins_lem (spending_txins tx) before h₁ own e₁ in
      let ((x₂, g₂), r₂) = pending_of_txs_lem txs h₁ h₂ rest e₂ in
      (
        (x₁ ++ x₂, rw (← same, g₂, g₁) (append_assoc before x₁ x₂)),
        λ later owned fetched.
            let whole : fetch_all stored (h₂ ++ later) ≡ some owned = rw (← same) at fetched in
            let (ts, at, spend) = r₁ (x₂ ++ later) owned (
              subst (λ hs. fetch_all stored hs ≡ some owned)
                (ap (λ hs. hs ++ later) g₂ ∙ append_assoc h₁ x₂ later) whole) in
            let (us, ats, spends) = r₂ later owned whole in
            (
              ts ++ us,
              subst (λ ds. resolve_all owned ds ≡ ok (ts ++ us)) all
                  (resolve_all-append owned own rest ts us at ats),
              AllSpend-append (spending_txins tx) (spending_all txs) ts us spend spends,
            ),
      )

  -- For any map of transactions, once all tasks have ended with an output.
  pub resolve_all-AllSpend :
      (txs : List Tx) (deps : List PendingDep) (handles : List TxIn) (owned : List TxOut)
      → pending_of_txs self_txs txs [] ≡ ok (deps, handles)
      → fetch_all stored handles ≡ some owned
      → (txouts : List TxOut) × (resolve_all owned deps ≡ ok txouts)
        × AllSpend (spending_all txs) txouts
  resolve_all-AllSpend txs deps handles owned gathered fetched =
      let (_, resolves) = pending_of_txs_lem txs [] handles deps gathered in
      resolves [] owned (rw (append-nil handles) fetched)
