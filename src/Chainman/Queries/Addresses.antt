-- ===== src/Chainman/Queries/Addresses.antt =====
-- Which transactions of an address are shown.
use bitlens_rs.Prelude.{
  ◌≡◌, ◌∙◌, ap, subst, inl, inr, true, false, refl, none, some, List, [], ◌∷◌, Bool-cases, ok,
}
use bitlens_rs.Packets.Buffer.{Bytes}
use bitlens_rs.Packets.BlockHeader.{BlockHeader}
use bitlens_rs.Chainman.Chain.{BlockHeaderWithNumber, Chain}
use bitlens_rs.Chainman.Chain.Ancestors.{Known, IsChain, Ancestor}
use bitlens_rs.Chainman.Locator.Indexed.{IsIndexed, stored-Ancestor}
use bitlens_rs.Chainman.Queries.{
  AddressRow, AddressTransaction, populate, filter_and_populate_address_txs,
}

abbrev OnChain : Known → BlockHeaderWithNumber → Bytes → Type 0
OnChain known top hash = (a : BlockHeaderWithNumber) × Ancestor known top a × (a.header.hash ≡ hash)

-- What is shown of a row, with the number and the time of a block.
pub record Describes (item : AddressRow) (block : BlockHeaderWithNumber) (t : AddressTransaction)
    : Type 0 where
  pub transaction_eq : t.transaction_hash ≡ item.transaction_hash
  pub block_eq : t.block_hash ≡ item.block_hash
  pub number_eq : t.block_number ≡ block.number
  pub timestamp_eq : t.timestamp ≡ block.header.timestamp
  pub value_eq : t.value ≡ item.value
  pub no_address : t.single_other_address ≡ none
  pub no_addresses : t.distinct_other_addresses ≡ 0

-- The rows whose block is an ancestor of `top`, in their order, with that block's number and time.
pub data Shown (known : Known) (top : BlockHeaderWithNumber)
    : List AddressRow → List AddressTransaction → Type 0 where
  no_row : Shown known top [] []
  left_out :
      {item : AddressRow} {rows : List AddressRow} {shown : List AddressTransaction}
      → ¬ OnChain known top item.block_hash
      → Shown known top rows shown
      → Shown known top (item ∷ rows) shown
  shown_with :
      {item : AddressRow} {rows : List AddressRow} {shown : List AddressTransaction}
      {a : BlockHeaderWithNumber} {t : AddressTransaction}
      → Ancestor known top a
      → a.header.hash ≡ item.block_hash
      → Describes item a t
      → Shown known top rows shown
      → Shown known top (item ∷ rows) (t ∷ shown)

populate-Describes :
    (item : AddressRow) (e a : BlockHeaderWithNumber)
    → e.header ≡ a.header
    → e.number ≡ a.number
    → Describes item a (populate item e)
populate-Describes item e a header_eq number_eq = record {
  transaction_eq = refl;
  block_eq = refl;
  number_eq = number_eq;
  timestamp_eq = ap (λ (h : BlockHeader). h.timestamp) header_eq;
  value_eq = refl;
  no_address = refl;
  no_addresses = refl;
}

filter_left_out :
    (chain : Chain) (item : AddressRow) (rows : List AddressRow)
    → chain.most_work_chain item.block_hash ≡ false
    → filter_and_populate_address_txs chain (item ∷ rows)
      ≡ filter_and_populate_address_txs chain rows
unfolding filter_and_populate_address_txs
filter_left_out chain item rows off = rw off refl

filter_shown :
    (chain : Chain) (item : AddressRow) (rows : List AddressRow) (e : BlockHeaderWithNumber)
    (rest : List AddressTransaction)
    → chain.most_work_chain item.block_hash ≡ true
    → chain.known_headers item.block_hash ≡ some e
    → filter_and_populate_address_txs chain rows ≡ ok rest
    → filter_and_populate_address_txs chain (item ∷ rows) ≡ ok (populate item e ∷ rest)
unfolding filter_and_populate_address_txs
filter_shown chain item rows e rest on k run = rw (on, k, run) refl

-- On a header chain whose set and map are built, the transactions of an address are found without a
-- panic, whatever rows are given: those whose block is the top or an ancestor of it, in their order,
-- each with its own hashes and value and with the number and the time of that block, and with nothing
-- on other addresses; the others are left out.
pub filter_and_populate_address_txs_lem :
    (root : Bytes) (chain : Chain)
    → IsChain root chain
    → IsIndexed chain
    → (address_txs : List AddressRow)
    → (result : List AddressTransaction) × (filter_and_populate_address_txs chain address_txs
        ≡ ok result)
      × Shown chain.known_headers chain.top_header address_txs result
unfolding filter_and_populate_address_txs
filter_and_populate_address_txs_lem root chain c i [] = ([], refl, no_row)
filter_and_populate_address_txs_lem root chain c i (item ∷ rows) =
    let (rest, run, shown) = filter_and_populate_address_txs_lem root chain c i rows in
    let (forth, back) = i.on_chain item.block_hash in
    elim (Bool-cases (chain.most_work_chain item.block_hash)) [
      | inl on ↦
          let (a, d, same) = forth on in
          let (e, k, header_eq, number_eq) = stored-Ancestor chain a c d in
          let k' : chain.known_headers item.block_hash ≡ some e =
            subst (λ h. chain.known_headers h ≡ some e) same k in
          (
            populate item e ∷ rest,
            filter_shown chain item rows e rest on k' run,
            shown_with d same (populate-Describes item e a header_eq number_eq) shown,
          )
      | inr off ↦ (
        rest,
        filter_left_out chain item rows off ∙ run,
        left_out (λ found. cc (back found)) shown,
      )
    ]
