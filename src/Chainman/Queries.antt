-- ===== src/Chainman/Queries.antt =====
-- src/chainman/mod.rs: what the HTTP handlers ask of the chain.
pub mod Addresses
use bitlens_rs.Prelude.{
  ℕ, ◌+◌, Option, none, List, [], ◌∷◌, if◌then◌else◌, Result, ok, unwrap, ◌>>=◌,
}
use bitlens_rs.Packets.Buffer.{Bytes}
use bitlens_rs.Chainman.Chain.{BlockHeaderWithNumber, Chain}

abbrev pub get_top_header_hash : Chain → Bytes
get_top_header_hash chain = chain.top_header.header.hash

abbrev pub get_top_header_number : Chain → ℕ
get_top_header_number chain = chain.top_header.number

abbrev pub get_header_by_hash : Chain → Bytes → Option BlockHeaderWithNumber
get_header_by_hash chain hash = chain.known_headers hash

abbrev pub get_hash_by_number : Chain → ℕ → Option Bytes
get_hash_by_number chain number = chain.number_to_hash number

-- Index, hash of the spending transaction, hash of its block.
unfoldable pub filter_tx_spends : Chain → List (ℕ × Bytes × Bytes) → List (ℕ × Bytes)
filter_tx_spends chain [] = []
filter_tx_spends chain ((index, hash, block_hash) ∷ spends) =
    let rest = filter_tx_spends chain spends in
    if chain.most_work_chain block_hash then (index, hash) ∷ rest else rest

-- A row of the address index; the 64 bits of the signed value are only passed on.
pub record AddressRow : Type 0 where
  pub transaction_hash : Bytes
  pub block_hash : Bytes
  pub value : ℕ

-- The two fields on the other addresses are filled in later: none and 0 here.
pub record AddressTransaction : Type 0 where
  pub transaction_hash : Bytes
  pub block_hash : Bytes
  pub block_number : ℕ
  pub timestamp : ℕ
  pub value : ℕ
  pub single_other_address : Option Bytes
  pub distinct_other_addresses : ℕ

abbrev pub populate : AddressRow → BlockHeaderWithNumber → AddressTransaction
populate item block = record {
  transaction_hash = item.transaction_hash;
  block_hash = item.block_hash;
  block_number = block.number;
  timestamp = block.header.timestamp;
  value = item.value;
  single_other_address = none;
  distinct_other_addresses = 0;
}

unfoldable pub filter_and_populate_address_txs :
    Chain → List AddressRow → Result (List AddressTransaction)
filter_and_populate_address_txs chain [] = ok []
filter_and_populate_address_txs chain (item ∷ address_txs) =
    let rest = filter_and_populate_address_txs chain address_txs in
    if chain.most_work_chain item.block_hash
    then (unwrap (chain.known_headers item.block_hash)
        >>= (λ block. rest >>= (λ populated. ok (populate item block ∷ populated))))
    else rest
