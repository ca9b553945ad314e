-- ===== src/Chainman/Tests/Syncing.antt =====
-- Marking, asking for headers and answering, on the small header chain.
use bitlens_rs.Prelude.{
  ◌≡◌, refl, ◌⊎◌, false, none, some, List, [], ◌∷◌, ◌++◌, arith, All, ok, ◌>>=◌, length,
}
use bitlens_rs.Util.U256.Reference.{reference}
use bitlens_rs.Packets.Buffer.{Bytes, empty_hash}
use bitlens_rs.Chainman.Queries.{AddressRow, AddressTransaction, filter_and_populate_address_txs}
use bitlens_rs.Chainman.Queries.Addresses.{Shown, filter_and_populate_address_txs_lem}
use bitlens_rs.Chainman.Chain.{
  BlockHeaderWithNumber, Chain, insert_hash, insert_number, add_to_set, update_most_work_chain,
}
use bitlens_rs.Chainman.Chain.Ancestors.{IsChain, Ancestor}
use bitlens_rs.Chainman.Walks.{
  calculate_downloaded_blocks, hashset_loop, generate_top_work_chain_hashset,
}
use bitlens_rs.Chainman.Headers.{State}
use bitlens_rs.Chainman.Downloads.{mark_as_downloaded}
use bitlens_rs.Chainman.Downloads.Updates.{Updates}
use bitlens_rs.Chainman.Downloads.Marked.{IsFetched, mark_as_downloaded_lem}
use bitlens_rs.Chainman.Locator.{build_get_headers, respond_to_getheaders}
use bitlens_rs.Chainman.Locator.Descent.{Descends, build_get_headers-Descends}
use bitlens_rs.Chainman.Locator.Indexed.{IsIndexed, Sent, generate-IsIndexed}
use bitlens_rs.Chainman.Locator.Answer.{respond_to_getheaders_lem}
use bitlens_rs.Chainman.Runs.{start, then_step, applies, updates, Reach-IsChain}
use bitlens_rs.Chainman.Runs.Kept.{Keeps}
use bitlens_rs.Chainman.Tests.{
  plain_header, left, known₂, known₂-IsRooted, forked, forked-IsChain, before, after, answer,
  validate_and_apply_header_inner_run,
}

abbrev as_text : Bytes → Bytes
as_text b = b

mark_as_downloaded_lem_example :
    (s' : State) × (mark_as_downloaded as_text ((2 ∷ []) ∷ []) ((7 ∷ []) ∷ []) before ≡ ok s')
    × IsChain (1 ∷ []) s'.chain
    × Updates known₂ s'.chain.known_headers
    × All (IsFetched s'.chain.known_headers) ((2 ∷ []) ∷ [])
    × (calculate_downloaded_blocks s'.chain ≡ ok s'.downloaded_blocks)
unfolding insert_hash
mark_as_downloaded_lem_example =
    mark_as_downloaded_lem as_text (1 ∷ []) ((2 ∷ []) ∷ []) ((7 ∷ []) ∷ []) before forked-IsChain
      ((left, refl), tt) (omega arith)

build_get_headers-Descends_example :
    (block_locator : List Bytes) × (build_get_headers forked
      ≡ ok (record { version = 70016; block_locator = block_locator; hash_stop = empty_hash }))
    × Descends known₂ 0 left block_locator
build_get_headers-Descends_example =
    build_get_headers-Descends (1 ∷ []) forked forked-IsChain known₂-IsRooted

abbrev indexed : Chain
indexed = record forked {
  most_work_chain = add_to_set (1 ∷ []) (add_to_set (2 ∷ []) (λ _. false));
  number_to_hash = insert_number 0 (1 ∷ []) (insert_number 1 (2 ∷ []) (λ _. none));
}

indexed_run : generate_top_work_chain_hashset forked ≡ ok indexed
unfolding generate_top_work_chain_hashset hashset_loop insert_hash
indexed_run = refl

indexed-IsChain : IsChain (1 ∷ []) indexed
indexed-IsChain =
    let c = forked-IsChain in
    record {
      tree = c.tree;
      top = c.top;
      top_known = c.top_known;
      top_same = c.top_same;
      best = c.best;
    }

indexed-IsIndexed : IsIndexed indexed
indexed-IsIndexed =
    generate-IsIndexed (1 ∷ []) forked indexed forked-IsChain known₂-IsRooted indexed_run

abbrev locator : List Bytes
locator = (9 ∷ []) ∷ (1 ∷ []) ∷ []

respond_to_getheaders_lem_example :
    (All (λ h. indexed.most_work_chain h ≡ false) locator
      × (respond_to_getheaders indexed locator empty_hash ≡ ok none))
    ⊎ ((pre post : List Bytes) × (m : BlockHeaderWithNumber) × (locator
          ≡ pre ++ (m.header.hash ∷ post))
        × All (λ h. indexed.most_work_chain h ≡ false) pre
        × Ancestor known₂ left m
        × Sent indexed m empty_hash (respond_to_getheaders indexed locator empty_hash))
respond_to_getheaders_lem_example =
    respond_to_getheaders_lem (1 ∷ []) indexed locator empty_hash indexed-IsChain known₂-IsRooted
      indexed-IsIndexed

Reach-IsChain_example :
    IsChain (1 ∷ []) (update_most_work_chain after.chain answer)
    × Keeps forked (update_most_work_chain after.chain answer)
Reach-IsChain_example = Reach-IsChain reference as_text (1 ∷ []) forked-IsChain (
    then_step
      (then_step start (
        applies (plain_header (4 ∷ []) (3 ∷ [])) false (some answer)
          validate_and_apply_header_inner_run))
      (updates answer))

-- A row of a block on the chain, and one of a block that is not.
abbrev rows : List AddressRow
rows =
    record { transaction_hash = 7 ∷ []; block_hash = 2 ∷ []; value = 50 }
    ∷ record { transaction_hash = 8 ∷ []; block_hash = 9 ∷ []; value = 60 }
    ∷ []

rows_run : (filter_and_populate_address_txs indexed rows >>= λ r. ok (length r)) ≡ ok 1
unfolding filter_and_populate_address_txs add_to_set insert_hash
rows_run = refl

filter_and_populate_address_txs_lem_example :
    (result : List AddressTransaction) × (filter_and_populate_address_txs indexed rows ≡ ok result)
    × Shown indexed.known_headers indexed.top_header rows result
filter_and_populate_address_txs_lem_example =
    filter_and_populate_address_txs_lem (1 ∷ []) indexed indexed-IsChain indexed-IsIndexed rows
