-- ===== src/Chainman/Walks.antt =====
-- src/chainman/mod.rs: the walks from the top header down to the genesis block. Each runs on fuel one
-- above the number of the header that it starts from.
pub mod Downloaded
pub mod MostWork
use bitlens_rs.Prelude.{
  ℕ, zero, suc, ◌+◌, ◌-◌, Bool, false, Option, none, some, List, [], ◌∷◌, ltb, ◌==◌, if◌then◌else◌,
  bytes_eq, Result, ok, panic, stuck, ◌>>=◌,
}
use bitlens_rs.Packets.Buffer.{Bytes, empty_hash}
use bitlens_rs.Packets.BlockHeader.{BlockHeader}
use bitlens_rs.Chainman.Chain.{BlockHeaderWithNumber, Chain, parent_of, insert_number, add_to_set}

-- The loop of `calculate_downloaded_blocks`.
unfoldable pub downloaded_loop : ℕ → Chain → BlockHeaderWithNumber → Result ℕ
downloaded_loop zero chain last = stuck
downloaded_loop (suc fuel) chain last =
    if last.fetched_full
    then ok (last.number + 1)
    else if last.number == 0
    then ok 0
    else elim (parent_of chain last) [ none ↦ panic | some next ↦ downloaded_loop fuel chain next ]

unfoldable pub calculate_downloaded_blocks : Chain → Result ℕ
calculate_downloaded_blocks chain =
    downloaded_loop (chain.top_header.number + 1) chain chain.top_header

unfoldable pub top_downloaded_loop : ℕ → Chain → BlockHeaderWithNumber → Result (Option Bytes)
top_downloaded_loop zero chain last = stuck
top_downloaded_loop (suc fuel) chain last =
    if last.fetched_full
    then ok (some last.header.hash)
    else if last.number == 0
    then ok none
    else elim (parent_of chain last) [
      | none ↦ panic
      | some next ↦ top_downloaded_loop fuel chain next
    ]

unfoldable pub get_top_downloaded_block_hash : Chain → Result (Option Bytes)
get_top_downloaded_block_hash chain =
    top_downloaded_loop (chain.top_header.number + 1) chain chain.top_header

-- The two maps that `generate_top_work_chain_hashset` builds.
unfoldable pub hashset_loop :
    ℕ → Chain → BlockHeaderWithNumber → (Bytes → Bool) → (ℕ → Option Bytes) → Result Chain
hashset_loop zero chain last hashes numbers = stuck
hashset_loop (suc fuel) chain last hashes numbers =
    let hashes' = add_to_set last.header.hash hashes in
    let numbers' = insert_number last.number last.header.hash numbers in
    if last.number == 0
    then ok (record chain { most_work_chain = hashes'; number_to_hash = numbers' })
    else elim (parent_of chain last) [
      | none ↦ panic
      | some next ↦ hashset_loop fuel chain next hashes' numbers'
    ]

unfoldable pub generate_top_work_chain_hashset : Chain → Result Chain
generate_top_work_chain_hashset chain =
    hashset_loop (chain.top_header.number + 1) chain chain.top_header (λ _. false) (λ _. none)

-- The loop of `get_block_hashes_to_download`: the hashes from the newest down, and the last number.
unfoldable pub to_download_loop :
    ℕ → Chain → BlockHeaderWithNumber → List Bytes → Result (List Bytes × ℕ)
to_download_loop zero chain c all = stuck
to_download_loop (suc fuel) chain c all =
    let all' = c.header.hash ∷ all in
    if c.number == 0 then ok (all', c.number) else elim (parent_of chain c) [
      | none ↦ ok (all', c.number)
      | some next ↦
          if next.fetched_full then ok (all', c.number) else to_download_loop fuel chain next all'
    ]

-- `all` grows at its end and is reversed: the list here grows at its front.
unfoldable pub get_block_hashes_to_download : ℕ → Chain → Result (Option (List Bytes × ℕ))
get_block_hashes_to_download downloaded chain =
    if ltb chain.top_header.number downloaded
    then ok none
    else (to_download_loop (chain.top_header.number + 1) chain chain.top_header []
        >>= (λ r. ok (some r)))

unfoldable pub get_parents_loop : ℕ → Chain → BlockHeaderWithNumber → List Bytes
get_parents_loop zero chain last = []
get_parents_loop (suc limit) chain last =
    if bytes_eq last.header.parent empty_hash then [] else elim (parent_of chain last) [
      | none ↦ []
      | some next ↦ next.header.hash ∷ get_parents_loop limit chain next
    ]

-- At most `limit` ancestors, the nearest first.
unfoldable pub get_parents : Chain → Bytes → ℕ → List Bytes
get_parents chain hash limit = elim (chain.known_headers hash) [
  | none ↦ []
  | some last ↦ get_parents_loop limit chain last
]
