-- ===== src/Chainman/Locator.antt =====
-- src/chainman/mod.rs: the request for headers with a block locator, and the answer to such a request
-- of a peer.
pub mod Descent
pub mod Indexed
pub mod Answer
use bitlens_rs.Prelude.{
  ℕ, zero, suc, ◌+◌, ◌-◌, ◌*◌, ◌%◌, ◌^◌, true, false, Option, none, some, List, [], ◌∷◌, ◌++◌, ltb,
  leb, ◌==◌, if◌then◌else◌, length, bytes_eq, Result, stuck, ok, unwrap, ◌>>=◌, add_usize, sub_u64,
}
use bitlens_rs.Packets.Buffer.{Bytes, empty_hash}
use bitlens_rs.Packets.BlockHeader.{BlockHeader}
use bitlens_rs.Packets.GetHeaders.{GetHeaders}
use bitlens_rs.Chainman.Chain.{BlockHeaderWithNumber, Chain, get_ancestor}

-- The distance to the next hash: it doubles from the tenth on, and stops at the root.
unfoldable pub next_step : ℕ → ℕ → ℕ → ℕ
next_step step len number =
    let step' = if leb 10 len then (step * 2) % 2 ^ 64 else step in
    if ltb number step' then number else step'

-- The loop `while current.number > 0` on fuel.
unfoldable pub locator_loop :
    ℕ → Chain → BlockHeaderWithNumber → ℕ → List Bytes → Result (List Bytes)
locator_loop zero chain current step block_locator = stuck
locator_loop (suc fuel) chain current step block_locator = elim (ltb 0 current.number) [
  | false ↦ ok block_locator
  | true ↦ do
    let step' = next_step step (length block_locator) current.number
    found ← get_ancestor chain current (sub_u64 current.number step')
    new ← unwrap found
    locator_loop fuel chain new step' (block_locator ++ (new.header.hash ∷ []))
]

unfoldable pub build_get_headers : Chain → Result GetHeaders
build_get_headers chain = do
  block_locator ←
      locator_loop (chain.top_header.number + 1) chain chain.top_header 1
        (chain.top_header.header.hash ∷ [])
  ok (record { version = 70016; block_locator = block_locator; hash_stop = empty_hash })

-- The first hash of the locator on the chain with the most work.
unfoldable pub find_match : Chain → List Bytes → Option Bytes
find_match chain [] = none
find_match chain (hash ∷ locator) =
    if chain.most_work_chain hash then some hash else find_match chain locator

-- The body of the loop at a hash, and what the rest of the loop adds.
unfoldable pub answer_step :
    Chain → Bytes → Bytes → Result (List BlockHeader) → Result (List BlockHeader)
answer_step chain block_stop hash rest = elim (bytes_eq hash block_stop) [
  | true ↦ ok []
  | false ↦ do h ← unwrap (chain.known_headers hash); headers ← rest; ok (h.header ∷ headers)
]

-- The headers with `n` consecutive numbers, up to the hash to stop at.
unfoldable pub answer_loop : ℕ → Chain → ℕ → Bytes → Result (List BlockHeader)
answer_loop zero chain number block_stop = ok []
answer_loop (suc n) chain number block_stop = unwrap (chain.number_to_hash number) >>= λ hash.
    answer_step chain block_stop hash (answer_loop n chain (add_usize number 1) block_stop)

-- `r.top_header.number - header.number` on `u64`, and at most 2000.
unfoldable pub blocks_to_send_count : ℕ → ℕ → ℕ
blocks_to_send_count top number =
    let count = (top + 2 ^ 64 - number) % 2 ^ 64 in if ltb 2000 count then 2000 else count

unfoldable pub answer_from : Chain → Bytes → Bytes → Result (Option (List BlockHeader))
answer_from chain matched_hash block_stop = do
  header ← unwrap (chain.known_headers matched_hash)
  let count = blocks_to_send_count chain.top_header.number header.number
  if count == 0
      then ok none
      else (answer_loop count chain header.number block_stop >>= (λ result. ok (some result)))

unfoldable pub respond_to_getheaders :
    Chain → List Bytes → Bytes → Result (Option (List BlockHeader))
respond_to_getheaders chain locator block_stop = elim (find_match chain locator) [
  | none ↦ ok none
  | some matched_hash ↦ answer_from chain matched_hash block_stop
]
