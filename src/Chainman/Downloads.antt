-- ===== src/Chainman/Downloads.antt =====
-- src/chainman/mod.rs: blocks whose bodies have arrived are marked in the chain. Reading bytes as text
-- is the parameter `from_utf8_lossy`.
pub mod Updates
pub mod Marked
use bitlens_rs.Prelude.{true, Option, some, List, [], ◌∷◌, Result, ok, unwrap, ◌>>=◌}
use bitlens_rs.Packets.Buffer.{Bytes}
use bitlens_rs.Chainman.Chain.{BlockHeaderWithNumber, Chain, insert_hash}
use bitlens_rs.Chainman.Headers.{State}
use bitlens_rs.Chainman.Walks.{calculate_downloaded_blocks}

module _ (from_utf8_lossy : Bytes → Bytes) where
  -- The loop over the blocks with their coinbase texts, as far as there are both.
  unfoldable pub mark_headers :
      List Bytes
      → List Bytes
      → (Bytes → Option BlockHeaderWithNumber)
      → Result (Bytes → Option BlockHeaderWithNumber)
  mark_headers [] coinbase_asciis known = ok known
  mark_headers (block ∷ blocks) [] known = ok known
  mark_headers (block ∷ blocks) (coinbase_ascii ∷ coinbase_asciis) known = do
    h ← unwrap (known block)
    let marked : BlockHeaderWithNumber = record h {
      fetched_full = true;
      coinbase_ascii = some (from_utf8_lossy coinbase_ascii);
    }
    mark_headers blocks coinbase_asciis (insert_hash block marked known)

  unfoldable pub mark_as_downloaded : List Bytes → List Bytes → State → Result State
  mark_as_downloaded blocks coinbase_asciis s = do
    known ← mark_headers blocks coinbase_asciis s.chain.known_headers
    top ← unwrap (known s.chain.top_header.header.hash)
    let chain : Chain = record s.chain {
      known_headers = known;
      top_header = record s.chain.top_header { fetched_full = top.fetched_full };
    }
    new_downloaded_blocks ← calculate_downloaded_blocks chain
    ok (record s { chain = chain; downloaded_blocks = new_downloaded_blocks })
