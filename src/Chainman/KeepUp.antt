-- ===== src/Chainman/KeepUp.antt =====
-- src/chainman/keepup.rs: new headers and blocks after the first sync. The queue holds the blocks of the
-- chain whose bodies are still to come, in their order. Headers come owned, and blocks as payloads; the
-- channels of new headers and of applied blocks take what is broadcast. Between the
-- two locks of `handle_new_header` no other task changes the chain.
pub mod Branch
pub mod Queue
pub mod Apply
pub mod Watched
pub mod Runs
pub mod Spent
pub mod Sources
use bitlens_rs.Prelude.{
  ℕ, ◌+◌, ◌-◌, ◌%◌, ◌^◌, Bool, true, false, Option, none, some, List, [], ◌∷◌, ◌++◌, ◌==◌,
  if◌then◌else◌, length, Result, panic, stuck, ok, err, ◌>>=◌, add_usize,
}
use bitlens_rs.Util.U256.{U256}
use bitlens_rs.Packets.Buffer.{Bytes}
use bitlens_rs.Packets.BlockHeader.{BlockHeader}
use bitlens_rs.Chainman.Chain.{
  BlockHeaderWithNumber, Chain, HeaderApplicationResult, update_most_work_chain,
}
use bitlens_rs.Chainman.Headers.{State, validate_and_apply_header_inner}

pub data FrontPageDataUpdateStrategy : Type 0 where
  regenerate_from_scratch append_only : FrontPageDataUpdateStrategy

abbrev pub QueuedBlock : Type 0
QueuedBlock = ℕ × Bytes × FrontPageDataUpdateStrategy

pub record KeepUp : Type 0 where
  pub state : State
  pub queue : List QueuedBlock
  pub new_headers : List Bytes
  pub applied_blocks : List Bytes

-- `new_top_number - blocks_to_apply.len() as u64 - 1`, which wraps.
unfoldable pub first_of_fork : ℕ → ℕ → ℕ
first_of_fork new_top_number count =
    ((new_top_number + (2 ^ 64 - count)) % 2 ^ 64 + (2 ^ 64 - 1)) % 2 ^ 64

-- The blocks of a fork, from a number on; the first starts the front page anew.
unfoldable pub queue_fork : ℕ → FrontPageDataUpdateStrategy → List (Bytes × ℕ) → List QueuedBlock
queue_fork number strategy [] = []
queue_fork number strategy ((hash, _) ∷ blocks) =
    (number, hash, strategy) ∷ queue_fork (add_usize number 1) append_only blocks

unfoldable pub queue_blocks : Bytes → ℕ → List (Bytes × ℕ) → List QueuedBlock
queue_blocks hash new_top_number blocks_to_apply =
    if length blocks_to_apply == 1
    then (new_top_number, hash, append_only) ∷ []
    else queue_fork (first_of_fork new_top_number (length blocks_to_apply)) regenerate_from_scratch
        blocks_to_apply

-- The chain has a new top.
unfoldable pub take_over : BlockHeader → KeepUp → State → HeaderApplicationResult → KeepUp
take_over header k s result = record k {
  state = record s { chain = update_most_work_chain s.chain result };
  queue = k.queue ++ queue_blocks header.hash s.chain.top_header.number result.added_blocks;
  new_headers = k.new_headers ++ (s.chain.top_header.header.hash ∷ []);
}

-- An error leaves the state as it was.
unfoldable pub after_application :
    BlockHeader → KeepUp → Result (State × Option HeaderApplicationResult) → Result KeepUp
after_application header k panic = panic
after_application header k stuck = stuck
after_application header k (err message) = ok k
after_application header k (ok (s, none)) = ok (record k { state = s })
after_application header k (ok (s, some result)) = ok (take_over header k s result)

abbrev pub is_known : Option BlockHeaderWithNumber → Bool
is_known none = false
is_known (some header) = true

unfoldable pub handle_new_header : U256 → BlockHeader → KeepUp → Result KeepUp
handle_new_header u header k =
    let known = k.state.chain.known_headers in
    if is_known (known header.hash)
    then ok k
    else if is_known (known header.parent)
    then after_application header k (validate_and_apply_header_inner u header k.state false)
    else ok k
