-- ===== src/Chainman/KeepUp/Apply.antt =====
-- src/chainman/keepup.rs: a block whose body has come is applied, if it is the front of the queue. The
-- database's outputs are the parameter `stored`; what is written to it, the callbacks of the miners
-- and the front page are left out, and so are the fee rates, which are floating-point numbers.
use bitlens_rs.Prelude.{
  ℕ, ◌+◌, ◌*◌, ◌%◌, ◌^◌, Option, none, some, List, [], ◌∷◌, ◌++◌, leb, ◌==◌, if◌then◌else◌,
  bytes_eq, get_elem?, length, take, drop, Result, panic, stuck, ok, err, unwrap, ◌>>=◌,
}
use bitlens_rs.Util.Arena.{Arena, try_alloc_array}
use bitlens_rs.Packets.Buffer.{Bytes}
use bitlens_rs.Packets.Tx.{TxIn, TxOut, Tx, is_coinbase}
use bitlens_rs.Packets.Block.{Block, verify_witness_commitment}
use bitlens_rs.Packets.Payload.{Payload, block}
use bitlens_rs.Tx.Analysis.{sum_values, fee_of, analyzed_tx}
use bitlens_rs.Chainman.Headers.{State}
use bitlens_rs.Chainman.Downloads.{mark_as_downloaded}
use bitlens_rs.Chainman.Dependencies.{TxOuts, fetch_all}
use bitlens_rs.Chainman.BlockSync.Worker.{segwit_height}
use bitlens_rs.Chainman.KeepUp.{KeepUp, QueuedBlock}

-- An output of the block itself, or the number of the task that fetches it.
pub data PendingDep : Type 0 where
  left : TxOut → PendingDep
  right : ℕ → PendingDep

abbrev pub SelfTxs : Type 0
SelfTxs = Bytes → Option Tx

unfoldable pub insert_self_txs : List Tx → SelfTxs → SelfTxs
insert_self_txs [] self_txs = self_txs
insert_self_txs (tx ∷ txs) self_txs =
    insert_self_txs txs (λ h. if bytes_eq tx.hash h then some tx else self_txs h)

-- The tasks are kept as the inputs that they fetch for.
abbrev pub pending_dep : Option Tx → TxIn → List TxIn → Result (PendingDep × List TxIn)
pending_dep (some from) txin handles = do
  txout ← unwrap (get_elem? from.txouts txin.prevout_index)
  ok (left txout, handles)
pending_dep none txin handles = ok (right (length handles), handles ++ (txin ∷ []))

unfoldable pub pending_of_txins :
    SelfTxs → List TxIn → List TxIn → Result (List PendingDep × List TxIn)
pending_of_txins self_txs [] handles = ok ([], handles)
pending_of_txins self_txs (txin ∷ txins) handles = do
  (dep, handles₁) ← pending_dep (self_txs txin.prevout_hash) txin handles
  (deps, handles₂) ← pending_of_txins self_txs txins handles₁
  ok (dep ∷ deps, handles₂)

unfoldable pub spending_txins : Tx → List TxIn
spending_txins tx = if is_coinbase tx then [] else tx.txins

unfoldable pub pending_of_txs : SelfTxs → List Tx → List TxIn → Result (List PendingDep × List TxIn)
pending_of_txs self_txs [] handles = ok ([], handles)
pending_of_txs self_txs (tx ∷ txs) handles = do
  (deps, handles₁) ← pending_of_txins self_txs (spending_txins tx) handles
  (rest, handles₂) ← pending_of_txs self_txs txs handles₁
  ok (deps ++ rest, handles₂)

abbrev pub resolve : List TxOut → PendingDep → Result TxOut
resolve owned_deps (left dep) = ok dep
resolve owned_deps (right owned_idx) = unwrap (get_elem? owned_deps owned_idx)

unfoldable pub resolve_all : List TxOut → List PendingDep → Result (List TxOut)
resolve_all owned_deps [] = ok []
resolve_all owned_deps (dep ∷ pending_deps) = do
  d ← resolve owned_deps dep
  deps ← resolve_all owned_deps pending_deps
  ok (d ∷ deps)

-- `deps[from..from + count]`.
unfoldable pub slice : ℕ → ℕ → List TxOut → Result (List TxOut)
slice from count deps =
    if leb (from + count) (length deps) then ok (take count (drop from deps)) else panic

pub record Totals : Type 0 where
  pub fees_total : ℕ
  pub volume : ℕ

unfoldable pub add_totals : Tx → List TxOut → Totals → Totals
add_totals tx deps t = record {
  fees_total = (t.fees_total + fee_of tx deps) % 2 ^ 64;
  volume = (t.volume + sum_values tx.txouts) % 2 ^ 64;
}

unfoldable pub analyze_txs :
    Bytes → List TxOut → List Tx → ℕ → Totals → Arena → Result (List Bytes × Totals × Arena)
analyze_txs block_hash deps [] consumed totals arena = ok ([], totals, arena)
analyze_txs block_hash deps (tx ∷ txs) consumed totals arena = do
  let txin_count = length (spending_txins tx)
  own ← slice consumed txin_count deps
  (analyzed, arena₁) ← analyzed_tx block_hash tx own arena
  (rest, totals', arena₂) ←
      analyze_txs block_hash deps txs (consumed + txin_count) (add_totals tx own totals) arena₁
  ok (analyzed ∷ rest, totals', arena₂)

-- The analysed transactions and the sums that are written for the block.
pub record Analyzed : Type 0 where
  pub analyzed_txs : List Bytes
  pub totals : Totals
  pub txs_count : ℕ
  pub coinbase_ascii : Bytes

-- The capacity of `fee_rates` is one less than the transactions; for no transactions it overflows.
unfoldable pub analyze_block : Block → List TxOut → Arena → Result Analyzed
analyze_block b deps arena = do
  (analyzed, totals, arena₁) ←
      (if length b.txs == 0
        then panic
        else analyze_txs b.header.hash deps b.txs 0 (record { fees_total = 0; volume = 0 }) arena)
  first ← unwrap (get_elem? b.txs 0)
  coinbase ← unwrap (get_elem? first.txins 0)
  _ ← try_alloc_array (record { size = 16; alignment = 8 }) 1 arena₁
  ok (record {
    analyzed_txs = analyzed;
    totals = totals;
    txs_count = length b.txs;
    coinbase_ascii = coinbase.sig_script;
  })

-- `stored` is the database, `fresh` the address of the arena of a block.
module _ (sha256 from_utf8_lossy : Bytes → Bytes) (stored : TxOuts) (fresh : ℕ) where
  abbrev pub analyzed_arena : Arena
  analyzed_arena = record {
    address = fresh;
    consumed = 0;
    capacity = 4 * 1024 * 1024 + 4096 * 1024;
  }

  -- When a task of the database fails, the block is given up without a word.
  unfoldable pub apply_fetched :
      Block → List PendingDep → Option (List TxOut) → State → Result State
  apply_fetched b pending_deps none s = ok s
  apply_fetched b pending_deps (some owned_deps) s = do
    deps ← resolve_all owned_deps pending_deps
    analyzed ← analyze_block b deps analyzed_arena
    mark_as_downloaded from_utf8_lossy (b.header.hash ∷ []) (analyzed.coinbase_ascii ∷ []) s

  unfoldable pub apply_block : Block → State → Result State
  apply_block b s = do
    (pending_deps, handles) ← pending_of_txs (insert_self_txs b.txs (λ h. none)) b.txs []
    apply_fetched b pending_deps (fetch_all stored handles) s

  unfoldable pub pop_and_apply : KeepUp → Block → Bytes → List QueuedBlock → Result KeepUp
  pop_and_apply k b hash rest = do
    s ← apply_block b k.state
    ok (record k { state = s; queue = rest; applied_blocks = k.applied_blocks ++ (hash ∷ []) })

  abbrev pub unless_invalid : KeepUp → Result (Unit {0}) → Result KeepUp → Result KeepUp
  unless_invalid k panic next = panic
  unless_invalid k stuck next = stuck
  unless_invalid k (err message) next = ok k
  unless_invalid k (ok _) next = next

  unfoldable pub handle_queued : KeepUp → Block → List QueuedBlock → Result KeepUp
  handle_queued k b [] = ok k
  handle_queued k b ((number, hash, strategy) ∷ rest) =
      let applied = pop_and_apply k b hash rest in
      if bytes_eq b.header.hash hash
      then (if leb segwit_height number
          then unless_invalid k (verify_witness_commitment sha256 b) applied
          else applied)
      else ok k

  unfoldable pub handle_new_block : Option Payload → KeepUp → Result KeepUp
  handle_new_block (some (block b)) k = handle_queued k b k.queue
  handle_new_block _ k = panic
