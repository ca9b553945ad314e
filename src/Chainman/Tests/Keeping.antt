-- ===== src/Chainman/Tests/Keeping.antt =====
-- The header 4 comes after the first sync: its branch takes the place of the header 2.
use bitlens_rs.Prelude.{
  ◌≡◌, refl, subst, ◌<◌, ◌^◌, inl, inr, none, some, [], ◌∷◌, arith, true, ok, to_le_bytes,
}
use bitlens_rs.Util.U256.Reference.{reference}
use bitlens_rs.Packets.Buffer.{Bytes, empty_hash}
use bitlens_rs.Util.Arena.{try_alloc_array, padding}
use bitlens_rs.Packets.Varint.{
  copy_front, serialize_varint, length_varint, serialize_varint_into_slice,
}
use bitlens_rs.Packets.Varstr.{serialize_varstr}
use bitlens_rs.Packets.Array.{serialize_items, serialize_array}
use bitlens_rs.Packets.Tx.{Tx, is_coinbase, sole_is_empty, is_empty, serialize_txin, concat}
use bitlens_rs.Packets.Tx.Stored.{
  serialized_without_txouts_size, serialize_without_txouts, txins_length,
}
use bitlens_rs.Tx.Script.{
  has_flag, get_sigop_count, sigop_loop, sigops_of, get_script_op, take_operand,
}
use bitlens_rs.Tx.Sigops.{
  sum_sigops, sig_scripts, out_scripts, get_legacy_sigops, get_transaction_sigop_cost,
}
use bitlens_rs.Tx.Size.{calculate_tx_size_wus, txins_size, txouts_size, witness_size}
use bitlens_rs.Tx.Analysis.{
  write_at, write_count, write_values, sum_values, verify_flags, analyzed_size, fee_of, analyzed_tx,
}
use bitlens_rs.Packets.Block.{Block}
use bitlens_rs.Packets.Payload.{block}
use bitlens_rs.Chainman.BlockSync.Worker.{segwit_height}
use bitlens_rs.Chainman.Dependencies.{fetch_all}
use bitlens_rs.Chainman.Walks.{downloaded_loop, calculate_downloaded_blocks}
use bitlens_rs.Chainman.Downloads.{mark_headers, mark_as_downloaded}
use bitlens_rs.Chainman.KeepUp.Apply.{
  handle_new_block, handle_queued, pop_and_apply, apply_block, insert_self_txs, pending_of_txs,
  spending_txins, pending_of_txins, add_totals, apply_fetched, resolve_all, analyze_block,
  analyze_txs, slice,
}
use bitlens_rs.Chainman.KeepUp.Watched.{IsWatched}
use bitlens_rs.Chainman.KeepUp.Runs.{waits, and_then, sees_header, sees_block, Reach-IsWatched}
use bitlens_rs.Chainman.Runs.Kept.{Keeps}
use bitlens_rs.Chainman.Chain.{
  BlockHeaderWithNumber, insert_hash, remove_blocks, add_blocks, update_most_work_chain,
}
use bitlens_rs.Chainman.Chain.Ancestors.{Known, IsRooted, insert_hash_cases}
use bitlens_rs.Chainman.Headers.{State}
use bitlens_rs.Chainman.KeepUp.{
  append_only, KeepUp, take_over, after_application, handle_new_header,
}
use bitlens_rs.Chainman.KeepUp.Queue.{Extends, handle_new_header-Extends}
use bitlens_rs.Chainman.Tests.{
  plain_header, above_right, known₂, left, forked, forked-IsChain, known₂-IsRooted, of_known₂,
  before, after, answer, validate_and_apply_header_inner_run,
  validate_and_apply_header_inner-IsChain_example,
}

abbrev known₃ : Known
known₃ = insert_hash (4 ∷ []) above_right known₂

of_known₃ :
    (P : BlockHeaderWithNumber → Type 0)
    → P above_right
    → ((hash : Bytes) (e : BlockHeaderWithNumber) → known₂ hash ≡ some e → P e)
    → (hash : Bytes) (e : BlockHeaderWithNumber) → known₃ hash ≡ some e
    → P e
of_known₃ P a of₂ hash e found = elim (insert_hash_cases (4 ∷ []) hash above_right e known₂ found) [
  | inl (_, is) ↦ subst P is a
  | inr found₂ ↦ of₂ hash e found₂
]

known₃-IsRooted : IsRooted known₃
unfolding insert_hash
known₃-IsRooted = record {
  open_root =
      of_known₃ (λ e. e.number ≡ 0 → known₃ e.header.parent ≡ none) (λ z. absurd (omega arith))
        (of_known₂ (λ e. e.number ≡ 0 → known₃ e.header.parent ≡ none) (λ z. absurd (omega arith))
          (λ z. absurd (omega arith)) (λ z. refl));
  bounded = of_known₃ (λ e. e.number < 2 ^ 63) (omega arith) known₂-IsRooted.bounded;
}

abbrev idle : KeepUp
idle = record { state = before; queue = []; new_headers = []; applied_blocks = [] }

abbrev busy : KeepUp
busy = take_over (plain_header (4 ∷ []) (3 ∷ [])) idle after answer

handle_new_header_run : handle_new_header reference (plain_header (4 ∷ []) (3 ∷ [])) idle ≡ ok busy
unfolding handle_new_header insert_hash after_application
handle_new_header_run = rw validate_and_apply_header_inner_run refl

handle_new_header-Extends_example : Extends (plain_header (4 ∷ []) (3 ∷ [])) idle busy
unfolding take_over update_most_work_chain remove_blocks add_blocks
handle_new_header-Extends_example =
    handle_new_header-Extends reference (plain_header (4 ∷ []) (3 ∷ [])) idle busy
      validate_and_apply_header_inner-IsChain_example.tree known₃-IsRooted handle_new_header_run

abbrev coinbase : Tx
coinbase = record {
  version = 1;
  locktime = 0;
  txins =
      record {
        prevout_hash = empty_hash;
        prevout_index = 0xFFFFFFFF;
        sequence = 0;
        sig_script = 7 ∷ [];
      }
      ∷ [];
  txouts = record { value = 50; script = [] } ∷ [];
  witness_data = none;
  hash = 8 ∷ [];
  witness_hash = 8 ∷ [];
}

abbrev body : Block
body = record { header = plain_header (2 ∷ []) (1 ∷ []); txs = coinbase ∷ [] }

-- Before the header 4 comes, the body of the header 2 is awaited.
abbrev awaiting : KeepUp
awaiting = record idle { queue = (1, 2 ∷ [], append_only) ∷ [] }

abbrev same : Bytes → Bytes
same b = b

abbrev marked : State
marked = record before {
  chain = record forked {
    known_headers =
        insert_hash (2 ∷ []) (record left { fetched_full = true; coinbase_ascii = some (7 ∷ []) })
          known₂;
    top_header = record left { fetched_full = true };
  };
  downloaded_blocks = 2;
}

abbrev watched : KeepUp
watched = record { state = marked; queue = []; new_headers = []; applied_blocks = (2 ∷ []) ∷ [] }

handle_new_block_run :
    handle_new_block same same (λ _. none) 0 (some (block body)) awaiting ≡ ok watched
unfolding analyze_block analyze_txs slice spending_txins analyzed_tx get_transaction_sigop_cost
    verify_flags get_legacy_sigops sum_sigops sig_scripts out_scripts has_flag get_sigop_count
    sigop_loop sigops_of get_script_op take_operand is_coinbase sole_is_empty is_empty add_totals
    fee_of sum_values to_le_bytes try_alloc_array padding analyzed_size
    serialized_without_txouts_size txins_length length_varint write_at write_count write_values
    serialize_without_txouts serialize_array serialize_items serialize_txin serialize_varstr
    serialize_varint concat calculate_tx_size_wus txins_size txouts_size witness_size
    serialize_varint_into_slice handle_new_block handle_queued segwit_height pop_and_apply
    apply_block insert_self_txs pending_of_txs pending_of_txins apply_fetched fetch_all resolve_all
    mark_as_downloaded mark_headers insert_hash calculate_downloaded_blocks downloaded_loop
    copy_front
handle_new_block_run = refl

known_header_run :
    handle_new_header reference (plain_header (2 ∷ []) (1 ∷ [])) awaiting ≡ ok awaiting
unfolding handle_new_header insert_hash
known_header_run = refl

awaiting-IsWatched : IsWatched (1 ∷ []) awaiting
unfolding insert_hash
awaiting-IsWatched = record { chain = forked-IsChain; queue = ((left, refl), tt) }

Reach-IsWatched_example : IsWatched (1 ∷ []) watched × Keeps before.chain marked.chain
Reach-IsWatched_example =
    Reach-IsWatched reference same same (λ _. none) 0 (1 ∷ []) awaiting-IsWatched
      (and_then (and_then waits (sees_header (plain_header (2 ∷ []) (1 ∷ [])) known_header_run))
        (sees_block (some (block body)) handle_new_block_run))
