-- ===== src/Chainman/KeepUp/Runs.antt =====
-- The watcher's runs: headers and blocks in any order.
use bitlens_rs.Prelude.{
  ℕ, ◌≡◌, refl, subst, inl, inr, Option, none, some, List, [], ◌∷◌, ◌++◌, leb, bytes_eq, Bool-cases,
  Result, ok, err, panic, stuck, >>=-eq-ok,
}
use bitlens_rs.Util.U256.{U256}
use bitlens_rs.Packets.Buffer.{Bytes}
use bitlens_rs.Packets.BlockHeader.{BlockHeader}
use bitlens_rs.Packets.Tx.{TxOut}
use bitlens_rs.Packets.Block.{Block, verify_witness_commitment}
use bitlens_rs.Packets.Payload.{Payload, block}
use bitlens_rs.Chainman.Chain.Ancestors.{IsChain}
use bitlens_rs.Chainman.Headers.{State}
use bitlens_rs.Chainman.Runs.{start, then_step, marks, Reach-IsChain}
use bitlens_rs.Chainman.Runs.Kept.{Keeps, Keeps-refl, Keeps-trans}
use bitlens_rs.Chainman.Dependencies.{TxOuts}
use bitlens_rs.Chainman.BlockSync.Worker.{segwit_height}
use bitlens_rs.Chainman.KeepUp.{QueuedBlock, KeepUp, handle_new_header}
use bitlens_rs.Chainman.KeepUp.Apply.{
  PendingDep, insert_self_txs, pending_of_txs, resolve_all, analyze_block, analyzed_arena,
  apply_fetched, apply_block, pop_and_apply, unless_invalid, handle_queued, handle_new_block,
}
use bitlens_rs.Chainman.KeepUp.Watched.{
  QueueIsKnown, IsWatched, still_known, Holds, same-Holds, still_watched, handle_new_header_lem,
}

module _ (u : U256) (sha256 from_utf8_lossy : Bytes → Bytes) (stored : TxOuts) (fresh : ℕ) where
  -- What the watcher does with a header, or with a block, that does not panic.
  pub data Step : KeepUp → KeepUp → Type 0 where
    sees_header :
        {k k' : KeepUp} (header : BlockHeader) → handle_new_header u header k ≡ ok k' → Step k k'
    sees_block :
        {k k' : KeepUp} (payload : Option Payload)
        → handle_new_block sha256 from_utf8_lossy stored fresh payload k ≡ ok k'
        → Step k k'

  pub data Reach : KeepUp → KeepUp → Type 0 where
    waits : {k : KeepUp} → Reach k k
    and_then : {k k' k'' : KeepUp} → Reach k k' → Step k' k'' → Reach k k''

module _ (u : U256) (sha256 from_utf8_lossy : Bytes → Bytes) (stored : TxOuts) (fresh : ℕ)
    (root : Bytes) where
  apply_fetched_lem :
      (b : Block) (deps : List PendingDep) (fetched : Option (List TxOut)) (s s' : State)
      → IsChain root s.chain
      → apply_fetched sha256 from_utf8_lossy stored fresh b deps fetched s ≡ ok s'
      → IsChain root s'.chain × Keeps s.chain s'.chain
  unfolding apply_fetched
  apply_fetched_lem b deps none s s' c e =
      let same : s ≡ s' = cc in
      subst (λ (t : State). IsChain root t.chain × Keeps s.chain t.chain) same
        (c, Keeps-refl s.chain)
  apply_fetched_lem b deps (some owned) s s' c e =
      let (all, e₁, f₁) = >>=-eq-ok (resolve_all owned deps) _ e in
      let (a, e₂, f₂) =
        >>=-eq-ok (analyze_block b all (analyzed_arena sha256 from_utf8_lossy stored fresh)) _ f₁ in
      Reach-IsChain u from_utf8_lossy root c
        (then_step start (marks (b.header.hash ∷ []) (a.coinbase_ascii ∷ []) f₂))

  pop_and_apply_lem :
      (k k' : KeepUp) (b : Block) (hash : Bytes) (queued : QueuedBlock) (rest : List QueuedBlock)
      → IsWatched root k
      → k.queue ≡ queued ∷ rest
      → pop_and_apply sha256 from_utf8_lossy stored fresh k b hash rest ≡ ok k'
      → Holds root k k'
  unfolding pop_and_apply apply_block
  pop_and_apply_lem k k' b hash queued rest w front e =
      let (s, applied, f) =
        >>=-eq-ok (apply_block sha256 from_utf8_lossy stored fresh b k.state) _ e in
      let (deps, fetches, g) =
        >>=-eq-ok (pending_of_txs (insert_self_txs b.txs (λ h. none)) b.txs []) _ applied in
      let reached = apply_fetched_lem b deps.0 _ k.state s w.chain g in
      let all : QueueIsKnown k.state.chain.known_headers (queued ∷ rest) =
        subst (QueueIsKnown _) front w.queue in
      let same : record k {
        state = s;
        queue = rest;
        applied_blocks = k.applied_blocks ++ (hash ∷ []);
      }
          ≡ k' =
        cc in
      subst (Holds root k) same (
        still_watched root k s rest _ _ w reached
          (still_known k.state.chain s.chain rest reached.1 all.1))

  unless_invalid_lem :
      (k k' : KeepUp) (valid : Result (Unit {0})) (next : Result KeepUp)
      → IsWatched root k
      → (next ≡ ok k' → Holds root k k')
      → unless_invalid sha256 from_utf8_lossy stored fresh k valid next ≡ ok k'
      → Holds root k k'
  unless_invalid_lem k k' panic next w holds e = cc
  unless_invalid_lem k k' stuck next w holds e = cc
  unless_invalid_lem k k' (err message) next w holds e = same-Holds root k k' w cc
  unless_invalid_lem k k' (ok done) next w holds e = holds e

  handle_queued_lem :
      (k k' : KeepUp) (b : Block) (queue : List QueuedBlock)
      → IsWatched root k
      → k.queue ≡ queue
      → handle_queued sha256 from_utf8_lossy stored fresh k b queue ≡ ok k'
      → Holds root k k'
  unfolding handle_queued
  handle_queued_lem k k' b [] w is e = same-Holds root k k' w cc
  handle_queued_lem k k' b ((number, hash, strategy) ∷ rest) w is e =
      let holds = pop_and_apply_lem k k' b hash (number, hash, strategy) rest w is in
      elim (Bool-cases (bytes_eq b.header.hash hash)) [
        | inl matches ↦ elim (Bool-cases (leb segwit_height number)) [
          | inl segwit ↦
              unless_invalid_lem k k' (verify_witness_commitment sha256 b) _ w holds
                (rw (matches, segwit) at e)
          | inr early ↦ holds (rw (matches, early) at e)
        ]
        | inr other ↦ let e' = rw other at e in same-Holds root k k' w cc
      ]

  handle_new_block_lem :
      (payload : Option Payload) (k k' : KeepUp)
      → IsWatched root k
      → handle_new_block sha256 from_utf8_lossy stored fresh payload k ≡ ok k'
      → Holds root k k'
  unfolding handle_new_block
  handle_new_block_lem (some (block b)) k k' w e = handle_queued_lem k k' b k.queue w refl e
  handle_new_block_lem _ k k' w e = cc

  step_lem :
      {k k' : KeepUp}
      → IsWatched root k
      → Step u sha256 from_utf8_lossy stored fresh k k'
      → Holds root k k'
  step_lem {k} {k'} w (sees_header header e) =
      handle_new_header_lem u from_utf8_lossy root header k k' w e
  step_lem {k} {k'} w (sees_block payload e) = handle_new_block_lem payload k k' w e

  -- Whatever headers and blocks the watcher handles without a panic, in any order, from a header chain
  -- on: the state stays a header chain with the same root, no header is forgotten or loses its mark,
  -- the total work of the top never falls, and each queued block has its header in the chain.
  pub Reach-IsWatched :
      {k k' : KeepUp}
      → IsWatched root k
      → Reach u sha256 from_utf8_lossy stored fresh k k'
      → IsWatched root k' × Keeps k.state.chain k'.state.chain
  Reach-IsWatched {k} w waits = (w, Keeps-refl k.state.chain)
  Reach-IsWatched w (and_then run step) =
      let (w', keeps) = Reach-IsWatched w run in
      let (w'', further) = step_lem w' step in (w'', Keeps-trans keeps further)
