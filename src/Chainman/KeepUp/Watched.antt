-- ===== src/Chainman/KeepUp/Watched.antt =====
-- What the watcher keeps true while headers and blocks come in.
use bitlens_rs.Prelude.{
  ◌≡◌, refl, sym, subst, inl, inr, false, Option, none, some, List, [], ◌∷◌, ◌++◌, ◌==◌, length,
  All, All-append, All-reverse, Bool-cases, Result, ok, err, panic, stuck, add_usize,
}
use bitlens_rs.Util.U256.{U256}
use bitlens_rs.Packets.Buffer.{Bytes}
use bitlens_rs.Packets.BlockHeader.{BlockHeader}
use bitlens_rs.Chainman.Chain.{
  BlockHeaderWithNumber, Chain, HeaderApplicationResult, update_most_work_chain,
}
use bitlens_rs.Chainman.Chain.Ancestors.{Known, IsChain}
use bitlens_rs.Chainman.Headers.{State, Visited, validate_and_apply_header_inner}
use bitlens_rs.Chainman.Headers.Results.{Reported, validate_and_apply_header_inner-Reported}
use bitlens_rs.Chainman.Runs.{start, then_step, applies, updates, Reach-IsChain}
use bitlens_rs.Chainman.Runs.Kept.{Keeps, Keeps-refl, update-SameTree}
use bitlens_rs.Chainman.KeepUp.{
  FrontPageDataUpdateStrategy, append_only, regenerate_from_scratch, QueuedBlock, KeepUp, is_known,
  first_of_fork, queue_fork, queue_blocks, take_over, after_application, handle_new_header,
}
use bitlens_rs.Chainman.KeepUp.Branch.{Downward, visit_fork-Downward}

abbrev pub HasHeader : Known → Bytes → Type 0
HasHeader known hash = (e : BlockHeaderWithNumber) × (known hash ≡ some e)

abbrev pub QueueIsKnown : Known → List QueuedBlock → Type 0
QueueIsKnown known queue = All (λ (number, hash, strategy). HasHeader known hash) queue

-- The state is a header chain, and the queued blocks have their headers in it.
pub record IsWatched (root : Bytes) (k : KeepUp) : Type 0 where
  pub chain : IsChain root k.state.chain
  pub queue : QueueIsKnown k.state.chain.known_headers k.queue

pub still_known :
    (a b : Chain) (queue : List QueuedBlock)
    → Keeps a b
    → QueueIsKnown a.known_headers queue
    → QueueIsKnown b.known_headers queue
still_known a b [] keeps stored = tt
still_known a b ((n, h, s) ∷ queue) keeps ((e, k), stored) =
    let (e', k', _) = keeps.headers h e k in ((e', k'), still_known a b queue keeps stored)

abbrev HaveHeaders : Known → Visited → Type 0
HaveHeaders known blocks = All (λ (hash, number). HasHeader known hash) blocks

Downward-HaveHeaders :
    (known : Known) (hash : Bytes) (blocks : Visited) (end : Bytes)
    → Downward known hash blocks end
    → HaveHeaders known blocks
Downward-HaveHeaders known hash [] end down = tt
Downward-HaveHeaders known hash ((h, n) ∷ blocks) end (at, (e, k, down)) =
    ((e, rw at k), Downward-HaveHeaders known e.header.parent blocks end down)

queue_fork-QueueIsKnown :
    (known : Known) (first : _) (strategy : FrontPageDataUpdateStrategy) (blocks : Visited)
    → HaveHeaders known blocks
    → QueueIsKnown known (queue_fork first strategy blocks)
unfolding queue_fork
queue_fork-QueueIsKnown known first strategy [] stored = tt
queue_fork-QueueIsKnown known first strategy ((h, n) ∷ blocks) (here, stored) =
    (here, queue_fork-QueueIsKnown known (add_usize first 1) append_only blocks stored)

queue_blocks-QueueIsKnown :
    (known : Known) (hash : Bytes) (top : _) (blocks : Visited)
    → HasHeader known hash
    → HaveHeaders known blocks
    → QueueIsKnown known (queue_blocks hash top blocks)
unfolding queue_blocks
queue_blocks-QueueIsKnown known hash top blocks here stored =
    elim (Bool-cases (length blocks == 1)) [
      | inl one ↦ rw one (here, tt)
      | inr more ↦ rw more (
          queue_fork-QueueIsKnown known (first_of_fork top (length blocks)) regenerate_from_scratch
            blocks stored)
    ]

Reported-QueueIsKnown :
    (header : BlockHeader) (s : State) (r : HeaderApplicationResult)
    → Reported header s r
    → QueueIsKnown s.chain.known_headers
        (queue_blocks header.hash s.chain.top_header.number r.added_blocks)
Reported-QueueIsKnown header s r reported =
    let h = reported.h in
    let known = s.chain.known_headers in
    let here : HasHeader known header.hash = (
      h,
      subst (λ (b : BlockHeader). known b.hash ≡ some h) reported.is_header reported.is_known,
    ) in
    queue_blocks-QueueIsKnown known header.hash s.chain.top_header.number r.added_blocks here
      (elim reported.added [
        | inl alone ↦ rw alone ((h, reported.is_known), tt)
        | inr (top, new, old, parent_number, visited, is) ↦
            let (end, down, _) =
              visit_fork-Downward known top h parent_number new old reported.is_known visited in
            rw is (
              All-reverse (λ (hash, number). HasHeader known hash) new
                (Downward-HaveHeaders known h.header.hash new end down))
      ])

module _ (root : Bytes) where
  abbrev pub Holds : KeepUp → KeepUp → Type 0
  Holds k k' = IsWatched root k' × Keeps k.state.chain k'.state.chain

  pub same-Holds : (k k' : KeepUp) → IsWatched root k → k ≡ k' → Holds k k'
  same-Holds k k' w same = subst (Holds k) same (w, Keeps-refl k.state.chain)

  -- A state that the header chain's own operations reach, and a queue of known blocks.
  pub still_watched :
      (k : KeepUp) (s : State) (queue : List QueuedBlock) (new_headers applied_blocks : List Bytes)
      → IsWatched root k
      → IsChain root s.chain × Keeps k.state.chain s.chain
      → QueueIsKnown s.chain.known_headers queue
      → Holds k (record {
        state = s;
        queue = queue;
        new_headers = new_headers;
        applied_blocks = applied_blocks;
      })
  still_watched k s queue new_headers applied_blocks w (chain, keeps) known =
      (record { chain = chain; queue = known }, keeps)

module _ (u : U256) (from_utf8_lossy : Bytes → Bytes) (root : Bytes) where
  take_over_lem :
      (header : BlockHeader) (k : KeepUp) (s : State) (r : HeaderApplicationResult)
      → IsWatched root k
      → validate_and_apply_header_inner u header k.state false ≡ ok (s, some r)
      → Holds root k (take_over header k s r)
  unfolding take_over
  take_over_lem header k s r w e =
      let reached =
        Reach-IsChain u from_utf8_lossy root w.chain
          (then_step (then_step start (applies header false (some r) e)) (updates r)) in
      let (first, keeps) =
        Reach-IsChain u from_utf8_lossy root w.chain
          (then_step start (applies header false (some r) e)) in
      let added_queue = queue_blocks header.hash s.chain.top_header.number r.added_blocks in
      let added =
        Reported-QueueIsKnown header s r
          (validate_and_apply_header_inner-Reported u header k.state s r e) in
      let old = still_known k.state.chain s.chain k.queue keeps w.queue in
      let same = (update-SameTree s.chain r).0 in
      still_watched root k (record s { chain = update_most_work_chain s.chain r }) _ _ _ w reached
        (subst (λ known. QueueIsKnown known (k.queue ++ added_queue)) (sym same)
          (All-append (λ (number, hash, strategy). HasHeader s.chain.known_headers hash) k.queue
            added_queue old added))

  after_application_lem :
      (header : BlockHeader) (k k' : KeepUp)
      (result : Result (State × Option HeaderApplicationResult))
      → IsWatched root k
      → validate_and_apply_header_inner u header k.state false ≡ result
      → after_application header k result ≡ ok k'
      → Holds root k k'
  unfolding after_application
  after_application_lem header k k' panic w run e = cc
  after_application_lem header k k' stuck w run e = cc
  after_application_lem header k k' (err message) w run e = same-Holds root k k' w cc
  after_application_lem header k k' (ok (s, none)) w run e =
      let same : record k { state = s } ≡ k' = cc in
      let reached =
        Reach-IsChain u from_utf8_lossy root w.chain
          (then_step start (applies header false none run)) in
      subst (Holds root k) same (
        still_watched root k s k.queue _ _ w reached
          (still_known k.state.chain s.chain k.queue reached.1 w.queue))
  after_application_lem header k k' (ok (s, some r)) w run e =
      let same : take_over header k s r ≡ k' = cc in
      subst (Holds root k) same (take_over_lem header k s r w run)

  pub handle_new_header_lem :
      (header : BlockHeader) (k k' : KeepUp)
      → IsWatched root k
      → handle_new_header u header k ≡ ok k'
      → Holds root k k'
  unfolding handle_new_header
  handle_new_header_lem header k k' w e =
      elim (Bool-cases (is_known (k.state.chain.known_headers header.hash))) [
        | inl old ↦ let e' = rw old at e in same-Holds root k k' w cc
        | inr new ↦ elim (Bool-cases (is_known (k.state.chain.known_headers header.parent))) [
          | inl joined ↦
              after_application_lem header k k'
                (validate_and_apply_header_inner u header k.state false) w refl
                (rw (new, joined) at e)
          | inr alone ↦ let e' = rw (new, alone) at e in same-Holds root k k' w cc
        ]
      ]
