-- ===== src/Chainman/Runs.antt =====
-- src/chainman: what happens to the chain while the program runs, in any order. Each operation holds the
-- write lock from its start to its end, so that it is one step.
pub mod Kept
use bitlens_rs.Prelude.{
  ◌==◌, false, ◌≤◌, ◌≡◌, subst, ◌∙◌, ◌⊎◌, inl, inr, Bool, Option, none, some, List, [], ◌∷◌, arith,
  Result, ok, unwrap, ◌>>=◌, Yields-eq-ok, >>=-eq-ok,
}
use bitlens_rs.Util.U256.{U256}
use bitlens_rs.Packets.Buffer.{Bytes}
use bitlens_rs.Packets.BlockHeader.{BlockHeader}
use bitlens_rs.Chainman.Chain.{
  BlockHeaderWithNumber, Chain, HeaderApplicationResult, update_most_work_chain,
}
use bitlens_rs.Chainman.Chain.Ancestors.{IsChain, insert_hash_other}
use bitlens_rs.Chainman.Walks.{calculate_downloaded_blocks, generate_top_work_chain_hashset}
use bitlens_rs.Chainman.Headers.{State, validate_and_apply_header_inner}
use bitlens_rs.Chainman.Headers.Invariant.{
  validate_and_apply_header_inner-Stored, validate_and_apply_header_inner-IsChain,
}
use bitlens_rs.Chainman.Downloads.{mark_headers, mark_as_downloaded}
use bitlens_rs.Chainman.Downloads.Marked.{mark_headers-Updates, top-Marks, marked_chain}
use bitlens_rs.Chainman.Downloads.Updates.{Marks, Marks-refl, Updates}
use bitlens_rs.Chainman.Runs.Kept.{
  Keeps, Keeps-refl, Keeps-trans, SameTree, SameTree-IsChain, hashset_loop-SameTree,
  update-SameTree,
}

module _ (u : U256) (from_utf8_lossy : Bytes → Bytes) where
  -- One operation that ends without an error or a panic; the others leave the lock poisoned or the
  -- state as it was.
  pub data Step : State → State → Type 0 where
    applies :
        {s s' : State} (header : BlockHeader) (is_headersync : Bool)
        (result : Option HeaderApplicationResult)
        → validate_and_apply_header_inner u header s is_headersync ≡ ok (s', result)
        → Step s s'
    updates :
        {s : State} (result : HeaderApplicationResult)
        → Step s (record s { chain = update_most_work_chain s.chain result })
    marks :
        {s s' : State} (blocks coinbase_asciis : List Bytes)
        → mark_as_downloaded from_utf8_lossy blocks coinbase_asciis s ≡ ok s'
        → Step s s'
    generates :
        {s : State} (chain : Chain)
        → generate_top_work_chain_hashset s.chain ≡ ok chain
        → Step s (record s { chain = chain })

  pub data Reach : State → State → Type 0 where
    start : {s : State} → Reach s s
    then_step : {s s' s'' : State} → Reach s s' → Step s' s'' → Reach s s''

module _ (u : U256) (from_utf8_lossy : Bytes → Bytes) (root : Bytes) where
  applies-IsChain :
      (header : BlockHeader) (s s' : State) (sync : Bool) (r : Option HeaderApplicationResult)
      → validate_and_apply_header_inner u header s sync ≡ ok (s', r)
      → Keeps s.chain s'.chain
  applies-IsChain header s s' sync r e =
      elim (validate_and_apply_header_inner-Stored u header s s' sync r e) [
        | inl same ↦ rw same (Keeps-refl s.chain)
        | inr stored ↦ elim stored.result [
          | inl (same, less) ↦ rw same (record {
            headers = λ hash f k. (
              f,
              insert_hash_other stored.h.header.hash hash stored.h f s.chain.known_headers
                  stored.fresh k,
              Marks-refl f,
            );
            work = omega arith;
          })
          | inr (top, more) ↦ rw top (record {
            headers = λ hash f k. (
              f,
              insert_hash_other stored.h.header.hash hash stored.h f s.chain.known_headers
                  stored.fresh k,
              Marks-refl f,
            );
            work = more;
          })
        ]
      ]

  marks_step :
      (blocks coinbase_asciis : List Bytes) (s s' : State)
      → IsChain root s.chain
      → mark_as_downloaded from_utf8_lossy blocks coinbase_asciis s ≡ ok s'
      → IsChain root s'.chain × Keeps s.chain s'.chain
  unfolding mark_as_downloaded
  marks_step blocks coinbase_asciis s s' c e =
      let top_hash = s.chain.top_header.header.hash in
      let (known, run, e₁) =
        >>=-eq-ok (mark_headers from_utf8_lossy blocks coinbase_asciis s.chain.known_headers) _ e in
      let (top, found, e₂) = >>=-eq-ok (unwrap (known top_hash)) _ e₁ in
      let chain : Chain = record s.chain {
        known_headers = known;
        top_header = record s.chain.top_header { fetched_full = top.fetched_full };
      } in
      let (count, counted, e₃) = >>=-eq-ok (calculate_downloaded_blocks chain) _ e₂ in
      let is : s'.chain ≡ chain = cc in
      let updates =
        Yields-eq-ok (Updates s.chain.known_headers)
          (mark_headers from_utf8_lossy blocks coinbase_asciis s.chain.known_headers)
          (mark_headers-Updates from_utf8_lossy blocks coinbase_asciis s.chain.known_headers) run in
      let (top', k, m) = updates.forth top_hash c.top c.top_known in
      let found' : ◌≡◌ {A = Result BlockHeaderWithNumber} (ok top') (ok top) = rw k at found in
      let same : top' ≡ top = cc in
      rw is (
        marked_chain from_utf8_lossy s.chain known top c updates
            (subst (λ t. known top_hash ≡ some t) same k)
            (subst (Marks s.chain.top_header) same (top-Marks s.chain c m)),
        record { headers = updates.forth; work = omega arith },
      )

  step_lem :
      {s s' : State}
      → IsChain root s.chain
      → Step u from_utf8_lossy s s'
      → IsChain root s'.chain × Keeps s.chain s'.chain
  step_lem {s} {s'} c (applies header sync result e) = (
    validate_and_apply_header_inner-IsChain u root header s s' sync result c e,
    applies-IsChain header s s' sync result e,
  )
  step_lem {s} c (updates result) =
      SameTree-IsChain root s.chain (update_most_work_chain s.chain result)
        (update-SameTree s.chain result) c
  step_lem {s} {s'} c (marks blocks asciis e) = marks_step blocks asciis s s' c e
  step_lem {s} c (generates chain e) =
      SameTree-IsChain root s.chain chain
        (unfold generate_top_work_chain_hashset in
          Yields-eq-ok (SameTree s.chain) (generate_top_work_chain_hashset s.chain)
            (hashset_loop-SameTree _ s.chain s.chain.top_header (λ _. false) (λ _. none)) e)
        c

  -- Whatever headers are applied, blocks marked, and indices updated or rebuilt, in any order, from a
  -- header chain on: the state stays a header chain with the same root, no header is forgotten or
  -- loses its mark, and the total work of the top never falls.
  pub Reach-IsChain :
      {s s' : State}
      → IsChain root s.chain
      → Reach u from_utf8_lossy s s'
      → IsChain root s'.chain × Keeps s.chain s'.chain
  Reach-IsChain {s} c start = (c, Keeps-refl s.chain)
  Reach-IsChain c (then_step run step) =
      let (c', k) = Reach-IsChain c run in
      let (c'', k') = step_lem c' step in (c'', Keeps-trans k k')
