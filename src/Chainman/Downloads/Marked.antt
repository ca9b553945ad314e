-- ===== src/Chainman/Downloads/Marked.antt =====
-- Marking blocks keeps the header chain, and the copy at the top in step.
use bitlens_rs.Prelude.{
  ℕ, ◌+◌, ◌≤◌, ◌≡◌, refl, ◌∙◌, inl, inr, true, some, List, [], ◌∷◌, arith, length, All, ok, Yields,
  Yields->>=, Yields-mono, Yields-ok, Yields-unwrap, unwrap,
}
use bitlens_rs.Packets.Buffer.{Bytes}
use bitlens_rs.Chainman.Chain.{BlockHeaderWithNumber, Chain, insert_hash}
use bitlens_rs.Chainman.Chain.Ancestors.{Known, IsChain, insert_hash_self}
use bitlens_rs.Chainman.Headers.{State}
use bitlens_rs.Chainman.Walks.{calculate_downloaded_blocks}
use bitlens_rs.Chainman.Walks.Downloaded.{calculate_downloaded_blocks_lem}
use bitlens_rs.Chainman.Downloads.{mark_headers, mark_as_downloaded}
use bitlens_rs.Chainman.Downloads.Updates.{
  IsTree-Updates, Marks, Updates, Updates-insert, Updates-refl, Updates-trans, marks_lem,
}

abbrev pub IsKnown : Known → Bytes → Type 0
IsKnown known hash = (e : BlockHeaderWithNumber) × (known hash ≡ some e)

abbrev pub IsFetched : Known → Bytes → Type 0
IsFetched known hash = (e : BlockHeaderWithNumber) × (known hash ≡ some e) × (e.fetched_full ≡ true)

All-IsKnown :
    {known known' : Known}
    → Updates known known'
    → (blocks : List Bytes) → All (IsKnown known) blocks
    → All (IsKnown known') blocks
All-IsKnown u [] h = tt
All-IsKnown u (b ∷ blocks) ((e, k), h) =
    let (e', k', _) = u.forth b e k in ((e', k'), All-IsKnown u blocks h)

-- Marks of the stored top are marks of its copy.
pub top-Marks :
    {root : Bytes} (chain : Chain) (c : IsChain root chain) {e : BlockHeaderWithNumber}
    → Marks c.top e
    → Marks chain.top_header e
top-Marks chain c m = record {
  header_eq = m.header_eq ∙ c.top_same.header_eq;
  number_eq = m.number_eq ∙ c.top_same.number_eq;
  work_eq = m.work_eq ∙ c.top_same.work_eq;
  still_fetched = λ f. m.still_fetched (c.top_same.fetched_eq ∙ f);
}

pub count_of :
    (root : Bytes) (chain : Chain)
    → IsChain root chain
    → (count : ℕ) × (calculate_downloaded_blocks chain ≡ ok count)
count_of root chain c = elim (calculate_downloaded_blocks_lem root chain c) [
  | inl (a, _, counted, _) ↦ (a.number + 1, counted)
  | inr (_, counted, _) ↦ (0, counted)
]

module _ (from_utf8_lossy : Bytes → Bytes) where
  -- However many blocks there are.
  pub mark_headers-Updates :
      (blocks coinbase_asciis : List Bytes) (known : Known)
      → Yields (Updates known) (mark_headers from_utf8_lossy blocks coinbase_asciis known)
  unfolding mark_headers
  mark_headers-Updates [] asciis known = Yields-ok (Updates known) known (Updates-refl known)
  mark_headers-Updates (b ∷ blocks) [] known = Yields-ok (Updates known) known (Updates-refl known)
  mark_headers-Updates (b ∷ blocks) (a ∷ asciis) known =
      Yields->>= (Updates known) (unwrap (known b)) _ (λ e. known b ≡ some e)
        (Yields-unwrap (known b))
        λ e k.
          let marked : BlockHeaderWithNumber = record e {
            fetched_full = true;
            coinbase_ascii = some (from_utf8_lossy a);
          } in
          let known₁ = insert_hash b marked known in
          let u₁ = Updates-insert known b e marked k (marks_lem e (from_utf8_lossy a)) in
          Yields-mono (Updates known₁) (Updates known)
            (mark_headers from_utf8_lossy blocks asciis known₁)
            (mark_headers-Updates blocks asciis known₁) λ known₂ u₂. Updates-trans u₁ u₂

  mark_headers_lem :
      (blocks coinbase_asciis : List Bytes) (known : Known)
      → All (IsKnown known) blocks
      → length blocks ≤ length coinbase_asciis
      → (known' : Known) × (mark_headers from_utf8_lossy blocks coinbase_asciis known ≡ ok known')
        × Updates known known'
        × All (IsFetched known') blocks
  unfolding mark_headers
  mark_headers_lem [] asciis known h enough = (known, refl, Updates-refl known, tt)
  mark_headers_lem (b ∷ blocks) [] known h enough = absurd (omega arith)
  mark_headers_lem (b ∷ blocks) (a ∷ asciis) known ((e, k), h) enough =
      let marked : BlockHeaderWithNumber = record e {
        fetched_full = true;
        coinbase_ascii = some (from_utf8_lossy a);
      } in
      let known₁ = insert_hash b marked known in
      let u₁ = Updates-insert known b e marked k (marks_lem e (from_utf8_lossy a)) in
      let (known₂, run, u₂, all) =
        mark_headers_lem blocks asciis known₁ (All-IsKnown u₁ blocks h) (omega arith) in
      let (e₂, k₂, m) = u₂.forth b marked (insert_hash_self b marked known) in
      (known₂, rw k run, Updates-trans u₁ u₂, ((e₂, k₂, m.still_fetched refl), all))

  pub marked_chain :
      {root : Bytes} (chain : Chain) (known : Known) (top : BlockHeaderWithNumber)
      → IsChain root chain
      → Updates chain.known_headers known
      → known chain.top_header.header.hash ≡ some top
      → Marks chain.top_header top
      → IsChain root (record chain {
        known_headers = known;
        top_header = record chain.top_header { fetched_full = top.fetched_full };
      })
  marked_chain chain known top c u k m = record {
    tree = IsTree-Updates u c.tree;
    top = top;
    top_known = k;
    top_same = record {
      header_eq = m.header_eq;
      number_eq = m.number_eq;
      fetched_eq = refl;
      work_eq = m.work_eq;
    };
    best = λ hash e' k'.
        let (e, ke, me) = u.back hash e' k' in
        let w = c.best hash e ke in let w' = me.work_eq in omega arith;
  }

  -- If all blocks are known in a header chain and each has a coinbase text, marking them ends without
  -- a panic and leaves a header chain, in which the same headers are known, each of the blocks is
  -- fetched, and the counter is what `calculate_downloaded_blocks` answers.
  pub mark_as_downloaded_lem :
      (root : Bytes) (blocks coinbase_asciis : List Bytes) (s : State)
      → IsChain root s.chain
      → All (IsKnown s.chain.known_headers) blocks
      → length blocks ≤ length coinbase_asciis
      → (s' : State) × (mark_as_downloaded from_utf8_lossy blocks coinbase_asciis s ≡ ok s')
        × IsChain root s'.chain
        × Updates s.chain.known_headers s'.chain.known_headers
        × All (IsFetched s'.chain.known_headers) blocks
        × (calculate_downloaded_blocks s'.chain ≡ ok s'.downloaded_blocks)
  unfolding mark_as_downloaded
  mark_as_downloaded_lem root blocks asciis s c h enough =
      let (known, run, u, all) = mark_headers_lem blocks asciis s.chain.known_headers h enough in
      let (top, k, m) = u.forth s.chain.top_header.header.hash c.top c.top_known in
      let m' = top-Marks s.chain c m in
      let c' = marked_chain s.chain known top c u k m' in
      let chain : Chain = record s.chain {
        known_headers = known;
        top_header = record s.chain.top_header { fetched_full = top.fetched_full };
      } in
      let (count, counted) = count_of root chain c' in
      (
        record s { chain = chain; downloaded_blocks = count },
        rw (run, k, counted) refl,
        c',
        u,
        all,
        counted,
      )
