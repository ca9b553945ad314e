-- ===== src/Chainman/Walks/Downloaded.antt =====
-- How far the blocks are downloaded: the first header from the top down whose block is there.
use bitlens_rs.Prelude.{
  ℕ, zero, suc, ◌+◌, ◌<◌, ◌≡◌, ◌⊎◌, inl, inr, true, false, Option, none, some, arith, ◌==◌,
  Bool-cases, Result, ok,
}
use bitlens_rs.Packets.Buffer.{Bytes}
use bitlens_rs.Chainman.Chain.{BlockHeaderWithNumber, Chain}
use bitlens_rs.Chainman.Chain.Ancestors.{
  Known, IsTree, IsChain, Linked, IsStored-Linked, top-Linked,
}
use bitlens_rs.Chainman.Walks.{
  downloaded_loop, calculate_downloaded_blocks, top_downloaded_loop, get_top_downloaded_block_hash,
}

-- `a` is the first header from `e` down whose block has been fetched.
pub data FirstFetched (known : Known) : BlockHeaderWithNumber → BlockHeaderWithNumber → Type 0 where
  fetched : {e : BlockHeaderWithNumber} → e.fetched_full ≡ true → FirstFetched known e e
  below :
      {e p a : BlockHeaderWithNumber}
      → e.fetched_full ≡ false
      → known e.header.parent ≡ some p
      → FirstFetched known p a
      → FirstFetched known e a

-- No header from `e` down to the root has its block.
pub data NoneFetched (known : Known) : BlockHeaderWithNumber → Type 0 where
  at_root :
      {e : BlockHeaderWithNumber} → e.fetched_full ≡ false → e.number ≡ 0 → NoneFetched known e
  none_below :
      {e p : BlockHeaderWithNumber}
      → e.fetched_full ≡ false
      → known e.header.parent ≡ some p
      → NoneFetched known p
      → NoneFetched known e

-- What the two walks answer, by where the first fetched header is.
abbrev pub Answers : Known → BlockHeaderWithNumber → Result ℕ → Result (Option Bytes) → Type 0
Answers known e count hash =
    ((a : BlockHeaderWithNumber) × FirstFetched known e a
      × (count ≡ ok (a.number + 1))
      × (hash ≡ ok (some a.header.hash)))
    ⊎ (NoneFetched known e × (count ≡ ok 0) × (hash ≡ ok none))

loops_lem :
    {root : Bytes} (chain : Chain) (tree : IsTree root chain.known_headers) (fuel : ℕ)
    (e : BlockHeaderWithNumber)
    → Linked chain.known_headers e
    → e.number < fuel
    → Answers chain.known_headers e
        (downloaded_loop fuel chain e)
        (top_downloaded_loop fuel chain e)
unfolding downloaded_loop top_downloaded_loop
loops_lem chain tree zero e link enough = absurd (omega arith)
loops_lem chain tree (suc fuel) e link enough = elim (Bool-cases e.fetched_full) [
  | inl full ↦ inl (e, fetched full, rw full, rw full)
  | inr missing ↦ elim link [
    | inl z ↦
        let last : (e.number == 0) ≡ true = ground arith in
        inr (at_root missing z, rw (missing, last), rw (missing, last))
    | inr (p, kp, n) ↦
        let more : (e.number == 0) ≡ false = ground arith in
        elim (loops_lem chain tree fuel p (IsStored-Linked (tree e.header.parent p kp))
          (omega arith)) [
            | inl (a, f, c, h) ↦
                inl (a, below missing kp f, rw (missing, more, kp) c, rw (missing, more, kp) h)
            | inr (f, c, h) ↦
                inr (none_below missing kp f, rw (missing, more, kp) c, rw (missing, more, kp) h)
          ]
  ]
]

-- On a header chain both walks end without a panic and agree: the count of downloaded blocks is one
-- above the number of the first header from the top down whose block was fetched, and the hash is that
-- header's; where no block was fetched, they answer 0 and none.
pub calculate_downloaded_blocks_lem :
    (root : Bytes) (chain : Chain)
    → IsChain root chain
    → Answers chain.known_headers chain.top_header
        (calculate_downloaded_blocks chain)
        (get_top_downloaded_block_hash chain)
unfolding calculate_downloaded_blocks get_top_downloaded_block_hash
calculate_downloaded_blocks_lem root chain c =
    loops_lem chain c.tree (chain.top_header.number + 1) chain.top_header (top-Linked chain c)
      (omega arith)
