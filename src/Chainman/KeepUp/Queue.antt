-- ===== src/Chainman/KeepUp/Queue.antt =====
-- The numbers that the blocks of a new branch get in the queue.
use bitlens_rs.Prelude.{
  ℕ, ◌+◌, ◌-◌, ◌%◌, ◌^◌, ◌<◌, ◌≡◌, refl, sym, ap, subst, ◌∙◌, ◌⊎◌, inl, inr, false, Option, none,
  some, List, [], ◌∷◌, ◌++◌, reverse, arith, panic, stuck, err, ◌==◌, length, All, Bool-cases,
  Result, ok, add_usize,
}
use bitlens_rs.Util.U256.{U256}
use bitlens_rs.Packets.Buffer.{Bytes}
use bitlens_rs.Packets.BlockHeader.{BlockHeader}
use bitlens_rs.Chainman.Chain.{BlockHeaderWithNumber, HeaderApplicationResult}
use bitlens_rs.Chainman.Chain.Ancestors.{Known, IsTree, IsRooted}
use bitlens_rs.Chainman.Headers.{State, Visited, validate_and_apply_header_inner}
use bitlens_rs.Chainman.Headers.Results.{Reported, validate_and_apply_header_inner-Reported}
use bitlens_rs.Chainman.Runs.Kept.{update-SameTree}
use bitlens_rs.Chainman.KeepUp.{
  FrontPageDataUpdateStrategy, append_only, regenerate_from_scratch, QueuedBlock, KeepUp, is_known,
  first_of_fork, queue_fork, queue_blocks, take_over, after_application, handle_new_header,
}
use bitlens_rs.Chainman.KeepUp.Branch.{Upward, length-reverse, reverse-Upward, visit_fork-Downward}

-- Queued with its own number.
abbrev pub AtNumber : Known → QueuedBlock → Type 0
AtNumber known (number, hash, strategy) =
    (e : BlockHeaderWithNumber) × (known hash ≡ some e) × (number ≡ e.number)

-- Queued with the number of the block two below it, modulo 2^64.
abbrev pub TwoBelow : Known → QueuedBlock → Type 0
TwoBelow known (number, hash, strategy) =
    (e : BlockHeaderWithNumber) × (known hash ≡ some e)
    × (number ≡ (e.number + (2 ^ 64 - 2)) % 2 ^ 64)

queue_fork-TwoBelow :
    (known : Known) (n first : ℕ) (strategy : FrontPageDataUpdateStrategy) (blocks : Visited)
    → Upward known n blocks
    → first ≡ (n + (2 ^ 64 - 2)) % 2 ^ 64
    → All (TwoBelow known) (queue_fork first strategy blocks)
unfolding queue_fork
queue_fork-TwoBelow known n first strategy [] up two = tt
queue_fork-TwoBelow known n first strategy ((h, m) ∷ blocks) ((e, k, at), up) two = (
  (e, k, omega arith),
  queue_fork-TwoBelow known (n + 1) (add_usize first 1) append_only blocks up (omega arith),
)

first_of_fork_lem :
    (top count n : ℕ)
    → n + count ≡ top + 1
    → top < 2 ^ 63
    → first_of_fork top count ≡ (n + (2 ^ 64 - 2)) % 2 ^ 64
unfolding first_of_fork
first_of_fork_lem top count n all below = omega arith

-- One block, with its own number; or more, each with the number of the block two below it.
abbrev pub Queued : Known → List QueuedBlock → Type 0
Queued known added =
    ((b : QueuedBlock) × (added ≡ b ∷ []) × AtNumber known b)
    ⊎ ((1 < length added) × All (TwoBelow known) added)

length-queue_fork :
    (first : ℕ) (strategy : FrontPageDataUpdateStrategy) (blocks : Visited)
    → length (queue_fork first strategy blocks) ≡ length blocks
unfolding queue_fork
length-queue_fork first strategy [] = refl
length-queue_fork first strategy ((h, m) ∷ blocks) =
    omega (arith, length-queue_fork (add_usize first 1) append_only blocks)

module _ {root : Bytes} (header : BlockHeader) (s : State) (r : HeaderApplicationResult)
    (tree : IsTree root s.chain.known_headers) (rooted : IsRooted s.chain.known_headers)
    (reported : Reported header s r) where
  abbrev known : Known
  known = s.chain.known_headers

  abbrev top_number : ℕ
  top_number = s.chain.top_header.number

  one_block : AtNumber known (top_number, header.hash, append_only)
  one_block =
      let h = reported.h in
      (
        h,
        subst (λ (b : BlockHeader). known b.hash ≡ some h) reported.is_header reported.is_known,
        ap (λ (b : BlockHeaderWithNumber). b.number) reported.is_top,
      )

  branch_lem :
      (blocks : Visited) (n : ℕ)
      → Upward known n blocks
      → n + length blocks ≡ top_number + 1
      → top_number < 2 ^ 63
      → 0 < length blocks
      → Queued known (queue_blocks header.hash top_number blocks)
  unfolding queue_blocks
  branch_lem blocks n up all below some_block = elim (Bool-cases (length blocks == 1)) [
    | inl one ↦ rw one (inl ((top_number, header.hash, append_only), refl, one_block))
    | inr more ↦
        let first = first_of_fork top_number (length blocks) in
        let long : 1 < length blocks = ground arith in
        rw more (
          inr (
            omega (arith, length-queue_fork first regenerate_from_scratch blocks),
            queue_fork-TwoBelow known n first regenerate_from_scratch blocks up
                (first_of_fork_lem top_number (length blocks) n all below),
          ))
  ]

  pub queue_blocks-Queued : Queued known (queue_blocks header.hash top_number r.added_blocks)
  queue_blocks-Queued =
      let h = reported.h in
      let number = ap (λ (b : BlockHeaderWithNumber). b.number) reported.is_top in
      let bound = rooted.bounded h.header.hash h reported.is_known in
      elim reported.added [
        | inl alone ↦
            subst (λ blocks. Queued known (queue_blocks header.hash top_number blocks)) (sym alone)
              (branch_lem ((h.header.hash, h.number) ∷ []) h.number
                ((h, reported.is_known, refl), tt) (omega arith) (omega arith) (omega arith))
        | inr (top, new, old, parent_number, visited, is) ↦
            let (end, down, some_block) =
              visit_fork-Downward known top h parent_number new old reported.is_known visited in
            let (n, wide, up) =
              reverse-Upward tree rooted h.header.hash end new h reported.is_known down
                some_block in
            subst (λ blocks. Queued known (queue_blocks header.hash top_number blocks)) (sym is)
              (branch_lem (reverse new) n up (omega (arith, length-reverse new)) (omega arith)
                (omega (arith, length-reverse new)))
      ]

-- What a header changes: nothing of the queue and of what is broadcast, or it is the new top.
abbrev pub Extends : BlockHeader → KeepUp → KeepUp → Type 0
Extends header k k' =
    ((k'.queue ≡ k.queue) × (k'.new_headers ≡ k.new_headers))
    ⊎ ((k'.state.chain.top_header.header ≡ header)
        × (k'.new_headers ≡ k.new_headers ++ (header.hash ∷ []))
        × ((added : List QueuedBlock) × (k'.queue ≡ k.queue ++ added)
            × Queued k'.state.chain.known_headers added))

module _ {root : Bytes} (u : U256) (header : BlockHeader) where
  take_over-Extends :
      (k : KeepUp) (s : State) (r : HeaderApplicationResult)
      → Reported header s r
      → IsTree root (take_over header k s r).state.chain.known_headers
      → IsRooted (take_over header k s r).state.chain.known_headers
      → Extends header k (take_over header k s r)
  unfolding take_over
  take_over-Extends k s r reported tree rooted =
      let (known, top) = update-SameTree s.chain r in
      let is : s.chain.top_header.header ≡ header =
        ap (λ (b : BlockHeaderWithNumber). b.header) reported.is_top ∙ reported.is_header in
      inr (
        ap (λ (b : BlockHeaderWithNumber). b.header) top ∙ is,
        ap (λ (b : BlockHeader). k.new_headers ++ (b.hash ∷ [])) is,
        (
          queue_blocks header.hash s.chain.top_header.number r.added_blocks,
          refl,
          subst (λ m. Queued m (queue_blocks header.hash s.chain.top_header.number r.added_blocks))
              (sym known)
              (queue_blocks-Queued header s r (subst (IsTree root) known tree)
                (subst IsRooted known rooted) reported),
        ),
      )

  after_application-Extends :
      (k k' : KeepUp) (result : Result (State × Option HeaderApplicationResult))
      → ((s : State) (r : HeaderApplicationResult) → result ≡ ok (s, some r) → Reported header s r)
      → after_application header k result ≡ ok k'
      → IsTree root k'.state.chain.known_headers
      → IsRooted k'.state.chain.known_headers
      → Extends header k k'
  unfolding after_application
  after_application-Extends k k' panic reported e tree rooted = cc
  after_application-Extends k k' stuck reported e tree rooted = cc
  after_application-Extends k k' (err message) reported e tree rooted =
      let same : k ≡ k' = cc in inl (rw same refl, rw same refl)
  after_application-Extends k k' (ok (s, none)) reported e tree rooted =
      let same : record k { state = s } ≡ k' = cc in
      inl (ap (λ (x : KeepUp). x.queue) (sym same), ap (λ (x : KeepUp). x.new_headers) (sym same))
  after_application-Extends k k' (ok (s, some r)) reported e tree rooted =
      let same : take_over header k s r ≡ k' = cc in
      subst (Extends header k) same (
        take_over-Extends k s r (reported s r refl)
          (subst (λ (x : KeepUp). IsTree root x.state.chain.known_headers) (sym same) tree)
          (subst (λ (x : KeepUp). IsRooted x.state.chain.known_headers) (sym same) rooted))

  -- When a header is handled without a panic and the headers known after it are a tree whose root
  -- has an unknown parent and whose numbers are below 2^63: the queue and what was broadcast are as
  -- before, or the header is the top, its hash has been broadcast, and the queue has grown by known
  -- blocks: either by one with its own number, or by more, of which each has the number of the block
  -- two below it, modulo 2^64.
  pub handle_new_header-Extends :
      (k k' : KeepUp)
      → IsTree root k'.state.chain.known_headers
      → IsRooted k'.state.chain.known_headers
      → handle_new_header u header k ≡ ok k'
      → Extends header k k'
  unfolding handle_new_header
  handle_new_header-Extends k k' tree rooted e =
      elim (Bool-cases (is_known (k.state.chain.known_headers header.hash))) [
        | inl old ↦
            let e' = rw old at e in let same : k ≡ k' = cc in inl (rw same refl, rw same refl)
        | inr new ↦ elim (Bool-cases (is_known (k.state.chain.known_headers header.parent))) [
          | inl joined ↦
              after_application-Extends k k'
                (validate_and_apply_header_inner u header k.state false)
                (λ s r. validate_and_apply_header_inner-Reported u header k.state s r)
                (rw (new, joined) at e) tree rooted
          | inr alone ↦
              let e' = rw (new, alone) at e in
              let same : k ≡ k' = cc in inl (rw same refl, rw same refl)
        ]
      ]
