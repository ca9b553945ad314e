-- ===== src/Chainman/Tests.antt =====
-- A small header chain: the root, a header above it, and a second branch of two.
mod Syncing
mod Downloading
mod Spending
mod Keeping
use bitlens_rs.Prelude.{
  ◌+◌, ◌-◌, ◌%◌, ◌&&◌, ◌||◌, not, if◌then◌else◌, ◌==◌, ℕ, ◌^◌, ◌≤◌, ◌<◌, ◌≡◌, refl, sym, subst, ◌↔◌,
  ◌⊎◌, inl, inr, Bool, true, false, Option, none, some, [], ◌∷◌, arith, All, ok, panic,
}
use bitlens_rs.Util.U256.Reference.{reference, in_range, checked_div}
use bitlens_rs.Util.Pow.{calculate_next_work_required}
use bitlens_rs.Chainman.Chain.Updates.{names, update_most_work_chain_lem}
use bitlens_rs.Chainman.Chain.Difficulty.{get_next_bits_required_lem}
use bitlens_rs.Util.Compact.{u256_from_compact}
use bitlens_rs.Packets.Buffer.{Bytes}
use bitlens_rs.Packets.BlockHeader.{BlockHeader, get_work}
use bitlens_rs.Chainman.Chain.{
  BlockHeaderWithNumber, Chain, HeaderApplicationResult, insert_hash, update_most_work_chain,
  get_ancestor, get_next_bits_required,
}
use bitlens_rs.Chainman.Chain.Ancestors.{
  Known, IsTree, IsRooted, IsChain, Ancestor, insert_hash_cases, get_ancestor_lem,
}
use bitlens_rs.Chainman.Headers.{
  State, Visited, old_loop, join_loop, visit_fork, apply_fork, become_top, apply_known,
  number_header, apply_fresh, validate_and_apply_header_inner,
}
use bitlens_rs.Chainman.Headers.Invariant.{IsTree-insert, validate_and_apply_header_inner-IsChain}
use bitlens_rs.Chainman.Headers.Forks.{OneAbove, visit_fork-OneAbove, visit_fork_panics}
use bitlens_rs.Chainman.Walks.{
  downloaded_loop, calculate_downloaded_blocks, get_top_downloaded_block_hash,
  generate_top_work_chain_hashset,
}
use bitlens_rs.Chainman.Walks.Downloaded.{Answers, calculate_downloaded_blocks_lem}
use bitlens_rs.Chainman.Walks.MostWork.{generate_top_work_chain_hashset_lem}

abbrev plain_header : Bytes → Bytes → BlockHeader
plain_header hash parent = record {
  version = 1;
  parent = parent;
  merkle_root = [];
  timestamp = 0;
  bits = 0x207fffff;
  nonce = 0;
  txs_count = 0;
  hash = hash;
}

abbrev numbered : Bytes → Bytes → ℕ → ℕ → BlockHeaderWithNumber
numbered hash parent number work = record {
  header = plain_header hash parent;
  number = number;
  fetched_full = false;
  total_work = work;
  coinbase_ascii = none;
}

abbrev genesis : BlockHeaderWithNumber
genesis = numbered (1 ∷ []) (0 ∷ []) 0 2

abbrev left : BlockHeaderWithNumber
left = numbered (2 ∷ []) (1 ∷ []) 1 4

abbrev right : BlockHeaderWithNumber
right = numbered (3 ∷ []) (1 ∷ []) 1 4

abbrev above_right : BlockHeaderWithNumber
above_right = numbered (4 ∷ []) (3 ∷ []) 2 6

abbrev known₀ : Known
known₀ = insert_hash (1 ∷ []) genesis (λ _. none)

abbrev known₁ : Known
known₁ = insert_hash (2 ∷ []) left known₀

abbrev known₂ : Known
known₂ = insert_hash (3 ∷ []) right known₁

known₀_cases :
    (hash : Bytes) (e : BlockHeaderWithNumber)
    → known₀ hash ≡ some e
    → (hash ≡ 1 ∷ []) × (e ≡ genesis)
known₀_cases hash e found = elim (insert_hash_cases (1 ∷ []) hash genesis e (λ _. none) found) [
  | inl (same, is) ↦ (cc, cc)
  | inr nothing ↦ cc
]

known₀-IsTree : IsTree (1 ∷ []) known₀
known₀-IsTree hash e found =
    let (same, is) = known₀_cases hash e found in
    record { under_hash = cc; linked = inl (cc, same) }

known₁-IsTree : IsTree (1 ∷ []) known₁
unfolding insert_hash
known₁-IsTree = IsTree-insert known₀-IsTree left genesis refl refl refl

known₂-IsTree : IsTree (1 ∷ []) known₂
unfolding insert_hash
known₂-IsTree = IsTree-insert known₁-IsTree right genesis refl refl refl

-- A stored header is one of the three.
known₂_cases :
    (hash : Bytes) (e : BlockHeaderWithNumber)
    → known₂ hash ≡ some e
    → (e ≡ right) ⊎ ((e ≡ left) ⊎ (e ≡ genesis))
known₂_cases hash e found = elim (insert_hash_cases (3 ∷ []) hash right e known₁ found) [
  | inl (_, is) ↦ inl (cc)
  | inr found₁ ↦ elim (insert_hash_cases (2 ∷ []) hash left e known₀ found₁) [
    | inl (_, is) ↦ inr (inl (cc))
    | inr found₀ ↦ inr (inr (known₀_cases hash e found₀).1)
  ]
]

of_known₂ :
    (P : BlockHeaderWithNumber → Type 0)
    → P right
    → P left
    → P genesis
    → (hash : Bytes) (e : BlockHeaderWithNumber) → known₂ hash ≡ some e
    → P e
of_known₂ P r l g hash e found = elim (known₂_cases hash e found) [
  | inl is ↦ subst P (sym is) r
  | inr (inl is) ↦ subst P (sym is) l
  | inr (inr is) ↦ subst P (sym is) g
]

known₂-IsRooted : IsRooted known₂
unfolding insert_hash
known₂-IsRooted = record {
  open_root =
      of_known₂ (λ e. e.number ≡ 0 → known₂ e.header.parent ≡ none) (λ z. absurd (omega arith))
        (λ z. absurd (omega arith)) (λ z. refl);
  bounded = of_known₂ (λ e. e.number < 2 ^ 63) (omega arith) (omega arith) (omega arith);
}

abbrev forked : Chain
forked = record {
  top_header = left;
  known_headers = known₂;
  number_to_hash = λ _. none;
  most_work_chain = λ _. false;
}

forked-IsChain : IsChain (1 ∷ []) forked
unfolding insert_hash
forked-IsChain = record {
  tree = known₂-IsTree;
  top = left;
  top_known = refl;
  top_same = record { header_eq = refl; number_eq = refl; fetched_eq = refl; work_eq = refl };
  best = of_known₂ (λ e. e.total_work ≤ 4) (omega arith) (omega arith) (omega arith);
}

get_ancestor_lem_example :
    (a : BlockHeaderWithNumber) × (get_ancestor forked right 0 ≡ ok (some a))
    × (a.number ≡ 0)
    × Ancestor known₂ right a
unfolding insert_hash
get_ancestor_lem_example = get_ancestor_lem forked (3 ∷ []) right 0 known₂-IsTree refl (omega arith)

calculate_downloaded_blocks_lem_example :
    Answers known₂ left (calculate_downloaded_blocks forked) (get_top_downloaded_block_hash forked)
calculate_downloaded_blocks_lem_example =
    calculate_downloaded_blocks_lem (1 ∷ []) forked forked-IsChain

generate_top_work_chain_hashset_lem_example :
    (hashes : Bytes → Bool) × (numbers : ℕ → Option Bytes) × (generate_top_work_chain_hashset forked
      ≡ ok (record forked { most_work_chain = hashes; number_to_hash = numbers }))
    × ((h : Bytes)
        → (hashes h ≡ true)
          ↔ ((a : BlockHeaderWithNumber) × Ancestor known₂ left a × (a.header.hash ≡ h)))
    × ((n : ℕ) (h : Bytes)
        → (numbers n ≡ some h) ↔ (
            (a : BlockHeaderWithNumber) × Ancestor known₂ left a
            × (a.number ≡ n)
            × (a.header.hash ≡ h)))
generate_top_work_chain_hashset_lem_example =
    generate_top_work_chain_hashset_lem (1 ∷ []) forked forked-IsChain known₂-IsRooted

-- The block with the hash 3 has the number 1, and is returned under the number 2. The old top is
-- returned twice.
abbrev branch : Visited
branch = (4 ∷ [], 2) ∷ (3 ∷ [], 2) ∷ []

abbrev left_branch : Visited
left_branch = (2 ∷ [], 1) ∷ (2 ∷ [], 1) ∷ []

visit_fork_run : visit_fork known₂ left above_right 1 ≡ ok (branch, left_branch)
unfolding visit_fork old_loop join_loop insert_hash
visit_fork_run = refl

visit_fork-OneAbove_example :
    (rest : Visited) × (branch ≡ (4 ∷ [], 2) ∷ rest) × All (OneAbove known₂) rest
unfolding insert_hash
visit_fork-OneAbove_example =
    visit_fork-OneAbove (1 ∷ []) known₂ left above_right right branch left_branch known₂-IsTree
      known₂-IsRooted refl refl visit_fork_run

-- The root is the top, and the new header stands above a header with the number 1.
visit_fork_panics_example : visit_fork known₂ genesis above_right 1 ≡ panic
unfolding insert_hash
visit_fork_panics_example =
    visit_fork_panics (1 ∷ []) known₂ genesis above_right genesis 1 known₂-IsTree known₂-IsRooted
      refl refl (omega arith)

abbrev before : State
before = record { chain = forked; downloaded_blocks = 0; inserted_headers = [] }

abbrev applied : Chain
applied = record forked {
  top_header = above_right;
  known_headers = insert_hash (4 ∷ []) above_right known₂;
}

abbrev after : State
after = record { chain = applied; downloaded_blocks = 0; inserted_headers = above_right ∷ [] }

abbrev answer : HeaderApplicationResult
answer = record { removed_blocks = left_branch; added_blocks = (3 ∷ [], 2) ∷ (4 ∷ [], 2) ∷ [] }

-- The header 4 forks from the chain of the header 2 and takes its place.
validate_and_apply_header_inner_run :
    validate_and_apply_header_inner reference (plain_header (4 ∷ []) (3 ∷ [])) before false
    ≡ ok (after, some answer)
unfolding validate_and_apply_header_inner apply_fresh get_next_bits_required number_header get_work
    u256_from_compact reference in_range checked_div apply_known become_top apply_fork visit_fork
    old_loop join_loop calculate_downloaded_blocks downloaded_loop insert_hash
validate_and_apply_header_inner_run = refl

validate_and_apply_header_inner-IsChain_example : IsChain (1 ∷ []) applied
validate_and_apply_header_inner-IsChain_example =
    validate_and_apply_header_inner-IsChain reference (1 ∷ []) (plain_header (4 ∷ []) (3 ∷ []))
      before after false (some answer) forked-IsChain validate_and_apply_header_inner_run

update_most_work_chain_lem_example :
    (update_most_work_chain forked answer).most_work_chain (4 ∷ []) ≡ (
      names answer.added_blocks (4 ∷ [])
      || (forked.most_work_chain (4 ∷ []) && not (names answer.removed_blocks (4 ∷ []))))
update_most_work_chain_lem_example = update_most_work_chain_lem forked answer (4 ∷ [])

get_next_bits_required_lem_example :
    (first : BlockHeaderWithNumber) × Ancestor known₂ right first
    × (first.number ≡ 1 - 2015)
    × (get_next_bits_required reference forked right ≡ (
        if (1 + 1) % 2016 == 0
        then calculate_next_work_required reference 0 first.header.timestamp 0x207fffff
        else ok 0x207fffff))
unfolding insert_hash
get_next_bits_required_lem_example =
    get_next_bits_required_lem reference (1 ∷ []) forked (3 ∷ []) right known₂-IsTree refl
