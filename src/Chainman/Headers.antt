-- ===== src/Chainman/Headers.antt =====
-- src/chainman/mod.rs: a new header is checked and put into the chain. The counter DOWNLOADED_BLOCKS
-- and the headers handed to the database stand in the state beside the chain.
pub mod Invariant
pub mod Forks
pub mod Results
use bitlens_rs.Prelude.{
  ℕ, zero, suc, ◌+◌, ◌-◌, ◌%◌, ◌^◌, Bool, true, false, Option, none, some, List, [], ◌∷◌, ◌++◌,
  reverse, ltb, ◌==◌, if◌then◌else◌, bytes_eq, Result, ok, err, panic, stuck, no_parent,
  invalid_difficulty, unwrap, ok_or, guard, ◌>>=◌, ◌>>◌,
}
use bitlens_rs.Util.U256.{U256}
use bitlens_rs.Packets.Buffer.{Bytes}
use bitlens_rs.Packets.BlockHeader.{BlockHeader, get_work}
use bitlens_rs.Chainman.Chain.{
  BlockHeaderWithNumber, Chain, HeaderApplicationResult, insert_hash, get_next_bits_required,
}
use bitlens_rs.Chainman.Walks.{calculate_downloaded_blocks}

pub record State : Type 0 where
  pub chain : Chain
  pub downloaded_blocks : ℕ
  pub inserted_headers : List BlockHeaderWithNumber

-- `number -= 1` on a `u64`.
abbrev pub step_down : ℕ → ℕ
step_down n = (n + 2 ^ 64 - 1) % 2 ^ 64

abbrev pub Visited : Type 0
Visited = List (Bytes × ℕ)

-- The first loop: from the old top down to the block with the number of the new header's parent.
unfoldable pub old_loop :
    ℕ
    → (Bytes → Option BlockHeaderWithNumber)
    → ℕ
    → Bytes
    → ℕ
    → Visited
    → Result (Bytes × ℕ × Visited)
old_loop zero known parent_number last last_number visited_old = stuck
old_loop (suc fuel) known parent_number last last_number visited_old = elim (known last) [
  | none ↦ panic
  | some h ↦
      if h.number == parent_number
      then ok (last, last_number, visited_old)
      else old_loop fuel known parent_number h.header.parent (step_down last_number)
          (visited_old ++ ((h.header.hash, h.number) ∷ []))
]

-- Where the second loop stands on the two branches.
pub record Cursors : Type 0 where
  pub new_hash : Bytes
  pub new_number : ℕ
  pub old_hash : Bytes
  pub old_number : ℕ
  pub visited_new : Visited
  pub visited_old : Visited

-- The second loop: down both branches until they meet.
unfoldable pub join_loop :
    ℕ → (Bytes → Option BlockHeaderWithNumber) → Cursors → Result (Visited × Visited)
join_loop zero known c = stuck
join_loop (suc fuel) known c = elim (bytes_eq c.new_hash c.old_hash) [
  | true ↦ ok (c.visited_new, c.visited_old)
  | false ↦ do
    old ← unwrap (known c.old_hash)
    new ← unwrap (known c.new_hash)
    join_loop fuel known (record {
      new_hash = new.header.parent;
      new_number = step_down c.new_number;
      old_hash = old.header.parent;
      old_number = step_down c.old_number;
      visited_new = c.visited_new ++ ((c.new_hash, c.new_number) ∷ []);
      visited_old = c.visited_old ++ ((c.old_hash, c.old_number) ∷ []);
    })
]

-- All blocks since the split: those of the new branch, and those of the old one.
unfoldable pub visit_fork :
    (Bytes → Option BlockHeaderWithNumber)
    → BlockHeaderWithNumber
    → BlockHeaderWithNumber
    → ℕ
    → Result (Visited × Visited)
visit_fork known top new_header parent_number = do
  (old_hash, old_number, visited_old) ←
      old_loop (top.number + 2) known parent_number top.header.hash top.number
        ((top.header.hash, top.number) ∷ [])
  join_loop (parent_number + 1) known (record {
    new_hash = new_header.header.parent;
    new_number = new_header.number;
    old_hash = old_hash;
    old_number = old_number;
    visited_new = (new_header.header.hash, new_header.number) ∷ [];
    visited_old = visited_old;
  })

-- A fork whose top becomes the top of the chain.
unfoldable pub apply_fork :
    State → BlockHeaderWithNumber → ℕ → Result (State × Option HeaderApplicationResult)
apply_fork s new_header parent_number = do
  (visited_new, visited_old) ←
      visit_fork s.chain.known_headers s.chain.top_header new_header parent_number
  let chain = record s.chain { top_header = new_header }
  new_count ← calculate_downloaded_blocks chain
  ok (
    record s { chain = chain; downloaded_blocks = new_count },
    some (record { removed_blocks = visited_old; added_blocks = reverse visited_new }),
  )

-- The new header becomes the top: during the header sync, as an extension of the top, or as a fork.
unfoldable pub become_top :
    State → BlockHeaderWithNumber → ℕ → Bool → Result (State × Option HeaderApplicationResult)
become_top s new_header parent_number is_headersync =
    if is_headersync
    then ok (record s { chain = record s.chain { top_header = new_header } }, none)
    else if bytes_eq new_header.header.parent s.chain.top_header.header.hash
    then ok (
      record s { chain = record s.chain { top_header = new_header } },
      some (record {
        removed_blocks = [];
        added_blocks = (new_header.header.hash, new_header.number) ∷ [];
      }),
    )
    else apply_fork s new_header parent_number

-- `s` knows the new header already.
unfoldable pub apply_known :
    State → BlockHeaderWithNumber → ℕ → Bool → Result (State × Option HeaderApplicationResult)
apply_known s new_header parent_number is_headersync =
    if ltb new_header.total_work s.chain.top_header.total_work
    then ok (s, none)
    else become_top s new_header parent_number is_headersync

-- The header as it is stored, behind its parent.
unfoldable pub number_header :
    U256 → BlockHeader → BlockHeaderWithNumber → Result BlockHeaderWithNumber
number_header u header parent = do
  work ← get_work u header.bits
  new_total_work ← unwrap (u.add parent.total_work work)
  ok (record {
    header = header;
    number = parent.number + 1;
    fetched_full = false;
    total_work = new_total_work;
    coinbase_ascii = none;
  })

-- The state with the header stored, in the map and in the database.
abbrev pub store_header : State → BlockHeaderWithNumber → State
store_header s h = record s {
  chain = record s.chain { known_headers = insert_hash h.header.hash h s.chain.known_headers };
  inserted_headers = s.inserted_headers ++ (h ∷ []);
}

-- A header that is not known yet.
unfoldable pub apply_fresh :
    U256 → BlockHeader → State → Bool → Result (State × Option HeaderApplicationResult)
apply_fresh u header s is_headersync = do
  parent ← ok_or (s.chain.known_headers header.parent) no_parent
  expected_bits ← get_next_bits_required u s.chain parent
  guard (expected_bits == header.bits) invalid_difficulty
  new_header ← number_header u header parent
  apply_known (store_header s new_header) new_header parent.number is_headersync

unfoldable pub validate_and_apply_header_inner :
    U256 → BlockHeader → State → Bool → Result (State × Option HeaderApplicationResult)
validate_and_apply_header_inner u header s is_headersync =
    elim (s.chain.known_headers header.hash) [
      | some _ ↦ ok (s, none)
      | none ↦ apply_fresh u header s is_headersync
    ]

-- Headers are applied one after the other; at an error those before it stay applied.
unfoldable pub validate_and_apply_headers :
    U256 → List BlockHeader → State → State × Result (Unit {0})
validate_and_apply_headers u [] s = (s, ok tt)
validate_and_apply_headers u (h ∷ hs) s = elim (validate_and_apply_header_inner u h s true) [
  | ok (s', _) ↦ validate_and_apply_headers u hs s'
  | err e ↦ (s, err e)
  | panic ↦ (s, panic)
  | stuck ↦ (s, stuck)
]
