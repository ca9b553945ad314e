-- ===== src/Chainman/Chain.antt =====
-- src/chainman/chain.rs: the known headers and the chain with the most work. A hash map is the function
-- of its lookups; U256 arithmetic is the parameter `u`.
pub mod Ancestors
pub mod Updates
pub mod Difficulty
use bitlens_rs.Prelude.{
  ℕ, zero, suc, ◌+◌, ◌-◌, ◌%◌, ◌^◌, Bool, true, false, Option, none, some, List, [], ◌∷◌, ltb, ◌==◌,
  if◌then◌else◌, bytes_eq, Result, ok, stuck, unwrap, ◌>>=◌,
}
use bitlens_rs.Util.U256.{U256}
use bitlens_rs.Util.Pow.{difficulty_adjustment_interval, calculate_next_work_required}
use bitlens_rs.Packets.Buffer.{Bytes}
use bitlens_rs.Packets.BlockHeader.{BlockHeader, get_work}

pub record BlockHeaderWithNumber : Type 0 where
  pub header : BlockHeader
  pub number : ℕ
  pub fetched_full : Bool
  pub total_work : ℕ
  pub coinbase_ascii : Option Bytes

pub record Chain : Type 0 where
  pub top_header : BlockHeaderWithNumber
  pub known_headers : Bytes → Option BlockHeaderWithNumber
  pub number_to_hash : ℕ → Option Bytes
  pub most_work_chain : Bytes → Bool

-- `HashMap::insert` and the two operations on hash sets, on lookups.
module _ {ℓ} {V : Type ℓ} where
  unfoldable pub insert_hash : Bytes → V → (Bytes → Option V) → Bytes → Option V
  insert_hash k v m j = if bytes_eq k j then some v else m j

  unfoldable pub insert_number : ℕ → V → (ℕ → Option V) → ℕ → Option V
  insert_number k v m j = if k == j then some v else m j

unfoldable pub add_to_set : Bytes → (Bytes → Bool) → Bytes → Bool
add_to_set k s j = if bytes_eq k j then true else s j

unfoldable pub remove_from_set : Bytes → (Bytes → Bool) → Bytes → Bool
remove_from_set k s j = if bytes_eq k j then false else s j

-- `Chain::default()`: the genesis block alone.
unfoldable pub default_chain : U256 → BlockHeader → Result Chain
default_chain u genesis_header = do
  work ← get_work u genesis_header.bits
  let genesis : BlockHeaderWithNumber = record {
    header = genesis_header;
    number = 0;
    fetched_full = false;
    total_work = work;
    coinbase_ascii = none;
  }
  ok (record {
    top_header = genesis;
    known_headers = insert_hash genesis_header.hash genesis (λ _. none);
    number_to_hash = insert_number 0 genesis_header.hash (λ _. none);
    most_work_chain = add_to_set genesis_header.hash (λ _. false);
  })

-- The header that `h` names as its parent, if it is known.
abbrev pub parent_of : Chain → BlockHeaderWithNumber → Option BlockHeaderWithNumber
parent_of chain h = chain.known_headers h.header.parent

-- The loop `while top.number > height` on fuel.
unfoldable pub ancestor_loop :
    ℕ → Chain → ℕ → BlockHeaderWithNumber → Result (Option BlockHeaderWithNumber)
ancestor_loop zero chain height top = stuck
ancestor_loop (suc fuel) chain height top =
    if ltb height top.number
    then elim (parent_of chain top) [
      | none ↦ ok none
      | some next ↦ ancestor_loop fuel chain height next
    ]
    else ok (some top)

-- In a chain with consecutive numbers the loop makes a round for each number above `height`.
unfoldable pub get_ancestor :
    Chain → BlockHeaderWithNumber → ℕ → Result (Option BlockHeaderWithNumber)
get_ancestor chain header height = ancestor_loop (header.number + 1) chain height header

-- The adjustment at the end of a difficulty period.
unfoldable pub adjusted_bits : U256 → Chain → BlockHeaderWithNumber → Result ℕ
adjusted_bits u chain header = do
  first ← get_ancestor chain header (header.number - (difficulty_adjustment_interval - 1))
  first_header ← unwrap first
  calculate_next_work_required u header.header.timestamp first_header.header.timestamp
      header.header.bits

unfoldable pub get_next_bits_required : U256 → Chain → BlockHeaderWithNumber → Result ℕ
get_next_bits_required u chain header =
    if (header.number + 1) % difficulty_adjustment_interval == 0
    then adjusted_bits u chain header
    else ok header.header.bits

-- Hashes with block numbers; the added blocks stand oldest first.
pub record HeaderApplicationResult : Type 0 where
  pub removed_blocks : List (Bytes × ℕ)
  pub added_blocks : List (Bytes × ℕ)

unfoldable pub remove_blocks : List (Bytes × ℕ) → Chain → Chain
remove_blocks [] chain = chain
remove_blocks ((hash, _) ∷ blocks) chain =
    remove_blocks blocks
      (record chain { most_work_chain = remove_from_set hash chain.most_work_chain })

unfoldable pub add_blocks : List (Bytes × ℕ) → Chain → Chain
add_blocks [] chain = chain
add_blocks ((hash, number) ∷ blocks) chain = add_blocks blocks (record chain {
  most_work_chain = add_to_set hash chain.most_work_chain;
  number_to_hash = insert_number number hash chain.number_to_hash;
})

unfoldable pub update_most_work_chain : Chain → HeaderApplicationResult → Chain
update_most_work_chain chain result =
    add_blocks result.added_blocks (remove_blocks result.removed_blocks chain)
