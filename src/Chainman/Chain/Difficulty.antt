-- ===== src/Chainman/Chain/Difficulty.antt =====
-- The bits that the next header of a header tree must have.
use bitlens_rs.Prelude.{◌+◌, ◌-◌, ◌%◌, ◌≡◌, refl, some, arith, ◌==◌, if◌then◌else◌, ok}
use bitlens_rs.Util.U256.{U256}
use bitlens_rs.Util.Pow.{calculate_next_work_required}
use bitlens_rs.Packets.Buffer.{Bytes}
use bitlens_rs.Chainman.Chain.{BlockHeaderWithNumber, Chain, adjusted_bits, get_next_bits_required}
use bitlens_rs.Chainman.Chain.Ancestors.{IsTree, Ancestor, get_ancestor_lem}

-- In a header tree the required bits behind a known header are its own, but at the end of a period of
-- 2016 blocks those of the adjustment over the time since its ancestor 2015 blocks below, which is known;
-- the function does not panic for want of that ancestor.
pub get_next_bits_required_lem :
    (u : U256) (root : Bytes) (chain : Chain) (hash : Bytes) (e : BlockHeaderWithNumber)
    → IsTree root chain.known_headers
    → chain.known_headers hash ≡ some e
    → (first : BlockHeaderWithNumber) × Ancestor chain.known_headers e first
      × (first.number ≡ e.number - 2015)
      × (get_next_bits_required u chain e ≡ (
          if (e.number + 1) % 2016 == 0
          then calculate_next_work_required u e.header.timestamp first.header.timestamp
              e.header.bits
          else ok e.header.bits))
unfolding get_next_bits_required adjusted_bits
get_next_bits_required_lem u root chain hash e tree k =
    let (first, found, n, above) =
      get_ancestor_lem chain hash e (e.number - 2015) tree k (omega arith) in
    (first, above, n, rw found refl)
