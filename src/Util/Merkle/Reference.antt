-- ===== src/Util/Merkle/Reference.antt =====
-- The Merkle root as a relation on the list of hashes: what src/util/merkle.rs promises.
use bitlens_rs.Prelude.{
  ◌<◌, ◌≡◌, arith, Bool, false, ◌||◌, List, [], ◌∷◌, ◌++◌, length, All, bytes_eq,
}
use bitlens_rs.Packets.Buffer.{Bytes}

abbrev pub IsHash : Bytes → Type 0
IsHash hash = length hash ≡ 32

-- Two neighbours are equal.
unfoldable pub has_equal_neighbours : List Bytes → Bool
has_equal_neighbours [] = false
has_equal_neighbours (a ∷ []) = false
has_equal_neighbours (a ∷ b ∷ rest) = bytes_eq a b || has_equal_neighbours (b ∷ rest)

module _ (sha256 : Bytes → Bytes) where
  abbrev pub node : Bytes → Bytes → Bytes
  node a b = sha256 (sha256 (a ++ b))

  -- The level above: a last hash without a neighbour is its own.
  unfoldable pub pair_up : List Bytes → List Bytes
  pair_up [] = []
  pair_up (a ∷ []) = node a a ∷ []
  pair_up (a ∷ b ∷ rest) = node a b ∷ pair_up rest

  -- The root of a list of hashes, with whether some level has equal neighbours.
  pub data IsRoot : List Bytes → Bytes → Bool → Type 0 where
    single : {hash : Bytes} → IsRoot (hash ∷ []) hash false
    level :
        {a b root : Bytes} {rest : List Bytes} {above : Bool}
        → IsRoot (pair_up (a ∷ b ∷ rest)) root above
        → IsRoot (a ∷ b ∷ rest) root (has_equal_neighbours (a ∷ b ∷ rest) || above)

  pub pair_up-shorter :
      (a b : Bytes) (rest : List Bytes) → length (pair_up (a ∷ b ∷ rest)) < length (a ∷ b ∷ rest)
  unfolding pair_up
  pair_up-shorter a b [] = omega arith
  pair_up-shorter a b (c ∷ []) = omega arith
  pair_up-shorter a b (c ∷ d ∷ rest) = omega (arith, pair_up-shorter c d rest)

  pub pair_up-IsHash :
      ((block : Bytes) → IsHash (sha256 block))
      → (hashes : List Bytes) → All IsHash (pair_up hashes)
  unfolding pair_up
  pair_up-IsHash digest [] = tt
  pair_up-IsHash digest (a ∷ []) = (digest (sha256 (a ++ a)), tt)
  pair_up-IsHash digest (a ∷ b ∷ rest) = (digest (sha256 (a ++ b)), pair_up-IsHash digest rest)
