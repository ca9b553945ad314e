-- ===== src/Util/Merkle/Tests.antt =====
-- Merkle trees of three hashes.
use bitlens_rs.Prelude.{
  ℕ, ◌+◌, ◌≡◌, refl, arith, Bool, true, List, [], ◌∷◌, ◌++◌, All, ok, to_le_bytes,
  length-to_le_bytes,
}
use bitlens_rs.Packets.Buffer.{Bytes}
use bitlens_rs.Packets.Tx.{concat}
use bitlens_rs.Util.Merkle.{into_root}
use bitlens_rs.Util.Merkle.Reference.{IsHash, IsRoot}
use bitlens_rs.Util.Merkle.Refine.{into_root-IsRoot}
use bitlens_rs.Util.Merkle.Duplicates.{into_root-repeated}

-- A function of 32 bytes in the place of SHA-256.
abbrev sum : Bytes → ℕ
sum [] = 0
sum (b ∷ bs) = b + sum bs

abbrev digest : Bytes → Bytes
digest block = to_le_bytes 32 (sum block)

digest-IsHash : (block : Bytes) → IsHash (digest block)
digest-IsHash block = length-to_le_bytes 32 (sum block)

abbrev pair : List Bytes
pair = to_le_bytes 32 5 ∷ to_le_bytes 32 6 ∷ []

abbrev third : Bytes
third = to_le_bytes 32 7

pair-IsHash : All IsHash pair
pair-IsHash = (length-to_le_bytes 32 5, (length-to_le_bytes 32 6, tt))

into_root-IsRoot_example :
    (root : Bytes) × (mutation : Bool) × IsRoot digest (pair ++ (third ∷ [])) root mutation
    × (into_root digest (concat (pair ++ (third ∷ []))) ≡ ok (root, mutation))
into_root-IsRoot_example =
    into_root-IsRoot digest digest-IsHash (pair ++ (third ∷ [])) (omega arith)
      (length-to_le_bytes 32 5, (length-to_le_bytes 32 6, (length-to_le_bytes 32 7, tt)))

into_root-repeated_example :
    (root : Bytes) × (mutation : Bool) × (into_root digest (concat (pair ++ (third ∷ [])))
      ≡ ok (root, mutation))
    × (into_root digest (concat (pair ++ (third ∷ third ∷ []))) ≡ ok (root, true))
into_root-repeated_example =
    into_root-repeated digest pair third digest-IsHash (omega arith) refl pair-IsHash
      (length-to_le_bytes 32 7)
