-- ===== src/Util/Merkle/Concat.antt =====
-- The hashes of a level in one vector.
use bitlens_rs.Prelude.{◌*◌, ◌≡◌, refl, arith, List, [], ◌∷◌, length, length-append, All}
use bitlens_rs.Packets.Buffer.{Bytes}
use bitlens_rs.Packets.Tx.{concat}
use bitlens_rs.Util.Merkle.{len}
use bitlens_rs.Util.Merkle.Reference.{IsHash}

pub length-concat :
    (hashes : List Bytes) → All IsHash hashes → length (concat hashes) ≡ length hashes * 32
unfolding concat
length-concat [] h = refl
length-concat (a ∷ rest) (ha, h) =
    omega (arith, length-append a (concat rest), length-concat rest h)

pub len-concat : (hashes : List Bytes) → All IsHash hashes → len (concat hashes) ≡ length hashes
unfolding len
len-concat hashes h = omega (arith, length-concat hashes h)
