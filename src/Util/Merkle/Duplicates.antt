-- ===== src/Util/Merkle/Duplicates.antt =====
-- Lists of hashes that differ by a repeated last hash have one root (CVE-2012-2459), and the flag tells
-- them apart.
use bitlens_rs.Prelude.{
  ◌%◌, ◌<◌, ◌≡◌, refl, ap, subst, ◌∙◌, arith, Bool, true, ◌||◌, List, [], ◌∷◌, ◌++◌, length, All,
  All-append, bytes_eq_refl, ok,
}
use bitlens_rs.Packets.Buffer.{Bytes}
use bitlens_rs.Packets.Tx.{concat}
use bitlens_rs.Util.Merkle.{into_root}
use bitlens_rs.Util.Merkle.Refine.{into_root-IsRoot, IsRoot-unique}
use bitlens_rs.Util.Merkle.Reference.{IsHash, has_equal_neighbours, node, pair_up, IsRoot, level}

has_equal_neighbours_end :
    (hashes : List Bytes) (last : Bytes)
    → has_equal_neighbours (hashes ++ (last ∷ last ∷ [])) ≡ true
unfolding has_equal_neighbours
has_equal_neighbours_end [] last = rw (bytes_eq_refl last) refl
has_equal_neighbours_end (a ∷ []) last = rw (bytes_eq_refl last) (ground arith)
has_equal_neighbours_end (a ∷ b ∷ rest) last =
    rw (has_equal_neighbours_end (b ∷ rest) last) (ground arith)

module _ (sha256 : Bytes → Bytes) where
  pair_up_end :
      (hashes : List Bytes) (last : Bytes)
      → length hashes % 2 ≡ 0
      → pair_up sha256 (hashes ++ (last ∷ last ∷ [])) ≡ pair_up sha256 (hashes ++ (last ∷ []))
  unfolding pair_up
  pair_up_end [] last e = refl
  pair_up_end (a ∷ []) last e = absurd (omega arith)
  pair_up_end (a ∷ b ∷ rest) last e =
      ap (λ t. node sha256 a b ∷ t) (pair_up_end rest last (omega arith))

  above_of :
      {a b root : Bytes} {rest : List Bytes} {mutation : Bool}
      → IsRoot sha256 (a ∷ b ∷ rest) root mutation
      → (above : Bool) × IsRoot sha256 (pair_up sha256 (a ∷ b ∷ rest)) root above
        × (mutation ≡ (has_equal_neighbours (a ∷ b ∷ rest) || above))
  above_of (level {above = above} r) = (above, r, refl)

  -- A list of 32-byte hashes, an even number of them and not none, followed by one more hash has the
  -- root of the list in which that hash follows twice, and the second list is reported as mutated; a
  -- digest has 32 bytes.
  pub into_root-repeated :
      (hashes : List Bytes) (last : Bytes)
      → ((block : Bytes) → IsHash (sha256 block))
      → 0 < length hashes
      → length hashes % 2 ≡ 0
      → All IsHash hashes
      → IsHash last
      → (root : Bytes) × (mutation : Bool) × (into_root sha256 (concat (hashes ++ (last ∷ [])))
          ≡ ok (root, mutation))
        × (into_root sha256 (concat (hashes ++ (last ∷ last ∷ []))) ≡ ok (root, true))
  into_root-repeated [] last digest some even h h' = absurd (omega arith)
  into_root-repeated (a ∷ []) last digest some even h h' = absurd (omega arith)
  into_root-repeated (a ∷ b ∷ rest) last digest some even h h' =
      let hashes : List Bytes = a ∷ b ∷ rest in
      let (root, mutation, is_root, e) =
        into_root-IsRoot sha256 digest (hashes ++ (last ∷ [])) (omega arith)
          (All-append IsHash hashes (last ∷ []) h (h', tt)) in
      let (root', mutation', is_root', e') =
        into_root-IsRoot sha256 digest (hashes ++ (last ∷ last ∷ [])) (omega arith)
          (All-append IsHash hashes (last ∷ last ∷ []) h (h', (h', tt))) in
      let (above, r, m) = above_of is_root in
      let (above', r', m') = above_of is_root' in
      let up : IsRoot sha256 (pair_up sha256 (hashes ++ (last ∷ []))) root' above' =
        subst (λ t. IsRoot sha256 t root' above') (pair_up_end hashes last even) r' in
      let (same, _) = IsRoot-unique sha256 digest up r in
      let found = has_equal_neighbours_end hashes last in
      let mutated : mutation' ≡ true = rw (m', found) refl in
      (root, mutation, e, e' ∙ rw (same, mutated) refl)
