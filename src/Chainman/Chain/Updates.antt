-- ===== src/Chainman/Chain/Updates.antt =====
-- What the set of the chain with the most work holds after a header was applied.
use bitlens_rs.Prelude.{
  ℕ, ◌≡◌, refl, ◌∙◌, Bool, false, ◌&&◌, ◌||◌, not, List, [], ◌∷◌, bytes_eq, arith,
}
use bitlens_rs.Packets.Buffer.{Bytes}
use bitlens_rs.Chainman.Chain.{
  Chain, HeaderApplicationResult, add_to_set, remove_from_set, remove_blocks, add_blocks,
  update_most_work_chain,
}

-- The blocks include one with this hash.
unfoldable pub names : List (Bytes × ℕ) → Bytes → Bool
names [] h = false
names ((hash, number) ∷ blocks) h = bytes_eq hash h || names blocks h

remove_blocks_lem :
    (blocks : List (Bytes × ℕ)) (chain : Chain) (h : Bytes)
    → (remove_blocks blocks chain).most_work_chain h
      ≡ (chain.most_work_chain h && not (names blocks h))
unfolding remove_blocks names remove_from_set
remove_blocks_lem [] chain h = ground arith
remove_blocks_lem ((hash, number) ∷ blocks) chain h =
    remove_blocks_lem blocks
      (record chain { most_work_chain = remove_from_set hash chain.most_work_chain }) h
    ∙ ground arith

add_blocks_lem :
    (blocks : List (Bytes × ℕ)) (chain : Chain) (h : Bytes)
    → (add_blocks blocks chain).most_work_chain h ≡ (names blocks h || chain.most_work_chain h)
unfolding add_blocks names add_to_set
add_blocks_lem [] chain h = refl
add_blocks_lem ((hash, number) ∷ blocks) chain h = add_blocks_lem blocks _ h ∙ ground arith

-- After an application's result is taken over, the set of the chain with the most work holds the hashes
-- of the added blocks and those that it held before and that were not removed, and no others.
pub update_most_work_chain_lem :
    (chain : Chain) (result : HeaderApplicationResult) (h : Bytes)
    → (update_most_work_chain chain result).most_work_chain h ≡ (
        names result.added_blocks h
        || (chain.most_work_chain h && not (names result.removed_blocks h)))
unfolding update_most_work_chain
update_most_work_chain_lem chain result h =
    add_blocks_lem result.added_blocks (remove_blocks result.removed_blocks chain) h
    ∙ rw (remove_blocks_lem result.removed_blocks chain h) refl
