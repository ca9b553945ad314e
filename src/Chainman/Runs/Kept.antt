-- ===== src/Chainman/Runs/Kept.antt =====
-- What an operation keeps of the chain.
use bitlens_rs.Prelude.{
  ℕ, zero, suc, ◌==◌, Option-cases, ◌≤◌, ◌≡◌, refl, sym, subst, ◌∙◌, inl, inr, Bool, Option, some,
  List, [], ◌∷◌, arith, Yields, Yields-ok, Bool-cases,
}
use bitlens_rs.Packets.Buffer.{Bytes}
use bitlens_rs.Chainman.Chain.{
  BlockHeaderWithNumber, Chain, HeaderApplicationResult, insert_number, add_to_set, remove_from_set,
  parent_of, remove_blocks, add_blocks, update_most_work_chain,
}
use bitlens_rs.Chainman.Chain.Ancestors.{Known, IsChain}
use bitlens_rs.Chainman.Walks.{hashset_loop}
use bitlens_rs.Chainman.Downloads.Updates.{Marks, Marks-refl, Marks-trans}

-- No header is forgotten or unmarked, and the top never loses work.
pub record Keeps (chain chain' : Chain) : Type 0 where
  pub headers :
      (hash : Bytes) (e : BlockHeaderWithNumber)
      → chain.known_headers hash ≡ some e
      → (e' : BlockHeaderWithNumber) × (chain'.known_headers hash ≡ some e') × Marks e e'
  pub work : chain.top_header.total_work ≤ chain'.top_header.total_work

pub Keeps-refl : (chain : Chain) → Keeps chain chain
Keeps-refl chain = record { headers = λ hash e k. (e, k, Marks-refl e); work = omega arith }

pub Keeps-trans : {a b c : Chain} → Keeps a b → Keeps b c → Keeps a c
Keeps-trans k l = record {
  headers = λ hash e known.
      let (e₁, k₁, m₁) = k.headers hash e known in
      let (e₂, k₂, m₂) = l.headers hash e₁ k₁ in (e₂, k₂, Marks-trans m₁ m₂);
  work = let below = k.work in let above = l.work in omega arith;
}

-- Two chains with the same headers and the same top.
abbrev pub SameTree : Chain → Chain → Type 0
SameTree chain chain' =
    (chain'.known_headers ≡ chain.known_headers) × (chain'.top_header ≡ chain.top_header)

module _ (root : Bytes) (chain chain' : Chain) (same : SameTree chain chain') where
  abbrev Both : Known → BlockHeaderWithNumber → Type 0
  Both known top =
      IsChain root chain
      → IsChain root (record chain' { known_headers = known; top_header = top })
        × Keeps chain (record chain' { known_headers = known; top_header = top })

  keep_same : Both chain.known_headers chain.top_header
  keep_same c = (
    record {
      tree = c.tree;
      top = c.top;
      top_known = c.top_known;
      top_same = c.top_same;
      best = c.best;
    },
    record { headers = λ hash e k. (e, k, Marks-refl e); work = omega arith },
  )

  pub SameTree-IsChain : IsChain root chain → IsChain root chain' × Keeps chain chain'
  SameTree-IsChain =
      subst (λ known. Both known chain'.top_header) (sym same.0)
        (subst (λ top. Both chain.known_headers top) (sym same.1) keep_same)

add_blocks-SameTree :
    (blocks : List (Bytes × ℕ)) (chain : Chain) → SameTree chain (add_blocks blocks chain)
unfolding add_blocks
add_blocks-SameTree [] chain = (refl, refl)
add_blocks-SameTree ((hash, number) ∷ blocks) chain = add_blocks-SameTree blocks (record chain {
  most_work_chain = add_to_set hash chain.most_work_chain;
  number_to_hash = insert_number number hash chain.number_to_hash;
})

remove_blocks-SameTree :
    (blocks : List (Bytes × ℕ)) (chain : Chain) → SameTree chain (remove_blocks blocks chain)
unfolding remove_blocks
remove_blocks-SameTree [] chain = (refl, refl)
remove_blocks-SameTree ((hash, _) ∷ blocks) chain =
    remove_blocks-SameTree blocks
      (record chain { most_work_chain = remove_from_set hash chain.most_work_chain })

pub update-SameTree :
    (chain : Chain) (result : HeaderApplicationResult)
    → SameTree chain (update_most_work_chain chain result)
unfolding update_most_work_chain
update-SameTree chain result =
    let (a, b) =
      add_blocks-SameTree result.added_blocks (remove_blocks result.removed_blocks chain) in
    let (c, d) = remove_blocks-SameTree result.removed_blocks chain in (a ∙ c, b ∙ d)

pub hashset_loop-SameTree :
    (fuel : ℕ) (chain : Chain) (last : BlockHeaderWithNumber) (hashes : Bytes → Bool)
    (numbers : ℕ → Option Bytes)
    → Yields (SameTree chain) (hashset_loop fuel chain last hashes numbers)
unfolding hashset_loop
hashset_loop-SameTree zero chain last hashes numbers = unfold Yields in tt
hashset_loop-SameTree (suc fuel) chain last hashes numbers =
    let hashes' = add_to_set last.header.hash hashes in
    let numbers' = insert_number last.number last.header.hash numbers in
    elim (Bool-cases (last.number == 0)) [
      | inl at_root ↦
          rw (hashset_loop, at_root)
            (Yields-ok (SameTree chain)
              (record chain { most_work_chain = hashes'; number_to_hash = numbers' }) (refl, refl))
      | inr above ↦ elim (Option-cases (parent_of chain last)) [
        | inl nothing ↦ rw (hashset_loop, above, nothing) (unfold Yields in tt)
        | inr (next, is) ↦
            rw (hashset_loop, above, is) (hashset_loop-SameTree fuel chain next hashes' numbers')
      ]
    ]
