-- ===== src/Chainman/Locator/Indexed.antt =====
-- A header chain whose maps name the ancestors of the top header.
use bitlens_rs.Prelude.{
  ℕ, ◌+◌, ◌≤◌, ◌≡◌, refl, sym, ap, subst, ◌∙◌, ◌↔◌, ◌⊎◌, inl, inr, true, false, Option, none, some,
  List, [], ◌∷◌, arith, length, Result, ok,
}
use bitlens_rs.Packets.Buffer.{Bytes}
use bitlens_rs.Packets.BlockHeader.{BlockHeader}
use bitlens_rs.Chainman.Walks.{generate_top_work_chain_hashset}
use bitlens_rs.Chainman.Walks.MostWork.{generate_top_work_chain_hashset_lem}
use bitlens_rs.Chainman.Chain.{BlockHeaderWithNumber, Chain}
use bitlens_rs.Chainman.Chain.Ancestors.{
  Known, IsTree, IsRooted, IsChain, Ancestor, here, up, Ancestor-cases, Linked, IsStored-Linked,
}

-- The two maps name the ancestors of the top header, as `generate_top_work_chain_hashset` leaves them.
pub record IsIndexed (chain : Chain) : Type 0 where
  pub on_chain :
      (hash : Bytes)
      → (chain.most_work_chain hash ≡ true) ↔ (
          (a : BlockHeaderWithNumber) × Ancestor chain.known_headers chain.top_header a
          × (a.header.hash ≡ hash))
  pub numbered :
      (a : BlockHeaderWithNumber)
      → Ancestor chain.known_headers chain.top_header a
      → chain.number_to_hash a.number ≡ some a.header.hash

-- Headers of ancestors of the top with consecutive numbers.
pub data Run (known : Known) (top : BlockHeaderWithNumber) : ℕ → List BlockHeader → Type 0 where
  done : {n : ℕ} → Run known top n []
  one_more :
      {a : BlockHeaderWithNumber} {rest : List BlockHeader}
      → Ancestor known top a
      → Run known top (a.number + 1) rest
      → Run known top a.number (a.header ∷ rest)

-- What is sent from the matched header on.
abbrev pub Sent :
    Chain → BlockHeaderWithNumber → Bytes → Result (Option (List BlockHeader)) → Type 0
Sent chain m block_stop response =
    ((m.number ≡ chain.top_header.number) × (response ≡ ok none))
    ⊎ ((result : List BlockHeader) × (response ≡ ok (some result))
        × Run chain.known_headers chain.top_header m.number result
        × (length result ≤ 2000)
        × (length result + m.number ≤ chain.top_header.number)
        × (chain.most_work_chain block_stop ≡ false
            → (length result ≡ 2000) ⊎ (length result + m.number ≡ chain.top_header.number)))

-- An ancestor of a stored header is stored under its hash.
pub below_stored :
    {root : Bytes} {known : Known} {e a : BlockHeaderWithNumber} (hash : Bytes)
    → IsTree root known
    → known hash ≡ some e
    → Ancestor known e a
    → known a.header.hash ≡ some a
below_stored {known = known} hash tree k (here {e = f}) =
    subst (λ j. known j ≡ some f) (sym (tree hash f k).under_hash) k
below_stored hash tree k (up {e = f} {p = q} k' d) = below_stored f.header.parent tree k' d

-- An ancestor's header is stored under its hash: its own, or at the top its other copy.
pub stored-Ancestor :
    {root : Bytes} (chain : Chain) (a : BlockHeaderWithNumber)
    → IsChain root chain
    → Ancestor chain.known_headers chain.top_header a
    → (e : BlockHeaderWithNumber) × (chain.known_headers a.header.hash ≡ some e)
      × (e.header ≡ a.header)
      × (e.number ≡ a.number)
stored-Ancestor chain a c d = elim (Ancestor-cases d) [
  | inl same ↦ rw same (c.top, c.top_known, c.top_same.header_eq, c.top_same.number_eq)
  | inr (p, k, d') ↦ (a, below_stored chain.top_header.header.parent c.tree k d', refl, refl)
]

pub Ancestor-low :
    {root : Bytes} {known : Known} {e a : BlockHeaderWithNumber}
    → IsTree root known
    → IsRooted known
    → Linked known e
    → (e.number ≡ 0 → known e.header.parent ≡ none)
    → Ancestor known e a
    → a.number ≤ e.number
Ancestor-low tree rooted link closed here = omega arith
Ancestor-low tree rooted link closed (up {e = f} {p = q} k d) = elim link [
  | inl z ↦ absurd (cc (closed z, k))
  | inr (p, kp, n) ↦
      let is : p ≡ q = cc in
      let n' : f.number ≡ q.number + 1 = n ∙ ap (λ (x : BlockHeaderWithNumber). x.number + 1) is in
      let low =
        Ancestor-low tree rooted (IsStored-Linked (tree f.header.parent q k))
          (rooted.open_root f.header.parent q k) d in
      omega arith
]

-- The maps that are built from the top header are such maps.
pub generate-IsIndexed :
    (root : Bytes) (chain chain' : Chain)
    → IsChain root chain
    → IsRooted chain.known_headers
    → generate_top_work_chain_hashset chain ≡ ok chain'
    → IsIndexed chain'
generate-IsIndexed root chain chain' c rooted e =
    let (hashes, numbers, run, on, by_number) =
      generate_top_work_chain_hashset_lem root chain c rooted in
    let built : Chain = record chain { most_work_chain = hashes; number_to_hash = numbers } in
    let same : ◌≡◌ {A = Result Chain} (ok built) (ok chain') = sym run ∙ e in
    let is : built ≡ chain' = cc in
    subst IsIndexed is (record {
      on_chain = on;
      numbered = λ a d. (by_number a.number a.header.hash).1 (a, d, refl, refl);
    })
