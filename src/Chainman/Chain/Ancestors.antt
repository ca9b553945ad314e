-- ===== src/Chainman/Chain/Ancestors.antt =====
-- The invariant of the header chain: a tree with one root, in which numbers count the steps from the
-- root, and the walks down it.
use bitlens_rs.Prelude.{
  ℕ, zero, suc, ◌+◌, ◌≤◌, ◌^◌, ◌<◌, ◌≡◌, refl, sym, ap, ◌∙◌, ◌⊎◌, inl, inr, Option, none, some,
  arith, false, ltb, Bool-cases, bytes_eq, bytes_eq_refl, bytes_eq→eq, ok,
}
use bitlens_rs.Packets.Buffer.{Bytes}
use bitlens_rs.Packets.BlockHeader.{BlockHeader}
use bitlens_rs.Chainman.Chain.{
  BlockHeaderWithNumber, Chain, insert_hash, ancestor_loop, get_ancestor,
}

abbrev pub Known : Type 0
Known = Bytes → Option BlockHeaderWithNumber

-- A stored header stands under its hash, and its parent is known with the number below its own, unless
-- it is the root.
pub record IsStored (root : Bytes) (known : Known) (hash : Bytes) (e : BlockHeaderWithNumber)
    : Type 0 where
  pub under_hash : e.header.hash ≡ hash
  pub linked :
      ((e.number ≡ 0) × (hash ≡ root))
      ⊎ ((p : BlockHeaderWithNumber) × (known e.header.parent ≡ some p) × (e.number ≡ p.number + 1))

abbrev pub IsTree : Bytes → Known → Type 0
IsTree root known =
    (hash : Bytes) (e : BlockHeaderWithNumber) → known hash ≡ some e → IsStored root known hash e

-- The root's parent is unknown, and block numbers are far from the end of `u64`.
pub record IsRooted (known : Known) : Type 0 where
  pub open_root :
      (hash : Bytes) (e : BlockHeaderWithNumber)
      → known hash ≡ some e
      → e.number ≡ 0
      → known e.header.parent ≡ none
  pub bounded : (hash : Bytes) (e : BlockHeaderWithNumber) → known hash ≡ some e → e.number < 2 ^ 63

-- The copy of a header that is kept as the top may lack its coinbase text.
pub record SameHeader (a b : BlockHeaderWithNumber) : Type 0 where
  pub header_eq : a.header ≡ b.header
  pub number_eq : a.number ≡ b.number
  pub fetched_eq : a.fetched_full ≡ b.fetched_full
  pub work_eq : a.total_work ≡ b.total_work

-- The top header is known, and no known header has more total work.
pub record IsChain (root : Bytes) (chain : Chain) : Type 0 where
  pub tree : IsTree root chain.known_headers
  pub top : BlockHeaderWithNumber
  pub top_known : chain.known_headers chain.top_header.header.hash ≡ some top
  pub top_same : SameHeader top chain.top_header
  pub best :
      (hash : Bytes) (e : BlockHeaderWithNumber)
      → chain.known_headers hash ≡ some e
      → e.total_work ≤ chain.top_header.total_work

-- `a` is `e`, its parent, the parent of that, and so on.
pub data Ancestor (known : Known) : BlockHeaderWithNumber → BlockHeaderWithNumber → Type 0 where
  here : {e : BlockHeaderWithNumber} → Ancestor known e e
  up :
      {e p a : BlockHeaderWithNumber}
      → known e.header.parent ≡ some p
      → Ancestor known p a
      → Ancestor known e a

-- A header above the root has a parent, which is one number below.
pub parent_lem :
    {root : Bytes} {known : Known} (tree : IsTree root known) (hash : Bytes)
    (e : BlockHeaderWithNumber)
    → known hash ≡ some e
    → 0 < e.number
    → (p : BlockHeaderWithNumber) × (known e.header.parent ≡ some p) × (e.number ≡ p.number + 1)
parent_lem tree hash e k h = elim ((tree hash e k).linked) [
  | inl (z, _) ↦ absurd (omega arith)
  | inr found ↦ found
]

pub ancestor_loop_lem :
    {root : Bytes} (chain : Chain) (tree : IsTree root chain.known_headers) (fuel height : ℕ)
    (hash : Bytes) (e : BlockHeaderWithNumber)
    → chain.known_headers hash ≡ some e
    → height ≤ e.number
    → e.number < fuel
    → (a : BlockHeaderWithNumber) × (ancestor_loop fuel chain height e ≡ ok (some a))
      × (a.number ≡ height)
      × Ancestor chain.known_headers e a
unfolding ancestor_loop
ancestor_loop_lem chain tree zero height hash e k h f = absurd (omega arith)
ancestor_loop_lem chain tree (suc fuel) height hash e k h f =
    elim (Bool-cases (ltb height e.number)) [
      | inl above ↦
          let (p, kp, n) = parent_lem tree hash e k (ground arith) in
          let (a, r, m, d) =
            ancestor_loop_lem chain tree fuel height e.header.parent p kp (ground arith)
              (omega arith) in
          (a, rw (above, kp) r, m, up kp d)
      | inr at ↦ (e, rw at, ground arith, here)
    ]

-- In a header tree the ancestor at any height up to a known header's own is found: the loop ends
-- within its fuel, and its result is an ancestor with that number.
pub get_ancestor_lem :
    {root : Bytes} (chain : Chain) (hash : Bytes) (e : BlockHeaderWithNumber) (height : ℕ)
    → IsTree root chain.known_headers
    → chain.known_headers hash ≡ some e
    → height ≤ e.number
    → (a : BlockHeaderWithNumber) × (get_ancestor chain e height ≡ ok (some a))
      × (a.number ≡ height)
      × Ancestor chain.known_headers e a
unfolding get_ancestor
get_ancestor_lem chain hash e height tree k h =
    ancestor_loop_lem chain tree (e.number + 1) height hash e k h (omega arith)

-- Another key is looked up as before.
pub insert_hash_other :
    (k j : Bytes) (v e : BlockHeaderWithNumber) (known : Known)
    → known k ≡ none
    → known j ≡ some e
    → insert_hash k v known j ≡ some e
unfolding insert_hash
insert_hash_other k j v e known fresh found = elim (Bool-cases (bytes_eq k j)) [
  | inl same ↦ absurd (cc (ap known (bytes_eq→eq k j same)))
  | inr other ↦ rw other found
]

pub insert_hash_self :
    (k : Bytes) (v : BlockHeaderWithNumber) (known : Known) → insert_hash k v known k ≡ some v
unfolding insert_hash
insert_hash_self k v known = rw (bytes_eq_refl k)

pub insert_hash_elsewhere :
    (k j : Bytes) (v : BlockHeaderWithNumber) (known : Known)
    → bytes_eq k j ≡ false
    → insert_hash k v known j ≡ known j
unfolding insert_hash
insert_hash_elsewhere k j v known other = rw other

-- What a lookup finds after an insertion.
pub insert_hash_cases :
    (k j : Bytes) (v e : BlockHeaderWithNumber) (known : Known)
    → insert_hash k v known j ≡ some e
    → ((k ≡ j) × (v ≡ e)) ⊎ (known j ≡ some e)
unfolding insert_hash
insert_hash_cases k j v e known found = elim (Bool-cases (bytes_eq k j)) [
  | inl same ↦ inl (bytes_eq→eq k j same, cc (rw same at found))
  | inr other ↦ inr (rw other at found)
]

-- A header at the root or behind its parent: those that are stored, and the copy at the top.
abbrev pub Linked : Known → BlockHeaderWithNumber → Type 0
Linked known e =
    (e.number ≡ 0)
    ⊎ ((p : BlockHeaderWithNumber) × (known e.header.parent ≡ some p) × (e.number ≡ p.number + 1))

pub IsStored-Linked :
    {root : Bytes} {known : Known} {hash : Bytes} {e : BlockHeaderWithNumber}
    → IsStored root known hash e
    → Linked known e
IsStored-Linked s = elim s.linked [ inl (z, _) ↦ inl z | inr found ↦ inr found ]

pub top-Linked :
    {root : Bytes} (chain : Chain)
    → IsChain root chain
    → Linked chain.known_headers chain.top_header
top-Linked chain c =
    let same = c.top_same in
    elim (IsStored-Linked (c.tree chain.top_header.header.hash c.top c.top_known)) [
      | inl z ↦ inl (sym same.number_eq ∙ z)
      | inr (p, kp, n) ↦ inr (
        p,
        ap (λ (h : BlockHeader). chain.known_headers h.parent) (sym same.header_eq) ∙ kp,
        sym same.number_eq ∙ n,
      )
    ]

pub Ancestor-cases :
    {known : Known} {e a : BlockHeaderWithNumber}
    → Ancestor known e a
    → (a ≡ e)
      ⊎ ((p : BlockHeaderWithNumber) × (known e.header.parent ≡ some p) × Ancestor known p a)
Ancestor-cases here = inl refl
Ancestor-cases (up {p = q} k d) = inr (q, k, d)

pub top-closed :
    {root : Bytes} (chain : Chain)
    → IsChain root chain
    → IsRooted chain.known_headers
    → chain.top_header.number ≡ 0
    → chain.known_headers chain.top_header.header.parent ≡ none
top-closed chain c rooted z =
    let same = c.top_same in
    ap (λ (h : BlockHeader). chain.known_headers h.parent) (sym same.header_eq)
    ∙ rooted.open_root chain.top_header.header.hash c.top c.top_known (same.number_eq ∙ z)
