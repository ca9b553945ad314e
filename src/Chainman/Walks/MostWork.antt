-- ===== src/Chainman/Walks/MostWork.antt =====
-- The set of hashes and the map of numbers of the chain with the most work, as they are built from the
-- top header.
use bitlens_rs.Prelude.{
  ℕ, zero, suc, ◌+◌, ◌<◌, ◌≡◌, subst, ◌∙◌, ◌≢◌, ◌↔◌, ◌⊎◌, inl, inr, Bool, true, false, Option, none,
  some, arith, ◌==◌, Bool-cases, bytes_eq, bytes_eq_refl, bytes_eq→eq, ok,
}
use bitlens_rs.Packets.Buffer.{Bytes}
use bitlens_rs.Chainman.Chain.{BlockHeaderWithNumber, Chain, insert_number, add_to_set}
use bitlens_rs.Chainman.Chain.Ancestors.{
  Known, IsTree, IsChain, IsRooted, Ancestor, here, up, Ancestor-cases, Linked, IsStored-Linked,
  top-Linked, top-closed,
}
use bitlens_rs.Chainman.Walks.{hashset_loop, generate_top_work_chain_hashset}

-- The two maps hold the ancestors of `e` beside what they held before.
pub record Holds (known : Known) (e : BlockHeaderWithNumber) (hashes hashes' : Bytes → Bool)
    (numbers numbers' : ℕ → Option Bytes) : Type 0 where
  pub hash_in : (a : BlockHeaderWithNumber) → Ancestor known e a → hashes' a.header.hash ≡ true
  pub hash_kept : (h : Bytes) → hashes h ≡ true → hashes' h ≡ true
  pub hash_only :
      (h : Bytes)
      → hashes' h ≡ true
      → (hashes h ≡ true) ⊎ ((a : BlockHeaderWithNumber) × Ancestor known e a × (a.header.hash ≡ h))
  pub number_in :
      (a : BlockHeaderWithNumber) → Ancestor known e a → numbers' a.number ≡ some a.header.hash
  pub number_only :
      (n : ℕ) (h : Bytes)
      → numbers' n ≡ some h
      → (numbers n ≡ some h)
        ⊎ ((a : BlockHeaderWithNumber) × Ancestor known e a × (a.number ≡ n) × (a.header.hash ≡ h))
  pub number_above : (n : ℕ) → e.number < n → numbers' n ≡ numbers n

add_to_set_lem :
    (k h : Bytes) (s : Bytes → Bool)
    → (add_to_set k s k ≡ true)
      × (s h ≡ true → add_to_set k s h ≡ true)
      × (add_to_set k s h ≡ true → (k ≡ h) ⊎ (s h ≡ true))
unfolding add_to_set
add_to_set_lem k h s = elim (Bool-cases (bytes_eq k h)) [
  | inl same ↦ (rw (bytes_eq_refl k), (λ _. rw same), λ _. inl (bytes_eq→eq k h same))
  | inr other ↦ (rw (bytes_eq_refl k), (λ e. rw other e), λ e. inr (rw other at e))
]

insert_number_lem :
    (k n : ℕ) (v : Bytes) (m : ℕ → Option Bytes)
    → (insert_number k v m k ≡ some v) × (k ≢ n → insert_number k v m n ≡ m n)
unfolding insert_number
insert_number_lem k n v m = (ground arith, λ other. ground arith)

insert_number_cases :
    (k n : ℕ) (v h : Bytes) (m : ℕ → Option Bytes)
    → insert_number k v m n ≡ some h
    → ((k ≡ n) × (v ≡ h)) ⊎ (m n ≡ some h)
unfolding insert_number
insert_number_cases k n v h m found = elim (Bool-cases (k == n)) [
  | inl same ↦ inl (ground arith, cc (rw same at found))
  | inr other ↦ inr (rw other at found)
]

-- What a round of the loop adds to its two maps.
abbrev hashes₁ : BlockHeaderWithNumber → (Bytes → Bool) → Bytes → Bool
hashes₁ e hashes = add_to_set e.header.hash hashes

abbrev numbers₁ : BlockHeaderWithNumber → (ℕ → Option Bytes) → ℕ → Option Bytes
numbers₁ e numbers = insert_number e.number e.header.hash numbers

module _ {known : Known} (e : BlockHeaderWithNumber) (hashes : Bytes → Bool)
    (numbers : ℕ → Option Bytes) where
  Holds-root :
      known e.header.parent ≡ none
      → Holds known e hashes (hashes₁ e hashes) numbers (numbers₁ e numbers)
  Holds-root closed = record {
    hash_in = λ a d. elim (Ancestor-cases d) [
      | inl same ↦ rw same (add_to_set_lem e.header.hash e.header.hash hashes).0
      | inr (p, kp, d') ↦ cc
    ];
    hash_kept = λ h. (add_to_set_lem e.header.hash h hashes).1;
    hash_only = λ h m. elim ((add_to_set_lem e.header.hash h hashes).2 m) [
      | inl is ↦ inr (e, here, is)
      | inr old ↦ inl old
    ];
    number_in = λ a d. elim (Ancestor-cases d) [
      | inl same ↦ rw same (insert_number_lem e.number e.number e.header.hash numbers).0
      | inr (p, kp, d') ↦ cc
    ];
    number_only = λ n h found. elim (insert_number_cases e.number n e.header.hash h numbers found) [
      | inl (at, is) ↦ inr (e, here, at, is)
      | inr old ↦ inl old
    ];
    number_above = λ n above. (insert_number_lem e.number n e.header.hash numbers).1 (omega arith);
  }

  Holds-up :
      (p : BlockHeaderWithNumber) (hashes' : Bytes → Bool) (numbers' : ℕ → Option Bytes)
      → known e.header.parent ≡ some p
      → e.number ≡ p.number + 1
      → Holds known p (hashes₁ e hashes) hashes' (numbers₁ e numbers) numbers'
      → Holds known e hashes hashes' numbers numbers'
  Holds-up p hashes' numbers' kp next ih = record {
    hash_in = λ a d. elim (Ancestor-cases d) [
      | inl same ↦
          rw same (ih.hash_kept e.header.hash (add_to_set_lem e.header.hash e.header.hash hashes).0)
      | inr (q, kq, d') ↦ ih.hash_in a (subst (λ x. Ancestor known x a) (cc) d')
    ];
    hash_kept = λ h m. ih.hash_kept h ((add_to_set_lem e.header.hash h hashes).1 m);
    hash_only = λ h m. elim (ih.hash_only h m) [
      | inl one ↦ elim ((add_to_set_lem e.header.hash h hashes).2 one) [
        | inl is ↦ inr (e, here, is)
        | inr old ↦ inl old
      ]
      | inr (a, d, is) ↦ inr (a, up kp d, is)
    ];
    number_in = λ a d. elim (Ancestor-cases d) [
      | inl same ↦ rw same (
          ih.number_above e.number (omega arith)
          ∙ (insert_number_lem e.number e.number e.header.hash numbers).0)
      | inr (q, kq, d') ↦ ih.number_in a (subst (λ x. Ancestor known x a) (cc) d')
    ];
    number_only = λ n h found. elim (ih.number_only n h found) [
      | inl one ↦ elim (insert_number_cases e.number n e.header.hash h numbers one) [
        | inl (at, is) ↦ inr (e, here, at, is)
        | inr old ↦ inl old
      ]
      | inr (a, d, at, is) ↦ inr (a, up kp d, at, is)
    ];
    number_above = λ n above.
        ih.number_above n (omega arith)
        ∙ (insert_number_lem e.number n e.header.hash numbers).1 (omega arith);
  }

hashset_loop_lem :
    {root : Bytes} (chain : Chain) (tree : IsTree root chain.known_headers)
    (rooted : IsRooted chain.known_headers) (fuel : ℕ) (e : BlockHeaderWithNumber)
    (hashes : Bytes → Bool) (numbers : ℕ → Option Bytes)
    → Linked chain.known_headers e
    → (e.number ≡ 0 → chain.known_headers e.header.parent ≡ none)
    → e.number < fuel
    → (hashes' : Bytes → Bool) × (numbers' : ℕ → Option Bytes) × (hashset_loop fuel chain e hashes
          numbers
        ≡ ok (record chain { most_work_chain = hashes'; number_to_hash = numbers' }))
      × Holds chain.known_headers e hashes hashes' numbers numbers'
unfolding hashset_loop
hashset_loop_lem chain tree rooted zero e hashes numbers link closed enough = absurd (omega arith)
hashset_loop_lem chain tree rooted (suc fuel) e hashes numbers link closed enough = elim link [
  | inl z ↦
      let last : (e.number == 0) ≡ true = ground arith in
      (hashes₁ e hashes, numbers₁ e numbers, rw last, Holds-root e hashes numbers (closed z))
  | inr (p, kp, next) ↦
      let more : (e.number == 0) ≡ false = ground arith in
      let (hs, ns, r, h) =
        hashset_loop_lem chain tree rooted fuel p (hashes₁ e hashes) (numbers₁ e numbers)
          (IsStored-Linked (tree e.header.parent p kp)) (rooted.open_root e.header.parent p kp)
          (omega arith) in
      (hs, ns, rw (more, kp) r, Holds-up e hashes numbers p hs ns kp next h)
]

-- From a header chain whose root's parent is unknown the two maps of the chain with the most work are
-- built without a panic, whatever they held before, and hold exactly the top header and its ancestors:
-- their hashes are in the set and no others, and a hash stands under a number exactly if one of them has
-- that hash and that number.
pub generate_top_work_chain_hashset_lem :
    (root : Bytes) (chain : Chain)
    → IsChain root chain
    → IsRooted chain.known_headers
    → (hashes : Bytes → Bool) × (numbers : ℕ → Option Bytes) × (generate_top_work_chain_hashset
          chain
        ≡ ok (record chain { most_work_chain = hashes; number_to_hash = numbers }))
      × ((h : Bytes)
          → (hashes h ≡ true) ↔ (
              (a : BlockHeaderWithNumber) × Ancestor chain.known_headers chain.top_header a
              × (a.header.hash ≡ h)))
      × ((n : ℕ) (h : Bytes)
          → (numbers n ≡ some h) ↔ (
              (a : BlockHeaderWithNumber) × Ancestor chain.known_headers chain.top_header a
              × (a.number ≡ n)
              × (a.header.hash ≡ h)))
unfolding generate_top_work_chain_hashset
generate_top_work_chain_hashset_lem root chain c rooted =
    let top = chain.top_header in
    let (hs, ns, r, h) =
      hashset_loop_lem chain c.tree rooted (top.number + 1) top (λ _. false) (λ _. none)
        (top-Linked chain c) (top-closed chain c rooted) (omega arith) in
    (
      hs,
      ns,
      r,
      λ k. (
        (λ m. elim (h.hash_only k m) [ inl no_hash ↦ cc | inr found ↦ found ]),
        λ (a, d, is). rw (← is) (h.hash_in a d),
      ),
      λ n k. (
        (λ m. elim (h.number_only n k m) [ inl no_number ↦ cc | inr found ↦ found ]),
        λ (a, d, at, is). rw (← at, ← is) (h.number_in a d),
      ),
    )
