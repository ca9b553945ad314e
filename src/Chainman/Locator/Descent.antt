-- ===== src/Chainman/Locator/Descent.antt =====
-- The locator is a descent from the top header to the root.
use bitlens_rs.Prelude.{
  ℕ, zero, suc, ◌+◌, ◌-◌, ◌*◌, ◌%◌, ◌^◌, ◌≤◌, ◌<◌, ◌≡◌, refl, sym, ap, ◌∙◌, if◌then◌else◌, sub_u64,
  inl, inr, true, some, List, [], ◌∷◌, ◌++◌, append_assoc, append-nil, arith, ltb, leb, Bool-cases,
  length, length-append, ok,
}
use bitlens_rs.Packets.Buffer.{Bytes, empty_hash}
use bitlens_rs.Chainman.Chain.{BlockHeaderWithNumber, Chain, ancestor_loop, get_ancestor}
use bitlens_rs.Chainman.Chain.Ancestors.{
  Known, IsTree, IsRooted, IsChain, Ancestor, here, up, Linked, IsStored-Linked, top-Linked,
  ancestor_loop_lem,
}
use bitlens_rs.Chainman.Locator.{next_step, locator_loop, build_get_headers}

-- The hashes from a header with `i` hashes before it down to the root. The next one is that of the
-- ancestor 2^(i - 8) below, where the exponent stops at 0: a gap of 1 up to the tenth hash, and then of
-- 2, 4, 8 and so on; or that of the root, where the gap is wider.
pub data Descends (known : Known) : ℕ → BlockHeaderWithNumber → List Bytes → Type 0 where
  at_root :
      {i : ℕ} {e : BlockHeaderWithNumber} → e.number ≡ 0 → Descends known i e (e.header.hash ∷ [])
  down :
      {i : ℕ} {e a : BlockHeaderWithNumber} {rest : List Bytes}
      → Ancestor known e a
      → 0 < e.number
      → a.number ≡ e.number - 2 ^ (i - 8)
      → Descends known (i + 1) a rest
      → Descends known i e (e.header.hash ∷ rest)

-- The ancestor at each height, of a header that need not be the stored copy.
pub get_ancestor-Linked :
    {root : Bytes} (chain : Chain) (e : BlockHeaderWithNumber) (height : ℕ)
    → IsTree root chain.known_headers
    → Linked chain.known_headers e
    → height ≤ e.number
    → (a : BlockHeaderWithNumber) × (get_ancestor chain e height ≡ ok (some a))
      × (a.number ≡ height)
      × Ancestor chain.known_headers e a
unfolding get_ancestor ancestor_loop
get_ancestor-Linked chain e height tree link h =
    let one : e.number + 1 ≡ suc e.number = omega arith in
    elim (Bool-cases (ltb height e.number)) [
      | inr at ↦ (e, rw (one, at) refl, ground arith, here)
      | inl above ↦ elim link [
        | inl z ↦ absurd (ground arith)
        | inr (p, kp, n) ↦
            let (a, r, m, d) =
              ancestor_loop_lem chain tree e.number height e.header.parent p kp (ground arith)
                (omega arith) in
            (a, rw (one, above, kp) r, m, up kp d)
      ]
    ]

-- A proper ancestor is stored.
pub Ancestor-Linked :
    {root : Bytes} {known : Known} {e a : BlockHeaderWithNumber}
    → IsTree root known
    → Linked known e
    → Ancestor known e a
    → Linked known a
Ancestor-Linked tree link here = link
Ancestor-Linked tree link (up {e = f} {p = q} k d) =
    Ancestor-Linked tree (IsStored-Linked (tree f.header.parent q k)) d

-- From the tenth hash on the gap doubles.
gap_lem : (i : ℕ) → (9 ≤ i → 2 ^ (i - 8) ≡ 2 ^ (i - 9) * 2) × (i < 9 → 2 ^ (i - 8) ≡ 1)
gap_lem i = (
  λ late.
      let k = i - 9 in
      let is : i - 8 ≡ suc k = omega arith in ap (λ (n : ℕ). 2 ^ n) is ∙ omega arith,
  λ early. let is : i - 8 ≡ 0 = omega arith in ap (λ (n : ℕ). 2 ^ n) is,
)

-- A step is the gap, or all that is left above the root.
abbrev capped : ℕ → ℕ → ℕ
capped number gap = if ltb number gap then number else gap

capped_lem :
    (number gap : ℕ)
    → 0 < gap
    → 0 < number
    → (0 < capped number gap)
      × (capped number gap ≤ number)
      × (number - capped number gap ≡ number - gap)
      × (0 < number - capped number gap → capped number gap ≡ gap)
capped_lem number gap some_gap above_root = elim (Bool-cases (ltb number gap)) [
  | inl wide ↦
      let beyond : number < gap = ground arith in
      rw wide (above_root, omega arith, omega arith, λ more. absurd (omega arith))
  | inr narrow ↦
      let within : gap ≤ number = ground arith in rw narrow (some_gap, within, refl, λ more. refl)
]

-- A round at the hash `i` takes the gap, but stops at the root.
next_step-capped :
    (step i number : ℕ)
    → step ≡ 2 ^ (i - 9)
    → step < 2 ^ 63
    → (next_step step (i + 1) number ≡ capped number (2 ^ (i - 8))) × (step ≤ 2 ^ (i - 8))
unfolding next_step
next_step-capped step i number is small =
    let (late_gap, early_gap) = gap_lem i in
    elim (Bool-cases (leb 10 (i + 1))) [
      | inl late ↦
          let gap = late_gap (ground arith) in
          let whole : (step * 2) % 2 ^ 64 ≡ 2 ^ (i - 8) = omega arith in
          (rw (late, whole) refl, omega arith)
      | inr early ↦
          let before : i < 9 = ground arith in
          let none_left : i - 9 ≡ 0 = omega arith in
          let one : step ≡ 2 ^ (i - 8) =
            is ∙ (ap (λ (n : ℕ). 2 ^ n) none_left ∙ sym (early_gap before)) in
          (rw early (ap (capped number) one), omega arith)
    ]

-- A round of the loop above the root.
locator_round :
    (fuel : ℕ) (chain : Chain) (e a : BlockHeaderWithNumber) (step step' : ℕ) (sofar : List Bytes)
    → ltb 0 e.number ≡ true
    → next_step step (length sofar) e.number ≡ step'
    → sub_u64 e.number step' ≡ e.number - step'
    → get_ancestor chain e (e.number - step') ≡ ok (some a)
    → locator_loop (suc fuel) chain e step sofar
      ≡ locator_loop fuel chain a step' (sofar ++ (a.header.hash ∷ []))
unfolding locator_loop
locator_round fuel chain e a step step' sofar more next at found =
    rw (locator_loop, more, next, at, found) refl

locator_loop_lem :
    {root : Bytes} (fuel : ℕ) (chain : Chain) (e : BlockHeaderWithNumber) (step i : ℕ)
    (sofar : List Bytes)
    → IsTree root chain.known_headers
    → Linked chain.known_headers e
    → e.number < fuel
    → e.number < 2 ^ 63
    → length sofar ≡ i + 1
    → 0 < step
    → step < 2 ^ 63
    → (0 < e.number → step ≡ 2 ^ (i - 9))
    → (more : List Bytes) × (locator_loop fuel chain e step sofar ≡ ok (sofar ++ more))
      × Descends chain.known_headers i e (e.header.hash ∷ more)
unfolding locator_loop
locator_loop_lem zero chain e step i sofar tree link enough small len h h' is = absurd (omega arith)
locator_loop_lem (suc fuel) chain e step i sofar tree link enough small len h h' is =
    elim (Bool-cases (ltb 0 e.number)) [
      | inr end ↦ ([], rw (locator_loop, end, append-nil sofar) refl, at_root (ground arith))
      | inl more ↦
          let above_root : 0 < e.number = ground arith in
          let gap = 2 ^ (i - 8) in
          let step' = capped e.number gap in
          let (next, wide) = next_step-capped step i e.number (is above_root) h' in
          let (some_step, low, below, whole) = capped_lem e.number gap (omega arith) above_root in
          let at : sub_u64 e.number step' ≡ e.number - step' = omega arith in
          let (a, found, n, d) =
            get_ancestor-Linked chain e (e.number - step') tree link (omega arith) in
          let same_gap : i + 1 - 9 ≡ i - 8 = omega arith in
          let (rest, run, descent) =
            locator_loop_lem fuel chain a step' (i + 1) (sofar ++ (a.header.hash ∷ [])) tree
              (Ancestor-Linked tree link d) (omega arith) (omega arith)
              (omega (arith, length-append sofar (a.header.hash ∷ []))) some_step (omega arith)
              (λ further. whole (omega arith) ∙ ap (λ (k : ℕ). 2 ^ k) (sym same_gap)) in
          (
            a.header.hash ∷ rest,
            locator_round fuel chain e a step step' sofar more
                  (ap (λ (n : ℕ). next_step step n e.number) len ∙ next) at found
                ∙ (run ∙ ap ok (append_assoc sofar (a.header.hash ∷ []) rest)),
            down d above_root (n ∙ below) descent,
          )
    ]

-- On a header chain the request is built without a panic and its loop ends. The locator descends from
-- the hash of the top header to that of the root over ancestors whose distances are 1 up to the tenth
-- hash, and from there on 2, 4, 8 and so on, but for the last one, which ends at the root. The
-- conditions: the root's parent is unknown, and the numbers are below 2^63.
pub build_get_headers-Descends :
    (root : Bytes) (chain : Chain)
    → IsChain root chain
    → IsRooted chain.known_headers
    → (block_locator : List Bytes) × (build_get_headers chain
        ≡ ok (record { version = 70016; block_locator = block_locator; hash_stop = empty_hash }))
      × Descends chain.known_headers 0 chain.top_header block_locator
unfolding build_get_headers
build_get_headers-Descends root chain c rooted =
    let top = chain.top_header in
    let small = rooted.bounded top.header.hash c.top c.top_known in
    let same = c.top_same.number_eq in
    let (more, run, descent) =
      locator_loop_lem (top.number + 1) chain top 1 0 (top.header.hash ∷ []) c.tree
        (top-Linked chain c) (omega arith) (omega arith) refl (omega arith) (omega arith)
        (λ above_root. refl) in
    (top.header.hash ∷ more, rw run refl, descent)
