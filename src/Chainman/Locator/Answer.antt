-- ===== src/Chainman/Locator/Answer.antt =====
-- What a peer's request for headers is answered.
use bitlens_rs.Prelude.{
  ℕ, zero, suc, ◌+◌, ◌-◌, ◌%◌, ◌^◌, ◌≤◌, ◌<◌, ◌≡◌, refl, ap, subst, ◌∙◌, ◌⊎◌, inl, inr, true, false,
  none, some, List, [], ◌∷◌, ◌++◌, arith, ◌==◌, Bool-cases, length, All, bytes_eq, bytes_eq→eq, ok,
  add_usize,
}
use bitlens_rs.Packets.Buffer.{Bytes}
use bitlens_rs.Packets.BlockHeader.{BlockHeader}
use bitlens_rs.Chainman.Chain.{BlockHeaderWithNumber, Chain}
use bitlens_rs.Chainman.Chain.Ancestors.{IsRooted, IsChain, Ancestor, top-Linked, top-closed}
use bitlens_rs.Chainman.Locator.{
  find_match, answer_step, answer_loop, blocks_to_send_count, answer_from, respond_to_getheaders,
}
use bitlens_rs.Chainman.Locator.Descent.{get_ancestor-Linked}
use bitlens_rs.Chainman.Locator.Indexed.{
  done, one_more, IsIndexed, Ancestor-low, Run, Sent, stored-Ancestor,
}

module _ (chain : Chain) (n number : ℕ) (hash block_stop : Bytes) where
  answer_stops :
      chain.number_to_hash number ≡ some hash
      → bytes_eq hash block_stop ≡ true
      → answer_loop (suc n) chain number block_stop ≡ ok []
  unfolding answer_step
  answer_stops named stop =
      let inner : answer_loop (suc n) chain number block_stop
          ≡ answer_step chain block_stop hash
              (answer_loop n chain (add_usize number 1) block_stop) =
        unfold answer_loop in rw named refl in
      inner ∙ rw (answer_step, stop) refl

  answer_goes :
      (e : BlockHeaderWithNumber) (rest : List BlockHeader)
      → chain.number_to_hash number ≡ some hash
      → bytes_eq hash block_stop ≡ false
      → chain.known_headers hash ≡ some e
      → answer_loop n chain (add_usize number 1) block_stop ≡ ok rest
      → answer_loop (suc n) chain number block_stop ≡ ok (e.header ∷ rest)
  unfolding answer_step
  answer_goes e rest named go k run =
      let inner : answer_loop (suc n) chain number block_stop
          ≡ answer_step chain block_stop hash
              (answer_loop n chain (add_usize number 1) block_stop) =
        unfold answer_loop in rw named refl in
      inner ∙ rw (answer_step, go, k, run) refl

module _ {root : Bytes} (chain : Chain) (c : IsChain root chain)
    (rooted : IsRooted chain.known_headers) (indexed : IsIndexed chain) where
  small_top : chain.top_header.number < 2 ^ 63
  small_top =
      let small = rooted.bounded chain.top_header.header.hash c.top c.top_known in
      let same = c.top_same.number_eq in omega arith

  answer_loop_lem :
      (n number : ℕ) (block_stop : Bytes)
      → number + n ≤ chain.top_header.number
      → (result : List BlockHeader) × (answer_loop n chain number block_stop ≡ ok result)
        × Run chain.known_headers chain.top_header number result
        × (length result ≤ n)
        × (chain.most_work_chain block_stop ≡ false → length result ≡ n)
  unfolding answer_loop
  answer_loop_lem zero number block_stop h = ([], refl, done, omega arith, λ _. refl)
  answer_loop_lem (suc n) number block_stop h =
      let (a, _, is, d) =
        get_ancestor-Linked chain chain.top_header number c.tree (top-Linked chain c)
          (omega arith) in
      let (e, k, same, _) = stored-Ancestor chain a c d in
      let named : chain.number_to_hash number ≡ some a.header.hash =
        rw is at (indexed.numbered a d) in
      let on : chain.most_work_chain a.header.hash ≡ true =
        (indexed.on_chain a.header.hash).1 (a, d, refl) in
      elim (Bool-cases (bytes_eq a.header.hash block_stop)) [
        | inl stop ↦ (
          [],
          answer_stops chain n number a.header.hash block_stop named stop,
          done,
          omega arith,
          λ off. absurd (cc (on, off, bytes_eq→eq a.header.hash block_stop stop)),
        )
        | inr go ↦
            let small = small_top in
            let next : add_usize number 1 ≡ a.number + 1 = omega arith in
            let (rest, run, steps, short, full) =
              answer_loop_lem n (a.number + 1) block_stop (omega arith) in
            (
              a.header ∷ rest,
              answer_goes chain n number a.header.hash block_stop e rest named go k (rw next run)
                  ∙ rw same refl,
              subst (λ i. Run chain.known_headers chain.top_header i (a.header ∷ rest)) is
                  (one_more d steps),
              omega arith,
              λ off. omega (arith, full off),
            )
      ]

  count_lem :
      (number : ℕ)
      → number ≤ chain.top_header.number
      → (number + blocks_to_send_count chain.top_header.number number ≤ chain.top_header.number)
        × (blocks_to_send_count chain.top_header.number number ≤ 2000)
        × ((blocks_to_send_count chain.top_header.number number ≡ 2000)
            ⊎ (blocks_to_send_count chain.top_header.number number + number
                ≡ chain.top_header.number))
  unfolding blocks_to_send_count
  count_lem number h =
      let small = small_top in
      let count : (chain.top_header.number + 2 ^ 64 - number) % 2 ^ 64
          ≡ chain.top_header.number - number =
        omega arith in
      rw count (ground arith)

  answer_from_lem :
      (m : BlockHeaderWithNumber) (block_stop : Bytes)
      → Ancestor chain.known_headers chain.top_header m
      → Sent chain m block_stop (answer_from chain m.header.hash block_stop)
  unfolding answer_from
  answer_from_lem m block_stop d =
      let (e, k, _, is) = stored-Ancestor chain m c d in
      let low = Ancestor-low c.tree rooted (top-Linked chain c) (top-closed chain c rooted) d in
      let (inside, short, which) = count_lem m.number low in
      let count = blocks_to_send_count chain.top_header.number m.number in
      elim (Bool-cases (count == 0)) [
        | inl nothing ↦ inl (ground arith, rw (k, is, nothing) refl)
        | inr something ↦
            let (result, run, steps, few, full) =
              answer_loop_lem count m.number block_stop inside in
            inr (
              result,
              rw (k, is, something, run) refl,
              steps,
              omega arith,
              omega arith,
              λ off. elim which [
                | inl many ↦ inl (full off ∙ many)
                | inr all ↦ inr (omega (arith, full off))
              ],
            )
      ]

  find_match_lem :
      (locator : List Bytes)
      → (All (λ h. chain.most_work_chain h ≡ false) locator × (find_match chain locator ≡ none))
        ⊎ ((pre post : List Bytes) × (hash : Bytes) × (locator ≡ pre ++ (hash ∷ post))
            × All (λ h. chain.most_work_chain h ≡ false) pre
            × (chain.most_work_chain hash ≡ true)
            × (find_match chain locator ≡ some hash))
  unfolding find_match
  find_match_lem [] = inl (tt, refl)
  find_match_lem (h ∷ locator) = elim (Bool-cases (chain.most_work_chain h)) [
    | inl on ↦ inr ([], locator, h, refl, tt, on, rw on refl)
    | inr off ↦ elim (find_match_lem locator) [
      | inl (nowhere, e) ↦ inl ((off, nowhere), rw off e)
      | inr (pre, post, hash, parts, before, on, e) ↦
          inr (h ∷ pre, post, hash, ap (λ t. h ∷ t) parts, (off, before), on, rw off e)
    ]
  ]

-- A request for headers is answered without a panic on a header chain whose maps name the ancestors of
-- the top: with nothing if no hash of the locator is on the chain or the first one that is, is the
-- top's; otherwise with headers of consecutive numbers from that of the first hash on the chain on,
-- ancestors of the top all of them, at most 2000, and none with the number of the top; if the hash
-- to stop at is off the chain, they are 2000 or reach up to one below the top.
pub respond_to_getheaders_lem :
    (root : Bytes) (chain : Chain) (locator : List Bytes) (block_stop : Bytes)
    → IsChain root chain
    → IsRooted chain.known_headers
    → IsIndexed chain
    → (All (λ h. chain.most_work_chain h ≡ false) locator
        × (respond_to_getheaders chain locator block_stop ≡ ok none))
      ⊎ ((pre post : List Bytes) × (m : BlockHeaderWithNumber) × (locator
            ≡ pre ++ (m.header.hash ∷ post))
          × All (λ h. chain.most_work_chain h ≡ false) pre
          × Ancestor chain.known_headers chain.top_header m
          × Sent chain m block_stop (respond_to_getheaders chain locator block_stop))
unfolding respond_to_getheaders
respond_to_getheaders_lem root chain locator block_stop c rooted indexed =
    elim (find_match_lem chain c rooted indexed locator) [
      | inl (nowhere, e) ↦ inl (nowhere, rw (respond_to_getheaders, e) refl)
      | inr (pre, post, hash, parts, before, on, e) ↦
          let (m, d, is) = (indexed.on_chain hash).0 on in
          inr (
            pre,
            post,
            m,
            rw is parts,
            before,
            d,
            rw (respond_to_getheaders, e, ← is)
                (answer_from_lem chain c rooted indexed m block_stop d),
          )
    ]
