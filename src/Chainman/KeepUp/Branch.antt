-- ===== src/Chainman/KeepUp/Branch.antt =====
-- The new branch of a fork, as the walk over the fork returns it: from its top down, block by block.
use bitlens_rs.Prelude.{
  ℕ, zero, suc, ◌+◌, ◌<◌, ◌≡◌, refl, sym, ap, subst, ◌∙◌, inl, inr, some, [], ◌∷◌, ◌++◌, reverse,
  arith, length, length-append, bytes_eq, Bool-cases, ok, unwrap, >>=-eq-ok,
}
use mathlib.Core.List.{reverse-append}
use bitlens_rs.Packets.Buffer.{Bytes}
use bitlens_rs.Chainman.Chain.{BlockHeaderWithNumber}
use bitlens_rs.Chainman.Chain.Ancestors.{Known, IsTree, IsRooted}
use bitlens_rs.Chainman.Headers.{Visited, old_loop, Cursors, join_loop, visit_fork}
use bitlens_rs.Chainman.Headers.Forks.{child_number, unwrap-some}

-- From a hash down by parents, up to the hash after the last.
abbrev pub Downward : Known → Bytes → Visited → Bytes → Type 0
Downward known hash [] end = hash ≡ end
Downward known hash ((h, n) ∷ rest) end =
    (h ≡ hash)
    × ((e : BlockHeaderWithNumber) × (known hash ≡ some e)
        × Downward known e.header.parent rest end)

-- Known blocks with consecutive numbers, upward from one.
abbrev pub Upward : Known → ℕ → Visited → Type 0
Upward known number [] = Unit
Upward known number ((h, n) ∷ rest) =
    ((e : BlockHeaderWithNumber) × (known h ≡ some e) × (e.number ≡ number))
    × Upward known (number + 1) rest

Downward-snoc :
    (known : Known) (hash : Bytes) (xs : Visited) (end : Bytes) (n : ℕ) (e : BlockHeaderWithNumber)
    → Downward known hash xs end
    → known end ≡ some e
    → Downward known hash (xs ++ ((end, n) ∷ [])) e.header.parent
Downward-snoc known hash [] end n e same k =
    (sym same, (e, subst (λ h. known h ≡ some e) (sym same) k, refl))
Downward-snoc known hash ((h, m) ∷ xs) end n e (at, (f, kf, down)) k =
    (at, (f, kf, Downward-snoc known f.header.parent xs end n e down k))

Upward-snoc :
    (known : Known) (number n : ℕ) (xs : Visited) (h : Bytes) (e : BlockHeaderWithNumber)
    → Upward known number xs
    → known h ≡ some e
    → e.number ≡ number + length xs
    → Upward known number (xs ++ ((h, n) ∷ []))
Upward-snoc known number n [] h e up k at = ((e, k, omega arith), tt)
Upward-snoc known number n ((g, m) ∷ xs) h e (here, up) k at =
    (here, Upward-snoc known (number + 1) n xs h e up k (omega arith))

pub length-reverse : (xs : Visited) → length (reverse xs) ≡ length xs
length-reverse [] = refl
length-reverse (x ∷ xs) =
    ap length (reverse-append (x ∷ []) xs)
    ∙ omega (arith, length-append (reverse xs) (x ∷ []), length-reverse xs)

module _ {root : Bytes} {known : Known} (tree : IsTree root known) (rooted : IsRooted known) where
  -- Turned round, the branch goes up to the number of its top.
  pub reverse-Upward :
      (hash end : Bytes) (xs : Visited) (t : BlockHeaderWithNumber)
      → known hash ≡ some t
      → Downward known hash xs end
      → 0 < length xs
      → (n : ℕ) × (n + length xs ≡ t.number + 1) × Upward known n (reverse xs)
  reverse-Upward hash end [] t k down some_block = absurd (omega arith)
  reverse-Upward hash end ((h, m) ∷ []) t k (at, (e, ke, down)) some_block =
      (t.number, omega arith, ((t, subst (λ j. known j ≡ some t) (sym at) k, refl), tt))
  reverse-Upward hash end ((h, m) ∷ (x ∷ xs)) t k (at, (e, ke, down)) some_block =
      let same : e ≡ t = cc in
      let (g, l) = x in
      let (at', (p, kp, down')) = down in
      let child = child_number tree rooted hash e p ke kp in
      let (n, wide, up) = reverse-Upward e.header.parent end (x ∷ xs) p kp down (omega arith) in
      let number : e.number ≡ t.number = ap (λ (b : BlockHeaderWithNumber). b.number) same in
      (
        n,
        omega arith,
        rw (reverse-append ((h, m) ∷ []) (x ∷ xs)) (
            Upward-snoc known n m (reverse (x ∷ xs)) h e up
              (subst (λ j. known j ≡ some e) (sym at) ke) (omega (arith, length-reverse (x ∷ xs)))),
      )

join_loop-Downward :
    (known : Known) (fuel : ℕ) (c : Cursors) (top : Bytes) (new old : Visited)
    → Downward known top c.visited_new c.new_hash
    → 0 < length c.visited_new
    → join_loop fuel known c ≡ ok (new, old)
    → (end : Bytes) × Downward known top new end × (0 < length new)
unfolding join_loop
join_loop-Downward known zero c top new old down some_block r = cc
join_loop-Downward known (suc fuel) c top new old down some_block r =
    elim (Bool-cases (bytes_eq c.new_hash c.old_hash)) [
      | inl met ↦
          let r' = rw (met, join_loop) at r in
          let same : c.visited_new ≡ new = cc in
          (c.new_hash, rw (← same) down, rw (← same) some_block)
      | inr apart ↦
          let r' = rw (apart, join_loop) at r in
          let (o, e₁, r₁) = >>=-eq-ok (unwrap (known c.old_hash)) _ r' in
          let (b, e₂, r₂) = >>=-eq-ok (unwrap (known c.new_hash)) _ r₁ in
          let kb = unwrap-some (known c.new_hash) b e₂ in
          join_loop-Downward known fuel _ top new old
            (Downward-snoc known top c.visited_new c.new_hash c.new_number b down kb)
            (omega (arith, length-append c.visited_new ((c.new_hash, c.new_number) ∷ []))) r₂
    ]

pub visit_fork-Downward :
    (known : Known) (top new_header : BlockHeaderWithNumber) (parent_number : ℕ) (new old : Visited)
    → known new_header.header.hash ≡ some new_header
    → visit_fork known top new_header parent_number ≡ ok (new, old)
    → (end : Bytes) × Downward known new_header.header.hash new end × (0 < length new)
unfolding visit_fork
visit_fork-Downward known top new_header parent_number new old k r =
    let (found, e₁, r₁) =
      >>=-eq-ok
        (old_loop (top.number + 2) known parent_number top.header.hash top.number
          ((top.header.hash, top.number) ∷ []))
        _ r in
    join_loop-Downward known (parent_number + 1) _ new_header.header.hash new old
      (refl, (new_header, k, refl)) (omega arith) r₁
