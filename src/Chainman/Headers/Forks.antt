-- ===== src/Chainman/Headers/Forks.antt =====
-- The walk over the two branches of a fork: what it returns, and where it panics.
use bitlens_rs.Prelude.{
  ℕ, zero, suc, ◌+◌, ◌≤◌, ◌<◌, ◌≡◌, refl, ap, inl, inr, false, Option, none, some, [], ◌∷◌, ◌++◌,
  arith, ◌==◌, Bool-cases, bytes_eq, All, ok, panic, unwrap, >>=-eq-ok,
}
use bitlens_rs.Packets.Buffer.{Bytes}
use bitlens_rs.Chainman.Chain.{BlockHeaderWithNumber}
use bitlens_rs.Chainman.Chain.Ancestors.{Known, IsTree, IsRooted}
use bitlens_rs.Chainman.Headers.{step_down, Visited, old_loop, Cursors, join_loop, visit_fork}

-- The entry of a known block, with a number one above the block's own.
abbrev pub OneAbove : Known → Bytes × ℕ → Type 0
OneAbove known (hash, number) =
    (e : BlockHeaderWithNumber) × (known hash ≡ some e) × (number ≡ e.number + 1)

All-snoc :
    (known : Known) (xs : Visited) (x : Bytes × ℕ)
    → All (OneAbove known) xs
    → OneAbove known x
    → All (OneAbove known) (xs ++ (x ∷ []))
All-snoc known [] x h hx = (hx, tt)
All-snoc known (y ∷ ys) x (hy, hys) hx = (hy, All-snoc known ys x hys hx)

pub unwrap-some {ℓ} : {A : Type ℓ} (o : Option A) (a : A) → unwrap o ≡ ok a → o ≡ some a
unwrap-some none a e = cc
unwrap-some (some b) a e = cc

-- The cursor on the new branch counts one number above its block.
abbrev CursorAbove : Known → Cursors → Type 0
CursorAbove known c =
    (e : BlockHeaderWithNumber) → known c.new_hash ≡ some e → c.new_number ≡ e.number + 1

module _ {root : Bytes} {known : Known} (tree : IsTree root known) (rooted : IsRooted known) where
  pub child_number :
      (hash : Bytes) (e p : BlockHeaderWithNumber)
      → known hash ≡ some e
      → known e.header.parent ≡ some p
      → e.number ≡ p.number + 1
  child_number hash e p k kp = elim ((tree hash e k).linked) [
    | inl (z, _) ↦ absurd (cc (rooted.open_root hash e k z))
    | inr (q, kq, n) ↦ cc
  ]

  join_loop_lem :
      (fuel : ℕ) (c : Cursors) (head : Bytes × ℕ) (tail new old : Visited)
      → CursorAbove known c
      → c.visited_new ≡ head ∷ tail
      → All (OneAbove known) tail
      → join_loop fuel known c ≡ ok (new, old)
      → (rest : Visited) × (new ≡ head ∷ rest) × All (OneAbove known) rest
  unfolding join_loop
  join_loop_lem zero c head tail new old above e h r = cc
  join_loop_lem (suc fuel) c head tail new old above e h r =
      elim (Bool-cases (bytes_eq c.new_hash c.old_hash)) [
        | inl met ↦ let r' = rw (met, join_loop) at r in (tail, cc, h)
        | inr apart ↦
            let r' = rw (apart, join_loop) at r in
            let (o, e₁, r₁) = >>=-eq-ok (unwrap (known c.old_hash)) _ r' in
            let (b, e₂, r₂) = >>=-eq-ok (unwrap (known c.new_hash)) _ r₁ in
            let kb = unwrap-some (known c.new_hash) b e₂ in
            let small = rooted.bounded c.new_hash b kb in
            let n : c.new_number ≡ b.number + 1 = above b kb in
            join_loop_lem fuel _ head (tail ++ ((c.new_hash, c.new_number) ∷ [])) new old
              (λ p kp. let q = child_number c.new_hash b p kb kp in omega arith)
              (ap (λ (v : Visited). v ++ ((c.new_hash, c.new_number) ∷ [])) e)
              (All-snoc known tail (c.new_hash, c.new_number) h (b, kb, n)) r₂
      ]

  -- With the old branch's block below the number that is looked for, the loop leaves the chain at the
  -- root and panics.
  old_loop_panics :
      (fuel n : ℕ) (hash : Bytes) (e : BlockHeaderWithNumber) (number : ℕ) (visited : Visited)
      → known hash ≡ some e
      → e.number < n
      → e.number + 2 ≤ fuel
      → old_loop fuel known n hash number visited ≡ panic
  unfolding old_loop
  old_loop_panics zero n hash e number visited k less enough = absurd (omega arith)
  old_loop_panics (suc zero) n hash e number visited k less enough = absurd (omega arith)
  old_loop_panics (suc (suc fuel)) n hash e number visited k less enough =
      let other : (e.number == n) ≡ false = ground arith in
      elim ((tree hash e k).linked) [
        | inl (z, _) ↦ rw (k, old_loop, other, rooted.open_root hash e k z, old_loop)
        | inr (p, kp, m) ↦
            rw (k, old_loop, other)
              (old_loop_panics (suc fuel) n e.header.parent p (step_down number)
                (visited ++ ((e.header.hash, e.number) ∷ [])) kp (omega arith) (omega arith))
      ]

-- In a rooted header tree the walk over a fork panics whenever the old top lies below the parent of
-- the new header: it looks for the old branch's block with the parent's number, and there is none.
pub visit_fork_panics :
    (root : Bytes) (known : Known) (top new_header t : BlockHeaderWithNumber) (parent_number : ℕ)
    → IsTree root known
    → IsRooted known
    → known top.header.hash ≡ some t
    → t.number ≡ top.number
    → top.number < parent_number
    → visit_fork known top new_header parent_number ≡ panic
unfolding visit_fork
visit_fork_panics root known top new_header t parent_number tree rooted k same less = rw (
    old_loop_panics tree rooted (top.number + 2) parent_number top.header.hash t top.number
      ((top.header.hash, top.number) ∷ []) k (omega arith) (omega arith))

-- In a rooted header tree, where the walk over a fork returns the blocks of the new branch, the first
-- is the new header under its own number, and every other is a known block under a number that is one
-- above its own.
pub visit_fork-OneAbove :
    (root : Bytes) (known : Known) (top new_header p : BlockHeaderWithNumber) (new old : Visited)
    → IsTree root known
    → IsRooted known
    → known new_header.header.parent ≡ some p
    → new_header.number ≡ p.number + 1
    → visit_fork known top new_header p.number ≡ ok (new, old)
    → (rest : Visited) × (new ≡ (new_header.header.hash, new_header.number) ∷ rest)
      × All (OneAbove known) rest
unfolding visit_fork
visit_fork-OneAbove root known top new_header p new old tree rooted kp n r =
    let (found, e₁, r₁) =
      >>=-eq-ok
        (old_loop (top.number + 2) known p.number top.header.hash top.number
          ((top.header.hash, top.number) ∷ []))
        _ r in
    join_loop_lem tree rooted (p.number + 1) _ (new_header.header.hash, new_header.number) [] new
      old (λ q kq. cc) refl tt r₁
