-- ===== src/Chainman/BlockSync/Asking.antt =====
-- Which block is asked for: the scan of the requests, and what holds of the job that is handed out.
use bitlens_rs.Prelude.{
  ℕ, zero, suc, ◌+◌, ◌-◌, ◌%◌, ◌^◌, ◌≤◌, ◌<◌, ◌≡◌, refl, sym, ap, subst, ◌∙◌, ◌⊎◌, inl, inr, true,
  false, none, some, List, arith, ◌==◌, ltb, Bool-cases, length, get_elem?, get_elem?-in_range, ok,
}
use bitlens_rs.Chainman.BlockSync.Jobs.{Oldest, older, scan}

-- An index of a block that was asked for and is not there.
pub record Waiting (times : List ℕ) (from to i : ℕ) : Type 0 where
  pub above : from ≤ i
  pub below : i < to
  pub requested_at : ℕ
  pub requested : get_elem? times i ≡ some requested_at
  pub not_there : 0 < requested_at

-- The oldest request among those scanned: without any, all their blocks are there.
abbrev pub OldestOf : List ℕ → ℕ → ℕ → ℕ → Oldest → Type 0
OldestOf times from to i none = (k : ℕ) → from ≤ k → k < i → get_elem? times k ≡ some 0
OldestOf times from to i (some (j, elapsed)) = Waiting times from to j

abbrev pub Scanned : List ℕ → ℕ → ℕ → ℕ ⊎ Oldest → Type 0
Scanned times from to (inl i) = Waiting times from to i
Scanned times from to (inr oldest) = OldestOf times from to to oldest

older-OldestOf :
    (times : List ℕ) (from to i elapsed : ℕ) (oldest : Oldest)
    → OldestOf times from to i oldest
    → Waiting times from to i
    → OldestOf times from to (i + 1) (older oldest i elapsed)
unfolding older
older-OldestOf times from to i elapsed none h w = w
older-OldestOf times from to i elapsed (some (j, longest)) h w =
    elim (Bool-cases (ltb longest elapsed)) [ inl e ↦ rw e w | inr e ↦ rw e h ]

there-OldestOf :
    (times : List ℕ) (from to i : ℕ) (oldest : Oldest)
    → OldestOf times from to i oldest
    → get_elem? times i ≡ some 0
    → OldestOf times from to (i + 1) oldest
there-OldestOf times from to i none h there = λ k le less. elim (Bool-cases (k == i)) [
  | inl same ↦ let e : k ≡ i = ground arith in subst (λ j. get_elem? times j ≡ some 0) (sym e) there
  | inr other ↦ h k le (ground arith)
]
there-OldestOf times from to i (some (j, elapsed)) h there = h

abbrev pub wait : ℕ → ℕ → ℕ
wait now requested_at = (now + (2 ^ 64 - requested_at)) % 2 ^ 64

module _ (rounds i now : ℕ) (times : List ℕ) (oldest : Oldest) where
  scan_there :
      get_elem? times i ≡ some 0
      → scan (suc rounds) i now times oldest ≡ scan rounds (i + 1) now times oldest
  unfolding scan
  scan_there e = rw e refl

  scan_late :
      (t : ℕ)
      → get_elem? times i ≡ some t
      → (t == 0) ≡ false
      → ltb 1000 (wait now t) ≡ true
      → scan (suc rounds) i now times oldest ≡ ok (inl i)
  unfolding scan
  scan_late t e asked late = rw (e, asked, late) refl

  scan_early :
      (t : ℕ)
      → get_elem? times i ≡ some t
      → (t == 0) ≡ false
      → ltb 1000 (wait now t) ≡ false
      → scan (suc rounds) i now times oldest
        ≡ scan rounds (i + 1) now times (older oldest i (wait now t))
  unfolding scan
  scan_early t e asked early = rw (e, asked, early) refl

pub scan_lem :
    (rounds i now : ℕ) (times : List ℕ) (from to : ℕ) (oldest : Oldest)
    → i + rounds ≡ to
    → from ≤ i
    → to ≤ length times
    → OldestOf times from to i oldest
    → (found : ℕ ⊎ Oldest) × (scan rounds i now times oldest ≡ ok found)
      × Scanned times from to found
unfolding scan
scan_lem zero i now times from to oldest at le enough h =
    let e : i ≡ to = omega arith in
    (inr oldest, refl, subst (λ k. OldestOf times from to k oldest) e h)
scan_lem (suc rounds) i now times from to oldest at le enough h =
    let (t, there) = get_elem?-in_range times i (omega arith) in
    elim (Bool-cases (t == 0)) [
      | inl zero_time ↦
          let e : t ≡ 0 = ground arith in
          let there' : get_elem? times i ≡ some 0 = there ∙ ap some e in
          let (found, run, s) =
            scan_lem rounds (i + 1) now times from to oldest (omega arith) (omega arith) enough
              (there-OldestOf times from to i oldest h there') in
          (found, scan_there rounds i now times oldest there' ∙ run, s)
      | inr asked ↦
          let w : Waiting times from to i = record {
            above = le;
            below = omega arith;
            requested_at = t;
            requested = there;
            not_there = ground arith;
          } in
          elim (Bool-cases (ltb 1000 (wait now t))) [
            | inl late ↦ (inl i, scan_late rounds i now times oldest t there asked late, w)
            | inr early ↦
                let (found, run, s) =
                  scan_lem rounds (i + 1) now times from to (older oldest i (wait now t))
                    (omega arith) (omega arith) enough
                    (older-OldestOf times from to i (wait now t) oldest h w) in
                (found, scan_early rounds i now times oldest t there asked early ∙ run, s)
          ]
    ]
