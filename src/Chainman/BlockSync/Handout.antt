-- ===== src/Chainman/BlockSync/Handout.antt =====
-- The job that is handed out: a missing block that is waited for, under its number.
use bitlens_rs.Prelude.{
  ℕ, ◌+◌, ◌-◌, ◌^◌, ◌≤◌, ◌<◌, ◌≡◌, ◌≢◌, refl, sym, subst, ◌∙◌, ◌⊎◌, inl, inr, Bool, true, false,
  Option, none, some, List, arith, ◌==◌, ltb, Bool-cases, length, get_elem?, set_elem_lem,
  get_elem?-in_range, Result, ok, add_usize,
}
use bitlens_rs.Packets.Buffer.{Bytes}
use bitlens_rs.Chainman.BlockSync.Jobs.{
  BlockHashWithNumber, Oldest, Requests, job_at, request, advance, after_scan, find_next_best_job,
}
use bitlens_rs.Chainman.BlockSync.Master.{BlockWithNumber}
use bitlens_rs.Chainman.BlockSync.Backlog.{Held}
use bitlens_rs.Chainman.BlockSync.Asking.{Waiting, Scanned, scan_lem}

-- The same blocks, and no fewer asked for.
pub record Grows (r r' : Requests) : Type 0 where
  pub same_blocks : r'.missing_blocks ≡ r.missing_blocks
  pub same_first : r'.first_missing_number ≡ r.first_missing_number
  pub more : r.next_never_asked_for ≤ r'.next_never_asked_for

module _ {P : Type 0} where
  -- The requests fit to the backlog: from the next block to apply on, a block that was asked for has
  -- the request time 0 exactly if it is in the backlog.
  pub record Asked (r : Requests) (next_to_apply : ℕ) (b : List (BlockWithNumber P)) : Type 0 where
    pub range : r.first_missing_number + length r.missing_blocks < 2 ^ 64
    pub same_length : length r.last_request_times ≡ length r.missing_blocks
    pub applied : next_to_apply ≤ r.next_never_asked_for
    pub asked : r.next_never_asked_for ≤ length r.missing_blocks
    pub there :
        (i : ℕ)
        → next_to_apply ≤ i
        → i < r.next_never_asked_for
        → get_elem? r.last_request_times i ≡ some 0
        → Held (r.first_missing_number + i) b
    pub marked :
        (i : ℕ)
        → Held (r.first_missing_number + i) b
        → (i < r.next_never_asked_for) × (get_elem? r.last_request_times i ≡ some 0)

  -- A missing block at its number, which is waited for.
  pub record IsJob (r : Requests) (next_to_apply : ℕ) (b : List (BlockWithNumber P))
      (job : BlockHashWithNumber) : Type 0 where
    pub index : ℕ
    pub number_eq : job.1 ≡ r.first_missing_number + index
    pub hash_eq : get_elem? r.missing_blocks index ≡ some job.0
    pub not_applied : next_to_apply ≤ index
    pub was_asked : index < r.next_never_asked_for
    pub not_held : ¬ Held (r.first_missing_number + index) b

  abbrev pub Answer : Requests → ℕ → List (BlockWithNumber P) → Option BlockHashWithNumber → Type 0
  Answer r next_to_apply b none = next_to_apply ≡ length r.missing_blocks
  Answer r next_to_apply b (some job) = IsJob r next_to_apply b job

  -- What a call that hands out a job leaves.
  abbrev pub HandsOut :
      Requests
      → ℕ
      → List (BlockWithNumber P)
      → Result (Requests × Option BlockHashWithNumber)
      → Type 0
  HandsOut r next_to_apply b result =
      (r' : Requests) × (job : Option BlockHashWithNumber) × (result ≡ ok (r', job))
      × Asked r' next_to_apply b
      × Grows r r'
      × Answer r' next_to_apply b job

  job_at_lem :
      (r : Requests) (next_to_apply i : ℕ) (b : List (BlockWithNumber P))
      → Asked r next_to_apply b
      → i < length r.missing_blocks
      → (hash : Bytes) × (get_elem? r.missing_blocks i ≡ some hash)
        × (job_at r i ≡ ok (hash, r.first_missing_number + i))
  unfolding job_at
  job_at_lem r next_to_apply i b a less =
      let (hash, e) = get_elem?-in_range r.missing_blocks i less in
      let small = a.range in
      let n : add_usize r.first_missing_number i ≡ r.first_missing_number + i = omega arith in
      (hash, e, rw (e, n) refl)

  -- The block at an index that is not held is asked for; `limit` is what counts as asked for then.
  request_lem :
      (now : ℕ) (r : Requests) (next_to_apply i limit : ℕ) (b : List (BlockWithNumber P))
      → 0 < now
      → Asked r next_to_apply b
      → next_to_apply ≤ i
      → i < limit
      → limit ≤ length r.missing_blocks
      → r.next_never_asked_for ≤ limit
      → limit ≤ r.next_never_asked_for + 1
      → (r.next_never_asked_for < limit → i ≡ r.next_never_asked_for)
      → ¬ Held (r.first_missing_number + i) b
      → (times : List ℕ) × (hash : Bytes) × (request now r i
          ≡ ok (record r { last_request_times = times }, some (hash, r.first_missing_number + i)))
        × Asked
            (record r { last_request_times = times; next_never_asked_for = limit })
            next_to_apply
            b
        × IsJob
            (record r { last_request_times = times; next_never_asked_for = limit })
            next_to_apply
            b
            (hash, r.first_missing_number + i)
  unfolding request
  request_lem now r next_to_apply i limit b positive a le less within grows step at not_held =
      let (times, set, assigned) =
        set_elem_lem i now r.last_request_times (let e = a.same_length in omega arith) in
      let (hash, e, job) = job_at_lem r next_to_apply i b a (omega arith) in
      (
        times,
        hash,
        rw (set, job) refl,
        record {
          range = a.range;
          same_length = assigned.same_length ∙ a.same_length;
          applied = let h = a.applied in omega arith;
          asked = within;
          there = λ k from to zero_time. elim (Bool-cases (i == k)) [
            | inl same ↦
                let e : i ≡ k = ground arith in
                let at_i : get_elem? times i ≡ some now = assigned.at_index in
                absurd (now_not_zero times i k now positive e at_i zero_time)
            | inr other ↦
                let d : i ≢ k = ground arith in
                let old = sym (assigned.elsewhere k d) ∙ zero_time in
                a.there k from (below_old k to d) old
          ];
          marked = λ k held.
              let (less', marked) = a.marked k held in
              let d : i ≢ k =
                λ e. not_held (subst (λ j. Held (r.first_missing_number + j) b) (sym e) held) in
              (omega arith, assigned.elsewhere k d ∙ marked);
        },
        record {
          index = i;
          number_eq = refl;
          hash_eq = e;
          not_applied = le;
          was_asked = less;
          not_held = not_held;
        },
      )
    where
      now_not_zero :
          (times : List ℕ) (i k now : ℕ)
          → 0 < now
          → i ≡ k
          → get_elem? times i ≡ some now
          → get_elem? times k ≡ some 0
          → ⊥
      now_not_zero times i k now positive e f g =
          let h = subst (λ j. get_elem? times j ≡ some now) e f in
          let z : now ≡ 0 = cc in omega arith

      below_old : (k : ℕ) → k < limit → i ≢ k → k < r.next_never_asked_for
      below_old k less d = elim (Bool-cases (ltb r.next_never_asked_for limit)) [
        | inl more ↦
            let e = at (ground arith) in
            let f : ¬ (r.next_never_asked_for ≡ k) = λ g. d (e ∙ g) in ground arith
        | inr same ↦ ground arith
      ]

  -- The same, of a block that was asked for before.
  again_lem :
      (now : ℕ) (r : Requests) (next_to_apply i : ℕ) (b : List (BlockWithNumber P))
      → 0 < now
      → Asked r next_to_apply b
      → next_to_apply ≤ i
      → i < r.next_never_asked_for
      → ¬ Held (r.first_missing_number + i) b
      → HandsOut r next_to_apply b (request now r i)
  again_lem now r next_to_apply i b positive a le less not_held =
      let (times, hash, run, a', job) =
        request_lem now r next_to_apply i r.next_never_asked_for b positive a le less a.asked
          (omega arith) (omega arith) (λ h. absurd (omega arith)) not_held in
      (
        record r { last_request_times = times },
        some (hash, r.first_missing_number + i),
        run,
        a',
        record { same_blocks = refl; same_first = refl; more = omega arith },
        job,
      )

  -- A block that waits is not in the backlog.
  Waiting-not-Held :
      (r : Requests) (next_to_apply i : ℕ) (b : List (BlockWithNumber P))
      → Asked r next_to_apply b
      → Waiting r.last_request_times next_to_apply r.next_never_asked_for i
      → ¬ Held (r.first_missing_number + i) b
  Waiting-not-Held r next_to_apply i b a w held =
      let (less, marked) = a.marked i held in
      let positive = w.not_there in
      let asked = w.requested in let same : w.requested_at ≡ 0 = cc in omega arith

  advance_lem :
      (now next_to_apply : ℕ) (r : Requests) (b : List (BlockWithNumber P))
      → 0 < now
      → Asked r next_to_apply b
      → ¬ Held (r.first_missing_number + next_to_apply) b
      → HandsOut r next_to_apply b (advance now next_to_apply r)
  unfolding advance
  advance_lem now next_to_apply r b positive a not_held =
      let applied = a.applied in
      let asked = a.asked in
      elim (Bool-cases (ltb r.next_never_asked_for (length r.missing_blocks))) [
        | inl more ↦
            let (times, hash, run, a', job) =
              request_lem now r next_to_apply r.next_never_asked_for (r.next_never_asked_for + 1) b
                positive a applied (omega arith) (ground arith) (omega arith) (omega arith)
                (λ _. refl)
                (λ held. let (less, _) = a.marked r.next_never_asked_for held in omega arith) in
            (
              record r {
                last_request_times = times;
                next_never_asked_for = r.next_never_asked_for + 1;
              },
              some (hash, r.first_missing_number + r.next_never_asked_for),
              rw (more, run) refl,
              a',
              record { same_blocks = refl; same_first = refl; more = omega arith },
              job,
            )
        | inr all ↦ elim (Bool-cases (ltb next_to_apply r.next_never_asked_for)) [
          | inl waits ↦
              let (hash, e, job) = job_at_lem r next_to_apply next_to_apply b a (ground arith) in
              (
                r,
                some (hash, r.first_missing_number + next_to_apply),
                rw (all, waits, job) refl,
                a,
                record { same_blocks = refl; same_first = refl; more = omega arith },
                record {
                  index = next_to_apply;
                  number_eq = refl;
                  hash_eq = e;
                  not_applied = omega arith;
                  was_asked = ground arith;
                  not_held = not_held;
                },
              )
          | inr done ↦ (
            r,
            none,
            rw (all, done) refl,
            a,
            record { same_blocks = refl; same_first = refl; more = omega arith },
            ground arith,
          )
        ]
      ]

  after_scan_lem :
      (now next_to_apply : ℕ) (r : Requests) (b : List (BlockWithNumber P)) (can_advance : Bool)
      (found : ℕ ⊎ Oldest)
      → 0 < now
      → Asked r next_to_apply b
      → ¬ Held (r.first_missing_number + next_to_apply) b
      → (can_advance ≡ false → next_to_apply < r.next_never_asked_for)
      → Scanned r.last_request_times next_to_apply r.next_never_asked_for found
      → HandsOut r next_to_apply b (after_scan now next_to_apply r can_advance found)
  unfolding after_scan
  after_scan_lem now next_to_apply r b can_advance (inl i) positive a not_held waits w =
      again_lem now r next_to_apply i b positive a w.above w.below
        (Waiting-not-Held r next_to_apply i b a w)
  after_scan_lem now next_to_apply r b true (inr oldest) positive a not_held waits w =
      advance_lem now next_to_apply r b positive a not_held
  after_scan_lem now next_to_apply r b false (inr none) positive a not_held waits all_there =
      let less = waits refl in
      absurd (
        not_held
          (a.there next_to_apply (omega arith) less (all_there next_to_apply (omega arith) less)))
  after_scan_lem now next_to_apply r b false (inr (some (i, elapsed))) positive a not_held waits w =
      again_lem now r next_to_apply i b positive a w.above w.below
        (Waiting-not-Held r next_to_apply i b a w)

  pub find_next_best_job_lem :
      (now next_to_apply : ℕ) (r : Requests) (b : List (BlockWithNumber P)) (can_advance : Bool)
      → 0 < now
      → Asked r next_to_apply b
      → ¬ Held (r.first_missing_number + next_to_apply) b
      → (can_advance ≡ false → next_to_apply < r.next_never_asked_for)
      → HandsOut r next_to_apply b (find_next_best_job now next_to_apply r can_advance)
  unfolding find_next_best_job
  find_next_best_job_lem now next_to_apply r b can_advance positive a not_held waits =
      let applied = a.applied in
      let asked = a.asked in
      let e = a.same_length in
      let (found, run, s) =
        scan_lem (r.next_never_asked_for - next_to_apply) next_to_apply now r.last_request_times
          next_to_apply r.next_never_asked_for none (omega arith) (omega arith) (omega arith)
          (λ k le less. absurd (omega arith)) in
      rw run (after_scan_lem now next_to_apply r b can_advance found positive a not_held waits s)
