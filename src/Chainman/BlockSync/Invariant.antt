-- ===== src/Chainman/BlockSync/Invariant.antt =====
-- The state of the master between two messages, and that each call keeps it.
use bitlens_rs.Prelude.{
  ℕ, ◌+◌, ◌-◌, ◌<◌, ◌≡◌, ◌≢◌, refl, sym, subst, ◌∙◌, inl, inr, Bool, true, false, Option, some,
  List, [], ◌∷◌, arith, ◌==◌, leb, Bool-cases, length, get_elem?, set_elem, set_elem_lem, Result,
  ok,
}
use bitlens_rs.Chainman.BlockSync.Jobs.{BlockHashWithNumber}
use bitlens_rs.Chainman.BlockSync.Master.{
  Clock, BlockWithNumber, MasterState, Reply, keep_for_later, reply_with_job, pull_first_job,
  keep_early,
}
use bitlens_rs.Chainman.BlockSync.Backlog.{
  Above, Above-Held, Held, InOrder, AllGood, keep_for_later-Kept,
}
use bitlens_rs.Chainman.BlockSync.Handout.{Asked, Answer, Grows, find_next_best_job_lem}

-- The clock is past its epoch.
pub record IsClock (clock : Clock) : Type 0 where
  pub now_positive : 0 < clock.now
  pub start_positive : 0 < clock.start_micros

module _ {P : Type 0} (Good : P → ℕ → Type 0) where
  pub record Live (s : MasterState P) : Type 0 where
    pub asked : Asked s.requests s.next_to_apply s.backlog
    pub above : Above (s.requests.first_missing_number + s.next_to_apply) s.backlog
    pub good : AllGood Good s.backlog
    pub order : InOrder Good s.requests.first_missing_number s.flush.sent
    pub count : length s.flush.sent ≡ s.next_to_apply
    pub idle : s.flush_time_tracker.last_wait_start ≡ 0

  -- The writer is gone, after blocks in their order from `first` on.
  pub record Gone (first : ℕ) (s : MasterState P) : Type 0 where
    pub none_left : s.flush.takes ≡ 0
    pub order : InOrder Good first s.flush.sent

  next-not-Held :
      (s : MasterState P)
      → Live s
      → ¬ Held (s.requests.first_missing_number + s.next_to_apply) s.backlog
  next-not-Held s l held =
      let above =
        Above-Held (s.requests.first_missing_number + s.next_to_apply) _ s.backlog l.above held in
      omega arith

  -- A block in the backlog was asked for after the next one.
  pub Held-later :
      (s : MasterState P) (number : ℕ)
      → Live s
      → Held number s.backlog
      → number < s.requests.first_missing_number + s.requests.next_never_asked_for
  Held-later s number l held =
      let first = s.requests.first_missing_number in
      let above = Above-Held (first + s.next_to_apply) number s.backlog l.above held in
      let e : number ≡ first + (number - first) = omega arith in
      let (less, _) = l.asked.marked (number - first) (subst (λ m. Held m s.backlog) e held) in
      omega arith

  pub waits_lem :
      (s : MasterState P)
      → Live s
      → leb (length s.backlog) 512 ≡ false
      → s.next_to_apply < s.requests.next_never_asked_for
  waits_lem s l long = go s.backlog (ground arith) l.above (λ m held. Held-later s m l held)
    where
      go :
          (b : List (BlockWithNumber P))
          → 0 < length b
          → Above (s.requests.first_missing_number + s.next_to_apply) b
          → ((m : ℕ)
              → Held m b
              → m < s.requests.first_missing_number + s.requests.next_never_asked_for)
          → s.next_to_apply < s.requests.next_never_asked_for
      go [] some_block above later = absurd (omega arith)
      go ((payload, n) ∷ b) some_block (above, _) later =
          let less = later n (inl refl) in omega arith

  -- What the master gives back while the writer is there.
  abbrev pub Replies : MasterState P → Result (Reply P) → Type 0
  Replies s result =
      (s' : MasterState P) × (job : Option BlockHashWithNumber) × (result ≡ ok (s', job))
      × Live s'
      × Grows s.requests s'.requests
      × Answer s'.requests s'.next_to_apply s'.backlog job

  pub reply_with_job_lem :
      (clock : Clock) (s : MasterState P) (can_advance : Bool)
      → IsClock clock
      → Live s
      → (can_advance ≡ false → s.next_to_apply < s.requests.next_never_asked_for)
      → Replies s (reply_with_job clock s can_advance)
  unfolding reply_with_job
  reply_with_job_lem clock s can_advance c l waits =
      let (r', job, run, asked, grows, answer) =
        find_next_best_job_lem clock.now s.next_to_apply s.requests s.backlog can_advance
          c.now_positive l.asked (next-not-Held s l) waits in
      (
        record s { requests = r' },
        job,
        rw run refl,
        record {
          asked = asked;
          above = subst (λ f. Above (f + s.next_to_apply) s.backlog) (sym grows.same_first) l.above;
          good = l.good;
          order = subst (λ f. InOrder Good f s.flush.sent) (sym grows.same_first) l.order;
          count = l.count;
          idle = l.idle;
        },
        grows,
        answer,
      )

  pub pull_first_job_lem :
      (clock : Clock) (s : MasterState P)
      → IsClock clock
      → Live s
      → Replies s (pull_first_job clock s)
  unfolding pull_first_job
  pull_first_job_lem clock s c l = reply_with_job_lem clock s true c l (λ e. cc)

  pub keep_early_lem :
      (payload : P) (i : ℕ) (s : MasterState P)
      → Live s
      → i < s.requests.next_never_asked_for
      → s.next_to_apply < i
      → Good payload (s.requests.first_missing_number + i)
      → (s' : MasterState P) × (keep_early payload (s.requests.first_missing_number + i) s ≡ ok s')
        × Live s'
        × Grows s.requests s'.requests
  unfolding keep_early
  keep_early_lem payload i s l less later good =
      let first = s.requests.first_missing_number in
      let number : ℕ = first + i in
      let at : number - first ≡ i = omega arith in
      let a = l.asked in
      let (times, set, assigned) =
        set_elem_lem i 0 s.requests.last_request_times
          (let e = a.same_length in let h = a.asked in omega arith) in
      let set' : set_elem (number - first) 0 s.requests.last_request_times ≡ ok times =
        subst (λ j. set_elem j 0 s.requests.last_request_times ≡ ok times) (sym at) set in
      let kept =
        keep_for_later-Kept Good payload number (first + s.next_to_apply) s.backlog (omega arith)
          l.above l.good good in
      (
        record s {
          backlog = keep_for_later (payload, number) s.backlog;
          requests = record s.requests { last_request_times = times };
        },
        rw set' refl,
        record {
          asked = record {
            range = a.range;
            same_length = assigned.same_length ∙ a.same_length;
            applied = a.applied;
            asked = a.asked;
            there = λ k from to zero_time. elim (Bool-cases (i == k)) [
              | inl same ↦
                  let e : i ≡ k = ground arith in
                  subst (λ j. Held (first + j) (keep_for_later (payload, number) s.backlog)) e
                    kept.here
              | inr other ↦
                  let d : i ≢ k = ground arith in
                  kept.still (first + k)
                    (a.there k from to (sym (assigned.elsewhere k d) ∙ zero_time))
            ];
            marked = λ k held. elim (Bool-cases (i == k)) [
              | inl same ↦
                  let e : i ≡ k = ground arith in
                  (omega arith, subst (λ j. get_elem? times j ≡ some 0) e assigned.at_index)
              | inr other ↦
                  let d : i ≢ k = ground arith in
                  elim (kept.only (first + k) held) [
                    | inl new ↦ absurd (d (omega arith))
                    | inr old ↦
                        let (less', mark) = a.marked k old in (less', assigned.elsewhere k d ∙ mark)
                  ]
            ];
          };
          above = kept.above;
          good = kept.good;
          order = l.order;
          count = l.count;
          idle = l.idle;
        },
        record { same_blocks = refl; same_first = refl; more = omega arith },
      )
