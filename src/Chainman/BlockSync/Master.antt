-- ===== src/Chainman/BlockSync/Master.antt =====
-- src/chainman/blocksync.rs: the master, which hands out jobs, keeps early blocks in its backlog, and
-- passes the blocks on in their order. `P` is the type of a block's payload. The average size of a block
-- and the count of blocks since the last update, which only steer the number of workers, are left out.
use bitlens_rs.Prelude.{
  ℕ, zero, suc, ◌+◌, ◌-◌, Bool, true, false, Option, none, some, List, [], ◌∷◌, ◌++◌, ltb, leb,
  ◌==◌, if◌then◌else◌, length, set_elem, Result, ok, ◌>>=◌, add_usize,
}
use bitlens_rs.Util.TimeTracker.{TimeTracker}
use bitlens_rs.Util.TimeTracker
use bitlens_rs.Chainman.BlockSync.Jobs.{BlockHashWithNumber, Requests, find_next_best_job}

-- What the clock shows during a call: milliseconds for the requests, microseconds for the tracker.
pub record Clock : Type 0 where
  pub now : ℕ
  pub start_micros : ℕ
  pub stop_micros : ℕ

module _ {ℓ} (P : Type ℓ) where
  abbrev pub BlockWithNumber : Type ℓ
  BlockWithNumber = P × ℕ

  -- The channel to the writer of blocks: what it was sent, and how many messages it still takes before
  -- its receiver is dropped.
  pub record Flush : Type ℓ where
    pub sent : List BlockWithNumber
    pub takes : ℕ

  -- `backlog` is the vector from its end, where the oldest block stands.
  pub record MasterState : Type ℓ where
    pub requests : Requests
    pub next_to_apply : ℕ
    pub backlog : List BlockWithNumber
    pub flush_time_tracker : TimeTracker
    pub flush : Flush

  -- The channel for the reply is the call's result.
  pub data DownloadWorkerMessage : Type ℓ where
    pull_first : DownloadWorkerMessage
    push_result : P → ℕ → DownloadWorkerMessage

  abbrev pub Reply : Type ℓ
  Reply = MasterState × Option BlockHashWithNumber

abbrev pub one_later : Option ℕ → Option ℕ
one_later none = none
one_later (some i) = some (suc i)

module _ {ℓ} {P : Type ℓ} where
  -- Nothing where the receiver is dropped.
  unfoldable pub send : BlockWithNumber P → Flush P → Option (Flush P)
  send block flush =
      if flush.takes == 0
      then none
      else some (record { sent = flush.sent ++ (block ∷ []); takes = flush.takes - 1 })

  -- The search in the backlog: nothing for a number that is there, else the place for it.
  unfoldable pub binary_search : ℕ → List (BlockWithNumber P) → Option ℕ
  binary_search number [] = some 0
  binary_search number ((payload, n) ∷ blocks) =
      let later = binary_search number blocks in
      if n == number then none else if ltb number n then some 0 else one_later later

  unfoldable pub insert :
      ℕ → BlockWithNumber P → List (BlockWithNumber P) → List (BlockWithNumber P)
  insert zero block blocks = block ∷ blocks
  insert (suc i) block [] = block ∷ []
  insert (suc i) block (b ∷ blocks) = b ∷ insert i block blocks

  abbrev pub insert_at :
      Option ℕ → BlockWithNumber P → List (BlockWithNumber P) → List (BlockWithNumber P)
  insert_at none block backlog = backlog
  insert_at (some i) block backlog = insert i block backlog

  unfoldable pub keep_for_later :
      BlockWithNumber P → List (BlockWithNumber P) → List (BlockWithNumber P)
  keep_for_later (payload, number) backlog =
      insert_at (binary_search number backlog) (payload, number) backlog

  -- The counter goes up before a block is sent, also where the writer does not take it.
  unfoldable pub apply_from_backlog :
      ℕ → List (BlockWithNumber P) → ℕ → Flush P → List (BlockWithNumber P) × ℕ × Flush P
  apply_from_backlog first_missing_number [] next_to_apply flush = ([], next_to_apply, flush)
  apply_from_backlog first_missing_number ((payload, n) ∷ backlog) next_to_apply flush =
      if n == add_usize first_missing_number next_to_apply
      then elim (send (payload, n) flush) [
        | some flush' ↦ apply_from_backlog first_missing_number backlog (next_to_apply + 1) flush'
        | none ↦ (backlog, next_to_apply + 1, flush)
      ]
      else ((payload, n) ∷ backlog, next_to_apply, flush)

  unfoldable pub reply_with_job : Clock → MasterState P → Bool → Result (Reply P)
  reply_with_job clock s can_advance = do
    (requests, job) ← find_next_best_job clock.now s.next_to_apply s.requests can_advance
    ok (record s { requests = requests }, job)

  unfoldable pub pull_first_job : Clock → MasterState P → Result (Reply P)
  pull_first_job clock s = reply_with_job clock s true

  -- An early block is kept, and never asked for again.
  unfoldable pub keep_early : P → ℕ → MasterState P → Result (MasterState P)
  keep_early payload number s = do
    times ← set_elem (number - s.requests.first_missing_number) 0 s.requests.last_request_times
    ok (record s {
      backlog = keep_for_later (payload, number) s.backlog;
      requests = record s.requests { last_request_times = times };
    })

  -- The block that is waited for. Where the writer does not take it, the call ends there, with the
  -- tracker started: the second component says whether it goes on.
  unfoldable pub apply_next : Clock → P → ℕ → MasterState P → Result (MasterState P × Bool)
  apply_next clock payload number s = do
    tracker ← TimeTracker.start clock.start_micros s.flush_time_tracker
    elim (send (payload, number) s.flush) [
      | none ↦
          ok (record s { next_to_apply = s.next_to_apply + 1; flush_time_tracker = tracker }, false)
      | some flush ↦
          let (backlog, next_to_apply, flush') =
            apply_from_backlog s.requests.first_missing_number s.backlog (s.next_to_apply + 1)
              flush in
          TimeTracker.stop clock.stop_micros tracker >>= (λ stopped. ok (
            record s {
              backlog = backlog;
              next_to_apply = next_to_apply;
              flush_time_tracker = stopped;
              flush = flush';
            },
            true,
          ))
    ]

  unfoldable pub take_block : Clock → P → ℕ → MasterState P → Result (MasterState P × Bool)
  take_block clock payload number s =
      let expected = add_usize s.requests.first_missing_number s.next_to_apply in
      if ltb expected number
      then (keep_early payload number s >>= (λ s'. ok (s', true)))
      else if ltb number expected
      then ok (s, true)
      else apply_next clock payload number s

  -- A worker delivers a block and asks for its next job.
  unfoldable pub push_result_and_get_new_job : Clock → P → ℕ → MasterState P → Result (Reply P)
  push_result_and_get_new_job clock payload number s =
      take_block clock payload number s >>= (λ (s', goes_on).
        if goes_on then reply_with_job clock s' (leb (length s'.backlog) 512) else ok (s', none))

  unfoldable pub handle_worker_message :
      Clock → DownloadWorkerMessage P → MasterState P → Result (Reply P)
  handle_worker_message clock pull_first s = pull_first_job clock s
  handle_worker_message clock (push_result payload number) s =
      push_result_and_get_new_job clock payload number s

  -- What the ticker does to the state that is modelled.
  unfoldable pub update_workers : MasterState P → Result (MasterState P)
  update_workers s = do
    tracker ← TimeTracker.reset s.flush_time_tracker
    ok (record s { flush_time_tracker = tracker })
