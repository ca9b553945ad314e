-- ===== src/Chainman/BlockSync/Runs/Order.antt =====
-- What holds of every run of the block download.
use bitlens_rs.Prelude.{
  ℕ, ◌+◌, ◌^◌, ◌≤◌, ◌<◌, ◌≡◌, ap, subst, ◌∙◌, inl, inr, true, Option, none, some, List, arith,
  length, get_elem?, Result, ok,
}
use bitlens_rs.Packets.Buffer.{Bytes}
use bitlens_rs.Chainman.BlockSync.Jobs.{BlockHashWithNumber}
use bitlens_rs.Chainman.BlockSync.Master.{
  Clock, DownloadWorkerMessage, pull_first, push_result, MasterState, Reply, pull_first_job,
  push_result_and_get_new_job, handle_worker_message,
}
use bitlens_rs.Chainman.BlockSync.Worker.{should_send}
use bitlens_rs.Chainman.BlockSync.Backlog.{Above-Held, Held, InOrder}
use bitlens_rs.Chainman.BlockSync.Handout.{Answer}
use bitlens_rs.Chainman.BlockSync.Invariant.{IsClock, Replies, pull_first_job_lem}
use bitlens_rs.Chainman.BlockSync.Runs.{
  Message, System, initial, GivenTo, Reach, IsMissing, LiveSystem,
}
use bitlens_rs.Chainman.BlockSync.Runs.Delivery.{Good, initial-Keeps, delivery_lem, Reach-Keeps}

module _ (sha256 : Bytes → Bytes) (missing_blocks : List Bytes) (first : ℕ) where
  -- In any run of the block download, whatever the workers do and whenever the writer is gone: the
  -- blocks that were passed on to the writer have the numbers from the first missing one on, without a
  -- gap or a repetition, each is the missing block with that number, and from the height of segwit on
  -- its witness commitment was verified. The condition: the numbers of the missing blocks are in the
  -- range of `u64`.
  pub Reach-InOrder :
      (takes : ℕ) {s : System}
      → first + length missing_blocks < 2 ^ 64
      → Reach sha256 (initial missing_blocks first takes) s
      → InOrder (IsMissing sha256 missing_blocks first) first s.master.flush.sent
  Reach-InOrder takes {s} range run =
      elim (Reach-Keeps sha256 missing_blocks first
        (initial-Keeps sha256 missing_blocks first takes range) run) [
          | inl l ↦
              subst (λ f. InOrder (Good sha256 missing_blocks first) f s.master.flush.sent)
                l.same_first l.live.order
          | inr (none_left, order) ↦ order
        ]

  -- A message that a worker may send: a delivery is of a block for a job that was given.
  abbrev pub Sendable : List BlockHashWithNumber → DownloadWorkerMessage Message → Type 0
  Sendable jobs pull_first = Unit
  Sendable jobs (push_result payload number) =
      (hash : Bytes) × GivenTo jobs (hash, number)
      × (should_send sha256 hash number payload ≡ ok true)

  -- A job is a missing block that was neither passed on nor kept; there is none once all are passed on.
  abbrev pub Due : MasterState Message → Option BlockHashWithNumber → Type 0
  Due s none = length s.flush.sent ≡ length missing_blocks
  Due s (some (hash, number)) =
      (i : ℕ) × (number ≡ first + i)
      × (get_elem? missing_blocks i ≡ some hash)
      × (length s.flush.sent ≤ i)
      × ¬ Held number s.backlog

  Answer-Due :
      (s : MasterState Message) (job : Option BlockHashWithNumber)
      → s.requests.missing_blocks ≡ missing_blocks
      → s.requests.first_missing_number ≡ first
      → length s.flush.sent ≡ s.next_to_apply
      → Answer s.requests s.next_to_apply s.backlog job
      → Due s job
  Answer-Due s none blocks at count all = count ∙ all ∙ ap length blocks
  Answer-Due s (some (hash, number)) blocks at count job =
      let n = job.number_eq in
      let n' : number ≡ s.requests.first_missing_number + job.index = n in
      (
        job.index,
        omega arith,
        subst (λ b. get_elem? b job.index ≡ some hash) blocks job.hash_eq,
        let a = job.not_applied in omega arith,
        λ held. job.not_held (subst (λ m. Held m s.backlog) n' held),
      )

  -- The master answers, and keeps no block that it could pass on.
  abbrev pub Answers : Result (Reply Message) → Type 0
  Answers result =
      (s : MasterState Message) × (job : Option BlockHashWithNumber) × (result ≡ ok (s, job))
      × Due s job
      × ¬ Held (first + length s.flush.sent) s.backlog

  Replies-Answers :
      (s : System) (result : Result (Reply Message))
      → LiveSystem sha256 missing_blocks first s
      → Replies (Good sha256 missing_blocks first) s.master result
      → Answers result
  Replies-Answers s result l (master, job, run, live, grows, answer) =
      let same_first = grows.same_first ∙ l.same_first in
      (
        master,
        job,
        run,
        Answer-Due master job (grows.same_blocks ∙ l.same_blocks) same_first live.count answer,
        λ held.
            let at = same_first in
            let count = live.count in
            let above =
              Above-Held (master.requests.first_missing_number + master.next_to_apply)
                (first + length master.flush.sent) master.backlog live.above held in
            omega arith,
      )

  -- In any reachable state whose writer still takes more blocks than the backlog holds, the master
  -- answers every message that a worker may send, without a panic: with a missing block that was
  -- neither passed on nor kept for later, under its number, or with no job if all missing blocks have
  -- been passed on; and the block that is waited for then is not in the backlog. The conditions: the
  -- numbers of the missing blocks are in the range of `u64`, and the clock is past its epoch.
  pub handle_worker_message-Answers :
      (takes : ℕ) {s : System} (clock : Clock) (message : DownloadWorkerMessage Message)
      → first + length missing_blocks < 2 ^ 64
      → Reach sha256 (initial missing_blocks first takes) s
      → length s.master.backlog < s.master.flush.takes
      → IsClock clock
      → Sendable s.jobs message
      → Answers (handle_worker_message clock message s.master)
  unfolding handle_worker_message
  handle_worker_message-Answers takes {s} clock message range run open_yet c sendable =
      elim (Reach-Keeps sha256 missing_blocks first
        (initial-Keeps sha256 missing_blocks first takes range) run) [
          | inl l ↦ answer l message sendable
          | inr (none_left, order) ↦ absurd (omega arith)
        ]
    where
      answer :
          LiveSystem sha256 missing_blocks first s
          → (message : DownloadWorkerMessage Message) → Sendable s.jobs message
          → Answers (handle_worker_message clock message s.master)
      answer l pull_first sendable =
          Replies-Answers s (pull_first_job clock s.master) l
            (pull_first_job_lem (Good sha256 missing_blocks first) clock s.master c l.live)
      answer l (push_result payload number) (hash, given, sent) =
          elim (delivery_lem sha256 missing_blocks first s clock payload (hash, number) l c given
            sent) [
              | inl replies ↦
                  Replies-Answers s (push_result_and_get_new_job clock payload number s.master) l
                    replies
              | inr (fewer, gone) ↦ absurd (omega arith)
            ]
