-- ===== src/Chainman/Tests/Downloading.antt =====
-- A download of two blocks: the second one comes first.
use bitlens_rs.Prelude.{ℕ, ◌≡◌, refl, inl, true, none, some, List, [], ◌∷◌, arith, set_elem, ok}
use bitlens_rs.Util.TimeTracker.{start, stop}
use bitlens_rs.Packets.Buffer.{Bytes}
use bitlens_rs.Packets.Payload.{block}
use bitlens_rs.Chainman.BlockSync.Jobs.{
  BlockHashWithNumber, Requests, older, scan, job_at, request, advance, after_scan,
  find_next_best_job,
}
use bitlens_rs.Chainman.BlockSync.Master.{
  Clock, push_result, send, binary_search, insert, keep_for_later, apply_from_backlog,
  reply_with_job, pull_first_job, keep_early, apply_next, take_block, push_result_and_get_new_job,
  handle_worker_message,
}
use bitlens_rs.Chainman.BlockSync.Worker.{block_fits, should_send}
use bitlens_rs.Chainman.BlockSync.Backlog.{InOrder}
use bitlens_rs.Chainman.BlockSync.Invariant.{IsClock}
use bitlens_rs.Chainman.BlockSync.Runs.{
  Message, System, initial, pulls, delivers, Reach, then_step, IsMissing,
}
use bitlens_rs.Chainman.BlockSync.Runs
use bitlens_rs.Chainman.BlockSync.Runs.Order.{Reach-InOrder, Answers, handle_worker_message-Answers}
use bitlens_rs.Chainman.Tests.{plain_header}

abbrev sha256 : Bytes → Bytes
sha256 b = []

abbrev clock : Clock
clock = record { now = 10; start_micros = 20; stop_micros = 30 }

clock-IsClock : IsClock clock
clock-IsClock = record { now_positive = omega arith; start_positive = omega arith }

abbrev missing_blocks : List Bytes
missing_blocks = (1 ∷ []) ∷ (2 ∷ []) ∷ []

abbrev message : ℕ → Message
message n = some (block (record { header = plain_header (n ∷ []) []; txs = [] }))

abbrev requests : List ℕ → ℕ → Requests
requests times asked = record {
  missing_blocks = missing_blocks;
  first_missing_number = 5;
  last_request_times = times;
  next_never_asked_for = asked;
}

abbrev job₁ : BlockHashWithNumber
job₁ = (1 ∷ [], 5)

abbrev job₂ : BlockHashWithNumber
job₂ = (2 ∷ [], 6)

abbrev asked₁ : System
asked₁ = record {
  master = record {
    requests = requests (10 ∷ 0 ∷ []) 1;
    next_to_apply = 0;
    backlog = [];
    flush_time_tracker = record { total_waited_micros = 0; last_wait_start = 0 };
    flush = record { sent = []; takes = 3 };
  };
  jobs = job₁ ∷ [];
}

abbrev asked₂ : System
asked₂ = record {
  master = record asked₁.master { requests = requests (10 ∷ 10 ∷ []) 2 };
  jobs = job₂ ∷ job₁ ∷ [];
}

abbrev early : System
early = record {
  master = record asked₁.master {
    requests = requests (10 ∷ 0 ∷ []) 2;
    backlog = (message 2, 6) ∷ [];
  };
  jobs = job₁ ∷ job₂ ∷ job₁ ∷ [];
}

abbrev done : System
done = record {
  master = record early.master {
    next_to_apply = 2;
    backlog = [];
    flush_time_tracker = record { total_waited_micros = 10; last_wait_start = 0 };
    flush = record { sent = (message 1, 5) ∷ (message 2, 6) ∷ []; takes = 1 };
  };
  jobs = job₁ ∷ job₂ ∷ job₁ ∷ [];
}

asking₁ : pull_first_job clock (initial missing_blocks 5 3).master ≡ ok (asked₁.master, some job₁)
unfolding initial pull_first_job reply_with_job find_next_best_job after_scan scan advance request
    set_elem job_at
asking₁ = refl

asking₂ : pull_first_job clock asked₁.master ≡ ok (asked₂.master, some job₂)
unfolding pull_first_job reply_with_job find_next_best_job after_scan scan advance request set_elem
    job_at older
asking₂ = refl

delivery₂ :
    push_result_and_get_new_job clock (message 2) 6 asked₂.master ≡ ok (early.master, some job₁)
unfolding push_result_and_get_new_job take_block keep_early keep_for_later binary_search insert
    reply_with_job find_next_best_job after_scan scan advance request set_elem job_at older
delivery₂ = refl

delivery₁ : push_result_and_get_new_job clock (message 1) 5 early.master ≡ ok (done.master, none)
unfolding push_result_and_get_new_job take_block apply_next start stop send apply_from_backlog
    reply_with_job find_next_best_job after_scan scan advance request set_elem job_at older
delivery₁ = refl

sent₂ : should_send sha256 (2 ∷ []) 6 (message 2) ≡ ok true
unfolding should_send block_fits
sent₂ = refl

sent₁ : should_send sha256 (1 ∷ []) 5 (message 1) ≡ ok true
unfolding should_send block_fits
sent₁ = refl

early-Reach : Reach sha256 (initial missing_blocks 5 3) early
unfolding initial
early-Reach =
    then_step
      (then_step (then_step Runs.start (pulls clock clock-IsClock asking₁))
        (pulls clock clock-IsClock asking₂))
      (delivers clock (message 2) job₂ clock-IsClock (inl refl) sent₂ delivery₂)

done-Reach : Reach sha256 (initial missing_blocks 5 3) done
done-Reach =
    then_step early-Reach (delivers clock (message 1) job₁ clock-IsClock (inl refl) sent₁ delivery₁)

Reach-InOrder_example :
    InOrder (IsMissing sha256 missing_blocks 5) 5 ((message 1, 5) ∷ (message 2, 6) ∷ [])
Reach-InOrder_example = Reach-InOrder sha256 missing_blocks 5 3 (omega arith) done-Reach

handle_worker_message-Answers_example :
    Answers sha256 missing_blocks 5
      (handle_worker_message clock (push_result (message 1) 5) early.master)
handle_worker_message-Answers_example =
    handle_worker_message-Answers sha256 missing_blocks 5 3 clock (push_result (message 1) 5)
      (omega arith) early-Reach (omega arith) clock-IsClock (1 ∷ [], inl refl, sent₁)
