-- ===== src/Chainman/BlockSync/Runs/Delivery.antt =====
-- Whatever the workers do, the blocks are passed on in their order, and the master has an answer.
use bitlens_rs.Prelude.{
  ℕ, zero, suc, ◌+◌, ◌^◌, ◌≤◌, ◌<◌, ◌≡◌, refl, sym, ap, subst, ◌∙◌, ◌⊎◌, inl, inr, true, Option,
  none, some, List, [], ◌∷◌, map, arith, ◌==◌, Bool-cases, length, get_elem?, Result, ok, >>=-eq-ok,
  Yields, Yields-eq-ok,
}
use bitlens_rs.Util.TimeTracker.{TimeTracker, reset}
use bitlens_rs.Packets.Buffer.{Bytes}
use bitlens_rs.Chainman.BlockSync.Jobs.{BlockHashWithNumber}
use bitlens_rs.Chainman.BlockSync.Master.{
  Clock, MasterState, Reply, pull_first_job, push_result_and_get_new_job, update_workers,
}
use bitlens_rs.Chainman.BlockSync.Worker.{should_send}
use bitlens_rs.Chainman.BlockSync.Handout.{Answer, Grows}
use bitlens_rs.Chainman.BlockSync.Invariant.{IsClock, Live, Replies, pull_first_job_lem}
use bitlens_rs.Chainman.BlockSync.Deliveries.{
  GoneAfter, push_result_and_get_new_job_lem, push-Gone, pull-Gone,
}
use bitlens_rs.Chainman.BlockSync.Runs.{
  Message, System, initial, add_job, GivenTo, Step, pulls, delivers, ticks, Reach, start, then_step,
  IsMissing, IsGiven, LiveSystem, GoneSystem, delivered-IsMissing,
}

length-map :
    (missing_blocks : List Bytes) → length (map (λ _. zero) missing_blocks) ≡ length missing_blocks
length-map [] = refl
length-map (hash ∷ hashes) = ap suc (length-map hashes)

reset-idle : (t t' : TimeTracker) → reset t ≡ ok t' → t'.last_wait_start ≡ 0
unfolding reset
reset-idle t t' e = elim (Bool-cases (t.last_wait_start == 0)) [
  | inl idle ↦
      let e' = rw idle at e in
      let same : record t { total_waited_micros = 0 } ≡ t' = cc in
      subst (λ (r : TimeTracker). r.last_wait_start ≡ 0) same (ground arith)
  | inr active ↦ let e' = rw active at e in cc
]

module _ (sha256 : Bytes → Bytes) (missing_blocks : List Bytes) (first : ℕ) where
  abbrev pub Keeps : System → Type 0
  Keeps s =
      LiveSystem sha256 missing_blocks first s ⊎ GoneSystem sha256 missing_blocks first s.master

  abbrev pub Good : Message → ℕ → Type 0
  Good = IsMissing sha256 missing_blocks first

  pub initial-Keeps :
      (takes : ℕ)
      → first + length missing_blocks < 2 ^ 64
      → Keeps (initial missing_blocks first takes)
  unfolding initial
  initial-Keeps takes range = inl (record {
    live = record {
      asked = record {
        range = range;
        same_length = length-map missing_blocks;
        applied = omega arith;
        asked = omega arith;
        there = λ i from to zero_time. absurd (omega arith);
        marked = λ i held. absurd held;
      };
      above = tt;
      good = tt;
      order = tt;
      count = refl;
      idle = refl;
    };
    same_blocks = refl;
    same_first = refl;
    given = λ job given. absurd given;
  })

  -- The job that is handed out is one of those that were given.
  grown-LiveSystem :
      (s : System) (master : MasterState Message) (job : Option BlockHashWithNumber)
      → LiveSystem sha256 missing_blocks first s
      → Live Good master
      → Grows s.master.requests master.requests
      → Answer master.requests master.next_to_apply master.backlog job
      → LiveSystem sha256 missing_blocks first
          (record { master = master; jobs = add_job job s.jobs })
  grown-LiveSystem s master job l live grows answer =
      let same_blocks = grows.same_blocks ∙ l.same_blocks in
      let same_first = grows.same_first ∙ l.same_first in
      record {
        live = live;
        same_blocks = same_blocks;
        same_first = same_first;
        given = all same_blocks same_first job answer;
      }
    where
      old :
          (g : BlockHashWithNumber)
          → GivenTo s.jobs g
          → IsGiven sha256 missing_blocks first master g
      old g given =
          let (i, at, e, less) = l.given g given in (i, at, e, let m = grows.more in omega arith)

      all :
          master.requests.missing_blocks ≡ missing_blocks
          → master.requests.first_missing_number ≡ first
          → (job : Option BlockHashWithNumber)
          → Answer master.requests master.next_to_apply master.backlog job
          → (g : BlockHashWithNumber) → GivenTo (add_job job s.jobs) g
          → IsGiven sha256 missing_blocks first master g
      all same_blocks same_first none answer g given = old g given
      all same_blocks same_first (some j) answer g (inr given) = old g given
      all same_blocks same_first (some j) answer g (inl same) =
          let at = answer.number_eq in
          subst (λ k. IsGiven sha256 missing_blocks first master k) same
            (
              answer.index,
              omega arith,
              subst (λ blocks. get_elem? blocks answer.index ≡ some j.0) same_blocks answer.hash_eq,
              answer.was_asked,
            )

  Replies-Keeps :
      (s : System) (master : MasterState Message) (job : Option BlockHashWithNumber)
      (result : Result (Reply Message))
      → LiveSystem sha256 missing_blocks first s
      → Replies Good s.master result
      → result ≡ ok (master, job)
      → Keeps (record { master = master; jobs = add_job job s.jobs })
  Replies-Keeps s master job result l (master', job', run, live, grows, answer) e =
      let same : ◌≡◌ {A = Reply Message} (master', job') (master, job) = cc in
      inl (
        subst
          (λ ((m, j) : Reply Message).
            LiveSystem sha256 missing_blocks first (record { master = m; jobs = add_job j s.jobs }))
          same (grown-LiveSystem s master' job' l live grows answer))

  ticks-Keeps :
      (s : System) (master : MasterState Message)
      → Keeps s
      → update_workers s.master ≡ ok master
      → Keeps (record { master = master; jobs = s.jobs })
  unfolding update_workers
  ticks-Keeps s master k e =
      let (tracker, run, e') = >>=-eq-ok (reset s.master.flush_time_tracker) _ e in
      let same : record s.master { flush_time_tracker = tracker } ≡ master = cc in
      subst (λ m. Keeps (record { master = m; jobs = s.jobs })) same
        (elim k [
          | inr (none_left, order) ↦ inr (none_left, order)
          | inl l ↦
              let live = l.live in
              inl (record {
                live = record {
                  asked = live.asked;
                  above = live.above;
                  good = live.good;
                  order = live.order;
                  count = live.count;
                  idle = reset-idle s.master.flush_time_tracker tracker run;
                };
                same_blocks = l.same_blocks;
                same_first = l.same_first;
                given = l.given;
              })
        ])

  gone-Keeps :
      (s : System) (master : MasterState Message) (job : Option BlockHashWithNumber)
      (result : Result (Reply Message))
      → Yields (GoneAfter Good first) result
      → result ≡ ok (master, job)
      → Keeps (record { master = master; jobs = add_job job s.jobs })
  gone-Keeps s master job result y e =
      let g = Yields-eq-ok (GoneAfter Good first) result y e in inr (g.none_left, g.order)

  pulls-Keeps :
      (s : System) (master : MasterState Message) (job : Option BlockHashWithNumber) (clock : Clock)
      → Keeps s
      → IsClock clock
      → pull_first_job clock s.master ≡ ok (master, job)
      → Keeps (record { master = master; jobs = add_job job s.jobs })
  pulls-Keeps s master job clock (inl l) c e =
      Replies-Keeps s master job (pull_first_job clock s.master) l
        (pull_first_job_lem Good clock s.master c l.live) e
  pulls-Keeps s master job clock (inr (none_left, order)) c e =
      gone-Keeps s master job (pull_first_job clock s.master)
        (pull-Gone Good first clock s.master (record { none_left = none_left; order = order })) e

  -- A delivered block, of a system with the writer there.
  pub delivery_lem :
      (s : System) (clock : Clock) (payload : Message) (job : BlockHashWithNumber)
      → LiveSystem sha256 missing_blocks first s
      → IsClock clock
      → GivenTo s.jobs job
      → should_send sha256 job.0 job.1 payload ≡ ok true
      → Replies Good s.master (push_result_and_get_new_job clock payload job.1 s.master)
        ⊎ ((s.master.flush.takes ≤ length s.master.backlog)
            × Yields
                (GoneAfter Good first)
                (push_result_and_get_new_job clock payload job.1 s.master))
  delivery_lem s clock payload job l c given sent =
      let (i, at, e, less) = l.given job given in
      let good =
        delivered-IsMissing sha256 missing_blocks first s.master payload job (i, at, e, less)
          sent in
      let at' : job.1 ≡ s.master.requests.first_missing_number + i =
        let f = l.same_first in omega arith in
      let out =
        push_result_and_get_new_job_lem Good clock payload i s.master c l.live less
          (subst (λ n. Good payload n) at' good) in
      subst
        (λ n.
          Replies Good s.master (push_result_and_get_new_job clock payload n s.master)
          ⊎ ((s.master.flush.takes ≤ length s.master.backlog)
              × Yields (GoneAfter Good first)
                  (push_result_and_get_new_job clock payload n s.master)))
        (sym at')
        (subst
          (λ f.
            Replies Good s.master (
              push_result_and_get_new_job clock payload (s.master.requests.first_missing_number + i)
                s.master)
            ⊎ ((s.master.flush.takes ≤ length s.master.backlog)
                × Yields (GoneAfter Good f) (
                    push_result_and_get_new_job clock payload
                      (s.master.requests.first_missing_number + i) s.master)))
          l.same_first out)

  Step-Keeps : {s s' : System} → Keeps s → Step sha256 s s' → Keeps s'
  Step-Keeps {s} k (pulls {master = master} {job = job} clock c e) =
      pulls-Keeps s master job clock k c e
  Step-Keeps {s} (inl l)
        (delivers {master = master} {next = next} clock payload job c given sent e) =
      elim (delivery_lem s clock payload job l c given sent) [
        | inl replies ↦
            Replies-Keeps s master next (push_result_and_get_new_job clock payload job.1 s.master) l
              replies e
        | inr (fewer, gone) ↦
            gone-Keeps s master next (push_result_and_get_new_job clock payload job.1 s.master) gone
              e
      ]
  Step-Keeps {s} (inr (none_left, order))
        (delivers {master = master} {next = next} clock payload job c given sent e) =
      gone-Keeps s master next (push_result_and_get_new_job clock payload job.1 s.master)
        (push-Gone Good first clock payload job.1 s.master
          (record { none_left = none_left; order = order }))
        e
  Step-Keeps {s} k (ticks {master = master} e) = ticks-Keeps s master k e

  pub Reach-Keeps : {s s' : System} → Keeps s → Reach sha256 s s' → Keeps s'
  Reach-Keeps k start = k
  Reach-Keeps k (then_step run step) = Step-Keeps (Reach-Keeps k run) step
