-- ===== src/Chainman/BlockSync/Deliveries.antt =====
-- A block that a worker delivers: kept for later, passed on with what follows it, or dropped.
use bitlens_rs.Prelude.{
  ℕ, ◌+◌, ◌-◌, ◌%◌, ◌^◌, ◌≤◌, ◌<◌, ◌≡◌, refl, sym, subst, ◌∙◌, ◌⊎◌, inl, inr, Bool, true, false,
  none, [], ◌∷◌, arith, ◌==◌, ltb, leb, Bool-cases, length, length-append, set_elem, Result, ok,
  Yields, Yields->>=, Yields-next, Yields-ok, add_usize,
}
use bitlens_rs.Util.TimeTracker.{start, stop}
use bitlens_rs.Chainman.BlockSync.Jobs.{find_next_best_job}
use bitlens_rs.Chainman.BlockSync.Master.{
  Clock, Flush, MasterState, Reply, apply_from_backlog, reply_with_job, pull_first_job, keep_early,
  apply_next, take_block, push_result_and_get_new_job,
}
use bitlens_rs.Chainman.BlockSync.Backlog.{InOrder, InOrder-snoc, send_lem, apply_from_backlog_lem}
use bitlens_rs.Chainman.BlockSync.Handout.{Grows}
use bitlens_rs.Chainman.BlockSync.Invariant.{
  IsClock, Live, Gone, Replies, Held-later, waits_lem, reply_with_job_lem, keep_early_lem,
}

module _ {P : Type 0} (Good : P → ℕ → Type 0) where
  abbrev pub GoneAfter : ℕ → Reply P → Type 0
  GoneAfter first (s, job) = Gone Good first s

  reply_with_job-Gone :
      (first : ℕ) (clock : Clock) (s : MasterState P) (can_advance : Bool)
      → Gone Good first s
      → Yields (GoneAfter first) (reply_with_job clock s can_advance)
  unfolding reply_with_job
  reply_with_job-Gone first clock s can_advance g =
      Yields-next (GoneAfter first)
        (find_next_best_job clock.now s.next_to_apply s.requests can_advance) _
        (λ (r', job).
          Yields-ok (GoneAfter first) _ (record { none_left = g.none_left; order = g.order }))

  keep_early-Gone :
      (first : ℕ) (payload : P) (number : ℕ) (s : MasterState P)
      → Gone Good first s
      → Yields (Gone Good first) (keep_early payload number s)
  unfolding keep_early
  keep_early-Gone first payload number s g =
      Yields-next (Gone Good first)
        (set_elem (number - s.requests.first_missing_number) 0 s.requests.last_request_times) _
        (λ times.
          Yields-ok (Gone Good first) _ (record { none_left = g.none_left; order = g.order }))

  -- What the master leaves of the next block.
  abbrev pub AppliesNext : MasterState P → Result (MasterState P × Bool) → Type 0
  AppliesNext s result =
      ((s' : MasterState P) × (result ≡ ok (s', true))
        × Live Good s'
        × Grows s.requests s'.requests)
      ⊎ ((s' : MasterState P) × (goes_on : Bool) × (result ≡ ok (s', goes_on))
          × Gone Good s.requests.first_missing_number s'
          × (s.flush.takes ≤ length s.backlog))

  -- The state after the blocks that could be passed on.
  abbrev passed_on : Clock → MasterState P → Flush P → MasterState P
  passed_on clock s flush =
      let (backlog, next_to_apply, flush') =
        apply_from_backlog s.requests.first_missing_number s.backlog (s.next_to_apply + 1) flush in
      record s {
        backlog = backlog;
        next_to_apply = next_to_apply;
        flush_time_tracker = record {
          total_waited_micros =
              add_usize s.flush_time_tracker.total_waited_micros
                ((clock.stop_micros + (2 ^ 64 - clock.start_micros)) % 2 ^ 64);
          last_wait_start = 0;
        };
        flush = flush';
      }

  apply_next_lem :
      (clock : Clock) (payload : P) (s : MasterState P)
      → IsClock clock
      → Live Good s
      → s.next_to_apply < s.requests.next_never_asked_for
      → Good payload (s.requests.first_missing_number + s.next_to_apply)
      → AppliesNext s
          (apply_next clock payload (s.requests.first_missing_number + s.next_to_apply) s)
  unfolding apply_next start stop
  apply_next_lem clock payload s c l less good =
      let first = s.requests.first_missing_number in
      let n = s.next_to_apply in
      let a = l.asked in
      let range = a.range in
      let asked = a.asked in
      let idle : (s.flush_time_tracker.last_wait_start == 0) ≡ true =
        let i = l.idle in ground arith in
      let active : (clock.start_micros == 0) ≡ false = let p = c.start_positive in ground arith in
      elim (send_lem (payload, first + n) s.flush) [
        | inl (refused, none_left) ↦ inr (
          record s {
            next_to_apply = n + 1;
            flush_time_tracker = record s.flush_time_tracker {
              last_wait_start = clock.start_micros;
            };
          },
          false,
          rw (idle, refused) refl,
          record { none_left = none_left; order = l.order },
          omega arith,
        )
        | inr (flush, taken, sent, takes) ↦
            let order : InOrder Good first flush.sent = rw sent (
              InOrder-snoc Good first (first + n) payload s.flush.sent l.order
                (let k = l.count in omega arith) good) in
            let count : length flush.sent ≡ n + 1 = rw sent (
              let k = l.count in
              omega (arith, length-append s.flush.sent ((payload, first + n) ∷ []))) in
            elim (apply_from_backlog_lem Good first (n + 1) s.requests.next_never_asked_for
              s.backlog flush (first + n) (omega arith) l.above
              (λ m held. Held-later Good s m l held) l.good (omega arith) (omega arith) order
              count) [
                | inr (none_left, order', fewer) ↦ inr (
                  passed_on clock s flush,
                  true,
                  rw (idle, taken, active) refl,
                  record { none_left = none_left; order = order' },
                  omega arith,
                )
                | inl applied ↦ inl (
                  passed_on clock s flush,
                  rw (idle, taken, active) refl,
                  record {
                    asked = record {
                      range = a.range;
                      same_length = a.same_length;
                      applied = applied.within;
                      asked = a.asked;
                      there = λ k from to zero_time.
                          applied.still (first + k) (omega arith)
                            (a.there k (let f = applied.forward in omega arith) to zero_time);
                      marked = λ k held. a.marked k (applied.only (first + k) held);
                    };
                    above = applied.above;
                    good = applied.good;
                    order = applied.order;
                    count = applied.count;
                    idle = refl;
                  },
                  record { same_blocks = refl; same_first = refl; more = omega arith },
                )
              ]
      ]

  take_block_lem :
      (clock : Clock) (payload : P) (i : ℕ) (s : MasterState P)
      → IsClock clock
      → Live Good s
      → i < s.requests.next_never_asked_for
      → Good payload (s.requests.first_missing_number + i)
      → AppliesNext s (take_block clock payload (s.requests.first_missing_number + i) s)
  unfolding take_block
  take_block_lem clock payload i s c l less good =
      let first = s.requests.first_missing_number in
      let n = s.next_to_apply in
      let range = l.asked.range in
      let asked = l.asked.asked in
      let applied = l.asked.applied in
      let at : add_usize first n ≡ first + n = omega arith in
      elim (Bool-cases (ltb (first + n) (first + i))) [
        | inl early ↦
            let (s', run, l', grows) = keep_early_lem Good payload i s l less (ground arith) good in
            inl (s', rw (at, early, run) refl, l', grows)
        | inr more ↦ elim (Bool-cases (ltb (first + i) (first + n))) [
          | inl late ↦ inl (
            s,
            rw (at, more, late) refl,
            l,
            record { same_blocks = refl; same_first = refl; more = omega arith },
          )
          | inr now ↦
              let e : i ≡ n = ground arith in
              let less' : n < s.requests.next_never_asked_for = omega arith in
              let good' : Good payload (first + n) = subst (λ j. Good payload (first + j)) e good in
              let next = apply_next_lem clock payload s c l less' good' in
              let next' : AppliesNext s (apply_next clock payload (first + i) s) =
                subst (λ j. AppliesNext s (apply_next clock payload (first + j) s)) (sym e) next in
              rw (at, more, now) next'
        ]
      ]

  -- A block is delivered: with the writer there, the master goes on, unless the writer took fewer blocks
  -- than were ready; then it is gone.
  pub push_result_and_get_new_job_lem :
      (clock : Clock) (payload : P) (i : ℕ) (s : MasterState P)
      → IsClock clock
      → Live Good s
      → i < s.requests.next_never_asked_for
      → Good payload (s.requests.first_missing_number + i)
      → Replies Good s
          (push_result_and_get_new_job clock payload (s.requests.first_missing_number + i) s)
        ⊎ ((s.flush.takes ≤ length s.backlog)
            × Yields
                (GoneAfter s.requests.first_missing_number)
                (push_result_and_get_new_job clock payload (s.requests.first_missing_number + i) s))
  unfolding push_result_and_get_new_job
  push_result_and_get_new_job_lem clock payload i s c l less good =
      elim (take_block_lem clock payload i s c l less good) [
        | inl (s', run, l', grows) ↦
            let (s'', job, run', l'', grows', answer) =
              reply_with_job_lem Good clock s' (leb (length s'.backlog) 512) c l'
                (waits_lem Good s' l') in
            inl (
              s'',
              job,
              rw run run',
              l'',
              record {
                same_blocks = grows'.same_blocks ∙ grows.same_blocks;
                same_first = grows'.same_first ∙ grows.same_first;
                more = let m = grows.more in let m' = grows'.more in omega arith;
              },
              answer,
            )
        | inr (s', true, run, gone, fewer) ↦ inr (
          fewer,
          rw run (
              reply_with_job-Gone s.requests.first_missing_number clock s'
                (leb (length s'.backlog) 512) gone),
        )
        | inr (s', false, run, gone, fewer) ↦
            inr (
              fewer,
              rw run (Yields-ok (GoneAfter s.requests.first_missing_number) (s', none) gone),
            )
      ]

  take_block-Gone :
      (first : ℕ) (clock : Clock) (payload : P) (number : ℕ) (s : MasterState P)
      → Gone Good first s
      → Yields (λ (s', goes_on). Gone Good first s') (take_block clock payload number s)
  unfolding take_block apply_next
  take_block-Gone first clock payload number s g =
      let expected = add_usize s.requests.first_missing_number s.next_to_apply in
      elim (Bool-cases (ltb expected number)) [
        | inl early ↦ rw early (
            Yields->>= (λ (s', goes_on). Gone Good first s') (keep_early payload number s) _
              (Gone Good first) (keep_early-Gone first payload number s g)
              (λ s' g'. Yields-ok (λ (s', goes_on). Gone Good first s') (s', true) g'))
        | inr more ↦ elim (Bool-cases (ltb number expected)) [
          | inl late ↦ rw (more, late) (Yields-ok (λ (s', goes_on). Gone Good first s') (s, true) g)
          | inr now ↦
              rw (more, now)
                (Yields-next (λ (s', goes_on). Gone Good first s')
                  (start clock.start_micros s.flush_time_tracker) _
                  (λ tracker. elim (send_lem (payload, number) s.flush) [
                    | inl (refused, _) ↦ rw refused (
                        Yields-ok (λ (s', goes_on). Gone Good first s') _
                          (record { none_left = g.none_left; order = g.order }))
                    | inr (flush, taken, sent, takes) ↦
                        absurd (let none_left = g.none_left in omega arith)
                  ]))
        ]
      ]

  pub push-Gone :
      (first : ℕ) (clock : Clock) (payload : P) (number : ℕ) (s : MasterState P)
      → Gone Good first s
      → Yields (GoneAfter first) (push_result_and_get_new_job clock payload number s)
  unfolding push_result_and_get_new_job
  push-Gone first clock payload number s g =
      Yields->>= (GoneAfter first) (take_block clock payload number s) _
        (λ (s', goes_on). Gone Good first s') (take_block-Gone first clock payload number s g)
        (λ (s', goes_on) g'. elim (Bool-cases goes_on) [
          | inl on ↦ rw on (reply_with_job-Gone first clock s' (leb (length s'.backlog) 512) g')
          | inr off ↦ rw off (Yields-ok (GoneAfter first) (s', none) g')
        ])

  pub pull-Gone :
      (first : ℕ) (clock : Clock) (s : MasterState P)
      → Gone Good first s
      → Yields (GoneAfter first) (pull_first_job clock s)
  unfolding pull_first_job
  pull-Gone first clock s g = reply_with_job-Gone first clock s true g
