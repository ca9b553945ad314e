-- ===== src/Chainman/BlockSync/Jobs.antt =====
-- src/chainman/blocksync.rs: which block a worker is asked for next. The time, in milliseconds, is an
-- argument. A job is the hash of a block and its number.
use bitlens_rs.Prelude.{
  ℕ, zero, suc, ◌+◌, ◌-◌, ◌%◌, ◌^◌, Bool, true, false, Option, none, some, List, ◌⊎◌, inl, inr, ltb,
  ◌==◌, if◌then◌else◌, length, get_elem?, set_elem, Result, ok, panic, unwrap, ◌>>=◌, add_usize,
}
use bitlens_rs.Packets.Buffer.{Bytes}

abbrev pub BlockHashWithNumber : Type 0
BlockHashWithNumber = Bytes × ℕ

-- The longest wait so far: an index and the time since its request.
abbrev pub Oldest : Type 0
Oldest = Option (ℕ × ℕ)

unfoldable pub older : Oldest → ℕ → ℕ → Oldest
older none i elapsed = some (i, elapsed)
older (some (j, longest)) i elapsed =
    if ltb longest elapsed then some (i, elapsed) else some (j, longest)

-- `rounds` blocks from `i` on that were asked for: the first whose request is more than a second old,
-- or else the one with the oldest request. A request time of 0 marks a block that is there.
unfoldable pub scan : ℕ → ℕ → ℕ → List ℕ → Oldest → Result (ℕ ⊎ Oldest)
scan zero i now times oldest = ok (inr oldest)
scan (suc rounds) i now times oldest = do
  requested_at ← unwrap (get_elem? times i)
  let elapsed = (now + (2 ^ 64 - requested_at)) % 2 ^ 64
  let there = requested_at == 0
  let rest = scan rounds (i + 1) now times (if there then oldest else older oldest i elapsed)
  if there then rest else if ltb 1000 elapsed then ok (inl i) else rest

-- What `find_next_best_job` reads and writes.
pub record Requests : Type 0 where
  pub missing_blocks : List Bytes
  pub first_missing_number : ℕ
  pub last_request_times : List ℕ
  pub next_never_asked_for : ℕ

unfoldable pub job_at : Requests → ℕ → Result BlockHashWithNumber
job_at r i = do
  hash ← unwrap (get_elem? r.missing_blocks i)
  ok (hash, add_usize r.first_missing_number i)

-- The block at the index is asked for now.
unfoldable pub request : ℕ → Requests → ℕ → Result (Requests × Option BlockHashWithNumber)
request now r i = do
  times ← set_elem i now r.last_request_times
  job ← job_at r i
  ok (record r { last_request_times = times }, some job)

-- A block that was never asked for, or again the first that is waited for.
unfoldable pub advance : ℕ → ℕ → Requests → Result (Requests × Option BlockHashWithNumber)
advance now next_to_apply r =
    if ltb r.next_never_asked_for (length r.missing_blocks)
    then (request now r r.next_never_asked_for >>= (λ (r', job).
        ok (record r' { next_never_asked_for = r'.next_never_asked_for + 1 }, job)))
    else if ltb next_to_apply r.next_never_asked_for
    then (job_at r next_to_apply >>= (λ job. ok (r, some job)))
    else ok (r, none)

unfoldable pub after_scan :
    ℕ → ℕ → Requests → Bool → ℕ ⊎ Oldest → Result (Requests × Option BlockHashWithNumber)
after_scan now next_to_apply r can_advance (inl i) = request now r i
after_scan now next_to_apply r true (inr oldest) = advance now next_to_apply r
after_scan now next_to_apply r false (inr none) = panic
after_scan now next_to_apply r false (inr (some (i, elapsed))) = request now r i

unfoldable pub find_next_best_job :
    ℕ → ℕ → Requests → Bool → Result (Requests × Option BlockHashWithNumber)
find_next_best_job now next_to_apply r can_advance =
    scan (r.next_never_asked_for - next_to_apply) next_to_apply now r.last_request_times none
    >>= after_scan now next_to_apply r can_advance
