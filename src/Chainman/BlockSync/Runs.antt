-- ===== src/Chainman/BlockSync/Runs.antt =====
-- src/chainman/blocksync.rs: the master with its workers. In any order workers ask for their first job,
-- deliver blocks for the jobs they were given, late and twice as well, and the ticker ticks.
pub mod Delivery
pub mod Order
use bitlens_rs.Prelude.{
  ℕ, ◌+◌, ◌^◌, ◌≤◌, ◌<◌, ◌≡◌, refl, sym, subst, ◌∙◌, ◌⊎◌, inl, inr, Bool, true, Option, none, some,
  List, [], ◌∷◌, map, arith, leb, if◌then◌else◌, Bool-cases, get_elem?, bytes_eq, bytes_eq→eq,
  Result, ok, err, panic, stuck, ◌>>=◌, >>=-eq-ok,
}
use bitlens_rs.Util.TimeTracker.{TimeTracker}
use bitlens_rs.Util.TimeTracker
use bitlens_rs.Packets.Buffer.{Bytes}
use bitlens_rs.Packets.Block.{Block, verify_witness_commitment}
use bitlens_rs.Packets.Payload.{Payload, block}
use bitlens_rs.Chainman.BlockSync.Jobs.{BlockHashWithNumber}
use bitlens_rs.Chainman.BlockSync.Master.{
  Clock, MasterState, pull_first_job, push_result_and_get_new_job, update_workers,
}
use bitlens_rs.Chainman.BlockSync.Worker.{segwit_height, should_send, block_fits, unless_err}
use bitlens_rs.Chainman.BlockSync.Backlog.{InOrder}
use bitlens_rs.Chainman.BlockSync.Invariant.{IsClock, Live}

abbrev pub Message : Type 0
Message = Option Payload

-- The master, and the jobs that it gave to workers so far.
pub record System : Type 0 where
  pub master : MasterState Message
  pub jobs : List BlockHashWithNumber

-- `run_master` before its loop; the writer takes that many blocks in the end.
unfoldable pub initial : List Bytes → ℕ → ℕ → System
initial missing_blocks first_missing_number takes = record {
  master = record {
    requests = record {
      missing_blocks = missing_blocks;
      first_missing_number = first_missing_number;
      last_request_times = map (λ _. 0) missing_blocks;
      next_never_asked_for = 0;
    };
    next_to_apply = 0;
    backlog = [];
    flush_time_tracker = TimeTracker.new;
    flush = record { sent = []; takes = takes };
  };
  jobs = [];
}

abbrev pub add_job :
    Option BlockHashWithNumber → List BlockHashWithNumber → List BlockHashWithNumber
add_job none jobs = jobs
add_job (some job) jobs = job ∷ jobs

abbrev pub GivenTo : List BlockHashWithNumber → BlockHashWithNumber → Type 0
GivenTo [] job = ⊥
GivenTo (given ∷ jobs) job = (given ≡ job) ⊎ GivenTo jobs job

module _ (sha256 : Bytes → Bytes) where
  pub data Step : System → System → Type 0 where
    pulls :
        {s : System} {master : MasterState Message} {job : Option BlockHashWithNumber}
        (clock : Clock)
        → IsClock clock
        → pull_first_job clock s.master ≡ ok (master, job)
        → Step s (record { master = master; jobs = add_job job s.jobs })
    delivers :
        {s : System} {master : MasterState Message} {next : Option BlockHashWithNumber}
        (clock : Clock) (payload : Message) (job : BlockHashWithNumber)
        → IsClock clock
        → GivenTo s.jobs job
        → should_send sha256 job.0 job.1 payload ≡ ok true
        → push_result_and_get_new_job clock payload job.1 s.master ≡ ok (master, next)
        → Step s (record { master = master; jobs = add_job next s.jobs })
    ticks :
        {s : System} {master : MasterState Message}
        → update_workers s.master ≡ ok master
        → Step s (record { master = master; jobs = s.jobs })

  pub data Reach : System → System → Type 0 where
    start : {s : System} → Reach s s
    then_step : {s s' s'' : System} → Reach s s' → Step s' s'' → Reach s s''

module _ (sha256 : Bytes → Bytes) (missing_blocks : List Bytes) (first : ℕ) where
  -- A payload is the block that is missing at the number, with its witness data committed to.
  pub record IsMissing (payload : Message) (number : ℕ) : Type 0 where
    pub received : Block
    pub is_block : payload ≡ some (block received)
    pub index : ℕ
    pub number_eq : number ≡ first + index
    pub hash_eq : get_elem? missing_blocks index ≡ some received.header.hash
    pub committed : segwit_height ≤ number → verify_witness_commitment sha256 received ≡ ok tt

  abbrev pub IsGiven : MasterState Message → BlockHashWithNumber → Type 0
  IsGiven s job =
      (i : ℕ) × (job.1 ≡ first + i)
      × (get_elem? missing_blocks i ≡ some job.0)
      × (i < s.requests.next_never_asked_for)

  pub record LiveSystem (s : System) : Type 0 where
    pub live : Live IsMissing s.master
    pub same_blocks : s.master.requests.missing_blocks ≡ missing_blocks
    pub same_first : s.master.requests.first_missing_number ≡ first
    pub given : (job : BlockHashWithNumber) → GivenTo s.jobs job → IsGiven s.master job

  abbrev pub GoneSystem : MasterState Message → Type 0
  GoneSystem s = (s.flush.takes ≡ 0) × InOrder IsMissing first s.flush.sent

  unless_err_lem :
      (result : Result (Unit {0})) (test : Bool)
      → unless_err result test ≡ ok true
      → (result ≡ ok tt) × (test ≡ true)
  unless_err_lem panic test e = cc
  unless_err_lem stuck test e = cc
  unless_err_lem (err message) test e = cc
  unless_err_lem (ok tt) test e = (refl, cc)

  block_fits_lem :
      (hash : Bytes) (number : ℕ) (b : Block)
      → block_fits sha256 hash number b ≡ ok true
      → (b.header.hash ≡ hash)
        × (segwit_height ≤ number → verify_witness_commitment sha256 b ≡ ok tt)
  unfolding block_fits
  block_fits_lem hash number b e = elim (Bool-cases (leb segwit_height number)) [
    | inl high ↦
        let (verified, same) =
          unless_err_lem (verify_witness_commitment sha256 b) (bytes_eq b.header.hash hash)
            (rw high at e) in
        (bytes_eq→eq b.header.hash hash same, λ _. verified)
    | inr low ↦
        let same : bytes_eq b.header.hash hash ≡ true = let e' = rw low at e in cc in
        (bytes_eq→eq b.header.hash hash same, λ h. absurd (ground arith))
  ]

  pub delivered-IsMissing :
      (s : MasterState Message) (payload : Message) (job : BlockHashWithNumber)
      → IsGiven s job
      → should_send sha256 job.0 job.1 payload ≡ ok true
      → IsMissing payload job.1
  unfolding should_send
  delivered-IsMissing s (some (block b)) (hash, number) (i, at, e, less) sent =
      let (same, committed) = block_fits_lem hash number b sent in
      record {
        received = b;
        is_block = refl;
        index = i;
        number_eq = at;
        hash_eq = subst (λ h. get_elem? missing_blocks i ≡ some h) (sym same) e;
        committed = committed;
      }
  delivered-IsMissing s _ job given sent = cc
