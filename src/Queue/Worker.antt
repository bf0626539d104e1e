-- ===== src/Queue/Worker.antt =====
-- `Worker` of packages/queue/src/worker.ts: one poll, from the claim of a row to what becomes of it.
-- The clock is read once by the claim and once at the end. The abort signal, the timeout that it
-- carries and the log are left out.
pub mod Table
pub mod Endings
pub mod Polls
pub mod Kept
pub mod Guard
pub mod Claims
pub mod Issued
pub mod Budget
pub mod Drain
pub mod Backoff
pub mod Tests
use strav_1_x.Common.{
  ℕ, suc, ◌+◌, ◌*◌, ◌/◌, ◌^◌, min, max, String, Bool, true, false, ◌&&◌, Option, none, some, List,
  [], ◌∷◌, ◌++◌, Result, ok, throws, leb, ◌==◌, if◌then◌else◌, includes, ◌+++◌,
}
use strav_1_x.Common.Dict.{Dict, lookup}
use strav_1_x.Common.Spans.{Span, at_least_zero}
use strav_1_x.Queue.Jobs.{
  JobContext, JobClass, JobRow, QueueRow, FailedRow, Broker, Request, insert_each, or_default,
}

-- `WorkerOptions`: the registered classes by their names, the queues that are polled, and the
-- default backoff, with its jitter.
pub record Setup (W : Type 0) : Type 0 where
  pub registry : Dict (JobClass W)
  pub queues : List String
  pub default_backoff : ℕ → Span

-- A poll of the loop: when it claims, when its job ends, and what is dispatched meanwhile, by the job
-- itself or by anyone else.
pub record Poll (W : Type 0) : Type 0 where
  pub now : ℕ
  pub later : ℕ
  pub dispatched : List (Request W)

pub data JobResult : Type 0 where
  completed : ℕ → String → ℕ → JobResult
  retried : ℕ → String → ℕ → ℕ → JobResult
  failed : ℕ → String → ℕ → String → JobResult

abbrev pub is_reserved : QueueRow → Bool
is_reserved q = elim q.reserved_at [ none ↦ false | some t ↦ true ]

-- The WHERE clause of the claim.
abbrev pub is_free : List String → ℕ → QueueRow → Bool
is_free queues now q =
    includes q.job.queue queues
    && (leb q.available_at now && (if is_reserved q then false else true))

abbrev pub earlier : QueueRow → Option QueueRow → QueueRow
earlier q none = q
earlier q (some r) = if leb q.job.id r.job.id then q else r

-- `ORDER BY id LIMIT 1`
unfoldable pub select_row : List String → ℕ → List QueueRow → Option QueueRow
select_row queues now [] = none
select_row queues now (q ∷ qs) =
    let rest = select_row queues now qs in
    if is_free queues now q then some (earlier q rest) else rest

-- `UPDATE … WHERE id = $1`
unfoldable pub update_rows : ℕ → (QueueRow → QueueRow) → List QueueRow → List QueueRow
update_rows id f [] = []
update_rows id f (q ∷ qs) =
    let rest = update_rows id f qs in if q.job.id == id then f q ∷ rest else q ∷ rest

-- `DELETE … WHERE id = $1`
unfoldable pub delete_rows : ℕ → List QueueRow → List QueueRow
delete_rows id [] = []
delete_rows id (q ∷ qs) = let rest = delete_rows id qs in if q.job.id == id then rest else q ∷ rest

abbrev pub with_attempt : JobRow → JobRow
with_attempt job = record job { attempts = suc job.attempts }

abbrev pub reserve : ℕ → QueueRow → QueueRow
reserve now q = record q { job = with_attempt q.job; reserved_at = some now }

abbrev pub release_at : ℕ → QueueRow → QueueRow
release_at t q = record q { available_at = t; reserved_at = none }

abbrev pub unknown_job : String → String
unknown_job name = "unknown job_name \"" +++ name +++ "\""

-- Base and jitter, for a random number `k / n` below 1, rounded.
unfoldable pub exponential_backoff : ℕ → ℕ → ℕ → ℕ
exponential_backoff n k attempt =
    let base = min 300 (2 ^ attempt) in max 1 ((2 * (base * (3 * n + 2 * k)) + 4 * n) / (8 * n))

abbrev pub context_of : JobRow → JobContext
context_of row = record { job_id = row.id; attempt = row.attempts; payload = row.payload }

module _ {W : Type 0} where
  unfoldable pub claim : List String → ℕ → Broker W → Option JobRow × Broker W
  claim queues now b = elim (select_row queues now b.jobs) [
    | none ↦ (none, b)
    | some q ↦
        (some (with_attempt q.job), record b { jobs = update_rows q.job.id (reserve now) b.jobs })
  ]

  abbrev pub delete_row : ℕ → Broker W → Broker W
  delete_row id b = record b { jobs = delete_rows id b.jobs }

  abbrev pub move_to_failed : JobRow → String → Broker W → Broker W
  move_to_failed row error b = record b {
    jobs = delete_rows row.id b.jobs;
    failed = b.failed ++ (record { id = b.ids_used; job = row; exception = error }) ∷ [];
    ids_used = suc b.ids_used;
  }

  abbrev pub schedule_retry : ℕ → ℕ → ℕ → Broker W → Broker W
  schedule_retry id now delay b = record b {
    jobs = update_rows id (release_at (now + delay * 1000)) b.jobs;
  }

  -- The attempts that the class allows, or else the row.
  abbrev pub limit_of : JobClass W → JobRow → ℕ
  limit_of cls row = or_default row.max_attempts cls.max_attempts

  abbrev pub delay_of : Setup W → JobClass W → JobRow → ℕ
  delay_of env cls row = at_least_zero (or_default env.default_backoff cls.backoff row.attempts)

  -- What the `failed` hook throws is logged.
  abbrev pub run_hook :
      Option (JobContext → String → W → Result String (Unit {0}) × W) → JobContext → String → W → W
  run_hook none ctx error w = w
  run_hook (some hook) ctx error w = (hook ctx error w).1

  -- The `catch` of a poll, after the hook.
  unfoldable pub after_failure :
      Setup W → ℕ → JobClass W → JobRow → String → Broker W → JobResult × Broker W
  after_failure env now cls row error b =
      if leb (limit_of cls row) row.attempts
      then (failed row.id row.job_name row.attempts error, move_to_failed row error b)
      else (
        retried row.id row.job_name row.attempts (now + delay_of env cls row * 1000),
        schedule_retry row.id now (delay_of env cls row) b,
      )

  -- What follows the handler.
  abbrev pub after_handle :
      Setup W
      → ℕ
      → JobClass W
      → JobRow
      → Result String (Unit {0}) × W
      → Broker W
      → JobResult × Broker W
  after_handle env now cls row (ok u, w) b =
      (completed row.id row.job_name row.attempts, delete_row row.id (record b { app = w }))
  after_handle env now cls row (throws e, w) b =
      after_failure env now cls row e (record b { app = run_hook cls.failed (context_of row) e w })

  -- Making the job stands outside the `try`.
  abbrev pub after_make :
      Setup W
      → ℕ
      → JobClass W
      → JobRow
      → Result String (Unit {0}) × W
      → Broker W
      → Result String JobResult × Broker W
  after_make env now cls row (throws e, w) b = (throws e, record b { app = w })
  after_make env now cls row (ok u, w) b =
      let (r, b') = after_handle env now cls row (cls.handle (context_of row) w) b in (ok r, b')

  -- A row that was claimed.
  unfoldable pub perform : Setup W → ℕ → JobRow → Broker W → Result String JobResult × Broker W
  perform env now row b = elim (lookup row.job_name env.registry) [
    | none ↦ (
      ok (failed row.id row.job_name row.attempts (unknown_job row.job_name)),
      delete_row row.id b,
    )
    | some cls ↦ after_make env now cls row (cls.make b.app) b
  ]

  abbrev pub reported :
      Result String JobResult × Broker W → Result String (Option JobResult) × Broker W
  reported (ok r, b) = (ok (some r), b)
  reported (throws e, b) = (throws e, b)

  abbrev pub after_claim :
      Setup W → ℕ → Option JobRow × Broker W → Result String (Option JobResult) × Broker W
  after_claim env now (none, b) = (ok none, b)
  after_claim env now (some row, b) = reported (perform env now row b)

  -- `processOne`: the claim at a time, and the end of the job at another.
  unfoldable pub process_one :
      Setup W → ℕ → ℕ → Broker W → Result String (Option JobResult) × Broker W
  process_one env now later b = after_claim env later (claim env.queues now b)

  -- `run`, up to the abort: one poll after the other. An error is logged and the loop goes on. What was
  -- dispatched while a poll ran is in the table when the poll has ended.
  unfoldable pub run :
      Setup W → List (Poll W) → Broker W → List (Result String (Option JobResult)) × Broker W
  run env [] b = ([], b)
  run env (p ∷ polls) b =
      let (r, b') = process_one env p.now p.later b in
      let (rs, end) = run env polls (insert_each p.dispatched b') in (r ∷ rs, end)

abbrev pub found : Result String (Option JobResult) → Bool
found (ok none) = false
found _ = true
