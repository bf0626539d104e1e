-- ===== src/Queue/Jobs.antt =====
-- The tables of packages/queue/src and who writes to them: the job classes of job.ts, the rows of
-- `strav_jobs` and `strav_failed_jobs`, and `DatabaseQueue` of database_queue.ts. Identifiers are
-- numbers, counted by the broker, in the place of `ulid`'s texts; times are milliseconds, delays whole
-- seconds. The clock is an argument. A handler may change a world `W` and may throw a text.
use strav_1_x.Common.{
  ℕ, suc, ◌+◌, ◌-◌, ◌*◌, ◌/◌, String, Option, none, some, List, [], ◌∷◌, ◌++◌, Result, ok, throws,
}
use strav_1_x.Common.Json.{Json, Fields}
use strav_1_x.Common.Spans.{Span, plus, minus}

-- What a handler is given: the attempt, from 1, and the payload. The abort signal and the log are left
-- out.
pub record JobContext : Type 0 where
  pub job_id : ℕ
  pub attempt : ℕ
  pub payload : Json

module _ (W : Type 0) where
  abbrev pub Call : Type 0
  Call = W → Result String (Unit {0}) × W

  -- A job class: how the container makes a job, its handler, its `failed` hook, and its settings.
  pub record JobClass : Type 0 where
    pub job_name : String
    pub make : Call
    pub handle : JobContext → Call
    pub failed : Option (JobContext → String → Call)
    pub max_attempts : Option ℕ
    pub backoff : Option (ℕ → Span)
    pub queue : Option String

-- The columns that a claim reads.
pub record JobRow : Type 0 where
  pub id : ℕ
  pub queue : String
  pub job_name : String
  pub payload : Json
  pub attempts : ℕ
  pub max_attempts : ℕ

-- A row of `strav_jobs`.
pub record QueueRow : Type 0 where
  pub job : JobRow
  pub available_at : ℕ
  pub reserved_at : Option ℕ

-- A row of `strav_failed_jobs`.
pub record FailedRow : Type 0 where
  pub id : ℕ
  pub job : JobRow
  pub exception : String

pub record Broker (W : Type 0) : Type 0 where
  pub jobs : List QueueRow
  pub failed : List FailedRow
  pub ids_used : ℕ
  pub app : W

pub record DispatchOptions : Type 0 where
  pub queue : Option String
  pub attempts : Option ℕ

-- `DatabaseQueueOptions`
pub record QueueDefaults : Type 0 where
  pub attempts : ℕ
  pub queue : String

abbrev pub or_default {ℓ} : {A : Type ℓ} → A → Option A → A
or_default d none = d
or_default d (some a) = a

-- `payload ?? {}`
abbrev pub or_empty : Json → Json
or_empty Json.null = Json.obj Fields.end
or_empty p = p

-- A moment, or a number of seconds from now.
pub data At : Type 0 where
  date : ℕ → At
  from_now : Span → At

pub data QueueFault : Type 0 where
  negative_delay : QueueFault

-- `computeDelaySeconds`: a moment is rounded up.
abbrev pub compute_delay : ℕ → At → Result QueueFault ℕ
compute_delay now (from_now (plus n)) = ok n
compute_delay now (from_now (minus n)) = throws negative_delay
compute_delay now (date t) = ok ((t - now + 999) / 1000)

module _ {W : Type 0} where
  abbrev pub new_job : QueueDefaults → JobClass W → Json → DispatchOptions → ℕ → JobRow
  new_job defaults cls payload options id = record {
    id = id;
    queue = or_default (or_default defaults.queue cls.queue) options.queue;
    job_name = cls.job_name;
    payload = or_empty payload;
    attempts = 0;
    max_attempts = or_default (or_default defaults.attempts cls.max_attempts) options.attempts;
  }

  -- `insertJob`, and the identifier of the job.
  unfoldable pub insert_job :
      QueueDefaults → ℕ → JobClass W → Json → ℕ → DispatchOptions → Broker W → ℕ × Broker W
  insert_job defaults now cls payload delay options b = (
    b.ids_used,
    record b {
      jobs =
          b.jobs
          ++ (record {
            job = new_job defaults cls payload options b.ids_used;
            available_at = now + delay * 1000;
            reserved_at = none;
          })
            ∷ [];
      ids_used = suc b.ids_used;
    },
  )

  abbrev pub dispatch :
      QueueDefaults → ℕ → JobClass W → Json → DispatchOptions → Broker W → ℕ × Broker W
  dispatch defaults now cls payload options b = insert_job defaults now cls payload 0 options b

  abbrev pub insert_after :
      QueueDefaults
      → ℕ
      → JobClass W
      → Json
      → DispatchOptions
      → Result QueueFault ℕ
      → Broker W
      → Result QueueFault ℕ × Broker W
  insert_after defaults now cls payload options (throws e) b = (throws e, b)
  insert_after defaults now cls payload options (ok delay) b =
      let (id, b') = insert_job defaults now cls payload delay options b in (ok id, b')

  abbrev pub dispatch_later :
      QueueDefaults
      → ℕ
      → At
      → JobClass W
      → Json
      → DispatchOptions
      → Broker W
      → Result QueueFault ℕ × Broker W
  dispatch_later defaults now at cls payload options b =
      insert_after defaults now cls payload options (compute_delay now at) b

  abbrev pub then_handle :
      JobClass W → JobContext → Result String (Unit {0}) × W → Result String (Unit {0}) × W
  then_handle cls ctx (ok u, w) = cls.handle ctx w
  then_handle cls ctx (throws e, w) = (throws e, w)

  -- `dispatchSync`, of this queue and, as `run`, of SyncQueue: the job runs at once, on its first
  -- attempt.
  unfoldable pub dispatch_sync : JobClass W → Json → Broker W → Result String (Unit {0}) × Broker W
  dispatch_sync cls payload b =
      let (r, w) =
        then_handle cls (record { job_id = b.ids_used; attempt = 1; payload = payload })
          (cls.make b.app) in
      (r, record b { ids_used = suc b.ids_used; app = w })

-- A dispatch of a job: its class, payload and options, when it is made, and its delay.
pub record Request (W : Type 0) : Type 0 where
  pub defaults : QueueDefaults
  pub now : ℕ
  pub cls : JobClass W
  pub payload : Json
  pub delay : ℕ
  pub options : DispatchOptions

abbrev pub insert_each : {W : Type 0} → List (Request W) → Broker W → Broker W
insert_each [] b = b
insert_each (r ∷ rs) b =
    insert_each rs (insert_job r.defaults r.now r.cls r.payload r.delay r.options b).1
