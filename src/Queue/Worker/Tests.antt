-- ===== src/Queue/Worker/Tests.antt =====
-- Workers at small inputs: a job that fails once, one that always fails, and one that cannot be made.
use strav_1_x.Common.{
  ℕ, suc, ◌+◌, ◌*◌, true, ◌≡◌, ◌≤◌, refl, arith, none, some, [], ◌∷◌, ok, throws, ◌==◌,
  if◌then◌else◌,
}
use strav_1_x.Common.Json.{Json, Fields}
use strav_1_x.Common.Dict.{lookup}
use strav_1_x.Common.Spans.{plus, minus}
use strav_1_x.Queue.Jobs.{
  JobClass, JobRow, Broker, DispatchOptions, QueueDefaults, from_now, dispatch, dispatch_later,
  insert_job, dispatch_sync, negative_delay,
}
use strav_1_x.Queue.Worker.{
  Setup, Poll, completed, retried, failed, claim, perform, after_failure, process_one, run,
  select_row, update_rows, delete_rows, exponential_backoff,
}
use strav_1_x.Queue.Worker.Kept.{kept}
use strav_1_x.Queue.Worker.Guard.{replace}
use strav_1_x.Queue.Worker.Claims.{Fleet, here, next, polls, FleetReach, FleetReach-single}
use strav_1_x.Queue.Worker.Budget.{run-budget, budget, count_found}
use strav_1_x.Queue.Worker.Drain.{IsSteady, run-drains}
use strav_1_x.Queue.Worker.Backoff.{exponential_backoff-bounds}

opened : Unit {0}
unfolding claim perform after_failure process_one run select_row update_rows delete_rows
    exponential_backoff insert_job dispatch_sync lookup
opened = tt

-- The first call fails.
abbrev flaky : JobClass ℕ
flaky = record {
  job_name = "mail";
  make = λ w. (ok tt, w);
  handle = λ ctx w. (if w == 0 then throws "down" else ok tt, suc w);
  failed = none;
  max_attempts = none;
  backoff = none;
  queue = none;
}

abbrev hopeless : JobClass ℕ
hopeless = record flaky {
  job_name = "report";
  handle = λ ctx w. (throws "gone", w);
  failed = some (λ ctx e w. (throws "the hook too", suc w));
  max_attempts = some 2;
}

abbrev broken : JobClass ℕ
broken = record flaky { job_name = "broken"; make = λ w. (throws "no dependency", w) }

abbrev env : Setup ℕ
env = record {
  registry = ("mail", flaky) ∷ ("report", hopeless) ∷ ("broken", broken) ∷ [];
  queues = "default" ∷ [];
  default_backoff = λ attempt. plus 2;
}

abbrev defaults : QueueDefaults
defaults = record { attempts = 3; queue = "default" }

abbrev plain : DispatchOptions
plain = record { queue = none; attempts = none }

abbrev no_jobs : Broker ℕ
no_jobs = record { jobs = []; failed = []; ids_used = 0; app = 0 }

abbrev mailed : Broker ℕ
mailed = (dispatch defaults 0 flaky Json.null plain no_jobs).1

abbrev reported : Broker ℕ
reported = (dispatch defaults 0 hopeless Json.null plain no_jobs).1

abbrev quiet : ℕ → ℕ → Poll ℕ
quiet now later = record { now = now; later = later; dispatched = [] }

-- The job of the first poll dispatches another.
abbrev breeding : Poll ℕ
breeding = record (quiet 0 5) {
  dispatched =
      (record {
        defaults = defaults;
        now = 3;
        cls = hopeless;
        payload = Json.null;
        delay = 0;
        options = plain;
      })
      ∷ [];
}

retried_once :
    (run env (quiet 0 5 ∷ quiet 5 9 ∷ quiet 3000 3001 ∷ []) mailed).0
    ≡ ok (some (retried 0 "mail" 1 2005)) ∷ ok none ∷ ok (some (completed 0 "mail" 2)) ∷ []
unfolding opened
retried_once = refl

failed_at_last :
    (run env (quiet 0 5 ∷ quiet 3000 3001 ∷ []) reported).0
    ≡ ok (some (retried 0 "report" 1 2005)) ∷ ok (some (failed 0 "report" 2 "gone")) ∷ []
unfolding opened
failed_at_last = refl

-- The attempts of a dispatch do not count when the class has its own.
attempts_ignored :
    (run env
      (quiet 0 5 ∷ quiet 3000 3001 ∷ [])
      (dispatch defaults 0 hopeless Json.null
        (record plain { attempts = some 9 })
        no_jobs).1).1.jobs
    ≡ []
unfolding opened
attempts_ignored = refl

-- A job that cannot be made is never polled again.
never_made :
    (run env
      (quiet 0 5 ∷ quiet 900000 900001 ∷ [])
      (dispatch defaults 0 broken Json.null plain no_jobs).1).0
    ≡ throws "no dependency" ∷ ok none ∷ []
unfolding opened
never_made = refl

delayed_back :
    (dispatch_later defaults 0 (from_now (minus 0)) flaky Json.null plain no_jobs).0
    ≡ throws negative_delay
delayed_back = refl

now_and_here : (dispatch_sync flaky Json.null no_jobs).0 ≡ throws "down"
unfolding opened
now_and_here = refl

run-budget_example :
    count_found (run env (breeding ∷ quiet 3000 3001 ∷ []) mailed).0
      + budget env (run env (breeding ∷ quiet 3000 3001 ∷ []) mailed).1.jobs
    ≤ 5
unfolding opened
run-budget_example = run-budget env (breeding ∷ quiet 3000 3001 ∷ []) mailed refl

abbrev sound : Setup ℕ
sound = record env { registry = ("mail", flaky) ∷ ("report", hopeless) ∷ [] }

sound-IsSteady : IsSteady sound 2
unfolding lookup
sound-IsSteady = record {
  makes = λ name cls w e h. ground (arith, h);
  delays = λ name cls row h. ground (arith, h);
}

run-drains_example :
    (run sound (quiet 0 5 ∷ quiet 3000 3001 ∷ quiet 9000 9001 ∷ []) mailed).1.jobs ≡ []
unfolding opened
run-drains_example =
    run-drains sound 2 sound-IsSteady 0 (quiet 0 5 ∷ quiet 3000 3001 ∷ quiet 9000 9001 ∷ []) mailed
      refl refl
      (
        omega arith,
        omega arith,
        refl,
        (omega arith, omega arith, refl, (omega arith, omega arith, refl, tt)),
      )
      (omega arith)

exponential_backoff-bounds_example :
    (3 * 8 ≤ 4 * exponential_backoff 2 1 3 + 2)
    × (4 * exponential_backoff 2 1 3 ≤ 5 * 8 + 2)
    × (1 ≤ exponential_backoff 2 1 3)
    × (exponential_backoff 2 1 3 ≤ 375)
exponential_backoff-bounds_example = exponential_backoff-bounds 2 1 3 (omega arith)

-- The delay of the ninth attempt may be above 300.
above_the_cap : exponential_backoff 100 99 9 ≡ 374
unfolding opened
above_the_cap = refl

-- One worker takes the job, another finds nothing.
abbrev idle : Fleet ℕ
idle = record { held = λ i. none; broker = mailed }

abbrev one_busy : Fleet ℕ
one_busy = record {
  held = replace idle.held 0 (claim env.queues 0 mailed).0;
  broker = (claim env.queues 0 mailed).1;
}

abbrev both_asked : Fleet ℕ
both_asked = record {
  held = replace one_busy.held 1 (claim env.queues 1 one_busy.broker).0;
  broker = (claim env.queues 1 one_busy.broker).1;
}

both_ask : FleetReach (λ i. env) idle both_asked
both_ask = next (next here (polls 0 0 refl)) (polls 1 1 refl)

abbrev first_job : JobRow
first_job = record {
  id = 0;
  queue = "default";
  job_name = "mail";
  payload = Json.obj Fields.end;
  attempts = 1;
  max_attempts = 3;
}

FleetReach-single_example : (◌≡◌ {A = ℕ} 0 0) × (kept 0 both_asked.broker.jobs ≡ true)
unfolding opened
FleetReach-single_example =
    FleetReach-single (λ i. env) 0 0 first_job first_job (λ k. refl) refl both_ask refl refl refl
