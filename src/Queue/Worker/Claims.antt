-- ===== src/Queue/Worker/Claims.antt =====
-- About the claims of packages/queue/src/worker.ts: workers that poll one database, each of which runs
-- one job at a time. Whatever else a job does to the broker is a step of its own.
use strav_1_x.Common.{ℕ, ◌≤◌, true, ◌≡◌, refl, Option, none, some}
use strav_1_x.Common.Json.{Json}
use strav_1_x.Queue.Jobs.{JobRow, Broker, JobClass, QueueDefaults, DispatchOptions, insert_job}
use strav_1_x.Queue.Worker.{Setup, claim, perform}
use strav_1_x.Queue.Worker.Guard.{
  replace, IsGuarded, free-IsGuarded, change-IsGuarded, claim-IsGuarded, perform-IsGuarded,
  add-IsGuarded,
}
use strav_1_x.Queue.Worker.Kept.{kept, below, below-weaken}

-- The workers, numbered, and the row that each is at.
pub record Fleet (W : Type 0) : Type 0 where
  pub held : ℕ → Option JobRow
  pub broker : Broker W

module _ {W : Type 0} (env : ℕ → Setup W) where
  -- A poll of an idle worker, the end of a job, the death of a process, a dispatch, or anything that
  -- leaves the table of jobs alone.
  pub data FleetStep (s : Fleet W) : Fleet W → Type 0 where
    polls :
        (now i : ℕ)
        → s.held i ≡ none
        → FleetStep s (record {
          held = replace s.held i (claim (env i).queues now s.broker).0;
          broker = (claim (env i).queues now s.broker).1;
        })
    finishes :
        (now i : ℕ) (row : JobRow)
        → s.held i ≡ some row
        → FleetStep s
            (record { held = replace s.held i none; broker = (perform (env i) now row s.broker).1 })
    dies : (i : ℕ) → FleetStep s (record s { held = replace s.held i none })
    dispatches :
        (defaults : QueueDefaults) (now : ℕ) (cls : JobClass W) (payload : Json) (delay : ℕ)
        (options : DispatchOptions)
        → FleetStep s
            (record s { broker = (insert_job defaults now cls payload delay options s.broker).1 })
    others :
        (b : Broker W)
        → b.jobs ≡ s.broker.jobs
        → s.broker.ids_used ≤ b.ids_used
        → FleetStep s (record s { broker = b })

  pub data FleetReach (s : Fleet W) : Fleet W → Type 0 where
    here : FleetReach s s
    next : {t u : Fleet W} → FleetReach s t → FleetStep t u → FleetReach s u

module _ {W : Type 0} where
  FleetStep-IsGuarded :
      (env : ℕ → Setup W) {s t : Fleet W}
      → FleetStep env s t
      → IsGuarded s.held s.broker
      → IsGuarded t.held t.broker
  unfolding insert_job
  FleetStep-IsGuarded env {s} (polls now i idle) g =
      claim-IsGuarded (env i).queues now i s.held s.broker idle g
  FleetStep-IsGuarded env {s} (finishes now i row at) g =
      perform-IsGuarded (env i) now i row s.held s.broker at g
  FleetStep-IsGuarded env {s} (dies i) g = free-IsGuarded s.held s.broker i g
  FleetStep-IsGuarded env {s} (dispatches defaults now cls payload delay options) g =
      add-IsGuarded s.held s.broker _ g refl
  FleetStep-IsGuarded env {s} (others b e le) g =
      change-IsGuarded s.held s.broker b g
        (rw e (below-weaken s.broker.ids_used b.ids_used _ le g.table)) le
        (λ k r h. rw e (g.reserved k r h))

  FleetReach-IsGuarded :
      (env : ℕ → Setup W) {s t : Fleet W}
      → FleetReach env s t
      → IsGuarded s.held s.broker
      → IsGuarded t.held t.broker
  FleetReach-IsGuarded env here g = g
  FleetReach-IsGuarded env (next r step) g =
      FleetStep-IsGuarded env step (FleetReach-IsGuarded env r g)

  -- From a table whose identifiers were given out and workers that are all idle, however they poll,
  -- finish, die and dispatch: two workers that are at rows of one identifier are the same worker, and
  -- every row of that identifier in the table is reserved.
  pub FleetReach-single :
      (env : ℕ → Setup W) {s t : Fleet W} (i j : ℕ) (p r : JobRow)
      → ((k : ℕ) → s.held k ≡ none)
      → below s.broker.ids_used s.broker.jobs ≡ true
      → FleetReach env s t
      → t.held i ≡ some p
      → t.held j ≡ some r
      → p.id ≡ r.id
      → (i ≡ j) × (kept r.id t.broker.jobs ≡ true)
  FleetReach-single env i j p r idle table reach hi hj e =
      let g = FleetReach-IsGuarded env reach (record {
        table = table;
        issued = λ k r h. absurd cc (h, idle k);
        reserved = λ k r h. absurd cc (h, idle k);
        single = λ j k p r h h' e. absurd cc (h, idle j);
      }) in
      (g.single i j p r hi hj e, g.reserved j r hj)
