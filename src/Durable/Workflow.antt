-- ===== src/Durable/Workflow.antt =====
-- packages/durable/src/durable_workflow.ts and workflow_registry.ts: the builder of a workflow, and the
-- workflows by their names. A call of the builder that throws may have claimed its name already. The
-- texts of the errors are left out.
pub mod Names
pub mod Tests
use strav_1_x.Common.{
  ℕ, ◌*◌, ◌^◌, min, String, Bool, true, false, Option, none, some, List, [], ◌∷◌, ◌++◌, Result, ok,
  throws, str_eq, if◌then◌else◌, includes, map,
}
use strav_1_x.Common.Dict
use strav_1_x.Common.Dict.{Dict, lookup}
use strav_1_x.Durable.Types.{
  Json, Span, plus, Call, DurableContext, DurableNode, step, sleep, wait_for_signal, parallel,
  route, loop, child_workflow,
}

pub data Refusal : Type 0 where
  empty_workflow_name empty_node_name no_branches : Refusal
  duplicate_node_name already_registered : String → Refusal
  not_registered : String → List String → Refusal

pub record DurableWorkflow (W : Type 0) : Type 0 where
  pub name : String
  pub nodes : List (DurableNode W)
  pub names : List String

-- `maxAttempts` and `backoff`, where they are given.
pub record RetryOptions : Type 0 where
  pub max_attempts : Option ℕ
  pub backoff : Option (ℕ → Span)

abbrev pub or_default {ℓ} : {A : Type ℓ} → A → Option A → A
or_default d none = d
or_default d (some a) = a

abbrev pub default_max_attempts : ℕ
default_max_attempts = 3

abbrev pub default_max_iterations : ℕ
default_max_iterations = 1000

abbrev pub default_child_poll : ℕ
default_child_poll = 2000

-- `Math.min(2 ** failedAttempt, MAX_BACKOFF_SECONDS)`, in milliseconds.
abbrev pub default_backoff : ℕ → Span
default_backoff failed_attempt = plus (min (2 ^ failed_attempt) 60 * 1000)

abbrev pub retries : RetryOptions → ℕ
retries options = or_default default_max_attempts options.max_attempts

abbrev pub backoff_of : RetryOptions → ℕ → Span
backoff_of options = or_default default_backoff options.backoff

-- A call of the builder: the answer, and the builder after it.
abbrev pub Build : Type 0 → Type 0
Build W = DurableWorkflow W → Result Refusal (Unit {0}) × DurableWorkflow W

module _ {W : Type 0} where
  abbrev pub new_workflow : String → Result Refusal (DurableWorkflow W)
  new_workflow name =
      if str_eq name ""
      then throws empty_workflow_name
      else ok (record { name = name; nodes = []; names = [] })

  unfoldable pub claim : String → Build W
  claim name wf =
      if str_eq name ""
      then (throws empty_node_name, wf)
      else if includes name wf.names
      then (throws (duplicate_node_name name), wf)
      else (ok tt, record wf { names = wf.names ++ name ∷ [] })

  abbrev pub push : DurableNode W → Build W
  push node wf = (ok tt, record wf { nodes = wf.nodes ++ node ∷ [] })

  abbrev pub after_claim :
      Build W
      → Result Refusal (Unit {0}) × DurableWorkflow W
      → Result Refusal (Unit {0}) × DurableWorkflow W
  after_claim next (ok u, wf) = next wf
  after_claim next (throws e, wf) = (throws e, wf)

  abbrev pub push_if_branches : Dict (Call W (Option Json)) → DurableNode W → Build W
  push_if_branches [] node wf = (throws no_branches, wf)
  push_if_branches (b ∷ branches) node wf = push node wf

  abbrev pub step_node :
      String → Call W (Option Json) → Option (Call W (Unit {0})) → RetryOptions → DurableNode W
  step_node name handler compensate options = step (record {
    name = name;
    handler = handler;
    compensate = compensate;
    max_attempts = retries options;
    backoff = backoff_of options;
  })

  unfoldable pub add_step :
      String → Call W (Option Json) → Option (Call W (Unit {0})) → RetryOptions → Build W
  add_step name handler compensate options wf =
      after_claim (push (step_node name handler compensate options)) (claim name wf)

  abbrev pub sleep_node : String → Call W Span → DurableNode W
  sleep_node name delay = sleep (record { name = name; delay = delay })

  unfoldable pub add_sleep : String → Call W Span → Build W
  add_sleep name delay wf = after_claim (push (sleep_node name delay)) (claim name wf)

  abbrev pub wait_for_signal_node : String → (DurableContext → Result String String) → DurableNode W
  wait_for_signal_node name signal_name =
      wait_for_signal (record { name = name; signal_name = signal_name })

  unfoldable pub add_wait_for_signal : String → (DurableContext → Result String String) → Build W
  add_wait_for_signal name signal_name wf =
      after_claim (push (wait_for_signal_node name signal_name)) (claim name wf)

  abbrev pub parallel_node : String → Dict (Call W (Option Json)) → RetryOptions → DurableNode W
  parallel_node name branches options = parallel (record {
    name = name;
    branches = branches;
    max_attempts = retries options;
    backoff = backoff_of options;
  })

  unfoldable pub add_parallel : String → Dict (Call W (Option Json)) → RetryOptions → Build W
  add_parallel name branches options wf =
      after_claim (push_if_branches branches (parallel_node name branches options)) (claim name wf)

  abbrev pub route_node :
      String → Call W String → Dict (Call W (Option Json)) → RetryOptions → DurableNode W
  route_node name select branches options = route (record {
    name = name;
    select = select;
    branches = branches;
    max_attempts = retries options;
    backoff = backoff_of options;
  })

  unfoldable pub add_route :
      String → Call W String → Dict (Call W (Option Json)) → RetryOptions → Build W
  add_route name select branches options wf =
      after_claim (push_if_branches branches (route_node name select branches options))
        (claim name wf)

  abbrev pub loop_node :
      String
      → (ℕ → Call W Bool)
      → (ℕ → Call W (Option Json))
      → Option ℕ
      → RetryOptions
      → DurableNode W
  loop_node name condition body max_iterations options = loop (record {
    name = name;
    condition = condition;
    body = body;
    max_iterations = or_default default_max_iterations max_iterations;
    max_attempts = retries options;
    backoff = backoff_of options;
  })

  unfoldable pub add_loop :
      String → (ℕ → Call W Bool) → (ℕ → Call W (Option Json)) → Option ℕ → RetryOptions → Build W
  add_loop name condition body max_iterations options wf =
      after_claim (push (loop_node name condition body max_iterations options)) (claim name wf)

  abbrev pub child_workflow_node : String → Call W (String × Dict Json) → Option ℕ → DurableNode W
  child_workflow_node name start poll_interval = child_workflow (record {
    name = name;
    start = start;
    poll_interval = or_default default_child_poll poll_interval;
  })

  unfoldable pub add_child_workflow : String → Call W (String × Dict Json) → Option ℕ → Build W
  add_child_workflow name start poll_interval wf =
      after_claim (push (child_workflow_node name start poll_interval)) (claim name wf)

-- `WorkflowRegistry`
abbrev pub Registry : Type 0 → Type 0
Registry W = Dict (DurableWorkflow W)

module _ {W : Type 0} where
  unfoldable pub register : DurableWorkflow W → Registry W → Result Refusal (Unit {0}) × Registry W
  register wf registry = elim (lookup wf.name registry) [
    | some other ↦ (throws (already_registered wf.name), registry)
    | none ↦ (ok tt, Dict.insert wf.name wf registry)
  ]

  unfoldable pub register_all :
      List (DurableWorkflow W) → Registry W → Result Refusal (Unit {0}) × Registry W
  register_all [] registry = (ok tt, registry)
  register_all (wf ∷ wfs) registry = elim (lookup wf.name registry) [
    | some other ↦ (throws (already_registered wf.name), registry)
    | none ↦ register_all wfs (register wf registry).1
  ]

  unfoldable pub get : String → Registry W → Result Refusal (DurableWorkflow W)
  get name registry = elim (lookup name registry) [
    | none ↦ throws (not_registered name (map (λ b. b.0) registry))
    | some wf ↦ ok wf
  ]
