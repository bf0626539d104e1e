-- ===== src/Durable/Workflow/Tests.antt =====
-- A small workflow in the builder and in the registry, and the theorems at it.
use strav_1_x.Common.{ℕ, ◌≡◌, refl, Option, none, some, [], ok, throws}
use strav_1_x.Common.Dict
use strav_1_x.Common.Dict.{lookup}
use strav_1_x.Durable.Types.{Json, Call, plus}
use strav_1_x.Durable.Runner.{find_node}
use strav_1_x.Durable.Workflow.{
  DurableWorkflow, RetryOptions, claim, add_step, add_sleep, step_node, register,
  duplicate_node_name,
}
use strav_1_x.Durable.Workflow.Names.{new, steps, sleeps, Built-find_node}

abbrev App : Type 0
App = ℕ

abbrev unchanged : Call App (Option Json)
unchanged ctx w = (ok none, w)

abbrev defaults : RetryOptions
defaults = record { max_attempts = none; backoff = none }

abbrev empty_flow : DurableWorkflow App
empty_flow = record { name = "order"; nodes = []; names = [] }

abbrev one_step : DurableWorkflow App
one_step = (add_step "reserve" unchanged none defaults empty_flow).1

abbrev two_steps : DurableWorkflow App
two_steps = (add_sleep "pause" (λ ctx w. (ok (plus 5), w)) one_step).1

opened : Unit {0}
unfolding claim add_step add_sleep find_node register lookup Dict.insert
opened = tt

refused :
    (add_step "pause" unchanged none defaults two_steps).0 ≡ throws (duplicate_node_name "pause")
unfolding opened
refused = refl

Built-find_node_example :
    find_node "reserve" two_steps.nodes ≡ some (step_node "reserve" unchanged none defaults)
unfolding opened
Built-find_node_example =
    Built-find_node {name = "order"} {wf = two_steps} 0
      (step_node "reserve" unchanged none defaults)
      (sleeps "pause" _ (steps "reserve" unchanged none defaults new)) refl
