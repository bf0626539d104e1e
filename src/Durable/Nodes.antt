-- ===== src/Durable/Nodes.antt =====
-- `runNode` of packages/durable/src/durable_runner.ts and the functions for each type of node. Each
-- gives the outcome and the run's state, which the source changes in place. `now` is `Date.now()`.
pub mod Answers
pub use strav_1_x.Durable.Nodes.Answers.{
  unknown_branch, slot_of, or_else, iteration_name, exceeded, disappeared, no_message,
  iteration_row, replayed, start_error, result_of, poll_child, after_error, envelope, settle,
  in_branch, sleep_again, park, new_run,
}
use strav_1_x.Common.{
  ℕ, suc, ◌+◌, ◌-◌, ◌*◌, ◌/◌, max, String, Bool, true, false, Option, none, some, List, [], ◌∷◌,
  ◌++◌, Result, ok, throws, if◌then◌else◌, leb, ltb, map, ◌+++◌, decimal, join,
}
use mathlib.Core.Option
use strav_1_x.Common.Dict
use strav_1_x.Common.Dict.{Dict, lookup}
use strav_1_x.Durable.Types.{
  Json, num, text, or_null, array, object, at_least_zero, Span, DurableContext, Call, DurableSleep,
  DurableWaitForSignal, DurableRoute, DurableLoop, DurableChildWorkflow, DurableNode, step, sleep,
  wait_for_signal, parallel, route, loop, child_workflow, LoopSlot, RunState, RunRow, RunStatus,
  JournalRow, JournalStatus, Outcome, empty_state,
}
use strav_1_x.Durable.Engine.{
  Setup, Statement, ◌>>=◌, ◌>>◌, pure, fail, transaction, update_run, insert_run, dispatch,
  advance_job, find_row, insert_row, thrown, workflow_not_registered,
}

module _ {W : Type 0} where
  -- Every branch runs to its end, in the order of declaration.
  unfoldable pub run_branches :
      Dict (Call W (Option Json))
      → DurableContext
      → W
      → List (String × Result String (Option Json)) × W
  run_branches [] ctx w = ([], w)
  run_branches ((key, handler) ∷ more) ctx w =
      let (r, w') = handler ctx w in
      let (rs, w'') = run_branches more ctx w' in ((key, r) ∷ rs, w'')

  -- `Promise.all` of the branches, then `Object.fromEntries`.
  unfoldable pub all_branches :
      (String → List String → String) → Dict (Call W (Option Json)) → Call W (Option Json)
  all_branches first branches ctx w =
      let (rs, w') = run_branches branches ctx w in
      let (values, errors) = settle rs in
      elim errors [ [] ↦ (ok (some (object values)), w') | e ∷ es ↦ (throws (first e es), w') ]

  unfoldable pub run_route : DurableRoute W → Call W (Option Json)
  run_route node ctx w =
      let (selected, w') = node.select ctx w in
      elim selected [
        | throws e ↦ (throws e, w')
        | ok key ↦ elim (lookup key node.branches) [
          | none ↦ (throws (unknown_branch node.name key (map (λ b. b.0) node.branches)), w')
          | some handler ↦ let (r, w'') = handler ctx w' in (in_branch key r, w'')
        ]
      ]

  -- Application code within a statement.
  abbrev pub call : {A : Type 0} → (W → Result String A × W) → Statement W (Result String A)
  call f s = let (r, w') = f s.app in (ok r, record s { app = w' })

  abbrev pub or_throw : {A : Type 0} → Result String A → Statement W A
  or_throw (ok a) = pure a
  or_throw (throws e) = fail (thrown e)

  unfoldable pub run_step_like :
      ℕ
      → (ℕ → Span)
      → DurableContext
      → RunState
      → ℕ
      → Call W (Option Json)
      → Statement W (Outcome × RunState)
  run_step_like max_attempts backoff ctx state attempt fn = do
    r ← call (fn ctx)
    pure (envelope max_attempts backoff attempt r, state)

  unfoldable pub run_sleep :
      ℕ → DurableSleep W → DurableContext → RunState → ℕ → Statement W (Outcome × RunState)
  run_sleep now node ctx state attempt = do
    r ← call (node.delay ctx)
    requested ← or_throw r
    pure (
        park now node.name state attempt (at_least_zero requested / 1000)
          (lookup node.name state.sleeps))

  unfoldable pub run_wait_for_signal :
      DurableWaitForSignal W → DurableContext → RunState → Statement W (Outcome × RunState)
  run_wait_for_signal node ctx state = do
    name ← or_throw (node.signal_name ctx)
    pure (
      Outcome.waiting none,
      record state { awaiting_signals = Dict.insert node.name name state.awaiting_signals },
    )

  -- The body of a loop has run: its value is journaled, and the iteration counted.
  unfoldable pub after_body :
      Setup W
      → ℕ
      → String
      → DurableLoop W
      → RunState
      → LoopSlot
      → ℕ
      → Result String (Option Json)
      → Statement W (Outcome × RunState)
  after_body env now id node state slot attempt (throws e) =
      pure (after_error node.max_attempts node.backoff attempt e, state)
  after_body env now id node state slot attempt (ok value) = do
    insert_row env.journal_is_unique (iteration_row id node.name slot.iteration value attempt now)
    let slot' : LoopSlot = record {
      iteration = suc slot.iteration;
      results = slot.results ++ or_null value ∷ [];
    }
    let state' = record state { loop_state = Dict.insert node.name slot' state.loop_state }
    update_run id (λ row. record row { state = state' })
    pure (Outcome.waiting (some 0), state')

  -- The answer of `condition`, and the body if it is to run.
  unfoldable pub after_condition :
      Setup W
      → ℕ
      → String
      → DurableLoop W
      → DurableContext
      → RunState
      → LoopSlot
      → ℕ
      → Result String Bool
      → Statement W (Outcome × RunState)
  after_condition env now id node ctx state slot attempt (throws e) =
      pure (Outcome.failed attempt e, state)
  after_condition env now id node ctx state slot attempt (ok false) =
      pure (Outcome.completed (some (array slot.results)) attempt, state)
  after_condition env now id node ctx state slot attempt (ok true) = do
    value ← call (node.body slot.iteration ctx)
    after_body env now id node state slot attempt value

  -- From the test of `maxIterations` on.
  unfoldable pub iterate :
      Setup W
      → ℕ
      → String
      → DurableLoop W
      → DurableContext
      → RunState
      → LoopSlot
      → ℕ
      → Statement W (Outcome × RunState)
  iterate env now id node ctx state slot attempt =
      if leb node.max_iterations slot.iteration
      then pure (Outcome.failed attempt (exceeded node.max_iterations), state)
      else (do
        r ← call (node.condition slot.iteration ctx)
        after_condition env now id node ctx state slot attempt r)

  unfoldable pub run_loop :
      Setup W
      → ℕ
      → String
      → DurableLoop W
      → DurableContext
      → RunState
      → ℕ
      → Statement W (Outcome × RunState)
  run_loop env now id node ctx state attempt s =
      let slot = slot_of (lookup node.name state.loop_state) in
      let slot' = replayed slot (find_row id (iteration_name node.name slot.iteration) s.journal) in
      let state' = record state { loop_state = Dict.insert node.name slot' state.loop_state } in
      iterate env now id node ctx state' slot' attempt s

  -- `start` of the runner: the run's row, in a transaction of its own, and a first advance job.
  unfoldable pub start : Setup W → String → Dict Json → Statement W String
  start env workflow_name input s = elim (lookup workflow_name env.registry) [
    | none ↦ (throws (workflow_not_registered workflow_name), s)
    | some nodes ↦
        let id = env.ulid s.ids_used in
        transaction
          (do insert_run id (new_run workflow_name input); dispatch advance_job id; pure id)
          (record s { ids_used = suc s.ids_used })
  ]

  -- The child that `start` named, if it named one, is started.
  unfoldable pub start_child :
      Setup W
      → String
      → DurableChildWorkflow W
      → RunState
      → ℕ
      → Result String (String × Dict Json)
      → Statement W (Outcome × RunState)
  start_child env id node state attempt (throws e) = pure (start_error attempt e, state)
  start_child env id node state attempt (ok (workflow_name, input)) = do
    child ← start env workflow_name input
    let state' = record state { child_run_ids = Dict.insert node.name child state.child_run_ids }
    update_run id (λ row. record row { state = state' })
    pure (Outcome.waiting (some node.poll_interval), state')

  unfoldable pub run_child_workflow :
      Setup W
      → String
      → DurableChildWorkflow W
      → DurableContext
      → RunState
      → ℕ
      → Statement W (Outcome × RunState)
  run_child_workflow env id node ctx state attempt s = elim (lookup node.name state.child_run_ids) [
    | some child ↦
        pure (poll_child node.poll_interval child state attempt (lookup child s.runs), state) s
    | none ↦ (do r ← call (node.start ctx); start_child env id node state attempt r) s
  ]

  unfoldable pub run_node :
      Setup W
      → ℕ
      → String
      → DurableNode W
      → DurableContext
      → RunState
      → ℕ
      → Statement W (Outcome × RunState)
  run_node env now id (step n) ctx state attempt =
      run_step_like n.max_attempts n.backoff ctx state attempt n.handler
  run_node env now id (sleep n) ctx state attempt = run_sleep now n ctx state attempt
  run_node env now id (wait_for_signal n) ctx state attempt = run_wait_for_signal n ctx state
  run_node env now id (parallel n) ctx state attempt =
      run_step_like n.max_attempts n.backoff ctx state attempt
        (all_branches env.first_rejection n.branches)
  run_node env now id (route n) ctx state attempt =
      run_step_like n.max_attempts n.backoff ctx state attempt (run_route n)
  run_node env now id (loop n) ctx state attempt = run_loop env now id n ctx state attempt
  run_node env now id (child_workflow n) ctx state attempt =
      run_child_workflow env id n ctx state attempt
