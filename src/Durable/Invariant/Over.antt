-- ===== src/Durable/Invariant/Over.antt =====
-- The runs of packages/durable/src/durable_runner.ts that are completed or failed: what each
-- statement leaves alone.
use strav_1_x.Common.{
  ℕ, String, Bool, true, false, ◌≡◌, Option, none, some, Result, ok, throws, arith, eq_iff, str_eq,
  Option-cases, Bool-cases, inl, inr, leb,
}
use strav_1_x.Common.Dict.{Dict, lookup, lookup-insert}
use strav_1_x.Durable.Types.{
  Json, DurableContext, DurableSleep, DurableWaitForSignal, DurableLoop, DurableChildWorkflow,
  DurableNode, step, sleep, wait_for_signal, parallel, route, loop, child_workflow, LoopSlot,
  RunState, RunRow, JournalRow, Outcome, Call, Span,
}
use strav_1_x.Durable.Engine.{
  Engine, Setup, Statement, Fault, ◌>>=◌, continue_with, transaction, commit, update_run,
  insert_run, insert_row,
}
use strav_1_x.Durable.Nodes.{
  or_throw, run_step_like, run_sleep, run_wait_for_signal, after_body, after_condition, iterate,
  run_loop, start, start_child, run_child_workflow, run_node,
}
use strav_1_x.Durable.Runner.{wake_later, apply_outcome, execute, visit, take_turn}
use strav_1_x.Durable.Invariant.Statements.{insert_row_cases}
use strav_1_x.Durable.Invariant.Steps.{JournalStatus-cases}

module _ {W : Type 0} (x : String) (rx : RunRow) where
  -- The row of the run is there.
  abbrev pub Stays : Engine W → Type 0
  Stays s = lookup x s.runs ≡ some rx

  -- Whether it throws or not, the statement leaves the row as it is.
  abbrev pub Keeps : {A : Type 0} → Statement W A → Type 0
  Keeps m = (s : Engine W) → Stays s → Stays (m s).1

  pub bind-Keeps :
      {A B : Type 0} (m : Statement W A) (f : A → Statement W B)
      → Keeps m
      → ((a : A) → Keeps (f a))
      → Keeps (◌>>=◌ m f)
  unfolding ◌>>=◌
  bind-Keeps {A} {B} m f hm hf s h = go (m s) (hm s h)
    where
      go : (r : Result Fault A × Engine W) → Stays r.1 → Stays (continue_with f r).1
      go (ok a, t) k = hf a t k
      go (throws e, t) k = k

  pub transaction-Stays :
      {A : Type 0} (m : Statement W A) (s : Engine W)
      → Stays s
      → Stays (m s).1
      → Stays (transaction m s).1
  unfolding transaction
  transaction-Stays {A} m s h = go (m s)
    where
      go : (r : Result Fault A × Engine W) → Stays r.1 → Stays (commit s r).1
      go (ok a, t) k = k
      go (throws e, t) k = h

  pub insert_row-Keeps : (unique : Bool) (j : JournalRow) → Keeps (insert_row {W = W} unique j)
  insert_row-Keeps unique j s h = elim (insert_row_cases s unique j) [
    | inl e ↦ rw e h
    | inr e ↦ rw e h
  ]

  insert_run-Keeps : (id : String) (row : RunRow) → Keeps (insert_run {W = W} id row)
  unfolding insert_run
  insert_run-Keeps id row s h = elim (Option-cases (lookup id s.runs)) [
    | inl e ↦ rw (e, insert_run) (ground (arith, h, e, eq_iff id x, lookup-insert id x row s.runs))
    | inr (old, e) ↦ rw (e, insert_run) h
  ]

  or_throw-Keeps : {A : Type 0} (r : Result String A) → Keeps (or_throw {W = W} r)
  or_throw-Keeps (ok a) s h = h
  or_throw-Keeps (throws e) s h = h

  pub start-Keeps :
      (env : Setup W) (name : String) (input : Dict Json) → Keeps (start env name input)
  unfolding start
  start-Keeps env name input s h = elim (Option-cases (lookup name env.registry)) [
    | inl e ↦ rw (e, start) h
    | inr (nodes, e) ↦
        rw (e, start)
          (transaction-Stays _ _ h
            (bind-Keeps _ _ (insert_run-Keeps _ _) (λ a. bind-Keeps _ _ (λ s h. h) λ b s h. h) _ h))
  ]

  -- The statements about another run.
  module _ (env : Setup W) (now : ℕ) (id : String) (other : str_eq id x ≡ false) where
    pub update_run-Keeps : (change : RunRow → RunRow) → Keeps (update_run {W = W} id change)
    unfolding update_run
    update_run-Keeps change s h = elim (Option-cases (lookup id s.runs)) [
      | inl e ↦ rw (e, update_run) h
      | inr (row, e) ↦
          rw (e, update_run) (ground (arith, h, other, lookup-insert id x (change row) s.runs))
    ]

    run_step_like-Keeps :
        (n : ℕ) (backoff : ℕ → Span) (ctx : DurableContext) (state : RunState) (attempt : ℕ)
        (fn : Call W (Option Json))
        → Keeps (run_step_like n backoff ctx state attempt fn)
    unfolding run_step_like
    run_step_like-Keeps n backoff ctx state attempt fn = bind-Keeps _ _ (λ s h. h) λ r s h. h

    run_sleep-Keeps :
        (n : DurableSleep W) (ctx : DurableContext) (state : RunState) (attempt : ℕ)
        → Keeps (run_sleep now n ctx state attempt)
    unfolding run_sleep
    run_sleep-Keeps n ctx state attempt =
        bind-Keeps _ _ (λ s h. h) λ r. bind-Keeps _ _ (or_throw-Keeps r) λ d s h. h

    run_wait_for_signal-Keeps :
        (n : DurableWaitForSignal W) (ctx : DurableContext) (state : RunState)
        → Keeps (run_wait_for_signal n ctx state)
    unfolding run_wait_for_signal
    run_wait_for_signal-Keeps n ctx state =
        bind-Keeps _ _ (or_throw-Keeps (n.signal_name ctx)) λ d s h. h

    after_body-Keeps :
        (n : DurableLoop W) (state : RunState) (slot : LoopSlot) (attempt : ℕ)
        (r : Result String (Option Json))
        → Keeps (after_body env now id n state slot attempt r)
    unfolding after_body
    after_body-Keeps n state slot attempt (throws e) = λ s h. h
    after_body-Keeps n state slot attempt (ok v) =
        bind-Keeps _ _ (insert_row-Keeps _ _) λ a. bind-Keeps _ _ (update_run-Keeps _) λ b s h. h

    after_condition-Keeps :
        (n : DurableLoop W) (ctx : DurableContext) (state : RunState) (slot : LoopSlot)
        (attempt : ℕ) (r : Result String Bool)
        → Keeps (after_condition env now id n ctx state slot attempt r)
    unfolding after_condition
    after_condition-Keeps n ctx state slot attempt (throws e) = λ s h. h
    after_condition-Keeps n ctx state slot attempt (ok false) = λ s h. h
    after_condition-Keeps n ctx state slot attempt (ok true) =
        bind-Keeps _ _ (λ s h. h) λ r. after_body-Keeps n state slot attempt r

    iterate-Keeps :
        (n : DurableLoop W) (ctx : DurableContext) (state : RunState) (slot : LoopSlot)
        (attempt : ℕ)
        → Keeps (iterate env now id n ctx state slot attempt)
    unfolding iterate
    iterate-Keeps n ctx state slot attempt s h =
        elim (Bool-cases (leb n.max_iterations slot.iteration)) [
          | inl e ↦ rw (e, iterate) h
          | inr e ↦
              rw (e, iterate)
                (bind-Keeps _ _ (λ s h. h) (λ r. after_condition-Keeps n ctx state slot attempt r) s
                  h)
        ]

    run_loop-Keeps :
        (n : DurableLoop W) (ctx : DurableContext) (state : RunState) (attempt : ℕ)
        → Keeps (run_loop env now id n ctx state attempt)
    unfolding run_loop
    run_loop-Keeps n ctx state attempt s h = iterate-Keeps n ctx _ _ attempt s h

    start_child-Keeps :
        (n : DurableChildWorkflow W) (state : RunState) (attempt : ℕ)
        (r : Result String (String × Dict Json))
        → Keeps (start_child env id n state attempt r)
    unfolding start_child
    start_child-Keeps n state attempt (throws e) = λ s h. h
    start_child-Keeps n state attempt (ok (name, input)) =
        bind-Keeps _ _ (start-Keeps env name input)
          λ a. bind-Keeps _ _ (update_run-Keeps _) λ b s h. h

    run_child_workflow-Keeps :
        (n : DurableChildWorkflow W) (ctx : DurableContext) (state : RunState) (attempt : ℕ)
        → Keeps (run_child_workflow env id n ctx state attempt)
    unfolding run_child_workflow
    run_child_workflow-Keeps n ctx state attempt s h =
        elim (Option-cases (lookup n.name state.child_run_ids)) [
          | inr (child, e) ↦ rw (e, run_child_workflow) h
          | inl e ↦
              rw (e, run_child_workflow)
                (bind-Keeps _ _ (λ s h. h) (λ r. start_child-Keeps n state attempt r) s h)
        ]

    run_node-Keeps :
        (n : DurableNode W) (ctx : DurableContext) (state : RunState) (attempt : ℕ)
        → Keeps (run_node env now id n ctx state attempt)
    unfolding run_node
    run_node-Keeps (step n) ctx state attempt = run_step_like-Keeps _ _ ctx state attempt _
    run_node-Keeps (sleep n) ctx state attempt = run_sleep-Keeps n ctx state attempt
    run_node-Keeps (wait_for_signal n) ctx state attempt = run_wait_for_signal-Keeps n ctx state
    run_node-Keeps (parallel n) ctx state attempt = run_step_like-Keeps _ _ ctx state attempt _
    run_node-Keeps (route n) ctx state attempt = run_step_like-Keeps _ _ ctx state attempt _
    run_node-Keeps (loop n) ctx state attempt = run_loop-Keeps n ctx state attempt
    run_node-Keeps (child_workflow n) ctx state attempt =
        run_child_workflow-Keeps n ctx state attempt

    wake_later-Keeps : (o : Option ℕ) → Keeps (wake_later {W = W} o id)
    wake_later-Keeps none s h = h
    wake_later-Keeps (some d) s h = h

    apply_outcome-Keeps :
        (current : ℕ) (node : DurableNode W) (state : RunState) (o : Outcome)
        → Keeps (apply_outcome env now id current node state o)
    unfolding apply_outcome
    apply_outcome-Keeps current node state (Outcome.completed v a) =
        bind-Keeps _ _ (insert_row-Keeps _ _) λ b. bind-Keeps _ _ (update_run-Keeps _) λ c s h. h
    apply_outcome-Keeps current node state (Outcome.retry a d) =
        bind-Keeps _ _ (update_run-Keeps _) λ b. bind-Keeps _ _ (λ s h. h) λ c s h. h
    apply_outcome-Keeps current node state (Outcome.failed a e) =
        bind-Keeps _ _ (insert_row-Keeps _ _)
          λ b. bind-Keeps _ _ (update_run-Keeps _) λ c. bind-Keeps _ _ (λ s h. h) λ d s h. h
    apply_outcome-Keeps current node state (Outcome.waiting d) =
        bind-Keeps _ _ (update_run-Keeps _) λ b. bind-Keeps _ _ (wake_later-Keeps d) λ c s h. h

    execute-Keeps : (row : RunRow) (node : DurableNode W) → Keeps (execute env now id row node)
    unfolding execute
    execute-Keeps row node =
        bind-Keeps _ _ (run_node-Keeps node _ _ _) λ r. apply_outcome-Keeps _ node r.1 r.0

    visit-Keeps :
        (row : RunRow) (node : DurableNode W) (o : Option JournalRow)
        → Keeps (visit env now id row node o)
    unfolding visit
    visit-Keeps row node none s h = execute-Keeps row node s h
    visit-Keeps row node (some j) s h = elim (JournalStatus-cases j.status) [
      | inl e ↦ rw (e, visit) (bind-Keeps _ _ (update_run-Keeps _) (λ b s h. h) s h)
      | inr e ↦ rw (e, visit) (execute-Keeps row node s h)
    ]

    pub take_turn-Keeps :
        (row : RunRow) (o : Option (DurableNode W)) → Keeps (take_turn env now id row o)
    unfolding take_turn
    take_turn-Keeps row none s h = bind-Keeps _ _ (update_run-Keeps _) (λ b s h. h) s h
    take_turn-Keeps row (some node) s h = visit-Keeps row node _ s h
