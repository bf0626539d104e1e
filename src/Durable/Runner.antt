-- ===== src/Durable/Runner.antt =====
-- `DurableRunner` of packages/durable/src/durable_runner.ts: `advance` with `applyOutcome`, `signal` and
-- `compensate`. (`start` stands in Nodes, which needs it, and `find` in Snapshot.)
pub mod Advance
pub mod Compensation
pub mod Tests
use mathlib.Core.List.{reverse}
use strav_1_x.Common.{
  ℕ, suc, String, Bool, true, false, Option, none, some, List, [], ◌∷◌, if◌then◌else◌, leb,
  get_elem?, map, str_eq,
}
use strav_1_x.Common.Dict
use strav_1_x.Common.Dict.{Dict, lookup}
use strav_1_x.Durable.Types.{
  Json, or_null, set_result, DurableContext, Call, DurableNode, step, loop, child_workflow, name_of,
  RunState, RunRow, RunStatus, JournalRow, JournalStatus, Outcome, empty_state, null,
}
use strav_1_x.Durable.Engine.{
  Setup, Statement, ◌>>=◌, ◌>>◌, pure, fail, transaction, select_run, update_run, dispatch_later,
  dispatch, advance_job, compensate_job, find_row, insert_row, workflow_not_registered,
}
use strav_1_x.Durable.Nodes.{run_node}

abbrev pub attempts_of : Option ℕ → ℕ
attempts_of none = 0
attempts_of (some n) = n

-- The state of a run whose node is done: its markers go.
abbrev pub forget : {W : Type 0} → DurableNode W → RunState → RunState
forget (loop n) state = record state { loop_state = Dict.erase n.name state.loop_state }
forget (child_workflow n) state = record state {
  child_run_ids = Dict.erase n.name state.child_run_ids;
}
forget _ state = state

abbrev pub done_state : {W : Type 0} → DurableNode W → Option Json → RunState → RunState
done_state node value state = forget node (record state {
  results = set_result (name_of node) value state.results;
  step_attempts = Dict.erase (name_of node) state.step_attempts;
  sleeps = Dict.erase (name_of node) state.sleeps;
})

-- `Object.entries(awaiting).find(([, name]) => name === signalName)`
unfoldable pub find_signal : String → Dict String → Option String
find_signal signal [] = none
find_signal signal ((node, name) ∷ m) =
    if str_eq name signal then some node else find_signal signal m

-- The completed rows of a run.
unfoldable pub completed_rows : String → List JournalRow → List JournalRow
completed_rows id [] = []
completed_rows id (j ∷ js) =
    let rest = completed_rows id js in
    if str_eq j.run_id id
    then elim j.status [ JournalStatus.completed ↦ j ∷ rest | _ ↦ rest ]
    else rest

-- `ORDER BY completed_at ASC`, stable.
unfoldable pub place : JournalRow → List JournalRow → List JournalRow
place j [] = j ∷ []
place j (k ∷ ks) = if leb j.completed_at k.completed_at then j ∷ k ∷ ks else k ∷ place j ks

unfoldable pub by_completion : List JournalRow → List JournalRow
by_completion [] = []
by_completion (j ∷ js) = place j (by_completion js)

-- The node with a name: of two, a `Map` keeps the later one.
unfoldable pub find_node : {W : Type 0} → String → List (DurableNode W) → Option (DurableNode W)
find_node name [] = none
find_node name (n ∷ ns) = elim (find_node name ns) [
  | some m ↦ some m
  | none ↦ if str_eq (name_of n) name then some n else none
]

abbrev pub compensator_of : {W : Type 0} → Option (DurableNode W) → Option (Call W (Unit {0}))
compensator_of (some (step n)) = n.compensate
compensator_of _ = none

abbrev pub journal_row : String → String → JournalStatus → Json → Option String → ℕ → ℕ → JournalRow
journal_row id name status result error attempt now = record {
  run_id = id;
  step_name = name;
  status = status;
  result = result;
  error = error;
  attempts = attempt;
  completed_at = now;
}

abbrev pub is_over : RunStatus → Bool
is_over RunStatus.completed = true
is_over RunStatus.failed = true
is_over _ = false

-- The names of the completed rows, the latest first.
unfoldable pub to_undo : String → List JournalRow → List String
to_undo id journal = reverse (map (λ j. j.step_name) (by_completion (completed_rows id journal)))

-- The number of the attempt that is due, from 1.
abbrev pub next_attempt : {W : Type 0} → RunRow → DurableNode W → ℕ
next_attempt row node = suc (attempts_of (lookup (name_of node) row.state.step_attempts))

abbrev pub context_for : String → RunRow → ℕ → DurableContext
context_for id row attempt = record {
  input = row.input;
  results = row.state.results;
  run_id = id;
  attempt = attempt;
}

module _ {W : Type 0} where
  -- `advanceCursor`
  abbrev pub advance_cursor : String → ℕ → RunState → Statement W (Unit {0})
  advance_cursor id next state =
      update_run id
        (λ row. record row { current_step = next; state = state; status = RunStatus.running })

  -- `markCompleted`
  abbrev pub mark_completed : String → Dict Json → Statement W (Unit {0})
  mark_completed id results = update_run id (λ row. record row {
    status = RunStatus.completed;
    state = record empty_state { results = results };
    result = some results;
  })

  abbrev pub wake_later : Option ℕ → String → Statement W (Unit {0})
  wake_later none id = pure tt
  wake_later (some delay) id = dispatch_later delay advance_job id

  unfoldable pub apply_outcome :
      Setup W → ℕ → String → ℕ → DurableNode W → RunState → Outcome → Statement W Bool
  apply_outcome env now id current node state (Outcome.completed value attempt) = do
    insert_row env.journal_is_unique
        (journal_row id (name_of node) JournalStatus.completed (or_null value) none attempt now)
    advance_cursor id (suc current) (done_state node value state)
    pure true
  apply_outcome env now id current node state (Outcome.retry attempt delay) = do
    update_run id (λ row. record row {
      state = record state {
        step_attempts = Dict.insert (name_of node) attempt state.step_attempts;
      };
    })
    dispatch_later delay advance_job id
    pure false
  apply_outcome env now id current node state (Outcome.failed attempt error) = do
    insert_row env.journal_is_unique
        (journal_row id (name_of node) JournalStatus.failed null (some error) attempt now)
    update_run id
        (λ row. record row { status = RunStatus.compensating; state = state; error = some error })
    dispatch compensate_job id
    pure false
  apply_outcome env now id current node state (Outcome.waiting delay) = do
    update_run id (λ row. record row { status = RunStatus.waiting; state = state })
    wake_later delay id
    pure false

  -- The node at the cursor, not yet journaled as completed.
  unfoldable pub execute : Setup W → ℕ → String → RunRow → DurableNode W → Statement W Bool
  execute env now id row node = do
    let attempt = next_attempt row node
    (outcome, state) ← run_node env now id node (context_for id row attempt) row.state attempt
    apply_outcome env now id row.current_step node state outcome

  -- The node at the cursor: replayed from the journal if it is journaled as completed.
  unfoldable pub visit :
      Setup W → ℕ → String → RunRow → DurableNode W → Option JournalRow → Statement W Bool
  visit env now id row node none = execute env now id row node
  visit env now id row node (some j) = elim j.status [
    | JournalStatus.completed ↦ (do
      advance_cursor id (suc row.current_step)
          (record row.state { results = Dict.insert (name_of node) j.result row.state.results })
      pure true)
    | JournalStatus.failed ↦ execute env now id row node
  ]

  -- The transaction of `advance` once the row and the workflow's nodes are read.
  unfoldable pub take_turn :
      Setup W → ℕ → String → RunRow → Option (DurableNode W) → Statement W Bool
  take_turn env now id row none s = (do mark_completed id row.state.results; pure false) s
  take_turn env now id row (some node) s =
      visit env now id row node (find_row id (name_of node) s.journal) s

  unfoldable pub advance_body : Setup W → ℕ → String → RunRow → Statement W Bool
  advance_body env now id row =
      if is_over row.status then pure false else elim (lookup row.workflow_name env.registry) [
        | none ↦ fail (workflow_not_registered row.workflow_name)
        | some nodes ↦ take_turn env now id row (get_elem? nodes row.current_step)
      ]

  abbrev pub again : String → Bool → Statement W (Unit {0})
  again id true = dispatch advance_job id
  again id false = pure tt

  unfoldable pub advance : Setup W → ℕ → String → Statement W (Unit {0})
  advance env now id = do
    should_continue ← transaction (do row ← select_run id; advance_body env now id row)
    again id should_continue

  -- The wake-up of the node that awaits the signal.
  unfoldable pub deliver : Setup W → ℕ → String → Option Json → RunRow → String → Statement W Bool
  deliver env now id payload row node = do
    insert_row env.journal_is_unique
        (journal_row id node JournalStatus.completed (or_null payload) none 1 now)
    update_run id (λ r. record r {
      status = RunStatus.running;
      state = record row.state {
        awaiting_signals = Dict.erase node row.state.awaiting_signals;
        results = Dict.insert node (or_null payload) row.state.results;
      };
      current_step = suc r.current_step;
    })
    dispatch advance_job id
    pure true

  unfoldable pub signal_body :
      Setup W → ℕ → String → String → Option Json → RunRow → Statement W Bool
  signal_body env now id signal payload row = elim row.status [
    | RunStatus.waiting ↦ elim (find_signal signal row.state.awaiting_signals) [
      | none ↦ pure false
      | some node ↦ deliver env now id payload row node
    ]
    | _ ↦ pure false
  ]

  unfoldable pub signal : Setup W → ℕ → String → String → Option Json → Statement W Bool
  signal env now id name payload =
      transaction (do row ← select_run id; signal_body env now id name payload row)

  -- One compensator; what it throws is logged.
  abbrev pub run_compensator : DurableContext → Option (Call W (Unit {0})) → W → W
  run_compensator ctx none w = w
  run_compensator ctx (some undo) w = (undo ctx w).1

  unfoldable pub roll_back : List (DurableNode W) → DurableContext → List String → W → W
  roll_back nodes ctx [] w = w
  roll_back nodes ctx (name ∷ names) w =
      roll_back nodes ctx names (run_compensator ctx (compensator_of (find_node name nodes)) w)

  unfoldable pub compensate_run : String → RunRow → List (DurableNode W) → Statement W (Unit {0})
  compensate_run id row nodes s =
      update_run id (λ r. record r { status = RunStatus.failed })
        (record s { app = roll_back nodes (context_for id row 1) (to_undo id s.journal) s.app })

  unfoldable pub compensate_body : Setup W → String → RunRow → Statement W (Unit {0})
  compensate_body env id row = elim row.status [
    | RunStatus.compensating ↦ elim (lookup row.workflow_name env.registry) [
      | none ↦ fail (workflow_not_registered row.workflow_name)
      | some nodes ↦ compensate_run id row nodes
    ]
    | _ ↦ pure tt
  ]

  unfoldable pub compensate : Setup W → String → Statement W (Unit {0})
  compensate env id = transaction (do row ← select_run id; compensate_body env id row)
