-- ===== src/Durable/Nodes/Answers.antt =====
-- The parts of packages/durable/src/durable_runner.ts's functions for each type of node that need no
-- engine: the outcome of what a handler, a child run or an iteration gave, and the texts of errors.
use strav_1_x.Common.{
  ℕ, suc, ◌+◌, ◌-◌, ◌*◌, max, String, Option, none, some, List, [], ◌∷◌, ◌++◌, Result, ok, throws,
  if◌then◌else◌, leb, ltb, map, ◌+++◌, decimal, join,
}
use mathlib.Core.Option
use strav_1_x.Common.Dict
use strav_1_x.Common.Dict.{Dict, lookup}
use strav_1_x.Durable.Types.{
  Json, num, text, or_null, object, at_least_zero, Span, LoopSlot, RunState, RunRow, RunStatus,
  JournalRow, JournalStatus, Outcome, empty_state,
}

abbrev pub unknown_branch : String → String → List String → String
unknown_branch name key known =
    "DurableRunner: route \""
    +++ name
    +++ "\" returned unknown branch \""
    +++ key
    +++ "\". Branches: "
    +++ join ", " known

abbrev pub slot_of : Option LoopSlot → LoopSlot
slot_of none = record { iteration = 0; results = [] }
slot_of (some slot) = slot

abbrev pub or_else : Option String → String → String
or_else none d = d
or_else (some s) d = s

abbrev pub iteration_name : String → ℕ → String
iteration_name name i = name +++ "#" +++ decimal i

abbrev pub exceeded : ℕ → String
exceeded n = "loop exceeded maxIterations (" +++ decimal n +++ ")"

abbrev pub disappeared : String → String
disappeared child = "child workflow run \"" +++ child +++ "\" disappeared"

abbrev pub no_message : String
no_message = "child workflow failed without error message"

-- The row that one iteration of a loop journals.
abbrev pub iteration_row : String → String → ℕ → Option Json → ℕ → ℕ → JournalRow
iteration_row id name i value attempt now = record {
  run_id = id;
  step_name = iteration_name name i;
  status = JournalStatus.completed;
  result = or_null value;
  error = none;
  attempts = attempt;
  completed_at = now;
}

-- An iteration that is journaled as completed is taken as done.
abbrev pub replayed : LoopSlot → Option JournalRow → LoopSlot
replayed slot none = slot
replayed slot (some j) = elim j.status [
  | JournalStatus.completed ↦ record {
    iteration = suc slot.iteration;
    results = slot.results ++ j.result ∷ [];
  }
  | JournalStatus.failed ↦ slot
]

-- The `catch` around a child's `start`.
abbrev pub start_error : ℕ → String → Outcome
start_error attempt e = if ltb attempt 1 then Outcome.retry attempt 0 else Outcome.failed attempt e

abbrev pub result_of : Dict Json → Json
result_of results = object (map (λ b. (b.0, some b.1)) results)

-- The row of a child run that was started, if it is there.
abbrev pub poll_child : ℕ → String → RunState → ℕ → Option RunRow → Outcome
poll_child interval child state attempt none = Outcome.failed attempt (disappeared child)
poll_child interval child state attempt (some row) = elim row.status [
  | RunStatus.completed ↦ Outcome.completed (Option.map result_of row.result) attempt
  | RunStatus.failed ↦ Outcome.failed attempt (or_else row.error no_message)
  | _ ↦ Outcome.waiting (some interval)
]

-- The `catch` of `runStepLike`, and of the body of a loop.
abbrev pub after_error : ℕ → (ℕ → Span) → ℕ → String → Outcome
after_error max_attempts backoff attempt error =
    if ltb attempt max_attempts
    then Outcome.retry attempt (at_least_zero (backoff attempt))
    else Outcome.failed attempt error

abbrev pub envelope : ℕ → (ℕ → Span) → ℕ → Result String (Option Json) → Outcome
envelope max_attempts backoff attempt (ok value) = Outcome.completed value attempt
envelope max_attempts backoff attempt (throws e) = after_error max_attempts backoff attempt e

-- The values of the branches, or the errors.
unfoldable pub settle :
    List (String × Result String (Option Json)) → Dict (Option Json) × List String
settle [] = ([], [])
settle ((key, ok v) ∷ rs) = let (vs, es) = settle rs in ((key, v) ∷ vs, es)
settle ((key, throws e) ∷ rs) = let (vs, es) = settle rs in (vs, e ∷ es)

abbrev pub in_branch : String → Result String (Option Json) → Result String (Option Json)
in_branch key (ok v) = ok (some (object (("branch", some (text key)) ∷ ("result", v) ∷ [])))
in_branch key (throws e) = throws e

abbrev pub sleep_again : ℕ → ℕ → ℕ → ℕ → Outcome
sleep_again now delay since attempt =
    if leb (since + delay * 1000) now
    then Outcome.completed (some (object (("sleptSec", some (num delay)) ∷ []))) attempt
    else Outcome.waiting (some (max 1000 (since + delay * 1000 - now)))

-- `delay` is in seconds, as `Math.floor` leaves it.
abbrev pub park : ℕ → String → RunState → ℕ → ℕ → Option ℕ → Outcome × RunState
park now name state attempt delay none = (
  Outcome.waiting (some (delay * 1000)),
  record state { sleeps = Dict.insert name now state.sleeps },
)
park now name state attempt delay (some since) = (sleep_again now delay since attempt, state)

-- The row that `start` inserts.
abbrev pub new_run : String → Dict Json → RunRow
new_run workflow_name input = record {
  workflow_name = workflow_name;
  input = input;
  status = RunStatus.pending;
  state = empty_state;
  current_step = 0;
  result = none;
  error = none;
}
