-- ===== src/Durable/Runner/Tests.antt =====
-- A small workflow through the runner, and the theorems at it.
use mathlib.Core.List.{Perm}
use strav_1_x.Common.{
  inr, ℕ, suc, String, Bool, true, false, ◌≡◌, refl, Option, none, some, List, [], ◌∷◌, ◌++◌, arith,
  ok, throws,
}
use strav_1_x.Common.Dict
use strav_1_x.Common.Dict.{lookup}
use strav_1_x.Durable.Types.{
  Json, text, plus, Call, DurableStep, DurableNode, step, wait_for_signal, RunRow, RunStatus,
  JournalRow, JournalStatus, empty_state,
}
use strav_1_x.Durable.Engine.{
  Engine, Setup, transaction, ◌>>=◌, select_run, update_run, insert_row, insert_run, find_row,
}
use strav_1_x.Durable.Nodes.{start, run_node, run_step_like, run_wait_for_signal}
use strav_1_x.Durable.Runner.{
  advance, advance_body, take_turn, visit, execute, apply_outcome, signal, signal_body, deliver,
  find_signal, compensate, compensate_body, compensate_run, to_undo, by_completion, completed_rows,
  place, roll_back, find_node, context_for,
}
use strav_1_x.Durable.Runner.Advance.{advance_revives, signal-once}
use strav_1_x.Durable.Runner.Compensation.{IsChronological, undone, compensate_lem}
use strav_1_x.Durable.Invariant.{is_journaled}
use strav_1_x.Durable.Invariant.Ended
use strav_1_x.Durable.Invariant.Ended.{Later-ended}
use strav_1_x.Durable.Invariant.Reach.{
  here, next, starts, advances, signals, Reach-journaled, empty_engine,
}

-- The application is the list of what its handlers did.
abbrev Trace : Type 0
Trace = List String

abbrev works : String → Call Trace (Option Json)
works name ctx w = (ok (some (text name)), w ++ name ∷ [])

abbrev undoes : String → Call Trace (Unit {0})
undoes name ctx w = (ok tt, w ++ name ∷ [])

abbrev reserve : DurableStep Trace
reserve = record {
  name = "reserve";
  handler = works "reserve";
  compensate = some (undoes "release");
  max_attempts = 3;
  backoff = λ n. plus 2000;
}

abbrev charge : DurableStep Trace
charge = record {
  name = "charge";
  handler = λ ctx w. (throws "declined", w ++ "charge" ∷ []);
  compensate = none;
  max_attempts = 1;
  backoff = λ n. plus 2000;
}

abbrev approval : DurableNode Trace
approval = wait_for_signal (record { name = "approval"; signal_name = λ ctx. ok "approved" })

abbrev order : List (DurableNode Trace)
order = step reserve ∷ approval ∷ step charge ∷ []

abbrev shop : Bool → Setup Trace
shop unique = record {
  registry = ("order", order) ∷ [];
  ulid = λ n. "run";
  journal_is_unique = unique;
  first_rejection = λ e es. e;
}

abbrev started : Engine Trace
started = (start (shop true) "order" [] (empty_engine [])).1

abbrev reserved : Engine Trace
reserved = (advance (shop true) 10 "run" started).1

abbrev parked : Engine Trace
parked = (advance (shop true) 20 "run" reserved).1

abbrev approved : Engine Trace
approved = (signal (shop true) 30 "run" "approved" none parked).1

abbrev declined : Engine Trace
declined = (advance (shop true) 40 "run" approved).1

abbrev undone_run : Engine Trace
undone_run = (compensate (shop true) "run" declined).1

order_runs : undone_run.app ≡ "reserve" ∷ "charge" ∷ "release" ∷ []
unfolding start advance signal compensate transaction ◌>>=◌ select_run update_run insert_row
    insert_run advance_body take_turn visit execute run_node run_step_like run_wait_for_signal
    apply_outcome signal_body deliver find_signal compensate_body compensate_run to_undo
    by_completion completed_rows place roll_back find_node find_row lookup Dict.insert Dict.erase
order_runs = refl

-- What has to unfold for a run to compute.
opened : Unit {0}
unfolding start advance signal compensate transaction ◌>>=◌ select_run update_run insert_row
    insert_run advance_body take_turn visit execute run_node run_step_like run_wait_for_signal
    apply_outcome signal_body deliver find_signal compensate_body compensate_run to_undo
    by_completion completed_rows place roll_back find_node find_row lookup Dict.insert Dict.erase
    is_journaled
opened = tt

abbrev row_at : ℕ → RunStatus → Dict.Dict Json → RunRow
row_at cursor status results = record {
  workflow_name = "order";
  input = [];
  status = status;
  state = record empty_state { results = results };
  current_step = cursor;
  result = none;
  error = none;
}

Reach-journaled_example : is_journaled "run" "reserve" reserved.journal ≡ true
unfolding opened
Reach-journaled_example =
    Reach-journaled (shop true) [] "run"
      (row_at 1 RunStatus.running (("reserve", text "reserve") ∷ [])) order 0 (step reserve)
      (next (next here (starts "order" [])) (advances 10 "run")) refl refl (omega arith) refl

abbrev journaled_row : JournalStatus → JournalRow
journaled_row status = record {
  run_id = "run";
  step_name = "reserve";
  status = status;
  result = text "earlier";
  error = none;
  attempts = 1;
  completed_at = 5;
}

abbrev rolling_back : Engine Trace
rolling_back = record (empty_engine []) {
  runs = ("run", row_at 0 RunStatus.compensating []) ∷ [];
  journal = journaled_row JournalStatus.failed ∷ [];
}

advance_revives_example :
    (row' : RunRow) × (lookup "run" (advance (shop false) 50 "run" rolling_back).1.runs ≡ some row')
    × (row'.status ≡ RunStatus.running)
    × (row'.current_step ≡ 1)
    × (compensate (shop false) "run" (advance (shop false) 50 "run" rolling_back).1
        ≡ (ok tt, (advance (shop false) 50 "run" rolling_back).1))
unfolding opened
advance_revives_example =
    advance_revives (shop false) 50 "run" rolling_back (row_at 0 RunStatus.compensating []) refl
      order reserve (journaled_row JournalStatus.failed) (some (text "reserve")) refl refl refl refl
      refl refl refl

signal-once_example :
    (row row' : RunRow) × (lookup "run" parked.runs ≡ some row)
    × (row.status ≡ RunStatus.waiting)
    × (lookup "run" approved.runs ≡ some row')
    × (row'.current_step ≡ suc row.current_step)
    × (signal (shop true) 31 "run" "approved" none approved ≡ (ok false, approved))
unfolding opened
signal-once_example =
    signal-once (shop true) "run" 30 31 "approved" "approved" none none parked refl

abbrev later_row : JournalRow
later_row = record (journaled_row JournalStatus.completed) {
  step_name = "approval";
  completed_at = 9;
}

-- The rows do not stand in the order of their completion.
abbrev to_roll_back : Engine Trace
to_roll_back = record rolling_back {
  runs = ("run", row_at 2 RunStatus.compensating []) ∷ [];
  journal = later_row ∷ journaled_row JournalStatus.completed ∷ [];
}

compensate_lem_example :
    (js : List JournalRow) × IsChronological js
    × Perm js (completed_rows "run" to_roll_back.journal)
    × (compensate (shop true) "run" to_roll_back ≡ (
      ok tt,
      record to_roll_back {
        runs = ("run", row_at 2 RunStatus.failed []) ∷ [];
        app = undone order (context_for "run" (row_at 2 RunStatus.compensating []) 1) js [];
      },
    ))
unfolding opened
compensate_lem_example =
    compensate_lem (shop true) "run" to_roll_back (row_at 2 RunStatus.compensating []) order refl
      refl refl

abbrev ended : Engine Trace
ended = record (empty_engine []) { runs = ("run", row_at 0 RunStatus.failed []) ∷ [] }

Later-ended_example :
    lookup "run"
      (signal (shop true) 51 "run" "approved" none (advance (shop true) 50 "run" ended).1).1.runs
    ≡ some (row_at 0 RunStatus.failed [])
unfolding opened
Later-ended_example =
    Later-ended (shop true) {s = ended} "run" (row_at 0 RunStatus.failed [])
      (Ended.next (Ended.next (Ended.here) (advances 50 "run")) (signals 51 "run" "approved" none))
      refl (inr refl)
