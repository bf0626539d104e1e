-- ===== src/Durable/Invariant/Steps.antt =====
-- The invariant under `applyOutcome` of a wait for a signal, and under one turn of `advance`.
use mathlib.Core.Path.{subst}
use strav_1_x.Common.{
  ℕ, suc, String, true, false, ◌≡◌, refl, sym, ap, ◌∙◌, ◌⊎◌, Option, none, some, get_elem?, arith,
  some_inj, inl, inr, ok, throws, Result, Bool-cases, eq_iff, str_eq,
}
use strav_1_x.Common.Dict
use strav_1_x.Common.Dict.{Dict, lookup, lookup-insert, lookup-erase}
use strav_1_x.Durable.Types.{
  Json, DurableContext, DurableNode, DurableWaitForSignal, step, sleep, wait_for_signal, parallel,
  route, loop, child_workflow, name_of, RunState, RunRow, RunStatus, JournalRow, JournalStatus,
  Outcome,
}
use strav_1_x.Durable.Engine.{Engine, Setup, find_row, ◌>>=◌, pure}
use strav_1_x.Durable.Nodes.{or_throw, run_node, run_wait_for_signal}
use strav_1_x.Durable.Runner.{apply_outcome, execute, visit}
use strav_1_x.Durable.Returns.{Returns, Returns-ok, bind_ok, bind_throws, bind_Returns}
use strav_1_x.Durable.Invariant.{IsSound, Engine-IsSound, nodes_for, replays}
use strav_1_x.Durable.Invariant.Rows.{is_journaled_of_replays, update-IsSound}
use strav_1_x.Durable.Invariant.Statements.{update_run_found}
use strav_1_x.Durable.Invariant.Kept.{IsQuiet, Kept}
use strav_1_x.Durable.Invariant.Execute.{IsActive, run_node-Kept}
use strav_1_x.Durable.Invariant.Outcomes.{moved-IsSound, apply_outcome_sound}

pub JournalStatus-cases :
    (j : JournalStatus) → (j ≡ JournalStatus.completed) ⊎ (j ≡ JournalStatus.failed)
JournalStatus-cases JournalStatus.completed = inl refl
JournalStatus-cases JournalStatus.failed = inr refl

module _ {W : Type 0} (env : Setup W) (now : ℕ) (id : String) (s : Engine W)
    (sound : Engine-IsSound env s) (row : RunRow) (found : lookup id s.runs ≡ some row)
    (node : DurableNode W)
    (at_cursor : get_elem? (nodes_for env row) row.current_step ≡ some node) where
  -- With a node at the cursor that waits for no signal, nothing is awaited.
  IsQuiet-active : IsActive node → IsQuiet row.state
  IsQuiet-active active name awaited e =
      let (w, at, _, _) = (sound id row found).awaits name awaited e in
      let same : node ≡ wait_for_signal w = some_inj (sym at_cursor ∙ at) in
      subst IsActive same active

  execute_active_sound :
      IsActive node → Returns (λ _ s'. Engine-IsSound env s') (execute env now id row node s)
  unfolding execute
  execute_active_sound active =
      let k : Kept env id row.current_step row.workflow_name s = record {
        sound = sound;
        row = row;
        found = found;
        quiet = IsQuiet-active active;
        cursor_kept = refl;
        workflow_kept = refl;
      } in
      bind_Returns _ _ _ s _
        (run_node-Kept env id row.current_step row.workflow_name s k row.state
          (IsQuiet-active active) now node _ _ active)
        λ r s' h.
          apply_outcome_sound env id row.current_step row.workflow_name node at_cursor now s' h.0
            r.1 h.1 r.0

  replay_sound :
      (result : Json)
      → replays (find_row id (name_of node) s.journal) ≡ true
      → Engine-IsSound env (record s {
        runs =
            Dict.insert id
              (record row {
                current_step = suc row.current_step;
                state = record row.state {
                  results = Dict.insert (name_of node) result row.state.results;
                };
                status = RunStatus.running;
              })
              s.runs;
      })
  replay_sound result h = update-IsSound env s.runs s.journal id _ sound (
      moved-IsSound env id row.current_step row.workflow_name node at_cursor row _ s.journal
        (sound id row found).behind refl refl refl refl
        (λ name awaited e.
          let (w, at, same, q) = (sound id row found).awaits name awaited e in
          let here : node ≡ wait_for_signal w = some_inj (sym at_cursor ∙ at) in
          let named : name_of node ≡ name = ap name_of here ∙ same in cc (q, rw named at h))
        (is_journaled_of_replays id (name_of node) s.journal h))

  abbrev awaiting : DurableWaitForSignal W → String → RunState
  awaiting w signal_name = record row.state {
    awaiting_signals = Dict.insert w.name signal_name row.state.awaiting_signals;
  }

  -- The outcome of a node that waits for a signal, and what it leaves alone.
  abbrev Waits : DurableWaitForSignal W → Outcome × RunState → Engine W → Type 0
  Waits w r s' =
      (signal_name : String) × (s' ≡ s)
      × (r.0 ≡ Outcome.waiting none)
      × (r.1 ≡ awaiting w signal_name)

  wait-Returns :
      (w : DurableWaitForSignal W) (ctx : DurableContext)
      → Returns (Waits w) (run_wait_for_signal w ctx row.state s)
  unfolding run_wait_for_signal
  wait-Returns w ctx = go (w.signal_name ctx)
    where
      go :
          (r : Result String String)
          → Returns
              (Waits w)
              (◌>>=◌ (or_throw r) (λ n. pure (Outcome.waiting none, awaiting w n)) s)
      go (ok n) = bind_ok _ _ _ s refl (Returns-ok _ (n, refl, refl, refl))
      go (throws e) = bind_throws _ _ _ s refl

  awaiting-IsSound :
      (w : DurableWaitForSignal W) (signal_name : String)
      → node ≡ wait_for_signal w
      → replays (find_row id w.name s.journal) ≡ false
      → IsSound env id
          (record row { status = RunStatus.waiting; state = awaiting w signal_name })
          s.journal
  awaiting-IsSound w signal_name here fresh = record {
    behind = (sound id row found).behind;
    awaits = λ name awaited e. elim (Bool-cases (str_eq w.name name)) [
      | inl same ↦
          let p : w.name ≡ name = (eq_iff w.name name).0 same in
          (w, rw here at at_cursor, p, rw p at fresh)
      | inr other ↦
          (sound id row found).awaits name awaited
            (ground (arith, lookup-insert w.name name signal_name row.state.awaiting_signals))
    ];
  }

  execute_wait_sound :
      (w : DurableWaitForSignal W)
      → node ≡ wait_for_signal w
      → replays (find_row id w.name s.journal) ≡ false
      → Returns (λ _ s'. Engine-IsSound env s') (execute env now id row (wait_for_signal w) s)
  unfolding execute run_node apply_outcome
  execute_wait_sound w here fresh =
      bind_Returns _ _ _ s _ (wait-Returns w _) λ r s' (n, same, o, e).
        rw (o, e, same)
          (bind_ok _ _ _ s (update_run_found s id _ found) (
            bind_ok _ _ _ _ refl (
              Returns-ok _ (
                update-IsSound env s.runs s.journal id _ sound (awaiting-IsSound w n here fresh)))))

  execute_sound :
      replays (find_row id (name_of node) s.journal) ≡ false
      → Returns (λ _ s'. Engine-IsSound env s') (execute env now id row node s)
  execute_sound = by_node node refl
    where
      by_node :
          (n : DurableNode W)
          → node ≡ n
          → replays (find_row id (name_of node) s.journal) ≡ false
          → Returns (λ _ s'. Engine-IsSound env s') (execute env now id row node s)
      by_node (wait_for_signal w) here fresh =
          rw here (execute_wait_sound w here (rw here at fresh))
      by_node (step n) here fresh = execute_active_sound (rw here tt)
      by_node (sleep n) here fresh = execute_active_sound (rw here tt)
      by_node (parallel n) here fresh = execute_active_sound (rw here tt)
      by_node (route n) here fresh = execute_active_sound (rw here tt)
      by_node (loop n) here fresh = execute_active_sound (rw here tt)
      by_node (child_workflow n) here fresh = execute_active_sound (rw here tt)

  pub visit_sound :
      (o : Option JournalRow)
      → find_row id (name_of node) s.journal ≡ o
      → Returns (λ _ s'. Engine-IsSound env s') (visit env now id row node o s)
  unfolding visit
  visit_sound none e = execute_sound (rw e refl)
  visit_sound (some j) e = elim (JournalStatus-cases j.status) [
    | inl done ↦
        rw (done, visit)
          (bind_ok _ _ _ s (update_run_found s id _ found)
            (Returns-ok _ (replay_sound j.result (rw (e, done) refl))))
    | inr not_done ↦ rw (not_done, visit) (execute_sound (rw (e, not_done) refl))
  ]
