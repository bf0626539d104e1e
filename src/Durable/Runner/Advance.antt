-- ===== src/Durable/Runner/Advance.antt =====
-- About `advance` and `signal` of packages/durable/src/durable_runner.ts: a job that comes twice, and a
-- signal that comes after another.
use strav_1_x.Common.{
  ℕ, suc, String, true, false, Option-cases, inl, inr, ◌≡◌, refl, Option, some, List, get_elem?,
  arith, ok, eq_iff,
}
use strav_1_x.Common.Dict
use strav_1_x.Common.Dict.{Dict, lookup, lookup-insert}
use strav_1_x.Durable.Types.{
  Json, or_null, DurableNode, RunRow, RunStatus, JournalRow, JournalStatus, step, DurableStep,
}
use strav_1_x.Durable.Engine.{
  Engine, Setup, find_row, select_run, transaction, ◌>>=◌, update_run, insert_row,
}
use strav_1_x.Durable.Nodes.{run_node, run_step_like}
use strav_1_x.Durable.Runner.{
  signal, find_signal, signal_body, deliver, advance, advance_body, take_turn, visit, execute,
  apply_outcome, compensate, compensate_body, context_for, next_attempt, done_state,
}

module _ {W : Type 0} (env : Setup W) (now : ℕ) (id : String) (s : Engine W) (row : RunRow)
    (found : lookup id s.runs ≡ some row) where
  -- The row of the run after its step returned.
  abbrev moved_on : DurableStep W → Option Json → RunRow
  moved_on n value = record row {
    current_step = suc row.current_step;
    state = done_state (step n) value row.state;
    status = RunStatus.running;
  }

  revived_row :
      (nodes : List (DurableNode W)) (n : DurableStep W) (j : JournalRow) (value : Option Json)
      → row.status ≡ RunStatus.compensating
      → env.journal_is_unique ≡ false
      → lookup row.workflow_name env.registry ≡ some nodes
      → get_elem? nodes row.current_step ≡ some (step n)
      → find_row id n.name s.journal ≡ some j
      → j.status ≡ JournalStatus.failed
      → (n.handler (context_for id row (next_attempt row (step n))) s.app).0 ≡ ok value
      → lookup id (advance env now id s).1.runs ≡ some (moved_on n value)
  unfolding advance transaction ◌>>=◌ select_run advance_body take_turn visit execute run_node
      run_step_like apply_outcome update_run insert_row
  revived_row nodes n j value compensating loose registered at journaled not_done returns = ground (
    arith,
    found,
    compensating,
    loose,
    registered,
    at,
    journaled,
    not_done,
    returns,
    lookup-insert id id (moved_on n value) s.runs,
    eq_iff id id,
  )

  compensate_idle :
      (t : Engine W) (row' : RunRow)
      → lookup id t.runs ≡ some row'
      → row'.status ≡ RunStatus.running
      → compensate env id t ≡ (ok tt, t)
  unfolding compensate transaction ◌>>=◌ select_run compensate_body
  compensate_idle t row' e running = ground (arith, e, running)

  -- Without the unique index, a second advance job that comes while the run is compensating runs
  -- the failed step once more. If its handler returns this time, the run is running again, past
  -- the step, and the compensate job that is due changes nothing.
  pub advance_revives :
      (nodes : List (DurableNode W)) (n : DurableStep W) (j : JournalRow) (value : Option Json)
      → row.status ≡ RunStatus.compensating
      → env.journal_is_unique ≡ false
      → lookup row.workflow_name env.registry ≡ some nodes
      → get_elem? nodes row.current_step ≡ some (step n)
      → find_row id n.name s.journal ≡ some j
      → j.status ≡ JournalStatus.failed
      → (n.handler (context_for id row (next_attempt row (step n))) s.app).0 ≡ ok value
      → (row' : RunRow) × (lookup id (advance env now id s).1.runs ≡ some row')
        × (row'.status ≡ RunStatus.running)
        × (row'.current_step ≡ suc row.current_step)
        × (compensate env id (advance env now id s).1 ≡ (ok tt, (advance env now id s).1))
  advance_revives nodes n j value compensating loose registered at journaled not_done returns =
      let there =
        revived_row nodes n j value compensating loose registered at journaled not_done returns in
      (moved_on n value, there, refl, refl, compensate_idle (advance env now id s).1 _ there refl)

module _ {W : Type 0} (env : Setup W) (id : String) where
  refused-running :
      (now : ℕ) (name : String) (payload : Option Json) (s : Engine W) (row : RunRow)
      → lookup id s.runs ≡ some row
      → row.status ≡ RunStatus.running
      → signal env now id name payload s ≡ (ok false, s)
  unfolding signal transaction ◌>>=◌ select_run signal_body
  refused-running now name payload s row found running = ground (arith, found, running)

  abbrev delivered : Option Json → String → RunRow → RunRow
  delivered payload node row = record row {
    status = RunStatus.running;
    state = record row.state {
      awaiting_signals = Dict.erase node row.state.awaiting_signals;
      results = Dict.insert node (or_null payload) row.state.results;
    };
    current_step = suc row.current_step;
  }

  -- A signal that is taken found the run waiting, and leaves it running.
  taken :
      (now : ℕ) (name : String) (payload : Option Json) (s : Engine W)
      → (signal env now id name payload s).0 ≡ ok true
      → (row row' : RunRow) × (lookup id s.runs ≡ some row)
        × (row.status ≡ RunStatus.waiting)
        × (lookup id (signal env now id name payload s).1.runs ≡ some row')
        × (row'.status ≡ RunStatus.running)
        × (row'.current_step ≡ suc row.current_step)
  unfolding signal transaction ◌>>=◌ select_run signal_body deliver insert_row update_run
  taken now name payload s h = elim (Option-cases (lookup id s.runs)) [
    | inl e ↦ absurd (ground (arith, h, e))
    | inr (row, e) ↦ elim (Option-cases (find_signal name row.state.awaiting_signals)) [
      | inl k ↦ absurd (ground (arith, h, e, k))
      | inr (node, k) ↦ (
        row,
        delivered payload node row,
        e,
        ground (arith, h, e),
        ground
            (arith, h, e, k, lookup-insert id id (delivered payload node row) s.runs, eq_iff id id),
        refl,
        refl,
      )
    ]
  ]

  -- A signal that is taken found the run waiting and moved its cursor on by one; any signal that comes
  -- next, of whatever name, is refused and changes nothing.
  pub signal-once :
      (now now' : ℕ) (name name' : String) (payload payload' : Option Json) (s : Engine W)
      → (signal env now id name payload s).0 ≡ ok true
      → (row row' : RunRow) × (lookup id s.runs ≡ some row)
        × (row.status ≡ RunStatus.waiting)
        × (lookup id (signal env now id name payload s).1.runs ≡ some row')
        × (row'.current_step ≡ suc row.current_step)
        × (signal env now' id name' payload' (signal env now id name payload s).1
            ≡ (ok false, (signal env now id name payload s).1))
  signal-once now now' name name' payload payload' s h =
      let (row, row', found, waiting, there, running, moved) = taken now name payload s h in
      (
        row,
        row',
        found,
        waiting,
        there,
        moved,
        refused-running now' name' payload' (signal env now id name payload s).1 row' there running,
      )
