-- ===== src/Durable/Invariant/Operations.antt =====
-- The invariant under `start`, `advance`, `signal` and `compensate`.
use strav_1_x.Common.{
  ℕ, String, Bool, true, false, ◌≡◌, refl, sym, ap, ◌∙◌, Option, none, some, [], ◌∷◌, get_elem?,
  arith, some_inj, inl, inr, ok, throws, Result, Option-cases, Bool-cases, eq_iff, str_eq,
}
use strav_1_x.Common.Dict
use strav_1_x.Common.Dict.{Dict, lookup, lookup-insert, lookup-erase}
use strav_1_x.Durable.Types.{Json, DurableNode, wait_for_signal, name_of, RunRow, RunStatus}
use strav_1_x.Durable.Engine.{
  Engine, Setup, Statement, Fault, select_run, transaction, commit, ◌>>=◌, continue_with,
}
use strav_1_x.Durable.Runner.{
  take_turn, advance_body, advance, is_over, deliver, signal_body, signal, find_signal, again,
}
use strav_1_x.Durable.Returns.{Returns, Returns-ok, Returns-throws, bind_ok, bind_throws}
use strav_1_x.Durable.Invariant.{Engine-IsSound, nodes_for}
use strav_1_x.Durable.Invariant.Rows.{
  is_journaled-append, is_journaled-last, update-IsSound, step-IsSound,
}
use strav_1_x.Durable.Invariant.Statements.{insert_row_cases, update_run_found, select_run_cases}
use strav_1_x.Durable.Invariant.Kept.{quiet-IsSound, empty-IsQuiet}
use strav_1_x.Durable.Invariant.Outcomes.{moved-IsSound}
use strav_1_x.Durable.Invariant.Steps.{visit_sound}

module _ {W : Type 0} (env : Setup W) (s : Engine W) (sound : Engine-IsSound env s) where
  commit_sound :
      {A : Type 0} (r : Result Fault A × Engine W)
      → Returns (λ _ s'. Engine-IsSound env s') r
      → Engine-IsSound env (commit s r).1
  unfolding Returns
  commit_sound (ok a, s') h = h
  commit_sound (throws e, s') h = sound

  pub transaction_sound :
      {A : Type 0} (body : Statement W A)
      → Returns (λ _ s'. Engine-IsSound env s') (body s)
      → Engine-IsSound env (transaction body s).1
  unfolding transaction
  transaction_sound body h = commit_sound (body s) h

  take_turn_sound :
      (now : ℕ) (id : String) (row : RunRow) (found : lookup id s.runs ≡ some row)
      (o : Option (DurableNode W))
      → get_elem? (nodes_for env row) row.current_step ≡ o
      → Returns (λ _ s'. Engine-IsSound env s') (take_turn env now id row o s)
  unfolding take_turn
  take_turn_sound now id row found none e = bind_ok _ _ _ s (update_run_found s id _ found) (
      Returns-ok _ (
        update-IsSound env s.runs s.journal id _ sound (
          quiet-IsSound env id row.current_step row.workflow_name row _ s.journal
            (sound id row found) refl refl (λ name awaited p. empty-IsQuiet name awaited p))))
  take_turn_sound now id row found (some node) e =
      visit_sound env now id s sound row found node e _ refl

  advance_body_sound :
      (now : ℕ) (id : String) (row : RunRow) (found : lookup id s.runs ≡ some row)
      → Returns (λ _ s'. Engine-IsSound env s') (advance_body env now id row s)
  unfolding advance_body
  advance_body_sound now id row found = elim (Bool-cases (is_over row.status)) [
    | inl over ↦ rw (over, advance_body) (Returns-ok _ sound)
    | inr running ↦ elim (Option-cases (lookup row.workflow_name env.registry)) [
      | inl e ↦ rw (running, e, advance_body) (Returns-throws _ _ _)
      | inr (nodes, e) ↦
          rw (running, e, advance_body) (take_turn_sound now id row found _ (rw e refl))
    ]
  ]

  again_sound :
      (id : String) (r : Result Fault Bool × Engine W)
      → Engine-IsSound env r.1
      → Engine-IsSound env (continue_with (again id) r).1
  again_sound id (ok true, s') h = h
  again_sound id (ok false, s') h = h
  again_sound id (throws e, s') h = h

  -- A transaction that reads the run's row first.
  pub select_then_sound :
      {A : Type 0} (id : String) (body : RunRow → Statement W A)
      → ((row : RunRow)
          → lookup id s.runs ≡ some row
          → Returns (λ _ s'. Engine-IsSound env s') (body row s))
      → Engine-IsSound env (transaction (select_run id >>= body) s).1
  select_then_sound id body h =
      transaction_sound (select_run id >>= body) (elim (select_run_cases s id) [
        | inl e ↦ bind_throws _ _ _ s e
        | inr (row, found, e) ↦ bind_ok _ _ _ s e (h row found)
      ])

  pub advance_sound : (now : ℕ) (id : String) → Engine-IsSound env (advance env now id s).1
  unfolding advance ◌>>=◌
  advance_sound now id =
      again_sound id _
        (select_then_sound id (λ row. advance_body env now id row) (advance_body_sound now id))

find_signal_found :
    (signal_name : String) (awaiting : Dict String) (name : String)
    → find_signal signal_name awaiting ≡ some name
    → (awaited : String) × (lookup name awaiting ≡ some awaited)
unfolding find_signal lookup
find_signal_found signal_name [] name e = cc
find_signal_found signal_name ((k, v) ∷ m) name e = elim (Bool-cases (str_eq k name)) [
  | inl same ↦ (v, rw (same, lookup))
  | inr other ↦ elim (Bool-cases (str_eq v signal_name)) [
    | inl hit ↦ cc ((eq_iff k name).1 (some_inj (rw (hit, find_signal) at e)), other)
    | inr miss ↦
        let (awaited, q) = find_signal_found signal_name m name (rw (miss, find_signal) at e) in
        (awaited, rw (other, lookup) q)
  ]
]

module _ {W : Type 0} (env : Setup W) (s : Engine W) (sound : Engine-IsSound env s) where
  delivered_quiet :
      (id : String) (row : RunRow) (found : lookup id s.runs ≡ some row) (name awaited : String)
      → lookup name row.state.awaiting_signals ≡ some awaited
      → (other a : String) → lookup other (Dict.erase name row.state.awaiting_signals) ≡ some a
      → ⊥
  delivered_quiet id row found name awaited e other a q = elim (Bool-cases (str_eq name other)) [
    | inl same ↦ ground (arith, lookup-erase name other row.state.awaiting_signals)
    | inr differ ↦
        let (w, at, named, _) = (sound id row found).awaits name awaited e in
        let (w', at', named', _) =
          (sound id row found).awaits other a
            (ground (arith, lookup-erase name other row.state.awaiting_signals)) in
        let p : wait_for_signal w ≡ wait_for_signal w' = some_inj (sym at ∙ at') in
        cc ((eq_iff name other).1 (sym named ∙ ap name_of p ∙ named'), differ)
  ]

  deliver_sound :
      (now : ℕ) (id : String) (payload : Option Json) (row : RunRow)
      (found : lookup id s.runs ≡ some row) (name awaited : String)
      → lookup name row.state.awaiting_signals ≡ some awaited
      → Returns (λ _ s'. Engine-IsSound env s') (deliver env now id payload row name s)
  unfolding deliver
  deliver_sound now id payload row found name awaited e =
      let (w, at, named, fresh) = (sound id row found).awaits name awaited e in
      elim (insert_row_cases s env.journal_is_unique _) [
        | inl p ↦ bind_throws _ _ _ s p
        | inr p ↦ bind_ok _ _ _ s p (
            bind_ok _ _ _ _ (update_run_found _ id _ found) (
              bind_ok _ _ _ _ refl (
                Returns-ok _ (
                  step-IsSound env s.runs s.journal id _ _ sound refl (
                    moved-IsSound env id row.current_step row.workflow_name (wait_for_signal w) at
                      row _ _
                      (λ i n lt q.
                        is_journaled-append id _ s.journal _ ((sound id row found).behind i n lt q))
                      refl refl refl refl (delivered_quiet id row found name awaited e)
                      (is_journaled-last id w.name s.journal _ refl (sym named) refl))))))
      ]

  signal_body_sound :
      (now : ℕ) (id name : String) (payload : Option Json) (row : RunRow)
      (found : lookup id s.runs ≡ some row)
      → Returns (λ _ s'. Engine-IsSound env s') (signal_body env now id name payload row s)
  unfolding signal_body deliver
  signal_body_sound now id name payload row found = by_status row.status
    where
      by_status :
          (status : RunStatus)
          → Returns
              (λ _ s'. Engine-IsSound env s')
              (signal_body env now id name payload (record row { status = status }) s)
      by_status RunStatus.waiting =
          elim (Option-cases (find_signal name row.state.awaiting_signals)) [
            | inl e ↦ rw (e, signal_body) (Returns-ok _ sound)
            | inr (node, e) ↦
                let (awaited, q) = find_signal_found name row.state.awaiting_signals node e in
                rw (e, signal_body) (deliver_sound now id payload row found node awaited q)
          ]
      by_status RunStatus.pending = Returns-ok _ sound
      by_status RunStatus.running = Returns-ok _ sound
      by_status RunStatus.compensating = Returns-ok _ sound
      by_status RunStatus.completed = Returns-ok _ sound
      by_status RunStatus.failed = Returns-ok _ sound

  pub signal_sound :
      (now : ℕ) (id name : String) (payload : Option Json)
      → Engine-IsSound env (signal env now id name payload s).1
  unfolding signal
  signal_sound now id name payload =
      select_then_sound env s sound id (λ row. signal_body env now id name payload row)
        (signal_body_sound now id name payload)
