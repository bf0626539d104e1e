-- ===== src/Durable/Invariant/Ended.antt =====
-- The runs of packages/durable/src/durable_runner.ts that are completed or failed, under every operation.
use strav_1_x.Common.{
  ℕ, String, Bool, true, false, ◌≡◌, ◌⊎◌, sym, ◌∙◌, Option, some, eq_iff, str_eq, some_inj,
  Option-cases, Bool-cases, inl, inr,
}
use strav_1_x.Common.Dict.{lookup}
use strav_1_x.Durable.Types.{Json, RunRow, RunStatus}
use strav_1_x.Durable.Engine.{Engine, Setup, Statement, ◌>>=◌, transaction, select_run}
use strav_1_x.Durable.Runner.{
  advance, advance_body, again, is_over, signal, signal_body, deliver, find_signal, compensate,
  compensate_body, compensate_run,
}
use strav_1_x.Durable.Invariant.Statements.{select_run_cases}
use strav_1_x.Durable.Invariant.Over.{
  Stays, Keeps, bind-Keeps, transaction-Stays, start-Keeps, update_run-Keeps, insert_row-Keeps,
  take_turn-Keeps,
}
use strav_1_x.Durable.Invariant.Reach.{Step, starts, advances, signals, compensates, others}

abbrev pub HasEnded : RunRow → Type 0
HasEnded row = (row.status ≡ RunStatus.completed) ⊎ (row.status ≡ RunStatus.failed)

module _ {W : Type 0} (env : Setup W) (x : String) (rx : RunRow) (ended : HasEnded rx) where
  select_then-Stays :
      {A : Type 0} (id : String) (body : RunRow → Statement W A) (s : Engine W)
      → Stays x rx s
      → ((row : RunRow) → lookup id s.runs ≡ some row → Stays x rx (body row s).1)
      → Stays x rx (transaction (select_run id >>= body) s).1
  unfolding ◌>>=◌
  select_then-Stays id body s h k =
      transaction-Stays x rx (select_run id >>= body) s h
        (elim (select_run_cases s id) [ inl e ↦ rw e h | inr (row, found, e) ↦ rw e (k row found) ])

  -- The run that is read is another one, or has ended.
  other_or_ended :
      (id : String) (s : Engine W) (row : RunRow)
      → Stays x rx s
      → lookup id s.runs ≡ some row
      → (str_eq id x ≡ false) ⊎ HasEnded row
  other_or_ended id s row h found = elim (Bool-cases (str_eq id x)) [
    | inr e ↦ inl e
    | inl e ↦
        let p : id ≡ x = (eq_iff id x).0 e in
        let same : rx ≡ row = some_inj (sym h ∙ rw (sym p) found) in inr (rw (sym same) ended)
  ]

  advance_body-Stays :
      (now : ℕ) (id : String) (s : Engine W) (row : RunRow)
      → Stays x rx s
      → lookup id s.runs ≡ some row
      → Stays x rx (advance_body env now id row s).1
  unfolding advance_body
  advance_body-Stays now id s row h found = elim (other_or_ended id s row h found) [
    | inr (inl e) ↦ rw (e, advance_body) h
    | inr (inr e) ↦ rw (e, advance_body) h
    | inl other ↦ elim (Bool-cases (is_over row.status)) [
      | inl over ↦ rw (over, advance_body) h
      | inr running ↦ elim (Option-cases (lookup row.workflow_name env.registry)) [
        | inl e ↦ rw (running, e, advance_body) h
        | inr (nodes, e) ↦
            rw (running, e, advance_body) (take_turn-Keeps x rx env now id other row _ s h)
      ]
    ]
  ]

  again-Keeps : (id : String) (b : Bool) → Keeps x rx (again {W = W} id b)
  again-Keeps id true s h = h
  again-Keeps id false s h = h

  advance-Stays :
      (now : ℕ) (id : String) (s : Engine W) → Stays x rx s → Stays x rx (advance env now id s).1
  unfolding advance
  advance-Stays now id s h =
      bind-Keeps x rx (transaction (select_run id >>= λ row. advance_body env now id row))
        (again id)
        (λ t k. select_then-Stays id _ t k (λ row found. advance_body-Stays now id t row k found))
        (λ b. again-Keeps id b) s h

  signal_body-Stays :
      (now : ℕ) (id name : String) (payload : Option Json) (s : Engine W) (row : RunRow)
      → Stays x rx s
      → lookup id s.runs ≡ some row
      → Stays x rx (signal_body env now id name payload row s).1
  unfolding signal_body deliver
  signal_body-Stays now id name payload s row h found = elim (other_or_ended id s row h found) [
    | inr (inl e) ↦ rw (e, signal_body) h
    | inr (inr e) ↦ rw (e, signal_body) h
    | inl other ↦ by_status other row.status
  ]
    where
      by_status :
          str_eq id x ≡ false
          → (status : RunStatus)
          → Stays x rx (signal_body env now id name payload (record row { status = status }) s).1
      by_status other RunStatus.waiting =
          elim (Option-cases (find_signal name row.state.awaiting_signals)) [
            | inl e ↦ rw (e, signal_body) h
            | inr (node, e) ↦
                rw (e, signal_body)
                  (bind-Keeps x rx _ _ (insert_row-Keeps x rx _ _)
                    (λ a.
                      bind-Keeps x rx _ _ (update_run-Keeps x rx env now id other _)
                        λ b. bind-Keeps x rx _ _ (λ t k. k) λ c t k. k)
                    s h)
          ]
      by_status other RunStatus.pending = h
      by_status other RunStatus.running = h
      by_status other RunStatus.compensating = h
      by_status other RunStatus.completed = h
      by_status other RunStatus.failed = h

  compensate_body-Stays :
      (id : String) (s : Engine W) (row : RunRow)
      → Stays x rx s
      → lookup id s.runs ≡ some row
      → Stays x rx (compensate_body env id row s).1
  unfolding compensate_body compensate_run
  compensate_body-Stays id s row h found = elim (other_or_ended id s row h found) [
    | inr (inl e) ↦ rw (e, compensate_body) h
    | inr (inr e) ↦ rw (e, compensate_body) h
    | inl other ↦ by_status other row.status
  ]
    where
      by_status :
          str_eq id x ≡ false
          → (status : RunStatus)
          → Stays x rx (compensate_body env id (record row { status = status }) s).1
      by_status other RunStatus.compensating =
          elim (Option-cases (lookup row.workflow_name env.registry)) [
            | inl e ↦ rw (e, compensate_body) h
            | inr (nodes, e) ↦
                rw (e, compensate_body)
                  (update_run-Keeps x rx env 0 id other _ (record s { app = _ }) h)
          ]
      by_status other RunStatus.pending = h
      by_status other RunStatus.running = h
      by_status other RunStatus.waiting = h
      by_status other RunStatus.completed = h
      by_status other RunStatus.failed = h

  Step-Stays : {s t : Engine W} → Step env s t → Stays x rx s → Stays x rx t
  unfolding signal compensate
  Step-Stays {s} (starts name input) h = start-Keeps x rx env name input s h
  Step-Stays {s} (advances now id) h = advance-Stays now id s h
  Step-Stays {s} (signals now id name payload) h =
      select_then-Stays id _ s h (λ row found. signal_body-Stays now id name payload s row h found)
  Step-Stays {s} (compensates id) h =
      select_then-Stays id _ s h (λ row found. compensate_body-Stays id s row h found)
  Step-Stays (others queue w) h = h

-- The engines that the operations lead to from an engine.
pub data Later {W : Type 0} (env : Setup W) (s : Engine W) : Engine W → Type 0 where
  here : Later env s s
  next : {t u : Engine W} → Later env s t → Step env t u → Later env s u

-- The row of a run that is completed or failed never changes again, however the runs are started,
-- advanced, signalled and compensated, and whatever their handlers do.
pub Later-ended :
    {W : Type 0} (env : Setup W) {s t : Engine W} (id : String) (row : RunRow)
    → Later env s t
    → lookup id s.runs ≡ some row
    → HasEnded row
    → lookup id t.runs ≡ some row
Later-ended env id row here found ended = found
Later-ended env id row (next later step) found ended =
    Step-Stays env id row ended step (Later-ended env id row later found ended)
