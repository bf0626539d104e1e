-- ===== src/Durable/Invariant/Statements.antt =====
-- What each statement of packages/durable/src/durable_runner.ts leaves, as equations.
use strav_1_x.Common.{
  suc, String, Bool, ◌&&◌, ◌≡◌, none, some, [], ◌∷◌, ◌++◌, Option-cases, Bool-cases, ◌⊎◌, inl, inr,
  ok, throws,
}
use strav_1_x.Common.Dict
use strav_1_x.Common.Dict.{lookup}
use strav_1_x.Durable.Types.{RunRow, JournalRow}
use strav_1_x.Durable.Engine.{
  Engine, select_run, update_run, insert_run, insert_row, find_row, is_some, unique_violation,
  run_not_found,
}

module _ {W : Type 0} (s : Engine W) where
  pub insert_row_cases :
      (unique : Bool) (j : JournalRow)
      → (insert_row unique j s ≡ (throws unique_violation, s))
        ⊎ (insert_row unique j s
            ≡ (ok tt, record s { journal = s.journal ++ j ∷ []; ids_used = suc s.ids_used }))
  unfolding insert_row
  insert_row_cases unique j =
      elim (Bool-cases (unique && is_some (find_row j.run_id j.step_name s.journal))) [
        | inl e ↦ inl (rw e)
        | inr e ↦ inr (rw e)
      ]

  pub update_run_found :
      (id : String) (change : RunRow → RunRow) {row : RunRow}
      → lookup id s.runs ≡ some row
      → update_run id change s ≡ (ok tt, record s { runs = Dict.insert id (change row) s.runs })
  unfolding update_run
  update_run_found id change e = rw (e, update_run)

  pub insert_run_cases :
      (id : String) (row : RunRow)
      → (insert_run id row s ≡ (throws unique_violation, s))
        ⊎ ((lookup id s.runs ≡ none)
            × (insert_run id row s ≡ (ok tt, record s { runs = Dict.insert id row s.runs })))
  unfolding insert_run
  insert_run_cases id row = elim (Option-cases (lookup id s.runs)) [
    | inl e ↦ inr (e, rw (e, insert_run))
    | inr (old, e) ↦ inl (rw (e, insert_run))
  ]

  pub select_run_cases :
      (id : String)
      → (select_run id s ≡ (throws (run_not_found id), s))
        ⊎ ((row : RunRow) × (lookup id s.runs ≡ some row) × (select_run id s ≡ (ok row, s)))
  unfolding select_run
  select_run_cases id = elim (Option-cases (lookup id s.runs)) [
    | inl e ↦ inl (rw (e, select_run))
    | inr (row, e) ↦ inr (row, e, rw (e, select_run))
  ]
