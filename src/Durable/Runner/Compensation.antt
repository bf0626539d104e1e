-- ===== src/Durable/Runner/Compensation.antt =====
-- About `compensate` of packages/durable/src/durable_runner.ts: the order of the compensators.
use mathlib.Core.List.{reverse, reverse-cons, Perm}
use mathlib.Core.List.Perm
use strav_1_x.Common.{
  ℕ, leb, Bool-cases, inl, inr, ◌≤◌, String, ◌≡◌, refl, some, List, [], ◌∷◌, ◌++◌, map, arith, ok,
  All,
}
use strav_1_x.Common.Dict
use strav_1_x.Common.Dict.{Dict, lookup}
use strav_1_x.Durable.Types.{DurableNode, DurableContext, RunRow, RunStatus, JournalRow}
use strav_1_x.Durable.Engine.{Engine, Setup, select_run, transaction, ◌>>=◌, update_run}
use strav_1_x.Durable.Runner.{
  compensate, compensate_body, compensate_run, roll_back, run_compensator, compensator_of,
  find_node, context_for, to_undo, by_completion, completed_rows, place,
}

-- The rows were completed in the order in which they stand.
abbrev pub IsChronological : List JournalRow → Type 0
IsChronological [] = Unit
IsChronological (j ∷ js) = All (λ k. j.completed_at ≤ k.completed_at) js × IsChronological js

place-All :
    (P : JournalRow → Type 0) (j : JournalRow) (js : List JournalRow)
    → P j
    → All P js
    → All P (place j js)
unfolding place
place-All P j [] p h = (p, tt)
place-All P j (k ∷ js) p (q, h) = elim (Bool-cases (leb j.completed_at k.completed_at)) [
  | inl e ↦ rw e (p, (q, h))
  | inr e ↦ rw e (q, place-All P j js p h)
]

after-All :
    (t u : ℕ) (js : List JournalRow)
    → t ≤ u
    → All (λ k. u ≤ k.completed_at) js
    → All (λ k. t ≤ k.completed_at) js
after-All t u [] le h = tt
after-All t u (k ∷ js) le (q, h) = (omega (arith, le, q), after-All t u js le h)

place-IsChronological :
    (j : JournalRow) (js : List JournalRow) → IsChronological js → IsChronological (place j js)
unfolding place
place-IsChronological j [] h = (tt, tt)
place-IsChronological j (k ∷ js) (q, h) = elim (Bool-cases (leb j.completed_at k.completed_at)) [
  | inl e ↦
      let le : j.completed_at ≤ k.completed_at = ground (arith, e) in
      rw e ((le, after-All j.completed_at k.completed_at js le q), (q, h))
  | inr e ↦
      let le : k.completed_at ≤ j.completed_at = ground (arith, e) in
      rw e
        (place-All (λ i. k.completed_at ≤ i.completed_at) j js le q, place-IsChronological j js h)
]

by_completion-IsChronological : (js : List JournalRow) → IsChronological (by_completion js)
unfolding by_completion
by_completion-IsChronological [] = tt
by_completion-IsChronological (j ∷ js) =
    place-IsChronological j (by_completion js) (by_completion-IsChronological js)

place-Perm : (j : JournalRow) (js : List JournalRow) → Perm (place j js) (j ∷ js)
unfolding place
place-Perm j [] = Perm.rfl
place-Perm j (k ∷ js) = elim (Bool-cases (leb j.completed_at k.completed_at)) [
  | inl e ↦ rw e Perm.rfl
  | inr e ↦ rw e (Perm.trans (Perm.cons k (place-Perm j js)) (Perm.swap j k js))
]

by_completion-Perm : (js : List JournalRow) → Perm (by_completion js) js
unfolding by_completion
by_completion-Perm [] = Perm.rfl
by_completion-Perm (j ∷ js) =
    Perm.trans (place-Perm j (by_completion js)) (Perm.cons j (by_completion-Perm js))

-- The compensators of the completed rows, the last row first; a compensator that throws only
-- leaves what it changed.
abbrev pub undone : {W : Type 0} → List (DurableNode W) → DurableContext → List JournalRow → W → W
undone nodes ctx [] w = w
undone nodes ctx (j ∷ js) w =
    run_compensator ctx (compensator_of (find_node j.step_name nodes)) (undone nodes ctx js w)

roll_back-append :
    {W : Type 0} (nodes : List (DurableNode W)) (ctx : DurableContext) (xs ys : List String) (w : W)
    → roll_back nodes ctx (xs ++ ys) w ≡ roll_back nodes ctx ys (roll_back nodes ctx xs w)
unfolding roll_back
roll_back-append nodes ctx [] ys w = refl
roll_back-append nodes ctx (x ∷ xs) ys w = roll_back-append nodes ctx xs ys _

roll_back-undone :
    {W : Type 0} (nodes : List (DurableNode W)) (ctx : DurableContext) (js : List JournalRow)
    (w : W)
    → roll_back nodes ctx (reverse (map (λ j. j.step_name) js)) w ≡ undone nodes ctx js w
unfolding roll_back
roll_back-undone nodes ctx [] w = refl
roll_back-undone nodes ctx (j ∷ js) w =
    rw (reverse-cons) (rw (roll_back-append nodes ctx) (rw (roll_back-undone nodes ctx js w) refl))

-- A run that is compensating, of a registered workflow: `compensate` calls the compensators of its
-- completed steps in the reverse of the order in which they were completed, goes on past those that
-- throw, marks the run as failed, and changes nothing else.
pub compensate_lem :
    {W : Type 0} (env : Setup W) (id : String) (s : Engine W) (row : RunRow)
    (nodes : List (DurableNode W))
    → lookup id s.runs ≡ some row
    → row.status ≡ RunStatus.compensating
    → lookup row.workflow_name env.registry ≡ some nodes
    → (js : List JournalRow) × IsChronological js
      × Perm js (completed_rows id s.journal)
      × (compensate env id s ≡ (
        ok tt,
        record s {
          runs = Dict.insert id (record row { status = RunStatus.failed }) s.runs;
          app = undone nodes (context_for id row 1) js s.app;
        },
      ))
unfolding compensate transaction ◌>>=◌ select_run compensate_body compensate_run update_run to_undo
compensate_lem env id s row nodes found compensating registered =
    let js = by_completion (completed_rows id s.journal) in
    (
      js,
      by_completion-IsChronological (completed_rows id s.journal),
      by_completion-Perm (completed_rows id s.journal),
      ground (
        arith,
        found,
        compensating,
        registered,
        roll_back-undone nodes (context_for id row 1) js s.app,
      ),
    )
