-- ===== src/Durable/Engine.antt =====
-- What the engine of packages/durable/src/durable_runner.ts works on: the two tables, the queue, and
-- the application. `db.transaction` rolls the tables back when its body throws. The queue inserts
-- through the ambient transaction of a `UnitOfWork`; `db.transaction` opens none, so a dispatched
-- job stays dispatched.
use strav_1_x.Common.{
  ℕ, suc, String, Bool, true, false, ◌&&◌, Option, none, some, List, [], ◌∷◌, ◌++◌, Result, ok,
  throws, str_eq, if◌then◌else◌,
}
use strav_1_x.Common.Dict
use strav_1_x.Common.Dict.{Dict, lookup}
use strav_1_x.Durable.Types.{DurableNode, RunRow, JournalRow}

pub data JobName : Type 0 where
  advance_job compensate_job : JobName

-- A dispatched job; its delay is in milliseconds.
pub record Message : Type 0 where
  pub job : JobName
  pub run_id : String
  pub delay : ℕ

pub data Fault : Type 0 where
  run_not_found : String → Fault
  workflow_not_registered : String → Fault
  unique_violation : Fault
  thrown : String → Fault

pub record Engine (W : Type 0) : Type 0 where
  pub runs : Dict RunRow
  pub journal : List JournalRow
  pub queue : List Message
  pub ids_used : ℕ
  pub app : W

-- What the runner is given: the registered workflows, the identifiers that `ulid` returns one after
-- another, whether the unique index on (run_id, step_name) was created, and which of the
-- rejections of a `Promise.all` arrives first.
pub record Setup (W : Type 0) : Type 0 where
  pub registry : Dict (List (DurableNode W))
  pub ulid : ℕ → String
  pub journal_is_unique : Bool
  pub first_rejection : String → List String → String

-- A statement of a transaction: it may throw.
abbrev pub Statement : Type 0 → Type 0 → Type 0
Statement W A = Engine W → Result Fault A × Engine W

module _ {W : Type 0} where
  abbrev pub continue_with :
      {A B : Type 0} → (A → Statement W B) → Result Fault A × Engine W → Result Fault B × Engine W
  continue_with f (ok a, s) = f a s
  continue_with f (throws e, s) = (throws e, s)

  infixl 5 ◌>>=◌ ◌>>◌
  unfoldable pub ◌>>=◌ : {A B : Type 0} → Statement W A → (A → Statement W B) → Statement W B
  ◌>>=◌ m f s = continue_with f (m s)

  abbrev pub ◌>>◌ : {B : Type 0} → Statement W (Unit {0}) → Statement W B → Statement W B
  m >> k = m >>= λ _. k

  abbrev pub pure : {A : Type 0} → A → Statement W A
  pure a s = (ok a, s)

  abbrev pub fail : {A : Type 0} → Fault → Statement W A
  fail e s = (throws e, s)

  abbrev pub commit :
      {A : Type 0} → Engine W → Result Fault A × Engine W → Result Fault A × Engine W
  commit s (ok a, s') = (ok a, s')
  commit s (throws e, s') = (throws e, record s' { runs = s.runs; journal = s.journal })

  unfoldable pub transaction : {A : Type 0} → Statement W A → Statement W A
  transaction body s = commit s (body s)

  -- `SELECT … FROM strav_workflow_runs WHERE id = $1`, with the throw on a missing row.
  unfoldable pub select_run : String → Statement W RunRow
  select_run id s = elim (lookup id s.runs) [
    | none ↦ (throws (run_not_found id), s)
    | some row ↦ (ok row, s)
  ]

  -- `UPDATE strav_workflow_runs SET … WHERE id = $1`; without such a row nothing is changed.
  unfoldable pub update_run : String → (RunRow → RunRow) → Statement W (Unit {0})
  update_run id change s = elim (lookup id s.runs) [
    | none ↦ (ok tt, s)
    | some row ↦ (ok tt, record s { runs = Dict.insert id (change row) s.runs })
  ]

  -- `INSERT INTO strav_workflow_runs`: `id` is the primary key.
  unfoldable pub insert_run : String → RunRow → Statement W (Unit {0})
  insert_run id row s = elim (lookup id s.runs) [
    | none ↦ (ok tt, record s { runs = Dict.insert id row s.runs })
    | some other ↦ (throws unique_violation, s)
  ]

  abbrev pub dispatch_later : ℕ → JobName → String → Statement W (Unit {0})
  dispatch_later delay job id s = (
    ok tt,
    record s { queue = s.queue ++ (record { job = job; run_id = id; delay = delay }) ∷ [] },
  )

  abbrev pub dispatch : JobName → String → Statement W (Unit {0})
  dispatch = dispatch_later 0

abbrev pub is_row : String → String → JournalRow → Bool
is_row id name j = str_eq j.run_id id && str_eq j.step_name name

-- `SELECT … FROM strav_workflow_journal WHERE run_id = $1 AND step_name = $2`: the first row.
unfoldable pub find_row : String → String → List JournalRow → Option JournalRow
find_row id name [] = none
find_row id name (j ∷ js) = if is_row id name j then some j else find_row id name js

abbrev pub is_some : Option JournalRow → Bool
is_some none = false
is_some (some j) = true

-- `INSERT INTO strav_workflow_journal`, each with a fresh identifier.
unfoldable pub insert_row :
    {W : Type 0} → Bool → JournalRow → Engine W → Result Fault (Unit {0}) × Engine W
insert_row unique j s =
    if unique && is_some (find_row j.run_id j.step_name s.journal)
    then (throws unique_violation, s)
    else (ok tt, record s { journal = s.journal ++ j ∷ []; ids_used = suc s.ids_used })
