-- ===== src/Database/Migrations.antt =====
-- `MigrationRunner` of packages/database/src/migrations/runner.ts. The tracking table is a list of rows,
-- and `W` is the rest of the database, which `up` and `down` change; a transaction that throws changes
-- nothing. Names are compared by their code points, in the runner and in the table's ORDER BY.
pub mod Again
pub mod Back
pub mod Tests
use strav_1_x.Common.{
  ℕ, suc, max, String, Bool, true, false, not, Option, none, some, List, [], ◌∷◌, ◌++◌, map,
  includes, Result, ok, throws, if◌then◌else◌, str_eq, ◌==◌, ◌+++◌,
}
use text.Mathlib.Text.{is_lt}
use Prim.Native.String.{compare}

pub record Migration (W : Type 0) : Type 0 where
  pub name : String
  pub up : W → Result String W
  pub down : W → Result String W

pub record AppliedMigration : Type 0 where
  pub name : String
  pub batch : ℕ

pub record Tracked (W : Type 0) : Type 0 where
  pub rows : List AppliedMigration
  pub world : W

-- `MigrationRunResult` and `MigrationRollbackResult`
pub record Batch : Type 0 where
  pub names : List String
  pub batch : ℕ

pub record MigrationStatus : Type 0 where
  pub applied : List AppliedMigration
  pub pending : List String

abbrev pub comes_before : String → String → Bool
comes_before s t = is_lt (compare s t)

module _ {A : Type 0} (name_of : A → String) where
  -- A stable sort by name.
  abbrev pub sorted_in : A → List A → List A
  sorted_in a [] = a ∷ []
  sorted_in a (b ∷ bs) =
      let rest = sorted_in a bs in
      if comes_before (name_of b) (name_of a) then b ∷ rest else a ∷ b ∷ bs

  unfoldable pub sort_by_name : List A → List A
  sort_by_name [] = []
  sort_by_name (x ∷ xs) = sorted_in x (sort_by_name xs)

abbrev pub filter : {A : Type 0} → (A → Bool) → List A → List A
filter p [] = []
filter p (x ∷ xs) = let rest = filter p xs in if p x then x ∷ rest else rest

abbrev pub reversed : {A : Type 0} → List A → List A
reversed [] = []
reversed (x ∷ xs) = reversed xs ++ x ∷ []

abbrev pub names_of : List AppliedMigration → List String
names_of rows = map (λ r. r.name) rows

-- `COALESCE(MAX(batch), 0)`
abbrev pub last_batch : List AppliedMigration → ℕ
last_batch [] = 0
last_batch (r ∷ rs) = max r.batch (last_batch rs)

abbrev pub next_batch : List AppliedMigration → ℕ
next_batch rows = suc (last_batch rows)

abbrev pub already_registered : String → String
already_registered name = "MigrationRunner: migration \"" +++ name +++ "\" is already registered."

abbrev pub not_registered : String → String
not_registered name =
    "MigrationRunner: applied migration \"" +++ name
    +++ "\" is not registered. Register every historical migration before rolling back."

-- The primary key refuses a name that has a row.
abbrev pub duplicate_key : String
duplicate_key = "duplicate key value violates unique constraint"

abbrev pub delete_name : String → List AppliedMigration → List AppliedMigration
delete_name name rows = filter (λ r. not (str_eq r.name name)) rows

module _ {W : Type 0} where
  abbrev pub find : String → List (Migration W) → Option (Migration W)
  find name [] = none
  find name (m ∷ ms) = if str_eq m.name name then some m else find name ms

  unfoldable pub register : Migration W → List (Migration W) → Result String (List (Migration W))
  register m ms =
      if includes m.name (map (λ m. m.name) ms)
      then throws (already_registered m.name)
      else ok (ms ++ m ∷ [])

  abbrev pub list_migrations : List (Migration W) → List (Migration W)
  list_migrations ms = sort_by_name (λ m. m.name) ms

  abbrev pub applied_rows : Tracked W → List AppliedMigration
  applied_rows db = sort_by_name (λ r. r.name) db.rows

  abbrev pub tracked : String → ℕ → Tracked W → Result String W → Result String (Tracked W)
  tracked name batch db (throws e) = throws e
  tracked name batch db (ok w) =
      if includes name (names_of db.rows)
      then throws duplicate_key
      else ok (record { rows = db.rows ++ (record { name = name; batch = batch }) ∷ []; world = w })

  -- The loop of `migrate`; what was committed stays when a migration throws.
  unfoldable pub apply_all :
      ℕ → List (Migration W) → List String → Tracked W → Result String (List String) × Tracked W
  apply_all batch [] names db = (ok names, db)
  apply_all batch (m ∷ ms) names db = elim (tracked m.name batch db (m.up db.world)) [
    | throws e ↦ (throws e, db)
    | ok db' ↦ apply_all batch ms (names ++ m.name ∷ []) db'
  ]

  abbrev pub pending_of : List (Migration W) → Tracked W → List (Migration W)
  pending_of ms db =
      filter (λ m. not (includes m.name (names_of (applied_rows db)))) (list_migrations ms)

  abbrev pub in_batch :
      ℕ → Result String (List String) × Tracked W → Result String Batch × Tracked W
  in_batch batch (throws e, db) = (throws e, db)
  in_batch batch (ok names, db) = (ok (record { names = names; batch = batch }), db)

  unfoldable pub migrate : List (Migration W) → Tracked W → Result String Batch × Tracked W
  migrate ms db =
      in_batch (next_batch db.rows) (apply_all (next_batch db.rows) (pending_of ms db) [] db)

  abbrev pub undone : String → Tracked W → Result String W → Result String (Tracked W)
  undone name db (throws e) = throws e
  undone name db (ok w) = ok (record { rows = delete_name name db.rows; world = w })

  abbrev pub undo_one : List (Migration W) → String → Tracked W → Result String (Tracked W)
  undo_one ms name db = elim (find name ms) [
    | none ↦ throws (not_registered name)
    | some m ↦ undone name db (m.down db.world)
  ]

  -- The loop of `rollback`.
  unfoldable pub undo_all :
      List (Migration W)
      → List String
      → List String
      → Tracked W
      → Result String (List String) × Tracked W
  undo_all ms [] done db = (ok done, db)
  undo_all ms (name ∷ names) done db = elim (undo_one ms name db) [
    | throws e ↦ (throws e, db)
    | ok db' ↦ undo_all ms names (done ++ name ∷ []) db'
  ]

  -- The rows of the last batch, in descending order; no batch is 0.
  unfoldable pub rollback : List (Migration W) → Tracked W → Result String Batch × Tracked W
  rollback ms db =
      let last = last_batch db.rows in
      in_batch last
        (undo_all ms (reversed (names_of (filter (λ r. r.batch == last) (applied_rows db)))) [] db)

  abbrev pub status : List (Migration W) → Tracked W → MigrationStatus
  status ms db = record {
    applied = applied_rows db;
    pending = map (λ m. m.name) (pending_of ms db);
  }
