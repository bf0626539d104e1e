-- ===== src/Database/Migrations/Tests.antt =====
-- Two migrations, out of order, that write down what they do.
use strav_1_x.Common.{◌==◌, Bool, String, ◌≡◌, some, refl, List, [], ◌∷◌, ◌++◌, ok, throws}
use strav_1_x.Database.Migrations.{
  AppliedMigration, Migration, Tracked, sort_by_name, apply_all, migrate, undo_all, rollback,
  register, already_registered, reversed, names_of, filter, last_batch, applied_rows,
}
use strav_1_x.Database.Migrations.Again.{migrate-again}
use strav_1_x.Database.Migrations.Back.{downs, remains, rollback-rows}

opened : Unit {0}
unfolding sort_by_name apply_all migrate undo_all rollback register
opened = tt

abbrev writes : String → String → Migration (List String)
writes name line = record {
  name = name;
  up = λ w. ok (w ++ line ∷ []);
  down = λ w. ok (w ++ "drop" ∷ line ∷ []);
}

abbrev migrations : List (Migration (List String))
migrations = writes "2_posts" "posts" ∷ writes "1_users" "users" ∷ []

abbrev empty_database : Tracked (List String)
empty_database = record { rows = []; world = [] }

abbrev migrated : Tracked (List String)
migrated = (migrate migrations empty_database).1

in_order : migrated.world ≡ "users" ∷ "posts" ∷ []
unfolding opened
in_order = refl

undone :
    (rollback migrations migrated).0 ≡ ok (record { names = "2_posts" ∷ "1_users" ∷ []; batch = 1 })
unfolding opened
undone = refl

undone_rows : (rollback migrations migrated).1.rows ≡ []
unfolding opened
undone_rows = refl

-- A migration that throws leaves those before it applied.
stopped :
    (migrate
      (record (writes "3_tags" "tags") { up = λ w. throws "down" } ∷ migrations)
      empty_database)
    ≡ (throws "down", migrated)
unfolding opened
stopped = refl

twice : register (writes "1_users" "again") migrations ≡ throws (already_registered "1_users")
unfolding opened
twice = refl

migrate-again_example :
    migrate migrations migrated ≡ (ok (record { names = []; batch = 2 }), migrated)
unfolding opened
migrate-again_example =
    migrate-again migrations empty_database migrated
      (record { names = "1_users" ∷ "2_posts" ∷ []; batch = 1 }) refl

abbrev in_last : AppliedMigration → Bool
in_last r = r.batch == last_batch migrated.rows

rollback-rows_example :
    ("2_posts" ∷ "1_users" ∷ [] ≡ reversed (names_of (filter in_last (applied_rows migrated))))
    × (downs migrations ("2_posts" ∷ "1_users" ∷ []) migrated.world
        ≡ some (rollback migrations migrated).1.world)
    × ((rollback migrations migrated).1.rows
        ≡ filter (remains ("2_posts" ∷ "1_users" ∷ [])) migrated.rows)
    × (filter in_last (rollback migrations migrated).1.rows ≡ [])
unfolding opened
rollback-rows_example =
    rollback-rows migrations migrated (rollback migrations migrated).1
      (record { names = "2_posts" ∷ "1_users" ∷ []; batch = 1 }) refl
