-- ===== src/Database/Migrations/Back.antt =====
-- About `rollback` of packages/database/src/migrations/runner.ts: the rows that it leaves.
use strav_1_x.Common.{
  Option, none, some, String, Bool, true, not, ◌&&◌, ◌≡◌, refl, sym, ap, ◌∙◌, List, [], ◌∷◌, ◌++◌,
  includes, includes-append, append_assoc, append-nil, ◌==◌, Result, ok, throws, str_eq, eq_iff,
  arith, Result-cases, Option-cases, ok-injective, inl, inr,
}
use strav_1_x.Database.Migrations.{
  Migration, AppliedMigration, Tracked, Batch, sorted_in, sort_by_name, filter, names_of, reversed,
  last_batch, applied_rows, undo_one, undo_all, undone, find, delete_name, rollback,
}
use strav_1_x.Database.Migrations.Again.{in_batch-ok}

abbrev pub remains : List String → AppliedMigration → Bool
remains names r = not (includes r.name names)

filter-filter :
    (p q f : AppliedMigration → Bool) (rows : List AppliedMigration)
    → ((r : AppliedMigration) → f r ≡ p r && q r)
    → filter q (filter p rows) ≡ filter f rows
filter-filter p q f [] h = refl
filter-filter p q f (r ∷ rows) h = ground (arith, h r, filter-filter p q f rows h)

filter-all : (rows : List AppliedMigration) → filter (λ r. true) rows ≡ rows
filter-all [] = refl
filter-all (r ∷ rows) = ap (λ rs. r ∷ rs) (filter-all rows)

-- A sort and a reversal keep the names.
includes-filter-sorted_in :
    (p : AppliedMigration → Bool) (name : String) (r : AppliedMigration)
    (rows : List AppliedMigration)
    → includes name (names_of (filter p (sorted_in (λ r. r.name) r rows)))
      ≡ includes name (names_of (filter p (r ∷ rows)))
includes-filter-sorted_in p name r [] = refl
includes-filter-sorted_in p name r (q ∷ rows) =
    ground (arith, includes-filter-sorted_in p name r rows)

filter-includes :
    (p : AppliedMigration → Bool) (name : String) (r : AppliedMigration)
    (xs ys : List AppliedMigration)
    → includes name (names_of (filter p xs)) ≡ includes name (names_of (filter p ys))
    → includes name (names_of (filter p (r ∷ xs))) ≡ includes name (names_of (filter p (r ∷ ys)))
filter-includes p name r xs ys h = ground (arith, h)

includes-filter-sort_by_name :
    (p : AppliedMigration → Bool) (name : String) (rows : List AppliedMigration)
    → includes name (names_of (filter p (sort_by_name (λ r. r.name) rows)))
      ≡ includes name (names_of (filter p rows))
unfolding sort_by_name
includes-filter-sort_by_name p name [] = refl
includes-filter-sort_by_name p name (r ∷ rows) =
    includes-filter-sorted_in p name r (sort_by_name (λ r. r.name) rows)
    ∙ filter-includes p name r (sort_by_name (λ r. r.name) rows) rows
        (includes-filter-sort_by_name p name rows)

includes-reversed :
    (name : String) (names : List String) → includes name (reversed names) ≡ includes name names
includes-reversed name [] = refl
includes-reversed name (n ∷ names) =
    ground (arith, includes-append name (reversed names) (n ∷ []), includes-reversed name names)

-- None remains of the rows whose names are all taken.
filter-none_left :
    (p : AppliedMigration → Bool) (names : List String) (rows : List AppliedMigration)
    → ((name : String)
        → includes name (names_of (filter p rows)) ≡ true
        → includes name names ≡ true)
    → filter p (filter (remains names) rows) ≡ []
filter-none_left p names [] h = refl
filter-none_left p names (r ∷ rows) h =
    let later = filter-none_left p names rows (λ name k. h name (ground (arith, k))) in
    ground (arith, later, h r.name, eq_iff r.name r.name)

module _ {W : Type 0} (ms : List (Migration W)) where
  -- The `down` of each name in turn, on what the one before it left, if none throws.
  abbrev pub downs : List String → W → Option W
  downs [] w = some w
  downs (name ∷ names) w = elim (find name ms) [
    | none ↦ none
    | some m ↦ elim (m.down w) [ throws e ↦ none | ok w' ↦ downs names w' ]
  ]

  downs-next :
      (name : String) (names : List String) (m : Migration W) (w w' : W)
      → find name ms ≡ some m
      → m.down w ≡ ok w'
      → downs (name ∷ names) w ≡ downs names w'
  downs-next name names m w w' found ran = ground (arith, found, ran)

  undone-ok :
      (name : String) (db db' : Tracked W) (o : Result String W)
      → undone name db o ≡ ok db'
      → (o ≡ ok db'.world) × (db'.rows ≡ delete_name name db.rows)
  undone-ok name db db' (throws e) h = absurd cc
  undone-ok name db db' (ok w) h =
      let same = sym (ok-injective _ db' h) in
      (sym (ap (λ db. ok db.world) same), ap (λ db. db.rows) same)

  undo_one-ok :
      (name : String) (db db' : Tracked W)
      → undo_one ms name db ≡ ok db'
      → (m : Migration W) × (find name ms ≡ some m)
        × (m.down db.world ≡ ok db'.world)
        × (db'.rows ≡ delete_name name db.rows)
  undo_one-ok name db db' h = elim (Option-cases (find name ms)) [
    | inl e ↦ absurd (ground (arith, h, e))
    | inr (m, e) ↦
        let (ran, deleted) = undone-ok name db db' (m.down db.world) (rw (undo_one, e) at h) in
        (m, e, ran, deleted)
  ]

  undo_all-ok :
      (names done all : List String) (db db' : Tracked W)
      → undo_all ms names done db ≡ (ok all, db')
      → (all ≡ done ++ names)
        × (db'.rows ≡ filter (remains names) db.rows)
        × (downs names db.world ≡ some db'.world)
  unfolding undo_all
  undo_all-ok [] done all db db' h =
      let same : db ≡ db' = ap (λ x. x.1) h in
      (
        sym (ok-injective {E = String} done all (ap (λ x. x.0) h)) ∙ sym (append-nil done),
        rw (sym same) (sym (filter-all db.rows)),
        ap (λ db. some db.world) same,
      )
  undo_all-ok (name ∷ names) done all db db' h = elim (Result-cases (undo_one ms name db)) [
    | inl (db1, e) ↦
        let (a, r, w) = undo_all-ok names (done ++ name ∷ []) all db1 db' (rw (e, undo_all) at h) in
        let (m, found, ran, deleted) = undo_one-ok name db db1 e in
        (
          a ∙ append_assoc done (name ∷ []) names,
          r
              ∙ ap (filter (remains names)) deleted
              ∙ filter-filter (λ r. not (str_eq r.name name)) (remains names)
                  (remains (name ∷ names)) db.rows
                  (λ r. ground (arith, eq_iff r.name name, eq_iff name r.name)),
          downs-next name names m db.world db1.world found ran ∙ w,
        )
    | inr (x, e) ↦ absurd (ground (arith, h, e))
  ]

-- A `rollback` that returned answers the names of the last batch, the last name first. It ran the `down`
-- of each of them in that order, none threw, and the database is as the last one left it; it took away
-- the rows of those names and no others, and left none of that batch.
pub rollback-rows :
    {W : Type 0} (ms : List (Migration W)) (db db' : Tracked W) (b : Batch)
    → rollback ms db ≡ (ok b, db')
    → (b.names
        ≡ reversed (names_of (filter (λ r. r.batch == last_batch db.rows) (applied_rows db))))
      × (downs ms b.names db.world ≡ some db'.world)
      × (db'.rows ≡ filter (remains b.names) db.rows)
      × (filter (λ r. r.batch == last_batch db.rows) db'.rows ≡ [])
unfolding rollback
rollback-rows ms db db' b h =
    let in_last : AppliedMigration → Bool = λ r. r.batch == last_batch db.rows in
    let names = reversed (names_of (filter in_last (applied_rows db))) in
    let ran = in_batch-ok (last_batch db.rows) (undo_all ms names [] db) b db' h in
    let (e, r, w) = undo_all-ok ms names [] b.names db db' ran in
    (
      e,
      rw e w,
      rw e r,
      rw r (
          filter-none_left in_last names db.rows (λ name k.
            includes-reversed name (names_of (filter in_last (applied_rows db)))
            ∙ includes-filter-sort_by_name in_last name db.rows
            ∙ k)),
    )
