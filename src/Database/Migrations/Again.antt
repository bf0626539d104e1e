-- ===== src/Database/Migrations/Again.antt =====
-- About a second `migrate` of packages/database/src/migrations/runner.ts.
use strav_1_x.Common.{
  ℕ, String, Bool, true, false, not, ◌||◌, ◌≡◌, refl, sym, ap, ◌∙◌, List, [], ◌∷◌, ◌++◌, includes,
  includes-append, all, Result, ok, throws, str_eq, eq_iff, arith, Result-cases, ok-injective,
  Bool-cases, inl, inr,
}
use strav_1_x.Database.Migrations.{
  Migration, AppliedMigration, Tracked, Batch, sorted_in, sort_by_name, filter, names_of,
  next_batch, list_migrations, applied_rows, tracked, apply_all, pending_of, migrate, in_batch,
}

names_of-append : (xs ys : List AppliedMigration) → names_of (xs ++ ys) ≡ names_of xs ++ names_of ys
names_of-append [] ys = refl
names_of-append (x ∷ xs) ys = ap (λ ns. x.name ∷ ns) (names_of-append xs ys)

-- A sort keeps the names.
includes-sorted_in :
    (name : String) (r : AppliedMigration) (rows : List AppliedMigration)
    → includes name (names_of (sorted_in (λ r. r.name) r rows))
      ≡ includes name (names_of (r ∷ rows))
includes-sorted_in name r [] = refl
includes-sorted_in name r (q ∷ rows) = ground (arith, includes-sorted_in name r rows)

includes-sort_by_name :
    (name : String) (rows : List AppliedMigration)
    → includes name (names_of (sort_by_name (λ r. r.name) rows)) ≡ includes name (names_of rows)
unfolding sort_by_name
includes-sort_by_name name [] = refl
includes-sort_by_name name (r ∷ rows) =
    includes-sorted_in name r (sort_by_name (λ r. r.name) rows)
    ∙ ap (λ b. str_eq r.name name || b) (includes-sort_by_name name rows)

module _ {W : Type 0} where
  abbrev has_row : Tracked W → Migration W → Bool
  has_row db m = includes m.name (names_of db.rows)

  tracked-row :
      (name : String) (batch : ℕ) (db db' : Tracked W) (o : Result String W)
      → tracked name batch db o ≡ ok db'
      → (sought : String)
      → includes sought (names_of db'.rows)
        ≡ includes sought (names_of db.rows) || str_eq name sought
  tracked-row name batch db db' (throws e) h sought = absurd cc
  tracked-row name batch db db' (ok w) h sought =
      elim (Bool-cases (includes name (names_of db.rows))) [
        | inl e ↦ absurd (ground (arith, h, e))
        | inr e ↦
            let row : AppliedMigration = record { name = name; batch = batch } in
            let same =
              ok-injective (record { rows = db.rows ++ row ∷ []; world = w }) db' (rw e at h) in
            rw (sym same) (
              ground (
                arith,
                ap (includes sought) (names_of-append db.rows (row ∷ [])),
                includes-append sought (names_of db.rows) (name ∷ []),
              ))
      ]

  -- After the loop the rows of before are there, and those of all that it went through.
  apply_all-rows :
      (batch : ℕ) (ms : List (Migration W)) (names done : List String) (db db' : Tracked W)
      → apply_all batch ms names db ≡ (ok done, db')
      → ((m : Migration W) → has_row db m ≡ true → has_row db' m ≡ true)
        × (all (has_row db') ms ≡ true)
  unfolding apply_all
  apply_all-rows batch [] names done db db' h =
      let same : db ≡ db' = ap (λ x. x.1) h in (λ m k. rw (sym same) k, refl)
  apply_all-rows batch (m ∷ ms) names done db db' h =
      elim (Result-cases (tracked m.name batch db (m.up db.world))) [
        | inl (db1, e) ↦
            let (keeps, rest) =
              apply_all-rows batch ms (names ++ m.name ∷ []) done db1 db'
                (rw (e, apply_all) at h) in
            let row = tracked-row m.name batch db db1 (m.up db.world) e in
            (
              λ m' k. keeps m' (ground (arith, k, row m'.name)),
              ground (arith, rest, keeps m (ground (arith, row m.name, eq_iff m.name m.name))),
            )
        | inr (x, e) ↦ absurd (ground (arith, h, e))
      ]

  all-filter :
      (p q : Migration W → Bool) (ms : List (Migration W))
      → all q (filter p ms) ≡ true
      → ((m : Migration W) → p m ≡ false → q m ≡ true)
      → all q ms ≡ true
  all-filter p q [] h k = refl
  all-filter p q (m ∷ ms) h k = ground (arith, h, k m, all-filter p q ms)

  filter-none :
      (p q : Migration W → Bool) (ms : List (Migration W))
      → all q ms ≡ true
      → ((m : Migration W) → q m ≡ true → p m ≡ false)
      → filter p ms ≡ []
  filter-none p q [] h k = refl
  filter-none p q (m ∷ ms) h k = ground (arith, h, k m, filter-none p q ms)

  pub in_batch-ok :
      (batch : ℕ) (p : Result String (List String) × Tracked W) (b : Batch) (db' : Tracked W)
      → in_batch batch p ≡ (ok b, db')
      → p ≡ (ok b.names, db')
  in_batch-ok batch (throws e, db) b db' h = absurd cc
  in_batch-ok batch (ok names, db) b db' h =
      let same = ok-injective (record { names = names; batch = batch }) b (ap (λ x. x.0) h) in
      let world : db ≡ db' = ap (λ x. x.1) h in rw (sym same, sym world) refl

-- After a `migrate` that returned, a second one with the same migrations applies nothing and changes
-- nothing.
pub migrate-again :
    {W : Type 0} (ms : List (Migration W)) (db db' : Tracked W) (b : Batch)
    → migrate ms db ≡ (ok b, db')
    → migrate ms db' ≡ (ok (record { names = []; batch = next_batch db'.rows }), db')
unfolding migrate apply_all
migrate-again {W} ms db db' b h =
    let ran =
      in_batch-ok (next_batch db.rows) (apply_all (next_batch db.rows) (pending_of ms db) [] db) b
        db' h in
    let (keeps, rows) =
      apply_all-rows (next_batch db.rows) (pending_of ms db) [] b.names db db' ran in
    let is_pending : Tracked W → Migration W → Bool =
      λ t m. not (includes m.name (names_of (applied_rows t))) in
    let everything : all (has_row db') (list_migrations ms) ≡ true =
      all-filter (is_pending db) (has_row db') (list_migrations ms) rows
        (λ m k. keeps m (ground (arith, k, includes-sort_by_name m.name db.rows))) in
    let nothing : pending_of ms db' ≡ [] =
      filter-none (is_pending db') (has_row db') (list_migrations ms) everything
        (λ m k. ground (arith, k, includes-sort_by_name m.name db'.rows)) in
    rw nothing refl
