-- ===== src/Queue/Worker/Table.antt =====
-- About the table of jobs of packages/queue/src/worker.ts: the row that a claim selects, and the rows
-- that an update or a deletion by identifier reaches.
use strav_1_x.Common.{
  ℕ, ◌==◌, String, Bool, true, not, ◌&&◌, ◌≡◌, refl, sym, ap, ◌⊎◌, inl, inr, none, some, List, [],
  ◌∷◌, ◌++◌, all, arith, Option-cases,
}
use strav_1_x.Queue.Jobs.{QueueRow}
use strav_1_x.Queue.Worker.{is_free, select_row, update_rows, delete_rows}

abbrev pub absent : ℕ → List QueueRow → Bool
absent id qs = all (λ q. not (q.job.id == id)) qs

abbrev pub distinct : List QueueRow → Bool
distinct [] = true
distinct (q ∷ qs) = absent q.job.id qs && distinct qs

pub absent-append :
    (id : ℕ) (xs ys : List QueueRow) → absent id (xs ++ ys) ≡ absent id xs && absent id ys
absent-append id [] ys = refl
absent-append id (x ∷ xs) ys = ground (arith, absent-append id xs ys)

-- Where a row stands.
abbrev pub Split : List QueueRow → QueueRow → Type 0
Split qs q = (before after : List QueueRow) × (qs ≡ before ++ q ∷ after)

select_row-step :
    (queues : List String) (now : ℕ) (p : QueueRow) (qs : List QueueRow) (q : QueueRow)
    → select_row queues now (p ∷ qs) ≡ some q
    → (p ≡ q) × (is_free queues now p ≡ true) ⊎ (select_row queues now qs ≡ some q)
unfolding select_row
select_row-step queues now p qs q h = elim (Option-cases (select_row queues now qs)) [
  | inl e ↦ ground (arith, h, e)
  | inr (r, e) ↦ ground (arith, h, e)
]

-- The row that is selected stands in the table and is free.
pub select_row-some :
    (queues : List String) (now : ℕ) (qs : List QueueRow) (q : QueueRow)
    → select_row queues now qs ≡ some q
    → Split qs q × (is_free queues now q ≡ true)
unfolding select_row
select_row-some queues now [] q h = absurd cc
select_row-some queues now (p ∷ qs) q h = elim (select_row-step queues now p qs q h) [
  | inl (e, free) ↦ (([], qs, ap (λ r. r ∷ qs) e), rw (sym e) free)
  | inr e ↦
      let ((before, after, split), free) = select_row-some queues now qs q e in
      ((p ∷ before, after, ap (λ rs. p ∷ rs) split), free)
]

-- When none is selected, none is free.
pub select_row-none :
    (queues : List String) (now : ℕ) (qs : List QueueRow)
    → select_row queues now qs ≡ none
    → all (λ q. not (is_free queues now q)) qs ≡ true
unfolding select_row
select_row-none queues now [] h = refl
select_row-none queues now (p ∷ qs) h = ground (arith, h, select_row-none queues now qs)

module _ (id : ℕ) (f : QueueRow → QueueRow) where
  pub update_rows-append :
      (xs ys : List QueueRow)
      → update_rows id f (xs ++ ys) ≡ update_rows id f xs ++ update_rows id f ys
  unfolding update_rows
  update_rows-append [] ys = refl
  update_rows-append (x ∷ xs) ys = ground (arith, update_rows-append xs ys)

  pub update_rows-absent : (xs : List QueueRow) → absent id xs ≡ true → update_rows id f xs ≡ xs
  unfolding update_rows
  update_rows-absent [] h = refl
  update_rows-absent (x ∷ xs) h = ground (arith, h, update_rows-absent xs)

pub delete_rows-append :
    (id : ℕ) (xs ys : List QueueRow)
    → delete_rows id (xs ++ ys) ≡ delete_rows id xs ++ delete_rows id ys
unfolding delete_rows
delete_rows-append id [] ys = refl
delete_rows-append id (x ∷ xs) ys = ground (arith, delete_rows-append id xs ys)

pub delete_rows-absent :
    (id : ℕ) (xs : List QueueRow) → absent id xs ≡ true → delete_rows id xs ≡ xs
unfolding delete_rows
delete_rows-absent id [] h = refl
delete_rows-absent id (x ∷ xs) h = ground (arith, h, delete_rows-absent id xs)

module _ (q : QueueRow) (after : List QueueRow) where
  -- The other rows have other identifiers.
  pub distinct-absent :
      (before : List QueueRow)
      → distinct (before ++ q ∷ after) ≡ true
      → (absent q.job.id before ≡ true) × (absent q.job.id after ≡ true)
  distinct-absent [] h = ground (arith, h)
  distinct-absent (p ∷ before) h =
      ground (arith, h, absent-append p.job.id before (q ∷ after), distinct-absent before)

  -- A row may be left out.
  pub distinct-without :
      (before : List QueueRow)
      → distinct (before ++ q ∷ after) ≡ true
      → distinct (before ++ after) ≡ true
  distinct-without [] h = ground (arith, h)
  distinct-without (p ∷ before) h = ground (
    arith,
    h,
    absent-append p.job.id before (q ∷ after),
    absent-append p.job.id before after,
    distinct-without before,
  )

  -- A row may be replaced by one of the same identifier.
  pub distinct-with :
      (r : QueueRow) (before : List QueueRow)
      → r.job.id ≡ q.job.id
      → distinct (before ++ r ∷ after) ≡ distinct (before ++ q ∷ after)
  distinct-with r [] e = rw e refl
  distinct-with r (p ∷ before) e = ground (
    arith,
    e,
    absent-append p.job.id before (q ∷ after),
    absent-append p.job.id before (r ∷ after),
    distinct-with r before e,
  )

  module _ (before : List QueueRow) (h : distinct (before ++ q ∷ after) ≡ true) where
    pub update_rows-at :
        (f : QueueRow → QueueRow)
        → update_rows q.job.id f (before ++ q ∷ after) ≡ before ++ f q ∷ after
    unfolding update_rows
    update_rows-at f =
        let (b, a) = distinct-absent before h in
        ground (
          arith,
          update_rows-append q.job.id f before (q ∷ after),
          update_rows-absent q.job.id f before b,
          update_rows-absent q.job.id f after a,
        )

    pub delete_rows-at : delete_rows q.job.id (before ++ q ∷ after) ≡ before ++ after
    unfolding delete_rows
    delete_rows-at =
        let (b, a) = distinct-absent before h in
        ground (
          arith,
          delete_rows-append q.job.id before (q ∷ after),
          delete_rows-absent q.job.id before b,
          delete_rows-absent q.job.id after a,
        )
