-- ===== src/Queue/Worker/Issued.antt =====
-- About the identifiers in the table of packages/queue/src/worker.ts, under the polls and the dispatches.
use strav_1_x.Common.{
  Bool, ◌&&◌, ℕ, ◌+◌, ◌*◌, suc, true, ◌≡◌, refl, sym, ◌∙◌, inl, inr, none, [], ◌∷◌, ◌++◌, List,
  arith,
}
use strav_1_x.Queue.Jobs.{QueueRow, Broker, Request, new_job, insert_job, insert_each}
use strav_1_x.Queue.Worker.{Setup, process_one}
use strav_1_x.Queue.Worker.Table.{distinct, distinct-with, distinct-without, absent-append}
use strav_1_x.Queue.Worker.Kept.{below, below-append, below-weaken}
use strav_1_x.Queue.Worker.Polls.{Polled, gone, due, unmade, process_one-cases, process_one-ids}

-- The identifiers of the table were given out, each to one row.
abbrev pub is_issued : {W : Type 0} → Broker W → Bool
is_issued b = below b.ids_used b.jobs && distinct b.jobs

distinct-new :
    (n : ℕ) (r : QueueRow) (qs : List QueueRow)
    → r.job.id ≡ n
    → below n qs ≡ true
    → distinct qs ≡ true
    → distinct (qs ++ r ∷ []) ≡ true
distinct-new n r [] e h d = refl
distinct-new n r (q ∷ qs) e h d =
    ground (arith, e, h, d, absent-append q.job.id qs (r ∷ []), distinct-new n r qs)

below-change :
    (n : ℕ) (q r : QueueRow) (before after : List QueueRow)
    → r.job.id ≡ q.job.id
    → below n (before ++ q ∷ after) ≡ true
    → below n (before ++ r ∷ after) ≡ true
below-change n q r before after same h =
    ground (arith, same, h, below-append n before (q ∷ after), below-append n before (r ∷ after))

below-without :
    (n : ℕ) (q : QueueRow) (before after : List QueueRow)
    → below n (before ++ q ∷ after) ≡ true
    → below n (before ++ after) ≡ true
below-without n q before after h =
    ground (arith, h, below-append n before (q ∷ after), below-append n before after)

module _ {W : Type 0} where
  abbrev pub new_row : Request W → ℕ → QueueRow
  new_row r id = record {
    job = new_job r.defaults r.cls r.payload r.options id;
    available_at = r.now + r.delay * 1000;
    reserved_at = none;
  }

  insert_job-is_issued :
      (r : Request W) (b : Broker W)
      → is_issued b ≡ true
      → is_issued (insert_job r.defaults r.now r.cls r.payload r.delay r.options b).1 ≡ true
  unfolding insert_job
  insert_job-is_issued r b h =
      let row = new_row r b.ids_used in
      let table : below b.ids_used b.jobs ≡ true = ground (arith, h) in
      let single : distinct b.jobs ≡ true = ground (arith, h) in
      ground (
        arith,
        distinct-new b.ids_used row b.jobs refl table single,
        below-append (suc b.ids_used) b.jobs (row ∷ []),
        below-weaken b.ids_used (suc b.ids_used) b.jobs (omega arith) table,
      )

  pub insert_each-is_issued :
      (rs : List (Request W)) (b : Broker W)
      → is_issued b ≡ true
      → is_issued (insert_each rs b) ≡ true
  unfolding insert_job
  insert_each-is_issued [] b h = h
  insert_each-is_issued (r ∷ rs) b h =
      insert_each-is_issued rs (insert_job r.defaults r.now r.cls r.payload r.delay r.options b).1
        (insert_job-is_issued r b h)

module _ {W : Type 0} (env : Setup W) where
  pub Polled-distinct :
      (now later : ℕ) (b b' : Broker W) (q : QueueRow) (before after : List QueueRow)
      → distinct (before ++ q ∷ after) ≡ true
      → Polled env now later b b' q before after
      → distinct b'.jobs ≡ true
  Polled-distinct now later b b' q before after d (gone e) =
      rw e (distinct-without q after before d)
  Polled-distinct now later b b' q before after d (due cls s lt e) =
      rw e (distinct-with q after _ before refl ∙ d)
  Polled-distinct now later b b' q before after d (unmade cls w error t s e) =
      rw e (distinct-with q after _ before refl ∙ d)

  Polled-below :
      (n now later : ℕ) (b b' : Broker W) (q : QueueRow) (before after : List QueueRow)
      → below n (before ++ q ∷ after) ≡ true
      → Polled env now later b b' q before after
      → below n b'.jobs ≡ true
  Polled-below n now later b b' q before after h (gone e) = rw e (below-without n q before after h)
  Polled-below n now later b b' q before after h (due cls s lt e) =
      rw e (below-change n q _ before after refl h)
  Polled-below n now later b b' q before after h (unmade cls w error t s e) =
      rw e (below-change n q _ before after refl h)

  pub process_one-is_issued :
      (now later : ℕ) (b : Broker W)
      → is_issued b ≡ true
      → is_issued (process_one env now later b).1 ≡ true
  process_one-is_issued now later b h =
      let table : below b.ids_used b.jobs ≡ true = ground (arith, h) in
      let single : distinct b.jobs ≡ true = ground (arith, h) in
      elim (process_one-cases env now later b single) [
        | inl (e, same) ↦ rw same h
        | inr (q, before, after, split, free, f, p) ↦
            let b' = (process_one env now later b).1 in
            let kept =
              Polled-below b.ids_used now later b b' q before after (rw (sym split) table) p in
            ground (
              arith,
              below-weaken b.ids_used b'.ids_used b'.jobs (process_one-ids env now later b) kept,
              Polled-distinct now later b b' q before after (rw (sym split) single) p,
            )
      ]
