-- ===== src/Queue/Worker/Budget.antt =====
-- About how long `run` of packages/queue/src/worker.ts finds work: the attempts that a table has left.
use strav_1_x.Common.{
  false, ℕ, ◌+◌, ◌-◌, ◌*◌, suc, ◌<◌, ◌≤◌, max, String, true, ◌≡◌, refl, ap, inl, inr, Option, none,
  some, [], ◌∷◌, ◌++◌, List, Option-cases, Result, arith, if◌then◌else◌,
}
use strav_1_x.Common.Dict.{lookup}
use strav_1_x.Queue.Jobs.{
  QueueRow, JobRow, Broker, JobClass, Request, new_job, insert_job, insert_each,
}
use strav_1_x.Queue.Worker.{
  Setup, Poll, with_attempt, is_free, is_reserved, process_one, run, found, reserve, release_at,
  limit_of, delay_of, JobResult,
}
use strav_1_x.Queue.Worker.Polls.{Polled, gone, due, unmade, process_one-cases}
use strav_1_x.Queue.Worker.Issued.{is_issued, new_row, insert_each-is_issued, process_one-is_issued}

-- The polls that found a row.
abbrev pub count_found : List (Result String (Option JobResult)) → ℕ
count_found [] = 0
count_found (r ∷ rs) = if found r then suc (count_found rs) else count_found rs

module _ {W : Type 0} (env : Setup W) where
  abbrev tries_with : Option (JobClass W) → JobRow → ℕ
  tries_with none job = 1
  tries_with (some cls) job = max 1 (limit_of cls job - job.attempts)

  -- The attempts that a row has left: none while it is reserved.
  abbrev pub tries_left : QueueRow → ℕ
  tries_left q = if is_reserved q then 0 else tries_with (lookup q.job.job_name env.registry) q.job

  abbrev pub budget : List QueueRow → ℕ
  budget [] = 0
  budget (q ∷ qs) = tries_left q + budget qs

  budget-append : (xs ys : List QueueRow) → budget (xs ++ ys) ≡ budget xs + budget ys
  budget-append [] ys = omega arith
  budget-append (x ∷ xs) ys = omega (arith, budget-append xs ys)

  -- A free row has a try.
  pub free-tries :
      (queues : List String) (now : ℕ) (q : QueueRow)
      → is_free queues now q ≡ true
      → 1 ≤ tries_left q
  free-tries queues now q h = elim (Option-cases (lookup q.job.job_name env.registry)) [
    | inl e ↦ ground (arith, h, e)
    | inr (cls, e) ↦ ground (arith, h, e)
  ]

  due-tries :
      (queues : List String) (now t : ℕ) (q : QueueRow) (cls : JobClass W)
      → is_free queues now q ≡ true
      → lookup q.job.job_name env.registry ≡ some cls
      → suc q.job.attempts < limit_of cls q.job
      → tries_left (release_at t (reserve now q)) < tries_left q
  due-tries queues now t q cls h e lt = ground (arith, h, e, lt)

  pub Polled-budget :
      (now later : ℕ) (b b' : Broker W) (q : QueueRow) (before after : List QueueRow)
      → is_free env.queues now q ≡ true
      → Polled env now later b b' q before after
      → budget b'.jobs < budget (before ++ q ∷ after)
  Polled-budget now later b b' q before after free (gone e) = omega (
    arith,
    ap budget e,
    budget-append before after,
    budget-append before (q ∷ after),
    free-tries env.queues now q free,
  )
  Polled-budget now later b b' q before after free (due cls s lt e) =
      let r = release_at (later + delay_of env cls (with_attempt q.job) * 1000) (reserve now q) in
      omega (
        arith,
        ap budget e,
        budget-append before (r ∷ after),
        budget-append before (q ∷ after),
        due-tries env.queues now (later + delay_of env cls (with_attempt q.job) * 1000) q cls free s
            lt,
      )
  Polled-budget now later b b' q before after free (unmade cls w error t s e) = omega (
    arith,
    ap budget e,
    budget-append before (reserve now q ∷ after),
    budget-append before (q ∷ after),
    free-tries env.queues now q free,
  )

  -- The attempts that a dispatch brings.
  abbrev pub tries_for : Request W → ℕ
  tries_for r =
      tries_with (lookup r.cls.job_name env.registry)
        (new_job r.defaults r.cls r.payload r.options 0)

  abbrev pub added : List (Request W) → ℕ
  added [] = 0
  added (r ∷ rs) = tries_for r + added rs

  abbrev pub added_by : List (Poll W) → ℕ
  added_by [] = 0
  added_by (p ∷ polls) = added p.dispatched + added_by polls

  tries_left-new : (r : Request W) (id : ℕ) → tries_left (new_row r id) ≡ tries_for r
  tries_left-new r id = elim (Option-cases (lookup r.cls.job_name env.registry)) [
    | inl e ↦ ground (arith, e)
    | inr (cls, e) ↦ ground (arith, e)
  ]

  insert_each-budget :
      (rs : List (Request W)) (b : Broker W)
      → budget (insert_each rs b).jobs ≡ budget b.jobs + added rs
  unfolding insert_job
  insert_each-budget [] b = omega arith
  insert_each-budget (r ∷ rs) b =
      let b' = (insert_job r.defaults r.now r.cls r.payload r.delay r.options b).1 in
      let row = new_row r b.ids_used in
      let jobs : b'.jobs ≡ b.jobs ++ row ∷ [] = refl in
      omega (
        arith,
        insert_each-budget rs b',
        ap budget jobs,
        budget-append b.jobs (row ∷ []),
        tries_left-new r b.ids_used,
      )

  -- However long a worker polls a table whose identifiers were given out, whatever the jobs do and
  -- whatever is dispatched meanwhile, by the jobs too: the polls that find a row, with the attempts that
  -- are left at the end, are at most the attempts that the rows had and that the dispatched jobs brought.
  pub run-budget :
      (polls : List (Poll W)) (b : Broker W)
      → is_issued b ≡ true
      → count_found (run env polls b).0 + budget (run env polls b).1.jobs
        ≤ budget b.jobs + added_by polls
  unfolding run
  run-budget [] b h = omega arith
  run-budget (p ∷ polls) b h =
      let b1 = (process_one env p.now p.later b).1 in
      let h1 = process_one-is_issued env p.now p.later b h in
      let rest =
        run-budget polls (insert_each p.dispatched b1) (insert_each-is_issued p.dispatched b1 h1) in
      let more = insert_each-budget p.dispatched b1 in
      elim (process_one-cases env p.now p.later b (ground (arith, h))) [
        | inl (e, same) ↦
            let idle : found (process_one env p.now p.later b).0 ≡ false =
              ap (λ x. found x.0) same in
            rw idle (omega (arith, rest, more, ap (λ x. budget x.1.jobs) same))
        | inr (q, before, after, split, free, f, polled) ↦
            let lt = Polled-budget p.now p.later b b1 q before after free polled in
            rw f (omega (arith, rest, more, lt, ap budget split))
      ]
