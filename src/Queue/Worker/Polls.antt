-- ===== src/Queue/Worker/Polls.antt =====
-- About one poll of packages/queue/src/worker.ts, `processOne`: the row it finds, and the table that it
-- leaves.
use strav_1_x.Common.{
  ℕ, ◌+◌, ◌*◌, suc, ◌<◌, ◌≤◌, arith, String, true, ◌≡◌, refl, sym, ◌∙◌, ◌⊎◌, inl, inr, none, some,
  ◌∷◌, ◌++◌, List, Result, throws, ok,
}
use strav_1_x.Common.Dict.{lookup}
use strav_1_x.Queue.Jobs.{QueueRow, Broker, JobClass}
use strav_1_x.Queue.Worker.{
  Setup, with_attempt, is_free, select_row, perform, process_one, reported, found, reserve,
  release_at, limit_of, delay_of, JobResult, update_rows, delete_rows,
}
use strav_1_x.Queue.Worker.Table.{distinct, distinct-with, update_rows-at, delete_rows-at}
use strav_1_x.Queue.Worker.Endings.{claim-cases, perform-cases}

module _ {W : Type 0} (env : Setup W) (now later : ℕ) where
  -- A row that a poll finds at a place is then gone, due again later, or reserved for good.
  pub data Polled (b b' : Broker W) (q : QueueRow) (before after : List QueueRow) : Type 0 where
    gone : b'.jobs ≡ before ++ after → Polled b b' q before after
    due :
        (cls : JobClass W)
        → lookup q.job.job_name env.registry ≡ some cls
        → suc q.job.attempts < limit_of cls q.job
        → b'.jobs
          ≡ before
            ++ release_at (later + delay_of env cls (with_attempt q.job) * 1000) (reserve now q)
              ∷ after
        → Polled b b' q before after
    unmade :
        (cls : JobClass W) (w : W) (e : String)
        → (cls.make w).0 ≡ throws e
        → lookup q.job.job_name env.registry ≡ some cls
        → b'.jobs ≡ before ++ reserve now q ∷ after
        → Polled b b' q before after

  reported-found :
      (o : Result String JobResult × Broker W)
      → (found (reported o).0 ≡ true) × ((reported o).1 ≡ o.1)
  reported-found (ok r, b) = (refl, refl)
  reported-found (throws e, b) = (refl, refl)

  module _ (b : Broker W) (q : QueueRow) (before after : List QueueRow)
      (split : b.jobs ≡ before ++ q ∷ after) (d : distinct b.jobs ≡ true) where
    abbrev b1 : Broker W
    b1 = record b { jobs = update_rows q.job.id (reserve now) b.jobs }

    distinct_split : distinct (before ++ q ∷ after) ≡ true
    distinct_split = rw (sym split) d

    reserved_jobs : b1.jobs ≡ before ++ reserve now q ∷ after
    reserved_jobs = rw split (update_rows-at q after before distinct_split (reserve now))

    distinct_reserved : distinct (before ++ reserve now q ∷ after) ≡ true
    distinct_reserved = distinct-with q after (reserve now q) before refl ∙ distinct_split

    perform-Polled : Polled b (perform env later (with_attempt q.job) b1).1 q before after
    perform-Polled = elim (perform-cases env later (with_attempt q.job) b1) [
      | inl ((e, le), s) ↦ gone (e ∙ deleted)
      | inr (cls, s, inl (e, le)) ↦ gone (e ∙ deleted)
      | inr (cls, s, inr (inl (lt, e, le))) ↦ due cls s lt (
          e
          ∙ rw reserved_jobs
              (update_rows-at (reserve now q) after before distinct_reserved (release_at _)))
      | inr (cls, s, inr (inr (error, t, e, le))) ↦ unmade cls b.app error t s (e ∙ reserved_jobs)
    ]
      where
        deleted : delete_rows q.job.id b1.jobs ≡ before ++ after
        deleted = rw reserved_jobs (delete_rows-at (reserve now q) after before distinct_reserved)

  -- A poll finds no free row and changes nothing, or finds one.
  pub process_one-cases :
      (b : Broker W)
      → distinct b.jobs ≡ true
      → (select_row env.queues now b.jobs ≡ none) × (process_one env now later b ≡ (ok none, b))
        ⊎ (q : QueueRow) × (before after : List QueueRow) × (b.jobs ≡ before ++ q ∷ after)
          × (is_free env.queues now q ≡ true)
          × (found (process_one env now later b).0 ≡ true)
          × Polled b (process_one env now later b).1 q before after
  unfolding process_one
  process_one-cases b d = elim (claim-cases env.queues now b) [
    | inl (e, c) ↦ inl (e, rw c refl)
    | inr (q, ((before, after, split), free, c)) ↦
        let (f, s) =
          reported-found (perform env later (with_attempt q.job) (b1 b q before after split d)) in
        inr (
          q,
          before,
          after,
          split,
          free,
          rw c f,
          rw (c, s) (perform-Polled b q before after split d),
        )
  ]

  -- No identifier is given out twice.
  pub process_one-ids : (b : Broker W) → b.ids_used ≤ (process_one env now later b).1.ids_used
  unfolding process_one
  process_one-ids b = elim (claim-cases env.queues now b) [
    | inl (e, c) ↦ rw c (omega arith)
    | inr (q, (split, free, c)) ↦
        let b1 = record b { jobs = update_rows q.job.id (reserve now) b.jobs } in
        let (f, s) = reported-found (perform env later (with_attempt q.job) b1) in
        rw (c, s)
          (elim (perform-cases env later (with_attempt q.job) b1) [
            | inl ((e, le), s) ↦ le
            | inr (cls, s, inl (e, le)) ↦ le
            | inr (cls, s, inr (inl (lt, e, le))) ↦ le
            | inr (cls, s, inr (inr (error, t, e, le))) ↦ le
          ])
  ]
