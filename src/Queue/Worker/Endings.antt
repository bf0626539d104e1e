-- ===== src/Queue/Worker/Endings.antt =====
-- About what `processOne` of packages/queue/src/worker.ts leaves of a row: the branches of a claim and
-- those of a job's end, as they change the table.
use strav_1_x.Common.{
  ℕ, ◌+◌, ◌*◌, ◌<◌, ◌≤◌, String, true, leb, ◌≡◌, refl, ap, ◌⊎◌, inl, inr, none, some, List, arith,
  Option-cases, Bool-cases, Result, throws, ok,
}
use strav_1_x.Common.Dict.{lookup}
use strav_1_x.Queue.Jobs.{QueueRow, JobRow, Broker, JobClass}
use strav_1_x.Queue.Worker.{
  Setup, with_attempt, is_free, select_row, update_rows, delete_rows, claim, perform, after_failure,
  after_handle, after_make, reserve, release_at, limit_of, delay_of, context_of,
}
use strav_1_x.Queue.Worker.Table.{Split, select_row-some}

module _ {W : Type 0} where
  -- What a claim does to the broker.
  abbrev pub Claimed : List String → ℕ → Broker W → QueueRow → Type 0
  Claimed queues now b q =
      Split b.jobs q
      × (is_free queues now q ≡ true)
      × (claim queues now b ≡ (
        some (with_attempt q.job),
        record b { jobs = update_rows q.job.id (reserve now) b.jobs },
      ))

  pub claim-cases :
      (queues : List String) (now : ℕ) (b : Broker W)
      → (select_row queues now b.jobs ≡ none) × (claim queues now b ≡ (none, b))
        ⊎ (q : QueueRow) × Claimed queues now b q
  unfolding claim
  claim-cases queues now b = elim (Option-cases (select_row queues now b.jobs)) [
    | inl e ↦ inl (e, ground (arith, e))
    | inr (q, e) ↦
        let (split, free) = select_row-some queues now b.jobs q e in
        inr (q, (split, free, ground (arith, e)))
  ]

  -- The identifiers that are given out stay so.
  abbrev pub Ended : ℕ → Broker W → Broker W → Type 0
  Ended id b b' = (b'.jobs ≡ delete_rows id b.jobs) × (b.ids_used ≤ b'.ids_used)

  abbrev pub Retried : Setup W → ℕ → JobRow → JobClass W → Broker W → Broker W → Type 0
  Retried env now row cls b b' =
      (row.attempts < limit_of cls row)
      × (b'.jobs ≡ update_rows row.id (release_at (now + delay_of env cls row * 1000)) b.jobs)
      × (b.ids_used ≤ b'.ids_used)

  -- The job could not be made.
  abbrev pub Unmade : JobClass W → Broker W → Broker W → Type 0
  Unmade cls b b' =
      (e : String) × ((cls.make b.app).0 ≡ throws e)
      × (b'.jobs ≡ b.jobs)
      × (b.ids_used ≤ b'.ids_used)

  module _ (env : Setup W) (now : ℕ) (row : JobRow) (cls : JobClass W) where
    after_failure-cases :
        (error : String) (b : Broker W)
        → Ended row.id b (after_failure env now cls row error b).1
          ⊎ Retried env now row cls b (after_failure env now cls row error b).1
    unfolding after_failure
    after_failure-cases error b = elim (Bool-cases (leb (limit_of cls row) row.attempts)) [
      | inl e ↦ inl (ground (arith, e), ground (arith, e))
      | inr e ↦ inr (ground (arith, e), ground (arith, e), ground (arith, e))
    ]

    after_handle-cases :
        (o : Result String (Unit {0}) × W) (b : Broker W)
        → Ended row.id b (after_handle env now cls row o b).1
          ⊎ Retried env now row cls b (after_handle env now cls row o b).1
    after_handle-cases (ok u, w) b = inl (refl, omega arith)
    after_handle-cases (throws e, w) b = after_failure-cases e _

    after_make-cases :
        (o : Result String (Unit {0}) × W) (b : Broker W)
        → cls.make b.app ≡ o
        → Ended row.id b (after_make env now cls row o b).1
          ⊎ Retried env now row cls b (after_make env now cls row o b).1
          ⊎ Unmade cls b (after_make env now cls row o b).1
    after_make-cases (ok u, w) b h = elim (after_handle-cases (cls.handle (context_of row) w) b) [
      | inl e ↦ inl e
      | inr e ↦ inr (inl e)
    ]
    after_make-cases (throws e, w) b h = inr (inr (e, ap (λ o. o.0) h, refl, omega arith))

  pub perform-cases :
      (env : Setup W) (now : ℕ) (row : JobRow) (b : Broker W)
      → Ended row.id b (perform env now row b).1 × (lookup row.job_name env.registry ≡ none)
        ⊎ (cls : JobClass W) × (lookup row.job_name env.registry ≡ some cls)
          × (Ended row.id b (perform env now row b).1
              ⊎ Retried env now row cls b (perform env now row b).1
              ⊎ Unmade cls b (perform env now row b).1)
  unfolding perform
  perform-cases env now row b = elim (Option-cases (lookup row.job_name env.registry)) [
    | inl e ↦ inl ((ground (arith, e), ground (arith, e)), e)
    | inr (cls, e) ↦ inr (cls, e, rw (e, perform) (after_make-cases env now row cls _ b refl))
  ]
