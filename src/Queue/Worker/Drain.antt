-- ===== src/Queue/Worker/Drain.antt =====
-- About a worker of packages/queue/src/worker.ts that polls late enough: what becomes of its table.
use strav_1_x.Common.{
  ℕ, ◌+◌, ◌*◌, ◌≤◌, Bool, String, true, not, ◌&&◌, ◌≡◌, ◌≢◌, ap, sym, inl, inr, none, some, List,
  [], ◌∷◌, ◌++◌, throws, arith, length, all, leb, includes, refl,
}
use strav_1_x.Common.Dict.{lookup}
use strav_1_x.Queue.Jobs.{QueueRow, JobRow, Broker, JobClass}
use strav_1_x.Queue.Worker.{
  Setup, Poll, with_attempt, is_reserved, run, reserve, release_at, delay_of, select_row,
}
use strav_1_x.Queue.Worker.Table.{distinct, select_row-none}
use strav_1_x.Queue.Worker.Polls.{Polled, gone, due, unmade, process_one-cases}
use strav_1_x.Queue.Worker.Issued.{is_issued, process_one-is_issued}
use strav_1_x.Queue.Worker.Budget.{budget, free-tries, Polled-budget}

-- Every row waits in one of the queues, and is due at a time.
abbrev is_ready : List String → ℕ → QueueRow → Bool
is_ready queues t q = includes q.job.queue queues && (leb q.available_at t && not (is_reserved q))

abbrev pub ready : List String → ℕ → List QueueRow → Bool
ready queues t qs = all (is_ready queues t) qs

ready-append :
    (queues : List String) (t : ℕ) (xs ys : List QueueRow)
    → ready queues t (xs ++ ys) ≡ ready queues t xs && ready queues t ys
ready-append queues t [] ys = refl
ready-append queues t (x ∷ xs) ys = ground (arith, ready-append queues t xs ys)

ready-later :
    (queues : List String) (t u : ℕ) (qs : List QueueRow)
    → t ≤ u
    → ready queues t qs ≡ true
    → ready queues u qs ≡ true
ready-later queues t u [] le h = refl
ready-later queues t u (q ∷ qs) le h = ground (arith, le, h, ready-later queues t u qs le)

-- Rows that are ready and none of which is free are none.
ready-none :
    (queues : List String) (t now : ℕ) (qs : List QueueRow)
    → t ≤ now
    → ready queues t qs ≡ true
    → select_row queues now qs ≡ none
    → qs ≡ []
ready-none queues t now [] le h e = refl
ready-none queues t now (q ∷ qs) le h e =
    absurd (ground (arith, le, h, select_row-none queues now (q ∷ qs) e))

-- The polls come one after the other, each after the longest delay since the last, and nothing is
-- dispatched meanwhile.
abbrev pub Spaced : {W : Type 0} → ℕ → ℕ → List (Poll W) → Type 0
Spaced delay t [] = Unit
Spaced delay t (p ∷ polls) =
    (t ≤ p.now)
    × (p.now ≤ p.later)
    × (p.dispatched ≡ [])
    × Spaced delay (p.later + delay * 1000) polls

module _ {W : Type 0} (env : Setup W) (delay : ℕ) where
  -- The container makes every registered class, and no delay is longer.
  pub record IsSteady : Type 0 where
    pub makes :
        (name : String) (cls : JobClass W) (w : W) (e : String)
        → lookup name env.registry ≡ some cls
        → (cls.make w).0 ≢ throws e
    pub delays :
        (name : String) (cls : JobClass W) (row : JobRow)
        → lookup name env.registry ≡ some cls
        → delay_of env cls row ≤ delay

  ready-budget :
      (t : ℕ) (qs : List QueueRow) → ready env.queues t qs ≡ true → budget env qs ≤ 0 → qs ≡ []
  ready-budget t [] h le = refl
  ready-budget t (q ∷ qs) h le = absurd (ground (arith, h, le, free-tries env env.queues t q))

  module _ (steady : IsSteady) where
    Polled-ready :
        (t now later : ℕ) (b b' : Broker W) (q : QueueRow) (before after : List QueueRow)
        → t ≤ now
        → now ≤ later
        → ready env.queues t (before ++ q ∷ after) ≡ true
        → Polled env now later b b' q before after
        → ready env.queues (later + delay * 1000) b'.jobs ≡ true
    Polled-ready t now later b b' q before after le le' h (gone e) =
        let u = later + delay * 1000 in
        rw e (
          ground (
            arith,
            ready-later env.queues t u (before ++ q ∷ after) (omega (arith, le, le')) h,
            ready-append env.queues u before (q ∷ after),
            ready-append env.queues u before after,
          ))
    Polled-ready t now later b b' q before after le le' h (due cls s lt e) =
        let u = later + delay * 1000 in
        let r = release_at (later + delay_of env cls (with_attempt q.job) * 1000) (reserve now q) in
        rw e (
          ground (
            arith,
            ready-later env.queues t u (before ++ q ∷ after) (omega (arith, le, le')) h,
            ready-append env.queues u before (q ∷ after),
            ready-append env.queues u before (r ∷ after),
            steady.delays q.job.job_name cls (with_attempt q.job) s,
          ))
    Polled-ready t now later b b' q before after le le' h (unmade cls w error thrown s e) =
        absurd (steady.makes q.job.job_name cls w error s thrown)

    -- From when on nothing is dispatched any more, neither by the jobs nor by anyone else: when the
    -- container makes every registered class and no delay is longer than the time between polls, as many
    -- polls as the rows have attempts empty a table of rows whose identifiers were given out, all of
    -- them due, not reserved and in the worker's queues.
    pub run-drains :
        (t : ℕ) (polls : List (Poll W)) (b : Broker W)
        → is_issued b ≡ true
        → ready env.queues t b.jobs ≡ true
        → Spaced delay t polls
        → budget env b.jobs ≤ length polls
        → (run env polls b).1.jobs ≡ []
    unfolding run
    run-drains t [] b d h spaced le = ready-budget t b.jobs h le
    run-drains t (p ∷ polls) b d h (le1, le2, quiet, spaced) le =
        let single : distinct b.jobs ≡ true = ground (arith, d) in
        let next = p.later + delay * 1000 in
        rw quiet (elim (process_one-cases env p.now p.later b single) [
          | inl (e, same) ↦
              let nothing = ready-none env.queues t p.now b.jobs le1 h e in
              rw same (
                run-drains next polls b d
                  (ready-later env.queues t next b.jobs (omega (arith, le1, le2)) h) spaced
                  (rw nothing (omega arith)))
          | inr (q, before, after, split, free, f, polled) ↦
              run-drains next polls _ (process_one-is_issued env p.now p.later b d)
                (Polled-ready t p.now p.later b _ q before after le1 le2 (rw (sym split) h) polled)
                spaced
                (omega (
                  arith,
                  Polled-budget env p.now p.later b _ q before after free polled,
                  ap (budget env) split,
                  le,
                ))
        ])
