-- ===== src/Queue/Scheduler/Once.antt =====
-- About the servers of a fleet that share the rows of `strav_scheduler_runs`, in
-- packages/queue/src/scheduler.ts.
use strav_1_x.Common.{
  Option-cases, ℕ, ◌≤◌, String, Bool, true, ◌≡◌, inl, inr, List, [], ◌∷◌, ok, arith, Result-cases,
  Bool-cases, eq_iff,
}
use strav_1_x.Common.Dict.{lookup, lookup-insert}
use strav_1_x.Queue.Scheduler.{
  ScheduledEntry, Shared, Dispatcher, dispatch_one_server, run_one, run_entry, tick, tick_at,
  has_run, find, floor_to_minute,
}

module _ {J W : Type 0} (env : Dispatcher J W) where
  -- A tick or a forced run of any server, with the entries it has, or any change of the world.
  pub data ServerStep (s : Shared W) : Shared W → Type 0 where
    ticks : (entries : List (ScheduledEntry J)) (now : ℕ) → ServerStep s (tick env entries now s)
    forced :
        (entries : List (ScheduledEntry J)) (name : String) (now : ℕ)
        → ServerStep s (run_entry env entries name now s).1
    works : (w : W) → ServerStep s (record s { world = w })

  pub data ServerReach (s : Shared W) : Shared W → Type 0 where
    here : ServerReach s s
    next : {t u : Shared W} → ServerReach s t → ServerStep t u → ServerReach s u

  -- This boundary, or a later one, was recorded under the name.
  abbrev is_recorded : String → ℕ → Shared W → Bool
  is_recorded name boundary s = has_run boundary (lookup name s.runs)

  module _ (name : String) (boundary : ℕ) where
    one_server-is_recorded :
        (entry : ScheduledEntry J) (b : ℕ) (s : Shared W)
        → is_recorded name boundary s ≡ true
        → is_recorded name boundary (dispatch_one_server env entry b s).1 ≡ true
    unfolding dispatch_one_server
    one_server-is_recorded entry b s h =
        elim (Result-cases (env.dispatch entry.job entry.payload s.world)) [
          | inl (w, e) ↦
              rw e
                (ground (arith, h, eq_iff entry.name name, lookup-insert entry.name name b s.runs))
          | inr (x, e) ↦ rw e (ground (arith, h))
        ]

    run_one-is_recorded :
        (entry : ScheduledEntry J) (b : ℕ) (s : Shared W)
        → is_recorded name boundary s ≡ true
        → is_recorded name boundary (run_one env entry b s).1 ≡ true
    unfolding run_one
    run_one-is_recorded entry b s h =
        elim (Result-cases (env.dispatch entry.job entry.payload s.world)) [
          | inl (w, e) ↦ rw e (ground (arith, h, one_server-is_recorded entry b s h))
          | inr (x, e) ↦ rw e (ground (arith, h, one_server-is_recorded entry b s h))
        ]

    tick_at-is_recorded :
        (entries : List (ScheduledEntry J)) (b : ℕ) (s : Shared W)
        → is_recorded name boundary s ≡ true
        → is_recorded name boundary (tick_at env entries b s) ≡ true
    tick_at-is_recorded [] b s h = h
    tick_at-is_recorded (e ∷ es) b s h = elim (Bool-cases (e.cron b)) [
      | inl c ↦ tick_at-is_recorded es b _ (rw c (run_one-is_recorded e b s h))
      | inr c ↦ tick_at-is_recorded es b _ (rw c h)
    ]

    ServerStep-is_recorded :
        {s t : Shared W}
        → ServerStep s t
        → is_recorded name boundary s ≡ true
        → is_recorded name boundary t ≡ true
    unfolding tick run_entry
    ServerStep-is_recorded {s} (ticks entries now) h = tick_at-is_recorded entries _ s h
    ServerStep-is_recorded {s} (forced entries n now) h = elim (Option-cases (find n entries)) [
      | inl e ↦ rw (e, run_entry) h
      | inr (entry, e) ↦ rw (e, run_entry) (run_one-is_recorded entry (floor_to_minute now) s h)
    ]
    ServerStep-is_recorded {s} (works w) h = h

    ServerReach-is_recorded :
        {s t : Shared W}
        → ServerReach s t
        → is_recorded name boundary s ≡ true
        → is_recorded name boundary t ≡ true
    ServerReach-is_recorded here h = h
    ServerReach-is_recorded (next r step) h =
        ServerStep-is_recorded step (ServerReach-is_recorded r h)

  after_success :
      (entry : ScheduledEntry J) (boundary : ℕ) (s : Shared W)
      → (dispatch_one_server env entry boundary s).0 ≡ ok tt
      → is_recorded entry.name boundary (dispatch_one_server env entry boundary s).1 ≡ true
  unfolding dispatch_one_server
  after_success entry boundary s h =
      elim (Result-cases (env.dispatch entry.job entry.payload s.world)) [
        | inl (w, e) ↦ rw e (
            ground (
              arith,
              lookup-insert entry.name entry.name boundary s.runs,
              eq_iff entry.name entry.name,
            ))
        | inr (x, e) ↦ ground (arith, h, e)
      ]

  -- Once a server went through a boundary of an entry without an error, and whatever the servers do
  -- then: an entry of that name at this boundary, or at an earlier one, changes nothing, so nothing is
  -- dispatched twice.
  pub ServerReach-once :
      (entry again : ScheduledEntry J) (boundary earlier : ℕ) (s t : Shared W)
      → (dispatch_one_server env entry boundary s).0 ≡ ok tt
      → ServerReach (dispatch_one_server env entry boundary s).1 t
      → again.name ≡ entry.name
      → earlier ≤ boundary
      → dispatch_one_server env again earlier t ≡ (ok tt, t)
  unfolding dispatch_one_server
  ServerReach-once entry again boundary earlier s t h r same le =
      let k = ServerReach-is_recorded entry.name boundary r (after_success entry boundary s h) in
      rw same (ground (arith, k, le))
