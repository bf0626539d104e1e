-- ===== src/Queue/Scheduler.antt =====
-- packages/queue/src/scheduler.ts: recurring dispatches. A boundary is a number of minutes, so flooring
-- a time of milliseconds is a division; what an expression matches is a parameter, and so is the queue.
-- An advisory lock makes the body of `dispatchOneServer` one step.
pub mod Once
pub mod Tests
use strav_1_x.Common.{
  ℕ, ◌/◌, ◌++◌, String, Bool, true, false, Option, none, some, List, [], ◌∷◌, Result, ok, throws,
  leb, ◌==◌, if◌then◌else◌, str_eq, map, join, ◌+++◌,
}
use strav_1_x.Common.Dict
use strav_1_x.Common.Dict.{Dict, lookup}
use strav_1_x.Common.Json.{Json}

module _ (J : Type 0) where
  -- `ScheduleOptions`
  pub record ScheduleOptions : Type 0 where
    pub job : J
    pub payload : Json
    pub cron : ℕ → Bool
    pub name : Option String
    pub one_server : Option Bool

  pub record ScheduledEntry : Type 0 where
    pub name : String
    pub cron : ℕ → Bool
    pub job : J
    pub payload : Json
    pub one_server : Bool

-- What the servers share: the rows of `strav_scheduler_runs`, and the world `W` that a dispatch changes
-- when it does not throw.
pub record Shared (W : Type 0) : Type 0 where
  pub runs : Dict ℕ
  pub world : W

-- What a scheduler is made with.
pub record Dispatcher (J W : Type 0) : Type 0 where
  pub name_of : J → String
  pub dispatch : J → Json → W → Result String W

abbrev pub floor_to_minute : ℕ → ℕ
floor_to_minute now = now / 60000

abbrev or_name : String → Option String → String
or_name d none = d
or_name d (some s) = s

abbrev or_false : Option Bool → Bool
or_false none = false
or_false (some b) = b

abbrev pub names_or_none : List String → String
names_or_none [] = "(none)"
names_or_none (n ∷ ns) = join ", " (n ∷ ns)

abbrev pub unknown_schedule : String → List String → String
unknown_schedule name names =
    "Scheduler.runEntry(\""
    +++ name
    +++ "\"): no schedule with that name registered. Known names: "
    +++ names_or_none names

-- The boundary was recorded already.
abbrev pub has_run : ℕ → Option ℕ → Bool
has_run boundary none = false
has_run boundary (some last) = leb boundary last

module _ {W : Type 0} where
  abbrev pub recorded :
      String → ℕ → Dict ℕ → W → Result String W → Result String (Unit {0}) × Shared W
  recorded name boundary runs w (throws e) = (throws e, record { runs = runs; world = w })
  recorded name boundary runs w (ok w') =
      (ok tt, record { runs = Dict.insert name boundary runs; world = w' })

  abbrev pub dispatched : Shared W → Result String W → Result String (Unit {0}) × Shared W
  dispatched s (throws e) = (throws e, s)
  dispatched s (ok w) = (ok tt, record s { world = w })

abbrev pub find : {J : Type 0} → String → List (ScheduledEntry J) → Option (ScheduledEntry J)
find name [] = none
find name (e ∷ es) = if str_eq e.name name then some e else find name es

module _ {J W : Type 0} (env : Dispatcher J W) where
  abbrev pub schedule : ScheduleOptions J → List (ScheduledEntry J) → List (ScheduledEntry J)
  schedule options entries =
      entries
      ++ (record {
        name = or_name (env.name_of options.job) options.name;
        cron = options.cron;
        job = options.job;
        payload = options.payload;
        one_server = or_false options.one_server;
      })
        ∷ []

  unfoldable pub dispatch_one_server :
      ScheduledEntry J → ℕ → Shared W → Result String (Unit {0}) × Shared W
  dispatch_one_server entry boundary s =
      if has_run boundary (lookup entry.name s.runs)
      then (ok tt, s)
      else recorded entry.name boundary s.runs s.world
          (env.dispatch entry.job entry.payload s.world)

  unfoldable pub run_one : ScheduledEntry J → ℕ → Shared W → Result String (Unit {0}) × Shared W
  run_one entry boundary s =
      if entry.one_server
      then dispatch_one_server entry boundary s
      else dispatched s (env.dispatch entry.job entry.payload s.world)

  unfoldable pub run_entry :
      List (ScheduledEntry J) → String → ℕ → Shared W → Result String (Unit {0}) × Shared W
  run_entry entries name now s = elim (find name entries) [
    | none ↦ (throws (unknown_schedule name (map (λ e. e.name) entries)), s)
    | some entry ↦ run_one entry (floor_to_minute now) s
  ]

  -- An error is logged, and the next entry is run.
  abbrev pub tick_at : List (ScheduledEntry J) → ℕ → Shared W → Shared W
  tick_at [] boundary s = s
  tick_at (e ∷ es) boundary s =
      tick_at es boundary (if e.cron boundary then (run_one e boundary s).1 else s)

  unfoldable pub tick : List (ScheduledEntry J) → ℕ → Shared W → Shared W
  tick entries now s = tick_at entries (floor_to_minute now) s
