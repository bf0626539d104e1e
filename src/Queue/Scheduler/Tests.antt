-- ===== src/Queue/Scheduler/Tests.antt =====
-- Two servers and one entry; a dispatch is written down by the job's name.
use strav_1_x.Common.{
  String, true, ◌≡◌, refl, arith, none, some, List, [], ◌∷◌, ◌++◌, ok, throws, ◌==◌, ◌%◌, str_eq,
  if◌then◌else◌,
}
use strav_1_x.Common.Dict.{lookup}
use strav_1_x.Common.Dict
use strav_1_x.Common.Json.{Json}
use strav_1_x.Queue.Scheduler.{
  ScheduledEntry, Shared, Dispatcher, schedule, dispatch_one_server, run_one, run_entry, tick,
  unknown_schedule,
}
use strav_1_x.Queue.Scheduler.Once.{here, next, ticks, ServerReach-once}

opened : Unit {0}
unfolding dispatch_one_server run_one run_entry tick lookup Dict.insert
opened = tt

abbrev env : Dispatcher String (List String)
env = record {
  name_of = λ job. job;
  dispatch = λ job payload w. if str_eq job "broken" then throws "full" else ok (w ++ job ∷ []);
}

abbrev entries : List (ScheduledEntry String)
entries =
    schedule env
      (record {
        job = "report";
        payload = Json.null;
        cron = λ minute. minute % 2 == 0;
        name = none;
        one_server = some true;
      })
      []

abbrev nothing_ran : Shared (List String)
nothing_ran = record { runs = []; world = [] }

both_ticked :
    tick env entries 240900 (tick env entries 240100 nothing_ran)
    ≡ record { runs = ("report", 4) ∷ []; world = "report" ∷ [] }
unfolding opened
both_ticked = refl

unknown_forced :
    run_entry env entries "clean" 0 nothing_ran
    ≡ (throws (unknown_schedule "clean" ("report" ∷ [])), nothing_ran)
unfolding opened
unknown_forced = refl

abbrev daily : ScheduledEntry String
daily = record {
  name = "report";
  cron = λ minute. true;
  job = "report";
  payload = Json.null;
  one_server = true;
}

abbrev ran : Shared (List String)
ran = (dispatch_one_server env daily 4 nothing_ran).1

ServerReach-once_example :
    dispatch_one_server env daily 4 (tick env entries 360000 ran)
    ≡ (ok tt, tick env entries 360000 ran)
unfolding opened
ServerReach-once_example =
    ServerReach-once env daily daily 4 4 nothing_ran (tick env entries 360000 ran) refl
      (next here (ticks entries 360000)) refl (omega arith)
