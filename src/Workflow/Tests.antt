-- ===== src/Workflow/Tests.antt =====
-- A small workflow in the process, and the theorems at it.
use strav_1_x.Common.{
  String, false, ◌≡◌, refl, Option, none, some, List, [], ◌∷◌, ◌++◌, ok, throws, ltb,
}
use strav_1_x.Common.Json.{text, num}
use strav_1_x.Common.Dict
use strav_1_x.Common.Dict.{Dict, lookup}
use strav_1_x.Workflow.{
  WorkflowStep, step, parallel, loop, SequentialStep, Setup, Call, execute, run_entries,
  entry_compensators, run_compensators, compensate_steps, compensate, run_steps, run, iterate,
  set_all, settle, compensation_error, workflow_error, wraps,
}
use strav_1_x.Workflow.Saga.{execute_all, undo_all, run-throws, run-completes}

-- What the handlers did.
abbrev Trace : Type 0
Trace = List String

abbrev does : String → Option (Call Trace String (Unit {0})) → SequentialStep Trace String
does name undo = record {
  name = name;
  handler = λ ctx w. (ok (some (text name)), w ++ name ∷ []);
  compensate = undo;
}

abbrev undoes : String → Option (Call Trace String (Unit {0}))
undoes name = some (λ ctx w. (ok tt, w ++ name ∷ []))

abbrev breaks : Option (Call Trace String (Unit {0}))
breaks = some (λ ctx w. (throws "stuck", w))

abbrev pay : WorkflowStep Trace String
pay = step (record { name = "pay"; handler = λ ctx w. (throws "declined", w); compensate = none })

abbrev retry_twice : WorkflowStep Trace String
retry_twice = loop (record {
  name = "poll";
  handler = λ input ctx w. (ok (some (num 1)), w ++ "poll" ∷ []);
  max_iterations = 5;
  until = some (λ r i. ltb 1 i);
  feedback = none;
  map_input = none;
})

abbrev before_pay : List (WorkflowStep Trace String)
before_pay =
    step (does "reserve" (undoes "release"))
    ∷ parallel (record {
      name = "prepare";
      entries = does "label" breaks ∷ does "pack" (undoes "unpack") ∷ [];
    })
    ∷ []

abbrev plain : Setup String
plain = record { is_workflow_error = λ e. false; first_rejection = λ e es. e }

opened : Unit {0}
unfolding execute run_entries entry_compensators run_compensators compensate_steps compensate
    run_steps run iterate set_all settle execute_all undo_all lookup Dict.insert
opened = tt

polls : (run plain (retry_twice ∷ []) none []).1 ≡ "poll" ∷ "poll" ∷ []
unfolding opened
polls = refl

-- The entry that returned is not undone, since its step threw.
abbrev half_prepared : WorkflowStep Trace String
half_prepared = parallel (record {
  name = "prepare";
  entries =
      does "pack" (undoes "unpack")
      ∷ record {
        name = "label";
        handler = λ ctx w. (throws "jammed", w ++ "label" ∷ []);
        compensate = none;
      }
      ∷ [];
})

half_undone : run plain (step (does "reserve" (undoes "release")) ∷ half_prepared ∷ []) none [] ≡ (
  throws (workflow_error (wraps "prepare" "jammed")),
  "reserve" ∷ "pack" ∷ "label" ∷ "release" ∷ [],
)
unfolding opened
half_undone = refl

run-throws_example : run plain (before_pay ++ pay ∷ retry_twice ∷ []) none [] ≡ (
  throws (compensation_error (wraps "pay" "declined") (("label", "stuck") ∷ [])),
  "reserve" ∷ "label" ∷ "pack" ∷ "unpack" ∷ "release" ∷ [],
)
unfolding opened
run-throws_example =
    run-throws plain before_pay pay (retry_twice ∷ []) none [] ("reserve" ∷ "label" ∷ "pack" ∷ [])
      ("reserve" ∷ "label" ∷ "pack" ∷ [])
      (("reserve", some (text "reserve"))
        ∷ ("label", some (text "label"))
        ∷ ("pack", some (text "pack"))
        ∷ [])
      "declined" refl refl

run-completes_example :
    run plain (retry_twice ∷ []) none [] ≡ (ok (("poll", some (num 1)) ∷ []), "poll" ∷ "poll" ∷ [])
unfolding opened
run-completes_example =
    run-completes plain (retry_twice ∷ []) none [] ("poll" ∷ "poll" ∷ [])
      (("poll", some (num 1)) ∷ []) refl
