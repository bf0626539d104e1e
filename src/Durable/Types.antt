-- ===== src/Durable/Types.antt =====
-- packages/durable/src/types.ts: statuses, contexts and the seven node variants; and the row shapes
-- at the top of durable_runner.ts. Handlers are the application's: functions of the context and of
-- a world `W`, which they may change, that return or throw an error message. A handler that
-- returns `undefined` returns `none`. Durations are in milliseconds.
pub use strav_1_x.Common.Json.{
  Json, Items, Fields, null, flag, num, text, arr, obj, nil, cons, end, field,
}
pub use strav_1_x.Common.Spans.{Span, plus, minus, at_least_zero}
use strav_1_x.Common.{ℕ, String, Bool, Option, none, some, List, [], ◌∷◌, Result}
use strav_1_x.Common.Dict.{Dict, insert, erase}

-- `value ?? null`
abbrev pub or_null : Option Json → Json
or_null none = null
or_null (some v) = v

abbrev pub array : List Json → Json
array xs = arr (elim xs [ [] ↦ nil | x ∷ (rest → items) ↦ cons x items ])

-- `JSON.stringify` leaves a property out whose value is `undefined`.
unfoldable pub fields : Dict (Option Json) → Fields
fields [] = end
fields ((k, none) ∷ m) = fields m
fields ((k, some v) ∷ m) = field k v (fields m)

abbrev pub object : Dict (Option Json) → Json
object m = obj (fields m)

-- `results[name] = value`, as it is after the state went through JSON.
abbrev pub set_result : String → Option Json → Dict Json → Dict Json
set_result name none results = erase name results
set_result name (some v) results = insert name v results

pub data RunStatus : Type 0 where
  pending running waiting compensating completed failed : RunStatus

pub record DurableContext : Type 0 where
  pub input : Dict Json
  pub results : Dict Json
  pub run_id : String
  pub attempt : ℕ

module _ (W : Type 0) where
  -- A call of application code in a context.
  abbrev pub Call : Type 0 → Type 0
  Call A = DurableContext → W → Result String A × W

  pub record DurableStep : Type 0 where
    pub name : String
    pub handler : Call (Option Json)
    pub compensate : Option (Call (Unit {0}))
    pub max_attempts : ℕ
    pub backoff : ℕ → Span

  pub record DurableSleep : Type 0 where
    pub name : String
    pub delay : Call Span

  pub record DurableWaitForSignal : Type 0 where
    pub name : String
    pub signal_name : DurableContext → Result String String

  pub record DurableParallel : Type 0 where
    pub name : String
    pub branches : Dict (Call (Option Json))
    pub max_attempts : ℕ
    pub backoff : ℕ → Span

  pub record DurableRoute : Type 0 where
    pub name : String
    pub select : Call String
    pub branches : Dict (Call (Option Json))
    pub max_attempts : ℕ
    pub backoff : ℕ → Span

  pub record DurableLoop : Type 0 where
    pub name : String
    pub condition : ℕ → Call Bool
    pub body : ℕ → Call (Option Json)
    pub max_iterations : ℕ
    pub max_attempts : ℕ
    pub backoff : ℕ → Span

  pub record DurableChildWorkflow : Type 0 where
    pub name : String
    pub start : Call (String × Dict Json)
    pub poll_interval : ℕ

  pub data DurableNode : Type 0 where
    step : DurableStep → DurableNode
    sleep : DurableSleep → DurableNode
    wait_for_signal : DurableWaitForSignal → DurableNode
    parallel : DurableParallel → DurableNode
    route : DurableRoute → DurableNode
    loop : DurableLoop → DurableNode
    child_workflow : DurableChildWorkflow → DurableNode

abbrev pub name_of : {W : Type 0} → DurableNode W → String
name_of (step n) = n.name
name_of (sleep n) = n.name
name_of (wait_for_signal n) = n.name
name_of (parallel n) = n.name
name_of (route n) = n.name
name_of (loop n) = n.name
name_of (child_workflow n) = n.name

pub record LoopSlot : Type 0 where
  pub iteration : ℕ
  pub results : List Json

-- An absent optional dictionary is an empty one; `sleeps` holds the `__sleep__<name>` keys.
pub record RunState : Type 0 where
  pub results : Dict Json
  pub step_attempts : Dict ℕ
  pub awaiting_signals : Dict String
  pub loop_state : Dict LoopSlot
  pub child_run_ids : Dict String
  pub sleeps : Dict ℕ

abbrev pub empty_state : RunState
empty_state = record {
  results = [];
  step_attempts = [];
  awaiting_signals = [];
  loop_state = [];
  child_run_ids = [];
  sleeps = [];
}

pub record RunRow : Type 0 where
  pub workflow_name : String
  pub input : Dict Json
  pub status : RunStatus
  pub state : RunState
  pub current_step : ℕ
  pub result : Option (Dict Json)
  pub error : Option String

pub data JournalStatus : Type 0 where
  completed failed : JournalStatus

pub record JournalRow : Type 0 where
  pub run_id : String
  pub step_name : String
  pub status : JournalStatus
  pub result : Json
  pub error : Option String
  pub attempts : ℕ
  pub completed_at : ℕ

pub data Outcome : Type 0 where
  completed : Option Json → ℕ → Outcome
  retry : ℕ → ℕ → Outcome
  failed : ℕ → String → Outcome
  waiting : Option ℕ → Outcome
