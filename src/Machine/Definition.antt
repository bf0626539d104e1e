-- ===== src/Machine/Definition.antt =====
-- packages/machine/src/machine_definition.ts, define_machine.ts and the two errors: a state machine
-- over a field of an entity. An entity is a plain object. Guards and effects are the application's:
-- they may change the entity and a world `W`, and may throw. An object's keys are in their order of
-- declaration.
use strav_1_x.Common.{
  String, Bool, true, false, Option, none, some, List, [], ◌∷◌, Result, ok, throws, str_eq, any,
  if◌then◌else◌,
}
use strav_1_x.Common.Json.{Json, text}
use strav_1_x.Common.Dict
use strav_1_x.Common.Dict.{Dict, lookup}

abbrev pub Entity : Type 0
Entity = Dict Json

-- `from` of a transition: one state, or an array of them.
pub data From : Type 0 where
  one : String → From
  many : List String → From

pub record TransitionDefinition : Type 0 where
  pub from : From
  pub to : String

pub record TransitionMeta : Type 0 where
  pub from : Option Json
  pub to : String
  pub transition : String

-- `TransitionError` with the states that were allowed, `GuardError`, or what the application threw.
pub data Fault : Type 0 where
  transition_error : String → Option Json → Option (List String) → Fault
  guard_error : String → Option Json → Fault
  thrown : String → Fault

-- A call that may change the entity and the world.
abbrev pub Call : Type 0 → Type 0 → Type 0
Call W A = Entity × W → Result Fault A × (Entity × W)

pub record MachineDefinition (W : Type 0) : Type 0 where
  pub field : String
  pub initial : String
  pub states : List String
  pub transitions : Dict TransitionDefinition
  pub guards : Dict (Call W Bool)
  pub effects : Dict (TransitionMeta → Call W (Unit {0}))
  pub events : Dict String

abbrev pub states_of : From → List String
states_of (one s) = s ∷ []
states_of (many ss) = ss

-- The states that a transition goes from, for each: the keys of an object are distinct.
unfoldable pub from_map : Dict TransitionDefinition → Dict (List String)
from_map [] = []
from_map ((name, d) ∷ more) = (name, states_of d.from) ∷ from_map more

abbrev pub equals_text : Option Json → String → Bool
equals_text (some (text t)) s = str_eq t s
equals_text _ s = false

-- `allowed.includes(current)`
abbrev pub allows : Option Json → List String → Bool
allows current allowed = any (equals_text current) allowed

-- The names whose states allow the current one.
unfoldable pub available_in : Option Json → Dict (List String) → List String
available_in current [] = []
available_in current ((name, allowed) ∷ more) =
    let rest = available_in current more in if allows current allowed then name ∷ rest else rest

-- `fromMap.get(transition) ?? []`
abbrev pub or_empty : Option (List String) → List String
or_empty none = []
or_empty (some allowed) = allowed

module _ {W : Type 0} (m : MachineDefinition W) where
  abbrev pub state : Entity → Option Json
  state entity = lookup m.field entity

  abbrev pub is_state : Entity → String → Bool
  is_state entity s = equals_text (state entity) s

  -- The guard, when there is one.
  unfoldable pub run_guard : String → Call W Bool
  run_guard transition s = elim (lookup transition m.guards) [
    | none ↦ (ok true, s)
    | some guard ↦ guard s
  ]

  unfoldable pub can : String → Call W Bool
  can transition s = elim (lookup transition (from_map m.transitions)) [
    | none ↦ (ok false, s)
    | some allowed ↦ if allows (state s.0) allowed then run_guard transition s else (ok false, s)
  ]

  unfoldable pub available_transitions : Entity → List String
  available_transitions entity = available_in (state entity) (from_map m.transitions)

  abbrev pub meta_of : Option Json → TransitionDefinition → String → TransitionMeta
  meta_of current d transition = record { from = current; to = d.to; transition = transition }

  abbrev pub answer : TransitionMeta → Result Fault (Unit {0}) → Result Fault TransitionMeta
  answer meta (ok u) = ok meta
  answer meta (throws e) = throws e

  -- The field is set, then the effect runs, when there is one.
  unfoldable pub move : TransitionMeta → Call W TransitionMeta
  move meta (entity, w) =
      let moved : Entity × W = (Dict.insert m.field (text meta.to) entity, w) in
      elim (lookup meta.transition m.effects) [
        | none ↦ (ok meta, moved)
        | some effect ↦ let (r, s) = effect meta moved in (answer meta r, s)
      ]

  -- What follows the guard's answer.
  abbrev pub after_guard :
      TransitionMeta → Result Fault Bool × (Entity × W) → Result Fault TransitionMeta × (Entity × W)
  after_guard meta (ok true, s) = move meta s
  after_guard meta (ok false, s) = (throws (guard_error meta.transition meta.from), s)
  after_guard meta (throws e, s) = (throws e, s)

  unfoldable pub apply : String → Call W TransitionMeta
  apply transition s = elim (lookup transition m.transitions) [
    | none ↦ (throws (transition_error transition (state s.0) none), s)
    | some d ↦
        let allowed = or_empty (lookup transition (from_map m.transitions)) in
        if allows (state s.0) allowed
        then after_guard (meta_of (state s.0) d transition) (run_guard transition s)
        else (throws (transition_error transition (state s.0) (some allowed)), s)
  ]
