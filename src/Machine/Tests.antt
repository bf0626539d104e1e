-- ===== src/Machine/Tests.antt =====
-- The order machine of define_machine.ts's comment, and the theorems at it.
use strav_1_x.Common.{
  String, Bool, true, false, ◌≡◌, refl, sym, ap, some, List, [], ◌∷◌, ◌++◌, ok, throws, arith,
  includes,
}
use strav_1_x.Common.Json.{Json, text, flag}
use strav_1_x.Common.Dict
use strav_1_x.Common.Dict.{Dict, lookup, lookup-insert}
use strav_1_x.Machine.Definition.{
  Entity, one, many, TransitionDefinition, TransitionMeta, Fault, thrown, Call, MachineDefinition,
  from_map, can, apply, move, run_guard, meta_of, state, available_in, available_transitions,
}
use strav_1_x.Machine.Repository.{Repository, transition, announce}
use strav_1_x.Machine.Laws.{
  can-apply, can-refuses, transition-refuses, transition-effect_throws, available_transitions-can,
  refuses,
}
use strav_1_x.Machine.Moves.{transition-IsMove, IsMove}

-- What the application was told.
abbrev Trace : Type 0
Trace = List String

abbrev unless_locked : Call Trace Bool
unless_locked (entity, w) = elim (lookup "locked" entity) [
  | some (flag true) ↦ (ok false, (entity, w))
  | _ ↦ (ok true, (entity, w))
]

abbrev notify : TransitionMeta → Call Trace (Unit {0})
notify meta (entity, w) = (ok tt, (entity, w ++ meta.to ∷ []))

abbrev order_machine : MachineDefinition Trace
order_machine = record {
  field = "status";
  initial = "pending";
  states = "pending" ∷ "processing" ∷ "shipped" ∷ "cancelled" ∷ [];
  transitions =
      ("process", record { from = one "pending"; to = "processing" })
      ∷ ("ship", record { from = one "processing"; to = "shipped" })
      ∷ ("cancel", record { from = many ("pending" ∷ "processing" ∷ []); to = "cancelled" })
      ∷ [];
  guards = ("cancel", unless_locked) ∷ [];
  effects = ("ship", notify) ∷ [];
  events = ("ship", "order.shipped") ∷ [];
}

-- `update` sets the columns; the bus records the event's name.
abbrev orders : Repository Trace
orders = record {
  update =
      λ changes s. (ok tt, (elim changes [ [] ↦ s.0 | (k, v) ∷ more ↦ Dict.insert k v s.0 ], s.1));
  events = some (λ event meta s. (ok tt, (s.0, s.1 ++ event ∷ [])));
}

abbrev order_in : String → Entity × Trace
order_in status = (("status", text status) ∷ ("locked", flag true) ∷ [], [])

opened : Unit {0}
unfolding can apply move run_guard from_map available_in available_transitions transition announce
    lookup Dict.insert
opened = tt

ships : transition orders order_machine "ship" (order_in "processing") ≡ (
  ok (record { from = some (text "processing"); to = "shipped"; transition = "ship" }),
  (("status", text "shipped") ∷ ("locked", flag true) ∷ [], "shipped" ∷ "order.shipped" ∷ []),
)
unfolding opened
ships = refl

can-apply_example :
    (d : TransitionDefinition) × (lookup "ship" order_machine.transitions ≡ some d)
    × (apply order_machine "ship" (order_in "processing")
        ≡ move order_machine
            (meta_of order_machine (some (text "processing")) d "ship")
            (can order_machine "ship" (order_in "processing")).1)
unfolding opened
can-apply_example = can-apply order_machine "ship" (order_in "processing") refl

can-refuses_example :
    (e : Fault) × (apply order_machine "cancel" (order_in "pending")
      ≡ (throws e, (can order_machine "cancel" (order_in "pending")).1))
    × (refuses e ≡ true)
unfolding opened
can-refuses_example = can-refuses order_machine "cancel" (order_in "pending") refl

transition-refuses_example :
    (e : Fault) × (transition orders order_machine "cancel" (order_in "pending")
      ≡ (throws e, (can order_machine "cancel" (order_in "pending")).1))
    × (refuses e ≡ true)
unfolding opened
transition-refuses_example =
    transition-refuses order_machine "cancel" (order_in "pending") orders refl

abbrev silent_machine : MachineDefinition Trace
silent_machine = record order_machine {
  effects = ("ship", λ meta s. (throws (thrown "no carrier"), s)) ∷ [];
}

transition-effect_throws_example :
    transition orders silent_machine "ship" (order_in "processing")
    ≡ (throws (thrown "no carrier"), order_in "shipped")
unfolding opened
transition-effect_throws_example =
    transition-effect_throws silent_machine "ship" (order_in "processing") orders
      (record { from = one "processing"; to = "shipped" }) (thrown "no carrier")
      (λ meta s. (throws (thrown "no carrier"), s)) refl refl refl refl

available_transitions-can_example :
    can order_machine "process" (order_in "pending")
    ≡ (ok (includes "process" ("process" ∷ "cancel" ∷ [])), order_in "pending")
unfolding opened
available_transitions-can_example =
    available_transitions-can order_machine "process" (order_in "pending")
      (refl, (refl, (refl, tt))) refl

abbrev open_machine : MachineDefinition Trace
open_machine = record order_machine { guards = [] }

only_notify :
    (name : String) (f : TransitionMeta → Call Trace (Unit {0}))
    → lookup name open_machine.effects ≡ some f
    → notify ≡ f
unfolding lookup
only_notify name f h = ground (arith, h)

only_bus :
    (emit : String → TransitionMeta → Call Trace (Unit {0}))
    → orders.events ≡ some emit
    → (λ event meta s. (ok tt, (s.0, s.1 ++ event ∷ []))) ≡ emit
only_bus emit h = ground (arith, h)

update_sets : (e : Entity) (v : Json) → lookup "status" (Dict.insert "status" v e) ≡ some v
update_sets e v = simp lookup-insert

transition-IsMove_example :
    IsMove open_machine "ship"
      (some (text "processing"))
      (record { from = some (text "processing"); to = "shipped"; transition = "ship" })
      (some (text "shipped"))
unfolding opened
transition-IsMove_example =
    transition-IsMove open_machine orders (λ name g h. absurd cc)
      (λ name f h meta s. ap (λ g. state open_machine (g meta s).1.0) (sym (only_notify name f h)))
      (λ s to at. update_sets s.0 (text to))
      (λ emit h event meta s.
        ap (λ g. state open_machine (g event meta s).1.0) (sym (only_bus emit h)))
      "ship" _ (order_in "processing") refl
