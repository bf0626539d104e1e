-- ===== src/Machine/Laws.antt =====
-- About `can`, `availableTransitions`, `apply` and `transition` of packages/machine/src.
use strav_1_x.Common.{
  String, Bool, true, false, ◌≡◌, refl, Option, none, some, List, [], ◌∷◌, ok, throws, arith,
  eq_iff, includes, inl, inr, Option-cases, Bool-cases,
}
use strav_1_x.Common.Json.{Json, text}
use strav_1_x.Common.Dict
use strav_1_x.Common.Dict.{Dict, lookup}
use strav_1_x.Machine.Definition.{
  Entity, TransitionMeta, Call, TransitionDefinition, Fault, transition_error, guard_error,
  MachineDefinition, states_of, from_map, allows, available_in, can, available_transitions, apply,
  move, run_guard, meta_of, state,
}
use strav_1_x.Machine.Repository.{Repository, transition}

pub lookup-from_map :
    (name : String) (ts : Dict TransitionDefinition) (d : TransitionDefinition)
    → lookup name ts ≡ some d
    → lookup name (from_map ts) ≡ some (states_of d.from)
unfolding lookup from_map
lookup-from_map name [] d h = absurd cc
lookup-from_map name ((k, e) ∷ ts) d h = ground (arith, h, lookup-from_map name ts d)

lookup-from_map-none :
    (name : String) (ts : Dict TransitionDefinition)
    → lookup name ts ≡ none
    → lookup name (from_map ts) ≡ none
unfolding lookup from_map
lookup-from_map-none name [] h = refl
lookup-from_map-none name ((k, e) ∷ ts) h = ground (arith, h, lookup-from_map-none name ts)

-- A refusal of the machine's own.
abbrev pub refuses : Fault → Bool
refuses (transition_error name current allowed) = true
refuses (guard_error name current) = true
refuses _ = false

module _ {W : Type 0} (m : MachineDefinition W) (name : String) (s : Entity × W) where
  -- When `can` answers true, `apply` gets past its tests: it sets the field of the entity that the
  -- guard left and runs the effect, for a transition that the definition has.
  pub can-apply :
      (can m name s).0 ≡ ok true
      → (d : TransitionDefinition) × (lookup name m.transitions ≡ some d)
        × (apply m name s ≡ move m (meta_of m (state m s.0) d name) (can m name s).1)
  unfolding can apply
  can-apply accepted = elim (Option-cases (lookup name m.transitions)) [
    | inl e ↦ absurd (ground (arith, accepted, lookup-from_map-none name m.transitions e))
    | inr (d, e) ↦ (d, e, ground (arith, accepted, e, lookup-from_map name m.transitions d e))
  ]

  -- When `can` answers false, `apply` throws a TransitionError or a GuardError and leaves the entity
  -- and the world as the guard left them.
  pub can-refuses :
      (can m name s).0 ≡ ok false
      → (e : Fault) × (apply m name s ≡ (throws e, (can m name s).1)) × (refuses e ≡ true)
  unfolding can apply
  can-refuses refused = elim (Option-cases (lookup name m.transitions)) [
    | inl e ↦ (
      transition_error name (state m s.0) none,
      ground (arith, refused, e, lookup-from_map-none name m.transitions e),
      refl,
    )
    | inr (d, e) ↦ elim (Bool-cases (allows (state m s.0) (states_of d.from))) [
      | inl a ↦ (
        guard_error name (state m s.0),
        ground (arith, refused, e, a, lookup-from_map name m.transitions d e),
        refl,
      )
      | inr a ↦ (
        transition_error name (state m s.0) (some (states_of d.from)),
        ground (arith, refused, e, a, lookup-from_map name m.transitions d e),
        refl,
      )
    ]
  ]

  -- A transition that `can` refuses throws out of the repository's `transition` too, and neither
  -- updates the row nor emits the event.
  pub transition-refuses :
      (repo : Repository W)
      → (can m name s).0 ≡ ok false
      → (e : Fault) × (transition repo m name s ≡ (throws e, (can m name s).1)) × (refuses e ≡ true)
  unfolding transition
  transition-refuses repo refused =
      let (e, eq, r) = can-refuses refused in (e, rw (eq, transition) refl, r)

  move-throws :
      (meta : TransitionMeta) (effect : TransitionMeta → Call W (Unit {0})) (entity : Entity)
      (w : W) (e : Fault)
      → lookup meta.transition m.effects ≡ some effect
      → (effect meta (Dict.insert m.field (text meta.to) entity, w)).0 ≡ throws e
      → move m meta (entity, w)
        ≡ (throws e, (effect meta (Dict.insert m.field (text meta.to) entity, w)).1)
  unfolding move
  move-throws meta effect entity w e found threw = ground (arith, found, threw)

  -- An effect that throws when it is given the entity that the guard left with the field already set to
  -- the target: `transition` throws the same, the entity and the world are as the effect left them, and
  -- neither is the row updated nor the event emitted.
  pub transition-effect_throws :
      (repo : Repository W) (d : TransitionDefinition) (e : Fault)
      (effect : TransitionMeta → Call W (Unit {0}))
      → (can m name s).0 ≡ ok true
      → lookup name m.transitions ≡ some d
      → lookup name m.effects ≡ some effect
      → (effect
          (meta_of m (state m s.0) d name)
          (Dict.insert m.field (text d.to) (can m name s).1.0, (can m name s).1.1)).0
        ≡ throws e
      → transition repo m name s ≡ (
        throws e,
        (effect
            (meta_of m (state m s.0) d name)
            (Dict.insert m.field (text d.to) (can m name s).1.0, (can m name s).1.1)).1,
      )
  unfolding transition
  transition-effect_throws repo d e effect accepted found declared threw =
      let (d', found', eq) = can-apply accepted in
      let moved =
        move-throws (meta_of m (state m s.0) d name) effect (can m name s).1.0 (can m name s).1.1 e
          declared threw in
      ground (arith, eq, found, found', moved)

-- No key comes twice.
abbrev pub IsDict : Dict TransitionDefinition → Type 0
IsDict [] = Unit
IsDict ((k, d) ∷ ts) = (lookup k ts ≡ none) × IsDict ts

abbrev allows_from : Option Json → Option (List String) → Bool
allows_from current none = false
allows_from current (some allowed) = allows current allowed

includes-available_in :
    (name : String) (current : Option Json) (ts : Dict TransitionDefinition)
    → IsDict ts
    → includes name (available_in current (from_map ts))
      ≡ allows_from current (lookup name (from_map ts))
unfolding lookup from_map available_in
includes-available_in name current [] h = refl
includes-available_in name current ((k, d) ∷ ts) (fresh, h) =
    ground (
      arith,
      eq_iff k name,
      includes-available_in name current ts h,
      lookup-from_map-none k ts fresh,
    )

-- `availableTransitions` lists exactly the transitions that `can` accepts, for those without a
-- guard.
pub available_transitions-can :
    {W : Type 0} (m : MachineDefinition W) (name : String) (s : Entity × W)
    → IsDict m.transitions
    → lookup name m.guards ≡ none
    → can m name s ≡ (ok (includes name (available_transitions m s.0)), s)
unfolding can available_transitions run_guard
available_transitions-can m name s h free =
    ground (arith, free, includes-available_in name (state m s.0) m.transitions h)
