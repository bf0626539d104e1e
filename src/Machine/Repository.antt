-- ===== src/Machine/Repository.antt =====
-- `transition` of packages/machine/src/stateful.ts: a repository whose `update` and whose event bus
-- are given.
use strav_1_x.Common.{String, Option, none, some, ◌∷◌, [], Result, ok, throws}
use strav_1_x.Common.Json.{text}
use strav_1_x.Common.Dict.{lookup}
use strav_1_x.Machine.Definition.{Entity, TransitionMeta, Fault, Call, MachineDefinition, apply}

-- `events` is the bus's `emit`, when the repository has a bus.
pub record Repository (W : Type 0) : Type 0 where
  pub update : Entity → Call W (Unit {0})
  pub events : Option (String → TransitionMeta → Call W (Unit {0}))

module _ {W : Type 0} (repo : Repository W) (m : MachineDefinition W) where
  abbrev pub answer_with :
      TransitionMeta
      → Result Fault (Unit {0}) × (Entity × W)
      → Result Fault TransitionMeta × (Entity × W)
  answer_with meta (ok u, s) = (ok meta, s)
  answer_with meta (throws e, s) = (throws e, s)

  -- The event of the transition, when there are one and a bus.
  unfoldable pub announce : TransitionMeta → Call W TransitionMeta
  announce meta s = elim (lookup meta.transition m.events) [
    | none ↦ (ok meta, s)
    | some event ↦ elim repo.events [
      | none ↦ (ok meta, s)
      | some emit ↦ answer_with meta (emit event meta s)
    ]
  ]

  abbrev pub after_update :
      TransitionMeta
      → Result Fault (Unit {0}) × (Entity × W)
      → Result Fault TransitionMeta × (Entity × W)
  after_update meta (ok u, s) = announce meta s
  after_update meta (throws e, s) = (throws e, s)

  abbrev pub after_apply :
      Result Fault TransitionMeta × (Entity × W) → Result Fault TransitionMeta × (Entity × W)
  after_apply (ok meta, s) = after_update meta (repo.update ((m.field, text meta.to) ∷ []) s)
  after_apply (throws e, s) = (throws e, s)

  unfoldable pub transition : String → Call W TransitionMeta
  transition name s = after_apply (apply m name s)
