-- ===== src/Machine/Moves.antt =====
-- About `transition` of packages/machine/src/stateful.ts: the states before and after it.
use strav_1_x.Common.{
  String, Bool, true, false, ◌≡◌, refl, sym, ◌∙◌, Option, some, ◌∷◌, [], Result, ok, throws, arith,
  eq_refl, inl, inr, Option-cases, ap, Bool-cases,
}
use strav_1_x.Common.Json.{Json, text}
use strav_1_x.Common.Dict
use strav_1_x.Common.Dict.{Dict, lookup, lookup-insert}
use strav_1_x.Machine.Definition.{
  Entity, TransitionDefinition, TransitionMeta, Fault, Call, MachineDefinition, states_of, allows,
  apply, move, run_guard, meta_of, state, after_guard, answer,
}
use strav_1_x.Machine.Repository.{
  Repository, transition, announce, after_update, after_apply, answer_with,
}
use strav_1_x.Machine.Laws.{lookup-from_map}

-- The call leaves the field of the entity as it is.
abbrev pub KeepsField : {W A : Type 0} → MachineDefinition W → Call W A → Type 0
KeepsField {W} m f = (s : Entity × W) → state m (f s).1.0 ≡ state m s.0

-- What `apply` returned, along an edge of the definition.
pub record IsMove {W : Type 0} (m : MachineDefinition W) (name : String) (before : Option Json)
    (meta : TransitionMeta) (after : Option Json) : Type 0 where
  pub edge : TransitionDefinition
  pub found : lookup name m.transitions ≡ some edge
  pub leaves : allows before (states_of edge.from) ≡ true
  pub reports : meta ≡ meta_of m before edge name
  pub arrives : after ≡ some (text edge.to)

field_set :
    (entity : Entity) (field : String) (v : Json)
    → lookup field (Dict.insert field v entity) ≡ some v
field_set entity field v = simp (lookup-insert, eq_refl)

module _ {W : Type 0} (m : MachineDefinition W) (repo : Repository W)
    (guards : (name : String) (g : Call W Bool) → lookup name m.guards ≡ some g → KeepsField m g)
    (effects : (name : String) (f : TransitionMeta → Call W (Unit {0}))
      → lookup name m.effects ≡ some f
      → (meta : TransitionMeta) → KeepsField m (f meta))
    (updates : (s : Entity × W) (to : String)
      → state m s.0 ≡ some (text to)
      → state m (repo.update ((m.field, text to) ∷ []) s).1.0 ≡ some (text to))
    (emits : (emit : String → TransitionMeta → Call W (Unit {0}))
      → repo.events ≡ some emit
      → (event : String) (meta : TransitionMeta) → KeepsField m (emit event meta)) where
  move-state :
      (meta : TransitionMeta) (s : Entity × W) → state m (move m meta s).1.0 ≡ some (text meta.to)
  unfolding move
  move-state meta (entity, w) = elim (Option-cases (lookup meta.transition m.effects)) [
    | inl e ↦ rw (e, move) (field_set entity m.field (text meta.to))
    | inr (f, e) ↦ rw (e, move) (effects _ f e meta _ ∙ field_set entity m.field (text meta.to))
  ]

  answer_ok :
      (mt meta : TransitionMeta) (r : Result Fault (Unit {0})) → answer m mt r ≡ ok meta → meta ≡ mt
  answer_ok mt meta (ok u) h = ground (arith, h)
  answer_ok mt meta (throws e) h = absurd cc

  move-reports : (mt meta : TransitionMeta) (s : Entity × W) → (move m mt s).0 ≡ ok meta → meta ≡ mt
  unfolding move
  move-reports mt meta (entity, w) = elim (Option-cases (lookup mt.transition m.effects)) [
    | inl e ↦ rw (e, move) (λ h. ground (arith, h))
    | inr (f, e) ↦ rw (e, move) (λ h. answer_ok mt meta _ h)
  ]

  after_guard-IsMove :
      (name : String) (before : Option Json) (d : TransitionDefinition) (meta : TransitionMeta)
      (o : Result Fault Bool × (Entity × W))
      → lookup name m.transitions ≡ some d
      → allows before (states_of d.from) ≡ true
      → (after_guard m (meta_of m before d name) o).0 ≡ ok meta
      → IsMove m name before meta (state m (after_guard m (meta_of m before d name) o).1.0)
  after_guard-IsMove name before d meta (ok true, s) found leaves h = record {
    edge = d;
    found = found;
    leaves = leaves;
    reports = move-reports _ meta s h;
    arrives = move-state _ s;
  }
  after_guard-IsMove name before d meta (ok false, s) found leaves h = absurd cc
  after_guard-IsMove name before d meta (throws e, s) found leaves h = absurd cc

  apply-IsMove :
      (name : String) (meta : TransitionMeta) (s : Entity × W)
      → (apply m name s).0 ≡ ok meta
      → IsMove m name (state m s.0) meta (state m (apply m name s).1.0)
  unfolding apply
  apply-IsMove name meta s = elim (Option-cases (lookup name m.transitions)) [
    | inl e ↦ rw (e, apply) (λ h. absurd cc)
    | inr (d, e) ↦ elim (Bool-cases (allows (state m s.0) (states_of d.from))) [
      | inl a ↦
          rw (e, lookup-from_map name m.transitions d e, a, apply)
            (λ h. after_guard-IsMove name (state m s.0) d meta (run_guard m name s) e a h)
      | inr a ↦ rw (e, lookup-from_map name m.transitions d e, a, apply) (λ h. absurd cc)
    ]
  ]

  announce-state :
      (mt meta : TransitionMeta) (s : Entity × W)
      → (announce repo m mt s).0 ≡ ok meta
      → (meta ≡ mt) × (state m (announce repo m mt s).1.0 ≡ state m s.0)
  unfolding announce
  announce-state mt meta s = elim (Option-cases (lookup mt.transition m.events)) [
    | inl e ↦ rw (e, announce) (λ h. (ground (arith, h), refl))
    | inr (event, e) ↦ elim (Option-cases repo.events) [
      | inl none_set ↦ rw (e, none_set, announce) (λ h. (ground (arith, h), refl))
      | inr (emit, set) ↦
          rw (e, set, announce) (emitted (emit event mt s) (emits emit set event mt s))
    ]
  ]
    where
      emitted :
          (o : Result Fault (Unit {0}) × (Entity × W))
          → state m o.1.0 ≡ state m s.0
          → (answer_with repo m mt o).0 ≡ ok meta
          → (meta ≡ mt) × (state m (answer_with repo m mt o).1.0 ≡ state m s.0)
      emitted (ok u, t) same h = (ground (arith, h), same)
      emitted (throws e, t) same h = absurd cc

  after_update-state :
      (mt meta : TransitionMeta) (before : Option Json) (o : Result Fault (Unit {0}) × (Entity × W))
      → state m o.1.0 ≡ before
      → (after_update repo m mt o).0 ≡ ok meta
      → (meta ≡ mt) × (state m (after_update repo m mt o).1.0 ≡ before)
  after_update-state mt meta before (ok u, s) at h =
      let (same, kept) = announce-state mt meta s h in (same, kept ∙ at)
  after_update-state mt meta before (throws e, s) at h = absurd cc

  -- Guards, effects, the repository's `update` and the bus keep the machine's field, and `update`
  -- sets it: a transition that returns was declared, was allowed from the state that the entity was
  -- in, reports that state and its target, and leaves the entity in its target.
  pub transition-IsMove :
      (name : String) (meta : TransitionMeta) (s : Entity × W)
      → (transition repo m name s).0 ≡ ok meta
      → IsMove m name (state m s.0) meta (state m (transition repo m name s).1.0)
  unfolding transition
  transition-IsMove name meta s = finish (apply m name s) (λ mt h. apply-IsMove name mt s h)
    where
      finish :
          (o : Result Fault TransitionMeta × (Entity × W))
          → ((mt : TransitionMeta) → o.0 ≡ ok mt → IsMove m name (state m s.0) mt (state m o.1.0))
          → (after_apply repo m o).0 ≡ ok meta
          → IsMove m name (state m s.0) meta (state m (after_apply repo m o).1.0)
      finish (throws e, t) moved h = absurd cc
      finish (ok mt, t) moved h =
          let there = moved mt refl in
          let (same, kept) =
            after_update-state mt meta _ (repo.update ((m.field, text mt.to) ∷ []) t)
              (updates t mt.to (there.arrives ∙ ap (λ k. some (text k.to)) (sym there.reports)))
              h in
          record {
            edge = there.edge;
            found = there.found;
            leaves = there.leaves;
            reports = same ∙ there.reports;
            arrives = kept ∙ ap (λ k. some (text k.to)) there.reports;
          }
