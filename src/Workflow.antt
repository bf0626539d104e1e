-- ===== src/Workflow.antt =====
-- packages/workflow/src: workflow.ts and step.ts, a workflow that runs in the process and compensates
-- what it completed when a step throws. Handlers and compensators are functions of the context and of
-- a world `W`; what they throw is an `X`. Those of `until`, `feedback` and `mapInput` do not throw.
pub mod Saga
pub mod Tests
use mathlib.Core.List.{reverse}
use strav_1_x.Common.{
  ℕ, zero, suc, String, Bool, true, false, Option, none, some, List, [], ◌∷◌, ◌++◌, Result, ok,
  throws, if◌then◌else◌,
}
use strav_1_x.Common.Json.{Json}
use strav_1_x.Common.Dict
use strav_1_x.Common.Dict.{Dict, lookup}

-- A value may be undefined.
abbrev pub Value : Type 0
Value = Option Json

pub record WorkflowContext : Type 0 where
  pub input : Value
  pub results : Dict Value

module _ (W X : Type 0) where
  abbrev pub Call : Type 0 → Type 0
  Call A = WorkflowContext → W → Result X A × W

  pub record SequentialStep : Type 0 where
    pub name : String
    pub handler : Call Value
    pub compensate : Option (Call (Unit {0}))

  pub record ParallelStep : Type 0 where
    pub name : String
    pub entries : List SequentialStep

  pub record RouteStep : Type 0 where
    pub name : String
    pub resolver : Call String
    pub branches : Dict (Call Value)

  pub record LoopStep : Type 0 where
    pub name : String
    pub handler : Value → Call Value
    pub max_iterations : ℕ
    pub until : Option (Value → ℕ → Bool)
    pub feedback : Option (Value → Value)
    pub map_input : Option (WorkflowContext → Value)

  pub data WorkflowStep : Type 0 where
    step : SequentialStep → WorkflowStep
    parallel : ParallelStep → WorkflowStep
    route : RouteStep → WorkflowStep
    loop : LoopStep → WorkflowStep

abbrev pub name_of : {W X : Type 0} → WorkflowStep W X → String
name_of (step s) = s.name
name_of (parallel s) = s.name
name_of (route s) = s.name
name_of (loop s) = s.name

-- A `WorkflowError` of a step: of what it threw, or as it was thrown, if that was one already.
pub data WorkflowError (X : Type 0) : Type 0 where
  wraps : String → X → WorkflowError X
  as_thrown : X → WorkflowError X

pub data RunError (X : Type 0) : Type 0 where
  workflow_error : WorkflowError X → RunError X
  compensation_error : WorkflowError X → List (String × X) → RunError X

-- Which errors are a `WorkflowError`, and which of the rejections of a `Promise.all` arrives first.
pub record Setup (X : Type 0) : Type 0 where
  pub is_workflow_error : X → Bool
  pub first_rejection : X → List X → X

-- `until?.(lastResult, i + 1)`
abbrev pub stops : Option (Value → ℕ → Bool) → Value → ℕ → Bool
stops none r i = false
stops (some until) r i = until r i

abbrev pub fed_back : Option (Value → Value) → Value → Value → Value
fed_back none r input = input
fed_back (some feedback) r input = feedback r

abbrev pub seed_of : Option (WorkflowContext → Value) → WorkflowContext → Value
seed_of none ctx = ctx.input
seed_of (some map_input) ctx = map_input ctx

unfoldable pub set_all : Dict Value → Dict Value → Dict Value
set_all [] results = results
set_all ((name, v) ∷ more) results = set_all more (Dict.insert name v results)

-- The values of the entries, or the errors.
unfoldable pub settle : {X : Type 0} → List (String × Result X Value) → Dict Value × List X
settle [] = ([], [])
settle ((name, ok v) ∷ rs) = let (vs, es) = settle rs in ((name, v) ∷ vs, es)
settle ((name, throws e) ∷ rs) = let (vs, es) = settle rs in (vs, e ∷ es)

abbrev pub report : {X : Type 0} → WorkflowError X → List (String × X) → RunError X
report error [] = workflow_error error
report error (f ∷ fs) = compensation_error error (f ∷ fs)

abbrev pub wrap : {X : Type 0} → Setup X → String → X → WorkflowError X
wrap env name e = if env.is_workflow_error e then as_thrown e else wraps name e

-- What follows a call that may throw.
abbrev pub continue_with : {W X A B : Type 0} → (A → W → B) → (X → W → B) → Result X A × W → B
continue_with go stop (ok a, w) = go a w
continue_with go stop (throws e, w) = stop e w

module _ {W X : Type 0} where
  -- Every entry runs to its end, in the order of declaration.
  unfoldable pub run_entries :
      List (SequentialStep W X) → WorkflowContext → W → List (String × Result X Value) × W
  run_entries [] ctx w = ([], w)
  run_entries (s ∷ ss) ctx w =
      let (r, w') = s.handler ctx w in
      let (rs, w'') = run_entries ss ctx w' in ((s.name, r) ∷ rs, w'')

  -- The loop from iteration `i`, with the iterations that are left.
  unfoldable pub iterate :
      LoopStep W X → WorkflowContext → ℕ → ℕ → Value → Value → W → Result X Value × W
  iterate s ctx zero i input last w = (ok last, w)
  iterate s ctx (suc left) i input last w =
      continue_with
        (λ r w'. elim (stops s.until r (suc i)) [
          | true ↦ (ok r, w')
          | false ↦ iterate s ctx left (suc i) (fed_back s.feedback r input) r w'
        ])
        (λ e w'. (throws e, w')) (s.handler input ctx w)

  -- `results[name] = value`
  abbrev pub set_result : String → WorkflowContext → Result X Value × W → Result X (Dict Value) × W
  set_result name ctx (ok v, w) = (ok (Dict.insert name v ctx.results), w)
  set_result name ctx (throws e, w) = (throws e, w)

  abbrev pub set_entries :
      Setup X → WorkflowContext → Dict Value × List X → W → Result X (Dict Value) × W
  set_entries env ctx (values, []) w = (ok (set_all values ctx.results), w)
  set_entries env ctx (values, e ∷ es) w = (throws (env.first_rejection e es), w)

  -- The branch that the resolver named; an unknown one does nothing.
  abbrev pub take_branch :
      RouteStep W X → WorkflowContext → Result X String × W → Result X (Dict Value) × W
  take_branch s ctx (throws e, w) = (throws e, w)
  take_branch s ctx (ok key, w) = elim (lookup key s.branches) [
    | none ↦ (ok ctx.results, w)
    | some branch ↦ set_result s.name ctx (branch ctx w)
  ]

  abbrev pub run_loop : LoopStep W X → WorkflowContext → ℕ → W → Result X (Dict Value) × W
  run_loop s ctx zero w = (ok ctx.results, w)
  run_loop s ctx (suc n) w =
      set_result s.name ctx (iterate s ctx (suc n) 0 (seed_of s.map_input ctx) none w)

  -- `execute`: the results after the step.
  unfoldable pub execute :
      Setup X → WorkflowStep W X → WorkflowContext → W → Result X (Dict Value) × W
  execute env (step s) ctx w = set_result s.name ctx (s.handler ctx w)
  execute env (parallel s) ctx w =
      let (rs, w') = run_entries s.entries ctx w in set_entries env ctx (settle rs) w'
  execute env (route s) ctx w = take_branch s ctx (s.resolver ctx w)
  execute env (loop s) ctx w = run_loop s ctx s.max_iterations w

  abbrev pub compensator_of : SequentialStep W X → List (String × Call W X (Unit {0}))
  compensator_of s = elim s.compensate [ none ↦ [] | some undo ↦ (s.name, undo) ∷ [] ]

  unfoldable pub entry_compensators :
      List (SequentialStep W X) → List (String × Call W X (Unit {0}))
  entry_compensators [] = []
  entry_compensators (s ∷ ss) = compensator_of s ++ entry_compensators ss

  abbrev pub compensators_for : WorkflowStep W X → List (String × Call W X (Unit {0}))
  compensators_for (step s) = compensator_of s
  compensators_for (parallel s) = entry_compensators s.entries
  compensators_for _ = []

  -- What a compensator throws is kept with its name, and the next one runs.
  unfoldable pub run_compensators :
      List (String × Call W X (Unit {0})) → WorkflowContext → W → List (String × X) × W
  run_compensators [] ctx w = ([], w)
  run_compensators ((name, undo) ∷ more) ctx w =
      let (r, w') = undo ctx w in
      let (failures, w'') = run_compensators more ctx w' in
      (elim r [ ok u ↦ failures | throws e ↦ (name, e) ∷ failures ], w'')

  -- The steps in the order given.
  unfoldable pub compensate_steps :
      List (WorkflowStep W X) → WorkflowContext → W → List (String × X) × W
  compensate_steps [] ctx w = ([], w)
  compensate_steps (s ∷ ss) ctx w =
      let (failures, w') = run_compensators (compensators_for s) ctx w in
      let (more, w'') = compensate_steps ss ctx w' in (failures ++ more, w'')

  -- `compensate`, and the error that `run` throws after it.
  unfoldable pub compensate :
      List (WorkflowStep W X)
      → WorkflowContext
      → WorkflowError X
      → W
      → Result (RunError X) (Dict Value) × W
  compensate completed ctx error w =
      let (failures, w') = compensate_steps (reverse completed) ctx w in
      (throws (report error failures), w')

  -- The steps that are left, after those that completed.
  unfoldable pub run_steps :
      Setup X
      → List (WorkflowStep W X)
      → List (WorkflowStep W X)
      → WorkflowContext
      → W
      → Result (RunError X) (Dict Value) × W
  run_steps env [] completed ctx w = (ok ctx.results, w)
  run_steps env (s ∷ ss) completed ctx w =
      continue_with
        (λ results w'. run_steps env ss (completed ++ s ∷ []) (record ctx { results = results }) w')
        (λ e w'. compensate completed ctx (wrap env (name_of s) e) w') (execute env s ctx w)

  -- `run`; the duration is left out.
  unfoldable pub run :
      Setup X → List (WorkflowStep W X) → Value → W → Result (RunError X) (Dict Value) × W
  run env steps input w = run_steps env steps [] (record { input = input; results = [] }) w
