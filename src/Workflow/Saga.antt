-- ===== src/Workflow/Saga.antt =====
-- About `run` of packages/workflow/src/workflow.ts when a step throws, and when none does.
use mathlib.Core.List.{reverse, reverse-cons}
use strav_1_x.Common.{
  String, ◌≡◌, refl, ◌∙◌, Option, none, some, List, [], ◌∷◌, ◌++◌, ok, throws, arith, append_assoc,
  append-nil, Result-cases, inl, inr,
}
use strav_1_x.Common.Dict.{Dict}
use strav_1_x.Workflow.{
  Value, WorkflowContext, WorkflowStep, Setup, name_of, execute, compensators_for, run_compensators,
  compensate_steps, compensate, report, wrap, run_steps, run, continue_with,
}

module _ {W X : Type 0} where
  -- All the steps complete, one after another: the results and the world after them.
  unfoldable pub execute_all :
      Setup X → List (WorkflowStep W X) → WorkflowContext → W → Option (Dict Value × W)
  execute_all env [] ctx w = some (ctx.results, w)
  execute_all env (s ∷ ss) ctx w =
      continue_with (λ results w'. execute_all env ss (record ctx { results = results }) w')
        (λ e w'. none) (execute env s ctx w)

  -- The compensators of the steps, the last step's first, with what they threw.
  unfoldable pub undo_all : List (WorkflowStep W X) → WorkflowContext → W → List (String × X) × W
  undo_all [] ctx w = ([], w)
  undo_all (s ∷ ss) ctx w =
      let (later, w') = undo_all ss ctx w in
      let (own, w'') = run_compensators (compensators_for s) ctx w' in (later ++ own, w'')

  compensate_steps-append :
      (xs ys : List (WorkflowStep W X)) (ctx : WorkflowContext) (w : W)
      → compensate_steps (xs ++ ys) ctx w ≡ (
        (compensate_steps xs ctx w).0 ++ (compensate_steps ys ctx (compensate_steps xs ctx w).1).0,
        (compensate_steps ys ctx (compensate_steps xs ctx w).1).1,
      )
  unfolding compensate_steps
  compensate_steps-append [] ys ctx w = refl
  compensate_steps-append (x ∷ xs) ys ctx w =
      rw
        (
          compensate_steps-append xs ys ctx (run_compensators (compensators_for x) ctx w).1,
          append_assoc,
        )
        refl

  compensate_steps-reverse :
      (ss : List (WorkflowStep W X)) (ctx : WorkflowContext) (w : W)
      → compensate_steps (reverse ss) ctx w ≡ undo_all ss ctx w
  unfolding undo_all compensate_steps
  compensate_steps-reverse [] ctx w = refl
  compensate_steps-reverse (s ∷ ss) ctx w = rw (reverse-cons) (
      rw (compensate_steps-append (reverse ss) (s ∷ []) ctx w)
        (rw (compensate_steps-reverse ss ctx w, append-nil) refl))

  run_steps-throws :
      (env : Setup X) (before : List (WorkflowStep W X)) (s : WorkflowStep W X)
      (others completed : List (WorkflowStep W X)) (ctx : WorkflowContext) (w w1 w2 : W)
      (results : Dict Value) (e : X)
      → execute_all env before ctx w ≡ some (results, w1)
      → execute env s (record ctx { results = results }) w1 ≡ (throws e, w2)
      → run_steps env (before ++ s ∷ others) completed ctx w
        ≡ compensate
            (completed ++ before)
            (record ctx { results = results })
            (wrap env (name_of s) e)
            w2
  unfolding run_steps execute_all
  run_steps-throws env [] s others completed ctx w w1 w2 results e =
      λ h k. ground (arith, h, k, append-nil completed)
  run_steps-throws env (p ∷ before) s others completed ctx w w1 w2 results e =
      elim (Result-cases (execute env p ctx w).0) [
        | inl (r, eq) ↦ λ h k. ground (
          arith,
          h,
          k,
          eq,
          append_assoc completed (p ∷ []) before,
          run_steps-throws env before s others (completed ++ p ∷ []) (record ctx { results = r })
              (execute env p ctx w).1 w1 w2 results e,
        )
        | inr (f, eq) ↦ λ h k. ground (arith, h, k, eq)
      ]

  -- Steps that complete, then one that throws: `run` runs no further step, runs the compensators of
  -- the steps that completed, the last step's first, past those that throw, and throws a
  -- WorkflowError of the step, or a CompensationError with what the compensators threw. Of the step
  -- that threw nothing is undone; that goes for a parallel step too, whose other entries have ended by
  -- then and may have returned.
  pub run-throws :
      (env : Setup X) (before : List (WorkflowStep W X)) (s : WorkflowStep W X)
      (others : List (WorkflowStep W X)) (input : Value) (w w1 w2 : W) (results : Dict Value)
      (e : X)
      → execute_all env before (record { input = input; results = [] }) w ≡ some (results, w1)
      → execute env s (record { input = input; results = results }) w1 ≡ (throws e, w2)
      → run env (before ++ s ∷ others) input w ≡ (
        throws (
            report
              (wrap env (name_of s) e)
              (undo_all before (record { input = input; results = results }) w2).0),
        (undo_all before (record { input = input; results = results }) w2).1,
      )
  unfolding run compensate
  run-throws env before s others input w w1 w2 results e h k =
      run_steps-throws env before s others [] (record { input = input; results = [] }) w w1 w2
        results e h k
      ∙ rw (compensate_steps-reverse before (record { input = input; results = results }) w2) refl

  run_steps-completes :
      (env : Setup X) (ss completed : List (WorkflowStep W X)) (ctx : WorkflowContext) (w w1 : W)
      (results : Dict Value)
      → execute_all env ss ctx w ≡ some (results, w1)
      → run_steps env ss completed ctx w ≡ (ok results, w1)
  unfolding run_steps execute_all
  run_steps-completes env [] completed ctx w w1 results = λ h. ground (arith, h)
  run_steps-completes env (p ∷ ss) completed ctx w w1 results =
      elim (Result-cases (execute env p ctx w).0) [
        | inl (r, eq) ↦ λ h. ground (
          arith,
          h,
          eq,
          run_steps-completes env ss (completed ++ p ∷ []) (record ctx { results = r })
              (execute env p ctx w).1 w1 results,
        )
        | inr (f, eq) ↦ λ h. ground (arith, h, eq)
      ]

  -- When every step completes, `run` returns the results and compensates nothing.
  pub run-completes :
      (env : Setup X) (ss : List (WorkflowStep W X)) (input : Value) (w w1 : W)
      (results : Dict Value)
      → execute_all env ss (record { input = input; results = [] }) w ≡ some (results, w1)
      → run env ss input w ≡ (ok results, w1)
  unfolding run
  run-completes env ss input w w1 results h =
      run_steps-completes env ss [] (record { input = input; results = [] }) w w1 results h
