-- ===== src/Durable/Invariant/Execute.antt =====
-- The invariant under `runNode`, for a node that does not wait for a signal.
use strav_1_x.Common.{
  ℕ, suc, ◌/◌, String, Bool, true, false, refl, Option, none, some, Bool-cases, Option-cases, inl,
  inr, Result, ok, throws, leb,
}
use strav_1_x.Common.Dict.{Dict, lookup}
use strav_1_x.Durable.Types.{
  Json, Call, Span, DurableContext, DurableNode, DurableLoop, DurableChildWorkflow, step, sleep,
  wait_for_signal, parallel, route, loop, child_workflow, RunState, LoopSlot, DurableSleep,
  at_least_zero,
}
use strav_1_x.Durable.Engine.{Engine, Setup, ◌>>=◌, pure}
use strav_1_x.Durable.Nodes.{
  or_throw, run_node, run_step_like, run_sleep, run_loop, run_child_workflow, start_child,
  after_body, after_condition, iterate, start, park,
}
use strav_1_x.Durable.Invariant.Statements.{insert_row_cases, update_run_found, insert_run_cases}
use strav_1_x.Durable.Returns.{
  Returns, Returns-ok, bind_ok, bind_throws, bind_Returns, Returns-throws, transaction-Returns,
}
use strav_1_x.Durable.Invariant.Kept.{
  IsQuiet, empty-IsQuiet, Kept, KeptNode, Kept-app, Kept-write_state, Kept-journal, Kept-insert_run,
}

park-IsQuiet :
    (now : ℕ) (name : String) (state : RunState) (attempt delay : ℕ) (since : Option ℕ)
    → IsQuiet state
    → IsQuiet (park now name state attempt delay since).1
park-IsQuiet now name state attempt delay none quiet = quiet
park-IsQuiet now name state attempt delay (some n) quiet = quiet

module _ {W : Type 0} (env : Setup W) (id : String) (cursor : ℕ) (workflow : String) (s : Engine W)
    (k : Kept env id cursor workflow s) (state : RunState) (quiet : IsQuiet state) where
  run_step_like_kept :
      (n : ℕ) (backoff : ℕ → Span) (ctx : DurableContext) (attempt : ℕ) (fn : Call W (Option Json))
      → Returns (KeptNode env id cursor workflow) (run_step_like n backoff ctx state attempt fn s)
  unfolding run_step_like
  run_step_like_kept n backoff ctx attempt fn =
      bind_ok _ _ _ s refl (Returns-ok _ (Kept-app env id cursor workflow s _ k, quiet))

  run_sleep_kept :
      (now : ℕ) (n : DurableSleep W) (ctx : DurableContext) (attempt : ℕ)
      → Returns (KeptNode env id cursor workflow) (run_sleep now n ctx state attempt s)
  unfolding run_sleep
  run_sleep_kept now n ctx attempt = bind_ok _ _ _ s refl (sleep_rest (n.delay ctx s.app).0)
    where
      sleep_rest :
          (r : Result String Span)
          → Returns (KeptNode env id cursor workflow) (
              ◌>>=◌
                (or_throw r)
                (λ requested. pure (
                  park now n.name state attempt
                    (at_least_zero requested / 1000)
                    (lookup n.name state.sleeps)))
                (record s { app = (n.delay ctx s.app).1 }))
      sleep_rest (ok a) = bind_ok _ _ _ _ refl (
          Returns-ok _ (
            Kept-app env id cursor workflow s _ k,
            park-IsQuiet now n.name state attempt (at_least_zero a / 1000)
                (lookup n.name state.sleeps) quiet,
          ))
      sleep_rest (throws e) = bind_throws _ _ _ _ refl

  after_body_kept :
      (now : ℕ) (n : DurableLoop W) (slot : LoopSlot) (attempt : ℕ)
      (r : Result String (Option Json))
      → Returns (KeptNode env id cursor workflow) (after_body env now id n state slot attempt r s)
  unfolding after_body
  after_body_kept now n slot attempt (throws e) = Returns-ok _ (k, quiet)
  after_body_kept now n slot attempt (ok value) =
      elim (insert_row_cases s env.journal_is_unique _) [
        | inl e ↦ bind_throws _ _ _ s e
        | inr e ↦ bind_ok _ _ _ s e (
            bind_ok _ _ _ _ (update_run_found _ id _ k.found) (
              Returns-ok _
                (Kept-journal env id cursor workflow s _ _ (suc s.ids_used) k refl quiet, quiet)))
      ]

  -- A child that is started gets a row of its own.
  start-Kept :
      (name : String) (input : Dict Json)
      → Returns (λ child s'. Kept env id cursor workflow s') (start env name input s)
  unfolding start
  start-Kept name input = elim (Option-cases (lookup name env.registry)) [
    | inl e ↦ rw (e, start) (Returns-throws _ _ _)
    | inr (nodes, e) ↦
        rw (e, start)
          (transaction-Returns _ _ _
            (elim (insert_run_cases (record s { ids_used = suc s.ids_used }) (env.ulid s.ids_used)
              _) [
                | inl f ↦ bind_throws _ _ _ _ f
                | inr (absent, f) ↦ bind_ok _ _ _ _ f (
                    bind_ok _ _ _ _ refl (
                      Returns-ok _ (
                        Kept-insert_run env id cursor workflow s _ _ _ _ k absent refl
                          empty-IsQuiet)))
              ]))
  ]

  start_child_kept :
      (n : DurableChildWorkflow W) (attempt : ℕ) (r : Result String (String × Dict Json))
      → Returns (KeptNode env id cursor workflow) (start_child env id n state attempt r s)
  unfolding start_child
  start_child_kept n attempt (throws e) = Returns-ok _ (k, quiet)
  start_child_kept n attempt (ok (name, input)) =
      bind_Returns _ _ _ s (λ _ s'. Kept env id cursor workflow s') (start-Kept name input)
        λ child s' k'.
          bind_ok _ _ _ _ (update_run_found s' id _ k'.found)
            (Returns-ok _ (Kept-write_state env id cursor workflow s' _ k' quiet, quiet))

-- The node does not wait for a signal.
abbrev pub IsActive : {W : Type 0} → DurableNode W → Type 0
IsActive (wait_for_signal n) = ⊥
IsActive _ = Unit

module _ {W : Type 0} (env : Setup W) (id : String) (cursor : ℕ) (workflow : String) where
  after_condition-Kept :
      (s : Engine W) (k : Kept env id cursor workflow s) (state : RunState) (quiet : IsQuiet state)
      (now : ℕ) (n : DurableLoop W) (ctx : DurableContext) (slot : LoopSlot) (attempt : ℕ)
      (r : Result String Bool)
      → Returns
          (KeptNode env id cursor workflow)
          (after_condition env now id n ctx state slot attempt r s)
  unfolding after_condition
  after_condition-Kept s k state quiet now n ctx slot attempt (throws e) = Returns-ok _ (k, quiet)
  after_condition-Kept s k state quiet now n ctx slot attempt (ok false) = Returns-ok _ (k, quiet)
  after_condition-Kept s k state quiet now n ctx slot attempt (ok true) = bind_ok _ _ _ s refl (
      after_body_kept env id cursor workflow _ (Kept-app env id cursor workflow s _ k) state quiet
        now n slot attempt _)

  iterate-Kept :
      (s : Engine W) (k : Kept env id cursor workflow s) (state : RunState) (quiet : IsQuiet state)
      (now : ℕ) (n : DurableLoop W) (ctx : DurableContext) (slot : LoopSlot) (attempt : ℕ)
      → Returns (KeptNode env id cursor workflow) (iterate env now id n ctx state slot attempt s)
  unfolding iterate
  iterate-Kept s k state quiet now n ctx slot attempt =
      elim (Bool-cases (leb n.max_iterations slot.iteration)) [
        | inl e ↦ rw (e, iterate) (Returns-ok _ (k, quiet))
        | inr e ↦
            rw (e, iterate)
              (bind_ok _ _ _ s refl (
                after_condition-Kept _ (Kept-app env id cursor workflow s _ k) state quiet now n ctx
                  slot attempt _))
      ]

  run_loop-Kept :
      (s : Engine W) (k : Kept env id cursor workflow s) (state : RunState) (quiet : IsQuiet state)
      (now : ℕ) (n : DurableLoop W) (ctx : DurableContext) (attempt : ℕ)
      → Returns (KeptNode env id cursor workflow) (run_loop env now id n ctx state attempt s)
  unfolding run_loop
  run_loop-Kept s k state quiet now n ctx attempt = iterate-Kept s k _ quiet now n ctx _ attempt

  run_child_workflow-Kept :
      (s : Engine W) (k : Kept env id cursor workflow s) (state : RunState) (quiet : IsQuiet state)
      (n : DurableChildWorkflow W) (ctx : DurableContext) (attempt : ℕ)
      → Returns (KeptNode env id cursor workflow) (run_child_workflow env id n ctx state attempt s)
  unfolding run_child_workflow
  run_child_workflow-Kept s k state quiet n ctx attempt =
      elim (Option-cases (lookup n.name state.child_run_ids)) [
        | inl e ↦
            rw (e, run_child_workflow)
              (bind_ok _ _ _ s refl (
                start_child_kept env id cursor workflow _ (Kept-app env id cursor workflow s _ k)
                  state quiet n attempt _))
        | inr (child, e) ↦ rw (e, run_child_workflow) (Returns-ok _ (k, quiet))
      ]

  -- A node that does not wait for a signal keeps its run quiet and its cursor.
  pub run_node-Kept :
      (s : Engine W) (k : Kept env id cursor workflow s) (state : RunState) (quiet : IsQuiet state)
      (now : ℕ) (node : DurableNode W) (ctx : DurableContext) (attempt : ℕ)
      → IsActive node
      → Returns (KeptNode env id cursor workflow) (run_node env now id node ctx state attempt s)
  unfolding run_node
  run_node-Kept s k state quiet now (step n) ctx attempt _ =
      run_step_like_kept env id cursor workflow s k state quiet _ _ ctx attempt _
  run_node-Kept s k state quiet now (sleep n) ctx attempt _ =
      run_sleep_kept env id cursor workflow s k state quiet now n ctx attempt
  run_node-Kept s k state quiet now (wait_for_signal n) ctx attempt h = absurd h
  run_node-Kept s k state quiet now (parallel n) ctx attempt _ =
      run_step_like_kept env id cursor workflow s k state quiet _ _ ctx attempt _
  run_node-Kept s k state quiet now (route n) ctx attempt _ =
      run_step_like_kept env id cursor workflow s k state quiet _ _ ctx attempt _
  run_node-Kept s k state quiet now (loop n) ctx attempt _ =
      run_loop-Kept s k state quiet now n ctx attempt
  run_node-Kept s k state quiet now (child_workflow n) ctx attempt _ =
      run_child_workflow-Kept s k state quiet n ctx attempt
