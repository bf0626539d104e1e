-- ===== src/Durable/Invariant/Outcomes.antt =====
-- The invariant under `applyOutcome`, for a node that does not wait for a signal.
use strav_1_x.Common.{
  ℕ, suc, ◌<◌, String, ◌≡◌, refl, sym, ◌∙◌, Option, none, some, true, List, get_elem?, arith,
  some_inj, inl, inr,
}
use mathlib.Core.Path.{subst}
use native.Mathlib.Decide.{dec_lt}
use strav_1_x.Common.Dict.{lookup}
use strav_1_x.Durable.Types.{
  Json, DurableNode, step, sleep, wait_for_signal, parallel, route, loop, child_workflow, name_of,
  RunState, RunRow, JournalRow, Outcome,
}
use strav_1_x.Durable.Engine.{Engine, Setup}
use strav_1_x.Durable.Runner.{done_state, apply_outcome}
use strav_1_x.Durable.Returns.{Returns, Returns-ok, bind_ok, bind_throws}
use strav_1_x.Durable.Invariant.{IsSound, Engine-IsSound, is_journaled, nodes_for, nodes_of}
use strav_1_x.Durable.Invariant.Rows.{is_journaled-last, update-IsSound, step-IsSound}
use strav_1_x.Durable.Invariant.Statements.{insert_row_cases, update_run_found}
use strav_1_x.Durable.Invariant.Kept.{IsQuiet, Kept, quiet-IsSound, IsSound-append}

done_state-IsQuiet :
    {W : Type 0} (node : DurableNode W) (value : Option Json) (state : RunState)
    → IsQuiet state
    → IsQuiet (done_state node value state)
done_state-IsQuiet (loop n) value state quiet = quiet
done_state-IsQuiet (child_workflow n) value state quiet = quiet
done_state-IsQuiet (step n) value state quiet = quiet
done_state-IsQuiet (sleep n) value state quiet = quiet
done_state-IsQuiet (wait_for_signal n) value state quiet = quiet
done_state-IsQuiet (parallel n) value state quiet = quiet
done_state-IsQuiet (route n) value state quiet = quiet

module _ {W : Type 0} (env : Setup W) (id : String) (cursor : ℕ) (workflow : String)
    (node : DurableNode W)
    (at_cursor : get_elem? (nodes_of (lookup workflow env.registry)) cursor ≡ some node) where
  -- The row of a run that moved past its node, which is journaled.
  pub moved-IsSound :
      (row row' : RunRow) (js : List JournalRow)
      → ((i : ℕ) (earlier : DurableNode W)
          → i < row.current_step
          → get_elem? (nodes_for env row) i ≡ some earlier
          → is_journaled id (name_of earlier) js ≡ true)
      → row.current_step ≡ cursor
      → row.workflow_name ≡ workflow
      → row'.current_step ≡ suc cursor
      → row'.workflow_name ≡ workflow
      → IsQuiet row'.state
      → is_journaled id (name_of node) js ≡ true
      → IsSound env id row' js
  moved-IsSound row row' js h p q p' q' quiet journaled = record {
    behind = λ i other lt at. elim (dec_lt i cursor) [
      | yes before ↦ h i other (rw p before) (rw q (rw q' at at))
      | no here ↦
          let e : i ≡ cursor = omega arith in
          let same : node ≡ other = some_inj (sym at_cursor ∙ rw (q', e) at at) in
          subst (λ n. is_journaled id (name_of n) js ≡ true) same journaled
    ];
    awaits = λ name signal e. absurd (quiet name signal e);
  }

  pub apply_outcome_sound :
      (now : ℕ) (s : Engine W) (k : Kept env id cursor workflow s) (state : RunState)
      (quiet : IsQuiet state) (outcome : Outcome)
      → Returns
          (λ _ s'. Engine-IsSound env s')
          (apply_outcome env now id cursor node state outcome s)
  unfolding apply_outcome
  apply_outcome_sound now s k state quiet (Outcome.completed value attempt) =
      elim (insert_row_cases s env.journal_is_unique _) [
        | inl e ↦ bind_throws _ _ _ s e
        | inr e ↦ bind_ok _ _ _ s e (
            bind_ok _ _ _ _ (update_run_found _ id _ k.found) (
              Returns-ok _ (
                step-IsSound env s.runs s.journal id _ _ k.sound refl (
                  moved-IsSound k.row _ _
                    (IsSound-append env id cursor workflow k.row s.journal _
                      (k.sound id k.row k.found) k.quiet).behind
                    k.cursor_kept k.workflow_kept refl k.workflow_kept
                    (done_state-IsQuiet node value state quiet)
                    (is_journaled-last id (name_of node) s.journal _ refl refl refl)))))
      ]
  apply_outcome_sound now s k state quiet (Outcome.retry attempt delay) =
      bind_ok _ _ _ s (update_run_found s id _ k.found) (
        bind_ok _ _ _ _ refl (
          Returns-ok _ (
            update-IsSound env s.runs s.journal id _ k.sound (
              quiet-IsSound env id cursor workflow k.row _ s.journal (k.sound id k.row k.found) refl
                refl quiet))))
  apply_outcome_sound now s k state quiet (Outcome.failed attempt error) =
      elim (insert_row_cases s env.journal_is_unique _) [
        | inl e ↦ bind_throws _ _ _ s e
        | inr e ↦ bind_ok _ _ _ s e (
            bind_ok _ _ _ _ (update_run_found _ id _ k.found) (
              bind_ok _ _ _ _ refl (
                Returns-ok _ (
                  step-IsSound env s.runs s.journal id _ _ k.sound refl (
                    quiet-IsSound env id cursor workflow k.row _ _
                      (IsSound-append env id cursor workflow k.row s.journal _
                        (k.sound id k.row k.found) k.quiet)
                      refl refl quiet)))))
      ]
  apply_outcome_sound now s k state quiet (Outcome.waiting none) =
      bind_ok _ _ _ s (update_run_found s id _ k.found) (
        bind_ok _ _ _ _ refl (
          Returns-ok _ (
            update-IsSound env s.runs s.journal id _ k.sound (
              quiet-IsSound env id cursor workflow k.row _ s.journal (k.sound id k.row k.found) refl
                refl quiet))))
  apply_outcome_sound now s k state quiet (Outcome.waiting (some delay)) =
      bind_ok _ _ _ s (update_run_found s id _ k.found) (
        bind_ok _ _ _ _ refl (
          Returns-ok _ (
            update-IsSound env s.runs s.journal id _ k.sound (
              quiet-IsSound env id cursor workflow k.row _ s.journal (k.sound id k.row k.found) refl
                refl quiet))))
