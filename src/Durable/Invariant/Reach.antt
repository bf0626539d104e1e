-- ===== src/Durable/Invariant/Reach.antt =====
-- The engines that the runner's operations lead to, from one with empty tables, while the queue and
-- the application change as they like in between.
use strav_1_x.Common.{
  ℕ, suc, ◌<◌, String, true, ◌≡◌, refl, Option, some, List, [], get_elem?, arith, inl, inr,
  Option-cases,
}
use strav_1_x.Common.Dict.{Dict, lookup}
use strav_1_x.Durable.Types.{Json, DurableNode, name_of, RunRow, RunStatus}
use strav_1_x.Durable.Engine.{Engine, Setup, Message}
use strav_1_x.Durable.Nodes.{start, new_run}
use strav_1_x.Durable.Runner.{advance, signal, compensate, compensate_run, compensate_body}
use strav_1_x.Durable.Returns.{
  Returns, Returns-ok, Returns-eq, Returns-throws, bind_ok, bind_throws,
}
use strav_1_x.Durable.Invariant.{Engine-IsSound, is_journaled}
use strav_1_x.Durable.Invariant.Rows.{update-IsSound}
use strav_1_x.Durable.Invariant.Statements.{update_run_found, insert_run_cases}
use strav_1_x.Durable.Invariant.Kept.{empty-IsQuiet}
use strav_1_x.Durable.Invariant.Operations.{
  transaction_sound, select_then_sound, advance_sound, signal_sound,
}

module _ {W : Type 0} (env : Setup W) (s : Engine W) (sound : Engine-IsSound env s) where
  start_sound : (name : String) (input : Dict Json) → Engine-IsSound env (start env name input s).1
  unfolding start
  start_sound name input = elim (Option-cases (lookup name env.registry)) [
    | inl e ↦ rw (e, start) sound
    | inr (nodes, e) ↦
        rw (e, start)
          (transaction_sound env (record s { ids_used = suc s.ids_used }) sound _
            (elim (insert_run_cases (record s { ids_used = suc s.ids_used }) (env.ulid s.ids_used)
              (new_run name input)) [
                | inl f ↦ bind_throws _ _ _ _ f
                | inr (absent, f) ↦ bind_ok _ _ _ _ f (
                    bind_ok _ _ _ _ refl (
                      Returns-ok _ (
                        update-IsSound env s.runs s.journal (env.ulid s.ids_used)
                          (new_run name input) sound
                          (record {
                            behind = λ i node lt at. absurd (omega arith);
                            awaits = λ n a q. absurd (empty-IsQuiet n a q);
                          }))))
              ]))
  ]

  compensate_body_sound :
      (id : String) (row : RunRow)
      → lookup id s.runs ≡ some row
      → Returns (λ _ s'. Engine-IsSound env s') (compensate_body env id row s)
  unfolding compensate_body compensate_run
  compensate_body_sound id row found = by_status row.status
    where
      by_status :
          (status : RunStatus)
          → Returns
              (λ _ s'. Engine-IsSound env s')
              (compensate_body env id (record row { status = status }) s)
      by_status RunStatus.compensating =
          elim (Option-cases (lookup row.workflow_name env.registry)) [
            | inl e ↦ rw (e, compensate_body) (Returns-throws _ _ _)
            | inr (nodes, e) ↦
                rw (e, compensate_body)
                  (Returns-eq _ (update_run_found _ id _ found) (
                    Returns-ok _ (
                      update-IsSound env s.runs s.journal id _ sound (record {
                        behind = (sound id row found).behind;
                        awaits = (sound id row found).awaits;
                      }))))
          ]
      by_status RunStatus.pending = Returns-ok _ sound
      by_status RunStatus.running = Returns-ok _ sound
      by_status RunStatus.waiting = Returns-ok _ sound
      by_status RunStatus.completed = Returns-ok _ sound
      by_status RunStatus.failed = Returns-ok _ sound

  compensate_sound : (id : String) → Engine-IsSound env (compensate env id s).1
  unfolding compensate
  compensate_sound id = select_then_sound env s sound id _ (compensate_body_sound id)

-- An engine with empty tables.
abbrev pub empty_engine : {W : Type 0} → W → Engine W
empty_engine w = record { runs = []; journal = []; queue = []; ids_used = 0; app = w }

-- One operation, or a change of the queue and the application by others.
pub data Step {W : Type 0} (env : Setup W) (s : Engine W) : Engine W → Type 0 where
  starts : (name : String) (input : Dict Json) → Step env s (start env name input s).1
  advances : (now : ℕ) (id : String) → Step env s (advance env now id s).1
  signals :
      (now : ℕ) (id name : String) (payload : Option Json)
      → Step env s (signal env now id name payload s).1
  compensates : (id : String) → Step env s (compensate env id s).1
  others : (queue : List Message) (w : W) → Step env s (record s { queue = queue; app = w })

pub data Reach {W : Type 0} (env : Setup W) (w : W) : Engine W → Type 0 where
  here : Reach env w (empty_engine w)
  next : {s t : Engine W} → Reach env w s → Step env s t → Reach env w t

Step-IsSound :
    {W : Type 0} (env : Setup W) {s t : Engine W}
    → Step env s t
    → Engine-IsSound env s
    → Engine-IsSound env t
Step-IsSound env {s} (starts name input) h = start_sound env s h name input
Step-IsSound env {s} (advances now id) h = advance_sound env s h now id
Step-IsSound env {s} (signals now id name payload) h = signal_sound env s h now id name payload
Step-IsSound env {s} (compensates id) h = compensate_sound env s h id
Step-IsSound env (others queue w) h = h

-- Every engine that is reached is sound.
pub Reach-IsSound :
    {W : Type 0} (env : Setup W) (w : W) {s : Engine W} → Reach env w s → Engine-IsSound env s
unfolding lookup
Reach-IsSound env w here = λ id row e. cc
Reach-IsSound env w (next r step) = Step-IsSound env step (Reach-IsSound env w r)

-- In every engine that the runner's operations reach from empty tables, however the jobs are
-- delivered, each node before a run's cursor has a row of the run and of its name in the journal
-- that is completed.
pub Reach-journaled :
    {W : Type 0} (env : Setup W) (w : W) {s : Engine W} (id : String) (row : RunRow)
    (nodes : List (DurableNode W)) (i : ℕ) (node : DurableNode W)
    → Reach env w s
    → lookup id s.runs ≡ some row
    → lookup row.workflow_name env.registry ≡ some nodes
    → i < row.current_step
    → get_elem? nodes i ≡ some node
    → is_journaled id (name_of node) s.journal ≡ true
Reach-journaled env w id row nodes i node r found registered lt at =
    (Reach-IsSound env w r id row found).behind i node lt (rw registered at)
