-- ===== src/Durable/Invariant/Kept.antt =====
-- The relation between the engines before and after a node that awaits no signal.
use strav_1_x.Common.{ℕ, String, ◌≡◌, refl, none, some, List, [], ◌∷◌, ◌++◌, arith, eq_iff}
use strav_1_x.Common.Dict
use strav_1_x.Common.Dict.{Dict, lookup, lookup-insert}
use strav_1_x.Durable.Types.{RunState, RunRow, JournalRow, Outcome, empty_state}
use strav_1_x.Durable.Engine.{Engine, Setup, Message}
use strav_1_x.Durable.Invariant.{IsSound, Engine-IsSound}
use strav_1_x.Durable.Invariant.Rows.{is_journaled-append, update-IsSound, step-IsSound}

-- The run awaits no signal.
abbrev pub IsQuiet : RunState → Type 0
IsQuiet state = (name signal : String) → lookup name state.awaiting_signals ≡ some signal → ⊥

pub empty-IsQuiet : IsQuiet empty_state
unfolding lookup
empty-IsQuiet name signal e = cc

module _ {W : Type 0} (env : Setup W) (id : String) (cursor : ℕ) (workflow : String) where
  -- The engine is sound, and the run is there, at its cursor, awaiting no signal.
  pub record Kept (s : Engine W) : Type 0 where
    pub sound : Engine-IsSound env s
    pub row : RunRow
    pub found : lookup id s.runs ≡ some row
    pub quiet : IsQuiet row.state
    pub cursor_kept : row.current_step ≡ cursor
    pub workflow_kept : row.workflow_name ≡ workflow

  abbrev pub KeptNode : Outcome × RunState → Engine W → Type 0
  KeptNode r s = Kept s × IsQuiet r.1

  pub Kept-app : (s : Engine W) (w : W) → Kept s → Kept (record s { app = w })
  Kept-app s w k = record {
    sound = k.sound;
    row = k.row;
    found = k.found;
    quiet = k.quiet;
    cursor_kept = k.cursor_kept;
    workflow_kept = k.workflow_kept;
  }

  pub quiet-IsSound :
      (row row' : RunRow) (js : List JournalRow)
      → IsSound env id row js
      → row'.current_step ≡ row.current_step
      → row'.workflow_name ≡ row.workflow_name
      → IsQuiet row'.state
      → IsSound env id row' js
  quiet-IsSound row row' js h p q quiet = record {
    behind = λ i node lt at. h.behind i node (rw p at lt) (rw q at at);
    awaits = λ name signal e. absurd (quiet name signal e);
  }

  pub IsSound-append :
      (row : RunRow) (js : List JournalRow) (j : JournalRow)
      → IsSound env id row js
      → IsQuiet row.state
      → IsSound env id row (js ++ j ∷ [])
  IsSound-append row js j h quiet = record {
    behind = λ i node lt at. is_journaled-append id _ js _ (h.behind i node lt at);
    awaits = λ name signal e. absurd (quiet name signal e);
  }

  -- The state of the run is written.
  pub Kept-write_state :
      (s : Engine W) (state : RunState) (k : Kept s)
      → IsQuiet state
      → Kept (record s { runs = Dict.insert id (record k.row { state = state }) s.runs })
  Kept-write_state s state k quiet = record {
    sound =
        update-IsSound env s.runs s.journal id _ k.sound
          (quiet-IsSound k.row _ s.journal (k.sound id k.row k.found) refl refl quiet);
    row = record k.row { state = state };
    found =
        ground (arith, lookup-insert id id (record k.row { state = state }) s.runs, eq_iff id id);
    quiet = quiet;
    cursor_kept = k.cursor_kept;
    workflow_kept = k.workflow_kept;
  }

  -- A row is journaled for the run, and then the state of the run is written.
  pub Kept-journal :
      (s : Engine W) (state : RunState) (j : JournalRow) (n : ℕ) (k : Kept s)
      → j.run_id ≡ id
      → IsQuiet state
      → Kept (record s {
        runs = Dict.insert id (record k.row { state = state }) s.runs;
        journal = s.journal ++ j ∷ [];
        ids_used = n;
      })
  Kept-journal s state j n k p quiet = record {
    sound = step-IsSound env s.runs s.journal id _ j k.sound p (
        quiet-IsSound k.row _ _
          (IsSound-append k.row s.journal j (k.sound id k.row k.found) k.quiet) refl refl quiet);
    row = record k.row { state = state };
    found =
        ground (arith, lookup-insert id id (record k.row { state = state }) s.runs, eq_iff id id);
    quiet = quiet;
    cursor_kept = k.cursor_kept;
    workflow_kept = k.workflow_kept;
  }

  -- A new run of another identifier is added.
  pub Kept-insert_run :
      (s : Engine W) (id' : String) (row : RunRow) (queue : List Message) (n : ℕ) (k : Kept s)
      → lookup id' s.runs ≡ none
      → row.current_step ≡ 0
      → IsQuiet row.state
      → Kept (record s { runs = Dict.insert id' row s.runs; queue = queue; ids_used = n })
  Kept-insert_run s id' row queue n k absent zero_step quiet = record {
    sound = update-IsSound env s.runs s.journal id' row k.sound (record {
      behind = λ i node lt at. absurd (omega arith);
      awaits = λ name signal e. absurd (quiet name signal e);
    });
    row = k.row;
    found = ground (arith, lookup-insert id' id row s.runs, eq_iff id' id, k.found);
    quiet = k.quiet;
    cursor_kept = k.cursor_kept;
    workflow_kept = k.workflow_kept;
  }
