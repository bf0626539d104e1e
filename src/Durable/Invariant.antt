-- ===== src/Durable/Invariant.antt =====
-- The invariant of the runs of packages/durable/src/durable_runner.ts, about the nodes before a run's
-- cursor and the signals that a run awaits.
pub mod Rows
pub mod Statements
pub mod Kept
pub mod Execute
pub mod Outcomes
pub mod Steps
pub mod Operations
pub mod Over
pub mod Reach
pub mod Ended
use strav_1_x.Common.{
  ℕ, suc, ◌+◌, ◌<◌, String, Bool, true, false, ◌&&◌, ◌||◌, ◌≡◌, refl, Option, none, some, List, [],
  ◌∷◌, ◌++◌, get_elem?, any, arith, str_eq, eq_iff, if◌then◌else◌, ◌≢◌,
}
use strav_1_x.Common.Dict
use strav_1_x.Common.Dict.{Dict, lookup}
use strav_1_x.Durable.Types.{
  DurableNode, DurableWaitForSignal, wait_for_signal, name_of, RunRow, JournalRow, JournalStatus,
}
use strav_1_x.Durable.Engine.{Engine, Setup, is_row, find_row}

abbrev pub is_done : JournalStatus → Bool
is_done JournalStatus.completed = true
is_done JournalStatus.failed = false

-- Some row of the run and the name is a completed one.
unfoldable pub is_journaled : String → String → List JournalRow → Bool
is_journaled id name js = any (λ j. is_row id name j && is_done j.status) js

-- The row that was found lets the node be replayed.
abbrev pub replays : Option JournalRow → Bool
replays none = false
replays (some j) = is_done j.status

abbrev pub nodes_of : {W : Type 0} → Option (List (DurableNode W)) → List (DurableNode W)
nodes_of none = []
nodes_of (some nodes) = nodes

module _ {W : Type 0} (env : Setup W) where
  abbrev pub nodes_for : RunRow → List (DurableNode W)
  nodes_for row = nodes_of (lookup row.workflow_name env.registry)

  pub record IsSound (id : String) (row : RunRow) (journal : List JournalRow) : Type 0 where
    pub behind :
        (i : ℕ) (node : DurableNode W)
        → i < row.current_step
        → get_elem? (nodes_for row) i ≡ some node
        → is_journaled id (name_of node) journal ≡ true
    pub awaits :
        (name signal : String)
        → lookup name row.state.awaiting_signals ≡ some signal
        → (w : DurableWaitForSignal W) × (get_elem? (nodes_for row) row.current_step
            ≡ some (wait_for_signal w))
          × (w.name ≡ name)
          × (replays (find_row id name journal) ≡ false)

  abbrev pub Runs-IsSound : Dict RunRow → List JournalRow → Type 0
  Runs-IsSound runs journal =
      (id : String) (row : RunRow) → lookup id runs ≡ some row → IsSound id row journal

  -- Every run of the engine is sound.
  abbrev pub Engine-IsSound : Engine W → Type 0
  Engine-IsSound s = Runs-IsSound s.runs s.journal
