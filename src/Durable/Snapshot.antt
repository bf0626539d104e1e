-- ===== src/Durable/Snapshot.antt =====
-- `find` and `toSnapshot` of packages/durable/src/durable_runner.ts. The dates of the snapshot are left
-- out.
pub mod Tests
use strav_1_x.Common.{
  ℕ, String, Bool, true, false, ◌≡◌, refl, Option, none, some, List, [], ◌∷◌, Result, ok, throws,
  arith, eq_iff,
}
use strav_1_x.Common.Dict
use strav_1_x.Common.Dict.{Dict, lookup, lookup-insert}
use strav_1_x.Durable.Types.{Json, DurableNode, RunRow, RunStatus, Call, Span, plus}
use strav_1_x.Durable.Engine.{
  Engine, Setup, Statement, run_not_found, transaction, ◌>>=◌, insert_run,
}
use strav_1_x.Durable.Nodes.{start, new_run}

pub record RunSnapshot : Type 0 where
  pub id : String
  pub workflow_name : String
  pub status : RunStatus
  pub input : Dict Json
  pub results : Dict Json
  pub current_step : ℕ
  pub result : Option (Dict Json)
  pub error : Option String

abbrev pub to_snapshot : String → RunRow → RunSnapshot
to_snapshot id row = record {
  id = id;
  workflow_name = row.workflow_name;
  status = row.status;
  input = row.input;
  results = row.state.results;
  current_step = row.current_step;
  result = row.result;
  error = row.error;
}

unfoldable pub find : {W : Type 0} → String → Statement W RunSnapshot
find id s = elim (lookup id s.runs) [
  | none ↦ (throws (run_not_found id), s)
  | some row ↦ (ok (to_snapshot id row), s)
]

-- A registered workflow that is started under an identifier that is free: `start` answers with the
-- identifier, and `find` then shows the run as pending, at its first node, with its input and
-- without results.
pub find-start :
    {W : Type 0} (env : Setup W) (name : String) (input : Dict Json) (s : Engine W)
    (nodes : List (DurableNode W))
    → lookup name env.registry ≡ some nodes
    → lookup (env.ulid s.ids_used) s.runs ≡ none
    → ((start env name input s).0 ≡ ok (env.ulid s.ids_used))
      × ((find (env.ulid s.ids_used) (start env name input s).1).0
          ≡ ok (record {
            id = env.ulid s.ids_used;
            workflow_name = name;
            status = RunStatus.pending;
            input = input;
            results = [];
            current_step = 0;
            result = none;
            error = none;
          }))
unfolding start find transaction ◌>>=◌ insert_run
find-start env name input s nodes registered free = (
  ground (arith, registered, free),
  ground (
    arith,
    registered,
    free,
    lookup-insert (env.ulid s.ids_used) (env.ulid s.ids_used) (new_run name input) s.runs,
    eq_iff (env.ulid s.ids_used) (env.ulid s.ids_used),
  ),
)
