-- ===== src/Durable/Snapshot/Tests.antt =====
-- A run that was just started, and the theorem at it.
use strav_1_x.Common.{ℕ, true, ◌≡◌, refl, none, [], ◌∷◌, ok}
use strav_1_x.Common.Dict
use strav_1_x.Common.Dict.{lookup}
use strav_1_x.Durable.Types.{text, plus, sleep, DurableNode, RunStatus}
use strav_1_x.Durable.Engine.{Engine, Setup, transaction, ◌>>=◌, insert_run}
use strav_1_x.Durable.Nodes.{start}
use strav_1_x.Durable.Snapshot.{find, find-start}

abbrev pause : DurableNode ℕ
pause = sleep (record { name = "pause"; delay = λ ctx w. (ok (plus 1000), w) })

abbrev clinic : Setup ℕ
clinic = record {
  registry = ("visit", pause ∷ []) ∷ [];
  ulid = λ n. "run";
  journal_is_unique = true;
  first_rejection = λ e es. e;
}

abbrev idle : Engine ℕ
idle = record { runs = []; journal = []; queue = []; ids_used = 0; app = 0 }

find-start_example :
    ((start clinic "visit" (("who", text "ada") ∷ []) idle).0 ≡ ok "run")
    × ((find "run" (start clinic "visit" (("who", text "ada") ∷ []) idle).1).0
        ≡ ok (record {
          id = "run";
          workflow_name = "visit";
          status = RunStatus.pending;
          input = ("who", text "ada") ∷ [];
          results = [];
          current_step = 0;
          result = none;
          error = none;
        }))
unfolding start find transaction ◌>>=◌ insert_run lookup Dict.insert
find-start_example =
    find-start clinic "visit" (("who", text "ada") ∷ []) idle (pause ∷ []) refl refl
