-- ===== src/Durable/Invariant/Rows.antt =====
-- How the invariant changes with one journaled row and one written run.
use strav_1_x.Common.{
  String, true, ◌≡◌, List, [], ◌∷◌, ◌++◌, arith, str_eq, eq_iff, ◌≢◌, Bool-cases, inl, inr,
}
use strav_1_x.Common.Dict
use strav_1_x.Common.Dict.{Dict, lookup, lookup-insert}
use strav_1_x.Durable.Types.{RunRow, JournalRow, JournalStatus}
use strav_1_x.Durable.Engine.{Setup, find_row}
use strav_1_x.Durable.Invariant.{is_journaled, replays, IsSound, Runs-IsSound}

pub is_journaled-append :
    (id name : String) (js ks : List JournalRow)
    → is_journaled id name js ≡ true
    → is_journaled id name (js ++ ks) ≡ true
unfolding is_journaled
is_journaled-append id name [] ks h = cc
is_journaled-append id name (j ∷ js) ks h = ground (arith, is_journaled-append id name js ks)

pub is_journaled-last :
    (id name : String) (js : List JournalRow) (j : JournalRow)
    → j.run_id ≡ id
    → j.step_name ≡ name
    → j.status ≡ JournalStatus.completed
    → is_journaled id name (js ++ j ∷ []) ≡ true
unfolding is_journaled
is_journaled-last id name [] j p q r = ground (arith, eq_iff j.run_id id, eq_iff j.step_name name)
is_journaled-last id name (k ∷ js) j p q r = ground (arith, is_journaled-last id name js j p q r)

pub find_row-append_ne :
    (id name : String) (js : List JournalRow) (j : JournalRow)
    → j.run_id ≢ id
    → find_row id name (js ++ j ∷ []) ≡ find_row id name js
unfolding find_row
find_row-append_ne id name [] j p = ground (arith, eq_iff j.run_id id)
find_row-append_ne id name (k ∷ js) j p = ground (arith, find_row-append_ne id name js j p)

pub is_journaled_of_replays :
    (id name : String) (js : List JournalRow)
    → replays (find_row id name js) ≡ true
    → is_journaled id name js ≡ true
unfolding find_row is_journaled
is_journaled_of_replays id name [] h = cc
is_journaled_of_replays id name (j ∷ js) h = ground (arith, is_journaled_of_replays id name js)

module _ {W : Type 0} (env : Setup W) where
  IsSound-append_ne :
      (id : String) (row : RunRow) (js : List JournalRow) (j : JournalRow)
      → j.run_id ≢ id
      → IsSound env id row js
      → IsSound env id row (js ++ j ∷ [])
  IsSound-append_ne id row js j p h = record {
    behind = λ i node lt at. is_journaled-append id _ js _ (h.behind i node lt at);
    awaits = λ name signal e.
        let (w, at, same, q) = h.awaits name signal e in
        (w, at, same, rw (find_row-append_ne id name js j p) q);
  }

  -- A run is written, and its new row is sound.
  pub update-IsSound :
      (runs : Dict RunRow) (js : List JournalRow) (id : String) (row : RunRow)
      → Runs-IsSound env runs js
      → IsSound env id row js
      → Runs-IsSound env (Dict.insert id row runs) js
  update-IsSound runs js id row h k id' row' e = elim (Bool-cases (str_eq id id')) [
    | inl same ↦
        let p : id ≡ id' = (eq_iff id id').0 same in
        let q : row ≡ row' = ground (arith, lookup-insert id id' row runs) in rw (← p, ← q) k
    | inr other ↦ h id' row' (ground (arith, lookup-insert id id' row runs))
  ]

  -- A row is journaled for a run, and the run is written with a row that is sound after it.
  pub step-IsSound :
      (runs : Dict RunRow) (js : List JournalRow) (id : String) (row : RunRow) (j : JournalRow)
      → Runs-IsSound env runs js
      → j.run_id ≡ id
      → IsSound env id row (js ++ j ∷ [])
      → Runs-IsSound env (Dict.insert id row runs) (js ++ j ∷ [])
  step-IsSound runs js id row j h p k id' row' e = elim (Bool-cases (str_eq id id')) [
    | inl same ↦
        let p : id ≡ id' = (eq_iff id id').0 same in
        let q : row ≡ row' = ground (arith, lookup-insert id id' row runs) in rw (← p, ← q) k
    | inr other ↦
        IsSound-append_ne id' row' js j (λ e'. ground (arith, eq_iff id id'))
          (h id' row' (ground (arith, lookup-insert id id' row runs)))
  ]
