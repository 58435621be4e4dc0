-- ===== src/Runner.antt =====
-- app/runner.go: `Runner`, which walks the stages of a cluster and keeps state.json.
-- `r.configDir`, `sc.Cluster.Name` and the clock are parameters; no code assigns a cluster's name.
pub mod State
pub mod Resume
pub mod Undo
pub mod Preflight
use easyshift.Base.{
  ℕ, String, ◌<>◌, Bool, true, false, Option, none, some, List, [], ◌∷◌, ◌++◌, if◌then◌else◌,
}
use easyshift.Base.Dict.{Dict, lookup, insert, erase, has}
use easyshift.Base.Text.{join}
use easyshift.Base.Action.{
  Error, Result, ok, err, Action, Effect, after, ◌>>=◌, ◌>>◌, pure, done, fail, wrap, rewrap,
  attempt,
}
use easyshift.Interfaces.Os.{Files, Codec, ReadResult, contents, missing, unreadable, join_path}
use easyshift.Interfaces.Stage.{StageRecord, outcome_ok, ClusterState, Stage}

-- Which stages are recorded as applied: `state.Stages`, once it is not nil.
abbrev pub Applied : Type 0
Applied = Dict StageRecord

module _ {S : Type 0} (files : Files S) (codec : Codec ClusterState) (config_dir : String) where
  unfoldable pub state_path : String → String
  state_path name = join_path (config_dir ∷ "clusters" ∷ name ∷ "state.json" ∷ [])

  state_dir : String → String
  state_dir name = join_path (config_dir ∷ "clusters" ∷ name ∷ [])

  -- `if state.Stages == nil { state.Stages = map[string]StageRecord{} }`
  abbrev stages_of : ClusterState → Applied
  stages_of state = elim (state.stages) [ none ↦ [] | some m ↦ m ]

  abbrev parsed : Result ClusterState → Result Applied
  parsed (ok state) = ok (stages_of state)
  parsed (err e) = err ("parse state.json: " <> e)

  abbrev decoded : ReadResult → Result Applied
  decoded (contents text) = parsed (codec.unmarshal text)
  decoded missing = ok []
  decoded (unreadable e) = err e

  unfoldable pub load_state : String → S → Result Applied
  load_state name s = decoded (files.read_file (state_path name) s)

  abbrev marshalled : Result String → Action S String
  marshalled (ok text) = pure text
  marshalled (err e) = fail ("marshal state: " <> e)

  unfoldable pub save_state : String → Applied → Effect S
  unfolding state_dir
  save_state name state = do
    wrap (λ e. "create state dir: " <> e) (files.mkdir_all (state_dir name))
    text ← marshalled (codec.marshal (record { stages = some state }))
    files.write_file (state_path name) text

  module _ (name : String) (now : S → ℕ) where
    -- The body of the loop of `Apply` for a stage that is not recorded, and the state it leaves.
    unfoldable pub apply_one : Stage S → Applied → Action S Applied
    apply_one stage state = do
      wrap (λ e. "stage " <> (stage.name <> (": " <> e))) stage.apply
      s ← (λ s. (s, ok s))
      let state' = insert stage.name (record { applied_at = now s; outcome = outcome_ok }) state
      wrap (λ e. "save state after " <> (stage.name <> (": " <> e))) (save_state name state')
      pure state'

    -- The loop of `Apply`. It returns the map that is in memory at its end.
    unfoldable pub apply_stages : List (Stage S) → Applied → Action S Applied
    apply_stages [] state s = (s, ok state)
    apply_stages (stage ∷ rest) state s = elim (has stage.name state) [
      | true ↦ apply_stages rest state s
      | false ↦ after (apply_one stage state s) (apply_stages rest)
    ]

    unfoldable pub apply : List (Stage S) → Effect S
    apply stages s = elim (load_state name s) [
      | err e ↦ (s, err ("load state: " <> e))
      | ok state ↦ after (apply_stages stages state s) (λ _. done)
    ]

  module _ (name : String) where
    -- The body of the loop of `Rollback` for a recorded stage. A failed rollback is only logged.
    unfoldable pub rollback_one : Stage S → Applied → Action S Applied
    rollback_one stage state = do
      attempt stage.rollback
      let state' = erase stage.name state
      wrap (λ e. "save state after rollback " <> (stage.name <> (": " <> e)))
          (save_state name state')
      pure state'

    unfoldable pub rollback_step : Stage S → Applied → Action S Applied
    rollback_step stage state s = elim (has stage.name state) [
      | true ↦ rollback_one stage state s
      | false ↦ (s, ok state)
    ]

    -- The loop of `Rollback`, last stage first: the stages behind a stage are rolled back before it.
    unfoldable pub rollback_stages : List (Stage S) → Applied → Action S Applied
    rollback_stages [] state s = (s, ok state)
    rollback_stages (stage ∷ rest) state s =
        after (rollback_stages rest state s) (rollback_step stage)

    unfoldable pub rollback : List (Stage S) → Effect S
    rollback stages s = elim (load_state name s) [
      | err e ↦ (s, err ("load state: " <> e))
      | ok state ↦ after (rollback_stages stages state s) (λ _. done)
    ]

-- The failure of one stage's check, if it has a check and that failed.
abbrev failure : String → Result (Unit {0}) → List Error
failure name (ok _) = []
failure name (err e) = (name <> (": " <> e)) ∷ []

abbrev pub check_one : {S : Type 0} → Stage S → S → S × List Error
check_one stage s = elim (stage.preflight) [
  | none ↦ (s, [])
  | some check ↦ let (s', r) = check s in (s', failure stage.name r)
]

-- The loop of `Preflight`: every check runs, and the failures are collected in order.
unfoldable pub preflight_errors : {S : Type 0} → List (Stage S) → S → S × List Error
preflight_errors [] s = (s, [])
preflight_errors (stage ∷ rest) s =
    let (s', errs) = check_one stage s in
    let (t, more) = preflight_errors rest s' in (t, errs ++ more)

-- `errors.Join` puts a line break between the messages.
abbrev pub joined : {S : Type 0} → S × List Error → S × Result (Unit {0})
joined (s, []) = (s, ok tt)
joined (s, e ∷ es) = (s, err (join (e ∷ es) "\n"))

unfoldable pub preflight : {S : Type 0} → List (Stage S) → Effect S
unfolding preflight_errors
preflight stages s = joined (preflight_errors stages s)
