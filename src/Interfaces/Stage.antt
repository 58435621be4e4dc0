-- ===== src/Interfaces/Stage.antt =====
-- interfaces/stage.go: the stages of the pipeline and their record on disk.
use easyshift.Base.{ℕ, String, Option}
use easyshift.Base.Dict.{Dict}
use easyshift.Base.Action.{Effect}

pub data StageOutcome : Type 0 where
  outcome_ok outcome_failed : StageOutcome

-- `applied_at` is a time in nanoseconds.
pub record StageRecord : Type 0 where
  pub applied_at : ℕ
  pub outcome : StageOutcome

-- state.json. A JSON document without the field leaves the map nil.
pub record ClusterState : Type 0 where
  pub stages : Option (Dict StageRecord)

-- One step of the lifecycle, with the stage's context supplied. `preflight` is there if the stage
-- implements `Preflighter`.
pub record Stage (S : Type 0) : Type 0 where
  pub name : String
  pub apply : Effect S
  pub rollback : Effect S
  pub preflight : Option (Effect S)
