-- ===== src/Stages/Register.antt =====
-- stages/registercluster, stages/ensureclusterdir and stages/finalize.
pub mod Registry
use easyshift.Base.{String, Bool, ◌||◌, false, none, List, [], ◌∷◌, ◌++◌, ◌==◌, if◌then◌else◌}
use easyshift.Base.Action.{ok, Effect, ◌>>◌}
use easyshift.Interfaces.Stage.{Stage}
use easyshift.Config.Types.{ClusterConfig, Pointer}
use easyshift.Config.Constants.{state_creating, state_running}
use easyshift.Config.Memory.{Memory, Disk, save, on_world, change, change_config}
use easyshift.Config.Paths.{cluster_dir}

-- The test of the loop of `Apply`: some registered cluster has the name.
unfoldable pub is_registered : (Pointer → ClusterConfig) → List Pointer → String → Bool
is_registered heap [] name = false
is_registered heap (q ∷ qs) name = (heap q).name == name || is_registered heap qs name

-- The loop of `Rollback`: the first cluster of the name goes.
unfoldable pub unregister : (Pointer → ClusterConfig) → List Pointer → String → List Pointer
unregister heap [] name = []
unregister heap (q ∷ qs) name =
    let rest = unregister heap qs name in if (heap q).name == name then qs else q ∷ rest

module _ {W : Type 0} (disk : Disk W) (p : Pointer) where
  unfoldable pub register : Effect (Memory W)
  register m =
      if is_registered m.heap m.config.clusters (m.heap p).name
      then (m, ok tt)
      else (do
        change p (λ c. record c { state = state_creating })
        change_config (λ cfg. record cfg { clusters = cfg.clusters ++ (p ∷ []) })
        save disk)
          m

  unfoldable pub deregister : Effect (Memory W)
  deregister m =
      (do
        change_config
            (λ cfg. record cfg { clusters = unregister m.heap cfg.clusters (m.heap p).name })
        save disk)
        m

  unfoldable pub register_stage : Stage (Memory W)
  register_stage = record {
    name = "register-cluster";
    apply = register;
    rollback = deregister;
    preflight = none;
  }

  unfoldable pub ensure_cluster_dir : Effect (Memory W)
  ensure_cluster_dir m =
      on_world (disk.files.mkdir_all (cluster_dir m.config.config_dir (m.heap p).name)) m

  unfoldable pub remove_cluster_dir : Effect (Memory W)
  remove_cluster_dir m =
      on_world (disk.files.remove_all (cluster_dir m.config.config_dir (m.heap p).name)) m

  unfoldable pub ensure_cluster_dir_stage : Stage (Memory W)
  ensure_cluster_dir_stage = record {
    name = "ensure-cluster-dir";
    apply = ensure_cluster_dir;
    rollback = remove_cluster_dir;
    preflight = none;
  }

  unfoldable pub mark : String → Effect (Memory W)
  mark state = do change p (λ c. record c { state = state }); save disk

  unfoldable pub finalize_stage : Stage (Memory W)
  finalize_stage = record {
    name = "finalize";
    apply = mark state_running;
    rollback = mark state_creating;
    preflight = none;
  }
