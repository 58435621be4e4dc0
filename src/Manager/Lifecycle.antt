-- ===== src/Manager/Lifecycle.antt =====
-- app/manager.go: `Create`, `Start`, `Stop`, `Delete`, `List` and what they share.
pub mod States
use easyshift.Base.{
  ℕ, zero, suc, ◌+◌, String, ◌<>◌, Bool, true, false, not, ◌&&◌, Option, none, some, List, [], ◌∷◌,
  ◌++◌, leb, ◌==◌, if◌then◌else◌,
}
use Prim.Native.Char.{Char, code}
use easyshift.Base.Int.{pos_part}
use easyshift.Base.Lists.{length}
use easyshift.Base.Text.{decimal, has_substring}
use easyshift.Base.Action.{
  Error, Result, ok, err, Action, Effect, after, ◌>>=◌, ◌>>◌, pure, done, fail, require, wrap,
  attempt,
}
use easyshift.Interfaces.Os.{Files}
use easyshift.Config.Types.{ClusterConfig, Pointer}
use easyshift.Config.Constants.{state_running, state_stopped}
use easyshift.Config.Memory.{Memory, Disk, save, on_world, change}
use easyshift.Config.Paths.{cluster_dir, ensure_pull_secret}
use easyshift.Runner
use easyshift.Manager.Validate.{validate_name, validate_new, apply_defaults}
use easyshift.Manager.Converge.{converge_after_start}
use easyshift.Stages.VerifyIp.{verdict}
use easyshift.Manager.Pipeline.{Parts, build_stages}

-- The loop of `find`
unfoldable pub find_in : (Pointer → ClusterConfig) → List Pointer → String → Option Pointer
find_in heap [] name = none
find_in heap (q ∷ qs) name =
    let rest = find_in heap qs name in if (heap q).name == name then some q else rest

unfoldable pub find : {W : Type 0} → Memory W → String → Option Pointer
find m name = find_in m.heap m.config.clusters name

-- The loops of `vmNames`. `validateNew` admits no negative count.
unfoldable pub role_names : String → String → ℕ → ℕ → List String
role_names role name zero i = []
role_names role name (suc left) i =
    (role <> (decimal i <> ("-" <> name))) ∷ role_names role name left (suc i)

unfoldable pub vm_names : ClusterConfig → List String
vm_names c =
    role_names "master-" c.name (pos_part c.master_count) 0
    ++ role_names "worker-" c.name (pos_part c.worker_count) 0

first_is_digit : String → Bool
first_is_digit String.[] = false
first_is_digit (String.◌∷◌ c s) = leb 48 (code c) && leb (code c) 57

-- `openshift.IsResolvedOCPVersion`
unfoldable pub is_resolved_version : String → Bool
unfolding first_is_digit
is_resolved_version v = first_is_digit v && has_substring v "."

abbrev pub lift_result : {S A : Type 0} → Result A → Action S A
lift_result r s = (s, r)

-- The file system as the runner sees it.
unfoldable pub memory_files : {W : Type 0} → Files W → Files (Memory W)
memory_files files = record {
  read_file = λ path m. files.read_file path m.world;
  stat = λ path m. files.stat path m.world;
  write_file = λ path text. on_world (files.write_file path text);
  mkdir_all = λ path. on_world (files.mkdir_all path);
  remove = λ path. on_world (files.remove path);
  remove_all = λ path. on_world (files.remove_all path);
}

module _ {W : Type 0} (parts : Parts W) where
  abbrev pub now_of : Memory W → ℕ
  now_of m = parts.clock.now m.world

  -- `cm.List`
  abbrev pub list_clusters : Memory W → List Pointer
  list_clusters m = m.config.clusters

  -- A new cluster gets its defaults, and is then validated.
  unfoldable pub admit : Pointer → Action (Memory W) Pointer
  admit p = do
    change p (apply_defaults parts.net)
    (λ m. (m, validate_new parts.net (length m.config.clusters) (m.heap p)))
    pure p

  -- The cluster that `Create` goes on with: the registered one of the name, or the new one.
  unfoldable pub choose : Pointer → Action (Memory W) Pointer
  choose p m = elim (find m (m.heap p).name) [
    | some q ↦
        if (m.heap q).state == state_running
        then (m, err ("cluster " <> ((m.heap p).name <> " is already running")))
        else (m, ok q)
    | none ↦ admit p m
  ]

  unfoldable pub resolve : Pointer → Effect (Memory W)
  resolve q m =
      if is_resolved_version (m.heap q).ocp_version
      then (m, ok tt)
      else (do
        version ←
            wrap (λ e. "resolve OCP version \"" <> ((m.heap q).ocp_version <> ("\": " <> e)))
              (on_world (parts.resolve_version (m.heap q).ocp_version))
        change q (λ c. record c { ocp_version = version }))
          m

  unfoldable pub apply_pipeline : Pointer → Effect (Memory W)
  apply_pipeline q m =
      Runner.apply (memory_files parts.disk.files) parts.state_codec m.config.config_dir
        (m.heap q).name now_of (build_stages parts q) m

  unfoldable pub rollback_pipeline : Pointer → Effect (Memory W)
  rollback_pipeline q m =
      Runner.rollback (memory_files parts.disk.files) parts.state_codec m.config.config_dir
        (m.heap q).name (build_stages parts q) m

  -- `if c.State != config.ClusterStateRunning`
  unfoldable pub assert_running : Pointer → Effect (Memory W)
  assert_running q m =
      if (m.heap q).state == state_running
      then (m, ok tt)
      else (do change q (λ c. record c { state = state_running }); save parts.disk) m

  unfoldable pub build : Pointer → Effect (Memory W)
  build q = do
    resolve q
    wrap (λ e. "preflight: " <> e) (Runner.preflight (build_stages parts q))
    apply_pipeline q
    assert_running q

  unfoldable pub create : Pointer → Effect (Memory W)
  create p = do
    (λ m. (m, validate_name (m.heap p)))
    (λ m. on_world (ensure_pull_secret parts.disk.files m.config.config_dir) m)
    q ← choose p
    build q

  abbrev unknown : String → Error
  unknown name = "cluster " <> (name <> " not found")

  -- The loop of `Start`, which stops at a failure.
  unfoldable pub start_vms : List String → Effect W
  start_vms [] = done
  start_vms (vm ∷ rest) = do
    wrap (λ e. "start " <> (vm <> (": " <> e))) (parts.vm.start vm)
    start_vms rest

  -- The loop of `Stop`, which only logs a failure.
  unfoldable pub stop_vms : List String → Effect W
  stop_vms [] = done
  stop_vms (vm ∷ rest) = do attempt (parts.vm.stop vm); stop_vms rest

  -- `convergeAfterStart` has a verdict, if time passes.
  unfoldable pub converge : Pointer → Effect (Memory W)
  converge q m =
      on_world
        (λ w. verdict (converge_after_start parts.cmd parts.clock m.config.config_dir (m.heap q) w))
        m

  abbrev start_at : Pointer → Effect (Memory W)
  start_at q m =
      if (m.heap q).state == state_running
      then (m, err ("cluster " <> ((m.heap q).name <> " is already running")))
      else (do
        on_world (start_vms (vm_names (m.heap q)))
        change q (λ c. record c { state = state_running })
        save parts.disk
        (converge q))
          m

  unfoldable pub start : String → Effect (Memory W)
  start name m = elim (find m name) [ none ↦ (m, err (unknown name)) | some q ↦ start_at q m ]

  abbrev stop_at : Pointer → Effect (Memory W)
  stop_at q m =
      if not ((m.heap q).state == state_running)
      then (m, err ("cluster " <> ((m.heap q).name <> " is not running")))
      else (do
        on_world (stop_vms (vm_names (m.heap q)))
        change q (λ c. record c { state = state_stopped })
        save parts.disk)
          m

  unfoldable pub stop : String → Effect (Memory W)
  stop name m = elim (find m name) [ none ↦ (m, err (unknown name)) | some q ↦ stop_at q m ]

  unfoldable pub stop_running : Pointer → String → Effect (Memory W)
  stop_running q name m = if (m.heap q).state == state_running then stop name m else (m, ok tt)

  abbrev delete_at : Pointer → String → Effect (Memory W)
  delete_at q name = do
    stop_running q name
    wrap (λ e. "rollback: " <> e) (rollback_pipeline q)
    (λ m. attempt (on_world (parts.disk.files.remove_all (cluster_dir m.config.config_dir name))) m)
    save parts.disk

  unfoldable pub delete : String → Effect (Memory W)
  delete name m = elim (find m name) [
    | none ↦ (m, err (unknown name))
    | some q ↦ delete_at q name m
  ]
