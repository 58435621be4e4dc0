-- ===== src/Stages/Kubeconfig.antt =====
-- stages/mergekubeconfig: the cluster's credentials in the user's kubeconfig. The environment, the
-- encoding of base 64 and `filepath.Dir` are parameters.
pub mod Contexts
use easyshift.Base.{
  String, ◌<>◌, Bool, true, false, not, Option, none, some, List, [], ◌∷◌, ◌++◌, ◌==◌,
  if◌then◌else◌,
}
use easyshift.Base.Text.{trim_space, split_at, join}
use easyshift.Base.Action.{
  Error, Result, ok, err, Action, Effect, ◌>>◌, ◌>>=◌, done, wrap, attempt, pure,
}
use easyshift.Interfaces.Os.{Files, join_path}
use easyshift.Interfaces.Stage.{Stage}
use easyshift.Interfaces.Providers.{CommandRunner}
use easyshift.Interfaces.Install.{oc_binary_path, kubeconfig_path, work_dir}
use easyshift.Config.Types.{ClusterConfig, Pointer}
use easyshift.Config.Memory.{Memory, Disk, on_world, change, assign, save}

-- `$KUBECONFIG`, `os.UserHomeDir`, `filepath.Dir`, and `base64.StdEncoding`.
pub record Environment : Type 0 where
  pub kubeconfig : String
  pub home_dir : Result String
  pub dir : String → String
  pub decode64 : String → Result String

abbrev in_home : Result String → Result String
in_home (ok home) = ok (join_path (home ∷ ".kube" ∷ "config" ∷ []))
in_home (err e) = err ("resolve home dir: " <> e)

abbrev first_path : Result String → List String → Result String
first_path home [] = in_home home
first_path home (path ∷ paths) = if path == "" then in_home home else ok path

unfoldable pub target_kubeconfig : Environment → Result String
target_kubeconfig env =
    if env.kubeconfig == ""
    then in_home env.home_dir
    else first_path env.home_dir (split_at ":" env.kubeconfig)

abbrev pub cluster_entry : String → String
cluster_entry name = "easyshift-" <> name

abbrev pub user_entry : String → String
user_entry name = "easyshift-" <> (name <> "-admin")

-- The third and the fourth argument.
abbrev named_step : List String → String
named_step (a ∷ b ∷ x ∷ y ∷ rest) = x <> (" " <> y)
named_step _ = ""

abbrev pub unset_context : String → List String
unset_context target = "--kubeconfig" ∷ target ∷ "config" ∷ "unset" ∷ "current-context" ∷ []

-- The entries that a rollback takes out.
abbrev pub removals : String → String → List (List String)
removals target name =
    ("--kubeconfig" ∷ target ∷ "config" ∷ "delete-context" ∷ name ∷ [])
    ∷ ("--kubeconfig" ∷ target ∷ "config" ∷ "delete-cluster" ∷ cluster_entry name ∷ [])
    ∷ ("--kubeconfig" ∷ target ∷ "config" ∷ "unset" ∷ ("users." <> user_entry name) ∷ [])
    ∷ []

module _ {W : Type 0} (env : Environment) (disk : Disk W) (cmd : CommandRunner W)
    (p : Pointer) where
  abbrev give : {S A : Type 0} → Result A → Action S A
  give r s = (s, r)

  unfoldable pub jsonpath : String → String → String → Action W String
  jsonpath oc kubeconfig expr = do
    out ←
        wrap (λ e. "extract " <> (expr <> (" from admin kubeconfig: " <> e)))
          (cmd.run oc (
            "--kubeconfig"
            ∷ kubeconfig
            ∷ "config"
            ∷ "view"
            ∷ "--raw"
            ∷ "-o"
            ∷ ("jsonpath=" <> expr)
            ∷ []))
    pure (trim_space out)

  unfoldable pub write_b64 : String → String → Effect W
  write_b64 path text = do
    raw ← wrap (λ e. "decode for " <> (path <> (": " <> e))) (give (env.decode64 text))
    wrap (λ e. "write " <> (path <> (": " <> e))) (disk.files.write_file path raw)

  -- The flags for the certificate authority, whose bundle is written to a file.
  abbrev ca_flags : String → String → Action W (List String)
  ca_flags path text = if text == "" then pure [] else do
    write_b64 path text
    pure (("--certificate-authority=" <> path) ∷ "--embed-certs=true" ∷ [])

  unfoldable pub run_steps : String → List (List String) → Effect W
  run_steps oc [] = done
  run_steps oc (args ∷ rest) = do
    out ← wrap (λ e. "oc " <> (named_step args <> (": " <> e))) (cmd.run oc args)
    run_steps oc rest

  -- The entries, written by `oc config`.
  abbrev merge_steps : String → String → String → String → List String → List (List String)
  merge_steps target name auth server flags =
      ("--kubeconfig"
        ∷ target
        ∷ "config"
        ∷ "set-cluster"
        ∷ cluster_entry name
        ∷ ("--server=" <> server)
        ∷ flags)
      ∷ ("--kubeconfig"
          ∷ target
          ∷ "config"
          ∷ "set-credentials"
          ∷ user_entry name
          ∷ ("--client-certificate=" <> join_path (auth ∷ "client.crt" ∷ []))
          ∷ ("--client-key=" <> join_path (auth ∷ "client.key" ∷ []))
          ∷ "--embed-certs=true"
          ∷ [])
      ∷ ("--kubeconfig"
          ∷ target
          ∷ "config"
          ∷ "set-context"
          ∷ name
          ∷ ("--cluster=" <> cluster_entry name)
          ∷ ("--user=" <> user_entry name)
          ∷ [])
      ∷ ("--kubeconfig" ∷ target ∷ "config" ∷ "use-context" ∷ name ∷ [])
      ∷ []

  -- `Apply` behind the record of the target.
  unfoldable pub merge_into : String → String → ClusterConfig → Effect W
  unfolding jsonpath write_b64 run_steps
  merge_into target dir c =
      let oc = oc_binary_path dir c in
      let admin = kubeconfig_path dir c in
      let auth = join_path (work_dir dir c ∷ "auth" ∷ []) in
      do
        server ← jsonpath oc admin "{.clusters[0].cluster.server}"
        ca ← jsonpath oc admin "{.clusters[0].cluster.certificate-authority-data}"
        cert ← jsonpath oc admin "{.users[0].user.client-certificate-data}"
        key ← jsonpath oc admin "{.users[0].user.client-key-data}"
        wrap (λ e. "create auth dir: " <> e) (disk.files.mkdir_all auth)
        write_b64 (join_path (auth ∷ "client.crt" ∷ [])) cert
        write_b64 (join_path (auth ∷ "client.key" ∷ [])) key
        flags ← ca_flags (join_path (auth ∷ "ca-bundle.crt" ∷ [])) ca
        run_steps oc (merge_steps target c.name auth server flags)

  unfoldable pub apply : Effect (Memory W)
  unfolding target_kubeconfig merge_into
  apply = do
    target ← give (target_kubeconfig env)
    wrap (λ e. "create kubeconfig dir: " <> e) (on_world (disk.files.mkdir_all (env.dir target)))
    change p (λ c. record c { kubeconfig_target = target })
    wrap (λ e. "save config: " <> e) (save disk)
    λ m. on_world (merge_into target m.config.config_dir (m.heap p)) m

  -- The kubeconfig that `Apply` recorded, or the user's.
  abbrev pub recorded_target : ClusterConfig → Result String
  recorded_target c =
      if not (c.kubeconfig_target == "") then ok c.kubeconfig_target else target_kubeconfig env

  abbrev pub shows : String → Result String → Bool
  shows name (ok out) = trim_space out == name
  shows name (err e) = false

  abbrev pub current_context : String → String → Action W String
  current_context oc target =
      cmd.run oc ("--kubeconfig" ∷ target ∷ "config" ∷ "current-context" ∷ [])

  -- The current context is unset if it is the cluster's.
  abbrev pub leave_context : String → String → String → W → W
  leave_context oc target name w =
      let (w', r) = current_context oc target w in
      elim (shows name r) [ true ↦ (cmd.run oc (unset_context target) w').0 | false ↦ w' ]

  -- Calls whose failures are only logged.
  abbrev pub attempt_each : String → List (List String) → W → W
  attempt_each oc [] w = w
  attempt_each oc (args ∷ rest) w = attempt_each oc rest (cmd.run oc args w).0

  abbrev pub take_out : String → String → ClusterConfig → W → W
  take_out target dir c w =
      let oc = oc_binary_path dir c in
      attempt_each oc (removals target c.name) (leave_context oc target c.name w)

  -- The memory behind the calls.
  abbrev pub without_target : String → Memory W → Memory W
  without_target target m = record m {
    heap = assign m.heap p (record (m.heap p) { kubeconfig_target = "" });
    world = take_out target m.config.config_dir (m.heap p) m.world;
  }

  abbrev pub forget : Result String → Effect (Memory W)
  forget (err e) m = (m, ok tt)
  forget (ok target) m = attempt (save disk) (without_target target m)

  unfoldable pub rollback : Effect (Memory W)
  unfolding target_kubeconfig
  rollback m = forget (recorded_target (m.heap p)) m

  unfoldable pub stage : Stage (Memory W)
  unfolding apply rollback
  stage = record { name = "merge-kubeconfig"; apply = apply; rollback = rollback; preflight = none }
