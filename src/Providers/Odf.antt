-- ===== src/Providers/Odf.antt =====
-- providers/odf/installer.go: LVMS and OpenShift Data Foundation installed by `oc`. The runner of
-- commands, the file system and the clock are parameters; times are in seconds.
pub mod Render
pub mod Polling
pub mod Probes
pub mod Phases
use easyshift.Base.{
  ℕ, zero, suc, ◌+◌, ◌*◌, String, ◌<>◌, Bool, true, false, not, ◌&&◌, ◌||◌, Option, none, some, ltb,
  ◌==◌, if◌then◌else◌, List, [], ◌∷◌, ◌++◌,
}
use easyshift.Base.Text.{decimal, trim_space, split_at, cut_at, has_prefix}
use easyshift.Base.Action.{
  Error, Result, ok, err, Action, Effect, ◌>>=◌, ◌>>◌, pure, done, fail, wrap,
}
use easyshift.Interfaces.Os.{Files, Clock, join_path}
use easyshift.Interfaces.Providers.{CommandRunner, OdfSpec, OdfInstaller}
use package.easyshift.Providers.Odf.Render.{
  lvms_namespace, odf_namespace, rbd_storage_class, cephfs_storage_class, render_operators,
  render_lvm_cluster, render_immediate_storage_class, render_driver, render_monitoring_trim,
  render_storage_cluster, single_node_patch,
}

-- One line of the list of CSVs: does it name a CSV of the operator that has succeeded?
abbrev pub is_succeeded : String → Option (String × String) → Bool
is_succeeded prefix none = false
is_succeeded prefix (some (name, phase)) = has_prefix name prefix && phase == "Succeeded"

unfoldable pub any_succeeded : String → List String → Bool
any_succeeded prefix [] = false
any_succeeded prefix (line ∷ lines) =
    is_succeeded prefix (cut_at "=" line) || any_succeeded prefix lines

-- `err == nil && ok`, and the last error of the probes so far.
abbrev pub is_done : Result Bool → Bool
is_done (ok b) = b
is_done (err e) = false

abbrev pub later_error : Option Error → Result Bool → Option Error
later_error last (ok b) = last
later_error last (err e) = some e

-- A timeout is a number of minutes under sixty.
unfoldable pub timed_out : ℕ → String → Option Error → Error
timed_out minutes desc none =
    "timed out after " <> (decimal minutes <> ("m0s waiting for " <> desc))
timed_out minutes desc (some e) =
    "timed out after "
    <> (decimal minutes <> ("m0s waiting for " <> (desc <> (": last error: " <> e))))

-- `if err != nil || !ok { return false, err }`
infixr 3 ◌and_then◌
abbrev pub ◌and_then◌ : {W : Type 0} → Action W Bool → Action W Bool → Action W Bool
◌and_then◌ m k = m >>= λ b. if b then k else pure false

module _ {W : Type 0} (clock : Clock W) (probe : Action W Bool) where
  -- The loop of `pollUntil`, for at most `fuel` rounds.
  unfoldable pub poll_loop : ℕ → ℕ → String → ℕ → Option Error → W → W × Option (Result (Unit {0}))
  unfolding timed_out
  poll_loop zero minutes desc deadline last w = (w, none)
  poll_loop (suc fuel) minutes desc deadline last w =
      let (w', r) = probe w in
      elim (is_done r) [
        | true ↦ (w', some (ok tt))
        | false ↦ elim (ltb deadline (clock.now w')) [
          | true ↦ (w', some (err (timed_out minutes desc (later_error last r))))
          | false ↦
              let (w'', stop) = clock.wait 10 w' in
              elim stop [
                | some e ↦ (w'', some (err e))
                | none ↦ poll_loop fuel minutes desc deadline (later_error last r) w''
              ]
        ]
      ]

  -- A round that goes on takes ten seconds at least, so that these rounds exhaust the timeout.
  unfoldable pub poll_rounds : ℕ → String → W → W × Option (Result (Unit {0}))
  unfolding poll_loop
  poll_rounds minutes desc w =
      poll_loop (suc (suc (6 * minutes))) minutes desc (clock.now w + 60 * minutes) none w

  abbrev pub settled : W × Option (Result (Unit {0})) → W × Result (Unit {0})
  settled (w, some r) = (w, r)
  settled (w, none) = (w, err "no verdict")

  unfoldable pub poll_until : ℕ → String → Effect W
  unfolding poll_rounds
  poll_until minutes desc w = settled (poll_rounds minutes desc w)

module _ {W : Type 0} (cmd : CommandRunner W) (files : Files W) (clock : Clock W) where
  unfoldable pub oc : OdfSpec → List String → Action W String
  oc spec args = cmd.run spec.oc_binary_path ("--kubeconfig" ∷ spec.kubeconfig_path ∷ args)

  -- A call for its effect.
  unfoldable pub oc_do : OdfSpec → List String → Effect W
  unfolding oc
  oc_do spec args = do out ← oc spec args; done

  unfoldable pub oc_json_path : OdfSpec → String → List String → Action W String
  unfolding oc
  oc_json_path spec jsonpath args = do
    out ← oc spec (args ++ ("-o" ∷ ("jsonpath=" <> jsonpath) ∷ []))
    pure (trim_space out)

  unfoldable pub apply : OdfSpec → String → String → Effect W
  unfolding oc_do
  apply spec filename content = do
    let dir = join_path (spec.work_dir ∷ "odf" ∷ [])
    let path = join_path (dir ∷ filename ∷ [])
    wrap (λ e. "mkdir " <> (dir <> (": " <> e))) (files.mkdir_all dir)
    wrap (λ e. "write " <> (path <> (": " <> e))) (files.write_file path content)
    wrap (λ e. "apply " <> (filename <> (": " <> e))) (oc_do spec ("apply" ∷ "-f" ∷ path ∷ []))

  unfoldable pub csv_succeeded : OdfSpec → String → String → Action W Bool
  unfolding oc any_succeeded
  csv_succeeded spec namespace prefix = do
    out ← oc spec (
        "get" ∷ "csv" ∷ "-n" ∷ namespace ∷ "-o"
        ∷ "jsonpath={range .items[*]}{.metadata.name}{\"=\"}{.status.phase}{\"\\n\"}{end}" ∷ [])
    pure (any_succeeded prefix (split_at "\n" (trim_space out)))

  -- `_, err := oc(...)`, as a probe
  abbrev pub exists : OdfSpec → List String → Action W Bool
  exists spec args = do oc_do spec args; pure true

  abbrev pub reads : OdfSpec → String → String → List String → Action W Bool
  reads spec want jsonpath args = do got ← oc_json_path spec jsonpath args; pure (got == want)

  -- The probes of the phases.
  unfoldable pub operators_ready : OdfSpec → Action W Bool
  unfolding csv_succeeded oc_do
  operators_ready spec =
      csv_succeeded spec lvms_namespace "lvms-operator"
      and_then (csv_succeeded spec odf_namespace "ocs-operator"
          and_then (exists spec ("get" ∷ "crd" ∷ "storageclusters.ocs.openshift.io" ∷ [])))

  unfoldable pub lvm_ready : OdfSpec → Action W Bool
  unfolding oc_json_path
  lvm_ready spec =
      reads spec "Ready" "{.status.state}"
        ("get" ∷ "lvmcluster" ∷ "easyshift-odf" ∷ "-n" ∷ lvms_namespace ∷ [])

  abbrev pub deployment : List String
  deployment = "get" ∷ "deploy" ∷ "ocs-operator" ∷ "-n" ∷ odf_namespace ∷ []

  unfoldable pub single_node_ready : OdfSpec → Action W Bool
  unfolding oc_json_path
  single_node_ready spec =
      reads spec "true" "{.spec.template.spec.containers[0].env[?(@.name==\"SINGLE_NODE\")].value}"
        deployment
      and_then reads spec "True"
          "{range .status.conditions[?(@.type==\"Available\")]}{.status}{end}" deployment

  unfoldable pub cluster_ready : OdfSpec → Action W Bool
  unfolding oc_json_path
  cluster_ready spec =
      reads spec "Ready" "{.status.phase}"
        ("get" ∷ "storagecluster" ∷ "ocs-storagecluster" ∷ "-n" ∷ odf_namespace ∷ [])

  unfoldable pub classes_ready : OdfSpec → Action W Bool
  unfolding oc_do
  classes_ready spec =
      exists spec ("get" ∷ "sc" ∷ rbd_storage_class ∷ [])
      and_then exists spec ("get" ∷ "sc" ∷ cephfs_storage_class ∷ [])

  unfoldable pub await_operators : OdfSpec → Effect W
  unfolding operators_ready poll_until
  await_operators spec =
      poll_until clock (operators_ready spec) 15
        "lvms-operator + ocs-operator CSVs and the StorageCluster CRD"

  unfoldable pub await_lvm : OdfSpec → Effect W
  unfolding lvm_ready poll_until
  await_lvm spec = poll_until clock (lvm_ready spec) 5 "LVMCluster easyshift-odf Ready"

  unfoldable pub await_single_node : OdfSpec → Effect W
  unfolding single_node_ready poll_until
  await_single_node spec =
      poll_until clock (single_node_ready spec) 5 "ocs-operator deployment SINGLE_NODE + Available"

  unfoldable pub await_cluster : OdfSpec → Effect W
  unfolding cluster_ready poll_until
  await_cluster spec =
      poll_until clock (cluster_ready spec) 30 "StorageCluster ocs-storagecluster Ready"

  unfoldable pub await_classes : OdfSpec → Effect W
  unfolding classes_ready poll_until
  await_classes spec =
      poll_until clock (classes_ready spec) 10
        ("ceph StorageClasses " <> (rbd_storage_class <> (" and " <> cephfs_storage_class)))

  unfoldable pub install_operators : OdfSpec → Effect W
  unfolding apply await_operators
  install_operators spec = do
    apply spec "01-operators.yaml" (render_operators spec.channel)
    await_operators spec

  unfoldable pub setup_lvm : OdfSpec → Effect W
  unfolding apply await_lvm
  setup_lvm spec = do
    apply spec "02-lvmcluster.yaml" (render_lvm_cluster spec.device_path)
    await_lvm spec
    apply spec "03-storageclass-immediate.yaml" render_immediate_storage_class

  -- The subscription of ocs-operator by its `spec.name`.
  unfoldable pub find_subscription : OdfSpec → Action W String
  unfolding oc_json_path
  find_subscription spec = do
    sub_name ←
        wrap (λ e. "find ocs-operator subscription: " <> e)
          (oc_json_path spec "{range .items[?(@.spec.name==\"ocs-operator\")]}{.metadata.name}{end}"
            ("get" ∷ "sub" ∷ "-n" ∷ odf_namespace ∷ []))
    if sub_name == ""
        then fail ("no Subscription with spec.name=ocs-operator found in " <> odf_namespace)
        else pure sub_name

  unfoldable pub enable_single_node : OdfSpec → Effect W
  unfolding apply oc_do find_subscription await_single_node
  enable_single_node spec = do
    sub_name ← find_subscription spec
    wrap (λ e. "patch subscription " <> (sub_name <> (": " <> e)))
        (oc_do spec (
          "patch" ∷ "sub" ∷ "-n" ∷ odf_namespace ∷ sub_name ∷ "--type" ∷ "merge" ∷ "-p"
          ∷ single_node_patch ∷ []))
    await_single_node spec
    wrap (λ e. "label node for openshift-storage: " <> e)
        (oc_do spec (
          "label" ∷ "nodes" ∷ "--all" ∷ "cluster.ocs.openshift.io/openshift-storage="
          ∷ "--overwrite" ∷ []))
    apply spec "04-driver-rbd.yaml" (render_driver "openshift-storage.rbd.csi.ceph.com")
    apply spec "05-driver-cephfs.yaml" (render_driver "openshift-storage.cephfs.csi.ceph.com")
    apply spec "06-monitoring-trim.yaml" render_monitoring_trim

  unfoldable pub create_storage_cluster : OdfSpec → Effect W
  unfolding apply await_cluster await_classes
  create_storage_cluster spec = do
    apply spec "07-storagecluster.yaml" (render_storage_cluster spec.data_pvc_size_gi)
    await_cluster spec
    await_classes spec

  unfoldable pub odf_installer : OdfInstaller W
  odf_installer = record {
    install_operators = install_operators;
    setup_lvm = setup_lvm;
    enable_single_node = enable_single_node;
    create_storage_cluster = create_storage_cluster;
  }
