-- ===== src/Providers/Odf/Phases.antt =====
-- The phases of install-odf, run with this installer: the run behind a success, step by step.
use easyshift.Base.{ℕ, String, Bool, true, ◌≡◌, refl, subst, arith, List, [], ◌∷◌, inl, inr}
use easyshift.Base.Action.{Action, Result, ok, err, Result-cases}
use easyshift.Config.Types.{Pointer}
use easyshift.Interfaces.Os.{Files, Clock}
use easyshift.Interfaces.Providers.{CommandRunner, OdfSpec, OdfInstaller}
use easyshift.Stages.Odf.{phases}
use package.easyshift.Providers.Odf.Render.{
  odf_namespace, render_operators, render_lvm_cluster, render_immediate_storage_class,
  render_driver, render_monitoring_trim, render_storage_cluster, single_node_patch,
}
use package.easyshift.Providers.Odf.{
  poll_until, apply, oc_do, find_subscription, operators_ready, lvm_ready, single_node_ready,
  cluster_ready, classes_ready, await_operators, await_lvm, await_single_node, await_cluster,
  await_classes, install_operators, setup_lvm, enable_single_node, create_storage_cluster,
  odf_installer,
}
use package.easyshift.Providers.Odf.Polling.{Polls, Polls-last, poll_until-Polls}
use package.easyshift.Providers.Odf.Probes.{
  OperatorsReady, LvmReady, SingleNodeReady, ClusterReady, ClassesReady,
  operators_ready-OperatorsReady, lvm_ready-LvmReady, single_node_ready-SingleNodeReady,
  cluster_ready-ClusterReady, classes_ready-ClassesReady,
}

-- A step that succeeded led from one world to another.
abbrev pub Led : {W : Type 0} → W × Result (Unit {0}) → W → Type 0
Led p t = p ≡ (t, ok tt)

led : {W : Type 0} (p : W × Result (Unit {0})) → p.1 ≡ ok tt → Led p p.0
led (w, ok _) h = refl
led (w, err e) h = absurd (cc h)

module _ {W : Type 0} (cmd : CommandRunner W) (files : Files W) (clock : Clock W)
    (spec : OdfSpec) where
  abbrev Applied : String → String → W → W → Type 0
  Applied file text s t = Led (apply cmd files clock spec file text s) t

  abbrev patch_args : String → List String
  patch_args sub_name =
      "patch" ∷ "sub" ∷ "-n" ∷ odf_namespace ∷ sub_name ∷ "--type" ∷ "merge" ∷ "-p"
      ∷ single_node_patch ∷ []

  abbrev label_args : List String
  label_args =
      "label" ∷ "nodes" ∷ "--all" ∷ "cluster.ocs.openshift.io/openshift-storage=" ∷ "--overwrite"
      ∷ []

  -- A polling that succeeds: it ends with its first probe that says yes, and the answers that this
  -- probe had are what is waited for.
  abbrev Awaited : Action W Bool → (W → Type 0) → W → W → Type 0
  Awaited probe Answered s t = Polls clock probe s t × ((u : W) × Answered u × (t ≡ (probe u).0))

  -- The phases: what each applies and calls, and what it waits for, in order.
  abbrev Installed : W → W → Type 0
  Installed s t =
      (a : W) × Applied "01-operators.yaml" (render_operators spec.channel) s a
      × Awaited (operators_ready cmd files clock spec) (OperatorsReady cmd files clock spec) a t

  abbrev SetUp : W → W → Type 0
  SetUp s t =
      (a : W) × (b : W) × Applied "02-lvmcluster.yaml" (render_lvm_cluster spec.device_path) s a
      × Awaited (lvm_ready cmd files clock spec) (LvmReady cmd files clock spec) a b
      × Applied "03-storageclass-immediate.yaml" render_immediate_storage_class b t

  abbrev Patched : W → W → Type 0
  Patched s t =
      (sub_name : String) × (a : W) × (find_subscription cmd files clock spec s ≡ (a, ok sub_name))
      × Led (oc_do cmd files clock spec (patch_args sub_name) a) t

  abbrev Trimmed : W → W → Type 0
  Trimmed s t =
      (a : W) × (b : W) × (c : W) × Led (oc_do cmd files clock spec label_args s) a
      × Applied "04-driver-rbd.yaml" (render_driver "openshift-storage.rbd.csi.ceph.com") a b
      × Applied "05-driver-cephfs.yaml" (render_driver "openshift-storage.cephfs.csi.ceph.com") b c
      × Applied "06-monitoring-trim.yaml" render_monitoring_trim c t

  abbrev Enabled : W → W → Type 0
  Enabled s t =
      (a : W) × (b : W) × Patched s a
      × Awaited (single_node_ready cmd files clock spec) (SingleNodeReady cmd files clock spec) a b
      × Trimmed b t

  abbrev Created : W → W → Type 0
  Created s t =
      (a : W) × (b : W) × Applied "07-storagecluster.yaml"
        (render_storage_cluster spec.data_pvc_size_gi) s a
      × Awaited (cluster_ready cmd files clock spec) (ClusterReady cmd files clock spec) a b
      × Awaited (classes_ready cmd files clock spec) (ClassesReady cmd files clock spec) b t

  -- A run of all four phases from one world to another.
  abbrev pub Ran : W → W → Type 0
  Ran s t = (a : W) × (b : W) × (c : W) × Installed s a × SetUp a b × Enabled b c × Created c t

  poll_until-Awaited :
      (probe : Action W Bool) (Answered : W → Type 0)
      → ((u : W) → (probe u).1 ≡ ok true → Answered u)
      → (minutes : ℕ) (desc : String) (w : W) → (poll_until clock probe minutes desc w).1 ≡ ok tt
      → Awaited probe Answered w (poll_until clock probe minutes desc w).0
  poll_until-Awaited probe Answered sound minutes desc w h =
      let polls = poll_until-Polls clock probe minutes desc w h in
      let (u, y, e) = Polls-last clock probe w _ polls in (polls, (u, sound u y, e))

  await_operators-Awaited :
      (w : W)
      → (await_operators cmd files clock spec w).1 ≡ ok tt
      → Awaited
          (operators_ready cmd files clock spec)
          (OperatorsReady cmd files clock spec)
          w
          (await_operators cmd files clock spec w).0
  unfolding await_operators
  await_operators-Awaited w h =
      poll_until-Awaited (operators_ready cmd files clock spec)
        (OperatorsReady cmd files clock spec) (operators_ready-OperatorsReady cmd files clock spec)
        15 "lvms-operator + ocs-operator CSVs and the StorageCluster CRD" w h

  await_lvm-Awaited :
      (w : W)
      → (await_lvm cmd files clock spec w).1 ≡ ok tt
      → Awaited
          (lvm_ready cmd files clock spec)
          (LvmReady cmd files clock spec)
          w
          (await_lvm cmd files clock spec w).0
  unfolding await_lvm
  await_lvm-Awaited w h =
      poll_until-Awaited (lvm_ready cmd files clock spec) (LvmReady cmd files clock spec)
        (lvm_ready-LvmReady cmd files clock spec) 5 "LVMCluster easyshift-odf Ready" w h

  await_single_node-Awaited :
      (w : W)
      → (await_single_node cmd files clock spec w).1 ≡ ok tt
      → Awaited
          (single_node_ready cmd files clock spec)
          (SingleNodeReady cmd files clock spec)
          w
          (await_single_node cmd files clock spec w).0
  unfolding await_single_node
  await_single_node-Awaited w h =
      poll_until-Awaited (single_node_ready cmd files clock spec)
        (SingleNodeReady cmd files clock spec)
        (single_node_ready-SingleNodeReady cmd files clock spec) 5
        "ocs-operator deployment SINGLE_NODE + Available" w h

  await_cluster-Awaited :
      (w : W)
      → (await_cluster cmd files clock spec w).1 ≡ ok tt
      → Awaited
          (cluster_ready cmd files clock spec)
          (ClusterReady cmd files clock spec)
          w
          (await_cluster cmd files clock spec w).0
  unfolding await_cluster
  await_cluster-Awaited w h =
      poll_until-Awaited (cluster_ready cmd files clock spec) (ClusterReady cmd files clock spec)
        (cluster_ready-ClusterReady cmd files clock spec) 30
        "StorageCluster ocs-storagecluster Ready" w h

  await_classes-Awaited :
      (w : W)
      → (await_classes cmd files clock spec w).1 ≡ ok tt
      → Awaited
          (classes_ready cmd files clock spec)
          (ClassesReady cmd files clock spec)
          w
          (await_classes cmd files clock spec w).0
  unfolding await_classes
  await_classes-Awaited w h =
      poll_until-Awaited (classes_ready cmd files clock spec) (ClassesReady cmd files clock spec)
        (classes_ready-ClassesReady cmd files clock spec) 10
        "ceph StorageClasses ocs-storagecluster-ceph-rbd and ocs-storagecluster-cephfs" w h

  install_operators-Installed :
      (w : W)
      → (install_operators cmd files clock spec w).1 ≡ ok tt
      → Installed w (install_operators cmd files clock spec w).0
  unfolding install_operators
  install_operators-Installed w h =
      let a = (apply cmd files clock spec "01-operators.yaml" (render_operators spec.channel) w) in
      let same : (await_operators cmd files clock spec a.0).0
          ≡ (install_operators cmd files clock spec w).0 =
        ground arith in
      (
        a.0,
        led a (ground arith),
        subst
            (Awaited (operators_ready cmd files clock spec) (OperatorsReady cmd files clock spec)
              a.0)
            same (await_operators-Awaited a.0 (ground arith)),
      )

  setup_lvm-SetUp :
      (w : W)
      → (setup_lvm cmd files clock spec w).1 ≡ ok tt
      → SetUp w (setup_lvm cmd files clock spec w).0
  unfolding setup_lvm
  setup_lvm-SetUp w h =
      let a =
        (apply cmd files clock spec "02-lvmcluster.yaml" (render_lvm_cluster spec.device_path) w) in
      let b = await_lvm cmd files clock spec a.0 in
      (a.0, b.0, led a (ground arith), await_lvm-Awaited a.0 (ground arith), ground arith)

  create_storage_cluster-Created :
      (w : W)
      → (create_storage_cluster cmd files clock spec w).1 ≡ ok tt
      → Created w (create_storage_cluster cmd files clock spec w).0
  unfolding create_storage_cluster
  create_storage_cluster-Created w h =
      let a =
        (apply cmd files clock spec "07-storagecluster.yaml"
          (render_storage_cluster spec.data_pvc_size_gi) w) in
      let b = await_cluster cmd files clock spec a.0 in
      let same : (await_classes cmd files clock spec b.0).0
          ≡ (create_storage_cluster cmd files clock spec w).0 =
        ground arith in
      (
        a.0,
        b.0,
        led a (ground arith),
        await_cluster-Awaited a.0 (ground arith),
        subst (Awaited (classes_ready cmd files clock spec) (ClassesReady cmd files clock spec) b.0)
            same (await_classes-Awaited b.0 (ground arith)),
      )

  enable_single_node-Enabled :
      (w : W)
      → (enable_single_node cmd files clock spec w).1 ≡ ok tt
      → Enabled w (enable_single_node cmd files clock spec w).0
  unfolding enable_single_node
  enable_single_node-Enabled w h =
      let found = find_subscription cmd files clock spec w in
      elim (Result-cases found.1) [
        | inr (_, e) ↦ absurd (ground arith)
        | inl (sub_name, e) ↦
            let a = oc_do cmd files clock spec (patch_args sub_name) found.0 in
            let b = await_single_node cmd files clock spec a.0 in
            let c = oc_do cmd files clock spec label_args b.0 in
            let d =
              (apply cmd files clock spec "04-driver-rbd.yaml"
                (render_driver "openshift-storage.rbd.csi.ceph.com") c.0) in
            let f =
              (apply cmd files clock spec "05-driver-cephfs.yaml"
                (render_driver "openshift-storage.cephfs.csi.ceph.com") d.0) in
            (
              a.0,
              b.0,
              (sub_name, found.0, λ i. (found.0, e i), led a (ground arith)),
              await_single_node-Awaited a.0 (ground arith),
              (
                c.0,
                d.0,
                f.0,
                led c (ground arith),
                led d (ground arith),
                led f (ground arith),
                ground arith,
              ),
            )
      ]

  abbrev odf : OdfInstaller W
  odf = odf_installer cmd files clock

  last_world :
      (p : Pointer) (w : W)
      → (phases odf p spec w).1 ≡ ok tt
      → (create_storage_cluster cmd files clock spec
          (enable_single_node cmd files clock spec
            (setup_lvm cmd files clock spec (install_operators cmd files clock spec w).0).0).0).0
        ≡ (phases odf p spec w).0
  unfolding phases odf_installer
  last_world p w h = ground arith

  -- A success of the phases of install-odf is this run, step by step. The manifests of the operators
  -- are applied, then the CSVs and the CRD are polled; that of LVM is applied, it is polled, and the
  -- storage class is applied; the subscription of ocs-operator is found and patched, the single-node
  -- mode is polled, the node is labelled and the two drivers and the trim are applied; the storage
  -- cluster is applied, it is polled, and then both storage classes are. Each polling ends with its
  -- first probe that says yes, which is one that had the answers waited for: a succeeded CSV of both
  -- operators and the CRD, `Ready` of LVM and of the storage cluster, `true` and `True` of the
  -- deployment, and both classes.
  pub phases-Ran :
      (p : Pointer) (w : W) → (phases odf p spec w).1 ≡ ok tt → Ran w (phases odf p spec w).0
  unfolding phases odf_installer
  phases-Ran p w h =
      let a = (install_operators cmd files clock spec w).0 in
      let b = (setup_lvm cmd files clock spec a).0 in
      let c = (enable_single_node cmd files clock spec b).0 in
      (
        a,
        b,
        c,
        install_operators-Installed w (ground arith),
        setup_lvm-SetUp a (ground arith),
        enable_single_node-Enabled b (ground arith),
        subst (Created c) (last_world p w h) (create_storage_cluster-Created c (ground arith)),
      )
