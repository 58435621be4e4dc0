-- ===== src/Providers/Odf/Probes.antt =====
-- What the probes of the installer look at: the answers of `oc` behind one that says yes.
use easyshift.Base.{
  String, ◌<>◌, ◌≡◌, ◌∙◌, Bool, true, Option, none, some, List, [], ◌∷◌, ◌++◌, ◌⊎◌, inl, inr, arith,
  subst, sym, ap, eq_iff, Bool-cases,
}
use easyshift.Base.Text.{trim_space, split_at, cut_at, has_prefix}
use easyshift.Base.Action.{Result, ok, err, Action, Result-cases}
use easyshift.Interfaces.Os.{Files, Clock}
use easyshift.Interfaces.Providers.{CommandRunner, OdfSpec}
use package.easyshift.Providers.Odf.Render.{
  lvms_namespace, odf_namespace, rbd_storage_class, cephfs_storage_class,
}
use package.easyshift.Providers.Odf.{
  is_succeeded, any_succeeded, oc, oc_do, oc_json_path, csv_succeeded, operators_ready, lvm_ready,
  single_node_ready, cluster_ready, classes_ready, deployment, ◌and_then◌, reads, exists,
}

-- A line of the list of CSVs that names one of the operator which has succeeded.
abbrev pub Names : String → Option (String × String) → Type 0
Names prefix none = ⊥
Names prefix (some (name, phase)) = (has_prefix name prefix ≡ true) × (phase ≡ "Succeeded")

abbrev pub Succeeded : String → List String → Type 0
Succeeded prefix [] = ⊥
Succeeded prefix (line ∷ lines) = Names prefix (cut_at "=" line) ⊎ Succeeded prefix lines

is_succeeded-Names :
    (prefix : String) (cut : Option (String × String))
    → is_succeeded prefix cut ≡ true
    → Names prefix cut
is_succeeded-Names prefix none h = absurd (cc h)
is_succeeded-Names prefix (some (name, phase)) h =
    (ground arith, ground (arith, eq_iff phase "Succeeded"))

any_succeeded-Succeeded :
    (prefix : String) (lines : List String)
    → any_succeeded prefix lines ≡ true
    → Succeeded prefix lines
unfolding any_succeeded
any_succeeded-Succeeded prefix [] h = absurd (cc h)
any_succeeded-Succeeded prefix (line ∷ lines) h =
    elim (Bool-cases (is_succeeded prefix (cut_at "=" line))) [
      | inl y ↦ inl (is_succeeded-Names prefix (cut_at "=" line) y)
      | inr n ↦ inr (any_succeeded-Succeeded prefix lines (ground arith))
    ]

-- An answer that is there and of which something holds.
abbrev pub Says : (String → Type 0) → Result String → Type 0
Says P (ok out) = P out
Says P (err e) = ⊥

abbrev pub Trims : String → String → Type 0
Trims want out = trim_space out ≡ want

abbrev pub Lists : String → String → Type 0
Lists prefix out = Succeeded prefix (split_at "\n" (trim_space out))

abbrev single_node_env : String
single_node_env = "{.spec.template.spec.containers[0].env[?(@.name==\"SINGLE_NODE\")].value}"

abbrev available_status : String
available_status = "{range .status.conditions[?(@.type==\"Available\")]}{.status}{end}"

abbrev pub Anything : String → Type 0
Anything out = Unit

module _ {W : Type 0} (cmd : CommandRunner W) (files : Files W) (clock : Clock W)
    (spec : OdfSpec) where
  -- One call of `oc` against the cluster.
  abbrev pub call : List String → W → W × Result String
  call args = cmd.run spec.oc_binary_path ("--kubeconfig" ∷ spec.kubeconfig_path ∷ args)

  abbrev pub csv_args : String → List String
  csv_args namespace =
      "get" ∷ "csv" ∷ "-n" ∷ namespace ∷ "-o"
      ∷ "jsonpath={range .items[*]}{.metadata.name}{\"=\"}{.status.phase}{\"\\n\"}{end}" ∷ []

  abbrev pub status_args : String → String → String → String → List String
  status_args kind name namespace field =
      "get" ∷ kind ∷ name ∷ "-n" ∷ namespace ∷ "-o" ∷ ("jsonpath=" <> field) ∷ []

  -- Two calls of which the second runs behind the first.
  abbrev Both : List String → (String → Type 0) → List String → (String → Type 0) → W → Type 0
  Both args P more Q w = Says P (call args w).1 × Says Q (call more (call args w).0).1

  abbrev pub OperatorsReady : W → Type 0
  OperatorsReady w =
      let u = (call (csv_args "openshift-lvm-storage") w).0 in
      let v = (call (csv_args "openshift-storage") u).0 in
      Says (Lists "lvms-operator") (call (csv_args "openshift-lvm-storage") w).1
      × Says (Lists "ocs-operator") (call (csv_args "openshift-storage") u).1
      × Says Anything (call ("get" ∷ "crd" ∷ "storageclusters.ocs.openshift.io" ∷ []) v).1

  abbrev pub LvmReady : W → Type 0
  LvmReady w =
      Says (Trims "Ready")
        (call (status_args "lvmcluster" "easyshift-odf" "openshift-lvm-storage" "{.status.state}")
          w).1

  abbrev pub SingleNodeReady : W → Type 0
  SingleNodeReady w =
      Both (status_args "deploy" "ocs-operator" "openshift-storage" single_node_env) (Trims "true")
        (status_args "deploy" "ocs-operator" "openshift-storage" available_status) (Trims "True") w

  abbrev pub ClusterReady : W → Type 0
  ClusterReady w =
      Says (Trims "Ready")
        (call
          (status_args "storagecluster" "ocs-storagecluster" "openshift-storage" "{.status.phase}")
          w).1

  abbrev pub ClassesReady : W → Type 0
  ClassesReady w =
      Both ("get" ∷ "sc" ∷ "ocs-storagecluster-ceph-rbd" ∷ []) Anything
        ("get" ∷ "sc" ∷ "ocs-storagecluster-cephfs" ∷ []) Anything w

  Result-Says :
      (P : String → Type 0) (r : Result String) (out : String) → r ≡ ok out → P out → Says P r
  Result-Says P r out e h = subst (Says P) (sym e) h

  -- What one call shows, and the world that it leaves.
  Shows : List String → (String → Type 0) → W → W × Result Bool → Type 0
  Shows args P w p = Says P (call args w).1 × (p.0 ≡ (call args w).0)

  reads-Shows :
      (want path : String) (args : List String) (w : W)
      → (reads cmd files clock spec want path args w).1 ≡ ok true
      → Shows
          (args ++ ("-o" ∷ ("jsonpath=" <> path) ∷ []))
          (Trims want)
          w
          (reads cmd files clock spec want path args w)
  unfolding Shows oc_json_path oc
  reads-Shows want path args w h =
      elim (Result-cases (call (args ++ ("-o" ∷ ("jsonpath=" <> path) ∷ [])) w).1) [
        | inr (_, e) ↦ absurd (ground arith)
        | inl (out, e) ↦ (
          Result-Says (Trims want) _ out e (ground (arith, eq_iff (trim_space out) want)),
          ground arith,
        )
      ]

  exists-Shows :
      (args : List String) (w : W)
      → (exists cmd files clock spec args w).1 ≡ ok true
      → Shows args Anything w (exists cmd files clock spec args w)
  unfolding Shows oc_do oc
  exists-Shows args w h = elim (Result-cases (call args w).1) [
    | inr (_, e) ↦ absurd (ground arith)
    | inl (out, e) ↦ (Result-Says Anything _ out e tt, ground arith)
  ]

  csv_succeeded-Shows :
      (namespace prefix : String) (w : W)
      → (csv_succeeded cmd files clock spec namespace prefix w).1 ≡ ok true
      → Shows
          (csv_args namespace)
          (Lists prefix)
          w
          (csv_succeeded cmd files clock spec namespace prefix w)
  unfolding Shows csv_succeeded oc
  csv_succeeded-Shows namespace prefix w h = elim (Result-cases (call (csv_args namespace) w).1) [
    | inr (_, e) ↦ absurd (ground arith)
    | inl (out, e) ↦ (
      Result-Says (Lists prefix) _ out e (any_succeeded-Succeeded prefix _ (ground arith)),
      ground arith,
    )
  ]

  -- Both parts of a probe say yes.
  parts :
      (m k : Action W Bool) (w : W)
      → ((m and_then k) w).1 ≡ ok true
      → ((m w).1 ≡ ok true) × ((k (m w).0).1 ≡ ok true)
  parts m k w h = elim (Result-cases (m w).1) [
    | inr (_, e) ↦ absurd (ground arith)
    | inl (b, e) ↦ (ground arith, ground arith)
  ]

  pub lvm_ready-LvmReady : (w : W) → (lvm_ready cmd files clock spec w).1 ≡ ok true → LvmReady w
  unfolding lvm_ready Shows
  lvm_ready-LvmReady w h =
      (reads-Shows "Ready" "{.status.state}"
        ("get" ∷ "lvmcluster" ∷ "easyshift-odf" ∷ "-n" ∷ lvms_namespace ∷ []) w h).0

  pub cluster_ready-ClusterReady :
      (w : W) → (cluster_ready cmd files clock spec w).1 ≡ ok true → ClusterReady w
  unfolding cluster_ready Shows
  cluster_ready-ClusterReady w h =
      (reads-Shows "Ready" "{.status.phase}"
        ("get" ∷ "storagecluster" ∷ "ocs-storagecluster" ∷ "-n" ∷ odf_namespace ∷ []) w h).0

  -- The second of two calls, in the world that the first one left.
  behind :
      (args more : List String) (P Q : String → Type 0) (w : W) (p q : W × Result Bool)
      → Shows args P w p
      → Shows more Q p.0 q
      → Both args P more Q w
  unfolding Shows
  behind args more P Q w p q (a, e) (b, _) = (a, subst (λ u. Says Q (call more u).1) e b)

  pub single_node_ready-SingleNodeReady :
      (w : W) → (single_node_ready cmd files clock spec w).1 ≡ ok true → SingleNodeReady w
  unfolding single_node_ready
  single_node_ready-SingleNodeReady w h =
      let args = deployment cmd files clock in
      let m = reads cmd files clock spec "true" single_node_env args in
      let k = reads cmd files clock spec "True" available_status args in
      let (a, b) = parts m k w h in
      behind (args ++ ("-o" ∷ ("jsonpath=" <> single_node_env) ∷ []))
        (args ++ ("-o" ∷ ("jsonpath=" <> available_status) ∷ [])) (Trims "true") (Trims "True") w
        (m w) (k (m w).0) (reads-Shows "true" single_node_env args w a)
        (reads-Shows "True" available_status args (m w).0 b)

  pub classes_ready-ClassesReady :
      (w : W) → (classes_ready cmd files clock spec w).1 ≡ ok true → ClassesReady w
  unfolding classes_ready
  classes_ready-ClassesReady w h =
      let m = exists cmd files clock spec ("get" ∷ "sc" ∷ rbd_storage_class ∷ []) in
      let k = exists cmd files clock spec ("get" ∷ "sc" ∷ cephfs_storage_class ∷ []) in
      let (a, b) = parts m k w h in
      behind ("get" ∷ "sc" ∷ rbd_storage_class ∷ []) ("get" ∷ "sc" ∷ cephfs_storage_class ∷ [])
        Anything Anything w (m w) (k (m w).0) (exists-Shows _ w a) (exists-Shows _ (m w).0 b)

  pub operators_ready-OperatorsReady :
      (w : W) → (operators_ready cmd files clock spec w).1 ≡ ok true → OperatorsReady w
  unfolding operators_ready Shows
  operators_ready-OperatorsReady w h =
      let crd = "get" ∷ "crd" ∷ "storageclusters.ocs.openshift.io" ∷ [] in
      let m = csv_succeeded cmd files clock spec lvms_namespace "lvms-operator" in
      let k = csv_succeeded cmd files clock spec odf_namespace "ocs-operator" in
      let l = exists cmd files clock spec crd in
      let (a, rest) = parts m (λ u. (k and_then l) u) w h in
      let (b, c) = parts k l (m w).0 rest in
      let (x, e) = csv_succeeded-Shows lvms_namespace "lvms-operator" w a in
      let (y, f) = csv_succeeded-Shows odf_namespace "ocs-operator" (m w).0 b in
      let (z, _) = exists-Shows crd (k (m w).0).0 c in
      (
        x,
        subst (λ u. Says (Lists "ocs-operator") (call (csv_args odf_namespace) u).1) e y,
        subst (λ u. Says Anything (call crd u).1)
            (f ∙ ap (λ u. (call (csv_args odf_namespace) u).0) e) z,
      )
