-- ===== src/Providers/Odf/Render.antt =====
-- providers/odf/render.go: the manifests of LVMS and of OpenShift Data Foundation.
use easyshift.Base.{String, ◌<>◌, List, [], ◌∷◌}
use easyshift.Base.Int.{ℤ}
use easyshift.Base.Text.{show_ℤ}

abbrev pub immediate_storage_class_name : String
immediate_storage_class_name = "easyshift-odf-immediate"

abbrev pub rbd_storage_class : String
rbd_storage_class = "ocs-storagecluster-ceph-rbd"

abbrev pub cephfs_storage_class : String
cephfs_storage_class = "ocs-storagecluster-cephfs"

abbrev pub lvms_namespace : String
lvms_namespace = "openshift-lvm-storage"

abbrev pub lvms_og_name : String
lvms_og_name = "lvms-operator-group"

abbrev pub lvms_sub_name : String
lvms_sub_name = "lvms-operator"

abbrev pub odf_namespace : String
odf_namespace = "openshift-storage"

abbrev pub odf_og_name : String
odf_og_name = "openshift-storage-operator-group"

abbrev pub odf_sub_name : String
odf_sub_name = "odf-operator"

abbrev pub catalog_source : String
catalog_source = "redhat-operators"

abbrev pub catalog_source_namespace : String
catalog_source_namespace = "openshift-marketplace"

abbrev pub lvm_device_class : String
lvm_device_class = "odf"

-- A text by its lines, each with its end.
unfoldable text_of : List String → String
text_of [] = ""
text_of (l ∷ ls) = l <> ("\n" <> text_of ls)

unfoldable pub render_operators : String → String
unfolding text_of
render_operators channel = text_of (
    "apiVersion: v1"
    ∷ "kind: Namespace"
    ∷ "metadata:"
    ∷ ("  name: " <> lvms_namespace)
    ∷ "---"
    ∷ "apiVersion: operators.coreos.com/v1"
    ∷ "kind: OperatorGroup"
    ∷ "metadata:"
    ∷ ("  name: " <> lvms_og_name)
    ∷ ("  namespace: " <> lvms_namespace)
    ∷ "spec:"
    ∷ "  targetNamespaces:"
    ∷ ("  - " <> lvms_namespace)
    ∷ "---"
    ∷ "apiVersion: operators.coreos.com/v1alpha1"
    ∷ "kind: Subscription"
    ∷ "metadata:"
    ∷ ("  name: " <> lvms_sub_name)
    ∷ ("  namespace: " <> lvms_namespace)
    ∷ "spec:"
    ∷ ("  channel: " <> channel)
    ∷ ("  name: " <> lvms_sub_name)
    ∷ ("  source: " <> catalog_source)
    ∷ ("  sourceNamespace: " <> catalog_source_namespace)
    ∷ "  installPlanApproval: Automatic"
    ∷ "---"
    ∷ "apiVersion: v1"
    ∷ "kind: Namespace"
    ∷ "metadata:"
    ∷ ("  name: " <> odf_namespace)
    ∷ "---"
    ∷ "apiVersion: operators.coreos.com/v1"
    ∷ "kind: OperatorGroup"
    ∷ "metadata:"
    ∷ ("  name: " <> odf_og_name)
    ∷ ("  namespace: " <> odf_namespace)
    ∷ "spec:"
    ∷ "  targetNamespaces:"
    ∷ ("  - " <> odf_namespace)
    ∷ "---"
    ∷ "apiVersion: operators.coreos.com/v1alpha1"
    ∷ "kind: Subscription"
    ∷ "metadata:"
    ∷ ("  name: " <> odf_sub_name)
    ∷ ("  namespace: " <> odf_namespace)
    ∷ "spec:"
    ∷ ("  channel: " <> channel)
    ∷ ("  name: " <> odf_sub_name)
    ∷ ("  source: " <> catalog_source)
    ∷ ("  sourceNamespace: " <> catalog_source_namespace)
    ∷ "  installPlanApproval: Automatic"
    ∷ [])

unfoldable pub render_lvm_cluster : String → String
unfolding text_of
render_lvm_cluster device_path = text_of (
    "apiVersion: lvm.topolvm.io/v1alpha1"
    ∷ "kind: LVMCluster"
    ∷ "metadata:"
    ∷ "  name: easyshift-odf"
    ∷ ("  namespace: " <> lvms_namespace)
    ∷ "spec:"
    ∷ "  storage:"
    ∷ "    deviceClasses:"
    ∷ ("    - name: " <> lvm_device_class)
    ∷ "      default: true"
    ∷ "      fstype: xfs"
    ∷ "      deviceSelector:"
    ∷ "        paths:"
    ∷ ("        - " <> device_path)
    ∷ "      thinPoolConfig:"
    ∷ "        name: thin"
    ∷ "        overprovisionRatio: 10"
    ∷ "        sizePercent: 90"
    ∷ [])

unfoldable pub render_immediate_storage_class : String
unfolding text_of
render_immediate_storage_class = text_of (
    "apiVersion: storage.k8s.io/v1"
    ∷ "kind: StorageClass"
    ∷ "metadata:"
    ∷ ("  name: " <> immediate_storage_class_name)
    ∷ "provisioner: topolvm.io"
    ∷ "parameters:"
    ∷ "  csi.storage.k8s.io/fstype: xfs"
    ∷ ("  topolvm.io/device-class: " <> lvm_device_class)
    ∷ "reclaimPolicy: Delete"
    ∷ "volumeBindingMode: Immediate"
    ∷ "allowVolumeExpansion: true"
    ∷ [])

unfoldable pub render_driver : String → String
unfolding text_of
render_driver name = text_of (
    "apiVersion: csi.ceph.io/v1"
    ∷ "kind: Driver"
    ∷ "metadata:"
    ∷ ("  name: " <> name)
    ∷ ("  namespace: " <> odf_namespace)
    ∷ "spec:"
    ∷ "  controllerPlugin:"
    ∷ "    replicas: 1"
    ∷ "    resources:"
    ∷ "      plugin:"
    ∷ "        requests:"
    ∷ "          memory: 100Mi"
    ∷ "          cpu: 50m"
    ∷ "      attacher:"
    ∷ "        requests:"
    ∷ "          memory: 50Mi"
    ∷ "          cpu: 25m"
    ∷ "      provisioner:"
    ∷ "        requests:"
    ∷ "          memory: 50Mi"
    ∷ "          cpu: 25m"
    ∷ "      resizer:"
    ∷ "        requests:"
    ∷ "          memory: 50Mi"
    ∷ "          cpu: 25m"
    ∷ "      snapshotter:"
    ∷ "        requests:"
    ∷ "          memory: 50Mi"
    ∷ "          cpu: 25m"
    ∷ "      omapGenerator:"
    ∷ "        requests:"
    ∷ "          memory: 50Mi"
    ∷ "          cpu: 10m"
    ∷ "      addons:"
    ∷ "        requests:"
    ∷ "          memory: 32Mi"
    ∷ "          cpu: 10m"
    ∷ [])

unfoldable pub render_monitoring_trim : String
unfolding text_of
render_monitoring_trim = text_of (
    "apiVersion: v1" ∷ "kind: ConfigMap" ∷ "metadata:" ∷ "  name: cluster-monitoring-config"
    ∷ "  namespace: openshift-monitoring" ∷ "data:" ∷ "  config.yaml: |" ∷ "    prometheusK8s:"
    ∷ "      retention: 4h" ∷ "      resources:" ∷ "        requests:" ∷ "          memory: 300Mi"
    ∷ "          cpu: 50m" ∷ "    alertmanagerMain:" ∷ "      resources:" ∷ "        requests:"
    ∷ "          memory: 50Mi" ∷ "          cpu: 10m" ∷ "    prometheusOperator:"
    ∷ "      resources:" ∷ "        requests:" ∷ "          memory: 50Mi" ∷ "          cpu: 10m"
    ∷ "    metricsServer:" ∷ "      resources:" ∷ "        requests:" ∷ "          memory: 50Mi"
    ∷ "          cpu: 10m" ∷ "    kubeStateMetrics:" ∷ "      resources:" ∷ "        requests:"
    ∷ "          memory: 50Mi" ∷ "          cpu: 10m" ∷ "    openshiftStateMetrics:"
    ∷ "      resources:" ∷ "        requests:" ∷ "          memory: 50Mi" ∷ "          cpu: 10m"
    ∷ "    telemeterClient:" ∷ "      resources:" ∷ "        requests:" ∷ "          memory: 50Mi"
    ∷ "          cpu: 10m" ∷ "    monitoringPlugin:" ∷ "      resources:" ∷ "        requests:"
    ∷ "          memory: 50Mi" ∷ "          cpu: 10m" ∷ [])

unfoldable pub device_set_tsc : String
unfolding text_of
device_set_tsc = text_of (
    "      topologySpreadConstraints:" ∷ "      - maxSkew: 1"
    ∷ "        topologyKey: kubernetes.io/hostname" ∷ "        whenUnsatisfiable: ScheduleAnyway"
    ∷ "        labelSelector:" ∷ "          matchExpressions:" ∷ "          - key: ceph.rook.io/pvc"
    ∷ "            operator: Exists" ∷ [])

unfoldable pub render_storage_cluster : ℤ → String
unfolding text_of device_set_tsc
render_storage_cluster pvc_gi =
    text_of (
      "apiVersion: ocs.openshift.io/v1"
      ∷ "kind: StorageCluster"
      ∷ "metadata:"
      ∷ "  name: ocs-storagecluster"
      ∷ ("  namespace: " <> odf_namespace)
      ∷ "spec:"
      ∷ "  monPVCTemplate:"
      ∷ "    spec:"
      ∷ ("      storageClassName: " <> immediate_storage_class_name)
      ∷ "      accessModes:"
      ∷ "      - ReadWriteOnce"
      ∷ "      resources:"
      ∷ "        requests:"
      ∷ "          storage: 2Gi"
      ∷ "  placement:"
      ∷ "    mon: {}"
      ∷ "    mds: {}"
      ∷ "    mgr: {}"
      ∷ "    rbd-mirror: {}"
      ∷ "    rgw: {}"
      ∷ "    nfs: {}"
      ∷ "    noobaa-core: {}"
      ∷ "    noobaa-standalone: {}"
      ∷ "    osd-prepare: {}"
      ∷ "  resources:"
      ∷ "    mon:"
      ∷ "      requests:"
      ∷ "        cpu: 125m"
      ∷ "        memory: 128Mi"
      ∷ "    mds:"
      ∷ "      requests:"
      ∷ "        cpu: 125m"
      ∷ "        memory: 128Mi"
      ∷ "    mgr:"
      ∷ "      requests:"
      ∷ "        cpu: 125m"
      ∷ "        memory: 128Mi"
      ∷ "    mgr-sidecar:"
      ∷ "      requests:"
      ∷ "        cpu: 125m"
      ∷ "        memory: 128Mi"
      ∷ "    nfs:"
      ∷ "      requests:"
      ∷ "        cpu: 125m"
      ∷ "        memory: 128Mi"
      ∷ "    noobaa-core:"
      ∷ "      requests:"
      ∷ "        cpu: 125m"
      ∷ "        memory: 128Mi"
      ∷ "    noobaa-db:"
      ∷ "      requests:"
      ∷ "        cpu: 125m"
      ∷ "        memory: 128Mi"
      ∷ "    noobaa-db-vol:"
      ∷ "      requests:"
      ∷ "        storage: 5Gi"
      ∷ "    noobaa-endpoint:"
      ∷ "      requests:"
      ∷ "        cpu: 125m"
      ∷ "        memory: 128Mi"
      ∷ "    rbd-mirror:"
      ∷ "      requests:"
      ∷ "        cpu: 125m"
      ∷ "        memory: 128Mi"
      ∷ "    rgw:"
      ∷ "      requests:"
      ∷ "        cpu: 125m"
      ∷ "        memory: 128Mi"
      ∷ "  storageDeviceSets:"
      ∷ "  - count: 3"
      ∷ "    name: ocs-deviceset"
      ∷ "    dataPVCTemplate:"
      ∷ "      spec:"
      ∷ ("        storageClassName: " <> immediate_storage_class_name)
      ∷ "        accessModes:"
      ∷ "        - ReadWriteOnce"
      ∷ "        resources:"
      ∷ "          requests:"
      ∷ ("            storage: " <> (show_ℤ pvc_gi <> "Gi"))
      ∷ "        volumeMode: Block"
      ∷ "    placement:"
      ∷ [])
    <> (device_set_tsc
        <> (text_of ("    preparePlacement:" ∷ [])
            <> (device_set_tsc
                <> text_of (
                    "    portable: false" ∷ "    replica: 1" ∷ "    resources:" ∷ "      requests:"
                    ∷ "        cpu: 125m" ∷ "        memory: 128Mi" ∷ []))))

abbrev pub single_node_patch : String
single_node_patch =
    "{\"spec\":{\"config\":{\"env\":[{\"name\":\"SINGLE_NODE\",\"value\":\"true\"}]}}}"
