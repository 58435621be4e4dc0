-- ===== src/Stages/Odf.antt =====
-- stages/installodf: the phases that install OpenShift Data Foundation.
use easyshift.Base.{suc, ◌/◌, String, ◌<>◌, not, none, [], ◌∷◌, if◌then◌else◌}
use easyshift.Base.Int.{ℤ, pos, negsuc, sub_ℕ, ◌+ℤ◌}
use easyshift.Base.Action.{ok, Effect, ◌>>◌, wrap, done}
use easyshift.Interfaces.Os.{join_path}
use easyshift.Interfaces.Stage.{Stage}
use easyshift.Interfaces.Providers.{OdfInstaller, OdfSpec}
use easyshift.Config.Types.{ClusterConfig, Pointer}
use easyshift.Config.Memory.{Memory, on_world}
use easyshift.Config.Paths.{cluster_dir, binaries_dir, olm_channel_for_version}

-- `n / 3`, which Go rounds towards zero.
unfoldable pub third : ℤ → ℤ
third (pos n) = pos (n / 3)
third (negsuc n) = sub_ℕ 0 (suc n / 3)

unfoldable pub data_pvc_size : ClusterConfig → ℤ
data_pvc_size c = third c.odf_disk_gb +ℤ negsuc 2

unfoldable pub odf_spec : String → ClusterConfig → OdfSpec
odf_spec dir c = record {
  kubeconfig_path = join_path (cluster_dir dir c.name ∷ "auth" ∷ "kubeconfig" ∷ []);
  oc_binary_path = join_path (binaries_dir dir c.ocp_version ∷ "oc" ∷ []);
  work_dir = cluster_dir dir c.name;
  channel = olm_channel_for_version c.ocp_version;
  device_path = if c.bake_images then "/dev/vdc" else "/dev/vdb";
  data_pvc_size_gi = data_pvc_size c;
}

module _ {W : Type 0} (odf : OdfInstaller W) (p : Pointer) where
  unfoldable pub phases : OdfSpec → Effect W
  phases spec = do
    wrap (λ e. "odf operators: " <> e) (odf.install_operators spec)
    wrap (λ e. "odf lvm: " <> e) (odf.setup_lvm spec)
    wrap (λ e. "odf single-node enablement: " <> e) (odf.enable_single_node spec)
    wrap (λ e. "odf storagecluster: " <> e) (odf.create_storage_cluster spec)

  unfoldable pub apply : Effect (Memory W)
  apply m =
      let c = m.heap p in
      if not c.odf then (m, ok tt) else on_world (phases (odf_spec m.config.config_dir c)) m

  unfoldable pub stage : Stage (Memory W)
  stage = record { name = "install-odf"; apply = apply; rollback = done; preflight = none }
