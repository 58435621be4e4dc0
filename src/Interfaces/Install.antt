-- ===== src/Interfaces/Install.antt =====
-- interfaces/interfaces.go and interfaces/stage.go: the tools of an installation, and the paths and
-- the spec that a stage derives from its context.
use easyshift.Base.{String, ◌<>◌, Bool, List, [], ◌∷◌, ◌==◌, if◌then◌else◌}
use easyshift.Base.Action.{Action, Effect}
use easyshift.Interfaces.Os.{join_path}
use easyshift.Config.Types.{ClusterConfig}
use easyshift.Config.Paths.{cluster_dir, binaries_dir, rhcos_cache_dir}

-- The writer that streams the output of the wait commands is left out.
pub record InstallerSpec : Type 0 where
  pub cluster_dir : String
  pub cluster : ClusterConfig
  pub pull_secret : String
  pub ssh_public_key : String
  pub installer_path : String
  pub core_os_installer_path : String
  pub arch : String

pub record CoreOsLivePxe : Type 0 where
  pub kernel_url : String
  pub initramfs_url : String
  pub rootfs_url : String

pub record Installer (W : Type 0) : Type 0 where
  pub write_install_config : InstallerSpec → Effect W
  pub create_manifests : InstallerSpec → Effect W
  pub create_ignition_configs : InstallerSpec → Effect W
  pub write_image_store_manifest : InstallerSpec → Effect W
  pub create_single_node_ignition : InstallerSpec → Effect W
  pub write_rosetta_manifest : InstallerSpec → Effect W
  pub merge_image_store : InstallerSpec → String → Effect W
  pub embed_ignition_in_iso : InstallerSpec → String → String → String → Effect W
  pub embed_network_keyfile_in_iso : InstallerSpec → String → String → Effect W
  pub wait_for_install_complete : InstallerSpec → Effect W
  pub core_os_live_iso_url : InstallerSpec → Action W String
  pub core_os_live_pxe_urls : InstallerSpec → Action W CoreOsLivePxe

pub record BakeSpec : Type 0 where
  pub version : String
  pub oc_binary_path : String
  pub pull_secret_path : String
  pub overlay_dir : String
  pub output_disk_path : String

pub record ImageBaker (W : Type 0) : Type 0 where
  pub ready : BakeSpec → Action W Bool
  pub bake : BakeSpec → Effect W

-- The two queries of a `FileServer`.
pub record FileServer : Type 0 where
  pub root_dir : String
  pub base_url : String

-- `Issue` gives the certificate and the key.
pub record CertIssuer (W : Type 0) : Type 0 where
  pub issue : List String → Action W (String × String)

pub record CertIssuerOpts : Type 0 where
  pub email : String
  pub account_dir : String
  pub dns_provider : String
  pub token : String
  pub staging : Bool

-- `runtime.GOARCH` of the host is a parameter.
abbrev pub payload_arch : String → String
payload_arch goarch = if goarch == "arm64" then "aarch64" else "x86_64"

-- What a stage reads off its context: the config directory and the cluster.
module _ (dir : String) (c : ClusterConfig) where
  abbrev pub work_dir : String
  work_dir = cluster_dir dir c.name

  abbrev pub in_work_dir : String → String
  in_work_dir file = join_path (work_dir ∷ file ∷ [])

  abbrev pub oc_binary_path : String
  oc_binary_path = join_path (binaries_dir dir c.ocp_version ∷ "oc" ∷ [])

  abbrev pub master_iso_path : String
  master_iso_path = in_work_dir "master.iso"

  abbrev rhcos_cache : String → String
  rhcos_cache file = join_path (rhcos_cache_dir dir c.ocp_version ∷ file ∷ [])

  abbrev pub rhcos_live_iso_path : String
  rhcos_live_iso_path = rhcos_cache "rhcos-live.iso"

  abbrev pub rhcos_kernel_path : String
  rhcos_kernel_path = rhcos_cache "vmlinuz"

  abbrev pub rhcos_initramfs_path : String
  rhcos_initramfs_path = rhcos_cache "initramfs.img"

  abbrev pub rhcos_rootfs_path : String
  rhcos_rootfs_path = rhcos_cache "rootfs.img"

  abbrev pub master_iso_vol_name : String
  master_iso_vol_name = "easyshift-" <> (c.name <> "-master.iso")

  abbrev pub kubeconfig_path : String
  kubeconfig_path = join_path (work_dir ∷ "auth" ∷ "kubeconfig" ∷ [])

  abbrev pub installer_spec : String → InstallerSpec
  installer_spec goarch = record {
    cluster_dir = work_dir;
    cluster = c;
    pull_secret = "";
    ssh_public_key = "";
    installer_path = join_path (binaries_dir dir c.ocp_version ∷ "openshift-install" ∷ []);
    core_os_installer_path = join_path (binaries_dir dir c.ocp_version ∷ "coreos-installer" ∷ []);
    arch = payload_arch goarch;
  }
