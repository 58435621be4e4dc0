-- ===== src/Interfaces/Providers.antt =====
-- interfaces/interfaces.go: the side-effect boundaries. An implementation acts on a state of the
-- world that the stages do not see. Each method is an action on it, which may fail.
use easyshift.Base.{ℕ, String, Bool, List, Option}
use easyshift.Base.Int.{ℤ}
use easyshift.Base.Action.{Action, Effect, Result}

-- What `CommandRunner.Run` returns: the output is there also when the command failed.
pub record CommandRunner (W : Type 0) : Type 0 where
  pub run : String → List String → Action W String
  pub run_output : String → List String → W → W × (String × Result (Unit {0}))

pub record Downloader (W : Type 0) : Type 0 where
  pub download : String → String → Effect W

pub record ExtraDisk : Type 0 where
  pub path : String
  pub read_only : Bool
  pub shareable : Bool

pub record VmSpec : Type 0 where
  pub name : String
  pub memory_mib : ℤ
  pub vcpus : ℤ
  pub disk_size_gib : ℤ
  pub storage_pool : String
  pub mac : String
  pub network_arg : String
  pub boot_iso : String
  pub kernel_args : String
  pub kernel_path : String
  pub initrd_path : String
  pub extra_disks : List ExtraDisk

pub record VmManager (W : Type 0) : Type 0 where
  pub create : VmSpec → Effect W
  pub start : String → Effect W
  pub stop : String → Effect W
  pub delete : String → Effect W
  pub is_running : String → Action W Bool
  pub import_iso : String → String → String → Action W String
  pub import_disk : String → String → String → Action W String
  pub create_data_disk : String → String → ℤ → Action W String
  pub remove_iso : String → String → Effect W
  pub check_access : Effect W
  pub storage_pool_active : String → Effect W

pub record NetworkSpec : Type 0 where
  pub name : String
  pub bridge : String
  pub subnet : String
  pub domain : String

pub record DhcpHost : Type 0 where
  pub mac : String
  pub ip : String
  pub hostname : String

pub record DhcpLease : Type 0 where
  pub mac : String
  pub ip : String
  pub hostname : String

pub record NetworkInfo : Type 0 where
  pub exists : Bool
  pub dhcp_range_start : String
  pub dhcp_range_end : String
  pub reservations : List DhcpHost
  pub leases : List DhcpLease

-- `network_preflight` is there if the provisioner implements `NetworkPreflighter`.
pub record NetworkProvisioner (W : Type 0) : Type 0 where
  pub ensure_network : NetworkSpec → Effect W
  pub add_host : String → DhcpHost → Effect W
  pub remove_host : String → DhcpHost → Effect W
  pub inspect_network : String → Action W NetworkInfo
  pub reset_network : String → Effect W
  pub network_preflight : Option (Effect W)

pub record DnsResolver (W : Type 0) : Type 0 where
  pub resolve : String → Action W (List String)

pub record DnsManager (W : Type 0) : Type 0 where
  pub upsert : String → String → String → Effect W
  pub delete : String → String → Effect W

pub record BridgeInfo : Type 0 where
  pub exists : Bool
  pub slaves : List String
  pub up : Bool

-- `dial_tcp` is called with a timeout of three seconds throughout.
pub record HostInspector (W : Type 0) : Type 0 where
  pub has_cpu_virtualization : Action W Bool
  pub inspect_bridge : String → Action W BridgeInfo
  pub look_path : String → Effect W
  pub available_disk_bytes : String → Action W ℕ
  pub physical_memory_bytes : Action W ℕ
  pub arp_lookup : String → Action W String
  pub dial_tcp : String → Effect W

pub record OdfSpec : Type 0 where
  pub kubeconfig_path : String
  pub oc_binary_path : String
  pub work_dir : String
  pub channel : String
  pub device_path : String
  pub data_pvc_size_gi : ℤ

pub record OdfInstaller (W : Type 0) : Type 0 where
  pub install_operators : OdfSpec → Effect W
  pub setup_lvm : OdfSpec → Effect W
  pub enable_single_node : OdfSpec → Effect W
  pub create_storage_cluster : OdfSpec → Effect W
