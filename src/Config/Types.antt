-- ===== src/Config/Types.antt =====
-- config/config.go: `ClusterConfig`, `GlobalState` and `Config`.
use easyshift.Base.{ℕ, String, Bool, List}
use easyshift.Base.Int.{ℤ}
use easyshift.Base.Dict.{Dict}

-- The persisted spec of one cluster.
pub record ClusterConfig : Type 0 where
  pub name : String
  pub domain : String
  pub ocp_version : String
  pub master_count : ℤ
  pub worker_count : ℤ
  pub master_ram : ℤ
  pub worker_ram : ℤ
  pub master_cpus : ℤ
  pub worker_cpus : ℤ
  pub master_disk_gb : ℤ
  pub worker_disk_gb : ℤ
  pub network_mode : String
  pub bridge : String
  pub master_mac : String
  pub master_ip : String
  pub machine_cidr : String
  pub gateway : String
  pub dns : String
  pub storage_pool : String
  pub dns_provider : String
  pub dns_zone : String
  pub tls_email : String
  pub tls_staging : Bool
  pub magic_dns : String
  pub bake_images : Bool
  pub odf : Bool
  pub odf_disk_gb : ℤ
  pub network_subnet : String
  pub ip_addresses : List String
  pub mac_addresses : List String
  pub state : String
  pub boot_iso_vol_path : String
  pub install_kernel_cmdline : String
  pub kubeconfig_target : String

-- The addresses in use on this host.
pub record GlobalState : Type 0 where
  pub used_ips : Dict Bool
  pub used_macs : Dict Bool
  pub active_cluster : String

-- A `*ClusterConfig`. The manager and the stages share and mutate clusters by pointer.
abbrev pub Pointer : Type 0
Pointer = ℕ

pub record Config : Type 0 where
  pub config_dir : String
  pub log_file : String
  pub web_port : ℤ
  pub debug : Bool
  pub clusters : List Pointer
  pub global_state : GlobalState
