-- ===== src/Tests/ConfigRuns.antt =====
-- A config that is saved and loaded.
use easyshift.Base.{
  String, ◌≡◌, refl, Bool, true, false, not, ◌&&◌, List, [], ◌∷◌, arith, ◌==◌, eq_iff,
  if◌then◌else◌, eqb,
}
use easyshift.Base.Int.{ℤ, pos, negsuc}
use easyshift.Base.Action.{ok, err}
use easyshift.Config.Types.{ClusterConfig, GlobalState, Config, Pointer}
use easyshift.Config.Memory.{Memory, Snapshot, snapshot, save}
use easyshift.Config.Load.{ConfigCodec, RoundTrips, as_parsed, load_config, load-save}
use easyshift.Tests.World.{World, disk_files, disk_files-IsLawful}

abbrev pub no_addresses : GlobalState
no_addresses = record { used_ips = []; used_macs = []; active_cluster = "" }

-- The config of a directory, with no cluster and the log there.
abbrev plain : String → Snapshot
plain dir = record {
  config_dir = dir;
  log_file = "log";
  web_port = pos 9393;
  debug = false;
  clusters = [];
  global_state = no_addresses;
}

abbrev is_port : ℤ → Bool
is_port (pos n) = eqb n 9393
is_port (negsuc n) = false

abbrev is_nil {ℓ} : {A : Type ℓ} → List A → Bool
is_nil [] = true
is_nil (_ ∷ _) = false

abbrev is_plain : Snapshot → Bool
is_plain s =
    s.log_file == "log"
    && is_port s.web_port
    && not s.debug
    && is_nil s.clusters
    && is_nil s.global_state.used_ips
    && is_nil s.global_state.used_macs
    && s.global_state.active_cluster == ""

-- It is written as its directory; other configs are not written.
abbrev codec : ConfigCodec
codec = record {
  marshal = λ s. if is_plain s then ok s.config_dir else err "not plain";
  unmarshal = λ d text. ok (as_parsed (plain text));
}

is_port_lem : (z : ℤ) → is_port z ≡ true → z ≡ pos 9393
is_port_lem (pos n) h = ground arith
is_port_lem (negsuc n) h = cc

is_nil_lem {ℓ} : {A : Type ℓ} (xs : List A) → is_nil xs ≡ true → xs ≡ []
is_nil_lem [] h = refl
is_nil_lem (x ∷ xs) h = cc

codec-RoundTrips : RoundTrips codec
codec-RoundTrips s dir text h = ground (
  arith,
  eq_iff s.log_file "log",
  is_port_lem s.web_port,
  is_nil_lem s.clusters,
  is_nil_lem s.global_state.used_ips,
  is_nil_lem s.global_state.used_macs,
  eq_iff s.global_state.active_cluster "",
)

abbrev pub no_cluster : ClusterConfig
no_cluster = record {
  name = "c";
  domain = "";
  ocp_version = "4.17.3";
  master_count = pos 1;
  worker_count = pos 0;
  master_ram = pos 16384;
  worker_ram = pos 0;
  master_cpus = pos 4;
  worker_cpus = pos 2;
  master_disk_gb = pos 120;
  worker_disk_gb = pos 120;
  network_mode = "nat";
  bridge = "";
  master_mac = "";
  master_ip = "";
  machine_cidr = "";
  gateway = "";
  dns = "";
  storage_pool = "default";
  dns_provider = "";
  dns_zone = "";
  tls_email = "";
  tls_staging = false;
  magic_dns = "sslip.io";
  bake_images = false;
  odf = false;
  odf_disk_gb = pos 0;
  network_subnet = "";
  ip_addresses = [];
  mac_addresses = [];
  state = "creating";
  boot_iso_vol_path = "";
  install_kernel_cmdline = "";
  kubeconfig_target = "";
}

abbrev pub config_of : List Pointer → Config
config_of ps = record {
  config_dir = "cfg";
  log_file = "log";
  web_port = pos 9393;
  debug = false;
  clusters = ps;
  global_state = no_addresses;
}

abbrev memory : Memory World
memory = record { heap = λ _. no_cluster; config = config_of []; world = [] }

saved : (save (record { files = disk_files; marshal = codec.marshal }) memory).1 ≡ ok tt
unfolding save
saved = refl

load-save_example :
    let w = (save (record { files = disk_files; marshal = codec.marshal }) memory).0.world in
    load_config disk_files codec "cfg" w ≡ ((disk_files.mkdir_all "cfg" w).0, ok (snapshot memory))
load-save_example =
    load-save disk_files codec memory disk_files-IsLawful codec-RoundTrips saved refl refl
