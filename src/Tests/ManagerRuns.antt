-- ===== src/Tests/ManagerRuns.antt =====
-- Runs of the manager in a world that is a clock.
use easyshift.Base.{arith}
use easyshift.Base.Action.{Result}
use easyshift.Base.{
  ℕ, suc, ◌-◌, ◌/◌, ◌≤◌, ◌<◌, String, ◌≡◌, ◌⊎◌, ◌↔◌, refl, true, false, not, ◌&&◌, none, some, [],
  ◌∷◌, map, ◌==◌,
}
use easyshift.Base.Lists.{contains}
use easyshift.Base.Dict.{flag, has, keys, lookup}
use easyshift.Base.Int.{pos, ltb_ℤ, eqb_ℤ}
use easyshift.Base.Text.{decimal, Net, v4}
use easyshift.Base.Action.{Error, ok, err, done}
use easyshift.Interfaces.Os.{present, contents, Codec}
use easyshift.Interfaces.Stage.{ClusterState, outcome_ok}
use easyshift.Interfaces.Providers.{NetworkProvisioner}
use easyshift.Config.Types.{ClusterConfig, Pointer}
use easyshift.Config.Constants.{state_running, state_stopped}
use easyshift.Config.Memory.{Memory, Disk, assign, registered, save}
use easyshift.Runner.{Applied, preflight, preflight_errors, apply, apply_stages, load_state}
use easyshift.Stages.Register.{register_stage, ensure_cluster_dir_stage, finalize_stage}
use easyshift.Stages.VerifyIp.{verify_stage}
use easyshift.Stages.MasterVm.{check_host, check_host_memory, sum_running, check_disk, disk_needed}
use easyshift.Stages.Allocate
use easyshift.Stages.Dns
use easyshift.Stages.Network
use easyshift.Stages.MasterVm
use easyshift.Stages.Odf
use easyshift.Config.Paths.{ensure_pull_secret}
use easyshift.Manager.Validate.{
  validate_name, validate_new, apply_defaults, validate_magic, default_gateway, default_cidr,
  default_pool, default_odf, default_sizes, default_domain, resolve_magic_dns, default_mode,
  validate_counts, validate_network, validate_nat, validate_odf,
}
use easyshift.Config.Cluster.{valid_magic_dns}
use easyshift.Manager.Validate.Accepts.{Magic, Network, Odf, validate_new-ok}
use easyshift.Manager.Validate.Defaults.{apply_defaults-odf}
use easyshift.Manager.Validate.Pvc.{accepted-pvc}
use easyshift.Interfaces.Install.{CertIssuer, Installer}
use easyshift.Stages.Binaries
use easyshift.Stages.Rhcos
use easyshift.Stages.BakeStore
use easyshift.Stages.SshKey
use easyshift.Stages.Ignition
use easyshift.Stages.BootIso
use easyshift.Stages.TlsCerts
use easyshift.Stages.Kubeconfig
use easyshift.Stages.Ignition.{check_secret_and_dns}
use easyshift.Stages.TlsCerts.{check_token}
use easyshift.Config.Secrets.{validate_pull_secret_json, validate_pull_secret_bytes}
use easyshift.Manager.Pipeline.{Parts, Steps, stages_for, build_stages}
use easyshift.Manager.Lifecycle.{
  find, find_in, choose, build, resolve, is_resolved_version, apply_pipeline, assert_running,
  create, start, stop, start_vms, stop_vms, vm_names, role_names, memory_files,
}
use easyshift.Manager.Lifecycle.States.{create-refuses, create-running, start-ok, stop-state}
use easyshift.Base.Text.{fields}
use easyshift.Interfaces.Providers.{CommandRunner}
use easyshift.Manager.Lifecycle.{converge}
use easyshift.Manager.Converge.{
  converge_after_start, wait_for_api, poll, api_round, converge_loop, converge_round, node_ready,
  csrs_pending,
}
use easyshift.Manager.Converge.Ends.{IsClock, converge_after_start-ends}
use easyshift.Manager.NatReset.{
  NatResetPlan, plan_nat_reset, is_outdated, leaked_ips_of, leaked_macs_of, known_ips, known_macs,
  add_all, prune,
}
use easyshift.Manager.NatReset.Leaks.{owns, owns_mac, plan-leaked_ips, prune-leaks}
use easyshift.Stages.Odf.{data_pvc_size}
use easyshift.Tests.ConfigRuns.{no_addresses, no_cluster, config_of}
use easyshift.Tests.StageRuns.{no_files, ticking, host, vm}

-- Every text is an address of a network.
abbrev net : Net
net = record {
  parse_ip = λ s. some (v4 192 168 1 50);
  parse_cidr = λ s. some (v4 192 168 1 0, 24);
  parse_mac = λ s. true;
}

abbrev odf_cluster : ClusterConfig
odf_cluster = record no_cluster { odf = true; magic_dns = "" }

validate_new-ok_example : (validate_new net 0 no_cluster ≡ ok tt) ↔ (
    (0 < 3)
    × Magic no_cluster
    × ((no_cluster.master_count ≡ pos 1) × (no_cluster.worker_count ≡ pos 0))
    × Network net no_cluster
    × Odf no_cluster)
validate_new-ok_example = validate_new-ok net 0 no_cluster

apply_defaults-odf_example :
    let d = apply_defaults net odf_cluster in
    (d.odf ≡ true)
    × (ltb_ℤ d.master_cpus (pos 8) ≡ false)
    × (ltb_ℤ d.master_ram (pos 24576) ≡ false)
    × (eqb_ℤ d.odf_disk_gb (pos 0) ≡ false)
apply_defaults-odf_example = apply_defaults-odf net odf_cluster refl

accepted_odf : validate_new net 0 (apply_defaults net odf_cluster) ≡ ok tt
unfolding validate_new apply_defaults validate_magic valid_magic_dns default_gateway default_cidr
    default_pool default_odf default_sizes default_domain resolve_magic_dns default_mode
    validate_counts validate_network validate_nat validate_odf
accepted_odf = refl

accepted-pvc_example :
    (n : ℕ) × (12 ≤ n)
    × (data_pvc_size (apply_defaults net odf_cluster) ≡ pos (n / 3 - 3))
    × (1 ≤ n / 3 - 3)
accepted-pvc_example = accepted-pvc net 0 odf_cluster refl accepted_odf

abbrev steps : Pointer → Steps (Memory ℕ)
steps p = record { apply = done; rollback = done; preflight = none }

abbrev network : NetworkProvisioner ℕ
network = record {
  ensure_network = λ spec w. (w, ok tt);
  add_host = λ name h w. (w, ok tt);
  remove_host = λ name h w. (w, ok tt);
  inspect_network = λ name w. (
    w,
    ok (record {
      exists = false;
      dhcp_range_start = "";
      dhcp_range_end = "";
      reservations = [];
      leases = [];
    }),
  );
  reset_network = λ name w. (w, ok tt);
  network_preflight = none;
}

abbrev disk : Disk ℕ
disk = record {
  files = record no_files { stat = λ path w. present 1; read_file = λ path w. contents "{}" };
  marshal = λ s. ok "{}";
}

abbrev codec : Codec ClusterState
codec = record { marshal = λ s. ok "{}"; unmarshal = λ text. ok (record { stages = none }) }

-- Each command prints "True".
abbrev pub answering : CommandRunner ℕ
answering = record {
  run = λ name args w. (suc w, ok "True");
  run_output = λ name args w. (suc w, ("True", ok tt));
}

abbrev issuer : CertIssuer ℕ
issuer = record { issue = λ domains w. (w, ok ("cert", "key")) }

abbrev installer : Installer ℕ
installer = record {
  write_install_config = λ spec w. (w, ok tt);
  create_manifests = λ spec w. (w, ok tt);
  create_ignition_configs = λ spec w. (w, ok tt);
  write_image_store_manifest = λ spec w. (w, ok tt);
  create_single_node_ignition = λ spec w. (w, ok tt);
  write_rosetta_manifest = λ spec w. (w, ok tt);
  merge_image_store = λ spec path w. (w, ok tt);
  embed_ignition_in_iso = λ spec iso ign out w. (w, ok tt);
  embed_network_keyfile_in_iso = λ spec key iso w. (w, ok tt);
  wait_for_install_complete = λ spec w. (w, ok tt);
  core_os_live_iso_url = λ spec w. (w, ok "http://iso");
  core_os_live_pxe_urls =
      λ spec w. (w, ok (record { kernel_url = ""; initramfs_url = ""; rootfs_url = "" }));
}

abbrev parts : Parts ℕ
parts = record {
  darwin = false;
  disk = disk;
  state_codec = codec;
  net = net;
  random = λ w. (suc w, ok (1, 2, 3));
  clock = ticking;
  vm = vm;
  network = network;
  dns = record { upsert = λ zone fqdn ip w. (w, ok tt); delete = λ zone fqdn w. (w, ok tt) };
  host = host;
  odf = record {
    install_operators = λ s w. (w, ok tt);
    setup_lvm = λ s w. (w, ok tt);
    enable_single_node = λ s w. (w, ok tt);
    create_storage_cluster = λ s w. (w, ok tt);
  };
  resolve_version = λ channel w. (w, ok "4.17.3");
  cmd = answering;
  goarch = "amd64";
  json_keys = λ text. ok ("auths" ∷ []);
  dl = record { download = λ url path w. (w, ok tt) };
  installer = installer;
  baker = record { ready = λ spec w. (w, ok true); bake = λ spec w. (w, ok tt) };
  resolver = record { resolve = λ name w. (w, ok []) };
  server = record { root_dir = "/srv"; base_url = "http://host" };
  env = record {
    kubeconfig = "/home/u/config";
    home_dir = ok "/home/u";
    dir = λ path. "/home/u";
    decode64 = ok;
  };
  bytes = record { of_text = λ text. []; to_text = λ b. ""; quoted = λ b. ""; unzip = ok };
  formats = record { parse = λ text. ok none; print = λ m. ok "{}"; encode64 = λ text. text };
  pem = record {
    decode = λ text. some (text, "");
    encode = λ text. text;
    decode64 = λ text. ok "{}";
    encode64 = λ text. text;
  };
  issuers = record {
    new_cert_issuer = λ opts w. (w, ok issuer);
    new_local_issuer = λ dir w. (w, ok issuer);
  };
  wait_for_install = steps;
}

abbrev new_cluster : ClusterConfig
new_cluster = record no_cluster { magic_dns = "" }

-- No cluster is registered, and the new one stands at 0.
abbrev fresh : Memory ℕ
fresh = record { heap = λ _. new_cluster; config = config_of []; world = 0 }

-- The cluster at 0 is registered, in some state.
abbrev known : String → Memory ℕ
known state = record {
  heap = λ _. record no_cluster { state = state };
  config = config_of (0 ∷ []);
  world = 0;
}

found : (state : String) → find (known state) "c" ≡ some 0
unfolding find find_in
found state = refl

create-refuses_example : (e : Error) × (create parts 1 (known "running") ≡ (known "running", err e))
create-refuses_example = create-refuses parts 1 0 (known "running") (found "running") refl

abbrev behind_stop : Memory ℕ
behind_stop = record (known "running") {
  heap = assign (known "running").heap 0 (record no_cluster { state = state_stopped });
  world = (stop_vms parts (vm_names ((known "running").heap 0)) (known "running").world).0;
}

stop-state_example :
    (stop parts "c" (known "running") ≡ save parts.disk behind_stop)
    × ((stop parts "c" (known "running")).0.heap
        ≡ assign (known "running").heap 0 (record no_cluster { state = state_stopped }))
    × ((stop parts "c" (known "running")).0.config ≡ (known "running").config)
stop-state_example = stop-state parts "c" 0 (known "running") (found "running") refl

started : (start parts "c" (known "stopped")).1 ≡ ok tt
unfolding start find find_in start_vms vm_names role_names save converge converge_after_start
    wait_for_api poll api_round converge_loop converge_round node_ready csrs_pending fields
started = refl

start-ok_example :
    (q : Pointer) × (find (known "stopped") "c" ≡ some q)
    × ((((known "stopped").heap q).state == state_running) ≡ false)
    × ((start parts "c" (known "stopped")).0.heap
        ≡ assign
            (known "stopped").heap
            q
            (record ((known "stopped").heap q) { state = state_running }))
    × ((start parts "c" (known "stopped")).0.config ≡ (known "stopped").config)
start-ok_example = start-ok parts "c" (known "stopped") started

-- One address is marked that no cluster has.
abbrev leaky : Memory ℕ
leaky = record (known "stopped") {
  config = record (config_of (0 ∷ [])) {
    global_state = record no_addresses { used_ips = ("192.168.126.5", true) ∷ [] };
  };
}

abbrev leak_plan : NatResetPlan
leak_plan = record {
  network_exists = false;
  expected_range = "192.168.126.100-254";
  current_range = "";
  range_outdated = false;
  orphan_reservations = [];
  stale_leases = [];
  leaked_ips = "192.168.126.5" ∷ [];
  leaked_macs = [];
  running_clusters = [];
  recreate = false;
  blocked = false;
}

planned : (plan_nat_reset disk (λ xs. xs) network vm false leaky).1 ≡ ok leak_plan
unfolding plan_nat_reset is_outdated leaked_ips_of leaked_macs_of known_ips known_macs add_all keys
    flag lookup decimal
planned = refl

plan-leaked_ips_example :
    (contains leak_plan.leaked_ips "192.168.126.5" ≡ (
      contains (keys leaky.config.global_state.used_ips) "192.168.126.5"
      && not (owns (registered leaky) "192.168.126.5")))
    × (contains leak_plan.leaked_macs "192.168.126.5" ≡ (
        contains (keys leaky.config.global_state.used_macs) "192.168.126.5"
        && not (owns_mac (registered leaky) "192.168.126.5")))
plan-leaked_ips_example =
    plan-leaked_ips disk (λ xs. xs) network vm (λ xs k. refl) false leaky {plan = leak_plan}
      "192.168.126.5" planned

prune-leaks_example :
    let g = prune disk (λ xs. xs) network vm leak_plan leaky.config.global_state in
    (leaked_ips_of g (registered leaky) ≡ [])
    × (leaked_macs_of g (registered leaky) ≡ [])
    × ((k : String)
        → owns (registered leaky) k ≡ true
        → contains (keys g.used_ips) k ≡ contains (keys leaky.config.global_state.used_ips) k)
    × ((k : String)
        → owns_mac (registered leaky) k ≡ true
        → contains (keys g.used_macs) k ≡ contains (keys leaky.config.global_state.used_macs) k)
prune-leaks_example =
    prune-leaks disk (λ xs. xs) network vm (λ xs k. refl) false leaky {plan = leak_plan} planned

-- All stages of the cluster at 0 are recorded, but its state is still "creating".
abbrev all_recorded : Applied
all_recorded =
    map (λ stage. (stage.name, record { applied_at = 0; outcome = outcome_ok }))
      (build_stages parts 0)

abbrev resumed : Parts ℕ
resumed = record parts {
  disk = record disk {
    files = record no_files { stat = λ path w. present 1; read_file = λ path w. contents "{}" };
  };
  state_codec = record codec { unmarshal = λ text. ok (record { stages = some all_recorded }) };
}

created : (create resumed 1 (known "creating")).1 ≡ ok tt
unfolding create validate_name ensure_pull_secret choose find find_in build resolve
    is_resolved_version preflight preflight_errors build_stages stages_for register_stage
    Allocate.stage Dns.stage Dns.preflight ensure_cluster_dir_stage Network.stage Network.preflight
    MasterVm.stage MasterVm.preflight check_host check_host_memory sum_running check_disk
    disk_needed verify_stage Odf.stage finalize_stage Binaries.stage Binaries.preflight Rhcos.stage
    BakeStore.stage BakeStore.preflight SshKey.stage SshKey.preflight Ignition.stage
    Ignition.preflight check_secret_and_dns validate_pull_secret_json validate_pull_secret_bytes
    BootIso.stage BootIso.preflight TlsCerts.stage TlsCerts.preflight check_token Kubeconfig.stage
    apply_pipeline apply apply_stages load_state memory_files has lookup assert_running save
created = refl

create-running_example :
    (q : Pointer) × ((find (known "creating") "c" ≡ some q)
      ⊎ ((find (known "creating") "c" ≡ none) × (q ≡ 1)))
    × ((((create resumed 1 (known "creating")).0.heap q).state == state_running) ≡ true)
create-running_example = create-running resumed 1 (known "creating") created

answering-IsClock : IsClock answering ticking
answering-IsClock = record { run = λ name args w. omega arith; wait = λ n w. omega arith }

converge_after_start-ends_example :
    (r : Result (Unit {0})) × ((converge_after_start answering ticking "cfg" no_cluster 0).1
      ≡ some r)
converge_after_start-ends_example =
    converge_after_start-ends answering ticking answering-IsClock "cfg" no_cluster 0
