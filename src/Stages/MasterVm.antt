-- ===== src/Stages/MasterVm.antt =====
-- stages/createmastervms: the checks of the host and the creation of the master's VM. `darwin` is
-- `runtime.GOOS == "darwin"`.
pub mod HostMemory
use easyshift.Base.{
  ℕ, zero, suc, ◌+◌, ◌-◌, ◌*◌, ◌/◌, ◌%◌, ◌^◌, String, ◌<>◌, Bool, true, false, not, ◌&&◌, ◌||◌,
  Option, none, some, List, [], ◌∷◌, ◌++◌, map, ltb, leb, eqb, ◌==◌, if◌then◌else◌,
}
use easyshift.Base.Int.{ℤ, pos, negsuc, u64_mod, uint64, pos_part}
use easyshift.Base.Text.{decimal, join}
use easyshift.Base.Action.{
  Error, Result, ok, err, Action, Effect, after, ◌>>=◌, ◌>>◌, pure, done, fail, require, wrap,
  catch,
}
use easyshift.Interfaces.Os.{Files, StatResult, present, absent, stat_failed, join_path}
use easyshift.Interfaces.Stage.{Stage}
use easyshift.Interfaces.Providers.{VmManager, VmSpec, ExtraDisk, HostInspector, BridgeInfo}
use easyshift.Config.Types.{ClusterConfig, Pointer}
use easyshift.Config.Constants.{network_mode_bridge, shared_nat_network}
use easyshift.Config.Memory.{Memory, on_world, registered}
use easyshift.Base.Text.{show_ℤ}
use easyshift.Config.Paths.{
  image_store_disk_path, image_store_vol_name, odf_vol_name, rhcos_cache_dir,
}
use easyshift.Base.Lists.{length}

abbrev pub host_memory_reserve : ℕ
host_memory_reserve = 5120

-- `a + b` of uint64
abbrev pub add_u64 : ℕ → ℕ → ℕ
add_u64 a b = (a + b) % u64_mod

-- `%v` of a list of texts
abbrev pub show_list : List String → String
show_list xs = "[" <> (join xs " " <> "]")

-- What `checkHostMemory` says. The last subtraction is one of uint64.
unfoldable pub memory_error : ℤ → ℕ → ℕ → List String → Error
memory_error ram total phys [] =
    "not enough host memory: --master-ram "
    <> (show_ℤ ram
        <> (" MiB exceeds physical "
            <> (decimal phys
                <> (" MiB minus the "
                    <> (decimal host_memory_reserve
                        <> (" MiB host reserve (max usable: "
                            <> (decimal ((phys + u64_mod - host_memory_reserve) % u64_mod)
                                <> " MiB); lower --master-ram")))))))
memory_error ram total phys (name ∷ more) =
    "not enough host memory: this master ("
    <> (show_ℤ ram
        <> (" MiB) plus running cluster(s) "
            <> (show_list (name ∷ more)
                <> (" ("
                    <> (decimal total
                        <> (" MiB total) exceeds physical "
                            <> (decimal phys
                                <> (" MiB minus the "
                                    <> (decimal host_memory_reserve
                                        <> (" MiB host reserve; stop one first (e.g. `easyshift stop "
                                            <> (name <> "`) or lower --master-ram")))))))))))

-- `networkArgFor`
unfoldable pub network_arg_for : ClusterConfig → String → String
network_arg_for c mac =
    if c.network_mode == network_mode_bridge
    then "bridge=" <> (c.bridge <> (",mac=" <> (mac <> ",model=virtio")))
    else "network=" <> (shared_nat_network <> (",mac=" <> (mac <> ",model=virtio")))

-- The loop of `macFor` from index i on, with the number of masters.
unfoldable pub mac_from : List String → ℕ → ℤ → String → String
mac_from [] i masters role = ""
mac_from (mac ∷ rest) i masters role =
    let later = mac_from rest (suc i) masters role in
    let count = pos_part masters in
    if ltb i count && role == ("master-" <> decimal i)
    then mac
    else if not (ltb i count) && role == ("worker-" <> decimal (i - count))
    then mac
    else later

unfoldable pub mac_for : ClusterConfig → String → String
mac_for c role = mac_from c.mac_addresses 0 c.master_count role

module _ {W : Type 0} (darwin : Bool) (files : Files W) (vm : VmManager W)
    (host : HostInspector W) where
  -- Whether another cluster's master is known to run.
  abbrev known_up : Result Bool → Bool
  known_up (ok b) = b
  known_up (err e) = false

  -- The loop of `checkHostMemory`: the sum of the memory, and who else runs.
  unfoldable pub sum_running : String → List ClusterConfig → ℕ → W → W × ℕ × List String
  sum_running self [] total w = (w, total, [])
  sum_running self (other ∷ rest) total w = elim (other.name == self) [
    | true ↦ sum_running self rest total w
    | false ↦
        let (w', up) = vm.is_running ("master-0-" <> other.name) w in
        elim (known_up up) [
          | false ↦ sum_running self rest total w'
          | true ↦
              let (w'', sum, names) =
                sum_running self rest (add_u64 total (uint64 other.master_ram)) w' in
              (w'', sum, other.name ∷ names)
        ]
  ]

  abbrev memory_verdict : ℤ → ℕ → W × ℕ × List String → W × Result (Unit {0})
  memory_verdict ram phys (w, total, names) =
      if leb (add_u64 total host_memory_reserve) phys
      then (w, ok tt)
      else (w, err (memory_error ram total phys names))

  unfoldable pub check_host_memory : ClusterConfig → List ClusterConfig → Effect W
  check_host_memory c others w =
      let (w', phys) = host.physical_memory_bytes w in
      elim phys [
        | err e ↦ (w', ok tt)
        | ok bytes ↦
            if eqb bytes 0
            then (w', ok tt)
            else memory_verdict c.master_ram (bytes / 2 ^ 20)
                (sum_running c.name others (uint64 c.master_ram) w')
      ]

  -- What the baked image store adds to the disk space that is needed.
  abbrev store_size : StatResult → ℕ
  store_size (present size) = size
  store_size absent = 0
  store_size (stat_failed e) = 0

  unfoldable pub disk_needed : String → ClusterConfig → W → ℕ
  disk_needed dir c w =
      let need = (uint64 c.master_disk_gb * 2 ^ 30) % u64_mod in
      if c.bake_images && not darwin
      then add_u64 need (store_size (files.stat (image_store_disk_path darwin dir c.ocp_version) w))
      else need

  abbrev bake_note : Bool → String
  bake_note baking = if baking then " (incl. baked image store)" else ""

  unfoldable pub check_disk : String → ClusterConfig → Effect W
  check_disk dir c = do
    avail ←
        wrap (λ e. "query disk space at " <> (dir <> (": " <> e))) (host.available_disk_bytes dir)
    need ← (λ w. (w, ok (disk_needed dir c w)))
    require (not (ltb avail need)) (
        "insufficient disk under "
        <> (dir
            <> (": have "
                <> (decimal (avail / 2 ^ 30)
                    <> (" GiB, need "
                        <> (decimal (need / 2 ^ 30)
                            <> (" GiB for master disk" <> bake_note c.bake_images)))))))

  abbrev no_slaves : List String → Bool
  no_slaves [] = true
  no_slaves (_ ∷ _) = false

  unfoldable pub check_bridge : String → Effect W
  check_bridge name = do
    br ← wrap (λ e. "inspect bridge " <> (name <> (": " <> e))) (host.inspect_bridge name)
    require br.exists (
        "bridge \""
        <> (name
            <> "\" does not exist (or is not a Linux bridge) on this host; create it and enslave your LAN interface before running easyshift"))
    require (not (no_slaves br.slaves)) (
        "bridge \""
        <> (name
            <> ("\" exists but has no slave interfaces — VMs attached to it have no path to the LAN; enslave your LAN NIC (e.g. `sudo nmcli con add type bridge-slave ifname <NIC> master "
                <> (name <> "`)"))))
    require br.up (
        "bridge \""
        <> (name
            <> ("\" is not up (operstate != \"up\") with slaves "
                <> (show_list br.slaves
                    <> ("; bring it up (e.g. `sudo ip link set " <> (name <> " up`)"))))))

  abbrev boot_binary : String
  boot_binary = if darwin then "vfkit" else "virt-install"

  unfoldable pub check_host : String → ClusterConfig → List ClusterConfig → Effect W
  check_host dir c others = do
    vm.check_access
    vm.storage_pool_active c.storage_pool
    host.look_path boot_binary
    has_vt ← wrap (λ e. "detect cpu virtualization: " <> e) host.has_cpu_virtualization
    require has_vt "host CPU does not advertise vmx/svm — virtualization extensions are required"
    check_host_memory c others
    check_disk dir c
    if c.network_mode == network_mode_bridge then check_bridge c.bridge else done

  unfoldable pub preflight : Pointer → Effect (Memory W)
  preflight p m = on_world (check_host m.config.config_dir (m.heap p) (registered m)) m

  unfoldable pub attach_image_store : String → ClusterConfig → String → Action W ExtraDisk
  attach_image_store dir c vm_name = do
    path ←
        wrap (λ e. "import baked image store into pool: " <> e)
          (vm.import_disk c.storage_pool (image_store_vol_name darwin vm_name)
            (image_store_disk_path darwin dir c.ocp_version))
    pure (record { path = path; read_only = true; shareable = true })

  unfoldable pub baked_disks : String → ClusterConfig → String → Action W (List ExtraDisk)
  baked_disks dir c vm_name =
      if c.bake_images
      then (do disk ← attach_image_store dir c vm_name; pure (disk ∷ []))
      else pure []

  unfoldable pub odf_disks : ClusterConfig → String → Action W (List ExtraDisk)
  odf_disks c vm_name =
      if c.odf
      then (do
        path ←
            wrap (λ e. "create odf data disk: " <> e)
              (vm.create_data_disk c.storage_pool (odf_vol_name darwin vm_name) c.odf_disk_gb)
        pure (record { path = path; read_only = false; shareable = false } ∷ []))
      else pure []

  unfoldable pub master_spec : String → ClusterConfig → String → String → List ExtraDisk → VmSpec
  master_spec dir c vm_name mac disks = record {
    name = vm_name;
    memory_mib = c.master_ram;
    vcpus = c.master_cpus;
    disk_size_gib = c.master_disk_gb;
    storage_pool = c.storage_pool;
    mac = mac;
    network_arg = if darwin then "" else network_arg_for c mac;
    boot_iso = if darwin then "" else c.boot_iso_vol_path;
    kernel_args = if darwin then c.install_kernel_cmdline else "";
    kernel_path =
        if darwin then join_path (rhcos_cache_dir dir c.ocp_version ∷ "vmlinuz" ∷ []) else "";
    initrd_path =
        if darwin then join_path (rhcos_cache_dir dir c.ocp_version ∷ "initramfs.img" ∷ []) else "";
    extra_disks = disks;
  }

  abbrev pub vm_name_of : ℕ → ClusterConfig → String
  vm_name_of i c = "master-" <> (decimal i <> ("-" <> c.name))

  unfoldable pub create_master_vm : String → ClusterConfig → ℕ → Effect W
  create_master_vm dir c i = do
    baked ← baked_disks dir c (vm_name_of i c)
    odf ← odf_disks c (vm_name_of i c)
    vm.create
        (master_spec dir c (vm_name_of i c) (mac_for c ("master-" <> decimal i)) (baked ++ odf))

  -- The loop of `Apply` over the `left` masters from index i on.
  unfoldable pub create_masters : String → ClusterConfig → ℕ → ℕ → Effect W
  create_masters dir c zero i = done
  create_masters dir c (suc left) i = do create_master_vm dir c i; create_masters dir c left (suc i)

  unfoldable pub apply : Pointer → Effect (Memory W)
  apply p m =
      let c = m.heap p in
      on_world (create_masters m.config.config_dir c (pos_part c.master_count) 0) m

  -- The loop of `Rollback`, which goes down from the last master.
  unfoldable pub delete_masters : ClusterConfig → ℕ → Effect W
  delete_masters c zero = done
  delete_masters c (suc i) = do vm.delete (vm_name_of i c); delete_masters c i

  unfoldable pub rollback : Pointer → Effect (Memory W)
  rollback p m = let c = m.heap p in on_world (delete_masters c (pos_part c.master_count)) m

  unfoldable pub stage : Pointer → Stage (Memory W)
  stage p = record {
    name = "create-master-vms";
    apply = apply p;
    rollback = rollback p;
    preflight = some (preflight p);
  }
