-- ===== src/Providers/Libvirt.antt =====
-- providers/libvirt/libvirt.go: VMs by `virsh` and `virt-install`. The runner of commands, the files
-- and the clock are parameters, and so is the test for `exec.ErrNotFound`.
pub mod Networks
pub mod PowerState
use easyshift.Base.{
  ℕ, zero, suc, String, ◌<>◌, Bool, true, false, not, Option, none, some, List, [], ◌∷◌, ◌++◌, ◌==◌,
  if◌then◌else◌,
}
use easyshift.Base.Int.{ℤ}
use easyshift.Base.Text.{show_ℤ, decimal, trim_space, has_substring}
use easyshift.Base.Action.{
  Error, Result, ok, err, Action, Effect, ◌>>=◌, ◌>>◌, pure, done, fail, wrap, attempt, require,
}
use easyshift.Interfaces.Os.{Files, Clock, StatResult, present, absent, stat_failed}
use easyshift.Interfaces.Providers.{CommandRunner, VmSpec, ExtraDisk, VmManager}

abbrev pub system_uri : String
system_uri = "qemu:///system"

-- `fmt.Errorf("<what> <name>: %w", err)`
abbrev pub failing : String → String → Error → Error
failing what name e = what <> (" " <> (name <> (": " <> e)))

abbrev option_if : Bool → String → String
option_if true text = text
option_if false text = ""

-- The value of `--disk` for an attached disk.
unfoldable pub disk_arg : ExtraDisk → String
disk_arg d =
    "path="
    <> (d.path
        <> (",bus=virtio"
            <> (option_if d.read_only ",readonly=on" <> option_if d.shareable ",shareable=on")))

unfoldable pub disk_args : List ExtraDisk → List String
unfolding disk_arg
disk_args [] = []
disk_args (d ∷ ds) = "--disk" ∷ disk_arg d ∷ disk_args ds

unfoldable pub boot_args : VmSpec → List String
boot_args spec =
    if not (spec.boot_iso == "")
    then "--cdrom" ∷ spec.boot_iso ∷ []
    else "--pxe"
      ∷ (if not (spec.kernel_args == "") then "--extra-args" ∷ spec.kernel_args ∷ [] else [])

-- The arguments of `virt-install`.
unfoldable pub create_args : VmSpec → List String
unfolding disk_args boot_args
create_args spec =
    ("--connect"
      ∷ system_uri
      ∷ "--name"
      ∷ spec.name
      ∷ "--memory"
      ∷ show_ℤ spec.memory_mib
      ∷ "--vcpus"
      ∷ show_ℤ spec.vcpus
      ∷ "--cpu"
      ∷ "host-passthrough"
      ∷ "--osinfo"
      ∷ "detect=on,require=off"
      ∷ "--disk"
      ∷ ("pool="
          <> (spec.storage_pool <> (",size=" <> (show_ℤ spec.disk_size_gib <> ",bus=virtio"))))
      ∷ "--network"
      ∷ spec.network_arg
      ∷ "--boot"
      ∷ "hd,cdrom"
      ∷ "--noautoconsole"
      ∷ [])
    ++ (disk_args spec.extra_disks ++ boot_args spec)

module _ {W : Type 0} (cmd : CommandRunner W) where
  -- A subcommand against the system's libvirt.
  unfoldable pub virsh : List String → Action W String
  virsh args = cmd.run "virsh" ("-c" ∷ system_uri ∷ args)

  -- A subcommand for its effect.
  unfoldable pub virsh_do : List String → Effect W
  unfolding virsh
  virsh_do args = do out ← virsh args; done

  unfoldable pub create : VmSpec → Effect W
  unfolding create_args
  create spec = do
    out ← wrap (failing "virt-install" spec.name) (cmd.run "virt-install" (create_args spec))
    done

  unfoldable pub is_running : String → Action W Bool
  unfolding virsh
  is_running name = do out ← virsh ("domstate" ∷ name ∷ []); pure (trim_space out == "running")

  module _ (clock : Clock W) where
    -- `err == nil && running == want`
    abbrev pub reached : Bool → Result Bool → Bool
    reached true (ok running) = running
    reached false (ok running) = not running
    reached want (err e) = false

    -- The loop of `Start` and `Stop`: rounds that look at the VM, two seconds apart. `none` where
    -- all rounds have passed.
    unfoldable pub await_state : ℕ → Bool → String → W → W × Option (Result (Unit {0}))
    unfolding is_running
    await_state zero want name w = (w, none)
    await_state (suc rounds) want name w =
        let (w', r) = is_running name w in
        elim (reached want r) [
          | true ↦ (w', some (ok tt))
          | false ↦
              let (w'', stop) = clock.wait 2 w' in
              elim stop [ some e ↦ (w'', some (err e)) | none ↦ await_state rounds want name w'' ]
        ]

    -- What is done when all rounds have passed.
    abbrev pub or_else : Effect W → W × Option (Result (Unit {0})) → W × Result (Unit {0})
    or_else act (w, some r) = (w, r)
    or_else act (w, none) = act w

    unfoldable pub start : String → Effect W
    unfolding virsh_do await_state
    start name = do
      wrap (failing "virsh start" name) (virsh_do ("start" ∷ name ∷ []))
      λ w.
          or_else (fail ("timeout waiting for VM " <> (name <> " to start")))
            (await_state 30 true name w)

    unfoldable pub destroy : String → Effect W
    unfolding virsh_do
    destroy name = wrap (failing "virsh destroy" name) (virsh_do ("destroy" ∷ name ∷ []))

    unfoldable pub stop : String → Effect W
    unfolding virsh_do await_state destroy
    stop name = do
      wrap (failing "virsh shutdown" name) (virsh_do ("shutdown" ∷ name ∷ []))
      λ w. or_else (destroy name) (await_state 30 false name w)

    -- `running, _ := m.IsRunning(...)`
    abbrev or_false : Result Bool → Bool
    or_false (ok b) = b
    or_false (err e) = false

    unfoldable pub undefine : String → Effect W
    unfolding virsh_do
    undefine name =
        wrap (failing "virsh undefine" name)
          (virsh_do ("undefine" ∷ name ∷ "--remove-all-storage" ∷ []))

    unfoldable pub delete : String → Effect W
    unfolding is_running stop undefine
    delete name w =
        let (w', r) = is_running name w in
        (do if or_false r then stop name else done; undefine name) w'

  -- `virsh vol-path`
  abbrev vol_path : (Error → Error) → String → String → Action W String
  vol_path note pool vol = do
    out ← wrap note (virsh ("vol-path" ∷ "--pool" ∷ pool ∷ vol ∷ []))
    pure (trim_space out)

  abbrev drop_volume : String → String → Effect W
  drop_volume pool vol = attempt (virsh ("vol-delete" ∷ "--pool" ∷ pool ∷ vol ∷ []))

  -- `ImportISO` and `ImportDisk` behind their look at the local file.
  abbrev upload : String → String → String → String → ℕ → Action W String
  upload format pool vol path size = do
    drop_volume pool vol
    wrap (failing "vol-create-as" vol)
        (virsh_do ("vol-create-as" ∷ pool ∷ vol ∷ decimal size ∷ "--format" ∷ format ∷ []))
    wrap (failing "vol-upload" vol) (virsh_do ("vol-upload" ∷ "--pool" ∷ pool ∷ vol ∷ path ∷ []))
    vol_path (failing "vol-path" vol) pool vol

  module _ (files : Files W) where
    -- The text of `os.Stat`'s error for a missing file.
    abbrev import_file : String → String → String → String → String → Action W String
    import_file what format pool vol path w = elim (files.stat path w) [
      | present size ↦ upload format pool vol path size w
      | absent ↦ (w, err (failing what path ("stat " <> (path <> ": no such file or directory"))))
      | stat_failed e ↦ (w, err (failing what path e))
    ]

    unfoldable pub import_iso : String → String → String → Action W String
    unfolding virsh virsh_do
    import_iso = import_file "stat iso" "raw"

    unfoldable pub import_disk : String → String → String → Action W String
    unfolding virsh virsh_do
    import_disk = import_file "stat disk" "qcow2"

  abbrev fresh_disk : String → String → ℤ → Action W String
  fresh_disk pool vol size = do
    wrap (failing "create data disk volume" vol)
        (virsh_do ("vol-create-as" ∷ pool ∷ vol ∷ (show_ℤ size <> "G") ∷ "--format" ∷ "qcow2" ∷ []))
    vol_path (failing "resolve data disk path" vol) pool vol

  unfoldable pub create_data_disk : String → String → ℤ → Action W String
  unfolding virsh virsh_do
  create_data_disk pool vol size w =
      let (w', r) = virsh ("vol-path" ∷ "--pool" ∷ pool ∷ vol ∷ []) w in
      elim r [ ok out ↦ (w', ok (trim_space out)) | err e ↦ fresh_disk pool vol size w' ]

  unfoldable pub remove_iso : String → String → Effect W
  unfolding virsh
  remove_iso pool vol = drop_volume pool vol

  unfoldable pub check_access : (Error → Bool) → Effect W
  unfolding virsh_do
  check_access is_not_found =
      wrap
        (λ e.
          if is_not_found e
          then "`virsh` not found on PATH: "
            <> (e
                <> "\n  hint: install the libvirt client tools (libvirt-client on Fedora/RHEL, libvirt-clients on Debian/Ubuntu)")
          else "libvirt at "
            <> (system_uri
                <> (" is not reachable: "
                    <> (e
                        <> "\n  hint: ensure libvirtd/virtqemud is running and your user is in the 'libvirt' group"))))
        (virsh_do ("list" ∷ "--name" ∷ []))

  unfoldable pub storage_pool_active : String → Effect W
  unfolding virsh
  storage_pool_active pool = do
    out ←
        wrap
          (λ e.
            "libvirt storage pool \""
            <> (pool
                <> ("\" not found: "
                    <> (e
                        <> ("\n  hint: pass --storage-pool <name> to use an existing pool (see `virsh pool-list --all`), or create it: virsh pool-define-as "
                            <> (pool
                                <> (" dir --target /var/lib/libvirt/images && virsh pool-autostart "
                                    <> (pool <> (" && virsh pool-start " <> pool)))))))))
          (virsh ("pool-info" ∷ "--pool" ∷ pool ∷ []))
    require (has_substring out "running") (
        "libvirt storage pool \""
        <> (pool <> ("\" exists but is not running\n  hint: virsh pool-start " <> pool)))

  -- `LibvirtVMManager`
  unfoldable pub vm_manager : Files W → Clock W → (Error → Bool) → VmManager W
  vm_manager files clock is_not_found = record {
    create = create;
    start = start clock;
    stop = stop clock;
    delete = delete clock;
    is_running = is_running;
    import_iso = import_iso files;
    import_disk = import_disk files;
    create_data_disk = create_data_disk;
    remove_iso = remove_iso;
    check_access = check_access is_not_found;
    storage_pool_active = storage_pool_active;
  }
