-- ===== src/Providers/Vfkit.antt =====
-- providers/vfkit/vfkit.go: VMs on macOS, one `vfkit` process for each. The file system, the
-- processes, the network sidecar, the encoder of spec.json and the clock, which counts tenths of a
-- second, are parameters. A mutex guards each access of the three maps, so an access is one step.
pub mod Phases
use easyshift.Base.{
  ℕ, zero, suc, ◌+◌, ◌*◌, String, ◌<>◌, Bool, true, false, not, ◌&&◌, Option, none, some, List, [],
  ◌∷◌, ◌++◌, ltb, leb, eqb, ◌==◌, if◌then◌else◌,
}
use easyshift.Base.Dict.{Dict, lookup, insert, erase, flag}
use easyshift.Base.Int.{ℤ, pos, negsuc}
use easyshift.Base.Text.{show_ℤ, trim_space, join, count_of}
use easyshift.Base.Action.{
  Error, Result, ok, err, Action, Effect, ◌>>◌, ◌>>=◌, done, wrap, attempt, pure, modify,
}
use easyshift.Interfaces.Os.{
  Files, Clock, Codec, join_path, ReadResult, contents, missing, unreadable, present, absent,
  stat_failed,
}
use easyshift.Interfaces.Providers.{VmSpec, ExtraDisk, VmManager}
use easyshift.Config.Paths.{image_store_vol_name, odf_vol_name}
use easyshift.Config.Secrets.{read_result}

abbrev pub phase_install : String
phase_install = "install"

abbrev pub phase_run : String
phase_run = "run"

pub record LaunchSpec : Type 0 where
  pub spec : VmSpec
  pub disk_path : String

pub data Signal : Type 0 where
  probe terminate kill : Signal

-- `exec.Command("vfkit", ...).Start`, which gives the process, `Process.Signal`, whose success is the
-- Boolean, `strconv.Atoi`, `strconv.Quote`, `cp -c`, whose error tells its output, and a new sparse
-- file of so many bytes.
pub record Processes (W : Type 0) : Type 0 where
  pub spawn : List String → Action W ℕ
  pub signal : Signal → ℕ → W → W × Bool
  pub atoi : String → Result ℕ
  pub quote : String → String
  pub clone : String → String → Effect W
  pub allocate : String → ℕ → Effect W

-- `StartSidecar` gives a function that stops it; here it is named by a number.
pub record Sidecar (W : Type 0) : Type 0 where
  pub start_sidecar : String → String → Action W ℕ
  pub run_stop : ℕ → W → W
  pub stop_sidecar : String → String → Effect W

-- The manager's maps, and the world.
pub record State (W : Type 0) : Type 0 where
  pub world : W
  pub sidecar_stops : Dict ℕ
  pub watching : Dict Bool
  pub procs : Dict ℕ

module _ {W : Type 0} (files : Files W) (processes : Processes W) (sidecar : Option (Sidecar W))
    (codec : Codec LaunchSpec) (clock : Clock W) (dir : String) where
  -- An action on the world alone.
  abbrev pub outside : {A : Type 0} → Action W A → Action (State W) A
  outside act s = let (w, r) = act s.world in (record s { world = w }, r)

  abbrev pub vm_dir : String → String
  vm_dir name = join_path (dir ∷ name ∷ [])

  abbrev pub in_vm_dir : String → String → String
  in_vm_dir name file = join_path (vm_dir name ∷ file ∷ [])

  abbrev pub phase_of : ReadResult → String
  phase_of (contents text) = trim_space text
  phase_of missing = phase_install
  phase_of (unreadable e) = phase_install

  abbrev pub phase : String → W → String
  phase name w = phase_of (files.read_file (in_vm_dir name "phase") w)

  unfoldable pub set_phase : String → String → Effect W
  set_phase name text = do
    files.mkdir_all (vm_dir name)
    files.write_file (in_vm_dir name "phase") text

  abbrev pub read : String → Action W String
  read path w = (w, read_result path (files.read_file path w))

  abbrev give : {A : Type 0} → Result A → Action W A
  give r w = (w, r)

  unfoldable pub load : String → Action W LaunchSpec
  load name = do
    text ←
        wrap (λ e. "vfkit: read spec " <> (name <> (": " <> e))) (read (in_vm_dir name "spec.json"))
    give (codec.unmarshal text)

  unfoldable pub read_pid : String → Action W ℕ
  read_pid name = do
    text ← read (in_vm_dir name "vfkit.pid")
    give (processes.atoi (trim_space text))

  -- `running, _ := m.IsRunning(...)`, which has no error.
  unfoldable pub is_running : String → W → W × Bool
  unfolding read_pid
  is_running name w = elim (read_pid name w).1 [
    | ok pid ↦ processes.signal probe pid w
    | err e ↦ (w, false)
  ]

  -- The devices of the extra disks.
  abbrev pub extra_args : List ExtraDisk → List String
  extra_args [] = []
  extra_args (d ∷ ds) = "--device" ∷ ("virtio-blk,path=" <> d.path) ∷ extra_args ds

  abbrev pub boot_args : String → VmSpec → String → List String
  boot_args name s ph =
      if ph == phase_run
      then "--bootloader" ∷ ("efi,variable-store=" <> (in_vm_dir name "efistore" <> ",create")) ∷ []
      else "--bootloader"
        ∷ join
            ("linux"
              ∷ ("kernel=" <> s.kernel_path)
              ∷ ("initrd=" <> s.initrd_path)
              ∷ ("cmdline=" <> processes.quote s.kernel_args)
              ∷ [])
            ","
        ∷ []

  unfoldable pub build_args : String → LaunchSpec → String → List String
  build_args name ls ph =
      ("--cpus"
        ∷ show_ℤ ls.spec.vcpus
        ∷ "--memory"
        ∷ show_ℤ ls.spec.memory_mib
        ∷ "--device"
        ∷ ("virtio-blk,path=" <> ls.disk_path)
        ∷ [])
      ++ (extra_args ls.spec.extra_disks
          ++ (("--device"
                ∷ ("virtio-net,unixSocketPath="
                    <> (in_vm_dir name "net.sock" <> (",mac=" <> ls.spec.mac)))
                ∷ "--device"
                ∷ "rosetta,mountTag=rosetta"
                ∷ "--device"
                ∷ ("virtio-serial,logFilePath=" <> in_vm_dir name "console.log")
                ∷ "--pidfile"
                ∷ in_vm_dir name "vfkit.pid"
                ∷ [])
              ++ boot_args name ls.spec ph))

  abbrev stop_handle : Option ℕ → Sidecar W → W → W
  stop_handle none side w = w
  stop_handle (some h) side w = side.run_stop h w

  -- The stop function, if there is one, and the sidecar by its socket.
  abbrev stop_in : Option (Sidecar W) → Option ℕ → String → W → W
  stop_in none h name w = w
  stop_in (some side) h name w =
      (side.stop_sidecar name (in_vm_dir name "net.sock") (stop_handle h side w)).0

  unfoldable pub stop_sidecar : String → State W → State W
  stop_sidecar name s = record s {
    sidecar_stops = erase name s.sidecar_stops;
    world = stop_in sidecar (lookup name s.sidecar_stops) name s.world;
  }

  abbrev started_as : String → ℕ → State W → State W
  started_as name h s = record s { sidecar_stops = insert name h s.sidecar_stops }

  unfoldable pub start_in : Option (Sidecar W) → String → Effect (State W)
  start_in none name = done
  start_in (some side) name = do
    h ←
        wrap (λ e. "vfkit " <> (name <> (": start network sidecar: " <> e)))
          (outside (side.start_sidecar name (in_vm_dir name "net.sock")))
    modify (started_as name h)

  abbrev watched : String → String → State W → State W
  watched name ph s =
      if ph == phase_install then record s { watching = insert name true s.watching } else s

  abbrev keep_process : String → ℕ → State W → State W
  keep_process name pid s = record s { procs = insert name pid s.procs }

  -- What `launch` does for a spec and a phase. The watcher that it starts in the install phase is
  -- `watch`.
  unfoldable pub launch_as : String → LaunchSpec → String → Effect (State W)
  unfolding stop_sidecar start_in build_args
  launch_as name ls ph = do
    modify (stop_sidecar name)
    start_in sidecar name
    pid ←
        wrap (λ e. "vfkit " <> (name <> (": launch: " <> e)))
          (outside (processes.spawn (build_args name ls ph)))
    modify (keep_process name pid)
    modify (watched name ph)

  -- The spec and the phase are read first.
  unfoldable pub launch : String → Effect (State W)
  unfolding load launch_as
  launch name s = elim (load name s.world).1 [
    | ok ls ↦ launch_as name ls (phase name s.world) s
    | err e ↦ (s, err e)
  ]

  -- The run phase, and a launch in it.
  unfoldable pub enter_run : String → Effect (State W)
  unfolding set_phase launch
  enter_run name = do outside (set_phase name phase_run); launch name

  unfoldable pub start_stopped : String → Effect (State W)
  unfolding enter_run launch
  start_stopped name s =
      if phase name s.world == phase_install then enter_run name s else launch name s

  unfoldable pub start : String → Effect (State W)
  unfolding is_running start_stopped
  start name s =
      let (w, running) = is_running name s.world in
      elim running [
        | true ↦ (record s { world = w }, ok tt)
        | false ↦ start_stopped name (record s { world = w })
      ]

  -- Waiting for a killed process: a look every tenth of a second, for ten seconds.
  unfoldable pub await_exit : ℕ → ℕ → ℕ → W → W
  await_exit zero deadline pid w = w
  await_exit (suc rounds) deadline pid w = elim (ltb (clock.now w) deadline) [
    | false ↦ w
    | true ↦
        let (w', alive) = processes.signal probe pid w in
        elim alive [ false ↦ w' | true ↦ await_exit rounds deadline pid (clock.wait 1 w').0 ]
  ]

  abbrev kill_by_pid : String → W → W
  kill_by_pid name w = elim (read_pid name w).1 [
    | ok pid ↦ (clock.wait 10 (processes.signal kill pid w).0).0
    | err e ↦ w
  ]

  abbrev kill_process : Option ℕ → String → W → W
  kill_process none name w = kill_by_pid name w
  kill_process (some pid) name w =
      let w' = (processes.signal kill pid w).0 in await_exit 101 (clock.now w' + 100) pid w'

  -- The sidecar and the socket go with the process.
  abbrev clear_up : String → State W → State W
  clear_up name s =
      let s' = stop_sidecar name s in
      record s' { world = (files.remove (in_vm_dir name "net.sock") s'.world).0 }

  unfoldable pub force_stop : String → State W → State W
  unfolding await_exit read_pid stop_sidecar
  force_stop name s = clear_up name (record s {
    procs = erase name s.procs;
    world = kill_process (lookup name s.procs) name s.world;
  })

  -- Failures are only logged.
  unfoldable pub transition_to_run : String → State W → State W
  unfolding force_stop enter_run
  transition_to_run name s = (enter_run name (force_stop name s)).0

  abbrev reboot_detected : String → Bool
  reboot_detected console = leb 2 (count_of "First Boot Complete" console)

  abbrev console_rebooted : ReadResult → Bool
  console_rebooted (contents text) = reboot_detected text
  console_rebooted missing = false
  console_rebooted (unreadable e) = false

  -- The watcher's loop, a round each two seconds for thirty minutes.
  unfoldable pub watch : ℕ → ℕ → String → State W → State W
  unfolding transition_to_run
  watch zero deadline name s = s
  watch (suc rounds) deadline name s =
      elim (ltb (clock.now s.world) deadline && phase name s.world == phase_install) [
        | false ↦ s
        | true ↦ elim (console_rebooted (files.read_file (in_vm_dir name "console.log") s.world)) [
          | true ↦ transition_to_run name s
          | false ↦ watch rounds deadline name (record s { world = (clock.wait 20 s.world).0 })
        ]
      ]

  unfoldable pub watch_install_reboot : String → State W → State W
  unfolding watch
  watch_install_reboot name s =
      let s' = watch 901 (clock.now s.world + 18000) name s in
      record s' { watching = erase name s'.watching }

  abbrev terminate_process : Option ℕ → String → W → W
  terminate_process (some pid) name w = (processes.signal terminate pid w).0
  terminate_process none name w = elim (read_pid name w).1 [
    | ok pid ↦ (processes.signal terminate pid w).0
    | err e ↦ w
  ]

  unfoldable pub stop : String → Effect (State W)
  unfolding read_pid stop_sidecar
  stop name s = (
    clear_up name (record s {
      procs = erase name s.procs;
      world = terminate_process (lookup name s.procs) name s.world;
    }),
    ok tt,
  )

  unfoldable pub delete : String → Effect (State W)
  unfolding stop
  delete name = do
    stop name
    outside (attempt (files.remove (join_path (dir ∷ image_store_vol_name true name ∷ []))))
    outside (attempt (files.remove (join_path (dir ∷ odf_vol_name true name ∷ []))))
    outside (files.remove_all (vm_dir name))

  abbrev disk_bytes : ℤ → ℕ
  disk_bytes (pos zero) = 120 * 1073741824
  disk_bytes (pos (suc n)) = suc n * 1073741824
  disk_bytes (negsuc n) = 120 * 1073741824

  abbrev new_disk : String → String → ℤ → Effect W
  new_disk parent path size = do
    wrap (λ e. "vfkit: create disk dir: " <> e) (files.mkdir_all parent)
    wrap (λ e. "vfkit: create disk: " <> e) (processes.allocate path (disk_bytes size))

  -- The file `file` in the directory `parent`.
  unfoldable pub create_disk : String → String → ℤ → Effect W
  create_disk parent file size w =
      let path = join_path (parent ∷ file ∷ []) in
      elim (files.stat path w) [
        | present n ↦ (w, ok tt)
        | absent ↦ new_disk parent path size w
        | stat_failed e ↦ new_disk parent path size w
      ]

  abbrev launch_spec : VmSpec → LaunchSpec
  launch_spec spec = record { spec = spec; disk_path = in_vm_dir spec.name "disk.img" }

  unfoldable pub prepare : VmSpec → Effect W
  unfolding create_disk set_phase
  prepare spec = do
    wrap (λ e. "vfkit: mkdir vm dir: " <> e) (files.mkdir_all (vm_dir spec.name))
    create_disk (vm_dir spec.name) "disk.img" spec.disk_size_gib
    text ← wrap (λ e. "vfkit: marshal spec: " <> e) (give (codec.marshal (launch_spec spec)))
    files.write_file (in_vm_dir spec.name "spec.json") text
    set_phase spec.name phase_install

  unfoldable pub create : VmSpec → Effect (State W)
  unfolding prepare launch
  create spec = do outside (prepare spec); launch spec.name

  abbrev copy_file : String → String → Effect W
  copy_file src dst = do text ← read src; files.write_file dst text

  abbrev clone_or_copy : String → String → Effect W
  clone_or_copy src dst w = elim (processes.clone src dst w).1 [
    | ok _ ↦ ((processes.clone src dst w).0, ok tt)
    | err e ↦
        wrap (λ c. "vfkit: import disk: clone failed (" <> (e <> (") and copy failed: " <> c)))
          (copy_file src dst) (processes.clone src dst w).0
  ]

  abbrev import_present : String → String → Action W String
  import_present vol path =
      let dst = join_path (dir ∷ vol ∷ []) in
      do
        wrap (λ e. "vfkit: import disk dir: " <> e) (files.mkdir_all dir)
        attempt (files.remove dst)
        clone_or_copy path dst
        pure dst

  abbrev no_source : String → Error → Error
  no_source path e =
      "vfkit: import disk: source "
      <> (path <> (": " <> (e <> " (did the bake-image-store stage run?)")))

  unfoldable pub import_disk : String → String → String → Action W String
  import_disk pool vol path w = elim (files.stat path w) [
    | present n ↦ import_present vol path w
    | absent ↦ (w, err (no_source path ("stat " <> (path <> ": no such file or directory"))))
    | stat_failed e ↦ (w, err (no_source path e))
  ]

  unfoldable pub create_data_disk : String → String → ℤ → Action W String
  unfolding create_disk
  create_data_disk pool vol size = do create_disk dir vol size; pure (join_path (dir ∷ vol ∷ []))

  -- `VMManager`. Boot ISOs and storage pools mean nothing here.
  unfoldable pub vm_manager : VmManager (State W)
  unfolding is_running
  vm_manager = record {
    create = create;
    start = start;
    stop = stop;
    delete = delete;
    is_running = λ name. outside (λ w. let (w', b) = is_running name w in (w', ok b));
    import_iso = λ pool vol path. pure "";
    import_disk = λ pool vol path. outside (import_disk pool vol path);
    create_data_disk = λ pool vol size. outside (create_data_disk pool vol size);
    remove_iso = λ pool vol. done;
    check_access = done;
    storage_pool_active = λ pool. done;
  }
