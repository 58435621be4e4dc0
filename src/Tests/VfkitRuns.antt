-- ===== src/Tests/VfkitRuns.antt =====
-- A host that counts the launches of the installer, and a VM on it behind its installation.
use easyshift.Base.{
  ℕ, suc, String, ◌<>◌, ◌≡◌, refl, ap, true, false, none, List, [], ◌∷◌, ◌++◌, if◌then◌else◌, ◌==◌,
  ◌||◌,
}
use easyshift.Base.Dict.{lookup}
use easyshift.Base.Text.{trim_space, has_prefix}
use easyshift.Base.Int.{pos}
use easyshift.Base.Action.{ok}
use easyshift.Interfaces.Os.{Files, Clock, Codec, IsLawful, join_path}
use easyshift.Interfaces.Providers.{VmSpec}
use easyshift.Providers.Vfkit.{
  LaunchSpec, Processes, State, phase, phase_run, phase_install, build_args, extra_args, start,
  transition_to_run,
}
use easyshift.Providers.Vfkit.Phases.{IsHost, start-installs}
use easyshift.Tests.World.{World, disk_files, disk_files-IsLawful}

-- The files, and the number of launches with the boot loader "linux,...".
abbrev Host : Type 0
Host = World × ℕ

abbrev host_files : Files Host
host_files = record {
  read_file = λ path w. disk_files.read_file path w.0;
  stat = λ path w. disk_files.stat path w.0;
  write_file = λ path text w. (((disk_files.write_file path text w.0).0, w.1), ok tt);
  mkdir_all = λ path w. (w, ok tt);
  remove = λ path w. (((disk_files.remove path w.0).0, w.1), ok tt);
  remove_all = λ path w. (w, ok tt);
}

abbrev last_of : List String → String
last_of [] = ""
last_of (a ∷ []) = a
last_of (a ∷ b ∷ rest) = last_of (b ∷ rest)

abbrev counted : List String → ℕ → ℕ
counted args n = if has_prefix (last_of args) "linux" then suc n else n

abbrev host_processes : Processes Host
host_processes = record {
  spawn = λ args w. ((w.0, counted args w.1), ok 7);
  signal = λ sg pid w. (w, false);
  atoi = λ text. ok 7;
  quote = λ text. text;
  clone = λ src dst w. (w, ok tt);
  allocate = λ path n w. (w, ok tt);
}

abbrev host_clock : Clock Host
host_clock = record { now = λ w. 0; wait = λ n w. (w, none) }

abbrev vm_spec : VmSpec
vm_spec = record {
  name = "m";
  memory_mib = pos 1;
  vcpus = pos 1;
  disk_size_gib = pos 1;
  storage_pool = "";
  mac = "52:54:00:01:02:03";
  network_arg = "";
  boot_iso = "";
  kernel_args = "";
  kernel_path = "/k";
  initrd_path = "/i";
  extra_disks = [];
}

abbrev spec_codec : Codec LaunchSpec
spec_codec = record {
  marshal = λ ls. ok "spec";
  unmarshal = λ text. ok (record { spec = vm_spec; disk_path = "/d" });
}

last_of-append :
    (xs : List String) (y : String) (ys : List String) → last_of (xs ++ (y ∷ ys)) ≡ last_of (y ∷ ys)
last_of-append [] y ys = refl
last_of-append (x ∷ []) y ys = refl
last_of-append (x ∷ x' ∷ xs) y ys = last_of-append (x' ∷ xs) y ys

last_of-both :
    (xs ds : List String) (y : String) (ys : List String)
    → last_of (xs ++ (ds ++ (y ∷ ys))) ≡ last_of (y ∷ ys)
last_of-both [] ds y ys = last_of-append ds y ys
last_of-both (x ∷ []) ds y ys = last_of-append (x ∷ ds) y ys
last_of-both (x ∷ x' ∷ xs) ds y ys = last_of-both (x' ∷ xs) ds y ys

run_phase_law :
    (ls : LaunchSpec) (w : Host)
    → ((host_processes.spawn
        (build_args host_files host_processes none spec_codec host_clock "/vfkit" "m" ls phase_run)
        w).0
      ).1
      ≡ w.1
unfolding build_args join_path
run_phase_law ls w =
    ap (λ a. if has_prefix a "linux" then suc w.1 else w.1)
      (last_of-both (("virtio-blk,path=" <> ls.disk_path) ∷ [])
        (extra_args host_files host_processes none spec_codec host_clock "/vfkit"
          ls.spec.extra_disks)
        _ _)

counting : IsHost host_files host_processes none spec_codec host_clock "/vfkit" (λ w. w.1) "m"
counting = record {
  run_phase = run_phase_law;
  signalled = λ sg pid w. refl;
  same_files = λ sg pid path w. refl;
  made = λ path w. refl;
  written = λ path text w. refl;
  removed = λ path w. refl;
  waited = λ n w. refl;
  sidecar_keeps = tt;
}

host_files-IsLawful : IsLawful host_files
host_files-IsLawful = record {
  read-write = λ path text w h. disk_files-IsLawful.read-write path text w.0 refl;
}

-- The VM in the install phase, one installer launched, and no process of it left.
abbrev installed : State Host
installed = record {
  world = (("/vfkit/m/phase", "install\n") ∷ ("/vfkit/m/spec.json", "spec") ∷ [], 1);
  sidecar_stops = [];
  watching = [];
  procs = [];
}

in_install :
    (phase host_files host_processes none spec_codec host_clock "/vfkit" "m" installed.world
        == phase_install
      || phase host_files host_processes none spec_codec host_clock "/vfkit" "m" installed.world
        == phase_run)
    ≡ true
unfolding trim_space lookup join_path
in_install = refl

start-installs_example :
    ((start host_files host_processes none spec_codec host_clock "/vfkit" "m" installed).0.world.1
      ≡ 1)
    × ((transition_to_run host_files host_processes none spec_codec host_clock "/vfkit" "m"
          installed).world.1
        ≡ 1)
start-installs_example =
    start-installs host_files host_processes none spec_codec host_clock "/vfkit" (λ w. w.1)
      host_files-IsLawful "m" counting installed in_install
