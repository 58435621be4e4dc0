-- ===== src/Stages/BakeStore.antt =====
-- stages/bakeimagestore: the baked image store of a version of OpenShift.
use easyshift.Base.{String, ◌<>◌, Bool, true, false, not, some, List, [], ◌∷◌, if◌then◌else◌}
use easyshift.Base.Text.{has_substring}
use easyshift.Base.Action.{Result, ok, err, Effect, ◌>>◌, ◌>>=◌, done, wrap}
use easyshift.Interfaces.Os.{Files, StatResult, present, absent, stat_failed}
use easyshift.Interfaces.Stage.{Stage}
use easyshift.Interfaces.Providers.{HostInspector}
use easyshift.Interfaces.Install.{ImageBaker, BakeSpec, oc_binary_path}
use easyshift.Config.Types.{ClusterConfig, Pointer}
use easyshift.Config.Memory.{Memory, on_world}
use easyshift.Config.Paths.{pull_secret_path, image_store_disk_path, image_store_cache_dir}
use easyshift.Config.Secrets.{validate_pull_secret_json, image_store_overlay_dir, mke2fs_candidates}
use easyshift.Stages.MasterVm.{show_list}

abbrev pub bake_tool_hint : Bool → String
bake_tool_hint true = "brew install skopeo e2fsprogs"
bake_tool_hint false =
    "install skopeo and guestfs-tools (Fedora/RHEL) or skopeo + libguestfs-tools (Debian/Ubuntu)"

abbrev pub bake_spec : Bool → String → ClusterConfig → BakeSpec
bake_spec darwin dir c = record {
  version = c.ocp_version;
  oc_binary_path = oc_binary_path dir c;
  pull_secret_path = pull_secret_path dir;
  overlay_dir = image_store_overlay_dir dir c.ocp_version;
  output_disk_path = image_store_disk_path darwin dir c.ocp_version;
}

abbrev is_present : StatResult → Bool
is_present (present _) = true
is_present absent = false
is_present (stat_failed e) = false

abbrev is_ok : Result (Unit {0}) → Bool
is_ok (ok _) = true
is_ok (err e) = false

-- `err == nil && ready`
abbrev is_ready : Result Bool → Bool
is_ready (ok b) = b
is_ready (err e) = false

module _ {W : Type 0} (darwin : Bool) (files : Files W) (json_keys : String → Result (List String))
    (baker : ImageBaker W) (host : HostInspector W) (p : Pointer) where
  -- The loop of `mke2fsPresent`: a path is looked at, a bare name is searched for.
  unfoldable pub any_present : List String → W → W × Bool
  any_present [] w = (w, false)
  any_present (c ∷ cs) w = elim (has_substring c "/") [
    | true ↦ elim (is_present (files.stat c w)) [ true ↦ (w, true) | false ↦ any_present cs w ]
    | false ↦
        let (w', r) = host.look_path c w in
        elim (is_ok r) [ true ↦ (w', true) | false ↦ any_present cs w' ]
  ]

  abbrev needs : String → Effect W
  needs tool =
      wrap
        (λ e.
          "--bake-images needs \""
          <> (tool <> ("\" on PATH: " <> (e <> ("\n  hint: " <> bake_tool_hint darwin)))))
        (host.look_path tool)

  abbrev need_mke2fs : Effect W
  need_mke2fs w =
      let (w', there) = any_present mke2fs_candidates w in
      if there then (w', ok tt) else (
        w',
        err (
            "--bake-images needs mke2fs (none of "
            <> (show_list mke2fs_candidates <> (" found)\n  hint: " <> bake_tool_hint darwin))),
      )

  abbrev check_tools : String → Effect W
  check_tools dir = do
    validate_pull_secret_json files json_keys dir
    needs "skopeo"
    if darwin then need_mke2fs else needs "virt-make-fs"

  unfoldable pub check_bake : String → ClusterConfig → Effect W
  unfolding any_present
  check_bake dir c w =
      let (w', r) = baker.ready (bake_spec darwin dir c) w in
      elim (is_ready r) [ true ↦ (w', ok tt) | false ↦ check_tools dir w' ]

  unfoldable pub preflight : Effect (Memory W)
  unfolding check_bake
  preflight m =
      if not (m.heap p).bake_images
      then (m, ok tt)
      else on_world (check_bake m.config.config_dir (m.heap p)) m

  abbrev bake_if : String → ClusterConfig → Bool → Effect W
  bake_if dir c true = done
  bake_if dir c false = do
    files.mkdir_all (image_store_cache_dir dir c.ocp_version)
    baker.bake (bake_spec darwin dir c)

  unfoldable pub bake_store : String → ClusterConfig → Effect W
  bake_store dir c = do
    ready ← wrap (λ e. "probe baked image store: " <> e) (baker.ready (bake_spec darwin dir c))
    bake_if dir c ready

  unfoldable pub apply : Effect (Memory W)
  unfolding bake_store
  apply m =
      if not (m.heap p).bake_images
      then (m, ok tt)
      else on_world (bake_store m.config.config_dir (m.heap p)) m

  unfoldable pub stage : Stage (Memory W)
  unfolding preflight apply
  stage = record {
    name = "bake-image-store";
    apply = apply;
    rollback = done;
    preflight = some preflight;
  }
