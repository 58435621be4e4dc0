-- ===== src/Stages/BootIso.antt =====
-- stages/embedignitioniso: the boot ISO of the master, embedded and uploaded.
use easyshift.Base.{String, ◌<>◌, some, if◌then◌else◌}
use easyshift.Base.Text.{Net}
use easyshift.Base.Action.{Result, Action, Effect, ◌>>◌, ◌>>=◌, done, wrap, attempt}
use easyshift.Interfaces.Stage.{Stage}
use easyshift.Interfaces.Providers.{VmManager}
use easyshift.Interfaces.Install.{
  Installer, installer_spec, in_work_dir, master_iso_path, master_iso_vol_name, rhcos_live_iso_path,
}
use easyshift.Config.Types.{ClusterConfig, Pointer}
use easyshift.Config.Cluster.{static_network_keyfile}
use easyshift.Config.Memory.{Memory, Disk, on_world, change, save}

module _ {W : Type 0} (goarch : String) (net : Net) (disk : Disk W) (installer : Installer W)
    (vm : VmManager W) (p : Pointer) where
  unfoldable pub preflight : Effect (Memory W)
  preflight m = on_world (vm.storage_pool_active (m.heap p).storage_pool) m

  abbrev give : {A : Type 0} → Result A → Action W A
  give r w = (w, r)

  -- The ISO on local disk, and its upload: the path of the volume.
  unfoldable pub build_iso : String → ClusterConfig → Action W String
  build_iso dir c = do
    if c.bake_images
        then installer.merge_image_store (installer_spec dir c goarch)
            (in_work_dir dir c "bootstrap-in-place-for-live-iso.ign")
        else done
    installer.embed_ignition_in_iso (installer_spec dir c goarch) (rhcos_live_iso_path dir c)
        (in_work_dir dir c "bootstrap-in-place-for-live-iso.ign") (master_iso_path dir c)
    keyfile ←
        wrap (λ e. "render static network keyfile: " <> e) (give (static_network_keyfile net c))
    wrap (λ e. "write network keyfile: " <> e)
        (disk.files.write_file (in_work_dir dir c "master.nmconnection") keyfile)
    installer.embed_network_keyfile_in_iso (installer_spec dir c goarch)
        (in_work_dir dir c "master.nmconnection") (master_iso_path dir c)
    vm.import_iso c.storage_pool (master_iso_vol_name dir c) (master_iso_path dir c)

  abbrev record_volume : String → Effect (Memory W)
  record_volume path = do change p (λ c. record c { boot_iso_vol_path = path }); save disk

  unfoldable pub apply : Effect (Memory W)
  unfolding build_iso
  apply = do path ← λ m. on_world (build_iso m.config.config_dir (m.heap p)) m; record_volume path

  abbrev remove_iso : String → ClusterConfig → Effect W
  remove_iso dir c = do
    attempt (vm.remove_iso c.storage_pool (master_iso_vol_name dir c))
    attempt (disk.files.remove (master_iso_path dir c))

  unfoldable pub rollback : Effect (Memory W)
  rollback = do λ m. on_world (remove_iso m.config.config_dir (m.heap p)) m; record_volume ""

  unfoldable pub stage : Stage (Memory W)
  unfolding preflight apply rollback
  stage = record {
    name = "embed-ignition-iso";
    apply = apply;
    rollback = rollback;
    preflight = some preflight;
  }
