-- ===== src/Stages/Pxe.antt =====
-- stages/publishpxeassets: the boot assets that a macOS host serves. The reader and the printer of
-- JSON and the encoding of base 64 are parameters.
pub mod Storage
use easyshift.Base.{String, ◌<>◌, true, Option, none, some, [], ◌∷◌, if◌then◌else◌}
use easyshift.Base.Text.{to_upper}
use easyshift.Base.Json.{
  Json, null, bool, number, string, array, object, Items, nil, cons, Members, end, member, value_at,
  put, append_item,
}
use easyshift.Base.Action.{Result, ok, err, Action, Effect, ◌>>◌, ◌>>=◌, done, wrap, attempt}
use easyshift.Interfaces.Os.{Files, join_path}
use easyshift.Interfaces.Stage.{Stage}
use easyshift.Interfaces.Install.{
  FileServer, Installer, installer_spec, in_work_dir, rhcos_rootfs_path,
}
use easyshift.Config.Types.{ClusterConfig, Pointer}
use easyshift.Config.Constants.{base_network_range}
use easyshift.Config.Cluster.{primary_master_ip, primary_master_mac}
use easyshift.Config.Memory.{Memory, on_world, change}
use easyshift.Config.Secrets.{read}

-- `json.Unmarshal` into a map, which is nil for the document `null`, `json.Marshal` of a map, and
-- `base64.StdEncoding`.
pub record Formats : Type 0 where
  pub parse : String → Result (Option Members)
  pub print : Members → Result String
  pub encode64 : String → String

unfoldable pub kernel_cmdline : String → String → String
kernel_cmdline base cluster =
    "console=hvc0 coreos.live.rootfs_url="
    <> (base
        <> ("/"
            <> (cluster
                <> ("/rootfs.img ignition.firstboot ignition.platform.id=metal ignition.config.url="
                    <> (base <> ("/" <> (cluster <> "/config.ign")))))))

abbrev pub conn_id : ClusterConfig → String
conn_id c = "master-0-" <> c.name

unfoldable pub nat_keyfile : ClusterConfig → String
nat_keyfile c =
    let gw = base_network_range <> ".1" in
    "[connection]\nid="
    <> (conn_id c
        <> ("\ntype=ethernet\nautoconnect=true\nautoconnect-priority=999\n\n[ethernet]\nmac-address="
            <> (to_upper (primary_master_mac c)
                <> ("\n\n[ipv4]\nmethod=manual\naddress1="
                    <> (primary_master_ip c
                        <> ("/24,"
                            <> (gw
                                <> ("\ndns="
                                    <> (gw
                                        <> ";\nmay-fail=false\n\n[ipv6]\nmethod=disabled\n")))))))))

-- A value that is an object, or none; the items of a value that is an array.
abbrev pub members_of : Option Json → Members
members_of none = end
members_of (some null) = end
members_of (some (bool b)) = end
members_of (some (number n)) = end
members_of (some (string t)) = end
members_of (some (array xs)) = end
members_of (some (object m)) = m

abbrev pub items_of : Option Json → Items
items_of none = nil
items_of (some null) = nil
items_of (some (bool b)) = nil
items_of (some (number n)) = nil
items_of (some (string t)) = nil
items_of (some (array xs)) = xs
items_of (some (object m)) = nil

-- The document with an entry more under storage.files.
unfoldable pub with_file : Json → Members → Members
with_file entry m =
    let storage = members_of (value_at "storage" m) in
    let files = items_of (value_at "files" storage) in
    put "storage" (object (put "files" (array (append_item files entry)) storage)) m

module _ (formats : Formats) where
  -- The file's entry. Its mode is 0o600.
  abbrev pub keyfile_entry : ClusterConfig → Json
  keyfile_entry c = object (
      member "path"
        (string ("/etc/NetworkManager/system-connections/" <> (conn_id c <> ".nmconnection")))
        (member "mode" (number 384) (
          member "overwrite" (bool true) (
            member "contents"
              (object (
                member "source" (string ("data:;base64," <> formats.encode64 (nat_keyfile c))) end))
              end))))

  -- A write into the nil map is a panic.
  abbrev injected : ClusterConfig → Result (Option Members) → Result String
  injected c (err e) = err ("parse ignition json: " <> e)
  injected c (ok none) = err "panic: assignment to entry in nil map"
  injected c (ok (some m)) = formats.print (with_file (keyfile_entry c) m)

  unfoldable pub inject_static_network : String → ClusterConfig → Result String
  unfolding with_file
  inject_static_network ignition c = injected c (formats.parse ignition)

  module _ {W : Type 0} (goarch : String) (files : Files W) (server : FileServer)
      (installer : Installer W) (p : Pointer) where
    abbrev give : {A : Type 0} → Result A → Action W A
    give r w = (w, r)

    -- The copy as a read and a write of the whole file.
    abbrev copy_file : String → String → Effect W
    copy_file src dst = do data' ← read files src; files.write_file dst data'

    abbrev published : ClusterConfig → String → String
    published c file = join_path (server.root_dir ∷ c.name ∷ file ∷ [])

    unfoldable pub publish : String → ClusterConfig → Effect W
    unfolding inject_static_network
    publish dir c =
        let dst = join_path (server.root_dir ∷ c.name ∷ []) in
        do
          wrap (λ e. "publish-pxe-assets: mkdir " <> (dst <> (": " <> e))) (files.mkdir_all dst)
          wrap (λ e. "publish rootfs: " <> e)
              (copy_file (rhcos_rootfs_path dir c) (published c "rootfs.img"))
          ign ←
              wrap (λ e. "read SNO ignition: " <> e)
                (read files (in_work_dir dir c "bootstrap-in-place-for-live-iso.ign"))
          merged ← wrap (λ e. "inject static network: " <> e) (give (inject_static_network ign c))
          wrap (λ e. "publish ignition: " <> e) (files.write_file (published c "config.ign") merged)
          if c.bake_images
              then wrap (λ e. "merge image store into served ignition: " <> e)
                  (installer.merge_image_store (installer_spec dir c goarch)
                    (published c "config.ign"))
              else done

    unfoldable pub apply : Effect (Memory W)
    unfolding publish
    apply = do
      λ m. on_world (publish m.config.config_dir (m.heap p)) m
      change p (λ c. record c { install_kernel_cmdline = kernel_cmdline server.base_url c.name })

    unfoldable pub rollback : Effect (Memory W)
    rollback m =
        on_world (attempt (files.remove_all (join_path (server.root_dir ∷ (m.heap p).name ∷ [])))) m

    unfoldable pub stage : Stage (Memory W)
    unfolding apply rollback
    stage = record {
      name = "publish-pxe-assets";
      apply = apply;
      rollback = rollback;
      preflight = none;
    }
