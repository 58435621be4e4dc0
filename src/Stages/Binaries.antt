-- ===== src/Stages/Binaries.antt =====
-- stages/downloadbinaries, with the names that providers/openshift gives to the downloads.
use easyshift.Base.{String, ◌<>◌, Bool, true, false, ◌&&◌, not, some, [], ◌∷◌, ◌==◌, if◌then◌else◌}
use easyshift.Base.Action.{ok, Effect, ◌>>◌, ◌>>=◌, done, wrap, finally}
use easyshift.Interfaces.Os.{Files, StatResult, present, absent, stat_failed, join_path}
use easyshift.Interfaces.Stage.{Stage}
use easyshift.Interfaces.Providers.{Downloader, CommandRunner, HostInspector}
use easyshift.Interfaces.Install.{payload_arch}
use easyshift.Config.Types.{Pointer}
use easyshift.Config.Memory.{Memory, on_world}
use easyshift.Config.Paths.{binaries_dir}

-- `goos == "darwin"` is the first argument.
abbrev pub host_client_platform : Bool → String → String
host_client_platform darwin goarch =
    if darwin && goarch == "arm64" then "mac-arm64" else if darwin then "mac" else "linux"

abbrev pub install_client_tarball : String → String
install_client_tarball platform = "openshift-install-" <> (platform <> ".tar.gz")

abbrev pub oc_client_tarball : String → String
oc_client_tarball platform = "openshift-client-" <> (platform <> ".tar.gz")

abbrev pub ocp_mirror_url_for_arch : String → String
ocp_mirror_url_for_arch arch = "https://mirror.openshift.com/pub/openshift-v4/" <> arch

abbrev pub ocp_client_url : String → String → String → String
ocp_client_url arch version tarball =
    ocp_mirror_url_for_arch arch <> ("/clients/ocp/" <> (version <> ("/" <> tarball)))

abbrev pub core_os_installer_url : String
core_os_installer_url =
    "https://mirror.openshift.com/pub/openshift-v4/clients/coreos-installer/latest/coreos-installer"

-- `err != nil` of `os.Stat`
abbrev pub is_missing : StatResult → Bool
is_missing (present _) = false
is_missing absent = true
is_missing (stat_failed e) = true

module _ {W : Type 0} (darwin : Bool) (goarch : String) (files : Files W) (dl : Downloader W)
    (cmd : CommandRunner W) (host : HostInspector W) (p : Pointer) where
  -- `if _, err := os.Stat(path); err != nil { fetch }`
  abbrev unless_there : String → Effect W → Effect W
  unless_there path fetch w = elim (is_missing (files.stat path w)) [
    | true ↦ fetch w
    | false ↦ (w, ok tt)
  ]

  unfoldable pub download_tarball : String → String → Effect W
  download_tarball url dir =
      let tmp = join_path (dir ∷ "_download.tar.gz" ∷ []) in
      do
        dl.download url tmp
        finally (files.remove tmp) (do
          out ←
              wrap (λ e. "extract " <> (tmp <> (": " <> e)))
                (cmd.run "tar" ("xzf" ∷ tmp ∷ "-C" ∷ dir ∷ []))
          done)

  abbrev fetch_core_os_installer : String → Effect W
  fetch_core_os_installer path = do
    wrap (λ e. "download coreos-installer: " <> e) (dl.download core_os_installer_url path)
    out ← wrap (λ e. "chmod coreos-installer: " <> e) (cmd.run "chmod" ("+x" ∷ path ∷ []))
    done

  -- The address of a client's tarball for the host.
  abbrev url : String → (String → String) → String
  url version tarball =
      ocp_client_url (payload_arch goarch) version (tarball (host_client_platform darwin goarch))

  unfoldable pub fetch_tools : String → String → Effect W
  unfolding download_tarball
  fetch_tools version bin = do
    files.mkdir_all bin
    unless_there (join_path (bin ∷ "openshift-install" ∷ [])) (
        wrap (λ e. "download openshift-install: " <> e)
          (download_tarball (url version install_client_tarball) bin))
    unless_there (join_path (bin ∷ "oc" ∷ []))
        (wrap (λ e. "download oc: " <> e) (download_tarball (url version oc_client_tarball) bin))
    if not darwin
        then unless_there (join_path (bin ∷ "coreos-installer" ∷ []))
            (fetch_core_os_installer (join_path (bin ∷ "coreos-installer" ∷ [])))
        else done

  unfoldable pub preflight : Effect (Memory W)
  preflight = on_world (host.look_path "tar")

  unfoldable pub apply : Effect (Memory W)
  unfolding fetch_tools
  apply m =
      let version = (m.heap p).ocp_version in
      on_world (fetch_tools version (binaries_dir m.config.config_dir version)) m

  unfoldable pub stage : Stage (Memory W)
  unfolding preflight apply
  stage = record {
    name = "download-binaries";
    apply = apply;
    rollback = done;
    preflight = some preflight;
  }
