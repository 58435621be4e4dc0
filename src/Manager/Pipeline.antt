-- ===== src/Manager/Pipeline.antt =====
-- app/manager.go: `buildStages`, and what the manager is built from. The stage wait-for-install, whose
-- helpers run beside it, stands in it as its steps.
pub mod Order
use easyshift.Base.{ℕ, String, Bool, true, false, Option, none, some, List, [], ◌∷◌, refl}
use easyshift.Base.Text.{Net}
use easyshift.Base.Action.{Error, Result, ok, err, Action, Effect, done}
use easyshift.Interfaces.Os.{Files, Codec}
use easyshift.Interfaces.Stage.{Stage, ClusterState}
use easyshift.Interfaces.Providers.{
  CommandRunner, VmManager, NetworkProvisioner, DnsManager, DnsResolver, Downloader, HostInspector,
  OdfInstaller,
}
use easyshift.Config.Types.{ClusterConfig, Pointer}
use easyshift.Config.Constants.{network_mode_bridge}
use easyshift.Config.Memory.{Memory, Snapshot, Disk, on_world}
use easyshift.Stages.Register.{register_stage, ensure_cluster_dir_stage, finalize_stage}
use easyshift.Stages.VerifyIp.{verify_stage}
use easyshift.Interfaces.Os.{Clock}
use easyshift.Stages.Allocate
use easyshift.Stages.Dns
use easyshift.Stages.Network
use easyshift.Stages.MasterVm
use easyshift.Stages.Odf
use easyshift.Stages.Binaries
use easyshift.Stages.Rhcos
use easyshift.Stages.BakeStore
use easyshift.Stages.SshKey
use easyshift.Stages.Ignition
use easyshift.Stages.Pxe
use easyshift.Stages.BootIso
use easyshift.Stages.TlsCerts
use easyshift.Stages.Kubeconfig
use easyshift.Stages.Rhcos.{Bytes}
use easyshift.Stages.Pxe.{Formats}
use easyshift.Stages.TlsCerts.{Pem, Issuers}
use easyshift.Stages.Kubeconfig.{Environment}
use easyshift.Interfaces.Install.{Installer, ImageBaker, FileServer}

-- A stage without its name.
pub record Steps (S : Type 0) : Type 0 where
  pub apply : Effect S
  pub rollback : Effect S
  pub preflight : Option (Effect S)

abbrev pub named : {S : Type 0} → String → Steps S → Stage S
named name steps = record {
  name = name;
  apply = steps.apply;
  rollback = steps.rollback;
  preflight = steps.preflight;
}

-- `interfaces.Deps`, the file system, the codecs, `runtime.GOOS` and `runtime.GOARCH`, and the steps
-- of the stage wait-for-install at a cluster. `resolve_version` is `openshift.ResolveOCPVersion`.
pub record Parts (W : Type 0) : Type 0 where
  pub darwin : Bool
  pub disk : Disk W
  pub state_codec : Codec ClusterState
  pub net : Net
  pub random : Action W (ℕ × ℕ × ℕ)
  pub clock : Clock W
  pub vm : VmManager W
  pub network : NetworkProvisioner W
  pub dns : DnsManager W
  pub host : HostInspector W
  pub odf : OdfInstaller W
  pub resolve_version : String → Action W String
  pub cmd : CommandRunner W
  pub goarch : String
  pub json_keys : String → Result (List String)
  pub dl : Downloader W
  pub installer : Installer W
  pub baker : ImageBaker W
  pub resolver : DnsResolver W
  pub server : FileServer
  pub env : Environment
  pub bytes : Bytes
  pub formats : Formats
  pub pem : Pem
  pub issuers : Issuers W
  pub wait_for_install : Pointer → Steps (Memory W)

module _ {W : Type 0} (parts : Parts W) (p : Pointer) where
  abbrev boot_media : Bool → Stage (Memory W)
  boot_media true =
      Pxe.stage parts.formats parts.goarch parts.disk.files parts.server parts.installer p
  boot_media false = BootIso.stage parts.goarch parts.net parts.disk parts.installer parts.vm p

  unfoldable pub stages_for : Bool → List (Stage (Memory W))
  stages_for darwin =
      register_stage parts.disk p
      ∷ Allocate.stage parts.disk parts.random p
      ∷ Dns.stage parts.disk.files parts.dns p
      ∷ ensure_cluster_dir_stage parts.disk p
      ∷ Binaries.stage parts.darwin parts.goarch parts.disk.files parts.dl parts.cmd parts.host p
      ∷ Rhcos.stage parts.darwin parts.goarch parts.bytes parts.disk.files parts.installer parts.dl
          p
      ∷ BakeStore.stage parts.darwin parts.disk.files parts.json_keys parts.baker parts.host p
      ∷ SshKey.stage parts.disk.files parts.cmd parts.host p
      ∷ Ignition.stage parts.darwin parts.goarch parts.disk.files parts.json_keys parts.installer
          parts.resolver parts.host p
      ∷ boot_media darwin
      ∷ Network.stage parts.network parts.vm p
      ∷ MasterVm.stage parts.darwin parts.disk.files parts.vm parts.host p
      ∷ verify_stage parts.host parts.clock p
      ∷ named "wait-for-install" (parts.wait_for_install p)
      ∷ TlsCerts.stage parts.disk.files parts.cmd parts.pem parts.issuers p
      ∷ Kubeconfig.stage parts.env parts.disk parts.cmd p
      ∷ Odf.stage parts.odf p
      ∷ finalize_stage parts.disk p
      ∷ []

  unfoldable pub build_stages : List (Stage (Memory W))
  build_stages = stages_for parts.darwin
