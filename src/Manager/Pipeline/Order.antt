-- ===== src/Manager/Pipeline/Order.antt =====
-- The order of the pipeline, and of its undoing.
use easyshift.Base.{String, Bool, List, [], ◌∷◌, if◌then◌else◌}
use easyshift.Config.Types.{Pointer}
use easyshift.Config.Memory.{Memory}
use easyshift.Manager.Pipeline.{Parts}
use easyshift.Stages.Allocate
use easyshift.Stages.Dns
use easyshift.Stages.Network
use easyshift.Stages.MasterVm
use easyshift.Stages.Odf
use easyshift.Stages.Binaries
use easyshift.Stages.Rhcos
use easyshift.Stages.BakeStore
use easyshift.Stages.SshKey
use easyshift.Stages.Ignition
use easyshift.Stages.Pxe
use easyshift.Stages.BootIso
use easyshift.Stages.TlsCerts
use easyshift.Stages.Kubeconfig

module _ {W : Type 0} (parts : Parts W) (p : Pointer) where
  -- The stages of an installation in their order. The master boots from an image on Linux, and by the
  -- network's assets on macOS.
  abbrev pub in_order : Bool → List String
  in_order darwin =
      "register-cluster"
      ∷ "allocate-network"
      ∷ "upsert-dns"
      ∷ "ensure-cluster-dir"
      ∷ "download-binaries"
      ∷ "download-rhcos"
      ∷ "bake-image-store"
      ∷ "generate-ssh-key"
      ∷ "generate-ignition"
      ∷ (if darwin then "publish-pxe-assets" else "embed-ignition-iso")
      ∷ "create-network"
      ∷ "create-master-vms"
      ∷ "verify-master-ip"
      ∷ "wait-for-install"
      ∷ "apply-tls-certs"
      ∷ "merge-kubeconfig"
      ∷ "install-odf"
      ∷ "finalize"
      ∷ []
