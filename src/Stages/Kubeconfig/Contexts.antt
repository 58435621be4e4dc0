-- ===== src/Stages/Kubeconfig/Contexts.antt =====
-- What the rollback of merge-kubeconfig does to the user's current context.
use easyshift.Base.{String, ◌≡◌, List, ◌⊎◌}
use easyshift.Base.Lists.{All}
use easyshift.Base.Text.{trim_space}
use easyshift.Base.Action.{Result, ok, err}
use easyshift.Interfaces.Providers.{CommandRunner}
use easyshift.Interfaces.Install.{oc_binary_path}
use easyshift.Config.Types.{Pointer}
use easyshift.Config.Memory.{Memory, Disk}
use easyshift.Stages.Kubeconfig.{Environment, current_context, unset_context, removals}

module _ {W : Type 0} (env : Environment) (disk : Disk W) (cmd : CommandRunner W) (p : Pointer)
    (oc target : String) (current : W → String) where
  abbrev Keeps : List String → Type 0
  Keeps args = (w : W) → current (cmd.run oc args w).0 ≡ current w

  -- What `oc config` does to the current context of the kubeconfig at `target`. The config of the
  -- program is another file.
  pub record IsContext (name : String) : Type 0 where
    pub shown :
        (w : W) (out : String)
        → (current_context env disk cmd p oc target w).1 ≡ ok out
        → trim_space out ≡ current w
    pub looked : (w : W) → current (current_context env disk cmd p oc target w).0 ≡ current w
    pub unset :
        (w : W)
        → (current (cmd.run oc (unset_context target) w).0 ≡ "")
          ⊎ (current (cmd.run oc (unset_context target) w).0 ≡ current w)
    pub removed : All Keeps (removals target name)
    pub written :
        (path text : String) (w : W) → current (disk.files.write_file path text w).0 ≡ current w

  -- The current context is as it was, or it was the cluster's and there is none now.
  abbrev pub Left : String → String → String → Type 0
  Left name before now = (now ≡ before) ⊎ ((before ≡ name) × (now ≡ ""))

-- `current` observes the current context of the kubeconfig at a path.
module _ {W : Type 0} (env : Environment) (disk : Disk W) (cmd : CommandRunner W) (p : Pointer)
    (current : String → W → String) where
  abbrev pub oc_of : Memory W → String
  oc_of m = oc_binary_path m.config.config_dir (m.heap p)

  -- What a rollback leaves, by the kubeconfig that it finds recorded or, without a record, resolves.
  abbrev pub Ends : Memory W → Result String → Memory W → Type 0
  Ends m (ok target) m' =
      ((m'.heap p).kubeconfig_target ≡ "")
      × Left env disk cmd p (oc_of m) target (current target) (m.heap p).name
          (current target m.world) (current target m'.world)
  Ends m (err _) m' = m' ≡ m
