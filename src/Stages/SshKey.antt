-- ===== src/Stages/SshKey.antt =====
-- stages/generatesshkey: the key pair of a cluster.
use easyshift.Base.{String, ◌<>◌, some, [], ◌∷◌}
use easyshift.Base.Action.{ok, Effect, ◌>>◌, ◌>>=◌, done, attempt}
use easyshift.Interfaces.Os.{Files, present, absent, stat_failed}
use easyshift.Interfaces.Stage.{Stage}
use easyshift.Interfaces.Providers.{CommandRunner, HostInspector}
use easyshift.Interfaces.Install.{in_work_dir}
use easyshift.Config.Types.{Pointer}
use easyshift.Config.Memory.{Memory, on_world}

module _ {W : Type 0} (files : Files W) (cmd : CommandRunner W) (host : HostInspector W)
    (p : Pointer) where
  abbrev key_path : Memory W → String
  key_path m = in_work_dir m.config.config_dir (m.heap p) "id_rsa"

  abbrev keygen : String → Effect W
  keygen path = do
    out ← cmd.run "ssh-keygen" ("-t" ∷ "rsa" ∷ "-b" ∷ "4096" ∷ "-f" ∷ path ∷ "-N" ∷ "" ∷ "-q" ∷ [])
    done

  unfoldable pub preflight : Effect (Memory W)
  preflight = on_world (host.look_path "ssh-keygen")

  unfoldable pub apply : Effect (Memory W)
  apply m = elim (files.stat (key_path m) m.world) [
    | present _ ↦ (m, ok tt)
    | absent ↦ on_world (keygen (key_path m)) m
    | stat_failed e ↦ on_world (keygen (key_path m)) m
  ]

  unfoldable pub rollback : Effect (Memory W)
  rollback m =
      on_world
        (do attempt (files.remove (key_path m)); attempt (files.remove (key_path m <> ".pub"))) m

  unfoldable pub stage : Stage (Memory W)
  stage = record {
    name = "generate-ssh-key";
    apply = apply;
    rollback = rollback;
    preflight = some preflight;
  }
