-- ===== src/Runner/State.antt =====
-- What `loadState` reads back of what `saveState` wrote, and what one round of a loop leaves.
use easyshift.Base.{String, ◌≡◌, arith}
use easyshift.Base.Action.{ok}
use easyshift.Interfaces.Os.{Files, Codec, IsLawful, RoundTrips}
use easyshift.Interfaces.Stage.{ClusterState}
use easyshift.Runner.{Applied, state_path, load_state, save_state}

-- What is loaded depends on the file alone.
pub load_state-read :
    {S : Type 0} (files : Files S) (codec : Codec ClusterState) (config_dir name : String) (s t : S)
    → files.read_file (state_path files codec config_dir name) s
      ≡ files.read_file (state_path files codec config_dir name) t
    → load_state files codec config_dir name s ≡ load_state files codec config_dir name t
unfolding load_state
load_state-read files codec config_dir name s t h = rw h

module _ {S : Type 0} (files : Files S) (codec : Codec ClusterState) (config_dir : String)
    (lawful : IsLawful files) (trips : RoundTrips codec) where
  -- A state that was saved is the one that is loaded.
  pub load-save :
      (name : String) (state : Applied) (s : S)
      → (save_state files codec config_dir name state s).1 ≡ ok tt
      → load_state files codec config_dir name (save_state files codec config_dir name state s).0
        ≡ ok state
  unfolding save_state load_state
  load-save name state s h = grind (arith, trips, lawful.read-write)
