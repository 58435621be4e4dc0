-- ===== src/Config/Memory.antt =====
-- The memory of the process: the one `Config`, the clusters that pointers lead to, and the world
-- outside. `Config.Save` and the reads and writes through a pointer.
use easyshift.Base.{String, ◌<>◌, List, [], ◌∷◌, map, ◌≡◌, refl, Bool, arith, eqb, if◌then◌else◌}
use easyshift.Base.Action.{Result, ok, err, Action, Effect, ◌>>=◌, pure, fail, wrap}
use easyshift.Base.Int.{ℤ}
use easyshift.Interfaces.Os.{Files, join_path}
use easyshift.Config.Types.{ClusterConfig, GlobalState, Config, Pointer}

pub record Memory (W : Type 0) : Type 0 where
  pub heap : Pointer → ClusterConfig
  pub config : Config
  pub world : W

-- A write through a pointer.
abbrev pub assign : (Pointer → ClusterConfig) → Pointer → ClusterConfig → Pointer → ClusterConfig
assign heap p c q = if eqb p q then c else heap q

pub assign_self :
    (heap : Pointer → ClusterConfig) (p : Pointer) (c : ClusterConfig) → assign heap p c p ≡ c
assign_self heap p c = ground arith

module _ {W : Type 0} where
  -- An action of an interface, which sees the world alone.
  abbrev pub on_world : {A : Type 0} → Action W A → Action (Memory W) A
  on_world act m = let (w, r) = act m.world in (record m { world = w }, r)

  abbrev pub change : Pointer → (ClusterConfig → ClusterConfig) → Effect (Memory W)
  change p f m = (record m { heap = assign m.heap p (f (m.heap p)) }, ok tt)

  abbrev pub change_config : (Config → Config) → Effect (Memory W)
  change_config f m = (record m { config = f m.config }, ok tt)

  -- The clusters of the config, as they are now.
  abbrev pub registered : Memory W → List ClusterConfig
  registered m = map m.heap m.config.clusters

-- What config.json holds: the config with each cluster in the place of its pointer.
pub record Snapshot : Type 0 where
  pub config_dir : String
  pub log_file : String
  pub web_port : ℤ
  pub debug : Bool
  pub clusters : List ClusterConfig
  pub global_state : GlobalState

abbrev pub snapshot : {W : Type 0} → Memory W → Snapshot
snapshot m = record {
  config_dir = m.config.config_dir;
  log_file = m.config.log_file;
  web_port = m.config.web_port;
  debug = m.config.debug;
  clusters = registered m;
  global_state = m.config.global_state;
}

unfoldable pub config_file : String → String
config_file dir = join_path (dir ∷ "config.json" ∷ [])

abbrev marshalled : {S : Type 0} → Result String → Action S String
marshalled (ok text) = pure text
marshalled (err e) = fail ("marshal config: " <> e)

-- What saving needs: the file system and the encoder of config.json.
pub record Disk (W : Type 0) : Type 0 where
  pub files : Files W
  pub marshal : Snapshot → Result String

-- `Config.Save`
unfoldable pub save : {W : Type 0} → Disk W → Effect (Memory W)
unfolding config_file
save disk m =
    on_world
      (do
        text ← marshalled (disk.marshal (snapshot m))
        wrap (λ e. "write config: " <> e)
            (disk.files.write_file (config_file m.config.config_dir) text))
      m

-- Saving changes nothing in memory.
pub save_memory :
    {W : Type 0} (disk : Disk W) (m : Memory W)
    → ((save disk m).0.heap ≡ m.heap) × ((save disk m).0.config ≡ m.config)
unfolding save
save_memory disk m = (refl, refl)
