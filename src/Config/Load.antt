-- ===== src/Config/Load.antt =====
-- config/config.go: `NewDefaultConfig` and `LoadConfig`.
use easyshift.Base.{
  String, ◌<>◌, List, [], ◌∷◌, ◌≡◌, Bool, false, Option, none, some, arith, inl, inr, ◌∙◌,
}
use easyshift.Base.Int.{ℤ, pos}
use easyshift.Base.Dict.{Dict}
use easyshift.Base.Action.{
  Result, ok, err, Action, Effect, ◌>>=◌, ◌>>◌, pure, fail, wrap, map_err-eq-ok, Result-cases,
}
use easyshift.Interfaces.Os.{Files, IsLawful, ReadResult, contents, missing, unreadable, join_path}
use easyshift.Config.Types.{ClusterConfig, GlobalState}
use easyshift.Config.Constants.{default_log_file, default_web_port}
use easyshift.Config.Memory.{Snapshot, config_file, Memory, save, snapshot, Disk}

-- What `json.Unmarshal` makes of a document: maps and the state itself may be nil.
pub record ParsedState : Type 0 where
  pub used_ips : Option (Dict Bool)
  pub used_macs : Option (Dict Bool)
  pub active_cluster : String

pub record Parsed : Type 0 where
  pub config_dir : String
  pub log_file : String
  pub web_port : ℤ
  pub debug : Bool
  pub clusters : List ClusterConfig
  pub global_state : Option ParsedState

-- `encoding/json` at `Config`. Fields that the document lacks keep the values of the config that
-- is decoded into.
pub record ConfigCodec : Type 0 where
  pub marshal : Snapshot → Result String
  pub unmarshal : Snapshot → String → Result Parsed

abbrev empty_state : GlobalState
empty_state = record { used_ips = []; used_macs = []; active_cluster = "" }

unfoldable pub new_default_config : String → Snapshot
new_default_config dir = record {
  config_dir = dir;
  log_file = join_path (dir ∷ default_log_file ∷ []);
  web_port = pos default_web_port;
  debug = false;
  clusters = [];
  global_state = empty_state;
}

abbrev non_nil : Option (Dict Bool) → Dict Bool
non_nil none = []
non_nil (some m) = m

abbrev state_of : Option ParsedState → GlobalState
state_of none = empty_state
state_of (some s) = record {
  used_ips = non_nil s.used_ips;
  used_macs = non_nil s.used_macs;
  active_cluster = s.active_cluster;
}

abbrev normalise : Parsed → Snapshot
normalise p = record {
  config_dir = p.config_dir;
  log_file = p.log_file;
  web_port = p.web_port;
  debug = p.debug;
  clusters = p.clusters;
  global_state = state_of p.global_state;
}

-- What a config that was saved is read back as: nothing in it is nil.
abbrev pub as_parsed : Snapshot → Parsed
as_parsed s = record {
  config_dir = s.config_dir;
  log_file = s.log_file;
  web_port = s.web_port;
  debug = s.debug;
  clusters = s.clusters;
  global_state = some (record {
    used_ips = some s.global_state.used_ips;
    used_macs = some s.global_state.used_macs;
    active_cluster = s.global_state.active_cluster;
  });
}

-- What was marshalled parses to the same value, when it is decoded into a default config, whose maps
-- are empty.
abbrev pub RoundTrips : ConfigCodec → Type 0
RoundTrips codec =
    (s : Snapshot) (dir text : String)
    → codec.marshal s ≡ ok text
    → codec.unmarshal (new_default_config dir) text ≡ ok (as_parsed s)

module _ {W : Type 0} (files : Files W) (codec : ConfigCodec) where
  abbrev encoded : Result String → Action W String
  encoded (ok text) = pure text
  encoded (err e) = fail ("marshal config: " <> e)

  -- `cfg.Save()` of a config that no pointer shares yet.
  write_snapshot : Snapshot → Effect W
  write_snapshot s = do
    text ← encoded (codec.marshal s)
    wrap (λ e. "write config: " <> e) (files.write_file (config_file s.config_dir) text)

  abbrev decoded : Result Parsed → Action W Snapshot
  decoded (ok p) = pure (normalise p)
  decoded (err e) = fail ("parse config: " <> e)

  abbrev read_config : String → ReadResult → Action W Snapshot
  read_config dir (contents text) = decoded (codec.unmarshal (new_default_config dir) text)
  read_config dir missing = do
    wrap (λ e. "write default config: " <> e) (write_snapshot (new_default_config dir))
    pure (new_default_config dir)
  read_config dir (unreadable e) = fail ("read config: " <> e)

  unfoldable pub load_config : String → Action W Snapshot
  unfolding write_snapshot
  load_config dir = do
    wrap (λ e. "create config dir: " <> e) (files.mkdir_all dir)
    found ← (λ w. (w, ok (files.read_file (config_file dir) w)))
    read_config dir found

-- What a save that succeeded leaves in config.json.
saved_text :
    {W : Type 0} (disk : Disk W) (m : Memory W)
    → IsLawful disk.files
    → (save disk m).1 ≡ ok tt
    → (text : String) × (disk.marshal (snapshot m) ≡ ok text)
      × (disk.files.read_file (config_file m.config.config_dir) (save disk m).0.world
          ≡ contents text)
unfolding save
saved_text disk m lawful h = elim (Result-cases (disk.marshal (snapshot m))) [
  | inl (text, e) ↦ (
    text,
    e,
    rw e (
        lawful.read-write _ text m.world (
          map_err-eq-ok _ (disk.files.write_file (config_file m.config.config_dir) text m.world).1
            (rw e at h))),
  )
  | inr (e, f) ↦ absurd (cc (rw f at h))
]

load_text :
    {W : Type 0} (files : Files W) (codec : ConfigCodec) (dir : String) (w : W) {text : String}
    {p : Parsed}
    → (files.mkdir_all dir w).1 ≡ ok tt
    → files.read_file (config_file dir) (files.mkdir_all dir w).0 ≡ contents text
    → codec.unmarshal (new_default_config dir) text ≡ ok p
    → load_config files codec dir w ≡ ((files.mkdir_all dir w).0, ok (normalise p))
unfolding load_config
load_text files codec dir w made found parsed = ground arith

-- `LoadConfig` after a `Save` that succeeded gives the config that was saved, if no failure of the
-- disk comes between and making the directory leaves the file alone.
pub load-save :
    {W : Type 0} (files : Files W) (codec : ConfigCodec) (m : Memory W)
    → IsLawful files
    → RoundTrips codec
    → let dir = m.config.config_dir in
      let w = (save (record { files = files; marshal = codec.marshal }) m).0.world in
      (save (record { files = files; marshal = codec.marshal }) m).1 ≡ ok tt
      → (files.mkdir_all dir w).1 ≡ ok tt
      → files.read_file (config_file dir) (files.mkdir_all dir w).0
        ≡ files.read_file (config_file dir) w
      → load_config files codec dir w ≡ ((files.mkdir_all dir w).0, ok (snapshot m))
load-save files codec m lawful trips saved made kept =
    let (text, e, f) =
      saved_text (record { files = files; marshal = codec.marshal }) m lawful saved in
    load_text files codec m.config.config_dir _ made (kept ∙ f) (trips (snapshot m) _ text e)
