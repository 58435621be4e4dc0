-- ===== src/Interfaces/Os.antt =====
-- What the program calls of Go's packages `os`, `time` and `encoding/json`. The file system is a
-- parameter: these are its operations, with the documented behaviour the theorems rely on.
use easyshift.Base.{ℕ, String, ◌≡◌, Option, List, [], ◌∷◌, ◌<>◌}
use easyshift.Base.{◌==◌, if◌then◌else◌}
use easyshift.Base.Action.{Error, Result, ok, Effect}

-- `os.ReadFile`: `missing` is an error that is `os.ErrNotExist`.
pub data ReadResult : Type 0 where
  contents : String → ReadResult
  missing : ReadResult
  unreadable : Error → ReadResult

-- `os.Stat`
pub data StatResult : Type 0 where
  present : ℕ → StatResult  -- the size
  absent : StatResult
  stat_failed : Error → StatResult

pub record Files (S : Type 0) : Type 0 where
  pub read_file : String → S → ReadResult
  pub stat : String → S → StatResult
  pub write_file : String → String → Effect S
  pub mkdir_all : String → Effect S
  pub remove : String → Effect S
  pub remove_all : String → Effect S

-- A file that was written reads back as it was written.
pub record IsLawful {S : Type 0} (files : Files S) : Type 0 where
  pub read-write :
      (path data' : String) (s : S)
      → (files.write_file path data' s).1 ≡ ok tt
      → files.read_file path (files.write_file path data' s).0 ≡ ReadResult.contents data'

-- `time.Now`, and the `select` between `ctx.Done` and `time.After`: it gives the context's error if
-- that ended the wait.
pub record Clock (W : Type 0) : Type 0 where
  pub now : W → ℕ
  pub wait : ℕ → W → W × Option Error

-- `json.MarshalIndent` and `json.Unmarshal` at one type.
pub record Codec (A : Type 0) : Type 0 where
  pub marshal : A → Result String
  pub unmarshal : String → Result A

-- What was marshalled parses to the same value.
abbrev pub RoundTrips : {A : Type 0} → Codec A → Type 0
RoundTrips {A} codec =
    (a : A) (text : String) → codec.marshal a ≡ ok text → codec.unmarshal text ≡ ok a

-- `filepath.Join` of elements that are clean (no `.`, `..` or doubled slash): empty ones are left out.
unfoldable pub join_path : List String → String
join_path [] = ""
join_path (p ∷ ps) =
    let rest = join_path ps in
    if p == "" then rest else if rest == "" then p else p <> ("/" <> rest)
