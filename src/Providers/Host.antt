-- ===== src/Providers/Host.antt =====
-- providers/host: the inspection of the host on Linux (host.go, host_linux.go) and the injector of
-- the hostname (hostname.go). The file system, directories, package net and the parser of numbers
-- are parameters. The injector's loop is a sequence of attempts, one for each tick of its timer;
-- what happens between two of them is an argument.
use easyshift.Base.{
  ℕ, ◌*◌, ◌%◌, String, ◌<>◌, Bool, true, false, not, ◌||◌, List, [], ◌∷◌, ◌==◌, if◌then◌else◌,
}
use easyshift.Base.Int.{u64_mod}
use easyshift.Base.Text.{fields, has_prefix, has_substring, split_at, to_lower, trim_space}
use easyshift.Base.Action.{
  Error, Result, ok, err, map_err, Action, Effect, ◌>>◌, ◌>>=◌, pure, wrap, attempt,
}
use easyshift.Interfaces.Os.{Files, present, absent, stat_failed, join_path}
use easyshift.Interfaces.Providers.{BridgeInfo, CommandRunner, HostInspector}
use easyshift.Config.Cluster.{quoted}
use easyshift.Config.Secrets.{read}

-- `os.ReadDir`: the names of the entries.
pub data DirResult : Type 0 where
  entries : List String → DirResult
  no_dir : DirResult
  dir_failed : Error → DirResult

-- What the inspection calls of Go's packages os, os/exec, unix, net and strconv.
pub record System (W : Type 0) : Type 0 where
  pub read_dir : String → W → DirResult
  pub look_path : String → Effect W
  pub statfs : String → Action W (ℕ × ℕ)  -- the blocks that are free and their size
  pub dial : String → Effect W
  pub close : String → Effect W
  pub parse_uint : String → Result ℕ

-- The lines of /proc/meminfo. `line_kib` is the number on the line of the total.
abbrev line_kib : List String → List String
line_kib (label ∷ kib ∷ rest) = kib ∷ []
line_kib _ = []

abbrev no_mem_total : Error
no_mem_total = "MemTotal not found in /proc/meminfo"

unfoldable pub total_memory : (String → Result ℕ) → List String → Result ℕ
total_memory parse [] = err no_mem_total
total_memory parse (line ∷ lines) =
    let rest = total_memory parse lines in
    if not (has_prefix line "MemTotal:")
    then rest
    else memory_of parse line (line_kib (fields line))
  where
    scaled : Result ℕ → Result ℕ
    scaled (ok kib) = ok (kib * 1024 % u64_mod)
    scaled (err e) = err e

    memory_of : (String → Result ℕ) → String → List String → Result ℕ
    memory_of parse line [] = err no_mem_total
    memory_of parse line (kib ∷ _) =
        scaled (map_err (λ e. "parse MemTotal " <> (quoted line <> (": " <> e))) (parse kib))

-- The lines of /proc/net/arp: the first field of a line whose fourth is the MAC.
abbrev pub arp_entry : String → List String → String → String
arp_entry want (ip ∷ kind ∷ flags ∷ mac ∷ rest) other = if to_lower mac == want then ip else other
arp_entry want _ other = other

unfoldable pub arp_scan : String → List String → String
arp_scan want [] = ""
arp_scan want (line ∷ lines) = let rest = arp_scan want lines in arp_entry want (fields line) rest

-- `lines[1:]`
abbrev behind_header : List String → List String
behind_header [] = []
behind_header (header ∷ lines) = lines

module _ {W : Type 0} (files : Files W) (sys : System W) where
  -- `os.ReadFile`, with what the error is wrapped in.
  abbrev read_as : String → String → Action W String
  read_as what path = wrap (λ e. what <> (": " <> e)) (read files path)

  unfoldable pub has_cpu_virtualization : Action W Bool
  has_cpu_virtualization = do
    data' ← read_as "read /proc/cpuinfo" "/proc/cpuinfo"
    pure (
        has_substring data' " vmx "
        || has_substring data' "\tvmx "
        || has_substring data' " svm "
        || has_substring data' "\tsvm ")

  abbrev slaves_of : String → DirResult → Result (List String)
  slaves_of name (entries names) = ok names
  slaves_of name no_dir = ok []
  slaves_of name (dir_failed e) = err ("read brif for " <> (name <> (": " <> e)))

  abbrev no_bridge : BridgeInfo
  no_bridge = record { exists = false; slaves = []; up = false }

  -- A bridge that is there.
  unfoldable pub inspect_present : String → String → Action W BridgeInfo
  inspect_present base name = do
    names ← λ w. (w, slaves_of name (sys.read_dir (join_path (base ∷ "brif" ∷ [])) w))
    state ← read_as ("read operstate for " <> name) (join_path (base ∷ "operstate" ∷ []))
    pure (record { exists = true; slaves = names; up = trim_space state == "up" })

  unfoldable pub inspect_bridge : String → Action W BridgeInfo
  unfolding inspect_present
  inspect_bridge name w =
      let base = join_path ("/sys/class/net" ∷ name ∷ []) in
      elim (files.stat (join_path (base ∷ "bridge" ∷ [])) w) [
        | present size ↦ inspect_present base name w
        | absent ↦ (w, ok no_bridge)
        | stat_failed e ↦ (w, err e)
      ]

  unfoldable pub arp_lookup : String → Action W String
  unfolding arp_scan
  arp_lookup mac = do
    data' ← read_as "read /proc/net/arp" "/proc/net/arp"
    pure (arp_scan (to_lower mac) (behind_header (split_at "\n" data')))

  unfoldable pub physical_memory_bytes : Action W ℕ
  unfolding total_memory
  physical_memory_bytes = do
    data' ← read_as "read /proc/meminfo" "/proc/meminfo"
    λ w. (w, total_memory sys.parse_uint (split_at "\n" data'))

  unfoldable pub look_path : String → Effect W
  look_path name =
      wrap (λ e. "required binary " <> (quoted name <> (" not found on PATH: " <> e)))
        (sys.look_path name)

  unfoldable pub available_disk_bytes : String → Action W ℕ
  available_disk_bytes path = do
    (blocks, size) ← wrap (λ e. "statfs " <> (path <> (": " <> e))) (sys.statfs path)
    pure (blocks * size % u64_mod)

  unfoldable pub dial_tcp : String → Effect W
  dial_tcp addr = do sys.dial addr; sys.close addr

  unfoldable pub host_inspector : HostInspector W
  host_inspector = record {
    has_cpu_virtualization = has_cpu_virtualization;
    inspect_bridge = inspect_bridge;
    look_path = look_path;
    available_disk_bytes = available_disk_bytes;
    physical_memory_bytes = physical_memory_bytes;
    arp_lookup = arp_lookup;
    dial_tcp = dial_tcp;
  }

module _ {W : Type 0} (cmd : CommandRunner W) (ip ssh_key_path hostname : String) where
  -- What the master runs: it sets its hostname if that is wrong.
  unfoldable pub remote : String
  remote =
      "cur=$(hostname); if [ \"$cur\" != \""
      <> (hostname <> ("\" ]; then sudo hostnamectl set-hostname " <> (hostname <> "; fi")))

  -- A failure is logged.
  unfoldable pub try : Effect W
  unfolding remote
  try = attempt (
      cmd.run "ssh" (
        "-i"
        ∷ ssh_key_path
        ∷ "-o"
        ∷ "StrictHostKeyChecking=no"
        ∷ "-o"
        ∷ "UserKnownHostsFile=/dev/null"
        ∷ "-o"
        ∷ "ConnectTimeout=8"
        ∷ "-o"
        ∷ "LogLevel=ERROR"
        ∷ ("core@" <> ip)
        ∷ remote
        ∷ []))

  -- `Run` until its context ends: an attempt at once, and one behind each tick.
  unfoldable pub run : List (W → W) → Effect W
  unfolding try
  run [] w = try w
  run (tick ∷ ticks) w = run ticks (tick (try w).0)
