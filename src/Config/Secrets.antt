-- ===== src/Config/Secrets.antt =====
-- config/paths.go and config/pullsecret.go: the secrets on disk, and where certificates and the baked
-- image store lie. The parser of JSON is a parameter: it gives the keys of an object.
use easyshift.Base.{String, ◌<>◌, Bool, List, [], ◌∷◌, if◌then◌else◌}
use easyshift.Base.Lists.{contains}
use easyshift.Base.Text.{trim_space}
use easyshift.Base.Action.{Result, ok, err, Action, Effect, ◌>>=◌, ◌>>◌, pure, wrap, require}
use easyshift.Interfaces.Os.{Files, join_path, ReadResult, contents, missing, unreadable}
use easyshift.Config.Paths.{dns_token_path, pull_secret_path, image_store_cache_dir}

abbrev pub image_store_overlay_dir : String → String → String
image_store_overlay_dir dir version = join_path (image_store_cache_dir dir version ∷ "store" ∷ [])

abbrev pub mke2fs_candidates : List String
mke2fs_candidates =
    "mke2fs" ∷ "/opt/homebrew/opt/e2fsprogs/sbin/mke2fs" ∷ "/usr/local/opt/e2fsprogs/sbin/mke2fs"
    ∷ []

abbrev pub acme_account_dir : String → String → Bool → String
acme_account_dir dir provider staging =
    join_path (dir ∷ "acme" ∷ provider ∷ (if staging then "staging" else "prod") ∷ [])

abbrev pub local_ca_dir : String → String
local_ca_dir dir = join_path (dir ∷ "ca" ∷ [])

abbrev pub local_ca_cert_path : String → String
local_ca_cert_path dir = join_path (local_ca_dir dir ∷ "ca.crt" ∷ [])

abbrev pub local_ca_trusted_marker_path : String → String
local_ca_trusted_marker_path dir = join_path (local_ca_dir dir ∷ "trusted" ∷ [])

-- `os.ReadFile` as an action. The text of the error for a missing file is the system's.
abbrev pub read_result : String → ReadResult → Result String
read_result path (contents text) = ok text
read_result path missing = err ("open " <> (path <> ": no such file or directory"))
read_result path (unreadable e) = err e

module _ {W : Type 0} (files : Files W) where
  abbrev pub read : String → Action W String
  read path w = (w, read_result path (files.read_file path w))

  unfoldable pub read_dns_token : String → String → Action W String
  read_dns_token dir provider = do
    text ← wrap (λ e. "read dns token: " <> e) (read (dns_token_path dir provider))
    pure (trim_space text)

  unfoldable pub read_pull_secret : String → Action W String
  read_pull_secret dir = do
    text ← wrap (λ e. "read pull secret: " <> e) (read (pull_secret_path dir))
    pure (trim_space text)

  unfoldable pub write_pull_secret : String → String → Effect W
  write_pull_secret dir text = do
    wrap (λ e. "create config dir: " <> e) (files.mkdir_all dir)
    files.write_file (pull_secret_path dir) text

  module _ (json_keys : String → Result (List String)) where
    abbrev parsed : String → Action W (List String)
    parsed text w = (w, json_keys text)

    unfoldable pub validate_pull_secret_bytes : String → Effect W
    validate_pull_secret_bytes text = do
      keys ← wrap (λ e. "pull secret is not valid JSON: " <> e) (parsed text)
      require (contains keys "auths")
          "pull secret is missing required 'auths' key (download a fresh secret from console.redhat.com)"

    unfoldable pub validate_pull_secret_json : String → Effect W
    unfolding validate_pull_secret_bytes
    validate_pull_secret_json dir = do
      text ← wrap (λ e. "read pull secret: " <> e) (read (pull_secret_path dir))
      validate_pull_secret_bytes text
