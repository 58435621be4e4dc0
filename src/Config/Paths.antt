-- ===== src/Config/Paths.antt =====
-- config/paths.go: where things lie under the config directory. `darwin` is `runtime.GOOS == "darwin"`.
use easyshift.Base.{String, ◌<>◌, Bool, List, [], ◌∷◌, ◌==◌, if◌then◌else◌}
use easyshift.Base.Text.{split_at, trim_space, join}
use easyshift.Base.Action.{ok, err, Effect, ◌>>◌, wrap, fail}
use easyshift.Interfaces.Os.{join_path, Files, present, absent, stat_failed}

abbrev pub cluster_dir : String → String → String
cluster_dir dir name = join_path (dir ∷ "clusters" ∷ name ∷ [])

abbrev pub binaries_dir : String → String → String
binaries_dir dir version = join_path (dir ∷ "bin" ∷ version ∷ [])

abbrev pub rhcos_cache_dir : String → String → String
rhcos_cache_dir dir version = join_path (dir ∷ "rhcos" ∷ version ∷ [])

abbrev pub image_store_cache_dir : String → String → String
image_store_cache_dir dir version = join_path (dir ∷ "imagestore" ∷ version ∷ [])

abbrev pub image_store_disk_ext : Bool → String
image_store_disk_ext darwin = if darwin then "img" else "qcow2"

abbrev pub image_store_disk_path : Bool → String → String → String
image_store_disk_path darwin dir version =
    join_path (image_store_cache_dir dir version ∷ ("store." <> image_store_disk_ext darwin) ∷ [])

abbrev pub image_store_vol_name : Bool → String → String
image_store_vol_name darwin name =
    "easyshift-" <> (name <> ("-imagestore." <> image_store_disk_ext darwin))

abbrev pub odf_vol_name : Bool → String → String
odf_vol_name darwin name = "easyshift-" <> (name <> ("-odf." <> image_store_disk_ext darwin))

channel_of : String → List String → String
channel_of v (major ∷ minor ∷ rest) = "stable-" <> join (major ∷ minor ∷ []) "."
channel_of v _ = "stable-" <> v

unfoldable pub olm_channel_for_version : String → String
unfolding channel_of
olm_channel_for_version v = channel_of v (split_at "." v)

unfoldable pub cluster_dns_names : String → List String
cluster_dns_names fqdn =
    ("api." <> fqdn) ∷ ("api-int." <> fqdn) ∷ ("console-openshift-console.apps." <> fqdn) ∷ []

abbrev pub dns_token_path : String → String → String
dns_token_path dir provider = join_path (dir ∷ (provider <> "-token") ∷ [])

abbrev pub pull_secret_path : String → String
pull_secret_path dir = join_path (dir ∷ "pull-secret" ∷ [])

module _ {W : Type 0} (files : Files W) where
  unfoldable pub ensure_dns_token : String → String → Effect W
  ensure_dns_token dir provider w = elim (files.stat (dns_token_path dir provider) w) [
    | present _ ↦ (w, ok tt)
    | absent ↦ (
      w,
      err (
          "no token for dns provider \""
          <> (provider
              <> ("\" at "
                  <> (dns_token_path dir provider
                      <> ("; set it with: easyshift dns set " <> (provider <> " <file>")))))),
    )
    | stat_failed e ↦ (w, err e)
  ]

  unfoldable pub write_dns_token : String → String → String → Effect W
  write_dns_token dir provider text =
      let token = trim_space text in
      if token == "" then fail "dns token is empty" else do
        wrap (λ e. "create config dir: " <> e) (files.mkdir_all dir)
        files.write_file (dns_token_path dir provider) token

  unfoldable pub ensure_pull_secret : String → Effect W
  ensure_pull_secret dir w = elim (files.stat (pull_secret_path dir) w) [
    | present _ ↦ (w, ok tt)
    | absent ↦ (
      w,
      err (
          "pull secret not configured: run `easyshift pull-secret login` (or `easyshift pull-secret set <file>`) first (expected at "
          <> (pull_secret_path dir <> ")")),
    )
    | stat_failed e ↦ (w, err ("stat pull secret " <> (pull_secret_path dir <> (": " <> e))))
  ]
