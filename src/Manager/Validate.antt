-- ===== src/Manager/Validate.antt =====
-- app/manager.go: the validation and the defaults of a new cluster.
pub mod Accepts
pub mod Defaults
pub mod Pvc
pub mod NatDns
use easyshift.Base.{
  ℕ, String, ◌<>◌, Bool, true, false, not, ◌&&◌, ◌||◌, List, [], ◌∷◌, Option, none, some, leb, ◌==◌,
  if◌then◌else◌,
}
use easyshift.Base.Int.{ℤ, pos, ltb_ℤ, eqb_ℤ}
use easyshift.Base.Text.{Net, split_at, trim_space}
use easyshift.Base.Action.{Error, Result, ok, err}
use easyshift.Config.Types.{ClusterConfig}
use easyshift.Config.Constants.{
  default_clusters_max, network_mode_nat, network_mode_bridge, magic_dns_auto, magic_dns_sslip,
  magic_dns_off, default_ocp_version, default_storage_pool,
}
use easyshift.Config.Cluster.{
  quoted, valid_magic_dns, validate_ip, validate_mac, derive_machine_cidr, derive_gateway,
}

-- `if c.Name == ""`
unfoldable pub validate_name : ClusterConfig → Result (Unit {0})
validate_name c = if c.name == "" then err "cluster name is required" else ok tt

-- `resolveMagicDNS`
abbrev auto_magic_dns : ClusterConfig → ClusterConfig
auto_magic_dns c =
    if c.network_mode == network_mode_nat && c.domain == ""
    then record c { magic_dns = magic_dns_sslip }
    else record c { magic_dns = "" }

unfoldable pub resolve_magic_dns : ClusterConfig → ClusterConfig
resolve_magic_dns c =
    if c.magic_dns == "" || c.magic_dns == magic_dns_auto
    then auto_magic_dns c
    else if c.magic_dns == magic_dns_off
    then record c { magic_dns = "" }
    else c

-- Go's early return: a test that refuses, before the code behind it.
abbrev pub refuse : Bool → Error → Result (Unit {0}) → Result (Unit {0})
refuse true e rest = err e
refuse false e rest = rest

-- The checks of a result and then of the code behind them.
abbrev pub then_check : Result (Unit {0}) → Result (Unit {0}) → Result (Unit {0})
then_check (ok _) rest = rest
then_check (err e) rest = err e

-- The checks on the flags of magic DNS.
unfoldable pub validate_magic : ClusterConfig → Result (Unit {0})
validate_magic c =
    refuse (not (valid_magic_dns c.magic_dns))
      ("unsupported --magic-dns "
        <> (quoted c.magic_dns <> " (want auto, off, sslip.io, or nip.io)"))
      (refuse (not (c.magic_dns == "") && not (c.dns_provider == ""))
        "--magic-dns and --dns-provider are mutually exclusive: use a wildcard service OR API-managed records, not both"
        (refuse (not (c.magic_dns == "") && not (c.domain == ""))
          "--magic-dns derives the base domain from the master IP; remove --base-domain" (ok tt)))

unfoldable pub validate_counts : ClusterConfig → Result (Unit {0})
validate_counts c =
    refuse (not (eqb_ℤ c.master_count (pos 1))) "only single-master clusters are supported" (
      refuse (not (eqb_ℤ c.worker_count (pos 0)))
        "phase 1 supports SNO only: WorkerCount must be 0 (add workers later via addnode)" (ok tt))

unfoldable pub validate_nat : ClusterConfig → Result (Unit {0})
validate_nat c = refuse (not (c.bridge == "")) "NetworkMode=nat is incompatible with --bridge" (
    refuse
      (not (c.master_mac == "")
        || not (c.master_ip == "")
        || not (c.machine_cidr == "")
        || not (c.gateway == "")
        || not (c.dns == ""))
      "NetworkMode=nat assigns MAC/IP/CIDR automatically; remove --master-mac/--master-ip/--machine-cidr/--gateway/--dns"
      (ok tt))

unfoldable pub validate_odf : ClusterConfig → Result (Unit {0})
validate_odf c =
    refuse (not c.odf && not (eqb_ℤ c.odf_disk_gb (pos 0))) "--odf-disk requires --odf" (
      refuse (c.odf && not (eqb_ℤ c.odf_disk_gb (pos 0)) && ltb_ℤ c.odf_disk_gb (pos 12))
        "--odf-disk must be at least 12 GB (a third of it, minus overhead, becomes the per-OSD volume)"
        (ok tt))

module _ (net : Net) where
  -- The loop over the entries of --dns.
  unfoldable pub validate_dns : List String → Result (Unit {0})
  validate_dns [] = ok tt
  validate_dns (entry ∷ rest) =
      let dns = trim_space entry in
      refuse (not (dns == "") && not (validate_ip net dns)) ("invalid --dns entry " <> quoted dns)
        (validate_dns rest)

  unfoldable pub valid_cidr : String → Bool
  valid_cidr s = elim (net.parse_cidr s) [ none ↦ false | some _ ↦ true ]

  unfoldable pub validate_bridge : ClusterConfig → Result (Unit {0})
  validate_bridge c =
      refuse (c.bridge == "")
        "NetworkMode=bridge requires --bridge (name of an existing host Linux bridge, e.g. br0)"
        (refuse (c.master_mac == "")
          "NetworkMode=bridge requires --master-mac (the MAC you reserved at the router)"
          (refuse (not (validate_mac net c.master_mac))
            ("invalid --master-mac " <> quoted c.master_mac)
            (refuse (c.master_ip == "")
              "NetworkMode=bridge requires --master-ip (the IP the router will reserve for --master-mac)"
              (refuse (not (validate_ip net c.master_ip))
                ("invalid --master-ip " <> quoted c.master_ip)
                (refuse (c.machine_cidr == "") "could not derive --machine-cidr; pass it explicitly"
                  (refuse (not (valid_cidr c.machine_cidr))
                    ("invalid --machine-cidr "
                      <> (quoted c.machine_cidr <> (": invalid CIDR address: " <> c.machine_cidr)))
                    (refuse (not (c.gateway == "") && not (validate_ip net c.gateway))
                      ("invalid --gateway " <> quoted c.gateway)
                      (validate_dns (split_at "," c.dns)))))))))

  unfoldable pub validate_network : ClusterConfig → Result (Unit {0})
  validate_network c =
      if c.network_mode == network_mode_nat
      then validate_nat c
      else if c.network_mode == network_mode_bridge
      then validate_bridge c
      else err (
          "invalid NetworkMode "
          <> (quoted c.network_mode
              <> (" (want "
                  <> (quoted network_mode_nat <> (" or " <> (quoted network_mode_bridge <> ")"))))))

  -- `validateNew`, where the config holds `known` clusters.
  unfoldable pub validate_new : ℕ → ClusterConfig → Result (Unit {0})
  validate_new known c =
      refuse (leb default_clusters_max known) "maximum number of clusters (3) reached" (
        then_check (validate_magic c)
          (then_check (validate_counts c) (then_check (validate_network c) (validate_odf c))))

-- The steps of `applyDefaults`, in its order.
unfoldable pub default_mode : ClusterConfig → ClusterConfig
default_mode c = if c.network_mode == "" then record c { network_mode = network_mode_nat } else c

unfoldable pub default_domain : ClusterConfig → ClusterConfig
default_domain c = if c.magic_dns == "" && c.domain == "" then record c { domain = "local" } else c

abbrev or_default : ℤ → ℕ → ℤ
or_default n d = if eqb_ℤ n (pos 0) then pos d else n

abbrev at_least : ℤ → ℕ → ℤ
at_least n d = if ltb_ℤ n (pos d) then pos d else n

abbrev text_or : String → String → String
text_or s d = if s == "" then d else s

unfoldable pub default_sizes : ClusterConfig → ClusterConfig
default_sizes c = record c {
  ocp_version = text_or c.ocp_version default_ocp_version;
  master_cpus = or_default c.master_cpus 4;
  worker_cpus = or_default c.worker_cpus 2;
  master_disk_gb = or_default c.master_disk_gb 120;
  worker_disk_gb = or_default c.worker_disk_gb 120;
}

unfoldable pub default_odf : ClusterConfig → ClusterConfig
default_odf c =
    if c.odf
    then record c {
      master_cpus = at_least c.master_cpus 8;
      master_ram = at_least c.master_ram 24576;
      odf_disk_gb = or_default c.odf_disk_gb 100;
    }
    else c

unfoldable pub default_pool : ClusterConfig → ClusterConfig
default_pool c = record c { storage_pool = text_or c.storage_pool default_storage_pool }

abbrev pub ok_or : Result String → String → String
ok_or (ok s) d = s
ok_or (err e) d = d

module _ (net : Net) where
  unfoldable pub default_cidr : ClusterConfig → ClusterConfig
  default_cidr c =
      if c.network_mode == network_mode_bridge && c.machine_cidr == "" && not (c.master_ip == "")
      then record c { machine_cidr = ok_or (derive_machine_cidr net c.master_ip) c.machine_cidr }
      else c

  unfoldable pub default_gateway : ClusterConfig → ClusterConfig
  default_gateway c =
      if c.network_mode == network_mode_bridge && c.gateway == "" && not (c.machine_cidr == "")
      then record c { gateway = ok_or (derive_gateway net c.machine_cidr) c.gateway }
      else c

  unfoldable pub apply_defaults : ClusterConfig → ClusterConfig
  apply_defaults c = default_gateway (
      default_cidr (
        default_pool
          (default_odf (default_sizes (default_domain (resolve_magic_dns (default_mode c)))))))
