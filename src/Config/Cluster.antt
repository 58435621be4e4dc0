-- ===== src/Config/Cluster.antt =====
-- config/cluster.go: what is derived from a cluster's spec.
use easyshift.Base.{
  ℕ, String, ◌+◌, ◌%◌, ◌<>◌, Bool, true, false, not, ◌||◌, List, [], ◌∷◌, none, some, ◌==◌,
  if◌then◌else◌,
}
use easyshift.Base.Text.{decimal, to_upper, replace_char, ends_with, Ip, v4, v6, Net, show_v4}
use easyshift.Base.Action.{Result, ok, err}
use easyshift.Config.Types.{ClusterConfig}
use easyshift.Config.Constants.{magic_dns_sslip, magic_dns_nip}

unfoldable pub master_hostname : ClusterConfig → String
master_hostname c = "master-0." <> (c.name <> ("." <> c.domain))

unfoldable pub fqdn : ClusterConfig → String
fqdn c = c.name <> ("." <> c.domain)

abbrev first_or_empty : List String → String
first_or_empty [] = ""
first_or_empty (x ∷ xs) = x

unfoldable pub primary_master_ip : ClusterConfig → String
primary_master_ip c = if not (c.master_ip == "") then c.master_ip else first_or_empty c.ip_addresses

unfoldable pub primary_master_mac : ClusterConfig → String
primary_master_mac c =
    if not (c.master_mac == "") then c.master_mac else first_or_empty c.mac_addresses

unfoldable pub magic_domain : String → String → String
magic_domain ip service = ip <> ("." <> service)

unfoldable pub valid_magic_dns : String → Bool
valid_magic_dns s = s == "" || s == magic_dns_sslip || s == magic_dns_nip

unfoldable pub dns_zone_or_domain : ClusterConfig → String
dns_zone_or_domain c = if not (c.dns_zone == "") then c.dns_zone else c.domain

-- `%q` of a text without characters to escape.
unfoldable pub quoted : String → String
quoted s = "\"" <> (s <> "\"")

module _ (net : Net) where
  unfoldable pub validate_ip : String → Bool
  validate_ip s = elim (net.parse_ip s) [ none ↦ false | some _ ↦ true ]

  unfoldable pub validate_mac : String → Bool
  validate_mac s = net.parse_mac s

  abbrev cidr_of : String → Ip → Result String
  cidr_of s (v4 a b c d) = ok (decimal a <> ("." <> (decimal b <> ("." <> (decimal c <> ".0/24")))))
  cidr_of s (v6 _) = err ("not an IPv4 address: " <> quoted s)

  unfoldable pub derive_machine_cidr : String → Result String
  unfolding quoted
  derive_machine_cidr s = elim (net.parse_ip s) [
    | none ↦ err ("invalid IP " <> quoted s)
    | some ip ↦ cidr_of s ip
  ]

  -- `gw[3]++` on a byte
  abbrev gateway_of : String → Ip → Result String
  gateway_of s (v4 a b c d) = ok (show_v4 a b c ((d + 1) % 256))
  gateway_of s (v6 _) = err ("not an IPv4 CIDR: " <> quoted s)

  -- The error that `net.ParseCIDR` adds behind the colon is its own.
  unfoldable pub derive_gateway : String → Result String
  unfolding quoted
  derive_gateway s = elim (net.parse_cidr s) [
    | none ↦ err ("invalid CIDR " <> (quoted s <> ": invalid CIDR address: " <> s))
    | some (ip, _) ↦ gateway_of s ip
  ]

  unfoldable pub prefix_len : String → Result ℕ
  unfolding quoted
  prefix_len s = elim (net.parse_cidr s) [
    | none ↦ err ("invalid CIDR " <> (quoted s <> ": invalid CIDR address: " <> s))
    | some (_, ones) ↦ ok ones
  ]

  abbrev gateway_or_derived : ClusterConfig → Result String
  gateway_or_derived c = if c.gateway == "" then derive_gateway c.machine_cidr else ok c.gateway

  -- `dns=` wants semicolons, also behind the last server.
  unfoldable pub dns_field : String → String
  dns_field dns =
      let field = replace_char "," ";" dns in if ends_with ";" field then field else field <> ";"

  abbrev keyfile_text : String → String → String → ℕ → String → String → String
  keyfile_text name mac ip prefix gateway dns =
      "[connection]\nid=master-0-"
      <> (name
          <> ("\ntype=ethernet\nautoconnect=true\nautoconnect-priority=999\n\n[ethernet]\nmac-address="
              <> (to_upper mac
                  <> ("\n\n[ipv4]\nmethod=manual\naddress1="
                      <> (ip
                          <> ("/"
                              <> (decimal prefix
                                  <> (","
                                      <> (gateway
                                          <> ("\ndns="
                                              <> (dns_field dns
                                                  <> "\nmay-fail=false\n\n[ipv6]\nmethod=disabled\n")))))))))))

  abbrev keyfile_with : ClusterConfig → String → String → ℕ → Result String → Result String
  keyfile_with c mac ip prefix (ok gateway) =
      ok (keyfile_text c.name mac ip prefix gateway (if c.dns == "" then gateway else c.dns))
  keyfile_with c mac ip prefix (err e) = err e

  abbrev keyfile_at : ClusterConfig → String → String → Result ℕ → Result String
  keyfile_at c mac ip (ok prefix) = keyfile_with c mac ip prefix (gateway_or_derived c)
  keyfile_at c mac ip (err e) = err e

  unfoldable pub static_network_keyfile : ClusterConfig → Result String
  static_network_keyfile c =
      let mac = primary_master_mac c in
      let ip = primary_master_ip c in
      if mac == "" || ip == ""
      then err "static network keyfile needs both master MAC and IP"
      else keyfile_at c mac ip (prefix_len c.machine_cidr)
