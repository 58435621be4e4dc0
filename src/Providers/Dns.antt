-- ===== src/Providers/Dns.antt =====
-- providers/dns: the public records of a cluster by a provider of `libdns`, and names resolved by
-- `dig`. `libdns`, `netip.ParseAddr` and `net.ParseIP` are parameters.
pub mod Zone
use easyshift.Base.{
  String, ◌<>◌, Bool, true, false, not, ◌&&◌, ◌||◌, Option, none, some, List, [], ◌∷◌, map, ◌==◌,
  if◌then◌else◌, ℕ,
}
use easyshift.Base.Lists.{keep, contains}
use easyshift.Base.Text.{has_suffix, trim_suffix, has_substring, to_lower, split_at, trim_space, Ip}
use easyshift.Base.Action.{
  Error, Result, ok, err, Action, Effect, ◌>>=◌, ◌>>◌, pure, done, fail, wrap, require,
}
use easyshift.Interfaces.Providers.{CommandRunner, DnsResolver, DnsManager}

-- `libdns.RR`. The TTL is in seconds.
pub record Rr : Type 0 where
  pub name : String
  pub kind : String
  pub ttl : ℕ
  pub content : String

-- A `netip.Addr` by its text and the type of record that `libdns.Address` makes of it.
pub record Addr : Type 0 where
  pub text : String
  pub kind : String

pub record Libdns (W : Type 0) : Type 0 where
  pub get_records : String → Action W (List Rr)
  pub set_records : String → List Rr → Action W (List Rr)
  pub delete_records : String → List Rr → Action W (List Rr)
  pub relative_name : String → String → String
  pub parse_addr : String → Result Addr

abbrev pub dns_record_ttl : ℕ
dns_record_ttl = 300

unfoldable pub is_subdomain : String → String → Bool
is_subdomain fqdn zone =
    let f = trim_suffix fqdn "." in
    let z = trim_suffix zone "." in if f == z then false else has_suffix f ("." <> z)

unfoldable pub is_dns_not_found : Error → Bool
is_dns_not_found e =
    let s = to_lower e in has_substring s "not found" || has_substring s "no record"

abbrev outside : String → String → Error
outside fqdn zone = "fqdn \"" <> (fqdn <> ("\" must be a subdomain of zone \"" <> (zone <> "\"")))

module _ {W : Type 0} (dns : Libdns W) where
  -- The names that a cluster has in a zone.
  abbrev pub record_names : String → String → List String
  record_names zone fqdn =
      dns.relative_name ("api." <> fqdn) zone
      ∷ dns.relative_name ("api-int." <> fqdn) zone
      ∷ dns.relative_name ("*.apps." <> fqdn) zone
      ∷ []

  abbrev pub record_of : Addr → String → Rr
  record_of addr name = record {
    name = name;
    kind = addr.kind;
    ttl = dns_record_ttl;
    content = addr.text;
  }

  unfoldable pub cluster_records : String → String → Addr → Result (List Rr)
  unfolding is_subdomain
  cluster_records zone fqdn addr =
      if not (is_subdomain fqdn zone)
      then err (outside fqdn zone)
      else ok (map (record_of addr) (record_names zone fqdn))

  -- A result as an action.
  abbrev give : {A : Type 0} → Result A → Action W A
  give r w = (w, r)

  unfoldable pub upsert : String → String → String → Effect W
  unfolding cluster_records
  upsert zone fqdn ip = do
    addr ← wrap (λ e. "parse master IP \"" <> (ip <> ("\": " <> e))) (give (dns.parse_addr ip))
    records ← give (cluster_records zone fqdn addr)
    set ←
        wrap (λ e. "upsert dns records in zone " <> (zone <> (": " <> e)))
          (dns.set_records zone records)
    done

  abbrev pub is_wanted : List String → Rr → Bool
  is_wanted want r = r.kind == "A" && contains want r.name

  -- What is made of the result of `DeleteRecords`.
  abbrev pub deleted : String → W × Result (List Rr) → W × Result (Unit {0})
  deleted zone (w, ok _) = (w, ok tt)
  deleted zone (w, err e) =
      if is_dns_not_found e
      then (w, ok tt)
      else (w, err ("delete dns records in zone " <> (zone <> (": " <> e))))

  abbrev pub delete_all : String → List Rr → Effect W
  delete_all zone [] w = (w, ok tt)
  delete_all zone (r ∷ rs) w = deleted zone (dns.delete_records zone (r ∷ rs) w)

  unfoldable pub delete : String → String → Effect W
  unfolding is_subdomain is_dns_not_found
  delete zone fqdn = do
    require (is_subdomain fqdn zone) (outside fqdn zone)
    all ← wrap (λ e. "list dns records in zone " <> (zone <> (": " <> e))) (dns.get_records zone)
    delete_all zone (keep (is_wanted (record_names zone fqdn)) all)

  -- `LibDNSManager`
  unfoldable pub dns_manager : DnsManager W
  dns_manager = record { upsert = upsert; delete = delete }

-- `NewManager` up to the provider that it makes.
unfoldable pub new_manager :
    {W : Type 0} → (String → Libdns W) → String → String → Result (DnsManager W)
new_manager cloudflare provider token =
    if token == ""
    then err ("dns provider \"" <> (provider <> "\" requires a non-empty token"))
    else if provider == "cloudflare"
    then ok (dns_manager (cloudflare token))
    else err ("unsupported dns provider \"" <> (provider <> "\" (supported: cloudflare)"))

module _ (parse_ip : String → Option Ip) where
  abbrev is_ip : String → Bool
  is_ip line = elim (parse_ip line) [ none ↦ false | some _ ↦ true ]

  -- The lines that are addresses.
  unfoldable pub addresses : List String → List String
  addresses [] = []
  addresses (l ∷ ls) =
      let rest = addresses ls in
      let line = trim_space l in
      if line == "" then rest else if is_ip line then line ∷ rest else rest

  module _ {W : Type 0} (is_not_found : Error → Bool) where
    -- `DigDNSResolver.Resolve`
    unfoldable pub resolve : CommandRunner W → String → Action W (List String)
    unfolding addresses
    resolve cmd name = do
      out ←
          wrap
            (λ e.
              if is_not_found e
              then "`dig` not found on PATH: "
                <> (e <> "\n  hint: install bind-utils (Fedora/RHEL) or dnsutils (Debian/Ubuntu)")
              else "dig " <> (name <> (": " <> e)))
            (cmd.run "dig" ("+short" ∷ "+timeout=2" ∷ name ∷ []))
      pure (addresses (split_at "\n" (trim_space out)))

    unfoldable pub dig_resolver : CommandRunner W → DnsResolver W
    dig_resolver cmd = record { resolve = resolve cmd }
