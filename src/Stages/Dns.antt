-- ===== src/Stages/Dns.antt =====
-- stages/upsertdns: the public DNS records of a cluster.
use easyshift.Base.{some, ◌==◌, if◌then◌else◌}
use easyshift.Base.Action.{ok, Effect}
use easyshift.Interfaces.Os.{Files}
use easyshift.Interfaces.Stage.{Stage}
use easyshift.Interfaces.Providers.{DnsManager}
use easyshift.Config.Types.{Pointer}
use easyshift.Config.Memory.{Memory, on_world}
use easyshift.Config.Cluster.{dns_zone_or_domain, fqdn}
use easyshift.Config.Paths.{ensure_dns_token}

module _ {W : Type 0} (files : Files W) (dns : DnsManager W) (p : Pointer) where
  unfoldable pub preflight : Effect (Memory W)
  preflight m =
      if (m.heap p).dns_provider == ""
      then (m, ok tt)
      else on_world (ensure_dns_token files m.config.config_dir (m.heap p).dns_provider) m

  unfoldable pub apply : Effect (Memory W)
  apply m =
      let c = m.heap p in
      if c.dns_provider == ""
      then (m, ok tt)
      else on_world (dns.upsert (dns_zone_or_domain c) (fqdn c) c.master_ip) m

  unfoldable pub rollback : Effect (Memory W)
  rollback m =
      let c = m.heap p in
      if c.dns_provider == ""
      then (m, ok tt)
      else on_world (dns.delete (dns_zone_or_domain c) (fqdn c)) m

  unfoldable pub stage : Stage (Memory W)
  stage = record {
    name = "upsert-dns";
    apply = apply;
    rollback = rollback;
    preflight = some preflight;
  }
