-- ===== src/Manager/Validate/NatDns.antt =====
-- What upsert-dns publishes for the clusters in NAT mode that the manager accepts.
use easyshift.Base.{◌∙◌, ℕ, ◌≡◌, false, ◌==◌, inl, inr}
use easyshift.Base.Text.{Net}
use easyshift.Base.Action.{ok}
use easyshift.Interfaces.Os.{Files}
use easyshift.Interfaces.Providers.{DnsManager}
use easyshift.Config.Types.{ClusterConfig, Pointer}
use easyshift.Config.Constants.{network_mode_nat}
use easyshift.Config.Memory.{Memory, on_world}
use easyshift.Config.Cluster.{dns_zone_or_domain, fqdn}
use easyshift.Manager.Validate.{validate_new}
use easyshift.Manager.Validate.Accepts.{Network, validate_new-ok}
use easyshift.Stages.Dns

nat_ip :
    (net : Net) (c : ClusterConfig)
    → c.network_mode ≡ network_mode_nat
    → Network net c
    → c.master_ip ≡ ""
nat_ip net c mode (inl (_, (_, _, ip, _, _, _))) = ip
nat_ip net c mode (inr (bridge, _)) = absurd (cc (bridge, mode))

-- For a cluster that the manager accepted in NAT mode, with a DNS provider, the stage publishes the
-- empty address, whatever addresses the cluster has got since, if its master_ip is as it was.
pub accepted_nat-apply :
    {W : Type 0} (net : Net) (files : Files W) (dns : DnsManager W) (p : Pointer) (known : ℕ)
    (c : ClusterConfig) (m : Memory W)
    → validate_new net known c ≡ ok tt
    → c.network_mode ≡ network_mode_nat
    → (m.heap p).master_ip ≡ c.master_ip
    → ((m.heap p).dns_provider == "") ≡ false
    → Dns.apply files dns p m
      ≡ on_world (dns.upsert (dns_zone_or_domain (m.heap p)) (fqdn (m.heap p)) "") m
unfolding Dns.apply
accepted_nat-apply net files dns p known c m accepted mode same provider =
    let (_, _, _, mode_ok, _) = (validate_new-ok net known c).0 accepted in
    let empty = same ∙ nat_ip net c mode mode_ok in rw (provider, empty)
