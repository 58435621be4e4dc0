-- ===== src/Manager/Status/Records.antt =====
-- `checkDNS`: when the records of a cluster are in order.
use easyshift.Base.{String, ◌≡◌, ◌↔◌, refl, true, List, [], ◌∷◌, arith}
use easyshift.Base.Lists.{contains, append-eq-nil}
use easyshift.Base.Action.{Result, ok, err}
use easyshift.Interfaces.Providers.{VmManager, HostInspector, DnsResolver}
use easyshift.Config.Types.{ClusterConfig}
use easyshift.Config.Paths.{cluster_dns_names}
use easyshift.Manager.Status.{record_faults, faults, dns_verdict, check_dns}

module _ {W : Type 0} (vm : VmManager W) (host : HostInspector W) (dns : DnsResolver W) where
  -- Each name, looked up in the world that the lookups before it left, has the address among its
  -- records.
  abbrev pub Resolve : String → List String → W → Type 0
  Resolve want [] w = Unit
  Resolve want (name ∷ names) w =
      (ips : List String) × ((dns.resolve name w).1 ≡ ok ips)
      × (contains ips want ≡ true)
      × Resolve want names (dns.resolve name w).0

  none_wrong :
      (want name : String) (r : Result (List String))
      → (record_faults vm host dns want name r ≡ [])
        ↔ ((ips : List String) × (r ≡ ok ips) × (contains ips want ≡ true))
  none_wrong want name (err e) = (λ h. absurd (cc h), λ (ips, a, b). absurd (cc a))
  none_wrong want name (ok []) = (λ h. absurd (cc h), λ (ips, a, b). ground arith)
  none_wrong want name (ok (ip ∷ ips)) =
      (λ h. (ip ∷ ips, refl, ground arith), λ (xs, a, b). ground arith)

  faults-Resolve :
      (want : String) (names : List String) (w : W)
      → ((faults vm host dns want names w).1 ≡ []) ↔ Resolve want names w
  unfolding faults
  faults-Resolve want [] w = (λ h. tt, λ h. refl)
  faults-Resolve want (name ∷ names) w = (
    λ h.
        let (a, b) =
          append-eq-nil (record_faults vm host dns want name (dns.resolve name w).1) _ h in
        let (ips, r, c) = (none_wrong want name (dns.resolve name w).1).0 a in
        (ips, r, c, (faults-Resolve want names (dns.resolve name w).0).0 b),
    λ (ips, r, c, rest).
        let a = (none_wrong want name (dns.resolve name w).1).1 (ips, r, c) in
        let b = (faults-Resolve want names (dns.resolve name w).0).1 rest in rw (a, b),
  )

  verdict_passed :
      (want : String) (bad : List String)
      → ((dns_verdict vm host dns want bad).passed ≡ true) ↔ (bad ≡ [])
  verdict_passed want [] = (λ h. refl, λ h. refl)
  verdict_passed want (f ∷ fs) = (λ h. absurd (cc h), λ h. absurd (cc h))

  -- The check of the DNS records passes exactly if each of the three names of the cluster resolves
  -- and has the master's address among its records.
  pub check_dns-Resolve :
      (c : ClusterConfig) (name : String) (w : W)
      → ((check_dns vm host dns c name w).1.passed ≡ true)
        ↔ Resolve c.master_ip (cluster_dns_names name) w
  unfolding check_dns
  check_dns-Resolve c name w =
      let passes =
        verdict_passed c.master_ip (faults vm host dns c.master_ip (cluster_dns_names name) w).1 in
      let none_bad = faults-Resolve c.master_ip (cluster_dns_names name) w in
      (λ h. none_bad.0 (passes.0 h), λ h. passes.1 (none_bad.1 h))
