-- ===== src/Manager/Status/Agreement.antt =====
-- The two checks of a cluster's records: the preflight of generate-ignition and `easyshift status`.
use easyshift.Base.{
  String, ◌≡◌, refl, Bool, true, false, ◌&&◌, List, [], ◌∷◌, ◌++◌, arith, ap, sym, ◌∙◌,
}
use easyshift.Base.Action.{Result, ok, err}
use easyshift.Interfaces.Providers.{VmManager, HostInspector, DnsResolver}
use easyshift.Config.Types.{ClusterConfig}
use easyshift.Config.Cluster.{fqdn}
use easyshift.Config.Paths.{cluster_dns_names}
use easyshift.Manager.Status.{record_faults, faults, dns_verdict, check_dns}
use easyshift.Stages.Ignition.{problem, problems, dns_outcome, check_bridge_mode_dns}

abbrev none_left : List String → Bool
none_left [] = true
none_left (x ∷ xs) = false

none_left-append : (xs ys : List String) → none_left (xs ++ ys) ≡ (none_left xs && none_left ys)
none_left-append [] ys = refl
none_left-append (x ∷ xs) ys = refl

-- Did the check pass?
abbrev pub passes : Result (Unit {0}) → Bool
passes (ok _) = true
passes (err e) = false

module _ {W : Type 0} (vm : VmManager W) (host : HostInspector W) (dns : DnsResolver W) where
  same_name :
      (ip name : String) (r : Result (List String))
      → none_left (problem dns ip name r) ≡ none_left (record_faults vm host dns ip name r)
  same_name ip name (err e) = refl
  same_name ip name (ok []) = refl
  same_name ip name (ok (i ∷ is)) = ground arith

  same_names :
      (ip : String) (names : List String) (w : W)
      → ((problems dns ip names w).0 ≡ (faults vm host dns ip names w).0)
        × (none_left (problems dns ip names w).1 ≡ none_left (faults vm host dns ip names w).1)
  unfolding problems faults
  same_names ip [] w = (refl, refl)
  same_names ip (name ∷ names) w =
      let r = dns.resolve name w in
      let rest = same_names ip names r.0 in
      (
        rest.0,
        none_left-append (problem dns ip name r.1) (problems dns ip names r.0).1
            ∙ (ap (λ b. b && none_left (problems dns ip names r.0).1) (same_name ip name r.1)
                ∙ (ap (λ b. none_left (record_faults vm host dns ip name r.1) && b) rest.1
                    ∙ sym (
                        none_left-append (record_faults vm host dns ip name r.1)
                          (faults vm host dns ip names r.0).1))),
      )

  outcome-none_left :
      (name ip : String) (bad : List String) → passes (dns_outcome dns name ip bad) ≡ none_left bad
  outcome-none_left name ip [] = refl
  outcome-none_left name ip (q ∷ qs) = refl

  verdict-none_left :
      (ip : String) (bad : List String) → (dns_verdict vm host dns ip bad).passed ≡ none_left bad
  verdict-none_left ip [] = refl
  verdict-none_left ip (q ∷ qs) = refl

  -- The preflight of generate-ignition and the check of `easyshift status` agree: they make the same
  -- lookups in the same order, and one passes exactly if the other does.
  pub check_bridge_mode_dns-check_dns :
      (c : ClusterConfig) (w : W)
      → ((check_bridge_mode_dns dns c w).0 ≡ (check_dns vm host dns c (fqdn c) w).0)
        × (passes (check_bridge_mode_dns dns c w).1 ≡ (check_dns vm host dns c (fqdn c) w).1.passed)
  unfolding check_bridge_mode_dns check_dns
  check_bridge_mode_dns-check_dns c w =
      let same = same_names c.master_ip (cluster_dns_names (fqdn c)) w in
      (
        same.0,
        outcome-none_left (fqdn c) c.master_ip _ ∙ (same.1 ∙ sym (verdict-none_left c.master_ip _)),
      )
