-- ===== src/Manager/Validate/Accepts.antt =====
-- `validateNew`: exactly which specs it accepts.
use easyshift.Base.{
  ℕ, String, ◌≡◌, ◌≢◌, ◌↔◌, ◌⊎◌, inl, inr, ◌<◌, ◌≤◌, refl, true, false, List, [], ◌∷◌, arith,
  eq_iff,
}
use easyshift.Base.Int.{ℤ, pos, negsuc, ltb_ℤ, eqb_ℤ}
use easyshift.Base.Lists.{All}
use easyshift.Base.Text.{Net, split_at, trim_space}
use easyshift.Base.Action.{ok}
use easyshift.Config.Types.{ClusterConfig}
use easyshift.Config.Constants.{
  network_mode_nat, network_mode_bridge, magic_dns_sslip, magic_dns_nip,
}
use easyshift.Config.Cluster.{valid_magic_dns, validate_ip, validate_mac}
use easyshift.Manager.Validate.{
  validate_magic, validate_counts, validate_nat, validate_dns, valid_cidr, validate_bridge,
  validate_network, validate_odf, validate_new,
}

-- Magic DNS is off, or it is a known service and the flags it excludes are not given.
abbrev pub Magic : ClusterConfig → Type 0
Magic c =
    (c.magic_dns ≡ "")
    ⊎ (((c.magic_dns ≡ magic_dns_sslip) ⊎ (c.magic_dns ≡ magic_dns_nip))
        × (c.dns_provider ≡ "")
        × (c.domain ≡ ""))

abbrev pub Nat : ClusterConfig → Type 0
Nat c =
    (c.bridge ≡ "")
    × (c.master_mac ≡ "")
    × (c.master_ip ≡ "")
    × (c.machine_cidr ≡ "")
    × (c.gateway ≡ "")
    × (c.dns ≡ "")

-- A size of the ODF disk goes with ODF alone, and then it is at least 12 GB or left open.
abbrev pub Odf : ClusterConfig → Type 0
Odf c = (c.odf_disk_gb ≡ pos 0) ⊎ ((c.odf ≡ true) × (n : ℕ) × (c.odf_disk_gb ≡ pos n) × (12 ≤ n))

validate_magic-ok : (c : ClusterConfig) → (validate_magic c ≡ ok tt) ↔ Magic c
unfolding validate_magic valid_magic_dns
validate_magic-ok c = (
  λ h. ground (
    arith,
    eq_iff c.magic_dns "",
    eq_iff c.magic_dns magic_dns_sslip,
    eq_iff c.magic_dns magic_dns_nip,
    eq_iff c.dns_provider "",
    eq_iff c.domain "",
  ),
  λ h. ground (
    arith,
    eq_iff c.magic_dns "",
    eq_iff c.magic_dns magic_dns_sslip,
    eq_iff c.magic_dns magic_dns_nip,
    eq_iff c.dns_provider "",
    eq_iff c.domain "",
  ),
)

validate_nat-ok : (c : ClusterConfig) → (validate_nat c ≡ ok tt) ↔ Nat c
unfolding validate_nat
validate_nat-ok c = (
  λ h. ground (
    arith,
    eq_iff c.bridge "",
    eq_iff c.master_mac "",
    eq_iff c.master_ip "",
    eq_iff c.machine_cidr "",
    eq_iff c.gateway "",
    eq_iff c.dns "",
  ),
  λ h. ground (
    arith,
    eq_iff c.bridge "",
    eq_iff c.master_mac "",
    eq_iff c.master_ip "",
    eq_iff c.machine_cidr "",
    eq_iff c.gateway "",
    eq_iff c.dns "",
  ),
)

eqb_ℤ_iff : (a : ℤ) (n : ℕ) → (eqb_ℤ a (pos n) ≡ true) ↔ (a ≡ pos n)
eqb_ℤ_iff (pos m) n = (λ h. ground arith, λ h. ground arith)
eqb_ℤ_iff (negsuc m) n = (λ h. ground arith, λ h. cc)

validate_counts-ok :
    (c : ClusterConfig)
    → (validate_counts c ≡ ok tt) ↔ ((c.master_count ≡ pos 1) × (c.worker_count ≡ pos 0))
unfolding validate_counts
validate_counts-ok c = (
  λ h. ground (arith, eqb_ℤ_iff c.master_count 1, eqb_ℤ_iff c.worker_count 0),
  λ h. ground (arith, eqb_ℤ_iff c.master_count 1, eqb_ℤ_iff c.worker_count 0),
)

ltb_ℤ-false : (a : ℤ) (n : ℕ) → (ltb_ℤ a (pos n) ≡ false) ↔ ((m : ℕ) × (a ≡ pos m) × (n ≤ m))
ltb_ℤ-false (pos m) n = (λ h. (m, refl, ground arith), λ (k, e, h). ground arith)
ltb_ℤ-false (negsuc m) n = (λ h. ground arith, λ (k, e, h). cc)

validate_odf-ok : (c : ClusterConfig) → (validate_odf c ≡ ok tt) ↔ Odf c
unfolding validate_odf
validate_odf-ok c = (
  λ h. ground (arith, eqb_ℤ_iff c.odf_disk_gb 0, ltb_ℤ-false c.odf_disk_gb 12),
  λ h. ground (arith, eqb_ℤ_iff c.odf_disk_gb 0, ltb_ℤ-false c.odf_disk_gb 12),
)

module _ (net : Net) where
  -- An entry of --dns is blank or an address.
  abbrev pub Entry : String → Type 0
  Entry s = (trim_space s ≡ "") ⊎ (validate_ip net (trim_space s) ≡ true)

  abbrev pub Bridge : ClusterConfig → Type 0
  Bridge c =
      (c.bridge ≢ "")
      × (c.master_mac ≢ "")
      × (validate_mac net c.master_mac ≡ true)
      × (c.master_ip ≢ "")
      × (validate_ip net c.master_ip ≡ true)
      × (c.machine_cidr ≢ "")
      × (valid_cidr net c.machine_cidr ≡ true)
      × ((c.gateway ≡ "") ⊎ (validate_ip net c.gateway ≡ true))
      × All Entry (split_at "," c.dns)

  abbrev pub Network : ClusterConfig → Type 0
  Network c =
      ((c.network_mode ≡ network_mode_nat) × Nat c)
      ⊎ ((c.network_mode ≡ network_mode_bridge) × Bridge c)

  validate_dns-ok : (entries : List String) → (validate_dns net entries ≡ ok tt) ↔ All Entry entries
  unfolding validate_dns
  validate_dns-ok [] = (λ h. tt, λ h. refl)
  validate_dns-ok (s ∷ rest) = (
    λ h. ground (arith, eq_iff (trim_space s) "", validate_dns-ok rest),
    λ h. ground (arith, eq_iff (trim_space s) "", validate_dns-ok rest),
  )

  validate_bridge-ok : (c : ClusterConfig) → (validate_bridge net c ≡ ok tt) ↔ Bridge c
  unfolding validate_bridge
  validate_bridge-ok c = (
    λ h. ground (
      arith,
      eq_iff c.bridge "",
      eq_iff c.master_mac "",
      eq_iff c.master_ip "",
      eq_iff c.machine_cidr "",
      eq_iff c.gateway "",
      validate_dns-ok (split_at "," c.dns),
    ),
    λ h. ground (
      arith,
      eq_iff c.bridge "",
      eq_iff c.master_mac "",
      eq_iff c.master_ip "",
      eq_iff c.machine_cidr "",
      eq_iff c.gateway "",
      validate_dns-ok (split_at "," c.dns),
    ),
  )

  validate_network-ok : (c : ClusterConfig) → (validate_network net c ≡ ok tt) ↔ Network c
  unfolding validate_network validate_nat validate_bridge
  validate_network-ok c = (
    λ h. ground (
      arith,
      eq_iff c.network_mode network_mode_nat,
      eq_iff c.network_mode network_mode_bridge,
      validate_nat-ok c,
      validate_bridge-ok c,
    ),
    λ h. elim h [
      | inl (e, n) ↦ rw e ((validate_nat-ok c).1 n)
      | inr (e, b) ↦ rw e ((validate_bridge-ok c).1 b)
    ],
  )

  -- A new spec is accepted exactly if there is room for another cluster, the flags of magic DNS go
  -- together, it has one master and no worker, the flags of its network mode are complete and
  -- valid, and a size of the ODF disk is at least 12 GB and goes with ODF.
  pub validate_new-ok :
      (known : ℕ) (c : ClusterConfig)
      → (validate_new net known c ≡ ok tt) ↔ (
          (known < 3)
          × Magic c
          × ((c.master_count ≡ pos 1) × (c.worker_count ≡ pos 0))
          × Network c
          × Odf c)
  unfolding validate_new
  validate_new-ok known c = (
    λ h. ground (
      arith,
      validate_magic-ok c,
      validate_counts-ok c,
      validate_network-ok c,
      validate_odf-ok c,
    ),
    λ h. ground (
      arith,
      validate_magic-ok c,
      validate_counts-ok c,
      validate_network-ok c,
      validate_odf-ok c,
    ),
  )
