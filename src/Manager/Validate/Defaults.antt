-- ===== src/Manager/Validate/Defaults.antt =====
-- `applyDefaults`: what it makes of a spec.
use easyshift.Base.{◌≡◌, ap, ◌∙◌, Bool, true, false, arith}
use easyshift.Base.Int.{ℤ, pos, ltb_ℤ, eqb_ℤ}
use easyshift.Base.Text.{Net}
use easyshift.Config.Types.{ClusterConfig}
use easyshift.Manager.Validate.{
  resolve_magic_dns, default_mode, default_domain, default_sizes, default_odf, default_pool,
  default_cidr, default_gateway, apply_defaults,
}

-- The fields that the ODF step raises.
abbrev sizing : ClusterConfig → Bool × ℤ × ℤ × ℤ
sizing c = (c.odf, c.master_cpus, c.master_ram, c.odf_disk_gb)

mode_odf : (c : ClusterConfig) → (default_mode c).odf ≡ c.odf
unfolding default_mode
mode_odf c = ground arith

resolve_odf : (c : ClusterConfig) → (resolve_magic_dns c).odf ≡ c.odf
unfolding resolve_magic_dns
resolve_odf c = ground arith

domain_odf : (c : ClusterConfig) → (default_domain c).odf ≡ c.odf
unfolding default_domain
domain_odf c = ground arith

front_keeps :
    (c : ClusterConfig)
    → (default_sizes (default_domain (resolve_magic_dns (default_mode c)))).odf ≡ c.odf
unfolding default_sizes
front_keeps c =
    domain_odf (resolve_magic_dns (default_mode c)) ∙ (resolve_odf (default_mode c) ∙ mode_odf c)

odf_lem :
    (c : ClusterConfig)
    → c.odf ≡ true
    → (ltb_ℤ (default_odf c).master_cpus (pos 8) ≡ false)
      × (ltb_ℤ (default_odf c).master_ram (pos 24576) ≡ false)
      × (eqb_ℤ (default_odf c).odf_disk_gb (pos 0) ≡ false)
      × ((default_odf c).odf ≡ true)
unfolding default_odf
odf_lem c h = ground arith

module _ (net : Net) where
  cidr_keeps : (c : ClusterConfig) → (sizing (default_cidr net c) ≡ sizing c)
  unfolding default_cidr
  cidr_keeps c = ground arith

  gateway_keeps : (c : ClusterConfig) → (sizing (default_gateway net c) ≡ sizing c)
  unfolding default_gateway
  gateway_keeps c = ground arith

  -- With ODF, what `applyDefaults` leaves has at least 8 vCPUs and 24 GiB of memory, whatever the
  -- spec asked for, and a size of the ODF disk.
  pub apply_defaults-odf :
      (c : ClusterConfig)
      → c.odf ≡ true
      → let d = apply_defaults net c in
        (d.odf ≡ true)
        × (ltb_ℤ d.master_cpus (pos 8) ≡ false)
        × (ltb_ℤ d.master_ram (pos 24576) ≡ false)
        × (eqb_ℤ d.odf_disk_gb (pos 0) ≡ false)
  unfolding apply_defaults default_sizes default_pool
  apply_defaults-odf c h =
      let a = default_sizes (default_domain (resolve_magic_dns (default_mode c))) in
      let e = default_pool (default_odf a) in
      let f = default_cidr net e in
      let same : sizing (default_gateway net f) ≡ sizing (default_odf a) =
        gateway_keeps f ∙ cidr_keeps e in
      let on : a.odf ≡ true = front_keeps c ∙ h in
      let (cpus, ram, disk, odf) = odf_lem a on in
      (
        ap (λ s. s.0) same ∙ odf,
        ap (λ s. ltb_ℤ s.1 (pos 8)) same ∙ cpus,
        ap (λ s. ltb_ℤ s.2 (pos 24576)) same ∙ ram,
        ap (λ s. eqb_ℤ s.3 (pos 0)) same ∙ disk,
      )
