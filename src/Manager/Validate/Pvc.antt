-- ===== src/Manager/Validate/Pvc.antt =====
-- The specs that the manager accepts give the ODF stage a volume of at least 1 GiB.
use easyshift.Base.{ℕ, ◌-◌, ◌/◌, ◌≤◌, ◌≡◌, true, false, arith, inl, inr}
use easyshift.Base.Int.{pos, eqb_ℤ}
use easyshift.Base.Text.{Net}
use easyshift.Base.Action.{ok}
use easyshift.Config.Types.{ClusterConfig}
use easyshift.Manager.Validate.{validate_new, apply_defaults}
use easyshift.Manager.Validate.Accepts.{Odf, validate_new-ok}
use easyshift.Manager.Validate.Defaults.{apply_defaults-odf}
use easyshift.Stages.Odf.{third, data_pvc_size}

size_lem :
    (c : ClusterConfig) {n : ℕ} → c.odf_disk_gb ≡ pos n → 12 ≤ n → data_pvc_size c ≡ pos (n / 3 - 3)
unfolding data_pvc_size third
size_lem c h le = rw h (ground arith)

open_size :
    (c : ClusterConfig)
    → eqb_ℤ c.odf_disk_gb (pos 0) ≡ false
    → Odf c
    → (n : ℕ) × (12 ≤ n) × (data_pvc_size c ≡ pos (n / 3 - 3))
open_size c h (inl e) = absurd (cc (rw e at h))
open_size c h (inr (_, n, e, le)) = (n, le, size_lem c e le)

-- If a new cluster with ODF is accepted behind its defaults, then its ODF disk has some n ≥ 12 GB,
-- and the volume that the ODF stage asks for has n / 3 - 3 GiB, which is at least 1.
pub accepted-pvc :
    (net : Net) (known : ℕ) (c : ClusterConfig)
    → c.odf ≡ true
    → validate_new net known (apply_defaults net c) ≡ ok tt
    → (n : ℕ) × (12 ≤ n)
      × (data_pvc_size (apply_defaults net c) ≡ pos (n / 3 - 3))
      × (1 ≤ n / 3 - 3)
accepted-pvc net known c odf h =
    let (_, _, _, disk) = apply_defaults-odf net c odf in
    let (_, _, _, _, fit) = (validate_new-ok net known (apply_defaults net c)).0 h in
    let (n, le, e) = open_size (apply_defaults net c) disk fit in (n, le, e, omega arith)
