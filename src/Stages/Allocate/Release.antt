-- ===== src/Stages/Allocate/Release.antt =====
-- `allocate` gives every node a MAC and, in NAT mode, an IP that was free, and `release` takes
-- them back.
use easyshift.Base.{ℕ, String, ◌≡◌, refl, subst, sym, ap, ◌∙◌, Bool, List}
use easyshift.Base.Lists.{length}
use easyshift.Base.Dict.{Dict, flag}
use easyshift.Base.Int.{◌+ℤ◌}
use easyshift.Base.Action.{ok, Action, after, after-eq-ok}
use easyshift.Config.Types.{ClusterConfig, Pointer}
use easyshift.Config.Constants.{network_mode_nat, base_network_range}
use easyshift.Config.Memory.{Memory, assign, assign_self, change}
use easyshift.Stages.Allocate.{collect, rounds, give_macs, give_ips, allocate, release}
use easyshift.Stages.Allocate.Fresh.{
  Claimed, collect-Claimed, collect-keeps, mac_round, mac_round-Claims, mac_round-keeps, ip_round,
  ip_round-lem, untouched, rest_of, erase_all-Claimed,
}

abbrev pub with_macs : ClusterConfig → List String → ClusterConfig
with_macs c macs = record c { mac_addresses = macs }

abbrev pub with_ips : ClusterConfig → List String → ClusterConfig
with_ips c ips = record c { ip_addresses = ips; network_subnet = base_network_range }

abbrev pub used_ips : {W : Type 0} → Memory W → Dict Bool
used_ips m = m.config.global_state.used_ips

abbrev pub used_macs : {W : Type 0} → Memory W → Dict Bool
used_macs m = m.config.global_state.used_macs

module _ {W : Type 0} (random : Action W (ℕ × ℕ × ℕ)) (p : Pointer) where
  give_macs-collect :
      (n : ℕ) (m : Memory W)
      → give_macs random p n m
        ≡ after (collect (mac_round random) n 0 m) (λ macs. change p (λ c. with_macs c macs))
  unfolding give_macs mac_round
  give_macs-collect n m = refl

  pub give_ips-collect :
      (n : ℕ) (m : Memory W)
      → give_ips random p n m
        ≡ after (collect (ip_round random) n 0 m) (λ ips. change p (λ c. with_ips c ips))
  unfolding give_ips ip_round
  give_ips-collect n m = refl

  -- The loop over the MACs: they were free, and only the cluster's list of them changes.
  pub give_macs-lem :
      (n : ℕ) (m : Memory W)
      → (give_macs random p n m).1 ≡ ok tt
      → (macs : List String) × ((give_macs random p n m).0.heap
          ≡ assign m.heap p (with_macs (m.heap p) macs))
        × Claimed (used_macs m) (used_macs (give_macs random p n m).0) macs
        × (length macs ≡ n)
        × (used_ips (give_macs random p n m).0 ≡ used_ips m)
  give_macs-lem n m h =
      let run = collect (mac_round random) n 0 m in
      let (macs, q, e) =
        after-eq-ok run (λ macs. change p (λ c. with_macs c macs)) (rw give_macs-collect at h) in
      let (c, l) = collect-Claimed used_macs (mac_round random) (mac_round-Claims random) n 0 m q in
      let kept = collect-keeps untouched (mac_round random) (mac_round-keeps random) n 0 m q in
      rw (give_macs-collect, e)
        (macs, ap (λ u. assign u.0 p (with_macs (u.0 p) macs)) kept, c, l, ap (λ u. u.1) kept)

  pub give_ips-lem :
      (n : ℕ) (m : Memory W)
      → (give_ips random p n m).1 ≡ ok tt
      → (ips : List String) × ((give_ips random p n m).0.heap
          ≡ assign m.heap p (with_ips (m.heap p) ips))
        × Claimed (used_ips m) (used_ips (give_ips random p n m).0) ips
        × (length ips ≡ n)
        × (used_macs (give_ips random p n m).0 ≡ used_macs m)
  give_ips-lem n m h =
      let run = collect (ip_round random) n 0 m in
      let (ips, q, e) =
        after-eq-ok run (λ ips. change p (λ c. with_ips c ips)) (rw give_ips-collect at h) in
      let (c, l) =
        collect-Claimed used_ips (ip_round random) (λ i s a r. (ip_round-lem random i s a r).0) n 0
          m q in
      let kept =
        collect-keeps rest_of (ip_round random) (λ i s a r. (ip_round-lem random i s a r).1) n 0 m
          q in
      rw (give_ips-collect, e)
        (ips, ap (λ u. assign u.0 p (with_ips (u.0 p) ips)) kept, c, l, ap (λ u. u.1) kept)

  pub allocate-nat :
      (m : Memory W) {n : ℕ}
      → (m.heap p).network_mode ≡ network_mode_nat
      → rounds ((m.heap p).master_count +ℤ (m.heap p).worker_count) ≡ ok n
      → allocate random p m ≡ after (give_macs random p n m) (λ _. give_ips random p n)
  unfolding allocate
  allocate-nat m mode total = rw (total, mode)

  -- In NAT mode a successful `allocate` gives each node of the cluster a MAC and an IP, all of them
  -- free before and pairwise distinct, and marks exactly these as used.
  pub allocate-Claimed :
      (m : Memory W) (n : ℕ)
      → (m.heap p).network_mode ≡ network_mode_nat
      → rounds ((m.heap p).master_count +ℤ (m.heap p).worker_count) ≡ ok n
      → (allocate random p m).1 ≡ ok tt
      → let m' = (allocate random p m).0 in
        Claimed (used_macs m) (used_macs m') (m'.heap p).mac_addresses
        × Claimed (used_ips m) (used_ips m') (m'.heap p).ip_addresses
        × (length (m'.heap p).mac_addresses ≡ n)
        × (length (m'.heap p).ip_addresses ≡ n)
  allocate-Claimed m n mode total h =
      let e = allocate-nat m mode total in
      let (_, q, r) = after-eq-ok (give_macs random p n m) (λ _. give_ips random p n) (rw e at h) in
      let m1 = (give_macs random p n m).0 in
      let (macs, heap1, c1, l1, ips_kept) = give_macs-lem n m q in
      let (ips, heap2, c2, l2, macs_kept) = give_ips-lem n m1 (rw (e, r) at h) in
      let here : (give_ips random p n m1).0.heap p ≡ with_ips (with_macs (m.heap p) macs) ips =
        ap (λ h. h p) heap2
        ∙ (assign_self m1.heap p (with_ips (m1.heap p) ips)
            ∙ ap (λ c. with_ips c ips)
                (ap (λ h. h p) heap1 ∙ assign_self m.heap p (with_macs (m.heap p) macs))) in
      rw (e, r, here)
        (
          subst (λ u. Claimed (used_macs m) u macs) (sym macs_kept) c1,
          subst (λ u. Claimed u (used_ips (give_ips random p n m1).0) ips) ips_kept c2,
          l1,
          l2,
        )

  -- `release` takes exactly this back: each address is in use after it if it was before `allocate`.
  pub release-allocate :
      (m : Memory W) (n : ℕ)
      → (m.heap p).network_mode ≡ network_mode_nat
      → rounds ((m.heap p).master_count +ℤ (m.heap p).worker_count) ≡ ok n
      → (allocate random p m).1 ≡ ok tt
      → (k : String)
      → let m' = (allocate random p m).0 in
        let g = release (m'.heap p) m'.config.global_state in
        (flag k g.used_ips ≡ flag k (used_ips m)) × (flag k g.used_macs ≡ flag k (used_macs m))
  unfolding release
  release-allocate m n mode total h k =
      let (macs, ips, _, _) = allocate-Claimed m n mode total h in
      (erase_all-Claimed (used_ips m) _ _ ips k, erase_all-Claimed (used_macs m) _ _ macs k)
