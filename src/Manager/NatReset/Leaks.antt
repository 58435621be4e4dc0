-- ===== src/Manager/NatReset/Leaks.antt =====
-- What the plan calls a leak, and what pruning leaves.
use easyshift.Base.{
  String, ◌≡◌, refl, ap, ◌∙◌, Bool, true, false, not, ◌&&◌, ◌||◌, List, [], ◌∷◌, map, arith, ◌==◌,
  eq_iff, eq_refl, Bool-cases, inl, inr,
}
use easyshift.Base.Lists.{keep, contains}
use easyshift.Base.Dict.{Dict, lookup, insert, erase, flag, keys, flag-insert}
use easyshift.Base.Text.{to_lower}
use easyshift.Base.Action.{ok}
use easyshift.Interfaces.Providers.{NetworkProvisioner, VmManager}
use easyshift.Config.Types.{ClusterConfig, GlobalState}
use easyshift.Config.Memory.{Memory, Disk, registered}
use easyshift.Stages.Allocate.{erase_all}
use easyshift.Manager.NatReset.{
  NatResetPlan, add_all, known_ips, known_macs, leaked_ips_of, leaked_macs_of, plan_nat_reset,
  prune,
}

-- Some cluster has the MAC, whatever the case of its letters.
abbrev pub owns_mac : List ClusterConfig → String → Bool
owns_mac [] k = false
owns_mac (c ∷ cs) k = contains (map to_lower c.mac_addresses) (to_lower k) || owns_mac cs k

-- Some cluster has the address.
abbrev pub owns : List ClusterConfig → String → Bool
owns [] k = false
owns (c ∷ cs) k = contains c.ip_addresses k || owns cs k

flag-add_all :
    (ks : List String) (m : Dict Bool) (k : String)
    → flag k (add_all ks m) ≡ (contains ks k || flag k m)
unfolding add_all
flag-add_all [] m k = refl
flag-add_all (j ∷ ks) m k = flag-add_all ks (insert j true m) k ∙ ground (arith, flag-insert k j m)

flag-known_ips :
    (cs : List ClusterConfig) (m : Dict Bool) (k : String)
    → flag k (known_ips cs m) ≡ (owns cs k || flag k m)
unfolding known_ips
flag-known_ips [] m k = refl
flag-known_ips (c ∷ cs) m k =
    flag-known_ips cs (add_all c.ip_addresses m) k ∙ ground (arith, flag-add_all c.ip_addresses m k)

flag-known_macs :
    (cs : List ClusterConfig) (m : Dict Bool) (k : String)
    → flag (to_lower k) (known_macs cs m) ≡ (owns_mac cs k || flag (to_lower k) m)
unfolding known_macs
flag-known_macs [] m k = refl
flag-known_macs (c ∷ cs) m k =
    flag-known_macs cs (add_all (map to_lower c.mac_addresses) m) k
    ∙ ground (arith, flag-add_all (map to_lower c.mac_addresses) m (to_lower k))

contains-keep :
    (p : String → Bool) (xs : List String) (k : String)
    → contains (keep p xs) k ≡ (contains xs k && p k)
contains-keep p [] k = refl
contains-keep p (x ∷ xs) k = elim (Bool-cases (x == k)) [
  | inl h ↦ ground (arith, contains-keep p xs k, ap p ((eq_iff x k).0 h))
  | inr h ↦ ground (arith, contains-keep p xs k)
]

flag_nil : (k : String) → flag k [] ≡ false
unfolding flag lookup
flag_nil k = refl

contains-leaked_ips_of :
    (g : GlobalState) (cs : List ClusterConfig) (k : String)
    → contains (leaked_ips_of g cs) k ≡ (contains (keys g.used_ips) k && not (owns cs k))
unfolding leaked_ips_of
contains-leaked_ips_of g cs k =
    contains-keep (λ ip. not (flag ip (known_ips cs []))) (keys g.used_ips) k
    ∙ ground (arith, flag-known_ips cs [] k, flag_nil k)

contains-leaked_macs_of :
    (g : GlobalState) (cs : List ClusterConfig) (k : String)
    → contains (leaked_macs_of g cs) k ≡ (contains (keys g.used_macs) k && not (owns_mac cs k))
unfolding leaked_macs_of
contains-leaked_macs_of g cs k =
    contains-keep (λ mac. not (flag (to_lower mac) (known_macs cs []))) (keys g.used_macs) k
    ∙ ground (arith, flag-known_macs cs [] k, flag_nil (to_lower k))

keys-erase :
    (m : Dict Bool) (j k : String)
    → contains (keys (erase j m)) k ≡ (contains (keys m) k && not (j == k))
unfolding erase keys
keys-erase [] j k = refl
keys-erase ((i, v) ∷ m) j k = ground (arith, keys-erase m j k, eq_iff i j, eq_iff i k, eq_iff j k)

keys-erase_all :
    (ks : List String) (m : Dict Bool) (k : String)
    → contains (keys (erase_all ks m)) k ≡ (contains (keys m) k && not (contains ks k))
unfolding erase_all
keys-erase_all [] m k = ground arith
keys-erase_all (j ∷ ks) m k = keys-erase_all ks (erase j m) k ∙ ground (arith, keys-erase m j k)

no_element : (xs : List String) → ((k : String) → contains xs k ≡ false) → xs ≡ []
no_element [] h = refl
no_element (x ∷ xs) h = absurd (ground (arith, h x, eq_refl x))

module _ {W : Type 0} (disk : Disk W) (sort : List String → List String)
    (net : NetworkProvisioner W) (vm : VmManager W) where
  plan-leaks :
      (force : Bool) (m : Memory W) {plan : NatResetPlan}
      → (plan_nat_reset disk sort net vm force m).1 ≡ ok plan
      → (plan.leaked_ips ≡ sort (leaked_ips_of m.config.global_state (registered m)))
        × (plan.leaked_macs ≡ sort (leaked_macs_of m.config.global_state (registered m)))
  unfolding plan_nat_reset
  plan-leaks force m h = ground arith

  module _ (same : (xs : List String) (k : String) → contains (sort xs) k ≡ contains xs k) where
    -- The plan lists an IP as leaked exactly if it is a key of the used IPs and no registered cluster
    -- has it, and a MAC exactly if it is a key of the used MACs and no registered cluster has it in
    -- any case of its letters.
    pub plan-leaked_ips :
        (force : Bool) (m : Memory W) {plan : NatResetPlan} (k : String)
        → (plan_nat_reset disk sort net vm force m).1 ≡ ok plan
        → (contains plan.leaked_ips k
            ≡ (contains (keys m.config.global_state.used_ips) k && not (owns (registered m) k)))
          × (contains plan.leaked_macs k ≡ (
              contains (keys m.config.global_state.used_macs) k && not (owns_mac (registered m) k)))
    plan-leaked_ips force m k h =
        let (ips, macs) = plan-leaks force m h in
        (
          ap (λ xs. contains xs k) ips
              ∙ (same _ k ∙ contains-leaked_ips_of m.config.global_state (registered m) k),
          ap (λ xs. contains xs k) macs
              ∙ (same _ k ∙ contains-leaked_macs_of m.config.global_state (registered m) k),
        )

    -- Behind the pruning of a plan the config has no leaked IP and no leaked MAC, and each IP and each
    -- MAC that a cluster has is among the used ones exactly if it was.
    pub prune-leaks :
        (force : Bool) (m : Memory W) {plan : NatResetPlan}
        → (plan_nat_reset disk sort net vm force m).1 ≡ ok plan
        → let g = prune disk sort net vm plan m.config.global_state in
          (leaked_ips_of g (registered m) ≡ [])
          × (leaked_macs_of g (registered m) ≡ [])
          × ((k : String)
              → owns (registered m) k ≡ true
              → contains (keys g.used_ips) k ≡ contains (keys m.config.global_state.used_ips) k)
          × ((k : String)
              → owns_mac (registered m) k ≡ true
              → contains (keys g.used_macs) k ≡ contains (keys m.config.global_state.used_macs) k)
    unfolding prune
    prune-leaks force m {plan} h =
        let g = m.config.global_state in
        let pruned = prune disk sort net vm plan g in
        (
          no_element _ (λ k.
              contains-leaked_ips_of pruned (registered m) k
              ∙ ground (
                arith,
                plan-leaked_ips force m k h,
                keys-erase_all plan.leaked_ips g.used_ips k,
              )),
          no_element _ (λ k.
              contains-leaked_macs_of pruned (registered m) k
              ∙ ground (
                arith,
                plan-leaked_ips force m k h,
                keys-erase_all plan.leaked_macs g.used_macs k,
              )),
          λ k own.
              keys-erase_all plan.leaked_ips g.used_ips k
              ∙ ground (arith, plan-leaked_ips force m k h),
          λ k own.
              keys-erase_all plan.leaked_macs g.used_macs k
              ∙ ground (arith, plan-leaked_ips force m k h),
        )
