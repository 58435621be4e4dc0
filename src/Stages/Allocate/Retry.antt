-- ===== src/Stages/Allocate/Retry.antt =====
-- A retry of the stage behind an exhausted pool.
use easyshift.Base.{
  ℕ, suc, String, ◌<>◌, ◌≤◌, ◌≡◌, refl, subst, sym, ap, ◌∙◌, Bool, true, List, [], ◌∷◌, arith, inl,
  inr,
}
use easyshift.Base.Lists.{length}
use easyshift.Base.Text.{decimal}
use easyshift.Base.Dict.{Dict, flag}
use easyshift.Base.Int.{◌+ℤ◌}
use easyshift.Base.Action.{ok, err, Action, after_of_ok, after_of_err}
use easyshift.Config.Types.{Pointer}
use easyshift.Config.Constants.{network_mode_nat, network_start, network_end}
use easyshift.Config.Memory.{Memory, Disk, assign_self}
use easyshift.Stages.Allocate.{
  address, rounds, pool_exhausted, allocate, give_macs, give_ips, collect, apply, allocate_nat,
  for_node,
}
use easyshift.Stages.Allocate.Pool.{allocate_ip_lem}
use easyshift.Stages.Allocate.Fresh.{ip_round}
use easyshift.Stages.Allocate.Release.{give_macs-lem, allocate-nat, give_ips-collect, used_ips}

-- Every address of the band is in use.
abbrev pub Exhausted : Dict Bool → Type 0
Exhausted used = (j : ℕ) → network_start ≤ j → j ≤ network_end → flag (address j) used ≡ true

abbrev pub no_ip : String
no_ip = "allocate ip for node 0: " <> pool_exhausted

split_length :
    (xs : List String) {n : ℕ}
    → length xs ≡ suc n
    → (x : String) × (ys : List String) × (xs ≡ x ∷ ys)
split_length [] h = absurd (omega arith)
split_length (x ∷ xs) h = (x, xs, refl)

module _ {W : Type 0} (disk : Disk W) (random : Action W (ℕ × ℕ × ℕ)) (p : Pointer) where
  pub apply-nat :
      (m : Memory W)
      → (m.heap p).network_mode ≡ network_mode_nat
      → (m.heap p).mac_addresses ≡ []
      → apply disk random p m ≡ allocate_nat disk random p m
  unfolding apply
  apply-nat m mode macs = rw (macs, mode, apply)

  apply-recorded :
      (m : Memory W) {mac : String} {more : List String}
      → (m.heap p).mac_addresses ≡ mac ∷ more
      → apply disk random p m ≡ (m, ok tt)
  unfolding apply
  apply-recorded m macs = rw (macs, apply)

  allocate_nat-fails :
      (m : Memory W) {e : String}
      → (allocate random p m).1 ≡ err e
      → allocate_nat disk random p m ≡ ((allocate random p m).0, err e)
  unfolding allocate_nat
  allocate_nat-fails m h = after_of_err (allocate random p m) _ h

  ip_round-Exhausted :
      (m : Memory W) → Exhausted (used_ips m) → ip_round random 0 m ≡ (m, err no_ip)
  unfolding ip_round for_node decimal
  ip_round-Exhausted m all = elim (allocate_ip_lem m.config.global_state) [
    | inl (k, a, b, _, free, _, _, _) ↦ absurd (cc (free, all k a b))
    | inr (e, _) ↦ rw e
  ]

  give_ips-Exhausted :
      (n : ℕ) (m : Memory W) → Exhausted (used_ips m) → give_ips random p (suc n) m ≡ (m, err no_ip)
  give_ips-Exhausted n m all = rw give_ips-collect (unfold collect in rw (ip_round-Exhausted m all))

  -- `allocate` behind its MACs, where no address is left.
  allocate-Exhausted :
      (n : ℕ) (m : Memory W)
      → (m.heap p).network_mode ≡ network_mode_nat
      → rounds ((m.heap p).master_count +ℤ (m.heap p).worker_count) ≡ ok (suc n)
      → (give_macs random p (suc n) m).1 ≡ ok tt
      → Exhausted (used_ips m)
      → allocate random p m ≡ ((give_macs random p (suc n) m).0, err no_ip)
  allocate-Exhausted n m mode total given all =
      let (_, _, _, _, same) = give_macs-lem random p (suc n) m given in
      allocate-nat random p m mode total
      ∙ (after_of_ok (give_macs random p (suc n) m) (λ _. give_ips random p (suc n)) given
          ∙ give_ips-Exhausted n _ (subst Exhausted (sym same) all))

  -- In NAT mode, if every address is in use while the MACs can be given, the stage fails, and a
  -- retry by the same process succeeds without an address for any node: the MACs that the failed
  -- run recorded make it skip the allocation.
  pub apply-Exhausted :
      (n : ℕ) (m : Memory W)
      → (m.heap p).network_mode ≡ network_mode_nat
      → (m.heap p).mac_addresses ≡ []
      → rounds ((m.heap p).master_count +ℤ (m.heap p).worker_count) ≡ ok (suc n)
      → (give_macs random p (suc n) m).1 ≡ ok tt
      → Exhausted (used_ips m)
      → let m' = (apply disk random p m).0 in
        ((apply disk random p m).1 ≡ err no_ip)
        × (apply disk random p m' ≡ (m', ok tt))
        × ((m'.heap p).ip_addresses ≡ (m.heap p).ip_addresses)
  apply-Exhausted n m mode macs total given all =
      let full = allocate-Exhausted n m mode total given all in
      let (texts, heap, _, size, _) = give_macs-lem random p (suc n) m given in
      let e = apply-nat m mode macs ∙ allocate_nat-fails m (ap (λ x. x.1) full) in
      let m' = (give_macs random p (suc n) m).0 in
      let at = ap (λ h. h p) heap ∙ assign_self m.heap p _ in
      let (mac, more, cons) = split_length texts size in
      rw (e, full)
        (refl, apply-recorded m' (ap (λ c. c.mac_addresses) at ∙ cons), ap (λ c. c.ip_addresses) at)
