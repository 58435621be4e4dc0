-- ===== src/Stages/Allocate/Owners.antt =====
-- Who owns the addresses of the NAT network: an invariant of allocations and rollbacks, in whatever
-- order the clusters make them.
use easyshift.Base.{
  ℕ, String, ◌<>◌, ◌≡◌, refl, subst, sym, ap, ◌∙◌, Bool, true, false, List, [], ◌==◌, eqb,
  if◌then◌else◌, arith, eq_iff,
}
use easyshift.Base.Lists.{contains}
use easyshift.Base.Dict.{Dict, flag}
use easyshift.Base.Int.{◌+ℤ◌}
use easyshift.Base.Action.{ok, Action, after-eq-ok}
use easyshift.Config.Types.{ClusterConfig, Pointer}
use easyshift.Config.Constants.{network_mode_nat}
use easyshift.Config.Memory.{Memory, Disk, change, save}
use easyshift.Stages.Allocate.{
  rounds, allocate, give_macs, give_ips, apply, allocate_nat, rollback, release, erase_all,
  derive_magic_domain,
}
use easyshift.Stages.Allocate.Fresh.{Claimed, erase_all-flag}
use easyshift.Stages.Allocate.Release.{
  allocate-nat, give_macs-lem, give_ips-lem, used_ips, used_macs, with_ips, with_macs,
}
use easyshift.Stages.Allocate.Retry.{apply-nat}

-- Every address that a cluster has is marked, and no other cluster has it.
pub record Owned (of : Pointer → List String) (used : Dict Bool) : Type 0 where
  pub marked : (p : Pointer) (a : String) → contains (of p) a ≡ true → flag a used ≡ true
  pub apart :
      (p q : Pointer) (a : String)
      → eqb p q ≡ false
      → contains (of p) a ≡ true
      → contains (of q) a ≡ false

Owned-Claimed :
    (of of' : Pointer → List String) (used used' : Dict Bool) (p : Pointer) (xs : List String)
    → Owned of used
    → Claimed used used' xs
    → ((q : Pointer) → of' q ≡ (if eqb p q then xs else of q))
    → Owned of' used'
Owned-Claimed of of' used used' p xs own c new = record {
  marked = λ q a h. ground (arith, new q, own.marked q a, c.marked a);
  apart = λ q r a d h.
      ground (arith, new q, new r, own.marked q a, own.marked r a, own.apart q r a, c.fresh a);
}

Owned-erase_all :
    (of of' : Pointer → List String) (used used' : Dict Bool) (p : Pointer)
    → Owned of used
    → used' ≡ erase_all (of p) used
    → ((q : Pointer) → of' q ≡ (if eqb p q then [] else of q))
    → Owned of' used'
Owned-erase_all of of' used used' p own e new = record {
  marked = λ q a h.
      ground (
        arith,
        new q,
        own.marked q a,
        own.apart q p a,
        ap (flag a) e,
        erase_all-flag (of p) used a,
      );
  apart = λ q r a d h. ground (arith, new q, new r, own.apart q r a);
}

-- The addresses of the clusters in NAT mode.
abbrev pub nat_only : ClusterConfig → List String → List String
nat_only c xs = if c.network_mode == network_mode_nat then xs else []

abbrev pub ips_of : {W : Type 0} → Memory W → Pointer → List String
ips_of m p = nat_only (m.heap p) (m.heap p).ip_addresses

abbrev pub macs_of : {W : Type 0} → Memory W → Pointer → List String
macs_of m p = nat_only (m.heap p) (m.heap p).mac_addresses

derive-keeps :
    (c : ClusterConfig)
    → ((derive_magic_domain c).ip_addresses ≡ c.ip_addresses)
      × ((derive_magic_domain c).mac_addresses ≡ c.mac_addresses)
      × ((derive_magic_domain c).network_mode ≡ c.network_mode)
unfolding derive_magic_domain
derive-keeps c = ground arith

module _ {W : Type 0} (disk : Disk W) (random : Action W (ℕ × ℕ × ℕ)) where
  -- A step of a cluster: the stage succeeds for it, for the first time, or is rolled back.
  pub data Step : Memory W → Memory W → Type 0 where
    allocates :
        (m : Memory W) (p : Pointer) (n : ℕ)
        → (m.heap p).network_mode ≡ network_mode_nat
        → (m.heap p).mac_addresses ≡ []
        → rounds ((m.heap p).master_count +ℤ (m.heap p).worker_count) ≡ ok n
        → (apply disk random p m).1 ≡ ok tt
        → Step m (apply disk random p m).0
    rolls_back :
        (m : Memory W) (p : Pointer)
        → (m.heap p).network_mode ≡ network_mode_nat
        → Step m (rollback disk random p m).0

  allocate-lem :
      (m : Memory W) (p : Pointer) (n : ℕ)
      → (m.heap p).network_mode ≡ network_mode_nat
      → rounds ((m.heap p).master_count +ℤ (m.heap p).worker_count) ≡ ok n
      → (allocate random p m).1 ≡ ok tt
      → (macs : List String) × (ips : List String) × ((q : Pointer)
          → (allocate random p m).0.heap q
            ≡ (if eqb p q then with_ips (with_macs (m.heap p) macs) ips else m.heap q))
        × Claimed (used_macs m) (used_macs (allocate random p m).0) macs
        × Claimed (used_ips m) (used_ips (allocate random p m).0) ips
  allocate-lem m p n mode total h =
      let e = allocate-nat random p m mode total in
      let (_, q, r) = after-eq-ok (give_macs random p n m) (λ _. give_ips random p n) (rw e at h) in
      let m1 = (give_macs random p n m).0 in
      let (macs, heap1, c1, l1, ips_kept) = give_macs-lem random p n m q in
      let (ips, heap2, c2, l2, macs_kept) = give_ips-lem random p n m1 (rw (e, r) at h) in
      rw (e, r)
        (
          macs,
          ips,
          λ q. ground (
            arith,
            ap (λ h. h q) heap2,
            ap (λ h. h p) heap2,
            ap (λ h. h q) heap1,
            ap (λ h. h p) heap1,
          ),
          subst (λ u. Claimed (used_macs m) u macs) (sym macs_kept) c1,
          subst (λ u. Claimed u (used_ips (give_ips random p n m1).0) ips) ips_kept c2,
        )

  abbrev pub Own : Memory W → Type 0
  Own m = Owned (ips_of m) (used_ips m) × Owned (macs_of m) (used_macs m)

  -- What the invariant sees of a memory at a cluster.
  abbrev view : Memory W → Pointer → List String × List String × Dict Bool × Dict Bool
  view m q = (ips_of m q, macs_of m q, used_ips m, used_macs m)

  change-view :
      (f : ClusterConfig → ClusterConfig) (m : Memory W) (p q : Pointer)
      → ((f (m.heap p)).ip_addresses ≡ (m.heap p).ip_addresses)
        × ((f (m.heap p)).mac_addresses ≡ (m.heap p).mac_addresses)
        × ((f (m.heap p)).network_mode ≡ (m.heap p).network_mode)
      → view (change p f m).0 q ≡ view m q
  change-view f m p q k = ground arith

  save-view : (m : Memory W) (q : Pointer) → view (save disk m).0 q ≡ view m q
  unfolding save
  save-view m q = refl

  with_cidr : ClusterConfig → ClusterConfig
  with_cidr c = record c { machine_cidr = c.network_subnet <> ".0/24" }

  allocate_nat-view :
      (m : Memory W) (p : Pointer)
      → (allocate_nat disk random p m).1 ≡ ok tt
      → ((allocate random p m).1 ≡ ok tt)
        × ((q : Pointer) → view (allocate_nat disk random p m).0 q ≡ view (allocate random p m).0 q)
  unfolding allocate_nat with_cidr
  allocate_nat-view m p h =
      let (_, e, r) = after-eq-ok (allocate random p m) _ h in
      let m1 = (allocate random p m).0 in
      let m2 = (change p with_cidr m1).0 in
      let m3 = (change p derive_magic_domain m2).0 in
      (
        e,
        λ q.
            ap (λ s. view s.0 q) r
            ∙ (save-view m3 q
                ∙ (change-view derive_magic_domain m2 p q (derive-keeps (m2.heap p))
                    ∙ change-view with_cidr m1 p q (refl, refl, refl))),
      )

  Owned-view :
      (of of' : Pointer → List String) (used used' : Dict Bool)
      → ((q : Pointer) → of' q ≡ of q)
      → used' ≡ used
      → Owned of used
      → Owned of' used'
  Owned-view of of' used used' same e own =
      subst (λ f. Owned f used') (λ i q. sym (same q) i) (subst (Owned of) (sym e) own)

  allocates-Own :
      (m : Memory W) (p : Pointer) (n : ℕ)
      → (m.heap p).network_mode ≡ network_mode_nat
      → (m.heap p).mac_addresses ≡ []
      → rounds ((m.heap p).master_count +ℤ (m.heap p).worker_count) ≡ ok n
      → (apply disk random p m).1 ≡ ok tt
      → Own m
      → Own (apply disk random p m).0
  allocates-Own m p n mode none_yet total h own =
      let e = apply-nat disk random p m mode none_yet in
      let (q, v) = allocate_nat-view m p (rw e at h) in
      let m1 = (allocate random p m).0 in
      let (macs, ips, heap1, c1, c2) = allocate-lem m p n mode total q in
      rw e (
        Owned-view (ips_of m1) _ (used_ips m1) _ (λ k. ap (λ t. t.0) (v k)) (ap (λ t. t.2) (v p))
            (Owned-Claimed (ips_of m) (ips_of m1) (used_ips m) (used_ips m1) p ips own.0 c2 (λ k.
              rw (heap1 k) (ground (arith, eq_iff (m.heap p).network_mode network_mode_nat)))),
        Owned-view (macs_of m1) _ (used_macs m1) _ (λ k. ap (λ t. t.1) (v k)) (ap (λ t. t.3) (v p))
            (Owned-Claimed (macs_of m) (macs_of m1) (used_macs m) (used_macs m1) p macs own.1 c1
              (λ k.
                rw (heap1 k) (ground (arith, eq_iff (m.heap p).network_mode network_mode_nat)))),
      )

  rolls_back-Own :
      (m : Memory W) (p : Pointer)
      → (m.heap p).network_mode ≡ network_mode_nat
      → Own m
      → Own (rollback disk random p m).0
  unfolding rollback release save
  rolls_back-Own m p mode own = (
    Owned-erase_all (ips_of m) _ (used_ips m) _ p own.0
        (ground (arith, eq_iff (m.heap p).network_mode network_mode_nat))
        (λ q. ground (arith, eq_iff (m.heap p).network_mode network_mode_nat)),
    Owned-erase_all (macs_of m) _ (used_macs m) _ p own.1
        (ground (arith, eq_iff (m.heap p).network_mode network_mode_nat))
        (λ q. ground (arith, eq_iff (m.heap p).network_mode network_mode_nat)),
  )

  -- The memories that a sequence of steps comes to.
  pub data Reach (start : Memory W) : Memory W → Type 0 where
    here : Reach start start
    further : {m m' : Memory W} → Reach start m → Step m m' → Reach start m'

  -- No cluster has an address yet.
  abbrev pub Bare : Memory W → Type 0
  Bare m = (p : Pointer) → (ips_of m p ≡ []) × (macs_of m p ≡ [])

  Owned-nil :
      (of : Pointer → List String) (used : Dict Bool) → ((p : Pointer) → of p ≡ []) → Owned of used
  Owned-nil of used none_yet = record {
    marked = λ p a h. ground (arith, none_yet p);
    apart = λ p q a d h. ground (arith, none_yet p);
  }

  Step-Own : (m m' : Memory W) → Step m m' → Own m → Own m'
  Step-Own _ _ (allocates m p n mode none_yet total h) own =
      allocates-Own m p n mode none_yet total h own
  Step-Own _ _ (rolls_back m p mode) own = rolls_back-Own m p mode own

  -- From clusters without addresses, allocations that succeed and rollbacks, in whatever order the
  -- NAT clusters make them, keep their addresses apart: each IP and each MAC of a NAT cluster is
  -- marked as used, and no two of them share one.
  pub Reach-Own : (start m : Memory W) → Bare start → Reach start m → Own m
  Reach-Own start _ bare here = (
    Owned-nil (ips_of start) (used_ips start) (λ p. (bare p).0),
    Owned-nil (macs_of start) (used_macs start) (λ p. (bare p).1),
  )
  Reach-Own start m' bare (further {m = m} before step) =
      Step-Own m m' step (Reach-Own start m bare before)
