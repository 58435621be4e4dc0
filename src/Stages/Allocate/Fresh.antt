-- ===== src/Stages/Allocate/Fresh.antt =====
-- What the allocator claims was free before, and `release` gives exactly that back.
use easyshift.Base.{
  ℕ, zero, suc, String, ◌≡◌, refl, subst, sym, ap, ◌∙◌, Bool, true, false, not, List, [], ◌∷◌,
  arith, ◌==◌, ◌||◌, ◌&&◌, Bool-cases, inl, inr, eq_iff, eq_refl,
}
use easyshift.Base.Lists.{contains, length, Distinct}
use easyshift.Base.Dict.{Dict, erase, flag, flag-insert, flag-erase}
use easyshift.Base.Action.{
  ok, err, Action, after, after-eq-ok, wrap, ◌>>=◌, pure, map_err-eq-ok, ok-injective,
}
use easyshift.Config.Types.{ClusterConfig, Pointer}
use easyshift.Config.Memory.{Memory}
use easyshift.Stages.Allocate.{
  address, collect, allocate_ip, on_global, erase_all, try_mac, generate_mac, allocate_mac, claim,
  for_node,
}
use easyshift.Stages.Allocate.Pool.{allocate_ip_lem}

-- The text was free, and it alone is marked since.
abbrev pub Claims : Dict Bool → Dict Bool → String → Type 0
Claims before now a =
    (flag a before ≡ false) × ((k : String) → flag k now ≡ (a == k || flag k before))

-- The texts were free, are used now, and nothing else has changed in the map.
pub record Claimed (before now : Dict Bool) (texts : List String) : Type 0 where
  pub fresh : (k : String) → contains texts k ≡ true → flag k before ≡ false
  pub marked : (k : String) → flag k now ≡ (contains texts k || flag k before)
  pub distinct : Distinct texts

-- One more text in front.
Claimed-cons :
    (before mid now : Dict Bool) (a : String) (texts : List String)
    → flag a before ≡ false
    → ((k : String) → flag k mid ≡ (a == k || flag k before))
    → Claimed mid now texts
    → Claimed before now (a ∷ texts)
Claimed-cons before mid now a texts free one rest = record {
  fresh = λ k h. ground (arith, one k, rest.fresh k, eq_iff a k);
  marked = λ k. ground (arith, one k, rest.marked k);
  distinct = (ground (arith, one a, rest.fresh a, eq_refl a), rest.distinct);
}

collect-nil :
    {S A : Type 0} (one : ℕ → Action S A) (i : ℕ) (s : S) → collect one zero i s ≡ (s, ok [])
unfolding collect
collect-nil one i s = refl

-- A loop that succeeds has made one round and then the others.
collect-cons :
    {S A : Type 0} (one : ℕ → Action S A) (n i : ℕ) (s : S) {all : List A}
    → (collect one (suc n) i s).1 ≡ ok all
    → (a : A) × (more : List A) × ((one i s).1 ≡ ok a)
      × ((collect one n (suc i) (one i s).0).1 ≡ ok more)
      × (all ≡ a ∷ more)
      × ((collect one (suc n) i s).0 ≡ (collect one n (suc i) (one i s).0).0)
unfolding collect
collect-cons one n i s h =
    let (a, p, q) =
      after-eq-ok (one i s) (λ a. collect one n (suc i) >>= λ more. pure (a ∷ more)) h in
    let (more, p', q') =
      after-eq-ok (collect one n (suc i) (one i s).0) (λ more. pure (a ∷ more)) (rw q at h) in
    (a, more, p, p', ok-injective (rw (q, q') at (sym h)), ap (λ r. r.0) (q ∙ q'))

module _ {S : Type 0} (used : S → Dict Bool) (one : ℕ → Action S String)
    (claims : (i : ℕ) (s : S) (a : String)
      → (one i s).1 ≡ ok a
      → Claims (used s) (used (one i s).0) a) where
  pub collect-Claimed :
      (n i : ℕ) (s : S) {texts : List String}
      → (collect one n i s).1 ≡ ok texts
      → Claimed (used s) (used (collect one n i s).0) texts × (length texts ≡ n)
  collect-Claimed zero i s h =
      let e = ok-injective (rw collect-nil at h) in
      rw (← e, collect-nil) (record { fresh = λ k h. cc; marked = λ k. refl; distinct = tt }, refl)
  collect-Claimed (suc n) i s h =
      let (a, more, p, q, e, r) = collect-cons one n i s h in
      let (c, l) = collect-Claimed n (suc i) (one i s).0 q in
      rw (e, r)
        (
          Claimed-cons (used s) (used (one i s).0) _ a more (claims i s a p).0 (claims i s a p).1 c,
          ap suc l,
        )

pub erase_all-flag :
    (texts : List String) (m : Dict Bool) (k : String)
    → flag k (erase_all texts m) ≡ (not (contains texts k) && flag k m)
unfolding erase_all
erase_all-flag [] m k = refl
erase_all-flag (a ∷ texts) m k =
    ground (arith, erase_all-flag texts (erase a m) k, flag-erase k a m)

-- Taking back what was claimed restores the map.
pub erase_all-Claimed :
    (before now : Dict Bool) (texts : List String)
    → Claimed before now texts
    → (k : String) → flag k (erase_all texts now) ≡ flag k before
erase_all-Claimed before now texts c k =
    ground (arith, erase_all-flag texts now k, c.fresh k, c.marked k)

-- What no round changes the loop does not change.
pub collect-keeps :
    {S A V : Type 0} (view : S → V) (one : ℕ → Action S A)
    → ((i : ℕ) (s : S) (a : A) → (one i s).1 ≡ ok a → view (one i s).0 ≡ view s)
    → (n i : ℕ) (s : S) {all : List A} → (collect one n i s).1 ≡ ok all
    → view (collect one n i s).0 ≡ view s
collect-keeps view one keeps zero i s h = rw collect-nil
collect-keeps view one keeps (suc n) i s h =
    let (a, more, p, q, e, r) = collect-cons one n i s h in
    rw r (collect-keeps view one keeps n (suc i) (one i s).0 q) ∙ keeps i s a p

-- The clusters and the IPs in use.
abbrev pub untouched : {W : Type 0} → Memory W → (Pointer → ClusterConfig) × Dict Bool
untouched m = (m.heap, m.config.global_state.used_ips)

-- All but the IPs in use.
abbrev pub rest_of : {W : Type 0} → Memory W → (Pointer → ClusterConfig) × Dict Bool
rest_of m = (m.heap, m.config.global_state.used_macs)

module _ {W : Type 0} (random : Action W (ℕ × ℕ × ℕ)) where
  -- What an attempt does with the MAC that it has made.
  settle : ℕ → String → Action (Memory W) String
  settle left mac m = elim (flag mac m.config.global_state.used_macs) [
    | true ↦ try_mac random left m
    | false ↦ on_global (claim random mac) m
  ]

  try_mac-zero :
      (m : Memory W)
      → try_mac random zero m ≡ (m, err "failed to allocate unique MAC after 100 attempts")
  unfolding try_mac
  try_mac-zero m = refl

  try_mac-suc :
      (left : ℕ) (m : Memory W)
      → try_mac random (suc left) m ≡ after (generate_mac random m) (settle left)
  unfolding try_mac settle
  try_mac-suc left m = refl

  settle_used :
      (left : ℕ) (mac : String) (m : Memory W)
      → flag mac m.config.global_state.used_macs ≡ true
      → settle left mac m ≡ try_mac random left m
  unfolding settle
  settle_used left mac m h = rw (h, settle)

  settle_free :
      (left : ℕ) (mac : String) (m : Memory W)
      → flag mac m.config.global_state.used_macs ≡ false
      → settle left mac m ≡ on_global (claim random mac) m
  unfolding settle
  settle_free left mac m h = rw (h, settle)

  generate_mac-config : (m : Memory W) → (generate_mac random m).0.config ≡ m.config
  unfolding generate_mac
  generate_mac-config m = ground arith

  generate_mac-untouched : (m : Memory W) → untouched (generate_mac random m).0 ≡ untouched m
  unfolding generate_mac
  generate_mac-untouched m = ground arith

  -- A MAC that was given was free, and it alone is marked.
  try_mac-Claims :
      (left : ℕ) (m : Memory W) (a : String)
      → (try_mac random left m).1 ≡ ok a
      → Claims m.config.global_state.used_macs
          (try_mac random left m).0.config.global_state.used_macs
          a
  try_mac-Claims zero m a h = absurd (cc (rw try_mac-zero at h))
  try_mac-Claims (suc left) m a h =
      let (mac, p, q) = after-eq-ok (generate_mac random m) (settle left) (rw try_mac-suc at h) in
      let m' = (generate_mac random m).0 in
      let same : m'.config ≡ m.config = generate_mac-config m in
      let e = try_mac-suc left m ∙ q in
      elim (Bool-cases (flag mac m'.config.global_state.used_macs)) [
        | inl busy ↦
            let e' = e ∙ settle_used left mac m' busy in
            rw e' (
              subst
                (λ cfg.
                  Claims cfg.global_state.used_macs
                    (try_mac random left m').0.config.global_state.used_macs a)
                same (try_mac-Claims left m' a (rw e' at h)))
        | inr free ↦
            let e' = e ∙ settle_free left mac m' free in
            let given : mac ≡ a = ok-injective (rw e' at h) in
            rw (e', ← given)
              (subst
                (λ cfg.
                  Claims cfg.global_state.used_macs
                    (on_global (claim random mac) m').0.config.global_state.used_macs mac)
                same (free, λ k. flag-insert k mac m'.config.global_state.used_macs))
      ]

  -- What the attempts leave alone.
  try_mac-keeps :
      (left : ℕ) (m : Memory W) (a : String)
      → (try_mac random left m).1 ≡ ok a
      → untouched (try_mac random left m).0 ≡ untouched m
  try_mac-keeps zero m a h = absurd (cc (rw try_mac-zero at h))
  try_mac-keeps (suc left) m a h =
      let (mac, p, q) = after-eq-ok (generate_mac random m) (settle left) (rw try_mac-suc at h) in
      let m' = (generate_mac random m).0 in
      let e = try_mac-suc left m ∙ q in
      elim (Bool-cases (flag mac m'.config.global_state.used_macs)) [
        | inl busy ↦
            let e' = e ∙ settle_used left mac m' busy in
            rw e' (try_mac-keeps left m' a (rw e' at h) ∙ generate_mac-untouched m)
        | inr free ↦ let e' = e ∙ settle_free left mac m' free in rw e' (generate_mac-untouched m)
      ]

  -- The loop of `allocate` over the MACs.
  unfoldable pub mac_round : ℕ → Action (Memory W) String
  mac_round i = wrap (for_node random "mac" i) (allocate_mac random)

  mac_round-ok :
      (i : ℕ) (m : Memory W) (a : String)
      → (mac_round i m).1 ≡ ok a
      → ((try_mac random 100 m).1 ≡ ok a) × ((mac_round i m).0 ≡ (try_mac random 100 m).0)
  unfolding mac_round allocate_mac
  mac_round-ok i m a h = (map_err-eq-ok _ (try_mac random 100 m).1 h, refl)

  pub mac_round-Claims :
      (i : ℕ) (m : Memory W) (a : String)
      → (mac_round i m).1 ≡ ok a
      → Claims m.config.global_state.used_macs (mac_round i m).0.config.global_state.used_macs a
  mac_round-Claims i m a h = let (e, s) = mac_round-ok i m a h in rw s (try_mac-Claims 100 m a e)

  pub mac_round-keeps :
      (i : ℕ) (m : Memory W) (a : String)
      → (mac_round i m).1 ≡ ok a
      → untouched (mac_round i m).0 ≡ untouched m
  mac_round-keeps i m a h = let (e, s) = mac_round-ok i m a h in rw s (try_mac-keeps 100 m a e)

  unfoldable pub ip_round : ℕ → Action (Memory W) String
  ip_round i = wrap (for_node random "ip" i) (on_global allocate_ip)

  pub ip_round-lem :
      (i : ℕ) (m : Memory W) (a : String)
      → (ip_round i m).1 ≡ ok a
      → Claims m.config.global_state.used_ips (ip_round i m).0.config.global_state.used_ips a
        × (rest_of (ip_round i m).0 ≡ rest_of m)
  unfolding ip_round
  ip_round-lem i m a h = elim (allocate_ip_lem m.config.global_state) [
    | inl (k, _, _, given, free, _, marked, same) ↦
        let e : address k ≡ a =
          ok-injective (sym given ∙ map_err-eq-ok _ (allocate_ip m.config.global_state).1 h) in
        rw (← e) ((free, marked), ap (λ macs. (m.heap, macs)) same)
    | inr (none_left, _) ↦
        absurd
          (cc (map_err-eq-ok _ (allocate_ip m.config.global_state).1 h, ap (λ r. r.1) none_left))
  ]
