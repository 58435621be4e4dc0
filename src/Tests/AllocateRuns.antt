-- ===== src/Tests/AllocateRuns.antt =====
-- Runs of the allocator and of the stages around it.
use easyshift.Base.{none}
use easyshift.Config.Types.{ClusterConfig}
use easyshift.Base.{
  ℕ, zero, suc, ◌+◌, ◌≤◌, ◌<◌, String, ◌≡◌, ◌⊎◌, refl, subst, Bool, true, false, ◌&&◌, ◌||◌, [],
  ◌∷◌, arith, ◌==◌, eqb, Bool-cases, inl, inr,
}
use easyshift.Base.Lists.{length}
use easyshift.Base.Dict.{Dict, flag, lookup, insert}
use easyshift.Base.Text.{decimal, hex_byte}
use easyshift.Base.Action.{ok, err, Action}
use easyshift.Config.Constants.{network_start, network_end}
use easyshift.Config.Memory.{Memory, Disk, save}
use easyshift.Base.Int.{◌+ℤ◌}
use easyshift.Stages.Allocate.{
  address, allocate_ip, allocate, allocate_mac, try_mac, generate_mac, first_free, collect, release,
  give_macs, give_ips, for_node, apply, pool_exhausted, allocate_nat, rollback, derive_magic_domain,
  rounds,
}
use easyshift.Stages.Allocate.Pool.{allocate_ip_lem}
use easyshift.Stages.Allocate.Fresh.{Claimed}
use easyshift.Stages.Allocate.Release.{allocate-Claimed, release-allocate}
use easyshift.Stages.Allocate.Owners.{Reach, here, further, allocates, rolls_back, Own, Reach-Own}
use easyshift.Stages.Allocate.Retry.{Exhausted, no_ip, apply-Exhausted}
use easyshift.Interfaces.Providers.{DnsManager}
use easyshift.Config.Cluster.{valid_magic_dns, dns_zone_or_domain, fqdn, primary_master_ip}
use easyshift.Config.Memory.{on_world}
use easyshift.Stages.Register.{is_registered, register, deregister}
use easyshift.Stages.Register.Registry.{deregister-register}
use easyshift.Stages.Dns
use easyshift.Manager.Validate.{
  validate_new, validate_magic, validate_counts, validate_network, validate_nat, validate_odf,
}
use easyshift.Manager.Validate.NatDns.{accepted_nat-apply}
use easyshift.Base.Text.{Net}
use easyshift.Tests.ConfigRuns.{no_addresses, no_cluster, config_of}
use easyshift.Tests.StageRuns.{no_files}

allocate_ip_lem_example :
    ((k : ℕ) × (network_start ≤ k)
      × (k ≤ network_end)
      × ((allocate_ip no_addresses).1 ≡ ok (address k))
      × (flag (address k) [] ≡ false)
      × ((j : ℕ) → network_start ≤ j → j < k → flag (address j) [] ≡ true)
      × ((a : String)
          → flag a (allocate_ip no_addresses).0.used_ips ≡ (address k == a || flag a []))
      × ((allocate_ip no_addresses).0.used_macs ≡ []))
    ⊎ ((allocate_ip no_addresses ≡ (no_addresses, err pool_exhausted))
        × ((j : ℕ) → network_start ≤ j → j ≤ network_end → flag (address j) [] ≡ true))
allocate_ip_lem_example = allocate_ip_lem no_addresses

-- The random bytes are the same each time.
abbrev bytes : Action ℕ (ℕ × ℕ × ℕ)
bytes w = (suc w, ok (1, 2, 3))

abbrev disk : Disk ℕ
disk = record { files = no_files; marshal = λ s. ok "{}" }

abbrev memory : Memory ℕ
memory = record { heap = λ _. no_cluster; config = config_of []; world = 0 }

allocated : (allocate bytes 0 memory).1 ≡ ok tt
unfolding allocate give_macs give_ips collect allocate_mac try_mac generate_mac for_node allocate_ip
    first_free flag lookup insert decimal address
allocated = refl

allocate-Claimed_example :
    let m' = (allocate bytes 0 memory).0 in
    Claimed [] m'.config.global_state.used_macs (m'.heap 0).mac_addresses
    × Claimed [] m'.config.global_state.used_ips (m'.heap 0).ip_addresses
    × (length (m'.heap 0).mac_addresses ≡ 1)
    × (length (m'.heap 0).ip_addresses ≡ 1)
allocate-Claimed_example = allocate-Claimed bytes 0 memory 1 refl refl allocated

release-allocate_example :
    let m' = (allocate bytes 0 memory).0 in
    let g = release (m'.heap 0) m'.config.global_state in
    (flag "192.168.126.5" g.used_ips ≡ flag "192.168.126.5" [])
    × (flag "192.168.126.5" g.used_macs ≡ flag "192.168.126.5" [])
release-allocate_example = release-allocate bytes 0 memory 1 refl refl allocated "192.168.126.5"

-- The addresses from i on, marked.
abbrev mark_from : ℕ → ℕ → Dict Bool
mark_from zero i = []
mark_from (suc left) i = (address i, true) ∷ mark_from left (suc i)

abbrev all_flags : Dict Bool → ℕ → ℕ → Bool
all_flags used zero i = true
all_flags used (suc left) i = flag (address i) used && all_flags used left (suc i)

all_flags_lem :
    (used : Dict Bool) (left i j : ℕ)
    → all_flags used left i ≡ true
    → i ≤ j
    → j < i + left
    → flag (address j) used ≡ true
all_flags_lem used zero i j h a b = absurd (omega arith)
all_flags_lem used (suc left) i j h a b = elim (Bool-cases (eqb i j)) [
  | inl e ↦
      let same : i ≡ j = ground arith in
      subst (λ k. flag (address k) used ≡ true) same (ground arith)
  | inr e ↦ all_flags_lem used left (suc i) j (ground arith) (ground arith) (omega arith)
]

abbrev full_memory : Memory ℕ
full_memory = record memory {
  config = record (config_of []) {
    global_state = record no_addresses { used_ips = mark_from 16 5 };
  };
}

full : all_flags (mark_from 16 5) 16 5 ≡ true
unfolding flag lookup address decimal
full = refl

full-Exhausted : Exhausted (mark_from 16 5)
full-Exhausted j a b = all_flags_lem (mark_from 16 5) 16 5 j full a (omega arith)

macs_given : (give_macs bytes 0 1 full_memory).1 ≡ ok tt
unfolding give_macs collect allocate_mac try_mac generate_mac for_node flag lookup insert decimal
macs_given = refl

apply-Exhausted_example :
    let m' = (apply disk bytes 0 full_memory).0 in
    ((apply disk bytes 0 full_memory).1 ≡ err no_ip)
    × (apply disk bytes 0 m' ≡ (m', ok tt))
    × ((m'.heap 0).ip_addresses ≡ [])
apply-Exhausted_example =
    apply-Exhausted disk bytes 0 0 full_memory refl refl refl macs_given full-Exhausted

unregistered : is_registered (λ _. no_cluster) [] "c" ≡ false
unfolding is_registered
unregistered = refl

deregister-register_example :
    let m' = (register disk 0 memory).0 in
    (m'.config.clusters ≡ 0 ∷ []) × ((deregister disk 0 m').0.config.clusters ≡ [])
deregister-register_example = deregister-register disk 0 memory unregistered

-- A cluster in NAT mode with a DNS provider.
abbrev published : ClusterConfig
published = record no_cluster {
  dns_provider = "cloudflare";
  magic_dns = "";
  domain = "example.com";
}

abbrev any_net : Net
any_net = record { parse_ip = λ s. none; parse_cidr = λ s. none; parse_mac = λ s. false }

published_accepted : validate_new any_net 0 published ≡ ok tt
unfolding validate_new validate_magic valid_magic_dns validate_counts validate_network validate_nat
    validate_odf
published_accepted = refl

-- A DNS manager whose world counts the records.
abbrev counting : DnsManager ℕ
counting = record { upsert = λ zone fqdn ip w. (suc w, ok tt); delete = λ zone fqdn w. (w, ok tt) }

-- The cluster behind the allocation of its addresses.
abbrev addressed : Memory ℕ
addressed = record memory {
  heap = λ _. record published {
    ip_addresses = "192.168.126.5" ∷ [];
    mac_addresses = "52:54:00:01:02:03" ∷ [];
    machine_cidr = "192.168.126.0/24";
  };
}

accepted_nat-apply_example :
    Dns.apply no_files counting 0 addressed
    ≡ on_world
        (counting.upsert (dns_zone_or_domain (addressed.heap 0)) (fqdn (addressed.heap 0)) "")
        addressed
accepted_nat-apply_example =
    accepted_nat-apply any_net no_files counting 0 0 published addressed published_accepted refl
      refl refl

-- Two clusters allocate, and the first one is rolled back.
abbrev counting_bytes : Action ℕ (ℕ × ℕ × ℕ)
counting_bytes w = (suc w, ok (1, 2, w))

abbrev first : Memory ℕ
first = (apply disk counting_bytes 0 memory).0

abbrev second : Memory ℕ
second = (apply disk counting_bytes 1 first).0

abbrev third : Memory ℕ
third = (rollback disk counting_bytes 0 second).0

first_applied : (apply disk counting_bytes 0 memory).1 ≡ ok tt
unfolding apply allocate_nat allocate give_macs give_ips collect allocate_mac try_mac generate_mac
    for_node allocate_ip first_free flag lookup insert decimal address derive_magic_domain save
first_applied = refl

second_applied :
    ((first.heap 1).network_mode ≡ "nat")
    × ((first.heap 1).mac_addresses ≡ [])
    × (rounds ((first.heap 1).master_count +ℤ (first.heap 1).worker_count) ≡ ok 1)
    × ((apply disk counting_bytes 1 first).1 ≡ ok tt)
    × ((second.heap 0).network_mode ≡ "nat")
unfolding apply allocate_nat allocate give_macs give_ips collect allocate_mac try_mac generate_mac
    for_node allocate_ip first_free flag lookup insert decimal address derive_magic_domain save
    hex_byte primary_master_ip
second_applied = (refl, refl, refl, refl, refl)

abbrev three_steps : Reach disk counting_bytes memory third
three_steps =
    further
      (further (further here (allocates memory 0 1 refl refl refl first_applied))
        (allocates first 1 1 second_applied.0 second_applied.1 second_applied.2 second_applied.3))
      (rolls_back second 0 second_applied.4)

Reach-Own_example : Own disk counting_bytes third
Reach-Own_example = Reach-Own disk counting_bytes memory third (λ p. (refl, refl)) three_steps
