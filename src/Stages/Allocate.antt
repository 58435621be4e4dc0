-- ===== src/Stages/Allocate.antt =====
-- stages/allocatenetwork: the allocator of addresses, and the stage that uses it. The random bytes
-- of `crypto/rand` are a parameter.
pub mod Pool
pub mod Fresh
pub mod Release
pub mod Retry
pub mod Owners
use easyshift.Base.{
  ℕ, zero, suc, String, ◌+◌, ◌-◌, ◌<>◌, Bool, true, false, List, [], ◌∷◌, Option, none, some, ◌==◌,
  if◌then◌else◌,
}
use easyshift.Base.Int.{ℤ, pos, negsuc, ◌+ℤ◌}
use easyshift.Base.Text.{decimal, hex_byte}
use easyshift.Base.Dict.{Dict, insert, erase, flag}
use easyshift.Base.Action.{
  Error, Result, ok, err, Action, Effect, after, ◌>>=◌, ◌>>◌, pure, done, fail, wrap, get, modify,
}
use easyshift.Interfaces.Stage.{Stage}
use easyshift.Config.Types.{ClusterConfig, GlobalState, Config, Pointer}
use easyshift.Config.Constants.{
  base_network_range, network_start, network_end, network_mode_nat, network_mode_bridge,
}
use easyshift.Config.Memory.{Memory, Disk, save, on_world, change, change_config}
use easyshift.Config.Cluster.{primary_master_ip, magic_domain}

unfoldable pub address : ℕ → String
address i = base_network_range <> ("." <> decimal i)

-- The loop of `allocateIP` over the `left` addresses from i on.
unfoldable pub first_free : Dict Bool → ℕ → ℕ → Option String
first_free used zero i = none
first_free used (suc left) i =
    let rest = first_free used left (suc i) in
    if flag (address i) used then rest else some (address i)

abbrev pub pool_size : ℕ
pool_size = network_end + 1 - network_start

abbrev pub pool_exhausted : Error
pool_exhausted =
    "no available IP addresses in range "
    <> (base_network_range <> ("." <> (decimal network_start <> ("-" <> decimal network_end))))

abbrev pub taken : GlobalState → Option String → GlobalState × Result String
taken g none = (g, err pool_exhausted)
taken g (some ip) = (record g { used_ips = insert ip true g.used_ips }, ok ip)

unfoldable pub allocate_ip : Action GlobalState String
allocate_ip g = taken g (first_free g.used_ips pool_size network_start)

abbrev pub on_global : {W A : Type 0} → Action GlobalState A → Action (Memory W) A
on_global act m =
    let (g, r) = act m.config.global_state in
    (record m { config = record m.config { global_state = g } }, r)

-- The addresses that a loop of `total` rounds gives, in order.
unfoldable pub collect : {S A : Type 0} → (ℕ → Action S A) → ℕ → ℕ → Action S (List A)
collect one zero i = pure []
collect one (suc left) i = do a ← one i; more ← collect one left (suc i); pure (a ∷ more)

-- `make([]string, total)` panics for a negative total.
abbrev pub rounds : ℤ → Result ℕ
rounds (pos n) = ok n
rounds (negsuc n) = err "panic: runtime error: makeslice: len out of range"

abbrev pub lift : {S A : Type 0} → Result A → Action S A
lift r s = (s, r)

module _ {W : Type 0} (random : Action W (ℕ × ℕ × ℕ)) where
  -- `generateMAC`, from three random bytes.
  mac_text : ℕ × ℕ × ℕ → String
  mac_text (a, b, c) = "52:54:00:" <> (hex_byte a <> (":" <> (hex_byte b <> (":" <> hex_byte c))))

  unfoldable pub generate_mac : Action (Memory W) String
  unfolding mac_text
  generate_mac = do
    bytes ← wrap (λ e. "read random bytes: " <> e) (on_world random)
    pure (mac_text bytes)

  abbrev pub claim : String → Action GlobalState String
  claim mac g = (record g { used_macs = insert mac true g.used_macs }, ok mac)

  -- The loop of `allocateMAC`, with `left` attempts left.
  unfoldable pub try_mac : ℕ → Action (Memory W) String
  try_mac zero m = (m, err "failed to allocate unique MAC after 100 attempts")
  try_mac (suc left) m = after (generate_mac m) λ mac m'.
      elim (flag mac m'.config.global_state.used_macs) [
        | true ↦ try_mac left m'
        | false ↦ on_global (claim mac) m'
      ]

  unfoldable pub allocate_mac : Action (Memory W) String
  unfolding try_mac
  allocate_mac = try_mac 100

  unfoldable pub for_node : String → (ℕ → Error → Error)
  for_node kind i e = "allocate " <> (kind <> (" for node " <> (decimal i <> (": " <> e))))

  -- The first loop of `allocate`, and what it assigns.
  unfoldable pub give_macs : Pointer → ℕ → Effect (Memory W)
  give_macs p total = do
    macs ← collect (λ i. wrap (for_node "mac" i) allocate_mac) total 0
    change p (λ c. record c { mac_addresses = macs })

  -- The second loop, in NAT mode.
  unfoldable pub give_ips : Pointer → ℕ → Effect (Memory W)
  give_ips p total = do
    ips ← collect (λ i. wrap (for_node "ip" i) (on_global allocate_ip)) total 0
    change p (λ c. record c { ip_addresses = ips; network_subnet = base_network_range })

  unfoldable pub allocate : Pointer → Effect (Memory W)
  allocate p = do
    c ← (λ m. (m, ok (m.heap p)))
    total ← lift (rounds (c.master_count +ℤ c.worker_count))
    give_macs p total
    if c.network_mode == network_mode_nat
        then give_ips p total
        else change p (λ c. record c { ip_addresses = []; network_subnet = "" })

-- `release`
unfoldable pub erase_all : List String → Dict Bool → Dict Bool
erase_all [] m = m
erase_all (k ∷ ks) m = erase_all ks (erase k m)

unfoldable pub release : ClusterConfig → GlobalState → GlobalState
release c g = record g {
  used_ips = erase_all c.ip_addresses g.used_ips;
  used_macs = erase_all c.mac_addresses g.used_macs;
}

-- `deriveMagicDomain`
unfoldable pub derive_magic_domain : ClusterConfig → ClusterConfig
derive_magic_domain c =
    if c.magic_dns == ""
    then c
    else if c.domain == ""
    then (let ip = primary_master_ip c in
        if ip == "" then c else record c { domain = magic_domain ip c.magic_dns })
    else c

module _ {W : Type 0} (disk : Disk W) (random : Action W (ℕ × ℕ × ℕ)) (p : Pointer) where
  -- The user's MAC and IP are recorded, and the MAC is registered.
  unfoldable pub record_bridge : Effect (Memory W)
  record_bridge = do
    change p (λ c. record c { mac_addresses = c.master_mac ∷ []; ip_addresses = c.master_ip ∷ [] })
    mac ← (λ m. (m, ok (m.heap p).master_mac))
    change_config (λ cfg. record cfg {
      global_state = record cfg.global_state {
        used_macs = insert mac true cfg.global_state.used_macs;
      };
    })
    change p derive_magic_domain
    save disk

  unfoldable pub allocate_nat : Effect (Memory W)
  allocate_nat = do
    allocate random p
    change p (λ c. record c { machine_cidr = c.network_subnet <> ".0/24" })
    change p derive_magic_domain
    save disk

  unfoldable pub apply : Effect (Memory W)
  apply m = elim (m.heap p).mac_addresses [
    | mac ∷ more ↦ (m, ok tt)
    | [] ↦
        if (m.heap p).network_mode == network_mode_bridge then record_bridge m else allocate_nat m
  ]

  unfoldable pub rollback : Effect (Memory W)
  rollback = do
    c ← (λ m. (m, ok (m.heap p)))
    change_config (λ cfg. record cfg { global_state = release c cfg.global_state })
    change p (λ c. record c { ip_addresses = []; mac_addresses = [] })
    save disk

  unfoldable pub stage : Stage (Memory W)
  stage = record { name = "allocate-network"; apply = apply; rollback = rollback; preflight = none }
