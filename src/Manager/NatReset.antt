-- ===== src/Manager/NatReset.antt =====
-- app/natreset.go: the plan that finds drift between the shared NAT network and the config, and
-- what applies it. `sort.Strings` is a parameter, which leaves out and adds nothing.
pub mod Leaks
use easyshift.Base.{
  ℕ, String, ◌<>◌, Bool, true, false, not, ◌&&◌, ◌||◌, List, [], ◌∷◌, map, ◌==◌, if◌then◌else◌,
}
use easyshift.Base.Lists.{keep}
use easyshift.Base.Dict.{Dict, insert, flag, keys}
use easyshift.Base.Text.{decimal, join, to_lower}
use easyshift.Base.Action.{
  Error, Result, ok, err, Action, Effect, after, ◌>>=◌, ◌>>◌, pure, done, fail, require, wrap,
}
use easyshift.Interfaces.Providers.{NetworkProvisioner, NetworkInfo, DhcpHost, DhcpLease, VmManager}
use easyshift.Config.Types.{ClusterConfig, GlobalState, Config, Pointer}
use easyshift.Config.Constants.{
  base_network_range, dhcp_dynamic_start, dhcp_dynamic_end, shared_nat_network, network_mode_nat,
}
use easyshift.Config.Memory.{Memory, Disk, save, on_world, change_config, registered}
use easyshift.Config.Cluster.{primary_master_ip, primary_master_mac}
use easyshift.Stages.Allocate.{erase_all}
use easyshift.Stages.Network.{shared_network}

pub record NatResetPlan : Type 0 where
  pub network_exists : Bool
  pub expected_range : String
  pub current_range : String
  pub range_outdated : Bool
  pub orphan_reservations : List DhcpHost
  pub stale_leases : List DhcpLease
  pub leaked_ips : List String
  pub leaked_macs : List String
  pub running_clusters : List String
  pub recreate : Bool
  pub blocked : Bool

abbrev nonempty : {A : Type 0} → List A → Bool
nonempty [] = false
nonempty (_ ∷ _) = true

unfoldable pub has_work : NatResetPlan → Bool
has_work p =
    p.recreate || nonempty p.orphan_reservations || nonempty p.leaked_ips || nonempty p.leaked_macs

-- The loops of `knownAddrs`
unfoldable pub add_all : List String → Dict Bool → Dict Bool
add_all [] m = m
add_all (k ∷ ks) m = add_all ks (insert k true m)

unfoldable pub known_ips : List ClusterConfig → Dict Bool → Dict Bool
known_ips [] m = m
known_ips (c ∷ cs) m = known_ips cs (add_all c.ip_addresses m)

unfoldable pub known_macs : List ClusterConfig → Dict Bool → Dict Bool
known_macs [] m = m
known_macs (c ∷ cs) m = known_macs cs (add_all (map to_lower c.mac_addresses) m)

unfoldable pub nat_clusters : List ClusterConfig → List ClusterConfig
nat_clusters = keep (λ c. c.network_mode == network_mode_nat)

abbrev expected_start : String
expected_start = base_network_range <> ("." <> decimal dhcp_dynamic_start)

unfoldable pub is_outdated : NetworkInfo → Bool
is_outdated info =
    info.exists
    && not (info.dhcp_range_start == "")
    && not (info.dhcp_range_start == expected_start)

unfoldable pub orphans : Dict Bool → Dict Bool → List DhcpHost → List DhcpHost
orphans ips macs = keep (λ h. not (flag (to_lower h.mac) macs) && not (flag h.ip ips))

unfoldable pub stale : Dict Bool → List DhcpLease → List DhcpLease
stale ips = keep (λ l. not (flag l.ip ips))

unfoldable pub leaked_ips_of : GlobalState → List ClusterConfig → List String
leaked_ips_of g cs = keep (λ ip. not (flag ip (known_ips cs []))) (keys g.used_ips)

unfoldable pub leaked_macs_of : GlobalState → List ClusterConfig → List String
leaked_macs_of g cs = keep (λ mac. not (flag (to_lower mac) (known_macs cs []))) (keys g.used_macs)

module _ {W : Type 0} (disk : Disk W) (sort : List String → List String)
    (net : NetworkProvisioner W) (vm : VmManager W) where
  abbrev is_up : Result Bool → Bool
  is_up (ok b) = b
  is_up (err _) = false

  -- The clusters whose VM is up, probed in order.
  unfoldable pub running_of : List ClusterConfig → W → W × List String
  running_of [] w = (w, [])
  running_of (c ∷ cs) w =
      let (w', up) = vm.is_running ("master-0-" <> c.name) w in
      let (w'', names) = running_of cs w' in (w'', if is_up up then c.name ∷ names else names)

  abbrev plan_with :
      Bool → NetworkInfo → GlobalState → List ClusterConfig → List String → NatResetPlan
  plan_with force info g cs running = record {
    network_exists = info.exists;
    expected_range =
        base_network_range
        <> ("." <> (decimal dhcp_dynamic_start <> ("-" <> decimal dhcp_dynamic_end)));
    current_range =
        if info.exists && not (info.dhcp_range_start == "")
        then info.dhcp_range_start <> ("-" <> info.dhcp_range_end)
        else "";
    range_outdated = is_outdated info;
    orphan_reservations =
        if info.exists then orphans (known_ips cs []) (known_macs cs []) info.reservations else [];
    stale_leases = if info.exists then stale (known_ips cs []) info.leases else [];
    leaked_ips = sort (leaked_ips_of g cs);
    leaked_macs = sort (leaked_macs_of g cs);
    running_clusters = sort running;
    recreate = is_outdated info;
    blocked = is_outdated info && nonempty (sort running) && not force;
  }

  abbrev probe : NetworkInfo → List ClusterConfig → W → W × List String
  probe info cs w = elim (is_outdated info) [
    | true ↦ running_of (nat_clusters cs) w
    | false ↦ (w, [])
  ]

  unfoldable pub plan_nat_reset : Bool → Action (Memory W) NatResetPlan
  plan_nat_reset force m =
      after
        (wrap (λ e. "inspect easyshift-nat: " <> e)
          (on_world (net.inspect_network shared_nat_network)) m)
        λ info m'.
          let (w, running) = probe info (registered m') m'.world in
          (
            record m' { world = w },
            ok (plan_with force info m'.config.global_state (registered m') running),
          )

  abbrev reservation : ClusterConfig → DhcpHost
  reservation c = record {
    mac = primary_master_mac c;
    ip = primary_master_ip c;
    hostname = "master-0-" <> c.name;
  }

  -- The loop that restores the reservations of the clusters that remain.
  unfoldable pub restore : List ClusterConfig → Effect W
  restore [] = done
  restore (c ∷ cs) = do
    if primary_master_mac c == "" || primary_master_ip c == ""
        then done
        else wrap (λ e. "restore reservation for " <> (c.name <> (": " <> e)))
            (net.add_host shared_nat_network (reservation c))
    restore cs

  abbrev rebuild : List ClusterConfig → Effect W
  rebuild [] = done
  rebuild (c ∷ cs) = do
    wrap (λ e. "recreate network: " <> e) (net.ensure_network shared_network)
    restore (c ∷ cs)

  unfoldable pub recreate_network : List ClusterConfig → Effect W
  recreate_network cs = do
    wrap (λ e. "reset network: " <> e) (net.reset_network shared_nat_network)
    rebuild (nat_clusters cs)

  unfoldable pub remove_orphans : List DhcpHost → Effect W
  remove_orphans [] = done
  remove_orphans (h ∷ hs) = do
    wrap (λ e. "remove orphan reservation " <> (h.mac <> (": " <> e)))
        (net.remove_host shared_nat_network h)
    remove_orphans hs

  unfoldable pub prune : NatResetPlan → GlobalState → GlobalState
  prune plan g = record g {
    used_ips = erase_all plan.leaked_ips g.used_ips;
    used_macs = erase_all plan.leaked_macs g.used_macs;
  }

  unfoldable pub apply_nat_reset : NatResetPlan → Effect (Memory W)
  apply_nat_reset plan m =
      (do
        require (not plan.blocked) (
            "resetting easyshift-nat needs to recreate it (outdated DHCP range), which would disrupt running cluster(s): "
            <> (join plan.running_clusters ", "
                <> "\n  stop them with `easyshift stop <name>` or re-run with --force"))
        on_world (
            if plan.recreate
            then recreate_network (registered m)
            else remove_orphans plan.orphan_reservations)
        change_config (λ cfg. record cfg { global_state = prune plan cfg.global_state })
        save disk)
        m
