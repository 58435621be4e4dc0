-- ===== src/Stages/Network.antt =====
-- stages/createnetwork: the shared NAT network and the cluster's reservation in it.
use easyshift.Base.{String, ◌<>◌, not, none, some, List, [], ◌∷◌, ◌==◌, if◌then◌else◌}
use easyshift.Base.Action.{ok, Effect, ◌>>◌, done}
use easyshift.Interfaces.Stage.{Stage}
use easyshift.Interfaces.Providers.{NetworkProvisioner, NetworkSpec, DhcpHost, VmManager}
use easyshift.Config.Types.{ClusterConfig, Pointer}
use easyshift.Config.Constants.{network_mode_nat, shared_nat_network, base_network_range}
use easyshift.Config.Memory.{Memory, on_world}
use easyshift.Config.Cluster.{primary_master_ip}

abbrev pub first_or_empty : List String → String
first_or_empty [] = ""
first_or_empty (x ∷ xs) = x

unfoldable pub master_reservation : ClusterConfig → DhcpHost
master_reservation c = record {
  mac = first_or_empty c.mac_addresses;
  ip = primary_master_ip c;
  hostname = "master-0-" <> c.name;
}

abbrev pub shared_network : NetworkSpec
shared_network = record {
  name = shared_nat_network;
  bridge = "";
  subnet = base_network_range;
  domain = "";
}

module _ {W : Type 0} (net : NetworkProvisioner W) (vm : VmManager W) (p : Pointer) where
  abbrev network_check : Effect W
  network_check = elim (net.network_preflight) [ none ↦ done | some check ↦ check ]

  unfoldable pub preflight : Effect (Memory W)
  preflight m =
      if not ((m.heap p).network_mode == network_mode_nat)
      then (m, ok tt)
      else on_world (do vm.check_access; network_check) m

  unfoldable pub apply : Effect (Memory W)
  apply m =
      let c = m.heap p in
      if not (c.network_mode == network_mode_nat)
      then (m, ok tt)
      else on_world
          (do
            net.ensure_network shared_network
            net.add_host shared_nat_network (master_reservation c))
          m

  unfoldable pub rollback : Effect (Memory W)
  rollback m =
      let c = m.heap p in
      if not (c.network_mode == network_mode_nat)
      then (m, ok tt)
      else on_world (net.remove_host shared_nat_network (master_reservation c)) m

  unfoldable pub stage : Stage (Memory W)
  stage = record {
    name = "create-network";
    apply = apply;
    rollback = rollback;
    preflight = some preflight;
  }
