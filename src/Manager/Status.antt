-- ===== src/Manager/Status.antt =====
-- app/status.go: the diagnostics of a cluster. Printing the report is not modelled, and the tail of
-- the installer's log is left out.
pub mod Records
pub mod Agreement
use easyshift.Base.{
  ℕ, String, ◌<>◌, Bool, true, false, not, Option, none, some, List, [], ◌∷◌, ◌++◌, ◌==◌,
  if◌then◌else◌,
}
use easyshift.Base.Lists.{contains}
use easyshift.Base.Text.{join}
use easyshift.Base.Action.{Error, Result, ok, err}
use easyshift.Interfaces.Providers.{VmManager, HostInspector, DnsResolver}
use easyshift.Config.Types.{ClusterConfig}
use easyshift.Config.Constants.{network_mode_bridge}
use easyshift.Config.Cluster.{fqdn, primary_master_ip}
use easyshift.Config.Paths.{cluster_dns_names}
use easyshift.Stages.MasterVm.{show_list}

pub record StatusCheck : Type 0 where
  pub name : String
  pub passed : Bool
  pub detail : String
  pub hint : String

module _ {W : Type 0} (vm : VmManager W) (host : HostInspector W) (dns : DnsResolver W) where
  abbrev vm_verdict : String → String → Result Bool → StatusCheck
  vm_verdict cluster vm_name (err e) = record {
    name = "VM exists";
    passed = false;
    detail = "could not query VM " <> (vm_name <> " state");
    hint =
        "inspect the hypervisor (libvirt: `sudo virsh list --all`; vfkit: check the easyshift VM state dir)";
  }
  vm_verdict cluster vm_name (ok false) = record {
    name = "VM running";
    passed = false;
    detail = "not running";
    hint = "start the cluster with `easyshift start " <> (cluster <> "`");
  }
  vm_verdict cluster vm_name (ok true) = record {
    name = "VM running";
    passed = true;
    detail = "running";
    hint = "";
  }

  unfoldable pub check_vm_state : ClusterConfig → W → W × StatusCheck
  check_vm_state c w =
      let vm_name = "master-0-" <> c.name in
      let (w', running) = vm.is_running vm_name w in (w', vm_verdict c.name vm_name running)

  abbrev arp_verdict : ClusterConfig → Result String → StatusCheck
  arp_verdict c (err e) = record {
    name = "ARP for master MAC";
    passed = false;
    detail = e;
    hint = "";
  }
  arp_verdict c (ok ip) =
      if ip == ""
      then record {
        name = "ARP for master MAC";
        passed = false;
        detail = "no entry (host has not seen this MAC)";
        hint = "try `ping -c2 " <> (c.master_ip <> "` to populate ARP, then re-run status");
      }
      else if not (ip == c.master_ip)
      then record {
        name = "ARP for master MAC";
        passed = false;
        detail = "MAC " <> (c.master_mac <> (" is at " <> (ip <> (", expected " <> c.master_ip))));
        hint =
            "the router did not honor your DHCP reservation; fix the reservation so MAC "
            <> (c.master_mac <> (" leases " <> c.master_ip));
      }
      else record {
        name = "ARP for master MAC";
        passed = true;
        detail = c.master_mac <> (" -> " <> ip);
        hint = "";
      }

  unfoldable pub check_arp : ClusterConfig → W → W × StatusCheck
  check_arp c w = let (w', ip) = host.arp_lookup c.master_mac w in (w', arp_verdict c ip)

  -- What is wrong with the records of one name, if anything is.
  abbrev record_faults : String → String → Result (List String) → List String
  record_faults want name (err e) = (name <> (": lookup failed: " <> e)) ∷ []
  record_faults want name (ok []) = (name <> ": no records") ∷ []
  record_faults want name (ok (ip ∷ ips)) =
      if contains (ip ∷ ips) want
      then []
      else (name <> (": " <> (show_list (ip ∷ ips) <> (" (want " <> (want <> ")"))))) ∷ []

  -- The loop of `checkDNS`
  unfoldable pub faults : String → List String → W → W × List String
  faults want [] w = (w, [])
  faults want (name ∷ names) w =
      let (w', ips) = dns.resolve name w in
      let (w'', more) = faults want names w' in (w'', record_faults want name ips ++ more)

  abbrev dns_verdict : String → List String → StatusCheck
  dns_verdict want [] = record {
    name = "DNS records";
    passed = true;
    detail = "all 3 records resolve to " <> want;
    hint = "";
  }
  dns_verdict want (f ∷ fs) = record {
    name = "DNS records";
    passed = false;
    detail = join (f ∷ fs) "; ";
    hint =
        "add A records for api.<fqdn>, api-int.<fqdn>, *.apps.<fqdn> pointing at "
        <> (want
            <> (" (and, optionally per OpenShift docs, a PTR for "
                <> (want <> " -> master-0.<fqdn>)")));
  }

  unfoldable pub check_dns : ClusterConfig → String → W → W × StatusCheck
  check_dns c name w =
      let (w', bad) = faults c.master_ip (cluster_dns_names name) w in
      (w', dns_verdict c.master_ip bad)

  abbrev port_verdict : String → String → String → Result (Unit {0}) → StatusCheck
  port_verdict name hint addr (err e) = record {
    name = name;
    passed = false;
    detail = e;
    hint = hint;
  }
  port_verdict name hint addr (ok _) = record {
    name = name;
    passed = true;
    detail = "connected to " <> addr;
    hint = "";
  }

  unfoldable pub check_api_port : String → W → W × StatusCheck
  check_api_port master_ip w =
      let addr = master_ip <> ":6443" in
      let (w', r) = host.dial_tcp addr w in
      (
        w',
        port_verdict "API port 6443 (by IP)"
            "if the VM is up, the API may still be bootstrapping; check `sudo virsh console master-0-<cluster>` for kubelet/etcd progress"
            addr r,
      )

  unfoldable pub check_api_dns : String → W → W × StatusCheck
  check_api_dns name w =
      let addr = "api." <> (name <> ":6443") in
      let (w', r) = host.dial_tcp addr w in
      (
        w',
        port_verdict "API via DNS"
            "either DNS is wrong or the IP is unreachable; see the DNS-records and API-port checks above"
            addr r,
      )

  -- Checks in a row.
  unfoldable pub run_checks : List (W → W × StatusCheck) → W → W × List StatusCheck
  run_checks [] w = (w, [])
  run_checks (check ∷ rest) w =
      let (w', c) = check w in let (w'', more) = run_checks rest w' in (w'', c ∷ more)

  -- The checks of `Status`, for a cluster that was found.
  unfoldable pub status_checks : ClusterConfig → List (W → W × StatusCheck)
  status_checks c =
      let bridge =
        if c.network_mode == network_mode_bridge
        then check_arp c ∷ check_dns c (fqdn c) ∷ []
        else [] in
      let ip = primary_master_ip c in
      let port = if not (ip == "") then check_api_port ip ∷ [] else [] in
      (check_vm_state c ∷ bridge) ++ (port ++ (check_api_dns (fqdn c) ∷ []))
