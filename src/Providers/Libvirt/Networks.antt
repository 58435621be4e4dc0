-- ===== src/Providers/Libvirt/Networks.antt =====
-- providers/libvirt/libvirt.go: the shared NAT network by `virsh`. Package `regexp` and the creation
-- of temporary files are parameters.
pub mod Cleanup
use easyshift.Base.{
  String, ◌<>◌, Bool, true, false, not, ◌&&◌, ◌||◌, Option, none, some, List, [], ◌∷◌, ltb, ◌==◌,
  if◌then◌else◌,
}
use easyshift.Base.Text.{decimal, has_substring, split_at, fields, first_part}
use easyshift.Base.Action.{
  Error, Result, ok, err, Action, Effect, ◌>>=◌, ◌>>◌, wrap, attempt, or_clean, finally, done,
}
use easyshift.Interfaces.Os.{Files}
use easyshift.Interfaces.Providers.{
  CommandRunner, NetworkSpec, DhcpHost, DhcpLease, NetworkInfo, NetworkProvisioner,
}
use easyshift.Config.Constants.{dhcp_dynamic_start, dhcp_dynamic_end}
use easyshift.Providers.Libvirt.{virsh, virsh_do, failing}

-- `FindStringSubmatch` gives the groups of the first match, and `FindAllString` every match.
pub record Regexp : Type 0 where
  pub find_submatch : String → String → Option (List String)
  pub find_all : String → String → List String

-- `os.CreateTemp` of a pattern, with the text that is written to the file.
pub record TempFiles (W : Type 0) : Type 0 where
  pub create_temp : String → Action W String
  pub write : String → String → Effect W

unfoldable pub build_network_xml : NetworkSpec → String
build_network_xml spec =
    let domain =
      if not (spec.domain == "")
      then "\n  <domain name='" <> (spec.domain <> "' localOnly='yes'/>")
      else "" in
    let bridge =
      if not (spec.bridge == "")
      then "<bridge name='" <> (spec.bridge <> "' stp='on' delay='0'/>")
      else "<bridge stp='on' delay='0'/>" in
    "<network>\n  <name>"
    <> (spec.name
        <> ("</name>\n  <forward mode='nat'>\n    <nat>\n      <port start='1024' end='65535'/>\n    </nat>\n  </forward>\n  "
            <> (bridge
                <> (domain
                    <> ("\n  <ip address='"
                        <> (spec.subnet
                            <> (".1' netmask='255.255.255.0'>\n    <dhcp>\n      <range start='"
                                <> (spec.subnet
                                    <> ("."
                                        <> (decimal dhcp_dynamic_start
                                            <> ("' end='"
                                                <> (spec.subnet
                                                    <> ("."
                                                        <> (decimal dhcp_dynamic_end
                                                            <> "'/>\n    </dhcp>\n  </ip>\n</network>"))))))))))))))

module _ (re : Regexp) where
  abbrev both : Option (List String) → String × String
  both (some (whole ∷ start ∷ end ∷ rest)) = (start, end)
  both _ = ("", "")

  unfoldable pub parse_dhcp_range : String → String × String
  parse_dhcp_range xml = both (re.find_submatch "<range\\s+start='([^']+)'\\s+end='([^']+)'" xml)

  abbrev group : Option (List String) → String
  group (some (whole ∷ value ∷ rest)) = value
  group _ = ""

  abbrev host_of : String → DhcpHost
  host_of line = record {
    mac = group (re.find_submatch "mac='([^']+)'" line);
    ip = group (re.find_submatch "ip='([^']+)'" line);
    hostname = group (re.find_submatch "name='([^']*)'" line);
  }

  abbrev hosts_of : List String → List DhcpHost
  hosts_of [] = []
  hosts_of (line ∷ lines) =
      let rest = hosts_of lines in
      let h = host_of line in if not (h.mac == "") || not (h.ip == "") then h ∷ rest else rest

  unfoldable pub parse_reservations : String → List DhcpHost
  parse_reservations xml = hosts_of (re.find_all "<host\\b[^>]*/?>" xml)

abbrev name_of : List String → String
name_of [] = ""
name_of (host ∷ rest) = if host == "-" then "" else host

-- A row of the table by its fields; a row with less than five of them is skipped.
unfoldable pub lease_of : List String → Option DhcpLease
lease_of (date ∷ time ∷ mac ∷ proto ∷ ip ∷ rest) =
    if has_substring mac ":"
    then some (record { mac = mac; ip = first_part "/" ip; hostname = name_of rest })
    else none
lease_of _ = none

abbrev add_lease : Option DhcpLease → List DhcpLease → List DhcpLease
add_lease none ls = ls
add_lease (some l) ls = l ∷ ls

unfoldable pub leases_of : List String → List DhcpLease
unfolding lease_of
leases_of [] = []
leases_of (line ∷ lines) = add_lease (lease_of (fields line)) (leases_of lines)

unfoldable pub parse_leases : String → List DhcpLease
unfolding leases_of
parse_leases out = leases_of (split_at "\n" out)

unfoldable pub host_entry : DhcpHost → String
host_entry host =
    "<host mac='"
    <> (host.mac <> ("' name='" <> (host.hostname <> ("' ip='" <> (host.ip <> "'/>")))))

module _ {W : Type 0} (cmd : CommandRunner W) where
  -- A subcommand that names a network.
  abbrev pub net : String → String → Effect W
  net sub name = virsh_do cmd (sub ∷ name ∷ [])

  module _ (files : Files W) (temp : TempFiles W) where
    unfoldable pub write_temp_file : String → String → Action W String
    write_temp_file pattern text = do
      file ← temp.create_temp pattern
      temp.write file text
      λ w. (w, ok file)

    -- What follows the definition of the network: a later step that fails takes it back.
    unfoldable pub activate : String → Effect W
    activate name = do
      or_clean (attempt (net "net-undefine" name))
          (wrap (failing "net-start" name) (net "net-start" name))
      or_clean (do attempt (net "net-destroy" name); attempt (net "net-undefine" name))
          (wrap (failing "net-autostart" name) (net "net-autostart" name))

    -- The network from the file that describes it.
    unfoldable pub define_from : String → String → Effect W
    unfolding activate
    define_from name file = do
      wrap (failing "net-define" name) (net "net-define" file)
      activate name

    unfoldable pub define_network : NetworkSpec → Effect W
    unfolding write_temp_file build_network_xml define_from
    define_network spec = do
      file ←
          wrap (λ e. "write network XML: " <> e)
            (write_temp_file (spec.name <> "-network-*.xml") (build_network_xml spec))
      finally (files.remove file) (define_from spec.name file)

    unfoldable pub ensure_network : NetworkSpec → Effect W
    unfolding define_network
    ensure_network spec w =
        let (w', r) = net "net-info" spec.name w in
        elim r [ ok _ ↦ attempt (net "net-start" spec.name) w' | err e ↦ define_network spec w' ]

  -- `net-update` of a reservation, whose failure is passed over where the test holds of the output
  -- and the error.
  abbrev update_host :
      String → String → (Error → Error) → (String → Error → Bool) → DhcpHost → Effect W
  update_host network action note passes host w =
      let (w', (out, r)) =
        cmd.run_output "virsh"
          ("-c"
            ∷ "qemu:///system"
            ∷ "net-update"
            ∷ network
            ∷ action
            ∷ "ip-dhcp-host"
            ∷ host_entry host
            ∷ "--live"
            ∷ "--config"
            ∷ [])
          w in
      elim r [
        | ok _ ↦ (w', ok tt)
        | err e ↦ if passes out e then (w', ok tt) else (w', err (note e))
      ]

  unfoldable pub add_host : String → DhcpHost → Effect W
  unfolding host_entry
  add_host network host =
      update_host network "add"
        (λ e. "net-update add host " <> (host.mac <> (" on " <> (network <> (": " <> e)))))
        (λ out e. has_substring out "already" || has_substring e "already") host

  unfoldable pub remove_host : String → DhcpHost → Effect W
  unfolding host_entry
  remove_host network host =
      update_host network "delete"
        (λ e. "net-update delete host " <> (host.mac <> (" on " <> (network <> (": " <> e)))))
        (λ out e. has_substring out "no " || has_substring e "matching") host

  abbrev leases_or_none : Result String → List DhcpLease
  leases_or_none (ok out) = parse_leases out
  leases_or_none (err e) = []

  module _ (re : Regexp) where
    abbrev info_of : String → List DhcpLease → NetworkInfo
    info_of xml leases = record {
      exists = true;
      dhcp_range_start = (parse_dhcp_range re xml).0;
      dhcp_range_end = (parse_dhcp_range re xml).1;
      reservations = parse_reservations re xml;
      leases = leases;
    }

    unfoldable pub inspect_network : String → Action W NetworkInfo
    unfolding parse_leases parse_dhcp_range parse_reservations
    inspect_network name w =
        let (w1, r) = virsh cmd ("net-dumpxml" ∷ name ∷ []) w in
        elim r [
          | ok xml ↦
              let (w2, table) = virsh cmd ("net-dhcp-leases" ∷ name ∷ []) w1 in
              (w2, ok (info_of xml (leases_or_none table)))
          | err e ↦ (
            w1,
            ok (record {
              exists = false;
              dhcp_range_start = "";
              dhcp_range_end = "";
              reservations = [];
              leases = [];
            }),
          )
        ]

  unfoldable pub reset_network : String → Effect W
  reset_network name w =
      let (w1, _) = attempt (net "net-destroy" name) w in
      let (w2, (out, r)) =
        cmd.run_output "virsh" ("-c" ∷ "qemu:///system" ∷ "net-undefine" ∷ name ∷ []) w1 in
      elim r [
        | ok _ ↦ (w2, ok tt)
        | err e ↦
            if has_substring out "not found" || has_substring e "Network not found"
            then (w2, ok tt)
            else (w2, err (failing "net-undefine" name e))
      ]

  -- `LibvirtNetworkProvisioner`, which has no preflight of its own.
  unfoldable pub network_provisioner : Files W → TempFiles W → Regexp → NetworkProvisioner W
  network_provisioner files temp re = record {
    ensure_network = ensure_network files temp;
    add_host = add_host;
    remove_host = remove_host;
    inspect_network = inspect_network re;
    reset_network = reset_network;
    network_preflight = none;
  }
