-- ===== src/Stages/Ignition.antt =====
-- stages/generateignition: install-config.yaml and the ignition of the single node.
use easyshift.Base.{
  String, ◌<>◌, Bool, not, ◌&&◌, ◌||◌, some, List, [], ◌∷◌, ◌++◌, ◌==◌, if◌then◌else◌,
}
use easyshift.Base.Lists.{contains}
use easyshift.Base.Action.{Error, Result, ok, err, Effect, Query, ◌>>◌, ◌>>=◌, done, wrap, attempt}
use easyshift.Interfaces.Os.{Files, join_path}
use easyshift.Interfaces.Stage.{Stage}
use easyshift.Interfaces.Providers.{DnsResolver, HostInspector}
use easyshift.Interfaces.Install.{Installer, InstallerSpec, installer_spec, in_work_dir, work_dir}
use easyshift.Config.Types.{ClusterConfig, Pointer}
use easyshift.Config.Constants.{network_mode_bridge}
use easyshift.Config.Cluster.{fqdn}
use easyshift.Config.Memory.{Memory, on_world}
use easyshift.Config.Paths.{cluster_dns_names}
use easyshift.Config.Secrets.{read, read_pull_secret, validate_pull_secret_json}
use easyshift.Stages.MasterVm.{show_list}

-- The files that a rollback removes.
abbrev pub generated_files : List String
generated_files =
    "install-config.yaml" ∷ "bootstrap-in-place-for-live-iso.ign" ∷ "master.ign" ∷ "worker.ign"
    ∷ "bootstrap.ign" ∷ "metadata.json" ∷ "openshift/99-master-baked-image-store.yaml" ∷ []

unfoldable pub problem_lines : List String → String
problem_lines [] = ""
problem_lines (p ∷ ps) = "  - " <> (p <> ("\n" <> problem_lines ps))

-- What the preflight says of the records that are wrong.
unfoldable pub dns_error : String → String → List String → Error
unfolding problem_lines
dns_error name ip problems =
    "bridge-mode DNS is not configured correctly:\n"
    <> (problem_lines problems
        <> ("create these records (all pointing at the master IP) on your DNS server, then retry:\n    api."
            <> (name
                <> (".\tA\t"
                    <> (ip
                        <> ("\n    api-int."
                            <> (name
                                <> (".\tA\t"
                                    <> (ip
                                        <> ("\n    *.apps."
                                            <> (name
                                                <> (".\tA\t"
                                                    <> (ip
                                                        <> ("\noptional but recommended (OpenShift docs): also add a PTR record so any node-discovery / cert-validation paths work; easyshift bakes the hostname so this is not strictly required:\n    PTR for "
                                                            <> (ip
                                                            <> (" -> master-0."
                                                            <> (name <> ".\n")))))))))))))))))

module _ {W : Type 0} (dns : DnsResolver W) where
  -- What is wrong with a name, by what its lookup gives.
  abbrev pub problem : String → String → Result (List String) → List String
  problem ip name (err e) = (name <> (": lookup failed: " <> e)) ∷ []
  problem ip name (ok []) = (name <> ": no records") ∷ []
  problem ip name (ok (i ∷ is)) =
      if not (contains (i ∷ is) ip)
      then (name <> (": resolves to " <> (show_list (i ∷ is) <> (", want " <> ip)))) ∷ []
      else []

  unfoldable pub problems : String → List String → Query W (List String)
  problems ip [] w = (w, [])
  problems ip (name ∷ names) w =
      let (w', r) = dns.resolve name w in
      let (w'', rest) = problems ip names w' in (w'', problem ip name r ++ rest)

  abbrev pub dns_outcome : String → String → List String → Result (Unit {0})
  dns_outcome name ip [] = ok tt
  dns_outcome name ip (q ∷ qs) = err (dns_error name ip (q ∷ qs))

  unfoldable pub check_bridge_mode_dns : ClusterConfig → Effect W
  unfolding problems dns_error
  check_bridge_mode_dns c w =
      let (w', bad) = problems c.master_ip (cluster_dns_names (fqdn c)) w in
      (w', dns_outcome (fqdn c) c.master_ip bad)

module _ {W : Type 0} (darwin : Bool) (goarch : String) (files : Files W)
    (json_keys : String → Result (List String)) (installer : Installer W) (dns : DnsResolver W)
    (host : HostInspector W) (p : Pointer) where
  -- Does the user manage the records by hand?
  abbrev pub manual_dns : ClusterConfig → Bool
  manual_dns c =
      c.network_mode == network_mode_bridge && (c.dns_provider == "" && c.magic_dns == "")

  unfoldable pub check_secret_and_dns : String → ClusterConfig → Effect W
  check_secret_and_dns dir c = do
    validate_pull_secret_json files json_keys dir
    if manual_dns c
        then (do
          wrap
              (λ e.
                "DNS preflight needs `dig`: "
                <> (e <> "\n  hint: install bind-utils (Fedora/RHEL) or dnsutils (Debian/Ubuntu)"))
              (host.look_path "dig")
          check_bridge_mode_dns dns c)
        else done

  unfoldable pub preflight : Effect (Memory W)
  unfolding check_secret_and_dns
  preflight m = on_world (check_secret_and_dns m.config.config_dir (m.heap p)) m

  -- The calls of the installer.
  unfoldable pub generate : Bool → InstallerSpec → Effect W
  generate bake spec = do
    installer.write_install_config spec
    if darwin || bake then installer.create_manifests spec else done
    if darwin then installer.write_rosetta_manifest spec else done
    if bake then installer.write_image_store_manifest spec else done
    installer.create_single_node_ignition spec

  unfoldable pub generate_for : String → ClusterConfig → Effect W
  unfolding generate
  generate_for dir c = do
    secret ← read_pull_secret files dir
    key ← wrap (λ e. "read ssh public key: " <> e) (read files (in_work_dir dir c "id_rsa.pub"))
    generate c.bake_images
        (record (installer_spec dir c goarch) { pull_secret = secret; ssh_public_key = key })

  unfoldable pub apply : Effect (Memory W)
  unfolding generate_for
  apply m = on_world (generate_for m.config.config_dir (m.heap p)) m

  abbrev remove_each : String → List String → Effect W
  remove_each dir [] = done
  remove_each dir (f ∷ fs) = do
    attempt (files.remove (join_path (dir ∷ f ∷ [])))
    remove_each dir fs

  unfoldable pub rollback : Effect (Memory W)
  rollback m = on_world (remove_each (work_dir m.config.config_dir (m.heap p)) generated_files) m

  unfoldable pub stage : Stage (Memory W)
  unfolding preflight apply rollback
  stage = record {
    name = "generate-ignition";
    apply = apply;
    rollback = rollback;
    preflight = some preflight;
  }
