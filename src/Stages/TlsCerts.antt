-- ===== src/Stages/TlsCerts.antt =====
-- stages/applytlscerts: the serving certificates of a cluster. The factories of the issuers, the
-- decoder of PEM blocks and the encoding of base 64 are parameters; a block is its bytes and its text.
use easyshift.Base.{
  ℕ, zero, suc, String, ◌<>◌, Bool, true, false, not, Option, none, some, List, [], ◌∷◌, ◌==◌,
  if◌then◌else◌,
}
use easyshift.Base.Text.{trim_space, has_substring, ends_with, text_length}
use easyshift.Base.Action.{Error, Result, ok, err, Action, Effect, ◌>>◌, ◌>>=◌, done, fail, wrap}
use easyshift.Interfaces.Os.{Files, StatResult, present, absent, stat_failed, join_path}
use easyshift.Interfaces.Stage.{Stage}
use easyshift.Interfaces.Providers.{CommandRunner}
use easyshift.Interfaces.Install.{
  CertIssuer, CertIssuerOpts, work_dir, oc_binary_path, kubeconfig_path,
}
use easyshift.Config.Types.{ClusterConfig, Pointer}
use easyshift.Config.Cluster.{fqdn}
use easyshift.Config.Memory.{Memory, on_world}
use easyshift.Config.Paths.{ensure_dns_token}
use easyshift.Config.Secrets.{
  read, read_dns_token, acme_account_dir, local_ca_dir, local_ca_cert_path,
}

-- `pem.Decode` gives the first block and what stands behind it, and `pem.EncodeToMemory` its text.
pub record Pem : Type 0 where
  pub decode : String → Option (String × String)
  pub encode : String → String
  pub decode64 : String → Result String
  pub encode64 : String → String

pub record Issuers (W : Type 0) : Type 0 where
  pub new_cert_issuer : CertIssuerOpts → Action W (CertIssuer W)
  pub new_local_issuer : String → Action W (CertIssuer W)

-- The loop over the blocks of a bundle. A block takes a byte at least, so as many rounds as the bundle
-- has bytes are enough.
unfoldable pub has_block : Pem → ℕ → String → String → Bool
has_block pem zero block rest = false
has_block pem (suc fuel) block rest = elim (pem.decode rest) [
  | none ↦ false
  | some (b, behind) ↦ elim (b == block) [ true ↦ true | false ↦ has_block pem fuel block behind ]
]

abbrev is_absent : StatResult → Bool
is_absent (present _) = false
is_absent absent = true
is_absent (stat_failed e) = false

abbrev is_there : StatResult → Bool
is_there (present _) = true
is_there absent = false
is_there (stat_failed e) = false

abbrev pub with_newline : String → String
with_newline bundle =
    if not (bundle == "")
    then (if ends_with "\n" bundle then bundle else bundle <> "\n")
    else bundle

module _ {W : Type 0} (files : Files W) (cmd : CommandRunner W) (pem : Pem) (issuers : Issuers W)
    (p : Pointer) where
  unfoldable pub check_token : String → ClusterConfig → Effect W
  check_token dir c =
      if c.tls_email == ""
      then done
      else if c.dns_provider == ""
      then fail "TLS issuance requires --dns-provider (used for the ACME DNS-01 challenge)"
      else ensure_dns_token files dir c.dns_provider

  unfoldable pub preflight : Effect (Memory W)
  unfolding check_token
  preflight m = on_world (check_token m.config.config_dir (m.heap p)) m

  abbrev give : {A : Type 0} → Result A → Action W A
  give r w = (w, r)

  abbrev acme_opts : String → ClusterConfig → String → CertIssuerOpts
  acme_opts dir c token = record {
    email = c.tls_email;
    account_dir = acme_account_dir dir c.dns_provider c.tls_staging;
    dns_provider = c.dns_provider;
    token = token;
    staging = c.tls_staging;
  }

  abbrev acme_issuer : String → ClusterConfig → Action W (CertIssuer W)
  acme_issuer dir c = do
    token ← read_dns_token files dir c.dns_provider
    wrap (λ e. "cert issuer: " <> e) (issuers.new_cert_issuer (acme_opts dir c token))

  unfoldable pub choose_issuer : String → ClusterConfig → Action W (CertIssuer W)
  choose_issuer dir c =
      if not (c.tls_email == "")
      then acme_issuer dir c
      else wrap (λ e. "local cert issuer: " <> e) (issuers.new_local_issuer (local_ca_dir dir))

  unfoldable pub issue_to_files : CertIssuer W → List String → String → String → Effect W
  issue_to_files issuer domains cert_path key_path = do
    made ← issuer.issue domains
    files.write_file cert_path (made.0)
    files.write_file key_path (made.1)

  -- `oc` with the admin kubeconfig, for its effect.
  abbrev oc_do : (Error → Error) → String → String → List String → Effect W
  oc_do note oc kubeconfig args = do
    out ← wrap note (cmd.run oc ("--kubeconfig" ∷ kubeconfig ∷ args))
    done

  -- The rendered secret lies beside the certificate, in `dir`.
  unfoldable pub apply_tls_secret :
      String → String → String → String → String → String → String → Effect W
  apply_tls_secret oc kubeconfig namespace name dir cert_path key_path =
      let tmp = join_path (dir ∷ (name <> ".secret.yaml") ∷ []) in
      do
        out ←
            wrap (λ e. "render tls secret " <> (namespace <> ("/" <> (name <> (": " <> e)))))
              (cmd.run oc (
                "--kubeconfig"
                ∷ kubeconfig
                ∷ "-n"
                ∷ namespace
                ∷ "create"
                ∷ "secret"
                ∷ "tls"
                ∷ name
                ∷ ("--cert=" <> cert_path)
                ∷ ("--key=" <> key_path)
                ∷ "--dry-run=client"
                ∷ "-o"
                ∷ "yaml"
                ∷ []))
        wrap (λ e. "write rendered secret " <> (tmp <> (": " <> e))) (files.write_file tmp out)
        oc_do (λ e. "apply tls secret " <> (namespace <> ("/" <> (name <> (": " <> e))))) oc
            kubeconfig ("apply" ∷ "-f" ∷ tmp ∷ [])

  abbrev api_patch : String → String → String
  api_patch name secret =
      "{\"spec\":{\"servingCerts\":{\"namedCertificates\":[{\"names\":[\"api."
      <> (name <> ("\"],\"servingCertificate\":{\"name\":\"" <> (secret <> "\"}}]}}}")))

  abbrev ingress_patch : String → String
  ingress_patch secret = "{\"spec\":{\"defaultCertificate\":{\"name\":\"" <> (secret <> "\"}}}")

  abbrev back_up : String → String → Effect W
  back_up kubeconfig text w = elim (is_absent (files.stat (kubeconfig <> ".internal-ca") w)) [
    | true ↦
        wrap (λ e. "back up kubeconfig: " <> e)
          (files.write_file (kubeconfig <> ".internal-ca") text) w
    | false ↦ (w, ok tt)
  ]

  abbrev authority : String → String
  authority entry = "clusters." <> (entry <> ".certificate-authority-data")

  abbrev strip : String → String → String → String → Effect W
  strip oc kubeconfig entry text =
      if not (has_substring text "certificate-authority-data") then done else do
        back_up kubeconfig text
        oc_do (λ e. "strip internal CA from kubeconfig: " <> e) oc kubeconfig
            ("config" ∷ "unset" ∷ authority entry ∷ [])

  unfoldable pub make_kubeconfig_public : String → String → String → Effect W
  make_kubeconfig_public oc kubeconfig entry = do
    text ← wrap (λ e. "read kubeconfig: " <> e) (read files kubeconfig)
    strip oc kubeconfig entry text

  abbrev first_block : String → Option (String × String) → Result String
  first_block path none = err ("no PEM block in " <> path)
  first_block path (some (block, rest)) = ok block

  abbrev read_bundle : String → String → String → Action W String
  read_bundle oc kubeconfig entry = do
    out ←
        wrap (λ e. "read kubeconfig CA bundle: " <> e)
          (cmd.run oc (
            "--kubeconfig"
            ∷ kubeconfig
            ∷ "config"
            ∷ "view"
            ∷ "--raw"
            ∷ "-o"
            ∷ ("jsonpath={.clusters[?(@.name==\""
                <> (entry <> "\")].cluster.certificate-authority-data}"))
            ∷ []))
    if trim_space out == ""
        then fail (
            "no certificate-authority-data found for cluster entry \""
            <> (entry <> ("\" in " <> kubeconfig)))
        else wrap (λ e. "decode kubeconfig CA bundle: " <> e) (give (pem.decode64 (trim_space out)))

  abbrev add_block : String → String → String → String → String → Effect W
  add_block oc kubeconfig entry block bundle =
      if has_block pem (text_length bundle) block bundle then done else do
        orig ← wrap (λ e. "read kubeconfig: " <> e) (read files kubeconfig)
        back_up kubeconfig orig
        oc_do (λ e. "append CA to kubeconfig: " <> e) oc kubeconfig
            ("config"
              ∷ "set"
              ∷ authority entry
              ∷ pem.encode64 (with_newline bundle <> pem.encode block)
              ∷ [])

  unfoldable pub append_local_ca : String → String → String → String → Effect W
  unfolding has_block
  append_local_ca oc kubeconfig entry ca_path = do
    ca ← wrap (λ e. "read local CA cert: " <> e) (read files ca_path)
    block ← give (first_block ca_path (pem.decode ca))
    bundle ← read_bundle oc kubeconfig entry
    add_block oc kubeconfig entry block bundle

  -- A failure is only logged.
  abbrev or_warn : Effect W → Effect W
  or_warn m w = ((m w).0, ok tt)

  -- A failure counts if the kubeconfig is there.
  abbrev unless_simulated : String → W × Result (Unit {0}) → W × Result (Unit {0})
  unless_simulated kubeconfig (w, ok _) = (w, ok tt)
  unless_simulated kubeconfig (w, err e) =
      if is_there (files.stat kubeconfig w)
      then (w, err ("add easyshift CA to admin kubeconfig: " <> e))
      else (w, ok tt)

  abbrev trust : String → ClusterConfig → Effect W
  trust dir c w =
      let oc = oc_binary_path dir c in
      let kubeconfig = kubeconfig_path dir c in
      if not (c.tls_email == "")
      then or_warn (make_kubeconfig_public oc kubeconfig c.name) w
      else unless_simulated kubeconfig
          (append_local_ca oc kubeconfig c.name (local_ca_cert_path dir) w)

  abbrev in_tls_dir : String → ClusterConfig → String → String
  in_tls_dir dir c file = join_path (work_dir dir c ∷ "tls" ∷ file ∷ [])

  unfoldable pub issue_all : String → ClusterConfig → Effect W
  unfolding choose_issuer issue_to_files
  issue_all dir c = do
    issuer ← choose_issuer dir c
    wrap (λ e. "create tls dir: " <> e) (files.mkdir_all (join_path (work_dir dir c ∷ "tls" ∷ [])))
    wrap (λ e. "issue api cert: " <> e)
        (issue_to_files issuer (("api." <> fqdn c) ∷ []) (in_tls_dir dir c "api.crt")
          (in_tls_dir dir c "api.key"))
    wrap (λ e. "issue apps cert: " <> e)
        (issue_to_files issuer (("*.apps." <> fqdn c) ∷ []) (in_tls_dir dir c "apps.crt")
          (in_tls_dir dir c "apps.key"))

  unfoldable pub patch_cluster : String → ClusterConfig → Effect W
  unfolding apply_tls_secret
  patch_cluster dir c =
      let oc = oc_binary_path dir c in
      let kubeconfig = kubeconfig_path dir c in
      let tls = join_path (work_dir dir c ∷ "tls" ∷ []) in
      do
        apply_tls_secret oc kubeconfig "openshift-config" (c.name <> "-api-cert") tls
            (in_tls_dir dir c "api.crt") (in_tls_dir dir c "api.key")
        apply_tls_secret oc kubeconfig "openshift-ingress" (c.name <> "-apps-cert") tls
            (in_tls_dir dir c "apps.crt") (in_tls_dir dir c "apps.key")
        oc_do (λ e. "patch apiserver/cluster: " <> e) oc kubeconfig
            ("patch"
              ∷ "apiserver/cluster"
              ∷ "--type=merge"
              ∷ "-p"
              ∷ api_patch (fqdn c) (c.name <> "-api-cert")
              ∷ [])
        oc_do (λ e. "patch ingresscontroller/default: " <> e) oc kubeconfig
            ("-n"
              ∷ "openshift-ingress-operator"
              ∷ "patch"
              ∷ "ingresscontroller/default"
              ∷ "--type=merge"
              ∷ "-p"
              ∷ ingress_patch (c.name <> "-apps-cert")
              ∷ [])

  unfoldable pub apply_certs : String → ClusterConfig → Effect W
  unfolding issue_all patch_cluster make_kubeconfig_public append_local_ca
  apply_certs dir c = do issue_all dir c; patch_cluster dir c; trust dir c

  unfoldable pub apply : Effect (Memory W)
  unfolding apply_certs
  apply m = on_world (apply_certs m.config.config_dir (m.heap p)) m

  unfoldable pub stage : Stage (Memory W)
  unfolding preflight apply
  stage = record {
    name = "apply-tls-certs";
    apply = apply;
    rollback = done;
    preflight = some preflight;
  }
