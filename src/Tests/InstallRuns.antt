-- ===== src/Tests/InstallRuns.antt =====
-- Runs of the stages that prepare an installation and of those that follow it.
use easyshift.Base.{ℕ, zero, suc, ◌<◌, String, ◌≡◌, List, [], ◌∷◌, ◌++◌, ◌==◌, if◌then◌else◌, arith}
use easyshift.Base.Lists.{length}
use easyshift.Base.Text.{trim_space}
use easyshift.Base.Action.{Result, ok, err}
use easyshift.Interfaces.Os.{Files, missing, absent}
use easyshift.Interfaces.Providers.{CommandRunner, DnsResolver}
use easyshift.Config.Types.{ClusterConfig}
use easyshift.Config.Memory.{Memory, Disk}
use easyshift.Config.Cluster.{fqdn}
use easyshift.Stages.Ignition.{check_bridge_mode_dns}
use easyshift.Stages.Kubeconfig.{Environment}
use easyshift.Stages.Rhcos.{Bytes, ran, uncompress_kernel}
use easyshift.Stages.Rhcos.Kernel.{uncompress_kernel-image_of}
use easyshift.Manager.Status.{check_dns}
use easyshift.Manager.Status.Agreement.{passes, check_bridge_mode_dns-check_dns}
use easyshift.Tests.ConfigRuns.{no_cluster, config_of}
use easyshift.Tests.StageRuns.{vm, host}

-- A resolver that knows one name alone.
abbrev one_name : DnsResolver ℕ
one_name = record {
  resolve = λ name w.
      (suc w, if name == "api.c.example.com" then ok ("192.168.1.50" ∷ []) else err "no such host");
}

abbrev bridge_cluster : ClusterConfig
bridge_cluster = record no_cluster {
  network_mode = "bridge";
  master_ip = "192.168.1.50";
  name = "c";
  domain = "example.com";
}

check_bridge_mode_dns-check_dns_example :
    ((check_bridge_mode_dns one_name bridge_cluster 0).0
      ≡ (check_dns vm host one_name bridge_cluster (fqdn bridge_cluster) 0).0)
    × (passes (check_bridge_mode_dns one_name bridge_cluster 0).1
        ≡ (check_dns vm host one_name bridge_cluster (fqdn bridge_cluster) 0).1.passed)
check_bridge_mode_dns-check_dns_example =
    check_bridge_mode_dns-check_dns vm host one_name bridge_cluster 0

-- A world that is the current context of the kubeconfig, as `oc` prints it.
abbrev unsets : List String → String → String
unsets [] w = w
unsets (key ∷ rest) w = if key == "current-context" then "" else w

abbrev oc_step : List String → String → String × Result String
oc_step (a ∷ b ∷ c ∷ verb ∷ rest) w =
    if verb == "current-context" then (w, ok w) else (unsets rest w, ok "")
oc_step _ w = (w, err "usage")

abbrev oc_runner : CommandRunner String
oc_runner = record {
  run = λ name args w. oc_step args w;
  run_output = λ name args w. (w, ("", err "unused"));
}

abbrev idle_files : Files String
idle_files = record {
  read_file = λ path w. missing;
  stat = λ path w. absent;
  write_file = λ path text w. (w, ok tt);
  mkdir_all = λ path w. (w, ok tt);
  remove = λ path w. (w, ok tt);
  remove_all = λ path w. (w, ok tt);
}

abbrev idle_disk : Disk String
idle_disk = record { files = idle_files; marshal = λ s. ok "{}" }

abbrev at_home : Environment
at_home = record {
  kubeconfig = "";
  home_dir = ok "/home/u";
  dir = λ path. "/home/u/.kube";
  decode64 = ok;
}

abbrev merged : Memory String
merged = record {
  heap = λ _. record no_cluster { name = "c"; kubeconfig_target = "/home/u/.kube/config" };
  config = config_of [];
  world = "c\n";
}

-- The kubeconfigs are one file.
abbrev context_of : String → String → String
context_of target = trim_space

abbrev zeros : ℕ → List ℕ
zeros zero = []
zeros (suc n) = 0 ∷ zeros n

-- An EFI zboot image whose payload of two bytes stands at 57.
abbrev zboot_image : List ℕ
zboot_image =
    (77 ∷ 90 ∷ 0 ∷ 0 ∷ 122 ∷ 105 ∷ 109 ∷ 103 ∷ 57 ∷ 0 ∷ 0 ∷ 0 ∷ 2 ∷ 0 ∷ 0 ∷ 0 ∷ [])
    ++ (zeros 8 ++ ((103 ∷ 122 ∷ 105 ∷ 112 ∷ []) ++ (zeros 29 ++ (7 ∷ 8 ∷ []))))

abbrev stored : Bytes
stored = record { of_text = λ text. []; to_text = λ b. ""; quoted = λ b. ""; unzip = ok }

small_image : length zboot_image < 4294967296
small_image = let h : 59 < 4294967296 = omega arith in h

uncompress_kernel-image_of_example : uncompress_kernel stored zboot_image ≡ ran (ok (7 ∷ 8 ∷ []))
uncompress_kernel-image_of_example = uncompress_kernel-image_of stored zboot_image small_image
