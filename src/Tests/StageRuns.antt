-- ===== src/Tests/StageRuns.antt =====
-- Runs of the stages in a world that is a clock.
use easyshift.Base.{
  ℕ, zero, suc, ◌+◌, ◌≤◌, ◌<◌, ◌/◌, ◌^◌, ◌≡◌, ◌↔◌, refl, true, false, none, some, [], ◌∷◌, arith,
}
use easyshift.Base.Int.{pos, uint64}
use easyshift.Base.Action.{Result, ok, err, Effect}
use easyshift.Interfaces.Os.{missing, absent, Files}
use easyshift.Interfaces.Providers.{HostInspector, VmManager}
use easyshift.Config.Types.{ClusterConfig}
use easyshift.Stages.Wait.{wait_with_retry}
use easyshift.Stages.Wait.Attempts.{Outcome, wait_with_retry-Outcome}
use easyshift.Stages.VerifyIp.{verify, round, poll_loop, probe}
use easyshift.Interfaces.Os.{Clock}
use easyshift.Stages.VerifyIp.Polling.{IsClock, Confirmed, verify-Confirmed, verify-ends}
use easyshift.Stages.MasterVm.{check_host_memory}
use easyshift.Stages.MasterVm.HostMemory.{running_memory, check_host_memory-fits}
use easyshift.Interfaces.Providers.{DnsResolver}
use easyshift.Config.Paths.{cluster_dns_names}
use easyshift.Manager.Status.{check_dns}
use easyshift.Manager.Status.Records.{Resolve, check_dns-Resolve}
use easyshift.Tests.ConfigRuns.{no_cluster}

-- A file system without files, on which every write succeeds.
abbrev pub no_files : Files ℕ
no_files = record {
  read_file = λ path w. missing;
  stat = λ path w. absent;
  write_file = λ path text w. (w, ok tt);
  mkdir_all = λ path w. (w, ok tt);
  remove = λ path w. (w, ok tt);
  remove_all = λ path w. (w, ok tt);
}

abbrev pub ticking : Clock ℕ
ticking = record { now = λ w. w; wait = λ n w. (n + w, none) }

-- A host of 32 GiB, on which the master's address answers.
abbrev pub host : HostInspector ℕ
host = record {
  has_cpu_virtualization = λ w. (w, ok true);
  inspect_bridge = λ name w. (w, ok (record { exists = true; slaves = "eth0" ∷ []; up = true }));
  look_path = λ name w. (w, ok tt);
  available_disk_bytes = λ dir w. (w, ok (2 ^ 40));
  physical_memory_bytes = λ w. (w, ok (2 ^ 35));
  arp_lookup = λ mac w. (w, ok "192.168.1.50");
  dial_tcp = λ addr w. (suc w, ok tt);
}

ticking-IsClock : IsClock host ticking "52:54:00:00:00:01" "192.168.1.50"
ticking-IsClock = record {
  dial = λ addr w. omega arith;
  lookup = λ w. omega arith;
  wait = λ n w. omega arith;
}

verify-ends_example :
    (r : Result (Unit {0})) × ((verify host ticking "52:54:00:00:00:01" "192.168.1.50" 0).1
      ≡ some r)
verify-ends_example = verify-ends host ticking "52:54:00:00:00:01" "192.168.1.50" ticking-IsClock 0

verified : (verify host ticking "52:54:00:00:00:01" "192.168.1.50" 0).1 ≡ some (ok tt)
unfolding verify poll_loop round probe
verified = refl

verify-Confirmed_example :
    (v : ℕ) × Confirmed host ticking "52:54:00:00:00:01" "192.168.1.50" v
    × ((verify host ticking "52:54:00:00:00:01" "192.168.1.50" 0).0
        ≡ (round host ticking "52:54:00:00:00:01" "192.168.1.50" 480 v).0)
verify-Confirmed_example =
    verify-Confirmed host ticking "52:54:00:00:00:01" "192.168.1.50" 0 refl verified

-- An installer that times out twice and then succeeds.
abbrev slow_install : Effect ℕ
slow_install zero = (1, err "exit status 6")
slow_install (suc zero) = (2, err "exit status 6")
slow_install (suc (suc n)) = (n, ok tt)

wait_with_retry-Outcome_example :
    Outcome slow_install (λ w. false) 3 "" 0 (wait_with_retry slow_install (λ w. false) 0)
wait_with_retry-Outcome_example = wait_with_retry-Outcome slow_install (λ w. false) 0

-- A hypervisor that does everything it is told, and whose VMs all run.
abbrev pub vm : VmManager ℕ
vm = record {
  create = λ spec w. (w, ok tt);
  start = λ name w. (w, ok tt);
  stop = λ name w. (w, err "no such VM");
  delete = λ name w. (w, ok tt);
  is_running = λ name w. (w, ok true);
  import_iso = λ pool vol path w. (w, ok path);
  import_disk = λ pool vol path w. (w, ok path);
  create_data_disk = λ pool vol size w. (w, ok vol);
  remove_iso = λ pool vol w. (w, ok tt);
  check_access = λ w. (w, ok tt);
  storage_pool_active = λ pool w. (w, ok tt);
}

abbrev pub other_cluster : ClusterConfig
other_cluster = record no_cluster { name = "d"; master_ram = pos 8192 }

small_memory :
    uint64 no_cluster.master_ram
      + running_memory false no_files vm host "c" (no_cluster ∷ other_cluster ∷ []) 0
      + 5120
    < 2 ^ 64
unfolding running_memory
small_memory = omega arith

check_host_memory-fits_example :
    ((check_host_memory false no_files vm host no_cluster (no_cluster ∷ other_cluster ∷ []) 0).1
      ≡ ok tt)
    ↔ (uint64 no_cluster.master_ram
          + running_memory false no_files vm host "c" (no_cluster ∷ other_cluster ∷ []) 0
          + 5120
        ≤ 2 ^ 35 / 2 ^ 20)
check_host_memory-fits_example =
    check_host_memory-fits false no_files vm host no_cluster (no_cluster ∷ other_cluster ∷ []) 0
      {bytes = 2 ^ 35} refl (omega arith) small_memory

-- A resolver that knows one address for every name.
abbrev resolver : DnsResolver ℕ
resolver = record { resolve = λ name w. (suc w, ok ("192.168.1.50" ∷ [])) }

abbrev bridge_cluster : ClusterConfig
bridge_cluster = record no_cluster { network_mode = "bridge"; master_ip = "192.168.1.50" }

check_dns-Resolve_example :
    ((check_dns vm host resolver bridge_cluster "c.example.com" 0).1.passed ≡ true)
    ↔ Resolve vm host resolver "192.168.1.50" (cluster_dns_names "c.example.com") 0
check_dns-Resolve_example = check_dns-Resolve vm host resolver bridge_cluster "c.example.com" 0
