-- ===== src/Stages/MasterVm/HostMemory.antt =====
-- `checkHostMemory`: when it lets a master be created.
use easyshift.Base.{
  ℕ, ◌+◌, ◌/◌, ◌^◌, ◌≤◌, ◌<◌, String, ◌<>◌, ◌≡◌, ◌↔◌, Bool, true, false, List, [], ◌∷◌, arith, ◌==◌,
}
use easyshift.Base.Int.{uint64}
use easyshift.Base.Action.{ok}
use easyshift.Interfaces.Os.{Files}
use easyshift.Interfaces.Providers.{VmManager, HostInspector}
use easyshift.Config.Types.{ClusterConfig}
use easyshift.Stages.MasterVm.{add_u64, known_up, sum_running, check_host_memory}

module _ {W : Type 0} (darwin : Bool) (files : Files W) (vm : VmManager W)
    (host : HostInspector W) where
  -- The memory of the other clusters that are up, each probed in the world that the probes before
  -- it left, as a plain sum.
  unfoldable pub running_memory : String → List ClusterConfig → W → ℕ
  running_memory self [] w = 0
  running_memory self (other ∷ rest) w = elim (other.name == self) [
    | true ↦ running_memory self rest w
    | false ↦
        let (w', up) = vm.is_running ("master-0-" <> other.name) w in
        elim (known_up darwin files vm host up) [
          | false ↦ running_memory self rest w'
          | true ↦ uint64 other.master_ram + running_memory self rest w'
        ]
  ]

  sum_running-sum :
      (self : String) (others : List ClusterConfig) (total : ℕ) (w : W)
      → total + running_memory self others w < 2 ^ 64
      → (sum_running darwin files vm host self others total w).1
        ≡ total + running_memory self others w
  unfolding sum_running running_memory
  sum_running-sum self [] total w h = omega arith
  sum_running-sum self (other ∷ rest) total w h = ground (
    arith,
    sum_running-sum self rest total w,
    sum_running-sum self rest total (vm.is_running ("master-0-" <> other.name) w).0,
    sum_running-sum self rest (add_u64 total (uint64 other.master_ram))
        (vm.is_running ("master-0-" <> other.name) w).0,
  )

  -- Where the memory of the host is known, a master may be created exactly if its memory, that of
  -- the other clusters that are up and the reserve of 5120 MiB together fit into it.
  pub check_host_memory-fits :
      (c : ClusterConfig) (others : List ClusterConfig) (w : W) {bytes : ℕ}
      → let w' = (host.physical_memory_bytes w).0 in
        let total = uint64 c.master_ram + running_memory c.name others w' in
        (host.physical_memory_bytes w).1 ≡ ok bytes
        → 0 < bytes
        → total + 5120 < 2 ^ 64
        → ((check_host_memory darwin files vm host c others w).1 ≡ ok tt)
          ↔ (total + 5120 ≤ bytes / 2 ^ 20)
  unfolding check_host_memory
  check_host_memory-fits c others w known some small =
      let sum =
        sum_running-sum c.name others (uint64 c.master_ram) (host.physical_memory_bytes w).0
          (omega arith) in
      (λ h. ground (arith, sum), λ h. ground (arith, sum))
