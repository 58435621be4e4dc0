-- ===== src/Tests/HostRuns.antt =====
-- The scans of the files under /proc.
use easyshift.Base.{ℕ, String, ◌≡◌, refl, [], ◌∷◌, ◌==◌, if◌then◌else◌}
use easyshift.Base.Text.{fields, to_lower}
use easyshift.Base.Action.{Result, ok, err}
use easyshift.Providers.Host.{arp_scan, total_memory}

other_case :
    arp_scan "52:54:00:ab:cd:ef" (
      "192.168.1.9  0x1  0x2  52:54:00:00:00:01  *  br0"
      ∷ "192.168.1.50  0x1  0x2  52:54:00:AB:CD:EF  *  br0" ∷ [])
    ≡ "192.168.1.50"
unfolding arp_scan fields to_lower
other_case = refl

abbrev number : String → Result ℕ
number s = if s == "2048" then ok 2048 else err "invalid syntax"

in_bytes : total_memory number ("MemFree: 7 kB" ∷ "MemTotal:   2048 kB" ∷ []) ≡ ok 2097152
unfolding total_memory fields
in_bytes = refl

no_number :
    total_memory number ("MemTotal:" ∷ "MemTotal: 2048 kB" ∷ [])
    ≡ err "MemTotal not found in /proc/meminfo"
unfolding total_memory fields
no_number = refl
