-- ===== src/Config/Constants.antt =====
-- config/config.go: the constants.
use easyshift.Base.{ℕ, String}

abbrev pub default_log_file : String
default_log_file = "easyshift.log"

abbrev pub default_web_port : ℕ
default_web_port = 9393

abbrev pub default_clusters_max : ℕ
default_clusters_max = 3

abbrev pub base_network_range : String
base_network_range = "192.168.126"

abbrev pub network_start : ℕ
network_start = 5

abbrev pub network_end : ℕ
network_end = 20

abbrev pub dhcp_dynamic_start : ℕ
dhcp_dynamic_start = 100

abbrev pub dhcp_dynamic_end : ℕ
dhcp_dynamic_end = 254

abbrev pub shared_nat_network : String
shared_nat_network = "easyshift-nat"

abbrev pub ocp_channel_stable : String
ocp_channel_stable = "stable"

abbrev pub default_ocp_version : String
default_ocp_version = ocp_channel_stable

abbrev pub default_storage_pool : String
default_storage_pool = "default"

abbrev pub network_mode_nat : String
network_mode_nat = "nat"

abbrev pub network_mode_bridge : String
network_mode_bridge = "bridge"

abbrev pub magic_dns_auto : String
magic_dns_auto = "auto"

abbrev pub magic_dns_sslip : String
magic_dns_sslip = "sslip.io"

abbrev pub magic_dns_nip : String
magic_dns_nip = "nip.io"

abbrev pub magic_dns_off : String
magic_dns_off = "off"

abbrev pub state_creating : String
state_creating = "creating"

abbrev pub state_running : String
state_running = "running"

abbrev pub state_stopped : String
state_stopped = "stopped"
