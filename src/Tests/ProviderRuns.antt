-- ===== src/Tests/ProviderRuns.antt =====
-- The implementations of the interfaces, run on small worlds.
use easyshift.Base.{
  String, ◌≡◌, refl, ap, sym, ◌∙◌, Bool, true, false, not, ◌&&◌, ◌||◌, none, List, [], ◌∷◌, ◌==◌,
  if◌then◌else◌, ◌⊎◌,
}
use easyshift.Base.Lists.{contains}
use easyshift.Base.Text.{trim_space, split_at, last_part}
use easyshift.Base.Action.{Result, ok, err, ok-injective}
use easyshift.Interfaces.Os.{Files, Clock, missing, absent}
use easyshift.Interfaces.Providers.{CommandRunner, NetworkSpec}
use easyshift.Providers.Libvirt.{virsh, virsh_do, start, stop}
use easyshift.Providers.Libvirt.Networks.{
  TempFiles, net, ensure_network, define_network, define_from, activate, write_temp_file,
}
use easyshift.Providers.Libvirt.Networks.Cleanup.{
  NetState, undefined, inactive, active, is_defined, succeeds, Same, IsVirsh, ensure_network-Leaves,
}
use easyshift.Providers.Libvirt.PowerState.{
  DomState, no_state, running, idle, paused, in_shutdown, shut_off, crashed, pm_suspended, shown,
  Started, Stopped, start_stop-Stopped,
}
use easyshift.Providers.Csr.{sweep, approve_lines, run}
use easyshift.Providers.Csr.Sweep.{IsAsked, run-asked}

-- A libvirt of one network that cannot be started by itself at boot.
abbrev third : List String → String
third (a ∷ b ∷ c ∷ rest) = c
third _ = ""

-- Beside the network stands whether a call that takes it back has failed.
abbrev Net : Type 0
Net = NetState × Bool

abbrev defines : NetState → NetState × Result String
defines undefined = (inactive, ok "")
defines s = (s, err "defined already")

abbrev starts : NetState → NetState × Result String
starts inactive = (active, ok "")
starts s = (s, err "cannot start")

abbrev destroys : NetState → NetState × Result String
destroys active = (inactive, ok "")
destroys s = (s, err "not active")

abbrev undefines : NetState → NetState × Result String
undefines inactive = (undefined, ok "")
undefines s = (s, err "cannot undefine")

abbrev net_step : String → NetState → NetState × Result String
net_step sub s =
    if sub == "net-info"
    then (s, if is_defined s then ok "" else err "no such network")
    else if sub == "net-define"
    then defines s
    else if sub == "net-start"
    then starts s
    else if sub == "net-destroy"
    then destroys s
    else if sub == "net-undefine"
    then undefines s
    else (s, err "autostart refused")

abbrev is_cleanup : String → Bool
is_cleanup sub = sub == "net-destroy" || sub == "net-undefine"

abbrev noting : Bool → Bool → NetState × Result String → Net × Result String
noting cleanup log (s, r) = ((s, (cleanup && not (succeeds r)) || log), r)

abbrev net_runner : CommandRunner Net
net_runner = record {
  run = λ name args w. noting (is_cleanup (third args)) w.1 (net_step (third args) w.0);
  run_output = λ name args w. (w, ("", err "unused"));
}

abbrev no_files : Files Net
no_files = record {
  read_file = λ path s. missing;
  stat = λ path s. absent;
  write_file = λ path text s. (s, ok tt);
  mkdir_all = λ path s. (s, ok tt);
  remove = λ path s. (s, ok tt);
  remove_all = λ path s. (s, ok tt);
}

abbrev temp_files : TempFiles Net
temp_files = record {
  create_temp = λ pattern s. (s, ok "/tmp/x.xml");
  write = λ path text s. (s, ok tt);
}

abbrev nat_spec : NetworkSpec
nat_spec = record { name = "easyshift-nat"; bridge = ""; subnet = "192.168.126"; domain = "" }

abbrev network : Net → NetState
network w = w.0

abbrev log : Net → Bool
log w = w.1

abbrev do_net : String → Net → Net × Result (Unit {0})
do_net sub = net net_runner sub "easyshift-nat"

info_law :
    (w : Net) → Same net_runner no_files temp_files nat_spec network log (do_net "net-info" w).0 w
unfolding virsh_do virsh
info_law (undefined, b) = (refl, refl)
info_law (inactive, b) = (refl, refl)
info_law (active, b) = (refl, refl)

info_ok_law : (w : Net) → succeeds (do_net "net-info" w).1 ≡ true → is_defined (network w) ≡ true
unfolding virsh_do virsh
info_ok_law (undefined, b) h = h
info_ok_law (inactive, b) h = refl
info_ok_law (active, b) h = refl

starting_law : (w : Net) → log (do_net "net-start" w).0 ≡ log w
unfolding virsh_do virsh
starting_law (undefined, b) = refl
starting_law (inactive, b) = refl
starting_law (active, b) = refl

start_law :
    (w : Net)
    → network (do_net "net-start" w).0
      ≡ (if succeeds (do_net "net-start" w).1 then active else network w)
unfolding virsh_do virsh
start_law (undefined, b) = refl
start_law (inactive, b) = refl
start_law (active, b) = refl

autostart_law :
    (w : Net)
    → Same net_runner no_files temp_files nat_spec network log (do_net "net-autostart" w).0 w
unfolding virsh_do virsh
autostart_law (undefined, b) = (refl, refl)
autostart_law (inactive, b) = (refl, refl)
autostart_law (active, b) = (refl, refl)

destroying_law :
    (w : Net)
    → log (do_net "net-destroy" w).0 ≡ (not (succeeds (do_net "net-destroy" w).1) || log w)
unfolding virsh_do virsh
destroying_law (undefined, b) = refl
destroying_law (inactive, b) = refl
destroying_law (active, b) = refl

undefining_law :
    (w : Net)
    → log (do_net "net-undefine" w).0 ≡ (not (succeeds (do_net "net-undefine" w).1) || log w)
unfolding virsh_do virsh
undefining_law (undefined, b) = refl
undefining_law (inactive, b) = refl
undefining_law (active, b) = refl

defining_law : (file : String) (w : Net) → log (net net_runner "net-define" file w).0 ≡ log w
unfolding virsh_do virsh
defining_law file (undefined, b) = refl
defining_law file (inactive, b) = refl
defining_law file (active, b) = refl

define_law :
    (file : String) (w : Net)
    → network w ≡ undefined
    → network (net net_runner "net-define" file w).0
      ≡ (if succeeds (net net_runner "net-define" file w).1 then inactive else undefined)
unfolding virsh_do virsh
define_law file (undefined, b) h = refl
define_law file (inactive, b) h = cc
define_law file (active, b) h = cc

destroy_law :
    (w : Net)
    → network w ≡ active
    → network (do_net "net-destroy" w).0
      ≡ (if succeeds (do_net "net-destroy" w).1 then inactive else active)
unfolding virsh_do virsh
destroy_law (active, b) h = refl
destroy_law (inactive, b) h = cc
destroy_law (undefined, b) h = cc

undefine_law :
    (w : Net)
    → network w ≡ inactive
    → network (do_net "net-undefine" w).0
      ≡ (if succeeds (do_net "net-undefine" w).1 then undefined else inactive)
unfolding virsh_do virsh
undefine_law (inactive, b) h = refl
undefine_law (active, b) h = cc
undefine_law (undefined, b) h = cc

net_runner-IsVirsh : IsVirsh net_runner no_files temp_files nat_spec network log
net_runner-IsVirsh = record {
  info = info_law;
  info_ok = info_ok_law;
  defining = defining_law;
  define = define_law;
  starting = starting_law;
  start = start_law;
  autostart = autostart_law;
  destroying = destroying_law;
  destroy = destroy_law;
  undefining = undefining_law;
  undefine = undefine_law;
  create_temp = λ pattern w. (refl, refl);
  write = λ path text w. (refl, refl);
  remove = λ path w. (refl, refl);
}

ensure_network-Leaves_example :
    (network (ensure_network net_runner no_files temp_files nat_spec (undefined, false)).0
      ≡ undefined)
    ⊎ (log (ensure_network net_runner no_files temp_files nat_spec (undefined, false)).0 ≡ true)
unfolding ensure_network define_network define_from activate write_temp_file virsh_do virsh
ensure_network-Leaves_example =
    ensure_network-Leaves net_runner no_files temp_files nat_spec network log net_runner-IsVirsh
      (undefined, false)

-- A libvirt of one VM, whose guest does not heed a shutdown.
abbrev vm_step : String → DomState → DomState × Result String
vm_step sub s =
    if sub == "domstate"
    then (s, ok (shown s))
    else if sub == "destroy"
    then (shut_off, ok "")
    else if sub == "start"
    then (running, ok "")
    else (s, ok "")

abbrev vm_runner : CommandRunner DomState
vm_runner = record {
  run = λ name args s. vm_step (third args) s;
  run_output = λ name args s. (s, ("", err "unused"));
}

abbrev still : Clock DomState
still = record { now = λ s. 0; wait = λ n s. (s, none) }

trim-shown : (s : DomState) → trim_space (shown s) ≡ shown s
unfolding trim_space
trim-shown no_state = refl
trim-shown running = refl
trim-shown idle = refl
trim-shown paused = refl
trim-shown in_shutdown = refl
trim-shown shut_off = refl
trim-shown crashed = refl
trim-shown pm_suspended = refl

printed_law :
    (w : DomState) (out : String)
    → (virsh vm_runner ("domstate" ∷ "m" ∷ []) w).1 ≡ ok out
    → trim_space out ≡ shown (virsh vm_runner ("domstate" ∷ "m" ∷ []) w).0
unfolding virsh
printed_law w out h = ap trim_space (sym (ok-injective h)) ∙ trim-shown w

destroyed_law :
    (w : DomState)
    → (virsh_do vm_runner ("destroy" ∷ "m" ∷ []) w).1 ≡ ok tt
    → (virsh_do vm_runner ("destroy" ∷ "m" ∷ []) w).0 ≡ shut_off
unfolding virsh_do virsh
destroyed_law w h = refl

abbrev itself : DomState → DomState
itself s = s

start_stop-Stopped_example :
    Started vm_runner still "m" itself (start vm_runner still "m" running)
    × Stopped vm_runner still "m" itself (stop vm_runner still "m" running)
start_stop-Stopped_example =
    start_stop-Stopped vm_runner still "m" itself
      (record { printed = printed_law; destroyed = destroyed_law }) running

-- An `oc` that lists two requests and refuses every approval, but notes it.
abbrev oc_step : List String → List String → List String × Result String
oc_step (a ∷ b ∷ verb ∷ c ∷ d ∷ last ∷ rest) asked =
    if verb == "adm"
    then (last ∷ asked, err "denied")
    else (asked, ok "certificatesigningrequest/csr-a\ncertificatesigningrequest/csr-b\n")
oc_step _ asked = (asked, err "usage")

abbrev oc_runner : CommandRunner (List String)
oc_runner = record {
  run = λ name args asked. oc_step args asked;
  run_output = λ name args asked. (asked, ("", err "unused"));
}

oc_runner-IsAsked : IsAsked oc_runner "oc" "kubeconfig" contains
oc_runner-IsAsked = record { approved = λ c d w. refl; listed = λ d w. refl }

run-asked_example : contains (run oc_runner "oc" "kubeconfig" ((λ w. w) ∷ []) []).0 "csr-b" ≡ true
unfolding run sweep approve_lines trim_space split_at last_part
run-asked_example =
    run-asked oc_runner "oc" "kubeconfig" contains oc_runner-IsAsked "csr-b" ((λ w. w) ∷ []) []
      (λ w d h. h, tt) refl
