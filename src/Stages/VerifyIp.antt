-- ===== src/Stages/VerifyIp.antt =====
-- stages/verifymasterip: polling until the master is live on its reserved address. The host and
-- the clock are parameters; times are in seconds.
pub mod Polling
use easyshift.Base.{
  ℕ, zero, suc, ◌+◌, String, ◌<>◌, Bool, true, false, not, ◌&&◌, Option, none, some, ltb, ◌==◌,
  if◌then◌else◌,
}
use easyshift.Base.Action.{Error, Result, ok, err, Effect, done}
use easyshift.Interfaces.Os.{Clock}
use easyshift.Interfaces.Providers.{HostInspector}
use easyshift.Interfaces.Stage.{Stage}
use easyshift.Config.Types.{ClusterConfig, Pointer}
use easyshift.Config.Constants.{network_mode_bridge}
use easyshift.Config.Memory.{Memory, on_world}

-- `err == nil` of a dial, and the address that an ARP lookup gives with its error dropped.
abbrev pub is_ok : Result (Unit {0}) → Bool
is_ok (ok _) = true
is_ok (err _) = false

abbrev pub or_empty : Result String → String
or_empty (ok s) = s
or_empty (err _) = ""

-- `net.JoinHostPort(ip, "22")` of an IPv4 address
abbrev pub ssh_addr : String → String
ssh_addr ip = ip <> ":22"

unfoldable pub mismatch : String → String → String → Error
mismatch mac got want =
    "master VM (MAC "
    <> (mac
        <> (") came up on "
            <> (got
                <> (", but its reserved IP is "
                    <> (want
                        <> ("; continuing would let etcd bootstrap on "
                            <> (got
                                <> (" and pin the cluster to the wrong address permanently (the apiservers could never reach etcd). Fix the router DHCP reservation ("
                                    <> (mac
                                        <> (" -> "
                                            <> (want
                                                <> (") so the node gets "
                                                    <> (want
                                                        <> " on first boot, then re-run `easyshift create`")))))))))))))

unfoldable pub timed_out : String → String → Error
timed_out mac want =
    "master VM (MAC "
    <> (mac
        <> (") did not come up on its reserved IP "
            <> (want
                <> (" within 8m0s; the node likely received a different DHCP address, and continuing would let etcd bootstrap on it and pin the cluster to the wrong address permanently. Verify the router DHCP reservation maps "
                    <> (mac
                        <> (" -> "
                            <> (want
                                <> (" (and that no other host holds "
                                    <> (want <> "), then re-run `easyshift create`")))))))))

module _ {W : Type 0} (host : HostInspector W) (clock : Clock W) (mac want : String) where
  -- What one round of the loop sees: is the address live, where is the MAC, and, if that is
  -- elsewhere, is it live there.
  abbrev elsewhere : String → Bool
  elsewhere got = not (got == "") && not (got == want)

  unfoldable pub probe : W → W × Bool × String
  probe w =
      let (w1, live) = host.dial_tcp (ssh_addr want) w in
      let (w2, got) = host.arp_lookup mac w1 in (w2, is_ok live, or_empty got)

  abbrev confirm : W × Bool × String → W × Option (Result (Unit {0}))
  confirm (w, live, got) =
      if live && got == want
      then (w, some (ok tt))
      else if elsewhere got
      then (let (w', there) = host.dial_tcp (ssh_addr got) w in
          if is_ok there then (w', some (err (mismatch mac got want))) else (w', none))
      else (w, none)

  -- Behind the `switch`, the deadline.
  abbrev at_deadline : ℕ → String → W × Option (Result (Unit {0})) → W × Option (Result (Unit {0}))
  at_deadline deadline got (w, some verdict) = (w, some verdict)
  at_deadline deadline got (w, none) =
      if ltb (clock.now w) deadline
      then (w, none)
      else (w, some (err (if elsewhere got then mismatch mac got want else timed_out mac want)))

  unfoldable pub round : ℕ → W → W × Option (Result (Unit {0}))
  unfolding probe
  round deadline w = at_deadline deadline (probe w).2 (confirm (probe w))

  -- The loop of `verify`, for at most `fuel` rounds. Without fuel there is no verdict.
  unfoldable pub poll_loop : ℕ → ℕ → ℕ → W → W × Option (Result (Unit {0}))
  poll_loop zero poll deadline w = (w, none)
  poll_loop (suc fuel) poll deadline w =
      let (w', verdict) = round deadline w in
      elim verdict [
        | some r ↦ (w', some r)
        | none ↦
            let (w'', stop) = clock.wait poll w' in
            elim stop [ some e ↦ (w'', some (err e)) | none ↦ poll_loop fuel poll deadline w'' ]
      ]

  -- `verify` with a timeout of 480 seconds and a poll of 10: a round that goes on takes at least
  -- 10 seconds, so no run has more than 49 rounds.
  unfoldable pub verify : W → W × Option (Result (Unit {0}))
  verify w = poll_loop 49 10 (clock.now w + 480) w

-- The verdict of the stage. `verify` always has one, if time passes.
abbrev pub verdict : {W : Type 0} → W × Option (Result (Unit {0})) → W × Result (Unit {0})
verdict (w, some r) = (w, r)
verdict (w, none) = (w, err "no verdict")

module _ {W : Type 0} (host : HostInspector W) (clock : Clock W) (p : Pointer) where
  unfoldable pub verify_apply : Effect (Memory W)
  verify_apply m =
      let c = m.heap p in
      if not (c.network_mode == network_mode_bridge)
      then (m, ok tt)
      else on_world (λ w. verdict (verify host clock c.master_mac c.master_ip w)) m

  unfoldable pub verify_stage : Stage (Memory W)
  verify_stage = record {
    name = "verify-master-ip";
    apply = verify_apply;
    rollback = done;
    preflight = none;
  }
