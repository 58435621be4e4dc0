-- ===== src/Providers/Libvirt/PowerState.antt =====
-- `Start` and `Stop`: the state of the VM behind a success.
use easyshift.Base.{
  ℕ, zero, suc, String, ◌≡◌, refl, Bool, true, false, some, arith, [], ◌∷◌, ◌==◌, inl, inr,
}
use easyshift.Base.Text.{trim_space}
use easyshift.Base.Action.{Result, ok, err, Result-cases}
use easyshift.Interfaces.Os.{Clock}
use easyshift.Interfaces.Providers.{CommandRunner}
use easyshift.Providers.Libvirt.{
  virsh, virsh_do, is_running, reached, await_state, destroy, start, stop,
}

-- The states of a domain, and what `virsh domstate` prints of them.
pub data DomState : Type 0 where
  no_state running idle paused in_shutdown shut_off crashed pm_suspended : DomState

abbrev pub shown : DomState → String
shown no_state = "no state"
shown running = "running"
shown idle = "idle"
shown paused = "paused"
shown in_shutdown = "in shutdown"
shown shut_off = "shut off"
shown crashed = "crashed"
shown pm_suspended = "pmsuspended"

abbrev pub runs : DomState → Bool
runs running = true
runs _ = false

runs_lem : (s : DomState) → runs s ≡ true → s ≡ running
runs_lem running h = refl
runs_lem no_state h = cc
runs_lem idle h = cc
runs_lem paused h = cc
runs_lem in_shutdown h = cc
runs_lem shut_off h = cc
runs_lem crashed h = cc
runs_lem pm_suspended h = cc

runs-shown : (s : DomState) → (shown s == "running") ≡ runs s
runs-shown no_state = refl
runs-shown running = refl
runs-shown idle = refl
runs-shown paused = refl
runs-shown in_shutdown = refl
runs-shown shut_off = refl
runs-shown crashed = refl
runs-shown pm_suspended = refl

module _ {W : Type 0} (cmd : CommandRunner W) (clock : Clock W) (name : String)
    (state : W → DomState) where
  abbrev asked : W → W × Result String
  asked = virsh cmd ("domstate" ∷ name ∷ [])

  -- `virsh domstate` prints the state, and a VM that was destroyed is shut off. The guest is free to
  -- change its state at any other time.
  pub record IsDomain : Type 0 where
    pub printed :
        (w : W) (out : String) → (asked w).1 ≡ ok out → trim_space out ≡ shown (state (asked w).0)
    pub destroyed :
        (w : W)
        → (virsh_do cmd ("destroy" ∷ name ∷ []) w).1 ≡ ok tt
        → state (virsh_do cmd ("destroy" ∷ name ∷ []) w).0 ≡ shut_off

  -- The state of the VM behind a success. A failure promises nothing.
  abbrev pub Started : W × Result (Unit {0}) → Type 0
  Started (w, ok _) = state w ≡ running
  Started (w, err _) = Unit

  abbrev pub Stopped : W × Result (Unit {0}) → Type 0
  Stopped (w, ok _) = runs (state w) ≡ false
  Stopped (w, err _) = Unit

  abbrev up : W → Bool
  up w = runs (state w)

  module _ (law : IsDomain) where
    started : (p : W × Result (Unit {0})) → (p.1 ≡ ok tt → up p.0 ≡ true) → Started p
    started (w, ok _) h = runs_lem (state w) (h refl)
    started (w, err _) h = tt

    stopped : (p : W × Result (Unit {0})) → (p.1 ≡ ok tt → up p.0 ≡ false) → Stopped p
    stopped (w, ok _) h = h refl
    stopped (w, err _) h = tt

    probe : (w : W) (b : Bool) → (is_running cmd name w).1 ≡ ok b → up (is_running cmd name w).0 ≡ b
    unfolding is_running
    probe w b h = elim (Result-cases (asked w).1) [
      | inl (out, e) ↦ ground (arith, law.printed w out e, runs-shown (state (asked w).0))
      | inr (_, e) ↦ absurd (ground arith)
    ]

    reached-running :
        (want : Bool) (w : W)
        → reached cmd clock want (is_running cmd name w).1 ≡ true
        → up (is_running cmd name w).0 ≡ want
    reached-running true w h = ground (arith, probe w true)
    reached-running false w h = ground (arith, probe w false)

    await_state-running :
        (n : ℕ) (want : Bool) (w : W)
        → (await_state cmd clock n want name w).1 ≡ some (ok tt)
        → up (await_state cmd clock n want name w).0 ≡ want
    unfolding await_state
    await_state-running zero want w h = cc
    await_state-running (suc n) want w h = ground (
      arith,
      reached-running want w,
      await_state-running n want (clock.wait 2 (is_running cmd name w).0).0,
    )

    stop-off : (w : W) → (stop cmd clock name w).1 ≡ ok tt → up (stop cmd clock name w).0 ≡ false
    unfolding stop destroy
    stop-off w h =
        let w' = (virsh_do cmd ("shutdown" ∷ name ∷ []) w).0 in
        ground (
          arith,
          await_state-running 30 false w',
          law.destroyed (await_state cmd clock 30 false name w').0,
        )

    start-on : (w : W) → (start cmd clock name w).1 ≡ ok tt → up (start cmd clock name w).0 ≡ true
    unfolding start
    start-on w h =
        let w' = (virsh_do cmd ("start" ∷ name ∷ []) w).0 in
        ground (arith, await_state-running 30 true w')

    -- Where `Start` succeeds the domain is in the state running, and where `Stop` succeeds it is in
    -- another state, whether it left that state within the thirty rounds or had to be destroyed.
    pub start_stop-Stopped :
        (w : W) → Started (start cmd clock name w) × Stopped (stop cmd clock name w)
    start_stop-Stopped w = (started _ (start-on w), stopped _ (stop-off w))
