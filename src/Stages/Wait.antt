-- ===== src/Stages/Wait.antt =====
-- stages/waitforinstall: waiting for the installer, and the watchdog over the master's VM. The
-- installer and `ctx.Err()` are parameters.
pub mod Attempts
use easyshift.Base.{ℕ, zero, suc, String, ◌<>◌, Bool, true, false, not, ◌||◌, if◌then◌else◌}
use easyshift.Base.Text.{has_substring}
use easyshift.Base.Action.{Error, Result, ok, err, Action, Effect}
use easyshift.Interfaces.Providers.{VmManager}

abbrev pub retries : ℕ
retries = 3

unfoldable pub is_installer_timeout : Error → Bool
is_installer_timeout e = has_substring e "exit status 6"

module _ {W : Type 0} (install : Effect W) (cancelled : W → Bool) where
  abbrev pub gave_up : Error → Error
  gave_up e = "wait-for install-complete: gave up after 3 timeouts: " <> e

  -- The loop of `waitWithRetry`, with `left` attempts left and the error of the last one.
  unfoldable pub attempts : ℕ → Error → Effect W
  attempts zero last w = (w, err (gave_up last))
  attempts (suc left) last w =
      let (w', r) = install w in
      elim r [
        | ok _ ↦ (w', ok tt)
        | err e ↦ elim (cancelled w' || not (is_installer_timeout e)) [
          | true ↦ (w', err e)
          | false ↦ attempts left e w'
        ]
      ]

  unfoldable pub wait_with_retry : Effect W
  wait_with_retry = attempts retries ""

-- One tick of `watchdog`: a VM that is known to be off is started again.
unfoldable pub watchdog_tick : {W : Type 0} → VmManager W → String → W → W
watchdog_tick vm name w =
    let (w', r) = vm.is_running name w in
    elim r [ ok true ↦ w' | ok false ↦ (vm.start name w').0 | err e ↦ w' ]
