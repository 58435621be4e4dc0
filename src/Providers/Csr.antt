-- ===== src/Providers/Csr.antt =====
-- providers/csr/csr.go: the approver of certificate signing requests. Its loop is a sequence of
-- sweeps, one for each tick of the timer; what others do between two of them is an argument.
pub mod Sweep
use easyshift.Base.{String, List, [], ◌∷◌, ◌==◌, true, false}
use easyshift.Base.Text.{trim_space, split_at, last_part}
use easyshift.Base.Action.{Result, ok, err, Effect, done, attempt, ◌>>◌, ◌>>=◌}
use easyshift.Interfaces.Providers.{CommandRunner}

module _ {W : Type 0} (cmd : CommandRunner W) (oc kubeconfig : String) where
  abbrev pub approve_args : String → List String
  approve_args csr = "--kubeconfig" ∷ kubeconfig ∷ "adm" ∷ "certificate" ∷ "approve" ∷ csr ∷ []

  abbrev pub approve : String → Effect W
  approve csr = attempt (cmd.run oc (approve_args csr))

  -- The loop over the lines of the list.
  unfoldable pub approve_lines : List String → Effect W
  approve_lines [] w = (w, ok tt)
  approve_lines (l ∷ ls) w =
      let line = trim_space l in
      elim (line == "") [
        | true ↦ approve_lines ls w
        | false ↦ approve_lines ls (approve (last_part "/" line) w).0
      ]

  abbrev pub list_csrs : W → W × Result String
  list_csrs = cmd.run oc ("--kubeconfig" ∷ kubeconfig ∷ "get" ∷ "csr" ∷ "-o" ∷ "name" ∷ [])

  unfoldable pub sweep : Effect W
  unfolding approve_lines
  sweep w = elim (list_csrs w).1 [
    | ok out ↦ approve_lines (split_at "\n" (trim_space out)) (list_csrs w).0
    | err e ↦ ((list_csrs w).0, ok tt)
  ]

  -- `Run` until its context ends: a sweep at once, and one behind each tick.
  unfoldable pub run : List (W → W) → Effect W
  unfolding sweep
  run [] w = sweep w
  run (tick ∷ ticks) w = run ticks (tick (sweep w).0)
