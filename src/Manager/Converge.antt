-- ===== src/Manager/Converge.antt =====
-- app/converge.go: waiting for a cluster that was started. Times are in seconds. The approver of
-- CSRs, which runs beside the second loop, acts on the world during the waits of that loop.
pub mod Ends
use easyshift.Base.{
  ℕ, zero, suc, ◌+◌, String, ◌<>◌, Bool, true, false, not, ◌&&◌, Option, none, some, List, [], ◌∷◌,
  ltb, ◌==◌, if◌then◌else◌,
}
use easyshift.Base.Text.{fields, has_substring}
use easyshift.Base.Action.{Error, Result, ok, err, Effect}
use easyshift.Interfaces.Os.{join_path}
use easyshift.Interfaces.Providers.{CommandRunner}
use easyshift.Config.Types.{ClusterConfig}
use easyshift.Config.Paths.{binaries_dir, cluster_dir}
use easyshift.Interfaces.Os.{Clock}

abbrev api_wait_timeout : ℕ
api_wait_timeout = 900

abbrev converge_timeout : ℕ
converge_timeout = 600

abbrev pub poll_interval : ℕ
poll_interval = 10

-- A round of a loop: what it does to the world, and the verdict if it has one.
abbrev pub Round : Type 0 → Type 0
Round W = W → W × Option (Result (Unit {0}))

module _ {W : Type 0} (cmd : CommandRunner W) (clock : Clock W) where
  -- A loop of rounds with a wait between them, for at most `fuel` rounds.
  unfoldable pub poll : Round W → ℕ → Round W
  poll round zero w = (w, none)
  poll round (suc fuel) w =
      let (w', verdict) = round w in
      elim verdict [
        | some r ↦ (w', some r)
        | none ↦
            let (w'', stop) = clock.wait poll_interval w' in
            elim stop [ some e ↦ (w'', some (err e)) | none ↦ poll round fuel w'' ]
      ]

  -- `time.Now().After(deadline)`
  abbrev pub is_late : ℕ → W → Bool
  is_late deadline w = ltb deadline (clock.now w)

  abbrev pub oc_args : String → List String → List String
  oc_args kubeconfig args = "--kubeconfig" ∷ kubeconfig ∷ args

  abbrev api_verdict : ℕ → W × Result String → W × Option (Result (Unit {0}))
  api_verdict deadline (w, ok _) = (w, some (ok tt))
  api_verdict deadline (w, err _) =
      if is_late deadline w
      then (w, some (err "API did not become ready within 15m0s after VM start"))
      else (w, none)

  unfoldable pub api_round : String → String → ℕ → Round W
  api_round oc kubeconfig deadline w =
      api_verdict deadline (cmd.run oc (oc_args kubeconfig ("get" ∷ "--raw" ∷ "/readyz" ∷ [])) w)

  -- `waitForAPI`
  unfoldable pub wait_for_api : String → String → Round W
  wait_for_api oc kubeconfig w =
      poll (api_round oc kubeconfig (clock.now w + api_wait_timeout)) 92 w

  abbrev pub all_true : List String → Bool
  all_true [] = true
  all_true (f ∷ fs) = f == "True" && all_true fs

  abbrev pub ready_fields : List String → Bool
  ready_fields [] = false
  ready_fields (f ∷ fs) = all_true (f ∷ fs)

  abbrev pub shows_ready : Result String → Bool
  shows_ready (ok out) = ready_fields (fields out)
  shows_ready (err _) = false

  unfoldable pub node_ready : String → String → W → W × Bool
  node_ready oc kubeconfig w =
      let (w', out) =
        cmd.run oc
          (oc_args kubeconfig (
            "get" ∷ "nodes" ∷ "-o"
            ∷ "jsonpath={.items[*].status.conditions[?(@.type==\"Ready\")].status}" ∷ []))
          w in
      (w', shows_ready out)

  abbrev pub shows_pending : Result String → Bool
  shows_pending (ok out) = has_substring out "Pending"
  shows_pending (err _) = false

  unfoldable pub csrs_pending : String → String → W → W × Bool
  csrs_pending oc kubeconfig w =
      let (w', out) = cmd.run oc (oc_args kubeconfig ("get" ∷ "csr" ∷ [])) w in
      (w', shows_pending out)

  abbrev show_bool : Bool → String
  show_bool true = "true"
  show_bool false = "false"

  abbrev converge_verdict : String → ℕ → Bool → Bool → Round W
  converge_verdict name deadline ready pending w =
      if ready && not pending
      then (w, some (ok tt))
      else if is_late deadline w
      then (
        w,
        some (
            err (
              "cluster "
              <> (name
                  <> (" did not converge within 10m0s (node Ready="
                      <> (show_bool ready
                          <> (", CSRs pending="
                              <> (show_bool pending
                                  <> ("); it may still recover on its own — check `easyshift status "
                                      <> (name <> "`"))))))))),
      )
      else (w, none)

  unfoldable pub converge_round : String → String → String → ℕ → Round W
  converge_round oc kubeconfig name deadline w =
      let (w1, ready) = node_ready oc kubeconfig w in
      let (w2, pending) = csrs_pending oc kubeconfig w1 in
      converge_verdict name deadline ready pending w2

  unfoldable pub converge_loop : String → String → String → Round W
  converge_loop oc kubeconfig name w =
      poll (converge_round oc kubeconfig name (clock.now w + converge_timeout)) 62 w

  -- The second loop behind the first one.
  abbrev behind_api : Round W → W × Option (Result (Unit {0})) → W × Option (Result (Unit {0}))
  behind_api next (w, some (ok _)) = next w
  behind_api next (w, some (err e)) = (w, some (err e))
  behind_api next (w, none) = (w, none)

  unfoldable pub converge_after_start : String → ClusterConfig → Round W
  converge_after_start dir c w =
      let oc = join_path (binaries_dir dir c.ocp_version ∷ "oc" ∷ []) in
      let kubeconfig = join_path (cluster_dir dir c.name ∷ "auth" ∷ "kubeconfig" ∷ []) in
      behind_api (converge_loop oc kubeconfig c.name) (wait_for_api oc kubeconfig w)
