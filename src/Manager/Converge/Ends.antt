-- ===== src/Manager/Converge/Ends.antt =====
-- The waiting behind a start ends, and what its success rests on.
use easyshift.Base.{
  ℕ, zero, suc, ◌+◌, ◌*◌, ◌≤◌, ◌<◌, String, ◌≡◌, refl, ap, false, Option, none, some, List, [], ◌∷◌,
  arith, Option-cases, inl, inr,
}
use easyshift.Base.Lists.{All}
use easyshift.Base.Text.{fields, has_substring}
use easyshift.Base.Action.{Error, Result, ok, err}
use easyshift.Interfaces.Providers.{CommandRunner}
use easyshift.Interfaces.Os.{join_path}
use easyshift.Config.Paths.{binaries_dir, cluster_dir}
use easyshift.Config.Types.{ClusterConfig}
use easyshift.Interfaces.Os.{Clock}
use easyshift.Manager.Converge.{
  Round, poll, api_round, wait_for_api, node_ready, csrs_pending, converge_round, converge_loop,
  behind_api, converge_after_start,
}

module _ {W : Type 0} (cmd : CommandRunner W) (clock : Clock W) where
  poll_verdict :
      (round : Round W) (fuel : ℕ) (w : W) {r : Result (Unit {0})}
      → (round w).1 ≡ some r
      → poll cmd clock round (suc fuel) w ≡ ((round w).0, some r)
  unfolding poll
  poll_verdict round fuel w h = ground arith

  poll_stop :
      (round : Round W) (fuel : ℕ) (w : W) {e : Error}
      → (round w).1 ≡ none
      → (clock.wait 10 (round w).0).1 ≡ some e
      → poll cmd clock round (suc fuel) w ≡ ((clock.wait 10 (round w).0).0, some (err e))
  unfolding poll
  poll_stop round fuel w h stop = ground arith

  poll_on :
      (round : Round W) (fuel : ℕ) (w : W)
      → (round w).1 ≡ none
      → (clock.wait 10 (round w).0).1 ≡ none
      → poll cmd clock round (suc fuel) w ≡ poll cmd clock round fuel (clock.wait 10 (round w).0).0
  unfolding poll
  poll_on round fuel w h on = ground arith

  -- The clock of a command and of a wait, as time passes.
  pub record IsClock : Type 0 where
    pub run :
        (name : String) (args : List String) (w : W)
        → clock.now w ≤ clock.now (cmd.run name args w).0
    pub wait : (n : ℕ) (w : W) → n + clock.now w ≤ clock.now (clock.wait n w).0

  -- A round with a deadline: time passes, and it is open only up to the deadline.
  record IsTimed (round : Round W) (deadline : ℕ) : Type 0 where
    later : (w : W) → clock.now w ≤ clock.now (round w).0
    on_time : (w : W) → (round w).1 ≡ none → clock.now (round w).0 ≤ deadline

  module _ (law : IsClock) where
    poll-ends :
        (round : Round W) (deadline : ℕ)
        → IsTimed round deadline
        → (n : ℕ) (w : W) → deadline < clock.now w + n * 10
        → (r : Result (Unit {0})) × ((poll cmd clock round (suc n) w).1 ≡ some r)
    poll-ends round deadline timed zero w h = elim (Option-cases (round w).1) [
      | inr (r, e) ↦ (r, ap (λ x. x.1) (poll_verdict round 0 w e))
      | inl e ↦ absurd (let a = timed.later w in let b = timed.on_time w e in omega arith)
    ]
    poll-ends round deadline timed (suc n) w h = elim (Option-cases (round w).1) [
      | inr (r, e) ↦ (r, ap (λ x. x.1) (poll_verdict round (suc n) w e))
      | inl e ↦ elim (Option-cases (clock.wait 10 (round w).0).1) [
        | inr (s, g) ↦ (err s, ap (λ x. x.1) (poll_stop round (suc n) w e g))
        | inl g ↦
            let a = timed.later w in
            let b = law.wait 10 (round w).0 in
            rw (poll_on round (suc n) w e g) (poll-ends round deadline timed n _ (grind arith))
      ]
    ]

    api_round-IsTimed :
        (oc kubeconfig : String) (deadline : ℕ)
        → IsTimed (api_round cmd clock oc kubeconfig deadline) deadline
    unfolding api_round
    api_round-IsTimed oc kubeconfig deadline = record {
      later = λ w.
          ground
            (arith, law.run oc ("--kubeconfig" ∷ kubeconfig ∷ "get" ∷ "--raw" ∷ "/readyz" ∷ []) w);
      on_time = λ w h. ground arith;
    }

    node_ready-later :
        (oc kubeconfig : String) (w : W)
        → clock.now w ≤ clock.now (node_ready cmd clock oc kubeconfig w).0
    unfolding node_ready
    node_ready-later oc kubeconfig w = law.run oc _ w

    csrs_pending-later :
        (oc kubeconfig : String) (w : W)
        → clock.now w ≤ clock.now (csrs_pending cmd clock oc kubeconfig w).0
    unfolding csrs_pending
    csrs_pending-later oc kubeconfig w = law.run oc _ w

    converge_round-IsTimed :
        (oc kubeconfig name : String) (deadline : ℕ)
        → IsTimed (converge_round cmd clock oc kubeconfig name deadline) deadline
    unfolding converge_round
    converge_round-IsTimed oc kubeconfig name deadline = record {
      later = λ w.
          let a = node_ready-later oc kubeconfig w in
          let b = csrs_pending-later oc kubeconfig (node_ready cmd clock oc kubeconfig w).0 in
          ground arith;
      on_time = λ w h. ground arith;
    }

    wait_for_api-ends :
        (oc kubeconfig : String) (w : W)
        → (r : Result (Unit {0})) × ((wait_for_api cmd clock oc kubeconfig w).1 ≡ some r)
    unfolding wait_for_api
    wait_for_api-ends oc kubeconfig w =
        poll-ends (api_round cmd clock oc kubeconfig (clock.now w + 900)) (clock.now w + 900)
          (api_round-IsTimed oc kubeconfig (clock.now w + 900)) 91 w (omega arith)

    converge_loop-ends :
        (oc kubeconfig name : String) (w : W)
        → (r : Result (Unit {0})) × ((converge_loop cmd clock oc kubeconfig name w).1 ≡ some r)
    unfolding converge_loop
    converge_loop-ends oc kubeconfig name w =
        poll-ends (converge_round cmd clock oc kubeconfig name (clock.now w + 600))
          (clock.now w + 600) (converge_round-IsTimed oc kubeconfig name (clock.now w + 600)) 61 w
          (omega arith)

    behind_api-ends :
        (next : Round W) (p : W × Option (Result (Unit {0}))) (r : Result (Unit {0}))
        → p.1 ≡ some r
        → ((v : W) → (s : Result (Unit {0})) × ((next v).1 ≡ some s))
        → (s : Result (Unit {0})) × ((behind_api cmd clock next p).1 ≡ some s)
    behind_api-ends next (v, some (ok _)) r h ends = ends v
    behind_api-ends next (v, some (err e)) r h ends = (err e, refl)
    behind_api-ends next (v, none) r h ends = absurd (cc h)

    -- The waiting behind a start has a verdict, if time passes: the first loop takes at most 92
    -- rounds and the second one at most 62.
    pub converge_after_start-ends :
        (dir : String) (c : ClusterConfig) (w : W)
        → (r : Result (Unit {0})) × ((converge_after_start cmd clock dir c w).1 ≡ some r)
    unfolding converge_after_start
    converge_after_start-ends dir c w =
        let oc = join_path (binaries_dir dir c.ocp_version ∷ "oc" ∷ []) in
        let kubeconfig = join_path (cluster_dir dir c.name ∷ "auth" ∷ "kubeconfig" ∷ []) in
        let (r, e) = wait_for_api-ends oc kubeconfig w in
        behind_api-ends (converge_loop cmd clock oc kubeconfig c.name)
          (wait_for_api cmd clock oc kubeconfig w) r e (converge_loop-ends oc kubeconfig c.name)

  -- The two calls of a round.
  abbrev pub ask_nodes : String → String → W → W × Result String
  ask_nodes oc kubeconfig = cmd.run oc (
      "--kubeconfig" ∷ kubeconfig ∷ "get" ∷ "nodes" ∷ "-o"
      ∷ "jsonpath={.items[*].status.conditions[?(@.type==\"Ready\")].status}" ∷ [])

  abbrev pub ask_csrs : String → String → W → W × Result String
  ask_csrs oc kubeconfig = cmd.run oc ("--kubeconfig" ∷ kubeconfig ∷ "get" ∷ "csr" ∷ [])

  abbrev pub IsTrue : String → Type 0
  IsTrue f = f ≡ "True"

  abbrev EachTrue : List String → Type 0
  EachTrue [] = ⊥
  EachTrue (f ∷ fs) = All IsTrue (f ∷ fs)

  -- The answer names one status at least, and each is `True`.
  abbrev pub AllReady : Result String → Type 0
  AllReady (ok out) = EachTrue (fields out)
  AllReady (err _) = ⊥

  -- The list of requests has none pending, or it could not be had.
  abbrev pub NonePending : Result String → Type 0
  NonePending (ok out) = has_substring out "Pending" ≡ false
  NonePending (err _) = Unit
