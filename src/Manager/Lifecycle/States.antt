-- ===== src/Manager/Lifecycle/States.antt =====
-- The states that the operations of the manager lead between.
use easyshift.Base.{
  String, ◌<>◌, ◌≡◌, ◌⊎◌, inl, inr, refl, sym, ap, ◌∙◌, true, false, none, some, List, [], ◌∷◌,
  arith, ◌==◌, Bool-cases,
}
use easyshift.Base.Action
use easyshift.Base.Action.{
  Error, Result, ok, err, Action, Effect, after, after-eq-ok, after_of_ok, after_of_err,
  rewrap-eq-ok, Result-cases, ok-injective,
}
use easyshift.Config.Types.{Pointer}
use easyshift.Config.Constants.{state_running, state_stopped}
use easyshift.Config.Memory.{Memory, save, assign, assign_self}
use easyshift.Config.Paths.{ensure_pull_secret}
use easyshift.Runner
use easyshift.Manager.Validate.{validate_name}
use easyshift.Manager.Pipeline.{Parts, build_stages}
use easyshift.Manager.Lifecycle.{
  find, vm_names, admit, choose, resolve, apply_pipeline, assert_running, converge, build, create,
  start_vms, stop_vms, start, stop,
}

module _ {W : Type 0} (parts : Parts W) where
  assert_running-state :
      (q : Pointer) (m : Memory W)
      → (((assert_running parts q m).0.heap q).state == state_running) ≡ true
  unfolding assert_running save
  assert_running-state q m = elim (Bool-cases ((m.heap q).state == state_running)) [
    | inl h ↦ rw (h, assert_running) h
    | inr h ↦ rw (h, assert_running) (ap (λ c. c.state == state_running) (assign_self m.heap q _))
  ]

  stop_vms-ok : (names : List String) (w : W) → (stop_vms parts names w).1 ≡ ok tt
  unfolding stop_vms
  stop_vms-ok [] w = refl
  stop_vms-ok (vm ∷ rest) w = stop_vms-ok rest (parts.vm.stop vm w).0

  -- A build that succeeds ends in `assert_running`.
  build-state :
      (q : Pointer) (m : Memory W)
      → (build parts q m).1 ≡ ok tt
      → (((build parts q m).0.heap q).state == state_running) ≡ true
  unfolding build
  build-state q m h =
      let (_, _, e) = after-eq-ok (resolve parts q m) _ h in
      let (_, _, f) =
        after-eq-ok
          (Action.rewrap (λ e. "preflight: " <> e)
            (Runner.preflight (build_stages parts q) (resolve parts q m).0))
          _ (rw e at h) in
      let (_, _, g) = after-eq-ok (apply_pipeline parts q _) _ (rw (e, f) at h) in
      rw (e, f, g) (assert_running-state q _)

  choose-ok :
      (p q : Pointer) (m : Memory W)
      → (choose parts p m).1 ≡ ok q
      → (find m (m.heap p).name ≡ some q) ⊎ ((find m (m.heap p).name ≡ none) × (q ≡ p))
  unfolding choose admit
  choose-ok p q m h = ground arith

  choose_running :
      (p q : Pointer) (m : Memory W)
      → find m (m.heap p).name ≡ some q
      → (m.heap q).state ≡ state_running
      → choose parts p m ≡ (m, err ("cluster " <> ((m.heap p).name <> " is already running")))
  unfolding choose
  choose_running p q m known runs = rw (known, runs, choose)

  ensure_pull_secret-same :
      (dir : String) (w : W)
      → (r : Result (Unit {0})) × (ensure_pull_secret parts.disk.files dir w ≡ (w, r))
  unfolding ensure_pull_secret
  ensure_pull_secret-same dir w = ((ensure_pull_secret parts.disk.files dir w).1, ground arith)

  -- A cluster that is registered and runs is not created again: nothing at all is changed.
  pub create-refuses :
      (p q : Pointer) (m : Memory W)
      → find m (m.heap p).name ≡ some q
      → (m.heap q).state ≡ state_running
      → (e : Error) × (create parts p m ≡ (m, err e))
  unfolding create
  create-refuses p q m known runs =
      let (r, e) = ensure_pull_secret-same m.config.config_dir m.world in
      let refused = choose_running p q m known runs in
      elim (Result-cases (validate_name (m.heap p))) [
        | inr (x, f) ↦ (x, rw (create, f))
        | inl (_, f) ↦ elim (Result-cases r) [
          | inr (x, g) ↦ (x, rw (create, f, e, g))
          | inl (_, g) ↦ (
            "cluster " <> ((m.heap p).name <> " is already running"),
            rw (create, f, e, g, refused),
          )
        ]
      ]

  -- A start that succeeds was of a registered cluster that did not run; that cluster is marked as
  -- running, and nothing else in memory has changed.
  pub start-ok :
      (name : String) (m : Memory W)
      → (start parts name m).1 ≡ ok tt
      → (q : Pointer) × (find m name ≡ some q)
        × (((m.heap q).state == state_running) ≡ false)
        × ((start parts name m).0.heap
            ≡ assign m.heap q (record (m.heap q) { state = state_running }))
        × ((start parts name m).0.config ≡ m.config)
  unfolding start save converge
  start-ok name m h = ground arith

  -- `Stop` of a running cluster marks it as stopped behind the loop over its VMs, whatever becomes of
  -- the single VMs, then saves the config, and returns what the save returns.
  pub stop-state :
      (name : String) (q : Pointer) (m : Memory W)
      → find m name ≡ some q
      → (m.heap q).state ≡ state_running
      → let marked = record m {
        heap = assign m.heap q (record (m.heap q) { state = state_stopped });
        world = (stop_vms parts (vm_names (m.heap q)) m.world).0;
      } in
        (stop parts name m ≡ save parts.disk marked)
        × ((stop parts name m).0.heap ≡ marked.heap)
        × ((stop parts name m).0.config ≡ m.config)
  unfolding stop save
  stop-state name q m known runs =
      rw (known, runs, stop) (ground (arith, stop_vms-ok (vm_names (m.heap q)) m.world))

  -- If a VM does not start, `Start` returns its failure and the cluster keeps its state.
  start_failed :
      (name : String) (q : Pointer) (m : Memory W) {e : Error}
      → find m name ≡ some q
      → ((m.heap q).state == state_running) ≡ false
      → (start_vms parts (vm_names (m.heap q)) m.world).1 ≡ err e
      → (start parts name m
          ≡ (record m { world = (start_vms parts (vm_names (m.heap q)) m.world).0 }, err e))
  unfolding start save converge
  start_failed name q m known off fails = ground arith

  create-steps :
      (p : Pointer) (m : Memory W)
      → (create parts p m).1 ≡ ok tt
      → create parts p m ≡ after (choose parts p m) (build parts)
  unfolding create
  create-steps p m h =
      let (r, e) = ensure_pull_secret-same m.config.config_dir m.world in
      elim (Result-cases (validate_name (m.heap p))) [
        | inr (x, f) ↦ absurd (cc (rw (create, f) at h))
        | inl (_, f) ↦ elim (Result-cases r) [
          | inr (x, g) ↦ absurd (cc (rw (create, f, e, g) at h))
          | inl (_, g) ↦ rw (create, f, e, g)
        ]
      ]

  -- A creation that succeeds leaves its cluster running: the registered cluster of the name if
  -- there is one, else the new one.
  pub create-running :
      (p : Pointer) (m : Memory W)
      → (create parts p m).1 ≡ ok tt
      → (q : Pointer) × ((find m (m.heap p).name ≡ some q)
          ⊎ ((find m (m.heap p).name ≡ none) × (q ≡ p)))
        × ((((create parts p m).0.heap q).state == state_running) ≡ true)
  create-running p m h =
      let e = create-steps p m h in
      let (q, c, b) = after-eq-ok (choose parts p m) (build parts) (ap (λ x. x.1) (sym e) ∙ h) in
      let f = e ∙ b in
      (q, choose-ok p q m c, rw f (build-state q (choose parts p m).0 (ap (λ x. x.1) (sym f) ∙ h)))
