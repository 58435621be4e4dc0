-- ===== src/Providers/Vfkit/Phases.antt =====
-- The boot phases of a VM: who launches the installer.
use easyshift.Base.{
  ℕ, String, ◌≡◌, refl, ap, sym, ◌∙◌, true, ◌||◌, Option, none, some, arith, ◌==◌, inl, inr, zero,
  suc, eq_iff,
}
use easyshift.Base.Dict.{lookup, erase}
use easyshift.Base.Text.{trim_space}
use easyshift.Base.Action.{ok, Result-cases, after-eq-ok}
use easyshift.Interfaces.Os.{Files, Clock, Codec, IsLawful}
use easyshift.Providers.Vfkit.{
  LaunchSpec, Signal, probe, kill, Processes, Sidecar, State, phase, phase_of, phase_run,
  phase_install, set_phase, enter_run, kill_process, load, read_pid, is_running, build_args,
  stop_in, stop_sidecar, start_in, launch_as, launch, start_stopped, start, await_exit, force_stop,
  transition_to_run, in_vm_dir, vm_dir,
}

run_text : trim_space phase_run ≡ phase_run
unfolding trim_space
run_text = refl

module _ {W : Type 0} (files : Files W) (processes : Processes W) (sidecar : Option (Sidecar W))
    (codec : Codec LaunchSpec) (clock : Clock W) (dir : String) (installs : W → ℕ) where
  -- The sidecar launches no installer.
  abbrev pub SidecarKeeps : Option (Sidecar W) → Type 0
  SidecarKeeps none = Unit
  SidecarKeeps (some side) =
      ((name sock : String) (w : W) → installs (side.start_sidecar name sock w).0 ≡ installs w)
      × ((h : ℕ) (w : W) → installs (side.run_stop h w) ≡ installs w)
      × ((name sock : String) (w : W) → installs (side.stop_sidecar name sock w).0 ≡ installs w)

  -- `installs` counts the launches with the boot loader of the installer. A process with the boot
  -- loader of the run phase is none, and nor is anything but a process. A signal changes no file.
  pub record IsHost (name : String) : Type 0 where
    pub run_phase :
        (ls : LaunchSpec) (w : W)
        → installs
            (processes.spawn
              (build_args files processes sidecar codec clock dir name ls phase_run)
              w).0
          ≡ installs w
    pub signalled :
        (sg : Signal) (pid : ℕ) (w : W) → installs (processes.signal sg pid w).0 ≡ installs w
    pub same_files :
        (sg : Signal) (pid : ℕ) (path : String) (w : W)
        → files.read_file path (processes.signal sg pid w).0 ≡ files.read_file path w
    pub made : (path : String) (w : W) → installs (files.mkdir_all path w).0 ≡ installs w
    pub written :
        (path text : String) (w : W) → installs (files.write_file path text w).0 ≡ installs w
    pub removed : (path : String) (w : W) → installs (files.remove path w).0 ≡ installs w
    pub waited : (n : ℕ) (w : W) → installs (clock.wait n w).0 ≡ installs w
    pub sidecar_keeps : SidecarKeeps sidecar

  abbrev at : State W → ℕ
  at s = installs s.world

  stop_in-installs :
      (side : Option (Sidecar W)) (h : Option ℕ) (name : String) (w : W)
      → SidecarKeeps side
      → installs (stop_in files processes sidecar codec clock dir side h name w) ≡ installs w
  stop_in-installs none h name w k = refl
  stop_in-installs (some side) none name w k = k.2 name _ w
  stop_in-installs (some side) (some h) name w k = k.2 name _ (side.run_stop h w) ∙ k.1 h w

  start_in-installs :
      (side : Option (Sidecar W)) (name : String) (s : State W)
      → SidecarKeeps side
      → at (start_in files processes sidecar codec clock dir side name s).0 ≡ at s
  unfolding start_in
  start_in-installs none name s k = refl
  start_in-installs (some side) name s k =
      elim (Result-cases
        (side.start_sidecar name (in_vm_dir files processes sidecar codec clock dir name "net.sock")
          s.world).1) [
            | inl (h, e) ↦ ground (
              arith,
              k.0 name (in_vm_dir files processes sidecar codec clock dir name "net.sock") s.world,
            )
            | inr (_, e) ↦ ground (
              arith,
              k.0 name (in_vm_dir files processes sidecar codec clock dir name "net.sock") s.world,
            )
          ]

  module _ (name : String) (law : IsHost name) where
    stop_sidecar-installs :
        (s : State W) → at (stop_sidecar files processes sidecar codec clock dir name s) ≡ at s
    unfolding stop_sidecar
    stop_sidecar-installs s =
        stop_in-installs sidecar (lookup name s.sidecar_stops) name s.world law.sidecar_keeps

    -- A launch in the run phase.
    launch_as-installs :
        (ls : LaunchSpec) (s : State W)
        → at (launch_as files processes sidecar codec clock dir name ls phase_run s).0 ≡ at s
    unfolding launch_as
    launch_as-installs ls s =
        let s1 = stop_sidecar files processes sidecar codec clock dir name s in
        let s2 = start_in files processes sidecar codec clock dir sidecar name s1 in
        elim (Result-cases s2.1) [
          | inr (_, e) ↦
              ground (
                arith,
                stop_sidecar-installs s,
                start_in-installs sidecar name s1 law.sidecar_keeps,
              )
          | inl (_, e) ↦
              let s3 =
                processes.spawn
                  (build_args files processes sidecar codec clock dir name ls phase_run)
                  s2.0.world in
              elim (Result-cases s3.1) [
                | inl (_, g) ↦ ground (
                  arith,
                  stop_sidecar-installs s,
                  start_in-installs sidecar name s1 law.sidecar_keeps,
                  law.run_phase ls s2.0.world,
                )
                | inr (_, g) ↦ ground (
                  arith,
                  stop_sidecar-installs s,
                  start_in-installs sidecar name s1 law.sidecar_keeps,
                  law.run_phase ls s2.0.world,
                )
              ]
        ]

    launch-installs :
        (s : State W)
        → phase files processes sidecar codec clock dir name s.world ≡ phase_run
        → at (launch files processes sidecar codec clock dir name s).0 ≡ at s
    unfolding launch
    launch-installs s h =
        elim (Result-cases (load files processes sidecar codec clock dir name s.world).1) [
          | inl (ls, e) ↦ rw (e, launch, h) (launch_as-installs ls s)
          | inr (_, e) ↦ rw (e, launch) refl
        ]

  module _ (lawful : IsLawful files) (name : String) (law : IsHost name) where
    set_phase-installs :
        (text : String) (w : W)
        → installs (set_phase files processes sidecar codec clock dir name text w).0 ≡ installs w
    unfolding set_phase
    set_phase-installs text w =
        let d = in_vm_dir files processes sidecar codec clock dir name "phase" in
        ground (
          arith,
          law.made (vm_dir files processes sidecar codec clock dir name) w,
          law.written d text
              (files.mkdir_all (vm_dir files processes sidecar codec clock dir name) w).0,
        )

    set_phase-run :
        (w : W)
        → (set_phase files processes sidecar codec clock dir name phase_run w).1 ≡ ok tt
        → phase files processes sidecar codec clock dir name
            (set_phase files processes sidecar codec clock dir name phase_run w).0
          ≡ phase_run
    unfolding set_phase
    set_phase-run w h =
        let made = files.mkdir_all (vm_dir files processes sidecar codec clock dir name) w in
        let (_, e, r) =
          after-eq-ok made
            (λ _.
              files.write_file (in_vm_dir files processes sidecar codec clock dir name "phase")
                phase_run)
            h in
        rw r (
          ap (phase_of files processes sidecar codec clock dir) (
            lawful.read-write (in_vm_dir files processes sidecar codec clock dir name "phase")
              phase_run made.0 (ap (λ p. p.1) (sym r) ∙ h))
          ∙ run_text)

    enter_run-installs :
        (s : State W) → at (enter_run files processes sidecar codec clock dir name s).0 ≡ at s
    unfolding enter_run
    enter_run-installs s =
        let p = set_phase files processes sidecar codec clock dir name phase_run s.world in
        elim (Result-cases p.1) [
          | inr (_, e) ↦ ground (arith, set_phase-installs phase_run s.world)
          | inl (_, e) ↦ ground (
            arith,
            set_phase-installs phase_run s.world,
            launch-installs name law (record s { world = p.0 }) (set_phase-run s.world e),
          )
        ]

    -- A VM that is in one of the two phases stays out of the installer.
    start_stopped-installs :
        (s : State W)
        → (phase files processes sidecar codec clock dir name s.world == phase_install
            || phase files processes sidecar codec clock dir name s.world == phase_run)
          ≡ true
        → at (start_stopped files processes sidecar codec clock dir name s).0 ≡ at s
    unfolding start_stopped
    start_stopped-installs s h = ground (
      arith,
      enter_run-installs s,
      launch-installs name law s,
      eq_iff (phase files processes sidecar codec clock dir name s.world) phase_run,
    )

    is_running-installs :
        (w : W)
        → (installs (is_running files processes sidecar codec clock dir name w).0 ≡ installs w)
          × (phase files processes sidecar codec clock dir name
                (is_running files processes sidecar codec clock dir name w).0
              ≡ phase files processes sidecar codec clock dir name w)
    unfolding is_running
    is_running-installs w =
        elim (Result-cases (read_pid files processes sidecar codec clock dir name w).1) [
          | inl (pid, e) ↦ ground (
            arith,
            law.signalled probe pid w,
            law.same_files probe pid
                (in_vm_dir files processes sidecar codec clock dir name "phase") w,
          )
          | inr (_, e) ↦ ground arith
        ]

    await_exit-installs :
        (n deadline pid : ℕ) (w : W)
        → installs (await_exit files processes sidecar codec clock dir n deadline pid w)
          ≡ installs w
    unfolding await_exit
    await_exit-installs zero deadline pid w = refl
    await_exit-installs (suc n) deadline pid w = ground (
      arith,
      law.signalled probe pid w,
      law.waited 1 (processes.signal probe pid w).0,
      await_exit-installs n deadline pid (clock.wait 1 (processes.signal probe pid w).0).0,
    )

    kill_process-installs :
        (p : Option ℕ) (w : W)
        → installs (kill_process files processes sidecar codec clock dir p name w) ≡ installs w
    kill_process-installs (some pid) w = await_exit-installs 101 _ pid _ ∙ law.signalled kill pid w
    kill_process-installs none w =
        elim (Result-cases (read_pid files processes sidecar codec clock dir name w).1) [
          | inl (pid, e) ↦
              ground
                (arith, law.signalled kill pid w, law.waited 10 (processes.signal kill pid w).0)
          | inr (_, e) ↦ ground arith
        ]

    force_stop-installs :
        (s : State W) → at (force_stop files processes sidecar codec clock dir name s) ≡ at s
    unfolding force_stop
    force_stop-installs s =
        let s1 = record s {
          procs = erase name s.procs;
          world =
              kill_process files processes sidecar codec clock dir (lookup name s.procs) name
                s.world;
        } in
        law.removed _ _
        ∙ (stop_sidecar-installs name law s1 ∙ kill_process-installs (lookup name s.procs) s.world)

    -- Neither a start of a VM that was created nor the transition behind the installation launches the
    -- installer again: a start in the install phase enters the run phase, and the disk boots.
    pub start-installs :
        (s : State W)
        → (phase files processes sidecar codec clock dir name s.world == phase_install
            || phase files processes sidecar codec clock dir name s.world == phase_run)
          ≡ true
        → (installs (start files processes sidecar codec clock dir name s).0.world
            ≡ installs s.world)
          × (installs (transition_to_run files processes sidecar codec clock dir name s).world
              ≡ installs s.world)
    unfolding start transition_to_run
    start-installs s h =
        let r = is_running files processes sidecar codec clock dir name s.world in
        let i = is_running-installs s.world in
        (
          ground (arith, i.0, i.1, start_stopped-installs (record s { world = r.0 })),
          enter_run-installs (force_stop files processes sidecar codec clock dir name s)
              ∙ force_stop-installs s,
        )
