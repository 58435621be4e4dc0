-- ===== src/Providers/Libvirt/Networks/Cleanup.antt =====
-- `EnsureNetwork`: what it leaves behind, on a libvirt that keeps the documented states of a network.
use easyshift.Base.{
  String, ◌<>◌, ◌≡◌, refl, ◌∙◌, Bool, true, false, if◌then◌else◌, ◌⊎◌, inl, inr, arith, ◌||◌, not,
}
use easyshift.Base.Action.{Error, Result, ok, err, Effect, after, rewrap, finally, Result-cases}
use easyshift.Interfaces.Os.{Files}
use easyshift.Interfaces.Providers.{CommandRunner, NetworkSpec}
use easyshift.Providers.Libvirt.Networks.{
  TempFiles, net, write_temp_file, build_network_xml, activate, define_from, define_network,
  ensure_network,
}

-- The states of a network: not defined, defined, or running.
pub data NetState : Type 0 where
  undefined inactive active : NetState

abbrev pub is_defined : NetState → Bool
is_defined undefined = false
is_defined inactive = true
is_defined active = true

abbrev pub succeeds : {A : Type 0} → Result A → Bool
succeeds (ok _) = true
succeeds (err _) = false

module _ {W : Type 0} (cmd : CommandRunner W) (files : Files W) (temp : TempFiles W)
    (spec : NetworkSpec) (view : W → NetState) (refused : W → Bool) where
  -- The network and the record of refused calls are as they were.
  abbrev pub Same : W → W → Type 0
  Same u w = (view u ≡ view w) × (refused u ≡ refused w)

  -- What the documentation of `virsh` says of the subcommands. Files have no part in it. `refused`
  -- observes whether a call that takes a network back, net-destroy or net-undefine, has failed.
  pub record IsVirsh : Type 0 where
    pub info : (w : W) → Same (net cmd "net-info" spec.name w).0 w
    pub info_ok :
        (w : W) → succeeds (net cmd "net-info" spec.name w).1 ≡ true → is_defined (view w) ≡ true
    pub defining : (file : String) (w : W) → refused (net cmd "net-define" file w).0 ≡ refused w
    pub define :
        (file : String) (w : W)
        → view w ≡ undefined
        → view (net cmd "net-define" file w).0
          ≡ (if succeeds (net cmd "net-define" file w).1 then inactive else undefined)
    pub starting : (w : W) → refused (net cmd "net-start" spec.name w).0 ≡ refused w
    pub start :
        (w : W)
        → view (net cmd "net-start" spec.name w).0
          ≡ (if succeeds (net cmd "net-start" spec.name w).1 then active else view w)
    pub autostart : (w : W) → Same (net cmd "net-autostart" spec.name w).0 w
    pub destroying :
        (w : W)
        → refused (net cmd "net-destroy" spec.name w).0
          ≡ (not (succeeds (net cmd "net-destroy" spec.name w).1) || refused w)
    pub destroy :
        (w : W)
        → view w ≡ active
        → view (net cmd "net-destroy" spec.name w).0
          ≡ (if succeeds (net cmd "net-destroy" spec.name w).1 then inactive else active)
    pub undefining :
        (w : W)
        → refused (net cmd "net-undefine" spec.name w).0
          ≡ (not (succeeds (net cmd "net-undefine" spec.name w).1) || refused w)
    pub undefine :
        (w : W)
        → view w ≡ inactive
        → view (net cmd "net-undefine" spec.name w).0
          ≡ (if succeeds (net cmd "net-undefine" spec.name w).1 then undefined else inactive)
    pub create_temp : (pattern : String) (w : W) → Same (temp.create_temp pattern w).0 w
    pub write : (path text : String) (w : W) → Same (temp.write path text w).0 w
    pub remove : (path : String) (w : W) → Same (files.remove path w).0 w

  -- What a run leaves behind: the network runs, or there is none, or a call to take it back failed.
  abbrev pub Ends : W × Result (Unit {0}) → Type 0
  Ends (w, ok _) = view w ≡ active
  Ends (w, err _) = (view w ≡ undefined) ⊎ (refused w ≡ true)

  -- What a run leaves behind, by the state that it found and whether net-info succeeded.
  abbrev pub Leaves : NetState → Bool → W × Result (Unit {0}) → Type 0
  Leaves undefined known p = Ends p
  Leaves inactive true p = (p.1 ≡ ok tt) × (is_defined (view p.0) ≡ true)
  Leaves active true p = (p.1 ≡ ok tt) × (view p.0 ≡ active)
  Leaves inactive false p = Unit
  Leaves active false p = Unit

  module _ (law : IsVirsh) where
    activate-Ends : (w : W) → view w ≡ inactive → Ends (activate cmd files temp spec.name w)
    unfolding activate
    activate-Ends w h =
        let s0 = net cmd "net-start" spec.name w in
        let s1 = net cmd "net-autostart" spec.name s0.0 in
        ground (
          arith,
          law.start w,
          law.undefine s0.0,
          law.undefining s0.0,
          law.autostart s0.0,
          law.destroy s1.0,
          law.destroying s1.0,
          law.undefine (net cmd "net-destroy" spec.name s1.0).0,
          law.undefining (net cmd "net-destroy" spec.name s1.0).0,
        )

    finally-Ends :
        (path : String) (m : Effect W) (w : W) → Ends (m w) → Ends (finally (files.remove path) m w)
    finally-Ends path m w h = elim (Result-cases (m w).1) [
      | inl (_, e) ↦ ground (arith, law.remove path (m w).0)
      | inr (_, e) ↦ ground (arith, law.remove path (m w).0)
    ]

    define_from-Ends :
        (file : String) (w : W)
        → view w ≡ undefined
        → Ends (define_from cmd files temp spec.name file w)
    unfolding define_from
    define_from-Ends file w h = elim (Result-cases (net cmd "net-define" file w).1) [
      | inl (_, e) ↦
          ground (arith, law.define file w h, activate-Ends (net cmd "net-define" file w).0)
      | inr (_, e) ↦ ground (arith, law.define file w h)
    ]

    write_temp-view :
        (pattern text : String) (w : W)
        → view (write_temp_file cmd files temp pattern text w).0 ≡ view w
    unfolding write_temp_file
    write_temp-view pattern text w = elim (Result-cases (temp.create_temp pattern w).1) [
      | inl (path, e) ↦
          ground
            (arith, law.create_temp pattern w, law.write path text (temp.create_temp pattern w).0)
      | inr (_, e) ↦ ground (arith, law.create_temp pattern w)
    ]

    network_from-Ends :
        (note : Error → Error) (p : W × Result String)
        → view p.0 ≡ undefined
        → Ends (
            after
              (rewrap note p)
              (λ file. finally (files.remove file) (define_from cmd files temp spec.name file)))
    network_from-Ends note (w, ok path) h =
        finally-Ends path (define_from cmd files temp spec.name path) w (define_from-Ends path w h)
    network_from-Ends note (w, err e) h = inl h

    define_network-Ends : (w : W) → view w ≡ undefined → Ends (define_network cmd files temp spec w)
    unfolding define_network
    define_network-Ends w h =
        network_from-Ends _
          (write_temp_file cmd files temp (spec.name <> "-network-*.xml") (build_network_xml spec)
            w)
          (write_temp-view _ _ w ∙ h)

    ensure_network_new : (w : W) → view w ≡ undefined → Ends (ensure_network cmd files temp spec w)
    unfolding ensure_network
    ensure_network_new w h =
        let s = net cmd "net-info" spec.name w in
        elim (Result-cases s.1) [
          | inl (_, e) ↦ ground (arith, law.info_ok w)
          | inr (_, e) ↦ ground (arith, law.info w, define_network-Ends s.0)
        ]

    ensure_network_kept :
        (w : W)
        → succeeds (net cmd "net-info" spec.name w).1 ≡ true
        → ((ensure_network cmd files temp spec w).1 ≡ ok tt)
          × ((view (ensure_network cmd files temp spec w).0 ≡ active)
              ⊎ (view (ensure_network cmd files temp spec w).0 ≡ view w))
    unfolding ensure_network
    ensure_network_kept w h =
        let s = net cmd "net-info" spec.name w in
        elim (Result-cases s.1) [
          | inl (_, e) ↦ ground (arith, law.info w, law.start s.0)
          | inr (_, e) ↦ absurd (ground arith)
        ]

    leaves :
        (w : W) (s : NetState) (known : Bool)
        → view w ≡ s
        → succeeds (net cmd "net-info" spec.name w).1 ≡ known
        → Leaves s known (ensure_network cmd files temp spec w)
    leaves w undefined known e f = ensure_network_new w e
    leaves w inactive true e f = ground (arith, ensure_network_kept w)
    leaves w active true e f = ground (arith, ensure_network_kept w)
    leaves w inactive false e f = tt
    leaves w active false e f = tt

    -- If there was no network, a success leaves one that runs, and a failure of whatever step leaves
    -- none, unless a call of net-destroy or net-undefine has failed. A network that net-info finds
    -- stays defined, one that ran still runs, and `EnsureNetwork` reports no failure for either, even
    -- if the network could not be started.
    pub ensure_network-Leaves :
        (w : W)
        → Leaves
            (view w)
            (succeeds (net cmd "net-info" spec.name w).1)
            (ensure_network cmd files temp spec w)
    ensure_network-Leaves w = leaves w (view w) _ refl refl
