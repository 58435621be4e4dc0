-- ===== src/Stages/VerifyIp/Polling.antt =====
-- `verify`: it ends, and what a verdict rests on.
use easyshift.Base.{
  ℕ, zero, suc, ◌+◌, ◌*◌, ◌≤◌, ◌<◌, String, ◌≡◌, inl, inr, sym, ◌∙◌, ap, false, none, some, arith,
  eq_iff, ◌==◌, Option-cases,
}
use easyshift.Base.Action.{Error, Result, ok, err}
use easyshift.Interfaces.Providers.{HostInspector}
use easyshift.Stages.VerifyIp.{ssh_addr, or_empty, probe, round, poll_loop, verify}
use easyshift.Interfaces.Os.{Clock}

module _ {W : Type 0} (host : HostInspector W) (clock : Clock W) (mac want : String) where
  -- The world in which a round looks up the MAC, behind its dial of the address.
  abbrev dialled : W → W
  dialled w = (host.dial_tcp (ssh_addr want) w).0

  -- The address was live, and the MAC was there.
  abbrev pub Confirmed : W → Type 0
  Confirmed w =
      ((host.dial_tcp (ssh_addr want) w).1 ≡ ok tt)
      × ((host.arp_lookup mac (dialled w)).1 ≡ ok want)

  -- The clock of a round and of a wait, as time passes.
  pub record IsClock : Type 0 where
    pub dial : (addr : String) (w : W) → clock.now w ≤ clock.now (host.dial_tcp addr w).0
    pub lookup : (w : W) → clock.now w ≤ clock.now (host.arp_lookup mac w).0
    pub wait : (n : ℕ) (w : W) → n + clock.now w ≤ clock.now (clock.wait n w).0

  round-Confirmed :
      (deadline : ℕ) (w : W)
      → (want == "") ≡ false
      → (round host clock mac want deadline w).1 ≡ some (ok tt)
      → Confirmed w
  unfolding round probe
  round-Confirmed deadline w named h =
      ground (arith, eq_iff (or_empty (host.arp_lookup mac (dialled w)).1) want)

  -- The steps of the loop.
  loop_verdict :
      (fuel poll deadline : ℕ) (w : W) {r : Result (Unit {0})}
      → (round host clock mac want deadline w).1 ≡ some r
      → poll_loop host clock mac want (suc fuel) poll deadline w
        ≡ ((round host clock mac want deadline w).0, some r)
  unfolding poll_loop
  loop_verdict fuel poll deadline w h = ground arith

  loop_stop :
      (fuel poll deadline : ℕ) (w : W) {e : Error}
      → (round host clock mac want deadline w).1 ≡ none
      → (clock.wait poll (round host clock mac want deadline w).0).1 ≡ some e
      → poll_loop host clock mac want (suc fuel) poll deadline w
        ≡ ((clock.wait poll (round host clock mac want deadline w).0).0, some (err e))
  unfolding poll_loop
  loop_stop fuel poll deadline w h stop = ground arith

  loop_on :
      (fuel poll deadline : ℕ) (w : W)
      → (round host clock mac want deadline w).1 ≡ none
      → (clock.wait poll (round host clock mac want deadline w).0).1 ≡ none
      → poll_loop host clock mac want (suc fuel) poll deadline w
        ≡ poll_loop host clock mac want fuel poll deadline
            (clock.wait poll (round host clock mac want deadline w).0).0
  unfolding poll_loop
  loop_on fuel poll deadline w h on = ground arith

  poll_loop-Confirmed :
      (fuel poll deadline : ℕ) (w : W)
      → (want == "") ≡ false
      → (poll_loop host clock mac want fuel poll deadline w).1 ≡ some (ok tt)
      → (v : W) × Confirmed v
        × ((poll_loop host clock mac want fuel poll deadline w).0
            ≡ (round host clock mac want deadline v).0)
  poll_loop-Confirmed zero poll deadline w named h = absurd (unfold poll_loop in cc)
  poll_loop-Confirmed (suc fuel) poll deadline w named h =
      elim (Option-cases (round host clock mac want deadline w).1) [
        | inr (r, e) ↦
            let f = loop_verdict fuel poll deadline w e in
            (w, round-Confirmed deadline w named (e ∙ (ap (λ x. x.1) (sym f) ∙ h)), ap (λ x. x.0) f)
        | inl e ↦ elim (Option-cases (clock.wait poll (round host clock mac want deadline w).0).1) [
          | inr (s, g) ↦
              absurd (let f = ap (λ x. x.1) (loop_stop fuel poll deadline w e g) in cc (f, h))
          | inl g ↦ rw (loop_on fuel poll deadline w e g) (
              poll_loop-Confirmed fuel poll deadline _ named
                (ap (λ x. x.1) (sym (loop_on fuel poll deadline w e g)) ∙ h))
        ]
      ]

  -- Success means that a round found the address live and the MAC at it, and that nothing was done
  -- behind that round.
  pub verify-Confirmed :
      (w : W)
      → (want == "") ≡ false
      → (verify host clock mac want w).1 ≡ some (ok tt)
      → (v : W) × Confirmed v
        × ((verify host clock mac want w).0 ≡ (round host clock mac want (clock.now w + 480) v).0)
  unfolding verify
  verify-Confirmed w named h = poll_loop-Confirmed 49 10 (clock.now w + 480) w named h

  module _ (law : IsClock) where
    round-later :
        (deadline : ℕ) (w : W) → clock.now w ≤ clock.now (round host clock mac want deadline w).0
    unfolding round probe
    round-later deadline w = ground (
      arith,
      law.dial (ssh_addr want) w,
      law.lookup (dialled w),
      law.dial (ssh_addr (or_empty (host.arp_lookup mac (dialled w)).1))
          (host.arp_lookup mac (dialled w)).0,
    )

    round-open :
        (deadline : ℕ) (w : W)
        → (round host clock mac want deadline w).1 ≡ none
        → clock.now (round host clock mac want deadline w).0 < deadline
    unfolding round
    round-open deadline w h = ground arith

    -- Where a round is open and the wait is over, so much time has passed.
    open_later :
        (poll deadline : ℕ) (w : W)
        → (round host clock mac want deadline w).1 ≡ none
        → (clock.now w < deadline)
          × (poll + clock.now w
              ≤ clock.now (clock.wait poll (round host clock mac want deadline w).0).0)
    open_later poll deadline w e =
        let a = round-later deadline w in
        let b = round-open deadline w e in
        let c = law.wait poll (round host clock mac want deadline w).0 in (omega arith, omega arith)

    poll_loop-ends :
        (n poll deadline : ℕ) (w : W)
        → deadline ≤ clock.now w + n * poll
        → (r : Result (Unit {0})) × ((poll_loop host clock mac want (suc n) poll deadline w).1
            ≡ some r)
    poll_loop-ends zero poll deadline w h =
        elim (Option-cases (round host clock mac want deadline w).1) [
          | inr (r, e) ↦ (r, ap (λ x. x.1) (loop_verdict 0 poll deadline w e))
          | inl e ↦ absurd (let a = open_later poll deadline w e in omega arith)
        ]
    poll_loop-ends (suc n) poll deadline w h =
        elim (Option-cases (round host clock mac want deadline w).1) [
          | inr (r, e) ↦ (r, ap (λ x. x.1) (loop_verdict (suc n) poll deadline w e))
          | inl e ↦
              elim (Option-cases (clock.wait poll (round host clock mac want deadline w).0).1) [
                | inr (s, g) ↦ (err s, ap (λ x. x.1) (loop_stop (suc n) poll deadline w e g))
                | inl g ↦
                    let a = open_later poll deadline w e in
                    rw (loop_on (suc n) poll deadline w e g)
                      (poll_loop-ends n poll deadline _ (grind arith))
              ]
        ]

    -- Polling comes to a verdict within its 49 rounds, if time passes: a wait of ten seconds takes
    -- ten seconds at least, and no other step turns the clock back.
    pub verify-ends :
        (w : W) → (r : Result (Unit {0})) × ((verify host clock mac want w).1 ≡ some r)
    unfolding verify
    verify-ends w = poll_loop-ends 48 10 (clock.now w + 480) w (omega arith)
