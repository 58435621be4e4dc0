-- ===== src/Providers/Odf/Polling.antt =====
-- `pollUntil` and the phases that end with it: what their success rests on, and that they end.
use easyshift.Base.{
  ℕ, zero, suc, ◌+◌, ◌*◌, ◌≤◌, ◌<◌, String, ◌≡◌, ap, inl, inr, Bool, true, false, Option, none,
  some, arith, Bool-cases, Option-cases, ltb,
}
use easyshift.Base.Action.{Error, Result, ok, err, Action}
use easyshift.Interfaces.Os.{Clock}
use package.easyshift.Providers.Odf.{
  is_done, later_error, timed_out, poll_loop, poll_rounds, poll_until, settled,
}

module _ {W : Type 0} (clock : Clock W) (probe : Action W Bool) where
  -- `Polls v w`: from v, probes with a wait of ten seconds between them lead to w, and the last of
  -- them, and no other one, says yes.
  pub data Polls : W → W → Type 0 where
    yes : (v : W) → (probe v).1 ≡ ok true → Polls v (probe v).0
    again :
        (v w : W)
        → is_done (probe v).1 ≡ false
        → (clock.wait 10 (probe v).0).1 ≡ none
        → Polls (clock.wait 10 (probe v).0).0 w
        → Polls v w

  -- The probe that ends them.
  pub Polls-last : (v w : W) → Polls v w → (u : W) × ((probe u).1 ≡ ok true) × (w ≡ (probe u).0)
  Polls-last _ _ (yes v h) = (v, h, λ i. (probe v).0)
  Polls-last _ _ (again v w h g more) = Polls-last _ w more

  done_true : (r : Result Bool) → is_done r ≡ true → r ≡ ok true
  done_true (ok b) h = ap ok h
  done_true (err e) h = cc

  abbrev probed : W → W
  probed w = (probe w).0

  -- The steps of the loop.
  loop_done :
      (n minutes : ℕ) (desc : String) (deadline : ℕ) (last : Option Error) (w : W)
      → is_done (probe w).1 ≡ true
      → poll_loop clock probe (suc n) minutes desc deadline last w ≡ (probed w, some (ok tt))
  unfolding poll_loop
  loop_done n minutes desc deadline last w h = ground arith

  loop_late :
      (n minutes : ℕ) (desc : String) (deadline : ℕ) (last : Option Error) (w : W)
      → is_done (probe w).1 ≡ false
      → ltb deadline (clock.now (probed w)) ≡ true
      → poll_loop clock probe (suc n) minutes desc deadline last w
        ≡ (probed w, some (err (timed_out minutes desc (later_error last (probe w).1))))
  unfolding poll_loop
  loop_late n minutes desc deadline last w h late = ground arith

  loop_stop :
      (n minutes : ℕ) (desc : String) (deadline : ℕ) (last : Option Error) (w : W) {e : Error}
      → is_done (probe w).1 ≡ false
      → ltb deadline (clock.now (probed w)) ≡ false
      → (clock.wait 10 (probed w)).1 ≡ some e
      → poll_loop clock probe (suc n) minutes desc deadline last w
        ≡ ((clock.wait 10 (probed w)).0, some (err e))
  unfolding poll_loop
  loop_stop n minutes desc deadline last w h late stop = ground arith

  loop_on :
      (n minutes : ℕ) (desc : String) (deadline : ℕ) (last : Option Error) (w : W)
      → is_done (probe w).1 ≡ false
      → ltb deadline (clock.now (probed w)) ≡ false
      → (clock.wait 10 (probed w)).1 ≡ none
      → poll_loop clock probe (suc n) minutes desc deadline last w
        ≡ poll_loop clock probe n minutes desc deadline
            (later_error last (probe w).1)
            (clock.wait 10 (probed w)).0
  unfolding poll_loop
  loop_on n minutes desc deadline last w h late on = ground arith

  -- A verdict without an error stands behind a probe that said yes.
  Sound : W → W × Option (Result (Unit {0})) → Type 0
  Sound v (w, some (ok _)) = Polls v w
  Sound v (w, some (err _)) = Unit
  Sound v (w, none) = Unit

  Sound-again :
      (v : W) (p : W × Option (Result (Unit {0})))
      → is_done (probe v).1 ≡ false
      → (clock.wait 10 (probed v)).1 ≡ none
      → Sound (clock.wait 10 (probed v)).0 p
      → Sound v p
  unfolding Sound
  Sound-again v (w, some (ok _)) h g s = again v w h g s
  Sound-again v (w, some (err _)) h g s = tt
  Sound-again v (w, none) h g s = tt

  poll_loop-Sound :
      (n minutes : ℕ) (desc : String) (deadline : ℕ) (last : Option Error) (w : W)
      → Sound w (poll_loop clock probe n minutes desc deadline last w)
  unfolding Sound
  poll_loop-Sound zero minutes desc deadline last w = unfold poll_loop in tt
  poll_loop-Sound (suc n) minutes desc deadline last w = elim (Bool-cases (is_done (probe w).1)) [
    | inl y ↦ rw (loop_done n minutes desc deadline last w y) (yes w (done_true (probe w).1 y))
    | inr not_yet ↦ elim (Bool-cases (ltb deadline (clock.now (probed w)))) [
      | inl late ↦ rw (loop_late n minutes desc deadline last w not_yet late) tt
      | inr on ↦ elim (Option-cases (clock.wait 10 (probed w)).1) [
        | inr (e, h) ↦ rw (loop_stop n minutes desc deadline last w not_yet on h) tt
        | inl h ↦
            rw (loop_on n minutes desc deadline last w not_yet on h)
              (Sound-again w _ not_yet h (poll_loop-Sound n minutes desc deadline _ _))
      ]
    ]
  ]

  settled-Polls :
      (v : W) (p : W × Option (Result (Unit {0})))
      → Sound v p
      → (settled clock probe p).1 ≡ ok tt
      → Polls v (settled clock probe p).0
  unfolding Sound
  settled-Polls v (w, some (ok _)) s h = s
  settled-Polls v (w, some (err _)) s h = cc
  settled-Polls v (w, none) s h = cc

  pub poll_until-Polls :
      (minutes : ℕ) (desc : String) (w : W)
      → (poll_until clock probe minutes desc w).1 ≡ ok tt
      → Polls w (poll_until clock probe minutes desc w).0
  unfolding poll_until poll_rounds
  poll_until-Polls minutes desc w h =
      settled-Polls w _
        (poll_loop-Sound (suc (suc (6 * minutes))) minutes desc (clock.now w + 60 * minutes) none w)
        h

  -- The clock of a probe and of a wait, as time passes.
  pub record IsClock : Type 0 where
    pub probing : (w : W) → clock.now w ≤ clock.now (probe w).0
    pub waiting : (n : ℕ) (w : W) → n + clock.now w ≤ clock.now (clock.wait n w).0

  module _ (law : IsClock) where
    poll_loop-ends :
        (n minutes : ℕ) (desc : String) (deadline : ℕ) (last : Option Error) (w : W)
        → deadline < clock.now w + 10 * n
        → (r : Result (Unit {0})) × ((poll_loop clock probe (suc n) minutes desc deadline last w).1
            ≡ some r)
    poll_loop-ends zero minutes desc deadline last w h = elim (Bool-cases (is_done (probe w).1)) [
      | inl y ↦ (ok tt, ap (λ x. x.1) (loop_done zero minutes desc deadline last w y))
      | inr not_yet ↦ (
        _,
        ap (λ x. x.1)
            (loop_late zero minutes desc deadline last w not_yet (ground (arith, law.probing w))),
      )
    ]
    poll_loop-ends (suc n) minutes desc deadline last w h =
        elim (Bool-cases (is_done (probe w).1)) [
          | inl y ↦ (ok tt, ap (λ x. x.1) (loop_done (suc n) minutes desc deadline last w y))
          | inr not_yet ↦ elim (Bool-cases (ltb deadline (clock.now (probed w)))) [
            | inl late ↦
                (_, ap (λ x. x.1) (loop_late (suc n) minutes desc deadline last w not_yet late))
            | inr on ↦ elim (Option-cases (clock.wait 10 (probed w)).1) [
              | inr (e, g) ↦ (
                err e,
                ap (λ x. x.1) (loop_stop (suc n) minutes desc deadline last w not_yet on g),
              )
              | inl g ↦
                  let a = law.probing w in
                  let b = law.waiting 10 (probed w) in
                  rw (loop_on (suc n) minutes desc deadline last w not_yet on g)
                    (poll_loop-ends n minutes desc deadline _ _ (omega arith))
            ]
          ]
        ]

    -- Polling comes to a verdict in its rounds.
    poll_rounds-ends :
        (minutes : ℕ) (desc : String) (w : W)
        → (r : Result (Unit {0})) × ((poll_rounds clock probe minutes desc w).1 ≡ some r)
    unfolding poll_rounds
    poll_rounds-ends minutes desc w =
        poll_loop-ends (suc (6 * minutes)) minutes desc _ none w (omega arith)
