-- ===== src/Stages/Wait/Attempts.antt =====
-- `waitWithRetry`: how often it calls the installer, and what it returns.
use easyshift.Base.{
  ℕ, zero, suc, ◌<◌, ◌≡◌, ◌∙◌, ◌⊎◌, inl, inr, refl, Bool, true, false, not, ◌||◌, arith, Bool-cases,
}
use easyshift.Base.Action.{Error, Result, ok, err, Effect, Result-cases}
use easyshift.Stages.Wait.{is_installer_timeout, gave_up, attempts, wait_with_retry}

module _ {W : Type 0} (install : Effect W) (cancelled : W → Bool) where
  -- `TimesOut n last u e w`: from u, n calls of the installer in a row time out uncancelled, which
  -- leads to w; the error before them was last, and that of the last of them is e.
  pub data TimesOut : ℕ → Error → W → Error → W → Type 0 where
    none_yet : (e : Error) (w : W) → TimesOut zero e w e w
    once_more :
        (n : ℕ) (last : Error) (u : W) (e e' : Error) (w : W)
        → (install u).1 ≡ err e
        → cancelled (install u).0 ≡ false
        → is_installer_timeout e ≡ true
        → TimesOut n e (install u).0 e' w
        → TimesOut (suc n) last u e' w

  -- The last call of a run: it succeeds, or it fails otherwise than by a timeout or when the
  -- context has ended.
  abbrev pub Ends : W → W × Result (Unit {0}) → Type 0
  Ends w out =
      (out ≡ install w)
      × (((install w).1 ≡ ok tt)
          ⊎ (e : Error) × ((install w).1 ≡ err e)
            × ((cancelled (install w).0 ≡ true) ⊎ (is_installer_timeout e ≡ false)))

  abbrev pub Outcome : ℕ → Error → W → W × Result (Unit {0}) → Type 0
  Outcome n last u out =
      ((k : ℕ) × (w : W) × (k < n) × ((e : Error) × TimesOut k last u e w) × Ends w out)
      ⊎ ((w : W) × (e : Error) × TimesOut n last u e w
          × (out ≡ (w, err (gave_up install cancelled e))))

  attempts_ok :
      (n : ℕ) (last : Error) (u : W)
      → (install u).1 ≡ ok tt
      → attempts install cancelled (suc n) last u ≡ install u
  unfolding attempts
  attempts_ok n last u h = ground arith

  attempts_stop :
      (n : ℕ) (last : Error) (u : W) {e : Error}
      → (install u).1 ≡ err e
      → (cancelled (install u).0 || not (is_installer_timeout e)) ≡ true
      → attempts install cancelled (suc n) last u ≡ install u
  unfolding attempts
  attempts_stop n last u h stop = ground arith

  attempts_on :
      (n : ℕ) (last : Error) (u : W) {e : Error}
      → (install u).1 ≡ err e
      → (cancelled (install u).0 || not (is_installer_timeout e)) ≡ false
      → attempts install cancelled (suc n) last u ≡ attempts install cancelled n e (install u).0
  unfolding attempts
  attempts_on n last u h on = ground arith

  attempts-Outcome :
      (n : ℕ) (last : Error) (u : W) → Outcome n last u (attempts install cancelled n last u)
  attempts-Outcome zero last u = inr (u, last, none_yet last u, unfold attempts in refl)
  attempts-Outcome (suc n) last u = elim (Result-cases (install u).1) [
    | inl (_, e) ↦ inl (0, u, omega arith, (last, none_yet last u), (attempts_ok n last u e, inl e))
    | inr (e, h) ↦ elim (Bool-cases (cancelled (install u).0 || not (is_installer_timeout e))) [
      | inl stop ↦ inl (
        0,
        u,
        omega arith,
        (last, none_yet last u),
        (attempts_stop n last u h stop, inr (e, h, ground arith)),
      )
      | inr on ↦ elim (attempts-Outcome n e (install u).0) [
        | inl (k, w, lt, (x, t), (f, l)) ↦ inl (
          suc k,
          w,
          omega arith,
          (x, once_more k last u e x w h (ground arith) (ground arith) t),
          (attempts_on n last u h on ∙ f, l),
        )
        | inr (w, x, t, f) ↦ inr (
          w,
          x,
          once_more n last u e x w h (ground arith) (ground arith) t,
          attempts_on n last u h on ∙ f,
        )
      ]
    ]
  ]

  -- A run calls the installer one to three times. All calls but the last time out uncancelled. The
  -- run returns what the last call returns, if that succeeds, fails otherwise or was cancelled; and
  -- if the third call times out too, an error that says so and wraps that of the third call.
  pub wait_with_retry-Outcome : (u : W) → Outcome 3 "" u (wait_with_retry install cancelled u)
  unfolding wait_with_retry
  wait_with_retry-Outcome u = attempts-Outcome 3 "" u
