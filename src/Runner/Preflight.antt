-- ===== src/Runner/Preflight.antt =====
-- `Preflight`: all checks run, and it passes exactly if each of them passes.
use easyshift.Base.{
  ap, subst, ◌≡◌, refl, ◌↔◌, List, [], ◌∷◌, none, some, Option-cases, inl, inr, ◌⊎◌,
}
use easyshift.Base.Lists.{append-eq-nil}
use easyshift.Base.Action.{Error, ok, Effect, Result-cases}
use easyshift.Interfaces.Stage.{Stage}
use easyshift.Runner.{check_one, joined, preflight_errors, preflight}

-- Each stage's check passes, in the state that the checks before it left.
pub data Passes {S : Type 0} : S → List (Stage S) → S → Type 0 where
  here : {s : S} → Passes s [] s
  unchecked :
      {s t : S} (stage : Stage S) {rest : List (Stage S)}
      → stage.preflight ≡ none
      → Passes s rest t
      → Passes s (stage ∷ rest) t
  checked :
      {s t : S} (stage : Stage S) (check : Effect S) {rest : List (Stage S)}
      → stage.preflight ≡ some check
      → (check s).1 ≡ ok tt
      → Passes (check s).0 rest t
      → Passes s (stage ∷ rest) t

check_one-none :
    {S : Type 0} (stage : Stage S) (s : S) → stage.preflight ≡ none → check_one stage s ≡ (s, [])
check_one-none stage s h = rw h

check_one-ok :
    {S : Type 0} (stage : Stage S) (s : S) {check : Effect S}
    → stage.preflight ≡ some check
    → (check s).1 ≡ ok tt
    → check_one stage s ≡ ((check s).0, [])
check_one-ok stage s h passes = rw (h, passes)

-- No failure is in the list of one stage: it has no check, or its check passes.
check_one-cases :
    {S : Type 0} (stage : Stage S) (s : S)
    → (check_one stage s).1 ≡ []
    → (stage.preflight ≡ none)
      ⊎ ((check : Effect S) × (stage.preflight ≡ some check) × ((check s).1 ≡ ok tt))
check_one-cases stage s h = elim (Option-cases (stage.preflight)) [
  | inl e ↦ inl e
  | inr (check, e) ↦ elim (Result-cases (check s).1) [
    | inl (_, f) ↦ inr (check, e, f)
    | inr (x, f) ↦ absurd (cc (rw (e, f) at h))
  ]
]

errors_of_Passes :
    {S : Type 0} {s t : S} {stages : List (Stage S)}
    → Passes s stages t
    → preflight_errors stages s ≡ (t, [])
unfolding preflight_errors
errors_of_Passes here = refl
errors_of_Passes {s} (unchecked stage e r) = rw (check_one-none stage s e, errors_of_Passes r)
errors_of_Passes {s} (checked stage check e f r) = rw (check_one-ok stage s e f, errors_of_Passes r)

Passes-of_errors :
    {S : Type 0} (s : S) (stages : List (Stage S))
    → (preflight_errors stages s).1 ≡ []
    → Passes s stages (preflight_errors stages s).0
unfolding preflight_errors
Passes-of_errors s [] h = here
Passes-of_errors s (stage ∷ rest) h =
    let (first, more) = append-eq-nil (check_one stage s).1 _ h in
    let later = Passes-of_errors (check_one stage s).0 rest more in
    elim (check_one-cases stage s first) [
      | inl e ↦ unchecked stage e (
          subst (λ u. Passes u rest (preflight_errors rest (check_one stage s).0).0)
            (ap (λ p. p.0) (check_one-none stage s e)) later)
      | inr (check, e, f) ↦ checked stage check e f (
          subst (λ u. Passes u rest (preflight_errors rest (check_one stage s).0).0)
            (ap (λ p. p.0) (check_one-ok stage s e f)) later)
    ]

joined-eq-ok : {S : Type 0} (p : S × List Error) (t : S) → (joined p ≡ (t, ok tt)) ↔ (p ≡ (t, []))
joined-eq-ok (s, []) t = (λ h. ap (λ q. (q.0, [])) h, λ h. ap (λ q. (q.0, ok tt)) h)
joined-eq-ok (s, e ∷ es) t = (λ h. cc (ap (λ q. q.1) h), λ h. cc (ap (λ q. q.1) h))

-- `Preflight` returns nil, and leaves the state t, exactly if the check of every stage that has one
-- passes, each run on the state that the checks in front of it left, the last one leaving t.
pub preflight-Passes :
    {S : Type 0} (stages : List (Stage S)) (s t : S)
    → (preflight stages s ≡ (t, ok tt)) ↔ Passes s stages t
unfolding preflight
preflight-Passes stages s t = (
  λ h.
      let e = (joined-eq-ok (preflight_errors stages s) t).0 h in
      subst (Passes s stages) (ap (λ q. q.0) e) (Passes-of_errors s stages (ap (λ q. q.1) e)),
  λ h. (joined-eq-ok (preflight_errors stages s) t).1 (errors_of_Passes h),
)
