-- ===== src/Providers/Csr/Sweep.antt =====
-- What a sweep of the approver asks for. `asked` tells of each request whether its approval was
-- asked for: an observation of the world that only the approver's calls change.
use easyshift.Base.{
  String, ◌≡◌, refl, Bool, true, ◌||◌, not, List, [], ◌∷◌, map, ◌==◌, inl, inr, arith, Bool-cases,
}
use easyshift.Base.Lists.{contains, All, keep}
use easyshift.Base.Text.{trim_space, split_at, last_part}
use easyshift.Base.Action.{Result, ok, err, Result-cases}
use easyshift.Interfaces.Providers.{CommandRunner}
use easyshift.Providers.Csr.{approve, approve_lines, list_csrs, sweep, run}

-- The requests that a list of lines names.
abbrev pub names_in : List String → List String
names_in lines = map (last_part "/") (keep (λ l. not (l == "")) (map trim_space lines))

abbrev pub names_of : Result String → List String
names_of (ok out) = names_in (split_at "\n" (trim_space out))
names_of (err e) = []

module _ {W : Type 0} (cmd : CommandRunner W) (oc kubeconfig : String)
    (asked : W → String → Bool) where
  pub record IsAsked : Type 0 where
    pub approved :
        (c d : String) (w : W) → asked (approve cmd oc kubeconfig c w).0 d ≡ (c == d || asked w d)
    pub listed : (d : String) (w : W) → asked (list_csrs cmd oc kubeconfig w).0 d ≡ asked w d

  -- Is the request in the list of some sweep of the run?
  abbrev pub is_shown : List (W → W) → W → String → Bool
  is_shown [] w d = contains (names_of (list_csrs cmd oc kubeconfig w).1) d
  is_shown (tick ∷ ticks) w d =
      contains (names_of (list_csrs cmd oc kubeconfig w).1) d
      || is_shown ticks (tick (sweep cmd oc kubeconfig w).0) d

  -- What happens between two sweeps takes no call back.
  abbrev pub Keeps : (W → W) → Type 0
  Keeps tick = (w : W) (d : String) → asked w d ≡ true → asked (tick w) d ≡ true

  module _ (law : IsAsked) where
    approve_lines-asked :
        (d : String) (lines : List String) (w : W)
        → asked (approve_lines cmd oc kubeconfig lines w).0 d
          ≡ (contains (names_in lines) d || asked w d)
    unfolding approve_lines
    approve_lines-asked d [] w = refl
    approve_lines-asked d (l ∷ ls) w = ground (
      arith,
      approve_lines-asked d ls w,
      approve_lines-asked d ls (approve cmd oc kubeconfig (last_part "/" (trim_space l)) w).0,
      law.approved (last_part "/" (trim_space l)) d w,
    )

    sweep-asked :
        (d : String) (w : W)
        → asked (sweep cmd oc kubeconfig w).0 d
          ≡ (contains (names_of (list_csrs cmd oc kubeconfig w).1) d || asked w d)
    unfolding sweep
    sweep-asked d w = elim (Result-cases (list_csrs cmd oc kubeconfig w).1) [
      | inl (out, e) ↦ ground (
        arith,
        law.listed d w,
        approve_lines-asked d (split_at "\n" (trim_space out)) (list_csrs cmd oc kubeconfig w).0,
      )
      | inr (_, e) ↦ ground (arith, law.listed d w)
    ]

    run-Keeps :
        (d : String) (ticks : List (W → W)) (w : W)
        → All Keeps ticks
        → asked w d ≡ true
        → asked (run cmd oc kubeconfig ticks w).0 d ≡ true
    unfolding run
    run-Keeps d [] w k h = ground (arith, sweep-asked d w)
    run-Keeps d (tick ∷ ticks) w k h =
        run-Keeps d ticks _ k.1 (k.0 _ d (ground (arith, sweep-asked d w)))

    -- Whatever request is in the list of one sweep at least, its approval was asked for when the
    -- run ends, whatever came of the calls for other requests and of later lists.
    pub run-asked :
        (d : String) (ticks : List (W → W)) (w : W)
        → All Keeps ticks
        → is_shown ticks w d ≡ true
        → asked (run cmd oc kubeconfig ticks w).0 d ≡ true
    unfolding run
    run-asked d [] w k h = ground (arith, sweep-asked d w)
    run-asked d (tick ∷ ticks) w k h =
        elim (Bool-cases (contains (names_of (list_csrs cmd oc kubeconfig w).1) d)) [
          | inl e ↦ run-Keeps d ticks _ k.1 (k.0 _ d (ground (arith, sweep-asked d w)))
          | inr e ↦ run-asked d ticks _ k.1 (ground arith)
        ]
