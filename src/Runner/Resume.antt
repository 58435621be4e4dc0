-- ===== src/Runner/Resume.antt =====
-- `Apply`: what a run records, and what a later run does with that record.
use easyshift.Base.{
  subst, sym, ap, ◌∙◌, ℕ, String, ◌≡◌, refl, ◌<>◌, true, false, List, [], ◌∷◌, ◌++◌, arith, ◌==◌,
  ◌||◌, Bool-cases, inl, inr, eq_refl,
}
use easyshift.Base.Lists.{All}
use easyshift.Base.Action.{
  Error, ok, err, after, after-eq-ok, after_of_ok, ok-injective, after_assoc, done, Result-cases,
}
use mathlib.Core.Path.{fun_ext}
use easyshift.Base.Dict.{has, has-insert}
use easyshift.Interfaces.Os.{Files, Codec, IsLawful, RoundTrips}
use easyshift.Interfaces.Stage.{ClusterState, Stage}
use easyshift.Runner.{Applied, state_path, load_state, apply_one, apply_stages, apply}
use easyshift.Runner.State.{load-save, load_state-read}

-- Every stage is recorded.
abbrev pub Covers : {S : Type 0} → Applied → List (Stage S) → Type 0
Covers state = All (λ stage. has stage.name state ≡ true)

module _ {S : Type 0} (files : Files S) (codec : Codec ClusterState) (config_dir : String)
    (name : String) (now : S → ℕ) where
  -- Nothing that was recorded is dropped in a round.
  apply_one-keeps :
      (stage : Stage S) (state : Applied) (s : S) {state' : Applied} (j : String)
      → (apply_one files codec config_dir name now stage state s).1 ≡ ok state'
      → has j state' ≡ (stage.name == j || has j state)
  unfolding apply_one
  apply_one-keeps stage state s j h = grind (arith, has-insert)

  pub apply_stages_recorded :
      (stage : Stage S) (rest : List (Stage S)) (state : Applied) (s : S)
      → has stage.name state ≡ true
      → apply_stages files codec config_dir name now (stage ∷ rest) state s
        ≡ apply_stages files codec config_dir name now rest state s
  unfolding apply_stages
  apply_stages_recorded stage rest state s h = rw (h, apply_stages)

  pub apply_stages_new :
      (stage : Stage S) (rest : List (Stage S)) (state : Applied) (s : S)
      → has stage.name state ≡ false
      → apply_stages files codec config_dir name now (stage ∷ rest) state s
        ≡ after
            (apply_one files codec config_dir name now stage state s)
            (apply_stages files codec config_dir name now rest)
  unfolding apply_stages
  apply_stages_new stage rest state s h = rw (h, apply_stages)

  apply_stages_nil :
      (state : Applied) (s : S)
      → apply_stages files codec config_dir name now [] state s ≡ (s, ok state)
  unfolding apply_stages
  apply_stages_nil state s = refl

  -- What every round keeps holds at the end of a loop that succeeds.
  apply_stages_inv {ℓ} :
      (P : Applied → S → Type ℓ)
      → ((stage : Stage S) (state : Applied) (s : S) (u : Applied)
          → (apply_one files codec config_dir name now stage state s).1 ≡ ok u
          → P state s
          → P u (apply_one files codec config_dir name now stage state s).0)
      → (stages : List (Stage S)) (state : Applied) (s : S) (u : Applied)
      → (apply_stages files codec config_dir name now stages state s).1 ≡ ok u
      → P state s
      → P u (apply_stages files codec config_dir name now stages state s).0
  apply_stages_inv P step [] state s u h r =
      rw apply_stages_nil (subst (λ v. P v s) (ok-injective (rw apply_stages_nil at h)) r)
  apply_stages_inv P step (stage ∷ rest) state s u h r = elim (Bool-cases (has stage.name state)) [
    | inl old ↦ rw (apply_stages_recorded stage rest state s old) (
        apply_stages_inv P step rest state s u
          (rw (apply_stages_recorded stage rest state s old) at h) r)
    | inr new ↦
        let e = apply_stages_new stage rest state s new in
        let (v, p, q) =
          after-eq-ok (apply_one files codec config_dir name now stage state s)
            (apply_stages files codec config_dir name now rest) (rw e at h) in
        rw (e, q) (apply_stages_inv P step rest v _ u (rw (e, q) at h) (step stage state s v p r))
  ]

  apply_stages-keeps :
      (stages : List (Stage S)) (state : Applied) (s : S) (u : Applied) (j : String)
      → (apply_stages files codec config_dir name now stages state s).1 ≡ ok u
      → has j state ≡ true
      → has j u ≡ true
  apply_stages-keeps stages state s u j h r =
      apply_stages_inv (λ v _. has j v ≡ true)
        (λ stage v t w e k. apply_one-keeps stage v t j e ∙ rw k (ground arith)) stages state s u h
        r

  apply_stages-Covers :
      (stages : List (Stage S)) (state : Applied) (s : S) (u : Applied)
      → (apply_stages files codec config_dir name now stages state s).1 ≡ ok u
      → Covers u stages
  apply_stages-Covers [] state s u h = tt
  apply_stages-Covers (stage ∷ rest) state s u h = elim (Bool-cases (has stage.name state)) [
    | inl old ↦
        let e = rw (apply_stages_recorded stage rest state s old) at h in
        (apply_stages-keeps rest state s u stage.name e old, apply_stages-Covers rest state s u e)
    | inr new ↦
        let (v, p, q) =
          after-eq-ok (apply_one files codec config_dir name now stage state s)
            (apply_stages files codec config_dir name now rest)
            (rw (apply_stages_new stage rest state s new) at h) in
        let e = rw (apply_stages_new stage rest state s new, q) at h in
        (
          apply_stages-keeps rest v _ u stage.name e
              (apply_one-keeps stage state s stage.name p ∙ ground (arith, eq_refl stage.name)),
          apply_stages-Covers rest v _ u e,
        )
  ]

  -- Stages that are all recorded are skipped.
  apply_stages_skip :
      (stages : List (Stage S)) (state : Applied) (s : S)
      → Covers state stages
      → apply_stages files codec config_dir name now stages state s ≡ (s, ok state)
  apply_stages_skip [] state s c = apply_stages_nil state s
  apply_stages_skip (stage ∷ rest) state s c =
      apply_stages_recorded stage rest state s c.0 ∙ apply_stages_skip rest state s c.1

  apply_stages-append :
      (xs ys : List (Stage S)) (state : Applied) (s : S)
      → apply_stages files codec config_dir name now (xs ++ ys) state s
        ≡ after
            (apply_stages files codec config_dir name now xs state s)
            (apply_stages files codec config_dir name now ys)
  apply_stages-append [] ys state s = rw apply_stages_nil
  apply_stages-append (stage ∷ rest) ys state s = elim (Bool-cases (has stage.name state)) [
    | inl old ↦
        apply_stages_recorded stage (rest ++ ys) state s old
        ∙ (apply_stages-append rest ys state s ∙ rw (apply_stages_recorded stage rest state s old))
    | inr new ↦
        rw
          (
            apply_stages_new stage (rest ++ ys) state s new,
            apply_stages_new stage rest state s new,
            after_assoc,
          )
          (ap (after (apply_one files codec config_dir name now stage state s))
            (fun_ext λ v. fun_ext λ t. apply_stages-append rest ys v t))
  ]

  pub apply_loaded :
      (stages : List (Stage S)) (s : S) {state : Applied}
      → load_state files codec config_dir name s ≡ ok state
      → apply files codec config_dir name now stages s
        ≡ after (apply_stages files codec config_dir name now stages state s) (λ _. done)
  unfolding apply
  apply_loaded stages s h = rw (h, apply)

  -- A run that succeeds has loaded a record, and its loop has succeeded.
  apply-inv :
      (stages : List (Stage S)) (s : S)
      → (apply files codec config_dir name now stages s).1 ≡ ok tt
      → (state u : Applied) × (load_state files codec config_dir name s ≡ ok state)
        × ((apply_stages files codec config_dir name now stages state s).1 ≡ ok u)
        × (apply files codec config_dir name now stages s
            ≡ ((apply_stages files codec config_dir name now stages state s).0, ok tt))
  apply-inv stages s h = elim (Result-cases (load_state files codec config_dir name s)) [
    | inl (state, l) ↦
        let e = apply_loaded stages s l in
        let (u, p, q) =
          after-eq-ok (apply_stages files codec config_dir name now stages state s) (λ _. done)
            (rw e at h) in
        (state, u, l, p, e ∙ q)
    | inr (m, l) ↦ absurd (unfold apply in cc (rw (l, apply) at h))
  ]

  apply_one_fails :
      (stage : Stage S) (state : Applied) (s : S) {e : Error}
      → (stage.apply s).1 ≡ err e
      → apply_one files codec config_dir name now stage state s
        ≡ ((stage.apply s).0, err ("stage " <> (stage.name <> (": " <> e))))
  unfolding apply_one
  apply_one_fails stage state s h = ground arith

  -- Behind stages that succeed, a stage that fails ends the run.
  stops_at_failure :
      (xs ys : List (Stage S)) (stage : Stage S) (s : S) {state u : Applied} {m : Error}
      → load_state files codec config_dir name s ≡ ok state
      → (apply_stages files codec config_dir name now xs state s).1 ≡ ok u
      → has stage.name u ≡ false
      → (stage.apply (apply_stages files codec config_dir name now xs state s).0).1 ≡ err m
      → apply files codec config_dir name now (xs ++ (stage ∷ ys)) s ≡ (
        (stage.apply (apply_stages files codec config_dir name now xs state s).0).0,
        err ("stage " <> (stage.name <> (": " <> m))),
      )
  stops_at_failure xs ys stage s {state} {u} l p fresh fails = rw (
    apply_loaded (xs ++ (stage ∷ ys)) s l,
    apply_stages-append xs (stage ∷ ys) state s,
    after_of_ok (apply_stages files codec config_dir name now xs state s)
        (apply_stages files codec config_dir name now (stage ∷ ys)) p,
    apply_stages_new stage ys u (apply_stages files codec config_dir name now xs state s).0 fresh,
    apply_one_fails stage u (apply_stages files codec config_dir name now xs state s).0 fails,
  )

  -- Recorded stages in front are passed over.
  goes_on :
      (xs ys : List (Stage S)) (stage : Stage S) (s : S) {u : Applied}
      → load_state files codec config_dir name s ≡ ok u
      → Covers u xs
      → apply files codec config_dir name now (xs ++ (stage ∷ ys)) s
        ≡ apply files codec config_dir name now (stage ∷ ys) s
  goes_on xs ys stage s {u} l c = rw (
    apply_loaded (xs ++ (stage ∷ ys)) s l,
    apply_loaded (stage ∷ ys) s l,
    apply_stages-append xs (stage ∷ ys) u s,
    apply_stages_skip xs u s c,
  )

  module _ (lawful : IsLawful files) (trips : RoundTrips codec) where
    apply_one-load :
        (stage : Stage S) (state : Applied) (s : S) {u : Applied}
        → (apply_one files codec config_dir name now stage state s).1 ≡ ok u
        → load_state files codec config_dir name
            (apply_one files codec config_dir name now stage state s).0
          ≡ ok u
    unfolding apply_one
    apply_one-load stage state s h = grind (arith, load-save)

    apply_stages-load :
        (stages : List (Stage S)) (state : Applied) (s : S) (u : Applied)
        → (apply_stages files codec config_dir name now stages state s).1 ≡ ok u
        → load_state files codec config_dir name s ≡ ok state
        → load_state files codec config_dir name
            (apply_stages files codec config_dir name now stages state s).0
          ≡ ok u
    apply_stages-load =
        apply_stages_inv (λ v t. load_state files codec config_dir name t ≡ ok v)
          (λ stage v t w e k. apply_one-load stage v t e)

    -- A run that succeeds leaves a state.json in which every stage is recorded.
    pub apply-Covers :
        (stages : List (Stage S)) (s : S)
        → (apply files codec config_dir name now stages s).1 ≡ ok tt
        → (state : Applied) × (load_state files codec config_dir name
              (apply files codec config_dir name now stages s).0
            ≡ ok state)
          × Covers state stages
    apply-Covers stages s h =
        let (state, u, l, p, e) = apply-inv stages s h in
        (u, rw e (apply_stages-load stages state s u p l), apply_stages-Covers stages state s u p)

    -- A second run changes nothing and succeeds.
    pub apply_twice :
        (stages : List (Stage S)) (s : S)
        → (apply files codec config_dir name now stages s).1 ≡ ok tt
        → let t = (apply files codec config_dir name now stages s).0 in
          apply files codec config_dir name now stages t ≡ (t, ok tt)
    apply_twice stages s h =
        let (u, l, c) = apply-Covers stages s h in
        apply_loaded stages _ l ∙ rw (apply_stages_skip stages u _ c)

    -- If a stage fails behind stages that succeed, the run stops there with the stage's error and
    -- all that was done before stays done; and a new run goes on at the stage that failed.
    pub apply_resumes :
        (xs ys : List (Stage S)) (stage : Stage S) (s : S) {state : Applied} {e : Error}
        → let t = (apply files codec config_dir name now xs s).0 in
          let u = (stage.apply t).0 in
          (apply files codec config_dir name now xs s).1 ≡ ok tt
          → load_state files codec config_dir name t ≡ ok state
          → has stage.name state ≡ false
          → (stage.apply t).1 ≡ err e
          → files.read_file (state_path files codec config_dir name) u
            ≡ files.read_file (state_path files codec config_dir name) t
          → (apply files codec config_dir name now (xs ++ (stage ∷ ys)) s
              ≡ (u, err ("stage " <> (stage.name <> (": " <> e)))))
            × (apply files codec config_dir name now (xs ++ (stage ∷ ys)) u
                ≡ apply files codec config_dir name now (stage ∷ ys) u)
    apply_resumes xs ys stage s {state = v} {e = m} h l fresh fails kept =
        let (state, u, loaded, p, e) = apply-inv xs s h in
        let same = ok-injective (sym (apply_stages-load xs state s u p loaded) ∙ (rw e at l)) in
        let fresh' : has stage.name u ≡ false = rw same fresh in
        rw e (
          stops_at_failure xs ys stage s loaded p fresh' (rw e at fails),
          goes_on xs ys stage _
              (load_state-read files codec config_dir name _ _ (rw e at kept)
                ∙ apply_stages-load xs state s u p loaded)
              (apply_stages-Covers xs state s u p),
        )
