-- ===== src/Runner/Undo.antt =====
-- `Rollback`: what it clears from the record, and in which order it undoes.
use mathlib.Core.List.{reverse, reverse-append}
use easyshift.Base.{
  String, ◌≡◌, refl, sym, ap, ◌∙◌, true, false, not, List, [], ◌∷◌, ◌++◌, map, arith, eq_iff, ◌==◌,
  ◌&&◌, Bool-cases, inl, inr,
}
use easyshift.Base.Lists.{keep, contains, Distinct}
use easyshift.Base.Action.{
  ok, Action, after, after-eq-ok, after_congr, after_pure, after_assoc, done,
}
use easyshift.Base.Dict.{has, has-erase}
use easyshift.Interfaces.Os.{Files, Codec, IsLawful, RoundTrips}
use easyshift.Interfaces.Stage.{ClusterState, Stage}
use easyshift.Runner.{Applied, load_state, rollback_one, rollback_step, rollback_stages, rollback}
use easyshift.Runner.State.{load-save}

abbrev pub names : {S : Type 0} → List (Stage S) → List String
names = map (λ stage. stage.name)

module _ {S : Type 0} (files : Files S) (codec : Codec ClusterState) (config_dir : String)
    (name : String) where
  rollback_step-has :
      (stage : Stage S) (state : Applied) (s : S) {u : Applied} (j : String)
      → (rollback_step files codec config_dir name stage state s).1 ≡ ok u
      → has j u ≡ (not (stage.name == j) && has j state)
  unfolding rollback_step rollback_one
  rollback_step-has stage state s j h =
      ground (arith, eq_iff stage.name j, has-erase j stage.name state)

  rollback_stages-has :
      (stages : List (Stage S)) (state : Applied) (s : S) {u : Applied} (j : String)
      → (rollback_stages files codec config_dir name stages state s).1 ≡ ok u
      → has j u ≡ (not (contains (names stages) j) && has j state)
  unfolding rollback_stages
  rollback_stages-has [] state s j h = ground arith
  rollback_stages-has (stage ∷ rest) state s j h =
      let (v, p, q) =
        after-eq-ok (rollback_stages files codec config_dir name rest state s)
          (rollback_step files codec config_dir name stage) h in
      ground
        (arith, rollback_stages-has rest state s j p, rollback_step-has stage v _ j (rw q at h))

  -- The loop over the stages in the order in which they are undone, with no test.
  unfoldable pub unwind : List (Stage S) → Applied → Action S Applied
  unwind [] state s = (s, ok state)
  unwind (stage ∷ rest) state s =
      after (rollback_one files codec config_dir name stage state s) (unwind rest)

  unwind-append :
      (xs ys : List (Stage S)) (state : Applied) (s : S)
      → unwind (xs ++ ys) state s ≡ after (unwind xs state s) (unwind ys)
  unfolding unwind
  unwind-append [] ys state s = refl
  unwind-append (x ∷ xs) ys state s =
      after_congr (rollback_one files codec config_dir name x state s) (unwind (xs ++ ys))
        (λ a s. after (unwind xs a s) (unwind ys)) (λ v _. unwind-append xs ys v _)
      ∙ sym
          (after_assoc (rollback_one files codec config_dir name x state s) (unwind xs) (unwind ys))

  -- The recorded stages, last one first.
  unfoldable pub recorded : Applied → List (Stage S) → List (Stage S)
  recorded state stages = reverse (keep (λ stage. has stage.name state) stages)

  recorded_old :
      (state : Applied) (stage : Stage S) (rest : List (Stage S))
      → has stage.name state ≡ true
      → recorded state (stage ∷ rest) ≡ recorded state rest ++ (stage ∷ [])
  unfolding recorded
  recorded_old state stage rest h =
      rw h (reverse-append (stage ∷ []) (keep (λ x. has x.name state) rest))

  recorded_new :
      (state : Applied) (stage : Stage S) (rest : List (Stage S))
      → has stage.name state ≡ false
      → recorded state (stage ∷ rest) ≡ recorded state rest
  unfolding recorded
  recorded_new state stage rest h = rw h

  rollback_step_old :
      (stage : Stage S) (state : Applied) (s : S)
      → has stage.name state ≡ true
      → rollback_step files codec config_dir name stage state s ≡ unwind (stage ∷ []) state s
  unfolding rollback_step unwind
  rollback_step_old stage state s h =
      rw (h, rollback_step)
        (sym (after_pure (rollback_one files codec config_dir name stage state s)))

  rollback_step_new :
      (stage : Stage S) (state : Applied) (s : S)
      → has stage.name state ≡ false
      → rollback_step files codec config_dir name stage state s ≡ (s, ok state)
  unfolding rollback_step
  rollback_step_new stage state s h = rw (h, rollback_step)

  -- The stages behind a stage leave its entry alone.
  rollback_stages-has_front :
      (stage : Stage S) (rest : List (Stage S)) (state : Applied) (s : S) {v : Applied}
      → contains (names rest) stage.name ≡ false
      → (rollback_stages files codec config_dir name rest state s).1 ≡ ok v
      → has stage.name v ≡ has stage.name state
  rollback_stages-has_front stage rest state s d h =
      rollback_stages-has rest state s stage.name h ∙ rw d

  -- `Rollback` undoes exactly the recorded stages, in the reverse of their order.
  pub rollback_stages-unwind :
      (stages : List (Stage S)) (state : Applied) (s : S)
      → Distinct (names stages)
      → rollback_stages files codec config_dir name stages state s
        ≡ unwind (recorded state stages) state s
  unfolding rollback_stages
  rollback_stages-unwind [] state s d = unfold recorded unwind in refl
  rollback_stages-unwind (stage ∷ rest) state s d =
      let run = rollback_stages files codec config_dir name rest state s in
      let step = rollback_step files codec config_dir name stage in
      let front =
        λ (v : Applied) (p : run.1 ≡ ok v). rollback_stages-has_front stage rest state s d.0 p in
      elim (Bool-cases (has stage.name state)) [
        | inl old ↦
            after_congr run step (unwind (stage ∷ []))
              (λ v p. rollback_step_old stage v run.0 (front v p ∙ old))
            ∙ (ap (λ p. after p (unwind (stage ∷ []))) (rollback_stages-unwind rest state s d.1)
                ∙ (sym (unwind-append (recorded state rest) (stage ∷ []) state s)
                    ∙ ap (λ l. unwind l state s) (sym (recorded_old state stage rest old))))
        | inr new ↦
            after_congr run step (λ v t. (t, ok v))
              (λ v p. rollback_step_new stage v run.0 (front v p ∙ new))
            ∙ (after_pure run
                ∙ (rollback_stages-unwind rest state s d.1
                    ∙ ap (λ l. unwind l state s) (sym (recorded_new state stage rest new))))
      ]

  module _ (lawful : IsLawful files) (trips : RoundTrips codec) where
    rollback_step-load :
        (stage : Stage S) (state : Applied) (s : S) {u : Applied}
        → (rollback_step files codec config_dir name stage state s).1 ≡ ok u
        → load_state files codec config_dir name s ≡ ok state
        → load_state files codec config_dir name
            (rollback_step files codec config_dir name stage state s).0
          ≡ ok u
    unfolding rollback_step rollback_one
    rollback_step-load stage state s h l = grind (arith, load-save)

    rollback_stages-load :
        (stages : List (Stage S)) (state : Applied) (s : S) {u : Applied}
        → (rollback_stages files codec config_dir name stages state s).1 ≡ ok u
        → load_state files codec config_dir name s ≡ ok state
        → load_state files codec config_dir name
            (rollback_stages files codec config_dir name stages state s).0
          ≡ ok u
    unfolding rollback_stages
    rollback_stages-load [] state s h l = l ∙ h
    rollback_stages-load (stage ∷ rest) state s h l =
        let run = rollback_stages files codec config_dir name rest state s in
        let (v, p, q) = after-eq-ok run (rollback_step files codec config_dir name stage) h in
        rw q (rollback_step-load stage v run.0 (rw q at h) (rollback_stages-load rest state s p l))

    -- After a rollback that succeeds, state.json records none of the stages, and what it recorded
    -- of others is as before.
    pub rollback-clears :
        (stages : List (Stage S)) (s : S) {state : Applied}
        → load_state files codec config_dir name s ≡ ok state
        → (rollback files codec config_dir name stages s).1 ≡ ok tt
        → (u : Applied) × (load_state files codec config_dir name
              (rollback files codec config_dir name stages s).0
            ≡ ok u)
          × ((j : String) → has j u ≡ (not (contains (names stages) j) && has j state))
    unfolding rollback
    rollback-clears stages s {state} l h =
        let run = rollback_stages files codec config_dir name stages state s in
        let (u, p, q) = after-eq-ok run (λ _. done) (rw (l, rollback) at h) in
        (
          u,
          rw (l, rollback, q) (rollback_stages-load stages state s p l),
          λ j. rollback_stages-has stages state s j p,
        )
