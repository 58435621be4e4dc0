-- ===== src/Tests/RunnerRuns.antt =====
-- Runs of the runner on a file system that is a map.
use easyshift.Base.{String, ◌≡◌, ◌↔◌, refl, ap, ◌∙◌, false, not, ◌&&◌, [], ◌∷◌}
use easyshift.Base.Lists.{contains, Distinct, is_distinct-Distinct}
use easyshift.Base.Dict.{lookup, insert, erase, has}
use easyshift.Base.Action.{ok, err}
use easyshift.Interfaces.Os.{join_path}
use easyshift.Interfaces.Stage.{outcome_ok}
use easyshift.Runner.{
  Applied, state_path, load_state, save_state, apply_one, apply_stages, apply, rollback_one,
  rollback_step, rollback_stages, rollback, preflight,
}
use easyshift.Runner.Resume.{Covers, apply-Covers, apply_twice, apply_resumes}
use easyshift.Runner.Undo.{names, unwind, recorded, rollback_stages-unwind, rollback-clears}
use easyshift.Runner.Preflight.{Passes, preflight-Passes}
use easyshift.Tests.World.{
  World, disk_files, disk_files-IsLawful, state_codec, state_codec-RoundTrips, stage_a, stage_b,
  noon,
}

abbrev recorded_a : Applied
recorded_a = ("a", record { applied_at = 0; outcome = outcome_ok }) ∷ []

abbrev after_a : World
after_a = ("made", "yes") ∷ ("cfg/clusters/c/state.json", "a") ∷ []

apply_a : apply disk_files state_codec "cfg" "c" noon (stage_a ∷ []) [] ≡ (after_a, ok tt)
unfolding apply apply_stages apply_one load_state save_state state_path join_path lookup insert has
apply_a = refl

load_a : load_state disk_files state_codec "cfg" "c" after_a ≡ ok recorded_a
unfolding load_state state_path join_path lookup
load_a = refl

-- What a run of the first stage leaves, so that both witnesses have it as an equation.
ran_a : (apply disk_files state_codec "cfg" "c" noon (stage_a ∷ []) []).1 ≡ ok tt
ran_a = ap (λ r. r.1) apply_a

apply-Covers_example :
    (state : Applied) × (load_state disk_files state_codec "cfg" "c"
        (apply disk_files state_codec "cfg" "c" noon (stage_a ∷ []) []).0
      ≡ ok state)
    × Covers state (stage_a ∷ [])
apply-Covers_example =
    apply-Covers disk_files state_codec "cfg" "c" noon disk_files-IsLawful state_codec-RoundTrips
      (stage_a ∷ []) [] ran_a

apply_twice_example :
    let t = (apply disk_files state_codec "cfg" "c" noon (stage_a ∷ []) []).0 in
    apply disk_files state_codec "cfg" "c" noon (stage_a ∷ []) t ≡ (t, ok tt)
apply_twice_example =
    apply_twice disk_files state_codec "cfg" "c" noon disk_files-IsLawful state_codec-RoundTrips
      (stage_a ∷ []) [] ran_a

loaded_a :
    load_state disk_files state_codec "cfg" "c"
      (apply disk_files state_codec "cfg" "c" noon (stage_a ∷ []) []).0
    ≡ ok recorded_a
loaded_a = ap (λ r. load_state disk_files state_codec "cfg" "c" r.0) apply_a ∙ load_a

kept_a :
    let t = (apply disk_files state_codec "cfg" "c" noon (stage_a ∷ []) []).0 in
    disk_files.read_file (state_path disk_files state_codec "cfg" "c") (stage_b.apply t).0
    ≡ disk_files.read_file (state_path disk_files state_codec "cfg" "c") t
unfolding apply apply_stages apply_one load_state save_state state_path join_path lookup insert has
kept_a = refl

not_b : has "b" recorded_a ≡ false
unfolding has lookup
not_b = refl

-- The second of two stages fails.
apply_resumes_example :
    let t = (apply disk_files state_codec "cfg" "c" noon (stage_a ∷ []) []).0 in
    let u = (stage_b.apply t).0 in
    (apply disk_files state_codec "cfg" "c" noon (stage_a ∷ stage_b ∷ []) []
      ≡ (u, err "stage b: no luck"))
    × (apply disk_files state_codec "cfg" "c" noon (stage_a ∷ stage_b ∷ []) u
        ≡ apply disk_files state_codec "cfg" "c" noon (stage_b ∷ []) u)
apply_resumes_example =
    apply_resumes disk_files state_codec "cfg" "c" noon disk_files-IsLawful state_codec-RoundTrips
      (stage_a ∷ []) [] stage_b [] {state = recorded_a} {e = "no luck"} ran_a loaded_a not_b refl
      kept_a

two_stages-Distinct : Distinct (names (stage_a ∷ stage_b ∷ []))
two_stages-Distinct = is_distinct-Distinct (names (stage_a ∷ stage_b ∷ [])) refl

rollback_stages-unwind_example :
    rollback_stages disk_files state_codec "cfg" "c" (stage_a ∷ stage_b ∷ []) recorded_a after_a
    ≡ unwind disk_files state_codec "cfg" "c"
        (recorded disk_files state_codec "cfg" "c" recorded_a (stage_a ∷ stage_b ∷ []))
        recorded_a
        after_a
rollback_stages-unwind_example =
    rollback_stages-unwind disk_files state_codec "cfg" "c" (stage_a ∷ stage_b ∷ []) recorded_a
      after_a two_stages-Distinct

rolled_back : (rollback disk_files state_codec "cfg" "c" (stage_a ∷ stage_b ∷ []) after_a).1 ≡ ok tt
unfolding rollback rollback_stages rollback_step rollback_one load_state save_state state_path
    join_path lookup insert erase has
rolled_back = refl

rollback-clears_example :
    (u : Applied) × (load_state disk_files state_codec "cfg" "c"
        (rollback disk_files state_codec "cfg" "c" (stage_a ∷ stage_b ∷ []) after_a).0
      ≡ ok u)
    × ((j : String)
        → has j u ≡ (not (contains (names (stage_a ∷ stage_b ∷ [])) j) && has j recorded_a))
rollback-clears_example =
    rollback-clears disk_files state_codec "cfg" "c" disk_files-IsLawful state_codec-RoundTrips
      (stage_a ∷ stage_b ∷ []) after_a {state = recorded_a} load_a rolled_back

preflight-Passes_example :
    (preflight (stage_a ∷ stage_b ∷ []) after_a ≡ (after_a, ok tt))
    ↔ Passes after_a (stage_a ∷ stage_b ∷ []) after_a
preflight-Passes_example = preflight-Passes (stage_a ∷ stage_b ∷ []) after_a after_a
