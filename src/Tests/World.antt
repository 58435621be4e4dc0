-- ===== src/Tests/World.antt =====
-- A file system that is a map of paths, with an encoder of state.json for small states.
use easyshift.Base.{
  ℕ, String, ◌≡◌, sym, ap, Bool, false, ◌||◌, not, Option, none, some, [], ◌∷◌, ◌==◌, if◌then◌else◌,
  eqb, arith, eq_refl,
}
use easyshift.Base.Dict.{Dict, lookup, insert, erase, lookup-insert}
use easyshift.Base.Action.{Result, ok, err, ok-injective}
use easyshift.Interfaces.Os.{
  ReadResult, contents, missing, StatResult, present, absent, Files, IsLawful, Codec, RoundTrips,
}
use easyshift.Interfaces.Stage.{
  Stage, StageRecord, StageOutcome, outcome_ok, outcome_failed, ClusterState,
}

abbrev pub World : Type 0
World = Dict String

abbrev found : Option String → ReadResult
found none = missing
found (some text) = contents text

abbrev sized : Option String → StatResult
sized none = absent
sized (some _) = present 1

abbrev pub disk_files : Files World
disk_files = record {
  read_file = λ path w. found (lookup path w);
  stat = λ path w. sized (lookup path w);
  write_file = λ path text w. (insert path text w, ok tt);
  mkdir_all = λ path w. (w, ok tt);
  remove = λ path w. (erase path w, ok tt);
  remove_all = λ path w. (w, ok tt);
}

found-insert :
    (path text : String) (w : World) → found (lookup path (insert path text w)) ≡ contents text
found-insert path text w = ground (arith, lookup-insert path path text w, eq_refl path)

pub disk_files-IsLawful : IsLawful disk_files
disk_files-IsLawful = record { read-write = λ path text w h. found-insert path text w }

-- A state of at most one stage, applied at time 0, is written as the name of the stage.
abbrev is_noon : StageOutcome → ℕ → Bool
is_noon outcome_ok t = eqb t 0
is_noon outcome_failed t = false

abbrev marshal_state : Option (Dict StageRecord) → Result String
marshal_state none = ok "null"
marshal_state (some []) = ok "{}"
marshal_state (some ((k, r) ∷ [])) =
    if k == "null" || k == "{}" || not (is_noon r.outcome r.applied_at)
    then err "reserved"
    else ok k
marshal_state (some (_ ∷ _ ∷ _)) = err "too large"

abbrev unmarshal_state : String → ClusterState
unmarshal_state text = record {
  stages =
      if text == "null"
      then none
      else if text == "{}"
      then some []
      else some ((text, record { applied_at = 0; outcome = outcome_ok }) ∷ []);
}

abbrev pub state_codec : Codec ClusterState
state_codec = record {
  marshal = λ s. marshal_state s.stages;
  unmarshal = λ text. ok (unmarshal_state text);
}

trip_one :
    (k : String) (o : StageOutcome) (t : ℕ) (text : String)
    → marshal_state (some ((k, record { applied_at = t; outcome = o }) ∷ [])) ≡ ok text
    → unmarshal_state text
      ≡ record { stages = some ((k, record { applied_at = t; outcome = o }) ∷ []) }
trip_one k outcome_ok t text h = ground arith
trip_one k outcome_failed t text h = ground arith

trip :
    (s : Option (Dict StageRecord)) (text : String)
    → marshal_state s ≡ ok text
    → unmarshal_state text ≡ record { stages = s }
trip none text h = ap unmarshal_state (sym (ok-injective h))
trip (some []) text h = ap unmarshal_state (sym (ok-injective h))
trip (some ((k, record_one) ∷ [])) text h =
    trip_one k record_one.outcome record_one.applied_at text h
trip (some (_ ∷ _ ∷ _)) text h = cc

pub state_codec-RoundTrips : RoundTrips state_codec
state_codec-RoundTrips state text h = ap ok (trip state.stages text h)

abbrev pub stage_a : Stage World
stage_a = record {
  name = "a";
  apply = λ w. (insert "made" "yes" w, ok tt);
  rollback = λ w. (erase "made" w, ok tt);
  preflight = none;
}

abbrev pub stage_b : Stage World
stage_b = record {
  name = "b";
  apply = λ w. (insert "half" "done" w, err "no luck");
  rollback = λ w. (w, ok tt);
  preflight = some (λ w. (w, ok tt));
}

abbrev pub noon : World → ℕ
noon w = 0
