-- ===== src/Tests/Controllers.antt =====
-- Requests for events and pod records at concrete inputs.
use podwatcher.Prelude.{
  ◌≡◌, ◌⊎◌, ◌≤◌, List, pos_part, refl, String, Option, none, some, length, ◌==◌, if◌then◌else◌,
  atoi, [], ◌∷◌, pos,
}
use podwatcher.Kube.{Time}
use podwatcher.Handler.{get_stats}
use podwatcher.Service.Records.{count_phases}
use podwatcher.Dict.{get, put}
use podwatcher.Controller.{Params, answer_events, answer_pod_records, served, asked_limit}
use podwatcher.Controller.Limits.{named, taken, Records, answers-taken}
use podwatcher.Tests.Samples.{driver, done_driver, other_driver, started}
use podwatcher.Tests.Handlers.{short}

abbrev params : Params
params name = if name == "limit" then some "1" else none

abbrev unlimited : Params
unlimited name = if name == "limit" then some "all" else none

abbrev no_time : String → Option Time
no_time text = none

not_a_number : asked_limit unlimited ≡ pos 0
unfolding asked_limit atoi
not_a_number = refl

phases :
    count_phases (driver ∷ done_driver ∷ other_driver ∷ []) []
    ≡ ("Running", 2) ∷ ("Succeeded", 1) ∷ []
unfolding count_phases get put
phases = refl

answers-taken_example :
    (answer_events short params
      ≡ served (record {
        events = taken (named params) short.events;
        stats = get_stats short;
        total = length (taken (named params) short.events);
      }))
    × Records no_time started params (answer_pod_records no_time started params)
    × ((A : Type 0) (xs : List A) → (named params ≡ 0) ⊎ (length (taken (named params) xs) ≤ 200))
    × (((text : String) × (params "limit" ≡ some text) × (named params ≡ pos_part (atoi text)))
        ⊎ ((params "limit" ≡ none) × (named params ≡ 50)))
answers-taken_example = answers-taken no_time started short params
