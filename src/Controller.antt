-- ===== src/Controller.antt =====
-- internal/controller/pod_controller.go: the routes of pods, events, applications and pod records.
-- The router is outside: a route gets its query parameters and path, and gives its answer. The
-- client of the API server is an argument.
pub mod Limits
use podwatcher.Prelude.{
  ℕ, String, Bool, Option, none, some, List, ◌==◌, length, ℤ, pos, geb, atoi, or_else,
  if◌then◌else◌,
}
use podwatcher.Checked.{Checked, ok, err}
use podwatcher.Dict.{Dict}
use podwatcher.Kube.{Time, Pod}
use podwatcher.Store.{Store, PodRecord, ApplicationView}
use podwatcher.Store.Query.{get_application}
use podwatcher.Handler.{Handler, PodEvent, get_events, get_stats}
use podwatcher.Service.{get_applications}
use podwatcher.Service.Records.{WindowError, get_pod_count_by_phase, query_pod_records}

-- the status code, and the body where it is no error
pub data Answer (A : Type 0) : Type 0 where
  served : A → Answer A
  bad_request not_found server_error : Answer A

-- the query parameters that a request has
abbrev pub Params : Type 0
Params = String → Option String

-- ctx.Query
abbrev pub query : Params → String → String
query params key = or_else (params key) ""

-- ctx.DefaultQuery: the default is for a parameter that is not there
abbrev pub default_query : Params → String → String → String
default_query params key default_value = or_else (params key) default_value

-- an error of the service is answered with one code
abbrev pub answer_or : {A B : Type 0} → Answer B → (A → B) → Option A → Answer B
answer_or error body none = error
answer_or error body (some a) = served (body a)

abbrev pub counted : {A : Type 0} → List A → List A × ℕ
counted xs = (xs, length xs)

unfoldable pub answer_pods : (String → String → Option (List Pod)) → Params → Answer (List Pod × ℕ)
answer_pods list_pods params =
    answer_or server_error counted
      (list_pods (default_query params "namespace" "default") (query params "labelSelector"))

unfoldable pub answer_pod : (String → String → Option Pod) → (namespace name : String) → Answer Pod
answer_pod get_pod namespace name = answer_or not_found (λ pod. pod) (get_pod namespace name)

-- `limit, _ := strconv.Atoi(...)`, cut at 200
unfoldable pub asked_limit : Params → ℤ
unfolding atoi
asked_limit params =
    let limit = atoi (default_query params "limit" "50") in
    if geb (pos 200) limit then limit else pos 200

pub record EventsPage : Type 0 where
  pub events : List PodEvent
  pub stats : Dict ℕ
  pub total : ℕ

unfoldable pub answer_events : Handler → Params → Answer EventsPage
unfolding asked_limit get_events get_stats
answer_events h params =
    let events = get_events (asked_limit params) h in
    served (record { events = events; stats = get_stats h; total = length events })

unfoldable pub answer_pod_stats :
    (String → String → Option (List Pod)) → Params → Answer (String × Dict ℕ)
unfolding get_pod_count_by_phase
answer_pod_stats list_pods params =
    let namespace = default_query params "namespace" "default" in
    answer_or server_error (λ counts. (namespace, counts))
      (get_pod_count_by_phase list_pods namespace)

-- The feed: `applications`, `count` and `hasMore`.
unfoldable pub answer_applications :
    (String → Option Time) → (s later : Store) → Params → Answer (List ApplicationView × ℕ × Bool)
unfolding get_applications
answer_applications parse_time s later params =
    answer_or bad_request (λ page. (page.0, length page.0, page.1))
      (get_applications parse_time s later (query params "since") (query params "limit")
        (query params "applicationId") (query params "status"))

unfoldable pub answer_application : Store → String → Answer ApplicationView
unfolding get_application
answer_application s app_id = answer_or not_found (λ app. app) (get_application s app_id)

abbrev pub answer_records : Checked WindowError (List PodRecord) → Answer (List PodRecord × ℕ)
answer_records (ok records) = served (counted records)
answer_records (err e) = bad_request

unfoldable pub answer_pod_records :
    (String → Option Time) → Store → Params → Answer (List PodRecord × ℕ)
unfolding asked_limit query_pod_records
answer_pod_records parse_time s params = answer_records (
    query_pod_records parse_time s (record {
      application_id = query params "applicationId";
      role = query params "role";
      node = query params "node";
      status = query params "status";
      start_time = query params "startTime";
      end_time = query params "endTime";
      limit = asked_limit params;
    }))
