-- ===== src/Service/Records.antt =====
-- internal/service/pod_service.go: the pods of the API server, and the query of historical pod
-- records. A list of pods is what the client answers, none with an error.
use podwatcher.Prelude.{
  ℕ, ◌+◌, String, Option, none, some, List, [], ◌∷◌, ◌==◌, ℤ, or_else, if◌then◌else◌,
}
use podwatcher.Checked.{Checked, ok, required, ◌>>=◌}
use podwatcher.Dict.{Dict, get, put}
use podwatcher.Kube.{Time, Pod}
use podwatcher.Store.{Store, PodRecord}
use podwatcher.Store.Query.{get_pod_records}

-- `counts[string(pod.Status.Phase)]++` over the pods
unfoldable pub count_phases : List Pod → Dict ℕ → Dict ℕ
unfolding get put
count_phases [] counts = counts
count_phases (pod ∷ pods) counts =
    count_phases pods (put pod.phase (or_else (get pod.phase counts) 0 + 1) counts)

unfoldable pub get_pod_count_by_phase :
    (String → String → Option (List Pod)) → String → Option (Dict ℕ)
unfolding count_phases
get_pod_count_by_phase list_pods namespace = elim (list_pods namespace "") [
  | none ↦ none
  | some pods ↦ some (count_phases pods [])
]

pub record PodRecordsQuery : Type 0 where
  pub application_id : String
  pub role : String
  pub node : String
  pub status : String
  pub start_time : String
  pub end_time : String
  pub limit : ℤ

pub data WindowError : Type 0 where
  invalid_start_time invalid_end_time : WindowError

-- an empty text is no bound
unfoldable pub parse_bound :
    WindowError → (String → Option Time) → String → Checked WindowError (Option Time)
parse_bound e parse_time raw =
    if raw == "" then ok none else required e (parse_time raw) >>= λ t. ok (some t)

unfoldable pub parse_time_window :
    (String → Option Time)
    → (start_time end_time : String) → Checked WindowError (Option Time × Option Time)
unfolding parse_bound
parse_time_window parse_time start_time end_time = do
  start ← parse_bound invalid_start_time parse_time start_time
  stop ← parse_bound invalid_end_time parse_time end_time
  ok (start, stop)

-- `GetPodRecords`
unfoldable pub query_pod_records :
    (String → Option Time) → Store → PodRecordsQuery → Checked WindowError (List PodRecord)
unfolding parse_time_window get_pod_records
query_pod_records parse_time s query = do
  window ← parse_time_window parse_time query.start_time query.end_time
  ok (
      get_pod_records s (record {
        application_id = query.application_id;
        role = query.role;
        node = query.node;
        status = query.status;
        start = window.0;
        stop = window.1;
        limit = query.limit;
      }))
