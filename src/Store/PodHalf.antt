-- ===== src/Store/PodHalf.antt =====
-- internal/store/state_store.go: the pod half of an observed pod, `upsertPodRecordLocked`.
use podwatcher.Prelude.{
  String, Bool, Option, none, some, not, ◌&&◌, is_some, or_else, if◌then◌else◌,
}
use podwatcher.Dict.{get, put}
use podwatcher.Kube.{Time, Pod}
use podwatcher.Spark.{
  label, is_driver_pod, pod_status, pod_key, container_times, bootstrap_pod_time,
}
use podwatcher.Store.{Store, PodRecord}
use podwatcher.Store.Application.{created_or_now, earliest, overwrite}

unfoldable pub new_pod_record : Pod → String → Time → PodRecord
new_pod_record pod app_id now = record {
  uid = pod_key pod;
  cluster = "";
  application_id = app_id;
  namespace = pod.namespace;
  name = pod.name;
  node = "";
  role = "";
  executor_id = "";
  labels = none;
  phase = "";
  status = "";
  created_at = created_or_now pod now;
  container_started_at = none;
  container_finished_at = none;
  deletion_timestamp = none;
  first_seen_at = now;
  last_updated_at = 0;
  deleted_at = none;
}

-- `if p != nil { field = p }`
abbrev pub overwrite_time : Option Time → Option Time → Option Time
overwrite_time (some t) field = some t
overwrite_time none field = field

module _ (s : Store) (pod : Pod) (app_id role : String) (deleted bootstrap : Bool)
    (now : Time) where
  unfoldable pub refresh_pod : PodRecord → PodRecord
  refresh_pod rec = record rec {
    created_at = earliest pod rec.created_at;
    cluster = overwrite s.cluster rec.cluster;
    application_id = app_id;
    namespace = pod.namespace;
    name = pod.name;
    node = pod.node_name;
    role = role;
    executor_id = label "spark-exec-id" pod;
    labels = pod.labels;
    phase = pod.phase;
    status = pod_status pod deleted;
    container_started_at = overwrite_time (container_times pod).0 rec.container_started_at;
    container_finished_at =
        if is_some (container_times pod).0
        then overwrite_time (container_times pod).1 rec.container_finished_at
        else rec.container_finished_at;
    deletion_timestamp = overwrite_time pod.deletion_timestamp rec.deletion_timestamp;
    last_updated_at = if bootstrap then bootstrap_pod_time pod now else now;
    deleted_at =
        if not bootstrap && (deleted && not (is_some rec.deleted_at))
        then some now
        else rec.deleted_at;
  }

  -- the record that the pod half leaves
  unfoldable pub updated_pod : PodRecord
  unfolding refresh_pod new_pod_record
  updated_pod = refresh_pod (or_else (get (pod_key pod) s.pods) (new_pod_record pod app_id now))

  -- the store, and whether a record was created
  unfoldable pub upsert_pod_record : Store × Bool
  unfolding updated_pod
  upsert_pod_record = (
    record s {
      pods = put (pod_key pod) updated_pod s.pods;
      driver_by_app =
          if is_driver_pod pod then put app_id (pod_key pod) s.driver_by_app else s.driver_by_app;
    },
    not (is_some (get (pod_key pod) s.pods)),
  )
