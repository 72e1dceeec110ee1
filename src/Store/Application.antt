-- ===== src/Store/Application.antt =====
-- internal/store/state_store.go: the application half of an observed pod, `upsertAppLocked`.
pub mod Lifecycle
use podwatcher.Prelude.{
  ℕ, ◌+◌, String, Bool, true, false, Option, none, some, not, ◌&&◌, ◌||◌, ◌==◌, ltb, is_some,
  or_else, if◌then◌else◌,
}
use podwatcher.Dict.{get, put}
use podwatcher.Kube.{Time, is_zero, millisecond, Pod}
use podwatcher.Spark.{label, is_driver_pod, pod_status, container_times}
use podwatcher.Store.{Store, ApplicationRecord}

-- `created` of both halves: the creation time, or now where it is not set
abbrev pub created_or_now : Pod → Time → Time
created_or_now pod now = if is_zero pod.creation_timestamp then now else pod.creation_timestamp

-- the earlier of the record's creation time and the pod's, if that is set
abbrev pub earliest : Pod → Time → Time
earliest pod created =
    if not (is_zero pod.creation_timestamp) && ltb pod.creation_timestamp created
    then pod.creation_timestamp
    else created

-- `if s != "" { field = s }`
abbrev pub overwrite : String → String → String
overwrite s field = if s == "" then field else s

unfoldable pub new_application : Pod → String → Time → ApplicationRecord
new_application pod app_id now = record {
  application_id = app_id;
  cluster = "";
  spark_app_name = "";
  spark_app_selector = "";
  namespace = pod.namespace;
  driver_pod_name = "";
  status = "unknown";
  changed_at = 0;
  created_at = created_or_now pod now;
  first_seen_at = now;
  last_updated_at = 0;
  finished_at = none;
  deleted_at = none;
}

-- what every pod of the application refreshes
unfoldable pub refresh_application : String → Pod → ApplicationRecord → ApplicationRecord
refresh_application cluster pod rec = record rec {
  created_at = earliest pod rec.created_at;
  cluster = overwrite cluster rec.cluster;
  namespace = if rec.namespace == "" then pod.namespace else rec.namespace;
  spark_app_name = overwrite (label "spark-app-name" pod) rec.spark_app_name;
  spark_app_selector = overwrite (label "spark-app-selector" pod) rec.spark_app_selector;
}

-- the test that the application has come to its end
unfoldable pub is_terminal : Pod → Bool → Bool
is_terminal pod deleted = deleted || pod.phase == "Succeeded" || pod.phase == "Failed"

-- what only the driver drives: name, status, finish and deletion
unfoldable pub drive : Pod → Bool → Time → ApplicationRecord → ApplicationRecord
unfolding is_terminal
drive pod deleted now rec = record rec {
  driver_pod_name = pod.name;
  status = pod_status pod deleted;
  finished_at =
      if is_terminal pod deleted && not (is_some rec.finished_at)
      then some (or_else (container_times pod).1 now)
      else rec.finished_at;
  deleted_at = if deleted && not (is_some rec.deleted_at) then some now else rec.deleted_at;
}

-- whether `drive` makes a lifecycle change
unfoldable pub drives : Pod → Bool → ApplicationRecord → Bool
unfolding is_terminal
drives pod deleted rec =
    not (rec.status == pod_status pod deleted)
    || is_terminal pod deleted && not (is_some rec.finished_at)
    || deleted && not (is_some rec.deleted_at)

unfoldable pub bootstrap_changed_at : Pod → ApplicationRecord → Time → Time
bootstrap_changed_at pod rec fallback = elim rec.finished_at [
  | some t ↦ t
  | none ↦ if is_zero pod.creation_timestamp then fallback else pod.creation_timestamp
]

-- the next time of the change clock: now, but at least 1ms after the last change
unfoldable pub next_change : Time → Time → Time
next_change last_changed now =
    if is_zero last_changed
    then now
    else if ltb now (last_changed + millisecond)
    then last_changed + millisecond
    else now

module _ (s : Store) (pod : Pod) (app_id : String) (deleted bootstrap : Bool) (now : Time) where
  -- the record before the driver's part
  unfoldable pub seen_application : ApplicationRecord
  unfolding new_application refresh_application
  seen_application =
      refresh_application s.cluster pod
        (or_else (get app_id s.apps) (new_application pod app_id now))

  unfoldable pub driven_application : ApplicationRecord
  unfolding seen_application drive
  driven_application =
      if is_driver_pod pod then drive pod deleted now seen_application else seen_application

  unfoldable pub lifecycle_changed : Bool
  unfolding seen_application drives
  lifecycle_changed =
      not bootstrap
      && (not (is_some (get app_id s.apps))
          || is_driver_pod pod && drives pod deleted seen_application)

  unfoldable pub changed_time : Time
  unfolding driven_application lifecycle_changed bootstrap_changed_at next_change
  changed_time =
      if bootstrap
      then if is_some (get app_id s.apps)
        then driven_application.changed_at
        else bootstrap_changed_at pod driven_application now
      else if lifecycle_changed
      then next_change s.last_changed now
      else driven_application.changed_at

  -- the record that the application half leaves
  unfoldable pub updated_application : ApplicationRecord
  unfolding driven_application changed_time
  updated_application = record driven_application {
    changed_at = changed_time;
    last_updated_at = now;
  }

  -- the store, and whether a record was created
  unfoldable pub upsert_app : Store × Bool
  unfolding updated_application
  upsert_app = (
    record s {
      apps = put app_id updated_application s.apps;
      last_changed = if lifecycle_changed then next_change s.last_changed now else s.last_changed;
    },
    not (is_some (get app_id s.apps)),
  )
