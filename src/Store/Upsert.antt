-- ===== src/Store/Upsert.antt =====
-- internal/store/state_store.go: `upsert` and its two entry points.
pub mod Valid
pub mod Frame
pub mod Feed
pub mod Roles
pub mod Driven
pub mod Bounds
pub mod Joined
use podwatcher.Prelude.{Bool, true, false, not, ◌||◌, ◌==◌, ltb, if◌then◌else◌}
use podwatcher.Kube.{Time, Pod}
use podwatcher.Spark.{app_id_from_pod, spark_role}
use podwatcher.Store.{Store}
use podwatcher.Store.Application.{upsert_app}
use podwatcher.Store.PodHalf.{upsert_pod_record}
use podwatcher.Store.Evict.{evict_apps, evict_pods}

module _ (s : Store) (pod : Pod) (deleted bootstrap : Bool) (now : Time) where
  -- the store when both halves are applied
  unfoldable pub record_halves : Store × Bool × Bool
  unfolding upsert_app upsert_pod_record
  record_halves =
      let app_id = app_id_from_pod pod in
      let (s1, app_created) = upsert_app s pod app_id deleted bootstrap now in
      let (s2, pod_created) =
        upsert_pod_record s1 pod app_id (spark_role pod) deleted bootstrap now in
      (s2, app_created, pod_created)

  unfoldable pub record_and_evict : Store
  unfolding record_halves
  record_and_evict =
      let (s2, app_created, pod_created) = record_halves in
      let (s3, app_evicted) = evict_apps s2 in
      let (s4, pod_evicted) = evict_pods s3 in
      record s4 {
        dirty =
            if not bootstrap || app_created || pod_created || ltb 0 app_evicted || ltb 0 pod_evicted
            then true
            else s4.dirty;
      }

  unfoldable pub upsert : Store
  unfolding record_and_evict
  upsert = if app_id_from_pod pod == "" || spark_role pod == "" then s else record_and_evict

unfoldable pub upsert_pod : Store → Pod → Bool → Time → Store
unfolding upsert
upsert_pod s pod deleted now = upsert s pod deleted false now

unfoldable pub bootstrap_pod : Store → Pod → Time → Store
unfolding upsert
bootstrap_pod s pod now = upsert s pod false true now
