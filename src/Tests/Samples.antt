-- ===== src/Tests/Samples.antt =====
-- Pods and stores for the tests: an application "a" with a driver and an executor, and others.
use podwatcher.Prelude.{String, true, false, none, some, [], ◌∷◌, pos, refl, or_else}
use podwatcher.Dict.{get, put, delete, delete_if, get_text}
use podwatcher.Sort.{sort_by}
use podwatcher.Spark.{
  label, app_id_from_pod, spark_role, is_driver_pod, pod_status, pod_key, container_times,
}
use podwatcher.Kube.{Time, Pod}
use podwatcher.Store.{Store, ApplicationRecord}
use podwatcher.Store.Application.{new_application}
use podwatcher.Store.Evict.{evict_apps, evict_pods}
use podwatcher.Store.Valid.{IsValid}
use podwatcher.Store.Persist.{empty_store}
use podwatcher.Store.Upsert.{upsert_pod}
use podwatcher.Store.Upsert.Valid.{upsert-IsValid}

abbrev pub spark_pod : String → String → String → String → Time → Pod
spark_pod app_id role uid phase created = record {
  uid = uid;
  resource_version = "7";
  namespace = "default";
  name = uid;
  labels = some (("appSparkID", app_id) ∷ ("spark-role", role) ∷ []);
  creation_timestamp = created;
  deletion_timestamp = none;
  node_name = "node-1";
  phase = phase;
  start_time = none;
  container_statuses = [];
}

abbrev pub driver : Pod
driver = spark_pod "a" "driver" "d1" "Running" 5000000

abbrev pub done_driver : Pod
done_driver = spark_pod "a" "driver" "d1" "Succeeded" 5000000

abbrev pub executor : Pod
executor = spark_pod "a" "executor" "e1" "Running" 6000000

abbrev pub other_driver : Pod
other_driver = spark_pod "b" "driver" "d2" "Running" 7000000

abbrev pub third_driver : Pod
third_driver = spark_pod "c" "driver" "d3" "Running" 8000000

-- a record of nothing, where a test looks up what is not there
abbrev blank : ApplicationRecord
blank = new_application driver "" 0

-- the application that a test knows to be there
abbrev pub app_of : Store → String → ApplicationRecord
app_of s id = or_else (get id s.apps) blank

-- room for one application and one pod record
unfoldable pub small : Store
unfolding empty_store get
small = empty_store "state.json" "east" (pos 1) (pos 1)

unfoldable pub started : Store
unfolding small upsert_pod put delete delete_if sort_by get_text label app_id_from_pod spark_role
    is_driver_pod pod_status pod_key container_times evict_apps evict_pods
started = upsert_pod small driver false 9000000

unfoldable pub finished : Store
unfolding started
finished = upsert_pod started done_driver true 10000000

-- room for ten of each
unfoldable pub wide : Store
unfolding started
wide = empty_store "state.json" "east" (pos 10) (pos 10)

unfoldable pub three : Store
unfolding wide
three =
    upsert_pod (upsert_pod (upsert_pod wide driver false 9000000) other_driver false 9000000)
      third_driver false 9000000

pub small-IsValid : IsValid small
unfolding small
small-IsValid = record {
  apps_dict = tt;
  pods_dict = tt;
  index_dict = tt;
  named = refl;
  keyed = λ k r h. cc;
  owned = λ k r h. absurd (cc);
  indexed = λ a k h. absurd (cc);
}

pub started-IsValid : IsValid started
unfolding started
started-IsValid = upsert-IsValid small small-IsValid driver false false 9000000

pub finished-IsValid : IsValid finished
unfolding finished
finished-IsValid = upsert-IsValid started started-IsValid done_driver true false 10000000
