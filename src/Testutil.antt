-- ===== src/Testutil.antt =====
-- internal/testutil/pods.go: the pods that the tests of the repository are written with.
use podwatcher.Prelude.{
  ◌≡◌, refl, String, Option, none, some, [], ◌∷◌, ◌==◌, eq_iff, arith, if◌then◌else◌, Bool-cases,
  inl, inr,
}
use podwatcher.Dict.{Dict, get_text}
use podwatcher.Kube.{Time, Pod}
use podwatcher.Spark.{label, app_id_from_pod, spark_role}

-- A nil map of labels reads as an empty one; the fields that are not set are zero.
abbrev built : String → Option (Dict String) → Time → String → String → Pod
built name labels created node_name phase = record {
  uid = "";
  resource_version = "";
  namespace = "default";
  name = name;
  labels = labels;
  creation_timestamp = created;
  deletion_timestamp = none;
  node_name = node_name;
  phase = phase;
  start_time = none;
  container_statuses = [];
}

unfoldable pub driver_pod : (name app_id phase : String) → Time → Pod
driver_pod name app_id phase created =
    let labels =
      ("spark-role", "driver")
      ∷ ("spark-app-name", "spark-pi-yunikorn")
      ∷ ("spark-app-selector", app_id)
      ∷ [] in
    let all = ("applicationId", app_id) ∷ ("appSparkID", app_id) ∷ labels in
    built name (some (if app_id == "" then labels else all)) created "node-1" phase

unfoldable pub executor_pod : (name app_id : String) → Pod
executor_pod name app_id =
    built name
      (some (
        ("spark-role", "executor")
        ∷ ("appSparkID", app_id)
        ∷ ("applicationId", app_id)
        ∷ ("spark-app-selector", app_id)
        ∷ ("spark-exec-id", name)
        ∷ []))
      0 "node-2" "Running"

unfoldable pub plain_pod : String → Option (Dict String) → String → Pod
plain_pod name labels phase = built name labels 0 "" phase

unfoldable pub with_uid : Pod → String → Pod
with_uid pod uid = record pod { uid = uid }

-- A driver and an executor are of the application that they are made with, the one a driver and the
-- other an executor, unless its id is empty; a pod without labels is of none.
pub driver_pod-role :
    (name app_id phase : String) (created : Time)
    → (app_id_from_pod (driver_pod name app_id phase created) ≡ app_id)
      × (spark_role (driver_pod name app_id phase created)
          ≡ (if app_id == "" then "" else "driver"))
unfolding driver_pod app_id_from_pod spark_role label get_text
driver_pod-role name app_id phase created = elim (Bool-cases (app_id == "")) [
  | inl unset ↦ rw unset (ground (arith, eq_iff app_id ""), refl)
  | inr set ↦ simp set (refl, refl)
]

pub executor_pod-role :
    (name app_id : String)
    → (app_id_from_pod (executor_pod name app_id) ≡ app_id)
      × (spark_role (executor_pod name app_id) ≡ (if app_id == "" then "" else "executor"))
unfolding executor_pod app_id_from_pod spark_role label get_text
executor_pod-role name app_id = elim (Bool-cases (app_id == "")) [
  | inl unset ↦ simp unset (ground (arith, eq_iff app_id ""), refl)
  | inr set ↦ simp set (refl, refl)
]
