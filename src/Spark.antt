-- ===== src/Spark.antt =====
-- internal/store/state_store.go: what the store reads off a pod. A Spark pod carries its role, its
-- application and its names in labels.
use Prim.Native.String.{◌++◌}
use podwatcher.Prelude.{
  String, Bool, false, Option, none, some, List, [], ◌∷◌, not, ◌&&◌, ◌==◌, if◌then◌else◌,
}
use podwatcher.Dict.{get_text}
use podwatcher.Kube.{Time, is_zero, Pod, ContainerStatus}

-- pod.Labels[k]; a nil map reads as empty
unfoldable pub label : String → Pod → String
unfolding get_text
label k pod = elim pod.labels [ none ↦ "" | some m ↦ get_text k m ]

unfoldable pub app_id_from_pod : Pod → String
unfolding label
app_id_from_pod pod = elim pod.labels [
  | none ↦ ""
  | some m ↦ if label "appSparkID" pod == "" then "" else label "appSparkID" pod
]

unfoldable pub is_driver_pod : Pod → Bool
unfolding label
is_driver_pod pod = elim pod.labels [ none ↦ false | some m ↦ label "spark-role" pod == "driver" ]

checked_role : Pod → String → String
checked_role pod role =
    if not (role == "driver") && not (role == "executor")
    then ""
    else if app_id_from_pod pod == ""
    then ""
    else role

unfoldable pub spark_role : Pod → String
unfolding checked_role label
spark_role pod = elim pod.labels [ none ↦ "" | some m ↦ checked_role pod (label "spark-role" pod) ]

unfoldable pub pod_status : Pod → Bool → String
pod_status pod deleted =
    if deleted
    then "deleted"
    else if pod.phase == "Succeeded"
    then "succeeded"
    else if pod.phase == "Failed"
    then "failed"
    else if pod.phase == "Running"
    then "running"
    else if pod.phase == "Pending"
    then "pending"
    else pod.phase

-- namespace/name, the identity of an object with no UID
unfoldable pub name_key : String → String → String
name_key namespace name = namespace ++ "/" ++ name

unfoldable pub pod_key : Pod → String
unfolding name_key
pod_key pod = if pod.uid == "" then name_key pod.namespace pod.name else pod.uid

-- `&t` if t is set, and nil otherwise
abbrev pub set_time : Time → Option Time
set_time t = if is_zero t then none else some t

unfoldable pub main_times : List ContainerStatus → Option Time → Option Time × Option Time
main_times [] start_time = (start_time, none)
main_times (cs ∷ rest) start_time = elim cs.terminated [
  | some term ↦ (set_time term.started_at, set_time term.finished_at)
  | none ↦ elim cs.running [ some t ↦ (some t, none) | none ↦ main_times rest start_time ]
]

-- started and finished time of the main container
unfoldable pub container_times : Pod → Option Time × Option Time
unfolding main_times
container_times pod = main_times pod.container_statuses pod.start_time

unfoldable pub bootstrap_pod_time : Pod → Time → Time
bootstrap_pod_time pod fallback = elim (container_times pod).0 [
  | some started ↦ started
  | none ↦ if is_zero pod.creation_timestamp then fallback else pod.creation_timestamp
]
