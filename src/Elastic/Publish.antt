-- ===== src/Elastic/Publish.antt =====
-- internal/elasticsearch/client.go: the documents of `Publish` and `PublishApplication`. A document's
-- id is the SHA-256 of a JSON list, and is modelled by that list.
pub mod Completions
pub mod Deliver
use podwatcher.Prelude.{
  String, Bool, true, false, Option, none, some, List, [], ◌∷◌, ◌==◌, if◌then◌else◌,
}
use podwatcher.Dict.{Dict}
use podwatcher.Kube.{Time, Pod, is_zero}
use podwatcher.Spark.{label, app_id_from_pod, pod_key}
use podwatcher.Store.{ApplicationView}
use podwatcher.Dict.{get_text}

-- One element of the list that an id is the hash of.
pub data Part : Type 0 where
  text : String → Part
  flag : Bool → Part

-- metav1.ObjectMeta with the fields that the program's pods have here.
pub record ObjectMeta : Type 0 where
  pub uid : String
  pub resource_version : String
  pub namespace : String
  pub name : String
  pub labels : Option (Dict String)
  pub creation_timestamp : Time
  pub deletion_timestamp : Option Time

abbrev pub object_meta : Pod → ObjectMeta
object_meta pod = record {
  uid = pod.uid;
  resource_version = pod.resource_version;
  namespace = pod.namespace;
  name = pod.name;
  labels = pod.labels;
  creation_timestamp = pod.creation_timestamp;
  deletion_timestamp = pod.deletion_timestamp;
}

-- `Type` is called kind, and `@timestamp` timestamp.
pub record Event : Type 0 where
  pub application_id : String
  pub pod_name : String
  pub queue : String
  pub kind : String
  pub cluster : String
  pub timestamp : Time
  pub initial : Bool
  pub added_at : Option Time
  pub deleted_at : Option Time
  pub metadata : ObjectMeta
  pub node : String

unfoldable pub event_id : String → String → Pod → Bool → List Part
unfolding pod_key
event_id cluster kind pod initial =
    text cluster ∷ text (pod_key pod) ∷ text pod.resource_version ∷ text kind ∷ flag initial ∷ []

-- the id and the document of a pod event
unfoldable pub publish_event : String → String → Pod → Bool → Time → List Part × Event
unfolding event_id label app_id_from_pod
publish_event cluster kind pod initial now = (
  event_id cluster kind pod initial,
  record {
    application_id = app_id_from_pod pod;
    pod_name = pod.name;
    queue = label "queue" pod;
    kind = kind;
    cluster = cluster;
    timestamp = now;
    initial = initial;
    added_at = if is_zero pod.creation_timestamp then none else some pod.creation_timestamp;
    deleted_at = if kind == "DELETED" then some now else none;
    metadata = object_meta pod;
    node = pod.node_name;
  },
)

pub record Completion : Type 0 where
  pub application_id : String
  pub pod_name : String
  pub queue : String
  pub kind : String
  pub cluster : String
  pub timestamp : Time
  pub indexed_at : Time
  pub finished_at : Time
  pub application : ApplicationView

-- the status that the driver's phase leaves, where it has ended
unfoldable pub outcome : String → String → String
outcome phase status =
    if phase == "Failed" then "failed" else if phase == "Succeeded" then "succeeded" else status

-- the application as it is sent: the client's cluster, and the outcome
unfoldable pub sent_application : String → ApplicationView → ApplicationView
unfolding outcome
sent_application cluster app = record app {
  application = record app.application {
    cluster = cluster;
    status = outcome app.driver_phase app.status;
  };
}

-- app.DriverLabels["queue"]; a nil map reads as empty
unfoldable pub queue_of : Option (Dict String) → String
unfolding get_text
queue_of none = ""
queue_of (some labels) = get_text "queue" labels

unfoldable pub completion_at :
    String → ApplicationView → Time → Option Time → Option (List Part × Completion)
unfolding sent_application queue_of
completion_at cluster app now none = none
completion_at cluster app now (some finished) = some (
  text cluster ∷ text app.namespace ∷ text app.application_id ∷ text "APPLICATION_COMPLETED" ∷ [],
  record {
    application_id = app.application_id;
    pod_name = app.driver_pod_name;
    queue = queue_of app.driver_labels;
    kind = "APPLICATION_COMPLETED";
    cluster = cluster;
    timestamp = now;
    indexed_at = now;
    finished_at = finished;
    application = sent_application cluster app;
  },
)

-- none is the error of an application that has not finished
unfoldable pub publish_application :
    String → ApplicationView → Time → Option (List Part × Completion)
unfolding completion_at
publish_application cluster app now = completion_at cluster app now app.finished_at
