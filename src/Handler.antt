-- ===== src/Handler.antt =====
-- internal/handler/event_handler.go: pod events are recorded in the store, handed to the
-- Elasticsearch publisher and kept, for drivers, in a buffer of recent events.
pub mod Buffer
pub mod Inputs
pub mod Publications
pub mod Debug
use podwatcher.Prelude.{
  ℕ, ◌+◌, String, Bool, true, false, Option, none, some, List, [], ◌∷◌, not, ◌&&◌, ◌||◌, ◌==◌, ltb,
  length, take, if◌then◌else◌, ℤ, pos_part, or_else, is_some,
}
use podwatcher.Dict.{Dict, get, put}
use podwatcher.Kube.{Time, Pod, Object}
use podwatcher.Spark.{app_id_from_pod, spark_role}
use podwatcher.Store.{Store, ApplicationView}
use podwatcher.Store.Upsert.{upsert_pod, bootstrap_pod}
use podwatcher.Store.Query.{get_application}

-- `Type` is called kind.
pub record PodEvent : Type 0 where
  pub kind : String
  pub namespace : String
  pub name : String
  pub phase : String
  pub node : String
  pub labels : Option (Dict String)
  pub timestamp : Time

-- The publisher that the handler was given: none, one with `Publish` alone, or one that is an
-- ApplicationPublisher too.
pub data Publisher : Type 0 where
  no_publisher events_only applications_too : Publisher

-- One call of the publisher. What it answers is logged and changes nothing.
pub data Publication : Type 0 where
  pod_event : String → Pod → Bool → Publication
  completion : ApplicationView → Publication

-- `published` is what the publisher was called with, the latest call first.
pub record Handler : Type 0 where
  pub events : List PodEvent
  pub max_events : ℕ
  pub state_store : Store
  pub publisher : Publisher
  pub published : List Publication

unfoldable pub new_handler : Store → Publisher → Handler
new_handler s publisher = record {
  events = [];
  max_events = 1000;
  state_store = s;
  publisher = publisher;
  published = [];
}

unfoldable pub pod_from_object : Object → Option Pod
pod_from_object (Object.pod p) = some p
pod_from_object (Object.tombstone (Object.pod p)) = some p
pod_from_object _ = none

unfoldable pub add_event : PodEvent → Handler → Handler
unfolding take
add_event event h =
    let events = event ∷ h.events in
    record h {
      events = if ltb h.max_events (length events) then take h.max_events events else events;
    }

unfoldable pub publish : String → Pod → Bool → Handler → Handler
publish kind pod initial h = elim h.publisher [
  | Publisher.no_publisher ↦ h
  | _ ↦ record h { published = pod_event kind pod initial ∷ h.published }
]

unfoldable pub completed : Option ApplicationView → List Publication → List Publication
completed none sent = sent
completed (some app) sent = if is_some app.finished_at then completion app ∷ sent else sent

unfoldable pub publish_application : Pod → Handler → Handler
unfolding completed get_application
publish_application pod h = if not (spark_role pod == "driver") then h else elim h.publisher [
  | Publisher.applications_too ↦ record h {
    published = completed (get_application h.state_store (app_id_from_pod pod)) h.published;
  }
  | _ ↦ h
]

abbrev pub event_of : String → Pod → Time → PodEvent
event_of kind pod stamp = record {
  kind = kind;
  namespace = pod.namespace;
  name = pod.name;
  phase = pod.phase;
  node = pod.node_name;
  labels = pod.labels;
  timestamp = stamp;
}

-- In each handler `now` is the store's reading of the clock and `stamp` the event's.
unfoldable pub add_pod : Handler → Pod → Bool → Time → Time → Handler
unfolding upsert_pod bootstrap_pod publish publish_application add_event
add_pod h pod initial now stamp =
    let s =
      if initial
      then bootstrap_pod h.state_store pod now
      else upsert_pod h.state_store pod false now in
    let sent =
      publish_application pod (publish "ADDED" pod initial (record h { state_store = s })) in
    if spark_role pod == ""
    then h
    else if not (spark_role pod == "driver")
    then sent
    else add_event (event_of (if initial then "INITIAL" else "ADDED") pod stamp) sent

unfoldable pub on_add : Handler → Object → Bool → Time → Time → Handler
unfolding add_pod pod_from_object
on_add h obj initial now stamp = elim (pod_from_object obj) [
  | none ↦ h
  | some pod ↦ add_pod h pod initial now stamp
]

-- the test of OnUpdate that keeps an update out of the buffer, negated
unfoldable pub ends : Pod → Pod → Bool
ends old_pod new_pod = not (
    not (spark_role new_pod == "driver")
    || old_pod.phase == new_pod.phase
    || not (new_pod.phase == "Succeeded") && not (new_pod.phase == "Failed"))

unfoldable pub update_pod : Handler → (old_pod new_pod : Pod) → Time → Time → Handler
unfolding upsert_pod publish_application add_event ends
update_pod h old_pod new_pod now stamp =
    let s = upsert_pod h.state_store new_pod false now in
    let sent = publish_application new_pod (record h { state_store = s }) in
    if spark_role new_pod == ""
    then h
    else if ends old_pod new_pod
    then add_event (event_of "MODIFIED" new_pod stamp) sent
    else sent

-- OnUpdate takes no tombstones.
unfoldable pub on_update : Handler → (old_obj new_obj : Object) → Time → Time → Handler
unfolding update_pod
on_update h (Object.pod old_pod) (Object.pod new_pod) now stamp =
    update_pod h old_pod new_pod now stamp
on_update h _ _ now stamp = h

unfoldable pub delete_pod : Handler → Pod → Time → Time → Handler
unfolding upsert_pod publish publish_application add_event
delete_pod h pod now stamp =
    let s = upsert_pod h.state_store pod true now in
    let sent =
      publish_application pod (publish "DELETED" pod false (record h { state_store = s })) in
    if spark_role pod == ""
    then h
    else if not (spark_role pod == "driver")
    then sent
    else add_event (event_of "DELETED" pod stamp) sent

unfoldable pub on_delete : Handler → Object → Time → Time → Handler
unfolding delete_pod pod_from_object
on_delete h obj now stamp = elim (pod_from_object obj) [
  | none ↦ h
  | some pod ↦ delete_pod h pod now stamp
]

unfoldable pub get_events : ℤ → Handler → List PodEvent
unfolding take
get_events limit h =
    if ltb 0 (pos_part limit) && ltb (pos_part limit) (length h.events)
    then take (pos_part limit) h.events
    else h.events

-- `stats[event.Type]++` over the events
unfoldable pub count_kinds : List PodEvent → Dict ℕ → Dict ℕ
unfolding get put
count_kinds [] stats = stats
count_kinds (event ∷ events) stats =
    count_kinds events (put event.kind (or_else (get event.kind stats) 0 + 1) stats)

unfoldable pub get_stats : Handler → Dict ℕ
unfolding count_kinds
get_stats h = count_kinds h.events []
