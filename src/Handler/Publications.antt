-- ===== src/Handler/Publications.antt =====
-- What is handed to the publisher, and the statistics over the buffer.
use podwatcher.Prelude.{
  ℕ, ◌+◌, ◌≡◌, ◌≢◌, refl, ap, subst, ◌∙◌, String, Bool, true, false, Option, none, some, List, [],
  ◌∷◌, ◌==◌, arith, if◌then◌else◌, Option-cases, inl, inr, eq_iff, eq_refl, or_else,
}
use podwatcher.Dict.{get, put}
use podwatcher.Dict.Laws.{get-put}
use podwatcher.Kube.{Time, Pod}
use podwatcher.Spark.{spark_role, app_id_from_pod}
use podwatcher.Store.Application.{is_terminal}
use podwatcher.Spark.{pod_status}
use podwatcher.Store.Query.{join_driver, driver_of}
use podwatcher.Store.{Store, PodRecord, ApplicationRecord, ApplicationView}
use podwatcher.Store.Upsert.{upsert, upsert_pod}
use podwatcher.Store.Upsert.Roles.{upsert-driver}
use podwatcher.Store.Query.{get_application, view}
use podwatcher.Handler.{
  Handler, PodEvent, Publisher, Publication, pod_event, completion, publish, publish_application,
  completed, add_event, delete_pod, get_stats, count_kinds,
}
use podwatcher.Handler.Inputs.{delete_pod-store, publish_frame}

-- how many events are of a kind
abbrev pub kind_count : String → List PodEvent → ℕ
kind_count kind [] = 0
kind_count kind (event ∷ events) = (if event.kind == kind then 1 else 0) + kind_count kind events

count_kinds-get :
    (kind : String) (events : List PodEvent) (stats : List (String × ℕ))
    → or_else (get kind (count_kinds events stats)) 0
      ≡ kind_count kind events + or_else (get kind stats) 0
unfolding count_kinds
count_kinds-get kind [] stats = omega arith
count_kinds-get kind (event ∷ events) stats =
    let count = or_else (get event.kind stats) 0 + 1 in
    grind (
      arith,
      count_kinds-get kind events (put event.kind count stats),
      get-put event.kind kind count stats,
      eq_iff event.kind kind,
    )

-- For every kind, the statistics give the number of events of that kind in the buffer, and a kind
-- that is not there counts as 0.
pub get_stats-count :
    (h : Handler) (kind : String) → or_else (get kind (get_stats h)) 0 ≡ kind_count kind h.events
unfolding get_stats get
get_stats-count h kind = omega (arith, count_kinds-get kind h.events [])

join_driver-finished_at :
    (new : ApplicationRecord) (driver : Option PodRecord)
    → (join_driver new driver).finished_at ≡ new.finished_at
join_driver-finished_at new none = refl
join_driver-finished_at new (some pod) = refl

completed-some :
    (app : ApplicationView) (sent : List Publication)
    → app.finished_at ≢ none
    → completed (some app) sent ≡ completion app ∷ sent
unfolding completed
completed-some app sent finished = elim (Option-cases app.finished_at) [
  | inl never ↦ absurd (finished never)
  | inr (t, e) ↦ ground (arith, e)
]

get_application-some :
    (s : Store) (app_id : String) (new : ApplicationRecord)
    → get app_id s.apps ≡ some new
    → get_application s app_id ≡ some (view s new)
unfolding get_application
get_application-some s app_id new known = ground (arith, known)

completed-finished :
    (s : Store) (app_id : String) (new : ApplicationRecord) (sent : List Publication)
    → get app_id s.apps ≡ some new
    → new.finished_at ≢ none
    → completed (get_application s app_id) sent ≡ completion (view s new) ∷ sent
unfolding get_application view
completed-finished s app_id new sent known finished =
    let driver = driver_of s new.application_id in
    ap (λ app. completed app sent) (get_application-some s app_id new known)
    ∙ completed-some (join_driver new driver) sent
        (rw (join_driver-finished_at new driver) finished)

publish-published :
    (kind : String) (pod : Pod) (initial : Bool) (h : Handler)
    → h.publisher ≡ Publisher.applications_too
    → (publish kind pod initial h).published ≡ pod_event kind pod initial ∷ h.published
unfolding publish
publish-published kind pod initial h takes = ground (arith, takes)

publish_application-published :
    (pod : Pod) (h : Handler)
    → h.publisher ≡ Publisher.applications_too
    → (spark_role pod == "driver") ≡ true
    → (publish_application pod h).published
      ≡ completed (get_application h.state_store (app_id_from_pod pod)) h.published
unfolding publish_application
publish_application-published pod h takes role = ground (arith, takes, role)

delete_pod_sent :
    (h : Handler) (pod : Pod) (now stamp : Time)
    → spark_role pod ≡ "driver"
    → (delete_pod h pod now stamp).published
      ≡ (publish_application pod (
          publish "DELETED" pod false
            (record h { state_store = upsert_pod h.state_store pod true now }))).published
unfolding delete_pod add_event
delete_pod_sent h pod now stamp role =
    ground (arith, eq_iff (spark_role pod) "driver", eq_iff (spark_role pod) "", eq_iff "driver" "")

delete_pod-driver :
    (h : Handler) (pod : Pod) (now stamp : Time)
    → h.publisher ≡ Publisher.applications_too
    → spark_role pod ≡ "driver"
    → (delete_pod h pod now stamp).published
      ≡ completed
          (get_application (upsert h.state_store pod true false now) (app_id_from_pod pod))
          (pod_event "DELETED" pod false ∷ h.published)
unfolding upsert_pod
delete_pod-driver h pod now stamp takes role =
    let h1 = record h { state_store = upsert_pod h.state_store pod true now } in
    let h2 = publish "DELETED" pod false h1 in
    let (same, events, most, publisher) = publish_frame "DELETED" pod false h1 in
    let is_driver : (spark_role pod == "driver") ≡ true = rw role (eq_refl "driver") in
    delete_pod_sent h pod now stamp role
    ∙ publish_application-published pod h2 (publisher ∙ takes) is_driver
    ∙ ap (λ s. completed (get_application s (app_id_from_pod pod)) h2.published) same
    ∙ ap (completed (get_application h1.state_store (app_id_from_pod pod)))
        (publish-published "DELETED" pod false h1 takes)

-- A driver's deletion, told by the pod or by a tombstone around it, sends the DELETED event and
-- then, if the store still has the application, the application with status deleted and a finish
-- time, to a publisher that takes applications.
pub delete_pod-published :
    (h : Handler) (pod : Pod) (now stamp : Time) (new : ApplicationRecord)
    → h.publisher ≡ Publisher.applications_too
    → app_id_from_pod pod ≢ ""
    → spark_role pod ≡ "driver"
    → get (app_id_from_pod pod) (delete_pod h pod now stamp).state_store.apps ≡ some new
    → ((delete_pod h pod now stamp).published
        ≡ completion (view (delete_pod h pod now stamp).state_store new)
          ∷ pod_event "DELETED" pod false
          ∷ h.published)
      × (new.status ≡ "deleted")
      × (new.finished_at ≢ none)
unfolding is_terminal pod_status
delete_pod-published h pod now stamp new takes named role known =
    let after = delete_pod-store h pod now stamp in
    let found = subst (λ s. get (app_id_from_pod pod) s.apps ≡ some new) after known in
    let (deleted_status, finish, deletion) =
      upsert-driver h.state_store pod true false now new named role found in
    let finished = finish refl in
    (
      rw after (
          delete_pod-driver h pod now stamp takes role
          ∙ completed-finished (upsert h.state_store pod true false now) (app_id_from_pod pod) new _
              found finished),
      deleted_status,
      finished,
    )
