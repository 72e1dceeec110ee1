-- ===== src/Elastic/Publish/Completions.antt =====
-- From a driver's deletion to the document of its application.
use podwatcher.Prelude.{
  String, ◌≡◌, ◌≢◌, refl, sym, ap, ◌∙◌, subst, true, false, Option, none, some, List, Option-cases,
  inl, inr, ==false→ne, Bool-cases, ◌⊎◌, ◌==◌, arith, eq_iff,
}
use podwatcher.Dict.{get}
use podwatcher.Kube.{Time, Pod}
use podwatcher.Spark.{app_id_from_pod, spark_role, pod_status}
use podwatcher.Store.{Store, ApplicationRecord, ApplicationView, PodRecord}
use podwatcher.Store.Valid.{IsValid}
use podwatcher.Store.Application.{is_terminal}
use podwatcher.Store.Query.{view, join_driver, driver_of}
use podwatcher.Store.Upsert.{upsert}
use podwatcher.Store.Upsert.Roles.{upsert-driver}
use podwatcher.Store.Upsert.Joined.{upsert-driver_of}
use podwatcher.Handler.{Handler, delete_pod}
use podwatcher.Handler.Inputs.{delete_pod-store}
use podwatcher.Elastic.Publish.{
  Part, Completion, publish_application, completion_at, outcome, queue_of, sent_application,
}

join_driver-application :
    (new : ApplicationRecord) (driver : Option PodRecord)
    → (join_driver new driver).application ≡ new
join_driver-application new none = refl
join_driver-application new (some pod) = refl

view-application : (s : Store) (new : ApplicationRecord) → (view s new).application ≡ new
unfolding view
view-application s new = join_driver-application new (driver_of s new.application_id)

-- what a finished application is sent as
completion_at_finished :
    (cluster : String) (app : ApplicationView) (now t : Time) (finished : Option Time)
    → finished ≡ some t
    → (id : List Part) × (doc : Completion) × (completion_at cluster app now finished
        ≡ some (id, doc))
      × (doc.application.status ≡ outcome app.driver_phase app.status)
      × (doc.finished_at ≡ t)
      × (doc.queue ≡ queue_of app.driver_labels)
      × (doc.application_id ≡ app.application_id)
      × (doc.application.cluster ≡ cluster)
unfolding completion_at sent_application
completion_at_finished cluster app now t none h = absurd (cc)
completion_at_finished cluster app now t (some u) h =
    let same : u ≡ t = cc in (_, _, refl, refl, same, refl, refl, refl)

-- how an application ended whose driver is deleted, by the driver's last phase
abbrev pub IsEnd : (phase status : String) → Type 0
IsEnd phase status =
    (phase ≡ "Succeeded") × (status ≡ "succeeded")
    ⊎ ((phase ≡ "Failed") × (status ≡ "failed")
        ⊎ (phase ≢ "Succeeded") × (phase ≢ "Failed") × (status ≡ "deleted"))

outcome_lem : (phase : String) → IsEnd phase (outcome phase "deleted")
unfolding outcome
outcome_lem phase = elim (Bool-cases (phase == "Failed")) [
  | inl failed ↦ rw failed (inr (inl (ground (arith, eq_iff phase "Failed"), refl)))
  | inr on ↦ elim (Bool-cases (phase == "Succeeded")) [
    | inl succeeded ↦ rw (on, succeeded) (inl (ground (arith, eq_iff phase "Succeeded"), refl))
    | inr other ↦
        rw (on, other)
          (inr (inr (==false→ne phase "Succeeded" other, ==false→ne phase "Failed" on, refl)))
  ]
]

-- A driver's deletion does not hide how its application ended: the document that the client sends for
-- the application, as the handler leaves it, has the status of the driver's last phase if that is an
-- end and "deleted" otherwise, the application's finish time, the queue of the driver's labels and the
-- client's cluster, from a valid store that keeps the application.
pub delete_pod-completion :
    (h : Handler) (pod : Pod) (now stamp sent_at : Time) (cluster : String)
    (new : ApplicationRecord)
    → IsValid h.state_store
    → app_id_from_pod pod ≢ ""
    → spark_role pod ≡ "driver"
    → get (app_id_from_pod pod) (delete_pod h pod now stamp).state_store.apps ≡ some new
    → (id : List Part) × (doc : Completion) × (publish_application cluster
          (view (delete_pod h pod now stamp).state_store new)
          sent_at
        ≡ some (id, doc))
      × IsEnd pod.phase doc.application.status
      × (some doc.finished_at ≡ new.finished_at)
      × (doc.queue ≡ queue_of pod.labels)
      × (doc.application.cluster ≡ cluster)
unfolding publish_application is_terminal pod_status
delete_pod-completion h pod now stamp sent_at cluster new valid named role known =
    let after = delete_pod-store h pod now stamp in
    let found = subst (λ s. get (app_id_from_pod pod) s.apps ≡ some new) after known in
    let s = upsert h.state_store pod true false now in
    let (status, finish, deletion) =
      upsert-driver h.state_store pod true false now new named role found in
    let (phase, labels) =
      upsert-driver_of h.state_store valid pod true false now named role new found in
    let same = view-application s new in
    elim (Option-cases new.finished_at) [
      | inl never ↦ absurd (finish refl never)
      | inr (t, at) ↦
          let (id, doc, sent, ends, time, queue, _, own) =
            completion_at_finished cluster (view s new) sent_at t (view s new).finished_at
              (ap (λ app. app.finished_at) same ∙ at) in
          let ended : doc.application.status ≡ outcome pod.phase "deleted" =
            ends
            ∙ ap (λ p. outcome p (view s new).status) phase
            ∙ ap (outcome pod.phase) (ap (λ app. app.status) same ∙ status) in
          rw after (
            id,
            doc,
            sent,
            rw ended (outcome_lem pod.phase),
            ap some time ∙ sym at,
            queue ∙ ap queue_of labels,
            own,
          )
    ]
