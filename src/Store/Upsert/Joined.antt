-- ===== src/Store/Upsert/Joined.antt =====
-- The join of an application with its driver's pod record, after the driver is observed.
use podwatcher.Prelude.{
  String, ◌≡◌, ◌≢◌, refl, sym, ap, ◌∙◌, Bool, none, some, arith, ◌==◌, eq_iff, eq_refl, inl, inr,
  Option-cases, ◌⊎◌, some-ne-none,
}
use podwatcher.Dict.{get}
use podwatcher.Dict.Laws.{get-put, get-delete, get-delete_if}
use podwatcher.Kube.{Time, Pod}
use podwatcher.Spark.{app_id_from_pod, spark_role, pod_key}
use podwatcher.Store.{Store, ApplicationRecord, PodRecord}
use podwatcher.Store.Valid.{IsValid}
use podwatcher.Store.Application.{upsert_app}
use podwatcher.Store.PodHalf.{upsert_pod_record, updated_pod}
use podwatcher.Store.Evict.{delete_app, evict_apps, evict_pods}
use podwatcher.Store.Evict.Apps.{evict_apps-keeps, delete_app-IsValid}
use podwatcher.Store.Evict.Records.{evict_pods-PodsEvicted}
use podwatcher.Store.Query.{driver_of, view, join_driver}
use podwatcher.Store.Upsert.{record_halves, record_and_evict, upsert}
use podwatcher.Store.Upsert.Frame.{upsert-tracked}
use podwatcher.Store.Upsert.Roles.{driver_role, driver-IsTracked}
use podwatcher.Store.Upsert.Valid.{record_halves-IsValid, upsert-IsValid}

-- the application is gone, or the index and the pod records lead from it to its driver
abbrev IsJoined : String → String → PodRecord → Store → Type 0
IsJoined app_id key rec t =
    (get app_id t.apps ≡ none)
    ⊎ ((get app_id t.driver_by_app ≡ some key) × (get key t.pods ≡ some rec))

delete_app-IsJoined :
    (app_id key : String) (rec : PodRecord) (t : Store) (id : String)
    → rec.application_id ≡ app_id
    → IsValid t
    → IsJoined app_id key rec t
    → IsJoined app_id key rec (delete_app id t)
unfolding delete_app
delete_app-IsJoined app_id key rec t id own v joined = ground (
  arith,
  get-delete id app_id t.apps,
  get-delete id app_id t.driver_by_app,
  get-delete_if (λ r. r.application_id == id) key t.pods v.pods_dict,
  eq_iff rec.application_id id,
  eq_iff id app_id,
)

evict_pods-IsJoined :
    (app_id key : String) (rec : PodRecord) (t : Store)
    → rec.application_id ≡ app_id
    → rec.role ≡ "driver"
    → IsValid t
    → IsJoined app_id key rec t
    → IsJoined app_id key rec (evict_pods t).0
evict_pods-IsJoined app_id key rec t own role v joined =
    let e = evict_pods-PodsEvicted t v.pods_dict in
    elim joined [
      | inl gone ↦ inl (rw e.rest gone)
      | inr (index, there) ↦ elim (Option-cases (get key (evict_pods t).0.pods)) [
        | inl evicted ↦
            let (d, (deleted, free), least) = e.oldest key rec there evicted in
            inl (rw e.rest (ap (λ a. get a t.apps) (sym own) ∙ free role))
        | inr (r, kept) ↦
            let same : some r ≡ some rec = sym (e.kept key r kept) ∙ there in
            inr (rw e.rest index, kept ∙ same)
      ]
    ]

driver_of_found :
    (t : Store) (app_id key : String) (rec : PodRecord)
    → get app_id t.driver_by_app ≡ some key
    → get key t.pods ≡ some rec
    → driver_of t app_id ≡ some rec
unfolding driver_of
driver_of_found t app_id key rec index there = ground (arith, index, there)

module _ (s : Store) (v : IsValid s) (pod : Pod) (deleted bootstrap : Bool) (now : Time)
    (named : app_id_from_pod pod ≢ "") (role : spark_role pod ≡ "driver") where
  -- the pod record that the observation leaves
  pub observed_pod : PodRecord
  observed_pod =
      updated_pod (upsert_app s pod (app_id_from_pod pod) deleted bootstrap now).0 pod
        (app_id_from_pod pod) (spark_role pod) deleted bootstrap now

  observed_pod_role :
      (observed_pod.application_id ≡ app_id_from_pod pod) × (observed_pod.role ≡ "driver")
  unfolding observed_pod updated_pod
  observed_pod_role = (refl, role)

  record_halves-IsJoined :
      IsJoined
        (app_id_from_pod pod)
        (pod_key pod)
        observed_pod
        (record_halves s pod deleted bootstrap now).0
  unfolding record_halves upsert_pod_record observed_pod
  record_halves-IsJoined =
      let app_id = app_id_from_pod pod in
      let s1 = (upsert_app s pod app_id deleted bootstrap now).0 in
      inr (
        rw (driver_role pod role)
            (get-put app_id app_id (pod_key pod) s1.driver_by_app ∙ rw (eq_refl app_id) refl),
        get-put (pod_key pod) (pod_key pod) observed_pod s1.pods ∙ rw (eq_refl (pod_key pod)) refl,
      )

  upsert-IsJoined :
      IsJoined (app_id_from_pod pod) (pod_key pod) observed_pod (upsert s pod deleted bootstrap now)
  unfolding record_and_evict
  upsert-IsJoined =
      let app_id = app_id_from_pod pod in
      let t0 = (record_halves s pod deleted bootstrap now).0 in
      let (own, as_driver) = observed_pod_role in
      let (valid, joined) =
        evict_apps-keeps (λ t. IsValid t × IsJoined app_id (pod_key pod) observed_pod t)
          (λ t id h. (
            delete_app-IsValid t id h.0,
            delete_app-IsJoined app_id (pod_key pod) observed_pod t id own h.0 h.1,
          ))
          t0 (record_halves-IsValid s v pod deleted bootstrap now named, record_halves-IsJoined) in
      rw
        (upsert-tracked s pod deleted bootstrap now (driver-IsTracked pod "driver" named refl role))
        (evict_pods-IsJoined app_id (pod_key pod) observed_pod (evict_apps t0).0 own as_driver valid
          joined)

  -- After a driver is observed, its application, if it is kept, is joined with that very pod: the view
  -- of the application shows the pod's phase and labels.
  pub upsert-driver_of :
      (new : ApplicationRecord)
      → get (app_id_from_pod pod) (upsert s pod deleted bootstrap now).apps ≡ some new
      → ((view (upsert s pod deleted bootstrap now) new).driver_phase ≡ pod.phase)
        × ((view (upsert s pod deleted bootstrap now) new).driver_labels ≡ pod.labels)
  unfolding view observed_pod updated_pod
  upsert-driver_of new kept =
      let t = upsert s pod deleted bootstrap now in
      let app_id = app_id_from_pod pod in
      elim upsert-IsJoined [
        | inl gone ↦ absurd (some-ne-none (sym kept ∙ gone))
        | inr (index, there) ↦
            let own : new.application_id ≡ app_id =
              (upsert-IsValid s v pod deleted bootstrap now).keyed app_id new kept in
            let joined : driver_of t new.application_id ≡ some observed_pod =
              ap (driver_of t) own
              ∙ driver_of_found t app_id (pod_key pod) observed_pod index there in
            (
              ap (λ found. (join_driver new found).driver_phase) joined,
              ap (λ found. (join_driver new found).driver_labels) joined,
            )
      ]
