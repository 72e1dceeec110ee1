-- ===== src/Store/Upsert/Valid.antt =====
-- An observed pod keeps the store's invariant.
use podwatcher.Prelude.{
  String, ◌≡◌, ◌≢◌, refl, Bool, none, arith, ◌==◌, eq_iff, eq_refl, some-ne-none, Option-cases, inl,
  inr, if◌then◌else◌, ◌||◌, Bool-cases,
}
use podwatcher.Dict.{get, put}
use podwatcher.Dict.Laws.{get-put, put-IsDict}
use podwatcher.Kube.{Time, Pod}
use podwatcher.Spark.{app_id_from_pod, spark_role, pod_key, is_driver_pod}
use podwatcher.Store.{Store, ApplicationRecord, PodRecord}
use podwatcher.Store.Valid.{IsValid}
use podwatcher.Store.Application.{upsert_app, updated_application}
use podwatcher.Store.PodHalf.{upsert_pod_record, updated_pod}
use podwatcher.Store.Evict.Rounds.{evict_apps-IsValid}
use podwatcher.Store.Evict.Records.{evict_pods-IsValid}
use podwatcher.Store.Upsert.{record_halves, upsert}

module _ (s : Store) (pod : Pod) (app_id : String) (deleted bootstrap : Bool) (now : Time) where
  -- The record that the application half leaves stands under its own id.
  updated_application-id :
      IsValid s → (updated_application s pod app_id deleted bootstrap now).application_id ≡ app_id
  unfolding updated_application
  updated_application-id v = elim (Option-cases (get app_id s.apps)) [
    | inl new ↦ ground arith
    | inr (rec, known) ↦ ground (arith, v.keyed app_id rec known)
  ]

-- A write of an application under its own id, and of a pod record of a known application.
module _ (s : Store) (v : IsValid s) (app_id : String) where
  get-put_app :
      (rec : ApplicationRecord) (k : String)
      → get k s.apps ≢ none
      → get k (put app_id rec s.apps) ≢ none
  get-put_app rec k h e = ground (arith, get-put app_id k rec s.apps)

  put_app-IsValid :
      (rec : ApplicationRecord) (last_changed : Time)
      → app_id ≢ ""
      → rec.application_id ≡ app_id
      → IsValid (record s { apps = put app_id rec s.apps; last_changed = last_changed })
  put_app-IsValid rec last_changed named own = record {
    apps_dict = put-IsDict app_id rec s.apps v.apps_dict;
    pods_dict = v.pods_dict;
    index_dict = v.index_dict;
    named = ground (arith, get-put app_id "" rec s.apps, eq_iff app_id "", v.named);
    keyed = λ k r h. ground (arith, get-put app_id k rec s.apps, eq_iff app_id k, v.keyed k r);
    owned = λ k r h. get-put_app rec r.application_id (v.owned k r h);
    indexed = λ a k h. get-put_app rec a (v.indexed a k h);
  }

  put_pod-IsValid :
      (key : String) (rec : PodRecord) (driver : Bool)
      → get app_id s.apps ≢ none
      → rec.application_id ≡ app_id
      → IsValid (record s {
        pods = put key rec s.pods;
        driver_by_app = if driver then put app_id key s.driver_by_app else s.driver_by_app;
      })
  put_pod-IsValid key rec driver known own = record {
    apps_dict = v.apps_dict;
    pods_dict = put-IsDict key rec s.pods v.pods_dict;
    index_dict = ground (arith, put-IsDict app_id key s.driver_by_app v.index_dict, v.index_dict);
    named = v.named;
    keyed = v.keyed;
    owned = λ k r h. ground (arith, get-put key k rec s.pods, v.owned k r);
    indexed = λ a k h.
        ground (arith, get-put app_id a key s.driver_by_app, eq_iff app_id a, v.indexed a k);
  }

marked_dirty : (s : Store) (dirty : Bool) → IsValid s → IsValid (record s { dirty = dirty })
marked_dirty s dirty v = record {
  apps_dict = v.apps_dict;
  pods_dict = v.pods_dict;
  index_dict = v.index_dict;
  named = v.named;
  keyed = v.keyed;
  owned = v.owned;
  indexed = v.indexed;
}

module _ (s : Store) (v : IsValid s) (pod : Pod) (deleted bootstrap : Bool) (now : Time) where
  upsert_pod_record-IsValid :
      (app_id role : String)
      → get app_id s.apps ≢ none
      → IsValid (upsert_pod_record s pod app_id role deleted bootstrap now).0
  unfolding upsert_pod_record
  upsert_pod_record-IsValid app_id role known =
      put_pod-IsValid s v app_id (pod_key pod) (updated_pod s pod app_id role deleted bootstrap now)
        (is_driver_pod pod) known refl

module _ (s : Store) (v : IsValid s) (pod : Pod) (deleted bootstrap : Bool) (now : Time) where
  upsert_app-IsValid :
      (app_id : String)
      → app_id ≢ ""
      → IsValid (upsert_app s pod app_id deleted bootstrap now).0
        × (get app_id (upsert_app s pod app_id deleted bootstrap now).0.apps ≢ none)
  unfolding upsert_app
  upsert_app-IsValid app_id named =
      let rec = updated_application s pod app_id deleted bootstrap now in
      (
        put_app-IsValid s v app_id rec _ named
            (updated_application-id s pod app_id deleted bootstrap now v),
        λ e. some-ne-none (rw (get-put app_id app_id rec s.apps, eq_refl app_id) at e),
      )

  pub record_halves-IsValid :
      app_id_from_pod pod ≢ "" → IsValid (record_halves s pod deleted bootstrap now).0
  unfolding record_halves
  record_halves-IsValid named =
      let app_id = app_id_from_pod pod in
      let (v1, known) = upsert_app-IsValid app_id named in
      upsert_pod_record-IsValid (upsert_app s pod app_id deleted bootstrap now).0 v1 pod deleted
        bootstrap now app_id (spark_role pod) known

  -- Whatever is observed, the store stays valid: keys are distinct, an application stands under
  -- its own id, and no pod record and no index entry is without its application.
  pub upsert-IsValid : IsValid (upsert s pod deleted bootstrap now)
  unfolding upsert
  upsert-IsValid = elim (Bool-cases (app_id_from_pod pod == "" || spark_role pod == "")) [
    | inl skipped ↦ rw skipped v
    | inr tracked ↦ rw tracked (
        marked_dirty _ _ (
          evict_pods-IsValid _ (
            evict_apps-IsValid _
              (record_halves-IsValid (ground (arith, eq_iff (app_id_from_pod pod) ""))))))
  ]
