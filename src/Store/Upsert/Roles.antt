-- ===== src/Store/Upsert/Roles.antt =====
-- Drivers drive an application; executors do not.
use podwatcher.Prelude.{
  ◌<◌, String, ◌≡◌, ◌≢◌, refl, inl, inr, Bool, true, false, none, some, arith, ◌==◌, eq_iff,
  ==false→ne, Option-cases,
}
use podwatcher.Dict.{get}
use podwatcher.Kube.{Time, Pod}
use podwatcher.Spark.{app_id_from_pod, spark_role, is_driver_pod, pod_status}
use podwatcher.Store.{Store, ApplicationRecord}
use podwatcher.Store.Application.{is_terminal}
use podwatcher.Store.Application.Lifecycle.{
  SameLife, next_change-lt, not_driven, stamped, first_seen, driver_ends, undriven_status,
}
use podwatcher.Store.Upsert.{upsert, upsert_pod}
use podwatcher.Store.Upsert.Frame.{IsTracked, last_changed-upsert}
use podwatcher.Store.Upsert.Feed.{own_record}

-- The role that the store takes is the label's, unless it is empty.
role_label :
    (pod : Pod) (role : String)
    → role ≢ ""
    → spark_role pod ≡ role
    → is_driver_pod pod ≡ (role == "driver")
unfolding spark_role is_driver_pod
role_label pod role h e = elim (Option-cases pod.labels) [
  | inl nil_map ↦ absurd (ground (arith, nil_map, eq_iff role ""))
  | inr (m, labels) ↦ ground (arith, labels, eq_iff role "")
]

pub driver_role : (pod : Pod) → spark_role pod ≡ "driver" → is_driver_pod pod ≡ true
driver_role pod h = role_label pod "driver" (==false→ne _ _ refl) h

executor_role : (pod : Pod) → spark_role pod ≡ "executor" → is_driver_pod pod ≡ false
executor_role pod h = role_label pod "executor" (==false→ne _ _ refl) h

pub driver-IsTracked :
    (pod : Pod) (role : String)
    → app_id_from_pod pod ≢ ""
    → (role == "") ≡ false
    → spark_role pod ≡ role
    → IsTracked pod
driver-IsTracked pod role named some_role e = (named, rw e (==false→ne role "" some_role))

-- An executor of a known application, seen, deleted or in a snapshot, leaves the application's
-- status, finish, deletion, driver and change time as they were, and the store's last change too.
pub upsert-executor :
    (s : Store) (pod : Pod) (deleted bootstrap : Bool) (now : Time) (old new : ApplicationRecord)
    → app_id_from_pod pod ≢ ""
    → spark_role pod ≡ "executor"
    → get (app_id_from_pod pod) s.apps ≡ some old
    → get (app_id_from_pod pod) (upsert s pod deleted bootstrap now).apps ≡ some new
    → SameLife new old
      × (new.changed_at ≡ old.changed_at)
      × (new.driver_pod_name ≡ old.driver_pod_name)
      × ((upsert s pod deleted bootstrap now).last_changed ≡ s.last_changed)
upsert-executor s pod deleted bootstrap now old new named role known h =
    let tracked = driver-IsTracked pod "executor" named refl role in
    let (life, at, driver, same) =
      not_driven s pod (app_id_from_pod pod) old known deleted bootstrap now
        (executor_role pod role) in
    let own = own_record s pod deleted bootstrap now tracked new h in
    let last = last_changed-upsert s pod deleted bootstrap now tracked in
    (rw own life, rw own at, rw own driver, ground (arith, last, same))

-- In a live observation, once the change clock runs, the first pod of an application is a change in
-- the feed, an executor too, if the application is kept: it is stamped later
-- than every change before, and the status that the feed shows is then "unknown".
pub upsert_pod-first_executor :
    (s : Store) (pod : Pod) (deleted : Bool) (now : Time) (new : ApplicationRecord)
    → app_id_from_pod pod ≢ ""
    → spark_role pod ≡ "executor"
    → s.last_changed ≢ 0
    → get (app_id_from_pod pod) s.apps ≡ none
    → get (app_id_from_pod pod) (upsert_pod s pod deleted now).apps ≡ some new
    → (s.last_changed < new.changed_at) × (new.status ≡ "unknown")
unfolding upsert_pod
upsert_pod-first_executor s pod deleted now new named role clock unknown h =
    let app_id = app_id_from_pod pod in
    let own =
      own_record s pod deleted false now (driver-IsTracked pod "executor" named refl role) new h in
    let changed = first_seen s pod app_id deleted now unknown in
    let next = next_change-lt s.last_changed now clock in
    (
      ground (arith, own, stamped s pod app_id deleted now changed, next),
      rw own (undriven_status s pod app_id deleted now unknown (executor_role pod role)),
    )

-- A driver's observation gives its application the status of the driver's phase, or "deleted". At
-- its end the application has a finish, and if the driver is deleted a deletion.
pub upsert-driver :
    (s : Store) (pod : Pod) (deleted bootstrap : Bool) (now : Time) (new : ApplicationRecord)
    → app_id_from_pod pod ≢ ""
    → spark_role pod ≡ "driver"
    → get (app_id_from_pod pod) (upsert s pod deleted bootstrap now).apps ≡ some new
    → (new.status ≡ pod_status pod deleted)
      × (is_terminal pod deleted ≡ true → new.finished_at ≢ none)
      × (deleted ≡ true → new.deleted_at ≢ none)
upsert-driver s pod deleted bootstrap now new named role h =
    let tracked = driver-IsTracked pod "driver" named refl role in
    rw (own_record s pod deleted bootstrap now tracked new h)
      (driver_ends s pod (app_id_from_pod pod) deleted bootstrap now (driver_role pod role))
