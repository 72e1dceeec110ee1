-- ===== src/Store/Application/Lifecycle.antt =====
-- The lifecycle fields of the record that `upsertAppLocked` leaves.
use podwatcher.Prelude.{
  ◌≤◌, ◌<◌, String, ◌≡◌, ◌≢◌, refl, Bool, true, false, none, some, arith, eq_iff,
}
use podwatcher.Dict.{get}
use podwatcher.Kube.{Time, Pod}
use podwatcher.Spark.{is_driver_pod, pod_status}
use podwatcher.Store.{Store, ApplicationRecord}
use podwatcher.Store.Application.{is_terminal, next_change, lifecycle_changed, updated_application}

-- The change clock never falls behind the wall clock, and each change is later than the one before.
pub next_change-lt :
    (last_changed now : Time)
    → last_changed ≢ 0
    → (last_changed < next_change last_changed now) × (now ≤ next_change last_changed now)
unfolding next_change
next_change-lt last_changed now h = ground arith

-- what the feed tells of an application's life
pub record SameLife (a b : ApplicationRecord) : Type 0 where
  pub status : a.status ≡ b.status
  pub finished_at : a.finished_at ≡ b.finished_at
  pub deleted_at : a.deleted_at ≡ b.deleted_at

module _ (s : Store) (pod : Pod) (app_id : String) (rec : ApplicationRecord)
    (known : get app_id s.apps ≡ some rec) where
  -- Where the observation makes no lifecycle change, the record keeps its life and its place.
  pub same_life :
      (deleted : Bool) (now : Time)
      → lifecycle_changed s pod app_id deleted false now ≡ false
      → SameLife (updated_application s pod app_id deleted false now) rec
        × ((updated_application s pod app_id deleted false now).changed_at ≡ rec.changed_at)
  unfolding updated_application
  same_life deleted now h = ground (arith, eq_iff rec.status (pod_status pod deleted))

  pub changed_at-bootstrap :
      (deleted : Bool) (now : Time)
      → (updated_application s pod app_id deleted true now).changed_at ≡ rec.changed_at
  unfolding updated_application
  changed_at-bootstrap deleted now = ground arith

  pub finished_once :
      (deleted bootstrap : Bool) (now t : Time)
      → rec.finished_at ≡ some t
      → (updated_application s pod app_id deleted bootstrap now).finished_at ≡ some t
  unfolding updated_application
  finished_once deleted bootstrap now t h = ground arith

  pub deleted_once :
      (deleted bootstrap : Bool) (now t : Time)
      → rec.deleted_at ≡ some t
      → (updated_application s pod app_id deleted bootstrap now).deleted_at ≡ some t
  unfolding updated_application
  deleted_once deleted bootstrap now t h = ground arith

  -- A pod that is no driver leaves the life, the driver and the place in the feed alone.
  pub not_driven :
      (deleted bootstrap : Bool) (now : Time)
      → is_driver_pod pod ≡ false
      → SameLife (updated_application s pod app_id deleted bootstrap now) rec
        × ((updated_application s pod app_id deleted bootstrap now).changed_at ≡ rec.changed_at)
        × ((updated_application s pod app_id deleted bootstrap now).driver_pod_name
            ≡ rec.driver_pod_name)
        × (lifecycle_changed s pod app_id deleted bootstrap now ≡ false)
  unfolding updated_application
  not_driven deleted bootstrap now h = ground arith

-- A change of life is stamped with the next time of the change clock.
pub stamped :
    (s : Store) (pod : Pod) (app_id : String) (deleted : Bool) (now : Time)
    → lifecycle_changed s pod app_id deleted false now ≡ true
    → (updated_application s pod app_id deleted false now).changed_at
      ≡ next_change s.last_changed now
unfolding updated_application
stamped s pod app_id deleted now h = ground arith

-- An application that is seen for the first time is a change of life, unless in a bootstrap.
pub first_seen :
    (s : Store) (pod : Pod) (app_id : String) (deleted : Bool) (now : Time)
    → get app_id s.apps ≡ none
    → lifecycle_changed s pod app_id deleted false now ≡ true
unfolding lifecycle_changed
first_seen s pod app_id deleted now h = ground arith

pub lifecycle_changed-bootstrap :
    (s : Store) (pod : Pod) (app_id : String) (deleted : Bool) (now : Time)
    → lifecycle_changed s pod app_id deleted true now ≡ false
unfolding lifecycle_changed
lifecycle_changed-bootstrap s pod app_id deleted now = refl

-- A driver that is gone, or at its end, finishes its application.
pub driver_ends :
    (s : Store) (pod : Pod) (app_id : String) (deleted bootstrap : Bool) (now : Time)
    → is_driver_pod pod ≡ true
    → let rec = updated_application s pod app_id deleted bootstrap now in
      (rec.status ≡ pod_status pod deleted)
      × (is_terminal pod deleted ≡ true → rec.finished_at ≢ none)
      × (deleted ≡ true → rec.deleted_at ≢ none)
unfolding updated_application
driver_ends s pod app_id deleted bootstrap now h = ground arith

-- An application of which no driver has been seen is "unknown".
pub undriven_status :
    (s : Store) (pod : Pod) (app_id : String) (deleted : Bool) (now : Time)
    → get app_id s.apps ≡ none
    → is_driver_pod pod ≡ false
    → (updated_application s pod app_id deleted false now).status ≡ "unknown"
unfolding updated_application
undriven_status s pod app_id deleted now h d = ground arith
