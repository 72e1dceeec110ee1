-- ===== src/Store/Upsert/Frame.antt =====
-- What an observed pod changes among the applications, through both halves and both evictions.
use podwatcher.Prelude.{String, ◌≡◌, ◌≢◌, refl, ◌∙◌, Bool, some, arith, ◌==◌, eq_iff, if◌then◌else◌}
use podwatcher.Dict.{get}
use podwatcher.Dict.Laws.{get-put, get-delete}
use podwatcher.Kube.{Time, Pod}
use podwatcher.Spark.{app_id_from_pod, spark_role}
use podwatcher.Store.{Store, ApplicationRecord}
use podwatcher.Store.Application.{lifecycle_changed, next_change, updated_application}
use podwatcher.Store.Evict.{delete_app, evict_apps, evict_pods}
use podwatcher.Store.Evict.Apps.{evict_apps-keeps}
use podwatcher.Store.Upsert.{record_halves, record_and_evict, upsert}

-- the pods that the store tracks: those with an application id and a role
abbrev pub IsTracked : Pod → Type 0
IsTracked pod = (app_id_from_pod pod ≢ "") × (spark_role pod ≢ "")

-- Eviction changes no application's record and no part of the change clock.
abbrev pub OnlyFewer : Store → Store → Type 0
OnlyFewer s t =
    ((k : String) (r : ApplicationRecord) → get k t.apps ≡ some r → get k s.apps ≡ some r)
    × (t.last_changed ≡ s.last_changed)

pub evict_apps-OnlyFewer : (s : Store) → OnlyFewer s (evict_apps s).0
unfolding delete_app
evict_apps-OnlyFewer s =
    evict_apps-keeps (OnlyFewer s)
      (λ t id h. (λ k r g. h.0 k r (ground (arith, get-delete id k t.apps)), h.1)) s
      (λ k r g. g, refl)

pub evict_pods-apps :
    (s : Store)
    → ((evict_pods s).0.apps ≡ s.apps) × ((evict_pods s).0.last_changed ≡ s.last_changed)
unfolding evict_pods
evict_pods-apps s = ground arith

module _ (s : Store) (pod : Pod) (deleted bootstrap : Bool) (now : Time)
    (tracked : IsTracked pod) where
  pub upsert-tracked :
      upsert s pod deleted bootstrap now ≡ record_and_evict s pod deleted bootstrap now
  unfolding upsert
  upsert-tracked = ground (arith, eq_iff (app_id_from_pod pod) "", eq_iff (spark_role pod) "")

  halves : Store
  halves = (record_halves s pod deleted bootstrap now).0

  upsert-OnlyFewer : OnlyFewer halves (upsert s pod deleted bootstrap now)
  unfolding record_and_evict halves
  upsert-OnlyFewer =
      let fewer = evict_apps-OnlyFewer halves in
      let same = evict_pods-apps (evict_apps halves).0 in
      rw upsert-tracked ((λ k r h. fewer.0 k r (rw same.0 at h)), same.1 ∙ fewer.1)

  -- An application that is there afterwards is the one that the pod updated, or as it was.
  pub apps-upsert :
      (k : String) (r : ApplicationRecord)
      → get k (upsert s pod deleted bootstrap now).apps ≡ some r
      → (if app_id_from_pod pod == k
          then some (updated_application s pod (app_id_from_pod pod) deleted bootstrap now)
          else get k s.apps)
        ≡ some r
  unfolding halves record_halves
  apps-upsert k r h = let app_id = app_id_from_pod pod in rw get-put at (upsert-OnlyFewer.0 k r h)

  pub last_changed-upsert : (upsert s pod deleted bootstrap now).last_changed ≡ (
      if lifecycle_changed s pod (app_id_from_pod pod) deleted bootstrap now
      then next_change s.last_changed now
      else s.last_changed)
  unfolding halves record_halves
  last_changed-upsert = upsert-OnlyFewer.1
