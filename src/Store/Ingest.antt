-- ===== src/Store/Ingest.antt =====
-- internal/store/state_store.go and internal/store/legacy.go: loaded records are indexed, and the
-- change clock is rebuilt from them.
pub mod Clock
pub mod Index
pub mod Legacy
use podwatcher.Prelude.{
  ◌+◌, ◌-◌, String, Bool, true, false, List, [], ◌∷◌, not, ◌||◌, ◌==◌, ltb, if◌then◌else◌,
}
use podwatcher.Dict.{Dict, put}
use podwatcher.Sort.{sort_by, before}
use podwatcher.Kube.{Time, is_zero, millisecond}
use podwatcher.Spark.{name_key}
use podwatcher.Store.{Store, ApplicationRecord, PodRecord}
use podwatcher.Store.Evict.{evict_apps, evict_pods}

-- A record with no time of change. `current` says that no later record of the file has its id, so
-- that the map points at this very record when the loop over the file is done.
pub record Missing : Type 0 where
  pub rec : ApplicationRecord
  pub current : Bool

unfoldable pub has_id : String → List ApplicationRecord → Bool
has_id id [] = false
has_id id (r ∷ rs) = r.application_id == id || has_id id rs

unfoldable pub missing_of : List ApplicationRecord → List Missing
unfolding has_id
missing_of [] = []
missing_of (r ∷ rs) =
    let rest = missing_of rs in
    if is_zero r.changed_at
    then record { rec = r; current = not (has_id r.application_id rs) } ∷ rest
    else rest

abbrev pub max_time : Time → Time → Time
max_time a b = if ltb a b then b else a

unfoldable pub latest_of : List ApplicationRecord → Time → Time
latest_of [] latest = latest
latest_of (r ∷ rs) latest = latest_of rs (max_time latest r.changed_at)

unfoldable pub put_apps : List ApplicationRecord → Dict ApplicationRecord → Dict ApplicationRecord
put_apps [] apps = apps
put_apps (r ∷ rs) apps = put_apps rs (put r.application_id r apps)

-- each missing time is the clock's next tick; the clock comes back too
unfoldable pub stamp_all :
    Time → List Missing → Dict ApplicationRecord → Dict ApplicationRecord × Time
stamp_all clock [] apps = (apps, clock)
stamp_all clock (m ∷ ms) apps =
    let tick = clock + millisecond in
    stamp_all tick ms (
      if m.current
      then put m.rec.application_id (record m.rec { changed_at = tick }) apps
      else apps)

-- the clock starts 1ms before the earliest update, or at the latest change if that is later
unfoldable pub start_clock : List Missing → Time → Time
start_clock [] latest = latest
start_clock (m ∷ ms) latest = max_time (m.rec.last_updated_at - millisecond) latest

unfoldable pub sorted_missing : List ApplicationRecord → List Missing
unfolding missing_of
sorted_missing records = sort_by (before (λ m. m.rec.last_updated_at)) (missing_of records)

unfoldable pub ingest_apps : List ApplicationRecord → Store → Store
unfolding sorted_missing start_clock stamp_all put_apps latest_of
ingest_apps records s =
    let missing = sorted_missing records in
    let (apps, clock) =
      stamp_all (start_clock missing (latest_of records 0)) missing (put_apps records s.apps) in
    record s { apps = apps; last_changed = max_time s.last_changed clock }

-- the key of a loaded pod record
unfoldable pub record_key : PodRecord → String
unfolding name_key
record_key rec = if rec.uid == "" then name_key rec.namespace rec.name else rec.uid

unfoldable pub ingest_pods : List PodRecord → Store → Store
unfolding record_key
ingest_pods [] s = s
ingest_pods (rec ∷ recs) s = ingest_pods recs (record s {
  pods = put (record_key rec) rec s.pods;
  driver_by_app =
      if rec.role == "driver"
      then put rec.application_id (record_key rec) s.driver_by_app
      else s.driver_by_app;
})

unfoldable pub ingest : List ApplicationRecord → List PodRecord → Store → Store
unfolding ingest_apps ingest_pods
ingest apps pods s = ingest_pods pods (ingest_apps apps s)

-- What the two legacy files hold; a file that is missing or does not parse holds nothing.
unfoldable pub import_legacy : List ApplicationRecord → List PodRecord → Store → Store
unfolding ingest
import_legacy [] [] s = s
import_legacy apps pods s =
    let (s1, app_evicted) = evict_apps (ingest apps pods s) in
    let (s2, pod_evicted) = evict_pods s1 in record s2 { dirty = true }
