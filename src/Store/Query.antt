-- ===== src/Store/Query.antt =====
-- internal/store/state_store.go: what the API reads, `GetApplication`, `GetChanges`,
-- `GetPodRecords` and the join with the driver pod.
pub mod Matches
pub mod Pages
pub mod Cursor
pub mod Polls
pub mod Records
use podwatcher.Prelude.{
  String, Bool, true, false, Option, none, some, List, [], ◌∷◌, map, not, ◌&&◌, ◌||◌, ◌==◌, ltb,
  length, take, keep_if, if◌then◌else◌, ℤ, pos_part,
}
use podwatcher.Dict.{get, values}
use podwatcher.Sort.{sort_by, before, after}
use podwatcher.Kube.{Time}
use podwatcher.Store.{Store, ApplicationRecord, PodRecord, ApplicationView}

-- the pod that the join index names for an application
unfoldable pub driver_of : Store → String → Option PodRecord
driver_of s app_id = elim (get app_id s.driver_by_app) [ none ↦ none | some k ↦ get k s.pods ]

abbrev pub join_driver : ApplicationRecord → Option PodRecord → ApplicationView
join_driver rec none = record { application = rec; driver_phase = ""; driver_labels = none }
join_driver rec (some driver) = record {
  application = rec;
  driver_phase = driver.phase;
  driver_labels = driver.labels;
}

unfoldable pub view : Store → ApplicationRecord → ApplicationView
unfolding driver_of
view s rec = join_driver rec (driver_of s rec.application_id)

unfoldable pub get_application : Store → String → Option ApplicationView
unfolding view
get_application s app_id = elim (get app_id s.apps) [ none ↦ none | some rec ↦ some (view s rec) ]

unfoldable pub contains : List String → String → Bool
contains [] st = false
contains (x ∷ xs) st = x == st || contains xs st

-- the keys of `statusSet`
unfoldable pub status_set : List String → List String
status_set statuses = keep_if (λ st. not (st == "")) statuses

-- an empty set lets every status through
unfoldable pub has_status : List String → String → Bool
unfolding contains
has_status [] st = true
has_status (x ∷ xs) st = contains (x ∷ xs) st

-- `filter == "" || field == filter`
abbrev pub agrees : String → String → Bool
agrees wanted field = wanted == "" || field == wanted

unfoldable pub is_change : Time → String → List String → ApplicationRecord → Bool
unfolding has_status
is_change since app_id statuses rec =
    ltb since rec.changed_at && agrees app_id rec.application_id && has_status statuses rec.status

-- every match, by the time of its change
unfoldable pub matched : Store → Time → String → List String → List ApplicationRecord
unfolding is_change status_set keep_if sort_by
matched s since app_id statuses =
    sort_by (before (λ rec. rec.changed_at))
      (keep_if (is_change since app_id (status_set statuses)) (values s.apps))

-- `limit > 0 && len > limit` cuts the page and says that there is more
unfoldable pub page {ℓ} : {A : Type ℓ} → ℤ → List A → List A × Bool
unfolding take
page limit xs =
    if ltb 0 (pos_part limit) && ltb (pos_part limit) (length xs)
    then (take (pos_part limit) xs, true)
    else (xs, false)

-- The records are matched under one lock and joined under the next: `later` is the store then.
unfoldable pub get_changes :
    (s later : Store) → Time → ℤ → String → List String → List ApplicationView × Bool
unfolding page matched view
get_changes s later since limit app_id statuses =
    let (recs, has_more) = page limit (matched s since app_id statuses) in
    (map (view later) recs, has_more)

pub record PodRecordFilter : Type 0 where
  pub application_id : String
  pub role : String
  pub node : String
  pub status : String
  pub start : Option Time
  pub stop : Option Time
  pub limit : ℤ

-- `filter.Start != nil && t.Before(*filter.Start)`, negated, and likewise for the end
abbrev pub not_before : Option Time → Time → Bool
not_before none t = true
not_before (some start) t = not (ltb t start)

abbrev pub not_after : Option Time → Time → Bool
not_after none t = true
not_after (some stop) t = not (ltb stop t)

unfoldable pub selects : PodRecordFilter → PodRecord → Bool
selects f rec =
    agrees f.application_id rec.application_id
    && agrees f.role rec.role
    && agrees f.node rec.node
    && agrees f.status rec.status
    && not_before f.start rec.last_updated_at
    && not_after f.stop rec.last_updated_at

unfoldable pub selected : Store → PodRecordFilter → List PodRecord
unfolding selects keep_if sort_by
selected s f = sort_by (after (λ rec. rec.last_updated_at)) (keep_if (selects f) (values s.pods))

unfoldable pub get_pod_records : Store → PodRecordFilter → List PodRecord
unfolding selected page
get_pod_records s f = (page f.limit (selected s f)).0
