-- ===== src/Store/Valid.antt =====
-- The invariant of the store, for the maps of internal/store/state_store.go.
use podwatcher.Prelude.{String, ◌≡◌, ◌≢◌, none, some}
use podwatcher.Dict.{Dict, get, IsDict}
use podwatcher.Store.{Store, ApplicationRecord, PodRecord}

-- no application has the empty id, which the eviction takes for "none found"
abbrev pub IsNamed : Dict ApplicationRecord → Type 0
IsNamed m = get "" m ≡ none

pub record IsValid (s : Store) : Type 0 where
  pub apps_dict : IsDict s.apps
  pub pods_dict : IsDict s.pods
  pub index_dict : IsDict s.driver_by_app
  pub named : IsNamed s.apps
  -- an application stands under its own id
  pub keyed :
      (k : String) (rec : ApplicationRecord) → get k s.apps ≡ some rec → rec.application_id ≡ k
  -- no pod record outlives its application
  pub owned :
      (k : String) (rec : PodRecord)
      → get k s.pods ≡ some rec
      → get rec.application_id s.apps ≢ none
  -- nor does an entry of the join index
  pub indexed : (a k : String) → get a s.driver_by_app ≡ some k → get a s.apps ≢ none
