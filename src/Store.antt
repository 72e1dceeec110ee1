-- ===== src/Store.antt =====
-- internal/store/state_store.go: the records and the state of the store. Its operations are in the
-- modules below, and so are the proofs. A critical section of the mutex is one operation.
pub mod Valid
pub mod Application
pub mod PodHalf
pub mod Evict
pub mod Upsert
pub mod Query
pub mod Ingest
pub mod Persist
pub mod Sound
use podwatcher.Prelude.{ℕ, String, Bool, Option}
use podwatcher.Dict.{Dict}
use podwatcher.Kube.{Time}

pub record ApplicationRecord : Type 0 where
  pub application_id : String
  pub cluster : String
  pub spark_app_name : String
  pub spark_app_selector : String
  pub namespace : String
  pub driver_pod_name : String
  pub status : String
  pub changed_at : Time
  pub created_at : Time
  pub first_seen_at : Time
  pub last_updated_at : Time
  pub finished_at : Option Time
  pub deleted_at : Option Time

pub record PodRecord : Type 0 where
  pub uid : String
  pub cluster : String
  pub application_id : String
  pub namespace : String
  pub name : String
  pub node : String
  pub role : String
  pub executor_id : String
  pub labels : Option (Dict String)
  pub phase : String
  pub status : String
  pub created_at : Time
  pub container_started_at : Option Time
  pub container_finished_at : Option Time
  pub deletion_timestamp : Option Time
  pub first_seen_at : Time
  pub last_updated_at : Time
  pub deleted_at : Option Time

-- The embedded record, and the driver's phase and labels.
pub record ApplicationView : Type 0 where
  pub application : ApplicationRecord
  pub open application use *
  pub driver_phase : String
  pub driver_labels : Option (Dict String)

-- `mu` is left out, and `stopCh`, which only ends the flush loop.
pub record Store : Type 0 where
  pub apps : Dict ApplicationRecord
  pub pods : Dict PodRecord
  pub driver_by_app : Dict String
  pub cluster : String
  pub last_changed : Time
  pub max_apps : ℕ
  pub max_pods : ℕ
  pub file_path : String
  pub dirty : Bool
  pub over_limit_warned : Bool
