-- ===== src/Store/Persist.antt =====
-- internal/store/state_store.go: the state file. Its text is JSON of the standard library and is
-- modelled by the snapshot that it encodes.
pub mod Backfill
pub mod Flush
pub mod Reload
pub mod Lives
pub mod Restart
use podwatcher.Prelude.{
  ℕ, zero, suc, String, Bool, true, false, Option, none, some, List, [], ◌∷◌, ◌==◌, ◌||◌, ℤ, pos,
  negsuc, if◌then◌else◌,
}
use podwatcher.Dict.{Dict, values}
use podwatcher.Store.{Store, ApplicationRecord, PodRecord}
use podwatcher.Store.Ingest.{ingest}

pub record StateSnapshot : Type 0 where
  pub version : ℕ
  pub applications : List ApplicationRecord
  pub pods : List PodRecord

-- What happens to one save outside the program; each failure leaves the state file as it was.
pub data Outcome : Type 0 where
  mkdir_failed marshal_failed write_failed rename_failed saved : Outcome

unfoldable pub snapshot_of : Store → StateSnapshot
snapshot_of s = record { version = 1; applications = values s.apps; pods = values s.pods }

abbrev pub written : Outcome → StateSnapshot → Option StateSnapshot → Option StateSnapshot
written saved snapshot file = some snapshot
written _ snapshot file = file

-- the store and the state file after a save
unfoldable pub save : Outcome → Store → Option StateSnapshot → Store × Option StateSnapshot
unfolding snapshot_of
save outcome s file =
    if s.file_path == ""
    then (s, file)
    else if s.dirty
    then (record s { dirty = false }, written outcome (snapshot_of s) file)
    else (s, file)

-- `if rec.Cluster == "" { rec.Cluster = s.cluster }` over a map, and whether that changed anything
unfoldable pub backfill_apps : String → Dict ApplicationRecord → Dict ApplicationRecord × Bool
backfill_apps cluster [] = ([], false)
backfill_apps cluster ((k, rec) ∷ m) =
    let (rest, changed) = backfill_apps cluster m in
    if rec.cluster == ""
    then ((k, record rec { cluster = cluster }) ∷ rest, true)
    else ((k, rec) ∷ rest, changed)

unfoldable pub backfill_pods : String → Dict PodRecord → Dict PodRecord × Bool
backfill_pods cluster [] = ([], false)
backfill_pods cluster ((k, rec) ∷ m) =
    let (rest, changed) = backfill_pods cluster m in
    if rec.cluster == ""
    then ((k, record rec { cluster = cluster }) ∷ rest, true)
    else ((k, rec) ∷ rest, changed)

unfoldable pub backfill_cluster : Store → Store × Bool
unfolding backfill_apps backfill_pods
backfill_cluster s =
    if s.cluster == ""
    then (s, false)
    else let (apps, apps_changed) = backfill_apps s.cluster s.apps in
      let (pods, pods_changed) = backfill_pods s.cluster s.pods in
      (record s { apps = apps; pods = pods }, apps_changed || pods_changed)

unfoldable pub load_snapshot : Option StateSnapshot → Store → Store
unfolding backfill_cluster
load_snapshot none s = s
load_snapshot (some snapshot) s =
    let (s1, changed) = backfill_cluster (ingest snapshot.applications snapshot.pods s) in
    record s1 { dirty = s1.dirty || changed }

-- A file that is missing or does not parse loads nothing.
unfoldable pub load : Option StateSnapshot → Store → Store
unfolding load_snapshot
load file s = if s.file_path == "" then s else load_snapshot file s

-- a limit that is not positive is the default
abbrev pub default_max : ℤ → ℕ
default_max (pos zero) = 10000
default_max (pos (suc n)) = suc n
default_max (negsuc n) = 10000

-- the store with no records, WithCluster applied
unfoldable pub empty_store : String → String → ℤ → ℤ → Store
empty_store file_path cluster max_apps max_pods = record {
  apps = [];
  pods = [];
  driver_by_app = [];
  cluster = cluster;
  last_changed = 0;
  max_apps = default_max max_apps;
  max_pods = default_max max_pods;
  file_path = file_path;
  dirty = false;
  over_limit_warned = false;
}

unfoldable pub new_store : Option StateSnapshot → String → String → ℤ → ℤ → Store
unfolding load empty_store
new_store file file_path cluster max_apps max_pods =
    load file (empty_store file_path cluster max_apps max_pods)
