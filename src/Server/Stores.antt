-- ===== src/Server/Stores.antt =====
-- The change clock of the store that the program starts with, whatever its files hold.
use podwatcher.Prelude.{
  arith, String, Option, none, some, List, [], ◌∷◌, ◌==◌, Bool-cases, inl, inr, ℤ,
}
use podwatcher.Config.{PodsConfig}
use podwatcher.Store.{Store, ApplicationRecord, PodRecord}
use podwatcher.Store.Evict.{evict_apps, evict_pods}
use podwatcher.Store.Upsert.Frame.{evict_apps-OnlyFewer, evict_pods-apps}
use podwatcher.Store.Ingest.{ingest, import_legacy}
use podwatcher.Store.Ingest.Legacy.{read_legacy_applications, read_legacy_pods, import_legacy_files}
use podwatcher.Store.Ingest.Clock.{IsClocked, ingest-IsClocked}
use podwatcher.Store.Persist.{StateSnapshot, load, load_snapshot, empty_store, new_store}
use podwatcher.Store.Persist.Backfill.{backfill_cluster-IsClocked}
use podwatcher.Store.Persist.Restart.{empty-IsClocked}
use podwatcher.Server.{World, start_store, is_missing, loaded_snapshot}

load_snapshot-IsClocked :
    (file : Option StateSnapshot) (s : Store) → IsClocked s → IsClocked (load_snapshot file s)
unfolding load_snapshot
load_snapshot-IsClocked none s clocked = clocked
load_snapshot-IsClocked (some snapshot) s clocked =
    backfill_cluster-IsClocked (ingest snapshot.applications snapshot.pods s)
      (ingest-IsClocked snapshot.applications snapshot.pods s clocked)

new_store-IsClocked :
    (file : Option StateSnapshot) (file_path cluster : String) (max_apps max_pods : ℤ)
    → IsClocked (new_store file file_path cluster max_apps max_pods)
unfolding new_store load
new_store-IsClocked file file_path cluster max_apps max_pods =
    let fresh = empty_store file_path cluster max_apps max_pods in
    let clocked = empty-IsClocked file_path cluster max_apps max_pods in
    elim (Bool-cases (fresh.file_path == "")) [
      | inl unnamed ↦ rw unnamed clocked
      | inr named ↦ rw named (load_snapshot-IsClocked file fresh clocked)
    ]

evict-IsClocked : (s : Store) → IsClocked s → IsClocked (evict_pods (evict_apps s).0).0
evict-IsClocked s clocked k rec h =
    let (fewer, same) = evict_apps-OnlyFewer s in
    let (apps, last_changed) = evict_pods-apps (evict_apps s).0 in
    let (stamped, within) = clocked k rec (fewer k rec (rw apps at h)) in
    (stamped, omega (arith, within, same, last_changed))

import_legacy-IsClocked :
    (apps : List ApplicationRecord) (pods : List PodRecord) (s : Store)
    → IsClocked s
    → IsClocked (import_legacy apps pods s)
unfolding import_legacy
import_legacy-IsClocked [] [] s clocked = clocked
import_legacy-IsClocked [] (pod ∷ pods) s clocked =
    evict-IsClocked (ingest [] (pod ∷ pods) s) (ingest-IsClocked [] (pod ∷ pods) s clocked)
import_legacy-IsClocked (app ∷ apps) pods s clocked =
    evict-IsClocked (ingest (app ∷ apps) pods s) (ingest-IsClocked (app ∷ apps) pods s clocked)

pub start_store-IsClocked :
    (world : World) (cfg : PodsConfig) (cluster : String)
    → IsClocked (start_store world cfg cluster)
unfolding start_store import_legacy_files
start_store-IsClocked world cfg cluster =
    let file = world.state_file cfg.state_file in
    let legacy = world.legacy cfg.state_file in
    let clocked =
      new_store-IsClocked (loaded_snapshot file) cfg.state_file cluster cfg.max_applications
        cfg.max_pod_records in
    elim (Bool-cases (is_missing cfg.state_file file)) [
      | inl first ↦ rw first (
          import_legacy-IsClocked (read_legacy_applications world.decoders legacy.0)
            (read_legacy_pods world.decoders legacy.1) _ clocked)
      | inr later ↦ rw later clocked
    ]
