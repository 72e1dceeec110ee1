-- ===== src/Server/Shutdown.antt =====
-- cmd/server/main.go: setupKlog, and main from the signal on. The HTTP server's shutdown, and what waits
-- for it, change none of the state.
use podwatcher.Prelude.{
  String, ◌≡◌, ◌≢◌, refl, ap, Bool, true, false, Option, some, List, [], ◌∷◌, not, ℤ, pos, geb, ℕ,
  if◌then◌else◌, Bool-cases, inl, inr,
}
use podwatcher.Checked.{Checked, ok, refuse, ◌>>◌}
use podwatcher.Config.{LogConfig}
use podwatcher.Dict.{get}
use podwatcher.Resume.{ResumeStore, Reply, answered, ResumeFile, envelope, file_store, file_load}
use podwatcher.Handler.{Publisher, new_handler}
use podwatcher.Store.Ingest.Clock.{IsClocked}
use podwatcher.Store.Sound.{IsSound}
use podwatcher.Store.Persist.{StateSnapshot, Outcome, new_store}
use podwatcher.Store.Persist.Backfill.{mapped, filled_app, filled_pod}
use podwatcher.Store.Persist.Flush.{stop}
use podwatcher.Store.Persist.Reload.{IsSound-IsSaveable}
use podwatcher.Store.Persist.Restart.{save-new_store}
use podwatcher.Informer.Manager.{Manager}
use podwatcher.Informer.Checkpoint.{load_rv, file_save_ok}
use podwatcher.Informer.Lifecycle.{Poll, new_manager, start_manager, stop_manager}

-- What the set-up of the log meets: the directory of a file, whether it can be made, whether klog
-- takes a flag, and strconv.Itoa.
pub record LogWorld : Type 0 where
  pub dir_of : String → String
  pub mkdir_all : String → Bool
  pub takes_flag : String → String → Bool
  pub itoa : ℤ → String

pub data LogError : Type 0 where
  no_directory : LogError
  bad_flag : String → LogError

-- a number of files that is not positive is 3
abbrev pub default_max_num : LogConfig → LogConfig
default_max_num cfg = if geb (pos 0) cfg.max_num then record cfg { max_num = pos 3 } else cfg

-- flag.Set in turn
unfoldable pub set_flags : LogWorld → List (String × String) → Checked LogError (Unit {0})
set_flags world [] = ok tt
set_flags world ((name, value) ∷ flags) =
    refuse (not (world.takes_flag name value)) (bad_flag name) >> set_flags world flags

-- `setupKlog`: the flags that it sets
unfoldable pub setup_klog : LogWorld → LogConfig → Checked LogError (List (String × String))
unfolding set_flags
setup_klog world cfg = do
  let log_cfg = default_max_num cfg
  let flags =
      ("log_file", log_cfg.file)
      ∷ ("log_file_max_size", world.itoa log_cfg.max_size)
      ∷ ("logtostderr", "false")
      ∷ ("alsologtostderr", "true")
      ∷ []
  refuse (not (world.mkdir_all (world.dir_of log_cfg.file))) no_directory
  set_flags world flags
  ok flags

-- the manager with its handler and store, and the state file, when the signal comes
abbrev pub Running : Type 0 → Type 0 → Type 0
Running C S = Manager C S × Option StateSnapshot

-- `stateStore.Stop()`
unfoldable pub stores_stopped :
    {C S : Type 0} → Outcome → Option StateSnapshot → Manager C S → Running C S
unfolding stop
stores_stopped outcome file m =
    let (s, saved) = stop outcome (m.handler.state_store, file) in
    (record m { handler = record m.handler { state_store = s } }, saved)

-- `podInformerManager.Stop()`, and then `stateStore.Stop()`
unfoldable pub shut_down :
    {C S : Type 0} → Option (ResumeStore S) → Reply → Outcome → Running C S → Running C S
unfolding stop_manager stores_stopped
shut_down resume reply outcome (m, file) = stores_stopped outcome file (stop_manager resume reply m)

-- The number of old log files changes no flag.
pub setup_klog-max_num :
    (world : LogWorld) (cfg : LogConfig) (max_num : ℤ)
    → setup_klog world (record cfg { max_num = max_num }) ≡ setup_klog world cfg
unfolding setup_klog
setup_klog-max_num world cfg max_num = elim (Bool-cases (geb (pos 0) max_num)) [
  | inl few ↦ elim (Bool-cases (geb (pos 0) cfg.max_num)) [
    | inl old_few ↦ rw (few, old_few) refl
    | inr old_many ↦ simp (few, old_many) refl
  ]
  | inr many ↦ elim (Bool-cases (geb (pos 0) cfg.max_num)) [
    | inl old_few ↦ simp (many, old_few) refl
    | inr old_many ↦ simp (many, old_many) refl
  ]
]

-- The rest of a shutdown, of which the save of the position did not fail.
shut_down_saved :
    {C : Type 0} (code : ℕ) (body : Option String) (outcome : Outcome) (m : Manager C ResumeFile)
    (file : Option StateSnapshot)
    → m.dirty ≡ true
    → m.last_rv ≢ ""
    → shut_down (some file_store) (answered code body) outcome (m, file)
      ≡ stores_stopped outcome file (record m { resume = envelope m.last_rv; dirty = false })
unfolding shut_down stop_manager
shut_down_saved code body outcome m file changed rv =
    ap (stores_stopped outcome file) (file_save_ok code body m changed rv)

-- A shutdown of which no save fails, and a start with the same files: the watch resumes at the position
-- that the manager had, and the new store has, under every key, the application and the pod record of
-- the old one with its own cluster filled in where there was none, and no application with a time of
-- change after its last change. The store was sound and had a state file and something to save, and
-- the manager had a position to save.
pub shut_down-start_manager :
    {C : Type 0} (m : Manager C ResumeFile) (file : Option StateSnapshot) (code code_later : ℕ)
    (body body_later : Option String) (polls : List Poll) (cache : C) (publishes : Publisher)
    (cluster : String) (max_apps max_pods : ℤ) (k : String)
    → IsSound m.handler.state_store
    → m.handler.state_store.file_path ≢ ""
    → m.handler.state_store.dirty ≡ true
    → m.dirty ≡ true
    → m.last_rv ≢ ""
    → let old = m.handler.state_store in
      let (stopped, saved) =
        shut_down (some file_store) (answered code body) Outcome.saved (m, file) in
      let t = new_store saved old.file_path cluster max_apps max_pods in
      let (resumed, started) =
        start_manager
          (some file_store)
          (answered code_later body_later)
          polls
          (new_manager (new_handler t publishes) cache stopped.resume) in
      (resumed.last_rv ≡ m.last_rv)
      × (get k resumed.handler.state_store.apps ≡ mapped (filled_app cluster) (get k old.apps))
      × (get k resumed.handler.state_store.pods ≡ mapped (filled_pod cluster) (get k old.pods))
      × IsClocked resumed.handler.state_store
unfolding stores_stopped stop start_manager load_rv new_manager new_handler file_store file_load
shut_down-start_manager m file code code_later body body_later polls cache publishes cluster
      max_apps max_pods k sound path dirty changed rv =
    let old = m.handler.state_store in
    let ended = shut_down_saved code body Outcome.saved m file changed rv in
    let (apps, pods, clocked) =
      save-new_store old file cluster max_apps max_pods k (IsSound-IsSaveable old sound) path
        dirty in
    rw ended (refl, apps, pods, clocked)
