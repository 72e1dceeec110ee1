-- ===== src/Tests/Informers.antt =====
-- The informer at concrete inputs, over a list of pods as the cache.
use podwatcher.Prelude.{
  ◌≡◌, refl, some, none, true, false, List, [], ◌∷◌, arith, ==false→ne, parse_int,
}
use podwatcher.Dict.{get, put}
use podwatcher.Kube.{Pod, Object, Time}
use podwatcher.Resume.{ResumeFile, HttpStore, missing, failed, answered, file_store, http_store}
use podwatcher.Informer.Cache.{index_pods}
use podwatcher.Informer.Manager.{
  Manager, Delivery, Round, WatchEvent, added, modified, bookmark, opened, error, rv_at_least,
  watch_events, list_and_watch, is_last, set_rv,
}
use podwatcher.Informer.Watch.{watch_events-position, position}
use podwatcher.Informer.Loop.{run_rounds, run_rounds-recovers, second}
use podwatcher.Informer.Trace.Rounds.{run_rounds-IsValid}
use podwatcher.Informer.ColdStart.{list_and_watch-cold}
use podwatcher.Informer.Checkpoint.{save_all, save_rv, load_rv, save_all-load_rv}
use podwatcher.Informer.Unread.{run_process, advance, checkpoint}
use podwatcher.Store.Valid.{IsValid}
use podwatcher.Tests.Samples.{started-IsValid, driver, executor, other_driver}
use podwatcher.Tests.Handlers.{short}
use podwatcher.Tests.Caches.{pod_list, pod_list-IsPodCache}

-- a manager that has seen the driver and the executor
abbrev seen : {S : Type 0} → S → Manager (List Pod) S
seen s = record {
  handler = short;
  store = driver ∷ executor ∷ [];
  resume = s;
  last_rv = "7";
  dirty = true;
  synced = true;
}

abbrev tick : Pod → Time × Time
tick pod = (9000020, 9000021)

abbrev newer_driver : Pod
newer_driver = record driver { resource_version = "12" }

abbrev deliver_at : WatchEvent → Delivery
deliver_at event = record { event = event; now = 9000030; stamp = 9000031 }

watch_events-position_example :
    (watch_events pod_list
      (deliver_at (added (Object.pod newer_driver))
        ∷ deliver_at (modified Object.other)
        ∷ deliver_at (error (Object.status 410 ""))
        ∷ deliver_at (bookmark (Object.pod other_driver))
        ∷ [])
      (seen missing)).0.last_rv
    ≡ "12"
unfolding position is_last
watch_events-position_example = watch_events-position pod_list _ (seen missing)

abbrev gone_round : Round
gone_round = record {
  listing = none;
  watching = opened (deliver_at (error (Object.status 410 "")) ∷ []);
  tick = tick;
}

abbrev list_round : Round
list_round = record {
  listing = some (newer_driver ∷ other_driver ∷ [], "20");
  watching = opened [];
  tick = tick;
}

run_rounds-recovers_example :
    (pod_list.by_key "default/e1"
        (run_rounds pod_list (gone_round ∷ list_round ∷ []) (seen missing, second)).0.store
      ≡ none)
    × ((run_rounds pod_list (gone_round ∷ list_round ∷ []) (seen missing, second)).0.last_rv ≡ "20")
    × ((run_rounds pod_list (gone_round ∷ list_round ∷ []) (seen missing, second)).0.synced ≡ true)
unfolding list_and_watch watch_events index_pods put get pod_list
run_rounds-recovers_example =
    run_rounds-recovers pod_list pod_list-IsPodCache gone_round list_round (seen missing) second
      (newer_driver ∷ other_driver ∷ []) "20" "default/e1" refl refl refl refl (==false→ne _ _ refl)

-- one round of a manager that resumes from a position, and replays what its snapshot has
abbrev resumed : Manager (List Pod) ResumeFile
resumed = record (seen missing) { store = []; synced = false }

abbrev replay : List Delivery
replay = deliver_at (bookmark (Object.pod driver)) ∷ deliver_at (added (Object.pod driver)) ∷ []

abbrev replay_round : Round
replay_round = record list_round { listing = some (driver ∷ [], "20"); watching = opened replay }

list_and_watch-cold_example :
    ((list_and_watch pod_list replay_round resumed).0.handler
      ≡ (list_and_watch pod_list
          (record replay_round { watching = opened [] })
          (record resumed { last_rv = "" })).0.handler)
    × ((list_and_watch pod_list replay_round resumed).0.store
        ≡ (list_and_watch pod_list
            (record replay_round { watching = opened [] })
            (record resumed { last_rv = "" })).0.store)
unfolding pod_list rv_at_least parse_int index_pods put get
list_and_watch-cold_example =
    list_and_watch-cold pod_list replay_round resumed (driver ∷ []) "20" replay refl refl
      (==false→ne _ _ refl) refl (tt, ((driver, refl, refl), tt))

run_rounds-IsValid_example :
    IsValid
      (run_rounds pod_list
        (gone_round ∷ list_round ∷ [])
        (seen missing, second)).0.handler.state_store
unfolding short
run_rounds-IsValid_example =
    (run_rounds-IsValid pod_list (gone_round ∷ list_round ∷ []) (seen missing) second
      started-IsValid (omega arith)).0

save_all-load_rv_example :
    ((save_all (some file_store) (failed ∷ failed ∷ answered 0 none ∷ []) (seen missing)).dirty
      ≡ false)
    × ((load_rv (some file_store) (answered 0 none) (record (seen missing) {
      resume =
          (save_all
            (some file_store)
            (failed ∷ failed ∷ answered 0 none ∷ [])
            (seen missing)).resume;
    })).last_rv
        ≡ "7")
save_all-load_rv_example =
    save_all-load_rv 2 0 0 none none (seen missing) (seen missing) refl (==false→ne _ _ refl)

abbrev moved : Manager (List Pod) HttpStore
moved = run_process short [] (answered 404 none) [] (advance "7" ∷ checkpoint failed ∷ [])

moved_puts : (save_rv (some http_store) (answered 200 none) moved).resume.puts ≡ "7" ∷ "7" ∷ []
unfolding save_rv run_process http_store set_rv
moved_puts = refl
