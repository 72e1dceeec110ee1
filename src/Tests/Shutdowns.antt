-- ===== src/Tests/Shutdowns.antt =====
-- A shutdown and a start, the routes and the pods of the tests, at concrete inputs.
use podwatcher.Prelude.{◌≡◌, refl, true, none, some, List, [], ◌∷◌, pos, ==false→ne, ◌*◌}
use podwatcher.Dict.{get}
use podwatcher.Duration.{second}
use podwatcher.Kube.{Pod}
use podwatcher.Resume.{ResumeFile, answered, file_store}
use podwatcher.Handler.{Publisher, new_handler}
use podwatcher.Store.{Store}
use podwatcher.Store.Ingest.Clock.{IsClocked}
use podwatcher.Store.Persist.{Outcome, new_store}
use podwatcher.Store.Persist.Backfill.{mapped, filled_app, filled_pod}
use podwatcher.Informer.Manager.{Manager}
use podwatcher.Informer.Lifecycle.{new_manager, start_manager}
use podwatcher.Informer.Settings.{with_flush_interval, new_manager_with_filter}
use podwatcher.Server.Shutdown.{shut_down, shut_down-start_manager}
use podwatcher.Server.Routes.{routes, dispatch, get_application}
use podwatcher.Tests.Samples.{started}
use podwatcher.Tests.Restarts.{started-IsSound}

unfoldable seen : Manager (List Pod) ResumeFile
unfolding new_manager new_handler
seen = record (new_manager (new_handler started Publisher.no_publisher) [] ResumeFile.missing) {
  last_rv = "7";
  dirty = true;
}

abbrev restarted : Store → Manager (List Pod) ResumeFile
restarted t =
    (start_manager (some file_store) (answered 200 none) [] (
      new_manager (new_handler t Publisher.no_publisher) []
        (shut_down (some file_store) (answered 200 none) Outcome.saved (seen, none)).0.resume)).0

abbrev reloaded : Store
reloaded =
    new_store (shut_down (some file_store) (answered 200 none) Outcome.saved (seen, none)).1
      "state.json" "west" (pos 5) (pos 5)

shut_down-start_manager_example :
    ((restarted reloaded).last_rv ≡ "7")
    × (get "a" (restarted reloaded).handler.state_store.apps
        ≡ mapped (filled_app "west") (get "a" started.apps))
    × (get "a" (restarted reloaded).handler.state_store.pods
        ≡ mapped (filled_pod "west") (get "a" started.pods))
    × IsClocked (restarted reloaded).handler.state_store
unfolding seen started
shut_down-start_manager_example =
    shut_down-start_manager seen none 200 200 none none [] [] Publisher.no_publisher "west" (pos 5)
      (pos 5) "a" started-IsSound (==false→ne _ _ refl) refl refl (==false→ne _ _ refl)

found :
    dispatch routes ("api" ∷ "v1" ∷ "applications" ∷ "a" ∷ [])
    ≡ some (get_application, ("applicationId", "a") ∷ [])
unfolding dispatch
found = refl

not_found : dispatch routes ("api" ∷ "v1" ∷ "pods" ∷ "default" ∷ "" ∷ []) ≡ none
unfolding dispatch
not_found = refl

filtered :
    new_manager_with_filter "spark" (with_flush_interval (pos (5 * second)) ∷ [])
    ≡ record { namespace = "spark"; flush_interval = pos 5000000000 }
unfolding new_manager_with_filter with_flush_interval
filtered = refl
