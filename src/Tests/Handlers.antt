-- ===== src/Tests/Handlers.antt =====
-- The handler and the resume stores at concrete inputs.
use podwatcher.Prelude.{◌≡◌, refl, none, true, false, List, [], ◌∷◌, arith, take}
use podwatcher.Kube.{Object}
use podwatcher.Store.Valid.{IsValid}
use podwatcher.Handler.{Handler, Publisher, new_handler, event_of}
use podwatcher.Handler.Inputs.{Input, run, run-IsValid}
use podwatcher.Handler.Buffer.{run-events, noted}
use podwatcher.Resume.{answered, failed, new_http_store}
use podwatcher.Resume.Guard.{load_call, save_call, Call, run_calls, has_baseline, run_calls-guarded}
use podwatcher.Tests.Samples.{driver, done_driver, executor, started, started-IsValid}

-- a handler that keeps two events
unfoldable pub short : Handler
unfolding started new_handler
short = record (new_handler started Publisher.applications_too) { max_events = 2 }

abbrev inputs : List Input
inputs =
    Input.add (Object.pod driver) true 9000001 9000002
    ∷ Input.add (Object.pod executor) false 9000003 9000004
    ∷ Input.update (Object.pod driver) (Object.pod done_driver) 9000005 9000006
    ∷ Input.remove (Object.tombstone (Object.pod done_driver)) 9000007 9000008
    ∷ []

run-events_example :
    (run short inputs).events
    ≡ event_of "DELETED" done_driver 9000008 ∷ event_of "MODIFIED" done_driver 9000006 ∷ []
unfolding short noted take started
run-events_example = run-events inputs short (omega arith)

run-IsValid_example : IsValid (run short inputs).state_store
unfolding short
run-IsValid_example = run-IsValid inputs short started-IsValid

abbrev unread : List Call
unread = load_call (answered 503 none) ∷ save_call (answered 200 none) "12" ∷ load_call failed ∷ []

run_calls-guarded_example :
    ((run_calls unread new_http_store).puts ≡ [])
    × ((run_calls unread new_http_store).baseline ≡ false)
unfolding new_http_store has_baseline
run_calls-guarded_example = run_calls-guarded unread new_http_store refl refl
