-- ===== src/Tests/Upserts.antt =====
-- Observed pods at concrete inputs.
use podwatcher.Prelude.{
  ℕ, ◌<◌, ◌≤◌, ◌≡◌, ◌≢◌, ◌⊎◌, refl, pos, List, [], ◌∷◌, none, some, true, false, arith, ==false→ne,
}
use podwatcher.Dict.{get}
use podwatcher.Store.{ApplicationRecord}
use podwatcher.Spark.{app_id_from_pod}
use podwatcher.Store.Valid.{IsValid}
use podwatcher.Store.Application.Lifecycle.{SameLife}
use podwatcher.Store.Upsert.{upsert, upsert_pod, bootstrap_pod}
use podwatcher.Store.Query.Polls.{Observation, AreDeltas, upsert_pod-get_changes}
use podwatcher.Tests.Restarts.{started-IsClocked}
use podwatcher.Store.Upsert.Frame.{IsTracked}
use podwatcher.Store.Upsert.Feed.{
  Seen, observe_all, upsert_pod-feed, bootstrap_pod-feed, observe_all-IsWrittenOnce,
}
use podwatcher.Store.Upsert.Roles.{upsert-executor, upsert_pod-first_executor}
use podwatcher.Store.Upsert.Driven.{IsDriven, upsert-IsDriven}
use podwatcher.Store.Upsert.Valid.{upsert-IsValid}
use podwatcher.Store.Upsert.Bounds.{upsert-IsConverged, PodsConverged}
use podwatcher.Store.Evict.Rounds.{IsConverged}
use podwatcher.Tests.Samples.{
  spark_pod, driver, done_driver, executor, other_driver, started, finished, three, app_of,
  started-IsValid,
}

sample_driver-IsTracked : IsTracked driver
unfolding started
sample_driver-IsTracked = (==false→ne _ _ refl, ==false→ne _ _ refl)

done_driver-IsTracked : IsTracked done_driver
unfolding started
done_driver-IsTracked = (==false→ne _ _ refl, ==false→ne _ _ refl)

-- a driver that runs on makes no change
started_clock : started.last_changed ≢ 0
unfolding started
started_clock = omega arith

-- the driver ends, and is deleted
abbrev observations : List Observation
observations =
    record { pod = done_driver; deleted = false; now = 20000000 }
    ∷ record { pod = done_driver; deleted = true; now = 30000000 }
    ∷ []

upsert_pod-get_changes_example : AreDeltas (pos 50) observations started
upsert_pod-get_changes_example =
    upsert_pod-get_changes (pos 50) observations started
      (done_driver-IsTracked, (done_driver-IsTracked, tt)) started-IsValid started-IsClocked
      started_clock

upsert_pod-feed_example :
    ((9000000 < 9000000) × (9500000 ≤ 9000000) × (◌≡◌ {A = ℕ} 9000000 9000000))
    ⊎ ((old : ApplicationRecord) × (get "a" started.apps ≡ some old)
        × SameLife (app_of (upsert_pod started driver false 9500000) "a") old
        × (9000000 ≡ old.changed_at)
        × (◌≡◌ {A = ℕ} 9000000 9000000))
unfolding started
upsert_pod-feed_example =
    upsert_pod-feed started driver false 9500000 sample_driver-IsTracked
      (app_of (upsert_pod started driver false 9500000) "a") (omega arith) refl

bootstrap_pod-feed_example : (bootstrap_pod started driver 9500000).last_changed ≡ 9000000
unfolding started
bootstrap_pod-feed_example = (bootstrap_pod-feed started driver 9500000 sample_driver-IsTracked).0

-- the application has ended; its driver is deleted once more, and an executor observed
abbrev after_end : List Seen
after_end =
    record { pod = done_driver; deleted = true; bootstrap = false; now = 30000000 }
    ∷ record { pod = executor; deleted = false; bootstrap = true; now = 40000000 }
    ∷ []

observe_all-IsWrittenOnce_example :
    (((app_of finished "a").finished_at ≡ none)
      ⊎ ((app_of (observe_all after_end finished) "a").finished_at
          ≡ (app_of finished "a").finished_at))
    × (((app_of finished "a").deleted_at ≡ none)
        ⊎ ((app_of (observe_all after_end finished) "a").deleted_at
            ≡ (app_of finished "a").deleted_at))
unfolding finished observe_all
observe_all-IsWrittenOnce_example =
    observe_all-IsWrittenOnce after_end finished "a" (app_of finished "a")
      (app_of (observe_all after_end finished) "a") refl ((_, refl), ((_, refl), tt)) refl

upsert-executor_example :
    SameLife (app_of (upsert three executor true false 20000000) "a") (app_of three "a")
unfolding three
upsert-executor_example =
    (upsert-executor three executor true false 20000000 (app_of three "a")
      (app_of (upsert three executor true false 20000000) "a") (==false→ne _ _ refl) refl refl
      refl).0

upsert_pod-first_executor_example :
    (three.last_changed
      < (app_of
          (upsert_pod three (spark_pod "z" "executor" "e9" "Running" 1) false 20000000)
          "z").changed_at)
    × ((app_of
          (upsert_pod three (spark_pod "z" "executor" "e9" "Running" 1) false 20000000)
          "z").status
        ≡ "unknown")
unfolding three
upsert_pod-first_executor_example =
    upsert_pod-first_executor three (spark_pod "z" "executor" "e9" "Running" 1) false 20000000
      (app_of (upsert_pod three (spark_pod "z" "executor" "e9" "Running" 1) false 20000000) "z")
      (==false→ne _ _ refl) refl (omega arith) refl refl

upsert-IsDriven_example :
    IsDriven done_driver true 20000000
      (get (app_id_from_pod done_driver) three.apps)
      (app_of (upsert three done_driver true false 20000000) "a")
unfolding three
upsert-IsDriven_example =
    upsert-IsDriven three done_driver true false 20000000
      (app_of (upsert three done_driver true false 20000000) "a") (==false→ne _ _ refl) refl refl

upsert-IsValid_example : IsValid (upsert started other_driver false false 20000000)
upsert-IsValid_example = upsert-IsValid started started-IsValid other_driver false false 20000000

upsert-IsConverged_example :
    IsConverged (upsert started done_driver true false 20000000)
    × PodsConverged (upsert started done_driver true false 20000000)
upsert-IsConverged_example =
    upsert-IsConverged started done_driver true false 20000000 done_driver-IsTracked started-IsValid
