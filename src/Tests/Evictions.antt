-- ===== src/Tests/Evictions.antt =====
-- Evictions at concrete inputs.
use podwatcher.Prelude.{◌≡◌, refl, true, false, ==false→ne, arith}
use podwatcher.Store.{Store}
use podwatcher.Store.Evict.{delete_app, oldest_deleted, evict_apps, evict_apps_loop, evict_pods}
use podwatcher.Store.Evict.Apps.{Evicted}
use podwatcher.Store.Evict.Rounds.{IsConverged, IsTight, evict_apps-Evicted}
use podwatcher.Store.Evict.Fuel.{is_over, evict_apps-rounds}
use podwatcher.Store.Evict.Records.{PodsEvicted, evict_pods-PodsEvicted}
use podwatcher.Store.Upsert.{record_halves}
use podwatcher.Store.Upsert.Valid.{record_halves-IsValid}
use podwatcher.Tests.Samples.{other_driver, executor, started, finished, finished-IsValid}

-- the second application is over the limit of one, and the first is deleted
unfoldable crowded : Store
unfolding finished
crowded = (record_halves finished other_driver false false 20000000).0

evicts_one : (evict_apps crowded).1 ≡ 1
unfolding crowded oldest_deleted delete_app
evicts_one = refl

evict_apps-Evicted_example :
    Evicted crowded (evict_apps crowded).0 (evict_apps crowded).1
    × IsConverged (evict_apps crowded).0
    × IsTight crowded 0 (evict_apps crowded)
unfolding crowded
evict_apps-Evicted_example = evict_apps-Evicted crowded (
    record_halves-IsValid finished finished-IsValid other_driver false false 20000000
      (==false→ne _ _ refl))

evict_apps-rounds_example :
    (evict_apps_loop 7 crowded 0 ≡ evict_apps crowded) × (is_over (evict_apps crowded).0 ≡ true)
unfolding crowded
evict_apps-rounds_example =
    evict_apps-rounds 7 crowded
      (record_halves-IsValid finished finished-IsValid other_driver false false 20000000
        (==false→ne _ _ refl))
      (omega arith)

-- the executor's record is deleted, the driver's is not
unfoldable full : Store
unfolding finished
full =
    (record_halves (record_halves started executor true false 20000000).0 other_driver true false
      21000000).0

evicts_both : (evict_pods full).1 ≡ 1
unfolding full
evicts_both = refl

evict_pods-PodsEvicted_example : PodsEvicted full (evict_pods full).0 (evict_pods full).1
unfolding full
evict_pods-PodsEvicted_example = evict_pods-PodsEvicted full (refl, (refl, (refl, tt)))
