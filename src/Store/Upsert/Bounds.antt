-- ===== src/Store/Upsert/Bounds.antt =====
-- The limits after an observed pod.
use podwatcher.Prelude.{◌≤◌, String, ◌≡◌, ap, ◌⊎◌, Bool, some, length}
use podwatcher.Dict.{get}
use podwatcher.Kube.{Time, Pod}
use podwatcher.Store.{Store, PodRecord}
use podwatcher.Store.Valid.{IsValid}
use podwatcher.Store.Evict.{evict_apps, evict_pods}
use podwatcher.Store.Evict.Candidates.{IsReclaimable}
use podwatcher.Store.Evict.Rounds.{IsConverged, evict_apps-Evicted, evict_apps-IsValid}
use podwatcher.Store.Evict.Records.{evict_pods-PodsEvicted}
use podwatcher.Store.Upsert.{record_halves, record_and_evict, upsert}
use podwatcher.Store.Upsert.Frame.{IsTracked, upsert-tracked}
use podwatcher.Store.Upsert.Valid.{record_halves-IsValid}

-- within the limit of pod records, or with nothing to reclaim
abbrev pub PodsConverged : Store → Type 0
PodsConverged t =
    (length t.pods ≤ t.max_pods)
    ⊎ ((k : String) (r : PodRecord) (u : Time) → get k t.pods ≡ some r → ¬ IsReclaimable t.apps r u)

evict_pods-IsConverged :
    (s : Store)
    → IsValid s
    → IsConverged s
    → IsConverged (evict_pods s).0 × PodsConverged (evict_pods s).0
evict_pods-IsConverged s v c =
    let e = evict_pods-PodsEvicted s v.pods_dict in
    let apps = ap (λ (t : Store). t.apps) e.rest in
    let max_apps = ap (λ (t : Store). t.max_apps) e.rest in
    let max_pods = ap (λ (t : Store). t.max_pods) e.rest in
    (rw (apps, max_apps) c, rw (apps, max_pods) e.fits)

-- After an observed pod of a valid store, the applications are within their limit or none of them
-- is deleted, and the pod records are within theirs or each of them is live or a known
-- application's driver.
pub upsert-IsConverged :
    (s : Store) (pod : Pod) (deleted bootstrap : Bool) (now : Time)
    → IsTracked pod
    → IsValid s
    → IsConverged (upsert s pod deleted bootstrap now)
      × PodsConverged (upsert s pod deleted bootstrap now)
unfolding record_and_evict
upsert-IsConverged s pod deleted bootstrap now tracked v =
    let halves = (record_halves s pod deleted bootstrap now).0 in
    let v1 = record_halves-IsValid s v pod deleted bootstrap now tracked.0 in
    rw (upsert-tracked s pod deleted bootstrap now tracked) (
      evict_pods-IsConverged (evict_apps halves).0 (evict_apps-IsValid halves v1)
        (evict_apps-Evicted halves v1).1)
