-- ===== src/Store/Evict.antt =====
-- internal/store/state_store.go: eviction of deleted applications with all their pods, and of
-- deleted pods, oldest first.
pub mod Oldest
pub mod Apps
pub mod Rounds
pub mod Fuel
pub mod Candidates
pub mod Pods
pub mod Records
use podwatcher.Prelude.{
  ℕ, zero, suc, ◌+◌, String, Bool, false, none, some, List, [], ◌∷◌, not, ◌&&◌, ◌||◌, ◌==◌, ltb,
  leb, is_some, length, if◌then◌else◌,
}
use podwatcher.Dict.{Dict, get, delete, delete_if}
use podwatcher.Sort.{sort_by, before}
use podwatcher.Kube.{Time}
use podwatcher.Store.{Store, ApplicationRecord, PodRecord}

unfoldable pub delete_app : String → Store → Store
delete_app app_id s = record s {
  apps = delete app_id s.apps;
  driver_by_app = delete app_id s.driver_by_app;
  pods = delete_if (λ rec. rec.application_id == app_id) s.pods;
}

-- `oldestID` and `oldestTime`
abbrev pub Oldest : Type 0
Oldest = String × Time

-- one round of the range over the applications
unfoldable pub older : Oldest → String → ApplicationRecord → Oldest
older best id rec = elim rec.deleted_at [
  | none ↦ best
  | some ts ↦ if best.0 == "" || ltb ts best.1 then (id, ts) else best
]

unfoldable pub find_oldest : Dict ApplicationRecord → Oldest → Oldest
find_oldest [] best = best
find_oldest ((id, rec) ∷ m) best = find_oldest m (older best id rec)

-- the application that the next round evicts, or ""
unfoldable pub oldest_deleted : Store → String
unfolding find_oldest older
oldest_deleted s = (find_oldest s.apps ("", 0)).0

-- the loop's rounds, with the count of evicted applications
unfoldable pub evict_apps_loop : ℕ → Store → ℕ → Store × ℕ
evict_apps_loop zero s evicted = (s, evicted)
evict_apps_loop (suc rounds) s evicted =
    let next = evict_apps_loop rounds (delete_app (oldest_deleted s) s) (evicted + 1) in
    if leb (length s.apps) s.max_apps
    then (s, evicted)
    else if oldest_deleted s == ""
    then (s, evicted)
    else next

-- Each round removes an application, so there are at most as many rounds as applications.
unfoldable pub evict_apps : Store → Store × ℕ
unfolding evict_apps_loop
evict_apps s = evict_apps_loop (length s.apps) s 0

pub record Candidate : Type 0 where
  pub key : String
  pub at : Time

-- a driver's record is protected while its application is known
unfoldable pub is_protected : Dict ApplicationRecord → PodRecord → Bool
is_protected apps rec = rec.role == "driver" && is_some (get rec.application_id apps)

unfoldable pub candidates : Dict ApplicationRecord → Dict PodRecord → List Candidate
unfolding is_protected
candidates apps [] = []
candidates apps ((k, rec) ∷ m) =
    let rest = candidates apps m in
    elim rec.deleted_at [
      | none ↦ rest
      | some t ↦ if is_protected apps rec then rest else record { key = k; at = t } ∷ rest
    ]

-- the loop over the sorted candidates, with the count of removed records
unfoldable pub evict_pods_loop : ℕ → List Candidate → Dict PodRecord → ℕ → Dict PodRecord × ℕ
evict_pods_loop max_pods [] pods removed = (pods, removed)
evict_pods_loop max_pods (cand ∷ rest) pods removed =
    let next = evict_pods_loop max_pods rest (delete cand.key pods) (removed + 1) in
    if leb (length pods) max_pods then (pods, removed) else next

unfoldable pub sorted_candidates : Store → List Candidate
unfolding candidates
sorted_candidates s = sort_by (before (λ c. c.at)) (candidates s.apps s.pods)

unfoldable pub evict_pods : Store → Store × ℕ
unfolding evict_pods_loop sorted_candidates
evict_pods s =
    if leb (length s.pods) s.max_pods
    then (record s { over_limit_warned = false }, 0)
    else let (pods, removed) = evict_pods_loop s.max_pods (sorted_candidates s) s.pods 0 in
      (record s { pods = pods; over_limit_warned = not (leb (length pods) s.max_pods) }, removed)
