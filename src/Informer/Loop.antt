-- ===== src/Informer/Loop.antt =====
-- The loop of rounds: its waits, and its recovery from a position that is gone.
use podwatcher.Prelude.{
  ℕ, ◌*◌, ◌≤◌, String, ◌≡◌, ◌≢◌, refl, ap, ◌∙◌, true, some, List, [], ◌∷◌, ◌==◌, ltb, arith,
  if◌then◌else◌, eq_refl, ne→==false,
}
use podwatcher.Dict.{get}
use podwatcher.Kube.{Pod}
use podwatcher.Informer.Cache.{PodCache, IsPodCache, index_pods}
use podwatcher.Informer.Manager.{
  Manager, End, Round, ended, gone, failure, opened, set_rv, clear_rv, relist, watch, watch_events,
  list_and_watch, relist_and_watch, reconcile,
}
use podwatcher.Informer.Watch.{set_rv_frame}
use podwatcher.Informer.Reconcile.{relisted, reconcile-by_key}

-- time.Second
abbrev pub second : ℕ
second = 1000000000

-- twice the wait, and no more than 30s
unfoldable pub longer : ℕ → ℕ
longer backoff =
    if ltb backoff (30 * second)
    then (if ltb (30 * second) (backoff * 2) then 30 * second else backoff * 2)
    else backoff

-- the manager and the wait after the end of a round
unfoldable pub settle : {C S : Type 0} → Manager C S × End → ℕ → Manager C S × ℕ
unfolding longer clear_rv
settle (m, gone) backoff = (clear_rv m, second)
settle (m, failure) backoff = (m, longer backoff)
settle (m, ended) backoff = (m, second)

module _ {C S : Type 0} (cache : PodCache C) where
  unfoldable pub run_rounds : List Round → Manager C S × ℕ → Manager C S × ℕ
  unfolding settle list_and_watch
  run_rounds [] state = state
  run_rounds (round ∷ rounds) (m, backoff) =
      run_rounds rounds (settle (list_and_watch cache round m) backoff)

  settle_bounds :
      (m : Manager C S) (end : End) (backoff : ℕ)
      → second ≤ backoff
      → backoff ≤ 30 * second
      → (second ≤ (settle (m, end) backoff).1) × ((settle (m, end) backoff).1 ≤ 30 * second)
  unfolding settle longer
  settle_bounds m gone backoff low high = (omega arith, omega arith)
  settle_bounds m failure backoff low high = (ground arith, ground arith)
  settle_bounds m ended backoff low high = (omega arith, omega arith)

  -- Whatever the rounds meet, the wait after each is between one and thirty seconds if it was so
  -- before.
  pub run_rounds-backoff :
      (rounds : List Round) (m : Manager C S) (backoff : ℕ)
      → second ≤ backoff
      → backoff ≤ 30 * second
      → (second ≤ (run_rounds rounds (m, backoff)).1)
        × ((run_rounds rounds (m, backoff)).1 ≤ 30 * second)
  unfolding run_rounds
  run_rounds-backoff [] m backoff low high = (low, high)
  run_rounds-backoff (round ∷ rounds) m backoff low high =
      let (after, end) = list_and_watch cache round m in
      let (still_low, still_high) = settle_bounds after end backoff low high in
      run_rounds-backoff rounds (settle (after, end) backoff).0 (settle (after, end) backoff).1
        still_low still_high

settle_gone :
    {C S : Type 0} (result : Manager C S × End) (backoff : ℕ)
    → result.1 ≡ gone
    → settle result backoff ≡ (clear_rv result.0, second)
unfolding settle
settle_gone (m, gone) backoff h = refl
settle_gone (m, failure) backoff h = absurd (cc)
settle_gone (m, ended) backoff h = absurd (cc)

module _ {C S : Type 0} (cache : PodCache C) where
  relist_and_watch_synced :
      (round : Round) (m : Manager C S) (pods : List Pod) (rv : String)
      → m.synced ≡ true
      → round.watching ≡ opened []
      → relist_and_watch cache (some (pods, rv)) round m
        ≡ (record (set_rv rv (reconcile cache round.tick pods m)) { synced = true }, ended)
  unfolding relist_and_watch relist watch watch_events
  relist_and_watch_synced round m pods rv synced watching = simp (synced, watching)

  relist_round :
      (round : Round) (m : Manager C S) (pods : List Pod) (rv : String)
      → m.last_rv ≡ ""
      → m.synced ≡ true
      → round.listing ≡ some (pods, rv)
      → round.watching ≡ opened []
      → list_and_watch cache round m
        ≡ (record (set_rv rv (reconcile cache round.tick pods m)) { synced = true }, ended)
  unfolding list_and_watch
  relist_round round m pods rv cleared synced listing watching =
      let at_start : (m.last_rv == "") ≡ true = cc (cleared, eq_refl "") in
      rw at_start (
        ap (λ answer. relist_and_watch cache answer round m) listing
        ∙ relist_and_watch_synced round m pods rv synced watching)

module _ {C S : Type 0} (cache : PodCache C) (laws : IsPodCache cache) where
  -- After a round of a synced manager that ends with a position that is gone, a round whose list is
  -- answered with pods and a version, and whose watch closes without an event, leaves the cache with
  -- the listed pods in the newest known version and no other, the position at the list's version,
  -- and the manager synced.
  pub run_rounds-recovers :
      (first next : Round) (m : Manager C S) (backoff : ℕ) (pods : List Pod) (rv k : String)
      → (list_and_watch cache first m).1 ≡ gone
      → (list_and_watch cache first m).0.synced ≡ true
      → next.listing ≡ some (pods, rv)
      → next.watching ≡ opened []
      → rv ≢ ""
      → let state = (run_rounds cache (first ∷ next ∷ []) (m, backoff)).0 in
        (cache.by_key k state.store
          ≡ relisted
              (get k (index_pods cache.key_of pods []))
              (cache.by_key k (list_and_watch cache first m).0.store))
        × (state.last_rv ≡ rv)
        × (state.synced ≡ true)
  unfolding run_rounds clear_rv settle
  run_rounds-recovers first next m backoff pods rv k end synced listing watching some_rv =
      let result = list_and_watch cache first m in
      let cleared = clear_rv result.0 in
      let merged = reconcile cache next.tick pods cleared in
      let (handler, store, synced_still, last_rv) = set_rv_frame rv merged in
      let rounds : (run_rounds cache (first ∷ next ∷ []) (m, backoff)).0
          ≡ record (set_rv rv merged) { synced = true } =
        ap (λ state. (run_rounds cache (next ∷ []) state).0) (settle_gone result backoff end)
        ∙ ap (λ end_of. (settle end_of second).0)
            (relist_round cache next cleared pods rv refl synced listing watching) in
      rw rounds (
        ap (cache.by_key k) store ∙ reconcile-by_key cache laws next.tick pods cleared k,
        last_rv ∙ rw (ne→==false rv "" some_rv) refl,
        refl,
      )
