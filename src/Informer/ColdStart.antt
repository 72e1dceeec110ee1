-- ===== src/Informer/ColdStart.antt =====
-- A resume from a saved position against a start without one.
use podwatcher.Prelude.{
  String, ◌≡◌, ◌≢◌, refl, sym, ap, ◌∙◌, subst, true, false, some, List, [], ◌∷◌, ◌==◌, All, eq_refl,
  ne→==false,
}
use podwatcher.Kube.{Time, Pod, Object}
use podwatcher.Handler.{on_add}
use podwatcher.Informer.Cache.{PodCache}
use podwatcher.Informer.Manager.{
  Manager, Round, Delivery, opened, set_rv, seed_pods, seed, relist, watch, watch_events,
  relist_and_watch, seed_and_watch, list_and_watch,
}
use podwatcher.Informer.Watch.{IsStale, watch_events_stale, set_rv_frame}

module _ {C S : Type 0} (cache : PodCache C) where
  seed_pods_frame :
      (tick : Pod → Time × Time) (pods : List Pod) (m n : Manager C S)
      → m.handler ≡ n.handler
      → ((seed_pods cache tick pods m).handler ≡ (seed_pods cache tick pods n).handler)
        × ((seed_pods cache tick pods m).store ≡ m.store)
  unfolding seed_pods
  seed_pods_frame tick [] m n same = (same, refl)
  seed_pods_frame tick (pod ∷ pods) m n same =
      seed_pods_frame tick pods
        (record m { handler = on_add m.handler (Object.pod pod) true (tick pod).0 (tick pod).1 })
        (record n { handler = on_add n.handler (Object.pod pod) true (tick pod).0 (tick pod).1 })
        (ap (λ h. on_add h (Object.pod pod) true (tick pod).0 (tick pod).1) same)

  seed_frame :
      (tick : Pod → Time × Time) (pods : List Pod) (m n : Manager C S)
      → m.handler ≡ n.handler
      → m.store ≡ n.store
      → ((seed cache tick pods m).handler ≡ (seed cache tick pods n).handler)
        × ((seed cache tick pods m).store ≡ cache.replace pods m.store)
        × ((seed cache tick pods n).store ≡ cache.replace pods m.store)
  unfolding seed
  seed_frame tick pods m n handler store =
      let (seeded, kept) = seed_pods_frame tick pods m n handler in
      let (back, kept_too) = seed_pods_frame tick pods n m (sym handler) in
      (seeded, ap (cache.replace pods) kept, ap (cache.replace pods) (kept_too ∙ sym store))

  resumed_round :
      (round : Round) (m : Manager C S) (pods : List Pod) (rv : String)
      → round.listing ≡ some (pods, rv)
      → m.last_rv ≢ ""
      → m.synced ≡ false
      → list_and_watch cache round m
        ≡ watch cache round.watching (record (seed cache round.tick pods m) { synced = true })
  unfolding list_and_watch seed_and_watch
  resumed_round round m pods rv listing position unsynced =
      simp (ne→==false m.last_rv "" position, unsynced)
        (ap (λ answer. seed_and_watch cache answer round m) listing)

  cold_round :
      (round : Round) (m : Manager C S) (pods : List Pod) (rv : String)
      → round.listing ≡ some (pods, rv)
      → m.last_rv ≡ ""
      → m.synced ≡ false
      → list_and_watch cache round m
        ≡ watch cache round.watching
            (record (set_rv rv (seed cache round.tick pods m)) { synced = true })
  unfolding list_and_watch relist_and_watch relist
  cold_round round m pods rv listing start unsynced =
      let at_start : (m.last_rv == "") ≡ true = cc (start, eq_refl "") in
      rw at_start (ap (λ answer. relist_and_watch cache answer round m) listing ∙ simp unsynced)

  -- A resume from a saved position whose replay tells nothing that the snapshot does not, and a start
  -- without a position, come to the same handler, with all its records, events and publications, and
  -- to the same cache.
  pub list_and_watch-cold :
      (round : Round) (m : Manager C S) (pods : List Pod) (rv : String) (replay : List Delivery)
      → round.listing ≡ some (pods, rv)
      → round.watching ≡ opened replay
      → m.last_rv ≢ ""
      → m.synced ≡ false
      → All (λ d. IsStale cache (cache.replace pods m.store) d.event) replay
      → let resumed = (list_and_watch cache round m).0 in
        let cold =
          (list_and_watch cache
            (record round { watching = opened [] })
            (record m { last_rv = "" })).0 in
        (resumed.handler ≡ cold.handler) × (resumed.store ≡ cold.store)
  unfolding watch watch_events
  list_and_watch-cold round m pods rv replay listing watching position unsynced stale =
      let n = record m { last_rv = "" } in
      let m1 = record (seed cache round.tick pods m) { synced = true } in
      let (handler, store_m, store_n) = seed_frame round.tick pods m n refl refl in
      let (cold_handler, cold_store, _, _) = set_rv_frame rv (seed cache round.tick pods n) in
      let (same_handler, same_store, _) =
        watch_events_stale cache replay m1
          (subst (λ c. All (λ d. IsStale cache c d.event) replay) (sym store_m) stale) in
      rw
        (
          resumed_round round m pods rv listing position unsynced,
          watching,
          cold_round (record round { watching = opened [] }) n pods rv listing refl unsynced,
        )
        (
          same_handler ∙ handler ∙ sym cold_handler,
          same_store ∙ store_m ∙ sym store_n ∙ sym cold_store,
        )
