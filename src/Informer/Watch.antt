-- ===== src/Informer/Watch.antt =====
-- What a watch does to the cache, the handler and the watch position.
use podwatcher.Prelude.{
  String, ◌≡◌, refl, sym, ap, subst, ◌∙◌, true, false, Option, none, some, List, [], ◌∷◌, ◌==◌,
  arith, eq_iff, if◌then◌else◌, inl, inr, Bool-cases, All,
}
use podwatcher.Kube.{Time, Pod, Object}
use podwatcher.Handler.{pod_from_object}
use podwatcher.Informer.Cache.{PodCache}
use podwatcher.Informer.Manager.{
  Manager, WatchEvent, Delivery, bookmark, added, modified, deleted, error, rv_at_least, set_rv,
  merge_added, merge_modified, discover, refresh, forget, on_added, on_modified, on_deleted,
  watch_events, deliver, is_last, ended,
}

-- An event that tells nothing new: a bookmark, or a pod of which the cache has a version at least
-- as new.
abbrev pub IsStale : {C : Type 0} → PodCache C → C → WatchEvent → Type 0
IsStale cache c (bookmark obj) = Unit
IsStale cache c (added (Object.pod pod)) =
    (old : Pod) × (cache.lookup pod c ≡ some old)
    × (rv_at_least old.resource_version pod.resource_version ≡ true)
IsStale cache c (modified (Object.pod pod)) =
    (old : Pod) × (cache.lookup pod c ≡ some old)
    × (rv_at_least old.resource_version pod.resource_version ≡ true)
IsStale cache c _ = ⊥

-- the version that an event moves the position to, and "" for none
unfoldable pub event_rv : WatchEvent → String
unfolding pod_from_object
event_rv (bookmark (Object.pod pod)) = pod.resource_version
event_rv (added (Object.pod pod)) = pod.resource_version
event_rv (modified (Object.pod pod)) = pod.resource_version
event_rv (deleted obj) = elim (pod_from_object obj) [ none ↦ "" | some pod ↦ pod.resource_version ]
event_rv _ = ""

-- the last version that is not empty, of the events up to the end
unfoldable pub position : List Delivery → String → String
unfolding event_rv
position [] rv = rv
position (d ∷ ds) rv =
    let rest = position ds (if event_rv d.event == "" then rv else event_rv d.event) in
    if is_last d.event then rv else rest

stale_goes_on :
    {C : Type 0} (cache : PodCache C) (event : WatchEvent) (c : C)
    → IsStale cache c event
    → is_last event ≡ false
unfolding is_last
stale_goes_on cache (bookmark obj) c stale = refl
stale_goes_on cache (added obj) c stale = refl
stale_goes_on cache (modified obj) c stale = refl
stale_goes_on cache (deleted obj) c stale = absurd stale
stale_goes_on cache (error obj) c stale = absurd stale

module _ {C S : Type 0} where
  pub set_rv_frame :
      (rv : String) (m : Manager C S)
      → ((set_rv rv m).handler ≡ m.handler)
        × ((set_rv rv m).store ≡ m.store)
        × ((set_rv rv m).synced ≡ m.synced)
        × ((set_rv rv m).last_rv ≡ (if rv == "" then m.last_rv else rv))
  unfolding set_rv
  set_rv_frame rv m = ground (arith, eq_iff rv m.last_rv)

module _ {C S : Type 0} (cache : PodCache C) where
  merge_added-last_rv :
      (old : Option Pod) (pod : Pod) (now stamp : Time) (m : Manager C S)
      → (merge_added cache old pod now stamp m).last_rv ≡ m.last_rv
  unfolding merge_added discover refresh
  merge_added-last_rv none pod now stamp m = refl
  merge_added-last_rv (some old) pod now stamp m = ground arith

  merge_modified-last_rv :
      (old : Option Pod) (pod : Pod) (now stamp : Time) (m : Manager C S)
      → (merge_modified cache old pod now stamp m).last_rv ≡ m.last_rv
  unfolding merge_modified refresh
  merge_modified-last_rv none pod now stamp m = refl
  merge_modified-last_rv (some old) pod now stamp m = ground arith

  deliver-last_rv :
      (event : WatchEvent) (now stamp : Time) (m : Manager C S)
      → (deliver cache event now stamp m).last_rv
        ≡ (if event_rv event == "" then m.last_rv else event_rv event)
  unfolding deliver event_rv on_added on_modified on_deleted pod_from_object forget
  deliver-last_rv (bookmark (Object.pod pod)) now stamp m = (set_rv_frame pod.resource_version m).3
  deliver-last_rv (bookmark _) now stamp m = refl
  deliver-last_rv (added (Object.pod pod)) now stamp m =
      let old = cache.lookup pod m.store in
      (set_rv_frame pod.resource_version (merge_added cache old pod now stamp m)).3
      ∙ ap (λ rv. if pod.resource_version == "" then rv else pod.resource_version)
          (merge_added-last_rv old pod now stamp m)
  deliver-last_rv (added _) now stamp m = refl
  deliver-last_rv (modified (Object.pod pod)) now stamp m =
      let old = cache.lookup pod m.store in
      (set_rv_frame pod.resource_version (merge_modified cache old pod now stamp m)).3
      ∙ ap (λ rv. if pod.resource_version == "" then rv else pod.resource_version)
          (merge_modified-last_rv old pod now stamp m)
  deliver-last_rv (modified _) now stamp m = refl
  deliver-last_rv (deleted (Object.pod pod)) now stamp m = (set_rv_frame pod.resource_version _).3
  deliver-last_rv (deleted (Object.tombstone (Object.pod pod))) now stamp m =
      (set_rv_frame pod.resource_version _).3
  deliver-last_rv (deleted _) now stamp m = refl
  deliver-last_rv (error obj) now stamp m = refl

  -- After a watch the position is the last version that is not empty among its events, up to the
  -- event that ends it; an object that is no pod never moves it.
  pub watch_events-position :
      (ds : List Delivery) (m : Manager C S)
      → (watch_events cache ds m).0.last_rv ≡ position ds m.last_rv
  unfolding watch_events position
  watch_events-position [] m = refl
  watch_events-position (d ∷ ds) m =
      let next = deliver cache d.event d.now d.stamp m in
      let rest = watch_events-position ds next in
      let moved = ap (position ds) (deliver-last_rv d.event d.now d.stamp m) in
      elim (Bool-cases (is_last d.event)) [
        | inl last ↦ rw last refl
        | inr more ↦ rw more (rest ∙ moved)
      ]

  deliver_stale :
      (event : WatchEvent) (now stamp : Time) (m : Manager C S)
      → IsStale cache m.store event
      → ((deliver cache event now stamp m).handler ≡ m.handler)
        × ((deliver cache event now stamp m).store ≡ m.store)
  unfolding deliver on_added on_modified merge_added merge_modified
  deliver_stale (bookmark (Object.pod pod)) now stamp m stale =
      let (handler, store, _, _) = set_rv_frame pod.resource_version m in (handler, store)
  deliver_stale (bookmark _) now stamp m stale = (refl, refl)
  deliver_stale (added (Object.pod pod)) now stamp m (old, there, same) =
      let (handler, store, _, _) = set_rv_frame pod.resource_version m in
      rw (there, same) (handler, store)
  deliver_stale (modified (Object.pod pod)) now stamp m (old, there, same) =
      let (handler, store, _, _) = set_rv_frame pod.resource_version m in
      rw (there, same) (handler, store)
  deliver_stale (added (Object.tombstone _)) now stamp m stale = absurd stale
  deliver_stale (added (Object.status _ _)) now stamp m stale = absurd stale
  deliver_stale (added Object.other) now stamp m stale = absurd stale
  deliver_stale (modified (Object.tombstone _)) now stamp m stale = absurd stale
  deliver_stale (modified (Object.status _ _)) now stamp m stale = absurd stale
  deliver_stale (modified Object.other) now stamp m stale = absurd stale
  deliver_stale (deleted obj) now stamp m stale = absurd stale
  deliver_stale (error obj) now stamp m stale = absurd stale

  pub watch_events_stale :
      (ds : List Delivery) (m : Manager C S)
      → All (λ d. IsStale cache m.store d.event) ds
      → ((watch_events cache ds m).0.handler ≡ m.handler)
        × ((watch_events cache ds m).0.store ≡ m.store)
        × ((watch_events cache ds m).1 ≡ ended)
  unfolding watch_events is_last
  watch_events_stale [] m stale = (refl, refl, refl)
  watch_events_stale (d ∷ ds) m (first, stale) =
      let next = deliver cache d.event d.now d.stamp m in
      let (handler, store) = deliver_stale d.event d.now d.stamp m first in
      let (later_handler, later_store, end) =
        watch_events_stale ds next
          (subst (λ c. All (λ later. IsStale cache c later.event) ds) (sym store) stale) in
      rw (stale_goes_on cache d.event m.store first)
        (later_handler ∙ handler, later_store ∙ store, end)
