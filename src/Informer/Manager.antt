-- ===== src/Informer/Manager.antt =====
-- The manager's state and its operations, from one event up to one round of list and watch.
use podwatcher.Prelude.{
  String, Bool, true, false, Option, none, some, List, [], ◌∷◌, not, ◌&&◌, ◌||◌, ◌==◌, leb,
  if◌then◌else◌, ℤ, geb, parse_int, is_some,
}
use podwatcher.Dict.{Dict, get, values}
use podwatcher.Kube.{Time, Pod, Object}
use podwatcher.Handler.{Handler, on_add, on_update, on_delete, pod_from_object}
use podwatcher.Informer.Cache.{PodCache, index_pods}

-- `client`, `namespace`, `flushInterval` and `stopCh` only parametrise the calls of the outside.
pub record Manager (C S : Type 0) : Type 0 where
  pub handler : Handler
  pub store : C
  pub resume : S
  pub last_rv : String
  pub dirty : Bool
  pub synced : Bool

newer_or_same : Option ℤ → Option ℤ → Bool → Bool
newer_or_same (some a) (some b) same = geb a b
newer_or_same _ _ same = same

unfoldable pub rv_at_least : String → String → Bool
unfolding newer_or_same
rv_at_least a b = newer_or_same (parse_int a) (parse_int b) (a == b)

unfoldable pub is_gone_status : Object → Bool
is_gone_status (Object.status code reason) = leb code 410 && leb 410 code || reason == "Gone"
is_gone_status _ = false

-- What the watch delivers, in its order, each with the handler's two readings of the clock.
pub data WatchEvent : Type 0 where
  bookmark added modified deleted error : Object → WatchEvent

-- an error event that ends the watch
unfoldable pub is_last : WatchEvent → Bool
unfolding is_gone_status
is_last (error obj) = is_gone_status obj
is_last _ = false

pub record Delivery : Type 0 where
  pub event : WatchEvent
  pub now : Time
  pub stamp : Time

-- how a watch, or a round, ends: nil, errResourceVersionGone or another error
pub data End : Type 0 where
  ended gone failure : End

pub data WatchAnswer : Type 0 where
  refused_gone refused : WatchAnswer
  opened : List Delivery → WatchAnswer

-- What one round meets: the list's answer, the watch's, and the handler's readings of the clock for
-- each pod of a list.
pub record Round : Type 0 where
  pub listing : Option (List Pod × String)
  pub watching : WatchAnswer
  pub tick : Pod → Time × Time

module _ {C S : Type 0} where
  unfoldable pub set_rv : String → Manager C S → Manager C S
  set_rv rv m =
      if rv == "" then m else if rv == m.last_rv then m else record m { last_rv = rv; dirty = true }

  unfoldable pub clear_rv : Manager C S → Manager C S
  clear_rv m = record m { last_rv = ""; dirty = false }

module _ {C S : Type 0} (cache : PodCache C) where
  -- the handler hears of a new pod, and the cache takes it
  unfoldable pub discover : Pod → Time → Time → Manager C S → Manager C S
  unfolding on_add
  discover pod now stamp m = record m {
    handler = on_add m.handler (Object.pod pod) false now stamp;
    store = cache.add pod m.store;
  }

  unfoldable pub refresh : (old_pod pod : Pod) → Time → Time → Manager C S → Manager C S
  unfolding on_update
  refresh old_pod pod now stamp m = record m {
    handler = on_update m.handler (Object.pod old_pod) (Object.pod pod) now stamp;
    store = cache.update pod m.store;
  }

  unfoldable pub forget : Pod → Time → Time → Manager C S → Manager C S
  unfolding on_delete
  forget pod now stamp m = record m {
    handler = on_delete m.handler (Object.pod pod) now stamp;
    store = cache.delete pod m.store;
  }

  unfoldable pub merge_added : Option Pod → Pod → Time → Time → Manager C S → Manager C S
  unfolding discover refresh rv_at_least
  merge_added none pod now stamp m = discover pod now stamp m
  merge_added (some old_pod) pod now stamp m =
      if rv_at_least old_pod.resource_version pod.resource_version
      then m
      else refresh old_pod pod now stamp m

  unfoldable pub on_added : Object → Time → Time → Manager C S → Manager C S
  unfolding merge_added set_rv
  on_added (Object.pod pod) now stamp m =
      set_rv pod.resource_version (merge_added (cache.lookup pod m.store) pod now stamp m)
  on_added _ now stamp m = m

  unfoldable pub merge_modified : Option Pod → Pod → Time → Time → Manager C S → Manager C S
  unfolding refresh rv_at_least on_add
  merge_modified none pod now stamp m = record m {
    handler = on_add m.handler (Object.pod pod) false now stamp;
    store = cache.update pod m.store;
  }
  merge_modified (some old_pod) pod now stamp m =
      if rv_at_least old_pod.resource_version pod.resource_version
      then m
      else refresh old_pod pod now stamp m

  unfoldable pub on_modified : Object → Time → Time → Manager C S → Manager C S
  unfolding merge_modified set_rv
  on_modified (Object.pod pod) now stamp m =
      set_rv pod.resource_version (merge_modified (cache.lookup pod m.store) pod now stamp m)
  on_modified _ now stamp m = m

  unfoldable pub on_deleted : Object → Time → Time → Manager C S → Manager C S
  unfolding forget set_rv pod_from_object
  on_deleted obj now stamp m = elim (pod_from_object obj) [
    | none ↦ m
    | some pod ↦ set_rv pod.resource_version (forget pod now stamp m)
  ]

  -- the pods of a relist, in an order in which `range` may visit them
  unfoldable pub merge_listed : (Pod → Time × Time) → List Pod → Manager C S → Manager C S
  unfolding merge_added
  merge_listed tick [] m = m
  merge_listed tick (pod ∷ pods) m =
      merge_listed tick pods
        (merge_added (cache.lookup pod m.store) pod (tick pod).0 (tick pod).1 m)

  unfoldable pub forget_missing :
      (Pod → Time × Time) → Dict Pod → List Pod → Manager C S → Manager C S
  unfolding forget get
  forget_missing tick listed [] m = m
  forget_missing tick listed (old_pod ∷ old_pods) m = forget_missing tick listed old_pods (
      if is_some (get (cache.key_of old_pod) listed)
      then m
      else forget old_pod (tick old_pod).0 (tick old_pod).1 m)

  unfoldable pub reconcile : (Pod → Time × Time) → List Pod → Manager C S → Manager C S
  unfolding merge_listed forget_missing index_pods
  reconcile tick pods m =
      let listed = index_pods cache.key_of pods [] in
      let merged = merge_listed tick (values listed) m in
      forget_missing tick listed (cache.list merged.store) merged

  unfoldable pub seed_pods : (Pod → Time × Time) → List Pod → Manager C S → Manager C S
  unfolding on_add
  seed_pods tick [] m = m
  seed_pods tick (pod ∷ pods) m =
      seed_pods tick pods
        (record m { handler = on_add m.handler (Object.pod pod) true (tick pod).0 (tick pod).1 })

  -- every listed pod to the handler, and all of them into the cache
  unfoldable pub seed : (Pod → Time × Time) → List Pod → Manager C S → Manager C S
  unfolding seed_pods
  seed tick pods m =
      let seeded = seed_pods tick pods m in
      record seeded { store = cache.replace pods seeded.store }

  unfoldable pub relist : (Pod → Time × Time) → List Pod → String → Bool → Manager C S → Manager C S
  unfolding seed reconcile set_rv
  relist tick pods rv initial m =
      set_rv rv (if initial then seed tick pods m else reconcile tick pods m)

  -- one event that does not end the watch
  unfoldable pub deliver : WatchEvent → Time → Time → Manager C S → Manager C S
  unfolding on_added on_modified on_deleted set_rv
  deliver (bookmark (Object.pod pod)) now stamp m = set_rv pod.resource_version m
  deliver (bookmark _) now stamp m = m
  deliver (added obj) now stamp m = on_added obj now stamp m
  deliver (modified obj) now stamp m = on_modified obj now stamp m
  deliver (deleted obj) now stamp m = on_deleted obj now stamp m
  deliver (error obj) now stamp m = m

  -- The events of a watch up to its end: the channel closes, the manager stops, or it is gone.
  unfoldable pub watch_events : List Delivery → Manager C S → Manager C S × End
  unfolding deliver is_last
  watch_events [] m = (m, ended)
  watch_events (d ∷ ds) m =
      let rest = watch_events ds (deliver d.event d.now d.stamp m) in
      if is_last d.event then (m, gone) else rest

  unfoldable pub watch : WatchAnswer → Manager C S → Manager C S × End
  unfolding watch_events
  watch refused_gone m = (m, gone)
  watch refused m = (m, failure)
  watch (opened deliveries) m = watch_events deliveries m

  unfoldable pub relist_and_watch :
      Option (List Pod × String) → Round → Manager C S → Manager C S × End
  unfolding relist watch
  relist_and_watch none round m = (m, failure)
  relist_and_watch (some (pods, rv)) round m =
      watch round.watching (record (relist round.tick pods rv (not m.synced) m) { synced = true })

  -- the list's own version does not become the position
  unfoldable pub seed_and_watch :
      Option (List Pod × String) → Round → Manager C S → Manager C S × End
  unfolding seed watch
  seed_and_watch none round m = (m, failure)
  seed_and_watch (some (pods, rv)) round m =
      watch round.watching (record (seed round.tick pods m) { synced = true })

  unfoldable pub list_and_watch : Round → Manager C S → Manager C S × End
  unfolding relist_and_watch seed_and_watch
  list_and_watch round m =
      if m.last_rv == ""
      then relist_and_watch round.listing round m
      else if not m.synced
      then seed_and_watch round.listing round m
      else watch round.watching m
