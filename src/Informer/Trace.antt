-- ===== src/Informer/Trace.antt =====
-- The informer acts on the handler by its three callbacks alone: up to a watch.
pub mod Rounds
use mathlib.Core.List.{append_assoc}
use podwatcher.Prelude.{
  ℕ, ◌≤◌, String, ◌≡◌, refl, sym, ap, ◌∙◌, subst, Bool, true, false, Option, none, some, List, [],
  ◌∷◌, ◌++◌, arith, length, length-take, Bool-cases, inl, inr, is_some, not, ◌==◌, if◌then◌else◌,
}
use podwatcher.Dict.{Dict, get, values}
use podwatcher.Kube.{Time, Pod, Object}
use podwatcher.Store.Valid.{IsValid}
use podwatcher.Handler.{Handler, on_add, on_update, on_delete, pod_from_object}
use podwatcher.Handler.Inputs.{Input, handle, run, run-IsValid}
use podwatcher.Handler.Buffer.{run-events, history}
use podwatcher.Informer.Cache.{PodCache, index_pods}
use podwatcher.Informer.Manager.{
  Manager, End, Round, WatchEvent, Delivery, WatchAnswer, bookmark, added, modified, deleted, error,
  ended, gone, failure, opened, refused, refused_gone, set_rv, clear_rv, discover, refresh, forget,
  merge_added, merge_modified, on_added, on_modified, on_deleted, merge_listed, forget_missing,
  reconcile, seed_pods, seed, relist, deliver, is_last, watch_events, watch, relist_and_watch,
  seed_and_watch, list_and_watch, rv_at_least,
}
use podwatcher.Informer.Watch.{set_rv_frame}
use podwatcher.Informer.Loop.{settle, run_rounds}

-- `after` is `before` after some callbacks
abbrev pub IsRun : Handler → Handler → Type 0
IsRun before after = (inputs : List Input) × (after ≡ run before inputs)

pub IsRun-same : (before after : Handler) → after ≡ before → IsRun before after
unfolding run
IsRun-same before after same = ([], same)

pub IsRun-one : (h : Handler) (input : Input) → IsRun h (handle h input)
unfolding run
IsRun-one h input = (input ∷ [], refl)

run-append : (xs ys : List Input) (h : Handler) → run h (xs ++ ys) ≡ run (run h xs) ys
unfolding run
run-append [] ys h = refl
run-append (x ∷ xs) ys h = run-append xs ys (handle h x)

pub IsRun-trans : (a b c : Handler) → IsRun a b → IsRun b c → IsRun a c
IsRun-trans a b c (xs, first) (ys, second) =
    (xs ++ ys, second ∙ ap (λ h. run h ys) first ∙ sym (run-append xs ys a))

module _ {C S : Type 0} (cache : PodCache C) where
  pub merge_added-IsRun :
      (old : Option Pod) (pod : Pod) (now stamp : Time) (m : Manager C S)
      → IsRun m.handler (merge_added cache old pod now stamp m).handler
  unfolding merge_added discover refresh handle
  merge_added-IsRun none pod now stamp m =
      IsRun-one m.handler (Input.add (Object.pod pod) false now stamp)
  merge_added-IsRun (some old) pod now stamp m =
      elim (Bool-cases (rv_at_least old.resource_version pod.resource_version)) [
        | inl stale ↦ rw stale (IsRun-same m.handler m.handler refl)
        | inr fresh ↦
            rw fresh
              (IsRun-one m.handler (Input.update (Object.pod old) (Object.pod pod) now stamp))
      ]

  merge_modified-IsRun :
      (old : Option Pod) (pod : Pod) (now stamp : Time) (m : Manager C S)
      → IsRun m.handler (merge_modified cache old pod now stamp m).handler
  unfolding merge_modified refresh handle
  merge_modified-IsRun none pod now stamp m =
      IsRun-one m.handler (Input.add (Object.pod pod) false now stamp)
  merge_modified-IsRun (some old) pod now stamp m =
      elim (Bool-cases (rv_at_least old.resource_version pod.resource_version)) [
        | inl stale ↦ rw stale (IsRun-same m.handler m.handler refl)
        | inr fresh ↦
            rw fresh
              (IsRun-one m.handler (Input.update (Object.pod old) (Object.pod pod) now stamp))
      ]

  pub forget-IsRun :
      (pod : Pod) (now stamp : Time) (m : Manager C S)
      → IsRun m.handler (forget cache pod now stamp m).handler
  unfolding forget handle
  forget-IsRun pod now stamp m = IsRun-one m.handler (Input.remove (Object.pod pod) now stamp)

  -- a change of the position is no callback
  pub set_rv-IsRun :
      (rv : String) (h : Handler) (m : Manager C S)
      → IsRun h m.handler
      → IsRun h (set_rv rv m).handler
  set_rv-IsRun rv h m r = subst (IsRun h) (sym (set_rv_frame rv m).0) r

  deliver-IsRun :
      (event : WatchEvent) (now stamp : Time) (m : Manager C S)
      → IsRun m.handler (deliver cache event now stamp m).handler
  unfolding deliver on_added on_modified on_deleted pod_from_object
  deliver-IsRun (bookmark (Object.pod pod)) now stamp m =
      set_rv-IsRun pod.resource_version m.handler m (IsRun-same m.handler m.handler refl)
  deliver-IsRun (bookmark _) now stamp m = IsRun-same m.handler m.handler refl
  deliver-IsRun (added (Object.pod pod)) now stamp m =
      let old = cache.lookup pod m.store in
      set_rv-IsRun pod.resource_version m.handler (merge_added cache old pod now stamp m)
        (merge_added-IsRun old pod now stamp m)
  deliver-IsRun (added _) now stamp m = IsRun-same m.handler m.handler refl
  deliver-IsRun (modified (Object.pod pod)) now stamp m =
      let old = cache.lookup pod m.store in
      set_rv-IsRun pod.resource_version m.handler (merge_modified cache old pod now stamp m)
        (merge_modified-IsRun old pod now stamp m)
  deliver-IsRun (modified _) now stamp m = IsRun-same m.handler m.handler refl
  deliver-IsRun (deleted (Object.pod pod)) now stamp m =
      set_rv-IsRun pod.resource_version m.handler (forget cache pod now stamp m)
        (forget-IsRun pod now stamp m)
  deliver-IsRun (deleted (Object.tombstone (Object.pod pod))) now stamp m =
      set_rv-IsRun pod.resource_version m.handler (forget cache pod now stamp m)
        (forget-IsRun pod now stamp m)
  deliver-IsRun (deleted _) now stamp m = IsRun-same m.handler m.handler refl
  deliver-IsRun (error obj) now stamp m = IsRun-same m.handler m.handler refl

  watch_events-IsRun :
      (ds : List Delivery) (m : Manager C S) → IsRun m.handler (watch_events cache ds m).0.handler
  unfolding watch_events
  watch_events-IsRun [] m = IsRun-same m.handler m.handler refl
  watch_events-IsRun (d ∷ ds) m =
      let next = deliver cache d.event d.now d.stamp m in
      elim (Bool-cases (is_last d.event)) [
        | inl last ↦ rw last (IsRun-same m.handler m.handler refl)
        | inr more ↦ rw more (
            IsRun-trans m.handler next.handler (watch_events cache ds next).0.handler
              (deliver-IsRun d.event d.now d.stamp m) (watch_events-IsRun ds next))
      ]

  pub watch-IsRun :
      (answer : WatchAnswer) (m : Manager C S) → IsRun m.handler (watch cache answer m).0.handler
  unfolding watch
  watch-IsRun refused_gone m = IsRun-same m.handler m.handler refl
  watch-IsRun refused m = IsRun-same m.handler m.handler refl
  watch-IsRun (opened ds) m = watch_events-IsRun ds m
