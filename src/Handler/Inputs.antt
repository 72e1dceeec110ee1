-- ===== src/Handler/Inputs.antt =====
-- The handler as a machine: its three callbacks are the inputs, in the order of their calls.
use podwatcher.Prelude.{Bool, true, false, List, [], ◌∷◌}
use podwatcher.Kube.{Time, Object}
use podwatcher.Store.{Store}
use podwatcher.Store.Valid.{IsValid}
use podwatcher.Store.Upsert.{upsert, upsert_pod, bootstrap_pod}
use podwatcher.Store.Upsert.Valid.{upsert-IsValid}
use podwatcher.Prelude.{
  ◌≡◌, refl, sym, subst, String, Option, none, some, ◌==◌, if◌then◌else◌, arith,
}
use podwatcher.Kube.{Pod}
use podwatcher.Spark.{spark_role}
use podwatcher.Handler.{
  Handler, publish, publish_application, add_event, add_pod, on_add, update_pod, on_update,
  delete_pod, on_delete, pod_from_object,
}

-- Each callback with its arguments and its two readings of the clock.
pub data Input : Type 0 where
  add : Object → Bool → Time → Time → Input
  update : (old_obj new_obj : Object) → Time → Time → Input
  remove : Object → Time → Time → Input

unfoldable pub handle : Handler → Input → Handler
unfolding on_add on_update on_delete
handle h (Input.add obj initial now stamp) = on_add h obj initial now stamp
handle h (Input.update old_obj new_obj now stamp) = on_update h old_obj new_obj now stamp
handle h (Input.remove obj now stamp) = on_delete h obj now stamp

unfoldable pub run : Handler → List Input → Handler
unfolding handle
run h [] = h
run h (input ∷ inputs) = run (handle h input) inputs

-- Publishing touches neither the store, nor the buffer, nor the publisher.
pub publish_frame :
    (kind : String) (pod : Pod) (initial : Bool) (h : Handler)
    → ((publish kind pod initial h).state_store ≡ h.state_store)
      × ((publish kind pod initial h).events ≡ h.events)
      × ((publish kind pod initial h).max_events ≡ h.max_events)
      × ((publish kind pod initial h).publisher ≡ h.publisher)
unfolding publish
publish_frame kind pod initial h = ground arith

pub publish_application_frame :
    (pod : Pod) (h : Handler)
    → ((publish_application pod h).state_store ≡ h.state_store)
      × ((publish_application pod h).events ≡ h.events)
      × ((publish_application pod h).max_events ≡ h.max_events)
      × ((publish_application pod h).publisher ≡ h.publisher)
unfolding publish_application
publish_application_frame pod h = ground arith

-- the pods of an input: the pod that the store observes, and whether it is deleted
unfoldable pub observed : Input → Option (Pod × Bool × Bool)
unfolding pod_from_object
observed (Input.add obj initial now stamp) = elim (pod_from_object obj) [
  | none ↦ none
  | some pod ↦ some (pod, false, initial)
]
observed (Input.update (Object.pod old_pod) (Object.pod new_pod) now stamp) =
    some (new_pod, false, false)
observed (Input.update _ _ now stamp) = none
observed (Input.remove obj now stamp) = elim (pod_from_object obj) [
  | none ↦ none
  | some pod ↦ some (pod, true, false)
]

abbrev pub clock : Input → Time
clock (Input.add obj initial now stamp) = now
clock (Input.update old_obj new_obj now stamp) = now
clock (Input.remove obj now stamp) = now

unfoldable pub observe : Store → Option (Pod × Bool × Bool) → Time → Store
observe s none now = s
observe s (some (pod, deleted, bootstrap)) now = upsert s pod deleted bootstrap now

untracked :
    (s : Store) (pod : Pod) (deleted bootstrap : Bool) (now : Time)
    → (spark_role pod == "") ≡ true
    → upsert s pod deleted bootstrap now ≡ s
unfolding upsert
untracked s pod deleted bootstrap now h = ground arith

pub add_pod-store :
    (h : Handler) (pod : Pod) (initial : Bool) (now stamp : Time)
    → (add_pod h pod initial now stamp).state_store ≡ upsert h.state_store pod false initial now
unfolding add_pod upsert_pod bootstrap_pod add_event
add_pod-store h pod initial now stamp =
    let s =
      if initial
      then bootstrap_pod h.state_store pod now
      else upsert_pod h.state_store pod false now in
    let h1 = record h { state_store = s } in
    ground (
      arith,
      untracked h.state_store pod false initial now,
      publish_frame "ADDED" pod initial h1,
      publish_application_frame pod (publish "ADDED" pod initial h1),
    )

pub update_pod-store :
    (h : Handler) (old_pod new_pod : Pod) (now stamp : Time)
    → (update_pod h old_pod new_pod now stamp).state_store
      ≡ upsert h.state_store new_pod false false now
unfolding update_pod upsert_pod add_event
update_pod-store h old_pod new_pod now stamp = ground (
  arith,
  untracked h.state_store new_pod false false now,
  publish_application_frame new_pod
      (record h { state_store = upsert_pod h.state_store new_pod false now }),
)

pub delete_pod-store :
    (h : Handler) (pod : Pod) (now stamp : Time)
    → (delete_pod h pod now stamp).state_store ≡ upsert h.state_store pod true false now
unfolding delete_pod upsert_pod add_event
delete_pod-store h pod now stamp =
    let h1 = record h { state_store = upsert_pod h.state_store pod true now } in
    ground (
      arith,
      untracked h.state_store pod true false now,
      publish_frame "DELETED" pod false h1,
      publish_application_frame pod (publish "DELETED" pod false h1),
    )

pub handle-store :
    (h : Handler) (input : Input)
    → (handle h input).state_store ≡ observe h.state_store (observed input) (clock input)
unfolding handle observe observed on_add on_update on_delete pod_from_object
handle-store h (Input.add (Object.pod p) initial now stamp) = add_pod-store h p initial now stamp
handle-store h (Input.add (Object.tombstone (Object.pod p)) initial now stamp) =
    add_pod-store h p initial now stamp
handle-store h (Input.add _ initial now stamp) = refl
handle-store h (Input.update (Object.pod old_pod) (Object.pod new_pod) now stamp) =
    update_pod-store h old_pod new_pod now stamp
handle-store h (Input.update _ _ now stamp) = refl
handle-store h (Input.remove (Object.pod p) now stamp) = delete_pod-store h p now stamp
handle-store h (Input.remove (Object.tombstone (Object.pod p)) now stamp) =
    delete_pod-store h p now stamp
handle-store h (Input.remove _ now stamp) = refl

observe-IsValid :
    (s : Store)
    → IsValid s
    → (pod : Option (Pod × Bool × Bool)) (now : Time) → IsValid (observe s pod now)
unfolding observe
observe-IsValid s valid none now = valid
observe-IsValid s valid (some (pod, deleted, bootstrap)) now =
    upsert-IsValid s valid pod deleted bootstrap now

-- Whatever the informer calls the handler with, in whatever order, a valid store stays valid.
pub run-IsValid :
    (inputs : List Input) (h : Handler) → IsValid h.state_store → IsValid (run h inputs).state_store
unfolding run observe
run-IsValid [] h valid = valid
run-IsValid (input ∷ inputs) h valid = run-IsValid inputs (handle h input) (
    subst IsValid (sym (handle-store h input))
      (observe-IsValid h.state_store valid (observed input) (clock input)))
