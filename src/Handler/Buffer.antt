-- ===== src/Handler/Buffer.antt =====
-- The buffer of recent driver events: what it holds after any sequence of inputs.
use podwatcher.Prelude.{
  ℕ, zero, suc, ◌≤◌, ◌≡◌, refl, sym, ap, subst, ◌∙◌, String, Bool, true, false, List, [], ◌∷◌, ◌++◌,
  not, ◌&&◌, ◌||◌, ◌==◌, length, take, take_all, length-take, arith, if◌then◌else◌, Bool-cases, inl,
  inr, eq_iff,
}
use podwatcher.Kube.{Time, Pod, Object}
use podwatcher.Spark.{spark_role}
use podwatcher.Store.Upsert.{upsert_pod, bootstrap_pod}
use podwatcher.Handler.{
  Handler, PodEvent, event_of, publish, publish_application, add_event, add_pod, on_add, update_pod,
  on_update, delete_pod, on_delete, pod_from_object, ends,
}
use podwatcher.Handler.Inputs.{Input, handle, run, publish_frame, publish_application_frame}

take-take {ℓ} : {A : Type ℓ} (m n : ℕ) (ys : List A) → m ≤ n → take m (take n ys) ≡ take m ys
unfolding take
take-take zero n ys h = refl
take-take (suc m) zero ys h = absurd (omega arith)
take-take (suc m) (suc n) [] h = refl
take-take (suc m) (suc n) (y ∷ ys) h = ap (◌∷◌ y) (take-take m n ys (omega arith))

take-append-take {ℓ} :
    {A : Type ℓ} (m n : ℕ) (xs ys : List A) → m ≤ n → take m (xs ++ take n ys) ≡ take m (xs ++ ys)
unfolding take
take-append-take m n [] ys h = take-take m n ys h
take-append-take zero n (x ∷ xs) ys h = refl
take-append-take (suc m) n (x ∷ xs) ys h = ap (◌∷◌ x) (take-append-take m n xs ys (omega arith))

-- the event of a driver, and none of another pod
abbrev pub driver_event : String → Pod → Time → List PodEvent
driver_event kind pod stamp =
    if spark_role pod == "driver" then event_of kind pod stamp ∷ [] else []

abbrev is_end : String → Bool
is_end phase = phase == "Succeeded" || phase == "Failed"

-- the events that an input is to be remembered by
unfoldable pub noted : Input → List PodEvent
noted (Input.add (Object.pod p) initial now stamp) =
    driver_event (if initial then "INITIAL" else "ADDED") p stamp
noted (Input.add (Object.tombstone (Object.pod p)) initial now stamp) =
    driver_event (if initial then "INITIAL" else "ADDED") p stamp
noted (Input.add _ initial now stamp) = []
noted (Input.update (Object.pod old_pod) (Object.pod new_pod) now stamp) =
    if is_end new_pod.phase && not (old_pod.phase == new_pod.phase)
    then driver_event "MODIFIED" new_pod stamp
    else []
noted (Input.update _ _ now stamp) = []
noted (Input.remove (Object.pod p) now stamp) = driver_event "DELETED" p stamp
noted (Input.remove (Object.tombstone (Object.pod p)) now stamp) = driver_event "DELETED" p stamp
noted (Input.remove _ now stamp) = []

-- Both at once: the limit stays, and the new events are in front.
abbrev IsNoted : Handler → Handler → List PodEvent → Type 0
IsNoted after before events =
    (after.max_events ≡ before.max_events)
    × (after.events ≡ take before.max_events (events ++ before.events))

add_event-IsNoted :
    (event : PodEvent) (h before : Handler)
    → h.max_events ≡ before.max_events
    → h.events ≡ before.events
    → IsNoted (add_event event h) before (event ∷ [])
unfolding add_event
add_event-IsNoted event h before same events =
    ground (arith, take_all h.max_events (event ∷ h.events))

same-IsNoted :
    (h before : Handler)
    → h.max_events ≡ before.max_events
    → h.events ≡ before.events
    → length before.events ≤ before.max_events
    → IsNoted h before []
same-IsNoted h before same events fits =
    (same, cc (events, take_all before.max_events before.events fits))

by_test-IsNoted :
    (role : String) (is_event : Bool) (event : PodEvent) (h sent : Handler)
    → length h.events ≤ h.max_events
    → sent.max_events ≡ h.max_events
    → sent.events ≡ h.events
    → (is_event ≡ true → (role == "") ≡ false)
    → IsNoted
        (if role == "" then h else if is_event then add_event event sent else sent)
        h
        (if is_event then event ∷ [] else [])
by_test-IsNoted role true event h sent fits same events named =
    rw (named refl) (add_event-IsNoted event sent h same events)
by_test-IsNoted role false event h sent fits same events named = elim (Bool-cases (role == "")) [
  | inl empty ↦ rw empty (same-IsNoted h h refl refl fits)
  | inr tracked ↦ rw tracked (same-IsNoted sent h same events fits)
]

driver_named : (role : String) → (role == "driver") ≡ true → (role == "") ≡ false
driver_named role h = ground (arith, eq_iff role "driver", eq_iff role "", eq_iff "driver" "")

-- A callback answers by its pod's role: nothing of an untracked pod, no event of an executor.
by_role-IsNoted :
    (role : String) (event : PodEvent) (h sent : Handler)
    → length h.events ≤ h.max_events
    → sent.max_events ≡ h.max_events
    → sent.events ≡ h.events
    → IsNoted
        (if role == "" then h else if not (role == "driver") then sent else add_event event sent)
        h
        (if role == "driver" then event ∷ [] else [])
by_role-IsNoted role event h sent fits same events = elim (Bool-cases (role == "driver")) [
  | inl is_driver ↦
      rw is_driver
        (by_test-IsNoted role true event h sent fits same events (λ _. driver_named role is_driver))
  | inr not_driver ↦
      rw not_driver
        (by_test-IsNoted role false event h sent fits same events (λ on. absurd (ground arith)))
]

add_pod-IsNoted :
    (h : Handler) (pod : Pod) (initial : Bool) (now stamp : Time)
    → length h.events ≤ h.max_events
    → IsNoted
        (add_pod h pod initial now stamp)
        h
        (driver_event (if initial then "INITIAL" else "ADDED") pod stamp)
unfolding add_pod
add_pod-IsNoted h pod initial now stamp fits =
    let s =
      if initial
      then bootstrap_pod h.state_store pod now
      else upsert_pod h.state_store pod false now in
    let h1 = record h { state_store = s } in
    let (store_1, events_1, max_1, publisher_1) = publish_frame "ADDED" pod initial h1 in
    let (store_2, events_2, max_2, publisher_2) =
      publish_application_frame pod (publish "ADDED" pod initial h1) in
    by_role-IsNoted (spark_role pod) _ h _ fits (max_2 ∙ max_1) (events_2 ∙ events_1)

delete_pod-IsNoted :
    (h : Handler) (pod : Pod) (now stamp : Time)
    → length h.events ≤ h.max_events
    → IsNoted (delete_pod h pod now stamp) h (driver_event "DELETED" pod stamp)
unfolding delete_pod
delete_pod-IsNoted h pod now stamp fits =
    let h1 = record h { state_store = upsert_pod h.state_store pod true now } in
    let (store_1, events_1, max_1, publisher_1) = publish_frame "DELETED" pod false h1 in
    let (store_2, events_2, max_2, publisher_2) =
      publish_application_frame pod (publish "DELETED" pod false h1) in
    by_role-IsNoted (spark_role pod) _ h _ fits (max_2 ∙ max_1) (events_2 ∙ events_1)

-- The test of OnUpdate is the change of a driver's phase into an end.
ends_lem :
    (old_pod new_pod : Pod)
    → ends old_pod new_pod ≡ (
        spark_role new_pod == "driver"
        && is_end new_pod.phase
        && not (old_pod.phase == new_pod.phase))
unfolding ends
ends_lem old_pod new_pod = ground arith

update_pod-IsNoted :
    (h : Handler) (old_pod new_pod : Pod) (now stamp : Time)
    → length h.events ≤ h.max_events
    → IsNoted (update_pod h old_pod new_pod now stamp) h (
        if is_end new_pod.phase && not (old_pod.phase == new_pod.phase)
        then driver_event "MODIFIED" new_pod stamp
        else [])
unfolding update_pod
update_pod-IsNoted h old_pod new_pod now stamp fits =
    let h1 = record h { state_store = upsert_pod h.state_store new_pod false now } in
    let (store_2, events_2, max_2, publisher_2) = publish_application_frame new_pod h1 in
    let is_event = ends old_pod new_pod in
    let event = event_of "MODIFIED" new_pod stamp in
    let listed : (if is_event then event ∷ [] else []) ≡ (
        if is_end new_pod.phase && not (old_pod.phase == new_pod.phase)
        then driver_event "MODIFIED" new_pod stamp
        else []) =
      ground (arith, ends_lem old_pod new_pod) in
    let named : is_event ≡ true → (spark_role new_pod == "") ≡ false =
      λ ended. driver_named (spark_role new_pod) (ground (arith, ends_lem old_pod new_pod)) in
    subst (IsNoted (update_pod h old_pod new_pod now stamp) h) listed (
      by_test-IsNoted (spark_role new_pod) is_event event h (publish_application new_pod h1) fits
        max_2 events_2 named)

handle-IsNoted :
    (h : Handler) (input : Input)
    → length h.events ≤ h.max_events
    → IsNoted (handle h input) h (noted input)
unfolding handle on_add on_update on_delete pod_from_object noted
handle-IsNoted h (Input.add (Object.pod p) initial now stamp) fits =
    add_pod-IsNoted h p initial now stamp fits
handle-IsNoted h (Input.add (Object.tombstone (Object.pod p)) initial now stamp) fits =
    add_pod-IsNoted h p initial now stamp fits
handle-IsNoted h (Input.add _ initial now stamp) fits = same-IsNoted h h refl refl fits
handle-IsNoted h (Input.update (Object.pod old_pod) (Object.pod new_pod) now stamp) fits =
    update_pod-IsNoted h old_pod new_pod now stamp fits
handle-IsNoted h (Input.update _ _ now stamp) fits = same-IsNoted h h refl refl fits
handle-IsNoted h (Input.remove (Object.pod p) now stamp) fits =
    delete_pod-IsNoted h p now stamp fits
handle-IsNoted h (Input.remove (Object.tombstone (Object.pod p)) now stamp) fits =
    delete_pod-IsNoted h p now stamp fits
handle-IsNoted h (Input.remove _ now stamp) fits = same-IsNoted h h refl refl fits

-- what all inputs are to be remembered by, the latest first, on top of what was there
abbrev pub history : List Input → List PodEvent → List PodEvent
history [] before = before
history (input ∷ inputs) before = history inputs (noted input ++ before)

take-history :
    (inputs : List Input) (n : ℕ) (a b : List PodEvent)
    → take n a ≡ take n b
    → take n (history inputs a) ≡ take n (history inputs b)
take-history [] n a b h = h
take-history (input ∷ inputs) n a b h =
    take-history inputs n (noted input ++ a) (noted input ++ b) (
      sym (take-append-take n n (noted input) a (omega arith))
      ∙ ap (λ rest. take n (noted input ++ rest)) h
      ∙ take-append-take n n (noted input) b (omega arith))

-- The buffer is the most recent driver events, the latest first and no more than its limit, after
-- any sequence of callbacks on a handler whose buffer is within its limit.
pub run-events :
    (inputs : List Input) (h : Handler)
    → length h.events ≤ h.max_events
    → (run h inputs).events ≡ take h.max_events (history inputs h.events)
unfolding run
run-events [] h fits = sym (take_all h.max_events h.events fits)
run-events (input ∷ inputs) h fits =
    let (same, events) = handle-IsNoted h input fits in
    let kept = noted input ++ h.events in
    let fits_next : length (handle h input).events ≤ (handle h input).max_events =
      rw (same, events) (omega (arith, length-take h.max_events kept)) in
    run-events inputs (handle h input) fits_next
    ∙ cc (same, events)
    ∙ take-history inputs h.max_events (take h.max_events kept) kept
        (take-take h.max_events h.max_events kept (omega arith))
