-- ===== src/Store/Upsert/Driven.antt =====
-- What an observed driver makes of its application, in the words of Kubernetes and of the API.
use podwatcher.Prelude.{
  String, ◌≡◌, ◌≢◌, ◌⊎◌, inl, inr, refl, Bool, true, false, Option, none, some, arith, eq_iff,
  or_else, Bool-cases, Option-cases, List, [], ◌∷◌,
}
use podwatcher.Dict.{get}
use podwatcher.Kube.{Time, Pod, ContainerStatus, Terminated}
use podwatcher.Spark.{
  app_id_from_pod, spark_role, is_driver_pod, pod_status, container_times, main_times, set_time,
}
use podwatcher.Store.{Store, ApplicationRecord}
use podwatcher.Store.Application.{is_terminal, updated_application}
use podwatcher.Store.Upsert.{upsert}
use podwatcher.Store.Upsert.Feed.{own_record}
use podwatcher.Store.Upsert.Roles.{driver_role, driver-IsTracked}

-- the status of a driver's phase, or of its deletion
abbrev pub IsStatus : (phase : String) → Bool → String → Type 0
IsStatus phase true status = status ≡ "deleted"
IsStatus phase false status =
    ((phase ≡ "Succeeded") × (status ≡ "succeeded"))
    ⊎ ((phase ≡ "Failed") × (status ≡ "failed"))
    ⊎ ((phase ≡ "Running") × (status ≡ "running"))
    ⊎ ((phase ≡ "Pending") × (status ≡ "pending"))
    ⊎ ((phase ≢ "Succeeded")
        × (phase ≢ "Failed")
        × (phase ≢ "Running")
        × (phase ≢ "Pending")
        × (status ≡ phase))

-- a time that is kept once it is set
abbrev pub first_of_times : Option Time → Time → Option Time
first_of_times none t = some t
first_of_times (some old) t = some old

-- When the containers of a driver that has ended did: the first that has ended or runs says it, with
-- its own finish if it has one, and else it is now.
abbrev pub IsContainerEnd : List ContainerStatus → (now end : Time) → Type 0
IsContainerEnd [] now end = end ≡ now
IsContainerEnd (cs ∷ rest) now end =
    ((term : Terminated) × (cs.terminated ≡ some term)
      × (((term.finished_at ≢ 0) × (end ≡ term.finished_at))
          ⊎ ((term.finished_at ≡ 0) × (end ≡ now))))
    ⊎ ((cs.terminated ≡ none) × (t : Time) × (cs.running ≡ some t) × (end ≡ now))
    ⊎ ((cs.terminated ≡ none) × (cs.running ≡ none) × IsContainerEnd rest now end)

-- The finish of an application after its driver: at the driver's end the one that it had, or else the
-- container's or now; before, the one that it had.
abbrev pub IsFinish : Pod → Bool → Time → (old new : Option Time) → Type 0
IsFinish pod deleted now old new =
    (((deleted ≡ true) ⊎ (pod.phase ≡ "Succeeded") ⊎ (pod.phase ≡ "Failed"))
      × (end : Time) × IsContainerEnd pod.container_statuses now end
      × (new ≡ first_of_times old end))
    ⊎ ((deleted ≡ false) × (pod.phase ≢ "Succeeded") × (pod.phase ≢ "Failed") × (new ≡ old))

abbrev pub IsDeletion : Bool → Time → (old new : Option Time) → Type 0
IsDeletion true now old new = new ≡ first_of_times old now
IsDeletion false now old new = new ≡ old

abbrev pub field_of : (ApplicationRecord → Option Time) → Option ApplicationRecord → Option Time
field_of f none = none
field_of f (some rec) = f rec

pub record IsDriven (pod : Pod) (deleted : Bool) (now : Time) (old : Option ApplicationRecord)
    (new : ApplicationRecord) : Type 0 where
  pub status : IsStatus pod.phase deleted new.status
  pub finish : IsFinish pod deleted now (field_of (λ r. r.finished_at) old) new.finished_at
  pub deletion : IsDeletion deleted now (field_of (λ r. r.deleted_at) old) new.deleted_at
  pub driver : new.driver_pod_name ≡ pod.name
  pub at : new.last_updated_at ≡ now

pod_status-IsStatus :
    (pod : Pod) (deleted : Bool) → IsStatus pod.phase deleted (pod_status pod deleted)
unfolding pod_status
pod_status-IsStatus pod true = refl
pod_status-IsStatus pod false = ground (
  arith,
  eq_iff pod.phase "Succeeded",
  eq_iff pod.phase "Failed",
  eq_iff pod.phase "Running",
  eq_iff pod.phase "Pending",
)

main_times-IsContainerEnd :
    (statuses : List ContainerStatus) (start_time : Option Time) (now : Time)
    → IsContainerEnd statuses now (or_else (main_times statuses start_time).1 now)
unfolding main_times
main_times-IsContainerEnd [] start_time now = refl
main_times-IsContainerEnd (cs ∷ rest) start_time now = elim (Option-cases cs.terminated) [
  | inr (term, ended) ↦ rw ended (inl (term, refl, own_end term))
  | inl goes_on ↦ elim (Option-cases cs.running) [
    | inr (t, runs) ↦ rw (goes_on, runs) (inr (inl (refl, t, refl, refl)))
    | inl waits ↦
        rw (goes_on, waits) (inr (inr (refl, refl, main_times-IsContainerEnd rest start_time now)))
  ]
]
  where
    own_end :
        (term : Terminated)
        → ((term.finished_at ≢ 0) × (or_else (set_time term.finished_at) now ≡ term.finished_at))
          ⊎ ((term.finished_at ≡ 0) × (or_else (set_time term.finished_at) now ≡ now))
    own_end term = ground arith

-- the tests of the two ends
has_ended :
    (pod : Pod) (deleted : Bool)
    → is_terminal pod deleted ≡ true
    → (deleted ≡ true) ⊎ (pod.phase ≡ "Succeeded") ⊎ (pod.phase ≡ "Failed")
unfolding is_terminal
has_ended pod deleted h = ground (arith, eq_iff pod.phase "Succeeded", eq_iff pod.phase "Failed")

goes_on :
    (pod : Pod) (deleted : Bool)
    → is_terminal pod deleted ≡ false
    → (deleted ≡ false) × (pod.phase ≢ "Succeeded") × (pod.phase ≢ "Failed")
unfolding is_terminal
goes_on pod deleted h = ground (arith, eq_iff pod.phase "Succeeded", eq_iff pod.phase "Failed")

module _ (s : Store) (pod : Pod) (app_id : String) (deleted bootstrap : Bool) (now : Time)
    (drives : is_driver_pod pod ≡ true) where
  driven_end :
      is_terminal pod deleted ≡ true
      → (updated_application s pod app_id deleted bootstrap now).finished_at
        ≡ first_of_times
            (field_of (λ r. r.finished_at) (get app_id s.apps))
            (or_else (container_times pod).1 now)
  unfolding updated_application
  driven_end h = ground (arith, drives, h)

  driven_on :
      is_terminal pod deleted ≡ false
      → (updated_application s pod app_id deleted bootstrap now).finished_at
        ≡ field_of (λ r. r.finished_at) (get app_id s.apps)
  unfolding updated_application
  driven_on h = ground (arith, drives, h)

  driven-IsFinish :
      IsFinish pod deleted now
        (field_of (λ r. r.finished_at) (get app_id s.apps))
        (updated_application s pod app_id deleted bootstrap now).finished_at
  unfolding container_times
  driven-IsFinish = elim (Bool-cases (is_terminal pod deleted)) [
    | inl end ↦ inl (
      has_ended pod deleted end,
      or_else (container_times pod).1 now,
      main_times-IsContainerEnd pod.container_statuses pod.start_time now,
      driven_end end,
    )
    | inr on ↦
        let (live, not_done, not_failed) = goes_on pod deleted on in
        inr (live, not_done, not_failed, driven_on on)
  ]

module _ (s : Store) (pod : Pod) (app_id : String) (bootstrap : Bool) (now : Time)
    (drives : is_driver_pod pod ≡ true) where
  driven-IsDeletion :
      (deleted : Bool)
      → IsDeletion deleted now
          (field_of (λ r. r.deleted_at) (get app_id s.apps))
          (updated_application s pod app_id deleted bootstrap now).deleted_at
  unfolding updated_application
  driven-IsDeletion true = ground (arith, drives)
  driven-IsDeletion false = ground (arith, drives)

updated-IsDriven :
    (s : Store) (pod : Pod) (app_id : String) (deleted bootstrap : Bool) (now : Time)
    → is_driver_pod pod ≡ true
    → IsDriven pod deleted now
        (get app_id s.apps)
        (updated_application s pod app_id deleted bootstrap now)
unfolding updated_application
updated-IsDriven s pod app_id deleted bootstrap now drives =
    let status : (updated_application s pod app_id deleted bootstrap now).status
        ≡ pod_status pod deleted =
      ground (arith, drives) in
    record {
      status = rw status (pod_status-IsStatus pod deleted);
      finish = driven-IsFinish s pod app_id deleted bootstrap now drives;
      deletion = driven-IsDeletion s pod app_id bootstrap now drives deleted;
      driver = ground (arith, drives);
      at = refl;
    }

-- An observed driver gives its application, if that is kept, the status that its phase has, or
-- "deleted" if it is deleted, its own name as the driver's, and now as the last update. If the driver is
-- deleted or its phase is Succeeded or Failed, the application has a finish: the one that it had, or else
-- that of the first container that has ended or runs, or else now; otherwise its finish stays. If the
-- driver is deleted the application has a deletion, the one that it had or now; otherwise that stays.
pub upsert-IsDriven :
    (s : Store) (pod : Pod) (deleted bootstrap : Bool) (now : Time) (new : ApplicationRecord)
    → app_id_from_pod pod ≢ ""
    → spark_role pod ≡ "driver"
    → get (app_id_from_pod pod) (upsert s pod deleted bootstrap now).apps ≡ some new
    → IsDriven pod deleted now (get (app_id_from_pod pod) s.apps) new
upsert-IsDriven s pod deleted bootstrap now new named role h =
    let tracked = driver-IsTracked pod "driver" named refl role in
    rw (own_record s pod deleted bootstrap now tracked new h)
      (updated-IsDriven s pod (app_id_from_pod pod) deleted bootstrap now (driver_role pod role))
