-- ===== src/Store/Upsert/Feed.antt =====
-- The incremental feed: when an observed pod moves its application's change time.
use podwatcher.Prelude.{
  ◌≤◌, ◌<◌, String, ◌≡◌, ◌≢◌, refl, ◌⊎◌, inl, inr, Bool, true, false, Option, none, some, arith,
  eq_iff, eq_refl, Bool-cases, Option-cases, List, [], ◌∷◌, ap, sym, ◌∙◌, ◌==◌, ◌||◌, ==false→ne,
}
use podwatcher.Dict.{get}
use podwatcher.Kube.{Time, Pod}
use podwatcher.Spark.{app_id_from_pod, spark_role}
use podwatcher.Store.{Store, ApplicationRecord}
use podwatcher.Store.Application.{lifecycle_changed, updated_application}
use podwatcher.Store.Application.Lifecycle.{
  SameLife, next_change-lt, same_life, stamped, first_seen, changed_at-bootstrap, finished_once,
  deleted_once, lifecycle_changed-bootstrap,
}
use podwatcher.Store.Upsert.{upsert, upsert_pod, bootstrap_pod}
use podwatcher.Store.Upsert.Frame.{IsTracked, apps-upsert, last_changed-upsert}

module _ (s : Store) (pod : Pod) (deleted bootstrap : Bool) (now : Time)
    (tracked : IsTracked pod) where
  -- the pod's own application, if it is there afterwards
  pub own_record :
      (r : ApplicationRecord)
      → get (app_id_from_pod pod) (upsert s pod deleted bootstrap now).apps ≡ some r
      → r ≡ updated_application s pod (app_id_from_pod pod) deleted bootstrap now
  own_record r h = ground (
    arith,
    apps-upsert s pod deleted bootstrap now tracked (app_id_from_pod pod) r h,
    eq_refl (app_id_from_pod pod),
  )

  -- Of all other applications a record that is there afterwards is as it was.
  pub upsert-others :
      (k : String) (r : ApplicationRecord)
      → k ≢ app_id_from_pod pod
      → get k (upsert s pod deleted bootstrap now).apps ≡ some r
      → get k s.apps ≡ some r
  upsert-others k r other h =
      ground (
        arith,
        apps-upsert s pod deleted bootstrap now tracked k r h,
        eq_iff (app_id_from_pod pod) k,
      )

  -- one observation of the application's own pods
  upsert-write_once :
      (old new : ApplicationRecord)
      → get (app_id_from_pod pod) s.apps ≡ some old
      → get (app_id_from_pod pod) (upsert s pod deleted bootstrap now).apps ≡ some new
      → ((t : Time) → old.finished_at ≡ some t → new.finished_at ≡ some t)
        × ((t : Time) → old.deleted_at ≡ some t → new.deleted_at ≡ some t)
  upsert-write_once old new known h = rw (own_record new h) (
    (λ t e. finished_once s pod (app_id_from_pod pod) old known deleted bootstrap now t e),
    (λ t e. deleted_once s pod (app_id_from_pod pod) old known deleted bootstrap now t e),
  )

module _ (s : Store) (pod : Pod) (deleted : Bool) (now : Time) (tracked : IsTracked pod) where
  -- Either the application's change time is now the store's last change, later than every change
  -- that was stamped before and no earlier than the wall clock, or the application was known and
  -- its status, its finish, its deletion, its change time and the store's last change are as they
  -- were. So no change of an application's life is hidden from a reader who asks for what came
  -- after the last change.
  pub upsert_pod-feed :
      (new : ApplicationRecord)
      → s.last_changed ≢ 0
      → get (app_id_from_pod pod) (upsert_pod s pod deleted now).apps ≡ some new
      → ((s.last_changed < new.changed_at)
          × (now ≤ new.changed_at)
          × (new.changed_at ≡ (upsert_pod s pod deleted now).last_changed))
        ⊎ ((old : ApplicationRecord) × (get (app_id_from_pod pod) s.apps ≡ some old)
            × SameLife new old
            × (new.changed_at ≡ old.changed_at)
            × ((upsert_pod s pod deleted now).last_changed ≡ s.last_changed))
  unfolding upsert_pod
  upsert_pod-feed new clock h =
      let app_id = app_id_from_pod pod in
      let own = own_record s pod deleted false now tracked new h in
      let last = last_changed-upsert s pod deleted false now tracked in
      elim (Bool-cases (lifecycle_changed s pod app_id deleted false now)) [
        | inl changed ↦
            let next = next_change-lt s.last_changed now clock in
            let at = stamped s pod app_id deleted now changed in
            inl (
              ground (arith, own, last, next, at),
              ground (arith, own, last, next, at),
              ground (arith, own, last, at),
            )
        | inr same ↦ elim (Option-cases (get app_id s.apps)) [
          | inl new_app ↦ absurd (ground (arith, first_seen s pod app_id deleted now new_app))
          | inr (old, known) ↦
              let life = same_life s pod app_id old known deleted now same in
              inr (old, known, rw own life.0, rw own life.1, ground (arith, last))
        ]
      ]

module _ (s : Store) (pod : Pod) (now : Time) (tracked : IsTracked pod) where
  -- A bootstrap moves no change time that was there and never the store's last change.
  pub bootstrap_pod-feed :
      ((bootstrap_pod s pod now).last_changed ≡ s.last_changed)
      × ((old new : ApplicationRecord)
          → get (app_id_from_pod pod) s.apps ≡ some old
          → get (app_id_from_pod pod) (bootstrap_pod s pod now).apps ≡ some new
          → new.changed_at ≡ old.changed_at)
  unfolding bootstrap_pod
  bootstrap_pod-feed = (
    ground (
      arith,
      last_changed-upsert s pod false true now tracked,
      lifecycle_changed-bootstrap s pod (app_id_from_pod pod) false now,
    ),
    (λ old new known h.
        rw (own_record s pod false true now tracked new h)
          (changed_at-bootstrap s pod (app_id_from_pod pod) old known false now)),
  )

-- one observation of a pod, live or in a bootstrap
pub record Seen : Type 0 where
  pub pod : Pod
  pub deleted : Bool
  pub bootstrap : Bool
  pub now : Time

unfoldable pub observe_all : List Seen → Store → Store
unfolding upsert
observe_all [] s = s
observe_all (o ∷ os) s = observe_all os (upsert s o.pod o.deleted o.bootstrap o.now)

-- the application is there after each of the observations
abbrev pub IsKept : String → List Seen → Store → Type 0
IsKept id [] s = Unit
IsKept id (o ∷ os) s =
    let t = upsert s o.pod o.deleted o.bootstrap o.now in
    ((rec : ApplicationRecord) × (get id t.apps ≡ some rec)) × IsKept id os t

-- a time that is set in one record is the same in another
abbrev IsWrittenOnce : (old new : ApplicationRecord) → Type 0
IsWrittenOnce old new =
    ((t : Time) → old.finished_at ≡ some t → new.finished_at ≡ some t)
    × ((t : Time) → old.deleted_at ≡ some t → new.deleted_at ≡ some t)

-- whichever pod is observed
upsert-IsWrittenOnce :
    (s : Store) (pod : Pod) (deleted bootstrap : Bool) (now : Time) (id : String)
    (old new : ApplicationRecord)
    → get id s.apps ≡ some old
    → get id (upsert s pod deleted bootstrap now).apps ≡ some new
    → IsWrittenOnce old new
unfolding upsert
upsert-IsWrittenOnce s pod deleted bootstrap now id old new known kept =
    elim (Bool-cases (app_id_from_pod pod == "" || spark_role pod == "")) [
      | inl skipped ↦
          let still : get id s.apps ≡ some new = (rw skipped at kept) in
          let same : old ≡ new = cc in (λ t e. cc, λ t e. cc)
      | inr tracked ↦
          let is_tracked : IsTracked pod = (
            λ e. ground (arith, e, tracked, eq_iff (app_id_from_pod pod) ""),
            λ e. ground (arith, e, tracked, eq_iff (spark_role pod) ""),
          ) in
          elim (Bool-cases (id == app_id_from_pod pod)) [
            | inl own ↦
                let key : id ≡ app_id_from_pod pod =
                  ground (arith, eq_iff id (app_id_from_pod pod)) in
                upsert-write_once s pod deleted bootstrap now is_tracked old new
                  (sym (ap (λ k. get k s.apps) key) ∙ known)
                  (sym (ap (λ k. get k (upsert s pod deleted bootstrap now).apps) key) ∙ kept)
            | inr other ↦
                let before =
                  upsert-others s pod deleted bootstrap now is_tracked id new
                    (==false→ne id (app_id_from_pod pod) other) kept in
                let same : old ≡ new = cc in (λ t e. cc, λ t e. cc)
          ]
    ]

observe_all_once :
    (os : List Seen) (s : Store) (id : String) (old new : ApplicationRecord)
    → get id s.apps ≡ some old
    → IsKept id os s
    → get id (observe_all os s).apps ≡ some new
    → IsWrittenOnce old new
unfolding observe_all
observe_all_once [] s id old new known kept h = let same : old ≡ new = cc in (λ t e. cc, λ t e. cc)
observe_all_once (o ∷ os) s id old new known ((mid, there), later) h =
    let first = upsert-IsWrittenOnce s o.pod o.deleted o.bootstrap o.now id old mid known there in
    let rest =
      observe_all_once os (upsert s o.pod o.deleted o.bootstrap o.now) id mid new there later h in
    (λ t e. rest.0 t (first.0 t e), λ t e. rest.1 t (first.1 t e))

kept_time :
    (old new : Option Time)
    → ((t : Time) → old ≡ some t → new ≡ some t)
    → (old ≡ none) ⊎ (new ≡ old)
kept_time none new h = inl refl
kept_time (some t) new h = inr (h t refl)

-- Whatever pods are observed in whatever order, of this application or of others, in a bootstrap or
-- live, tracked or not, deleted or not: the finish of an application that has one and the deletion of
-- one that has one stay as they are for as long as the application is kept.
pub observe_all-IsWrittenOnce :
    (os : List Seen) (s : Store) (id : String) (old new : ApplicationRecord)
    → get id s.apps ≡ some old
    → IsKept id os s
    → get id (observe_all os s).apps ≡ some new
    → ((old.finished_at ≡ none) ⊎ (new.finished_at ≡ old.finished_at))
      × ((old.deleted_at ≡ none) ⊎ (new.deleted_at ≡ old.deleted_at))
observe_all-IsWrittenOnce os s id old new known kept h =
    let (finish, deletion) = observe_all_once os s id old new known kept h in
    (
      kept_time old.finished_at new.finished_at finish,
      kept_time old.deleted_at new.deleted_at deletion,
    )
