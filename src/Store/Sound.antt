-- ===== src/Store/Sound.antt =====
-- What holds of a store of this program besides its invariant, and that an observed pod keeps it.
use Prim.Native.String.{◌++◌}
use Prim.Native.String.append
use podwatcher.Prelude.{
  ◌<◌, String, ◌≡◌, ◌≢◌, sym, ap, ◌∙◌, Bool, true, false, none, some, arith, ◌==◌, ◌||◌, eq_iff,
  Option-cases, Bool-cases, ==false→ne, List, [], ◌∷◌, inl, inr, if◌then◌else◌, Option,
}
use podwatcher.Dict.{get}
use podwatcher.Dict.Laws.{get-put, get-delete, get-delete_if}
use podwatcher.Kube.{Time, Pod, ContainerStatus}
use podwatcher.Spark.{app_id_from_pod, spark_role, pod_key, name_key, container_times, main_times}
use podwatcher.Store.{Store, ApplicationRecord, PodRecord}
use podwatcher.Store.Valid.{IsValid}
use podwatcher.Store.Application.{
  bootstrap_changed_at, next_change, driven_application, changed_time, updated_application,
  upsert_app,
}
use podwatcher.Store.PodHalf.{updated_pod, upsert_pod_record}
use podwatcher.Store.Evict.{delete_app, evict_apps, evict_pods}
use podwatcher.Store.Evict.Apps.{evict_apps-keeps, delete_app-IsValid}
use podwatcher.Store.Evict.Records.{evict_pods-PodsEvicted, evict_pods-IsValid}
use podwatcher.Store.Upsert.{record_halves, upsert}
use podwatcher.Store.Upsert.Frame.{evict_pods-apps}
use podwatcher.Store.Upsert.Valid.{record_halves-IsValid, upsert-IsValid}

-- A valid store in which every application has a time of change, and every pod record stands under its
-- uid, which is not empty.
pub record IsSound (s : Store) : Type 0 where
  pub valid : IsValid s
  pub stamped :
      (k : String) (rec : ApplicationRecord) → get k s.apps ≡ some rec → 0 < rec.changed_at
  pub identified :
      (k : String) (rec : PodRecord) → get k s.pods ≡ some rec → (rec.uid ≡ k) × (k ≢ "")

delete_app-IsSound : (s : Store) (id : String) → IsSound s → IsSound (delete_app id s)
unfolding delete_app
delete_app-IsSound s id sound = record {
  valid = delete_app-IsValid s id sound.valid;
  stamped = λ k rec h. sound.stamped k rec (ground (arith, get-delete id k s.apps));
  identified = λ k rec h.
      sound.identified k rec (
        ground (arith, get-delete_if (λ r. r.application_id == id) k s.pods sound.valid.pods_dict));
}

pub evict_apps-IsSound : (s : Store) → IsSound s → IsSound (evict_apps s).0
evict_apps-IsSound s sound = evict_apps-keeps IsSound delete_app-IsSound s sound

pub evict_pods-IsSound : (s : Store) → IsSound s → IsSound (evict_pods s).0
evict_pods-IsSound s sound =
    let v = sound.valid in
    record {
      valid = evict_pods-IsValid s v;
      stamped = λ k rec h. sound.stamped k rec (rw (evict_pods-apps s).0 at h);
      identified =
          λ k rec h. sound.identified k rec ((evict_pods-PodsEvicted s v.pods_dict).kept k rec h);
    }

is_empty : String → Bool
is_empty String.[] = true
is_empty (String.◌∷◌ c s) = false

-- `pod_key` is never empty: it is the uid, or has a slash.
name_key-ne : (namespace name : String) → name_key namespace name ≢ ""
unfolding name_key is_empty
name_key-ne String.[] name h =
    let slash : "/" ++ name ≡ String.◌∷◌ "/" ("" ++ name) = append.cons "/" "" name in
    let e : false ≡ true = ap is_empty (sym slash ∙ sym (append.nil ("/" ++ name)) ∙ h) in cc
name_key-ne (String.◌∷◌ c namespace) name h =
    let e : false ≡ true = ap is_empty (sym (append.cons c namespace ("/" ++ name)) ∙ h) in cc

pod_key-ne : (pod : Pod) → pod_key pod ≢ ""
unfolding pod_key
pod_key-ne pod h = elim (Bool-cases (pod.uid == "")) [
  | inl unset ↦ name_key-ne pod.namespace pod.name (rw unset at h)
  | inr set ↦ ==false→ne pod.uid "" set (rw set at h)
]

-- A finish time that a container has is one that is set.
main_times_pos :
    (statuses : List ContainerStatus) (start_time : Option Time) (t : Time)
    → (main_times statuses start_time).1 ≡ some t
    → 0 < t
unfolding main_times
main_times_pos [] start_time t h = absurd (cc)
main_times_pos (cs ∷ rest) start_time t h = ground (arith, main_times_pos rest start_time t)

next_change_pos : (last_changed now : Time) → 0 < now → 0 < next_change last_changed now
unfolding next_change
next_change_pos last_changed now h = ground arith

bootstrap_changed_at_pos :
    (pod : Pod) (rec : ApplicationRecord) (now : Time)
    → 0 < now
    → ((t : Time) → rec.finished_at ≡ some t → 0 < t)
    → 0 < bootstrap_changed_at pod rec now
unfolding bootstrap_changed_at
bootstrap_changed_at_pos pod rec now h finished = elim (Option-cases rec.finished_at) [
  | inl never ↦ ground (arith, never)
  | inr (t, at) ↦ ground (arith, at, finished t at)
]

module _ (s : Store) (pod : Pod) (deleted bootstrap : Bool) (now : Time)
    (after_zero : 0 < now) where
  -- A new application that has come to its end has the container's finish time, or now.
  driven_finished_pos :
      (app_id : String)
      → get app_id s.apps ≡ none
      → (t : Time) → (driven_application s pod app_id deleted bootstrap now).finished_at ≡ some t
      → 0 < t
  unfolding driven_application container_times
  driven_finished_pos app_id new t h =
      ground (arith, new, main_times_pos pod.container_statuses pod.start_time t)

  -- The time of change of an observed application is set, if that of a known one was.
  changed_time_pos :
      (app_id : String)
      → ((rec : ApplicationRecord) → get app_id s.apps ≡ some rec → 0 < rec.changed_at)
      → 0 < changed_time s pod app_id deleted bootstrap now
  unfolding changed_time driven_application
  changed_time_pos app_id stamped = elim (Option-cases (get app_id s.apps)) [
    | inl new ↦
        let boot =
          bootstrap_changed_at_pos pod (driven_application s pod app_id deleted bootstrap now) now
            after_zero (driven_finished_pos app_id new) in
        ground (arith, new, next_change_pos s.last_changed now after_zero, boot)
    | inr (rec, known) ↦
        ground (arith, known, stamped rec known, next_change_pos s.last_changed now after_zero)
  ]

  updated_pod_identified :
      (app_id role : String)
      → ((rec : PodRecord) → get (pod_key pod) s.pods ≡ some rec → rec.uid ≡ pod_key pod)
      → (updated_pod s pod app_id role deleted bootstrap now).uid ≡ pod_key pod
  unfolding updated_pod
  updated_pod_identified app_id role h = elim (Option-cases (get (pod_key pod) s.pods)) [
    | inl new ↦ ground (arith, new)
    | inr (rec, known) ↦ ground (arith, known, h rec known)
  ]

  written :
      (new_pod : PodRecord)
      → new_pod.uid ≡ pod_key pod
      → IsSound s
      → (k : String) (rec : PodRecord)
      → (if pod_key pod == k then some new_pod else get k s.pods) ≡ some rec
      → (rec.uid ≡ k) × (k ≢ "")
  written new_pod own sound k rec h = elim (Bool-cases (pod_key pod == k)) [
    | inl here ↦
        let found : some new_pod ≡ some rec = (rw here at h) in
        let same : new_pod ≡ rec = cc in
        let key : pod_key pod ≡ k = ground (arith, eq_iff (pod_key pod) k) in
        (ap (λ r. r.uid) (sym same) ∙ own ∙ key, λ e. pod_key-ne pod (key ∙ e))
    | inr other ↦ sound.identified k rec (rw other at h)
  ]

  halves-IsSound :
      IsSound s → app_id_from_pod pod ≢ "" → IsSound (record_halves s pod deleted bootstrap now).0
  unfolding record_halves upsert_app upsert_pod_record updated_application
  halves-IsSound sound named =
      let app_id = app_id_from_pod pod in
      let role = spark_role pod in
      let new_app = updated_application s pod app_id deleted bootstrap now in
      let s1 = (upsert_app s pod app_id deleted bootstrap now).0 in
      let new_pod = updated_pod s1 pod app_id role deleted bootstrap now in
      let own =
        updated_pod_identified app_id role (λ rec h. (sound.identified (pod_key pod) rec h).0) in
      record {
        valid = record_halves-IsValid s sound.valid pod deleted bootstrap now named;
        stamped = λ k rec h. ground (
          arith,
          get-put app_id k new_app s.apps,
          sound.stamped k rec,
          changed_time_pos app_id (sound.stamped app_id),
        );
        identified = λ k rec h.
            written new_pod own sound k rec (sym (get-put (pod_key pod) k new_pod s.pods) ∙ h);
      }

  -- An observation, live or of a start, keeps the store sound.
  pub upsert-IsSound : IsSound s → IsSound (upsert s pod deleted bootstrap now)
  unfolding upsert
  upsert-IsSound sound = elim (Bool-cases (app_id_from_pod pod == "" || spark_role pod == "")) [
    | inl skipped ↦ rw skipped sound
    | inr tracked ↦
        let halves = halves-IsSound sound (ground (arith, eq_iff (app_id_from_pod pod) "")) in
        let swept = evict_pods-IsSound _ (evict_apps-IsSound _ halves) in
        let valid = rw tracked at (upsert-IsValid s sound.valid pod deleted bootstrap now) in
        rw tracked
          (record { valid = valid; stamped = swept.stamped; identified = swept.identified })
  ]
