-- ===== src/Store/Persist/Restart.antt =====
-- A restart: what a store saves, a new one loads.
use podwatcher.Prelude.{
  ◌<◌, String, ◌≡◌, ◌≢◌, refl, sym, ap, ◌∙◌, true, Option, none, some, List, [], arith, ℤ,
  ne→==false, Any, inl, inr,
}
use podwatcher.Dict.{get, values, IsDict}
use podwatcher.Dict.Laws.{All-values}
use podwatcher.Sort.{sort_by}
use podwatcher.Store.{Store, ApplicationRecord, PodRecord}
use podwatcher.Store.Valid.{IsValid}
use podwatcher.Store.Ingest.{
  ingest, ingest_apps, put_apps, record_key, sorted_missing, missing_of, stamp_all,
}
use podwatcher.Store.Ingest.Index.{
  get-IsKeyedBy, first_of, get-put_apps, get-ingest_pods, missing_of-nil, ingest_pods-apps,
  put_apps-IsDict, ingest_pods-IsDict, ingest_pods-indexed,
}
use podwatcher.Store.Ingest.Clock.{IsClocked, ingest-IsClocked}
use podwatcher.Store.Persist.Backfill.{
  mapped, filled_app, filled_pod, get-backfill_cluster, backfill_cluster-IsClocked,
}
use podwatcher.Store.Persist.{
  StateSnapshot, Outcome, snapshot_of, save, backfill_cluster, load, load_snapshot, empty_store,
  new_store,
}

first_of-none {ℓ} : {V : Type ℓ} (o : Option V) → first_of o none ≡ o
first_of-none none = refl
first_of-none (some v) = refl

-- records that all have a time of change are only indexed
ingest_apps_stamped :
    (records : List ApplicationRecord) (s : Store)
    → missing_of records ≡ []
    → (ingest_apps records s).apps ≡ put_apps records s.apps
unfolding ingest_apps sorted_missing stamp_all sort_by
ingest_apps_stamped records s none_missing = rw none_missing refl

ingest_apps_frame :
    (records : List ApplicationRecord) (s : Store)
    → ((ingest_apps records s).pods ≡ s.pods) × ((ingest_apps records s).cluster ≡ s.cluster)
unfolding ingest_apps
ingest_apps_frame records s = (refl, refl)

-- What a store of this program is written out with: it is valid, every application has a time of
-- change, and each pod record stands under its own key.
pub record IsSaveable (s : Store) : Type 0 where
  pub valid : IsValid s
  pub stamped :
      (k : String) (rec : ApplicationRecord) → get k s.apps ≡ some rec → 0 < rec.changed_at
  pub keyed : (k : String) (rec : PodRecord) → get k s.pods ≡ some rec → record_key rec ≡ k

module _ (s : Store) (saveable : IsSaveable s) (fresh : Store) (no_apps : fresh.apps ≡ [])
    (no_pods : fresh.pods ≡ []) where
  reloaded_apps :
      (ingest (values s.apps) (values s.pods) fresh).apps ≡ put_apps (values s.apps) fresh.apps
  unfolding ingest
  reloaded_apps =
      let t = ingest_apps (values s.apps) fresh in
      let (apps, last_changed, cluster) = ingest_pods-apps (values s.pods) t in
      let none_missing = missing_of-nil s.apps (
        All-values _ s.apps saveable.valid.apps_dict
          (λ j rec h e. omega (arith, saveable.stamped j rec h))) in
      apps ∙ ingest_apps_stamped (values s.apps) fresh none_missing

  pub reloaded-IsDict :
      fresh.driver_by_app ≡ []
      → let t = ingest (values s.apps) (values s.pods) fresh in
        IsDict t.apps × IsDict t.pods × IsDict t.driver_by_app
  unfolding ingest ingest_apps
  reloaded-IsDict no_index =
      let (pods, index) =
        ingest_pods-IsDict (values s.pods) (ingest_apps (values s.apps) fresh) (rw no_pods (tt))
          (rw no_index (tt)) in
      (rw reloaded_apps (put_apps-IsDict (values s.apps) fresh.apps (rw no_apps (tt))), pods, index)

  pub reloaded-indexed :
      fresh.driver_by_app ≡ []
      → (a k : String) → get a (ingest (values s.apps) (values s.pods) fresh).driver_by_app ≡ some k
      → Any (λ r. r.application_id ≡ a) (values s.pods)
  unfolding ingest ingest_apps get
  reloaded-indexed no_index a k h =
      elim (ingest_pods-indexed (values s.pods) (ingest_apps (values s.apps) fresh) a k h) [
        | inl before ↦ let lost : none ≡ some k = (rw no_index at before) in absurd (cc)
        | inr driver ↦ driver
      ]

  get-reloaded_apps :
      (k : String) → get k (ingest (values s.apps) (values s.pods) fresh).apps ≡ get k s.apps
  unfolding ingest get
  get-reloaded_apps k =
      let keyed =
        get-IsKeyedBy (λ r. r.application_id) s.apps saveable.valid.apps_dict
          saveable.valid.keyed in
      ap (get k) reloaded_apps
      ∙ get-put_apps s.apps fresh.apps saveable.valid.apps_dict keyed k
      ∙ rw no_apps (first_of-none (get k s.apps))

  get-reloaded_pods :
      (k : String) → get k (ingest (values s.apps) (values s.pods) fresh).pods ≡ get k s.pods
  unfolding ingest get
  get-reloaded_pods k =
      let t = ingest_apps (values s.apps) fresh in
      let keyed = get-IsKeyedBy record_key s.pods saveable.valid.pods_dict saveable.keyed in
      let nothing : t.pods ≡ [] = (ingest_apps_frame (values s.apps) fresh).0 ∙ no_pods in
      get-ingest_pods s.pods t saveable.valid.pods_dict keyed k
      ∙ rw nothing (first_of-none (get k s.pods))

ingest_cluster :
    (apps : List ApplicationRecord) (pods : List PodRecord) (s : Store)
    → (ingest apps pods s).cluster ≡ s.cluster
unfolding ingest
ingest_cluster apps pods s =
    let (same_apps, last_changed, cluster) = ingest_pods-apps pods (ingest_apps apps s) in
    cluster ∙ (ingest_apps_frame apps s).1

saved_file :
    (s : Store) (file : Option StateSnapshot)
    → s.file_path ≢ ""
    → s.dirty ≡ true
    → (save Outcome.saved s file).1 ≡ some (snapshot_of s)
unfolding save
saved_file s file path dirty = ground (arith, dirty, ne→==false s.file_path "" path)

pub empty-IsClocked :
    (file_path cluster : String) (max_apps max_pods : ℤ)
    → IsClocked (empty_store file_path cluster max_apps max_pods)
unfolding empty_store get
empty-IsClocked file_path cluster max_apps max_pods k rec h = absurd (cc)

pub new_store-loads :
    (snapshot : StateSnapshot) (path cluster : String) (max_apps max_pods : ℤ)
    → path ≢ ""
    → let fresh = empty_store path cluster max_apps max_pods in
      let t = new_store (some snapshot) path cluster max_apps max_pods in
      let filled = (backfill_cluster (ingest snapshot.applications snapshot.pods fresh)).0 in
      (t.apps ≡ filled.apps)
      × (t.pods ≡ filled.pods)
      × (t.last_changed ≡ filled.last_changed)
      × (t.driver_by_app ≡ filled.driver_by_app)
unfolding new_store load load_snapshot empty_store
new_store-loads snapshot path cluster max_apps max_pods named =
    rw (ne→==false path "" named) (refl, refl, refl, refl)

-- what a new store makes of the snapshot of another
pub new_store-snapshot_of :
    (s : Store) (path cluster : String) (max_apps max_pods : ℤ) (k : String)
    → IsSaveable s
    → path ≢ ""
    → let t = new_store (some (snapshot_of s)) path cluster max_apps max_pods in
      (get k t.apps ≡ mapped (filled_app cluster) (get k s.apps))
      × (get k t.pods ≡ mapped (filled_pod cluster) (get k s.pods))
      × IsClocked t
unfolding snapshot_of empty_store
new_store-snapshot_of s path cluster max_apps max_pods k saveable named =
    let fresh = empty_store path cluster max_apps max_pods in
    let u = ingest (values s.apps) (values s.pods) fresh in
    let (apps, pods, last_changed, _) =
      new_store-loads (snapshot_of s) path cluster max_apps max_pods named in
    let (filled_apps, filled_pods, _) = get-backfill_cluster u k in
    let same : u.cluster ≡ cluster = ingest_cluster (values s.apps) (values s.pods) fresh in
    let clocked = backfill_cluster-IsClocked u (
      ingest-IsClocked (values s.apps) (values s.pods) fresh
        (empty-IsClocked path cluster max_apps max_pods)) in
    (
      ap (get k) apps
          ∙ filled_apps
          ∙ ap (λ c. mapped (filled_app c) (get k u.apps)) same
          ∙ ap (mapped (filled_app cluster)) (get-reloaded_apps s saveable fresh refl refl k),
      ap (get k) pods
          ∙ filled_pods
          ∙ ap (λ c. mapped (filled_pod c) (get k u.pods)) same
          ∙ ap (mapped (filled_pod cluster)) (get-reloaded_pods s saveable fresh refl refl k),
      λ j rec h.
          let (stamped, within) = clocked j rec (sym (ap (get j) apps) ∙ h) in
          (stamped, omega (arith, within, last_changed)),
    )

-- A store that has something to save, and whose save meets no failure, is what a new store with the
-- same file starts from, whatever its own limits are: under every key the same application and the
-- same pod record, with the new store's cluster filled in where there was none, and no application
-- with a time of change after the new store's last change.
pub save-new_store :
    (s : Store) (file : Option StateSnapshot) (cluster : String) (max_apps max_pods : ℤ)
    (k : String)
    → IsSaveable s
    → s.file_path ≢ ""
    → s.dirty ≡ true
    → let t = new_store (save Outcome.saved s file).1 s.file_path cluster max_apps max_pods in
      (get k t.apps ≡ mapped (filled_app cluster) (get k s.apps))
      × (get k t.pods ≡ mapped (filled_pod cluster) (get k s.pods))
      × IsClocked t
save-new_store s file cluster max_apps max_pods k saveable path dirty =
    rw (saved_file s file path dirty)
      (new_store-snapshot_of s s.file_path cluster max_apps max_pods k saveable path)
