-- ===== src/Store/Persist/Backfill.antt =====
-- What filling in the cluster does to the records of a store: internal/store/state_store.go,
-- `backfillClusterLocked`.
use podwatcher.Prelude.{
  String, ◌≡◌, refl, sym, ap, ◌∙◌, Option, none, some, [], ◌∷◌, arith, ◌==◌, eq_iff, if◌then◌else◌,
  Bool-cases, inl, inr,
}
use podwatcher.Dict.{Dict, get, IsDict}
use podwatcher.Store.{Store, ApplicationRecord, PodRecord}
use podwatcher.Store.Ingest.Clock.{IsClocked}
use podwatcher.Store.Persist.{backfill_apps, backfill_pods, backfill_cluster}

-- a record of the cluster that a restarted store knows, if the record names none
abbrev pub filled_app : String → ApplicationRecord → ApplicationRecord
filled_app cluster rec = if rec.cluster == "" then record rec { cluster = cluster } else rec

abbrev pub filled_pod : String → PodRecord → PodRecord
filled_pod cluster rec = if rec.cluster == "" then record rec { cluster = cluster } else rec

abbrev pub mapped {ℓ} : {V : Type ℓ} → (V → V) → Option V → Option V
mapped f none = none
mapped f (some v) = some (f v)

get-backfill_apps :
    (cluster : String) (m : Dict ApplicationRecord) (k : String)
    → get k (backfill_apps cluster m).0 ≡ mapped (filled_app cluster) (get k m)
unfolding backfill_apps get
get-backfill_apps cluster [] k = refl
get-backfill_apps cluster ((j, rec) ∷ m) k = ground (arith, get-backfill_apps cluster m k)

get-backfill_pods :
    (cluster : String) (m : Dict PodRecord) (k : String)
    → get k (backfill_pods cluster m).0 ≡ mapped (filled_pod cluster) (get k m)
unfolding backfill_pods get
get-backfill_pods cluster [] k = refl
get-backfill_pods cluster ((j, rec) ∷ m) k = ground (arith, get-backfill_pods cluster m k)

-- with no cluster to fill in, nothing is filled in
mapped-filled_app : (o : Option ApplicationRecord) → mapped (filled_app "") o ≡ o
mapped-filled_app none = refl
mapped-filled_app (some rec) = elim (Bool-cases (rec.cluster == "")) [
  | inl unknown ↦
      let e : rec.cluster ≡ "" = ground (arith, unknown, eq_iff rec.cluster "") in
      rw unknown (ap (λ cluster. some (record rec { cluster = cluster })) (sym e))
  | inr known ↦ rw known refl
]

mapped-filled_pod : (o : Option PodRecord) → mapped (filled_pod "") o ≡ o
mapped-filled_pod none = refl
mapped-filled_pod (some rec) = elim (Bool-cases (rec.cluster == "")) [
  | inl unknown ↦
      let e : rec.cluster ≡ "" = ground (arith, unknown, eq_iff rec.cluster "") in
      rw unknown (ap (λ cluster. some (record rec { cluster = cluster })) (sym e))
  | inr known ↦ rw known refl
]

pub get-backfill_cluster :
    (s : Store) (k : String)
    → (get k (backfill_cluster s).0.apps ≡ mapped (filled_app s.cluster) (get k s.apps))
      × (get k (backfill_cluster s).0.pods ≡ mapped (filled_pod s.cluster) (get k s.pods))
      × ((backfill_cluster s).0.last_changed ≡ s.last_changed)
unfolding backfill_cluster
get-backfill_cluster s k = elim (Bool-cases (s.cluster == "")) [
  | inl unknown ↦
      let e : s.cluster ≡ "" = ground (arith, eq_iff s.cluster "") in
      rw unknown (
        sym (mapped-filled_app (get k s.apps))
            ∙ ap (λ c. mapped (filled_app c) (get k s.apps)) (sym e),
        sym (mapped-filled_pod (get k s.pods))
            ∙ ap (λ c. mapped (filled_pod c) (get k s.pods)) (sym e),
        refl,
      )
  | inr known ↦
      rw known (get-backfill_apps s.cluster s.apps k, get-backfill_pods s.cluster s.pods k, refl)
]

-- filling in a cluster leaves the time of change
filled_app-changed_at :
    (cluster : String) (o : Option ApplicationRecord) (rec : ApplicationRecord)
    → mapped (filled_app cluster) o ≡ some rec
    → (old : ApplicationRecord) × (o ≡ some old) × (old.changed_at ≡ rec.changed_at)
filled_app-changed_at cluster none rec h = absurd (cc)
filled_app-changed_at cluster (some old) rec h =
    (old, refl, let e : filled_app cluster old ≡ rec = cc in rw⁻¹ e (same old))
  where
    same : (old : ApplicationRecord) → old.changed_at ≡ (filled_app cluster old).changed_at
    same old = ground arith

pub backfill_cluster-IsClocked : (s : Store) → IsClocked s → IsClocked (backfill_cluster s).0
backfill_cluster-IsClocked s clocked k rec h =
    let (apps, pods, last_changed) = get-backfill_cluster s k in
    let (old, there, same) = filled_app-changed_at s.cluster (get k s.apps) rec (sym apps ∙ h) in
    let (stamped, within) = clocked k old there in
    (omega (arith, same, stamped), omega (arith, same, within, last_changed))

-- Filling in leaves the keys distinct, and the join index as it is.
backfill_apps-IsDict :
    (cluster : String) (m : Dict ApplicationRecord) → IsDict m → IsDict (backfill_apps cluster m).0
unfolding backfill_apps
backfill_apps-IsDict cluster [] d = tt
backfill_apps-IsDict cluster ((j, rec) ∷ m) (fresh, d) =
    ground (arith, get-backfill_apps cluster m j, fresh, backfill_apps-IsDict cluster m d)

backfill_pods-IsDict :
    (cluster : String) (m : Dict PodRecord) → IsDict m → IsDict (backfill_pods cluster m).0
unfolding backfill_pods
backfill_pods-IsDict cluster [] d = tt
backfill_pods-IsDict cluster ((j, rec) ∷ m) (fresh, d) =
    ground (arith, get-backfill_pods cluster m j, fresh, backfill_pods-IsDict cluster m d)

pub backfill_cluster-IsDict :
    (s : Store)
    → IsDict s.apps
    → IsDict s.pods
    → IsDict (backfill_cluster s).0.apps
      × IsDict (backfill_cluster s).0.pods
      × ((backfill_cluster s).0.driver_by_app ≡ s.driver_by_app)
unfolding backfill_cluster
backfill_cluster-IsDict s apps pods = elim (Bool-cases (s.cluster == "")) [
  | inl unknown ↦ rw unknown (apps, pods, refl)
  | inr known ↦
      rw known (
        backfill_apps-IsDict s.cluster s.apps apps,
        backfill_pods-IsDict s.cluster s.pods pods,
        refl,
      )
]
