-- ===== src/Store/Ingest/Index.antt =====
-- Records that a store wrote out are indexed again under the same keys.
use podwatcher.Prelude.{
  String, ◌≡◌, ◌≢◌, refl, Option, none, some, List, [], ◌∷◌, arith, ◌==◌, eq_iff, if◌then◌else◌,
  All, Any, ◌⊎◌, inl, inr, Bool-cases,
}
use podwatcher.Dict.{Dict, get, put, values, IsDict}
use podwatcher.Dict.Laws.{put-IsDict, get-put, get-head, get-tail}
use podwatcher.Store.{Store, ApplicationRecord, PodRecord}
use podwatcher.Store.Ingest.{put_apps, missing_of, record_key, ingest_pods}

-- the first answer, or the second where there is none
abbrev pub first_of {ℓ} : {V : Type ℓ} → Option V → Option V → Option V
first_of none b = b
first_of (some a) b = some a

-- each entry stands under the key that its value asks for
abbrev pub IsKeyedBy {ℓ} : {V : Type ℓ} → (V → String) → Dict V → Type 0
IsKeyedBy key [] = Unit
IsKeyedBy key ((k, v) ∷ m) = (key v ≡ k) × IsKeyedBy key m

pub get-put_apps :
    (m acc : Dict ApplicationRecord)
    → IsDict m
    → IsKeyedBy (λ r. r.application_id) m
    → (k : String) → get k (put_apps (values m) acc) ≡ first_of (get k m) (get k acc)
unfolding put_apps get
get-put_apps [] acc d keyed k = refl
get-put_apps ((j, r) ∷ m) acc d keyed k = ground (
  arith,
  get-put_apps m (put r.application_id r acc) d.1 keyed.1 k,
  get-put r.application_id k r acc,
  eq_iff j k,
)

pub missing_of-nil :
    (m : Dict ApplicationRecord)
    → All (λ r. r.changed_at ≢ 0) (values m)
    → missing_of (values m) ≡ []
unfolding missing_of
missing_of-nil [] h = refl
missing_of-nil ((j, r) ∷ m) h = ground (arith, missing_of-nil m h.1)

pub get-ingest_pods :
    (m : Dict PodRecord) (s : Store)
    → IsDict m
    → IsKeyedBy record_key m
    → (k : String) → get k (ingest_pods (values m) s).pods ≡ first_of (get k m) (get k s.pods)
unfolding ingest_pods get
get-ingest_pods [] s d keyed k = refl
get-ingest_pods ((j, r) ∷ m) s d keyed k = ground (
  arith,
  get-ingest_pods m
      (record s {
        pods = put (record_key r) r s.pods;
        driver_by_app =
            if r.role == "driver"
            then put r.application_id (record_key r) s.driver_by_app
            else s.driver_by_app;
      })
      d.1 keyed.1 k,
  get-put (record_key r) k r s.pods,
  eq_iff j k,
)

pub ingest_pods-apps :
    (recs : List PodRecord) (s : Store)
    → ((ingest_pods recs s).apps ≡ s.apps)
      × ((ingest_pods recs s).last_changed ≡ s.last_changed)
      × ((ingest_pods recs s).cluster ≡ s.cluster)
unfolding ingest_pods
ingest_pods-apps [] s = (refl, refl, refl)
ingest_pods-apps (r ∷ rs) s = ingest_pods-apps rs _

pub get-IsKeyedBy {ℓ} :
    {V : Type ℓ} (key : V → String) (m : Dict V)
    → IsDict m
    → ((k : String) (v : V) → get k m ≡ some v → key v ≡ k)
    → IsKeyedBy key m
get-IsKeyedBy key [] d h = tt
get-IsKeyedBy key ((j, v) ∷ m) (fresh, d) h =
    (h j v (get-head j v m), get-IsKeyedBy key m d (λ k w e. h k w (get-tail j k v w m fresh e)))

pub put_apps-IsDict :
    (recs : List ApplicationRecord) (apps : Dict ApplicationRecord)
    → IsDict apps
    → IsDict (put_apps recs apps)
unfolding put_apps
put_apps-IsDict [] apps d = d
put_apps-IsDict (r ∷ rs) apps d = put_apps-IsDict rs _ (put-IsDict r.application_id r apps d)

pub ingest_pods-IsDict :
    (recs : List PodRecord) (s : Store)
    → IsDict s.pods
    → IsDict s.driver_by_app
    → IsDict (ingest_pods recs s).pods × IsDict (ingest_pods recs s).driver_by_app
unfolding ingest_pods
ingest_pods-IsDict [] s pods index = (pods, index)
ingest_pods-IsDict (r ∷ rs) s pods index =
    ingest_pods-IsDict rs _ (put-IsDict (record_key r) r s.pods pods)
      (ground (arith, put-IsDict r.application_id (record_key r) s.driver_by_app index))

-- An entry of the join index is an old one, or that of a driver among the records.
pub ingest_pods-indexed :
    (recs : List PodRecord) (s : Store) (a k : String)
    → get a (ingest_pods recs s).driver_by_app ≡ some k
    → (get a s.driver_by_app ≡ some k) ⊎ Any (λ r. r.application_id ≡ a) recs
unfolding ingest_pods
ingest_pods-indexed [] s a k h = inl h
ingest_pods-indexed (r ∷ rs) s a k h =
    let put_driver = get-put r.application_id a (record_key r) s.driver_by_app in
    elim (ingest_pods-indexed rs _ a k h) [
      | inr later ↦ inr (inr later)
      | inl before ↦ elim (Bool-cases (r.application_id == a)) [
        | inl own ↦ inr (inl (ground (arith, eq_iff r.application_id a)))
        | inr other ↦ inl (ground (arith, put_driver))
      ]
    ]
