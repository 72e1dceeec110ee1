-- ===== src/Store/Persist/Reload.antt =====
-- A new store that loads the snapshot of a sound store is sound.
use podwatcher.Prelude.{
  String, ◌≡◌, ◌≢◌, refl, sym, ap, ◌∙◌, none, some, Option, List, [], ◌∷◌, arith, ℤ, All, Any, ◌==◌,
  eq_iff, inl, inr, Bool-cases, ==false→ne,
}
use podwatcher.Dict.{get, values}
use podwatcher.Dict.Laws.{All-values}
use podwatcher.Store.{Store, ApplicationRecord, PodRecord}
use podwatcher.Store.Valid.{IsValid}
use podwatcher.Store.Sound.{IsSound}
use podwatcher.Store.Ingest.{ingest, record_key}
use podwatcher.Store.Persist.{
  StateSnapshot, snapshot_of, load, load_snapshot, empty_store, new_store,
}
use podwatcher.Store.Persist.Backfill.{mapped, filled_app, filled_pod, backfill_cluster-IsDict}
use podwatcher.Store.Persist.Restart.{
  IsSaveable, new_store-loads, new_store-snapshot_of, reloaded-IsDict, reloaded-indexed,
}

pub IsSound-IsSaveable : (s : Store) → IsSound s → IsSaveable s
unfolding record_key
IsSound-IsSaveable s sound = record {
  valid = sound.valid;
  stamped = sound.stamped;
  keyed =
      λ k rec h. let (own, named) = sound.identified k rec h in ground (arith, eq_iff rec.uid "");
}

pub empty-IsSound :
    (path cluster : String) (max_apps max_pods : ℤ)
    → IsSound (empty_store path cluster max_apps max_pods)
unfolding empty_store get
empty-IsSound path cluster max_apps max_pods = record {
  valid = record {
    apps_dict = tt;
    pods_dict = tt;
    index_dict = tt;
    named = refl;
    keyed = λ k r h. cc;
    owned = λ k r h. absurd (cc);
    indexed = λ a k h. absurd (cc);
  };
  stamped = λ k rec h. absurd (cc);
  identified = λ k rec h. absurd (cc);
}

-- what a record that was filled in has of the one that it was
from_app :
    (cluster : String) (o : Option ApplicationRecord) (rec : ApplicationRecord)
    → mapped (filled_app cluster) o ≡ some rec
    → (old : ApplicationRecord) × (o ≡ some old)
      × (rec.application_id ≡ old.application_id)
      × (rec.changed_at ≡ old.changed_at)
from_app cluster none rec h = absurd (cc)
from_app cluster (some old) rec h = (old, refl, ground arith, ground arith)

from_pod :
    (cluster : String) (o : Option PodRecord) (rec : PodRecord)
    → mapped (filled_pod cluster) o ≡ some rec
    → (old : PodRecord) × (o ≡ some old)
      × (rec.application_id ≡ old.application_id)
      × (rec.uid ≡ old.uid)
from_pod cluster none rec h = absurd (cc)
from_pod cluster (some old) rec h = (old, refl, ground arith, ground arith)

mapped-none {ℓ} : {V : Type ℓ} (f : V → V) (o : Option V) → mapped f o ≡ none → o ≡ none
mapped-none f none h = refl
mapped-none f (some v) h = cc

All-Any {ℓ} :
    {V : Type ℓ} {P Q : V → Type 0} {R : Type 0} (xs : List V)
    → ((v : V) → P v → Q v → R)
    → All P xs
    → Any Q xs
    → R
All-Any [] f all found = absurd found
All-Any (x ∷ xs) f all (inl here) = f x all.0 here
All-Any (x ∷ xs) f all (inr later) = All-Any xs f all.1 later

module _ (s : Store) (sound : IsSound s) (path cluster : String) (max_apps max_pods : ℤ)
    (named : path ≢ "") where
  reloaded : Store
  reloaded = new_store (some (snapshot_of s)) path cluster max_apps max_pods

  get-apps : (k : String) → get k reloaded.apps ≡ mapped (filled_app cluster) (get k s.apps)
  unfolding reloaded
  get-apps k =
      (new_store-snapshot_of s path cluster max_apps max_pods k (IsSound-IsSaveable s sound)
        named).0

  get-pods : (k : String) → get k reloaded.pods ≡ mapped (filled_pod cluster) (get k s.pods)
  unfolding reloaded
  get-pods k =
      (new_store-snapshot_of s path cluster max_apps max_pods k (IsSound-IsSaveable s sound)
        named).1

  -- an application that was there is there
  known : (id : String) → get id s.apps ≢ none → get id reloaded.apps ≢ none
  known id there gone =
      there (mapped-none (filled_app cluster) (get id s.apps) (sym (get-apps id) ∙ gone))

  reloaded-IsValid : IsValid reloaded
  unfolding reloaded snapshot_of empty_store get
  reloaded-IsValid =
      let fresh = empty_store path cluster max_apps max_pods in
      let u = ingest (values s.apps) (values s.pods) fresh in
      let saveable = IsSound-IsSaveable s sound in
      let (apps, pods, _, index) =
        new_store-loads (snapshot_of s) path cluster max_apps max_pods named in
      let (u_apps, u_pods, u_index) = reloaded-IsDict s saveable fresh refl refl refl in
      let (d_apps, d_pods, same) = backfill_cluster-IsDict u u_apps u_pods in
      record {
        apps_dict = rw apps d_apps;
        pods_dict = rw pods d_pods;
        index_dict = rw (index, same) u_index;
        named = get-apps "" ∙ ap (mapped (filled_app cluster)) sound.valid.named;
        keyed = λ k rec h.
            let (old, there, own, _) = from_app cluster (get k s.apps) rec (sym (get-apps k) ∙ h) in
            own ∙ sound.valid.keyed k old there;
        owned = λ k rec h.
            let (old, there, own, _) = from_pod cluster (get k s.pods) rec (sym (get-pods k) ∙ h) in
            known rec.application_id (rw own (sound.valid.owned k old there));
        indexed = λ a k h.
            let driver =
              reloaded-indexed s saveable fresh refl refl refl a k
                (sym (ap (get a) (index ∙ same)) ∙ h) in
            known a (
              All-Any (values s.pods) (λ rec there own. rw own at there)
                (All-values (λ rec. get rec.application_id s.apps ≢ none) s.pods
                  sound.valid.pods_dict sound.valid.owned)
                driver);
      }

  reloaded-IsSound : IsSound reloaded
  reloaded-IsSound = record {
    valid = reloaded-IsValid;
    stamped = λ k rec h.
        let (old, there, _, at) = from_app cluster (get k s.apps) rec (sym (get-apps k) ∙ h) in
        rw at (sound.stamped k old there);
    identified = λ k rec h.
        let (old, there, _, own) = from_pod cluster (get k s.pods) rec (sym (get-pods k) ∙ h) in
        let (uid, set) = sound.identified k old there in (own ∙ uid, set);
  }

-- A start, from no file or from the snapshot of a sound store, gives a sound store.
pub data IsSoundFile : Option StateSnapshot → Type 0 where
  no_file : IsSoundFile none
  of_sound : (s : Store) → IsSound s → IsSoundFile (some (snapshot_of s))

pub new_store-IsSound :
    (file : Option StateSnapshot) (path cluster : String) (max_apps max_pods : ℤ)
    → IsSoundFile file
    → IsSound (new_store file path cluster max_apps max_pods)
unfolding new_store load load_snapshot empty_store reloaded
new_store-IsSound _ path cluster max_apps max_pods no_file = elim (Bool-cases (path == "")) [
  | inl unnamed ↦ rw unnamed (empty-IsSound path cluster max_apps max_pods)
  | inr named ↦ rw named (empty-IsSound path cluster max_apps max_pods)
]
new_store-IsSound _ path cluster max_apps max_pods (of_sound s sound) =
    elim (Bool-cases (path == "")) [
      | inl unnamed ↦ rw unnamed (empty-IsSound path cluster max_apps max_pods)
      | inr named ↦
          reloaded-IsSound s sound path cluster max_apps max_pods (==false→ne path "" named)
    ]
