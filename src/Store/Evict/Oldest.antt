-- ===== src/Store/Evict/Oldest.antt =====
-- The scan for the application to evict: `find_oldest` and `oldest_deleted`.
use podwatcher.Prelude.{
  ◌≤◌, String, ◌≡◌, ◌≢◌, refl, ◌⊎◌, inl, inr, none, some, [], ◌∷◌, arith, eq_iff, ap,
}
use podwatcher.Dict.{Dict, get, IsDict}
use podwatcher.Kube.{Time}
use podwatcher.Store.{Store, ApplicationRecord}
use podwatcher.Store.Valid.{IsNamed}
use podwatcher.Store.Evict.{Oldest, older, find_oldest, oldest_deleted}

older-empty :
    (best : Oldest) (id : String) (rec : ApplicationRecord)
    → id ≢ ""
    → (older best id rec).0 ≡ ""
    → (best.0 ≡ "") × (rec.deleted_at ≡ none)
unfolding older
older-empty best id rec h e = ground (arith, eq_iff best.0 "")

older-le :
    (best : Oldest) (id : String) (rec : ApplicationRecord) (t : Time)
    → id ≢ ""
    → ((best.0 ≢ "") → ((older best id rec).0 ≢ "") × ((older best id rec).1 ≤ best.1))
      × (rec.deleted_at ≡ some t → ((older best id rec).0 ≢ "") × ((older best id rec).1 ≤ t))
unfolding older
older-le best id rec t h = ground (arith, eq_iff best.0 "")

IsNamed-head :
    (id : String) (rec : ApplicationRecord) (m : Dict ApplicationRecord)
    → IsNamed ((id, rec) ∷ m)
    → (id ≢ "") × IsNamed m
unfolding get
IsNamed-head id rec m h = ground (arith, eq_iff id "")

find_oldest-empty :
    (m : Dict ApplicationRecord) (best : Oldest)
    → IsNamed m
    → (find_oldest m best).0 ≡ ""
    → (best.0 ≡ "")
      × ((k : String) (v : ApplicationRecord) → get k m ≡ some v → v.deleted_at ≡ none)
unfolding find_oldest get
find_oldest-empty [] best n h = (h, λ k v e. cc)
find_oldest-empty ((id, rec) ∷ m) best n h =
    let (named, n') = IsNamed-head id rec m n in
    let (e, rest) = find_oldest-empty m (older best id rec) n' h in
    let (b, d) = older-empty best id rec named e in (b, λ k v g. ground (arith, rest k v))

find_oldest-le :
    (m : Dict ApplicationRecord) (best : Oldest)
    → IsNamed m
    → (best.0 ≢ "" → ((find_oldest m best).0 ≢ "") × ((find_oldest m best).1 ≤ best.1))
      × ((k : String) (v : ApplicationRecord) (t : Time)
          → get k m ≡ some v
          → v.deleted_at ≡ some t
          → ((find_oldest m best).0 ≢ "") × ((find_oldest m best).1 ≤ t))
unfolding find_oldest get
find_oldest-le [] best n = (λ h. (h, omega arith), λ k v t g d. cc)
find_oldest-le ((id, rec) ∷ m) best n =
    let (named, n') = IsNamed-head id rec m n in
    let (kept, rest) = find_oldest-le m (older best id rec) n' in
    (
      λ h. ground (arith, kept, older-le best id rec 0 named),
      λ k v t g d. ground (arith, kept, older-le best id rec t named, rest k v t),
    )

older-found :
    (best : Oldest) (id : String) (rec : ApplicationRecord)
    → (older best id rec ≡ best)
      ⊎ (((older best id rec).0 ≡ id) × (rec.deleted_at ≡ some (older best id rec).1))
unfolding older
older-found best id rec = ground arith

abbrev Found : Dict ApplicationRecord → Oldest → Type 0
Found m r = (rec : ApplicationRecord) × (get r.0 m ≡ some rec) × (rec.deleted_at ≡ some r.1)

find_oldest-Found :
    (m : Dict ApplicationRecord) (best : Oldest)
    → IsDict m
    → (find_oldest m best ≡ best) ⊎ Found m (find_oldest m best)
unfolding find_oldest get
find_oldest-Found [] best d = inl refl
find_oldest-Found ((id, rec) ∷ m) best d = elim (find_oldest-Found m (older best id rec) d.1) [
  | inr (v, g, t) ↦ inr (v, ground (arith, eq_iff id (find_oldest m (older best id rec)).0), t)
  | inl same ↦ rw same (elim (older-found best id rec) [
    | inl kept ↦ inl kept
    | inr (i, t) ↦ inr (rec, ground (arith, eq_iff id (older best id rec).0), t)
  ])
]

module _ (s : Store) (n : IsNamed s.apps) where
  -- The scan finds nothing only if no application is deleted.
  pub oldest_deleted-empty :
      oldest_deleted s ≡ ""
      → (k : String) (v : ApplicationRecord) → get k s.apps ≡ some v
      → v.deleted_at ≡ none
  unfolding oldest_deleted
  oldest_deleted-empty h = (find_oldest-empty s.apps ("", 0) n h).1

  -- What the scan finds is a deleted application, and no deleted application is older.
  pub oldest_deleted-least :
      IsDict s.apps
      → oldest_deleted s ≢ ""
      → (rec : ApplicationRecord) × (t : Time) × (get (oldest_deleted s) s.apps ≡ some rec)
        × (rec.deleted_at ≡ some t)
        × ((k : String) (v : ApplicationRecord) (u : Time)
            → get k s.apps ≡ some v
            → v.deleted_at ≡ some u
            → t ≤ u)
  unfolding oldest_deleted
  oldest_deleted-least d h = elim (find_oldest-Found s.apps ("", 0) d) [
    | inl none_found ↦ absurd (h (ap (λ r. r.0) none_found))
    | inr (rec, g, t) ↦ (
      rec,
      (find_oldest s.apps ("", 0)).1,
      g,
      t,
      λ k v u g' d'. ((find_oldest-le s.apps ("", 0) n).1 k v u g' d').1,
    )
  ]
