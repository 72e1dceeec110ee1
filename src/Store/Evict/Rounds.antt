-- ===== src/Store/Evict/Rounds.antt =====
-- The whole loop of `evictAppsLocked`.
use Prim.Native.Nat.add
use podwatcher.Prelude.{
  ℕ, zero, suc, ◌+◌, ◌≤◌, ◌<◌, String, refl, ap, ◌≡◌, ◌≢◌, ◌⊎◌, inl, inr, none, some, arith, ◌==◌,
  eq_iff, leb, leb→le, length, Bool-cases,
}
use podwatcher.Dict.{get}
use podwatcher.Store.{Store, ApplicationRecord}
use podwatcher.Store.Valid.{IsValid}
use podwatcher.Store.Evict.{delete_app, evict_apps_loop, evict_apps, oldest_deleted}
use podwatcher.Store.Evict.Oldest.{oldest_deleted-empty}
use podwatcher.Store.Evict.Apps.{
  Evicted, Evicted-refl, Evicted-step, delete_app-IsValid, evict_apps-keeps,
}

-- The store is within its limit, or nothing is left to evict.
abbrev pub IsConverged : Store → Type 0
IsConverged t =
    (length t.apps ≤ t.max_apps)
    ⊎ ((k : String) (v : ApplicationRecord) → get k t.apps ≡ some v → v.deleted_at ≡ none)

-- After `n` evictions: nothing more was evicted, or no more than brings the store down to its limit.
abbrev pub IsTight : Store → ℕ → Store × ℕ → Type 0
IsTight s n r = (r ≡ (s, n)) ⊎ ((s.max_apps < length s.apps) × (s.max_apps ≤ length r.0.apps))

abbrev Evicts : Store → ℕ → Store × ℕ → Type 0
Evicts s n r = (m : ℕ) × (r.1 ≡ n + m) × Evicted s r.0 m × IsConverged r.0 × IsTight s n r

delete_app-max_apps : (s : Store) (id : String) → (delete_app id s).max_apps ≡ s.max_apps
unfolding delete_app
delete_app-max_apps s id = refl

-- One round takes away one application of a store that is over its limit.
IsTight-step :
    (s : Store) (n : ℕ) (r : Store × ℕ)
    → IsValid s
    → oldest_deleted s ≢ ""
    → s.max_apps < length s.apps
    → IsTight (delete_app (oldest_deleted s) s) (n + 1) r
    → IsTight s n r
IsTight-step s n r v found over (inl done) =
    let one = (Evicted-step v found (Evicted-refl (delete_app (oldest_deleted s) s))).counted in
    let same = ap (λ x. length x.0.apps) done in inr (over, omega (arith, one, same))
IsTight-step s n r v found over (inr (_, left)) =
    inr (over, omega (arith, left, delete_app-max_apps s (oldest_deleted s)))

Evicts-step :
    (s : Store) (n : ℕ) (r : Store × ℕ)
    → IsValid s
    → oldest_deleted s ≢ ""
    → s.max_apps < length s.apps
    → Evicts (delete_app (oldest_deleted s) s) (n + 1) r
    → Evicts s n r
Evicts-step s n r v found over (m, e, gone, c, tight) =
    (m + 1, omega arith, Evicted-step v found gone, c, IsTight-step s n r v found over tight)

Evicts-done : (s : Store) (n : ℕ) → IsConverged s → Evicts s n (s, n)
Evicts-done s n c = (0, omega arith, Evicted-refl s, c, inl refl)

pub delete_app-length :
    (s : Store)
    → IsValid s
    → oldest_deleted s ≢ ""
    → (f : ℕ) → length s.apps ≤ suc f
    → length (delete_app (oldest_deleted s) s).apps ≤ f
delete_app-length s v found f h =
    omega (arith, (Evicted-step v found (Evicted-refl (delete_app (oldest_deleted s) s))).counted)

evict_apps_loop-Evicts :
    (f : ℕ) (s : Store) (n : ℕ) → IsValid s → length s.apps ≤ f → Evicts s n (evict_apps_loop f s n)
unfolding evict_apps_loop
evict_apps_loop-Evicts zero s n v h = Evicts-done s n (inl (omega arith))
evict_apps_loop-Evicts (suc f) s n v h = elim (Bool-cases (leb (length s.apps) s.max_apps)) [
  | inl fits ↦ rw fits (Evicts-done s n (inl (leb→le _ _ fits)))
  | inr over ↦ elim (Bool-cases (oldest_deleted s == "")) [
    | inl nothing ↦
        rw (over, nothing)
          (Evicts-done s n (inr (oldest_deleted-empty s v.named ((eq_iff _ _).0 nothing))))
    | inr found ↦
        let named : oldest_deleted s ≢ "" = ground (arith, eq_iff (oldest_deleted s) "") in
        rw (over, found)
          (Evicts-step s n _ v named (ground (arith, over)) (
            evict_apps_loop-Evicts f (delete_app (oldest_deleted s) s) (n + 1)
              (delete_app-IsValid s (oldest_deleted s) v) (delete_app-length s v named f h)))
  ]
]

-- From a valid store, `evict_apps` returns the count of what it removed, and what it leaves is
-- within the limit or holds no deleted application. It removes nothing from a store within its limit,
-- and from another no more than brings it down to the limit. It removes deleted applications only, no
-- survivor was deleted earlier than one that went, every other record is left as it was, and a pod
-- record goes only with its application.
pub evict_apps-Evicted :
    (s : Store)
    → IsValid s
    → Evicted s (evict_apps s).0 (evict_apps s).1
      × IsConverged (evict_apps s).0
      × IsTight s 0 (evict_apps s)
unfolding evict_apps
evict_apps-Evicted s v =
    let (m, e, gone, c, tight) = evict_apps_loop-Evicts (length s.apps) s 0 v (omega arith) in
    (rw (e, add.zero m) gone, c, tight)

-- The eviction keeps the invariant: the pod records and index entries of what went are gone too.
pub evict_apps-IsValid : (s : Store) → IsValid s → IsValid (evict_apps s).0
evict_apps-IsValid = evict_apps-keeps IsValid delete_app-IsValid
