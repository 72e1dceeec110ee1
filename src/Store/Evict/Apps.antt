-- ===== src/Store/Evict/Apps.antt =====
-- Eviction of applications: `deleteAppLocked` and `evictAppsLocked`.
use podwatcher.Prelude.{
  ℕ, zero, suc, ◌+◌, ◌≤◌, String, ◌≡◌, ◌≢◌, refl, inl, inr, none, some, arith, ◌==◌, eq_iff,
  eq_refl, length, Bool-cases, Option-cases,
}
use podwatcher.Dict.{get}
use podwatcher.Dict.Laws.{get-delete, get-delete_if, delete-IsDict, delete_if-IsDict, length-delete}
use podwatcher.Kube.{Time}
use podwatcher.Store.{Store, ApplicationRecord, PodRecord}
use podwatcher.Store.Evict.{delete_app, evict_apps_loop, evict_apps, oldest_deleted}
use podwatcher.Store.Valid.{IsValid}
use podwatcher.Store.Evict.Oldest.{oldest_deleted-least}

-- An invariant of the store that `delete_app` keeps is kept by the eviction.
module _ {ℓ} (P : Store → Type ℓ)
    (step : (s : Store) (id : String) → P s → P (delete_app id s)) where
  evict_apps_loop-keeps : (f : ℕ) (s : Store) (n : ℕ) → P s → P (evict_apps_loop f s n).0
  unfolding evict_apps_loop
  evict_apps_loop-keeps zero s n p = p
  evict_apps_loop-keeps (suc f) s n p = ground (
    arith,
    p,
    evict_apps_loop-keeps f (delete_app (oldest_deleted s) s) (n + 1) (step s (oldest_deleted s) p),
  )

  pub evict_apps-keeps : (s : Store) → P s → P (evict_apps s).0
  unfolding evict_apps
  evict_apps-keeps s p = evict_apps_loop-keeps (length s.apps) s 0 p

module _ (s : Store) (id : String) where
  pub delete_app-IsValid : IsValid s → IsValid (delete_app id s)
  unfolding delete_app
  delete_app-IsValid v = record {
    apps_dict = delete-IsDict id s.apps v.apps_dict;
    pods_dict = delete_if-IsDict (λ rec. rec.application_id == id) s.pods v.pods_dict;
    index_dict = delete-IsDict id s.driver_by_app v.index_dict;
    named = ground (arith, get-delete id "" s.apps, v.named);
    keyed = λ k rec h. ground (arith, get-delete id k s.apps, v.keyed k rec);
    owned = λ k rec h. ground (
      arith,
      get-delete_if (λ r. r.application_id == id) k s.pods v.pods_dict,
      get-delete id rec.application_id s.apps,
      eq_iff rec.application_id id,
      eq_iff id rec.application_id,
      v.owned k rec,
    );
    indexed = λ a k h.
        ground (arith, get-delete id a s.driver_by_app, get-delete id a s.apps, v.indexed a k);
  }

-- `t` is `s` after the eviction of `n` applications.
pub record Evicted (s t : Store) (n : ℕ) : Type 0 where
  pub counted : length s.apps ≡ length t.apps + n
  pub kept : (k : String) (v : ApplicationRecord) → get k t.apps ≡ some v → get k s.apps ≡ some v
  -- what went was deleted no later than any deleted application that stays
  pub oldest :
      (k : String) (v : ApplicationRecord)
      → get k s.apps ≡ some v
      → get k t.apps ≡ none
      → (d : Time) × (v.deleted_at ≡ some d)
        × ((j : String) (w : ApplicationRecord) (u : Time)
            → get j t.apps ≡ some w
            → w.deleted_at ≡ some u
            → d ≤ u)
  pub pods_kept : (k : String) (r : PodRecord) → get k t.pods ≡ some r → get k s.pods ≡ some r
  -- a pod record went only with its application
  pub cascade :
      (k : String) (r : PodRecord)
      → get k s.pods ≡ some r
      → get k t.pods ≡ none
      → (get r.application_id s.apps ≢ none) × (get r.application_id t.apps ≡ none)

pub Evicted-refl : (s : Store) → Evicted s s 0
Evicted-refl s = record {
  counted = omega arith;
  kept = λ k v h. h;
  oldest = λ k v h g. absurd (cc);
  pods_kept = λ k r h. h;
  cascade = λ k r h g. absurd (cc);
}

module _ {s t : Store} {n : ℕ} (v : IsValid s) (found : oldest_deleted s ≢ "")
    (e : Evicted (delete_app (oldest_deleted s) s) t n) where
  gone : get (oldest_deleted s) t.apps ≡ none
  unfolding delete_app
  gone = elim (Option-cases (get (oldest_deleted s) t.apps)) [
    | inl h ↦ h
    | inr (w, h) ↦ absurd (
        ground (
          arith,
          e.kept (oldest_deleted s) w h,
          get-delete (oldest_deleted s) (oldest_deleted s) s.apps,
          eq_refl (oldest_deleted s),
        ))
  ]

  step_kept : (k : String) (w : ApplicationRecord) → get k t.apps ≡ some w → get k s.apps ≡ some w
  unfolding delete_app
  step_kept k w h = ground (arith, e.kept k w h, get-delete (oldest_deleted s) k s.apps)

  step_oldest :
      (k : String) (w : ApplicationRecord)
      → get k s.apps ≡ some w
      → get k t.apps ≡ none
      → (d : Time) × (w.deleted_at ≡ some d)
        × ((j : String) (x : ApplicationRecord) (u : Time)
            → get j t.apps ≡ some x
            → x.deleted_at ≡ some u
            → d ≤ u)
  unfolding delete_app
  step_oldest k w h g = elim (Bool-cases (oldest_deleted s == k)) [
    | inl same ↦
        let (rec, d, at, deleted, least) = oldest_deleted-least s v.named v.apps_dict found in
        (
          d,
          ground (arith, eq_iff (oldest_deleted s) k),
          λ j x u hj hx. least j x u (step_kept j x hj) hx,
        )
    | inr other ↦ e.oldest k w (rw (get-delete, other) h) g
  ]

  step_cascade :
      (k : String) (r : PodRecord)
      → get k s.pods ≡ some r
      → get k t.pods ≡ none
      → (get r.application_id s.apps ≢ none) × (get r.application_id t.apps ≡ none)
  unfolding delete_app
  step_cascade k r h g = elim (Bool-cases (r.application_id == oldest_deleted s)) [
    | inl same ↦ (v.owned k r h, ground (arith, gone, eq_iff r.application_id (oldest_deleted s)))
    | inr other ↦ (
      v.owned k r h,
      (e.cascade k r
          (rw (get-delete_if (λ x. x.application_id == oldest_deleted s) k s.pods v.pods_dict, h)
            (rw other refl))
          g).1,
    )
  ]

  pub Evicted-step : Evicted s t (n + 1)
  unfolding delete_app
  Evicted-step = record {
    counted =
        let (rec, d, at, _, _) = oldest_deleted-least s v.named v.apps_dict found in
        omega (arith, length-delete (oldest_deleted s) rec s.apps v.apps_dict at, e.counted);
    kept = step_kept;
    oldest = step_oldest;
    pods_kept = λ k r h. ground (
      arith,
      e.pods_kept k r h,
      get-delete_if (λ x. x.application_id == oldest_deleted s) k s.pods v.pods_dict,
    );
    cascade = step_cascade;
  }
