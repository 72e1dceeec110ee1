-- ===== src/Store/Evict/Fuel.antt =====
-- The loop of `evictAppsLocked` ends: its rounds are no more than the applications.
use podwatcher.Prelude.{
  ℕ, zero, suc, ◌+◌, ◌≤◌, ◌≡◌, ◌≢◌, refl, sym, inl, inr, arith, ◌==◌, eq_iff, leb, length,
  Bool-cases, Bool, true, false, ◌||◌,
}
use podwatcher.Store.{Store}
use podwatcher.Store.Valid.{IsValid}
use podwatcher.Store.Evict.{delete_app, evict_apps_loop, evict_apps, oldest_deleted}
use podwatcher.Store.Evict.Apps.{delete_app-IsValid}
use podwatcher.Store.Evict.Rounds.{delete_app-length}

-- the tests that leave the loop
abbrev pub is_over : Store → Bool
is_over s = leb (length s.apps) s.max_apps || oldest_deleted s == ""

evict_apps_loop-done :
    (f : ℕ) (s : Store) (n : ℕ) → is_over s ≡ true → evict_apps_loop f s n ≡ (s, n)
unfolding evict_apps_loop
evict_apps_loop-done zero s n over = refl
evict_apps_loop-done (suc f) s n over = ground (arith, over)

evict_apps_loop-on :
    (f : ℕ) (s : Store) (n : ℕ)
    → is_over s ≡ false
    → evict_apps_loop (suc f) s n ≡ evict_apps_loop f (delete_app (oldest_deleted s) s) (n + 1)
unfolding evict_apps_loop
evict_apps_loop-on f s n on = ground (arith, on)

-- With rounds for every application the loop leaves by its own tests, and more rounds change nothing.
evict_apps_loop-enough :
    (f g : ℕ) (s : Store) (n : ℕ)
    → IsValid s
    → length s.apps ≤ f
    → length s.apps ≤ g
    → (evict_apps_loop f s n ≡ evict_apps_loop g s n) × (is_over (evict_apps_loop f s n).0 ≡ true)
evict_apps_loop-enough zero g s n v hf hg =
    let over : is_over s ≡ true = ground arith in
    rw (evict_apps_loop-done zero s n over, evict_apps_loop-done g s n over) (refl, over)
evict_apps_loop-enough (suc f) zero s n v hf hg =
    let over : is_over s ≡ true = ground arith in
    rw (evict_apps_loop-done (suc f) s n over, evict_apps_loop-done zero s n over) (refl, over)
evict_apps_loop-enough (suc f) (suc g) s n v hf hg = elim (Bool-cases (is_over s)) [
  | inl over ↦
      rw (evict_apps_loop-done (suc f) s n over, evict_apps_loop-done (suc g) s n over) (refl, over)
  | inr on ↦
      let named : oldest_deleted s ≢ "" = ground (arith, on, eq_iff (oldest_deleted s) "") in
      rw (evict_apps_loop-on f s n on, evict_apps_loop-on g s n on)
        (evict_apps_loop-enough f g (delete_app (oldest_deleted s) s) (n + 1)
          (delete_app-IsValid s (oldest_deleted s) v) (delete_app-length s v named f hf)
          (delete_app-length s v named g hg))
]

-- The eviction of applications ends by the code's own tests: the number of applications is rounds
-- enough, any greater number gives the same store and count, and what is left is within the limit or
-- has nothing to evict.
pub evict_apps-rounds :
    (rounds : ℕ) (s : Store)
    → IsValid s
    → length s.apps ≤ rounds
    → (evict_apps_loop rounds s 0 ≡ evict_apps s) × (is_over (evict_apps s).0 ≡ true)
unfolding evict_apps
evict_apps-rounds rounds s v enough =
    let (same, over) = evict_apps_loop-enough (length s.apps) rounds s 0 v (omega arith) enough in
    (sym same, over)
