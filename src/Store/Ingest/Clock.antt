-- ===== src/Store/Ingest/Clock.antt =====
-- The change clock after records are loaded: internal/store/state_store.go, `ingestAppsLocked`.
use podwatcher.Prelude.{
  ◌+◌, ◌≤◌, ◌<◌, String, ◌≡◌, refl, sym, ap, ◌∙◌, true, false, not, some, List, [], ◌∷◌, arith,
  ◌==◌, eq_iff, if◌then◌else◌, Bool-cases, inl, inr, Any, ◌⊎◌,
}
use podwatcher.Dict.{Dict, get, put}
use podwatcher.Dict.Laws.{get-put}
use podwatcher.Kube.{Time, is_zero, millisecond}
use podwatcher.Sort.{sort_by-Any, before}
use podwatcher.Store.{Store, ApplicationRecord, PodRecord}
use podwatcher.Store.Ingest.{
  Missing, has_id, missing_of, max_time, latest_of, put_apps, stamp_all, start_clock,
  sorted_missing, ingest_apps, ingest,
}
use podwatcher.Store.Ingest.Index.{ingest_pods-apps}

-- a record without a time that the map still points at
abbrev Is : String → Missing → Type 0
Is k m = (m.current ≡ true) × (m.rec.application_id ≡ k)

latest_of-le : (rs : List ApplicationRecord) (latest : Time) → latest ≤ latest_of rs latest
unfolding latest_of
latest_of-le [] latest = omega arith
latest_of-le (r ∷ rs) latest = ground (arith, latest_of-le rs (max_time latest r.changed_at))

missing_of-later :
    (k : String) (r : ApplicationRecord) (rs : List ApplicationRecord)
    → Any (Is k) (missing_of rs)
    → Any (Is k) (missing_of (r ∷ rs))
unfolding missing_of
missing_of-later k r rs found = elim (Bool-cases (is_zero r.changed_at)) [
  | inl unstamped ↦ rw unstamped (inr found)
  | inr stamped ↦ rw stamped found
]

missing_of-first :
    (k : String) (r : ApplicationRecord) (rs : List ApplicationRecord)
    → r.changed_at ≡ 0
    → r.application_id ≡ k
    → has_id k rs ≡ false
    → Any (Is k) (missing_of (r ∷ rs))
unfolding missing_of
missing_of-first k r rs unstamped same hidden =
    let at_zero : is_zero r.changed_at ≡ true = ground (arith, unstamped) in
    let current : not (has_id r.application_id rs) ≡ true = cc (same, hidden) in
    rw at_zero (inl (current, same))

-- what the indexed map has of a key: the old entry, or a record of the list that no later one hides
put_apps-get :
    (rs : List ApplicationRecord) (apps : Dict ApplicationRecord) (latest : Time) (k : String)
    (rec : ApplicationRecord)
    → get k (put_apps rs apps) ≡ some rec
    → ((get k apps ≡ some rec) × (has_id k rs ≡ false))
      ⊎ ((rec.changed_at ≤ latest_of rs latest) × (rec.changed_at ≡ 0 → Any (Is k) (missing_of rs)))
unfolding put_apps latest_of has_id
put_apps-get [] apps latest k rec h = inl (h, refl)
put_apps-get (r ∷ rs) apps latest k rec h =
    let at = get-put r.application_id k r apps in
    let next = max_time latest r.changed_at in
    elim (put_apps-get rs (put r.application_id r apps) next k rec h) [
      | inl (here, hidden) ↦ elim (Bool-cases (r.application_id == k)) [
        | inl same ↦
            let e : r ≡ rec = ground (arith, at, same, here) in
            let own : r.application_id ≡ k = ground (arith, eq_iff r.application_id k) in
            inr (
              rw⁻¹ e (ground (arith, latest_of-le rs next)),
              λ unstamped.
                  missing_of-first k r rs (ap (λ x. x.changed_at) e ∙ unstamped) own hidden,
            )
        | inr other ↦ inl (ground (arith, at, other, here), ground (arith, other, hidden))
      ]
      | inr (late, listed) ↦ inr (late, λ unstamped. missing_of-later k r rs (listed unstamped))
    ]

-- what a stamp does to one key
stamp-get :
    (m : Missing) (tick : Time) (apps : Dict ApplicationRecord) (k : String)
    (rec : ApplicationRecord)
    → get k (
        if m.current
        then put m.rec.application_id (record m.rec { changed_at = tick }) apps
        else apps)
      ≡ some rec
    → ((get k apps ≡ some rec) × ¬ Is k m) ⊎ (rec.changed_at ≡ tick)
stamp-get m tick apps k rec h =
    let stamped = record m.rec { changed_at = tick } in
    let at = get-put m.rec.application_id k stamped apps in
    elim (Bool-cases m.current) [
      | inl current ↦ elim (Bool-cases (m.rec.application_id == k)) [
        | inl same ↦
            let e : stamped ≡ rec = ground (arith, at, same, current, h) in
            inr (sym (ap (λ x. x.changed_at) e))
        | inr other ↦ inl (
          ground (arith, at, other, current, h),
          λ own. ground (arith, eq_iff m.rec.application_id k),
        )
      ]
      | inr hidden ↦ inl (ground (arith, hidden, h), λ own. ground (arith, hidden))
    ]

-- Each stamp is later than the clock, and the clock is the last one.
stamp_all-get :
    (ms : List Missing) (clock : Time) (apps : Dict ApplicationRecord) (k : String)
    (rec : ApplicationRecord)
    → get k (stamp_all clock ms apps).0 ≡ some rec
    → (clock ≤ (stamp_all clock ms apps).1)
      × ((get k apps ≡ some rec)
          ⊎ ((clock < rec.changed_at) × (rec.changed_at ≤ (stamp_all clock ms apps).1)))
      × (Any (Is k) ms → clock < rec.changed_at)
unfolding stamp_all
stamp_all-get [] clock apps k rec h = (omega arith, inl h, λ found. absurd found)
stamp_all-get (m ∷ ms) clock apps k rec h =
    let tick = clock + millisecond in
    let next =
      if m.current
      then put m.rec.application_id (record m.rec { changed_at = tick }) apps
      else apps in
    let (later, origin, listed) = stamp_all-get ms tick next k rec h in
    (
      omega (arith, later),
      elim origin [
        | inl here ↦ elim (stamp-get m tick apps k rec here) [
          | inl (before, other) ↦ inl before
          | inr now ↦ inr (omega (arith, now), omega (arith, now, later))
        ]
        | inr (after, within) ↦ inr (omega (arith, after), within)
      ],
      λ found. elim found [
        | inl own ↦ elim origin [
          | inl here ↦ elim (stamp-get m tick apps k rec here) [
            | inl (before, other) ↦ absurd (other own)
            | inr now ↦ omega (arith, now)
          ]
          | inr (after, within) ↦ omega (arith, after)
        ]
        | inr more ↦ omega (arith, listed more)
      ],
    )

-- every application has a time of change, and none after the store's last change
abbrev pub IsClocked : Store → Type 0
IsClocked s =
    (k : String) (rec : ApplicationRecord)
    → get k s.apps ≡ some rec
    → (0 < rec.changed_at) × (rec.changed_at ≤ s.last_changed)

start_clock-le : (ms : List Missing) (latest : Time) → latest ≤ start_clock ms latest
unfolding start_clock
start_clock-le [] latest = omega arith
start_clock-le (m ∷ ms) latest = ground arith

sorted_missing-Any :
    (k : String) (records : List ApplicationRecord)
    → Any (Is k) (missing_of records)
    → Any (Is k) (sorted_missing records)
unfolding sorted_missing
sorted_missing-Any k records found = sort_by-Any _ _ (missing_of records) found

pub ingest_apps-IsClocked :
    (records : List ApplicationRecord) (s : Store) → IsClocked s → IsClocked (ingest_apps records s)
unfolding ingest_apps
ingest_apps-IsClocked records s clocked k rec h =
    let latest = latest_of records 0 in
    let missing = sorted_missing records in
    let start = start_clock missing latest in
    let from = start_clock-le missing latest in
    let (later, origin, listed) = stamp_all-get missing start (put_apps records s.apps) k rec h in
    elim origin [
      | inr (after, within) ↦ (omega (arith, after), ground (arith, within))
      | inl here ↦ elim (put_apps-get records s.apps 0 k rec here) [
        | inl (old, hidden) ↦
            let (stamped, within) = clocked k rec old in (stamped, ground (arith, within))
        | inr (late, unlisted) ↦ elim (Bool-cases (is_zero rec.changed_at)) [
          | inl unstamped ↦ absurd (
              omega (
                arith,
                listed (sorted_missing-Any k records (unlisted (ground (arith, unstamped)))),
              ))
          | inr stamped ↦ (ground (arith, stamped), ground (arith, late, from, later))
        ]
      ]
    ]

-- Loading records, with or without times of change, into a store whose applications all have one
-- leaves every application with one, and none after the store's last change, so that the next live
-- change is later than all of them.
pub ingest-IsClocked :
    (records : List ApplicationRecord) (pods : List PodRecord) (s : Store)
    → IsClocked s
    → IsClocked (ingest records pods s)
unfolding ingest
ingest-IsClocked records pods s clocked k rec h =
    let t = ingest_apps records s in
    let (apps, last_changed, cluster) = ingest_pods-apps pods t in
    rw last_changed (ingest_apps-IsClocked records s clocked k rec (ap (get k) (sym apps) ∙ h))
