-- ===== src/Store/Evict/Candidates.antt =====
-- The records that `evictPodsLocked` may remove, before and after it sorts them.
use podwatcher.Prelude.{
  subst, String, ◌≡◌, ◌≢◌, sym, inl, inr, false, none, some, [], ◌∷◌, arith, ◌==◌, eq_iff, eq_refl,
  All, Any, Pairs, All-map, Bool-cases, Option-cases,
}
use podwatcher.Dict.{Dict, get, IsDict}
use podwatcher.Sort.{
  sort_by-All, sort_by-Any, sort_by-Pairs, sort_by-IsOrdered, IsOrdered, before, before-IsLess,
}
use podwatcher.Kube.{Time}
use podwatcher.Store.{Store, ApplicationRecord, PodRecord}
use podwatcher.Store.Evict.{Candidate, candidates, is_protected, sorted_candidates}

-- what the eviction may remove: deleted, and not the driver of a known application
abbrev pub IsReclaimable : Dict ApplicationRecord → PodRecord → Time → Type 0
IsReclaimable apps rec t =
    (rec.deleted_at ≡ some t) × (rec.role ≡ "driver" → get rec.application_id apps ≡ none)

unprotected :
    (apps : Dict ApplicationRecord) (rec : PodRecord)
    → is_protected apps rec ≡ false
    → rec.role ≡ "driver"
    → get rec.application_id apps ≡ none
unfolding is_protected
unprotected apps rec free role = elim (Option-cases (get rec.application_id apps)) [
  | inl unknown ↦ unknown
  | inr (app, known) ↦ absurd (ground (arith, known, eq_iff rec.role "driver"))
]

not_protected :
    (apps : Dict ApplicationRecord) (rec : PodRecord)
    → (rec.role ≡ "driver" → get rec.application_id apps ≡ none)
    → is_protected apps rec ≡ false
unfolding is_protected
not_protected apps rec free = elim (Bool-cases (rec.role == "driver")) [
  | inl driver ↦ ground (arith, free (ground (arith, eq_iff rec.role "driver")))
  | inr other ↦ ground (arith, other)
]

-- a candidate names a reclaimable record of the map
abbrev pub Names : Dict ApplicationRecord → Dict PodRecord → Candidate → Type 0
Names apps pods c = (rec : PodRecord) × (get c.key pods ≡ some rec) × IsReclaimable apps rec c.at

abbrev pub Differ : Candidate → Candidate → Type 0
Differ a b = a.key ≢ b.key

abbrev pub Is : String → Time → Candidate → Type 0
Is k t c = (c.key ≡ k) × (c.at ≡ t)

module _ (apps : Dict ApplicationRecord) where
  -- a key that is not in the map names no candidate
  candidates-absent :
      (k : String) (m : Dict PodRecord) → get k m ≡ none → All (λ c. k ≢ c.key) (candidates apps m)
  unfolding candidates get
  candidates-absent k [] h = tt
  candidates-absent k ((j, rec) ∷ m) h = elim (Bool-cases (j == k)) [
    | inl same ↦ absurd (ground arith)
    | inr other ↦
        let rest = candidates-absent k m (ground arith) in
        let ne : k ≢ j = ground (arith, eq_iff j k) in ground (arith, rest, ne)
  ]

  Names-cons :
      (j : String) (rec : PodRecord) (m : Dict PodRecord)
      → get j m ≡ none
      → (c : Candidate) → Names apps m c
      → Names apps ((j, rec) ∷ m) c
  unfolding get
  Names-cons j rec m absent c (x, g, r) = (x, ground (arith, eq_iff j c.key), r)

  get-here : (j : String) (rec : PodRecord) (m : Dict PodRecord) → get j ((j, rec) ∷ m) ≡ some rec
  unfolding get
  get-here j rec m = rw (eq_refl j)

  candidates-Names : (m : Dict PodRecord) → IsDict m → All (Names apps m) (candidates apps m)
  unfolding candidates
  candidates-Names [] d = tt
  candidates-Names ((j, rec) ∷ m) d =
      let rest = All-map (Names-cons j rec m d.0) (candidates apps m) (candidates-Names m d.1) in
      let here = get-here j rec m in
      elim (Option-cases rec.deleted_at) [
        | inl live ↦ simp live rest
        | inr (t, deleted) ↦ elim (Bool-cases (is_protected apps rec)) [
          | inl kept ↦ simp (deleted, kept) rest
          | inr free ↦
              simp (deleted, free) ((rec, here, (deleted, unprotected apps rec free)), rest)
        ]
      ]

  candidates-Differ : (m : Dict PodRecord) → IsDict m → Pairs Differ (candidates apps m)
  unfolding candidates
  candidates-Differ [] d = tt
  candidates-Differ ((j, rec) ∷ m) d =
      ground (arith, candidates-Differ m d.1, candidates-absent j m d.0)

  candidates_complete :
      (m : Dict PodRecord) (k : String) (rec : PodRecord) (t : Time)
      → get k m ≡ some rec
      → IsReclaimable apps rec t
      → Any (Is k t) (candidates apps m)
  unfolding candidates get
  candidates_complete [] k rec t h r = absurd (cc)
  candidates_complete ((j, x) ∷ m) k rec t h r = elim (Bool-cases (j == k)) [
    | inl same ↦
        let e : x ≡ rec = ground (arith, same) in
        let free = subst (λ r. is_protected apps r ≡ false) (sym e) (not_protected apps rec r.1) in
        ground (arith, eq_iff j k, free)
    | inr other ↦ ground (arith, candidates_complete m k rec t (ground arith) r)
  ]

-- The sorted candidates name reclaimable records, each one once, all of them, oldest first.
module _ (s : Store) (d : IsDict s.pods) where
  pub sorted_candidates-Names : All (Names s.apps s.pods) (sorted_candidates s)
  unfolding sorted_candidates
  sorted_candidates-Names = sort_by-All _ _ _ (candidates-Names s.apps s.pods d)

  pub sorted_candidates-Differ : Pairs Differ (sorted_candidates s)
  unfolding sorted_candidates
  sorted_candidates-Differ =
      sort_by-Pairs _ (λ a b h e. h (sym e)) _ (candidates-Differ s.apps s.pods d)

  pub sorted_candidates_complete :
      (k : String) (rec : PodRecord) (t : Time)
      → get k s.pods ≡ some rec
      → IsReclaimable s.apps rec t
      → Any (Is k t) (sorted_candidates s)
  unfolding sorted_candidates
  sorted_candidates_complete k rec t h r =
      sort_by-Any _ _ _ (candidates_complete s.apps s.pods k rec t h r)

pub sorted_candidates-IsOrdered :
    (s : Store) → IsOrdered (before (λ (c : Candidate). c.at)) (sorted_candidates s)
unfolding sorted_candidates
sorted_candidates-IsOrdered s = sort_by-IsOrdered (before-IsLess (λ (c : Candidate). c.at)) _
