-- ===== src/Store/Evict/Records.antt =====
-- The whole of `evictPodsLocked`.

use podwatcher.Prelude.{
  ℕ, ◌+◌, ◌≤◌, String, ◌≡◌, refl, ◌⊎◌, inl, inr, true, false, not, none, some, List, [], ◌∷◌, arith,
  leb, leb→le, length, All, Any, Bool-cases,
}
use podwatcher.Dict.{Dict, get, IsDict}
use podwatcher.Kube.{Time}
use podwatcher.Store.{Store, ApplicationRecord, PodRecord}
use podwatcher.Store.Valid.{IsValid}
use podwatcher.Store.Evict.{Candidate, evict_pods_loop, evict_pods, sorted_candidates}
use podwatcher.Store.Evict.Candidates.{
  IsReclaimable, Names, Is, sorted_candidates-Names, sorted_candidates-Differ,
  sorted_candidates_complete, sorted_candidates-IsOrdered,
}
use podwatcher.Store.Evict.Pods.{evict_pods_loop-Removes, evict_pods_loop-IsDict}

named-IsReclaimable :
    (apps : Dict ApplicationRecord) (pods : Dict PodRecord) (k : String) (t : Time) (r : PodRecord)
    (cands : List Candidate)
    → get k pods ≡ some r
    → All (Names apps pods) cands
    → Any (Is k t) cands
    → IsReclaimable apps r t
named-IsReclaimable apps pods k t r [] g names found = elim found [ ]
named-IsReclaimable apps pods k t r (c ∷ cands) g names (inl (same, at)) =
    let (rec, h, (deleted, free)) = names.0 in (ground arith, ground arith)
named-IsReclaimable apps pods k t r (c ∷ cands) g names (inr later) =
    named-IsReclaimable apps pods k t r cands g names.1 later

no_younger :
    (left : Dict PodRecord) (k : String) (d t : Time) (r : PodRecord) (cands : List Candidate)
    → get k left ≡ some r
    → All (λ c. (get c.key left ≡ none) ⊎ (d ≤ c.at)) cands
    → Any (Is k t) cands
    → d ≤ t
no_younger left k d t r [] g h found = elim found [ ]
no_younger left k d t r (c ∷ cands) g h (inl (same, at)) = ground arith
no_younger left k d t r (c ∷ cands) g h (inr later) = no_younger left k d t r cands g h.1 later

none_left :
    (left : Dict PodRecord) (k : String) (t : Time) (cands : List Candidate)
    → All (λ c. get c.key left ≡ none) cands
    → Any (Is k t) cands
    → get k left ≡ none
none_left left k t [] h found = elim found [ ]
none_left left k t (c ∷ cands) h (inl (same, at)) = rw (← same) h.0
none_left left k t (c ∷ cands) h (inr later) = none_left left k t cands h.1 later

-- `t` is `s` after the eviction of `n` pod records.
pub record PodsEvicted (s t : Store) (n : ℕ) : Type 0 where
  pub counted : length s.pods ≡ length t.pods + n
  -- within the limit, or what is left is live or protected
  pub fits :
      (length t.pods ≤ s.max_pods)
      ⊎ ((k : String) (r : PodRecord) (u : Time)
          → get k t.pods ≡ some r
          → ¬ IsReclaimable s.apps r u)
  -- no more is removed than the limit asks
  pub tight : (n ≡ 0) ⊎ (s.max_pods ≤ length t.pods)
  pub kept : (k : String) (r : PodRecord) → get k t.pods ≡ some r → get k s.pods ≡ some r
  -- what went was reclaimable, and deleted no later than any reclaimable record that stays
  pub oldest :
      (k : String) (r : PodRecord)
      → get k s.pods ≡ some r
      → get k t.pods ≡ none
      → (d : Time) × IsReclaimable s.apps r d
        × ((j : String) (w : PodRecord) (u : Time)
            → get j t.pods ≡ some w
            → IsReclaimable s.apps w u
            → d ≤ u)
  -- the warning is up exactly while the store is over its limit, and nothing else changes
  pub rest :
      t ≡ record s { pods = t.pods; over_limit_warned = not (leb (length t.pods) s.max_pods) }

module _ (s : Store) (d : IsDict s.pods) where
  loop : Dict PodRecord × ℕ
  loop = evict_pods_loop s.max_pods (sorted_candidates s) s.pods 0

  loop_store : Store
  unfolding loop
  loop_store = record s { pods = loop.0; over_limit_warned = not (leb (length loop.0) s.max_pods) }

  loop-PodsEvicted : PodsEvicted s loop_store loop.1
  unfolding loop loop_store
  loop-PodsEvicted =
      let names = sorted_candidates-Names s d in
      let (m, count, e) =
        evict_pods_loop-Removes s.apps s.max_pods (sorted_candidates s) s.pods 0 d names
          (sorted_candidates-Differ s d) (sorted_candidates-IsOrdered s) in
      let complete = sorted_candidates_complete s d in
      record {
        counted = omega (arith, e.counted);
        fits = elim e.fits [
          | inl fits ↦ inl fits
          | inr all ↦ inr (λ k r u g free. absurd (
              ground (
                arith,
                none_left loop.0 k u (sorted_candidates s) all (complete k r u (e.kept k r g) free),
              )))
        ];
        tight = elim e.tight [ inl zero_removed ↦ inl (omega arith) | inr full ↦ inr full ];
        kept = e.kept;
        oldest = λ k r g h.
            let (t, found, least) = e.gone k r g h in
            (
              t,
              named-IsReclaimable s.apps s.pods k t r (sorted_candidates s) g names found,
              λ j w u g' free.
                  no_younger loop.0 j t u w (sorted_candidates s) g' least
                    (complete j w u (e.kept j w g') free),
            );
        rest = refl;
      }

  within-PodsEvicted :
      leb (length s.pods) s.max_pods ≡ true
      → PodsEvicted s (record s { over_limit_warned = false }) 0
  within-PodsEvicted fits = record {
    counted = omega arith;
    fits = inl (leb→le _ _ fits);
    tight = inl refl;
    kept = λ k r g. g;
    oldest = λ k r g h. absurd (cc);
    rest = simp fits;
  }

  -- With distinct keys, `evict_pods` returns the count of what it removed. It removes records that
  -- are deleted and not a known application's driver, none that was deleted later than such a
  -- record that stays, and no more than the limit asks; what it leaves is within the limit or holds
  -- no such record. The overflow warning is up exactly when the limit is still passed, and the rest
  -- of the store is as it was.
  pub evict_pods-PodsEvicted : PodsEvicted s (evict_pods s).0 (evict_pods s).1
  unfolding evict_pods loop loop_store
  evict_pods-PodsEvicted = elim (Bool-cases (leb (length s.pods) s.max_pods)) [
    | inl fits ↦ rw (fits, evict_pods) (within-PodsEvicted fits)
    | inr over ↦ rw (over, evict_pods) loop-PodsEvicted
  ]

  evict_pods-IsDict : IsDict (evict_pods s).0.pods
  unfolding evict_pods
  evict_pods-IsDict = elim (Bool-cases (leb (length s.pods) s.max_pods)) [
    | inl fits ↦ rw (fits, evict_pods) d
    | inr over ↦
        rw (over, evict_pods) (evict_pods_loop-IsDict s.max_pods (sorted_candidates s) s.pods 0 d)
  ]

pub evict_pods-IsValid : (s : Store) → IsValid s → IsValid (evict_pods s).0
evict_pods-IsValid s v =
    let e = evict_pods-PodsEvicted s v.pods_dict in
    rw e.rest (record {
      apps_dict = v.apps_dict;
      pods_dict = evict_pods-IsDict s v.pods_dict;
      index_dict = v.index_dict;
      named = v.named;
      keyed = v.keyed;
      owned = λ k r g. v.owned k r (e.kept k r g);
      indexed = v.indexed;
    })
