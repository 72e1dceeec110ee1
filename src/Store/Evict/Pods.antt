-- ===== src/Store/Evict/Pods.antt =====
-- Eviction of pod records: `evictPodsLocked`.

use podwatcher.Prelude.{
  ℕ, ◌+◌, ◌≤◌, ◌<◌, String, ◌≡◌, refl, ◌⊎◌, inl, inr, false, none, some, List, [], ◌∷◌, arith, ◌==◌,
  eq_iff, eq_refl, ltb, leb, leb→le, length, All, Any, Pairs, All-map, Bool-cases, Option-cases,
}
use podwatcher.Dict.{Dict, get, delete, IsDict}
use podwatcher.Dict.Laws.{get-delete, delete-IsDict, length-delete}
use podwatcher.Sort.{IsOrdered, before}
use podwatcher.Kube.{Time}
use podwatcher.Store.{ApplicationRecord, PodRecord}
use podwatcher.Store.Evict.{Candidate, evict_pods_loop}
use podwatcher.Store.Evict.Candidates.{Names, Differ, Is}

-- a removed candidate, and every candidate that is still there is no older
abbrev pub IsGone : List Candidate → Dict PodRecord → String → Type 0
IsGone cands left k =
    (t : Time) × Any (Is k t) cands × All (λ c. (get c.key left ≡ none) ⊎ (t ≤ c.at)) cands

-- `left` is `pods` after the loop over `cands` removed `n` records
pub record Removes (max_pods : ℕ) (cands : List Candidate) (pods left : Dict PodRecord) (n : ℕ)
    : Type 0 where
  pub counted : length pods ≡ length left + n
  pub fits : (length left ≤ max_pods) ⊎ All (λ c. get c.key left ≡ none) cands
  pub tight : (n ≡ 0) ⊎ (max_pods ≤ length left)
  pub kept : (k : String) (r : PodRecord) → get k left ≡ some r → get k pods ≡ some r
  pub gone :
      (k : String) (r : PodRecord) → get k pods ≡ some r → get k left ≡ none → IsGone cands left k

Removes-stop :
    (max_pods : ℕ) (cands : List Candidate) (pods : Dict PodRecord)
    → (length pods ≤ max_pods) ⊎ (cands ≡ [])
    → Removes max_pods cands pods pods 0
Removes-stop max_pods cands pods h = record {
  counted = omega arith;
  fits = ground arith;
  tight = inl refl;
  kept = λ k r g. g;
  gone = λ k r g e. absurd (cc);
}

Names-delete :
    (apps : Dict ApplicationRecord) (pods : Dict PodRecord) (c x : Candidate)
    → Differ c x
    → Names apps pods x
    → Names apps (delete c.key pods) x
Names-delete apps pods c x ne (rec, g, r) =
    (rec, ground (arith, get-delete c.key x.key pods, eq_iff c.key x.key), r)

Names-delete-All :
    (apps : Dict ApplicationRecord) (pods : Dict PodRecord) (c : Candidate) (xs : List Candidate)
    → All (Differ c) xs
    → All (Names apps pods) xs
    → All (Names apps (delete c.key pods)) xs
Names-delete-All apps pods c [] h g = tt
Names-delete-All apps pods c (x ∷ xs) h g =
    (Names-delete apps pods c x h.0 g.0, Names-delete-All apps pods c xs h.1 g.1)

module _ (max_pods : ℕ) (c : Candidate) (cands : List Candidate) (pods left : Dict PodRecord)
    (n : ℕ) (d : IsDict pods) (present : (r : PodRecord) × (get c.key pods ≡ some r))
    (over : max_pods < length pods) (order : All (λ x. ltb x.at c.at ≡ false) cands)
    (e : Removes max_pods cands (delete c.key pods) left n) where
  head_gone : get c.key left ≡ none
  head_gone = elim (Option-cases (get c.key left)) [
    | inl h ↦ h
    | inr (w, h) ↦
        absurd (ground (arith, e.kept c.key w h, get-delete c.key c.key pods, eq_refl c.key))
  ]

  Removes-IsGone :
      (k : String) (r : PodRecord)
      → get k pods ≡ some r
      → get k left ≡ none
      → IsGone (c ∷ cands) left k
  Removes-IsGone k r g h = elim (Bool-cases (c.key == k)) [
    | inl same ↦ (
      c.at,
      inl (ground (arith, eq_iff c.key k), refl),
      (inl head_gone, All-map (λ x o. inr (ground arith)) cands order),
    )
    | inr other ↦
        let (t, found, least) = e.gone k r (rw (get-delete, other) g) h in
        (t, inr found, (inl head_gone, least))
  ]

  Removes-step : Removes max_pods (c ∷ cands) pods left (n + 1)
  Removes-step = record {
    counted = omega (arith, length-delete c.key present.0 pods d present.1, e.counted);
    fits = elim e.fits [ inl fits ↦ inl fits | inr all ↦ inr (head_gone, all) ];
    tight = inr (elim e.tight [
      | inl zero_more ↦ omega (arith, length-delete c.key present.0 pods d present.1, e.counted)
      | inr full ↦ full
    ]);
    kept = λ k r g. ground (arith, e.kept k r g, get-delete c.key k pods);
    gone = Removes-IsGone;
  }

pub evict_pods_loop-Removes :
    (apps : Dict ApplicationRecord) (max_pods : ℕ) (cands : List Candidate) (pods : Dict PodRecord)
    (n : ℕ)
    → IsDict pods
    → All (Names apps pods) cands
    → Pairs Differ cands
    → IsOrdered (before (λ (c : Candidate). c.at)) cands
    → (m : ℕ) × ((evict_pods_loop max_pods cands pods n).1 ≡ n + m)
      × Removes max_pods cands pods (evict_pods_loop max_pods cands pods n).0 m
unfolding evict_pods_loop
evict_pods_loop-Removes apps max_pods [] pods n d names differ order =
    (0, omega arith, Removes-stop max_pods [] pods (inr refl))
evict_pods_loop-Removes apps max_pods (c ∷ cands) pods n d names differ order =
    elim (Bool-cases (leb (length pods) max_pods)) [
      | inl fits ↦
          rw fits (0, omega arith, Removes-stop max_pods (c ∷ cands) pods (inl (leb→le _ _ fits)))
      | inr over ↦
          let (m, count, e) =
            evict_pods_loop-Removes apps max_pods cands (delete c.key pods) (n + 1)
              (delete-IsDict c.key pods d) (Names-delete-All apps pods c cands differ.0 names.1)
              differ.1 order.1 in
          rw over (
            m + 1,
            omega arith,
            Removes-step max_pods c cands pods _ m d (names.0.0, names.0.1) (ground arith) order.0
                e,
          )
    ]

pub evict_pods_loop-IsDict :
    (max_pods : ℕ) (cands : List Candidate) (pods : Dict PodRecord) (n : ℕ)
    → IsDict pods
    → IsDict (evict_pods_loop max_pods cands pods n).0
unfolding evict_pods_loop
evict_pods_loop-IsDict max_pods [] pods n d = d
evict_pods_loop-IsDict max_pods (c ∷ cands) pods n d =
    elim (Bool-cases (leb (length pods) max_pods)) [
      | inl fits ↦ rw fits d
      | inr over ↦ rw over (
          evict_pods_loop-IsDict max_pods cands (delete c.key pods) (n + 1)
            (delete-IsDict c.key pods d))
    ]
