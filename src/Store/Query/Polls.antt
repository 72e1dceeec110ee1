-- ===== src/Store/Query/Polls.antt =====
-- What the feed has for a reader who has read everything, after one observed pod.
use podwatcher.Prelude.{
  ◌≤◌, ◌<◌, String, ◌≡◌, ◌≢◌, ◌⊎◌, inl, inr, refl, sym, ap, ◌∙◌, Bool, true, false, none, some,
  List, [], ◌∷◌, arith, eq_iff, ◌==◌, ==false→ne, Bool-cases, Option-cases, keep_if, ltb, pos_part,
  ℤ, All, ◌&&◌,
}
use podwatcher.Dict.{Dict, get, values, IsDict}
use podwatcher.Dict.Laws.{All-values, get-head, get-tail}
use podwatcher.Kube.{Time, Pod}
use podwatcher.Sort.{sort_by}
use podwatcher.Spark.{app_id_from_pod}
use podwatcher.Store.{Store, ApplicationRecord, ApplicationView}
use podwatcher.Store.Valid.{IsValid}
use podwatcher.Store.Application.Lifecycle.{SameLife, next_change-lt}
use podwatcher.Store.Ingest.Clock.{IsClocked}
use podwatcher.Store.Query.{view, is_change, status_set, matched, get_changes}
use podwatcher.Store.Upsert.{upsert_pod}
use podwatcher.Store.Upsert.Frame.{IsTracked, last_changed-upsert}
use podwatcher.Store.Upsert.Feed.{upsert-others, upsert_pod-feed}
use podwatcher.Store.Upsert.Valid.{upsert-IsValid}

module _ {V : Type 0} (p : V → Bool) where
  keep_if_none : (xs : List V) → All (λ v. p v ≡ false) xs → keep_if p xs ≡ []
  unfolding keep_if
  keep_if_none [] h = refl
  keep_if_none (x ∷ xs) h = rw (h.0, keep_if_none xs h.1) refl

  -- a key of the rest of a map is not the first key
  key_of_rest : (i j : String) (v : V) (m : Dict V) → get i m ≡ none → get j m ≡ some v → j ≢ i
  key_of_rest i j v m absent there e =
      let lost : none ≡ some v = sym absent ∙ ap (λ x. get x m) (sym e) ∙ there in cc

  -- of a map that has one value that passes, that one is kept
  keep_if_only :
      (k : String) (v : V) (m : Dict V)
      → IsDict m
      → get k m ≡ some v
      → p v ≡ true
      → ((j : String) (w : V) → get j m ≡ some w → j ≢ k → p w ≡ false)
      → keep_if p (values m) ≡ v ∷ []
  unfolding keep_if get
  keep_if_only k v [] d there passes others = absurd (cc)
  keep_if_only k v ((i, w) ∷ m) d there passes others = elim (Bool-cases (i == k)) [
    | inl here ↦
        let key : i ≡ k = ground (arith, eq_iff i k) in
        let found : some w ≡ some v = (rw here at there) in
        let same : w ≡ v = cc in
        let rest = keep_if_none (values m) (
          All-values (λ u. p u ≡ false) m d.1
            (λ j u h.
              others j u (get-tail i j w u m d.0 h)
                (λ e. key_of_rest i j u m d.0 h (e ∙ sym key)))) in
        rw (ap p same ∙ passes, rest) (ap (λ u. u ∷ []) same)
    | inr elsewhere ↦
        let fails = others i w (get-head i w m) (==false→ne i k elsewhere) in
        let later : get k m ≡ some v = (rw elsewhere at there) in
        rw fails
          (keep_if_only k v m d.1 later passes (λ j u h. others j u (get-tail i j w u m d.0 h)))
  ]

-- What an answer says of an application that one store has and a later one: it alone, changed after the
-- last change, or nothing, as it is not kept or as its life is the same.
abbrev pub IsDelta : (s t : Store) → String → Time → List ApplicationView × Bool → Type 0
IsDelta s t app_id now answer =
    ((new : ApplicationRecord) × (get app_id t.apps ≡ some new)
      × (answer ≡ (view t new ∷ [], false))
      × (s.last_changed < new.changed_at)
      × (now ≤ new.changed_at))
    ⊎ ((answer ≡ ([], false))
        × ((get app_id t.apps ≡ none)
            ⊎ ((new old : ApplicationRecord) × (get app_id t.apps ≡ some new)
                × (get app_id s.apps ≡ some old)
                × SameLife new old
                × (new.changed_at ≡ old.changed_at))))

module _ (s : Store) (pod : Pod) (deleted : Bool) (now : Time) (valid : IsValid s)
    (clocked : IsClocked s) (clock : s.last_changed ≢ 0) (tracked : IsTracked pod) where
  observed : Store
  observed = upsert_pod s pod deleted now

  -- what a reader of every application that came after the last change gets
  poll : ℤ → List ApplicationView × Bool
  poll limit = get_changes observed observed s.last_changed limit "" []

  others_old :
      (j : String) (rec : ApplicationRecord)
      → get j observed.apps ≡ some rec
      → j ≢ app_id_from_pod pod
      → is_change s.last_changed "" [] rec ≡ false
  unfolding observed upsert_pod is_change
  others_old j rec h other =
      let (_, old) = clocked j rec (upsert-others s pod deleted false now tracked j rec other h) in
      ground (arith, old)

  observed-IsValid : IsValid observed
  unfolding observed upsert_pod
  observed-IsValid = upsert-IsValid s valid pod deleted false now

  observed-IsDict : IsDict observed.apps
  unfolding observed upsert_pod
  observed-IsDict = (upsert-IsValid s valid pod deleted false now).apps_dict

  changed_poll :
      (new : ApplicationRecord) (limit : ℤ)
      → get (app_id_from_pod pod) observed.apps ≡ some new
      → s.last_changed < new.changed_at
      → poll limit ≡ (view observed new ∷ [], false)
  unfolding poll get_changes matched status_set sort_by keep_if
  changed_poll new limit h late =
      let passes : is_change s.last_changed "" [] new ≡ true = ground arith in
      let whole : (ltb 0 (pos_part limit) && ltb (pos_part limit) 1) ≡ false = ground arith in
      rw
        (keep_if_only (is_change s.last_changed "" []) (app_id_from_pod pod) new observed.apps
          observed-IsDict h passes others_old)
        (rw whole refl)

  unchanged :
      ((new : ApplicationRecord)
        → get (app_id_from_pod pod) observed.apps ≡ some new
        → new.changed_at ≤ s.last_changed)
      → (j : String) (rec : ApplicationRecord) → get j observed.apps ≡ some rec
      → is_change s.last_changed "" [] rec ≡ false
  unfolding is_change
  unchanged own j rec h = elim (Bool-cases (j == app_id_from_pod pod)) [
    | inl mine ↦
        let key : j ≡ app_id_from_pod pod = ground (arith, eq_iff j (app_id_from_pod pod)) in
        let early = own rec (sym (ap (λ k. get k observed.apps) key) ∙ h) in ground (arith, early)
    | inr other ↦ others_old j rec h (==false→ne j (app_id_from_pod pod) other)
  ]

  unchanged_poll :
      (limit : ℤ)
      → ((new : ApplicationRecord)
          → get (app_id_from_pod pod) observed.apps ≡ some new
          → new.changed_at ≤ s.last_changed)
      → poll limit ≡ ([], false)
  unfolding poll get_changes matched status_set sort_by keep_if
  unchanged_poll limit own =
      let whole : (ltb 0 (pos_part limit) && ltb (pos_part limit) 0) ≡ false = ground arith in
      rw
        (keep_if_none (is_change s.last_changed "" []) (values observed.apps) (
          All-values (λ rec. is_change s.last_changed "" [] rec ≡ false) observed.apps
            observed-IsDict (unchanged own)))
        (rw whole refl)

  known_old :
      (old new : ApplicationRecord)
      → get (app_id_from_pod pod) s.apps ≡ some old
      → get (app_id_from_pod pod) observed.apps ≡ some new
      → new.changed_at ≡ old.changed_at
      → (r : ApplicationRecord) → get (app_id_from_pod pod) observed.apps ≡ some r
      → r.changed_at ≤ s.last_changed
  known_old old new known kept at r h =
      let same : new ≡ r = cc in
      let changed : r.changed_at ≡ old.changed_at = sym (ap (λ x. x.changed_at) same) ∙ at in
      let (_, within) = clocked (app_id_from_pod pod) old known in omega (arith, changed, within)

  others_same :
      (j : String) (rec : ApplicationRecord)
      → get j observed.apps ≡ some rec
      → j ≢ app_id_from_pod pod
      → get j s.apps ≡ some rec
  unfolding observed upsert_pod
  others_same j rec h other = upsert-others s pod deleted false now tracked j rec other h

  own_clocked :
      (rec : ApplicationRecord)
      → get (app_id_from_pod pod) observed.apps ≡ some rec
      → (0 < rec.changed_at) × (rec.changed_at ≤ observed.last_changed)
  unfolding observed
  own_clocked rec h = elim (upsert_pod-feed s pod deleted now tracked rec clock h) [
    | inl (late, _, last) ↦ (omega (arith, late), omega (arith, last))
    | inr (old, known, _, at, last) ↦
        let (set, within) = clocked (app_id_from_pod pod) old known in
        (omega (arith, set, at), omega (arith, within, at, last))
  ]

  later_clock : s.last_changed ≤ observed.last_changed
  unfolding observed upsert_pod
  later_clock =
      let next = next_change-lt s.last_changed now clock in
      ground (arith, last_changed-upsert s pod deleted false now tracked, next)

  -- the clock goes on
  observed-IsClocked : IsClocked observed
  observed-IsClocked k rec h = elim (Bool-cases (k == app_id_from_pod pod)) [
    | inr other ↦
        let name = ==false→ne k (app_id_from_pod pod) other in
        let (set, within) = clocked k rec (others_same k rec h name) in
        (set, omega (arith, within, later_clock))
    | inl mine ↦
        let key : k ≡ app_id_from_pod pod = ground (arith, eq_iff k (app_id_from_pod pod)) in
        own_clocked rec (sym (ap (λ j. get j observed.apps) key) ∙ h)
  ]

  -- what a reader gets who has read up to the last change before one observation
  upsert_pod-IsDelta :
      (limit : ℤ)
      → let t = upsert_pod s pod deleted now in
        IsDelta s t (app_id_from_pod pod) now (get_changes t t s.last_changed limit "" [])
  unfolding observed poll
  upsert_pod-IsDelta limit = elim (Option-cases (get (app_id_from_pod pod) observed.apps)) [
    | inl gone ↦ inr (unchanged_poll limit (λ new h. absurd (cc)), inl gone)
    | inr (new, kept) ↦ elim (upsert_pod-feed s pod deleted now tracked new clock kept) [
      | inl (late, wall, _) ↦ inl (new, kept, changed_poll new limit kept late, late, wall)
      | inr (old, known, same, at, _) ↦ inr (
        unchanged_poll limit (known_old old new known kept at),
        inr (new, old, kept, known, same, at),
      )
    ]
  ]

-- one live observation
pub record Observation : Type 0 where
  pub pod : Pod
  pub deleted : Bool
  pub now : Time

-- after each of the observations in turn, the answer to a reader who has read up to the last change
-- before it
abbrev pub AreDeltas : ℤ → List Observation → Store → Type 0
AreDeltas limit [] s = Unit
AreDeltas limit (o ∷ os) s =
    let t = upsert_pod s o.pod o.deleted o.now in
    IsDelta s t (app_id_from_pod o.pod) o.now (get_changes t t s.last_changed limit "" [])
    × AreDeltas limit os t

-- A reader follows any sequence of live observations of tracked pods, from a valid store where every
-- application has a change time, none of them after the store's last change, which is set. After each,
-- a reader who has read up to the last change before it gets, whatever the limit, either the pod's
-- application alone, with a change time later than that and no earlier than the wall clock, or nothing;
-- and nothing only if the application is not kept, or was known and its status, its finish, its deletion
-- and its change time are as they were.
pub upsert_pod-get_changes :
    (limit : ℤ) (observations : List Observation) (s : Store)
    → All (λ o. IsTracked o.pod) observations
    → IsValid s
    → IsClocked s
    → s.last_changed ≢ 0
    → AreDeltas limit observations s
unfolding observed upsert_pod
upsert_pod-get_changes limit [] s tracked valid clocked clock = tt
upsert_pod-get_changes limit (o ∷ os) s (tracked, later) valid clocked clock =
    let t = upsert_pod s o.pod o.deleted o.now in
    let goes_on = later_clock s o.pod o.deleted o.now valid clocked clock tracked in
    (
      upsert_pod-IsDelta s o.pod o.deleted o.now valid clocked clock tracked limit,
      upsert_pod-get_changes limit os t later
          (observed-IsValid s o.pod o.deleted o.now valid clocked clock tracked)
          (observed-IsClocked s o.pod o.deleted o.now valid clocked clock tracked)
          (λ e. clock (omega (arith, e, goes_on))),
    )
