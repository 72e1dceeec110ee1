-- ===== src/Store/Query/Pages.antt =====
-- One page of the feed.
use podwatcher.Prelude.{
  ◌≤◌, ◌<◌, String, ◌≡◌, refl, ap, ◌∙◌, ◌⊎◌, inl, inr, Bool, true, false, List, [], ◌∷◌, ◌++◌, map,
  some, ◌&&◌, ◌==◌, arith, ltb, length, take, drop, take-append-drop, length-take, length-append,
  length-map, All, Any, keep_if, Bool-cases, ℤ, pos_part,
}
use mathlib.Core.List.{Perm, append-nil}
use podwatcher.Dict.{get, values, Dict}
use podwatcher.Sort.{
  IsOrdered, before, before-IsLess, sort_by-perm, sort_by-IsOrdered, sort_by-All, sort_by-Any,
}
use podwatcher.Kube.{Time}
use podwatcher.Store.{Store, ApplicationRecord, ApplicationView}
use podwatcher.Store.Query.{is_change, status_set, matched, page, get_changes, view}
use podwatcher.Store.Query.Matches.{IsMatch, is_change-IsMatch}

-- the change time orders the feed
abbrev pub changed : ApplicationRecord → ApplicationRecord → Bool
changed = before (λ rec. rec.changed_at)

-- A page is a prefix; the rest is empty unless there is more, and a limit that cuts is met exactly.
pub page-rest {ℓ} :
    {A : Type ℓ} (limit : ℤ) (xs : List A)
    → (rest : List A) × ((page limit xs).0 ++ rest ≡ xs)
      × (((page limit xs).1 ≡ false) → rest ≡ [])
      × (((page limit xs).1 ≡ true)
          → (0 < length rest) × (length (page limit xs).0 ≡ pos_part limit))
      × (0 < pos_part limit → length (page limit xs).0 ≤ pos_part limit)
      × ((0 < pos_part limit) ⊎ (rest ≡ []))
unfolding page
page-rest limit xs =
    elim (Bool-cases (ltb 0 (pos_part limit) && ltb (pos_part limit) (length xs))) [
      | inl cut ↦ rw cut (
        drop (pos_part limit) xs,
        take-append-drop (pos_part limit) xs,
        (λ h. cc),
        (λ h. (
          ground (
            arith,
            ap length (take-append-drop (pos_part limit) xs),
            length-append (take (pos_part limit) xs) (drop (pos_part limit) xs),
            length-take (pos_part limit) xs,
          ),
          ground (arith, length-take (pos_part limit) xs),
        )),
        (λ h. ground (arith, length-take (pos_part limit) xs)),
        inl (ground arith),
      )
      | inr whole ↦
          rw whole ([], append-nil xs, (λ h. refl), (λ h. cc), (λ h. ground arith), inr refl)
    ]

pub applications :
    (s : Store) (recs : List ApplicationRecord)
    → map (λ v. v.application) (map (view s) recs) ≡ recs
unfolding view
applications s [] = refl
applications s (r ∷ rs) = ground (arith, applications s rs)

-- the filter keeps matches only, and all of them
kept-IsMatch :
    (since : Time) (app_id : String) (statuses : List String) (recs : List ApplicationRecord)
    → All
        (IsMatch since app_id statuses)
        (keep_if (is_change since app_id (status_set statuses)) recs)
unfolding keep_if
kept-IsMatch since app_id statuses [] = tt
kept-IsMatch since app_id statuses (r ∷ rs) =
    elim (Bool-cases (is_change since app_id (status_set statuses) r)) [
      | inl h ↦
          rw h
            ((is_change-IsMatch since app_id statuses r).0 h, kept-IsMatch since app_id statuses rs)
      | inr h ↦ rw h (kept-IsMatch since app_id statuses rs)
    ]

kept_all :
    (since : Time) (app_id : String) (statuses : List String) (m : Dict ApplicationRecord)
    (k : String) (rec : ApplicationRecord)
    → get k m ≡ some rec
    → IsMatch since app_id statuses rec
    → Any (λ x. x ≡ rec) (keep_if (is_change since app_id (status_set statuses)) (values m))
unfolding keep_if get
kept_all since app_id statuses [] k rec h match = absurd (cc)
kept_all since app_id statuses ((j, r) ∷ m) k rec h match =
    let passes = (is_change-IsMatch since app_id statuses rec).1 match in
    elim (Bool-cases (j == k)) [
      | inl same ↦ let e : r ≡ rec = ground arith in rw (rw (← e) at passes) (inl e)
      | inr other ↦
          let rest = kept_all since app_id statuses m k rec (ground arith) match in
          elim (Bool-cases (is_change since app_id (status_set statuses) r)) [
            | inl h' ↦ rw h' (inr rest)
            | inr h' ↦ rw h' rest
          ]
    ]

module _ (s : Store) (since : Time) (app_id : String) (statuses : List String) where
  pub matched-IsOrdered : IsOrdered changed (matched s since app_id statuses)
  unfolding matched
  matched-IsOrdered =
      sort_by-IsOrdered (before-IsLess (λ (rec : ApplicationRecord). rec.changed_at))
        (keep_if (is_change since app_id (status_set statuses)) (values s.apps))

  pub matched-IsMatch : All (IsMatch since app_id statuses) (matched s since app_id statuses)
  unfolding matched
  matched-IsMatch = sort_by-All _ _ _ (kept-IsMatch since app_id statuses (values s.apps))

  matched_complete :
      (k : String) (rec : ApplicationRecord)
      → get k s.apps ≡ some rec
      → IsMatch since app_id statuses rec
      → Any (λ x. x ≡ rec) (matched s since app_id statuses)
  unfolding matched
  matched_complete k rec h match =
      sort_by-Any _ _ _ (kept_all since app_id statuses s.apps k rec h match)

  matched-perm :
      Perm
        (matched s since app_id statuses)
        (keep_if (is_change since app_id (status_set statuses)) (values s.apps))
  unfolding matched
  matched-perm = sort_by-perm _ _

-- the applications of a page, without the join
abbrev pub shown : List ApplicationView × Bool → List ApplicationRecord
shown r = map (λ v. v.application) r.0

-- `r` is one page: with what further pages hold (`rest`), it makes up the matching applications.
-- Each of them matches, every application of the store that matches is there, each as often as the
-- store has it, and change times never fall from one to the next. `hasMore` is false only if
-- nothing is left out, and true only if something is and the page is as long as the limit; a
-- positive limit is kept, and another leaves nothing out.
abbrev pub IsPage : Store → Time → ℤ → String → List String → List ApplicationView × Bool → Type 0
IsPage s since limit app_id statuses r =
    (rest : List ApplicationRecord) × All (IsMatch since app_id statuses) (shown r ++ rest)
    × ((k : String) (rec : ApplicationRecord)
        → get k s.apps ≡ some rec
        → IsMatch since app_id statuses rec
        → Any (λ x. x ≡ rec) (shown r ++ rest))
    × Perm (shown r ++ rest)
        (keep_if (is_change since app_id (status_set statuses)) (values s.apps))
    × IsOrdered changed (shown r ++ rest)
    × (r.1 ≡ false → rest ≡ [])
    × (r.1 ≡ true → (0 < length rest) × (length r.0 ≡ pos_part limit))
    × (0 < pos_part limit → length r.0 ≤ pos_part limit)
    × ((0 < pos_part limit) ⊎ (rest ≡ []))

-- `GetChanges` returns a page (`IsPage`), whatever the store is by the time of the join: the
-- matching applications by their change times, cut at the limit, and whether there is more.
pub get_changes-IsPage :
    (s later : Store) (since : Time) (limit : ℤ) (app_id : String) (statuses : List String)
    → IsPage s since limit app_id statuses (get_changes s later since limit app_id statuses)
unfolding get_changes
get_changes-IsPage s later since limit app_id statuses =
    let all = matched s since app_id statuses in
    let (rest, whole, none_more, more, bound, whole_feed) = page-rest limit all in
    let e = ap (λ xs. xs ++ rest) (applications later (page limit all).0) ∙ whole in
    let len = length-map (view later) (page limit all).0 in
    (
      rest,
      rw e (matched-IsMatch s since app_id statuses),
      rw e (matched_complete s since app_id statuses),
      rw e (matched-perm s since app_id statuses),
      rw e (matched-IsOrdered s since app_id statuses),
      none_more,
      rw len more,
      rw len bound,
      whole_feed,
    )
