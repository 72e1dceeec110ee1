-- ===== src/Store/Query/Cursor.antt =====
-- Reading on: the next page of the feed, from the change time that the last one ends with.
use podwatcher.Prelude.{
  ◌≤◌, ◌<◌, String, ◌≡◌, refl, ap, sym, ◌∙◌, Bool, false, List, [], ◌∷◌, ◌++◌, arith, ltb, All,
  All-map, Pairs, keep_if, ℤ,
}
use podwatcher.Dict.{values}
use podwatcher.Sort.{before-IsLess}
use podwatcher.Sort.Stable.{keep_if-sort_by}
use podwatcher.Kube.{Time}
use podwatcher.Store.{Store, ApplicationRecord}
use podwatcher.Store.Query.{is_change, status_set, matched, page, get_changes}
use podwatcher.Store.Query.Pages.{shown, applications, page-rest, matched-IsMatch}

-- the change time of the last record of a page, or what was asked for if the page is empty
abbrev pub cursor : Time → List ApplicationRecord → Time
cursor since [] = since
cursor since (r ∷ rs) = cursor r.changed_at rs

-- every change time is later than the one before
abbrev pub IsStrict : List ApplicationRecord → Type 0
IsStrict = Pairs (λ a b. a.changed_at < b.changed_at)

abbrev Above : Time → List ApplicationRecord → Type 0
Above t = All (λ r. t < r.changed_at)

-- the test that the cursor adds
abbrev is_after : Time → ApplicationRecord → Bool
is_after t r = ltb t r.changed_at

cursor-le : (t : Time) (xs : List ApplicationRecord) → Above t xs → IsStrict xs → t ≤ cursor t xs
cursor-le t [] h s = omega arith
cursor-le t (x ∷ xs) h s = omega (arith, cursor-le x.changed_at xs s.0 s.1)

split-Above : (t : Time) (xs ys : List ApplicationRecord) → Above t (xs ++ ys) → Above t xs
split-Above t [] ys h = tt
split-Above t (x ∷ xs) ys h = (h.0, split-Above t xs ys h.1)

split-IsStrict : (xs ys : List ApplicationRecord) → IsStrict (xs ++ ys) → IsStrict xs
split-IsStrict [] ys s = tt
split-IsStrict (x ∷ xs) ys s = (split-Above x.changed_at xs ys s.0, split-IsStrict xs ys s.1)

keep_all-Above :
    (t : Time) (ys : List ApplicationRecord) → Above t ys → keep_if (is_after t) ys ≡ ys
unfolding keep_if
keep_all-Above t [] h = refl
keep_all-Above t (y ∷ ys) h = ground (arith, keep_all-Above t ys h.1)

keep_after :
    (t : Time) (xs ys : List ApplicationRecord)
    → Above t (xs ++ ys)
    → IsStrict (xs ++ ys)
    → keep_if (is_after (cursor t xs)) (xs ++ ys) ≡ ys
unfolding keep_if
keep_after t [] ys h s = keep_all-Above t ys h
keep_after t (x ∷ xs) ys h s = ground (
  arith,
  cursor-le x.changed_at xs (split-Above x.changed_at xs ys s.0) (split-IsStrict xs ys s.1),
  keep_after x.changed_at xs ys s.0 s.1,
)

-- a later `since` filters what the earlier one let through
narrow :
    (since c : Time) (app_id : String) (set : List String) (recs : List ApplicationRecord)
    → since ≤ c
    → keep_if (is_change c app_id set) recs
      ≡ keep_if (is_after c) (keep_if (is_change since app_id set) recs)
unfolding keep_if is_change
narrow since c app_id set [] h = refl
narrow since c app_id set (r ∷ rs) h = ground (arith, narrow since c app_id set rs h)

module _ (s : Store) (since : Time) (app_id : String) (statuses : List String) where
  matched-narrow :
      (c : Time)
      → since ≤ c
      → matched s c app_id statuses ≡ keep_if (is_after c) (matched s since app_id statuses)
  unfolding matched
  matched-narrow c h = rw (narrow since c app_id (status_set statuses) (values s.apps) h) (
      sym
        (keep_if-sort_by (before-IsLess (λ (r : ApplicationRecord). r.changed_at)) (is_after c) _))

  matched-cursor :
      (xs rest : List ApplicationRecord)
      → xs ++ rest ≡ matched s since app_id statuses
      → Above since (xs ++ rest)
      → IsStrict (xs ++ rest)
      → matched s (cursor since xs) app_id statuses ≡ rest
  matched-cursor xs rest e above strict =
      matched-narrow (cursor since xs)
        (cursor-le since xs (split-Above since xs rest above) (split-IsStrict xs rest strict))
      ∙ (rw (← e) (keep_after since xs rest above strict))

page_of_matched :
    (s later : Store) (since : Time) (limit : ℤ) (app_id : String) (statuses : List String)
    → (rest : List ApplicationRecord) × (shown (get_changes s later since limit app_id statuses)
          ++ rest
        ≡ matched s since app_id statuses)
      × ((get_changes s later since limit app_id statuses).1 ≡ false → rest ≡ [])
unfolding get_changes
page_of_matched s later since limit app_id statuses =
    let all = matched s since app_id statuses in
    let (rest, whole, none_more, _, _, _) = page-rest limit all in
    (rest, ap (λ xs. xs ++ rest) (applications later (page limit all).0) ∙ whole, none_more)

-- If no two matching applications share a change time, a reader who asks next from the change time
-- that a page ended with gets on where the page left off: the two pages and what further pages hold
-- are the matching applications in order, with none left out or read twice, and if the second page
-- says that there is no more, the two pages are all.
pub get_changes-next_page :
    (s later later' : Store) (since : Time) (limit limit' : ℤ) (app_id : String)
    (statuses : List String)
    → IsStrict (matched s since app_id statuses)
    → let first = get_changes s later since limit app_id statuses in
      let second = get_changes s later' (cursor since (shown first)) limit' app_id statuses in
      (rest : List ApplicationRecord) × (shown first ++ (shown second ++ rest)
        ≡ matched s since app_id statuses)
      × (second.1 ≡ false → rest ≡ [])
get_changes-next_page s later later' since limit limit' app_id statuses strict =
    let (left, whole, _) = page_of_matched s later since limit app_id statuses in
    let xs = shown (get_changes s later since limit app_id statuses) in
    let above =
      All-map (λ r m. m.later) (matched s since app_id statuses)
        (matched-IsMatch s since app_id statuses) in
    let next =
      matched-cursor s since app_id statuses xs left whole (rw whole above) (rw whole strict) in
    let (rest, again, none_more) =
      page_of_matched s later' (cursor since xs) limit' app_id statuses in
    (rest, ap (λ ys. xs ++ ys) (again ∙ next) ∙ whole, none_more)
