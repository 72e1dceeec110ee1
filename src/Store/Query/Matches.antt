-- ===== src/Store/Query/Matches.antt =====
-- What `GetChanges` lets through, without the code's tests.
use podwatcher.Prelude.{
  ◌<◌, String, ◌≡◌, ◌≢◌, ◌↔◌, refl, ◌⊎◌, inl, inr, true, List, [], ◌∷◌, arith, eq_iff, All, Any,
  keep_if,
}
use podwatcher.Kube.{Time}
use podwatcher.Store.{ApplicationRecord}
use podwatcher.Store.Query.{contains, status_set, has_status, is_change}

-- the status is one of those asked for; a list with none that is not empty asks for all
abbrev pub StatusAsked : List String → String → Type 0
StatusAsked statuses st = All (λ x. x ≡ "") statuses ⊎ (Any (λ x. x ≡ st) statuses × (st ≢ ""))

-- changed after `since`, of the application and the status asked for
pub record IsMatch (since : Time) (app_id : String) (statuses : List String)
    (rec : ApplicationRecord) : Type 0 where
  pub later : since < rec.changed_at
  pub app : (app_id ≡ "") ⊎ (rec.application_id ≡ app_id)
  pub asked : StatusAsked statuses rec.status

contains_set :
    (statuses : List String) (st : String)
    → (contains (status_set statuses) st ≡ true → Any (λ x. x ≡ st) statuses × (st ≢ ""))
      × (Any (λ x. x ≡ st) statuses → st ≢ "" → contains (status_set statuses) st ≡ true)
unfolding contains status_set keep_if
contains_set [] st = (λ h. cc, λ a h. elim a [ ])
contains_set (x ∷ xs) st =
    let (to, from) = contains_set xs st in
    (
      λ h. ground (arith, eq_iff x "", eq_iff x st, to),
      λ a h. ground (arith, eq_iff x "", eq_iff x st, from),
    )

set_blank :
    (statuses : List String)
    → (status_set statuses ≡ [] → All (λ x. x ≡ "") statuses)
      × (All (λ x. x ≡ "") statuses → status_set statuses ≡ [])
unfolding status_set keep_if
set_blank [] = (λ h. tt, λ h. refl)
set_blank (x ∷ xs) =
    let (to, from) = set_blank xs in
    (λ h. ground (arith, eq_iff x "", to), λ h. ground (arith, eq_iff x "", from))

has_status-cases :
    (l : List String) (st : String)
    → (has_status l st ≡ true → (l ≡ []) ⊎ (contains l st ≡ true))
      × ((l ≡ []) ⊎ (contains l st ≡ true) → has_status l st ≡ true)
unfolding has_status
has_status-cases [] st = (λ h. inl refl, λ h. refl)
has_status-cases (x ∷ xs) st = (λ h. inr h, λ h. ground arith)

has_status-asked :
    (statuses : List String) (st : String)
    → (has_status (status_set statuses) st ≡ true → StatusAsked statuses st)
      × (StatusAsked statuses st → has_status (status_set statuses) st ≡ true)
has_status-asked statuses st =
    let (to, from) = has_status-cases (status_set statuses) st in
    let (blank, empty) = set_blank statuses in
    let (found, has) = contains_set statuses st in
    (
      (λ h. elim (to h) [ inl e ↦ inl (blank e) | inr c ↦ inr (found c) ]),
      (λ a. elim a [ inl b ↦ from (inl (empty b)) | inr f ↦ from (inr (has f.0 f.1)) ]),
    )

-- The code's filter passes exactly the matches.
pub is_change-IsMatch :
    (since : Time) (app_id : String) (statuses : List String) (rec : ApplicationRecord)
    → (is_change since app_id (status_set statuses) rec ≡ true) ↔ IsMatch since app_id statuses rec
unfolding is_change
is_change-IsMatch since app_id statuses rec =
    let (to, from) = has_status-asked statuses rec.status in
    (
      (λ h. record {
        later = ground arith;
        app = ground (arith, eq_iff app_id "", eq_iff rec.application_id app_id);
        asked = to (ground arith);
      }),
      (λ m. ground (
        arith,
        m.later,
        m.app,
        eq_iff app_id "",
        eq_iff rec.application_id app_id,
        from m.asked,
      )),
    )
