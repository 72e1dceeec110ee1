-- ===== src/Store/Query/Records.antt =====
-- What `GetPodRecords` selects, without the code's tests.
use podwatcher.Prelude.{
  ◌≤◌, ◌≡◌, ◌↔◌, refl, ◌⊎◌, inl, inr, Bool, true, Option, none, some, List, [], ◌∷◌, arith, eq_iff,
  keep_if, Bool-cases,
}
use mathlib.Core.List.{Perm}
use podwatcher.Dict.{values}
use podwatcher.Sort.{IsOrdered, after, after-IsLess, sort_by-perm, sort_by-IsOrdered}
use podwatcher.Kube.{Time}
use podwatcher.Store.{Store, PodRecord}
use podwatcher.Store.Query.{PodRecordFilter, not_before, not_after, selects, selected}

-- a time is not before a start and not after an end, if there is one
abbrev pub FollowsStart : Option Time → Time → Type 0
FollowsStart none t = Unit
FollowsStart (some start) t = start ≤ t

abbrev pub PrecedesStop : Option Time → Time → Type 0
PrecedesStop none t = Unit
PrecedesStop (some stop) t = t ≤ stop

-- the record has each field that is asked for, and was updated between the bounds
pub record IsSelected (f : PodRecordFilter) (rec : PodRecord) : Type 0 where
  pub app : (f.application_id ≡ "") ⊎ (rec.application_id ≡ f.application_id)
  pub role : (f.role ≡ "") ⊎ (rec.role ≡ f.role)
  pub node : (f.node ≡ "") ⊎ (rec.node ≡ f.node)
  pub status : (f.status ≡ "") ⊎ (rec.status ≡ f.status)
  pub start : FollowsStart f.start rec.last_updated_at
  pub stop : PrecedesStop f.stop rec.last_updated_at

-- `kept` is `xs` without the elements that have not the property
abbrev pub Keeps {ℓ} : {A : Type ℓ} (P : A → Type 0) (xs kept : List A) → Type ℓ
Keeps P [] kept = kept ≡ []
Keeps {A = A} P (x ∷ xs) kept =
    ((¬ P x) × Keeps P xs kept) ⊎ (P x × (rest : List A) × (kept ≡ x ∷ rest) × Keeps P xs rest)

-- The records of the store that are selected, each as often as the store has it, the latest first.
abbrev pub IsSelection : Store → PodRecordFilter → List PodRecord → Type 0
IsSelection s f records =
    IsOrdered (after (λ rec. rec.last_updated_at)) records
    × (kept : List PodRecord) × Keeps (IsSelected f) (values s.pods) kept
    × Perm records kept

follows_start :
    (start : Option Time) (t : Time) → (not_before start t ≡ true) ↔ FollowsStart start t
follows_start none t = (λ h. tt, λ h. refl)
follows_start (some start) t = (λ h. ground arith, λ h. ground arith)

precedes_stop : (stop : Option Time) (t : Time) → (not_after stop t ≡ true) ↔ PrecedesStop stop t
precedes_stop none t = (λ h. tt, λ h. refl)
precedes_stop (some stop) t = (λ h. ground arith, λ h. ground arith)

selects-IsSelected :
    (f : PodRecordFilter) (rec : PodRecord) → (selects f rec ≡ true) ↔ IsSelected f rec
unfolding selects
selects-IsSelected f rec =
    let (to_start, from_start) = follows_start f.start rec.last_updated_at in
    let (to_stop, from_stop) = precedes_stop f.stop rec.last_updated_at in
    (
      λ h. record {
        app =
            ground (arith, eq_iff f.application_id "", eq_iff rec.application_id f.application_id);
        role = ground (arith, eq_iff f.role "", eq_iff rec.role f.role);
        node = ground (arith, eq_iff f.node "", eq_iff rec.node f.node);
        status = ground (arith, eq_iff f.status "", eq_iff rec.status f.status);
        start = to_start (ground arith);
        stop = to_stop (ground arith);
      },
      λ m. ground (
        arith,
        m.app,
        m.role,
        m.node,
        m.status,
        from_start m.start,
        from_stop m.stop,
        eq_iff f.application_id "",
        eq_iff rec.application_id f.application_id,
        eq_iff f.role "",
        eq_iff rec.role f.role,
        eq_iff f.node "",
        eq_iff rec.node f.node,
        eq_iff f.status "",
        eq_iff rec.status f.status,
      ),
    )

-- a test that decides the property keeps what has it
keep_if-Keeps :
    {A : Type 0} (P : A → Type 0) (p : A → Bool)
    → ((x : A) → (p x ≡ true) ↔ P x)
    → (xs : List A) → Keeps P xs (keep_if p xs)
unfolding keep_if
keep_if-Keeps P p decides [] = refl
keep_if-Keeps P p decides (x ∷ xs) = elim (Bool-cases (p x)) [
  | inl h ↦ rw h (inr ((decides x).0 h, keep_if p xs, refl, keep_if-Keeps P p decides xs))
  | inr h ↦
      let out : ¬ P x = λ has. let passed = (decides x).1 has in cc in
      rw h (inl (out, keep_if-Keeps P p decides xs))
]

pub selected-IsSelection : (s : Store) (f : PodRecordFilter) → IsSelection s f (selected s f)
unfolding selected
selected-IsSelection s f =
    let kept = keep_if (selects f) (values s.pods) in
    (
      sort_by-IsOrdered (after-IsLess (λ (rec : PodRecord). rec.last_updated_at)) kept,
      kept,
      keep_if-Keeps (IsSelected f) (selects f) (selects-IsSelected f) (values s.pods),
      sort_by-perm _ _,
    )
