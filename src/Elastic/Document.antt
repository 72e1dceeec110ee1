-- ===== src/Elastic/Document.antt =====
-- internal/elasticsearch/client.go: `removeDotOnlyKeys`. A document is the tree that encoding/json
-- decodes it to.
use podwatcher.Prelude.{
  String, ◌≡◌, ◌≢◌, refl, ap, sym, subst, ◌↔◌, ◌⊎◌, arith, eq_iff, Bool, true, false, not, ◌&&◌,
  ◌==◌, if◌then◌else◌, Bool-cases, inl, inr, leb,
}
use Prim.Native.Char.{code}

mutual
  -- a scalar is the text of its token
  pub data Json : Type 0 where
    scalar : String → Json
    object : Fields → Json
    array : Elements → Json

  pub data Fields : Type 0 where
    no_fields : Fields
    field : String → Json → Fields → Fields

  pub data Elements : Type 0 where
    no_elements : Elements
    element : Json → Elements → Elements

-- strings.Trim(key, ".") == ""
unfoldable pub is_dots : String → Bool
is_dots String.[] = true
is_dots (String.◌∷◌ c s) = leb (code c) 46 && leb 46 (code c) && is_dots s

-- key != "" && strings.Trim(key, ".") == ""
unfoldable pub is_dot_only : String → Bool
unfolding is_dots
is_dot_only key = not (key == "") && is_dots key

unfoldable mutual
  unfolding is_dot_only

  pub remove_dot_only_keys : Json → Json
  remove_dot_only_keys (scalar token) = scalar token
  remove_dot_only_keys (object fields) = object (remove_from_fields fields)
  remove_dot_only_keys (array elements) = array (remove_from_elements elements)

  pub remove_from_fields : Fields → Fields
  remove_from_fields no_fields = no_fields
  remove_from_fields (field key child fields) =
      let rest = remove_from_fields fields in
      let clean = remove_dot_only_keys child in
      if is_dot_only key then rest else field key clean rest

  pub remove_from_elements : Elements → Elements
  remove_from_elements no_elements = no_elements
  remove_from_elements (element child elements) =
      element (remove_dot_only_keys child) (remove_from_elements elements)

-- every character is a dot
abbrev pub AllDots : String → Type 0
AllDots String.[] = Unit
AllDots (String.◌∷◌ c s) = (code c ≡ 46) × AllDots s

-- a name of one dot or more, and of nothing else
abbrev pub IsDotOnly : String → Type 0
IsDotOnly key = (key ≢ "") × AllDots key

is_dots-AllDots : (key : String) → (is_dots key ≡ true) ↔ AllDots key
unfolding is_dots
is_dots-AllDots String.[] = (λ h. tt, λ h. refl)
is_dots-AllDots (String.◌∷◌ c s) =
    let (to, from) = is_dots-AllDots s in
    (λ h. (ground arith, to (ground arith)), λ h. ground (arith, h.0, from h.1))

is_dot_only-IsDotOnly : (key : String) → (is_dot_only key ≡ true) ↔ IsDotOnly key
unfolding is_dot_only
is_dot_only-IsDotOnly key =
    let (to, from) = is_dots-AllDots key in
    (
      λ h. (λ e. ground (arith, e, h, eq_iff key ""), to (ground arith)),
      λ (set, dots). ground (arith, set, from dots, eq_iff key ""),
    )

-- no field name of the document, at any depth, is dots only
mutual
  pub IsClean : Json → Type 0
  IsClean (scalar token) = Unit
  IsClean (object fields) = AreClean fields
  IsClean (array elements) = EachClean elements

  pub AreClean : Fields → Type 0
  AreClean no_fields = Unit
  AreClean (field key child fields) = (¬ IsDotOnly key) × IsClean child × AreClean fields

  pub EachClean : Elements → Type 0
  EachClean no_elements = Unit
  EachClean (element child elements) = IsClean child × EachClean elements

-- `sent` is `document` without the fields whose names are dots only, at every depth: each other field,
-- and each element, is there in its place.
mutual
  pub Cleans : (document sent : Json) → Type 0
  Cleans (scalar token) sent = sent ≡ scalar token
  Cleans (object fields) sent = (rest : Fields) × (sent ≡ object rest) × CleansFields fields rest
  Cleans (array elements) sent =
      (rest : Elements) × (sent ≡ array rest) × CleansElements elements rest

  pub CleansFields : (fields sent : Fields) → Type 0
  CleansFields no_fields sent = sent ≡ no_fields
  CleansFields (field key child fields) sent =
      (IsDotOnly key × CleansFields fields sent)
      ⊎ ((¬ IsDotOnly key)
          × (kept : Json) × (rest : Fields) × (sent ≡ field key kept rest)
          × Cleans child kept
          × CleansFields fields rest)

  pub CleansElements : (elements sent : Elements) → Type 0
  CleansElements no_elements sent = sent ≡ no_elements
  CleansElements (element child elements) sent =
      (kept : Json) × (rest : Elements) × (sent ≡ element kept rest)
      × Cleans child kept
      × CleansElements elements rest

kept_name : (key : String) → is_dot_only key ≡ false → ¬ IsDotOnly key
kept_name key name dots = let dropped = (is_dot_only-IsDotOnly key).1 dots in cc

name_kept : (key : String) → ¬ IsDotOnly key → is_dot_only key ≡ false
name_kept key name = elim (Bool-cases (is_dot_only key)) [
  | inl dots ↦ absurd (name ((is_dot_only-IsDotOnly key).0 dots))
  | inr kept ↦ kept
]

field_kept :
    (key : String) (child : Json) (fields : Fields)
    → is_dot_only key ≡ false
    → remove_from_fields (field key child fields)
      ≡ field key (remove_dot_only_keys child) (remove_from_fields fields)
unfolding remove_dot_only_keys
field_kept key child rest name = rw name refl

mutual
  unfolding remove_dot_only_keys IsClean

  cleaned : (document : Json) → IsClean (remove_dot_only_keys document)
  cleaned (scalar token) = tt
  cleaned (object fields) = cleaned_fields fields
  cleaned (array elements) = cleaned_elements elements

  cleaned_fields : (fields : Fields) → AreClean (remove_from_fields fields)
  cleaned_fields no_fields = tt
  cleaned_fields (field key child fields) = elim (Bool-cases (is_dot_only key)) [
    | inl dots ↦ rw dots (cleaned_fields fields)
    | inr name ↦
        subst AreClean (sym (field_kept key child fields name))
          (kept_name key name, cleaned child, cleaned_fields fields)
  ]

  cleaned_elements : (elements : Elements) → EachClean (remove_from_elements elements)
  cleaned_elements no_elements = tt
  cleaned_elements (element child elements) = (cleaned child, cleaned_elements elements)

mutual
  unfolding remove_dot_only_keys IsClean

  kept : (document : Json) → IsClean document → remove_dot_only_keys document ≡ document
  kept (scalar token) h = refl
  kept (object fields) h = ap object (kept_fields fields h)
  kept (array elements) h = ap array (kept_elements elements h)

  kept_fields : (fields : Fields) → AreClean fields → remove_from_fields fields ≡ fields
  kept_fields no_fields h = refl
  kept_fields (field key child fields) (name, child_clean, rest_clean) =
      rw (name_kept key name) (cc (kept child child_clean, kept_fields fields rest_clean))

  kept_elements :
      (elements : Elements) → EachClean elements → remove_from_elements elements ≡ elements
  kept_elements no_elements h = refl
  kept_elements (element child elements) (child_clean, rest_clean) =
      cc (kept child child_clean, kept_elements elements rest_clean)

mutual
  unfolding remove_dot_only_keys Cleans

  cleans : (document : Json) → Cleans document (remove_dot_only_keys document)
  cleans (scalar token) = refl
  cleans (object fields) = (remove_from_fields fields, refl, cleans_fields fields)
  cleans (array elements) = (remove_from_elements elements, refl, cleans_elements elements)

  cleans_fields : (fields : Fields) → CleansFields fields (remove_from_fields fields)
  cleans_fields no_fields = refl
  cleans_fields (field key child fields) = elim (Bool-cases (is_dot_only key)) [
    | inl dots ↦ rw dots (inl ((is_dot_only-IsDotOnly key).0 dots, cleans_fields fields))
    | inr name ↦ inr (
      kept_name key name,
      remove_dot_only_keys child,
      remove_from_fields fields,
      field_kept key child fields name,
      cleans child,
      cleans_fields fields,
    )
  ]

  cleans_elements : (elements : Elements) → CleansElements elements (remove_from_elements elements)
  cleans_elements no_elements = refl
  cleans_elements (element child elements) = (
    remove_dot_only_keys child,
    remove_from_elements elements,
    refl,
    cleans child,
    cleans_elements elements,
  )

-- The result is the document without its dot-only fields: every other field and every element is there
-- in its place, itself cleaned. So the result has no dot-only field name at any depth, and a document
-- has none exactly if it is its own result. A name is dot-only if it is not empty and all its characters
-- are dots.
pub remove_dot_only_keys-IsClean :
    (document : Json)
    → Cleans document (remove_dot_only_keys document)
      × IsClean (remove_dot_only_keys document)
      × (IsClean document ↔ (remove_dot_only_keys document ≡ document))
remove_dot_only_keys-IsClean document = (
  cleans document,
  cleaned document,
  (kept document, λ same. subst IsClean same (cleaned document)),
)
