-- ===== src/Server/Routes.antt =====
-- cmd/server/main.go: setupRouter. gin is outside: what it does with the table is how its documentation
-- has it match a path, part by part, where a parameter takes one part that is not empty.
use podwatcher.Prelude.{
  ◌≡◌, refl, String, Bool, true, false, Option, none, some, List, [], ◌∷◌, not, ◌==◌, if◌then◌else◌,
  ◌++◌, ◌||◌, ◌⊎◌, inl, inr, Bool-cases, arith, eq_iff, Pairs, All-map,
}
use podwatcher.Dict.{Dict}

pub data Segment : Type 0 where
  static parameter : String → Segment

-- the handlers that the routes are given, by their names in the controllers
pub data Endpoint : Type 0 where
  index health_check list_pods get_pod get_events get_pod_stats : Endpoint
  list_applications get_application list_pod_records query_range : Endpoint

pub record Route : Type 0 where
  pub path : List Segment
  pub endpoint : Endpoint

-- the group /api/v1
abbrev pub api : List Segment → Endpoint → Route
api path endpoint = record { path = static "api" ∷ static "v1" ∷ path; endpoint = endpoint }

-- every route is a GET
abbrev pub routes : List Route
routes =
    api (static "health" ∷ []) health_check
    ∷ api (static "pods" ∷ []) list_pods
    ∷ api (static "pods" ∷ parameter "namespace" ∷ parameter "name" ∷ []) get_pod
    ∷ api (static "events" ∷ []) get_events
    ∷ api (static "stats" ∷ static "pods" ∷ []) get_pod_stats
    ∷ api (static "applications" ∷ []) list_applications
    ∷ api (static "applications" ∷ parameter "applicationId" ∷ []) get_application
    ∷ api (static "pod-records" ∷ []) list_pod_records
    ∷ api (static "prometheus" ∷ static "query_range" ∷ []) query_range
    ∷ record { path = []; endpoint = index }
    ∷ []

abbrev pub takes : Segment → String → Bool
takes (static name) text = name == text
takes (parameter name) text = not (text == "")

abbrev pub binding : Segment → String → Dict String
binding (static name) text = []
binding (parameter name) text = (name, text) ∷ []

abbrev pub bound : Dict String → Option (Dict String) → Option (Dict String)
bound here none = none
bound here (some params) = some (here ++ params)

-- the parameters of a path, if it matches
unfoldable pub match_path : List Segment → List String → Option (Dict String)
match_path [] [] = some []
match_path [] (text ∷ texts) = none
match_path (part ∷ parts) [] = none
match_path (part ∷ parts) (text ∷ texts) =
    let rest = match_path parts texts in
    if takes part text then bound (binding part text) rest else none

-- what a path is dispatched to, of the routes in their order
unfoldable pub dispatch : List Route → List String → Option (Endpoint × Dict String)
unfolding match_path
dispatch [] path = none
dispatch (route ∷ rest) path =
    let later = dispatch rest path in
    elim (match_path route.path path) [ none ↦ later | some params ↦ some (route.endpoint, params) ]

-- two parts that no text can be taken by
abbrev differ : Segment → Segment → Bool
differ (static a) (static b) = not (a == b)
differ _ _ = false

abbrev are_apart : List Segment → List Segment → Bool
are_apart [] [] = false
are_apart [] (q ∷ qs) = true
are_apart (p ∷ ps) [] = true
are_apart (p ∷ ps) (q ∷ qs) = differ p q || are_apart ps qs

differ-takes :
    (p q : Segment) (text : String) → differ p q ≡ true → takes p text ≡ true → takes q text ≡ false
differ-takes (static a) (static b) text h at =
    ground (arith, eq_iff a b, eq_iff a text, eq_iff b text)
differ-takes (static a) (parameter b) text h at = cc
differ-takes (parameter a) q text h at = cc

are_apart-match_path :
    (p q : List Segment) (path : List String)
    → are_apart p q ≡ true
    → (match_path p path ≡ none) ⊎ (match_path q path ≡ none)
unfolding match_path
are_apart-match_path [] [] path h = cc
are_apart-match_path [] (q ∷ qs) [] h = inr refl
are_apart-match_path [] (q ∷ qs) (text ∷ path) h = inl refl
are_apart-match_path (p ∷ ps) [] [] h = inl refl
are_apart-match_path (p ∷ ps) [] (text ∷ path) h = inr refl
are_apart-match_path (p ∷ ps) (q ∷ qs) [] h = inl refl
are_apart-match_path (p ∷ ps) (q ∷ qs) (text ∷ path) h = elim (Bool-cases (takes p text)) [
  | inr not_taken ↦ inl (rw not_taken refl)
  | inl taken ↦ elim (Bool-cases (differ p q)) [
    | inl different ↦ inr (rw (differ-takes p q text different taken) refl)
    | inr alike ↦
        later (takes q text) taken (are_apart-match_path ps qs path (ground (arith, alike)))
  ]
]
  where
    later :
        (b : Bool)
        → takes p text ≡ true
        → (match_path ps path ≡ none) ⊎ (match_path qs path ≡ none)
        → ((if takes p text then bound (binding p text) (match_path ps path) else none) ≡ none)
          ⊎ ((if b then bound (binding q text) (match_path qs path) else none) ≡ none)
    later b taken (inl ends) = inl (rw (taken, ends) refl)
    later true taken (inr ends) = inr (rw ends refl)
    later false taken (inr ends) = inr refl

Pairs-map :
    {A : Type 0} {R S : A → A → Type 0}
    → ((x y : A) → R x y → S x y)
    → (xs : List A) → Pairs R xs
    → Pairs S xs
Pairs-map f [] h = tt
Pairs-map f (x ∷ xs) h = (All-map (f x) xs h.0, Pairs-map f xs h.1)

-- No path matches two of the routes, so their order does not matter.
pub routes_apart :
    (path : List String)
    → Pairs (λ p q. (match_path p.path path ≡ none) ⊎ (match_path q.path path ≡ none)) routes
routes_apart path = Pairs-map (λ p q h. are_apart-match_path p.path q.path path h) routes apart
  where
    apart : Pairs (λ p q. are_apart p.path q.path ≡ true) routes
    apart = ground arith
