-- ===== src/Prelude/Options.antt =====
-- Optional values: a pointer that may be nil.
use mathlib.Core.Path.{◌≡◌, refl}
use mathlib.Core.Logic.{◌≢◌, ◌⊎◌, inl, inr}
use mathlib.Core.Bool.{Bool, true, false}
use mathlib.Core.Option.{Option, none, some}

module _ {ℓ} {A : Type ℓ} where
  -- `p != nil`
  abbrev pub is_some : Option A → Bool
  is_some none = false
  is_some (some a) = true

  -- `*p`, or a default where `p` is nil
  abbrev pub or_else : Option A → A → A
  or_else none d = d
  or_else (some a) d = a

  pub Option-cases : (o : Option A) → (o ≡ none) ⊎ ((a : A) × (o ≡ some a))
  Option-cases none = inl refl
  Option-cases (some a) = inr (a, refl)

  pub some-ne-none : {a : A} → some a ≢ none
  some-ne-none e = cc
