-- ===== src/Sort.antt =====
-- sort.Slice of Go's standard library: it puts a slice in the order of a `less` test and promises
-- no order among equals. The model is an insertion sort; the laws hold of any sort.
pub mod Stable
use mathlib.Core.List.{Perm}
use mathlib.Core.List.Perm
use podwatcher.Prelude.{
  ℕ, ◌≡◌, Bool, true, false, List, [], ◌∷◌, arith, ltb, ◌⊎◌, inl, inr, Bool-cases, All, Any, Pairs,
  All-map, if◌then◌else◌,
}

-- A strict weak order, as a test.
pub record IsLess {ℓ} {A : Type ℓ} (less : A → A → Bool) : Type ℓ where
  pub asymm : (a b : A) → less a b ≡ true → less b a ≡ false
  pub trans : (a b c : A) → less b a ≡ false → less c b ≡ false → less c a ≡ false

module _ {ℓ} {A : Type ℓ} (less : A → A → Bool) where
  insert_by : A → List A → List A
  insert_by x [] = x ∷ []
  insert_by x (y ∷ ys) = if less x y then x ∷ y ∷ ys else (y ∷ insert_by x ys)

  unfoldable pub sort_by : List A → List A
  unfolding insert_by
  sort_by [] = []
  sort_by (x ∷ xs) = insert_by x (sort_by xs)

  insert_by-perm : (x : A) (ys : List A) → Perm (insert_by x ys) (x ∷ ys)
  unfolding insert_by
  insert_by-perm x [] = Perm.rfl
  insert_by-perm x (y ∷ ys) = elim (Bool-cases (less x y)) [
    | inl h ↦ rw h Perm.rfl
    | inr h ↦ rw h (Perm.trans (Perm.cons y (insert_by-perm x ys)) (Perm.swap x y ys))
  ]

  -- Sorting loses and invents nothing.
  pub sort_by-perm : (xs : List A) → Perm (sort_by xs) xs
  unfolding sort_by
  sort_by-perm [] = Perm.rfl
  sort_by-perm (x ∷ xs) = Perm.trans (insert_by-perm x (sort_by xs)) (Perm.cons x (sort_by-perm xs))

  -- No later element is less than an earlier one.
  abbrev pub IsOrdered : List A → Type 0
  IsOrdered = Pairs (λ a b. less b a ≡ false)

module _ {ℓ κ} {A : Type ℓ} (less : A → A → Bool) (P : A → Type κ) where
  insert_by-All : (x : A) (ys : List A) → P x → All P ys → All P (insert_by less x ys)
  unfolding insert_by
  insert_by-All x [] p h = (p, tt)
  insert_by-All x (y ∷ ys) p h = elim (Bool-cases (less x y)) [
    | inl e ↦ rw e (p, h)
    | inr e ↦ rw e (h.0, insert_by-All x ys p h.1)
  ]

  -- What holds of every element still does after sorting.
  pub sort_by-All : (xs : List A) → All P xs → All P (sort_by less xs)
  unfolding sort_by
  sort_by-All [] h = tt
  sort_by-All (x ∷ xs) h = insert_by-All x (sort_by less xs) h.0 (sort_by-All xs h.1)

module _ {ℓ} {A : Type ℓ} (less : A → A → Bool) (P : A → Type 0) where
  insert_by-Any : (x : A) (ys : List A) → P x ⊎ Any P ys → Any P (insert_by less x ys)
  unfolding insert_by
  insert_by-Any x [] h = h
  insert_by-Any x (y ∷ ys) h = elim (Bool-cases (less x y)) [
    | inl e ↦ rw e h
    | inr e ↦ rw e (elim h [
      | inl p ↦ inr (insert_by-Any x ys (inl p))
      | inr (inl q) ↦ inl q
      | inr (inr q) ↦ inr (insert_by-Any x ys (inr q))
    ])
  ]

  -- What holds of some element still does.
  pub sort_by-Any : (xs : List A) → Any P xs → Any P (sort_by less xs)
  unfolding sort_by
  sort_by-Any [] h = h
  sort_by-Any (x ∷ xs) (inl p) = insert_by-Any x (sort_by less xs) (inl p)
  sort_by-Any (x ∷ xs) (inr q) = insert_by-Any x (sort_by less xs) (inr (sort_by-Any xs q))

module _ {ℓ κ} {A : Type ℓ} (less : A → A → Bool) {R : A → A → Type κ} where
  insert_by-Pairs :
      ((a b : A) → R a b → R b a)
      → (x : A) (ys : List A) → All (R x) ys
      → Pairs R ys
      → Pairs R (insert_by less x ys)
  unfolding insert_by
  insert_by-Pairs flip x [] h p = (tt, tt)
  insert_by-Pairs flip x (y ∷ ys) h p = elim (Bool-cases (less x y)) [
    | inl e ↦ rw e (h, p)
    | inr e ↦ rw e (insert_by-All less _ x ys (flip x y h.0) p.0, insert_by-Pairs flip x ys h.1 p.1)
  ]

  -- So does a symmetric relation between any two elements.
  pub sort_by-Pairs :
      ((a b : A) → R a b → R b a) → (xs : List A) → Pairs R xs → Pairs R (sort_by less xs)
  unfolding sort_by
  sort_by-Pairs flip [] p = tt
  sort_by-Pairs flip (x ∷ xs) p =
      insert_by-Pairs flip x (sort_by less xs) (sort_by-All less _ xs p.0)
        (sort_by-Pairs flip xs p.1)

module _ {ℓ} {A : Type ℓ} {less : A → A → Bool} (o : IsLess less) where
  insert_by-IsOrdered :
      (x : A) (ys : List A) → IsOrdered less ys → IsOrdered less (insert_by less x ys)
  unfolding insert_by
  insert_by-IsOrdered x [] s = (tt, tt)
  insert_by-IsOrdered x (y ∷ ys) s = elim (Bool-cases (less x y)) [
    | inl h ↦
        let first = o.asymm x y h in rw h ((first, All-map (λ a. o.trans x y a first) ys s.0), s)
    | inr h ↦ rw h (insert_by-All less _ x ys h s.0, insert_by-IsOrdered x ys s.1)
  ]

  -- The result of a sort is in order.
  pub sort_by-IsOrdered : (xs : List A) → IsOrdered less (sort_by less xs)
  unfolding sort_by
  sort_by-IsOrdered [] = tt
  sort_by-IsOrdered (x ∷ xs) = insert_by-IsOrdered x (sort_by less xs) (sort_by-IsOrdered xs)

-- `less` by a number, upwards and downwards.
module _ {ℓ} {A : Type ℓ} (key : A → ℕ) where
  abbrev pub before : A → A → Bool
  before a b = ltb (key a) (key b)

  abbrev pub after : A → A → Bool
  after a b = ltb (key b) (key a)

  pub before-IsLess : IsLess before
  before-IsLess = record { asymm = λ a b h. ground arith; trans = λ a b c h k. ground arith }

  pub after-IsLess : IsLess after
  after-IsLess = record { asymm = λ a b h. ground arith; trans = λ a b c h k. ground arith }
