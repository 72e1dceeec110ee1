-- ===== src/Sort/Stable.antt =====
-- Filtering a sorted list is sorting the filtered list.
use podwatcher.Prelude.{
  ◌≡◌, refl, sym, ◌∙◌, Bool, true, false, List, [], ◌∷◌, arith, inl, inr, Bool-cases, All, All-map,
  keep_if, if◌then◌else◌,
}
use podwatcher.Sort.{IsLess, insert_by, sort_by, IsOrdered, sort_by-IsOrdered}

module _ {ℓ κ} {A : Type ℓ} (P : A → Type κ) (p : A → Bool) where
  pub keep_if-All : (xs : List A) → All P xs → All P (keep_if p xs)
  unfolding keep_if
  keep_if-All [] h = tt
  keep_if-All (x ∷ xs) h = elim (Bool-cases (p x)) [
    | inl e ↦ rw e (h.0, keep_if-All xs h.1)
    | inr e ↦ rw e (keep_if-All xs h.1)
  ]

module _ {ℓ} {A : Type ℓ} {less : A → A → Bool} (o : IsLess less) (p : A → Bool) where
  insert_front :
      (x : A) (ys : List A) → All (λ y. less x y ≡ true) ys → insert_by less x ys ≡ x ∷ ys
  unfolding insert_by
  insert_front x [] h = refl
  insert_front x (y ∷ ys) h = rw h.0

  -- `x` is less than all that stand after an element that it is less than
  less_rest : (x y : A) → less x y ≡ true → (z : A) → less z y ≡ false → less x z ≡ true
  less_rest x y h z k = elim (Bool-cases (less x z)) [
    | inl e ↦ e
    | inr e ↦ absurd (true_false (sym h ∙ o.trans y z x k e))
  ]
    where
      true_false : true ≡ false → ⊥
      true_false e = cc

  keep_if-insert_by :
      (x : A) (ys : List A)
      → IsOrdered less ys
      → keep_if p (insert_by less x ys)
        ≡ (if p x then insert_by less x (keep_if p ys) else keep_if p ys)
  unfolding insert_by keep_if
  keep_if-insert_by x [] s = refl
  keep_if-insert_by x (y ∷ ys) s = elim (Bool-cases (less x y)) [
    | inl h ↦
        let rest = All-map (less_rest x y h) ys s.0 in
        let front = insert_front x (keep_if p ys) (keep_if-All (λ z. less x z ≡ true) p ys rest) in
        ground (arith, h, front)
    | inr h ↦ ground (arith, h, keep_if-insert_by x ys s.1)
  ]

  -- A filter commutes with the sort.
  pub keep_if-sort_by : (xs : List A) → keep_if p (sort_by less xs) ≡ sort_by less (keep_if p xs)
  unfolding sort_by keep_if
  keep_if-sort_by [] = refl
  keep_if-sort_by (x ∷ xs) =
      ground
        (arith, keep_if-insert_by x (sort_by less xs) (sort_by-IsOrdered o xs), keep_if-sort_by xs)
