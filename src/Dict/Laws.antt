-- ===== src/Dict/Laws.antt =====
-- What a read sees after a write, and that writes keep the keys distinct.
use podwatcher.Prelude.{
  ◌+◌, ◌≤◌, String, ◌≡◌, refl, Bool, Option, none, some, [], ◌∷◌, arith, ◌==◌, eq_iff, eq_refl, All,
  length, if◌then◌else◌,
}
use podwatcher.Dict.{Dict, get, put, delete, delete_if, values, IsDict}

abbrev pub spared {ℓ} : {V : Type ℓ} → (V → Bool) → Option V → Option V
spared p none = none
spared p (some v) = if p v then none else some v

module _ {ℓ} {V : Type ℓ} where
  pub get-put :
      (k j : String) (v : V) (m : Dict V) → get j (put k v m) ≡ (if k == j then some v else get j m)
  unfolding get put
  get-put k j v [] = refl
  get-put k j v ((i, w) ∷ m) = ground (arith, eq_iff k j, eq_iff i k, eq_iff i j, get-put k j v m)

  pub get-delete :
      (k j : String) (m : Dict V) → get j (delete k m) ≡ (if k == j then none else get j m)
  unfolding get delete
  get-delete k j [] = ground arith
  get-delete k j ((i, w) ∷ m) = ground (arith, eq_iff k j, eq_iff i k, eq_iff i j, get-delete k j m)

  pub get-delete_if :
      (p : V → Bool) (k : String) (m : Dict V)
      → IsDict m
      → get k (delete_if p m) ≡ spared p (get k m)
  unfolding get delete_if
  get-delete_if p k [] d = refl
  get-delete_if p k ((i, w) ∷ m) d = ground (arith, eq_iff i k, get-delete_if p k m d.1)

  pub put-IsDict : (k : String) (v : V) (m : Dict V) → IsDict m → IsDict (put k v m)
  unfolding put get
  put-IsDict k v [] d = (refl, tt)
  put-IsDict k v ((i, w) ∷ m) d =
      ground (arith, eq_iff i k, eq_iff k i, get-put k i v m, put-IsDict k v m d.1)

  pub delete-IsDict : (k : String) (m : Dict V) → IsDict m → IsDict (delete k m)
  unfolding delete
  delete-IsDict k [] d = tt
  delete-IsDict k ((i, w) ∷ m) d =
      ground (arith, eq_iff i k, get-delete k i m, delete-IsDict k m d.1)

  pub delete_if-IsDict : (p : V → Bool) (m : Dict V) → IsDict m → IsDict (delete_if p m)
  unfolding delete_if
  delete_if-IsDict p [] d = tt
  delete_if-IsDict p ((i, w) ∷ m) d =
      ground (arith, get-delete_if p i m d.1, delete_if-IsDict p m d.1)

  pub delete_absent : (k : String) (m : Dict V) → get k m ≡ none → delete k m ≡ m
  unfolding get delete
  delete_absent k [] h = refl
  delete_absent k ((i, w) ∷ m) h = ground (arith, delete_absent k m)

  -- Deleting a key that is there makes the map smaller by one.
  pub length-delete :
      (k : String) (v : V) (m : Dict V)
      → IsDict m
      → get k m ≡ some v
      → length m ≡ length (delete k m) + 1
  unfolding get delete
  length-delete k v [] d h = absurd (cc)
  length-delete k v ((i, w) ∷ m) d h =
      ground (arith, eq_iff i k, delete_absent k m, length-delete k v m d.1)

  pub length-delete-le : (k : String) (m : Dict V) → length (delete k m) ≤ length m
  unfolding delete
  length-delete-le k [] = omega arith
  length-delete-le k ((i, w) ∷ m) = ground (arith, length-delete-le k m)

-- What holds of each value under its key, and what is inherited by the rest of a dictionary.
module _ {ℓ} {V : Type ℓ} where
  pub get-head : (j : String) (v : V) (m : Dict V) → get j ((j, v) ∷ m) ≡ some v
  unfolding get
  get-head j v m = rw (eq_refl j) refl

  pub get-tail :
      (j k : String) (v w : V) (m : Dict V)
      → get j m ≡ none
      → get k m ≡ some w
      → get k ((j, v) ∷ m) ≡ some w
  unfolding get
  get-tail j k v w m fresh found = ground (arith, eq_iff j k)

  pub All-values {κ} :
      (P : V → Type κ) (m : Dict V)
      → IsDict m
      → ((k : String) (v : V) → get k m ≡ some v → P v)
      → All P (values m)
  All-values P [] d h = tt
  All-values P ((j, v) ∷ m) (fresh, d) h =
      (h j v (get-head j v m), All-values P m d (λ k w e. h k w (get-tail j k v w m fresh e)))
