-- ===== src/Checked.antt =====
-- Go's (value, error) where the error is looked at: a value, or the reason of the error.
use podwatcher.Prelude.{Bool, true, false, Option, none, some, ◌≡◌, refl, ap}

pub data Checked (E : Type 0) (A : Type 0) : Type 0 where
  ok : A → Checked E A
  err : E → Checked E A

infixl 5 ◌>>=◌ ◌>>◌
abbrev pub ◌>>=◌ : {E A B : Type 0} → Checked E A → (A → Checked E B) → Checked E B
ok a >>= f = f a
err e >>= f = err e

abbrev pub ◌>>◌ : {E B : Type 0} → Checked E (Unit {0}) → Checked E B → Checked E B
m >> k = m >>= λ _. k

-- `if refused { return err }`
abbrev pub refuse : {E : Type 0} → Bool → E → Checked E (Unit {0})
refuse true e = err e
refuse false e = ok tt

-- a value, or the error that stands for its absence
abbrev pub required : {E A : Type 0} → E → Option A → Checked E A
required e none = err e
required e (some a) = ok a

-- Inversions of a successful chain.
pub refuse_then :
    {E B : Type 0} (b : Bool) (e : E) (k : Checked E B) (r : B)
    → (refuse b e >> k) ≡ ok r
    → (b ≡ false) × (k ≡ ok r)
refuse_then true e k r h = cc
refuse_then false e k r h = (refl, h)

pub required_then :
    {E A B : Type 0} (e : E) (o : Option A) (f : A → Checked E B) (r : B)
    → (required e o >>= f) ≡ ok r
    → (a : A) × (o ≡ some a) × (f a ≡ ok r)
required_then e none f r h = cc
required_then e (some a) f r h = (a, refl, h)

pub bind_then :
    {E A B : Type 0} (m : Checked E A) (f : A → Checked E B) (r : B)
    → (m >>= f) ≡ ok r
    → (a : A) × (m ≡ ok a) × (f a ≡ ok r)
bind_then (ok a) f r h = (a, refl, h)
bind_then (err e) f r h = cc

-- and the steps that keep it going
pub refuse-goes_on :
    {E B : Type 0} (b : Bool) (e : E) (k : Checked E B) → b ≡ false → (refuse b e >> k) ≡ k
refuse-goes_on true e k h = cc
refuse-goes_on false e k h = refl

pub required-goes_on :
    {E A B : Type 0} (e : E) (o : Option A) (f : A → Checked E B) (a : A)
    → o ≡ some a
    → (required e o >>= f) ≡ f a
required-goes_on e none f a h = cc
required-goes_on e (some b) f a h = let same : b ≡ a = cc in ap f same

pub ok-goes_on :
    {E A B : Type 0} (m : Checked E A) (f : A → Checked E B) (a : A) → m ≡ ok a → (m >>= f) ≡ f a
ok-goes_on m f a h = ap (λ r. r >>= f) h

-- one value is not two
pub ok_same : {E A : Type 0} {a b : A} → Path (Checked E A) (ok a) (ok b) → a ≡ b
ok_same h = cc
