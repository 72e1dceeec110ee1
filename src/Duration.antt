-- ===== src/Duration.antt =====
-- time.Duration: an int64 of nanoseconds, with the wrap-around of its product.
use podwatcher.Prelude.{
  ℕ, ◌-◌, ◌*◌, ◌^◌, ◌≤◌, ◌≡◌, refl, true, arith, ltb, ℤ, pos, negsuc, if◌then◌else◌,
}
use Prim.Native.Nat.{◌%◌}

abbrev pub Duration : Type 0
Duration = ℤ

-- time.Second
abbrev pub second : ℕ
second = 1000000000

-- the int64 of 64 bits
unfoldable pub signed : ℕ → ℤ
signed bits = if ltb bits (2 ^ 63) then pos bits else negsuc (2 ^ 64 - 1 - bits)

-- the 64 bits of an int
unfoldable pub bits_of : ℤ → ℕ
bits_of (pos n) = n % 2 ^ 64
bits_of (negsuc n) = 2 ^ 64 - 1 - n % 2 ^ 64

-- time.Duration(n) * time.Second
unfoldable pub seconds : ℤ → Duration
unfolding signed bits_of
seconds n = signed (bits_of n * second % 2 ^ 64)

-- up to the largest duration nothing is wrapped
pub seconds_exact : (n : ℕ) → n ≤ 9223372036 → seconds (pos n) ≡ pos (n * second)
unfolding seconds bits_of signed
seconds_exact n h =
    let small : n % 2 ^ 64 ≡ n = omega arith in
    let product : n * second % 2 ^ 64 ≡ n * second = omega arith in
    let below : ltb (n * second) (2 ^ 63) ≡ true = ground arith in rw (small, product, below) refl

seconds_samples :
    (seconds (pos 20) ≡ pos 20000000000)
    × (seconds (negsuc 0) ≡ negsuc 999999999)
    × (seconds (pos 9223372037) ≡ negsuc 9223372036709551615)
unfolding seconds
seconds_samples = (refl, refl, refl)
