-- ===== src/Prelude/Decimal.antt =====
-- strconv.ParseInt in base 10 for 64 bits: a sign, digits, and the range of int64.
use Prim.Native.Char.{code}
use Prim.Native.Nat.{ℕ, zero, suc, ◌+◌, ◌-◌, ◌*◌}
use Prim.Native.String.{String}
use mathlib.Core.Path.{◌≡◌, refl}
use mathlib.Core.Bool.{Bool, true, false, ◌&&◌}
use mathlib.Core.Option.{Option, none, some}
use podwatcher.Prelude.Tests.{leb, if◌then◌else◌}
use podwatcher.Prelude.Int.{ℤ, pos, negsuc}

-- 1 << 63
abbrev pub cutoff : ℕ
cutoff = 9223372036854775808

unfoldable pub is_digit : ℕ → Bool
is_digit c = leb 48 c && leb c 57

parse_digits : String → ℕ → Option ℕ
unfolding is_digit
parse_digits String.[] value = some value
parse_digits (String.◌∷◌ c s) value =
    let rest = parse_digits s (value * 10 + (code c - 48)) in
    if is_digit (code c) then rest else none

parse_magnitude : String → Option ℕ
unfolding parse_digits
parse_magnitude String.[] = none
parse_magnitude (String.◌∷◌ c s) = parse_digits (String.◌∷◌ c s) 0

below_cutoff : Option ℕ → Option ℤ
below_cutoff none = none
below_cutoff (some n) = if leb cutoff n then none else some (pos n)

abbrev pub opposite : ℕ → ℤ
opposite zero = pos 0
opposite (suc n) = negsuc n

down_to_cutoff : Option ℕ → Option ℤ
down_to_cutoff none = none
down_to_cutoff (some n) = if leb n cutoff then some (opposite n) else none

unfoldable pub parse_int : String → Option ℤ
unfolding parse_magnitude below_cutoff down_to_cutoff
parse_int String.[] = none
parse_int (String.◌∷◌ c s) =
    if leb 45 (code c) && leb (code c) 45
    then down_to_cutoff (parse_magnitude s)
    else if leb 43 (code c) && leb (code c) 43
    then below_cutoff (parse_magnitude s)
    else below_cutoff (parse_magnitude (String.◌∷◌ c s))

-- a >= b
abbrev pub geb : ℤ → ℤ → Bool
geb (pos a) (pos b) = leb b a
geb (pos a) (negsuc b) = true
geb (negsuc a) (pos b) = false
geb (negsuc a) (negsuc b) = leb a b

parse_int_samples :
    (parse_int "1234" ≡ some (pos 1234))
    × (parse_int "-2" ≡ some (negsuc 1))
    × (parse_int "9223372036854775808" ≡ none)
    × (parse_int "12a" ≡ none)
unfolding parse_int
parse_int_samples = (refl, refl, refl, refl)
