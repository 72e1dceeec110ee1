-- ===== src/Prelude/Atoi.antt =====
-- The number that strconv.Atoi gives besides its error, for callers that ignore the error: 0 for a
-- text that is no number, and the nearest int64 for a number out of range.
use Prim.Native.Char.{code}
use Prim.Native.Nat.{ℕ, ◌+◌, ◌-◌, ◌*◌, ◌^◌}
use Prim.Native.String.{String}
use mathlib.Core.Path.{◌≡◌, refl}
use mathlib.Core.Bool.{◌&&◌}
use podwatcher.Prelude.Tests.{leb, if◌then◌else◌}
use podwatcher.Prelude.Int.{ℤ, pos, negsuc}
use podwatcher.Prelude.Decimal.{cutoff, is_digit, opposite}

-- ParseUint for 64 bits: the first character that is no digit, or the first digit with which the
-- number is too large, ends it
pub data Scanned : Type 0 where
  number : ℕ → Scanned
  syntax_error too_large : Scanned

scan_digits : String → ℕ → Scanned
unfolding is_digit
scan_digits String.[] value = number value
scan_digits (String.◌∷◌ c s) value =
    let next = value * 10 + (code c - 48) in
    let rest = scan_digits s next in
    if is_digit (code c) then if leb (2 ^ 64) next then too_large else rest else syntax_error

scan_magnitude : String → Scanned
unfolding scan_digits
scan_magnitude String.[] = syntax_error
scan_magnitude (String.◌∷◌ c s) = scan_digits (String.◌∷◌ c s) 0

up_to_cutoff : Scanned → ℤ
up_to_cutoff (number n) = if leb cutoff n then pos (cutoff - 1) else pos n
up_to_cutoff syntax_error = pos 0
up_to_cutoff too_large = pos (cutoff - 1)

from_cutoff : Scanned → ℤ
from_cutoff (number n) = if leb n cutoff then opposite n else opposite cutoff
from_cutoff syntax_error = pos 0
from_cutoff too_large = opposite cutoff

unfoldable pub atoi : String → ℤ
unfolding scan_magnitude up_to_cutoff from_cutoff
atoi String.[] = pos 0
atoi (String.◌∷◌ c s) =
    if leb 45 (code c) && leb (code c) 45
    then from_cutoff (scan_magnitude s)
    else if leb 43 (code c) && leb (code c) 43
    then up_to_cutoff (scan_magnitude s)
    else up_to_cutoff (scan_magnitude (String.◌∷◌ c s))

atoi_samples :
    (atoi "50" ≡ pos 50)
    × (atoi "fifty" ≡ pos 0)
    × (atoi "-1" ≡ negsuc 0)
    × (atoi "99999999999999999999999" ≡ pos 9223372036854775807)
unfolding atoi
atoi_samples = (refl, refl, refl, refl)
