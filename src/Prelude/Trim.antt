-- ===== src/Prelude/Trim.antt =====
-- strings.TrimSpace on code points, and the length of a text in UTF-8.
use Prim.Native.Char.{Char, code}
use Prim.Native.Nat.{ℕ, ◌+◌}
use Prim.Native.String.{String}
use mathlib.Core.Bool.{Bool, ◌&&◌, ◌||◌}
use text.Mathlib.Text.{◌==◌}
use podwatcher.Prelude.Tests.{leb, ltb, if◌then◌else◌}

-- unicode.IsSpace: ASCII's and Latin-1's, and the class Z of the rest
unfoldable pub is_space : Char → Bool
is_space c =
    (leb 9 (code c) && leb (code c) 13)
    || (leb 32 (code c) && leb (code c) 32)
    || (leb 133 (code c) && leb (code c) 133)
    || (leb 160 (code c) && leb (code c) 160)
    || (leb 5760 (code c) && leb (code c) 5760)
    || (leb 8192 (code c) && leb (code c) 8202)
    || (leb 8232 (code c) && leb (code c) 8233)
    || (leb 8239 (code c) && leb (code c) 8239)
    || (leb 8287 (code c) && leb (code c) 8287)
    || (leb 12288 (code c) && leb (code c) 12288)

unfoldable pub trim_left : String → String
unfolding is_space
trim_left String.[] = ""
trim_left (String.◌∷◌ c s) = let rest = trim_left s in if is_space c then rest else String.◌∷◌ c s

unfoldable pub trim_right : String → String
unfolding is_space
trim_right String.[] = ""
trim_right (String.◌∷◌ c s) =
    let rest = trim_right s in if rest == "" && is_space c then "" else String.◌∷◌ c rest

-- strings.TrimSpace
abbrev pub trim_space : String → String
trim_space s = trim_right (trim_left s)

-- the bytes of a character
abbrev char_bytes : Char → ℕ
char_bytes c =
    if ltb (code c) 128
    then 1
    else if ltb (code c) 2048
    then 2
    else if ltb (code c) 65536
    then 3
    else 4

-- len(s)
unfoldable pub byte_length : String → ℕ
byte_length String.[] = 0
byte_length (String.◌∷◌ c s) = char_bytes c + byte_length s
