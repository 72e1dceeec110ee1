-- ===== src/Redact.antt =====
-- internal/prometheus/client.go, internal/elasticsearch/client.go: what both clients take out of a text
-- before it is logged. A text is the list of its code points, and has no byte that is not UTF-8. The two
-- regular expressions, and the encodings of a secret, are arguments.
pub mod Secrets
pub mod Line
use Prim.Native.Char.{code}
use Prim.Native.Nat.{◌%◌}
use podwatcher.Prelude.{
  ℕ, zero, suc, ◌+◌, ◌-◌, ◌*◌, ◌/◌, ◌^◌, String, Bool, true, false, List, [], ◌∷◌, ◌++◌, map,
  length, take, ◌&&◌, ◌||◌, ◌==◌, leb, ltb, if◌then◌else◌, ◌≡◌, refl,
}

abbrev pub Text : Type 0
Text = List ℕ

-- the code points of a text
abbrev pub codes : String → Text
codes String.[] = []
codes (String.◌∷◌ c s) = code c ∷ codes s

abbrev pub same : ℕ → ℕ → Bool
same a b = leb a b && leb b a

-- strings.HasPrefix
unfoldable pub starts : Text → Text → Bool
starts [] s = true
starts (d ∷ t) [] = false
starts (d ∷ t) (c ∷ s) = same d c && starts t s

-- strings.Contains
unfoldable pub holds : Text → Text → Bool
unfolding starts
holds t [] = starts t []
holds t (c ∷ s) = starts t (c ∷ s) || holds t s

abbrev pub mask : Text
mask = codes "[REDACTED]"

-- strings.NewReplacer of secrets that are not empty: at each position the first of them, in the order
-- of the arguments, that stands there is replaced, and the text goes on after it.
unfoldable pub match_length : List Text → Text → ℕ
unfolding starts
match_length [] s = 0
match_length (t ∷ ts) s = let later = match_length ts s in if starts t s then length t else later

unfoldable pub replace : List Text → ℕ → Text → Text
unfolding match_length
replace secrets skip [] = []
replace secrets (suc skip) (c ∷ s) = replace secrets skip s
replace secrets zero (c ∷ s) =
    let found = match_length secrets (c ∷ s) in
    let rest = replace secrets (found - 1) s in if same found 0 then c ∷ rest else mask ++ rest

-- c.redact.Replace
unfoldable pub redact : List Text → Text → Text
unfolding replace
redact secrets s = replace secrets 0 s

-- The texts that NewClient hides: none, without a token or a password.
unfoldable pub prometheus_secrets : (query_escape path_escape : Text → Text) → Text → List Text
prometheus_secrets query_escape path_escape [] = []
prometheus_secrets query_escape path_escape (c ∷ s) =
    let token = c ∷ s in
    token ∷ (codes "Bearer " ++ token) ∷ query_escape token ∷ path_escape token ∷ []

unfoldable pub elastic_secrets :
    (base64 query_escape path_escape : Text → Text) → (username password : Text) → List Text
elastic_secrets base64 query_escape path_escape username [] = []
elastic_secrets base64 query_escape path_escape username (c ∷ s) =
    let password = c ∷ s in
    base64 (username ++ (codes ":" ++ password))
    ∷ password
    ∷ query_escape password
    ∷ path_escape password
    ∷ []

-- strconv.QuoteToASCII
abbrev hex_digit : ℕ → ℕ
hex_digit n = if ltb n 10 then b'0' + n else b'a' + (n - 10)

unfoldable pub hex : ℕ → ℕ → Text
hex zero c = []
hex (suc width) c = hex_digit (c / 16 ^ width % 16) ∷ hex width c

-- the escapes of \a, \b, \t, \n, \v, \f and \r
abbrev pub short_escape : ℕ → ℕ
short_escape c =
    if same c 7
    then b'a'
    else if same c 8
    then b'b'
    else if same c 9
    then b't'
    else if same c 10
    then b'n'
    else if same c 11
    then b'v'
    else if same c 12
    then b'f'
    else b'r'

unfoldable pub quote_char : ℕ → Text
unfolding hex
quote_char c =
    if same c b'"' || same c b'\\'
    then b'\\' ∷ c ∷ []
    else if leb 32 c && leb c 126
    then c ∷ []
    else if leb 7 c && leb c 13
    then b'\\' ∷ short_escape c ∷ []
    else if ltb c 32 || same c 127
    then b'\\' ∷ b'x' ∷ hex 2 c
    else if ltb c 65536
    then b'\\' ∷ b'u' ∷ hex 4 c
    else b'\\' ∷ b'U' ∷ hex 8 c

unfoldable pub quote_chars : Text → Text
unfolding quote_char
quote_chars [] = b'"' ∷ []
quote_chars (c ∷ s) = quote_char c ++ quote_chars s

unfoldable pub quote : Text → Text
unfolding quote_chars
quote s = b'"' ∷ quote_chars s

-- the cut at 2048 bytes, which are characters here
unfoldable pub cut : Text → Text
cut s = if ltb 2048 (length s) then take 2048 s ++ codes "... [truncated]" else s

-- `safeDetail`
unfoldable pub safe_detail :
    (hide_url_credentials hide_auth_credentials : Text → Text) → List Text → Text → Text
unfolding redact quote cut
safe_detail hide_url_credentials hide_auth_credentials secrets detail =
    cut (quote (redact secrets (hide_auth_credentials (hide_url_credentials detail))))

redact_samples :
    (redact (codes "ab" ∷ codes "abc" ∷ []) (codes "xabcabx") ≡ codes "x[REDACTED]c[REDACTED]x")
    × (redact [] (codes "ab") ≡ codes "ab")
unfolding redact
redact_samples = (refl, refl)

quote_samples :
    (quote (codes "a\"b\n") ≡ codes "\"a\\\"b\\n\"")
    × (quote (233 ∷ 128512 ∷ 1 ∷ []) ≡ codes "\"\\u00e9\\U0001f600\\x01\"")
unfolding quote
quote_samples = (refl, refl)
