-- ===== src/Elastic/Setup.antt =====
-- internal/elasticsearch/client.go: what NewClient checks. url.Parse, strings.ToLower, the environment
-- and the SDK are arguments.
use Prim.Native.Char.{Char, code}
use podwatcher.Prelude.{
  ℕ, String, Bool, true, false, Option, none, some, not, ◌&&◌, ◌||◌, ◌==◌, leb, or_else, ℤ, pos,
  geb, if◌then◌else◌,
}
use podwatcher.Checked.{Checked, ok, refuse, ◌>>◌}
use podwatcher.Duration.{Duration, seconds}
use podwatcher.Config.{ElasticsearchConfig}

-- The parts of a *url.URL that are looked at.
pub record Url : Type 0 where
  pub scheme : String
  pub host : String
  pub has_user : Bool
  pub raw_query : String
  pub fragment : String

-- What the outside answers: the parser of addresses, the lower case of a text, a variable if it is
-- set, and whether the SDK takes its settings.
pub record Outside : Type 0 where
  pub parse_url : String → Option Url
  pub to_lower : String → String
  pub lookup_env : String → Option String
  pub takes_settings : Bool

pub data ConfigError : Type 0 where
  bad_address bad_index bad_authentication bad_timeout no_sdk : ConfigError

-- The fields of `Client` that are kept here, and the password that the SDK is given.
pub record Client : Type 0 where
  pub timeout : Duration
  pub index : String
  pub cluster : String
  pub password : String

abbrev same_char : Char → Char → Bool
same_char a b = leb (code a) (code b) && leb (code b) (code a)

unfoldable pub has_char : Char → String → Bool
has_char c String.[] = false
has_char c (String.◌∷◌ d s) = same_char c d || has_char c s

-- strings.ContainsAny
unfoldable pub contains_any : String → String → Bool
unfolding has_char
contains_any String.[] chars = false
contains_any (String.◌∷◌ c s) chars = has_char c chars || contains_any s chars

-- strings.HasPrefix with the one character of a code
unfoldable pub starts_with : ℕ → String → Bool
starts_with n String.[] = false
starts_with n (String.◌∷◌ c s) = leb n (code c) && leb (code c) n

unfoldable pub is_bad_address : Option Url → Bool
is_bad_address none = true
is_bad_address (some u) =
    not (u.scheme == "http") && not (u.scheme == "https")
    || u.host == ""
    || u.has_user
    || not (u.raw_query == "")
    || not (u.fragment == "")

-- the codes are those of '_', '-' and '+'
unfoldable pub is_bad_index : (String → String) → String → Bool
unfolding contains_any starts_with
is_bad_index to_lower index =
    index == ""
    || contains_any index "/\\ *?\"<>|,#:"
    || not (to_lower index == index)
    || starts_with 95 index
    || starts_with 45 index
    || starts_with 43 index
    || index == "."
    || index == ".."

-- a user without a password
abbrev pub is_unauthenticated : String → String → String → Bool
is_unauthenticated username password_env password =
    not (username == "") && (password_env == "" || password == "")

-- negative, or more seconds than a duration has
abbrev pub is_bad_timeout : ℤ → Bool
is_bad_timeout timeout_seconds =
    not (geb timeout_seconds (pos 0)) || not (geb (pos 9223372036) timeout_seconds)

abbrev pub or_default : ℤ → ℤ
or_default timeout_seconds =
    if geb timeout_seconds (pos 0) && geb (pos 0) timeout_seconds then pos 20 else timeout_seconds

unfoldable pub new_client : Outside → ElasticsearchConfig → String → Checked ConfigError Client
unfolding is_bad_address is_bad_index
new_client outside cfg cluster = do
  refuse (is_bad_address (outside.parse_url cfg.address)) bad_address
  refuse (is_bad_index outside.to_lower cfg.index) bad_index
  refuse
      (is_unauthenticated cfg.username cfg.password_env
        (or_else (outside.lookup_env cfg.password_env) ""))
      bad_authentication
  refuse (is_bad_timeout cfg.timeout_seconds) bad_timeout
  refuse (not outside.takes_settings) no_sdk
  ok (record {
    timeout = seconds (or_default cfg.timeout_seconds);
    index = cfg.index;
    cluster = cluster;
    password = or_else (outside.lookup_env cfg.password_env) "";
  })
