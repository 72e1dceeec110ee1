-- ===== src/Prometheus/Setup.antt =====
-- internal/prometheus/client.go: NewClient. The transport is left out; the secrets to redact are in Redact.
use Prim.Native.Char.{code}
use podwatcher.Prelude.{String, Bool, ◌*◌, ◌&&◌, ◌==◌, leb, ℤ, pos, geb, if◌then◌else◌, ◌≡◌, refl}
use podwatcher.Duration.{Duration, second, seconds}
use podwatcher.Config.{PrometheusConfig}

pub record Client : Type 0 where
  pub timeout : Duration
  pub base : String
  pub token : String
  pub insecure_skip_verify : Bool

-- strings.TrimRight(s, "/")
unfoldable pub trim_slashes : String → String
trim_slashes String.[] = ""
trim_slashes (String.◌∷◌ c s) =
    let rest = trim_slashes s in
    if rest == "" && (leb 47 (code c) && leb (code c) 47) then "" else String.◌∷◌ c rest

-- a timeout that is not positive is 20s
unfoldable pub client_timeout : ℤ → Duration
unfolding seconds
client_timeout timeout_seconds =
    let timeout = seconds timeout_seconds in
    if geb (pos 0) timeout then pos (20 * second) else timeout

unfoldable pub new_client : PrometheusConfig → Client
unfolding trim_slashes client_timeout
new_client cfg = record {
  timeout = client_timeout cfg.timeout_seconds;
  base = trim_slashes cfg.address;
  token = cfg.token;
  insecure_skip_verify = cfg.insecure_skip_verify;
}

-- A timeout of more than the largest duration is wrapped, and may stay positive.
client_timeout_samples :
    (client_timeout (pos 30) ≡ pos 30000000000)
    × (client_timeout (pos 9223372037) ≡ pos 20000000000)
    × (client_timeout (pos 18446744074) ≡ pos 290448384)
unfolding client_timeout
client_timeout_samples = (refl, refl, refl)
