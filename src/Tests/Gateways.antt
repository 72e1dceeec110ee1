-- ===== src/Tests/Gateways.antt =====
-- The gateway and the Prometheus client at concrete inputs.
use podwatcher.Prelude.{
  ℕ, zero, suc, ◌*◌, ◌≡◌, ◌↔◌, refl, Bool, false, none, some, pos, ◌==◌, byte_length, if◌then◌else◌,
}
use podwatcher.Checked.{ok}
use podwatcher.Duration.{second}
use podwatcher.Gateway.{
  Parsers, RangeQuery, parse_time, parse_step, checked_step, check_range, query_range,
  step_too_small, bad_request,
}
use podwatcher.Gateway.Guards.{IsAllowed, check_range-IsAllowed}
use podwatcher.Prometheus.{Meets, answered, request, done, query}

-- "0h" to "1h" and steps of half a minute
abbrev parsers : Parsers
parsers = record {
  rfc3339 = λ text. if text == "1h" then some (3600 * second) else none;
  rfc3339_nano = λ text. none;
  unix_seconds = λ text. some 0;
  duration = λ text. if text == "30s" then some (pos (30 * second)) else none;
  seconds = λ text. some (pos 1);
}

abbrev asked : RangeQuery
asked = record { query = "up"; start = 0; stop = 3600 * second; step = 30 * second }

one_hour : check_range parsers "up" "0h" "1h" "30s" ≡ ok asked
unfolding check_range parse_time parse_step checked_step byte_length
one_hour = refl

too_fine : query_range parsers some "up" "0h" "1h" "1" ≡ bad_request step_too_small
unfolding query_range check_range parse_time parse_step checked_step byte_length
too_fine = refl

check_range-IsAllowed_example :
    (check_range parsers "up" "0h" "1h" "30s" ≡ ok asked)
    ↔ ((asked.query ≡ "up") × IsAllowed parsers "0h" "1h" "30s" asked)
check_range-IsAllowed_example = check_range-IsAllowed parsers "up" "0h" "1h" "30s" asked

-- busy, and answered at the second request
abbrev meets : ℕ → Meets ℕ
meets zero = answered 503 none none
meets (suc n) = answered 200 (some 100) (some (record { status = "success"; result = 7 }))

abbrev is_done : ℕ → Bool
is_done n = false

second_request : query meets is_done ≡ (done 7, 2)
unfolding query request
second_request = refl
