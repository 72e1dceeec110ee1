-- ===== src/Gateway.antt =====
-- internal/controller/prometheus_controller.go: the guards of a range query. The parsers of the
-- standard library's packages time and strconv are arguments: floating point is not modelled.
pub mod Guards
use podwatcher.Prelude.{
  ℕ, ◌-◌, ◌*◌, ◌/◌, String, Bool, Option, none, some, ◌==◌, ltb, byte_length, ℤ, pos, negsuc, geb,
  if◌then◌else◌,
}
use podwatcher.Duration.{second}
use podwatcher.Checked.{Checked, ok, err, refuse, required, ◌>>=◌, ◌>>◌}

-- Instants are nanoseconds after one that is earlier than all that these parsers return; durations
-- are nanoseconds. `unix_seconds` and `seconds` read a number by ParseFloat and scale it.
pub record Parsers : Type 0 where
  pub rfc3339 : String → Option ℕ
  pub rfc3339_nano : String → Option ℕ
  pub unix_seconds : String → Option ℕ
  pub duration : String → Option ℤ
  pub seconds : String → Option ℤ

abbrev pub max_query_len : ℕ
max_query_len = 4 * 1024

abbrev pub max_range : ℕ
max_range = 31 * 24 * 3600 * second

abbrev pub min_step : ℕ
min_step = 1 * second

abbrev pub max_step : ℕ
max_step = 24 * 3600 * second

abbrev pub max_points_per_series : ℕ
max_points_per_series = 11000

-- the first parser that takes the text
abbrev pub or_try {ℓ} : {A : Type ℓ} → Option A → Option A → Option A
or_try (some a) other = some a
or_try none other = other

unfoldable pub parse_time : Parsers → String → Option ℕ
parse_time parsers raw =
    if raw == ""
    then none
    else or_try (parsers.rfc3339 raw) (or_try (parsers.rfc3339_nano raw) (parsers.unix_seconds raw))

unfoldable pub parse_step : Parsers → String → Option ℤ
parse_step parsers raw =
    if raw == "" then none else or_try (parsers.duration raw) (parsers.seconds raw)

pub data Refusal : Type 0 where
  query_required query_too_long : Refusal
  invalid_start invalid_end end_before_start range_too_large : Refusal
  invalid_step step_too_small step_too_large too_many_points : Refusal

-- what the Prometheus client is asked
pub record RangeQuery : Type 0 where
  pub query : String
  pub start : ℕ
  pub stop : ℕ
  pub step : ℕ

-- a step of at least 1s, and so a positive one
unfoldable pub checked_step : ℤ → Checked Refusal ℕ
checked_step (negsuc n) = err step_too_small
checked_step (pos step) = do
  refuse (ltb step min_step) step_too_small
  refuse (ltb max_step step) step_too_large
  ok step

unfoldable pub check_range : Parsers → (query start stop step : String) → Checked Refusal RangeQuery
unfolding parse_time parse_step checked_step
check_range parsers query raw_start raw_stop raw_step = do
  refuse (query == "") query_required
  refuse (ltb max_query_len (byte_length query)) query_too_long
  start ← required invalid_start (parse_time parsers raw_start)
  stop ← required invalid_end (parse_time parsers raw_stop)
  refuse (ltb stop start) end_before_start
  refuse (ltb max_range (stop - start)) range_too_large
  parsed ← required invalid_step (parse_step parsers raw_step)
  step ← checked_step parsed
  refuse (ltb max_points_per_series ((stop - start) / step)) too_many_points
  ok (record { query = query; start = start; stop = stop; step = step })

-- The answer of the route: 400, 502 with the client's error, or 200 with the matrix.
pub data Answer (M : Type 0) : Type 0 where
  bad_request : Refusal → Answer M
  bad_gateway : Answer M
  matrix : M → Answer M

abbrev pub answer_of : {M : Type 0} → Option M → Answer M
answer_of none = bad_gateway
answer_of (some m) = matrix m

abbrev pub answer_range :
    {M : Type 0} → (RangeQuery → Option M) → Checked Refusal RangeQuery → Answer M
answer_range ask (err refusal) = bad_request refusal
answer_range ask (ok range) = answer_of (ask range)

-- `ask` is the client, which gives none with an error
unfoldable pub query_range :
    {M : Type 0} → Parsers → (RangeQuery → Option M) → (query start stop step : String) → Answer M
unfolding check_range
query_range parsers ask query raw_start raw_stop raw_step =
    answer_range ask (check_range parsers query raw_start raw_stop raw_step)
