-- ===== src/Gateway/Guards.antt =====
-- Which range queries reach Prometheus.
use podwatcher.Prelude.{
  ℕ, ◌-◌, ◌*◌, ◌/◌, ◌≤◌, String, ◌≡◌, ◌≢◌, ◌↔◌, refl, sym, ap, ◌∙◌, le→ltb, ne→==false, ==false→ne,
  some, ◌==◌, ltb, byte_length, ℤ, pos, negsuc, arith, ltb→le,
}
use podwatcher.Checked.{
  ok, refuse_then, required_then, bind_then, refuse-goes_on, required-goes_on, ok-goes_on,
}
use podwatcher.Gateway.{
  Parsers, RangeQuery, parse_time, parse_step, checked_step, check_range, second, max_query_len,
  max_range, min_step, max_step, max_points_per_series, query_required, query_too_long,
  invalid_start, invalid_end, end_before_start, range_too_large, invalid_step, step_too_small,
  step_too_large, too_many_points,
}

-- What a query must be to reach Prometheus.
pub record IsAllowed (parsers : Parsers) (raw_start raw_stop raw_step : String) (range : RangeQuery)
    : Type 0 where
  pub asked : range.query ≢ ""
  pub short : byte_length range.query ≤ 4096
  pub start : parse_time parsers raw_start ≡ some range.start
  pub stop : parse_time parsers raw_stop ≡ some range.stop
  pub ordered : range.start ≤ range.stop
  pub within : range.stop - range.start ≤ 31 * 24 * 3600 * second
  pub step : parse_step parsers raw_step ≡ some (pos range.step)
  pub step_low : second ≤ range.step
  pub step_high : range.step ≤ 24 * 3600 * second
  pub points : (range.stop - range.start) / range.step ≤ 11000

checked_step_inv :
    (parsed : ℤ) (step : ℕ)
    → checked_step parsed ≡ ok step
    → (parsed ≡ pos step) × (second ≤ step) × (step ≤ 24 * 3600 * second)
unfolding checked_step
checked_step_inv (negsuc n) step h = cc
checked_step_inv (pos n) step h =
    let (low, h1) = refuse_then (ltb n min_step) step_too_small _ step h in
    let (high, h2) = refuse_then (ltb max_step n) step_too_large (ok n) step h1 in
    let same : n ≡ step = cc in
    (
      ap pos same,
      omega (arith, same, ltb→le n min_step low),
      omega (arith, same, ltb→le max_step n high),
    )

checked_step_ok :
    (step : ℕ) → second ≤ step → step ≤ 24 * 3600 * second → checked_step (pos step) ≡ ok step
unfolding checked_step
checked_step_ok step low high =
    refuse-goes_on (ltb step min_step) step_too_small _ (ground arith)
    ∙ refuse-goes_on (ltb max_step step) step_too_large (ok step) (ground arith)

module _ (parsers : Parsers) (query raw_start raw_stop raw_step : String) (range : RangeQuery) where
  check_range-allows :
      check_range parsers query raw_start raw_stop raw_step ≡ ok range
      → (range.query ≡ query) × IsAllowed parsers raw_start raw_stop raw_step range
  unfolding check_range
  check_range-allows h =
      let (asked, h1) = refuse_then (query == "") query_required _ range h in
      let (short, h2) =
        refuse_then (ltb max_query_len (byte_length query)) query_too_long _ range h1 in
      let (start, at_start, h3) =
        required_then invalid_start (parse_time parsers raw_start) _ range h2 in
      let (stop, at_stop, h4) =
        required_then invalid_end (parse_time parsers raw_stop) _ range h3 in
      let (ordered, h5) = refuse_then (ltb stop start) end_before_start _ range h4 in
      let (within, h6) = refuse_then (ltb max_range (stop - start)) range_too_large _ range h5 in
      let (parsed, at_step, h7) =
        required_then invalid_step (parse_step parsers raw_step) _ range h6 in
      let (step, checked, h8) = bind_then (checked_step parsed) _ range h7 in
      let (points, h9) =
        refuse_then (ltb max_points_per_series ((stop - start) / step)) too_many_points _ range
          h8 in
      let (signed, low, high) = checked_step_inv parsed step checked in
      let same : record { query = query; start = start; stop = stop; step = step } ≡ range = cc in
      rw⁻¹ same (
        refl,
        record {
          asked = ==false→ne query "" asked;
          short = ltb→le max_query_len (byte_length query) short;
          start = at_start;
          stop = at_stop;
          ordered = ltb→le stop start ordered;
          within = ltb→le max_range (stop - start) within;
          step = at_step ∙ ap some signed;
          step_low = low;
          step_high = high;
          points = ltb→le max_points_per_series ((stop - start) / step) points;
        },
      )

  IsAllowed-check_range :
      IsAllowed parsers raw_start raw_stop raw_step range
      → check_range parsers range.query raw_start raw_stop raw_step ≡ ok range
  unfolding check_range
  IsAllowed-check_range allowed =
      refuse-goes_on (range.query == "") query_required _ (ne→==false range.query "" allowed.asked)
      ∙ refuse-goes_on (ltb max_query_len (byte_length range.query)) query_too_long _
          (le→ltb max_query_len (byte_length range.query) allowed.short)
      ∙ required-goes_on invalid_start (parse_time parsers raw_start) _ range.start allowed.start
      ∙ required-goes_on invalid_end (parse_time parsers raw_stop) _ range.stop allowed.stop
      ∙ refuse-goes_on (ltb range.stop range.start) end_before_start _
          (le→ltb range.stop range.start allowed.ordered)
      ∙ refuse-goes_on (ltb max_range (range.stop - range.start)) range_too_large _
          (le→ltb max_range (range.stop - range.start) allowed.within)
      ∙ required-goes_on invalid_step (parse_step parsers raw_step) _ (pos range.step) allowed.step
      ∙ ok-goes_on (checked_step (pos range.step)) _ range.step
          (checked_step_ok range.step allowed.step_low allowed.step_high)
      ∙ refuse-goes_on (ltb max_points_per_series ((range.stop - range.start) / range.step))
          too_many_points _
          (le→ltb max_points_per_series ((range.stop - range.start) / range.step) allowed.points)

-- A range query reaches Prometheus exactly when it is asked in 1 to 4096 bytes, over an ordered range
-- of at most 31 days, in steps of 1s to 24h, and with at most 11000 steps in the range; the client is
-- asked with the values that were parsed.
pub check_range-IsAllowed :
    (parsers : Parsers) (query raw_start raw_stop raw_step : String) (range : RangeQuery)
    → (check_range parsers query raw_start raw_stop raw_step ≡ ok range)
      ↔ ((range.query ≡ query) × IsAllowed parsers raw_start raw_stop raw_step range)
check_range-IsAllowed parsers query raw_start raw_stop raw_step range = (
  check_range-allows parsers query raw_start raw_stop raw_step range,
  λ (same, allowed).
      ap (λ q. check_range parsers q raw_start raw_stop raw_step) (sym same)
      ∙ IsAllowed-check_range parsers query raw_start raw_stop raw_step range allowed,
)
