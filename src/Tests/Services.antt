-- ===== src/Tests/Services.antt =====
-- Requests of the feed at concrete inputs.
use podwatcher.Prelude.{◌≡◌, refl, String, Bool, Option, some, none, List, [], ◌∷◌, pos, parse_int}
use podwatcher.Kube.{Time}
use podwatcher.Store.{ApplicationView}
use podwatcher.Store.Query.{get_changes}
use podwatcher.Service.{parse_statuses, feed_limit}
use podwatcher.Tests.Samples.{three}

abbrev no_time : String → Option Time
no_time text = none

two_statuses : parse_statuses " running,, failed " ≡ "running" ∷ "failed" ∷ []
unfolding parse_statuses
two_statuses = refl

large_limit : feed_limit "5000" ≡ some (pos 200)
unfolding feed_limit parse_int
large_limit = refl

not_a_limit : feed_limit "ten" ≡ none
unfolding feed_limit parse_int
not_a_limit = refl

abbrev answer : List ApplicationView × Bool
answer = get_changes three three 0 (pos 200) "" []
