-- ===== src/Service.antt =====
-- internal/service/pod_service.go: the parameters of the application feed. time.Parse with its layout
-- RFC3339Nano is an argument.
pub mod Feed
pub mod Records
use Prim.Native.Char.{Char, code}
use podwatcher.Prelude.{
  String, Bool, true, false, Option, none, some, List, [], ◌∷◌, map, not, ◌&&◌, ◌||◌, ◌==◌, leb, ℤ,
  pos, negsuc, geb, parse_int, trim_left, trim_right, trim_space, keep_if, if◌then◌else◌,
}
use podwatcher.Kube.{Time}
use podwatcher.Store.{Store, ApplicationView}
use podwatcher.Store.Query.{get_changes}

abbrev pub is_comma : Char → Bool
is_comma c = leb 44 (code c) && leb (code c) 44

-- the first part grows by a character
unfoldable pub attach : Char → List String → List String
attach c [] = String.◌∷◌ c "" ∷ []
attach c (part ∷ parts) = String.◌∷◌ c part ∷ parts

-- strings.Split(s, ",")
unfoldable pub split_commas : String → List String
unfolding attach
split_commas String.[] = "" ∷ []
split_commas (String.◌∷◌ c s) =
    let rest = split_commas s in if is_comma c then "" ∷ rest else attach c rest

unfoldable pub parse_statuses : String → List String
unfolding split_commas trim_left trim_right keep_if
parse_statuses status_param =
    if status_param == ""
    then []
    else keep_if (λ st. not (st == "")) (map trim_space (split_commas status_param))

-- a limit that is not positive is 100, and one over 200 is 200
unfoldable pub clamp_limit : ℤ → ℤ
clamp_limit limit =
    let positive = if geb (pos 0) limit then pos 100 else limit in
    if geb (pos 200) positive then positive else pos 200

abbrev pub clamped : Option ℤ → Option ℤ
clamped none = none
clamped (some limit) = some (clamp_limit limit)

-- the limit of a request, or the error of strconv.Atoi
unfoldable pub feed_limit : String → Option ℤ
unfolding clamp_limit
feed_limit limit_param =
    clamped (if limit_param == "" then some (pos 100) else parse_int limit_param)

-- the time that the feed starts after, or the error of time.Parse
unfoldable pub feed_since : (String → Option Time) → String → Option Time
feed_since parse_time since_param = if since_param == "" then some 0 else parse_time since_param

abbrev pub answer_feed :
    (s later : Store) (app_id : String) (statuses : List String)
    → Option Time
    → Option ℤ
    → Option (List ApplicationView × Bool)
answer_feed s later app_id statuses (some since) (some limit) =
    some (get_changes s later since limit app_id statuses)
answer_feed s later app_id statuses _ _ = none

-- none is an error, which the controller answers with 400
unfoldable pub get_applications :
    (String → Option Time)
    → (s later : Store) → (since limit app_id status : String)
    → Option (List ApplicationView × Bool)
unfolding feed_since feed_limit parse_statuses
get_applications parse_time s later since_param limit_param app_id status_param =
    answer_feed s later app_id (parse_statuses status_param) (feed_since parse_time since_param)
      (feed_limit limit_param)
