-- ===== src/Service/Feed.antt =====
-- What a request of the feed can ask for.
use podwatcher.Prelude.{
  ◌≤◌, ◌<◌, ◌≡◌, String, Bool, Option, none, some, List, arith, length, length-map, length-take, ℤ,
  pos, negsuc, pos_part, lt→ltb, ltb→le,
}
use podwatcher.Kube.{Time}
use podwatcher.Store.{Store, ApplicationView}
use podwatcher.Store.Query.{get_changes, page, matched, view}
use podwatcher.Service.{
  clamp_limit, clamped, answer_feed, feed_limit, feed_since, get_applications, parse_statuses,
}

clamp_limit_bounds :
    (limit : ℤ) → (0 < pos_part (clamp_limit limit)) × (pos_part (clamp_limit limit) ≤ 200)
unfolding clamp_limit
clamp_limit_bounds (pos n) = (ground arith, ground arith)
clamp_limit_bounds (negsuc n) = (omega arith, omega arith)

length-page :
    {A : Type 0} (limit : ℤ) (xs : List A)
    → 0 < pos_part limit
    → length (page limit xs).0 ≤ pos_part limit
unfolding page
length-page limit xs h = ground (
  arith,
  lt→ltb 0 (pos_part limit) h,
  ltb→le (pos_part limit) (length xs),
  length-take (pos_part limit) xs,
)

length-get_changes :
    (s later : Store) (since : Time) (limit : ℤ) (app_id : String) (statuses : List String)
    → 0 < pos_part limit
    → length (get_changes s later since limit app_id statuses).0 ≤ pos_part limit
unfolding get_changes
length-get_changes s later since limit app_id statuses h =
    let recs = matched s since app_id statuses in
    rw (length-map (view later) (page limit recs).0) (length-page limit recs h)

length-answer_feed :
    (s later : Store) (app_id : String) (statuses : List String) (since : Option Time)
    (parsed : Option ℤ) (page_of : List ApplicationView × Bool)
    → answer_feed s later app_id statuses since (clamped parsed) ≡ some page_of
    → length page_of.0 ≤ 200
length-answer_feed s later app_id statuses none none page_of h = absurd (cc)
length-answer_feed s later app_id statuses none (some n) page_of h = absurd (cc)
length-answer_feed s later app_id statuses (some since) none page_of h = absurd (cc)
length-answer_feed s later app_id statuses (some since) (some n) page_of h =
    let e : get_changes s later since (clamp_limit n) app_id statuses ≡ page_of = cc in
    let (low, high) = clamp_limit_bounds n in
    let fits = length-get_changes s later since (clamp_limit n) app_id statuses low in
    rw⁻¹ e (omega arith)

-- A request of the feed that is answered gets no more than 200 applications, whatever its
-- parameters are and whatever the parser of times takes.
pub get_applications-bounded :
    (parse_time : String → Option Time) (s later : Store)
    (since_param limit_param app_id status_param : String) (page_of : List ApplicationView × Bool)
    → get_applications parse_time s later since_param limit_param app_id status_param ≡ some page_of
    → length page_of.0 ≤ 200
unfolding get_applications feed_limit
get_applications-bounded parse_time s later since_param limit_param app_id status_param page_of h =
    length-answer_feed s later app_id (parse_statuses status_param)
      (feed_since parse_time since_param) _ page_of h
