-- ===== src/Controller/Limits.antt =====
-- What the limit of a request for events or pod records does.
use podwatcher.Prelude.{
  ◌⊎◌, ◌≡◌, ◌≢◌, Option-cases, none, some, ◌==◌, ==false→ne, eq_iff, refl, sym, ap, ◌∙◌, ℕ, zero,
  suc, ◌≤◌, min, arith, String, true, Option, List, length, take, take_all, length-take, ltb, ◌&&◌,
  ltb→le, ℤ, pos, negsuc, pos_part, geb, atoi, if◌then◌else◌, Bool-cases, inl, inr,
}
use podwatcher.Checked.{Checked, ok, err, ◌>>=◌}
use podwatcher.Kube.{Time}
use podwatcher.Store.{Store, PodRecord}
use podwatcher.Store.Query.{PodRecordFilter, page, selected, get_pod_records}
use podwatcher.Handler.{Handler, get_events, get_stats}
use podwatcher.Service.Records.{
  WindowError, invalid_start_time, invalid_end_time, parse_bound, parse_time_window,
  query_pod_records,
}
use podwatcher.Store.Query.Records.{IsSelection, selected-IsSelection}
use podwatcher.Controller.{
  Answer, counted, served, bad_request, Params, query, default_query, asked_limit, answer_events,
  answer_records, answer_pod_records,
}

-- the number that a request names, 0 where that is not positive
abbrev pub named : Params → ℕ
named params = pos_part (atoi (default_query params "limit" "50"))

named-cases :
    (params : Params)
    → ((text : String) × (params "limit" ≡ some text) × (named params ≡ pos_part (atoi text)))
      ⊎ ((params "limit" ≡ none) × (named params ≡ 50))
unfolding atoi
named-cases params = elim (Option-cases (params "limit")) [
  | inl missing ↦ inr (missing, rw missing refl)
  | inr (text, given) ↦ inl (text, given, rw given refl)
]

-- a positive number takes as many, and 200 at most; 0 takes all
unfoldable pub taken {ℓ} : {A : Type ℓ} → ℕ → List A → List A
unfolding take
taken zero xs = xs
taken (suc n) xs = take (min (suc n) 200) xs

pos_part-asked_limit : (params : Params) → pos_part (asked_limit params) ≡ min (named params) 200
unfolding asked_limit
pos_part-asked_limit params = capped (atoi (default_query params "limit" "50"))
  where
    capped :
        (limit : ℤ)
        → pos_part (if geb (pos 200) limit then limit else pos 200) ≡ min (pos_part limit) 200
    capped (pos n) = ground arith
    capped (negsuc n) = omega arith

cut_taken :
    {A : Type 0} (n m : ℕ) (xs : List A)
    → n ≡ min m 200
    → (if ltb 0 n && ltb n (length xs) then take n xs else xs) ≡ taken m xs
unfolding taken
cut_taken n zero xs e = ground (arith, e)
cut_taken n (suc m) xs e =
    let some_taken : ltb 0 n ≡ true = ground (arith, e) in
    let same : take n xs ≡ take (min (suc m) 200) xs = ap (λ k. take k xs) e in
    elim (Bool-cases (ltb n (length xs))) [
      | inl longer ↦ rw (some_taken, longer) same
      | inr fits ↦ rw (some_taken, fits) (sym (take_all n xs (ltb→le n (length xs) fits)) ∙ same)
    ]

page-cut :
    {A : Type 0} (limit : ℤ) (xs : List A)
    → (page limit xs).0 ≡ (
        if ltb 0 (pos_part limit) && ltb (pos_part limit) (length xs)
        then take (pos_part limit) xs
        else xs)
unfolding page
page-cut limit xs = elim (Bool-cases (ltb 0 (pos_part limit) && ltb (pos_part limit) (length xs))) [
  | inl cut ↦ rw cut refl
  | inr whole ↦ rw whole refl
]

length-taken : {A : Type 0} (n : ℕ) (xs : List A) → (n ≡ 0) ⊎ (length (taken n xs) ≤ 200)
unfolding taken
length-taken zero xs = inl refl
length-taken (suc n) xs = inr (omega (arith, length-take (min (suc n) 200) xs))

-- The text of a bound on time is empty, and is none, or it parses as the bound.
abbrev pub IsBound : (String → Option Time) → String → Option Time → Type 0
IsBound parse_time raw bound =
    ((raw ≡ "") × (bound ≡ none))
    ⊎ ((raw ≢ "") × (t : Time) × (parse_time raw ≡ some t) × (bound ≡ some t))

abbrev pub IsBadBound : (String → Option Time) → String → Type 0
IsBadBound parse_time raw = (raw ≢ "") × (parse_time raw ≡ none)

parse_bound-cases :
    (e : WindowError) (parse_time : String → Option Time) (raw : String)
    → ((bound : Option Time) × IsBound parse_time raw bound
        × (parse_bound e parse_time raw ≡ ok bound))
      ⊎ (IsBadBound parse_time raw × (parse_bound e parse_time raw ≡ err e))
unfolding parse_bound
parse_bound-cases e parse_time raw = elim (Bool-cases (raw == "")) [
  | inl empty ↦ rw empty (inl (none, inl (ground (arith, empty, eq_iff raw ""), refl), refl))
  | inr named ↦ elim (Option-cases (parse_time raw)) [
    | inl bad ↦ rw (named, bad) (inr ((==false→ne raw "" named, refl), refl))
    | inr (t, parsed) ↦
        rw (named, parsed) (inl (some t, inr (==false→ne raw "" named, t, refl, refl), refl))
  ]
]

-- Both bounds are good and make up the window, or one of them is bad.
abbrev Window :
    (String → Option Time)
    → (start_time end_time : String) → Checked WindowError (Option Time × Option Time)
    → Type 0
Window parse_time start_time end_time window =
    ((start : Option Time) × (stop : Option Time) × IsBound parse_time start_time start
      × IsBound parse_time end_time stop
      × (window ≡ ok (start, stop)))
    ⊎ ((IsBadBound parse_time start_time ⊎ IsBadBound parse_time end_time)
        × (e : WindowError) × (window ≡ err e))

parse_time_window-Window :
    (parse_time : String → Option Time) (start_time end_time : String)
    → Window parse_time start_time end_time (parse_time_window parse_time start_time end_time)
unfolding parse_time_window
parse_time_window-Window parse_time start_time end_time =
    elim (parse_bound-cases invalid_start_time parse_time start_time) [
      | inr (bad, e) ↦ rw e (inr (inl bad, invalid_start_time, refl))
      | inl (start, good, e) ↦ elim (parse_bound-cases invalid_end_time parse_time end_time) [
        | inr (bad, e') ↦ rw (e, e') (inr (inr bad, invalid_end_time, refl))
        | inl (stop, good', e') ↦ rw (e, e') (inl (start, stop, good, good', refl))
      ]
    ]

module _ (parse_time : String → Option Time) (s : Store) (params : Params) where
  -- what the request selects, with no limit
  abbrev pub asked_for : Option Time → Option Time → PodRecordFilter
  asked_for start stop = record {
    application_id = query params "applicationId";
    role = query params "role";
    node = query params "node";
    status = query params "status";
    start = start;
    stop = stop;
    limit = pos 0;
  }

  -- The answer to a request for pod records: the first of those that it selects, as many as its limit
  -- takes, or that a bound on time is bad.
  abbrev pub Records : Answer (List PodRecord × ℕ) → Type 0
  Records answer =
      ((start : Option Time) × (stop : Option Time) × (records : List PodRecord) × IsBound
          parse_time (query params "startTime") start
        × IsBound parse_time (query params "endTime") stop
        × IsSelection s (asked_for start stop) records
        × (answer ≡ served (taken (named params) records, length (taken (named params) records))))
      ⊎ ((IsBadBound parse_time (query params "startTime")
            ⊎ IsBadBound parse_time (query params "endTime"))
          × (answer ≡ bad_request))

  -- the answer with the window that its bounds make up
  abbrev answer_window :
      Checked WindowError (Option Time × Option Time) → Answer (List PodRecord × ℕ)
  answer_window window = answer_records (
      window >>= λ w.
      ok (get_pod_records s (record (asked_for w.0 w.1) { limit = asked_limit params })))

  answer_taken :
      (start stop : Option Time)
      → let records = taken (named params) (selected s (asked_for start stop)) in
        answer_window (ok (start, stop)) ≡ served (records, length records)
  unfolding get_pod_records selected
  answer_taken start stop =
      let xs = selected s (asked_for start stop) in
      ap (λ ys. served (counted ys))
        (page-cut (asked_limit params) xs
          ∙ cut_taken _ (named params) xs (pos_part-asked_limit params))

  answer_pod_records-Records : Records (answer_pod_records parse_time s params)
  unfolding answer_pod_records query_pod_records
  answer_pod_records-Records =
      elim (parse_time_window-Window parse_time (query params "startTime")
        (query params "endTime")) [
          | inl (start, stop, starts, stops, e) ↦ inl (
            start,
            stop,
            selected s (asked_for start stop),
            starts,
            stops,
            selected-IsSelection s (asked_for start stop),
            ap answer_window e ∙ answer_taken start stop,
          )
          | inr (bad, e, window) ↦ inr (bad, ap answer_window window)
        ]

-- A request for events whose limit is a positive number gets the first that many of the handler's
-- buffer, cut at 200; one whose limit is 0, a negative number or no number gets all of them, however
-- many they are; without a limit the number is 50. A request for pod records gets as many of the records
-- that have the application, role, node and status it asks for, where it asks for one, and that were
-- updated between its bounds, the latest first; and it is refused exactly with a bound on time, a start
-- or an end, that is not empty and does not parse.
pub answers-taken :
    (parse_time : String → Option Time) (s : Store) (h : Handler) (params : Params)
    → let events = taken (named params) h.events in
      (answer_events h params
        ≡ served (record { events = events; stats = get_stats h; total = length events }))
      × Records parse_time s params (answer_pod_records parse_time s params)
      × ((A : Type 0) (xs : List A) → (named params ≡ 0) ⊎ (length (taken (named params) xs) ≤ 200))
      × (((text : String) × (params "limit" ≡ some text) × (named params ≡ pos_part (atoi text)))
          ⊎ ((params "limit" ≡ none) × (named params ≡ 50)))
unfolding answer_events get_events taken
answers-taken parse_time s h params = (
  ap (λ xs. served (record { events = xs; stats = get_stats h; total = length xs }))
      (cut_taken _ (named params) h.events (pos_part-asked_limit params)),
  answer_pod_records-Records parse_time s params,
  λ A xs. length-taken (named params) xs,
  named-cases params,
)
