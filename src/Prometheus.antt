-- ===== src/Prometheus.antt =====
-- internal/prometheus/client.go: the retries of a query and the verdict on one request. HTTP and JSON
-- are outside: what each request meets is an argument.
pub mod Retries
pub mod Setup
pub mod Requests
use podwatcher.Prelude.{
  ℕ, zero, suc, ◌+◌, ◌*◌, String, Bool, true, false, Option, none, some, not, ◌&&◌, ◌||◌, ◌==◌, leb,
  ltb, if◌then◌else◌,
}

-- 64MB
abbrev pub max_success_body : ℕ
max_success_body = 64 * 1024 * 1024

-- The decoded envelope of a response: its status and its result.
pub record Response (M : Type 0) : Type 0 where
  pub status : String
  pub result : M

-- What one request meets: it cannot be built, it gets no response, or it gets one with a status code,
-- and the body is read in `size` bytes and decoded, as far as that succeeds.
pub data Meets (M : Type 0) : Type 0 where
  unbuilt no_response : Meets M
  answered : ℕ → (size : Option ℕ) → Option (Response M) → Meets M

-- `request`: the results, or whether the failure is retriable
pub data Verdict (M : Type 0) : Type 0 where
  results : M → Verdict M
  failed : Bool → Verdict M

module _ {M : Type 0} where
  decode_body : Option (Response M) → Verdict M
  decode_body none = failed false
  decode_body (some response) =
      if not (response.status == "success") then failed false else results response.result

  read_body : Option ℕ → Option (Response M) → Verdict M
  unfolding decode_body
  read_body none body = failed false
  read_body (some size) body = if ltb max_success_body size then failed false else decode_body body

  unfoldable pub request : Meets M → Verdict M
  unfolding read_body
  request unbuilt = failed false
  request no_response = failed true
  request (answered code size body) =
      if leb 200 code && ltb code 300
      then read_body size body
      else failed (leb 429 code && leb code 429 || leb 500 code)

-- What `do` returns: results, ctx.Err() after a wait, or the error of a request, told by the number of
-- that request.
pub data Queried (M : Type 0) : Type 0 where
  done : M → Queried M
  cancelled : Queried M
  error_of : ℕ → Queried M

-- after a request: the end of the loop, or what comes next
abbrev pub after_request : {M : Type 0} → Verdict M → ℕ → Queried M × ℕ → Queried M × ℕ
after_request (results m) attempt next = (done m, attempt + 1)
after_request (failed true) attempt next = next
after_request (failed false) attempt next = (error_of attempt, attempt + 1)

-- The requests that are left, what each meets and whether the context is done in the wait before it,
-- and the last error. With the answer comes the number of requests that were made.
unfoldable pub do_loop :
    {M : Type 0} → ℕ → (ℕ → Meets M) → (ℕ → Bool) → ℕ → Queried M → Queried M × ℕ
unfolding request
do_loop zero meets is_done attempt err = (err, attempt)
do_loop (suc left) meets is_done attempt err =
    let next = do_loop left meets is_done (attempt + 1) (error_of attempt) in
    if ltb 0 attempt && is_done attempt
    then (cancelled, attempt)
    else after_request (request (meets attempt)) attempt next

-- `do`: three requests, and no error yet
unfoldable pub query : {M : Type 0} → (ℕ → Meets M) → (ℕ → Bool) → Queried M × ℕ
unfolding do_loop
query meets is_done = do_loop 3 meets is_done 0 (error_of 0)
