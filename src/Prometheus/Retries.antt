-- ===== src/Prometheus/Retries.antt =====
-- The loop of `do` against the loop of the Elasticsearch client.
use podwatcher.Prelude.{
  ℕ, zero, suc, ◌+◌, ◌≡◌, refl, ap, ◌∙◌, Bool, true, false, ◌&&◌, ltb, Bool-cases, inl, inr, arith,
}
use podwatcher.Elastic.Retries.{
  Attempt, Result, request_failed, response, written, failed_with, after_attempt, write_loop, write,
}
use podwatcher.Prometheus.{
  Meets, Verdict, results, failed, request, Queried, done, cancelled, error_of, after_request,
  do_loop, query,
}

-- what the Elasticsearch client would meet: a response that is taken, one that is not and is final, or
-- a failure that is tried again
abbrev pub as_attempt : {M : Type 0} → Verdict M → Attempt
as_attempt (results m) = response 200
as_attempt (failed true) = request_failed
as_attempt (failed false) = response 400

module _ {M : Type 0} (meets : ℕ → Meets M) (is_done : ℕ → Bool) where
  abbrev pub attempts : ℕ → Attempt
  attempts n = as_attempt (request (meets n))

  abbrev pub as_result : Queried M → Result
  as_result (done m) = written
  as_result cancelled = Result.cancelled
  as_result (error_of n) = failed_with (attempts n)

  abbrev pub as_written : Queried M × ℕ → Result × ℕ
  as_written (answer, sent) = (as_result answer, sent)

  after_request-after_attempt :
      (n : ℕ) (v : Verdict M) (next : Queried M × ℕ)
      → request (meets n) ≡ v
      → as_written (after_request v n next) ≡ after_attempt (as_attempt v) n (as_written next)
  unfolding after_attempt
  after_request-after_attempt n (results m) next e = refl
  after_request-after_attempt n (failed true) next e = refl
  after_request-after_attempt n (failed false) next e =
      ap (λ v. (failed_with (as_attempt v), n + 1)) e

  do_loop-write_loop :
      (left attempt : ℕ) (err : Queried M)
      → as_written (do_loop left meets is_done attempt err)
        ≡ write_loop left attempts is_done attempt (as_result err)
  unfolding do_loop write_loop
  do_loop-write_loop zero attempt err = refl
  do_loop-write_loop (suc left) attempt err =
      let next = do_loop left meets is_done (attempt + 1) (error_of attempt) in
      let tail = do_loop-write_loop left (attempt + 1) (error_of attempt) in
      elim (Bool-cases (ltb 0 attempt && is_done attempt)) [
        | inl stopped ↦ rw stopped refl
        | inr on ↦ rw on (
            after_request-after_attempt attempt (request (meets attempt)) next refl
            ∙ ap (after_attempt (attempts attempt) attempt) tail)
      ]

  -- what the rest of the loop says about results
  abbrev pub IsLast : ℕ × M → Type 0
  IsLast (sent, m) = (n : ℕ) × (sent ≡ suc n) × (request (meets n) ≡ results m)

  -- results come from the last request
  after_request-done :
      (n : ℕ) (v : Verdict M) (next : Queried M × ℕ) (m : M)
      → request (meets n) ≡ v
      → (next.0 ≡ done m → IsLast (next.1, m))
      → (after_request v n next).0 ≡ done m
      → IsLast ((after_request v n next).1, m)
  after_request-done n (results m') next m e tail h =
      let same : m' ≡ m = cc in (n, omega arith, e ∙ ap (λ r. results r) same)
  after_request-done n (failed true) next m e tail h = tail h
  after_request-done n (failed false) next m e tail h = cc

  do_loop-done :
      (left attempt : ℕ) (err : Queried M) (m : M)
      → ((m' : M) → err ≡ done m' → ⊥)
      → (do_loop left meets is_done attempt err).0 ≡ done m
      → IsLast ((do_loop left meets is_done attempt err).1, m)
  unfolding do_loop
  do_loop-done zero attempt err m no_result h = absurd (no_result m h)
  do_loop-done (suc left) attempt err m no_result h =
      let next = do_loop left meets is_done (attempt + 1) (error_of attempt) in
      let tail = do_loop-done left (attempt + 1) (error_of attempt) m (λ m' e. cc) in
      elim (Bool-cases (ltb 0 attempt && is_done attempt)) [
        | inl stopped ↦ let h' : cancelled ≡ done m = (rw stopped at h) in cc
        | inr on ↦
            rw on
              (after_request-done attempt (request (meets attempt)) next m refl tail (rw on at h))
      ]

  -- results are those of the last request
  abbrev pub FromLast : Queried M × ℕ → Type 0
  FromLast (done m, sent) = IsLast (sent, m)
  FromLast (cancelled, sent) = Unit
  FromLast (error_of n, sent) = Unit

  done-FromLast :
      (answer : Queried M × ℕ)
      → ((m : M) → answer.0 ≡ done m → IsLast (answer.1, m))
      → FromLast answer
  done-FromLast (done m, sent) last = last m refl
  done-FromLast (cancelled, sent) last = tt
  done-FromLast (error_of n, sent) last = tt

  -- The two clients retry alike: a query makes as many requests as an Elasticsearch write that meets
  -- acceptance where the query meets results, a failure of the transport where it meets a retriable
  -- failure, and a refusal where it meets a final one, and ends the same way; and results, if there are
  -- any, are those of the last request.
  pub query-write :
      (as_written (query meets is_done) ≡ write attempts is_done) × FromLast (query meets is_done)
  unfolding query write write_loop
  query-write = (
    do_loop-write_loop 3 0 (error_of 0),
    done-FromLast (query meets is_done) (λ m h. do_loop-done 3 0 (error_of 0) m (λ m' e. cc) h),
  )
