-- ===== src/Elastic/Retries.antt =====
-- internal/elasticsearch/client.go: the loop of `write`.
use podwatcher.Prelude.{
  ℕ, zero, suc, ◌+◌, ◌≤◌, ◌≡◌, refl, Bool, true, false, not, ◌&&◌, ◌||◌, leb, ltb, arith,
  if◌then◌else◌, ltb→lt, ltb→le, ◌<◌, ◌⊎◌, inl, inr, Bool-cases, ap, sym,
}

-- One attempt: the request fails before a response, or a response comes with its status code. A
-- failure to read the body changes the error's text only.
pub data Attempt : Type 0 where
  request_failed : Attempt
  response : ℕ → Attempt

-- What `write` returns: nil, or the error of an attempt, or ctx.Err() after a wait.
pub data Result : Type 0 where
  written cancelled : Result
  failed_with : Attempt → Result

-- 200 <= code < 300
abbrev pub is_success : ℕ → Bool
is_success code = leb 200 code && ltb code 300

-- resp.StatusCode != 429 && resp.StatusCode < 500, negated
abbrev pub is_retried : ℕ → Bool
is_retried code = leb 429 code && leb code 429 || leb 500 code

-- after an attempt: the end of the loop, or what comes next
unfoldable pub after_attempt : Attempt → ℕ → Result × ℕ → Result × ℕ
after_attempt request_failed attempt next = next
after_attempt (response code) attempt next =
    if is_success code
    then (written, attempt + 1)
    else if is_retried code
    then next
    else (failed_with (response code), attempt + 1)

-- The attempts that are left, what each meets and whether the context is done in the wait before it,
-- and the last error. With the result comes the number of requests that were sent.
unfoldable pub write_loop : ℕ → (ℕ → Attempt) → (ℕ → Bool) → ℕ → Result → Result × ℕ
unfolding after_attempt
write_loop zero meets is_done attempt err = (err, attempt)
write_loop (suc left) meets is_done attempt err =
    let next = write_loop left meets is_done (attempt + 1) (failed_with (meets attempt)) in
    if ltb 0 attempt && is_done attempt
    then (cancelled, attempt)
    else after_attempt (meets attempt) attempt next

-- three attempts
unfoldable pub write : (ℕ → Attempt) → (ℕ → Bool) → Result × ℕ
unfolding write_loop
write meets is_done = write_loop 3 meets is_done 0 written

-- an attempt after which another one follows
abbrev pub is_transient : Attempt → Bool
is_transient request_failed = true
is_transient (response code) = not (is_success code) && is_retried code

abbrev is_accepted : Attempt → Bool
is_accepted request_failed = false
is_accepted (response code) = is_success code

-- what a result says about the last of the requests that were sent
abbrev pub Explains : (ℕ → Attempt) → (ℕ → Bool) → Result → ℕ → Type 0
Explains meets is_done written sent = (n : ℕ) × (sent ≡ suc n) × (is_accepted (meets n) ≡ true)
Explains meets is_done cancelled sent = (sent < 3) × (is_done sent ≡ true)
Explains meets is_done (failed_with attempt) sent =
    (n : ℕ) × (sent ≡ suc n)
    × (attempt ≡ meets n)
    × (is_accepted (meets n) ≡ false)
    × ((sent ≡ 3) ⊎ (is_transient (meets n) ≡ false))

abbrev pub Outcome : (ℕ → Attempt) → (ℕ → Bool) → Result × ℕ → Type 0
Outcome meets is_done (result, sent) =
    (0 < sent)
    × (sent ≤ 3)
    × ((n : ℕ) → suc n < sent → is_transient (meets n) ≡ true)
    × Explains meets is_done result sent

module _ (meets : ℕ → Attempt) (is_done : ℕ → Bool) where
  transient_refused : (a : Attempt) → is_transient a ≡ true → is_accepted a ≡ false
  transient_refused request_failed h = refl
  transient_refused (response code) h = ground arith

  attempt-Outcome :
      (a : Attempt) (attempt : ℕ) (next : Result × ℕ)
      → meets attempt ≡ a
      → attempt < 3
      → ((n : ℕ) → n < attempt → is_transient (meets n) ≡ true)
      → (is_transient a ≡ true → Outcome meets is_done next)
      → Outcome meets is_done (after_attempt a attempt next)
  unfolding after_attempt
  attempt-Outcome request_failed attempt next e small before go_on = go_on refl
  attempt-Outcome (response code) attempt next e small before go_on =
      let earlier = λ (n : ℕ) (h : suc n < attempt + 1). before n (omega arith) in
      elim (Bool-cases (is_success code)) [
        | inl success ↦
            rw success (omega arith, omega arith, earlier, (attempt, omega arith, rw e success))
        | inr refusal ↦ elim (Bool-cases (is_retried code)) [
          | inl again ↦ rw (refusal, again) (go_on (ground (arith, refusal, again)))
          | inr final ↦
              rw (refusal, final)
                (
                  omega arith,
                  omega arith,
                  earlier,
                  (
                    attempt,
                    omega arith,
                    sym e,
                    rw e refusal,
                    inr (rw e (ground (arith, refusal, final))),
                  ),
                )
        ]
      ]

  up_to :
      (attempt : ℕ)
      → ((n : ℕ) → n < attempt → is_transient (meets n) ≡ true)
      → is_transient (meets attempt) ≡ true
      → (n : ℕ) → n < attempt + 1
      → is_transient (meets n) ≡ true
  up_to attempt before transient n h = elim (Bool-cases (ltb n attempt)) [
    | inl earlier ↦ before n (ltb→lt n attempt earlier)
    | inr not_earlier ↦
        let e : n ≡ attempt = omega (arith, ltb→le n attempt not_earlier) in rw e transient
  ]

  loop-Outcome :
      (left attempt : ℕ) (err : Result)
      → attempt + left ≡ 3
      → ((n : ℕ) → n < attempt → is_transient (meets n) ≡ true)
      → (left ≡ 0 → err ≡ failed_with (meets 2))
      → Outcome meets is_done (write_loop left meets is_done attempt err)
  unfolding write_loop
  loop-Outcome zero attempt err sum before last = rw (last refl) (
    omega arith,
    omega arith,
    λ n h. before n (omega arith),
    (2, omega arith, refl, transient_refused (meets 2) (before 2 (omega arith)), inl (omega arith)),
  )
  loop-Outcome (suc left) attempt err sum before last =
      elim (Bool-cases (ltb 0 attempt && is_done attempt)) [
        | inl done ↦
            rw done (
              ground arith,
              omega arith,
              λ n h. before n (omega arith),
              (omega arith, ground arith),
            )
        | inr on ↦ rw on (
            attempt-Outcome (meets attempt) attempt
              (write_loop left meets is_done (attempt + 1) (failed_with (meets attempt))) refl
              (omega arith) before
              (λ transient.
                loop-Outcome left (attempt + 1) (failed_with (meets attempt)) (omega arith)
                  (up_to attempt before transient)
                  (λ none_left. ap (λ n. failed_with (meets n)) (omega arith))))
      ]

  -- A write sends one to three requests. Every request before the last met a transient failure, and
  -- the result is what the last one met: success, an error that is not transient or that of the
  -- third attempt, or the context's end in the wait after it.
  pub write-Outcome : Outcome meets is_done (write meets is_done)
  unfolding write
  write-Outcome =
      loop-Outcome 3 0 written refl (λ n h. absurd (omega arith)) (λ h. absurd (omega arith))
