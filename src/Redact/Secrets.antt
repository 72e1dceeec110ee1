-- ===== src/Redact/Secrets.antt =====
-- What redaction leaves of a secret.
use podwatcher.Prelude.{
  ℕ, zero, suc, ◌-◌, ◌<◌, ◌≡◌, ◌≢◌, refl, true, false, List, [], ◌∷◌, ◌++◌, length, All, Any, inl,
  inr, arith, Bool-cases,
}
use podwatcher.Redact.{
  Text, codes, same, starts, holds, mask, match_length, replace, redact, prometheus_secrets,
  elastic_secrets,
}

-- A secret that the mask cannot make up: it has a character, no bracket, and is no part of `REDACTED`.
pub record IsMasked (t : Text) : Type 0 where
  pub filled : 0 < length t
  pub no_open : All (λ c. c ≢ b'[') t
  pub no_close : All (λ c. c ≢ b']') t
  pub no_part : holds t (codes "REDACTED") ≡ false

starts_nil : (t : Text) → 0 < length t → starts t [] ≡ false
unfolding starts
starts_nil [] h = absurd (omega arith)
starts_nil (d ∷ t) h = refl

same_eq : (a b : ℕ) → same a b ≡ true → a ≡ b
same_eq a b h = ground arith

-- what begins a text that goes on with a bracket begins the text
starts-close :
    (t u rest : Text)
    → All (λ c. c ≢ b']') t
    → starts t (u ++ b']' ∷ rest) ≡ true
    → starts t u ≡ true
unfolding starts
starts-close [] u rest no_close h = refl
starts-close (d ∷ t) [] rest no_close h = absurd (ground (arith, no_close.0))
starts-close (d ∷ t) (c ∷ u) rest no_close h = ground (arith, starts-close t u rest no_close.1)

-- a text is found left or right of the bracket
holds-close :
    (t u rest : Text)
    → 0 < length t
    → All (λ c. c ≢ b']') t
    → holds t u ≡ false
    → holds t rest ≡ false
    → holds t (u ++ b']' ∷ rest) ≡ false
unfolding holds
holds-close t [] rest filled no_close left right =
    ground (arith, starts-close t [] rest no_close, starts_nil t filled)
holds-close t (c ∷ u) rest filled no_close left right =
    ground (arith, starts-close t (c ∷ u) rest no_close, holds-close t u rest filled no_close)

-- the mask before a text
holds-mask : (t rest : Text) → IsMasked t → holds t rest ≡ false → holds t (mask ++ rest) ≡ false
unfolding holds starts
holds-mask [] rest masked h = absurd (omega (arith, masked.filled))
holds-mask (d ∷ t) rest masked h = ground (
  arith,
  masked.no_open.0,
  holds-close (d ∷ t) (codes "REDACTED") rest masked.filled masked.no_close masked.no_part h,
)

match_length_pos :
    (secrets : List Text) (t s : Text)
    → All (λ x. 0 < length x) secrets
    → Any (λ x. x ≡ t) secrets
    → starts t s ≡ true
    → 0 < match_length secrets s
unfolding match_length
match_length_pos [] t s filled secret h = absurd secret
match_length_pos (x ∷ xs) t s filled (inl here) h = ground (arith, filled.0, here)
match_length_pos (x ∷ xs) t s filled (inr there) h =
    ground (arith, filled.0, match_length_pos xs t s filled.1 there h)

module _ (secrets : List Text) (filled : All (λ x. 0 < length x) secrets) where
  replace_none :
      (c : ℕ) (s : Text)
      → match_length secrets (c ∷ s) ≡ 0
      → replace secrets 0 (c ∷ s) ≡ c ∷ replace secrets 0 s
  unfolding replace
  replace_none c s none_here = rw none_here refl

  -- A text without a bracket begins what is made of a text only if it begins that text.
  starts-replace :
      (t s : Text)
      → All (λ c. c ≢ b'[') t
      → starts t (replace secrets 0 s) ≡ true
      → starts t s ≡ true
  unfolding starts replace
  starts-replace [] s no_open h = refl
  starts-replace (d ∷ t) [] no_open h = h
  starts-replace (d ∷ t) (c ∷ s) no_open h =
      elim (Bool-cases (same (match_length secrets (c ∷ s)) 0)) [
        | inl none_here ↦
            let nothing : match_length secrets (c ∷ s) ≡ 0 = ground arith in
            let kept : starts (d ∷ t) (c ∷ replace secrets 0 s) ≡ true =
              (rw (replace_none c s nothing) at h) in
            ground (arith, kept, starts-replace t s no_open.1)
        | inr found ↦
            let hidden : starts (d ∷ t)
                  (mask ++ replace secrets (match_length secrets (c ∷ s) - 1) s)
                ≡ true =
              (rw found at h) in
            absurd (ground (arith, hidden, no_open.0))
      ]

  module _ (t : Text) (masked : IsMasked t) (secret : Any (λ x. x ≡ t) secrets) where
    replace-holds : (skip : ℕ) (s : Text) → holds t (replace secrets skip s) ≡ false
    unfolding replace holds
    replace-holds skip [] = starts_nil t masked.filled
    replace-holds (suc skip) (c ∷ s) = replace-holds skip s
    replace-holds zero (c ∷ s) =
        let found = match_length secrets (c ∷ s) in
        let after = replace-holds (found - 1) s in
        elim (Bool-cases (same found 0)) [
          | inl nothing ↦
              let none_here : found ≡ 0 = ground arith in
              let kept = replace_none c s none_here in
              let rest : holds t (replace secrets 0 s) ≡ false = (rw none_here at after) in
              let begins = starts-replace t (c ∷ s) masked.no_open in
              let other = match_length_pos secrets t (c ∷ s) filled secret in
              simp kept (elim (Bool-cases (starts t (c ∷ replace secrets 0 s))) [
                | inl here ↦ absurd (omega (arith, none_here, other (begins (simp kept here))))
                | inr not_here ↦ simp (not_here, rest) refl
              ])
          | inr here ↦ rw here (holds-mask t (replace secrets (found - 1) s) masked after)
        ]

-- What the clients hide has the secret in it.
prometheus_secrets-token :
    (query_escape path_escape : Text → Text) (token : Text)
    → 0 < length token
    → Any (λ x. x ≡ token) (prometheus_secrets query_escape path_escape token)
unfolding prometheus_secrets
prometheus_secrets-token query_escape path_escape [] filled = absurd (omega arith)
prometheus_secrets-token query_escape path_escape (c ∷ s) filled = inl refl

elastic_secrets-password :
    (base64 query_escape path_escape : Text → Text) (username password : Text)
    → 0 < length password
    → Any (λ x. x ≡ password) (elastic_secrets base64 query_escape path_escape username password)
unfolding elastic_secrets
elastic_secrets-password base64 query_escape path_escape username [] filled = absurd (omega arith)
elastic_secrets-password base64 query_escape path_escape username (c ∷ s) filled = inr (inl refl)

-- an encoding of a text that is not empty is not empty
abbrev pub IsEncoding : (Text → Text) → Type 0
IsEncoding encode = (s : Text) → 0 < length s → 0 < length (encode s)

append_filled : (s t : Text) → 0 < length t → 0 < length (s ++ t)
append_filled [] t h = h
append_filled (c ∷ s) t h = omega arith

prometheus_secrets_filled :
    (query_escape path_escape : Text → Text) (token : Text)
    → IsEncoding query_escape
    → IsEncoding path_escape
    → All (λ x. 0 < length x) (prometheus_secrets query_escape path_escape token)
unfolding prometheus_secrets
prometheus_secrets_filled query_escape path_escape [] query path = tt
prometheus_secrets_filled query_escape path_escape (c ∷ s) query path =
    (omega arith, (omega arith, (query (c ∷ s) (omega arith), (path (c ∷ s) (omega arith), tt))))

elastic_secrets_filled :
    (base64 query_escape path_escape : Text → Text) (username password : Text)
    → IsEncoding base64
    → IsEncoding query_escape
    → IsEncoding path_escape
    → All (λ x. 0 < length x) (elastic_secrets base64 query_escape path_escape username password)
unfolding elastic_secrets
elastic_secrets_filled base64 query_escape path_escape username [] encodes query path = tt
elastic_secrets_filled base64 query_escape path_escape username (c ∷ s) encodes query path =
    let pair = append_filled username (codes ":" ++ c ∷ s) (omega arith) in
    (
      encodes (username ++ (codes ":" ++ c ∷ s)) pair,
      (omega arith, (query (c ∷ s) (omega arith), (path (c ∷ s) (omega arith), tt))),
    )

-- Whatever text a client redacts, and wherever a secret stands in it, the result does not hold the
-- secret: not the token, for the Prometheus client, and not the password, for the Elasticsearch client.
-- The secret is not empty, has no bracket and is no part of `REDACTED`, and the encodings of a text that
-- is not empty are not empty.
pub redact-holds :
    (base64 query_escape path_escape : Text → Text) (username secret s : Text)
    → IsEncoding base64
    → IsEncoding query_escape
    → IsEncoding path_escape
    → IsMasked secret
    → (holds secret (redact (prometheus_secrets query_escape path_escape secret) s) ≡ false)
      × (holds secret (redact (elastic_secrets base64 query_escape path_escape username secret) s)
          ≡ false)
unfolding redact
redact-holds base64 query_escape path_escape username secret s encodes query path masked = (
  replace-holds _ (prometheus_secrets_filled query_escape path_escape secret query path) secret
      masked (prometheus_secrets-token query_escape path_escape secret masked.filled) 0 s,
  replace-holds _
      (elastic_secrets_filled base64 query_escape path_escape username secret encodes query path)
      secret masked
      (elastic_secrets-password base64 query_escape path_escape username secret masked.filled) 0 s,
)
