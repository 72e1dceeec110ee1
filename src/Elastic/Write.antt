-- ===== src/Elastic/Write.antt =====
-- internal/elasticsearch/client.go: write, sanitizeDocument and PublishError, put together. The decoder
-- and the encoder of JSON are arguments; a body and a payload are texts.
use podwatcher.Prelude.{
  ℕ, zero, suc, ◌≤◌, ◌≡◌, ◌≢◌, ◌⊎◌, ◌<◌, refl, ap, inl, inr, Option-cases, Bool, false, String,
  Option, none, some, List, [], ◌∷◌, length, All,
}
use podwatcher.Redact.{Text, holds, redact, elastic_secrets}
use podwatcher.Redact.Secrets.{IsMasked, IsEncoding, redact-holds}
use podwatcher.Elastic.Document.{
  Json, remove_dot_only_keys, IsClean, Cleans, remove_dot_only_keys-IsClean,
}
use podwatcher.Elastic.Retries.{
  Attempt, Result, written, cancelled, failed_with, write, Explains, write-Outcome,
}

-- one request of the SDK's Index
pub record Request : Type 0 where
  pub index : String
  pub id : String
  pub body : Text

-- What `write` returns: nil, the error of sanitizeDocument, or a PublishError with its payload.
pub data Publishing : Type 0 where
  published unsanitized : Publishing
  publish_error : Result → Text → Publishing

-- The parts of the client, and what is outside of it.
pub record Writer : Type 0 where
  pub decode : Text → Option Json
  pub encode : Json → Text
  pub secrets : List Text
  pub index : String
  pub meets : ℕ → Attempt
  pub is_done : ℕ → Bool

-- removeDotOnlyKeys and json.Marshal, of what decoded
unfoldable pub sanitized : (Json → Text) → Option Json → Option Text
unfolding remove_dot_only_keys
sanitized encode none = none
sanitized encode (some document) = some (encode (remove_dot_only_keys document))

-- `sanitizeDocument`
unfoldable pub sanitize_document : (Text → Option Json) → (Json → Text) → Text → Option Text
unfolding sanitized
sanitize_document decode encode body = sanitized encode (decode body)

-- the deferred function
unfoldable pub as_publish_error : List Text → Text → Result → Publishing
unfolding redact
as_publish_error secrets body written = published
as_publish_error secrets body cancelled = publish_error cancelled (redact secrets body)
as_publish_error secrets body (failed_with attempt) =
    publish_error (failed_with attempt) (redact secrets body)

-- every attempt sends the same request
abbrev pub copies : ℕ → Request → List Request
copies zero request = []
copies (suc n) request = request ∷ copies n request

unfoldable pub send : Writer → String → Text → Publishing × List Request
unfolding write as_publish_error
send writer id body =
    let (result, sent) = write writer.meets writer.is_done in
    (
      as_publish_error writer.secrets body result,
      copies sent (record { index = writer.index; id = id; body = body }),
    )

-- `write`, with the requests that were sent
unfoldable pub send_sanitized : Writer → String → Option Text → Publishing × List Request
unfolding send
send_sanitized writer id none = (unsanitized, [])
send_sanitized writer id (some body) = send writer id body

unfoldable pub write_document : Writer → String → Text → Publishing × List Request
unfolding send_sanitized sanitize_document
write_document writer id body =
    send_sanitized writer id (sanitize_document writer.decode writer.encode body)

-- a request with the id that encodes a document without dot-only names
abbrev pub IsCleanRequest : Writer → String → Request → Type 0
IsCleanRequest writer id request =
    (request.index ≡ writer.index)
    × (request.id ≡ id)
    × (document : Json) × IsClean document
    × (request.body ≡ writer.encode document)

-- What was answered says how the requests ended; an error's payload does not hold the secret.
abbrev pub Answers : Writer → Text → Publishing → ℕ → Type 0
Answers writer secret published sent = Explains writer.meets writer.is_done written sent
Answers writer secret unsanitized sent = ⊥
Answers writer secret (publish_error result payload) sent =
    (result ≢ written)
    × Explains writer.meets writer.is_done result sent
    × (holds secret payload ≡ false)

copies-All :
    (P : Request → Type 0) (n : ℕ) (request : Request) → P request → All P (copies n request)
copies-All P zero request h = tt
copies-All P (suc n) request h = (h, copies-All P n request h)

length-copies : (n : ℕ) (request : Request) → length (copies n request) ≡ n
length-copies zero request = refl
length-copies (suc n) request = ap suc (length-copies n request)

as_publish_error-Answers :
    (writer : Writer) (secret body : Text) (result : Result) (sent : ℕ)
    → holds secret (redact writer.secrets body) ≡ false
    → Explains writer.meets writer.is_done result sent
    → Answers writer secret (as_publish_error writer.secrets body result) sent
unfolding as_publish_error
as_publish_error-Answers writer secret body written sent hidden h = h
as_publish_error-Answers writer secret body cancelled sent hidden h = ((λ e. cc), h, hidden)
as_publish_error-Answers writer secret body (failed_with attempt) sent hidden h =
    ((λ e. cc), h, hidden)

-- The document was sent, one to three times, as the encoding of what is left of it without its dot-only
-- fields, and what was answered says how the requests ended.
abbrev pub IsSent : Writer → String → Json → Text → Publishing × List Request → Type 0
IsSent writer id document secret (answer, requests) =
    (sent : Json) × Cleans document sent
    × IsClean sent
    × All
        (λ request.
          (request.index ≡ writer.index) × (request.id ≡ id) × (request.body ≡ writer.encode sent))
        requests
    × (0 < length requests)
    × (length requests ≤ 3)
    × Answers writer secret answer (length requests)

send-IsSent :
    (writer : Writer) (id : String) (document : Json) (secret : Text)
    → let kept = remove_dot_only_keys document in
      holds secret (redact writer.secrets (writer.encode kept)) ≡ false
      → IsSent writer id document secret (send writer id (writer.encode kept))
unfolding send
send-IsSent writer id document secret hidden =
    let kept = remove_dot_only_keys document in
    let (result, sent) = write writer.meets writer.is_done in
    let (some_sent, few, transient, explained) = write-Outcome writer.meets writer.is_done in
    let (cleans, clean, _) = remove_dot_only_keys-IsClean document in
    let body = writer.encode kept in
    let request : Request = record { index = writer.index; id = id; body = body } in
    rw (length-copies sent request) (
      kept,
      cleans,
      clean,
      copies-All (λ r. (r.index ≡ writer.index) × (r.id ≡ id) × (r.body ≡ body)) sent request
          (refl, refl, refl),
      some_sent,
      few,
      as_publish_error-Answers writer secret body result sent hidden explained,
    )

-- Every request of a write, whatever it hides.
pub write_document-IsCleanRequest :
    (writer : Writer) (id : String) (body : Text)
    → All (IsCleanRequest writer id) (write_document writer id body).1
unfolding write_document send_sanitized sanitized send
write_document-IsCleanRequest writer id body = elim (Option-cases (writer.decode body)) [
  | inl broken ↦ rw broken (tt)
  | inr (document, decoded) ↦
      let kept = remove_dot_only_keys document in
      let request : Request = record { index = writer.index; id = id; body = writer.encode kept } in
      rw decoded (
        copies-All (IsCleanRequest writer id) (write writer.meets writer.is_done).1 request
          (refl, refl, kept, (remove_dot_only_keys-IsClean document).1, refl))
]

-- A write of the Elasticsearch client that hides a password answers the error of the decoder and sends
-- nothing if the body does not decode. Otherwise it sends one to three requests, all alike: the client's
-- index, the document's id, and the encoding of the decoded document without its dot-only fields and
-- with every other. It succeeds if the last request was accepted, and else has the error of the last
-- request or of the context with a payload that does not hold the password. The password is not empty,
-- has no bracket and is no part of `REDACTED`, and the encodings of a text that is not empty are not
-- empty.
pub write_document-Answers :
    (writer : Writer) (id : String) (body username password : Text)
    (base64 query_escape path_escape : Text → Text)
    → writer.secrets ≡ elastic_secrets base64 query_escape path_escape username password
    → IsEncoding base64
    → IsEncoding query_escape
    → IsEncoding path_escape
    → IsMasked password
    → let answered = write_document writer id body in
      ((writer.decode body ≡ none) × (answered ≡ (unsanitized, [])))
      ⊎ ((document : Json) × (writer.decode body ≡ some document)
          × IsSent writer id document password answered)
unfolding write_document send_sanitized sanitized
write_document-Answers writer id body username password base64 query_escape path_escape secrets
      encodes query path masked =
    elim (Option-cases (writer.decode body)) [
      | inl broken ↦ rw broken (inl (refl, refl))
      | inr (document, decoded) ↦
          let (_, hidden) =
            redact-holds base64 query_escape path_escape username password
              (writer.encode (remove_dot_only_keys document)) encodes query path masked in
          rw decoded
            (inr (document, refl, send-IsSent writer id document password (rw secrets hidden)))
    ]
