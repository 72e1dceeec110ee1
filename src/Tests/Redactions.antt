-- ===== src/Tests/Redactions.antt =====
-- What the clients log and send, at concrete inputs.
use podwatcher.Prelude.{
  ℕ, zero, suc, ◌<◌, ◌≤◌, ◌≡◌, ◌⊎◌, ◌↔◌, refl, true, false, none, some, List, [], ◌∷◌, arith,
  length, All,
}
use podwatcher.Redact.{
  Text, codes, holds, redact, prometheus_secrets, elastic_secrets, quote, safe_detail,
}
use podwatcher.Redact.Secrets.{IsMasked, redact-holds}
use podwatcher.Redact.Line.{IsPrintable, safe_detail-IsPrintable}
use podwatcher.Elastic.Document.{Json, scalar, object, field, no_fields}
use podwatcher.Elastic.Describe.{EsError, detail, no_causes, no_cause, cause, response_error_detail}
use podwatcher.Elastic.Describe.Depth.{Describes, response_error_detail-full}
use podwatcher.Handler.{Publication}
use podwatcher.Elastic.Publish.Deliver.{
  Codec, identity, IsSameDocument, requests, index_publication, index_publication-IsSameDocument,
}
use podwatcher.Tests.Samples.{driver}
use podwatcher.Elastic.Retries.{Attempt, failed_with, response}
use podwatcher.Elastic.Write.{
  Writer, Publishing, Request, write_document, IsCleanRequest, IsSent, write_document-Answers,
}

abbrev itself : Text → Text
itself s = s

abbrev secret : Text
secret = codes "s3cret"

secret-IsMasked : IsMasked secret
unfolding holds
secret-IsMasked = record {
  filled = omega arith;
  no_open = ground arith;
  no_close = ground arith;
  no_part = refl;
}

redacted :
    redact (prometheus_secrets itself itself secret) (codes "Bearer s3cret.") ≡ codes "[REDACTED]."
unfolding redact prometheus_secrets
redacted = refl

-- A secret that ends like the mask begins can come back: the mask follows its first character.
remade : redact (codes "a[" ∷ []) (codes "aa[") ≡ codes "a[REDACTED]"
unfolding redact
remade = refl

redact-holds_example :
    (holds secret (redact (prometheus_secrets itself itself secret) (codes "Bearer s3cret."))
      ≡ false)
    × (holds secret (
          redact (elastic_secrets itself itself itself (codes "u") secret) (codes "Bearer s3cret."))
        ≡ false)
redact-holds_example =
    redact-holds itself itself itself (codes "u") secret (codes "Bearer s3cret.") (λ s h. h)
      (λ s h. h) (λ s h. h) secret-IsMasked

safe_detail-IsPrintable_example :
    IsPrintable (safe_detail itself itself (secret ∷ []) (codes "a\nb"))
    × (length (safe_detail itself itself (secret ∷ []) (codes "a\nb")) ≤ 2063)
    × ((safe_detail itself itself (secret ∷ []) (codes "a\nb")
          ≡ quote (redact (secret ∷ []) (codes "a\nb")))
        ⊎ (2048 < length (quote (redact (secret ∷ []) (codes "a\nb")))))
safe_detail-IsPrintable_example = safe_detail-IsPrintable itself itself (secret ∷ []) (codes "a\nb")

-- a document with a dot-only name and the password, that is busy once
abbrev document : Json
document = object (field "..." (scalar "1") (field "a" (scalar "s3cret") no_fields))

abbrev encode : Json → Text
encode (object (field key (scalar token) _)) = codes token
encode json = []

abbrev busy : ℕ → Attempt
busy zero = response 503
busy (suc n) = response 400

abbrev writer : Writer
writer = record {
  decode = λ s. some document;
  encode = encode;
  secrets = elastic_secrets itself itself itself (codes "u") secret;
  index = "spark";
  meets = busy;
  is_done = λ n. false;
}

abbrev answered : Publishing × List Request
answered = write_document writer "id" (codes "{}")

write_document-Answers_example :
    ((writer.decode (codes "{}") ≡ none) × (answered ≡ (Publishing.unsanitized, [])))
    ⊎ ((sent : Json) × (writer.decode (codes "{}") ≡ some sent)
        × IsSent writer "id" sent secret answered)
write_document-Answers_example =
    write_document-Answers writer "id" (codes "{}") (codes "u") secret itself itself itself refl
      (λ s h. h) (λ s h. h) (λ s h. h) secret-IsMasked

abbrev codec : Codec
codec = record {
  hash = λ parts. "id";
  encode_event = λ e. codes "{}";
  encode_completion = λ c. codes "{}";
}

-- a pod of the first list, and the same pod when it is added
index_publication-IsSameDocument_example :
    All
      (IsCleanRequest writer
        (codec.hash (identity "east" (Publication.pod_event "ADDED" driver true))))
      (requests
        (index_publication writer codec "east" 5 (Publication.pod_event "ADDED" driver true)))
    × ((identity "east" (Publication.pod_event "ADDED" driver true)
          ≡ identity "east" (Publication.pod_event "ADDED" driver false))
        ↔ IsSameDocument
            (Publication.pod_event "ADDED" driver true)
            (Publication.pod_event "ADDED" driver false))
index_publication-IsSameDocument_example =
    index_publication-IsSameDocument writer codec "east" 5
      (Publication.pod_event "ADDED" driver true) (Publication.pod_event "ADDED" driver false)

payload :
    answered
    ≡ (Publishing.publish_error (failed_with (response 400)) (codes "[REDACTED]"), answered.1)
unfolding write_document elastic_secrets
payload = refl

abbrev deep : EsError
deep = detail "a" "" no_causes (cause (detail "b" "no" no_causes no_cause))

response_error_detail-full_example :
    Describes 100 (some deep) (response_error_detail 100 (some deep))
response_error_detail-full_example = response_error_detail-full 100 (some deep)
