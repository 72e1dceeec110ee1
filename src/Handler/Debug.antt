-- ===== src/Handler/Debug.antt =====
-- internal/handler/event_handler.go: the payload of a failed write, which is logged for debugging.
use podwatcher.Prelude.{ℕ, ◌≡◌, ap, subst, inl, inr, Bool, true, false, String, Option, none, some}
use podwatcher.Redact.{Text, holds, elastic_secrets}
use podwatcher.Redact.Secrets.{IsMasked, IsEncoding}
use podwatcher.Elastic.Write.{
  Writer, Publishing, published, unsanitized, publish_error, write_document, Answers,
  write_document-Answers,
}

-- `logPublishPayload`: an error has a payload if it is a PublishError
unfoldable pub log_publish_payload : Bool → Publishing → Option Text
log_publish_payload false answer = none
log_publish_payload true published = none
log_publish_payload true unsanitized = none
log_publish_payload true (publish_error result payload) = some payload

hidden_payload :
    (writer : Writer) (is_debug : Bool) (secret : Text) (answer : Publishing) (sent : ℕ)
    (payload : Text)
    → Answers writer secret answer sent
    → log_publish_payload is_debug answer ≡ some payload
    → holds secret payload ≡ false
unfolding log_publish_payload
hidden_payload writer false secret answer sent payload h logged = cc
hidden_payload writer true secret published sent payload h logged = cc
hidden_payload writer true secret unsanitized sent payload h logged = absurd h
hidden_payload writer true secret (publish_error result body) sent payload (_, _, hidden) logged =
    let same : body ≡ payload = cc in subst (λ text. holds secret text ≡ false) same hidden

unsanitized_payload :
    (answer : Publishing) (is_debug : Bool) (payload : Text)
    → answer ≡ unsanitized
    → ¬ (log_publish_payload is_debug answer ≡ some payload)
unfolding log_publish_payload
unsanitized_payload answer false payload e h = cc
unsanitized_payload answer true payload e h =
    let nothing : log_publish_payload true unsanitized ≡ some payload =
      subst (λ a. log_publish_payload true a ≡ some payload) e h in
    cc

-- What is logged of a document that could not be written does not hold the password, which is not empty,
-- has no bracket and is no part of `REDACTED`, if the encodings of a text that is not empty are not
-- empty.
pub log_publish_payload-holds :
    (writer : Writer) (is_debug : Bool) (id : String) (body username password payload : Text)
    (base64 query_escape path_escape : Text → Text)
    → writer.secrets ≡ elastic_secrets base64 query_escape path_escape username password
    → IsEncoding base64
    → IsEncoding query_escape
    → IsEncoding path_escape
    → IsMasked password
    → log_publish_payload is_debug (write_document writer id body).0 ≡ some payload
    → holds password payload ≡ false
log_publish_payload-holds writer is_debug id body username password payload base64 query_escape
      path_escape secrets encodes query path masked logged =
    elim (write_document-Answers writer id body username password base64 query_escape path_escape
      secrets encodes query path masked) [
        | inl (_, answered) ↦
            absurd (unsanitized_payload _ is_debug payload (ap (λ a. a.0) answered) logged)
        | inr (_, _, (_, _, _, _, _, _, answers)) ↦
            hidden_payload writer is_debug password (write_document writer id body).0 _ payload
              answers logged
      ]
