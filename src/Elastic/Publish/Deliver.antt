-- ===== src/Elastic/Publish/Deliver.antt =====
-- internal/elasticsearch/client.go: Publish and PublishApplication as far as the write, for what the
-- event handler publishes. The hash and the encoders of JSON are arguments.
use podwatcher.Prelude.{String, ◌≡◌, ◌↔◌, Option, none, some, List, [], ◌∷◌, All}
use podwatcher.Kube.{Time}
use podwatcher.Spark.{pod_key}
use podwatcher.Store.{ApplicationView}
use podwatcher.Redact.{Text}
use podwatcher.Handler.{Publication, pod_event, completion}
use podwatcher.Elastic.Publish.{
  Part, text, Event, Completion, event_id, publish_event, completion_at, publish_application,
}
use podwatcher.Elastic.Write.{
  Writer, Publishing, Request, IsCleanRequest, write_document, write_document-IsCleanRequest,
}

-- the hexadecimal hash of a list, and json.Marshal of the two documents
pub record Codec : Type 0 where
  pub hash : List Part → String
  pub encode_event : Event → Text
  pub encode_completion : Completion → Text

unfoldable pub send_completion :
    Writer → Codec → Option (List Part × Completion) → Option (Publishing × List Request)
unfolding write_document
send_completion writer codec none = none
send_completion writer codec (some (id, doc)) =
    some (write_document writer (codec.hash id) (codec.encode_completion doc))

-- one call of the publisher; none is the error of an application that has not finished
unfoldable pub index_publication :
    Writer → Codec → (cluster : String) → Time → Publication → Option (Publishing × List Request)
unfolding publish_event publish_application send_completion
index_publication writer codec cluster now (pod_event kind pod initial) =
    let (id, event) = publish_event cluster kind pod initial now in
    some (write_document writer (codec.hash id) (codec.encode_event event))
index_publication writer codec cluster now (completion app) =
    send_completion writer codec (publish_application cluster app now)

-- the list that the id of a publication's document is the hash of
unfoldable pub identity : String → Publication → List Part
unfolding event_id
identity cluster (pod_event kind pod initial) = event_id cluster kind pod initial
identity cluster (completion app) =
    text cluster ∷ text app.namespace ∷ text app.application_id ∷ text "APPLICATION_COMPLETED" ∷ []

-- publications of one document: the same version of a pod in the same kind of event, or completions of
-- one application
abbrev pub IsSameDocument : Publication → Publication → Type 0
IsSameDocument (pod_event kind pod initial) (pod_event kind' pod' initial') =
    (pod_key pod ≡ pod_key pod')
    × (pod.resource_version ≡ pod'.resource_version)
    × (kind ≡ kind')
    × (initial ≡ initial')
IsSameDocument (completion app) (completion app') =
    (app.namespace ≡ app'.namespace) × (app.application_id ≡ app'.application_id)
IsSameDocument _ _ = ⊥

identity-IsSameDocument :
    (cluster : String) (p q : Publication)
    → (identity cluster p ≡ identity cluster q) ↔ IsSameDocument p q
unfolding identity event_id
identity-IsSameDocument cluster (pod_event kind pod initial) (pod_event kind' pod' initial') =
    (λ e. (cc, cc, cc, cc), λ same. let (key, rv, kinds, initials) = same in cc)
identity-IsSameDocument cluster (pod_event kind pod initial) (completion app) =
    (λ e. cc, λ none. absurd none)
identity-IsSameDocument cluster (completion app) (pod_event kind pod initial) =
    (λ e. cc, λ none. absurd none)
identity-IsSameDocument cluster (completion app) (completion app') =
    (λ e. (cc, cc), λ same. let (namespace, id) = same in cc)

abbrev pub requests : Option (Publishing × List Request) → List Request
requests none = []
requests (some (answer, sent)) = sent

completion_clean :
    (writer : Writer) (codec : Codec) (cluster : String) (now : Time) (app : ApplicationView)
    (finished : Option Time)
    → All
        (IsCleanRequest writer (codec.hash (identity cluster (completion app))))
        (requests (send_completion writer codec (completion_at cluster app now finished)))
unfolding identity send_completion completion_at
completion_clean writer codec cluster now app none = tt
completion_clean writer codec cluster now app (some t) =
    write_document-IsCleanRequest writer (codec.hash (identity cluster (completion app))) _

-- what is delivered has the id of its identity
index_publication-IsCleanRequest :
    (writer : Writer) (codec : Codec) (cluster : String) (now : Time) (p : Publication)
    → All
        (IsCleanRequest writer (codec.hash (identity cluster p)))
        (requests (index_publication writer codec cluster now p))
unfolding index_publication identity publish_event publish_application
index_publication-IsCleanRequest writer codec cluster now (pod_event kind pod initial) =
    let (id, event) = publish_event cluster kind pod initial now in
    write_document-IsCleanRequest writer (codec.hash id) (codec.encode_event event)
index_publication-IsCleanRequest writer codec cluster now (completion app) =
    completion_clean writer codec cluster now app app.finished_at

-- Every request that a publication is delivered with has the hash of the publication's list as its id,
-- and a body that encodes a document without dot-only field names. Two publications have the same
-- list, so that one overwrites the other, exactly if they are of the same version of a pod, in the same
-- kind of event, both or neither of a first list, or are completions of one application: a retry or a
-- replay overwrites, the pods of a first list replace no later addition, and no completion an event.
pub index_publication-IsSameDocument :
    (writer : Writer) (codec : Codec) (cluster : String) (now : Time) (p q : Publication)
    → All
        (IsCleanRequest writer (codec.hash (identity cluster p)))
        (requests (index_publication writer codec cluster now p))
      × ((identity cluster p ≡ identity cluster q) ↔ IsSameDocument p q)
index_publication-IsSameDocument writer codec cluster now p q = (
  index_publication-IsCleanRequest writer codec cluster now p,
  identity-IsSameDocument cluster p q,
)
