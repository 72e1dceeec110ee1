-- ===== src/Tests/Elastics.antt =====
-- The Elasticsearch client at concrete inputs.
use podwatcher.Prelude.{ℕ, zero, suc, ◌≡◌, ◌↔◌, refl, Bool, false}
use podwatcher.Elastic.Document.{
  Json, scalar, object, field, no_fields, remove_dot_only_keys, IsClean, Cleans,
  remove_dot_only_keys-IsClean,
}
use podwatcher.Elastic.Retries.{Attempt, response, written, write}

abbrev labels : Json
labels = object (
    field "labels" (object (field "..." (scalar "1") (field "a.b" (scalar "2") no_fields)))
      no_fields)

clean_labels :
    remove_dot_only_keys labels
    ≡ object (field "labels" (object (field "a.b" (scalar "2") no_fields)) no_fields)
unfolding remove_dot_only_keys
clean_labels = refl

remove_dot_only_keys-IsClean_example :
    Cleans labels (remove_dot_only_keys labels)
    × IsClean (remove_dot_only_keys labels)
    × (IsClean labels ↔ (remove_dot_only_keys labels ≡ labels))
remove_dot_only_keys-IsClean_example = remove_dot_only_keys-IsClean labels

-- busy, and accepted at the second attempt
abbrev meets : ℕ → Attempt
meets zero = response 503
meets (suc n) = response 201

abbrev is_done : ℕ → Bool
is_done n = false

second_attempt : write meets is_done ≡ (written, 2)
unfolding write
second_attempt = refl
