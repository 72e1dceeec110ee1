-- ===== src/Elastic/Describe.antt =====
-- internal/elasticsearch/client.go: responseErrorDetail and describeESError. JSON is of the standard
-- library: a raw message is modelled by what it decodes to.
pub mod Depth
use Prim.Native.String.{◌++◌}
use podwatcher.Prelude.{
  ℕ, ◌+◌, ◌*◌, String, Option, none, some, List, [], ◌∷◌, ◌==◌, leb, ltb, if◌then◌else◌, ◌≡◌, refl,
}

mutual
  -- a text, an error object, or what decodes to neither
  pub data EsError : Type 0 where
    message : String → EsError
    detail : (type reason : String) → (root_cause : Causes) → (caused_by : Cause) → EsError
    undecodable : EsError

  pub data Causes : Type 0 where
    no_causes : Causes
    and_cause : EsError → Causes → Causes

  pub data Cause : Type 0 where
    no_cause : Cause
    cause : EsError → Cause

-- strings.Join(parts, "; ")
unfoldable pub join : List String → String
join [] = ""
join (x ∷ []) = x
join (x ∷ y ∷ xs) = x ++ "; " ++ join (y ∷ xs)

-- a part that is only written if its value is not empty
unfoldable pub part : String → String → String → List String → List String
part before value after rest = if value == "" then rest else (before ++ value ++ after) ∷ rest

unfoldable mutual
  unfolding join part

  -- `describeESError`
  pub describe : ℕ → EsError → String
  describe depth (message text) = if leb 4 depth then "nested error truncated" else text
  describe depth undecodable = if leb 4 depth then "nested error truncated" else ""
  describe depth (detail type reason root_cause caused_by) =
      if leb 4 depth
      then "nested error truncated"
      else join (
          part "type=" type "" (
            part "reason=" reason ""
              (describe_roots (depth + 1) root_cause (describe_cause (depth + 1) caused_by))))

  -- the loop over `root_cause`, and what comes after it
  pub describe_roots : ℕ → Causes → List String → List String
  describe_roots depth no_causes rest = rest
  describe_roots depth (and_cause root roots) rest =
      part "root_cause={" (describe depth root) "}" (describe_roots depth roots rest)

  pub describe_cause : ℕ → Cause → List String
  describe_cause depth no_cause = []
  describe_cause depth (cause by) = part "caused_by={" (describe depth by) "}" []

abbrev pub max_error_body : ℕ
max_error_body = 16 * 1024

-- a detail, unless there is none
unfoldable pub or_unavailable : String → String
or_unavailable text = if text == "" then "error details unavailable" else text

-- `responseErrorDetail`, of the size of what was read and the error of the envelope, if there is one
unfoldable pub response_error_detail : ℕ → Option EsError → String
unfolding describe or_unavailable
response_error_detail size none =
    if ltb max_error_body size
    then "error details unavailable (response truncated)"
    else "error details unavailable (empty or non-ES JSON response)"
response_error_detail size (some error) =
    if ltb max_error_body size
    then "error details unavailable (response truncated)"
    else or_unavailable (describe 0 error)

-- an error with a root cause and a chain of causes of the fourth depth
describe_sample :
    describe 0 (
      detail "a" "" (and_cause (detail "b" "no" no_causes no_cause) no_causes) (
        cause (
          detail "c" "" no_causes (
            cause
              (detail "d" "" no_causes (cause (detail "e" "" no_causes (cause (message "f")))))))))
    ≡ "type=a; root_cause={type=b; reason=no}; caused_by={type=c; caused_by={type=d; caused_by={type=e; caused_by={nested error truncated}}}}"
unfolding describe
describe_sample = refl
