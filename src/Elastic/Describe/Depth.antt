-- ===== src/Elastic/Describe/Depth.antt =====
-- The bound on the depth of an error's description.
use Prim.Native.Nat.{max}
use podwatcher.Prelude.{
  ℕ, zero, suc, ◌+◌, ◌≤◌, ◌<◌, ◌≡◌, ◌≢◌, ◌⊎◌, inl, inr, refl, String, Option, none, some, List, [],
  ◌==◌, leb, ltb, arith, Bool-cases, ==false→ne, eq_iff, false, ltb→lt, ltb→le, leb→le,
}
use podwatcher.Elastic.Describe.{
  EsError, message, detail, undecodable, Causes, no_causes, and_cause, Cause, no_cause, cause, join,
  part, describe, describe_roots, describe_cause, max_error_body, or_unavailable,
  response_error_detail,
}

unfoldable mutual
  unfolding join part

  -- the description of a whole error, however deep
  pub full : EsError → String
  full (message text) = text
  full undecodable = ""
  full (detail type reason root_cause caused_by) = join (
      part "type=" type ""
        (part "reason=" reason "" (full_roots root_cause (full_cause caused_by))))

  full_roots : Causes → List String → List String
  full_roots no_causes rest = rest
  full_roots (and_cause root roots) rest =
      part "root_cause={" (full root) "}" (full_roots roots rest)

  full_cause : Cause → List String
  full_cause no_cause = []
  full_cause (cause by) = part "caused_by={" (full by) "}" []

unfoldable mutual
  -- an error of which what is below a depth is a text that says so
  pub pruned : ℕ → EsError → EsError
  pruned zero error = message "nested error truncated"
  pruned (suc levels) (message text) = message text
  pruned (suc levels) undecodable = undecodable
  pruned (suc levels) (detail type reason root_cause caused_by) =
      detail type reason (pruned_roots levels root_cause) (pruned_cause levels caused_by)

  pruned_roots : ℕ → Causes → Causes
  pruned_roots levels no_causes = no_causes
  pruned_roots levels (and_cause root roots) =
      and_cause (pruned levels root) (pruned_roots levels roots)

  pruned_cause : ℕ → Cause → Cause
  pruned_cause levels no_cause = no_cause
  pruned_cause levels (cause by) = cause (pruned levels by)

-- how many levels an error has
unfoldable mutual
  pub height : EsError → ℕ
  height (message text) = 1
  height undecodable = 1
  height (detail type reason root_cause caused_by) =
      suc (max (height_roots root_cause) (height_cause caused_by))

  height_roots : Causes → ℕ
  height_roots no_causes = 0
  height_roots (and_cause root roots) = max (height root) (height_roots roots)

  height_cause : Cause → ℕ
  height_cause no_cause = 0
  height_cause (cause by) = height by

describe_deep : (error : EsError) → describe 4 error ≡ "nested error truncated"
unfolding describe
describe_deep (message text) = refl
describe_deep undecodable = refl
describe_deep (detail type reason root_cause caused_by) = refl

-- A depth and the levels that are left make four.
mutual
  unfolding describe full pruned

  describe-pruned :
      (levels depth : ℕ) (error : EsError)
      → depth + levels ≡ 4
      → describe depth error ≡ full (pruned levels error)
  describe-pruned zero depth error h =
      let four : depth ≡ 4 = omega arith in rw four (describe_deep error)
  describe-pruned (suc levels) depth (message text) h = ground arith
  describe-pruned (suc levels) depth undecodable h = ground arith
  describe-pruned (suc levels) depth (detail type reason root_cause caused_by) h =
      let shallow : leb 4 depth ≡ false = ground arith in
      rw shallow (
        simp
          (
            describe_cause-pruned levels (depth + 1) caused_by (omega arith),
            describe_roots-pruned levels (depth + 1) root_cause _ (omega arith),
          )
          refl)

  describe_roots-pruned :
      (levels depth : ℕ) (roots : Causes) (rest : List String)
      → depth + levels ≡ 4
      → describe_roots depth roots rest ≡ full_roots (pruned_roots levels roots) rest
  describe_roots-pruned levels depth no_causes rest h = refl
  describe_roots-pruned levels depth (and_cause root roots) rest h =
      rw (describe-pruned levels depth root h, describe_roots-pruned levels depth roots rest h) refl

  describe_cause-pruned :
      (levels depth : ℕ) (by : Cause)
      → depth + levels ≡ 4
      → describe_cause depth by ≡ full_cause (pruned_cause levels by)
  describe_cause-pruned levels depth no_cause h = refl
  describe_cause-pruned levels depth (cause by) h = rw (describe-pruned levels depth by h) refl

-- An error that is not higher than the levels is kept whole.
mutual
  unfolding pruned height

  pruned_low : (levels : ℕ) (error : EsError) → height error ≤ levels → pruned levels error ≡ error
  pruned_low zero (message text) h = absurd (omega arith)
  pruned_low zero undecodable h = absurd (omega arith)
  pruned_low zero (detail type reason root_cause caused_by) h = absurd (omega arith)
  pruned_low (suc levels) (message text) h = refl
  pruned_low (suc levels) undecodable h = refl
  pruned_low (suc levels) (detail type reason root_cause caused_by) h = cc (
    pruned_roots_low levels root_cause (omega arith),
    pruned_cause_low levels caused_by (omega arith),
  )

  pruned_roots_low :
      (levels : ℕ) (roots : Causes)
      → height_roots roots ≤ levels
      → pruned_roots levels roots ≡ roots
  pruned_roots_low levels no_causes h = refl
  pruned_roots_low levels (and_cause root roots) h =
      cc (pruned_low levels root (omega arith), pruned_roots_low levels roots (omega arith))

  pruned_cause_low :
      (levels : ℕ) (by : Cause) → height_cause by ≤ levels → pruned_cause levels by ≡ by
  pruned_cause_low levels no_cause h = refl
  pruned_cause_low levels (cause by) h = cc (pruned_low levels by h)

unavailable_ne : ◌≢◌ {A = String} "error details unavailable" ""
unavailable_ne = ==false→ne "error details unavailable" "" refl

text_ne : ◌≢◌ {A = String} "error details unavailable (response truncated)" ""
text_ne = ==false→ne "error details unavailable (response truncated)" "" refl

other_ne : ◌≢◌ {A = String} "error details unavailable (empty or non-ES JSON response)" ""
other_ne = ==false→ne "error details unavailable (empty or non-ES JSON response)" "" refl

or_unavailable_ne : (text : String) → or_unavailable text ≢ ""
unfolding or_unavailable
or_unavailable_ne text = elim (Bool-cases (text == "")) [
  | inl nothing ↦ simp nothing unavailable_ne
  | inr something ↦ simp something (==false→ne text "" something)
]

-- What an error's text is: the whole description, with a text in place of what is below the fourth
-- level, if there is such.
abbrev pub DescribesError : EsError → String → Type 0
DescribesError error text =
    ((4 < height error) ⊎ (pruned 4 error ≡ error))
    × (((full (pruned 4 error) ≡ "") × (text ≡ "error details unavailable"))
        ⊎ ((full (pruned 4 error) ≢ "") × (text ≡ full (pruned 4 error))))

-- what the text for a body of some size is, which is an envelope with an error or not
abbrev pub Describes : ℕ → Option EsError → String → Type 0
Describes size envelope text =
    (text ≢ "")
    × (((16384 < size) × (text ≡ "error details unavailable (response truncated)"))
        ⊎ ((size ≤ 16384)
            × (envelope ≡ none)
            × (text ≡ "error details unavailable (empty or non-ES JSON response)"))
        ⊎ ((size ≤ 16384)
            × (error : EsError) × (envelope ≡ some error)
            × DescribesError error text))

pruned_cases : (error : EsError) → (4 < height error) ⊎ (pruned 4 error ≡ error)
pruned_cases error = elim (Bool-cases (leb (height error) 4)) [
  | inl low ↦ inr (pruned_low 4 error (leb→le (height error) 4 low))
  | inr high ↦ inl (ground arith)
]

or_unavailable_described :
    (error : EsError) → DescribesError error (or_unavailable (describe 0 error))
unfolding or_unavailable
or_unavailable_described error =
    rw (describe-pruned 4 0 error refl) (elim (Bool-cases (full (pruned 4 error) == "")) [
      | inl nothing ↦ simp nothing (
        pruned_cases error,
        inl (ground (arith, eq_iff (full (pruned 4 error)) "", nothing), refl),
      )
      | inr something ↦ simp something (pruned_cases error, inr (==false→ne _ "" something, refl))
    ])

-- The detail of a failed response is never empty. For a body of more than 16 KiB it says that the
-- response was truncated, and for another that is no envelope with an error that it is empty or not
-- Elasticsearch's.
-- For an envelope with an error it is the error's whole description, with a text in place of what is
-- below the fourth level, or, where that is empty, says that there are no details; and an error of at
-- most four levels is described whole.
pub response_error_detail-full :
    (size : ℕ) (envelope : Option EsError)
    → Describes size envelope (response_error_detail size envelope)
unfolding response_error_detail
response_error_detail-full size none = elim (Bool-cases (ltb max_error_body size)) [
  | inl large ↦ simp large (text_ne, inl (ltb→lt max_error_body size large, refl))
  | inr fits ↦ simp fits (other_ne, inr (inl (ltb→le max_error_body size fits, refl, refl)))
]
response_error_detail-full size (some error) = elim (Bool-cases (ltb max_error_body size)) [
  | inl large ↦ simp large (text_ne, inl (ltb→lt max_error_body size large, refl))
  | inr fits ↦ simp fits (
    or_unavailable_ne (describe 0 error),
    inr (inr (ltb→le max_error_body size fits, error, refl, or_unavailable_described error)),
  )
]
