-- ===== src/Resume.antt =====
-- internal/store/resume_store.go: the three stores of the watch position, and what a client sees of
-- one. What a call meets outside the program is its `Reply`.
pub mod Guard
use podwatcher.Prelude.{
  ℕ, String, Bool, true, false, Option, none, some, List, [], ◌∷◌, not, ◌&&◌, ltb, leb,
  if◌then◌else◌,
}

-- A call fails on the way, or the other side answers: an HTTP response with its status code and the
-- envelope in its body if there is one, or the file system with success.
pub data Reply : Type 0 where
  failed : Reply
  answered : ℕ → Option String → Reply

-- The answer of Load, (rv, found, err).
pub data Loaded : Type 0 where
  load_failed not_found : Loaded
  found : String → Loaded

-- The Go interface. `save` also tells whether its error is nil.
pub record ResumeStore (S : Type 0) : Type 0 where
  pub load : Reply → S → S × Loaded
  pub save : Reply → String → S → S × Bool

unfoldable pub nop_store : ResumeStore Unit
nop_store = record { load = λ reply s. (s, not_found); save = λ reply rv s. (s, true) }

-- What the path holds: no file, a file that does not parse, or an envelope.
pub data ResumeFile : Type 0 where
  missing unreadable : ResumeFile
  envelope : String → ResumeFile

unfoldable pub file_load : Reply → ResumeFile → ResumeFile × Loaded
file_load failed file = (file, load_failed)
file_load (answered code body) missing = (missing, not_found)
file_load (answered code body) unreadable = (unreadable, load_failed)
file_load (answered code body) (envelope rv) = (envelope rv, found rv)

-- A save that fails on the way leaves the file, which only the final rename replaces.
unfoldable pub file_save : Reply → String → ResumeFile → ResumeFile × Bool
file_save failed rv file = (file, false)
file_save (answered code body) rv file = (envelope rv, true)

unfoldable pub file_store : ResumeStore ResumeFile
unfolding file_load file_save
file_store = record { load = file_load; save = file_save }

-- `puts` is every position that was sent in a PUT, the latest first; `warned` is warnOnce.
pub record HttpStore : Type 0 where
  pub baseline : Bool
  pub warned : Bool
  pub puts : List String

unfoldable pub new_http_store : HttpStore
new_http_store = record { baseline = false; warned = false; puts = [] }

unfoldable pub mark_baseline : HttpStore → HttpStore
mark_baseline s = record s { baseline = true }

-- a == b on status codes
abbrev pub is_code : ℕ → ℕ → Bool
is_code a b = leb a b && leb b a

unfoldable pub decoded : Option String → HttpStore → HttpStore × Loaded
unfolding mark_baseline
decoded none s = (s, load_failed)
decoded (some rv) s = (mark_baseline s, found rv)

unfoldable pub http_load : Reply → HttpStore → HttpStore × Loaded
unfolding decoded mark_baseline
http_load failed s = (s, load_failed)
http_load (answered code body) s =
    if is_code code 404
    then (mark_baseline s, not_found)
    else if not (is_code code 200)
    then (s, load_failed)
    else decoded body s

-- resp.StatusCode < 200 || resp.StatusCode >= 300, negated
abbrev pub is_success : Reply → Bool
is_success failed = false
is_success (answered code body) = leb 200 code && ltb code 300

unfoldable pub http_save : Reply → String → HttpStore → HttpStore × Bool
http_save reply rv s =
    if not s.baseline
    then (record s { warned = true }, true)
    else (record s { puts = rv ∷ s.puts }, is_success reply)

unfoldable pub http_store : ResumeStore HttpStore
unfolding http_load http_save
http_store = record { load = http_load; save = http_save }
