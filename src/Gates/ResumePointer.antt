-- ===== src/Gates/ResumePointer.antt =====
-- The resume pointer of .devmate/state/resume-pointer.json: `validateResumePointer` and
-- `readResumePointer` of lib/gate-preconditions.mjs. The artifact is what `readJsonArtifact` gives:
-- none where the file is absent, does not parse or holds `null`.
use devmate.Prelude.{String, List, [], ◌∷◌, ◌++◌, Bool, true, false, Option, none, some}
use devmate.Json.{Json, str, obj, get, is_non_empty_string, text_of}

pub data PointerError : Type 0 where
  not_found not_an_object task_id gate parked_at : PointerError

pub record ResumePointer : Type 0 where
  pub task_id : String
  pub gate : String

pub data PointerRead : Type 0 where
  read : ResumePointer → PointerRead
  failed : List PointerError → PointerRead

abbrev push_unless : Bool → PointerError → List PointerError
push_unless true e = []
push_unless false e = e ∷ []

-- `Number.isFinite(Date.parse(s))` is the argument: the date parser is the host's.
module _ (is_date : String → Bool) where
  is_date_text : Option Json → Bool
  is_date_text (some (str s)) = is_date s
  is_date_text _ = false

  pub pointer_errors : Json → List PointerError
  unfolding is_date_text
  pointer_errors (obj a) =
      push_unless (is_non_empty_string (get a "taskId")) PointerError.task_id
      ++ (push_unless (is_non_empty_string (get a "gate")) PointerError.gate
          ++ push_unless (is_date_text (get a "parkedAt")) parked_at)
  pointer_errors _ = not_an_object ∷ []

  read_valid : Json → List PointerError → PointerRead
  read_valid (obj a) [] =
      read (record { task_id = text_of (get a "taskId"); gate = text_of (get a "gate") })
  read_valid _ errors = failed errors

  unfoldable pub read_resume_pointer : Option Json → PointerRead
  unfolding pointer_errors read_valid
  read_resume_pointer none = failed (not_found ∷ [])
  read_resume_pointer (some artifact) = read_valid artifact (pointer_errors artifact)
