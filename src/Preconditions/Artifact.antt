-- ===== src/Preconditions/Artifact.antt =====
-- `requireArtifact` and `artifactTaskId` of lib/gate-preconditions.mjs: an artifact that validates and
-- belongs to the task that asks.
use devmate.Prelude.{String, [], ◌∷◌, Option, none, some, if◌then◌else◌, map}
use devmate.Prelude.Text.{str_eq}
use devmate.Json.{Json, obj, get, text_of, is_non_empty_string}
use devmate.Preconditions.Context.{
  Ctx, not_found, invalid, foreign, Outcome, Validation, passed, refused,
}

-- `artifactTaskId`.
unfoldable pub artifact_task_id : Option Json → Option String
artifact_task_id (some (obj fs)) =
    if is_non_empty_string (get fs "taskId") then some (text_of (get fs "taskId")) else none
artifact_task_id _ = none

abbrev pub owned : Option (String × String) → Outcome
owned none = passed
owned (some (owner, asker)) = refused (foreign owner asker ∷ [])

-- `trim`, which the check applies to the asker's id.
module _ (trim : String → String) where
  abbrev pub asker_of : Option String → String
  asker_of none = ""
  asker_of (some task) = trim task

  -- The owner of an artifact and who asks, where both are known and differ.
  unfoldable pub stranger : Option String → Option String → Option (String × String)
  stranger none task = none
  stranger (some owner) task =
      let asker = asker_of task in
      if str_eq asker "" then none else if str_eq owner asker then none else some (owner, asker)

  -- The check that `requireArtifact` builds.
  unfoldable pub require_artifact : (Json → Validation) → Option Json → Ctx → Outcome
  require_artifact validator none ctx = refused (not_found ∷ [])
  require_artifact validator (some artifact) ctx =
      let verdict = validator artifact in
      if verdict.ok
      then owned (stranger (artifact_task_id (some artifact)) ctx.task_id)
      else refused (map invalid verdict.errors)
