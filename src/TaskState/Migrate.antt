-- ===== src/TaskState/Migrate.antt =====
-- `migrateTaskState`. Its note on standard error is not kept.
pub mod Validity
use devmate.Prelude.{
  ℕ, suc, zero, String, [], ◌∷◌, Bool, true, false, Option, none, some, if◌then◌else◌, ◌&&◌,
}
use devmate.Json.{
  nat, Json, null, num, str, arr, obj, Items, nil, cons, Fields, end, field, get,
  is_non_empty_string, text_of,
}
use devmate.TaskState.Validate.{
  StateError, StateResult, ok, err, valid_lanes, valid_gates, is_one_of, is_one,
  validate_task_state,
}

-- The values of the migrated fields.
abbrev pub migrated_task_id : Option Json → String
migrated_task_id v = if is_non_empty_string v then text_of v else "unknown"

abbrev pub migrated_lane : Option Json → String
migrated_lane v = if is_one_of valid_lanes v then text_of v else "feature"

abbrev pub migrated_gate : Option Json → String
migrated_gate v = if is_one_of valid_gates v then text_of v else "plan-approved"

abbrev pub migrated_hashes : Option Json → Fields
migrated_hashes (some (obj hashes)) = hashes
migrated_hashes _ = end

abbrev pub migrated_stash : Option Json → Json
migrated_stash (some (str s)) = str s
migrated_stash _ = null

abbrev pub migrated_count : ℕ → Option Json → ℕ
migrated_count fallback (some (num (nat n))) = n
migrated_count fallback _ = fallback

abbrev all_texts : Items → Bool
all_texts nil = true
all_texts (cons v vs) = is_non_empty_string (some v) && all_texts vs

abbrev pub migrated_texts : Option Json → Option Json
migrated_texts (some (arr vs)) = if all_texts vs then some (arr vs) else none
migrated_texts _ = none

-- A field whose value may be `undefined`, which is not written.
abbrev pub with_field : String → Option Json → Fields → Fields
with_field key none rest = rest
with_field key (some v) rest = field key v rest

unfoldable pub migrated : (String → Option Json) → Fields
migrated look = field "taskId" (str (migrated_task_id (look "taskId"))) (
    field "lane" (str (migrated_lane (look "lane"))) (
      field "workflowGate" (str (migrated_gate (look "workflowGate"))) (
        field "artifactHashes" (obj (migrated_hashes (look "artifactHashes"))) (
          field "preImplStash" (migrated_stash (look "preImplStash")) (
            field "currentStep" (num (nat (migrated_count 0 (look "currentStep")))) (
              field "budget" (num (nat (migrated_count 10 (look "budget")))) (
                with_field "specFiles" (migrated_texts (look "specFiles")) (
                  with_field "acceptanceCriteria" (migrated_texts (look "acceptanceCriteria")) (
                    field "stateVersion" (num (nat (migrated_count 0 (look "stateVersion"))))
                      (field "schemaVersion" (num (nat 1)) end))))))))))

abbrev fields_of : Json → String → Option Json
fields_of (obj fs) key = get fs key
fields_of _ key = none

abbrev or_migrated : StateResult StateError → Fields → Fields
or_migrated (ok state) other = state
or_migrated (err errors) other = other

unfoldable pub migrate_task_state : Json → Fields
migrate_task_state raw =
    let other = migrated (fields_of raw) in
    if is_one (fields_of raw "schemaVersion")
    then or_migrated (validate_task_state raw) other
    else other
