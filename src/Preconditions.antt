-- ===== src/Preconditions.antt =====
-- lib/gate-preconditions.mjs: the evidence that a gate demands before it is entered.
pub mod Context
pub mod Artifact
pub mod Gated
pub mod Evidence
pub mod Entry
pub mod Ready
use devmate.Prelude.{
  ℕ, ◌+◌, ◌*◌, String, List, [], ◌∷◌, ◌++◌, Bool, true, false, not, ◌&&◌, Option, none, some,
  if◌then◌else◌, ltb, is_empty, map,
}
use devmate.Prelude.Text.{str_eq, is_blank}
use devmate.Prelude.Table.{Table, get_own}
use devmate.Json.{
  Json, null, bool, num, str, arr, obj, Fields, nat, get, look, text_of, is_non_empty_string,
}
use devmate.Gates.ResumePointer.{PointerRead, ResumePointer, read, failed, read_resume_pointer}
use devmate.LoopGuard.{digests_equal}
use devmate.Preconditions.Context.{
  NoteError, note, captured_at, max_verify_age_ms, Ctx, Missing, not_found, unreadable_router,
  unsure_router, no_spec_text, no_spec_file, no_spec_hashes, invalid, foreign, failing_run,
  stale_run, other_spec, no_task_id, uncovered, no_criteria, no_dispatch, no_review, foreign_review,
  other_lane, not_approved, bad_pointer, bad_note, Warning, Outcome, Validation, Mode, off, warn,
  block, SpecFile, absent, unreadable, text, RouterRead, unparsed, parsed, Coverage, Ratio, Reads,
  passed, refused, of_missing, pushed,
}
use devmate.Preconditions.Artifact.{artifact_task_id, stranger, require_artifact}
use devmate.Preconditions.Gated.{or_recorded, task_json, gated, ac_coverage, pr_review, push_if}

-- `Boolean(value)`; a number that is no integer is never zero.
abbrev pub truthy : Option Json → Bool
truthy none = false
truthy (some null) = false
truthy (some (bool b)) = b
truthy (some (num (nat n))) = ltb 0 n
truthy (some (num _)) = true
truthy (some (str s)) = not (str_eq s "")
truthy (some (arr _)) = true
truthy (some (obj _)) = true

-- A property of what may be absent.
abbrev pub look? : Option Json → String → Option Json
look? none key = none
look? (some v) key = look v key

unfoldable pub has_spec : Option Json → Bool
has_spec state =
    let hashes = look? state "artifactHashes" in
    truthy (look? hashes "spec") && truthy (look? hashes "specDigest")

abbrev pub delegation_floor : Reads → Ctx → Outcome
delegation_floor r ctx =
    let task = or_recorded ctx.task_id (task_json r) in
    if r.has_floor ctx.lane
    then gated r.floor_mode "delegation-floor" task
        (map no_dispatch (r.missing_dispatches ctx.lane task))
    else passed

-- `confidence < MIN_ROUTER_CONFIDENCE`, which is 0.75.
abbrev is_unsure : Ratio → Bool
is_unsure c = ltb (4 * c.over) (3 * c.under)

abbrev pub check_lane_set : Reads → Option Json → Outcome
check_lane_set r none = refused (not_found ∷ [])
check_lane_set r (some artifact) = elim (r.router artifact) [
  | unparsed ↦ refused (unreadable_router ∷ [])
  | parsed confidence ↦ if is_unsure confidence then refused (unsure_router ∷ []) else passed
]

abbrev pub check_spec_draft : SpecFile → Outcome
check_spec_draft (text s) = if is_blank s then refused (no_spec_text ∷ []) else passed
check_spec_draft _ = refused (no_spec_text ∷ [])

abbrev pub check_spec_approved : SpecFile → Outcome
check_spec_approved absent = refused (no_spec_file ∷ [])
check_spec_approved _ = passed

unfoldable pub check_impl_started : Reads → Ctx → Outcome
check_impl_started r ctx =
    if str_eq ctx.lane "feature" && not (has_spec (task_json r))
    then refused (no_spec_hashes ∷ [])
    else delegation_floor r ctx

-- `value ?? ''` where a text is meant: none for a value that is no text.
abbrev pub or_empty_text : Option Json → Option String
or_empty_text none = some ""
or_empty_text (some null) = some ""
or_empty_text (some (str s)) = some s
or_empty_text _ = none

abbrev pub is_true : Option Json → Bool
is_true (some (bool b)) = b
is_true _ = false

abbrev pub same_digest : (String → String → Bool) → Option String → Option String → Bool
same_digest same_bytes a none = false
same_digest same_bytes a (some b) = digests_equal same_bytes a b

-- The age of a run is at most the limit; no date is never fresh.
abbrev pub is_fresh : ℕ → Option ℕ → Bool
is_fresh now none = false
is_fresh now (some completed) = not (ltb (completed + max_verify_age_ms) now)

abbrev pub owner_missing : Option (String × String) → List Missing
owner_missing none = []
owner_missing (some (owner, asker)) = foreign owner asker ∷ []

abbrev push_unless : Bool → NoteError → List NoteError
push_unless true e = []
push_unless false e = e ∷ []

unfoldable pub check_pr_ready : Reads → Ctx → Outcome
check_pr_ready r ctx =
    let ac = ac_coverage r ctx in
    let review = pr_review r ctx in
    of_missing (pushed ac ++ pushed review) (ac.recorded ++ review.recorded)

-- An artifact of a given owner, where the context names a task.
abbrev pub of_task : String → Option String → Outcome
of_task owner none = passed
of_task owner (some task) = if str_eq owner task then passed else refused (foreign owner task ∷ [])

abbrev judged_note : Json → List NoteError → Option String → Outcome
judged_note artifact [] task = of_task (text_of (look artifact "taskId")) task
judged_note artifact (e ∷ errors) task = refused (bad_note (e ∷ errors) ∷ [])

abbrev pub missing_of : Option Outcome → List Missing
missing_of none = []
missing_of (some o) = pushed o

abbrev pub recorded_of : Option Outcome → List Warning
recorded_of none = []
recorded_of (some o) = o.recorded

-- `parse_date` is `Date.parse(value ?? '')`, with none for what is not finite.
module _ (trim : String → String) (same_bytes : String → String → Bool)
    (parse_date : Option Json → Option ℕ) where
  -- What is missing of the verify evidence besides its owner.
  unfoldable pub evidence_missing : Reads → Option Json → List Missing
  evidence_missing r none = not_found ∷ []
  evidence_missing r (some artifact) =
      if not (is_true (look artifact "passed"))
      then failing_run ∷ []
      else if not (is_fresh r.now (parse_date (look artifact "completedAt")))
      then stale_run ∷ []
      else push_if
          (not (
            same_digest same_bytes (or_empty_text (look artifact "specDigest"))
              (or_empty_text (look? (look? (task_json r) "artifactHashes") "specDigest"))))
          other_spec

  unfoldable pub check_verification_passed : Reads → Ctx → Outcome
  check_verification_passed r ctx =
      let artifact = r.artifact "verify-result.json" in
      let ac = ac_coverage r ctx in
      of_missing
        (owner_missing (stranger trim (artifact_task_id artifact) ctx.task_id)
          ++ (evidence_missing r artifact ++ pushed ac))
        ac.recorded

module _ (is_date : String → Bool) where
  abbrev is_date_text : Option Json → Bool
  is_date_text (some (str s)) = is_date s
  is_date_text _ = false

  -- `validateScopeChangeNote`.
  unfoldable pub note_errors : Json → List NoteError
  note_errors (obj a) =
      push_unless (is_non_empty_string (get a "taskId")) NoteError.task_id
      ++ (push_unless (is_non_empty_string (get a "note")) note
          ++ push_unless (is_date_text (get a "capturedAt")) captured_at)
  note_errors _ = NoteError.not_an_object ∷ []

  abbrev pub check_parked : Reads → Ctx → Outcome
  check_parked r ctx = elim (read_resume_pointer is_date (r.artifact "resume-pointer.json")) [
    | read pointer ↦ of_task pointer.task_id ctx.task_id
    | failed errors ↦ refused (bad_pointer errors ∷ [])
  ]

  unfoldable pub check_revise_scope : Reads → Ctx → Outcome
  check_revise_scope r ctx = elim (r.artifact "scope-change.json") [
    | none ↦ refused (not_found ∷ [])
    | some artifact ↦ judged_note artifact (note_errors artifact) ctx.task_id
  ]

  -- `EVENT_PRECONDITIONS`.
  abbrev pub event_preconditions : Reads → Ctx → Table Outcome
  event_preconditions r ctx = ("revise-scope", check_revise_scope r ctx) ∷ []

  abbrev pub event_check : Reads → Ctx → Option String → Option Outcome
  event_check r ctx none = none
  event_check r ctx (some event) = get_own (event_preconditions r ctx) event

module _ (trim : String → String) (same_bytes : String → String → Bool)
    (parse_date : Option Json → Option ℕ) (is_date : String → Bool) where
  -- `GATE_PRECONDITIONS`.
  abbrev pub gate_preconditions : Reads → Ctx → Table Outcome
  gate_preconditions r ctx =
      ("lane-set", check_lane_set r (r.artifact "router-result.json"))
      ∷ (
        "discovery-done",
        require_artifact trim r.validate_discovery (r.artifact "discovery-merged.json") ctx,
      )
      ∷ ("grill-done", require_artifact trim r.validate_grill (r.artifact "grill-result.json") ctx)
      ∷ (
        "plan-done",
        require_artifact trim r.validate_critique (r.artifact "critique-result.json") ctx,
      )
      ∷ ("spec-draft", check_spec_draft r.spec)
      ∷ ("impl-started", check_impl_started r ctx)
      ∷ ("verification-passed", check_verification_passed trim same_bytes parse_date r ctx)
      ∷ ("pr-ready", check_pr_ready r ctx)
      ∷ ("spec-approved", check_spec_approved r.spec)
      ∷ ("parked", check_parked is_date r ctx)
      ∷ []

  unfoldable pub check_gate_precondition : Reads → String → Ctx → Outcome
  check_gate_precondition r target ctx =
      let gate = get_own (gate_preconditions r ctx) target in
      let steering = event_check is_date r ctx ctx.event in
      of_missing (missing_of gate ++ missing_of steering) (recorded_of gate ++ recorded_of steering)
