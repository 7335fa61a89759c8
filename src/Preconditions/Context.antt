-- ===== src/Preconditions/Context.antt =====
-- What a check of lib/gate-preconditions.mjs reads, and what it answers. An unmet requirement is a
-- constructor for each text.
use devmate.Prelude.{ℕ, ◌*◌, String, List, [], Bool, true, false, Option, if◌then◌else◌, is_empty}
use devmate.Json.{Json}
use devmate.Gates.ResumePointer.{PointerError}

abbrev pub max_verify_age_ms : ℕ
max_verify_age_ms = 30 * 60 * 1000

-- `PreconditionCtx`, without the state directory, which is what the record of reads stands for.
pub record Ctx : Type 0 where
  pub lane : String
  pub event : Option String
  pub task_id : Option String

-- What `validateScopeChangeNote` finds wrong.
pub data NoteError : Type 0 where
  not_an_object task_id note captured_at : NoteError

pub data Missing : Type 0 where
  not_found unreadable_router unsure_router no_spec_text no_spec_file no_spec_hashes : Missing
  invalid : String → Missing
  foreign : String → String → Missing
  failing_run stale_run other_spec no_task_id : Missing
  uncovered : ℕ → Missing
  no_criteria : Missing
  no_dispatch : String → Missing
  no_review foreign_review other_lane not_approved : Missing
  bad_pointer : List PointerError → Missing
  bad_note : List NoteError → Missing

-- What the warning mode of a check appends to the trace.
pub record Warning : Type 0 where
  pub contract : String
  pub errors : List Missing

-- `PreconditionResult`, with the violations that the check has recorded.
pub record Outcome : Type 0 where
  pub ok : Bool
  pub missing : List Missing
  pub recorded : List Warning

-- The verdict of a validator of another module.
pub record Validation : Type 0 where
  pub ok : Bool
  pub errors : List String

pub data Mode : Type 0 where
  off warn block : Mode

pub data SpecFile : Type 0 where
  absent unreadable : SpecFile
  text : String → SpecFile

-- A finite number that is not negative, as a quotient.
pub record Ratio : Type 0 where
  pub over : ℕ
  pub under : ℕ

pub data RouterRead : Type 0 where
  unparsed : RouterRead
  parsed : (confidence : Ratio) → RouterRead

-- What `computeAcCoverage` gives of the spec and the trace of a task: how many criteria there are,
-- and which of them are not complete.
pub record Coverage : Type 0 where
  pub total : ℕ
  pub open_criteria : List ℕ

-- The state directory, as one check reads it. `artifact` is none where the file is absent, does not
-- parse, or holds `null`.
pub record Reads : Type 0 where
  pub artifact : String → Option Json
  pub spec : SpecFile
  pub now : ℕ
  pub router : Json → RouterRead
  pub validate_discovery : Json → Validation
  pub validate_grill : Json → Validation
  pub validate_critique : Json → Validation
  pub validate_review : Json → Validation
  pub ac_mode : Mode
  pub review_mode : Mode
  pub floor_mode : Mode
  pub coverage : String → Coverage
  pub has_floor : String → Bool
  pub missing_dispatches : String → String → List String

abbrev pub passed : Outcome
passed = record { ok = true; missing = []; recorded = [] }

abbrev pub refused : List Missing → Outcome
refused missing = record { ok = false; missing = missing; recorded = [] }

-- `missing.length === 0 ? { ok: true, missing: [] } : { ok: false, missing }`.
abbrev pub of_missing : List Missing → List Warning → Outcome
of_missing missing recorded = record {
  ok = is_empty missing;
  missing = missing;
  recorded = recorded;
}

-- `if (!verdict.ok) missing.push(...verdict.missing)`.
abbrev pub pushed : Outcome → List Missing
pushed o = if o.ok then [] else o.missing
