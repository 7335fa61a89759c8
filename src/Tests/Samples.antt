-- ===== src/Tests/Samples.antt =====
-- Inputs that the tests share.
use Prim.Native.Char.{code}
use devmate.Glob.{Code}
use devmate.Prelude.{◌∷◌, String, Bool, true, Option, none, some, refl, []}
use devmate.Json.{Json, nat, num, str, null, obj, Fields, end, field, get}
use devmate.Gates.Transition.{Context, Verdict}
use devmate.TaskState.Validate.{state_errors, gates_valid_for_lane}
use devmate.TaskState.Validate.Spec.{IsTaskState}
use devmate.TaskState.Validate.Laws.{state_errors_iff}
use devmate.TaskState.Store.{JsonText, Host}
use devmate.Prelude.Text.{is_blank}

-- The code units of a path.
abbrev pub codes : String → Code
codes String.[] = []
codes (String.◌∷◌ c s) = code c ∷ codes s

-- A text that is its own value.
abbrev pub plain_json : JsonText
plain_json = record { Text = Json; parse = λ j. some j; print = λ j. j; parse-print = λ j. refl }

abbrev pub quiet_host : Host
quiet_host = record {
  mkdir = none;
  lock = none;
  write = none;
  append = none;
  now = "2026-01-01T00:00:00Z";
}

abbrev pub task_at : String → String → Fields
task_at lane gate = field "taskId" (str "t-1") (
    field "lane" (str lane) (
      field "workflowGate" (str gate) (
        field "artifactHashes" (obj end) (
          field "preImplStash" null (
            field "currentStep" (num (nat 3)) (
              field "budget" (num (nat 10))
                (field "schemaVersion" (num (nat 1)) (field "stateVersion" (num (nat 7)) end))))))))

abbrev pub approved_feature : Fields
approved_feature = task_at "feature" "spec-approved"

abbrev pub started_feature : Fields
started_feature = task_at "feature" "impl-started"

abbrev pub started_bug : Fields
started_bug = task_at "bug" "impl-started"

abbrev pub parked_feature : Fields
parked_feature = task_at "feature" "parked"

pub approved_feature-IsTaskState : IsTaskState (get approved_feature)
approved_feature-IsTaskState =
    (state_errors_iff approved_feature).0
      (unfold state_errors get gates_valid_for_lane is_blank in refl)

pub started_feature-IsTaskState : IsTaskState (get started_feature)
started_feature-IsTaskState =
    (state_errors_iff started_feature).0
      (unfold state_errors get gates_valid_for_lane is_blank in refl)

pub started_bug-IsTaskState : IsTaskState (get started_bug)
started_bug-IsTaskState =
    (state_errors_iff started_bug).0 (unfold state_errors get gates_valid_for_lane is_blank in refl)

pub parked_feature-IsTaskState : IsTaskState (get parked_feature)
parked_feature-IsTaskState =
    (state_errors_iff parked_feature).0
      (unfold state_errors get gates_valid_for_lane is_blank in refl)

abbrev pub any_date : String → Bool
any_date _ = true

abbrev pub no_check : String → Context → Verdict
no_check _ _ = record { passed = true; missing = [] }

-- A resume pointer of the sample task.
abbrev pub pointer_to : String → Option Json
pointer_to gate =
    some (
      obj
        (field "taskId" (str "t-1") (field "gate" (str gate) (field "parkedAt" (str "2026") end))))
