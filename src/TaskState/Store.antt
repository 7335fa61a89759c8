-- ===== src/TaskState/Store.antt =====
-- Reading and writing task.json under its lock: `readTaskState`, `writeTaskState`,
-- `mutateTaskStateUnderLock`, `commitRenameWithRetry` of lib/task-state.mjs and the log of
-- lib/state-transition-log.mjs. The file system, the lock and the clock enter as what they answer.
pub mod Laws
pub mod Success
use Prim.Native.Char.{code}
use devmate.Prelude.{
  ℕ, ◌+◌, String, List, [], ◌∷◌, ◌++◌, Bool, true, false, ◌&&◌, ◌||◌, Option, none, some,
  if◌then◌else◌, leb, ◌==◌, map, ◌≡◌,
}
use devmate.Json.{nat, Json, num, obj, Fields, get, set, text_of}
use devmate.TaskState.Validate.{StateError, StateResult, ok, err, state_errors, validate_task_state}

-- `JSON.parse` and `JSON.stringify`, with what the program relies on: a value that was parsed or
-- built from parsed values is read back as it was written. Texts are left abstract.
pub record JsonText : Type 1 where
  pub Text : Type 0
  pub parse : Text → Option Json
  pub print : Json → Text
  pub parse-print : (j : Json) → parse (print j) ≡ some j

-- What opening task.json gives: ENOENT, another failure, or the text.
pub data File (Text : Type 0) : Type 0 where
  absent : File Text
  unreadable : File Text
  holds : Text → File Text

pub data ReadError : Type 0 where
  file_not_found file_unreadable malformed_json : ReadError
  invalid : StateError → ReadError

-- `StateTransitionRecord`.
pub record LogRecord : Type 0 where
  pub task_id : String
  pub branch_id : String
  pub from_version : ℕ
  pub to_version : ℕ
  pub event : String
  pub from_gate : String
  pub to_gate : String
  pub ts : String

pub record World (Text : Type 0) : Type 0 where
  pub file : File Text
  pub log : List LogRecord

-- What the host answers during one call: none where the step succeeds, else the message.
pub record Host : Type 0 where
  pub mkdir : Option String
  pub lock : Option String
  pub write : Option String
  pub append : Option String
  pub now : String

pub data MutateError : Type 0 where
  mkdir_failed lock_failed mutator_threw write_failed : String → MutateError
  unread : List ReadError → MutateError
  invalid_result : List StateError → MutateError

-- `MutateResult`.
pub data MutateResult : Type 0 where
  written skipped : (version : ℕ) → MutateResult
  conflict : (current expected : ℕ) → MutateResult
  failed : MutateError → MutateResult

-- What a mutator does: it throws, leaves the state alone (`null`), or gives the next state.
pub data Mutated : Type 0 where
  threw : String → Mutated
  unchanged : Mutated
  next_state : Fields → Mutated

pub record Options : Type 0 where
  pub expected_version : Option ℕ
  pub event : Option String
  pub ts : Option String

-- `opts.x ?? fallback`.
abbrev pub get_or {ℓ} : {A : Type ℓ} → A → Option A → A
get_or fallback none = fallback
get_or fallback (some a) = a

lift_result : StateResult StateError → StateResult ReadError
lift_result (ok fs) = ok fs
lift_result (err errors) = err (map invalid errors)

-- `isStateFileMissing` and `isStateCorrupt`, which look at the first message.
unfoldable pub is_state_file_missing : List ReadError → Bool
is_state_file_missing (file_not_found ∷ _) = true
is_state_file_missing _ = false

unfoldable pub is_state_corrupt : List ReadError → Bool
is_state_corrupt (file_not_found ∷ _) = false
is_state_corrupt (file_unreadable ∷ _) = false
is_state_corrupt _ = true

-- `stateVersionOf`. A validated state has a count there or nothing.
abbrev count_or_zero : Option Json → ℕ
count_or_zero (some (num (nat n))) = n
count_or_zero _ = 0

unfoldable pub state_version_of : Fields → ℕ
state_version_of state = count_or_zero (get state "stateVersion")

-- `isSafeTaskId`: /^[a-z0-9][a-z0-9._-]*$/.
abbrev is_alnum : ℕ → Bool
is_alnum c = (leb b'a' c && leb c b'z') || (leb b'0' c && leb c b'9')

all_safe : String → Bool
all_safe String.[] = true
all_safe (String.◌∷◌ c s) =
    (is_alnum (code c) || code c == b'.' || code c == b'_' || code c == b'-') && all_safe s

unfoldable pub is_safe_task_id : String → Bool
unfolding all_safe
is_safe_task_id String.[] = false
is_safe_task_id (String.◌∷◌ c s) = is_alnum (code c) && all_safe s

-- `appendTransitionRecord`, whose failure the caller swallows.
append_transition_record : Option String → LogRecord → List LogRecord → List LogRecord
append_transition_record (some _) entry log = log
append_transition_record none entry log =
    if is_safe_task_id entry.task_id then log ++ entry ∷ [] else log

-- `{ ...next, stateVersion: toVersion }`.
unfoldable pub stamp : Fields → ℕ → Fields
stamp next version = set next "stateVersion" (num (nat version))

unfoldable pub record_of : Host → Options → Fields → Fields → ℕ → LogRecord
record_of host opts current next version = record {
  task_id = text_of (get next "taskId");
  branch_id = text_of (get next "taskId");
  from_version = version;
  to_version = version + 1;
  event = get_or "mutate" opts.event;
  from_gate = text_of (get current "workflowGate");
  to_gate = text_of (get next "workflowGate");
  ts = get_or host.now opts.ts;
}

abbrev pub is_stale : Option ℕ → ℕ → Bool
is_stale none version = false
is_stale (some expected) version = if expected == version then false else true

module _ (json : JsonText) where
  open json use {Text, parse, print}

  read_parsed : Option Json → StateResult ReadError
  unfolding lift_result
  read_parsed none = err (malformed_json ∷ [])
  read_parsed (some raw) = lift_result (validate_task_state raw)

  unfoldable pub read_task_state : File Text → StateResult ReadError
  unfolding read_parsed
  read_task_state absent = err (file_not_found ∷ [])
  read_task_state unreadable = err (file_unreadable ∷ [])
  read_task_state (holds text) = read_parsed (parse text)

  -- From the mutator's state to the end: validate what is stamped, write it, log it.
  unfoldable pub commit :
      Host → Options → Fields → Fields → ℕ → World Text → MutateResult × World Text
  unfolding record_of append_transition_record
  commit host opts current versioned version world = elim (state_errors (obj versioned)) [
    | [] ↦ elim host.write [
      | some message ↦ (failed (write_failed message), world)
      | none ↦ (
        written (version + 1),
        record {
          file = holds (print (obj versioned));
          log =
              append_transition_record host.append (record_of host opts current versioned version)
                world.log;
        },
      )
    ]
    | e ∷ errors ↦ (failed (invalid_result (e ∷ errors)), world)
  ]

  unfoldable pub apply :
      Host → Options → Fields → Mutated → ℕ → World Text → MutateResult × World Text
  unfolding commit stamp
  apply host opts current (threw message) version world = (failed (mutator_threw message), world)
  apply host opts current unchanged version world = (skipped version, world)
  apply host opts current (next_state next) version world =
      commit host opts current (stamp next (version + 1)) version world

  -- The body that runs while the lock is held.
  unfoldable pub locked_body :
      Host
      → Options
      → (Fields → Mutated)
      → StateResult ReadError
      → World Text
      → MutateResult × World Text
  unfolding apply
  locked_body host opts mutate (err errors) world = (failed (unread errors), world)
  locked_body host opts mutate (ok current) world =
      let version = state_version_of current in
      if is_stale opts.expected_version version
      then (conflict version (get_or 0 opts.expected_version), world)
      else apply host opts current (mutate current) version world

  -- `mutateTaskStateUnderLock`.
  unfoldable pub mutate_under_lock :
      Host → Options → (Fields → Mutated) → World Text → MutateResult × World Text
  mutate_under_lock host opts mutate world = elim host.mkdir [
    | some message ↦ (failed (mkdir_failed message), world)
    | none ↦ elim host.lock [
      | some message ↦ (failed (lock_failed message), world)
      | none ↦ locked_body host opts mutate (read_task_state world.file) world
    ]
  ]

  -- `writeTaskState`: the error that it throws, if any. A blind write: nothing is read first, no
  -- version is stamped, and nothing is logged.
  unfoldable pub write_task_state : Host → Fields → World Text → Option MutateError × World Text
  write_task_state host state world = elim (state_errors (obj state)) [
    | e ∷ errors ↦ (some (invalid_result (e ∷ errors)), world)
    | [] ↦ elim host.mkdir [
      | some message ↦ (some (mkdir_failed message), world)
      | none ↦ elim host.lock [
        | some message ↦ (some (lock_failed message), world)
        | none ↦ elim host.write [
          | some message ↦ (some (write_failed message), world)
          | none ↦ (none, record world { file = holds (print (obj state)) })
        ]
      ]
    ]
  ]
