-- ===== src/DependencyGates.antt =====
-- lib/dependency-gates.mjs: the gates of gates.json, of which one may ask for others first.
pub mod Entries
pub mod Setting
use devmate.Prelude.{
  String, List, [], ◌∷◌, ◌++◌, Bool, true, false, not, ◌&&◌, ◌||◌, Option, none, some,
  if◌then◌else◌, is_empty, keep,
}
use devmate.Prelude.Text.{str_eq, includes}
use devmate.Prelude.Table.{Table, get_own}
use devmate.Json.{Json, str, obj, Fields, end, field, get, set, look, is_string, text_of}
use devmate.TaskState.Store.{JsonText, File, absent, unreadable, holds}

-- `DEP_GATES`, `DEP_GATE_PREREQUISITES` and `VALID_STATUSES`.
abbrev pub dep_gates : List String
dep_gates = "backend-unit-pass" ∷ "backend-ready" ∷ "frontend-unit-pass" ∷ "all-tests-pass" ∷ []

abbrev pub dep_gate_prerequisites : Table (List String)
dep_gate_prerequisites =
    ("backend-unit-pass", [])
    ∷ ("backend-ready", "backend-unit-pass" ∷ [])
    ∷ ("frontend-unit-pass", [])
    ∷ ("all-tests-pass", "backend-unit-pass" ∷ "frontend-unit-pass" ∷ "backend-ready" ∷ [])
    ∷ []

abbrev pub valid_statuses : List String
valid_statuses = "pending" ∷ "pass" ∷ "fail" ∷ "skipped" ∷ []

-- `entry.status === 'pass'`, also where there is no entry.
abbrev is_pass : Option Json → Bool
is_pass (some (str s)) = str_eq s "pass"
is_pass _ = false

abbrev entry_passed : Option Json → Bool
entry_passed none = false
entry_passed (some entry) = is_pass (look entry "status")

unfoldable pub has_passed : Fields → String → Bool
has_passed gates name = entry_passed (get gates name)

abbrev no_prerequisites : Option (List String) → List String
no_prerequisites none = []
no_prerequisites (some names) = names

abbrev pub prerequisites : String → List String
prerequisites name = no_prerequisites (get_own dep_gate_prerequisites name)

-- `checkPrerequisites`: the list of what is missing, which is empty where the check is `ok`.
unfoldable pub check_prerequisites : String → Fields → List String
unfolding get_own
check_prerequisites name gates = keep (λ p. not (has_passed gates p)) (prerequisites name)

pub data GatesError : Type 0 where
  not_an_object parse_error : GatesError
  unknown_gate entry_not_object no_updated_at : (key : String) → GatesError
  bad_status : (key : String) → Option Json → GatesError

abbrev is_status : Option Json → Bool
is_status (some (str s)) = includes valid_statuses s
is_status _ = false

-- One round of the loop of `validateDepGates`: the error that it returns at this entry.
unfoldable pub check_entry : String → Json → Option GatesError
check_entry key (obj e) =
    if not (includes dep_gates key)
    then some (unknown_gate key)
    else if not (is_status (get e "status"))
    then some (bad_status key (get e "status"))
    else if not (is_string (get e "updatedAt"))
    then some (no_updated_at key)
    else none
check_entry key entry =
    if not (includes dep_gates key) then some (unknown_gate key) else some (entry_not_object key)

abbrev pub first_error : Option GatesError → Option GatesError → Option GatesError
first_error none later = later
first_error (some e) later = some e

unfoldable pub check_entries : Fields → Option GatesError
check_entries end = none
check_entries (field key entry gates) = first_error (check_entry key entry) (check_entries gates)

unfoldable pub validate_dep_gates : Json → Option GatesError
validate_dep_gates (obj gates) = check_entries gates
validate_dep_gates _ = some not_an_object

pub data ReadGates : Type 0 where
  gates : Fields → ReadGates
  corrupt : GatesError → ReadGates

pub accept : Json → Option GatesError → ReadGates
accept raw (some e) = corrupt e
accept (obj fs) none = gates fs
accept _ none = corrupt not_an_object

-- An `OrderViolationEntry`, whose `forced` is always true.
pub record Violation : Type 0 where
  pub gate : String
  pub missing : List String
  pub timestamp : String

pub record World (Text : Type 0) : Type 0 where
  pub file : File Text
  pub violations : List Violation

-- What the host answers during one call: none where the step succeeds, else the message.
pub record Host : Type 0 where
  pub lock : Option String
  pub append : Option String
  pub write : Option String
  pub now : String

pub data SetResult : Type 0 where
  done : SetResult
  unknown_name unknown_status : String → SetResult
  lock_failed append_failed write_failed : String → SetResult
  unread : GatesError → SetResult
  order_violation : (gate : String) (missing : List String) → SetResult

abbrev pub entry_of : Host → String → String → Json
entry_of host name status =
    obj
      (field "name" (str name) (field "status" (str status) (field "updatedAt" (str host.now) end)))

module _ (json : JsonText) where
  open json use {Text, parse, print}

  read_parsed : Option Json → ReadGates
  unfolding accept
  read_parsed none = corrupt parse_error
  read_parsed (some raw) = accept raw (validate_dep_gates raw)

  -- `readGates`. Whatever keeps the file from being read, it reads as no gates.
  unfoldable pub read_gates : File Text → ReadGates
  unfolding read_parsed
  read_gates absent = gates end
  read_gates unreadable = gates end
  read_gates (holds text) = read_parsed (parse text)

  -- The write of the new entry.
  unfoldable pub write_gates : Host → String → String → Fields → World Text → SetResult × World Text
  write_gates host name status fs world = elim host.write [
    | some message ↦ (write_failed message, world)
    | none ↦ (
      done,
      record {
        file = holds (print (obj (set fs name (entry_of host name status))));
        violations = world.violations;
      },
    )
  ]

  -- A pass with missing prerequisites: refused, or logged where it is forced.
  unfoldable pub write_out_of_order :
      Host → String → String → Bool → List String → Fields → World Text → SetResult × World Text
  write_out_of_order host name status false missing fs world = (order_violation name missing, world)
  write_out_of_order host name status true missing fs world = elim host.append [
    | some message ↦ (append_failed message, world)
    | none ↦ write_gates host name status fs (record {
      file = world.file;
      violations =
          world.violations ++ record { gate = name; missing = missing; timestamp = host.now } ∷ [];
    })
  ]

  unfoldable pub locked_body :
      Host → String → String → Bool → ReadGates → World Text → SetResult × World Text
  locked_body host name status force (corrupt e) world = (unread e, world)
  locked_body host name status force (gates fs) world =
      let missing = check_prerequisites name fs in
      if str_eq status "pass" && not (is_empty missing)
      then write_out_of_order host name status force missing fs world
      else write_gates host name status fs world

  -- `setDependencyGate`.
  unfoldable pub set_dependency_gate :
      Host → String → String → Bool → World Text → SetResult × World Text
  set_dependency_gate host name status force world =
      if not (includes dep_gates name)
      then (unknown_name name, world)
      else if not (includes valid_statuses status)
      then (unknown_status status, world)
      else elim host.lock [
        | some message ↦ (lock_failed message, world)
        | none ↦ locked_body host name status force (read_gates world.file) world
      ]

-- `getDependencyGate` on what is read: the entry, null, or what the read throws.
pub data Lookup : Type 0 where
  found : Json → Lookup
  no_entry : Lookup
  failed : GatesError → Lookup

lookup_of : Option Json → Lookup
lookup_of none = no_entry
lookup_of (some entry) = found entry

unfoldable pub get_dependency_gate : ReadGates → String → Lookup
unfolding lookup_of
get_dependency_gate (corrupt e) name = failed e
get_dependency_gate (gates fs) name = lookup_of (get fs name)
