-- ===== src/Workstreams.antt =====
-- lib/workstream-partitioner.mjs: which workstream edits which file, and whether they run in
-- parallel.
pub mod Agreement
pub mod Split
use devmate.Prelude.{
  suc, String, List, [], ◌∷◌, ◌++◌, Bool, true, false, not, ◌&&◌, Option, none, some, if◌then◌else◌,
  ltb, is_empty, any, ℕ,
}
use devmate.Prelude.Text.{str_eq}
use devmate.Json.{Number, nat, Fields, end}
use devmate.Glob.{Code, forward_slashes, match_glob}
use devmate.Ownership.{Persona, no_globs, find_persona}
use devmate.DependencyGates.{ReadGates, gates, corrupt, has_passed}

abbrev pub max_parallel_workstreams : ℕ
max_parallel_workstreams = 3

-- `resolveMaxParallel`: none where it throws.
abbrev pub resolve_max_parallel : Option Number → Option ℕ
resolve_max_parallel none = some max_parallel_workstreams
resolve_max_parallel (some (nat (suc n))) = some (suc n)
resolve_max_parallel (some _) = none

unfoldable pub matches_persona : Persona → Code → Bool
matches_persona persona file =
    let normalized = forward_slashes file in
    any (λ g. match_glob g normalized) persona.editable_globs
    && not (any (λ g. match_glob g normalized) (no_globs persona.off_limits_globs))

pub data DispatchMode : Type 0 where
  parallel sequential_shared_first sequential_backend_first sequential_frontend_first : DispatchMode

pub record Buckets : Type 0 where
  pub backend_files : List Code
  pub frontend_files : List Code
  pub shared_files : List Code

unfoldable pub determine_dispatch_mode : Buckets → DispatchMode
determine_dispatch_mode buckets =
    if not (is_empty buckets.shared_files)
    then sequential_shared_first
    else if not (is_empty buckets.backend_files) && not (is_empty buckets.frontend_files)
    then parallel
    else if not (is_empty buckets.backend_files)
    then sequential_backend_first
    else if not (is_empty buckets.frontend_files)
    then sequential_frontend_first
    else sequential_shared_first

unfoldable pub edits : Option Persona → Code → Bool
edits none file = false
edits (some persona) file = matches_persona persona file

-- The loop's body: the file is pushed onto one of the three arrays.
pub push_file : Bool → Bool → Code → Buckets → Buckets
push_file true false file buckets = record {
  backend_files = buckets.backend_files ++ file ∷ [];
  frontend_files = buckets.frontend_files;
  shared_files = buckets.shared_files;
}
push_file false true file buckets = record {
  backend_files = buckets.backend_files;
  frontend_files = buckets.frontend_files ++ file ∷ [];
  shared_files = buckets.shared_files;
}
push_file _ _ file buckets = record {
  backend_files = buckets.backend_files;
  frontend_files = buckets.frontend_files;
  shared_files = buckets.shared_files ++ file ∷ [];
}

pub distribute : (in_backend in_frontend : Code → Bool) → List Code → Buckets → Buckets
unfolding push_file
distribute in_backend in_frontend [] buckets = buckets
distribute in_backend in_frontend (file ∷ files) buckets =
    distribute in_backend in_frontend files
      (push_file (in_backend file) (in_frontend file) file buckets)

abbrev pub bounded : ℕ → DispatchMode → DispatchMode
bounded max_parallel parallel = if ltb max_parallel 2 then sequential_backend_first else parallel
bounded max_parallel mode = mode

pub record Partition : Type 0 where
  pub buckets : Buckets
  pub mode : DispatchMode

abbrev pub partition_with : (in_backend in_frontend : Code → Bool) → List Code → ℕ → Partition
partition_with in_backend in_frontend files max_parallel =
    let buckets =
      distribute in_backend in_frontend files
        (record { backend_files = []; frontend_files = []; shared_files = [] }) in
    record { buckets = buckets; mode = bounded max_parallel (determine_dispatch_mode buckets) }

-- `partitionWorkstreams`: none where it throws.
unfoldable pub partition_workstreams : List Code → List Persona → Option Number → Option Partition
partition_workstreams files personas opt = elim (resolve_max_parallel opt) [
  | none ↦ none
  | some max_parallel ↦ some (
      partition_with (edits (find_persona "backend" personas))
        (edits (find_persona "frontend" personas)) files max_parallel)
]

-- `JoinCondition`.
pub record JoinCondition : Type 0 where
  pub backend_unit_pass : Bool
  pub frontend_unit_pass : Bool
  pub met : Bool

abbrev pub join_of : Fields → JoinCondition
join_of fs =
    let backend = has_passed fs "backend-unit-pass" in
    let frontend = has_passed fs "frontend-unit-pass" in
    record { backend_unit_pass = backend; frontend_unit_pass = frontend; met = backend && frontend }

-- `checkJoinCondition`, where what the read throws counts as no gates.
unfoldable pub check_join_condition : ReadGates → JoinCondition
check_join_condition (gates fs) = join_of fs
check_join_condition (corrupt e) = join_of end
