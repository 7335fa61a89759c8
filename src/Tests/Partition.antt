-- ===== src/Tests/Partition.antt =====
-- Dependency gates and workstreams.
use devmate.Prelude.{
  ◌≤◌, List, [], ◌∷◌, true, false, none, ◌≡◌, ◌≢◌, refl, ◌↔◌, ◌||◌, All, all, any,
}
use devmate.Prelude.Table.{get_own}
use devmate.Json.{Json, obj, Fields, end, field, get}
use devmate.Glob.{
  Code, match_glob, split_slash, forward_slashes, same_code, match_segment, match_segments,
  match_head, any_suffix,
}
use devmate.TaskState.Store.{absent, holds}
use devmate.DependencyGates.{
  Host, World, gates, done, order_violation, entry_of, has_passed, prerequisites, read_gates,
  set_dependency_gate, locked_body, check_prerequisites, check_entries, check_entry, write_gates,
  write_out_of_order, validate_dep_gates,
}
use devmate.DependencyGates.Setting.{set_dependency_gate-ordered}
use devmate.Ownership.{Persona, find_persona}
use devmate.Workstreams.{
  Partition, parallel, bounded, determine_dispatch_mode, matches_persona, edits,
}
use devmate.Workstreams.Split.{
  split, is_backend, is_frontend, partition_workstreams-split, partition_workstreams-parallel_iff,
}
use devmate.Tests.Samples.{codes, plain_json}

abbrev gates_host : Host
gates_host = record { lock = none; append = none; write = none; now = "2026-01-01T00:00:00Z" }

abbrev no_gates : World Json
no_gates = record { file = absent; violations = [] }

abbrev all_but_last : Fields
all_but_last = field "backend-unit-pass" (entry_of gates_host "backend-unit-pass" "pass") (
    field "frontend-unit-pass" (entry_of gates_host "frontend-unit-pass" "pass")
      (field "backend-ready" (entry_of gates_host "backend-ready" "pass") end))

abbrev ready : World Json
ready = record { file = holds (obj all_but_last); violations = [] }

sets :
    ((set_dependency_gate plain_json gates_host "backend-unit-pass" "pass" false no_gates).0 ≡ done)
    × ((set_dependency_gate plain_json gates_host "all-tests-pass" "pass" false ready).0 ≡ done)
    × ((set_dependency_gate plain_json gates_host "backend-ready" "pass" false no_gates).0
        ≡ order_violation "backend-ready" ("backend-unit-pass" ∷ []))
unfolding set_dependency_gate locked_body check_prerequisites write_gates write_out_of_order
    read_gates validate_dep_gates has_passed check_entries check_entry get_own get
sets = (refl, refl, refl)

set_dependency_gate-ordered_example :
    (fs : Fields) × (read_gates plain_json
        (set_dependency_gate plain_json gates_host "all-tests-pass" "pass" false ready).1.file
      ≡ gates fs)
    × (has_passed fs "all-tests-pass" ≡ true)
    × All (λ p. has_passed fs p ≡ true) (prerequisites "all-tests-pass")
set_dependency_gate-ordered_example =
    set_dependency_gate-ordered plain_json gates_host "all-tests-pass" ready (sets.1)

is_refused :
    (set_dependency_gate plain_json gates_host "backend-ready" "pass" false no_gates).0 ≢ done
is_refused h = cc (sets.2, h)

abbrev two_personas : List Persona
two_personas =
    record {
      persona = "backend";
      editable_globs = codes "api/*" ∷ [];
      off_limits_globs = none;
      repo = none;
    }
    ∷ record {
      persona = "frontend";
      editable_globs = codes "web/*" ∷ [];
      off_limits_globs = none;
      repo = none;
    }
    ∷ []

abbrev two_files : List Code
two_files = codes "api/a" ∷ codes "web/b" ∷ []

abbrev made : Partition
made = record {
  buckets = split two_files two_personas;
  mode = bounded 3 (determine_dispatch_mode (split two_files two_personas));
}

runs_parallel : made.mode ≡ parallel
unfolding determine_dispatch_mode edits find_persona matches_persona match_glob match_segments
    match_segment split_slash forward_slashes same_code match_head any_suffix
runs_parallel = refl

partition_workstreams-parallel_iff_example : (made.mode ≡ parallel) ↔ (
    (2 ≤ 3)
    × (all (λ f. is_backend two_personas f || is_frontend two_personas f) two_files ≡ true)
    × (any (is_backend two_personas) two_files ≡ true)
    × (any (is_frontend two_personas) two_files ≡ true))
partition_workstreams-parallel_iff_example =
    partition_workstreams-parallel_iff two_files two_personas none 3 made refl
      (partition_workstreams-split two_files two_personas none 3 refl)
