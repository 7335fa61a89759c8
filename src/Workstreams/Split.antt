-- ===== src/Workstreams/Split.antt =====
-- What a partition of the files into workstreams guarantees.
use mathlib.Core.List.{append-nil, append_assoc}
use devmate.Prelude.{
  ℕ, ◌≤◌, List, [], ◌∷◌, ◌++◌, Bool, true, false, not, ◌&&◌, ◌||◌, Option, some, ◌≡◌, refl, ◌∙◌,
  ◌↔◌, arith, if◌then◌else◌, is_empty, keep, all, any,
}
use devmate.Prelude.Table.{get_own}
use devmate.Json.{Number}
use devmate.Glob.{Code}
use devmate.TaskState.Store.{JsonText}
use devmate.DependencyGates.{Host, World, done, has_passed, read_gates, set_dependency_gate}
use devmate.DependencyGates.Setting.{set_dependency_gate-ordered}
use devmate.Ownership.{Persona, find_persona}
use devmate.Workstreams.{
  resolve_max_parallel, DispatchMode, parallel, Buckets, determine_dispatch_mode, edits, push_file,
  distribute, bounded, Partition, partition_workstreams, check_join_condition,
}

-- The three arrays after a push and after all later pushes.
push-keep :
    (p q : Bool) (file : Code) (buckets : Buckets) (b f s : List Code)
    → ◌≡◌ {A = Buckets}
        (record {
          backend_files = (push_file p q file buckets).backend_files ++ b;
          frontend_files = (push_file p q file buckets).frontend_files ++ f;
          shared_files = (push_file p q file buckets).shared_files ++ s;
        })
        (record {
          backend_files = buckets.backend_files ++ (if p && not q then file ∷ b else b);
          frontend_files = buckets.frontend_files ++ (if q && not p then file ∷ f else f);
          shared_files = buckets.shared_files ++ (if (if p then q else not q) then file ∷ s else s);
        })
unfolding push_file
push-keep true true file buckets b f s = rw (append_assoc buckets.shared_files (file ∷ []) s) refl
push-keep true false file buckets b f s = rw (append_assoc buckets.backend_files (file ∷ []) b) refl
push-keep false true file buckets b f s =
    rw (append_assoc buckets.frontend_files (file ∷ []) f) refl
push-keep false false file buckets b f s = rw (append_assoc buckets.shared_files (file ∷ []) s) refl

module _ (in_backend in_frontend : Code → Bool) where
  abbrev only_backend : Code → Bool
  only_backend file = in_backend file && not (in_frontend file)

  abbrev only_frontend : Code → Bool
  only_frontend file = in_frontend file && not (in_backend file)

  abbrev neither_or_both : Code → Bool
  neither_or_both file = if in_backend file then in_frontend file else not (in_frontend file)

  distribute-keep :
      (files : List Code) (buckets : Buckets)
      → distribute in_backend in_frontend files buckets ≡ record {
        backend_files = buckets.backend_files ++ keep only_backend files;
        frontend_files = buckets.frontend_files ++ keep only_frontend files;
        shared_files = buckets.shared_files ++ keep neither_or_both files;
      }
  unfolding distribute
  distribute-keep [] buckets =
      rw
        (
          append-nil buckets.backend_files,
          append-nil buckets.frontend_files,
          append-nil buckets.shared_files,
        )
        refl
  distribute-keep (file ∷ files) buckets =
      distribute-keep files (push_file (in_backend file) (in_frontend file) file buckets)
      ∙ push-keep (in_backend file) (in_frontend file) file buckets (keep only_backend files)
          (keep only_frontend files) (keep neither_or_both files)

is_empty-keep :
    (test : Code → Bool) (files : List Code) → is_empty (keep test files) ≡ not (any test files)
is_empty-keep test [] = refl
is_empty-keep test (f ∷ files) = ground (arith, is_empty-keep test files)

not-false : {a b : Bool} → a ≡ not b → a ≡ false → b ≡ true
not-false e h = ground arith

determine_dispatch_mode-parallel_iff :
    (buckets : Buckets)
    → (determine_dispatch_mode buckets ≡ parallel) ↔ (
        (is_empty buckets.shared_files ≡ true)
        × (is_empty buckets.backend_files ≡ false)
        × (is_empty buckets.frontend_files ≡ false))
unfolding determine_dispatch_mode
determine_dispatch_mode-parallel_iff buckets = ground arith

bounded-parallel_iff :
    (max : ℕ) (mode : DispatchMode)
    → (bounded max mode ≡ parallel) ↔ ((2 ≤ max) × (mode ≡ parallel))
bounded-parallel_iff max parallel = ground arith
bounded-parallel_iff max DispatchMode.sequential_shared_first = ground arith
bounded-parallel_iff max DispatchMode.sequential_backend_first = ground arith
bounded-parallel_iff max DispatchMode.sequential_frontend_first = ground arith

not-any-all :
    (test other : Code → Bool) (files : List Code)
    → ((f : Code) → other f ≡ not (test f))
    → not (any test files) ≡ all other files
not-any-all test other [] h = refl
not-any-all test other (f ∷ files) h = ground (arith, h f, not-any-all test other files h)

-- The files that only the backend persona may edit, that only the frontend persona may edit, and
-- that both or neither may.
abbrev pub is_backend : List Persona → Code → Bool
is_backend personas =
    only_backend (edits (find_persona "backend" personas))
      (edits (find_persona "frontend" personas))

abbrev pub is_frontend : List Persona → Code → Bool
is_frontend personas =
    only_frontend (edits (find_persona "backend" personas))
      (edits (find_persona "frontend" personas))

abbrev pub is_shared : List Persona → Code → Bool
is_shared personas =
    neither_or_both (edits (find_persona "backend" personas))
      (edits (find_persona "frontend" personas))

abbrev pub split : List Code → List Persona → Buckets
split files personas = record {
  backend_files = keep (is_backend personas) files;
  frontend_files = keep (is_frontend personas) files;
  shared_files = keep (is_shared personas) files;
}

-- Where the ceiling is a positive integer or absent, `partitionWorkstreams` answers, and the three
-- arrays are the files, in their order, that only the backend persona may edit, that only the
-- frontend persona may edit, and that both or neither may.
pub partition_workstreams-split :
    (files : List Code) (personas : List Persona) (opt : Option Number) (max : ℕ)
    → resolve_max_parallel opt ≡ some max
    → partition_workstreams files personas opt
      ≡ some (record {
        buckets = split files personas;
        mode = bounded max (determine_dispatch_mode (split files personas));
      })
unfolding partition_workstreams
partition_workstreams-split files personas opt max ceiling =
    let e =
      distribute-keep (edits (find_persona "backend" personas))
        (edits (find_persona "frontend" personas)) files
        (record { backend_files = []; frontend_files = []; shared_files = [] }) in
    rw (ceiling, partition_workstreams) (rw e refl)

is_shared-not :
    (personas : List Persona) (f : Code)
    → (is_backend personas f || is_frontend personas f) ≡ not (is_shared personas f)
is_shared-not personas f = ground arith

-- Where `partitionWorkstreams` answers, the mode is parallel exactly where at least two workstreams
-- may run, each file is one that exactly one of the two personas may edit, and each has a file.
pub partition_workstreams-parallel_iff :
    (files : List Code) (personas : List Persona) (opt : Option Number) (max : ℕ) (part : Partition)
    → resolve_max_parallel opt ≡ some max
    → partition_workstreams files personas opt ≡ some part
    → (part.mode ≡ parallel) ↔ (
        (2 ≤ max)
        × (all (λ f. is_backend personas f || is_frontend personas f) files ≡ true)
        × (any (is_backend personas) files ≡ true)
        × (any (is_frontend personas) files ≡ true))
partition_workstreams-parallel_iff files personas opt max part ceiling h =
    let made : part ≡ record {
      buckets = split files personas;
      mode = bounded max (determine_dispatch_mode (split files personas));
    } =
      cc (h, partition_workstreams-split files personas opt max ceiling) in
    let (f, g) = bounded-parallel_iff max (determine_dispatch_mode (split files personas)) in
    let (f', g') = determine_dispatch_mode-parallel_iff (split files personas) in
    let none_shared =
      not-any-all (is_shared personas) (λ c. is_backend personas c || is_frontend personas c) files
        (is_shared-not personas) in
    let shared = is_empty-keep (is_shared personas) files in
    let back = is_empty-keep (is_backend personas) files in
    let front = is_empty-keep (is_frontend personas) files in
    rw made (
      rw⁻¹ none_shared (
        (λ m.
            let (wide, chosen) = f m in
            let (s, b, r) = f' chosen in
            (wide, cc (shared, s), not-false (back) b, not-false (front) r)),
        λ (wide, s, b, r). g (wide, g' (rw shared s, rw back (rw b refl), rw front (rw r refl))),
      ))

-- Where the gate of all tests was set to a pass without force, the join of the two workstreams is
-- met.
pub join-met :
    (json : JsonText) (host : Host) (world : World (json.Text))
    → (set_dependency_gate json host "all-tests-pass" "pass" false world).0 ≡ done
    → (check_join_condition (
        read_gates json
          (set_dependency_gate json host "all-tests-pass" "pass" false world).1.file)).met
      ≡ true
unfolding check_join_condition get_own
join-met json host world h =
    let (fs, is_read, self, passed) =
      set_dependency_gate-ordered json host "all-tests-pass" world h in
    let both : (has_passed fs "backend-unit-pass" ≡ true)
        × (has_passed fs "frontend-unit-pass" ≡ true) =
      (passed.0, passed.1.0) in
    let (backend, frontend) = both in rw is_read (rw backend (rw frontend refl))
