-- ===== src/TaskState/Validate/Laws.antt =====
-- `validateTaskState` against the specification.
use mathlib.Core.List.{append-eq-nil_iff}
use devmate.Prelude.{◌≡◌, refl, ◌↔◌, List, [], ◌∷◌, String, Option, All, arith}
use devmate.Json.{Json, obj, Fields, get}
use devmate.TaskState.Validate.{
  StateError, ok, join, checks, state_errors, validate_task_state, accept,
}
use devmate.TaskState.Validate.Spec.{IsTaskState}
use devmate.TaskState.Validate.Checks.{
  unless_iff, is_non_empty_string_iff, is_count_iff, is_one_iff, when_present_iff, check_count_iff,
  check_hashes_iff, check_stash_iff, check_agents_iff, check_texts_iff, check_tdd_guard_iff,
  check_continuation_iff, check-IsPlace_iff,
}

join_iff : (xss : List (List StateError)) → (join xss ≡ []) ↔ All (λ xs. xs ≡ []) xss
join_iff [] = ((λ _. tt), λ _. refl)
join_iff (xs ∷ xss) = (
  (λ e. let (p, q) = append-eq-nil_iff.0 e in (p, (join_iff xss).0 q)),
  λ a. append-eq-nil_iff.1 (a.0, (join_iff xss).1 a.1),
)

to_IsTaskState :
    (field_of : String → Option Json) → All (λ xs. xs ≡ []) (checks field_of) → IsTaskState field_of
unfolding checks
to_IsTaskState field_of
      (
        id,
        (
          lane,
          (
            gate,
            (
              pair,
              (
                hashes,
                (
                  stash,
                  (
                    step,
                    (bud, (schema, (subs, (agents, (specs, (acs, (tdd, (cont, (ver, _))))))))),
                  ),
                ),
              ),
            ),
          ),
        ),
      ) =
    record {
      task_id = (is_non_empty_string_iff _).0 ((unless_iff _ _).0 id);
      place = (check-IsPlace_iff _ _).0 ((unless_iff _ _).0 lane, (unless_iff _ _).0 gate, pair);
      hashes = (check_hashes_iff _).0 hashes;
      stash = (check_stash_iff _).0 stash;
      current_step = (is_count_iff _).0 ((unless_iff _ _).0 step);
      budget = (is_count_iff _).0 ((unless_iff _ _).0 bud);
      schema_version = (is_one_iff _).0 ((unless_iff _ _).0 schema);
      active_subagents = (when_present_iff _ _ (check_count_iff _)).0 subs;
      active_agents = (when_present_iff _ _ check_agents_iff).0 agents;
      spec_files = (when_present_iff _ _ (check_texts_iff _ _)).0 specs;
      acceptance_criteria = (when_present_iff _ _ (check_texts_iff _ _)).0 acs;
      tdd_guard = (when_present_iff _ _ check_tdd_guard_iff).0 tdd;
      continuation = (when_present_iff _ _ check_continuation_iff).0 cont;
      state_version = (when_present_iff _ _ (check_count_iff _)).0 ver;
    }

of_IsTaskState :
    (field_of : String → Option Json) → IsTaskState field_of → All (λ xs. xs ≡ []) (checks field_of)
unfolding checks
of_IsTaskState field_of s =
    let (lane, gate, pair) = (check-IsPlace_iff _ _).1 s.place in
    (
      (unless_iff _ _).1 ((is_non_empty_string_iff _).1 s.task_id),
      (
        (unless_iff _ _).1 lane,
        (
          (unless_iff _ _).1 gate,
          (
            pair,
            (
              (check_hashes_iff _).1 s.hashes,
              (
                (check_stash_iff _).1 s.stash,
                (
                  (unless_iff _ _).1 ((is_count_iff _).1 s.current_step),
                  (
                    (unless_iff _ _).1 ((is_count_iff _).1 s.budget),
                    (
                      (unless_iff _ _).1 ((is_one_iff _).1 s.schema_version),
                      (
                        (when_present_iff _ _ (check_count_iff _)).1 s.active_subagents,
                        (
                          (when_present_iff _ _ check_agents_iff).1 s.active_agents,
                          (
                            (when_present_iff _ _ (check_texts_iff _ _)).1 s.spec_files,
                            (
                              (when_present_iff _ _ (check_texts_iff _ _)).1 s.acceptance_criteria,
                              (
                                (when_present_iff _ _ check_tdd_guard_iff).1 s.tdd_guard,
                                (
                                  (when_present_iff _ _ check_continuation_iff).1 s.continuation,
                                  (
                                    (when_present_iff _ _ (check_count_iff _)).1 s.state_version,
                                    tt,
                                  ),
                                ),
                              ),
                            ),
                          ),
                        ),
                      ),
                    ),
                  ),
                ),
              ),
            ),
          ),
        ),
      ),
    )

pub state_errors_iff : (fs : Fields) → (state_errors (obj fs) ≡ []) ↔ IsTaskState (get fs)
unfolding state_errors
state_errors_iff fs = (
  (λ e. to_IsTaskState _ ((join_iff (checks (get fs))).0 e)),
  λ s. (join_iff (checks (get fs))).1 (of_IsTaskState _ s),
)

accept_iff :
    (raw : Json) (fs : Fields) (errors : List StateError)
    → (accept raw errors ≡ ok fs) ↔ ((raw ≡ obj fs) × (errors ≡ []))
unfolding accept
accept_iff raw fs errors = ground arith

-- `validateTaskState` accepts exactly the objects that are task states, and returns the object.
pub validate_task_state_iff :
    (raw : Json) (fs : Fields)
    → (validate_task_state raw ≡ ok fs) ↔ ((raw ≡ obj fs) × IsTaskState (get fs))
unfolding validate_task_state
validate_task_state_iff raw fs =
    let (to, from) = accept_iff raw fs (state_errors raw) in
    (
      (λ e. let (p, q) = to e in (p, (state_errors_iff fs).0 (rw p at q))),
      λ (p, s). from (p, rw p ((state_errors_iff fs).1 s)),
    )
