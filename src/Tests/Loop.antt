-- ===== src/Tests/Loop.antt =====
-- The loop guard.
use devmate.Prelude.{ℕ, ◌<◌, List, [], ◌∷◌, some, ◌≡◌, ◌↔◌, refl}
use devmate.Prelude.Text.{str_eq}
use devmate.LoopGuard.{
  GuardOptions, LoopEvent, loop_attempt, allowed, halted, no_progress, digests_equal,
  detect_no_progress, repeated, sum_cumulative_cost, cap_exceeded, run_loop_guard,
}
use devmate.LoopGuard.Halts.{IsProgress, Spends, run_loop_guard-allowed_iff}

abbrev second_attempt : GuardOptions
second_attempt = record {
  task_id = "t-1";
  attempt_id = "a-2";
  max_files = 5;
  current_digest = "d";
  max_loop_tokens = some 100;
}

abbrev one_attempt : List LoopEvent
one_attempt = loop_attempt "a-1" (some "d") (some 40) ∷ []

run_loop_guard-allowed_iff_example :
    ((run_loop_guard str_eq second_attempt 2 one_attempt).0 ≡ allowed) ↔ (
      (2 < 5)
      × IsProgress str_eq second_attempt one_attempt
      × ((total : ℕ) × Spends one_attempt total × (total < 100)))
run_loop_guard-allowed_iff_example = run_loop_guard-allowed_iff str_eq second_attempt 2 one_attempt

same_digest_halts : (run_loop_guard str_eq second_attempt 2 one_attempt).0 ≡ halted no_progress
unfolding run_loop_guard repeated detect_no_progress digests_equal cap_exceeded sum_cumulative_cost
same_digest_halts = refl
