-- ===== src/Preconditions/Gated.antt =====
-- The checks of lib/gate-preconditions.mjs that a mode of the configuration turns off, to warnings,
-- or on: `acCoveragePrecondition`, `prReviewPrecondition` and the delegation floor.
use devmate.Prelude.{
  String, List, [], ◌∷◌, ◌++◌, Bool, true, false, not, ◌&&◌, Option, none, some, if◌then◌else◌, ltb,
  map,
}
use devmate.Prelude.Text.{str_eq, is_blank}
use devmate.Prelude.Codes.{codes, starts_with}
use devmate.Json.{Json, look, text_of}
use devmate.Preconditions.Context.{
  Ctx, Missing, invalid, no_task_id, uncovered, no_criteria, no_review, foreign_review, other_lane,
  not_approved, Outcome, Mode, off, warn, block, Coverage, Reads, passed, refused, of_missing,
}

-- The task that a check is about: the context's, else the one of task.json.
abbrev pub or_recorded : Option String → Option Json → String
or_recorded none state = text_of (elim state [ none ↦ none | some s ↦ look s "taskId" ])
or_recorded (some task) state =
    if is_blank task then text_of (elim state [ none ↦ none | some s ↦ look s "taskId" ]) else task

abbrev pub is_block : Mode → Bool
is_block block = true
is_block _ = false

-- What a check that can be off does with what it misses: warning records it and lets it pass.
unfoldable pub by_mode : Mode → String → List Missing → Outcome
by_mode off contract missing = passed
by_mode block contract missing = of_missing missing []
by_mode warn contract [] = passed
by_mode warn contract (m ∷ missing) = record {
  ok = true;
  missing = [];
  recorded = record { contract = contract; errors = m ∷ missing } ∷ [];
}

abbrev pub without_task : Mode → Outcome
without_task block = refused (no_task_id ∷ [])
without_task _ = passed

-- A check that reads under the task's id: off, without a task, or by its mode.
unfoldable pub gated : Mode → String → String → List Missing → Outcome
gated off contract task missing = passed
gated mode contract task missing =
    if is_blank task then without_task mode else by_mode mode contract missing

-- `zeroAcFailure`, or the criteria that are not complete.
unfoldable pub coverage_missing : String → Coverage → List Missing
coverage_missing lane c =
    if str_eq lane "feature" && not (ltb 0 c.total)
    then no_criteria ∷ []
    else map uncovered c.open_criteria

-- `missing.push(m)` under a test.
abbrev pub push_if : Bool → Missing → List Missing
push_if true m = m ∷ []
push_if false m = []

unfoldable pub review_missing : Reads → String → String → Option Json → List Missing
review_missing r lane task none = no_review ∷ []
review_missing r lane task (some artifact) =
    let verdict = r.validate_review artifact in
    if verdict.ok
    then push_if (not (str_eq (text_of (look artifact "taskId")) task)) foreign_review
      ++ (push_if (not (str_eq (text_of (look artifact "lane")) lane)) other_lane
          ++ push_if
              (not (starts_with (codes "APPROVE") (codes (text_of (look artifact "verdict")))))
              not_approved)
    else map invalid verdict.errors

abbrev pub task_json : Reads → Option Json
task_json r = r.artifact "task.json"

unfoldable pub ac_coverage : Reads → Ctx → Outcome
ac_coverage r ctx =
    let task = or_recorded ctx.task_id (task_json r) in
    gated r.ac_mode "ac-coverage" task (coverage_missing ctx.lane (r.coverage task))

unfoldable pub pr_review : Reads → Ctx → Outcome
pr_review r ctx =
    let task = or_recorded ctx.task_id (task_json r) in
    gated r.review_mode "pr-review" task
      (review_missing r ctx.lane task (r.artifact "pr-review-result.json"))
