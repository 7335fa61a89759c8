-- ===== src/LoopGuard.antt =====
-- lib/loop: the guard that halts a verification loop, with lib/loop/no-progress.mjs,
-- lib/loop/cost-tracker.mjs and lib/digest-compare.mjs. The comparison of two byte buffers is a
-- parameter, and the count of changed files is the host's.
pub mod Halts
use Prim.Native.Char.{code}
use devmate.Prelude.{
  ℕ, ◌+◌, String, List, [], ◌∷◌, ◌++◌, Bool, true, false, not, ◌&&◌, Option, none, some,
  if◌then◌else◌, leb, ltb, ◌==◌,
}
use devmate.Prelude.Text.{str_eq}

pub data HaltReason : Type 0 where
  max_files_changed no_progress cost_cap_exceeded : HaltReason

-- `AnyLoopEvent`: an attempt, a halt, or another event of the trace.
pub data LoopEvent : Type 0 where
  loop_attempt :
      (attempt_id : String)
      → (output_digest : Option String) → (token_estimate : Option ℕ) → LoopEvent
  loop_halt : (attempt_id task_id : String) → HaltReason → (prior : Option String) → LoopEvent
  other_event : LoopEvent

-- `s.length`: the number of UTF-16 code units.
abbrev pub utf16_length : String → ℕ
utf16_length String.[] = 0
utf16_length (String.◌∷◌ c s) = (if ltb (code c) 65536 then 1 else 2) + utf16_length s

-- `digestsEqual`. The comparison stands for `timingSafeEqual`, on texts of one length in bytes as well:
-- it throws on others, which takes a digest that is no ASCII text.
unfoldable pub digests_equal : (String → String → Bool) → Option String → String → Bool
digests_equal same_bytes none b = false
digests_equal same_bytes (some a) b =
    if utf16_length a == utf16_length b then same_bytes a b else false

abbrev pub is_repeat : (String → String → Bool) → String → String → LoopEvent → Bool
is_repeat same_bytes current digest (loop_attempt id output tokens) =
    not (str_eq id current) && digests_equal same_bytes output digest
is_repeat same_bytes current digest _ = false

abbrev id_of : LoopEvent → String
id_of (loop_attempt id output tokens) = id
id_of _ = ""

-- `detectNoProgress`: the matched attempt, none where there is progress.
unfoldable pub detect_no_progress :
    (String → String → Bool) → String → String → List LoopEvent → Option String
detect_no_progress same_bytes current digest [] = none
detect_no_progress same_bytes current digest (e ∷ events) =
    let rest = detect_no_progress same_bytes current digest events in
    if is_repeat same_bytes current digest e then some (id_of e) else rest

abbrev tokens_of : LoopEvent → ℕ
tokens_of (loop_attempt id output (some n)) = n
tokens_of _ = 0

-- The total of `sumCumulativeCost`, and whether it has reached the cap.
unfoldable pub sum_cumulative_cost : List LoopEvent → ℕ
sum_cumulative_cost [] = 0
sum_cumulative_cost (e ∷ events) = tokens_of e + sum_cumulative_cost events

unfoldable pub cap_exceeded : Option ℕ → List LoopEvent → Bool
cap_exceeded none events = false
cap_exceeded (some cap) events = leb cap (sum_cumulative_cost events)

pub record GuardOptions : Type 0 where
  pub task_id : String
  pub attempt_id : String
  pub max_files : ℕ
  pub current_digest : String
  pub max_loop_tokens : Option ℕ

pub data GuardResult : Type 0 where
  allowed : GuardResult
  halted : HaltReason → GuardResult

-- The no-progress check, which an empty digest skips.
unfoldable pub repeated : (String → String → Bool) → GuardOptions → List LoopEvent → Option String
repeated same_bytes opts events =
    if str_eq opts.current_digest ""
    then none
    else detect_no_progress same_bytes opts.attempt_id opts.current_digest events

abbrev pub halt :
    GuardOptions → HaltReason → Option String → List LoopEvent → GuardResult × List LoopEvent
halt opts reason prior events =
    (halted reason, events ++ loop_halt opts.attempt_id opts.task_id reason prior ∷ [])

abbrev pub later_checks :
    GuardOptions → Option String → Bool → List LoopEvent → GuardResult × List LoopEvent
later_checks opts (some prior) over events = halt opts no_progress (some prior) events
later_checks opts none true events = halt opts cost_cap_exceeded none events
later_checks opts none false events = (allowed, events)

-- `assertBelowMaxFiles` passes.
abbrev pub below_max : ℕ → ℕ → Bool
below_max count limit = ltb count limit

-- `runLoopGuard` on the number of changed files and the events of the trace, with the trace after.
unfoldable pub run_loop_guard :
    (String → String → Bool)
    → GuardOptions
    → (count : ℕ) → List LoopEvent
    → GuardResult × List LoopEvent
run_loop_guard same_bytes opts count events =
    if below_max count opts.max_files
    then later_checks opts (repeated same_bytes opts events)
        (cap_exceeded opts.max_loop_tokens events) events
    else halt opts max_files_changed none events
