-- ===== src/TaskState/Rename.antt =====
-- `commitRenameWithRetry` of lib/task-state.mjs. What the rename answers at each attempt is given
-- by a function of the attempt's number; the delay between the attempts is not kept.
pub mod Outcomes
use devmate.Prelude.{
  ℕ, zero, suc, ◌+◌, String, [], ◌∷◌, Bool, true, false, Option, none, some, if◌then◌else◌, List,
}
use devmate.Prelude.Text.{includes}
use devmate.Json.{Number}
use devmate.TaskState.Retry.{attempts_or}

pub data Outcome : Type 0 where
  renamed : Outcome
  refused : (code : Option String) → Outcome

pub data Renamed : Type 0 where
  done : Renamed
  threw : (code : Option String) → Renamed
  not_tried : Renamed

-- `TRANSIENT_RENAME_CODES`.
abbrev transient_rename_codes : List String
transient_rename_codes = "EPERM" ∷ "EACCES" ∷ "EBUSY" ∷ []

unfoldable pub is_transient : Option String → Bool
is_transient none = false
is_transient (some code) = includes transient_rename_codes code

-- One round: what follows is run only after a transient refusal that is not the last.
abbrev pub after_attempt : Outcome → (is_last : Bool) → Renamed → Renamed
after_attempt renamed is_last rest = done
after_attempt (refused code) true rest = threw code
after_attempt (refused code) false rest = if is_transient code then rest else threw code

-- The loop from an attempt on, with the number of attempts that are left.
pub rename_loop : (ℕ → Outcome) → ℕ → ℕ → Renamed
rename_loop rename attempt zero = not_tried
rename_loop rename attempt (suc zero) = after_attempt (rename attempt) true not_tried
rename_loop rename attempt (suc (suc left)) =
    after_attempt (rename attempt) false (rename_loop rename (suc attempt) (suc left))

unfoldable pub commit_rename_with_retry : (ℕ → Outcome) → Option Number → Renamed
unfolding rename_loop
commit_rename_with_retry rename attempts = rename_loop rename 0 (attempts_or 5 attempts)
