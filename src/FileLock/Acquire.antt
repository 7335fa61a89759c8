-- ===== src/FileLock/Acquire.antt =====
-- `withFileLock`, one access of the lock file at a time, and callers that take their steps in any
-- order. The file is what `JSON.parse` makes of its text, which is nothing for an empty file.
use Prim.Native.Nat.{ℕ}
use mathlib.Core.Logic.{ite, if_pos, if_neg}
use native.Mathlib.Decide.{ℕ_discrete}
use devmate.Prelude.{◌≡◌, ◌≢◌, String, Bool, true, false, Option, none, some, if◌then◌else◌, leb}
use devmate.Json.{Json, str, obj, end, field}
use devmate.FileLock.{LockInfo, read_lock_info, is_lock_stale}

pub data LockFile : Type 0 where
  absent : LockFile
  holds : Option Json → LockFile

-- The options of one call, with the deadline and the boot token that it computes first.
pub record Caller : Type 0 where
  pub owner : String
  pub start_token : String
  pub deadline : ℕ
  pub stale_reclaim_ms : ℕ

pub data Outcome : Type 0 where
  released : Outcome
  timed_out : Option LockInfo → Outcome
  open_failed : String → Outcome

-- Where a call stands: before `openSync`, before `readLockInfo`, before the rename of a lock that it
-- judged stale, before the write of the owner, in `fn`, before the removal, or at its end.
pub data Phase : Type 0 where
  opening reading stealing writing running releasing crashed : Phase
  finished : Outcome → Phase

-- What the host answers at one step. The clock is read for the age and again for the deadline.
pub record Answers : Type 0 where
  pub open_error : Option String
  pub now : ℕ
  pub now_again : ℕ
  pub alive : String → Option Bool
  pub renames : Bool
  pub writes : Bool
  pub removes : Bool
  pub ts : String

abbrev pub content : LockFile → Option Json
content absent = none
content (holds text) = text

-- `{ owner, ts, startToken }`.
abbrev pub lock_json : Caller → Answers → Json
lock_json caller a = obj (
    field "owner" (str caller.owner)
      (field "ts" (str a.ts) (field "startToken" (str caller.start_token) end)))

module _ (is_pid : String → Bool) (parse_date : String → Option ℕ) where
  -- Whether the caller judges the lock stale.
  unfoldable pub judges_stale : Caller → Answers → LockFile → Bool
  judges_stale caller a file =
      is_lock_stale is_pid parse_date (read_lock_info (content file)) a.now caller.stale_reclaim_ms
        a.alive caller.start_token

  unfoldable pub move : Caller → Answers → LockFile → Phase → LockFile × Phase
  move caller a absent opening = elim a.open_error [
    | none ↦ (holds none, writing)
    | some message ↦ (absent, finished (open_failed message))
  ]
  move caller a (holds text) opening = elim a.open_error [
    | none ↦ (holds text, reading)
    | some message ↦ (holds text, finished (open_failed message))
  ]
  move caller a file reading =
      if judges_stale caller a file
      then (file, stealing)
      else if leb caller.deadline a.now_again
      then (file, finished (timed_out (read_lock_info (content file))))
      else (file, opening)
  move caller a absent stealing = (absent, opening)
  move caller a (holds text) stealing =
      if a.renames then (absent, opening) else (holds text, opening)
  move caller a file writing =
      if a.writes then (holds (some (lock_json caller a)), running) else (file, running)
  move caller a file running = (file, releasing)
  move caller a file releasing =
      if a.removes then (absent, finished released) else (file, finished released)
  move caller a file crashed = (file, crashed)
  move caller a file (finished outcome) = (file, finished outcome)

abbrev pub update {ℓ} : {A : Type ℓ} → (ℕ → A) → ℕ → A → ℕ → A
update f i a j = ite (ℕ_discrete i j) a (f j)

pub update_own {ℓ} : {A : Type ℓ} (f : ℕ → A) (i : ℕ) (a : A) (j : ℕ) → i ≡ j → update f i a j ≡ a
update_own f i a j h = if_pos (ℕ_discrete i j) h a (f j)

pub update_other {ℓ} :
    {A : Type ℓ} (f : ℕ → A) (i : ℕ) (a : A) (j : ℕ) → i ≢ j → update f i a j ≡ f j
update_other f i a j h = if_neg (ℕ_discrete i j) h a (f j)

pub record System : Type 0 where
  pub file : LockFile
  pub phase : ℕ → Phase

-- Calls by their numbers. A step is one access of a call, with answers that the run allows, or the
-- death of a caller, which leaves the file as it is.
module _ (is_pid : String → Bool) (parse_date : String → Option ℕ) (callers : ℕ → Caller) where
  abbrev pub access_by : ℕ → Answers → System → System
  access_by i a s =
      let (file, phase) = move is_pid parse_date (callers i) a s.file (s.phase i) in
      record { file = file; phase = update s.phase i phase }

  pub data Step (Allowed : Answers → Type 0) (s : System) : System → Type 0 where
    access : (i : ℕ) (a : Answers) → Allowed a → Step Allowed s (access_by i a s)
    crash : (i : ℕ) → Step Allowed s (record { file = s.file; phase = update s.phase i crashed })

  pub data Reach (Allowed : Answers → Type 0) (from : System) : System → Type 0 where
    start : Reach Allowed from from
    later : {s t : System} → Reach Allowed from s → Step Allowed s t → Reach Allowed from t

-- The call has acquired the lock and has not released it.
abbrev pub has_lock : Phase → Bool
has_lock writing = true
has_lock running = true
has_lock releasing = true
has_lock _ = false
