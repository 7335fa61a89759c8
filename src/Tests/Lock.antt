-- ===== src/Tests/Lock.antt =====
-- The file lock.
use native.Mathlib.Decide.{ℕ_discrete}
use devmate.Prelude.{
  ℕ, zero, suc, String, Bool, true, false, Option, none, some, List, [], ◌∷◌, ◌≡◌, refl, arith, inl,
}
use devmate.Json.{Json, str, obj, field, end, get}
use devmate.FileLock.{
  read_lock_info, parse_boot_token, bootid, epoch, owner_looks_recycled, is_lock_stale,
}
use devmate.FileLock.Acquire.{
  absent, holds, Caller, opening, running, Answers, judges_stale, move, System, Reach, start, later,
  access, access_by, has_lock,
}
use devmate.FileLock.Access.{AllAlive}
use devmate.FileLock.Exclusion.{Reach-unique}
use devmate.FileLock.Reclaim.{lone_run, reclaim_race, CannotSteal, IsTrying, lone_run-IsTrying}

bootid_token : parse_boot_token (some "bootid:x1") ≡ some (bootid "x1")
unfolding parse_boot_token
bootid_token = refl

bare_epoch : parse_boot_token (some "120") ≡ some (epoch 120)
unfolding parse_boot_token
bare_epoch = refl

not_digits : parse_boot_token (some "epoch:12a") ≡ none
unfolding parse_boot_token
not_digits = refl

abbrev any_pid : String → Bool
any_pid _ = true

abbrev at_zero : String → Option ℕ
at_zero _ = some 0

abbrev lock_of : String → String → Json
lock_of owner token =
    obj (field "owner" (str owner) (field "ts" (str "t0") (field "startToken" (str token) end)))

abbrev stale_at : ℕ → Option Bool → String → Bool
stale_at now alive current =
    is_lock_stale any_pid at_zero (read_lock_info (some (lock_of "9" "epoch:100"))) now 30000
      (λ _. alive) current

young_lock : stale_at 29999 (some false) "epoch:100" ≡ false
unfolding is_lock_stale read_lock_info get
young_lock = refl

dead_owner : stale_at 30000 (some false) "epoch:100" ≡ true
unfolding is_lock_stale read_lock_info get
dead_owner = refl

failed_probe : stale_at 30000 none "epoch:160" ≡ false
unfolding is_lock_stale owner_looks_recycled parse_boot_token read_lock_info get
failed_probe = refl

recycled_owner : stale_at 30000 (some true) "epoch:161" ≡ true
unfolding is_lock_stale owner_looks_recycled parse_boot_token read_lock_info get
recycled_owner = refl

abbrev caller_of : ℕ → Caller
caller_of zero = record {
  owner = "1";
  start_token = "epoch:5";
  deadline = 50000;
  stale_reclaim_ms = 30000;
}
caller_of (suc _) = record {
  owner = "2";
  start_token = "epoch:5";
  deadline = 50000;
  stale_reclaim_ms = 30000;
}

abbrev answers : Option Bool → Answers
answers alive = record {
  open_error = none;
  now = 40000;
  now_again = 40000;
  alive = λ _. alive;
  renames = true;
  writes = true;
  removes = true;
  ts = "t1";
}

abbrev no_lock : System
no_lock = record { file = absent; phase = λ _. opening }

abbrev contended : System
contended =
    access_by any_pid at_zero caller_of 1 (answers (some true))
      (access_by any_pid at_zero caller_of 0 (answers (some true)) no_lock)

contended-Reach : Reach any_pid at_zero caller_of AllAlive no_lock contended
contended-Reach =
    later (later start (access 0 (answers (some true)) (λ _. refl)))
      (access 1 (answers (some true)) (λ _. refl))

first_has_lock : has_lock (contended.phase 0) ≡ true
unfolding move ℕ_discrete
first_has_lock = refl

caller_of-token : (i : ℕ) → (caller_of i).start_token ≡ "epoch:5"
caller_of-token zero = refl
caller_of-token (suc i) = refl

Reach-unique_example : has_lock (contended.phase 1) ≡ false
Reach-unique_example =
    Reach-unique any_pid at_zero "epoch:5" caller_of caller_of-token contended contended-Reach 0 1
      (omega arith) first_has_lock

abbrev orphaned : System
orphaned = record { file = holds (some (lock_of "9" "epoch:5")); phase = λ _. opening }

orphan_is_stale :
    (i : ℕ) → judges_stale any_pid at_zero (caller_of i) (answers (some false)) orphaned.file ≡ true
unfolding judges_stale is_lock_stale read_lock_info get
orphan_is_stale zero = refl
orphan_is_stale (suc i) = refl

abbrev Anything : Answers → Type 0
Anything _ = Unit

reclaim_race_example :
    (t : System) × Reach any_pid at_zero caller_of Anything orphaned t
    × (t.phase 0 ≡ running)
    × (t.phase 1 ≡ running)
reclaim_race_example =
    reclaim_race any_pid at_zero caller_of Anything orphaned 0 1 (some (lock_of "9" "epoch:5"))
      (answers (some false)) (answers (some false)) (omega arith) refl refl refl (tt, tt)
      (refl, refl) (refl, refl) (refl, refl) (orphan_is_stale 0) (orphan_is_stale 1)

-- Answers long after the deadline, of a file system that refuses the rename.
abbrev refusing : Answers
refusing = record (answers (some false)) { now = 90000; now_again = 90000; renames = false }

still_stale :
    judges_stale any_pid at_zero (caller_of 1) refusing (holds (some (lock_of "9" "epoch:5")))
    ≡ true
unfolding judges_stale is_lock_stale read_lock_info get
still_stale = refl

abbrev four : List Answers
four = refusing ∷ refusing ∷ refusing ∷ refusing ∷ []

lone_run-IsTrying_example :
    ((lone_run any_pid at_zero caller_of 1 four orphaned).file
      ≡ holds (some (lock_of "9" "epoch:5")))
    × IsTrying any_pid at_zero caller_of
        ((lone_run any_pid at_zero caller_of 1 four orphaned).phase 1)
lone_run-IsTrying_example =
    lone_run-IsTrying any_pid at_zero caller_of four orphaned 1 (some (lock_of "9" "epoch:5")) refl
      (inl refl) (cannot, (cannot, (cannot, (cannot, tt))))
  where
    cannot : CannotSteal any_pid at_zero caller_of 1 (some (lock_of "9" "epoch:5")) refusing
    cannot = (refl, still_stale, refl)
